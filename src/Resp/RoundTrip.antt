-- ===== src/Resp/RoundTrip.antt =====
-- Objects without strings are read back from what is written for them (ext/um/um_io.c).
use uringmachine.Base.{
  ℕ, zero, suc, ◌+◌, ◌^◌, ◌≤◌, ◌<◌, ◌≡◌, refl, ap, ◌∙◌, true, false, List, [], ◌∷◌, ◌++◌, arith,
  ◌==◌, append_assoc, ℤ, pos, negsuc, Outcome, ok, ◌>>=◌,
}
use uringmachine.Stream.State.{Io}
use uringmachine.Stream.Content.{content, Consumed}
use uringmachine.Resp.Value.{
  Floats, Value, nil, bool, integer, float, string, error, array, hash, other, Items, no_items,
  item, Pairs, no_pairs, pair,
}
use uringmachine.Resp.Number.{decimal, signed}
use uringmachine.Resp.Digits.{
  AllDigits, decimal-AllDigits, resp_parse_length_field-decimal, strtol-signed, IsLong,
}
use uringmachine.Resp.Buffer.{crlf}
use uringmachine.Resp.Encode.{array_len, hash_size, is_fixnum}
use uringmachine.Resp.Text.{text, text_items, text_pairs}
use uringmachine.Resp.Line.{NoCr, IsSingle, resp_read_line-line}
use uringmachine.Resp.Decode.{
  Answer, stored_key, resp_decode_array, resp_decode_hash, resp_dispatch, resp_answer, resp_read,
}

-- The numbers from -2^62 to 2^62 - 1.
abbrev pub IsFixnum : ℤ → Type 0
IsFixnum (pos n) = n < 2 ^ 62
IsFixnum (negsuc n) = n < 2 ^ 62

-- Objects that are read back: no strings, errors or floats, and Integers from -2^62 to 2^62 - 1.
unfoldable mutual
  pub IsPlain : Value → Type 0
  IsPlain nil = Unit {0}
  IsPlain (bool b) = Unit {0}
  IsPlain (integer n) = IsFixnum n
  IsPlain (float x) = ⊥
  IsPlain (string s) = ⊥
  IsPlain (error s) = ⊥
  IsPlain (array vs) = (array_len vs < 2 ^ 63) × ArePlain vs
  IsPlain (hash ps) = (hash_size ps < 2 ^ 63) × ArePairsPlain ps
  IsPlain other = ⊥

  pub ArePlain : Items → Type 0
  ArePlain no_items = Unit {0}
  ArePlain (item v vs) = IsPlain v × ArePlain vs

  pub ArePairsPlain : Pairs → Type 0
  ArePairsPlain no_pairs = Unit {0}
  ArePairsPlain (pair k v ps) = IsPlain k × IsPlain v × ArePairsPlain ps

-- The number of objects in an object.
unfoldable mutual
  pub size : Value → ℕ
  size nil = 1
  size (bool b) = 1
  size (integer n) = 1
  size (float x) = 1
  size (string s) = 1
  size (error s) = 1
  size (array vs) = size_items vs + 1
  size (hash ps) = size_pairs ps + 1
  size other = 1

  pub size_items : Items → ℕ
  size_items no_items = 0
  size_items (item v vs) = size v + size_items vs

  pub size_pairs : Pairs → ℕ
  size_pairs no_pairs = 0
  size_pairs (pair k v ps) = size k + size v + size_pairs ps

fixnum-IsLong : (n : ℤ) → IsFixnum n → IsLong n
fixnum-IsLong (pos n) h = omega (arith, h)
fixnum-IsLong (negsuc n) h = omega (arith, h)

pub is_fixnum-IsFixnum : (n : ℤ) → IsFixnum n → is_fixnum n ≡ true
is_fixnum-IsFixnum (pos n) h = ground (arith, h)
is_fixnum-IsFixnum (negsuc n) h = ground (arith, h)

AllDigits-NoCr : (cs : List ℕ) → AllDigits cs → NoCr cs
AllDigits-NoCr [] h = tt
AllDigits-NoCr (c ∷ cs) h = (ground arith, AllDigits-NoCr cs h.2)

signed-NoCr : (n : ℤ) → NoCr (signed n)
unfolding signed
signed-NoCr (pos n) = AllDigits-NoCr (decimal n) (decimal-AllDigits n)
signed-NoCr (negsuc n) = (refl, AllDigits-NoCr (decimal (n + 1)) (decimal-AllDigits (n + 1)))

pub decimal-NoCr : (n : ℕ) → NoCr (decimal n)
decimal-NoCr n = AllDigits-NoCr (decimal n) (decimal-AllDigits n)

-- What is left behind an answer.
abbrev pub Leaves {ℓ} : {A : Type ℓ} → A → List ℕ → Outcome (A × List ℕ × Io) → Type ℓ
Leaves v rest r =
    (out : List ℕ) × (io : Io) × (r ≡ ok (v, out, io)) × IsSingle io × (content io ≡ rest)

pub Consumed-IsSingle : {n : ℕ} {io io' : Io} → IsSingle io → Consumed n io io' → IsSingle io'
Consumed-IsSingle s c = record { valid = c.valid; single = omega (arith, s.single, c.fewer) }

module _ (floats : Floats) where
  -- The first line of a message decides how it goes on.
  pub resp_read_head :
      (fuel c : ℕ) (cs rest : List ℕ) (io : Io) (out : List ℕ)
      → IsSingle io
      → NoCr (c ∷ cs)
      → content io ≡ (c ∷ cs) ++ (crlf ++ rest)
      → (io' : Io) × (resp_read floats (suc fuel) io out
          ≡ resp_dispatch (resp_read floats fuel) floats c cs io')
        × IsSingle io'
        × (content io' ≡ rest)
  unfolding resp_read resp_answer
  resp_read_head fuel c cs rest io out s h e =
      let (io', r, d, left) = resp_read_line-line io (c ∷ cs) rest s h e in
      (
        io',
        ap (λ x. x >>= resp_answer (resp_read floats fuel) floats out) r,
        Consumed-IsSingle s d,
        left,
      )

  pub regroup : (c : ℕ) (cs rest : List ℕ) → (c ∷ (cs ++ crlf)) ++ rest ≡ (c ∷ cs) ++ (crlf ++ rest)
  regroup c cs rest = ap (◌∷◌ c) (append_assoc cs crlf rest)

  -- A message that is one line.
  line-Leaves :
      (fuel c : ℕ) (cs rest : List ℕ) (io : Io) (out : List ℕ) (v : Value)
      → IsSingle io
      → NoCr (c ∷ cs)
      → content io ≡ (c ∷ (cs ++ crlf)) ++ rest
      → ((io' : Io) → resp_dispatch (resp_read floats fuel) floats c cs io' ≡ ok (v, c ∷ cs, io'))
      → Leaves v rest (resp_read floats (suc fuel) io out)
  line-Leaves fuel c cs rest io out v s h e d =
      let (io', r, s', left) = resp_read_head fuel c cs rest io out s h (e ∙ regroup c cs rest) in
      (c ∷ cs, io', r ∙ d io', s', left)

  -- A message of several, behind the line that counts them.
  pub many-Leaves :
      {A : Type 0} (fuel c n : ℕ) (body rest : List ℕ) (io : Io) (out : List ℕ) (a : A)
      (wrap : A → Value) (loop : Io → Answer A)
      → IsSingle io
      → ((c == 13) ≡ false)
      → content io ≡ ((c ∷ (decimal n ++ crlf)) ++ body) ++ rest
      → ((io' : Io)
          → resp_dispatch (resp_read floats fuel) floats c (decimal n) io'
            ≡ (loop io' >>= λ (x, out', last). ok (wrap x, out', last)))
      → ((io' : Io) → IsSingle io' → content io' ≡ body ++ rest → Leaves a rest (loop io'))
      → Leaves (wrap a) rest (resp_read floats (suc fuel) io out)
  many-Leaves fuel c n body rest io out a wrap loop s h e d l =
      let split =
        append_assoc (c ∷ (decimal n ++ crlf)) body rest ∙ regroup c (decimal n) (body ++ rest) in
      let (io', r, s', left) =
        resp_read_head fuel c (decimal n) (body ++ rest) io out s (h, decimal-NoCr n) (e ∙ split) in
      let (out', last, r', s'', left') = l io' s' left in
      (out', last, r ∙ d io' ∙ ap (λ x. x >>= λ (y, o, z). ok (wrap y, o, z)) r', s'', left')

stored_key-plain : (out : List ℕ) (v : Value) → IsPlain v → stored_key out v ≡ v
unfolding IsPlain
stored_key-plain out nil h = refl
stored_key-plain out (bool b) h = refl
stored_key-plain out (integer n) h = refl
stored_key-plain out (float x) h = refl
stored_key-plain out (string s) h = absurd h
stored_key-plain out (error s) h = refl
stored_key-plain out (array vs) h = refl
stored_key-plain out (hash ps) h = refl
stored_key-plain out other h = refl

module _ (floats : Floats) (shared : List ℕ) where
  mutual
    unfolding IsPlain size text resp_dispatch resp_decode_array resp_decode_hash

    read-Leaves :
        (v : Value) (fuel : ℕ) (io : Io) (out rest : List ℕ)
        → IsPlain v
        → size v ≤ fuel
        → IsSingle io
        → content io ≡ text floats shared v ++ rest
        → Leaves v rest (resp_read floats fuel io out)
    read-Leaves nil zero io out rest p f s e = absurd (omega arith)
    read-Leaves nil (suc fuel) io out rest p f s e =
        line-Leaves floats fuel 95 [] rest io out nil s (refl, tt) e (λ io'. refl)
    read-Leaves (bool b) zero io out rest p f s e = absurd (omega arith)
    read-Leaves (bool true) (suc fuel) io out rest p f s e =
        line-Leaves floats fuel 35 (116 ∷ []) rest io out (bool true) s (refl, (refl, tt)) e
          (λ io'. refl)
    read-Leaves (bool false) (suc fuel) io out rest p f s e =
        line-Leaves floats fuel 35 (102 ∷ []) rest io out (bool false) s (refl, (refl, tt)) e
          (λ io'. refl)
    read-Leaves (integer n) zero io out rest p f s e = absurd (omega arith)
    read-Leaves (integer n) (suc fuel) io out rest p f s e =
        line-Leaves floats fuel 58 (signed n) rest io out (integer n) s (refl, signed-NoCr n) e
          (λ io'.
            ap (λ m. ok (integer m, 58 ∷ signed n, io')) (strtol-signed n (fixnum-IsLong n p)))
    read-Leaves (float x) fuel io out rest p f s e = absurd p
    read-Leaves (string x) fuel io out rest p f s e = absurd p
    read-Leaves (error x) fuel io out rest p f s e = absurd p
    read-Leaves other fuel io out rest p f s e = absurd p
    read-Leaves (array vs) zero io out rest p f s e = absurd (omega arith)
    read-Leaves (array vs) (suc fuel) io out rest p f s e =
        let n = array_len vs in
        let line : List ℕ = 42 ∷ decimal n in
        many-Leaves floats fuel 42 n (text_items floats shared vs) rest io out vs array
          (λ io'. resp_decode_array (resp_read floats fuel) n io' line) s refl e
          (λ io'.
            ap
              (λ k. resp_decode_array (resp_read floats fuel) k io' line >>= λ (x, o, z).
                ok (array x, o, z))
              (resp_parse_length_field-decimal 42 n (omega (arith, p.0))))
          (λ io' s' e'. items-Leaves vs fuel io' line rest p.1 (omega arith) s' e')
    read-Leaves (hash ps) zero io out rest p f s e = absurd (omega arith)
    read-Leaves (hash ps) (suc fuel) io out rest p f s e =
        let n = hash_size ps in
        let line : List ℕ = 37 ∷ decimal n in
        many-Leaves floats fuel 37 n (text_pairs floats shared ps) rest io out ps hash
          (λ io'. resp_decode_hash (resp_read floats fuel) n io' line) s refl e
          (λ io'.
            ap
              (λ k. resp_decode_hash (resp_read floats fuel) k io' line >>= λ (x, o, z).
                ok (hash x, o, z))
              (resp_parse_length_field-decimal 37 n (omega (arith, p.0))))
          (λ io' s' e'. pairs-Leaves ps fuel io' line rest p.1 (omega arith) s' e')

    items-Leaves :
        (vs : Items) (fuel : ℕ) (io : Io) (out rest : List ℕ)
        → ArePlain vs
        → size_items vs ≤ fuel
        → IsSingle io
        → content io ≡ text_items floats shared vs ++ rest
        → Leaves vs rest (resp_decode_array (resp_read floats fuel) (array_len vs) io out)
    items-Leaves no_items fuel io out rest p f s e = (out, io, refl, s, e)
    items-Leaves (item v vs) fuel io out rest p f s e =
        let tail = text_items floats shared vs in
        let (out₁, io₁, r₁, s₁, e₁) =
          read-Leaves v fuel io out (tail ++ rest) p.0 (omega arith) s
            (e ∙ append_assoc (text floats shared v) tail rest) in
        let (out₂, io₂, r₂, s₂, e₂) = items-Leaves vs fuel io₁ out₁ rest p.1 (omega arith) s₁ e₁ in
        (out₂, io₂, simp (r₁, r₂), s₂, e₂)

    pairs-Leaves :
        (ps : Pairs) (fuel : ℕ) (io : Io) (out rest : List ℕ)
        → ArePairsPlain ps
        → size_pairs ps ≤ fuel
        → IsSingle io
        → content io ≡ text_pairs floats shared ps ++ rest
        → Leaves ps rest (resp_decode_hash (resp_read floats fuel) (hash_size ps) io out)
    pairs-Leaves no_pairs fuel io out rest p f s e = (out, io, refl, s, e)
    pairs-Leaves (pair k v ps) fuel io out rest p f s e =
        let key = text floats shared k in
        let value = text floats shared v in
        let tail = text_pairs floats shared ps in
        let (out₁, io₁, r₁, s₁, e₁) =
          read-Leaves k fuel io out (value ++ (tail ++ rest)) p.0 (omega arith) s
            (e ∙ append_assoc (key ++ value) tail rest ∙ append_assoc key value (tail ++ rest)) in
        let (out₂, io₂, r₂, s₂, e₂) =
          read-Leaves v fuel io₁ out₁ (tail ++ rest) p.1 (omega arith) s₁ e₁ in
        let (out₃, io₃, r₃, s₃, e₃) = pairs-Leaves ps fuel io₂ out₂ rest p.2 (omega arith) s₂ e₂ in
        (out₃, io₃, simp (r₁, r₂, r₃, stored_key-plain out₂ k p.0), s₃, e₃)

  -- An object without strings, errors and floats, whose message is the next in a stream that has all
  -- its bytes in one segment, is read back as it is, and the stream goes on behind the message. Fuel
  -- for the number of objects in it is enough.
  pub resp_read-text :
      (v : Value) (fuel : ℕ) (io : Io) (out rest : List ℕ)
      → IsPlain v
      → size v ≤ fuel
      → IsSingle io
      → content io ≡ text floats shared v ++ rest
      → (out' : List ℕ) × (io' : Io) × (resp_read floats fuel io out ≡ ok (v, out', io'))
        × IsSingle io'
        × (content io' ≡ rest)
  resp_read-text v fuel io out rest p f s e = read-Leaves v fuel io out rest p f s e
