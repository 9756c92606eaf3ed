-- ===== src/Resp/Text.antt =====
-- What `resp_encode` writes (ext/um/um_io.c): the text of the message, as long as it fits in the first
-- page of the buffer.
use uringmachine.Base.{
  ℕ, zero, suc, ◌+◌, ◌≤◌, ◌<◌, ◌≡◌, refl, sym, ap, ◌∙◌, ◌⊎◌, true, false, List, [], ◌∷◌, ◌++◌,
  arith, ltb, length, length-append, append-nil, append_assoc, Outcome, ok, raised, cannot_encode,
  ◌>>=◌, if◌then◌else◌, subst,
}
use uringmachine.Resp.Value.{
  contents, Floats, Value, nil, bool, integer, float, string, error, array, hash, other, Items,
  no_items, item, Pairs, no_pairs, pair,
}
use uringmachine.Resp.Number.{decimal, signed}
use uringmachine.Resp.Buffer.{
  WriteBuffer, crlf, page, grow_capa, write_buffer_expand, store, write_buffer_append,
  write_buffer_append_resp_bulk_string,
}
use uringmachine.Resp.Encode.{
  array_len, hash_size, is_fixnum, resp_encode, encode_items, encode_pairs,
}

-- The loop of `write_buffer_expand` stops at the first size that is enough.
pub grow_capa_bounds :
    (rounds capa size : ℕ)
    → size ≤ capa + rounds
    → (size ≤ grow_capa rounds capa size)
      × (((size ≤ capa) × (grow_capa rounds capa size ≡ capa))
          ⊎ ((capa + page ≤ grow_capa rounds capa size)
              × (grow_capa rounds capa size < size + page)))
unfolding grow_capa
grow_capa_bounds zero capa size h = ground arith
grow_capa_bounds (suc rounds) capa size h =
    ground (arith, grow_capa_bounds rounds (capa + page) size)

-- A buffer whose string has at least a page of memory.
pub record IsAmple (buf : WriteBuffer) : Type 0 where
  pub capa : page ≤ buf.capa
  pub str_capa : page ≤ buf.str_capa

expand-IsAmple :
    (buf : WriteBuffer) (newsize : ℕ) → IsAmple buf → IsAmple (write_buffer_expand buf newsize)
unfolding write_buffer_expand
expand-IsAmple buf newsize a =
    ground (arith, grow_capa_bounds newsize buf.capa newsize, a.capa, a.str_capa)

expand_bytes :
    (buf : WriteBuffer) (newsize : ℕ) → (write_buffer_expand buf newsize).bytes ≡ buf.bytes
unfolding write_buffer_expand
expand_bytes buf newsize = ground arith

-- A write that ends in the first page, however the buffer was expanded before.
store-page :
    (buf : WriteBuffer) (newsize : ℕ) (xs : List ℕ)
    → IsAmple buf
    → length buf.bytes + length xs ≤ page
    → (last : WriteBuffer) × (store (write_buffer_expand buf newsize) xs ≡ ok last)
      × (last.bytes ≡ buf.bytes ++ xs)
      × IsAmple last
unfolding store
store-page buf newsize xs a h =
    let b = expand-IsAmple buf newsize a in
    let kept : (write_buffer_expand buf newsize).bytes ≡ buf.bytes = expand_bytes buf newsize in
    let fits : ltb (write_buffer_expand buf newsize).str_capa
          (length (write_buffer_expand buf newsize).bytes + length xs)
        ≡ false =
      ground (arith, b.str_capa, ap length kept) in
    (
      record (write_buffer_expand buf newsize) {
        bytes = (write_buffer_expand buf newsize).bytes ++ xs;
      },
      rw fits,
      ap (λ ys. ys ++ xs) kept,
      record { capa = b.capa; str_capa = b.str_capa },
    )

-- The text of each object. Objects that cannot be encoded have none.
module _ (floats : Floats) (shared : List ℕ) where
  unfoldable mutual
    pub text : Value → List ℕ
    text nil = 95 ∷ crlf
    text (bool false) = 35 ∷ 102 ∷ crlf
    text (bool true) = 35 ∷ 116 ∷ crlf
    text (integer n) = 58 ∷ (signed n ++ crlf)
    text (float x) = 44 ∷ (floats.lg x ++ crlf)
    text (string s) =
        36 ∷ (decimal (length (contents shared s)) ++ (crlf ++ (contents shared s ++ crlf)))
    text (array vs) = (42 ∷ (decimal (array_len vs) ++ crlf)) ++ text_items vs
    text (hash ps) = (37 ∷ (decimal (hash_size ps) ++ crlf)) ++ text_pairs ps
    text (error s) = []
    text other = []

    pub text_items : Items → List ℕ
    text_items no_items = []
    text_items (item v vs) = text v ++ text_items vs

    pub text_pairs : Pairs → List ℕ
    text_pairs no_pairs = []
    text_pairs (pair k v ps) = (text k ++ text v) ++ text_pairs ps

-- No part of the object is refused.
unfoldable mutual
  pub CanEncode : Value → Type 0
  CanEncode nil = Unit {0}
  CanEncode (bool b) = Unit {0}
  CanEncode (integer n) = is_fixnum n ≡ true
  CanEncode (float x) = Unit {0}
  CanEncode (string s) = Unit {0}
  CanEncode (array vs) = CanEncodeItems vs
  CanEncode (hash ps) = CanEncodePairs ps
  CanEncode (error s) = ⊥
  CanEncode other = ⊥

  pub CanEncodeItems : Items → Type 0
  CanEncodeItems no_items = Unit {0}
  CanEncodeItems (item v vs) = CanEncode v × CanEncodeItems vs

  pub CanEncodePairs : Pairs → Type 0
  CanEncodePairs no_pairs = Unit {0}
  CanEncodePairs (pair k v ps) = CanEncode k × CanEncode v × CanEncodePairs ps

-- A step of the encoder that writes `xs`.
abbrev pub Writes : List ℕ → WriteBuffer → Outcome WriteBuffer → Type 0
Writes xs buf r =
    (last : WriteBuffer) × (r ≡ ok last) × (last.bytes ≡ buf.bytes ++ xs) × IsAmple last

-- One step behind the other.
Writes-bind :
    (xs ys : List ℕ) (buf : WriteBuffer) (r : Outcome WriteBuffer)
    (f : WriteBuffer → Outcome WriteBuffer)
    → length buf.bytes + length (xs ++ ys) ≤ page
    → (length buf.bytes + length xs ≤ page → Writes xs buf r)
    → ((b : WriteBuffer) → IsAmple b → length b.bytes + length ys ≤ page → Writes ys b (f b))
    → Writes (xs ++ ys) buf (r >>= f)
Writes-bind xs ys buf r f h w k =
    let n = length-append xs ys in
    let (b, e, eq, a) = w (omega (arith, h, n)) in
    let (c, e', eq', a') = k b a (omega (arith, h, n, ap length eq, length-append buf.bytes xs)) in
    (c, ap (λ o. o >>= f) e ∙ e', eq' ∙ ap (λ zs. zs ++ ys) eq ∙ append_assoc buf.bytes xs ys, a')

append-Writes :
    (buf : WriteBuffer) (xs : List ℕ)
    → IsAmple buf
    → length buf.bytes + length xs ≤ page
    → Writes xs buf (write_buffer_append buf xs)
unfolding write_buffer_append
append-Writes buf xs a h = store-page buf (length buf.bytes + length xs) xs a h

bulk-Writes :
    (buf : WriteBuffer) (str : List ℕ)
    → IsAmple buf
    → length buf.bytes + length (36 ∷ (decimal (length str) ++ (crlf ++ (str ++ crlf)))) ≤ page
    → Writes
        (36 ∷ (decimal (length str) ++ (crlf ++ (str ++ crlf))))
        buf
        (write_buffer_append_resp_bulk_string buf str)
unfolding write_buffer_append_resp_bulk_string
bulk-Writes buf str a h =
    store-page buf (length buf.bytes + length str + 16)
      (36 ∷ (decimal (length str) ++ (crlf ++ (str ++ crlf)))) a h

module _ (floats : Floats) (shared : List ℕ) where
  mutual
    unfolding resp_encode text CanEncode

    encode-Writes :
        (v : Value) (buf : WriteBuffer)
        → CanEncode v
        → IsAmple buf
        → length buf.bytes + length (text floats shared v) ≤ page
        → Writes (text floats shared v) buf (resp_encode floats shared v buf)
    encode-Writes nil buf c a h = append-Writes buf (95 ∷ crlf) a h
    encode-Writes (bool false) buf c a h = append-Writes buf (35 ∷ 102 ∷ crlf) a h
    encode-Writes (bool true) buf c a h = append-Writes buf (35 ∷ 116 ∷ crlf) a h
    encode-Writes (integer n) buf c a h =
        let xs : List ℕ = 58 ∷ (signed n ++ crlf) in
        subst (λ b. Writes xs buf (if b then write_buffer_append buf xs else raised cannot_encode))
          (sym c) (append-Writes buf xs a h)
    encode-Writes (float x) buf c a h = append-Writes buf (44 ∷ (floats.lg x ++ crlf)) a h
    encode-Writes (string s) buf c a h = bulk-Writes buf (contents shared s) a h
    encode-Writes (array vs) buf c a h =
        let head : List ℕ = 42 ∷ (decimal (array_len vs) ++ crlf) in
        Writes-bind head (text_items floats shared vs) buf (write_buffer_append buf head)
          (encode_items floats shared vs) h (append-Writes buf head a)
          (λ b a' h'. items-Writes vs b c a' h')
    encode-Writes (hash ps) buf c a h =
        let head : List ℕ = 37 ∷ (decimal (hash_size ps) ++ crlf) in
        Writes-bind head (text_pairs floats shared ps) buf (write_buffer_append buf head)
          (encode_pairs floats shared ps) h (append-Writes buf head a)
          (λ b a' h'. pairs-Writes ps b c a' h')
    encode-Writes (error s) buf c a h = absurd c
    encode-Writes other buf c a h = absurd c

    items-Writes :
        (vs : Items) (buf : WriteBuffer)
        → CanEncodeItems vs
        → IsAmple buf
        → length buf.bytes + length (text_items floats shared vs) ≤ page
        → Writes (text_items floats shared vs) buf (encode_items floats shared vs buf)
    items-Writes no_items buf c a h = (buf, refl, sym (append-nil buf.bytes), a)
    items-Writes (item v vs) buf c a h =
        Writes-bind (text floats shared v) (text_items floats shared vs) buf
          (resp_encode floats shared v buf) (encode_items floats shared vs) h
          (encode-Writes v buf c.0 a) (λ b a' h'. items-Writes vs b c.1 a' h')

    pairs-Writes :
        (ps : Pairs) (buf : WriteBuffer)
        → CanEncodePairs ps
        → IsAmple buf
        → length buf.bytes + length (text_pairs floats shared ps) ≤ page
        → Writes (text_pairs floats shared ps) buf (encode_pairs floats shared ps buf)
    pairs-Writes no_pairs buf c a h = (buf, refl, sym (append-nil buf.bytes), a)
    pairs-Writes (pair k v ps) buf c a h =
        let key = text floats shared k in
        let value = text floats shared v in
        Writes-bind (key ++ value) (text_pairs floats shared ps) buf
          (resp_encode floats shared k buf >>= resp_encode floats shared v)
          (encode_pairs floats shared ps) h
          (λ h'.
            Writes-bind key value buf (resp_encode floats shared k buf)
              (resp_encode floats shared v) h' (encode-Writes k buf c.0 a)
              (λ b a' h''. encode-Writes v b c.1 a' h''))
          (λ b a' h'. pairs-Writes ps b c.2 a' h')

  -- `resp_encode` of an object that can be encoded writes the text of its message behind what the
  -- buffer holds, as long as all of it fits in one page of 4096 bytes.
  pub resp_encode-text :
      (v : Value) (buf : WriteBuffer)
      → CanEncode v
      → IsAmple buf
      → length buf.bytes + length (text floats shared v) ≤ page
      → (last : WriteBuffer) × (resp_encode floats shared v buf ≡ ok last)
        × (last.bytes ≡ buf.bytes ++ text floats shared v)
        × IsAmple last
  resp_encode-text v buf c a h = encode-Writes v buf c a h
