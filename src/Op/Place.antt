-- ===== src/Op/Place.antt =====
-- Where `um_read` and `um_recv` put what they read (ext/um/um_utils.c).
use uringmachine.Base.{
  ℕ, zero, suc, ◌+◌, ◌-◌, ◌%◌, ◌^◌, ◌≤◌, ◌<◌, ◌≡◌, refl, sym, ap, ◌∙◌, List, [], ◌∷◌, ◌++◌, arith,
  ltb, ◌==◌, if◌then◌else◌, length, take, eq_refl, subst, is_zero, false, inl, inr, Bool-cases, ℤ,
  pos, negsuc, ok,
}
use uringmachine.Op.Memory.{
  string, ReadBuffer, as_size, place_of, um_prepare_read_buffer, deliver, kernel_writes,
  adjust_read_buffer_len, um_update_read_buffer, read_into,
}

-- The offset is a place in the contents of an object, or behind them: from the front, or, where it is
-- negative, from the end.
abbrev pub IsPlace : (len : ℕ) → ℤ → (place : ℕ) → Type 0
IsPlace len (pos o) place = (o ≡ place) × (o ≤ len)
IsPlace len (negsuc k) place = k + place ≡ len

IsPlace-le : (len : ℕ) (ofs : ℤ) (place : ℕ) → IsPlace len ofs place → place ≤ len
IsPlace-le len (pos o) place h = omega (arith, h.0, h.1)
IsPlace-le len (negsuc k) place h = omega arith

place_of-place :
    (len : ℕ) (ofs : ℤ) (place : ℕ)
    → len < 2 ^ 32
    → IsPlace len ofs place
    → place_of len ofs ≡ place
unfolding place_of as_size
place_of-place len (pos o) place b h = omega (arith, h.0, h.1)
place_of-place len (negsuc k) place b h = omega arith

-- The bytes of a part of the memory.
abbrev pub bytes_at : (ℕ → ℕ) → (from count : ℕ) → List ℕ
bytes_at memory from zero = []
bytes_at memory from (suc count) = memory from ∷ bytes_at memory (from + 1) count

abbrev pub contents : ReadBuffer → List ℕ
contents buffer = bytes_at buffer.memory 0 buffer.len

deliver-below :
    (memory : ℕ → ℕ) (place : ℕ) (xs : List ℕ) (i : ℕ)
    → i < place
    → deliver memory place xs i ≡ memory i
unfolding deliver
deliver-below memory place [] i h = refl
deliver-below memory place (x ∷ xs) i h =
    deliver-below (λ j. if j == place then x else memory j) (place + 1) xs i (omega arith)
    ∙ ground arith

bytes_at-deliver_below :
    (memory : ℕ → ℕ) (place : ℕ) (xs : List ℕ) (from count : ℕ)
    → from + count ≤ place
    → bytes_at (deliver memory place xs) from count ≡ bytes_at memory from count
bytes_at-deliver_below memory place xs from zero h = refl
bytes_at-deliver_below memory place xs from (suc count) h = simp (
  deliver-below memory place xs from (omega arith),
  bytes_at-deliver_below memory place xs (from + 1) count (omega arith),
)

bytes_at-deliver :
    (memory : ℕ → ℕ) (place : ℕ) (xs : List ℕ)
    → bytes_at (deliver memory place xs) place (length xs) ≡ xs
unfolding deliver
bytes_at-deliver memory place [] = refl
bytes_at-deliver memory place (x ∷ xs) =
    let next : ℕ → ℕ = λ j. if j == place then x else memory j in
    let here : next place ≡ x = rw (eq_refl place) in
    let first : deliver next (place + 1) xs place ≡ x =
      deliver-below next (place + 1) xs place (omega arith) ∙ here in
    (λ i. first i ∷ bytes_at-deliver next (place + 1) xs i)

bytes_at-append :
    (memory : ℕ → ℕ) (from m n : ℕ)
    → bytes_at memory from (m + n) ≡ bytes_at memory from m ++ bytes_at memory (from + m) n
bytes_at-append memory from zero n =
    let z : 0 + n ≡ n = omega arith in let z' : from + 0 ≡ from = omega arith in simp (z, z')
bytes_at-append memory from (suc m) n =
    let s : suc m + n ≡ suc (m + n) = omega arith in
    let s' : from + suc m ≡ from + 1 + m = omega arith in
    ap (bytes_at memory from) s
    ∙ ap (◌∷◌ (memory from)) (bytes_at-append memory (from + 1) m n)
    ∙ ap (λ k. bytes_at memory from (suc m) ++ bytes_at memory k n) (sym s')

take-bytes_at :
    (memory : ℕ → ℕ) (n from count : ℕ)
    → n ≤ count
    → take n (bytes_at memory from count) ≡ bytes_at memory from n
take-bytes_at memory zero from count h = refl
take-bytes_at memory (suc n) from zero h = absurd (omega arith)
take-bytes_at memory (suc n) from (suc count) h =
    ap (◌∷◌ (memory from)) (take-bytes_at memory n (from + 1) count (omega arith))

-- A string whose memory holds its contents.
pub record IsSound (buffer : ReadBuffer) : Type 0 where
  pub kind : buffer.kind ≡ string
  pub within : buffer.len ≤ buffer.capa
  pub short : buffer.len < 2 ^ 32

-- The place that a string is prepared for has room for as many bytes as were asked for, and the
-- contents of the string are as before.
pub um_prepare_read_buffer-bounds :
    (buffer : ReadBuffer) (maxlen : ℕ) (ofs : ℤ) (place : ℕ)
    → IsSound buffer
    → maxlen < 2 ^ 32
    → IsPlace buffer.len ofs place
    → (after : ReadBuffer) × (um_prepare_read_buffer buffer maxlen ofs ≡ ok (place, after))
      × (place + maxlen ≤ after.capa)
      × IsSound after
      × (after.len ≡ buffer.len)
      × (after.memory ≡ buffer.memory)
unfolding um_prepare_read_buffer
um_prepare_read_buffer-bounds buffer maxlen ofs place s b h =
    let p = place_of-place buffer.len ofs place s.short h in
    let l = IsPlace-le buffer.len ofs place h in
    let small : (maxlen == 2 ^ 64 - 1) ≡ false = ground arith in
    let sum : (maxlen + place) % 2 ^ 64 ≡ maxlen + place = omega (arith, s.short) in
    elim (Bool-cases (ltb buffer.len (maxlen + place))) [
      | inl e ↦ (
        record buffer { capa = buffer.len + (maxlen + place) },
        simp (um_prepare_read_buffer, s.kind, p, small, sum, e),
        omega arith,
        record { kind = s.kind; within = omega arith; short = s.short },
        refl,
        refl,
      )
      | inr e ↦ (
        buffer,
        simp (um_prepare_read_buffer, s.kind, p, small, sum, e),
        ground (arith, s.within),
        s,
        refl,
        refl,
      )
    ]

update_read_buffer-len :
    (buffer : ReadBuffer) (ofs : ℤ) (place n : ℕ)
    → IsSound buffer
    → IsPlace buffer.len ofs place
    → 0 < n
    → place + n < 2 ^ 32
    → um_update_read_buffer buffer ofs (pos n) ≡ record buffer { len = place + n }
unfolding um_update_read_buffer adjust_read_buffer_len as_size
update_read_buffer-len buffer ofs place n s h z b =
    let l : buffer.len % 2 ^ 32 ≡ buffer.len = omega (arith, s.short) in
    let p = ap (λ k. place_of k ofs) l ∙ place_of-place buffer.len ofs place s.short h in
    let below = IsPlace-le buffer.len ofs place h in
    let size : n % 2 ^ 64 ≡ n = omega arith in
    let whole : (n % 2 ^ 32 + place % 2 ^ 32) % 2 ^ 32 ≡ place + n = omega arith in
    let some_bytes : is_zero n ≡ false = ground arith in
    simp (adjust_read_buffer_len, um_update_read_buffer, size, some_bytes, s.kind, p, whole)

-- A read of at least one byte, and no more than were asked for, into a string: the string ends at the
-- place given by the offset, and goes on with the bytes that were read; what was behind the place is
-- gone. Nothing is written past the memory of the string. Stated for strings and reads of less than
-- 2^32 bytes.
pub read_into-contents :
    (buffer : ReadBuffer) (maxlen : ℕ) (ofs : ℤ) (place : ℕ) (xs : List ℕ)
    → IsSound buffer
    → place + maxlen < 2 ^ 32
    → IsPlace buffer.len ofs place
    → 0 < length xs
    → length xs ≤ maxlen
    → (after : ReadBuffer) × (read_into buffer maxlen ofs xs ≡ ok after)
      × IsSound after
      × (contents after ≡ take place (contents buffer) ++ xs)
unfolding read_into kernel_writes
read_into-contents buffer maxlen ofs place xs s b h z m =
    let (b₁, r, room, s₁, l, e) =
      um_prepare_read_buffer-bounds buffer maxlen ofs place s (omega arith) h in
    let n = length xs in
    let b₂ : ReadBuffer = record b₁ { memory = deliver b₁.memory place xs } in
    let s₂ : IsSound b₂ = record { kind = s₁.kind; within = s₁.within; short = s₁.short } in
    let h₂ : IsPlace b₂.len ofs place = subst (λ k. IsPlace k ofs place) (sym l) h in
    let fits : ltb b₁.capa (place + n) ≡ false = ground arith in
    let zero_place : 0 + place ≡ place = omega arith in
    let u = update_read_buffer-len b₂ ofs place n s₂ h₂ z (omega arith) in
    let written = deliver b₁.memory place xs in
    (
      record b₂ { len = place + n },
      simp (r, fits, u),
      record { kind = s₁.kind; within = omega arith; short = omega arith },
      bytes_at-append written 0 place n
          ∙ (λ i.
              bytes_at-deliver_below b₁.memory place xs 0 place (omega arith) i
              ++ bytes_at written (zero_place i) n)
          ∙ (λ i. bytes_at (e i) 0 place ++ bytes_at-deliver b₁.memory place xs i)
          ∙ ap (λ ys. ys ++ xs)
              (sym (
                take-bytes_at buffer.memory place 0 buffer.len
                  (IsPlace-le buffer.len ofs place h))),
    )
