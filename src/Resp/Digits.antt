-- ===== src/Resp/Digits.antt =====
-- What is printed as a number is read as that number (ext/um/um_io.c).
use uringmachine.Base.{
  ℕ, zero, suc, ◌+◌, ◌-◌, ◌*◌, ◌/◌, ◌%◌, ◌^◌, ◌<◌, ◌≤◌, ◌≡◌, refl, ap, ◌∙◌, inl, inr, true, List,
  [], ◌∷◌, ◌++◌, arith, ltb, Bool-cases, ℤ, pos, negsuc,
}
use uringmachine.Resp.Number.{
  digits, decimal, signed, digit_value, accumulate, resp_parse_length_field, is_digit,
  strtol_digits, strtol_pos, strtol_neg, strtol,
}

abbrev pub AllDigits : List ℕ → Type 0
AllDigits [] = Unit {0}
AllDigits (c ∷ cs) = (48 ≤ c) × (c < 58) × AllDigits cs

abbrev pow10 : ℕ → ℕ
pow10 zero = 1
pow10 (suc n) = 10 * pow10 n

AllDigits-append : (xs ys : List ℕ) → AllDigits xs → AllDigits ys → AllDigits (xs ++ ys)
AllDigits-append [] ys h k = k
AllDigits-append (c ∷ cs) ys h k = (h.0, h.1, AllDigits-append cs ys h.2 k)

pub digits-AllDigits : (rounds n : ℕ) → AllDigits (digits rounds n)
unfolding digits
digits-AllDigits zero n = tt
digits-AllDigits (suc rounds) n = elim (Bool-cases (ltb n 10)) [
  | inl e ↦ rw e (omega arith, ground arith, tt)
  | inr e ↦ rw e (
      AllDigits-append (digits rounds (n / 10)) ((48 + n % 10) ∷ [])
        (digits-AllDigits rounds (n / 10)) (omega arith, omega arith, tt))
]

-- Reading the digits after an accumulated number.
accumulate-append :
    (acc : ℕ) (xs ys : List ℕ) → accumulate acc (xs ++ ys) ≡ accumulate (accumulate acc xs) ys
unfolding accumulate
accumulate-append acc [] ys = refl
accumulate-append acc (c ∷ cs) ys = accumulate-append ((acc * 10 + digit_value c) % 2 ^ 64) cs ys

digit_value-digit : (d : ℕ) → d < 10 → digit_value (48 + d) ≡ d
unfolding digit_value
digit_value-digit d h = ground arith

accumulate_last :
    (acc d : ℕ) → d < 10 → acc * 10 + d < 2 ^ 64 → accumulate acc ((48 + d) ∷ []) ≡ acc * 10 + d
unfolding accumulate
accumulate_last acc d h k = rw (digit_value-digit d h) (omega arith)

accumulate-digits :
    (rounds n : ℕ) → n < pow10 rounds → n < 2 ^ 64 → accumulate 0 (digits rounds n) ≡ n
unfolding digits accumulate
accumulate-digits zero n h k = omega arith
accumulate-digits (suc rounds) n h k = elim (Bool-cases (ltb n 10)) [
  | inl e ↦
      let small : n < 10 = ground arith in
      rw e (accumulate_last 0 n small (omega arith) ∙ omega arith)
  | inr e ↦ rw e (
      accumulate-append 0 (digits rounds (n / 10)) ((48 + n % 10) ∷ [])
      ∙ ap (λ m. accumulate m ((48 + n % 10) ∷ []))
          (accumulate-digits rounds (n / 10) (omega arith) (omega arith))
      ∙ accumulate_last (n / 10) (n % 10) (omega arith) (omega arith)
      ∙ omega arith)
]

-- A length is read back from the first line of a message.
pub resp_parse_length_field-decimal :
    (c n : ℕ) → n < 2 ^ 64 → resp_parse_length_field (c ∷ decimal n) ≡ n
unfolding resp_parse_length_field decimal
resp_parse_length_field-decimal c n h = accumulate-digits 20 n (omega arith) h

strtol_digits-append :
    (acc : ℕ) (xs ys : List ℕ)
    → AllDigits xs
    → strtol_digits acc (xs ++ ys) ≡ strtol_digits (strtol_digits acc xs) ys
unfolding strtol_digits
strtol_digits-append acc [] ys h = refl
strtol_digits-append acc (c ∷ cs) ys h =
    let e : is_digit c ≡ true = ground arith in
    rw e (strtol_digits-append (acc * 10 + (c - 48)) cs ys h.2)

strtol_digits_last : (acc d : ℕ) → d < 10 → strtol_digits acc ((48 + d) ∷ []) ≡ acc * 10 + d
unfolding strtol_digits
strtol_digits_last acc d h = ground arith

strtol_digits-digits : (rounds n : ℕ) → n < pow10 rounds → strtol_digits 0 (digits rounds n) ≡ n
unfolding digits strtol_digits
strtol_digits-digits zero n h = omega arith
strtol_digits-digits (suc rounds) n h = elim (Bool-cases (ltb n 10)) [
  | inl e ↦ let small : n < 10 = ground arith in rw e (strtol_digits_last 0 n small ∙ omega arith)
  | inr e ↦ rw e (
      strtol_digits-append 0 (digits rounds (n / 10)) ((48 + n % 10) ∷ [])
        (digits-AllDigits rounds (n / 10))
      ∙ ap (λ m. strtol_digits m ((48 + n % 10) ∷ []))
          (strtol_digits-digits rounds (n / 10) (omega arith))
      ∙ strtol_digits_last (n / 10) (n % 10) (omega arith)
      ∙ omega arith)
]

-- The integers of a `long`.
abbrev pub IsLong : ℤ → Type 0
IsLong (pos n) = n < 2 ^ 63
IsLong (negsuc n) = n < 2 ^ 63

-- A text that begins with a digit is read as the digits in front.
strtol_plain :
    (xs : List ℕ)
    → AllDigits xs
    → strtol_digits 0 xs < 2 ^ 63
    → strtol xs ≡ pos (strtol_digits 0 xs)
unfolding strtol strtol_pos
strtol_plain [] h k = ground arith
strtol_plain (c ∷ cs) h k = ground arith

strtol_minus : (xs : List ℕ) → strtol (45 ∷ xs) ≡ strtol_neg (strtol_digits 0 xs)
unfolding strtol
strtol_minus xs = refl

strtol_neg-suc : (n : ℕ) → n < 2 ^ 63 → strtol_neg (suc n) ≡ negsuc n
unfolding strtol_neg
strtol_neg-suc n h = ground arith

pub decimal-AllDigits : (n : ℕ) → AllDigits (decimal n)
unfolding decimal
decimal-AllDigits n = digits-AllDigits 20 n

strtol_digits-decimal : (n : ℕ) → n < 2 ^ 64 → strtol_digits 0 (decimal n) ≡ n
unfolding decimal
strtol_digits-decimal n h = strtol_digits-digits 20 n (omega arith)

-- An integer is read back from what `%ld` prints.
pub strtol-signed : (n : ℤ) → IsLong n → strtol (signed n) ≡ n
unfolding signed
strtol-signed (pos n) h =
    let e = strtol_digits-decimal n (omega arith) in
    strtol_plain (decimal n) (decimal-AllDigits n) (omega (arith, e)) ∙ ap pos e
strtol-signed (negsuc n) h =
    let e : strtol_digits 0 (decimal (n + 1)) ≡ suc n =
      omega (arith, strtol_digits-decimal (n + 1) (omega arith)) in
    strtol_minus (decimal (n + 1)) ∙ ap strtol_neg e ∙ strtol_neg-suc n h
