-- ===== src/Resp/Number.antt =====
-- Numbers as text: what `sprintf` prints for `%ld`, and how `strtol` and `resp_parse_length_field`
-- read it (ext/um/um_io.c).
use uringmachine.Base.{
  ℕ, zero, suc, ◌+◌, ◌-◌, ◌*◌, ◌/◌, ◌%◌, ◌^◌, Bool, ◌&&◌, ◌||◌, List, [], ◌∷◌, ◌++◌, ltb, leb, ◌==◌,
  if◌then◌else◌, ℤ, pos, negsuc,
}

-- The decimal digits of a number below 10^rounds.
unfoldable pub digits : (rounds : ℕ) → ℕ → List ℕ
digits zero n = []
digits (suc rounds) n =
    let more = digits rounds (n / 10) ++ (48 + n % 10) ∷ [] in
    if ltb n 10 then (48 + n) ∷ [] else more

-- `%ld`: twenty digits are enough for 64 bits.
unfoldable pub decimal : ℕ → List ℕ
decimal n = digits 20 n

unfoldable pub signed : ℤ → List ℕ
signed (pos n) = decimal n
signed (negsuc n) = 45 ∷ decimal (n + 1)

-- `ptr[i] - '0'` as an unsigned long. A `char` is signed.
unfoldable pub digit_value : ℕ → ℕ
digit_value c = (if ltb c 128 then c + 2 ^ 64 - 48 else c + 2 ^ 64 - 304) % 2 ^ 64

unfoldable pub accumulate : ℕ → List ℕ → ℕ
unfolding digit_value
accumulate acc [] = acc
accumulate acc (c ∷ cs) = accumulate ((acc * 10 + digit_value c) % 2 ^ 64) cs

-- The first byte, the type of the message, is passed over.
unfoldable pub resp_parse_length_field : List ℕ → ℕ
unfolding accumulate
resp_parse_length_field [] = 0
resp_parse_length_field (c ∷ cs) = accumulate 0 cs

abbrev pub is_digit : ℕ → Bool
is_digit c = leb 48 c && leb c 57

-- The digits in front of a text.
unfoldable pub strtol_digits : ℕ → List ℕ → ℕ
strtol_digits acc [] = acc
strtol_digits acc (c ∷ cs) =
    let rest = strtol_digits (acc * 10 + (c - 48)) cs in if is_digit c then rest else acc

-- A result that does not fit is cut to the largest or smallest `long`.
unfoldable pub strtol_pos : ℕ → ℤ
strtol_pos n = if ltb n (2 ^ 63) then pos n else pos (2 ^ 63 - 1)

unfoldable pub strtol_neg : ℕ → ℤ
strtol_neg zero = pos 0
strtol_neg (suc n) = if ltb n (2 ^ 63) then negsuc n else negsuc (2 ^ 63 - 1)

unfoldable pub strtol : List ℕ → ℤ
unfolding strtol_digits strtol_pos strtol_neg
strtol [] = pos 0
strtol (c ∷ cs) =
    let rest = strtol cs in
    if c == 45
    then strtol_neg (strtol_digits 0 cs)
    else if c == 43
    then strtol_pos (strtol_digits 0 cs)
    else if c == 32 || (leb 9 c && leb c 13)
    then rest
    else strtol_pos (strtol_digits 0 (c ∷ cs))
