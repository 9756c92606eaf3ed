-- ===== src/Base/Words.antt =====
-- Machine words: the subtractions of `size_t`, `uint` and `uint32_t`, which wrap around, and
-- signed results over the native numbers under the library's name.
use Prim.Native.Nat.{ℕ, ◌+◌, ◌-◌, ◌%◌, ◌^◌, ◌≤◌, ◌<◌}
use mathlib.Core.Path.{◌≡◌, refl}
use mathlib.Core.Bool.{Bool, true, false}
use native.Mathlib.Omega.{arith}
use uringmachine.Base.Tests.{leb, ltb, if◌then◌else◌}

-- a - b on operands below 2^64 (size_t).
unfoldable pub sub64 : ℕ → ℕ → ℕ
sub64 a b = if leb b a then a - b else a + 2 ^ 64 - b

-- a - b on operands below 2^32 (uint).
unfoldable pub sub32 : ℕ → ℕ → ℕ
sub32 a b = if leb b a then a - b else a + 2 ^ 32 - b

pub sub64_of_le : (a b : ℕ) → b ≤ a → sub64 a b ≡ a - b
unfolding sub64
sub64_of_le a b h = ground arith

pub sub32_of_le : (a b : ℕ) → b ≤ a → sub32 a b ≡ a - b
unfolding sub32
sub32_of_le a b h = ground arith

-- `negsuc n` is -(n + 1).
pub data ℤ : Type 0 where
  pos : ℕ → ℤ
  negsuc : ℕ → ℤ

abbrev pub is_neg : ℤ → Bool
is_neg (pos n) = false
is_neg (negsuc n) = true

abbrev pub pos_part : ℤ → ℕ
pos_part (pos n) = n
pos_part (negsuc n) = 0

pub sub32_last : sub32 1 1 ≡ 0
unfolding sub32
sub32_last = refl

pub sub32_two : sub32 2 1 ≡ 1
unfolding sub32
sub32_two = refl

pub sub32_none : sub32 0 1 ≡ 2 ^ 32 - 1
unfolding sub32
sub32_none = refl

-- A `size_t` as an `int`.
unfoldable pub int_of_size : ℕ → ℤ
int_of_size n =
    let low = n % 2 ^ 32 in if ltb low (2 ^ 31) then pos low else negsuc (2 ^ 32 - 1 - low)

pub int_of_short : (n : ℕ) → n < 2 ^ 31 → int_of_size n ≡ pos n
unfolding int_of_size
int_of_short n h =
    let low : n % 2 ^ 32 ≡ n = omega arith in
    let short : ltb n (2 ^ 31) ≡ true = ground arith in simp (low, short)
