-- ===== src/Pool/Bitmap.antt =====
-- The bitmap of free buffer ids of ext/um/um_buffer_pool.c: an array of 64-bit words.
use uringmachine.Base.{
  ℕ, zero, suc, ◌+◌, ◌-◌, ◌*◌, ◌/◌, ◌%◌, ◌^◌, bit_and, bit_or, Option, none, some, List, [], ◌∷◌,
  ◌==◌, if◌then◌else◌, get_elem?, get_or, set,
}

-- `ffsll(x) - 1` for a word that is not 0: the position of its lowest set bit.
pub low_bit : ℕ → ℕ → ℕ
low_bit zero x = 0
low_bit (suc fuel) x = let rest = low_bit fuel (x / 2) in if x % 2 == 1 then 0 else suc rest

-- The `for`, whose body is the `if` on the next line: there `word < word_count` holds, so the `if`
-- never fires, and the loop ends at the first word that is not 0, or at `word_count`.
pub find_word : ℕ → List ℕ → ℕ
find_word word [] = word
find_word word (x ∷ xs) = if x == 0 then find_word (word + 1) xs else word

-- `none`: the function reads `bitmap[word_count]`, past the end of the array.
pub bitmap_find_first_set_bit : List ℕ → Option ℕ
unfolding low_bit find_word
bitmap_find_first_set_bit bitmap =
    let word = find_word 0 bitmap in
    elim (get_elem? bitmap word) [ none ↦ none | some x ↦ some (word * 64 + low_bit 64 x) ]

-- `1U << bit`, on 32 bits. For a count of 32 or more C leaves the result open; here it is that of
-- x86-64, which takes the count modulo 32.
pub shl32 : ℕ → ℕ
shl32 bit = 2 ^ (bit % 32)

pub bitmap_set : List ℕ → ℕ → List ℕ
unfolding shl32
bitmap_set bitmap idx =
    let word = idx / 64 in
    let bit = idx % 64 in set bitmap word (bit_or (get_or bitmap word 0) (shl32 bit))

-- `~(1U << bit)` has 32 bits, and is widened with zeros before the `&=`.
pub bitmap_unset : List ℕ → ℕ → List ℕ
unfolding shl32
bitmap_unset bitmap idx =
    let word = idx / 64 in
    let bit = idx % 64 in set bitmap word (bit_and (get_or bitmap word 0) (2 ^ 32 - 1 - shl32 bit))
