-- ===== src/Ssl/Tests.antt =====
-- Writes on a connection that takes two bytes at a time.
use mathlib.Core.List.{map}
use uringmachine.Base.{
  ℕ, zero, suc, ◌≤◌, ◌<◌, ◌≡◌, refl, List, [], ◌∷◌, ◌++◌, length, take, arith, ℤ, pos, negsuc, ok,
}
use uringmachine.Writev.{joined}
use uringmachine.Ssl.{bytes_of, um_ssl_writev, um_ssl_write_raw}
use uringmachine.Ssl.Whole.{Takes, um_ssl_writev-sent}

-- The bytes that were sent.
Sent : Type 0
Sent = List ℕ

-- The number of bytes that are taken.
amount : ℕ → ℕ
amount zero = 0
amount (suc zero) = 1
amount (suc (suc n)) = 2

two_at_a_time : List ℕ → List ℕ → ℤ → ℤ × List ℕ
unfolding amount
two_at_a_time sent base (negsuc n) = (negsuc 0, sent)
two_at_a_time sent base (pos n) = (pos (amount n), sent ++ take (amount n) base)

two_at_a_time-Takes :
    (c base : List ℕ) (num : ℕ)
    → 0 < num
    → num ≤ length base
    → Takes (List ℕ) two_at_a_time (λ s. s) c base num
unfolding two_at_a_time amount
two_at_a_time-Takes c base zero p h = absurd (omega arith)
two_at_a_time-Takes c base (suc zero) p h = record {
  count = 1;
  some_byte = omega arith;
  no_more = omega arith;
  ret = refl;
  taken = refl;
}
two_at_a_time-Takes c base (suc (suc n)) p h = record {
  count = 2;
  some_byte = omega arith;
  no_more = omega arith;
  ret = refl;
  taken = refl;
}

um_ssl_writev-sent_example :
    (c : List ℕ) × (um_ssl_writev
        (List ℕ)
        two_at_a_time
        []
        (map bytes_of ((1 ∷ 2 ∷ 3 ∷ []) ∷ (4 ∷ []) ∷ []))
      ≡ ok (pos 4, c))
    × (c ≡ 1 ∷ 2 ∷ 3 ∷ 4 ∷ [])
unfolding joined
um_ssl_writev-sent_example =
    um_ssl_writev-sent (List ℕ) two_at_a_time (λ s. s) two_at_a_time-Takes
      ((1 ∷ 2 ∷ 3 ∷ []) ∷ (4 ∷ []) ∷ []) [] (omega arith)

-- The number of bytes that is returned for no bytes.
one_for_none : um_ssl_write_raw (List ℕ) two_at_a_time [] [] ≡ ok (pos 1, [])
unfolding um_ssl_write_raw
one_for_none = refl
