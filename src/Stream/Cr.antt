-- ===== src/Stream/Cr.antt =====
-- Lines, and the carriage return at their end (`io_read_line`, ext/um/um_io.c).
use uringmachine.Base.{
  ℕ, suc, ◌+◌, ◌-◌, ◌<◌, ◌≡◌, refl, sym, ap, ◌∙◌, ◌⊎◌, inl, inr, Bool, true, false, not, ◌&&◌,
  Option, some, none, List, [], ◌∷◌, ◌++◌, arith, ◌==◌, is_zero, if◌then◌else◌, length, drop,
  get_or, append-nil,
}
use uringmachine.Pool.State.{Segment}
use uringmachine.Stream.Read.{lf, trailing_cr_p, cr_before}
use uringmachine.Stream.Search.{Without}

-- Whether the last byte is the carriage return.
unfoldable pub ends_with_cr : List ℕ → Bool
ends_with_cr [] = false
ends_with_cr (c ∷ []) = c == 13
ends_with_cr (c ∷ d ∷ cs) = ends_with_cr (d ∷ cs)

-- A line without a carriage return at its end, and what was taken off.
unfoldable pub strip_cr : List ℕ → List ℕ
strip_cr [] = []
strip_cr (c ∷ []) = if c == 13 then [] else c ∷ []
strip_cr (c ∷ d ∷ cs) = c ∷ strip_cr (d ∷ cs)

pub strip_cr-cr : (cs : List ℕ) → ends_with_cr cs ≡ true → cs ≡ strip_cr cs ++ 13 ∷ []
unfolding ends_with_cr strip_cr
strip_cr-cr [] h = absurd (ground arith)
strip_cr-cr (c ∷ []) h = ground arith
strip_cr-cr (c ∷ d ∷ cs) h = ap (◌∷◌ c) (strip_cr-cr (d ∷ cs) h)

pub strip_cr-none : (cs : List ℕ) → ends_with_cr cs ≡ false → strip_cr cs ≡ cs
unfolding ends_with_cr strip_cr
strip_cr-none [] h = refl
strip_cr-none (c ∷ []) h = ground arith
strip_cr-none (c ∷ d ∷ cs) h = ap (◌∷◌ c) (strip_cr-none (d ∷ cs) h)

pub ends_with_cr-append :
    (xs ys : List ℕ) → 0 < length ys → ends_with_cr (xs ++ ys) ≡ ends_with_cr ys
unfolding ends_with_cr
ends_with_cr-append [] ys h = refl
ends_with_cr-append (x ∷ []) [] h = absurd (omega arith)
ends_with_cr-append (x ∷ []) (y ∷ ys) h = refl
ends_with_cr-append (x ∷ z ∷ xs) ys h = ends_with_cr-append (z ∷ xs) ys h

-- The byte in front of a place, as the code reads it.
pub trailing_cr_p-ends :
    (xs ys : List ℕ) → 0 < length xs → trailing_cr_p (xs ++ ys) (length xs) ≡ ends_with_cr xs
unfolding trailing_cr_p ends_with_cr
trailing_cr_p-ends [] ys h = absurd (omega arith)
trailing_cr_p-ends (x ∷ []) ys h = refl
trailing_cr_p-ends (x ∷ z ∷ xs) ys h =
    let here : suc (suc (length xs)) - 1 ≡ suc (length xs) = omega arith in
    let there : suc (length xs) - 1 ≡ length xs = omega arith in
    ap (λ k. get_or (x ∷ z ∷ (xs ++ ys)) k 0 == 13) here
    ∙ sym (ap (λ k. get_or (z ∷ (xs ++ ys)) k 0 == 13) there)
    ∙ trailing_cr_p-ends (z ∷ xs) ys (omega arith)

-- A byte that follows `after` stands in the first of two lists, or in the second.
pub split_at_byte :
    (start tail after rest : List ℕ) (b : ℕ)
    → start ++ tail ≡ after ++ b ∷ rest
    → ((more : List ℕ) × (start ≡ after ++ b ∷ more))
      ⊎ ((left : List ℕ) × (after ≡ start ++ left) × (tail ≡ left ++ b ∷ rest))
split_at_byte [] tail after rest b e = inr (after, refl, e)
split_at_byte (x ∷ xs) tail [] rest b e = inl (xs, ap (λ c. c ∷ xs) (ap (λ l. get_or l 0 0) e))
split_at_byte (x ∷ xs) tail (y ∷ ys) rest b e =
    let head : x ≡ y = ap (λ l. get_or l 0 0) e in
    elim (split_at_byte xs tail ys rest b (ap (drop 1) e)) [
      | inl (more, h) ↦ inl (more, λ i. head i ∷ h i)
      | inr (left, h, t) ↦ inr (left, (λ i. sym head i ∷ h i), t)
    ]

pub Without-front : (b : ℕ) (xs ys : List ℕ) → Without b (xs ++ ys) → Without b xs × Without b ys
Without-front b [] ys h = (tt, h)
Without-front b (x ∷ xs) ys h = let more = Without-front b xs ys h.1 in ((h.0, more.0), more.1)

-- `last` is the segment that ends with the bytes `before`, if there are any.
abbrev pub Ends : Option Segment → List ℕ → Type 0
Ends none before = before ≡ []
Ends (some s) before =
    (0 < length before) × (trailing_cr_p s.bytes (length s.bytes) ≡ ends_with_cr before)

-- The test for a carriage return in front of the line feed.
pub cr_test :
    (last : Option Segment) (before after more : List ℕ)
    → Ends last before
    → (not (is_zero (length before + length after))
        && cr_before (after ++ lf ∷ more) (length after) last)
      ≡ ends_with_cr (before ++ after)
unfolding cr_before ends_with_cr
cr_test none before [] more h = ground (arith, h)
cr_test (some s) before [] more h = ground (arith, h.0, h.1, append-nil before)
cr_test none before (a ∷ cs) more h =
    ground (arith, trailing_cr_p-ends (a ∷ cs) (lf ∷ more), ends_with_cr-append before (a ∷ cs))
cr_test (some s) before (a ∷ cs) more h =
    ground (arith, trailing_cr_p-ends (a ∷ cs) (lf ∷ more), ends_with_cr-append before (a ∷ cs))
