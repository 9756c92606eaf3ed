-- ===== src/Stream/Search.antt =====
-- Looking for a byte, and taking what stands before it (`memchr` and `io_consume_string`,
-- ext/um/um_io.c).
use uringmachine.Base.{
  ℕ, ◌+◌, ◌-◌, ◌<◌, ◌≡◌, refl, ap, ◌∙◌, Bool, false, some, none, List, [], ◌∷◌, ◌++◌, arith, ◌==◌,
  eq_refl, length, take, drop, length-append, take-append, take-all, drop-append_ge, ok,
}
use uringmachine.Stream.State.{Io}
use uringmachine.Stream.Content.{content, IsValid, Consumed, Consumed-trans}
use uringmachine.Stream.Copy.{io_copy-take, io_skip-drop}
use uringmachine.Stream.Consume.{io_consume_string}
use uringmachine.Stream.Read.{memchr, take_string}

-- The byte is not in the list.
abbrev pub Without : ℕ → List ℕ → Type 0
Without b [] = Unit {0}
Without b (c ∷ cs) = ((c == b) ≡ false) × Without b cs

pub memchr-append :
    (b : ℕ) (front rest : List ℕ)
    → Without b front
    → memchr b (front ++ b ∷ rest) ≡ some (length front)
unfolding memchr
memchr-append b [] rest h = rw (eq_refl b) refl
memchr-append b (c ∷ cs) rest h = simp (h.0, memchr-append b cs rest h.1)

pub memchr-none : (b : ℕ) (xs : List ℕ) → Without b xs → memchr b xs ≡ none
unfolding memchr
memchr-none b [] h = refl
memchr-none b (c ∷ cs) h = simp (h.0, memchr-none b cs h.1)

pub take-prefix : (xs ys zs : List ℕ) → zs ≡ xs ++ ys → take (length xs) zs ≡ xs
take-prefix xs ys zs e =
    ap (take (length xs)) e ∙ take-append (length xs) xs ys (omega arith) ∙ take-all xs

pub drop-prefix : (xs ys zs : List ℕ) (n : ℕ) → zs ≡ xs ++ ys → n ≡ length xs → drop n zs ≡ ys
drop-prefix xs ys zs n e h =
    let z : n - length xs ≡ 0 = omega (arith, h) in
    ap (drop n) e ∙ drop-append_ge n xs ys (omega (arith, h)) ∙ ap (λ k. drop k ys) z

-- A string is handed out, and what ends it is skipped.
pub take_string-ended :
    (io : Io) (xs end rest : List ℕ) (safe_inc : Bool)
    → IsValid io
    → content io ≡ xs ++ (end ++ rest)
    → 0 < length end
    → (io' : Io) × (take_string io (length xs) (length end) safe_inc ≡ ok (some xs, io'))
      × Consumed (length xs + length end) io io'
      × (content io' ≡ rest)
unfolding take_string io_consume_string
take_string-ended io xs end rest safe_inc v e p =
    let n = ap length e in
    let m = length-append xs (end ++ rest) in
    let k = length-append end rest in
    let (io₁, r₁, c₁) = io_copy-take io (length xs) v (omega (arith, n, m)) in
    let left : content io₁ ≡ end ++ rest =
      c₁.rest ∙ drop-prefix xs (end ++ rest) (content io) (length xs) e refl in
    let l = ap length left in
    let (io₂, r₂, c₂) =
      io_skip-drop io₁ (length end) safe_inc c₁.valid (omega (arith, l, k)) (omega (arith, l, k)) in
    (
      io₂,
      ground (arith, r₁, r₂, take-prefix xs (end ++ rest) (content io) e),
      Consumed-trans c₁ c₂,
      c₂.rest ∙ drop-prefix end rest (content io₁) (length end) left refl,
    )
