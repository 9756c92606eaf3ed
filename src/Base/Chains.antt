-- ===== src/Base/Chains.antt =====
-- Chains of addresses that are linked by `next` pointers, given as a function.
use mathlib.Core.Bool.{false≢true}
use Prim.Native.Nat.{ℕ, ◌<◌}
use mathlib.Core.Path.{◌≡◌, refl, sym, subst, ◌∙◌}
use mathlib.Core.Logic.{◌⊎◌, inl, inr}
use mathlib.Core.Bool.{Bool, true, false, ◌||◌}
use mathlib.Core.List.{List, [], ◌∷◌, ◌++◌}
use native.Mathlib.Omega.{arith}
use uringmachine.Base.Tests.{◌==◌, ==_iff, Bool-cases}

abbrev pub has : ℕ → List ℕ → Bool
has a [] = false
has a (b ∷ bs) = (a == b) || has a bs

abbrev pub Distinct : List ℕ → Type 0
Distinct [] = Unit {0}
Distinct (a ∷ ps) = (has a ps ≡ false) × Distinct ps

abbrev pub last_of : List ℕ → ℕ
last_of [] = 0
last_of (a ∷ []) = a
last_of (a ∷ b ∷ bs) = last_of (b ∷ bs)

-- From `p` the `next` pointers lead through the addresses of the list to null.
abbrev pub Chain : (next : ℕ → ℕ) → ℕ → List ℕ → Type 0
Chain es p [] = p ≡ 0
Chain es p (a ∷ ps) = (p ≡ a) × (0 < a) × Chain es (es a) ps

-- A chain survives a change that leaves its own `next` pointers alone.
pub Chain-frame :
    (es fs : ℕ → ℕ) (p : ℕ) (ps : List ℕ)
    → Chain es p ps
    → ((a : ℕ) → has a ps ≡ true → (fs a) ≡ (es a))
    → Chain fs p ps
Chain-frame es fs p [] c same = c
Chain-frame es fs p (a ∷ ps) c same =
    let e : (fs a) ≡ (es a) = same a (ground arith) in
    (c.0, c.1, rw e (Chain-frame es fs (es a) ps c.2 (λ b h. same b (ground arith))))

pub last_has : (a : ℕ) (ps : List ℕ) → has (last_of (a ∷ ps)) (a ∷ ps) ≡ true
last_has a [] = ground arith
last_has a (b ∷ bs) = ground (arith, last_has b bs)

-- An entry that is followed by others is not the last one.
ne_last : (a b : ℕ) (bs : List ℕ) → has a (b ∷ bs) ≡ false → (a == last_of (b ∷ bs)) ≡ false
ne_last a b bs h = elim (Bool-cases (a == last_of (b ∷ bs))) [
  | inl e ↦ absurd (
      false≢true
        (sym h ∙ subst (λ x. has x (b ∷ bs) ≡ true) (sym ((==_iff a _).0 e)) (last_has b bs)))
  | inr e ↦ e
]

-- The last entry of a chain is made to point at a new last entry.
pub Chain-append :
    (es fs : ℕ → ℕ) (p n a : ℕ) (ps : List ℕ)
    → Chain es p (a ∷ ps)
    → Distinct (a ∷ ps)
    → 0 < n
    → ((b : ℕ) → has b (a ∷ ps) ≡ true → (b == last_of (a ∷ ps)) ≡ false → (fs b) ≡ (es b))
    → fs (last_of (a ∷ ps)) ≡ n
    → (fs n) ≡ 0
    → Chain fs p (a ∷ ps ++ n ∷ [])
Chain-append es fs p n a [] c d pos same l z = (c.0, c.1, (l, pos, z))
Chain-append es fs p n a (b ∷ bs) c d pos same l z =
    let e : (fs a) ≡ (es a) = same a (ground arith) (ne_last a b bs d.0) in
    (
      c.0,
      c.1,
      rw e (Chain-append es fs (es a) n b bs c.2 d.1 pos (λ x h. same x (ground arith)) l z),
    )

-- The last entry is not null.
pub last_pos : (es : ℕ → ℕ) (p a : ℕ) (ps : List ℕ) → Chain es p (a ∷ ps) → 0 < last_of (a ∷ ps)
last_pos es p a [] c = c.1
last_pos es p a (b ∷ bs) c = last_pos es (es a) b bs c.2

pub Chain-pos : (es : ℕ → ℕ) (p b : ℕ) (ps : List ℕ) → Chain es p ps → has b ps ≡ true → 0 < b
Chain-pos es p b [] c h = cc
Chain-pos es p b (a ∷ ps) c h = ground (arith, Chain-pos es (es a) b ps c.2)

pub has-append : (b p : ℕ) (ps : List ℕ) → has b (ps ++ p ∷ []) ≡ (has b ps || (b == p))
has-append b p [] = ground arith
has-append b p (a ∷ ps) = ground (arith, has-append b p ps)

pub last_of-append : (p : ℕ) (ps : List ℕ) → last_of (ps ++ p ∷ []) ≡ p
last_of-append p [] = refl
last_of-append p (a ∷ []) = refl
last_of-append p (a ∷ b ∷ bs) = last_of-append p (b ∷ bs)

pub Distinct-append :
    (p : ℕ) (ps : List ℕ) → has p ps ≡ false → Distinct ps → Distinct (ps ++ p ∷ [])
Distinct-append p [] h d = (refl, tt)
Distinct-append p (a ∷ ps) h d =
    (ground (arith, has-append a p ps, d.0), Distinct-append p ps (ground arith) d.1)

pub has-append_cases :
    (b p : ℕ) (ps : List ℕ) → has b (ps ++ p ∷ []) ≡ true → (has b ps ≡ true) ⊎ (b ≡ p)
has-append_cases b p ps h = ground (arith, has-append b p ps)

pub tail_has : (t a : ℕ) (ps : List ℕ) → t ≡ last_of (a ∷ ps) → has t (a ∷ ps) ≡ true
tail_has t a ps e = subst (λ x. has x (a ∷ ps) ≡ true) (sym e) (last_has a ps)

pub not_has : (a b : ℕ) (ps : List ℕ) → has a ps ≡ false → has b ps ≡ true → (a == b) ≡ false
not_has a b ps h k = elim (Bool-cases (a == b)) [
  | inl e ↦ absurd (false≢true (sym h ∙ subst (λ x. has x ps ≡ true) (sym ((==_iff a b).0 e)) k))
  | inr e ↦ e
]
