-- ===== src/Op/Reach.antt =====
-- `um_switch` finds the next fiber on the run queue (ext/um/um.c).
use uringmachine.Base.{
  ℕ, zero, suc, ◌+◌, ◌<◌, ◌≡◌, refl, sym, ap, subst, ◌∙◌, true, false, List, [], ◌∷◌, ◌++◌, arith,
  ◌==◌, eq_refl, length, has, Chain, Chain-frame, not_has, ok,
}
use uringmachine.Op.State.{Op, Flags, Core}
use uringmachine.Op.{um_op_release, um_op_free, um_runqueue_shift}
use uringmachine.Op.Schedule.{set_flags, process_runqueue_op, run_op, switch_round, um_switch}
use uringmachine.Op.RunQueue.{nexts, IsQueued, um_runqueue_shift-IsQueued}

-- The run queue is as it was, and so are all operations but one.
record Beside (a : ℕ) (m m' : Core) : Type 0 where
  ops : (x : ℕ) → (a == x) ≡ false → m'.ops x ≡ m.ops x
  head : m'.runqueue_head ≡ m.runqueue_head
  tail : m'.runqueue_tail ≡ m.runqueue_tail
  counted : m'.ops_runqueue ≡ m.ops_runqueue
  test_mode : m'.test_mode ≡ m.test_mode

Beside-trans : {a : ℕ} {l m n : Core} → Beside a l m → Beside a m n → Beside a l n
Beside-trans h k = record {
  ops = λ x e. k.ops x e ∙ h.ops x e;
  head = k.head ∙ h.head;
  tail = k.tail ∙ h.tail;
  counted = k.counted ∙ h.counted;
  test_mode = k.test_mode ∙ h.test_mode;
}

Beside-IsQueued :
    (a : ℕ) (m m' : Core) (queue : List ℕ)
    → Beside a m m'
    → has a queue ≡ false
    → IsQueued m queue
    → IsQueued m' queue
Beside-IsQueued a m m' queue b h q = record {
  chain =
      subst (λ p. Chain (nexts m') p queue) (sym b.head)
        (Chain-frame (nexts m) (nexts m') m.runqueue_head queue q.chain
          (λ x k. ap (λ (o : Op). o.next) (b.ops x (not_has a x queue h k))));
  last = b.tail ∙ q.last;
  distinct = q.distinct;
  counted = b.counted ∙ q.counted;
}

release-Beside : (m : Core) (a : ℕ) → Beside a m (um_op_release m a)
unfolding um_op_release um_op_free
release-Beside m a = record {
  ops = λ x h. ground (arith, h);
  head = ground arith;
  tail = ground arith;
  counted = ground arith;
  test_mode = ground arith;
}

set_flags-Beside : (m : Core) (a : ℕ) (f : Flags → Flags) → Beside a m (set_flags m a f)
set_flags-Beside m a f = record {
  ops = λ x h. rw h refl;
  head = refl;
  tail = refl;
  counted = refl;
  test_mode = refl;
}

-- These operations are to be skipped.
unfoldable pub AreSkipped : Core → List ℕ → Type 0
AreSkipped m [] = Unit {0}
AreSkipped m (a ∷ queue) = ((m.ops a).skip ≡ true) × AreSkipped m queue

Beside-AreSkipped :
    (a : ℕ) (m m' : Core) (queue : List ℕ)
    → Beside a m m'
    → has a queue ≡ false
    → AreSkipped m queue
    → AreSkipped m' queue
unfolding AreSkipped
Beside-AreSkipped a m m' [] b h s = tt
Beside-AreSkipped a m m' (x ∷ queue) b h s = (
  ap (λ (o : Op). o.skip) (b.ops x (not_has a x (x ∷ queue) h (ground (arith, eq_refl x)))) ∙ s.0,
  Beside-AreSkipped a m m' queue b (ground arith) s.1,
)

-- The part of a list in front does not have what the list does not have.
has-front :
    (a b : ℕ) (front rest : List ℕ)
    → has a (front ++ b ∷ rest) ≡ false
    → (has a front ≡ false) × ((a == b) ≡ false)
has-front a b [] rest h = (refl, ground arith)
has-front a b (x ∷ front) rest h =
    let more = has-front a b front rest (ground arith) in (ground (arith, more.0), more.1)

round-some :
    (fuel : ℕ) (m m' : Core) (a : ℕ)
    → um_runqueue_shift m ≡ (a, m')
    → 0 < a
    → um_switch (suc fuel) m ≡ run_op (um_switch fuel) m' a (m'.ops a).skip
unfolding um_switch switch_round
round-some fuel m m' zero e p = absurd (omega arith)
round-some fuel m m' (suc n) e p = ap (switch_round (um_switch fuel)) e

-- An operation that waits on the run queue behind others that are all to be skipped, outside test mode:
-- with one more round than there are of these, um_switch resumes its fiber with its value, and the
-- run queue holds what was behind it.
pub um_switch-reaches :
    (skipped : List ℕ) (a : ℕ) (rest : List ℕ) (fuel : ℕ) (m : Core)
    → IsQueued m (skipped ++ a ∷ rest)
    → AreSkipped m skipped
    → (m.ops a).skip ≡ false
    → m.test_mode ≡ false
    → length skipped < fuel
    → (last : Core) × (um_switch fuel m ≡ ok (((m.ops a).fiber, (m.ops a).value), last))
      × IsQueued last rest
unfolding AreSkipped run_op process_runqueue_op
um_switch-reaches skipped a rest zero m q s k t f = absurd (omega arith)
um_switch-reaches [] a rest (suc fuel) m q s k t f =
    let (m₁, e, q₁, ops, mode) = um_runqueue_shift-IsQueued m a rest q in
    let m₂ = record m₁ { total_switches = m₁.total_switches + 1 } in
    let m₃ = set_flags m₂ a (λ f. record f { scheduled = false }) in
    let here = ap (λ o. o a) ops in
    let not_skipped : (m₁.ops a).skip ≡ false = ap (λ (o : Op). o.skip) here ∙ k in
    let b : Beside a m₁ (um_op_release m₃ a) =
      Beside-trans
        (Beside-trans
          (record { ops = λ x h. refl; head = refl; tail = refl; counted = refl; test_mode = refl })
          (set_flags-Beside m₂ a (λ f. record f { scheduled = false })))
        (release-Beside m₃ a) in
    let run : run_op (um_switch fuel) m₁ a (m₁.ops a).skip
        ≡ ok (((m₁.ops a).fiber, (m₁.ops a).value), um_op_release m₃ a) =
      simp (not_skipped, mode ∙ t) in
    (
      um_op_release m₃ a,
      round-some fuel m m₁ a e q.chain.1
          ∙ run
          ∙ (λ i. ok (((here i).fiber, (here i).value), um_op_release m₃ a)),
      Beside-IsQueued a m₁ (um_op_release m₃ a) rest b q.distinct.0 q₁,
    )
um_switch-reaches (x ∷ skipped) a rest (suc fuel) m q s k t f =
    let (m₁, e, q₁, ops, mode) = um_runqueue_shift-IsQueued m x (skipped ++ a ∷ rest) q in
    let m₂ = set_flags m₁ x (λ f. record f { scheduled = false }) in
    let m₃ = um_op_release m₂ x in
    let b =
      Beside-trans (set_flags-Beside m₁ x (λ f. record f { scheduled = false }))
        (release-Beside m₂ x) in
    let (front, apart) = has-front x a skipped rest q.distinct.0 in
    let same = b.ops a apart ∙ ap (λ o. o a) ops in
    let to_skip : (m₁.ops x).skip ≡ true = ap (λ o. (o x).skip) ops ∙ s.0 in
    let left : AreSkipped m₁ skipped =
      subst (λ o. AreSkipped (record m { ops = o }) skipped) (sym ops) s.1 in
    let (last, r, q₃) =
      um_switch-reaches skipped a rest fuel m₃
        (Beside-IsQueued x m₁ m₃ (skipped ++ a ∷ rest) b q.distinct.0 q₁)
        (Beside-AreSkipped x m₁ m₃ skipped b front left) (ap (λ (o : Op). o.skip) same ∙ k)
        (b.test_mode ∙ mode ∙ t) (omega arith) in
    (
      last,
      round-some fuel m m₁ x e q.chain.1
          ∙ ap (run_op (um_switch fuel) m₁ x) to_skip
          ∙ r
          ∙ (λ i. ok (((same i).fiber, (same i).value), last)),
      q₃,
    )
