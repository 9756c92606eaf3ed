-- ===== src/Op/RunQueue.antt =====
-- The run queue as a list of operations (ext/um/um_op.c).
use uringmachine.Base.{
  ℕ, ◌+◌, ◌<◌, ◌≡◌, refl, sym, subst, ◌∙◌, false, List, [], ◌∷◌, ◌++◌, arith, ◌==◌, eq_refl,
  is_zero, if◌then◌else◌, length, sub32, sub32_of_le, has, Distinct, last_of, Chain, Chain-append,
  last_pos, Distinct-append, last_of-append, length-append, not_has, last_has,
}
use uringmachine.Op.State.{Core}
use uringmachine.Op.{um_runqueue_push, um_runqueue_shift}

-- The `next` pointers of the operations.
abbrev pub nexts : Core → ℕ → ℕ
nexts m a = (m.ops a).next

-- The run queue holds these operations, in this order.
pub record IsQueued (m : Core) (queue : List ℕ) : Type 0 where
  pub chain : Chain (nexts m) m.runqueue_head queue
  pub last : m.runqueue_tail ≡ last_of queue
  pub distinct : Distinct queue
  pub counted : m.ops_runqueue ≡ length queue

shifted_tail :
    (m : Core) (next : ℕ) (a : ℕ) (queue : List ℕ)
    → Chain (nexts m) next queue
    → m.runqueue_tail ≡ last_of (a ∷ queue)
    → (if is_zero next then 0 else m.runqueue_tail) ≡ last_of queue
shifted_tail m next a [] c t = ground arith
shifted_tail m next a (b ∷ bs) c t = ground (arith, c.0, c.1)

-- Taking the first operation off the run queue leaves the others.
pub um_runqueue_shift-IsQueued :
    (m : Core) (a : ℕ) (queue : List ℕ)
    → IsQueued m (a ∷ queue)
    → (m' : Core) × (um_runqueue_shift m ≡ (a, m'))
      × IsQueued m' queue
      × (m'.ops ≡ m.ops)
      × (m'.test_mode ≡ m.test_mode)
unfolding um_runqueue_shift
um_runqueue_shift-IsQueued m a queue q =
    let next = (m.ops a).next in
    let m' = record m {
      runqueue_head = next;
      runqueue_tail = if is_zero next then 0 else m.runqueue_tail;
      ops_runqueue = sub32 m.ops_runqueue 1;
    } in
    let head = q.chain.0 in
    let some_op : is_zero a ≡ false = ground (arith, q.chain.1) in
    (
      m',
      simp (head, some_op),
      record {
        chain = q.chain.2;
        last = shifted_tail m next a queue q.chain.2 q.last;
        distinct = q.distinct.1;
        counted =
            sub32_of_le m.ops_runqueue 1 (omega (arith, q.counted)) ∙ omega (arith, q.counted);
      },
      refl,
      refl,
    )

-- What a push does to the `next` pointers.
module _ (m : Core) (a : ℕ) where
  push_new : nexts (um_runqueue_push m a) a ≡ 0
  unfolding um_runqueue_push
  push_new = ground (arith, eq_refl a)

  push_tail :
      (b : ℕ) → m.runqueue_tail ≡ b → 0 < b → (a == b) ≡ false → nexts (um_runqueue_push m a) b ≡ a
  unfolding um_runqueue_push
  push_tail b t p h = ground (arith, eq_refl b)

  push_other :
      (x : ℕ)
      → (a == x) ≡ false
      → (m.runqueue_tail == x) ≡ false
      → nexts (um_runqueue_push m a) x ≡ nexts m x
  unfolding um_runqueue_push
  push_other x h k = ground arith

  push_ends :
      ((um_runqueue_push m a).runqueue_tail ≡ a)
      × ((um_runqueue_push m a).ops_runqueue ≡ m.ops_runqueue + 1)
      × ((um_runqueue_push m a).runqueue_head
          ≡ (if is_zero m.runqueue_tail then a else m.runqueue_head))
  unfolding um_runqueue_push
  push_ends = ground arith

-- Putting an operation that is not there on the run queue adds it at the end.
pub um_runqueue_push-IsQueued :
    (m : Core) (a : ℕ) (queue : List ℕ)
    → IsQueued m queue
    → has a queue ≡ false
    → 0 < a
    → IsQueued (um_runqueue_push m a) (queue ++ a ∷ [])
um_runqueue_push-IsQueued m a [] q h p =
    let e = push_ends m a in
    record {
      chain = (ground (arith, e.2, q.last), p, push_new m a);
      last = e.0;
      distinct = (refl, tt);
      counted = e.1 ∙ omega (arith, q.counted);
    }
um_runqueue_push-IsQueued m a (b ∷ queue) q h p =
    let e = push_ends m a in
    let m' = um_runqueue_push m a in
    let t = last_of (b ∷ queue) in
    let some_tail = last_pos (nexts m) m.runqueue_head b queue q.chain in
    let apart = not_has a t (b ∷ queue) h (last_has b queue) in
    let same_head : m'.runqueue_head ≡ m.runqueue_head = ground (arith, e.2, q.last, some_tail) in
    record {
      chain =
          subst (λ x. Chain (nexts m') x (b ∷ queue ++ a ∷ [])) (sym same_head)
            (Chain-append (nexts m) (nexts m') m.runqueue_head a b queue q.chain q.distinct p
              (λ x k l. push_other m a x (not_has a x (b ∷ queue) h k) (ground (arith, q.last)))
              (push_tail m a t q.last some_tail apart) (push_new m a));
      last = e.0 ∙ sym (last_of-append a (b ∷ queue));
      distinct = Distinct-append a (b ∷ queue) h q.distinct;
      counted = e.1 ∙ omega (arith, q.counted, length-append (b ∷ queue) (a ∷ []));
    }
