-- ===== src/Op/Steps.antt =====
-- What the steps of an operation's life (ext/um/um.c) do to the operation and to the free list.
use uringmachine.Base.{
  ℕ, suc, ◌+◌, ◌≡◌, refl, sym, ap, subst, ◌∙◌, Bool, true, false, eq_refl, if◌then◌else◌, ℤ, arith,
  ok, sub32, sub32_last, sub32_two, is_neg, ◌&&◌, not, Bool-cases, inl, inr,
}
use uringmachine.Op.State.{Op, Core, modify}
use uringmachine.Op.{um_op_release, um_op_free, um_runqueue_push}
use uringmachine.Op.Schedule.{
  complete, set_flags, um_process_cqe, um_schedule_op, complete_op, complete_single,
  process_runqueue_op,
}
use uringmachine.Op.Blocking.{
  um_verify_op_completion, finish, finish_op, End, returned, raised_error, timed_out,
}

pub here : (m : Core) (a : ℕ) (f : Op → Op) → (modify m a f).ops a ≡ f (m.ops a)
here m a f = rw (eq_refl a)

-- A single-shot operation that is on its own: no flag but those of its completion.
pub record Single (op : Op) : Type 0 where
  pub multishot : op.multishot ≡ false
  pub async : op.async ≡ false
  pub transient : op.transient ≡ false
  pub free_iovecs : op.free_iovecs ≡ false

pub release_shared :
    (m : Core) (a : ℕ)
    → (m.ops a).ref_count ≡ 2
    → um_op_release m a ≡ modify m a (λ op. record op { ref_count = 1 })
unfolding um_op_release
release_shared m a e = simp (e, sub32_two)

pub release_last :
    (m : Core) (a : ℕ)
    → (m.ops a).ref_count ≡ 1
    → Single (m.ops a)
    → um_op_release m a ≡ um_op_free (modify m a (λ op. record op { ref_count = 0 })) a
unfolding um_op_release
release_last m a e s = simp (e, sub32, sub32_last, s.multishot, s.free_iovecs)

-- What the run queue changes in an operation: its links.
pub record Linked (op op' : Op) : Type 0 where
  pub kind : op'.kind ≡ op.kind
  pub flags : op'.flags ≡ op.flags
  pub ref_count : op'.ref_count ≡ op.ref_count
  pub fiber : op'.fiber ≡ op.fiber
  pub value : op'.value ≡ op.value
  pub res : op'.res ≡ op.res

push-Linked : (m : Core) (a : ℕ) → Linked (m.ops a) ((um_runqueue_push m a).ops a)
unfolding um_runqueue_push
push-Linked m a = record {
  kind = ground (arith, eq_refl a);
  flags = ground (arith, eq_refl a);
  ref_count = ground (arith, eq_refl a);
  fiber = ground (arith, eq_refl a);
  value = ground (arith, eq_refl a);
  res = ground (arith, eq_refl a);
}

push_fields :
    (m : Core) (a : ℕ)
    → ((um_runqueue_push m a).op_freelist ≡ m.op_freelist)
      × ((um_runqueue_push m a).ops_free ≡ m.ops_free)
      × ((um_runqueue_push m a).ops_pending ≡ m.ops_pending)
unfolding um_runqueue_push
push_fields m a = ground arith

-- The free list of operations is as before.
pub record SamePool (m m' : Core) : Type 0 where
  pub op_freelist : m'.op_freelist ≡ m.op_freelist
  pub ops_free : m'.ops_free ≡ m.ops_free

-- An operation is put on the free list: it is the first there, before what was, and counted.
pub record Freed (m m' : Core) (a : ℕ) : Type 0 where
  pub head : m'.op_freelist ≡ a
  pub next : (m'.ops a).next ≡ m.op_freelist
  pub ops_free : m'.ops_free ≡ m.ops_free + 1

unfoldable pub pending_less : Core → Core
pending_less m = record m { ops_pending = sub32 m.ops_pending 1 }

pub process_cqe-alone :
    (m : Core) (n : ℕ) (res : ℤ) (more : Bool)
    → Single (m.ops (suc n))
    → um_process_cqe m (record { user_data = suc n; res = res; more = more })
      ≡ complete_op (um_op_release (pending_less m) (suc n)) (suc n) res false true
unfolding um_process_cqe pending_less
process_cqe-alone m n res more s = simp (s.transient, s.multishot)

-- What `um_schedule_op` changes in the operation, but for its links.
record Scheduled (op op' : Op) : Type 0 where
  flags : op'.flags ≡ record (op.flags) { scheduled = true }
  ref_count : op'.ref_count ≡ op.ref_count + 1
  fiber : op'.fiber ≡ op.fiber
  value : op'.value ≡ op.value
  res : op'.res ≡ op.res

schedule_op-Scheduled : (m : Core) (a : ℕ) → Scheduled (m.ops a) ((um_schedule_op m a).ops a)
unfolding um_schedule_op
schedule_op-Scheduled m a =
    let m₁ = set_flags m a (λ f. record f { scheduled = true }) in
    let p = push-Linked m₁ a in
    let h = here (um_runqueue_push m₁ a) a (λ op. record op { ref_count = op.ref_count + 1 }) in
    let k = here m a (λ op. record op { flags = record (op.flags) { scheduled = true } }) in
    record {
      flags = ap (λ o. o.flags) h ∙ p.flags ∙ ap (λ o. o.flags) k;
      ref_count = ap (λ o. o.ref_count) h ∙ ap (λ n. n + 1) (p.ref_count ∙ ap (λ o. o.ref_count) k);
      fiber = ap (λ o. o.fiber) h ∙ p.fiber ∙ ap (λ o. o.fiber) k;
      value = ap (λ o. o.value) h ∙ p.value ∙ ap (λ o. o.value) k;
      res = ap (λ o. o.res) h ∙ p.res ∙ ap (λ o. o.res) k;
    }

schedule_op-SamePool : (m : Core) (a : ℕ) → SamePool m (um_schedule_op m a)
unfolding um_schedule_op
schedule_op-SamePool m a =
    let f = push_fields (set_flags m a (λ f. record f { scheduled = true })) a in
    record { op_freelist = f.0; ops_free = f.1 }

-- The result of a single-shot operation is written.
unfoldable pub with_result : ℤ → Op → Op
with_result res op = record op { res = res; flags = complete op.flags }

pub complete_op_single :
    (m : Core) (a : ℕ) (res : ℤ)
    → (m.ops a).canceled ≡ false
    → (m.ops a).async ≡ false
    → complete_op m a res false true ≡ um_schedule_op (modify m a (with_result res)) a
unfolding complete_op complete_single with_result
complete_op_single m a res c s = simp (c, eq_refl a, s)

unfoldable pub one_reference : Op → Op
one_reference op = record op { ref_count = 1 }

-- The machine behind the completion of an operation that is waited for.
unfoldable pub completed : Core → ℕ → ℤ → Core
unfolding one_reference with_result pending_less
completed m a res =
    um_schedule_op (modify (modify (pending_less m) a one_reference) a (with_result res)) a

pub process_cqe-completed :
    (m : Core) (n : ℕ) (res : ℤ) (more : Bool)
    → Single (m.ops (suc n))
    → (m.ops (suc n)).canceled ≡ false
    → (m.ops (suc n)).ref_count ≡ 2
    → um_process_cqe m (record { user_data = suc n; res = res; more = more })
      ≡ completed m (suc n) res
unfolding completed one_reference pending_less
process_cqe-completed m n res more s c e =
    let m₁ = modify (pending_less m) (suc n) one_reference in
    let h = here (pending_less m) (suc n) one_reference in
    process_cqe-alone m n res more s
    ∙ ap (λ x. complete_op x (suc n) res false true) (release_shared (pending_less m) (suc n) e)
    ∙ complete_op_single m₁ (suc n) res (ap (λ o. o.canceled) h ∙ c) (ap (λ o. o.async) h ∙ s.async)

-- A completed operation that waits in the run queue: the kernel's reference is gone, the run queue
-- has one.
pub record Completed (m m' : Core) (a : ℕ) (result : ℤ) : Type 0 where
  pub flags : (m'.ops a).flags ≡ record (complete ((m.ops a).flags)) { scheduled = true }
  pub ref_count : (m'.ops a).ref_count ≡ 2
  pub fiber : (m'.ops a).fiber ≡ (m.ops a).fiber
  pub value : (m'.ops a).value ≡ (m.ops a).value
  pub res : (m'.ops a).res ≡ result
  pub op_freelist : m'.op_freelist ≡ m.op_freelist
  pub ops_free : m'.ops_free ≡ m.ops_free

pub completed-Completed : (m : Core) (a : ℕ) (res : ℤ) → Completed m (completed m a res) a res
unfolding completed one_reference pending_less with_result
completed-Completed m a res =
    let m₁ = modify (pending_less m) a one_reference in
    let m₂ = modify m₁ a (with_result res) in
    let op =
      here m₁ a (with_result res) ∙ ap (with_result res) (here (pending_less m) a one_reference) in
    let s = schedule_op-Scheduled m₂ a in
    let p = schedule_op-SamePool m₂ a in
    record {
      flags = s.flags ∙ ap (λ o. record (o.flags) { scheduled = true }) op;
      ref_count = s.ref_count ∙ ap (λ o. o.ref_count + 1) op;
      fiber = s.fiber ∙ ap (λ o. o.fiber) op;
      value = s.value ∙ ap (λ o. o.value) op;
      res = s.res ∙ ap (λ o. o.res) op;
      op_freelist = p.op_freelist;
      ops_free = p.ops_free;
    }

-- The completion of a single-shot operation that its fiber still waits for: the kernel's reference
-- goes, and the operation, with its result, is put on the run queue, which has a reference of its own.
pub um_process_cqe-Completed :
    (m : Core) (n : ℕ) (res : ℤ) (more : Bool)
    → Single (m.ops (suc n))
    → (m.ops (suc n)).canceled ≡ false
    → (m.ops (suc n)).ref_count ≡ 2
    → Completed m
        (um_process_cqe m (record { user_data = suc n; res = res; more = more }))
        (suc n)
        res
um_process_cqe-Completed m n res more s c e =
    subst (λ x. Completed m x (suc n) res) (sym (process_cqe-completed m n res more s c e))
      (completed-Completed m (suc n) res)

-- An operation that its fiber has been resumed for, and that only the fiber refers to.
pub record Resumed (m m' : Core) (a : ℕ) : Type 0 where
  pub flags : (m'.ops a).flags ≡ record ((m.ops a).flags) { scheduled = false }
  pub ref_count : (m'.ops a).ref_count ≡ 1
  pub res : (m'.ops a).res ≡ (m.ops a).res
  pub op_freelist : m'.op_freelist ≡ m.op_freelist
  pub ops_free : m'.ops_free ≡ m.ops_free

unscheduled : Op → Op
unscheduled op = record op { flags = record (op.flags) { scheduled = false } }

switched : Core → Core
switched m = record m { total_switches = m.total_switches + 1 }

-- Behind `process_runqueue_op`.
unfoldable pub resumed : Core → ℕ → Core
unfolding unscheduled switched one_reference
resumed m a = modify (modify (switched m) a unscheduled) a one_reference

pub resumed-Resumed : (m : Core) (a : ℕ) → Resumed m (resumed m a) a
unfolding resumed unscheduled switched one_reference
resumed-Resumed m a =
    let m₁ = modify (switched m) a unscheduled in
    let op = here m₁ a one_reference ∙ ap one_reference (here (switched m) a unscheduled) in
    record {
      flags = ap (λ o. o.flags) op;
      ref_count = ap (λ o. o.ref_count) op;
      res = ap (λ o. o.res) op;
      op_freelist = refl;
      ops_free = refl;
    }

pub process_runqueue_op-resumed :
    (m : Core) (a : ℕ)
    → (m.ops a).ref_count ≡ 2
    → process_runqueue_op m a ≡ (((m.ops a).fiber, (m.ops a).value), resumed m a)
unfolding process_runqueue_op resumed unscheduled switched one_reference
process_runqueue_op-resumed m a e =
    let h = here (switched m) a unscheduled in
    ap (λ x. (((m.ops a).fiber, (m.ops a).value), x))
      (release_shared (modify (switched m) a unscheduled) a (ap (λ o. o.ref_count) h ∙ e))

no_reference : Op → Op
no_reference op = record op { ref_count = 0 }

pub release_last-Freed :
    (m : Core) (a : ℕ)
    → (m.ops a).ref_count ≡ 1
    → Single (m.ops a)
    → Freed m (um_op_release m a) a × ((um_op_release m a).ops a).ref_count ≡ 0
unfolding um_op_free
release_last-Freed m a e s =
    let m₁ = modify m a (λ op. record op { ref_count = 0 }) in
    let h =
      here m₁ a (λ op. record op { next = m.op_freelist })
      ∙ ap {A = Op} (λ op. record op { next = m.op_freelist })
          (here m a (λ op. record op { ref_count = 0 })) in
    subst (λ x. Freed m x a × (x.ops a).ref_count ≡ 0) (sym (release_last m a e s))
      (record { head = refl; next = ap (λ o. o.next) h; ops_free = refl }, ap (λ o. o.ref_count) h)

-- How a call ends whose operation is completed.
unfoldable pub end_of : (ℤ → ℤ) → ℤ → End
end_of give res = if is_neg res && not (timed_out res) then raised_error else returned (give res)

pub finish_op-done :
    (give : ℤ → ℤ) (value : ℕ) (is_exception : Bool) (m : Core) (a : ℕ)
    → (m.ops a).cqe_done ≡ true
    → finish_op give value is_exception m a ≡ ok (end_of give (m.ops a).res, um_op_release m a)
unfolding finish_op finish um_verify_op_completion end_of
finish_op-done give value is_exception m a d =
    elim (Bool-cases (is_neg (m.ops a).res && not (timed_out (m.ops a).res))) [
      | inl e ↦ simp (d, e)
      | inr e ↦ simp (d, e)
    ]
