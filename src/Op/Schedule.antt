-- ===== src/Op/Schedule.antt =====
-- Completions and the run queue: how the scheduler of ext/um/um.c handles a completion, and how it
-- finds the fiber to resume.
use uringmachine.Base.{
  ℕ, zero, suc, ◌+◌, Bool, true, false, not, ◌&&◌, ◌||◌, List, [], ◌∷◌, ◌++◌, ltb, is_zero,
  if◌then◌else◌, sub32, ℤ, Outcome, ok, raised, blocked, out_of_fuel, os_error, ◌>>=◌,
}
use uringmachine.Op.State.{
  OpKind, Flags, Cqe, ready, retry, failed, cancel_sqe, nop_sqe, Core, modify,
}
use uringmachine.Op.{
  um_op_release, um_op_transient_remove, um_runqueue_push, um_runqueue_shift, um_get_sqe,
}

-- `op->flags |= flags`, or `&= ~flags`, as a change of the flags.
abbrev pub set_flags : Core → ℕ → (Flags → Flags) → Core
set_flags m a f = modify m a (λ op. record op { flags = f op.flags })

-- OP_F_CQE_SEEN | OP_F_CQE_DONE
abbrev pub complete : Flags → Flags
complete f = record f { cqe_seen = true; cqe_done = true }

abbrev is_kind_schedule : OpKind → Bool
is_kind_schedule OpKind.op_schedule = true
is_kind_schedule k = false

unfoldable pub um_schedule_op : Core → ℕ → Core
um_schedule_op m a =
    modify (um_runqueue_push (set_flags m a (λ f. record f { scheduled = true })) a) a
      (λ op. record op { ref_count = op.ref_count + 1 })

-- A transient operation leaves its list and is released; who still has it can see the result.
unfoldable pub complete_transient : Core → ℕ → ℤ → Core
complete_transient m a res =
    let m₁ = um_op_transient_remove (record m { ops_pending = sub32 m.ops_pending 1 }) a in
    um_op_release
      (if ltb 1 (m₁.ops a).ref_count
        then modify m₁ a (λ op. record op { res = res; flags = complete op.flags })
        else m₁)
      a

-- `um_op_multishot_results_push` of an operation that does not use the buffer pool, and its fiber is
-- scheduled unless it is already, or there is none.
unfoldable pub complete_multishot : Core → ℕ → ℤ → (done : Bool) → Core
unfolding um_schedule_op
complete_multishot m a res done =
    let m₁ = modify m a (λ op. record op {
      results = op.results ++ res ∷ [];
      flags = if done then complete op.flags else record (op.flags) { cqe_seen = true };
    }) in
    if (m₁.ops a).scheduled || (m₁.ops a).async then m₁ else um_schedule_op m₁ a

unfoldable pub complete_single : Core → ℕ → ℤ → Core
unfolding um_schedule_op
complete_single m a res =
    let m₁ = modify m a (λ op. record op { res = res; flags = complete op.flags }) in
    if (m₁.ops a).async then m₁ else um_schedule_op m₁ a

-- Behind the release: the completion of an operation that is not transient.
unfoldable pub complete_op : Core → ℕ → ℤ → (multishot done : Bool) → Core
unfolding complete_multishot complete_single
complete_op m a res multishot done =
    if (m.ops a).canceled
    then (if done then um_op_release (set_flags m a complete) a else m)
    else (if multishot then complete_multishot m a res done else complete_single m a res)

unfoldable pub um_process_cqe : Core → Cqe → Core
unfolding complete_transient complete_op
um_process_cqe m cqe =
    let a = cqe.user_data in
    let op = m.ops a in
    let done = if op.multishot then not cqe.more else true in
    let m₁ = record m { ops_pending = sub32 m.ops_pending 1 } in
    if is_zero a
    then m
    else (if op.transient
        then complete_transient m a cqe.res
        else complete_op (if done then um_op_release m₁ a else m) a cqe.res op.multishot done)

unfoldable pub um_process_ready_cqes : Core → List Cqe → Core
unfolding um_process_cqe
um_process_ready_cqes m [] = m
um_process_ready_cqes m (cqe ∷ cqes) = um_process_ready_cqes (um_process_cqe m cqe) cqes

-- What was put on the submission queue is submitted, and the completions that are ready are
-- processed. With no wait left the model stops: `blocked`.
unfoldable pub um_wait_for_and_process_ready_cqes : Core → Outcome Core
um_wait_for_and_process_ready_cqes m = elim m.waits [
  | [] ↦ blocked
  | wait ∷ waits ↦
      let m₁ = record m { waits = waits; total_waits = m.total_waits + 1; ops_unsubmitted = 0 } in
      elim wait [
        | ready cqes ↦ ok (um_process_ready_cqes m₁ cqes)
        | retry ↦ ok m₁
        | failed ↦ raised os_error
      ]
]

-- Resumes the fiber: its number and the value that it is given.
unfoldable pub process_runqueue_op : Core → ℕ → (ℕ × ℕ) × Core
process_runqueue_op m a =
    let op = m.ops a in
    let m₁ = record m { total_switches = m.total_switches + 1 } in
    ((op.fiber, op.value), um_op_release (set_flags m₁ a (λ f. record f { scheduled = false })) a)

-- What the loop of `um_switch` does with an operation that it has taken off the run queue, whether it
-- is to be skipped or not: `rest` goes on with the loop.
unfoldable pub run_op :
    (Core → Outcome ((ℕ × ℕ) × Core)) → Core → ℕ → (skip : Bool) → Outcome ((ℕ × ℕ) × Core)
unfolding process_runqueue_op
run_op rest m a true = rest (um_op_release (set_flags m a (λ f. record f { scheduled = false })) a)
run_op rest m a false =
    if m.test_mode && is_kind_schedule (m.ops a).kind
    then (um_wait_for_and_process_ready_cqes m >>= λ m₁. ok (process_runqueue_op m₁ a))
    else ok (process_runqueue_op m a)

unfoldable pub switch_round :
    (Core → Outcome ((ℕ × ℕ) × Core)) → ℕ × Core → Outcome ((ℕ × ℕ) × Core)
unfolding run_op
switch_round rest (zero, m) = um_wait_for_and_process_ready_cqes m >>= rest
switch_round rest (suc n, m) = run_op rest m (suc n) (m.ops (suc n)).skip

-- A round takes one operation off the run queue, or waits for completions.
unfoldable pub um_switch : (fuel : ℕ) → Core → Outcome ((ℕ × ℕ) × Core)
unfolding switch_round
um_switch zero m = out_of_fuel
um_switch (suc fuel) m = switch_round (um_switch fuel) (um_runqueue_shift m)

unfoldable pub um_cancel_op : Core → ℕ → Outcome Core
um_cancel_op m a = um_get_sqe m 0 (cancel_sqe a)

unfoldable pub um_cancel_op_and_discard_cqe : Core → ℕ → Outcome Core
unfolding um_cancel_op
um_cancel_op_and_discard_cqe m a = do
  m₁ ← um_cancel_op m a
  ok (set_flags m₁ a (λ f. record f { canceled = true }))

-- The no-op is submitted at once, `ops_unsubmitted` keeps counting it.
pub um_wakeup : Core → Outcome Core
um_wakeup m = um_get_sqe m 0 nop_sqe
