-- ===== src/Op/Timeout.antt =====
-- `um_timeout` (ext/um/um.c): a timeout that has fired when its block is left.
use uringmachine.Base.{
  ℕ, suc, ◌≡◌, ap, ◌∙◌, Bool, true, false, is_zero, if◌then◌else◌, ℤ, Outcome, ok, arith, sub32,
}
use uringmachine.Op.State.{Core, modify}
use uringmachine.Op.{um_runqueue_push, um_runqueue_shift}
use uringmachine.Op.Schedule.{
  um_process_cqe, um_schedule_op, process_runqueue_op, um_switch, switch_round, run_op,
}
use uringmachine.Op.Blocking.{um_timeout_complete}
use uringmachine.Op.Steps.{
  here, Single, completed, completed-Completed, process_cqe-completed, release_shared,
  one_reference, pending_less,
}

complete-done :
    (m : Core) (a : ℕ)
    → (m.ops a).cqe_done ≡ true
    → (m.ops a).ref_count ≡ 2
    → um_timeout_complete m a ≡ ok (modify m a one_reference)
unfolding um_timeout_complete one_reference
complete-done m a d e = simp (d, release_shared m a e)

push_empty : (m : Core) (a : ℕ) → m.runqueue_tail ≡ 0 → ((um_runqueue_push m a).runqueue_head ≡ a)
unfolding um_runqueue_push
push_empty m a e = simp e

completed_head :
    (m : Core) (a : ℕ) (res : ℤ) → m.runqueue_tail ≡ 0 → (completed m a res).runqueue_head ≡ a
unfolding completed um_schedule_op pending_less
completed_head m a res e = push_empty _ a e

push_test_mode : (m : Core) (a : ℕ) → (um_runqueue_push m a).test_mode ≡ m.test_mode
unfolding um_runqueue_push
push_test_mode m a = ground arith

completed_test_mode : (m : Core) (a : ℕ) (res : ℤ) → (completed m a res).test_mode ≡ m.test_mode
unfolding completed um_schedule_op pending_less
completed_test_mode m a res = push_test_mode _ a

-- `um_runqueue_shift` of a run queue that begins with the operation.
shifted : Core → ℕ → Core
shifted m a = record m {
  runqueue_head = (m.ops a).next;
  runqueue_tail = if is_zero (m.ops a).next then 0 else m.runqueue_tail;
  ops_runqueue = sub32 m.ops_runqueue 1;
}

shift_head :
    (m : Core) (n : ℕ) → m.runqueue_head ≡ suc n → um_runqueue_shift m ≡ (suc n, shifted m (suc n))
unfolding um_runqueue_shift shifted
shift_head m n h = simp h

run_op-unskipped :
    (rest : Core → Outcome ((ℕ × ℕ) × Core)) (m : Core) (a : ℕ)
    → m.test_mode ≡ false
    → run_op rest m a false ≡ ok (process_runqueue_op m a)
unfolding run_op
run_op-unskipped rest m a t = simp t

switch_head :
    (fuel : ℕ) (m : Core) (n : ℕ)
    → m.runqueue_head ≡ suc n
    → (m.ops (suc n)).skip ≡ false
    → m.test_mode ≡ false
    → um_switch (suc fuel) m ≡ ok (process_runqueue_op (shifted m (suc n)) (suc n))
unfolding um_switch switch_round shifted
switch_head fuel m n h s t =
    ap (switch_round (um_switch fuel)) (shift_head m n h)
    ∙ ap (run_op (um_switch fuel) (shifted m (suc n)) (suc n)) s
    ∙ run_op-unskipped (um_switch fuel) (shifted m (suc n)) (suc n) t

-- The machine behind the end of the block of a timeout that has fired but not resumed its fiber.
fired : Core → ℕ → ℤ → Core
unfolding one_reference
fired m a res = modify (completed m a res) a one_reference

-- A timeout fires while its block runs, and the block ends before the fiber is resumed: leaving the
-- block does not take the operation off the run queue, so that the next switch resumes the fiber with
-- the timeout's value all the same. Stated for an operation with two references, neither canceled nor
-- to be skipped, an empty run queue, and outside test mode.
pub um_timeout_complete-fires :
    (m : Core) (n fuel : ℕ) (res : ℤ) (more : Bool)
    → Single (m.ops (suc n))
    → (m.ops (suc n)).canceled ≡ false
    → (m.ops (suc n)).skip ≡ false
    → (m.ops (suc n)).ref_count ≡ 2
    → m.runqueue_tail ≡ 0
    → m.test_mode ≡ false
    → (left : Core) × (last : Core) × (um_timeout_complete
          (um_process_cqe m (record { user_data = suc n; res = res; more = more }))
          (suc n)
        ≡ ok left)
      × (um_switch (suc fuel) left ≡ ok (((m.ops (suc n)).fiber, (m.ops (suc n)).value), last))
unfolding fired one_reference process_runqueue_op shifted
um_timeout_complete-fires m n fuel res more s c k e tail t =
    let a = suc n in
    let m₁ = completed m a res in
    let d = completed-Completed m a res in
    let op = here m₁ a one_reference in
    let done = ap (λ f. f.cqe_done) d.flags in
    (
      fired m a res,
      (process_runqueue_op (shifted (fired m a res) a) a).1,
      ap (λ x. um_timeout_complete x a) (process_cqe-completed m n res more s c e)
          ∙ complete-done m₁ a done d.ref_count,
      switch_head fuel (fired m a res) n (completed_head m a res tail)
            (ap (λ o. o.skip) op ∙ ap (λ f. f.skip) d.flags ∙ k) (completed_test_mode m a res ∙ t)
          ∙ ap (λ r. ok (r, (process_runqueue_op (shifted (fired m a res) a) a).1))
              (λ i. ((ap (λ o. o.fiber) op ∙ d.fiber) i, (ap (λ o. o.value) op ∙ d.value) i)),
    )
