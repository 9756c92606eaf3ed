-- ===== src/Op/Async.antt =====
-- Operations that no fiber waits for: `um_close_async` and `um_shutdown_async` (ext/um/um.c).
use uringmachine.Base.{ℕ, suc, ◌≡◌, refl, ap, sym, subst, ◌∙◌, Bool, true, false, eq_refl, ℤ}
use uringmachine.Op.State.{Op, Core, modify}
use uringmachine.Op.{um_op_release, um_op_free}
use uringmachine.Op.Schedule.{um_process_cqe, complete_op, complete_single}
use uringmachine.Op.Steps.{Freed, here, with_result, pending_less}
use uringmachine.Op.Canceled.{gone, gone_op, release-gone}

-- An asynchronous operation that was submitted: only the kernel refers to it.
pub record Async (op : Op) : Type 0 where
  pub multishot : op.multishot ≡ false
  pub async : op.async ≡ true
  pub transient : op.transient ≡ false
  pub free_iovecs : op.free_iovecs ≡ false
  pub canceled : op.canceled ≡ false
  pub ref_count : op.ref_count ≡ 1

process-complete_op :
    (m : Core) (n : ℕ) (res : ℤ) (more : Bool)
    → Async (m.ops (suc n))
    → um_process_cqe m (record { user_data = suc n; res = res; more = more })
      ≡ complete_op (um_op_release (pending_less m) (suc n)) (suc n) res false true
unfolding um_process_cqe pending_less
process-complete_op m n res more s = simp (s.transient, s.multishot)

complete_op_async :
    (m : Core) (a : ℕ) (res : ℤ)
    → (m.ops a).canceled ≡ false
    → (m.ops a).async ≡ true
    → complete_op m a res false true ≡ modify m a (with_result res)
unfolding complete_op complete_single with_result
complete_op_async m a res c s = simp (c, eq_refl a, s)

-- Behind the completion.
over : Core → ℕ → ℤ → Core
over m a res = modify (gone (pending_less m) a) a (with_result res)

process_cqe-over :
    (m : Core) (n : ℕ) (res : ℤ) (more : Bool)
    → Async (m.ops (suc n))
    → um_process_cqe m (record { user_data = suc n; res = res; more = more }) ≡ over m (suc n) res
unfolding over pending_less
process_cqe-over m n res more s =
    let a = suc n in
    let op = gone_op (pending_less m) a in
    process-complete_op m n res more s
    ∙ ap (λ x. complete_op x a res false true)
        (release-gone (pending_less m) a s.multishot s.free_iovecs s.ref_count)
    ∙ complete_op_async (gone (pending_less m) a) a res (ap (λ o. o.canceled) op ∙ s.canceled)
        (ap (λ o. o.async) op ∙ s.async)

-- The operation is freed, and nobody is resumed.
pub record Over (m m' : Core) (a : ℕ) : Type 0 where
  pub freed : Freed m m' a
  pub ref_count : (m'.ops a).ref_count ≡ 0
  pub runqueue_head : m'.runqueue_head ≡ m.runqueue_head
  pub ops_runqueue : m'.ops_runqueue ≡ m.ops_runqueue

over-Over : (m : Core) (a : ℕ) (res : ℤ) → Over m (over m a res) a
unfolding over pending_less gone um_op_free with_result
over-Over m a res =
    let h =
      here (gone (pending_less m) a) a (with_result res)
      ∙ ap (with_result res) (gone_op (pending_less m) a) in
    record {
      freed = record { head = refl; next = ap (λ o. o.next) h; ops_free = refl };
      ref_count = ap (λ o. o.ref_count) h;
      runqueue_head = refl;
      ops_runqueue = refl;
    }

-- The completion of an asynchronous operation frees it once, and resumes nobody.
pub um_process_cqe-Over :
    (m : Core) (n : ℕ) (res : ℤ) (more : Bool)
    → Async (m.ops (suc n))
    → Over m (um_process_cqe m (record { user_data = suc n; res = res; more = more })) (suc n)
um_process_cqe-Over m n res more s =
    subst (λ x. Over m x (suc n)) (sym (process_cqe-over m n res more s)) (over-Over m (suc n) res)
