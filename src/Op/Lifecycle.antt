-- ===== src/Op/Lifecycle.antt =====
-- The life of an operation (ext/um/um.c): it is freed once, whether its completion or its fiber
-- comes first.
use uringmachine.Base.{ℕ, suc, ◌+◌, ◌≡◌, sym, ap, subst, ◌∙◌, Bool, true, false, ℤ, ok}
use uringmachine.Op.State.{Flags, Op, Core}
use uringmachine.Op.{um_op_release}
use uringmachine.Op.Schedule.{complete, um_process_cqe, process_runqueue_op}
use uringmachine.Op.Blocking.{finish_op}
use uringmachine.Op.Steps.{
  Single, completed, completed-Completed, process_cqe-completed, resumed, resumed-Resumed,
  process_runqueue_op-resumed, Freed, release_last-Freed, end_of, finish_op-done,
}

same_flags :
    (op op' : Op)
    → Single op
    → op'.multishot ≡ op.multishot
    → op'.async ≡ op.async
    → op'.transient ≡ op.transient
    → op'.free_iovecs ≡ op.free_iovecs
    → Single op'
same_flags op op' s h₁ h₂ h₃ h₄ = record {
  multishot = h₁ ∙ s.multishot;
  async = h₂ ∙ s.async;
  transient = h₃ ∙ s.transient;
  free_iovecs = h₄ ∙ s.free_iovecs;
}

-- What a blocking call sees whose operation completes while it waits: its fiber is resumed with the
-- operation's value, the call returns the result or raises the error, and the operation, with no
-- reference left, is back on the free list, once.
pub record Returns (m : Core) (a : ℕ) (res : ℤ) (give : ℤ → ℤ) (value : ℕ) (is_exception : Bool)
    (m₁ : Core) : Type 0 where
  pub resume : (process_runqueue_op m₁ a).0 ≡ ((m.ops a).fiber, (m.ops a).value)
  pub last : Core
  pub end :
      finish_op give value is_exception (process_runqueue_op m₁ a).1 a ≡ ok (end_of give res, last)
  pub freed : Freed m last a
  pub ref_count : (last.ops a).ref_count ≡ 0

resumed_completed_flags :
    (m : Core) (a : ℕ) (res : ℤ)
    → ((resumed (completed m a res) a).ops a).flags
      ≡ record (complete ((m.ops a).flags)) { scheduled = false }
resumed_completed_flags m a res =
    (resumed-Resumed (completed m a res) a).flags
    ∙ ap {A = Flags} (λ f. record f { scheduled = false }) (completed-Completed m a res).flags

pub resumed_completed_done :
    (m : Core) (a : ℕ) (res : ℤ) → ((resumed (completed m a res) a).ops a).cqe_done ≡ true
resumed_completed_done m a res = ap (λ f. f.cqe_done) (resumed_completed_flags m a res)

-- The fiber that is resumed for the completion of an operation frees it when it releases it.
pub resumed_completed-Freed :
    (m : Core) (a : ℕ) (res : ℤ)
    → Single (m.ops a)
    → Freed m (um_op_release (resumed (completed m a res) a) a) a
      × ((um_op_release (resumed (completed m a res) a) a).ops a).ref_count ≡ 0
resumed_completed-Freed m a res s =
    let c = completed-Completed m a res in
    let m₂ = resumed (completed m a res) a in
    let r = resumed-Resumed (completed m a res) a in
    let flags = resumed_completed_flags m a res in
    let s₂ =
      same_flags (m.ops a) (m₂.ops a) s (ap (λ f. f.multishot) flags) (ap (λ f. f.async) flags)
        (ap (λ f. f.transient) flags) (ap (λ f. f.free_iovecs) flags) in
    let f = release_last-Freed m₂ a r.ref_count s₂ in
    (
      record {
        head = f.0.head;
        next = f.0.next ∙ r.op_freelist ∙ c.op_freelist;
        ops_free = f.0.ops_free ∙ ap (λ n. n + 1) (r.ops_free ∙ c.ops_free);
      },
      f.1,
    )

completed-Returns :
    (m : Core) (a : ℕ) (res : ℤ) (give : ℤ → ℤ) (value : ℕ) (is_exception : Bool)
    → Single (m.ops a)
    → Returns m a res give value is_exception (completed m a res)
completed-Returns m a res give value is_exception s =
    let m₁ = completed m a res in
    let c = completed-Completed m a res in
    let m₂ = resumed m₁ a in
    let r = resumed-Resumed m₁ a in
    let run = process_runqueue_op-resumed m₁ a c.ref_count in
    let f = resumed_completed-Freed m a res s in
    record {
      resume = ap (λ x. x.0) run ∙ (λ i. (c.fiber i, c.value i));
      last = um_op_release m₂ a;
      end =
          ap (λ x. finish_op give value is_exception x.1 a) run
          ∙ finish_op-done give value is_exception m₂ a (resumed_completed_done m a res)
          ∙ ap (λ x. ok (end_of give x, um_op_release m₂ a)) (r.res ∙ c.res);
      freed = f.0;
      ref_count = f.1;
    }

-- A single-shot operation that is waited for, not canceled, with two references, and that the kernel
-- completes: its fiber is resumed, the call ends with the result of the completion or its error, and
-- the operation is freed once.
pub um_process_cqe-Returns :
    (m : Core) (n : ℕ) (res : ℤ) (more : Bool) (give : ℤ → ℤ) (value : ℕ) (is_exception : Bool)
    → Single (m.ops (suc n))
    → (m.ops (suc n)).canceled ≡ false
    → (m.ops (suc n)).ref_count ≡ 2
    → Returns m
        (suc n)
        res
        give
        value
        is_exception
        (um_process_cqe m (record { user_data = suc n; res = res; more = more }))
um_process_cqe-Returns m n res more give value is_exception s c e =
    subst (Returns m (suc n) res give value is_exception)
      (sym (process_cqe-completed m n res more s c e))
      (completed-Returns m (suc n) res give value is_exception s)
