-- ===== src/Op/RoundTrip.antt =====
-- A blocking call from its start to its end (ext/um/um.c).
use uringmachine.Base.{ℕ, suc, ◌≡◌, refl, ◌∙◌, Bool, ap, sym, ℤ, ok}
use uringmachine.Op.State.{OpKind, Core}
use uringmachine.Op.Schedule.{um_process_cqe, process_runqueue_op}
use uringmachine.Op.Blocking.{start_op, finish_op}
use uringmachine.Op.Steps.{end_of}
use uringmachine.Op.Lifecycle.{um_process_cqe-Returns}
use uringmachine.Op.Start.{start_op-Started}

-- The call starts with the operation `a`, the kernel completes it, the fiber is resumed, and the call
-- ends; the operation is then the first of the free list again, before the same one as at the start.
pub record RoundTrip (fiber : ℕ) (what : OpKind) (give : ℤ → ℤ) (m : Core) (a : ℕ) (result : ℤ)
    (more : Bool) (value : ℕ) (is_exception : Bool) : Type 0 where
  pub waiting : Core
  pub started : start_op fiber what m ≡ ok (a, waiting)
  pub switch : ℕ × ℕ
  pub resumed : Core
  pub resume :
      process_runqueue_op
        (um_process_cqe waiting (record { user_data = a; res = result; more = more }))
        a
      ≡ (switch, resumed)
  pub who : switch.0 ≡ fiber
  pub last : Core
  pub end : finish_op give value is_exception resumed a ≡ ok (end_of give result, last)
  pub op_freelist : last.op_freelist ≡ m.op_freelist
  pub next : (last.ops a).next ≡ (m.ops a).next

-- With an operation on the free list and room in the submission queue, a blocking call whose
-- operation the kernel completes ends with the result of the completion, or its error, in the fiber
-- that made the call, and the free list is as before.
pub start_op-RoundTrip :
    (fiber : ℕ) (what : OpKind) (give : ℤ → ℤ) (m : Core) (n r : ℕ) (result : ℤ) (more : Bool)
    (value : ℕ) (is_exception : Bool)
    → m.op_freelist ≡ suc n
    → m.room ≡ suc r
    → RoundTrip fiber what give m (suc n) result more value is_exception
start_op-RoundTrip fiber what give m n r result more value is_exception free room =
    let (m', run, s) = start_op-Started fiber what m n r free room in
    let e =
      um_process_cqe-Returns m' n result more give value is_exception s.single s.canceled
        s.ref_count in
    record {
      waiting = m';
      started = run;
      switch = _;
      resumed = _;
      resume = refl;
      who = ap (λ x. x.0) e.resume ∙ s.fiber;
      last = e.last;
      end = e.end;
      op_freelist = e.freed.head ∙ sym free;
      next = e.freed.next ∙ s.op_freelist;
    }
