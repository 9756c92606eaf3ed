-- ===== src/Op/Close.antt =====
-- `um_close_async` (ext/um/um.c) from its start to its end.
use uringmachine.Base.{ℕ, suc, ◌≡◌, refl, sym, ◌∙◌, Bool, ℤ, ok, ◌∷◌}
use uringmachine.Op.State.{op_sqe, Core}
use uringmachine.Op.Schedule.{um_process_cqe}
use uringmachine.Op.Blocking.{um_close_async}
use uringmachine.Op.Start.{um_close_async-Async}
use uringmachine.Op.Async.{Over, um_process_cqe-Over}

-- The call returns at once, with the operation submitted; its completion frees it, and resumes nobody.
pub record Closed (m : Core) (a : ℕ) (res : ℤ) (more : Bool) : Type 0 where
  pub closing : Core
  pub start : um_close_async m ≡ ok (a, closing)
  pub sqes : closing.sqes ≡ op_sqe a ∷ m.sqes
  pub last : Core
  pub completion : um_process_cqe closing (record { user_data = a; res = res; more = more }) ≡ last
  pub over : Over closing last a
  pub op_freelist : last.op_freelist ≡ m.op_freelist
  pub next : (last.ops a).next ≡ (m.ops a).next

-- With an operation on the free list and room in the submission queue, um_close_async submits an
-- operation and waits for nothing; its completion, with an error or without, frees the operation
-- once and resumes nobody, and the free list begins as before.
pub um_close_async-Closed :
    (m : Core) (n r : ℕ) (res : ℤ) (more : Bool)
    → m.op_freelist ≡ suc n
    → m.room ≡ suc r
    → Closed m (suc n) res more
um_close_async-Closed m n r res more free room =
    let (m', run, s, sqes, rest) = um_close_async-Async m n r free room in
    let o = um_process_cqe-Over m' n res more s in
    record {
      closing = m';
      start = run;
      sqes = sqes;
      last = _;
      completion = refl;
      over = o;
      op_freelist = o.freed.head ∙ sym free;
      next = o.freed.next ∙ rest;
    }
