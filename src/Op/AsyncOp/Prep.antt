-- ===== src/Op/AsyncOp/Prep.antt =====
-- How the timeout of an AsyncOp begins, and its whole life when nobody awaits it
-- (ext/um/um_async_op.c).
use uringmachine.Base.{ℕ, suc, ◌≡◌, refl, sym, ap, ◌∙◌, Bool, true, eq_refl, ◌∷◌, ℤ, arith, ok}
use uringmachine.Op.State.{OpKind, Flags, no_flags, op_sqe, Core, modify}
use uringmachine.Op.{um_op_transient_add, um_prep_op}
use uringmachine.Op.Schedule.{um_process_cqe}
use uringmachine.Op.Steps.{here}
use uringmachine.Op.Start.{acquired, acquire-acquired, put, get_sqe-put, fresh}
use uringmachine.Op.AsyncOp.{um_prep_timeout, async_op_free}
use uringmachine.Op.AsyncOp.Life.{Running, Keeps, um_process_cqe-Keeps}

-- What putting an operation on the transient list changes: its link, and the head.
record Listed (m m' : Core) (a : ℕ) : Type 0 where
  flags : (m'.ops a).flags ≡ (m.ops a).flags
  ref_count : (m'.ops a).ref_count ≡ (m.ops a).ref_count
  op_freelist : m'.op_freelist ≡ m.op_freelist
  room : m'.room ≡ m.room
  sqes : m'.sqes ≡ m.sqes
  head : m'.transient_head ≡ a

transient_add-Listed : (m : Core) (a : ℕ) → Listed m (um_op_transient_add m a) a
unfolding um_op_transient_add
transient_add-Listed m a = record {
  flags = ground (arith, eq_refl a);
  ref_count = ground (arith, eq_refl a);
  op_freelist = ground (arith, eq_refl a);
  room = ground (arith, eq_refl a);
  sqes = ground (arith, eq_refl a);
  head = ground (arith, eq_refl a);
}

timeout_flags : Flags
timeout_flags = record no_flags { async = true; transient = true }

-- The first operation of the free list is submitted and put on the transient list.
pub record Started (m m' : Core) (a : ℕ) : Type 0 where
  pub running : Running (m'.ops a)
  pub transient_head : m'.transient_head ≡ a
  pub sqes : m'.sqes ≡ op_sqe a ∷ m.sqes
  pub op_freelist : m'.op_freelist ≡ (m.ops a).next

prep_timeout-Started :
    (m : Core) (n r : ℕ)
    → m.op_freelist ≡ suc n
    → m.room ≡ suc r
    → (m' : Core) × (um_prep_timeout m ≡ ok (suc n, m')) × Started m m' (suc n)
unfolding um_prep_timeout um_prep_op acquired put fresh timeout_flags
prep_timeout-Started m n r free room =
    let a = suc n in
    let m₁ = modify (acquired m a) a (λ op. fresh 0 OpKind.op_timeout 2 timeout_flags) in
    let h = here (acquired m a) a (λ op. fresh 0 OpKind.op_timeout 2 timeout_flags) in
    let l = transient_add-Listed m₁ a in
    (
      put (um_op_transient_add m₁ a) a,
      simp (acquire-acquired m n free, get_sqe-put (um_op_transient_add m₁ a) n r (l.room ∙ room)),
      record {
        running = record {
          multishot = ap (λ f. f.multishot) l.flags ∙ ap (λ o. o.multishot) h;
          free_iovecs = ap (λ f. f.free_iovecs) l.flags ∙ ap (λ o. o.free_iovecs) h;
          transient = ap (λ f. f.transient) l.flags ∙ ap (λ o. o.transient) h;
          canceled = ap (λ f. f.canceled) l.flags ∙ ap (λ o. o.canceled) h;
          cqe_done = ap (λ f. f.cqe_done) l.flags ∙ ap (λ o. o.cqe_done) h;
          ref_count = l.ref_count ∙ ap (λ o. o.ref_count) h;
        };
        transient_head = l.head;
        sqes = ap (λ x. op_sqe a ∷ x) l.sqes;
        op_freelist = l.op_freelist;
      },
    )

-- The life of a timeout that nobody awaits.
pub record Whole (m : Core) (a : ℕ) (res : ℤ) (more : Bool) : Type 0 where
  pub waiting : Core
  pub start : um_prep_timeout m ≡ ok (a, waiting)
  pub started : Started m waiting a
  pub done : Core
  pub completion : um_process_cqe waiting (record { user_data = a; res = res; more = more }) ≡ done
  pub keeps : Keeps waiting done a res
  pub op_freelist : (async_op_free done a).op_freelist ≡ m.op_freelist
  pub next : ((async_op_free done a).ops a).next ≡ (m.ops a).next

-- A timeout that is prepared with an operation on the free list and room in the submission queue, and
-- that the kernel completes while nobody awaits it: its AsyncOp is done and has the result, which
-- `await` returns at once; no fiber is resumed; and when the object is collected the operation is
-- freed, once, and the free list begins as before.
pub um_prep_timeout-Whole :
    (m : Core) (n r : ℕ) (res : ℤ) (more : Bool)
    → m.op_freelist ≡ suc n
    → m.room ≡ suc r
    → Whole m (suc n) res more
um_prep_timeout-Whole m n r res more free room =
    let (m', run, s) = prep_timeout-Started m n r free room in
    let k = um_process_cqe-Keeps m' n res more s.running in
    record {
      waiting = m';
      start = run;
      started = s;
      done = _;
      completion = refl;
      keeps = k;
      op_freelist = k.freed.head ∙ sym free;
      next = k.freed.next ∙ s.op_freelist;
    }
