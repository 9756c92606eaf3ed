-- ===== src/Op/Start.antt =====
-- How an operation begins (ext/um/um.c): what the completion and the fiber find is what was prepared.
use uringmachine.Base.{
  ℕ, suc, ◌+◌, ◌-◌, ◌≡◌, refl, ap, true, false, if◌then◌else◌, ◌∷◌, [], ℤ, sub32, ok,
}
use uringmachine.Op.State.{OpKind, Flags, no_flags, Op, op_sqe, Core, modify}
use uringmachine.Op.{um_op_acquire, um_op_alloc, um_get_sqe, um_prep_op}
use uringmachine.Op.Blocking.{start_op, um_close_async}
use uringmachine.Op.Steps.{here, Single}
use uringmachine.Op.Async.{Async}

unfoldable pub acquired : Core → ℕ → Core
acquired m a = record m { op_freelist = (m.ops a).next; ops_free = sub32 m.ops_free 1 }

pub acquire-acquired :
    (m : Core) (n : ℕ) → m.op_freelist ≡ suc n → um_op_acquire m ≡ (suc n, acquired m (suc n))
unfolding um_op_acquire um_op_alloc acquired
acquire-acquired m n e = simp e

unfoldable pub put : Core → ℕ → Core
put m a = record m {
  room = m.room - 1;
  sqes = op_sqe a ∷ m.sqes;
  ops_unsubmitted = m.ops_unsubmitted + 1;
  ops_pending = m.ops_pending + 1;
  total_ops = m.total_ops + 1;
}

pub get_sqe-put :
    (m : Core) (n r : ℕ)
    → m.room ≡ suc r
    → um_get_sqe m (suc n) (op_sqe (suc n)) ≡ ok (put m (suc n))
unfolding um_get_sqe put
get_sqe-put m n r e = simp e

-- What `um_prep_op` makes of an operation that is not transient.
unfoldable pub fresh : ℕ → OpKind → ℕ → Flags → Op
fresh fiber kind ref_count flags = record {
  prev = 0;
  next = 0;
  kind = kind;
  flags = flags;
  ref_count = ref_count;
  fiber = if flags.async then 0 else fiber;
  value = 0;
  res = ℤ.pos 0;
  results = [];
  iovecs = 0;
}

prepared : ℕ → OpKind → ℕ → Flags → Core → ℕ → Core
prepared fiber kind ref_count flags m a =
    put (modify (acquired m a) a (λ op. fresh fiber kind ref_count flags)) a

-- What a blocking call leaves to wait for: its operation is the first of the free list, on the
-- submission queue, without a completion, and the kernel and the fiber refer to it.
pub record Started (m m' : Core) (a who : ℕ) (what : OpKind) : Type 0 where
  pub single : Single (m'.ops a)
  pub ref_count : (m'.ops a).ref_count ≡ 2
  pub cqe_done : (m'.ops a).cqe_done ≡ false
  pub canceled : (m'.ops a).canceled ≡ false
  pub fiber : (m'.ops a).fiber ≡ who
  pub kind : (m'.ops a).kind ≡ what
  pub sqes : m'.sqes ≡ op_sqe a ∷ m.sqes
  pub op_freelist : m'.op_freelist ≡ (m.ops a).next

-- With an operation on the free list and room in the submission queue a blocking call starts.
pub start_op-Started :
    (fiber : ℕ) (kind : OpKind) (m : Core) (n r : ℕ)
    → m.op_freelist ≡ suc n
    → m.room ≡ suc r
    → (m' : Core) × (start_op fiber kind m ≡ ok (suc n, m')) × Started m m' (suc n) fiber kind
unfolding start_op um_prep_op prepared fresh acquired put
start_op-Started fiber kind m n r free room =
    let a = suc n in
    let h = here (acquired m a) a (λ op. fresh fiber kind 2 no_flags) in
    (
      prepared fiber kind 2 no_flags m a,
      simp (
        acquire-acquired m n free,
        get_sqe-put (modify (acquired m a) a (λ op. fresh fiber kind 2 no_flags)) n r room,
      ),
      record {
        single = record {
          multishot = ap (λ o. o.multishot) h;
          async = ap (λ o. o.async) h;
          transient = ap (λ o. o.transient) h;
          free_iovecs = ap (λ o. o.free_iovecs) h;
        };
        ref_count = ap (λ o. o.ref_count) h;
        cqe_done = ap (λ o. o.cqe_done) h;
        canceled = ap (λ o. o.canceled) h;
        fiber = ap (λ o. o.fiber) h;
        kind = ap (λ o. o.kind) h;
        sqes = refl;
        op_freelist = refl;
      },
    )

-- `um_close_async`, with an operation on the free list and room in the submission queue, leaves an
-- operation that only the kernel refers to and that no fiber waits for.
pub um_close_async-Async :
    (m : Core) (n r : ℕ)
    → m.op_freelist ≡ suc n
    → m.room ≡ suc r
    → (m' : Core) × (um_close_async m ≡ ok (suc n, m'))
      × Async (m'.ops (suc n))
      × (m'.sqes ≡ op_sqe (suc n) ∷ m.sqes)
      × (m'.op_freelist ≡ (m.ops (suc n)).next)
unfolding um_close_async um_prep_op prepared fresh acquired put
um_close_async-Async m n r free room =
    let a = suc n in
    let flags : Flags = record no_flags { async = true } in
    let h = here (acquired m a) a (λ op. fresh 0 OpKind.op_close_async 1 flags) in
    (
      prepared 0 OpKind.op_close_async 1 flags m a,
      simp (
        acquire-acquired m n free,
        get_sqe-put (modify (acquired m a) a (λ op. fresh 0 OpKind.op_close_async 1 flags)) n r
            room,
      ),
      record {
        multishot = ap (λ o. o.multishot) h;
        async = ap (λ o. o.async) h;
        transient = ap (λ o. o.transient) h;
        free_iovecs = ap (λ o. o.free_iovecs) h;
        canceled = ap (λ o. o.canceled) h;
        ref_count = ap (λ o. o.ref_count) h;
      },
      refl,
      refl,
    )
