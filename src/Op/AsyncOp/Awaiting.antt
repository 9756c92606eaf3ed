-- ===== src/Op/AsyncOp/Awaiting.antt =====
-- An AsyncOp that is awaited while its timeout runs (ext/um/um_async_op.c).
use uringmachine.Base.{
  ℕ, suc, ◌-◌, ◌^◌, ◌≡◌, sym, ap, subst, ◌∙◌, Bool, true, false, not, ◌&&◌, if◌then◌else◌, ℤ, List,
  is_neg, ok, ◌>>=◌,
}
use uringmachine.Op.State.{Op, Core, modify}
use uringmachine.Op.{um_op_release, um_op_transient_remove}
use uringmachine.Op.Schedule.{um_process_cqe, process_runqueue_op}
use uringmachine.Op.Blocking.{returned, raised_error, completed, error, timed_out}
use uringmachine.Op.Await.{Switch, um_verify_op_completion_await}
use uringmachine.Op.Steps
use uringmachine.Op.Steps.{
  here, Single, Freed, resumed, process_cqe-completed, process_runqueue_op-resumed,
  completed-Completed, resumed-Resumed,
}
use uringmachine.Op.Awaited.{IsCompleting}
use uringmachine.Op.Lifecycle.{resumed_completed_done, resumed_completed-Freed}
use uringmachine.Op.Canceled.{release_none}
use uringmachine.Op.AsyncOp.{
  await_start, await_end, um_async_op_await, async_op_await, async_op_free, raise_on_missing_op,
  async_op_is_done,
}
use uringmachine.Op.AsyncOp.Life.{Running, transient_remove-Unlisted}

-- The operation that its fiber waits for.
record Awaited (op : Op) (who : ℕ) : Type 0 where
  single : Single op
  canceled : op.canceled ≡ false
  ref_count : op.ref_count ≡ 2
  fiber : op.fiber ≡ who

start-Awaited :
    (fiber : ℕ) (m : Core) (a : ℕ)
    → Running (m.ops a)
    → Awaited ((await_start fiber m a).ops a) fiber
unfolding await_start
start-Awaited fiber m a s =
    let m₁ = modify m a (λ op. record op { fiber = fiber }) in
    let u = transient_remove-Unlisted m₁ a in
    let k = here m a (λ op. record op { fiber = fiber }) in
    let h =
      here (um_op_transient_remove m₁ a) a
        (λ op. record op { flags = record (op.flags) { async = false; transient = false } }) in
    record {
      single = record {
        multishot =
            ap (λ o. o.multishot) h
            ∙ ap (λ f. f.multishot) u.flags
            ∙ ap (λ o. o.multishot) k
            ∙ s.multishot;
        async = ap (λ o. o.async) h;
        transient = ap (λ o. o.transient) h;
        free_iovecs =
            ap (λ o. o.free_iovecs) h
            ∙ ap (λ f. f.free_iovecs) u.flags
            ∙ ap (λ o. o.free_iovecs) k
            ∙ s.free_iovecs;
      };
      canceled =
          ap (λ o. o.canceled) h
          ∙ ap (λ f. f.canceled) u.flags
          ∙ ap (λ o. o.canceled) k
          ∙ s.canceled;
      ref_count = ap (λ o. o.ref_count) h ∙ u.ref_count ∙ ap (λ o. o.ref_count) k ∙ s.ref_count;
      fiber = ap (λ o. o.fiber) h ∙ u.fiber ∙ ap (λ o. o.fiber) k;
    }

-- The result is an error that is raised.
abbrev pub is_error : ℤ → Bool
is_error res = is_neg res && not (timed_out res)

-- The machine behind the switch, in which the fiber goes on.
record Arrived (fiber : ℕ) (switch : Switch) (m : Core) (a : ℕ) (res : ℤ) (more : Bool)
    : Type 0 where
  before : Core
  found :
      switch (await_start fiber m a)
      ≡ ok
          (process_runqueue_op
            (um_process_cqe before (record { user_data = a; res = res; more = more }))
            a).1
  awaited : Awaited (before.ops a) fiber
  back :
      um_process_cqe before (record { user_data = a; res = res; more = more })
      ≡ Steps.completed before a res
  there :
      process_runqueue_op (Steps.completed before a res) a
      ≡ ((fiber, (before.ops a).value), resumed (Steps.completed before a res) a)

arrive :
    (fiber : ℕ) (switch : Switch) (m : Core) (n : ℕ) (res : ℤ) (more : Bool)
    → Running (m.ops (suc n))
    → IsCompleting (suc n) res more switch
    → Arrived fiber switch m (suc n) res more
arrive fiber switch m n res more s c =
    let a = suc n in
    let (m₁, r, e) = c (await_start fiber m a) in
    let p = subst (λ o. Awaited o fiber) (sym e) (start-Awaited fiber m a s) in
    let d = completed-Completed m₁ a res in
    record {
      before = m₁;
      found = r;
      awaited = p;
      back = process_cqe-completed m₁ n res more p.single p.canceled p.ref_count;
      there =
          process_runqueue_op-resumed (Steps.completed m₁ a res) a d.ref_count
          ∙ (λ i. (((d.fiber ∙ p.fiber) i, d.value i), resumed (Steps.completed m₁ a res) a));
    }

verify-done :
    (switches : List Switch) (m : Core) (a : ℕ)
    → (m.ops a).cqe_done ≡ true
    → um_verify_op_completion_await switches m a ≡ (
        if is_error (m.ops a).res
        then ok (error, um_op_release m a)
        else ok (completed (m.ops a).res, m))
unfolding um_verify_op_completion_await
verify-done switches m a d = simp d

-- The call up to the test of the result.
await-switched :
    (fiber : ℕ) (switch : Switch) (switches : List Switch) (m m₂ : Core) (n : ℕ) (res : ℤ)
    → (m.ops (suc n)).cqe_done ≡ false
    → switch (await_start fiber m (suc n)) ≡ ok m₂
    → (m₂.ops (suc n)).cqe_done ≡ true
    → (m₂.ops (suc n)).res ≡ res
    → async_op_await fiber switch switches false m (suc n) ≡ (
        (if is_error res then ok (error, um_op_release m₂ (suc n)) else ok (completed res, m₂))
        >>= await_end false (suc n))
unfolding async_op_await raise_on_missing_op async_op_is_done um_async_op_await
await-switched fiber switch switches m m₂ n res d r d₂ e =
    let verified = verify-done switches m₂ (suc n) d₂ in simp (d, r, verified, e)

-- The fiber is resumed, the call returns the result, and the operation, which only the object refers
-- to, is freed once when the object is collected.
pub record Returned (fiber : ℕ) (switch : Switch) (switches : List Switch) (m : Core) (a : ℕ)
    (result : ℤ) (more : Bool) : Type 0 where
  pub before : Core
  pub value : ℕ
  pub last : Core
  pub found : switch (await_start fiber m a) ≡ ok last
  pub resume :
      process_runqueue_op
        (um_process_cqe before (record { user_data = a; res = result; more = more }))
        a
      ≡ ((fiber, value), last)
  pub end : async_op_await fiber switch switches false m a ≡ ok (returned result, last)
  pub freed : Freed before (async_op_free last a) a
  pub ref_count : ((async_op_free last a).ops a).ref_count ≡ 0

-- The call raises the error, and the operation is freed twice: by the call, and again when the object
-- is collected, where its reference count goes below 0.
pub record FreedTwice (fiber : ℕ) (switch : Switch) (switches : List Switch) (m : Core) (a : ℕ)
    : Type 0 where
  pub before : Core
  pub last : Core
  pub end : async_op_await fiber switch switches false m a ≡ ok (raised_error, last)
  pub freed : Freed before last a
  pub gone : (last.ops a).ref_count ≡ 0
  pub again : ((async_op_free last a).ops a).ref_count ≡ 2 ^ 32 - 1

-- What the machine behind the switch holds.
record Held (before m : Core) (a : ℕ) (result : ℤ) : Type 0 where
  cqe_done : (m.ops a).cqe_done ≡ true
  res : (m.ops a).res ≡ result
  freed : Freed before (um_op_release m a) a
  ref_count : ((um_op_release m a).ops a).ref_count ≡ 0

resumed-Held :
    (m : Core) (a : ℕ) (res : ℤ)
    → Single (m.ops a)
    → Held m (resumed (Steps.completed m a res) a) a res
resumed-Held m a res s =
    let f = resumed_completed-Freed m a res s in
    record {
      cqe_done = resumed_completed_done m a res;
      res = (resumed-Resumed (Steps.completed m a res) a).res ∙ (completed-Completed m a res).res;
      freed = f.0;
      ref_count = f.1;
    }

-- A timeout that runs, awaited by a fiber, which is resumed for the completion, and whose result is
-- not negative or -ETIME: `await` returns it, and the operation is freed once, when the object is
-- collected.
pub async_op_await-Returned :
    (fiber : ℕ) (switch : Switch) (switches : List Switch) (m : Core) (n : ℕ) (res : ℤ)
    (more : Bool)
    → Running (m.ops (suc n))
    → IsCompleting (suc n) res more switch
    → is_error res ≡ false
    → Returned fiber switch switches m (suc n) res more
unfolding await_end async_op_free
async_op_await-Returned fiber switch switches m n res more s c e =
    let a = suc n in
    let r = arrive fiber switch m n res more s c in
    let m₂ = resumed (Steps.completed r.before a res) a in
    let h = resumed-Held r.before a res r.awaited.single in
    let step : process_runqueue_op
          (um_process_cqe r.before (record { user_data = a; res = res; more = more })) a
        ≡ ((fiber, (r.before.ops a).value), m₂) =
      ap (λ x. process_runqueue_op x a) r.back ∙ r.there in
    let found : switch (await_start fiber m a) ≡ ok m₂ = r.found ∙ ap (λ x. ok x.1) step in
    record {
      before = r.before;
      value = (r.before.ops a).value;
      last = m₂;
      found = found;
      resume = step;
      end =
          await-switched fiber switch switches m m₂ n res s.cqe_done found h.cqe_done h.res
          ∙ ap
              (λ b.
                (if b then ok (error, um_op_release m₂ a) else ok (completed res, m₂))
                >>= await_end false a)
              e
          ∙ ap (λ x. ok (returned x, m₂)) h.res;
      freed = h.freed;
      ref_count = h.ref_count;
    }

-- A timeout that runs, awaited by a fiber, which is resumed for the completion, and whose result is an
-- error but -ETIME, such as -ECANCELED: `await` raises it and frees the operation, which is released
-- again when the object is collected.
pub async_op_await-FreedTwice :
    (fiber : ℕ) (switch : Switch) (switches : List Switch) (m : Core) (n : ℕ) (res : ℤ)
    (more : Bool)
    → Running (m.ops (suc n))
    → IsCompleting (suc n) res more switch
    → is_error res ≡ true
    → FreedTwice fiber switch switches m (suc n)
unfolding await_end async_op_free
async_op_await-FreedTwice fiber switch switches m n res more s c e =
    let a = suc n in
    let r = arrive fiber switch m n res more s c in
    let m₂ = resumed (Steps.completed r.before a res) a in
    let h = resumed-Held r.before a res r.awaited.single in
    let found : switch (await_start fiber m a) ≡ ok m₂ =
      r.found ∙ ap (λ x. ok (process_runqueue_op x a).1) r.back ∙ ap (λ x. ok x.1) r.there in
    let last = um_op_release m₂ a in
    record {
      before = r.before;
      last = last;
      end =
          await-switched fiber switch switches m m₂ n res s.cqe_done found h.cqe_done h.res
          ∙ ap
              (λ b.
                (if b then ok (error, um_op_release m₂ a) else ok (completed res, m₂))
                >>= await_end false a)
              e;
      freed = h.freed;
      gone = h.ref_count;
      again =
          ap (λ x. (x.ops a).ref_count) (release_none last a h.ref_count)
          ∙ ap (λ o. o.ref_count) (here last a (λ op. record op { ref_count = 2 ^ 32 - 1 }));
    }
