-- ===== src/Op/AsyncOp/Life.antt =====
-- The life of the operation of an AsyncOp (ext/um/um_async_op.c): when it is freed, and how often.
use uringmachine.Base.{
  ℕ, suc, ◌+◌, ◌≡◌, refl, sym, ap, subst, ◌∙◌, Bool, true, false, eq_refl, ltb, if◌then◌else◌, ℤ,
  arith, ok, some,
}
use uringmachine.Op.State.{Op, Core, modify}
use uringmachine.Op.{um_op_release, um_op_free, um_op_transient_remove}
use uringmachine.Op.Schedule.{um_process_cqe, complete_transient}
use uringmachine.Op.Steps.{here, Freed, release_shared, pending_less, with_result, one_reference}
use uringmachine.Op.Canceled.{gone, gone_op, release-gone}
use uringmachine.Op.AsyncOp.{
  async_op_done_p, async_op_result, async_op_await, async_op_cancel, async_op_free,
  raise_on_missing_op, async_op_is_done,
}
use uringmachine.Op.Await.{Switch}
use uringmachine.Op.Blocking.{returned}
use uringmachine.Base.{List}

-- An operation that has left the transient list.
pub record Unlisted (m m' : Core) (a : ℕ) : Type 0 where
  pub flags : (m'.ops a).flags ≡ record ((m.ops a).flags) { transient = false }
  pub ref_count : (m'.ops a).ref_count ≡ (m.ops a).ref_count
  pub fiber : (m'.ops a).fiber ≡ (m.ops a).fiber
  pub value : (m'.ops a).value ≡ (m.ops a).value
  pub res : (m'.ops a).res ≡ (m.ops a).res
  pub op_freelist : m'.op_freelist ≡ m.op_freelist
  pub ops_free : m'.ops_free ≡ m.ops_free
  pub runqueue_head : m'.runqueue_head ≡ m.runqueue_head
  pub ops_runqueue : m'.ops_runqueue ≡ m.ops_runqueue
  pub room : m'.room ≡ m.room

pub transient_remove-Unlisted : (m : Core) (a : ℕ) → Unlisted m (um_op_transient_remove m a) a
unfolding um_op_transient_remove
transient_remove-Unlisted m a = record {
  flags = ground (arith, eq_refl a);
  ref_count = ground (arith, eq_refl a);
  fiber = ground (arith, eq_refl a);
  value = ground (arith, eq_refl a);
  res = ground (arith, eq_refl a);
  op_freelist = ground (arith, eq_refl a);
  ops_free = ground (arith, eq_refl a);
  runqueue_head = ground (arith, eq_refl a);
  ops_runqueue = ground (arith, eq_refl a);
  room = ground (arith, eq_refl a);
}

-- A timeout that runs: neither completed nor awaited.
pub record Running (op : Op) : Type 0 where
  pub multishot : op.multishot ≡ false
  pub free_iovecs : op.free_iovecs ≡ false
  pub transient : op.transient ≡ true
  pub canceled : op.canceled ≡ false
  pub cqe_done : op.cqe_done ≡ false
  pub ref_count : op.ref_count ≡ 2

-- Behind the completion of a timeout that is not awaited.
kept : Core → ℕ → ℤ → Core
unfolding with_result one_reference pending_less
kept m a res =
    modify (modify (um_op_transient_remove (pending_less m) a) a (with_result res)) a one_reference

kept_op :
    (m : Core) (a : ℕ) (res : ℤ)
    → (kept m a res).ops a
      ≡ one_reference (with_result res ((um_op_transient_remove (pending_less m) a).ops a))
unfolding kept with_result one_reference pending_less
kept_op m a res =
    let m₁ = um_op_transient_remove (pending_less m) a in
    here (modify m₁ a (with_result res)) a one_reference
    ∙ ap one_reference (here m₁ a (with_result res))

complete_transient-kept :
    (m : Core) (a : ℕ) (res : ℤ)
    → (m.ops a).ref_count ≡ 2
    → complete_transient m a res ≡ kept m a res
unfolding complete_transient kept with_result one_reference pending_less
complete_transient-kept m a res e =
    let m₁ = um_op_transient_remove (pending_less m) a in
    let two = (transient_remove-Unlisted (pending_less m) a).ref_count ∙ e in
    ap (λ n. um_op_release (if ltb 1 n then modify m₁ a (with_result res) else m₁) a) two
    ∙ release_shared (modify m₁ a (with_result res)) a
        (ap (λ o. o.ref_count) (here m₁ a (with_result res)) ∙ two)

process_cqe-kept :
    (m : Core) (n : ℕ) (res : ℤ) (more : Bool)
    → Running (m.ops (suc n))
    → um_process_cqe m (record { user_data = suc n; res = res; more = more }) ≡ kept m (suc n) res
unfolding um_process_cqe
process_cqe-kept m n res more s =
    let e = complete_transient-kept m (suc n) res s.ref_count in simp (s.transient, e)

-- What an AsyncOp shows once its timeout has been completed while nobody awaited it: the result, with
-- no wait, and nothing to cancel. No fiber is resumed, and the operation is freed, once, when the
-- object is collected.
pub record Keeps (m m' : Core) (a : ℕ) (res : ℤ) : Type 0 where
  pub done : async_op_done_p m' a ≡ ok true
  pub result : async_op_result m' a ≡ ok (some res)
  pub await :
      (fiber : ℕ) (switch : Switch) (switches : List Switch) (is_exception : Bool)
      → async_op_await fiber switch switches is_exception m' a ≡ ok (returned res, m')
  pub cancel : async_op_cancel m' a ≡ ok m'
  pub runqueue_head : m'.runqueue_head ≡ m.runqueue_head
  pub ops_runqueue : m'.ops_runqueue ≡ m.ops_runqueue
  pub freed : Freed m (async_op_free m' a) a
  pub ref_count : ((async_op_free m' a).ops a).ref_count ≡ 0

gone-Freed : (m : Core) (a : ℕ) → Freed m (gone m a) a × ((gone m a).ops a).ref_count ≡ 0
unfolding gone um_op_free
gone-Freed m a =
    let op = gone_op m a in
    (record { head = refl; next = ap (λ o. o.next) op; ops_free = refl }, ap (λ o. o.ref_count) op)

-- An operation that only the object still refers to.
free-Freed :
    (m : Core) (n : ℕ)
    → (m.ops (suc n)).multishot ≡ false
    → (m.ops (suc n)).free_iovecs ≡ false
    → (m.ops (suc n)).ref_count ≡ 1
    → Freed m (async_op_free m (suc n)) (suc n)
      × ((async_op_free m (suc n)).ops (suc n)).ref_count ≡ 0
unfolding async_op_free
free-Freed m n s i e =
    subst (λ x. Freed m x (suc n) × (x.ops (suc n)).ref_count ≡ 0)
      (sym (release-gone m (suc n) s i e)) (gone-Freed m (suc n))

kept-Keeps :
    (m : Core) (n : ℕ) (res : ℤ)
    → Running (m.ops (suc n))
    → Keeps m (kept m (suc n) res) (suc n) res
unfolding kept with_result one_reference pending_less async_op_done_p async_op_result async_op_await
    async_op_cancel raise_on_missing_op async_op_is_done
kept-Keeps m n res s =
    let a = suc n in
    let op = kept_op m a res in
    let u = transient_remove-Unlisted (pending_less m) a in
    let f =
      free-Freed (kept m a res) n
        (ap (λ o. o.multishot) op ∙ ap (λ f. f.multishot) u.flags ∙ s.multishot)
        (ap (λ o. o.free_iovecs) op ∙ ap (λ f. f.free_iovecs) u.flags ∙ s.free_iovecs)
        (ap (λ o. o.ref_count) op) in
    let done : ((kept m a res).ops a).cqe_done ≡ true = ap (λ o. o.cqe_done) op in
    let result : ((kept m a res).ops a).res ≡ res = ap (λ o. o.res) op in
    record {
      done = ap ok done;
      result = simp (done, result);
      await = λ fiber switch switches is_exception. simp (done, result);
      cancel = simp done;
      runqueue_head = u.runqueue_head;
      ops_runqueue = u.ops_runqueue;
      freed = record {
        head = f.0.head;
        next = f.0.next ∙ u.op_freelist;
        ops_free = f.0.ops_free ∙ ap (λ n. n + 1) u.ops_free;
      };
      ref_count = f.1;
    }

-- A timeout that the kernel completes, in whatever way, while nobody awaits it: its AsyncOp is done
-- and has the result, which `await` returns at once; no fiber is resumed; the operation is freed
-- when the object is collected, and only once.
pub um_process_cqe-Keeps :
    (m : Core) (n : ℕ) (res : ℤ) (more : Bool)
    → Running (m.ops (suc n))
    → Keeps m (um_process_cqe m (record { user_data = suc n; res = res; more = more })) (suc n) res
um_process_cqe-Keeps m n res more s =
    subst (λ x. Keeps m x (suc n) res) (sym (process_cqe-kept m n res more s))
      (kept-Keeps m n res s)
