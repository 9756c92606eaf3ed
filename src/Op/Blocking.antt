-- ===== src/Op/Blocking.antt =====
-- Single-shot operations that block the fiber (ext/um/um.c): the part of each before `um_yield`, and
-- the part behind it, which the fiber runs when it is resumed.
use uringmachine.Base.{
  ℕ, zero, suc, Bool, true, false, not, ◌&&◌, ◌==◌, if◌then◌else◌, ℤ, negsuc, is_neg, Outcome, ok,
  ◌>>=◌,
}
use uringmachine.Op.State.{OpKind, no_flags, op_sqe, Core, modify}
use uringmachine.Op.{um_op_acquire, um_op_release, um_get_sqe, um_prep_op}
use uringmachine.Op.Schedule.{um_cancel_op_and_discard_cqe}

-- -ETIME
abbrev pub timed_out : ℤ → Bool
timed_out (ℤ.pos n) = false
timed_out (negsuc n) = n == 61

-- `um_verify_op_completion(machine, op, false)`. An operation that is not done is canceled, its
-- completion to be discarded; with an error the operation is released and the exception raised: the
-- result tells it from a return, since the pool changes.
pub data Verified : Type 0 where
  completed : ℤ → Verified
  not_done : Verified
  error : Verified

unfoldable pub um_verify_op_completion : Core → ℕ → Outcome (Verified × Core)
um_verify_op_completion m a =
    let op = m.ops a in
    if not op.cqe_done
    then (um_cancel_op_and_discard_cqe m a >>= λ m₁. ok (not_done, m₁))
    else (if is_neg op.res && not (timed_out op.res)
        then ok (error, um_op_release m a)
        else ok (completed op.res, m))

-- How a blocking call ends: it returns a result, or it raises the error of the operation, or the
-- exception that the fiber was resumed with. `value` is what it returns otherwise.
pub data End : Type 0 where
  returned : ℤ → End
  resumed_with : (value : ℕ) → End
  raised_error : End
  raised_value : End

-- An operation with two references, one for the kernel and one for the fiber, is put on the
-- submission queue.
unfoldable pub start_op : (fiber : ℕ) → OpKind → Core → Outcome (ℕ × Core)
start_op fiber kind m = do
  let (a, m₁) = um_op_acquire m
  m₂ ← um_get_sqe (um_prep_op fiber m₁ a kind 2 no_flags) a (op_sqe a)
  ok (a, m₂)

unfoldable pub finish :
    (give : ℤ → ℤ) (otherwise : End) → ℕ → Verified × Core → Outcome (End × Core)
finish give otherwise a (completed res, m) = ok (returned (give res), um_op_release m a)
finish give otherwise a (not_done, m) = ok (otherwise, um_op_release m a)
finish give otherwise a (error, m) = ok (raised_error, m)

-- Behind `um_yield`, which returned `value`. A completed call returns `give res`, also where the
-- fiber was resumed with an exception, which is then lost.
unfoldable pub finish_op :
    (give : ℤ → ℤ) (value : ℕ) (is_exception : Bool) → Core → ℕ → Outcome (End × Core)
unfolding um_verify_op_completion finish
finish_op give value is_exception m a =
    um_verify_op_completion m a
    >>= finish give (if is_exception then raised_value else resumed_with value) a

-- An asynchronous operation has the kernel's reference only.
unfoldable pub um_close_async : Core → Outcome (ℕ × Core)
um_close_async m = do
  let (a, m₁) = um_op_acquire m
  m₂ ←
      um_get_sqe (um_prep_op 0 m₁ a OpKind.op_close_async 1 (record no_flags { async = true })) a
        (op_sqe a)
  ok (a, m₂)

pub um_shutdown_async : Core → Outcome (ℕ × Core)
um_shutdown_async m = do
  let (a, m₁) = um_op_acquire m
  m₂ ←
      um_get_sqe (um_prep_op 0 m₁ a OpKind.op_shutdown_async 1 (record no_flags { async = true })) a
        (op_sqe a)
  ok (a, m₂)

-- The buffer is held by the operation, which is on the transient list.
unfoldable pub um_write_async : (buffer len : ℕ) → Core → Outcome (ℕ × Core)
um_write_async buffer zero m = ok (0, m)
um_write_async buffer (suc len) m = do
  let (a, m₁) = um_op_acquire m
  let m₂ =
      um_prep_op 0 m₁ a OpKind.op_write_async 1 (record no_flags { async = true; transient = true })
  m₃ ← um_get_sqe (modify m₂ a (λ op. record op { value = buffer })) a (op_sqe a)
  ok (a, m₃)

pub um_timeout_start : (fiber obj : ℕ) → Core → Outcome (ℕ × Core)
um_timeout_start fiber obj m = do
  let (a, m₁) = um_op_acquire m
  let m₂ = um_prep_op fiber m₁ a OpKind.op_timeout 2 no_flags
  m₃ ← um_get_sqe (modify m₂ a (λ op. record op { fiber = fiber; value = obj })) a (op_sqe a)
  ok (a, m₃)

-- Runs when the block of `um_timeout` is left.
unfoldable pub um_timeout_complete : Core → ℕ → Outcome Core
um_timeout_complete m a = do
  m₁ ← if not (m.ops a).cqe_done then um_cancel_op_and_discard_cqe m a else ok m
  ok (um_op_release m₁ a)
