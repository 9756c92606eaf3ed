-- ===== src/Op/AsyncOp.antt =====
-- Timeouts that run on their own, and the object that stands for one: ext/um/um_async_op.c and
-- ext/um/um_async_op_class.c. The object is the address of its operation, 0 before `um_async_op_set`;
-- the field `async_op` of the operation, which only the garbage collector reads, is left out.
pub mod Life
pub mod Prep
pub mod Awaiting
pub mod Tests
use uringmachine.Base.{
  ℕ, Bool, true, false, List, is_zero, ◌==◌, if◌then◌else◌, ℤ, pos, negsuc, Option, none, some,
  Outcome, ok, raised, internal_error, ◌>>=◌,
}
use uringmachine.Op.State.{OpKind, no_flags, op_sqe, Core, modify}
use uringmachine.Op.{um_op_acquire, um_op_release, um_op_transient_remove, um_prep_op, um_get_sqe}
use uringmachine.Op.Schedule.{set_flags, um_cancel_op}
use uringmachine.Op.Blocking.{
  Verified, completed, not_done, error, End, returned, resumed_with, raised_error, raised_value,
}
use uringmachine.Op.Await.{Switch, um_verify_op_completion_await}

-- The operation has two references, the kernel's and the object's, and is on the transient list.
unfoldable pub um_prep_timeout : Core → Outcome (ℕ × Core)
um_prep_timeout m = do
  let (a, m₁) = um_op_acquire m
  m₂ ←
      um_get_sqe
        (um_prep_op 0 m₁ a OpKind.op_timeout 2 (record no_flags { async = true; transient = true }))
        a (op_sqe a)
  ok (a, m₂)

-- Before the switch: the operation leaves the transient list and is from now on the fiber's.
unfoldable pub await_start : (fiber : ℕ) → Core → ℕ → Core
await_start fiber m a =
    set_flags (um_op_transient_remove (modify m a (λ op. record op { fiber = fiber })) a) a
      (λ f. record f { async = false; transient = false })

-- Behind `um_verify_op_completion`: the operation is not released.
unfoldable pub await_end : (is_exception : Bool) → ℕ → Verified × Core → Outcome (End × Core)
await_end is_exception a (error, m) = ok (raised_error, m)
await_end is_exception a (not_done, m) =
    ok (if is_exception then raised_value else returned ((m.ops a).res), m)
await_end is_exception a (completed res, m) =
    ok (if is_exception then raised_value else returned ((m.ops a).res), m)

-- `switch` is the call of `um_switch`, `switches` are those of a cancellation that is waited for.
unfoldable pub um_async_op_await :
    (fiber : ℕ) (switch : Switch) (switches : List Switch) (is_exception : Bool)
    → Core
    → ℕ
    → Outcome (End × Core)
unfolding await_start await_end
um_async_op_await fiber switch switches is_exception m a =
    if (m.ops a).cqe_done then ok (resumed_with (m.ops a).value, m) else (do
      m₁ ← switch (await_start fiber m a)
      verified ← um_verify_op_completion_await switches m₁ a
      await_end is_exception a verified)

unfoldable pub um_async_op_cancel : Core → ℕ → Outcome Core
um_async_op_cancel m a = um_cancel_op m a

-- Runs when the object is collected.
unfoldable pub async_op_free : Core → ℕ → Core
async_op_free m a = if is_zero a then m else um_op_release m a

unfoldable pub raise_on_missing_op : ℕ → Outcome (Unit {0})
raise_on_missing_op a = if is_zero a then raised internal_error else ok tt

unfoldable pub async_op_is_done : Core → ℕ → Bool
async_op_is_done m a = (m.ops a).cqe_done

-- The kinds that have a symbol.
pub data Symbol : Type 0 where
  sym_timeout : Symbol

abbrev kind_symbol : OpKind → Outcome Symbol
kind_symbol OpKind.op_timeout = ok sym_timeout
kind_symbol kind = raised internal_error

unfoldable pub async_op_kind : Core → ℕ → Outcome Symbol
unfolding raise_on_missing_op
async_op_kind m a = raise_on_missing_op a >>= λ _. kind_symbol (m.ops a).kind

unfoldable pub async_op_done_p : Core → ℕ → Outcome Bool
unfolding raise_on_missing_op async_op_is_done
async_op_done_p m a = raise_on_missing_op a >>= λ _. ok (async_op_is_done m a)

unfoldable pub async_op_result : Core → ℕ → Outcome (Option ℤ)
unfolding raise_on_missing_op async_op_is_done
async_op_result m a =
    raise_on_missing_op a >>= λ _. ok (if async_op_is_done m a then some ((m.ops a).res) else none)

-- -ECANCELED
abbrev is_canceled : ℤ → Bool
is_canceled (pos n) = false
is_canceled (negsuc n) = n == 124

unfoldable pub async_op_cancelled_p : Core → ℕ → Outcome (Option Bool)
unfolding raise_on_missing_op async_op_is_done
async_op_cancelled_p m a = raise_on_missing_op a >>= λ _.
    ok (if async_op_is_done m a then some (is_canceled ((m.ops a).res)) else none)

-- `AsyncOp#await`: a completed operation's result is returned at once.
unfoldable pub async_op_await :
    (fiber : ℕ) (switch : Switch) (switches : List Switch) (is_exception : Bool)
    → Core
    → ℕ
    → Outcome (End × Core)
unfolding raise_on_missing_op async_op_is_done um_async_op_await
async_op_await fiber switch switches is_exception m a = raise_on_missing_op a >>= λ _.
    if async_op_is_done m a
    then ok (returned ((m.ops a).res), m)
    else um_async_op_await fiber switch switches is_exception m a

unfoldable pub async_op_cancel : Core → ℕ → Outcome Core
unfolding raise_on_missing_op async_op_is_done um_async_op_cancel
async_op_cancel m a =
    raise_on_missing_op a >>= λ _. if async_op_is_done m a then ok m else um_async_op_cancel m a
