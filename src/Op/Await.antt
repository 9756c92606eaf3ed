-- ===== src/Op/Await.antt =====
-- Operations that are canceled when their fiber is resumed before they complete, and whose completion
-- the fiber then waits for (ext/um/um.c). The set of pending fibers, which only shutdown reads, is
-- left out.
use uringmachine.Base.{
  ℕ, ◌+◌, ◌%◌, Bool, true, false, not, ◌&&◌, List, [], ◌∷◌, is_zero, if◌then◌else◌, ℤ, is_neg,
  Outcome, ok, blocked, ◌>>=◌,
}
use uringmachine.Op.State.{Core, modify}
use uringmachine.Op.{um_op_release}
use uringmachine.Op.Schedule.{um_cancel_op}
use uringmachine.Op.Blocking.{
  Verified, not_done, error, completed, End, finish, timed_out, raised_value, resumed_with,
}

-- What the machine does from a call of `um_switch` on until it resumes the fiber that called it:
-- other fibers run, and completions are processed.
abbrev pub Switch : Type 0
Switch = Core → Outcome Core

-- What is done before the switch in a round: with a multishot operation, `count` being the rounds so
-- far, every fourth cancels again, and the results are dropped.
unfoldable pub await_prepare : (count : ℕ) → Core → ℕ → Outcome Core
await_prepare count m a =
    if (m.ops a).multishot
    then (do
      m₁ ← if is_zero ((count + 1) % 4) then um_cancel_op m a else ok m
      ok (
          modify m₁ a
            (λ op. record op { results = []; flags = record (op.flags) { cqe_seen = false } })))
    else ok m

-- The loop, whose body is given by `body`.
unfoldable pub unless_done : (body : Core → Outcome Core) → Core → (done : Bool) → Outcome Core
unless_done body m true = ok m
unless_done body m false = body m

unfoldable pub await_loop : List Switch → (count : ℕ) → ℕ → Core → Outcome Core
unfolding await_prepare unless_done
await_loop [] count a m = unless_done (λ m'. blocked) m (m.ops a).cqe_done
await_loop (switch ∷ switches) count a m =
    unless_done (λ m'. await_prepare count m' a >>= switch >>= await_loop switches (count + 1) a) m
      (m.ops a).cqe_done

unfoldable pub um_cancel_op_and_await_cqe : List Switch → Core → ℕ → Outcome Core
unfolding await_loop
um_cancel_op_and_await_cqe switches m a = um_cancel_op m a >>= await_loop switches 0 a

-- `um_verify_op_completion(machine, op, true)`.
unfoldable pub um_verify_op_completion_await : List Switch → Core → ℕ → Outcome (Verified × Core)
unfolding um_cancel_op_and_await_cqe
um_verify_op_completion_await switches m a =
    let op = m.ops a in
    if not op.cqe_done
    then (um_cancel_op_and_await_cqe switches m a >>= λ m₁. ok (not_done, m₁))
    else (if is_neg op.res && not (timed_out op.res)
        then ok (error, um_op_release m a)
        else ok (completed op.res, m))

-- Behind `um_yield`, which returned `value`.
unfoldable pub finish_op_await :
    List Switch → (give : ℤ → ℤ) (value : ℕ) (is_exception : Bool) → Core → ℕ → Outcome (End × Core)
unfolding um_verify_op_completion_await finish
finish_op_await switches give value is_exception m a =
    um_verify_op_completion_await switches m a
    >>= finish give (if is_exception then raised_value else resumed_with value) a
