-- ===== src/Op/IntoQueue.antt =====
-- `um_accept_into_queue` (ext/um/um.c): connections that are pushed on a queue, which other fibers take
-- them from. `submit` is what `io_uring_submit` returns, `int2num` the number as a Ruby value.
pub mod Room
pub mod Pushing
pub mod Contents
pub mod Tests
use uringmachine.Base.{
  ℕ, Bool, true, false, not, List, [], ◌∷◌, is_zero, if◌then◌else◌, ℤ, is_neg, Outcome, ok, raised,
  blocked, os_error, ◌>>=◌,
}
use uringmachine.Op.State.{OpKind, no_flags, op_sqe, wake_sqe, Core}
use uringmachine.Op.{um_op_acquire, um_get_sqe, um_prep_op}
use uringmachine.Op.Await.{Switch}
use uringmachine.Op.Multishot.{
  Verdict, all_yielded, shut_down, failed, is_einval, EachEnd, returned_nil, returned_value,
  raised_value, raised_error, clear_results, Completed, multishot_complete,
}
use uringmachine.Sync.Queue.{Queue, um_queue_push}

-- The machine, and the queue that its fibers share.
abbrev pub Shared : Type 0
Shared = Core × Queue

-- What happens from a switch on until the fiber is resumed, and whether it is with an exception.
abbrev pub Resume : Type 0
Resume = Shared → Outcome (Bool × Shared)

module _ (submit : Core → ℤ) where
  unfoldable pub um_submit : Core → Outcome Core
  um_submit m =
      if is_zero m.ops_unsubmitted
      then ok m
      else (if is_neg (submit m) then raised os_error else ok (record m { ops_unsubmitted = 0 }))

  unfoldable pub um_futex_wake_transient : Core → Outcome Core
  unfolding um_submit
  um_futex_wake_transient m = um_get_sqe m 0 wake_sqe >>= um_submit

module _ (submit : Core → ℤ) (int2num : ℤ → ℕ) where
  -- `um_queue_push` with what it does to the machine.
  unfoldable pub push_result : Shared → ℤ → Outcome Shared
  unfolding um_futex_wake_transient
  push_result (m, q) res =
      if is_zero q.num_waiters
      then ok (m, um_queue_push q (int2num res))
      else (um_futex_wake_transient submit m >>= λ m'. ok (m', um_queue_push q (int2num res)))

  unfoldable pub push_results : List ℤ → Shared → Outcome (Verdict × Shared)
  unfolding push_result
  push_results [] s = ok (all_yielded, s)
  push_results (res ∷ results) s =
      if is_neg res
      then ok (if is_einval res then shut_down else failed res, s)
      else (push_result s res >>= push_results results)

  -- Behind the results: `rest` is the rest of the loop.
  unfoldable pub into_queue_round :
      (rest : Shared → Outcome (EachEnd × Shared))
      → ℕ
      → Verdict × Shared
      → Outcome (EachEnd × Shared)
  into_queue_round rest a (failed res, s) = ok (raised_error res, s)
  into_queue_round rest a (shut_down, (m, q)) =
      if (m.ops a).cqe_done then ok (returned_nil, (m, q)) else rest (clear_results m a, q)
  into_queue_round rest a (all_yielded, (m, q)) =
      if (m.ops a).cqe_done then ok (returned_nil, (m, q)) else rest (clear_results m a, q)

  -- The fiber is resumed.
  unfoldable pub into_queue_resumed :
      (rest : Shared → Outcome (EachEnd × Shared)) → ℕ → Bool × Shared → Outcome (EachEnd × Shared)
  unfolding push_results into_queue_round
  into_queue_resumed rest a (true, s) = ok (raised_value, s)
  into_queue_resumed rest a (false, (m, q)) =
      if not (m.ops a).cqe_seen
      then ok (returned_value, (m, q))
      else (push_results (m.ops a).results (m, q) >>= into_queue_round rest a)

  unfoldable pub accept_into_queue_loop : List Resume → ℕ → Shared → Outcome (EachEnd × Shared)
  unfolding into_queue_resumed
  accept_into_queue_loop [] a s = blocked
  accept_into_queue_loop (resume ∷ resumptions) a s =
      resume s >>= into_queue_resumed (accept_into_queue_loop resumptions a) a

  -- `multishot_complete` runs however the loop ends.
  unfoldable pub um_accept_into_queue :
      (fiber : ℕ) → List Resume → List Switch → Shared → Outcome (ℕ × EachEnd × Completed × Shared)
  unfolding accept_into_queue_loop
  um_accept_into_queue fiber resumptions switches (m, q) = do
    let (a, m₁) = um_op_acquire m
    m₂ ←
        um_get_sqe
          (um_prep_op fiber m₁ a OpKind.op_accept_multishot 2
            (record no_flags { multishot = true }))
          a (op_sqe a)
    (end, (m₃, q')) ← accept_into_queue_loop resumptions a (m₂, q)
    (ended, m₄) ← multishot_complete switches m₃ a
    ok (a, end, ended, (m₄, q'))
