-- ===== src/Op/Multishot.antt =====
-- `um_accept_each` (ext/um/um.c): a multishot operation whose results are yielded to a block, which is
-- seen by what it is given: it neither raises an exception nor switches fibers.
use uringmachine.Base.{
  ℕ, Bool, true, false, not, ◌&&◌, List, [], ◌∷◌, ◌++◌, ◌==◌, if◌then◌else◌, ℤ, pos, negsuc, is_neg,
  Outcome, ok, blocked, ◌>>=◌,
}
use uringmachine.Op.State.{OpKind, no_flags, op_sqe, Core, modify}
use uringmachine.Op.{um_op_acquire, um_op_release, um_get_sqe, um_prep_op}
use uringmachine.Op.Blocking.{timed_out}
use uringmachine.Op.Await.{Switch, um_cancel_op_and_await_cqe}

-- What happens from a switch on until the fiber is resumed, and whether it is with an exception.
abbrev pub Resumption : Type 0
Resumption = Core → Outcome (Bool × Core)

-- How the list of results ends: at its end, with -EINVAL, which says that the socket was shut down, or
-- with another error.
pub data Verdict : Type 0 where
  all_yielded shut_down : Verdict
  failed : (res : ℤ) → Verdict

pub is_einval : ℤ → Bool
is_einval (pos n) = false
is_einval (negsuc n) = n == 21

-- The results that are yielded.
unfoldable pub yield_results : List ℤ → List ℤ × Verdict
unfolding is_einval
yield_results [] = ([], all_yielded)
yield_results (res ∷ results) =
    let rest = yield_results results in
    if is_neg res
    then ([], if is_einval res then shut_down else failed res)
    else (res ∷ rest.0, rest.1)

-- How the loop ends.
pub data EachEnd : Type 0 where
  returned_nil returned_value raised_value : EachEnd
  raised_error : (res : ℤ) → EachEnd

-- The results are dropped, and OP_F_CQE_SEEN is cleared.
unfoldable pub clear_results : Core → ℕ → Core
clear_results m a =
    modify m a (λ op. record op { results = []; flags = record (op.flags) { cqe_seen = false } })

-- What was yielded, how the loop ended, and the machine then.
abbrev pub Each : Type 0
Each = List ℤ × EachEnd × Core

-- Behind the results that `yield_results` gives: `more` is the rest of the loop.
unfoldable pub each_round :
    (more : Core → Outcome Each) → ℕ → Core → List ℤ × Verdict → Outcome Each
unfolding clear_results
each_round more a m (xs, failed res) = ok (xs, raised_error res, m)
each_round more a m (xs, shut_down) =
    if (m.ops a).cqe_done
    then ok (xs, returned_nil, m)
    else (more (clear_results m a) >>= λ (ys, end, last). ok (xs ++ ys, end, last))
each_round more a m (xs, all_yielded) =
    if (m.ops a).cqe_done
    then ok (xs, returned_nil, m)
    else (more (clear_results m a) >>= λ (ys, end, last). ok (xs ++ ys, end, last))

-- The fiber is resumed.
unfoldable pub each_resumed : (more : Core → Outcome Each) → ℕ → Bool × Core → Outcome Each
unfolding yield_results each_round
each_resumed more a (true, m) = ok ([], raised_value, m)
each_resumed more a (false, m) =
    if not (m.ops a).cqe_seen
    then ok ([], returned_value, m)
    else each_round more a m (yield_results (m.ops a).results)

unfoldable pub accept_each_loop : List Resumption → ℕ → Core → Outcome Each
unfolding each_resumed
accept_each_loop [] a m = blocked
accept_each_loop (resume ∷ resumptions) a m =
    resume m >>= each_resumed (accept_each_loop resumptions a) a

-- Both calls start like this.
unfoldable pub um_accept_each : (fiber : ℕ) → List Resumption → Core → Outcome (ℕ × Each)
unfolding accept_each_loop
um_accept_each fiber resumptions m = do
  let (a, m₁) = um_op_acquire m
  m₂ ←
      um_get_sqe
        (um_prep_op fiber m₁ a OpKind.op_accept_multishot 2 (record no_flags { multishot = true }))
        a (op_sqe a)
  each ← accept_each_loop resumptions a m₂
  ok (a, each)

-- Runs when the loop is left. The result that is looked at is the first, where -EINVAL has become 0.
pub first_result : List ℤ → ℤ
unfolding is_einval
first_result [] = pos 0
first_result (res ∷ results) = if is_einval res then pos 0 else res

pub data Completed : Type 0 where
  completed : Completed
  raised : Completed

unfoldable pub multishot_complete : List Switch → Core → ℕ → Outcome (Completed × Core)
unfolding um_cancel_op_and_await_cqe first_result
multishot_complete switches m a =
    let res = first_result (m.ops a).results in
    if not (m.ops a).cqe_done
    then (um_cancel_op_and_await_cqe switches m a >>= λ m₁. ok (completed, um_op_release m₁ a))
    else ok (if is_neg res && not (timed_out res) then raised else completed, um_op_release m a)
