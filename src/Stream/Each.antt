-- ===== src/Stream/Each.antt =====
-- `um_read_each` and `um_recv_each` of ext/um/um.c: a multishot read whose buffers are handed to a
-- block as strings. The block is seen by what it is given: it neither raises an exception nor switches
-- fibers. The local variable `total`, which is only counted up, is left out.
pub mod Received
pub mod Rounds
pub mod InOrder
pub mod Tests
use uringmachine.Base.{
  ℕ, Bool, true, false, not, Option, none, some, List, [], ◌∷◌, ◌++◌, is_zero, if◌then◌else◌, ℤ,
  is_neg, pos_part, Outcome, ok, blocked, ◌>>=◌,
}
use uringmachine.Pool.State.{Segment, Machine}
use uringmachine.Pool.{bp_ensure_commit_level, um_segment_checkin}
use uringmachine.Stream.State.{OpResult, StreamOp, Resume, no_result}
use uringmachine.Stream.Results.{process_cqes, um_op_multishot_results_clear}

-- Whether the operation reads from a descriptor or a socket makes no difference to what follows.
unfoldable pub read_recv_each_prep : Machine → Outcome (Machine × StreamOp)
read_recv_each_prep m = do
  m' ← bp_ensure_commit_level m
  let op : StreamOp = record {
    seen = false;
    done = false;
    result = no_result;
    extra = [];
    multishot_result_count = 0;
    commit_level = m'.bp_commit_level;
  }
  ok (m', op)

-- How the results of a round end: at the end of the list, with a result of 0, or with an error.
pub data Stop : Type 0 where
  no_more_results end_of_stream : Stop
  failed : (res : ℤ) → Stop

-- What is yielded, where the results stopped, and the results with their segments taken out.
pub record ResultRound : Type 0 where
  pub chunks : List (List ℕ)
  pub stop : Stop
  pub machine : Machine
  pub results : List OpResult

-- A segment is copied, given back and yielded.
unfoldable pub yield_segment :
    Machine → OpResult → Option Segment → List (List ℕ) × Machine × OpResult
yield_segment m r none = ([], m, r)
yield_segment m r (some s) = (s.bytes ∷ [], um_segment_checkin m s, record r { segment = none })

unfoldable pub read_recv_each_multishot_process_result :
    Machine → OpResult → List (List ℕ) × Machine × OpResult
unfolding yield_segment
read_recv_each_multishot_process_result m r = yield_segment m r r.segment

unfoldable pub process_each : Machine → List OpResult → ResultRound
unfolding read_recv_each_multishot_process_result
process_each m [] = record { chunks = []; stop = no_more_results; machine = m; results = [] }
process_each m (r ∷ rs) =
    let (chunks, m', r') = read_recv_each_multishot_process_result m r in
    let rest = process_each m' rs in
    if is_neg r.res
    then record { chunks = []; stop = failed r.res; machine = m; results = r ∷ rs }
    else (if is_zero (pos_part r.res)
        then record { chunks = []; stop = end_of_stream; machine = m; results = r ∷ rs }
        else record {
          chunks = chunks ++ rest.chunks;
          stop = rest.stop;
          machine = rest.machine;
          results = r' ∷ rest.results;
        })

pub data ReadEnd : Type 0 where
  returned_nil returned_value raised_value : ReadEnd
  raised_error : (res : ℤ) → ReadEnd

pub record Reading : Type 0 where
  pub chunks : List (List ℕ)
  pub end : ReadEnd
  pub machine : Machine
  pub op : StreamOp

unfoldable pub with_results : StreamOp → List OpResult → StreamOp
with_results op [] = op
with_results op (r ∷ rs) = record op { result = r; extra = rs }

-- Behind the results of a round, before the next: the results are dropped.
unfoldable pub next_round : Machine → StreamOp → Machine × StreamOp
next_round m op =
    let (m', op') = um_op_multishot_results_clear m op in (m', record op' { seen = false })

-- What the loop does where the results of a round stopped: `rest` is the rest of the loop.
unfoldable pub read_stopped :
    (rest : Machine × StreamOp → Outcome Reading)
    → Machine
    → StreamOp
    → (chunks : List (List ℕ)) → Stop
    → Outcome Reading
unfolding next_round
read_stopped rest m op chunks (failed res) =
    ok (record { chunks = chunks; end = raised_error res; machine = m; op = op })
read_stopped rest m op chunks end_of_stream =
    ok (record { chunks = chunks; end = returned_nil; machine = m; op = op })
read_stopped rest m op chunks no_more_results =
    if op.done
    then ok (record { chunks = chunks; end = returned_nil; machine = m; op = op })
    else (rest (next_round m op) >>= λ reading.
        ok (record reading { chunks = chunks ++ reading.chunks }))

unfoldable pub read_round :
    (rest : Machine × StreamOp → Outcome Reading) → StreamOp → ResultRound → Outcome Reading
unfolding with_results read_stopped
read_round rest op round =
    read_stopped rest round.machine (with_results op round.results) round.chunks round.stop

unfoldable pub read_resumed :
    (rest : Machine × StreamOp → Outcome Reading)
    → (exception : Bool) → Machine × StreamOp
    → Outcome Reading
unfolding read_round process_each
read_resumed rest true (m, op) =
    ok (record { chunks = []; end = raised_value; machine = m; op = op })
read_resumed rest false (m, op) =
    if not op.seen
    then ok (record { chunks = []; end = returned_value; machine = m; op = op })
    else read_round rest op (process_each m (op.result ∷ op.extra))

unfoldable pub read_recv_each_loop : List Resume → Machine × StreamOp → Outcome Reading
unfolding read_resumed
read_recv_each_loop [] s = blocked
read_recv_each_loop (r ∷ rs) (m, op) =
    process_cqes m op r.cqes >>= read_resumed (read_recv_each_loop rs) r.exception

unfoldable pub um_read_each : List Resume → Machine → Outcome Reading
unfolding read_recv_each_prep read_recv_each_loop
um_read_each resumes m = read_recv_each_prep m >>= read_recv_each_loop resumes
