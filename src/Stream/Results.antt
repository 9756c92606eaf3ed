-- ===== src/Stream/Results.antt =====
-- The results of a multishot operation: a list that begins in the operation itself
-- (ext/um/um_op.c), and how completions are put on it (ext/um/um.c).
use uringmachine.Base.{
  ℕ, zero, suc, ◌+◌, Bool, true, not, ◌||◌, Option, none, some, List, [], ◌∷◌, ◌++◌, ◌==◌,
  if◌then◌else◌, length, ℤ, pos, negsuc, Outcome, ok, ◌>>=◌,
}
use uringmachine.Pool.State.{Segment, Machine}
use uringmachine.Pool.{bp_get_op_result_segment, um_segment_free, kernel_fills}
use uringmachine.Stream.State.{Cqe, received, failed, OpResult, StreamOp}

-- `-errno` as a result.
neg_errno : ℕ → ℤ
neg_errno zero = pos 0
neg_errno (suc n) = negsuc n

abbrev has_more : Cqe → Bool
has_more (received bytes more bid buf_more) = more
has_more (failed errno more) = more

-- The first result overwrites the one in the operation, further ones are appended.
unfoldable pub add_result : StreamOp → OpResult → StreamOp
add_result op r =
    if op.multishot_result_count == 0
    then record op { result = r; extra = []; multishot_result_count = 1 }
    else record op {
      extra = op.extra ++ r ∷ [];
      multishot_result_count = op.multishot_result_count + 1;
    }

-- What the `segment` field of the next result holds before it is written: a struct off the free
-- list is cleared, the one in the operation is left as it is.
unfoldable pub old_segment : StreamOp → Option Segment
old_segment op = if op.multishot_result_count == 0 then op.result.segment else none

unfoldable pub um_op_multishot_results_push :
    Machine → StreamOp → Cqe → Outcome (Machine × StreamOp)
unfolding neg_errno add_result old_segment
um_op_multishot_results_push m op (received bytes more bid buf_more) = do
  (s, m') ← bp_get_op_result_segment m (length bytes) bid buf_more
  ok (m', add_result op (record { res = pos (length bytes); more = more; segment = s }))
um_op_multishot_results_push m op (failed errno more) =
    ok (m, add_result op (record { res = neg_errno errno; more = more; segment = old_segment op }))

-- `multishot_result_free`: a segment that is still there goes to the free list. Its buffer keeps the
-- reference that the segment had.
unfoldable pub multishot_result_free : Machine → OpResult → Machine
multishot_result_free m r = elim r.segment [ none ↦ m | some s ↦ um_segment_free m ]

unfoldable pub free_results : Machine → List OpResult → Machine
unfolding multishot_result_free
free_results m [] = m
free_results m (r ∷ rs) = free_results (multishot_result_free m r) rs

-- The result in the operation keeps its fields.
unfoldable pub um_op_multishot_results_clear : Machine → StreamOp → Machine × StreamOp
unfolding free_results
um_op_multishot_results_clear m op =
    if op.multishot_result_count == 0
    then (m, op)
    else (free_results m op.extra, record op { extra = []; multishot_result_count = 0 })

-- What the kernel wrote for a completion, before the completion is processed.
unfoldable pub delivered : Machine → Cqe → Machine
unfolding kernel_fills
delivered m (received [] more bid buf_more) = m
delivered m (received (x ∷ xs) more bid buf_more) = kernel_fills m bid (x ∷ xs)
delivered m (failed errno more) = m

-- `um_process_cqe` (ext/um/um.c) for a multishot operation that is not canceled: the result is
-- pushed, and the operation is seen, and done unless more is to come.
unfoldable pub process_cqe : Machine → StreamOp → Cqe → Outcome (Machine × StreamOp)
unfolding um_op_multishot_results_push delivered
process_cqe m op cqe = do
  (m', op') ← um_op_multishot_results_push (delivered m cqe) op cqe
  ok (m', record op' { seen = true; done = op'.done || not (has_more cqe) })

unfoldable pub process_cqes : Machine → StreamOp → List Cqe → Outcome (Machine × StreamOp)
unfolding process_cqe
process_cqes m op [] = ok (m, op)
process_cqes m op (cqe ∷ cqes) = do (m', op') ← process_cqe m op cqe; process_cqes m' op' cqes
