-- ===== src/Stream/Each/Tests.antt =====
-- A multishot read at a concrete state.
use uringmachine.Base.{◌≡◌, refl, false, true, [], ◌∷◌, some, Outcome, ok, sub32, sub64}
use uringmachine.Pool.State.{Machine}
use uringmachine.Pool.{
  bp_ensure_commit_level, segment_alloc, get_buffer, um_segment_checkin, bp_buffer_checkin,
  bp_buffer_consume, bp_get_op_result_segment, um_segment_free, segment_in, kernel_fills, filled,
}
use uringmachine.Stream.State.{Resume, StreamOp, no_result}
use uringmachine.Stream.Results.{
  process_cqes, process_cqe, delivered, um_op_multishot_results_push, um_op_multishot_results_clear,
  add_result,
}
use uringmachine.Stream.Tests.{pool}
use uringmachine.Stream.Each.{read_recv_each_loop}
use uringmachine.Stream.Each.Received.{Chunk, cqe_of}
use uringmachine.Stream.Each.Rounds.{round_end}
use uringmachine.Stream.Each.InOrder.{
  AreServed, all_bytes, Yields, end_cqe, read_recv_each_loop-Yields,
}

-- One buffer is committed, and enough bytes.
abbrev committed : Machine
committed = record pool { bp_commited_buffers = some 0 ∷ []; bp_total_commited = 200000 }

abbrev reading : StreamOp
reading = record {
  seen = false;
  done = false;
  result = no_result;
  extra = [];
  multishot_result_count = 0;
  commit_level = 262144;
}

abbrev hello : Chunk
hello = record { first = 104; others = 105 ∷ []; bid = 0; buf_more = true }

abbrev two_chunks : Resume
two_chunks = record { cqes = cqe_of hello ∷ cqe_of hello ∷ []; exception = false }

abbrev the_end : Resume
the_end = record { cqes = cqe_of hello ∷ end_cqe 0 false ∷ []; exception = false }

got : Outcome (Machine × StreamOp) → Machine × StreamOp
got (ok s) = s
got call = (committed, reading)

abbrev after_two : Machine × StreamOp
after_two = got (process_cqes committed reading (cqe_of hello ∷ cqe_of hello ∷ []))

two-ok : process_cqes committed reading (cqe_of hello ∷ cqe_of hello ∷ []) ≡ ok after_two
unfolding process_cqes process_cqe delivered kernel_fills filled um_op_multishot_results_push
    add_result bp_get_op_result_segment segment_in get_buffer bp_buffer_consume segment_alloc
    bp_ensure_commit_level sub64 got
two-ok = refl

-- The state in which the last round begins.
abbrev between : Machine × StreamOp
between = round_end after_two

abbrev after_end : Machine × StreamOp
after_end = got (process_cqes between.0 between.1 (cqe_of hello ∷ end_cqe 0 false ∷ []))

end-ok : process_cqes between.0 between.1 (cqe_of hello ∷ end_cqe 0 false ∷ []) ≡ ok after_end
unfolding process_cqes process_cqe delivered kernel_fills filled um_op_multishot_results_push
    add_result bp_get_op_result_segment segment_in get_buffer bp_buffer_consume segment_alloc
    bp_ensure_commit_level sub64 got round_end um_segment_checkin bp_buffer_checkin um_segment_free
    um_op_multishot_results_clear sub32
end-ok = refl

read_recv_each_loop-Yields_example :
    Yields
      ((104 ∷ 105 ∷ []) ∷ (104 ∷ 105 ∷ []) ∷ (104 ∷ 105 ∷ []) ∷ [])
      (read_recv_each_loop (two_chunks ∷ the_end ∷ []) (committed, reading))
unfolding AreServed all_bytes
read_recv_each_loop-Yields_example =
    read_recv_each_loop-Yields ((hello, hello ∷ []) ∷ []) (hello ∷ []) (two_chunks ∷ []) the_end []
      committed reading (λ b. refl) refl refl
      (refl, refl, after_two, two-ok, (refl, 0, false, refl, after_end, end-ok))
