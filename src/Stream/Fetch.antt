-- ===== src/Stream/Fetch.antt =====
-- Where the bytes of a stream come from: `io_get_more_segments` of ext/um/um_io.c.
use uringmachine.Base.{
  ℕ, zero, suc, ◌+◌, ◌*◌, Bool, true, false, not, ◌&&◌, ◌||◌, none, some, List, [], ◌∷◌, ◌++◌, ltb,
  is_zero, ◌==◌, if◌then◌else◌, length, sub64, ℤ, pos, negsuc, is_neg, pos_part, Outcome, ok,
  raised, blocked, out_of_fuel, invalid_op, invalid_mode, read_failed, os_error, injected, ◌>>=◌,
}
use uringmachine.Pool.State.{Segment}
use uringmachine.Pool.{
  bp_buffer_checkout, bp_buffer_checkin, bp_buffer_consume, written_at, bp_ensure_commit_level,
  bp_handle_enobufs,
}
use uringmachine.Stream.State.{
  io_fd, io_socket, io_ssl, io_file, OpResult, StreamOp, Resume, FileRead, completed, failed,
  interrupted, SslRead, Io, no_result,
}
use uringmachine.Stream.Results.{um_op_multishot_results_clear, process_cqes}

abbrev pub enobufs : ℕ
enobufs = 105

abbrev pub ecanceled : ℕ
ecanceled = 125

-- Whether `res` is `-errno`.
pub is_errno : ℕ → ℤ → Bool
is_errno errno (pos n) = false
is_errno errno (negsuc n) = errno == n + 1

-- The segment goes to the end of the list, and its bytes are pending.
pub io_add_segment : Io → Segment → Io
io_add_segment io segment = record io {
  segments = io.segments ++ segment ∷ [];
  pending_bytes = io.pending_bytes + length segment.bytes;
}

-- A result that is not positive is the end of the stream.
pub io_process_op_result : Io → OpResult → Io
unfolding io_add_segment
io_process_op_result io result =
    if not (is_zero (pos_part result.res))
    then elim result.segment [ none ↦ io | some s ↦ io_add_segment io s ]
    else record io { eof = true }

-- One round of results: whether ENOBUFS was met, the bytes so far, whether more is to come, the
-- stream, and the results with the segments taken out that went to the stream.
abbrev Round : Type 0
Round = Bool × ℕ × Bool × Io × List OpResult

keep_result : OpResult → Round → Outcome Round
keep_result r (full, total, more, io, rs) = ok (full, total, more, io, r ∷ rs)

process_results : List OpResult → ℕ → Bool → Io → Outcome Round
unfolding is_errno io_process_op_result keep_result
process_results [] total more io = ok (false, total, more, io, [])
process_results (r ∷ rs) total more io =
    let rest = process_results rs (total + pos_part r.res) r.more (io_process_op_result io r) in
    if is_errno enobufs r.res
    then ok (true, total, false, io, r ∷ rs)
    else if is_errno ecanceled r.res
    then ok (false, total, false, io, r ∷ rs)
    else if is_neg r.res
    then raised os_error
    else rest >>= keep_result (record r { segment = none })

set_results : StreamOp → List OpResult → StreamOp
set_results op [] = op
set_results op (r ∷ rs) = record op { result = r; extra = rs }

-- The results go to the stream, and the flag that says that there are any is taken back.
pub io_process_segments : Io → StreamOp → Outcome (Bool × ℕ × Io × StreamOp)
unfolding process_results set_results
io_process_segments io op = do
  (full, total, more, io', rs) ← process_results (op.result ∷ op.extra) 0 false io
  ok (full, total, io', set_results (record op { seen = false }) rs)

-- The operation starts with the commit level of the pool; it works on a descriptor or a socket.
io_multishot_op_start : Io → Outcome (Io × StreamOp)
io_multishot_op_start io = do
  m ← bp_ensure_commit_level io.machine
  let op : StreamOp = record {
    seen = false;
    done = false;
    result = no_result;
    extra = [];
    multishot_result_count = 0;
    commit_level = m.bp_commit_level;
  }
  elim io.mode [
    | io_fd ↦ ok (record io { machine = m }, op)
    | io_socket ↦ ok (record io { machine = m }, op)
    | _ ↦ raised invalid_op
  ]

-- `um_yield`: the completions that come in until the fiber is resumed.
await_resume : Io → StreamOp → List Resume → Outcome (Io × StreamOp)
await_resume io op [] = blocked
await_resume io op (r ∷ rs) = do
  (m, op') ← process_cqes io.machine op r.cqes
  if not op'.seen && r.exception
      then raised injected
      else ok (record io { machine = m; resumes = rs }, op')

-- Starts the operation where there is none, and waits where no completion has been seen.
io_await_segments : Io → Outcome (Io × StreamOp)
unfolding io_multishot_op_start await_resume
io_await_segments io = do
  (io', op) ← elim io.op [ none ↦ io_multishot_op_start io | some op ↦ ok (io, op) ]
  if op.seen then ok (io', op) else await_resume io' op io'.resumes

-- The pool grows if little is pending and it has not grown since the operation started. The
-- operation is released.
io_handle_enobufs : Io → StreamOp → Outcome Io
io_handle_enobufs io op = do
  let restart = ltb io.pending_bytes (io.machine.bp_buffer_size * 4)
  m ←
      if restart && (op.commit_level == io.machine.bp_commit_level)
      then bp_handle_enobufs io.machine
      else ok io.machine
  ok (record io { machine = m; op = none })

-- Each round but the first waits for one resumption.
pub get_more_bp : ℕ → Io → Outcome (ℕ × Io)
unfolding io_await_segments io_process_segments io_handle_enobufs
get_more_bp zero io = out_of_fuel
get_more_bp (suc fuel) io = if io.eof then ok (0, io) else do
  (io₁, op₁) ← io_await_segments io
  (full, total, io₂, op₂) ← io_process_segments io₁ op₁
  let (m, op₃) = um_op_multishot_results_clear io₂.machine op₂
  let io₃ = record io₂ { machine = m; op = some op₃ }
  io₄ ← if full then io_handle_enobufs io₃ op₃ else ok io₃
  if not (is_zero total) || io₄.eof then ok (total, io₄) else get_more_bp fuel io₄

pub io_get_more_segments_bp : Io → Outcome (ℕ × Io)
unfolding get_more_bp
io_get_more_segments_bp io = get_more_bp (length io.resumes + 2) io

-- The buffer that single reads fill, and the space that is left in it.
checkout_working_buffer : Io → ℕ × ℕ × Io
checkout_working_buffer io = elim io.working_buffer [
  | some b ↦ (b, space io b, io)
  | none ↦
      let (b, m) = bp_buffer_checkout io.machine in
      let io' = record io { machine = m; working_buffer = some b } in (b, space io' b, io')
]
  where
    space : Io → ℕ → ℕ
    space io b = sub64 (io.machine.buffers b).len (io.machine.buffers b).pos

checkin_working_buffer : Io → ℕ → Io
checkin_working_buffer io b = record io {
  machine = bp_buffer_checkin io.machine b;
  working_buffer = none;
}

-- The bytes of a single read, which wrote them at `pos`, become a segment; a buffer that they fill is given back.
add_read : Io → ℕ → ℕ → List ℕ → Io
unfolding checkin_working_buffer
add_read io b maxlen bytes =
    let at = (io.machine.buffers b).pos in
    let (s, m) = bp_buffer_consume (written_at io.machine b at bytes) b (length bytes) in
    let io' = record io { machine = m } in
    let io'' = if length bytes == maxlen then checkin_working_buffer io' b else io' in
    io_add_segment io'' s

ssl_read : Io → ℕ → ℕ → List SslRead → Outcome (ℕ × Io)
unfolding add_read
ssl_read io b maxlen [] = blocked
ssl_read io b maxlen (none ∷ reads) = raised read_failed
ssl_read io b maxlen (some [] ∷ reads) = ok (0, record io { ssl_reads = reads })
ssl_read io b maxlen (some (x ∷ xs) ∷ reads) =
    ok (1, add_read (record io { ssl_reads = reads }) b maxlen (x ∷ xs))

pub io_get_more_segments_ssl : Io → Outcome (ℕ × Io)
unfolding checkout_working_buffer ssl_read
io_get_more_segments_ssl io =
    let (b, maxlen, io') = checkout_working_buffer io in ssl_read io' b maxlen io'.ssl_reads

-- `has_more` is 0 for an empty read, and for one that fills the buffer.
file_read : Io → ℕ → ℕ → List FileRead → Outcome (ℕ × Io)
unfolding add_read
file_read io b maxlen [] = blocked
file_read io b maxlen (completed [] ∷ reads) =
    ok (0, checkin_working_buffer (record io { file_reads = reads }) b)
file_read io b maxlen (completed (x ∷ xs) ∷ reads) =
    let io' = add_read (record io { file_reads = reads }) b maxlen (x ∷ xs) in
    ok (if length (x ∷ xs) == maxlen then 0 else 1, io')
file_read io b maxlen (failed errno ∷ reads) = raised os_error
file_read io b maxlen (interrupted exception ∷ reads) =
    if exception then raised injected else ok (0, record io { file_reads = reads })

pub io_get_more_segments_file : Io → Outcome (ℕ × Io)
unfolding checkout_working_buffer file_read
io_get_more_segments_file io =
    let (b, maxlen, io') = checkout_working_buffer io in file_read io' b maxlen io'.file_reads

-- 0 stands for "no more": an end of the stream, or a read that brought nothing.
pub io_get_more_segments : Io → Outcome (ℕ × Io)
unfolding io_get_more_segments_bp io_get_more_segments_file io_get_more_segments_ssl
io_get_more_segments io = elim io.mode [
  | io_fd ↦ io_get_more_segments_bp io
  | io_socket ↦ io_get_more_segments_bp io
  | io_file ↦ io_get_more_segments_file io
  | io_ssl ↦ io_get_more_segments_ssl io
  | _ ↦ raised invalid_mode
]
