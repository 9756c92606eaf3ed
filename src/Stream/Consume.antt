-- ===== src/Stream/Consume.antt =====
-- Consuming the bytes of a stream: `io_shift_head`, `io_skip`, `io_copy` and `io_consume_string` of
-- ext/um/um_io.c, and the clean-up functions.
use uringmachine.Base.{
  ℕ, zero, suc, ◌+◌, ◌-◌, Bool, true, false, ◌&&◌, none, some, List, [], ◌∷◌, ◌++◌, not, is_zero,
  leb, ◌==◌, if◌then◌else◌, length, take, drop, sub64, Outcome, ok, fault, out_of_fuel, ◌>>=◌,
}
use uringmachine.Pool.State.{Segment, Machine}
use uringmachine.Pool.{bp_buffer_checkin, um_segment_checkin}
use uringmachine.Stream.State.{Resume, Io}
use uringmachine.Stream.Results.{um_op_multishot_results_clear}
use uringmachine.Stream.Fetch.{io_get_more_segments, io_process_segments}

abbrev pub is_empty {ℓ} : {A : Type ℓ} → List A → Bool
is_empty [] = true
is_empty (x ∷ xs) = false

-- Rounds that are enough for any loop over the segments: those that are there and those that the
-- completions can still bring, one for each.
cqe_count : List Resume → ℕ
cqe_count [] = 0
cqe_count (r ∷ rs) = suc (length r.cqes + cqe_count rs)

unfoldable pub budget : Io → ℕ
unfolding cqe_count
budget io =
    length io.segments + cqe_count io.resumes + length io.file_reads + length io.ssl_reads + 2

-- The first segment `s` is dropped and checked in, and reading goes on at the start of the next.
unfoldable pub io_shift_head : Io → Segment → List Segment → Io
io_shift_head io s rest = record io {
  segments = rest;
  machine = um_segment_checkin io.machine s;
  pos = 0;
}

-- `n` bytes of the first segment are used up, and with its last byte the segment.
unfoldable pub advance : Io → Segment → List Segment → ℕ → Io
unfolding io_shift_head
advance io s rest n =
    let io' = record io {
      pos = io.pos + n;
      consumed_bytes = io.consumed_bytes + n;
      pending_bytes = sub64 io.pending_bytes n;
    } in
    if io.pos + n == length s.bytes then io_shift_head io' s rest else io'

-- The bytes of a segment that a step uses: at most those that are left in it.
unfoldable pub step_len : Io → Segment → ℕ → ℕ
step_len io s n = let left = sub64 (length s.bytes) io.pos in if leb left n then left else n

-- `io_get_more_segments` is tried where bytes are left to skip, the skip is a safe one, and no
-- segment is left; `go_on` is false where it brings nothing.
unfoldable pub refill : Io → ℕ → (safe_inc : Bool) → Outcome (Bool × Io)
refill io inc safe_inc =
    if not (is_zero inc) && safe_inc && is_empty io.segments
    then (do (n, io') ← io_get_more_segments io; ok (not (is_zero n), io'))
    else ok (true, io)

unfoldable pub skip_loop : ℕ → Io → ℕ → (safe_inc : Bool) → Outcome Io
unfolding refill
skip_loop zero io inc safe_inc = out_of_fuel
skip_loop (suc fuel) io zero safe_inc = ok io
skip_loop (suc fuel) io (suc k) safe_inc = elim io.segments [
  | [] ↦ fault
  | s ∷ rest ↦ do
    let n = step_len io s (suc k)
    let io₁ = advance io s rest n
    (go_on, io₂) ← refill io₁ (suc k - n) safe_inc
    if go_on then skip_loop fuel io₂ (suc k - n) safe_inc else ok io₂
]

-- Drops `inc` bytes. Where `safe_inc` holds it waits for bytes, else they must be there.
unfoldable pub io_skip : Io → ℕ → (safe_inc : Bool) → Outcome Io
unfolding skip_loop budget
io_skip io inc safe_inc =
    if io.eof && is_empty io.segments
    then ok io
    else if safe_inc && is_empty io.segments
    then (do
      (n, io') ← io_get_more_segments io
      if not (is_zero n) then skip_loop (inc + budget io' + 1) io' inc safe_inc else ok io')
    else skip_loop (inc + budget io + 1) io inc safe_inc

unfoldable pub copy_loop : ℕ → Io → ℕ → Outcome (List ℕ × Io)
copy_loop zero io len = out_of_fuel
copy_loop (suc fuel) io zero = ok ([], io)
copy_loop (suc fuel) io (suc k) = elim io.segments [
  | [] ↦ fault
  | s ∷ rest ↦ do
    let n = step_len io s (suc k)
    (bytes, io') ← copy_loop fuel (advance io s rest n) (suc k - n)
    ok (take n (drop io.pos s.bytes) ++ bytes, io')
]

-- The next `len` bytes, which must be there.
unfoldable pub io_copy : Io → ℕ → Outcome (List ℕ × Io)
unfolding copy_loop
io_copy io len = copy_loop (len + length io.segments + 1) io len

-- `len` bytes as a string, and then `inc` bytes are skipped. (The string that the caller may hand
-- over is given the length `len` and overwritten, so it does not matter here which string it is.)
unfoldable pub io_consume_string : Io → (len inc : ℕ) (safe_inc : Bool) → Outcome (List ℕ × Io)
unfolding io_copy io_skip
io_consume_string io len inc safe_inc = do
  (bytes, io') ← io_copy io len
  io'' ← if not (is_zero inc) then io_skip io' inc safe_inc else ok io'
  ok (bytes, io'')

checkin_all : Machine → List Segment → Machine
checkin_all m [] = m
checkin_all m (s ∷ rest) = checkin_all (um_segment_checkin m s) rest

-- The operation that is under way is released, or canceled and left to its completion.
clear_op : Io → Outcome Io
clear_op io = elim io.op [
  | none ↦ ok io
  | some op ↦
      if io.machine.ring_initialized
      then (do
        io' ←
            if op.seen
            then (do
              (full, total, io₁, op₁) ← io_process_segments io op
              let (m, op₂) = um_op_multishot_results_clear io₁.machine op₁
              ok (record io₁ { machine = m }))
            else ok io
        ok (record io' { op = none }))
      else ok io
]

-- `io_clear`: the operation, the segments and the working buffer are given up.
pub io_clear : Io → Outcome Io
unfolding clear_op checkin_all
io_clear io = do
  io₁ ← clear_op io
  let m = checkin_all io₁.machine io₁.segments
  let io₂ = record io₁ { machine = m; segments = []; pending_bytes = 0 }
  ok (elim io₂.working_buffer [
    | none ↦ io₂
    | some b ↦ record io₂ { machine = bp_buffer_checkin io₂.machine b; working_buffer = none }
  ])
