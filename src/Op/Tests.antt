-- ===== src/Op/Tests.antt =====
-- Operations at a concrete state.
use uringmachine.Base.{◌≡◌, ◌≤◌, ◌+◌, ◌>>=◌, arith, refl, false, [], ◌∷◌, ℤ, negsuc, ok, true}
use uringmachine.Op.State.{OpKind, no_flags, Op, Core}
use uringmachine.Op.Schedule.{um_process_cqe, um_switch}
use uringmachine.Op.Blocking.{um_timeout_complete}
use uringmachine.Op.Futex.{Ends, um_futex_wait_finish-Ends}
use uringmachine.Op.Close.{Closed, um_close_async-Closed}
use uringmachine.Op.RoundTrip.{RoundTrip, start_op-RoundTrip}
use uringmachine.Op.Steps.{Single}
use uringmachine.Op.Canceled.{GivesUp, finish_op-GivesUp}
use uringmachine.Op.Schedule.{process_runqueue_op}
use uringmachine.Op.Await.{Switch, finish_op_await}
use uringmachine.Op.Awaited.{AreIdle, GivesUpLate, finish_op_await-GivesUpLate}
use uringmachine.Op.Memory.{string, ReadBuffer, um_prepare_read_buffer, kernel_writes}
use uringmachine.Op.Place.{IsSound, um_prepare_read_buffer-bounds}
use uringmachine.Op.Waiting.{finish_um_read}
use uringmachine.Op.Reading.{ReadsInto, finish_um_read-ReadsInto}
use uringmachine.Op.Blocking.{raised_value}
use uringmachine.Op.Timeout.{um_timeout_complete-fires}

abbrev pub sleeping : Op
sleeping = record {
  prev = 0;
  next = 0;
  kind = OpKind.op_sleep;
  flags = no_flags;
  ref_count = 2;
  fiber = 4;
  value = 9;
  res = ℤ.pos 0;
  results = [];
  iovecs = 0;
}

-- One operation, submitted.
abbrev pub core : Core
core = record {
  ops = λ a. sleeping;
  next_op = 257;
  op_freelist = 2;
  transient_head = 0;
  runqueue_head = 0;
  runqueue_tail = 0;
  test_mode = false;
  room = 100;
  sqes = [];
  waits = [];
  freed = [];
  total_ops = 1;
  total_switches = 0;
  total_waits = 0;
  ops_pending = 1;
  ops_unsubmitted = 0;
  ops_runqueue = 0;
  ops_free = 255;
  ops_transient = 0;
}

sleeping-Single : Single sleeping
sleeping-Single = record { multishot = refl; async = refl; transient = refl; free_iovecs = refl }

finish_op-GivesUp_example : GivesUp core 1 (negsuc 124) false (λ res. res) 8 true
finish_op-GivesUp_example =
    finish_op-GivesUp core 0 99 (negsuc 124) false (λ res. res) 8 true sleeping-Single refl refl
      refl

um_timeout_complete-fires_example :
    (left : Core) × (last : Core) × (um_timeout_complete
        (um_process_cqe core (record { user_data = 1; res = negsuc 61; more = false }))
        1
      ≡ ok left)
    × (um_switch 1 left ≡ ok ((4, 9), last))
um_timeout_complete-fires_example =
    um_timeout_complete-fires core 0 0 (negsuc 61) false sleeping-Single refl refl refl refl refl

start_op-RoundTrip_example : RoundTrip 4 OpKind.op_sleep (λ res. res) core 2 (ℤ.pos 3) false 0 false
start_op-RoundTrip_example =
    start_op-RoundTrip 4 OpKind.op_sleep (λ res. res) core 1 99 (ℤ.pos 3) false 0 false refl refl

-- A close that was submitted.
abbrev closing : Core
closing = record core {
  ops = λ a. record sleeping {
    kind = OpKind.op_close_async;
    flags = record no_flags { async = true };
    ref_count = 1;
  };
}

-- A wait on a futex that was woken.
abbrev woken : Core
woken = record core {
  ops = λ a. record sleeping {
    kind = OpKind.op_futex_wait;
    flags = record no_flags { cqe_seen = true; cqe_done = true };
    ref_count = 1;
  };
}

woken-Single : Single (woken.ops 1)
woken-Single = record { multishot = refl; async = refl; transient = refl; free_iovecs = refl }

um_futex_wait_finish-Ends_example : Ends [] woken 1 false
um_futex_wait_finish-Ends_example =
    um_futex_wait_finish-Ends [] false woken 1 woken-Single refl refl

-- Another fiber resumes the sleeping one.
abbrev idle : Switch
idle m = ok m

-- The completion of a cancellation.
abbrev completing : Switch
completing m =
    ok
      (process_runqueue_op
        (um_process_cqe m (record { user_data = 1; res = negsuc 124; more = false })) 1).1

finish_op_await-GivesUpLate_example :
    GivesUpLate 1 core
      (idle ∷ [])
      (λ m. m)
      raised_value
      (finish_op_await (idle ∷ completing ∷ []) (λ res. res) 8 true core 1)
unfolding AreIdle
finish_op_await-GivesUpLate_example =
    finish_op_await-GivesUpLate (idle ∷ []) completing [] core 0 99 (negsuc 124) false (λ res. res)
      8 true ((λ m. (m, refl, refl)), tt) (λ m. (m, refl, refl)) sleeping-Single refl refl refl refl

-- A string of two bytes.
abbrev two_bytes : ReadBuffer
two_bytes = record { kind = string; memory = λ i. 65 + i; len = 2; capa = 2 }

two_bytes-IsSound : IsSound two_bytes
two_bytes-IsSound = record { kind = refl; within = omega arith; short = omega arith }

um_prepare_read_buffer-bounds_example :
    (after : ReadBuffer) × (um_prepare_read_buffer two_bytes 16 (negsuc 0) ≡ ok (2, after))
    × (18 ≤ after.capa)
    × IsSound after
    × (after.len ≡ 2)
    × (after.memory ≡ two_bytes.memory)
um_prepare_read_buffer-bounds_example =
    um_prepare_read_buffer-bounds two_bytes 16 (negsuc 0) 2 two_bytes-IsSound (omega arith) refl

finish_um_read-ReadsInto_example : ReadsInto core 1 two_bytes 2 (80 ∷ []) (do
  (to, prepared) ← um_prepare_read_buffer two_bytes 16 (negsuc 0)
  written ← kernel_writes prepared to (80 ∷ [])
  finish_um_read [] written
      (negsuc 0)
      0
      false
      (process_runqueue_op
        (um_process_cqe core (record { user_data = 1; res = ℤ.pos 1; more = false }))
        1).1
      1)
finish_um_read-ReadsInto_example =
    finish_um_read-ReadsInto [] two_bytes 16 (negsuc 0) 2 (80 ∷ []) core 0 false 0 false
      two_bytes-IsSound (omega arith) refl (omega arith) (omega arith) sleeping-Single refl refl

um_close_async-Closed_example : Closed core 2 (negsuc 8) false
um_close_async-Closed_example = um_close_async-Closed core 1 99 (negsuc 8) false refl refl
