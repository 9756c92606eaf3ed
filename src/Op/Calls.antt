-- ===== src/Op/Calls.antt =====
-- The calls of ext/um/um.c that block on one single-shot operation, and whose operation is canceled
-- without waiting when the fiber is resumed before it completes. What the operation does is the
-- kernel's, so that the calls differ in their kind and in what they return.
use uringmachine.Base.{ℕ, ◌*◌, Bool, is_zero, if◌then◌else◌, ℤ, pos, Outcome}
use uringmachine.Op.State.{OpKind, Core}
use uringmachine.Op.Blocking.{End, start_op, finish_op}

-- The parts before and behind `um_yield`.
pub record Blocking : Type 0 where
  pub start : (fiber : ℕ) → Core → Outcome (ℕ × Core)
  pub finish : (value : ℕ) (is_exception : Bool) → Core → ℕ → Outcome (End × Core)

pub blocking : OpKind → (ℤ → ℤ) → Blocking
blocking kind give = record {
  start = λ fiber m. start_op fiber kind m;
  finish = λ value is_exception m a. finish_op give value is_exception m a;
}

abbrev pub sleep_forever_duration : ℕ
sleep_forever_duration = 86400 * 10000

-- The duration in whole seconds, 0 for one that is not positive.
pub um_sleep : (duration : ℕ) → Blocking
unfolding blocking
um_sleep duration =
    blocking OpKind.op_sleep
      (λ res. pos (if is_zero duration then sleep_forever_duration else duration))

pub um_close : (fd : ℕ) → Blocking
unfolding blocking
um_close fd = blocking OpKind.op_close (λ res. pos fd)

pub um_accept : Blocking
unfolding blocking
um_accept = blocking OpKind.op_accept (λ res. res)

pub um_socket : Blocking
unfolding blocking
um_socket = blocking OpKind.op_socket (λ res. res)

-- The operation is of the kind OP_BIND.
pub um_listen : Blocking
unfolding blocking
um_listen = blocking OpKind.op_bind (λ res. res)

pub um_poll : Blocking
unfolding blocking
um_poll = blocking OpKind.op_poll (λ res. res)

pub um_splice : Blocking
unfolding blocking
um_splice = blocking OpKind.op_splice (λ res. res)

pub um_tee : Blocking
unfolding blocking
um_tee = blocking OpKind.op_tee (λ res. res)

pub um_fsync : Blocking
unfolding blocking
um_fsync = blocking OpKind.op_fsync (λ res. res)
