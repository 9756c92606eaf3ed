-- ===== src/Op/Waiting.antt =====
-- The calls of ext/um/um.c that block on one single-shot operation, and that wait for the completion
-- of the operation when they have to cancel it, since the kernel may still use their memory. What the
-- operation does is the kernel's, so that the calls differ in their kind and in what they return.
use uringmachine.Base.{
  ℕ, zero, suc, ◌^◌, ◌-◌, Bool, ◌||◌, Option, none, some, List, ltb, ◌==◌, true, if◌then◌else◌, ℤ,
  pos, Outcome, ok, ◌>>=◌,
}
use uringmachine.Op.State.{OpKind, no_flags, op_sqe, Core, modify}
use uringmachine.Op.{um_op_acquire, um_op_release, um_get_sqe, um_prep_op}
use uringmachine.Op.Blocking.{
  Verified, not_done, error, completed, End, returned, resumed_with, raised_error, raised_value,
  start_op, um_verify_op_completion,
}
use uringmachine.Op.Calls.{Blocking}
use uringmachine.Op.Memory.{ReadBuffer, um_prepare_read_buffer, um_update_read_buffer}
use uringmachine.Op.Await.{Switch, um_verify_op_completion_await, finish_op_await}

-- The parts before and behind `um_yield`.
pub record Waiting : Type 0 where
  pub start : (fiber : ℕ) → Core → Outcome (ℕ × Core)
  pub finish : List Switch → (value : ℕ) (is_exception : Bool) → Core → ℕ → Outcome (End × Core)

waiting : OpKind → (ℤ → ℤ) → Waiting
waiting kind give = record {
  start = λ fiber m. start_op fiber kind m;
  finish = λ switches value is_exception m a. finish_op_await switches give value is_exception m a;
}

-- `um_read_raw` and its like return a number, 0 where the operation is given up, and raise the
-- exception also where the operation is completed.
pub finish_raw : (value : ℕ) (is_exception : Bool) → ℕ → Verified × Core → Outcome (End × Core)
finish_raw value is_exception a (completed res, m) =
    ok (if is_exception then raised_value else returned res, um_op_release m a)
finish_raw value is_exception a (not_done, m) =
    ok (if is_exception then raised_value else returned (pos 0), um_op_release m a)
finish_raw value is_exception a (error, m) = ok (raised_error, m)

waiting_raw : OpKind → Waiting
waiting_raw kind = record {
  start = λ fiber m. start_op fiber kind m;
  finish = λ switches value is_exception m a.
      um_verify_op_completion_await switches m a >>= finish_raw value is_exception a;
}

pub um_read_raw : Waiting
unfolding waiting_raw
um_read_raw = waiting_raw OpKind.op_read

pub um_write_raw : Waiting
unfolding waiting_raw
um_write_raw = waiting_raw OpKind.op_write

pub um_send_raw : Waiting
unfolding waiting_raw
um_send_raw = waiting_raw OpKind.op_send

-- The number of bytes to be written, of a buffer that has `size`.
pub write_len : (size len : ℕ) → ℕ
write_len size len = if (len == 2 ^ 64 - 1) || ltb size len then size else len

-- The number of bytes that the kernel is given; with none the call returns 0 at once.
pub um_write : (size len : ℕ) → Option (ℕ × Waiting)
unfolding waiting write_len
um_write size len = elim (write_len size len) [
  | zero ↦ none
  | suc n ↦ some (suc n, waiting OpKind.op_write (λ res. res))
]

pub um_send : (size len : ℕ) → ℕ × Waiting
unfolding waiting write_len
um_send size len = (write_len size len, waiting OpKind.op_send (λ res. res))

-- The array of iovecs is written to the operation before `um_prep_op` clears it.
pub um_sendv : (iovecs : ℕ) → Waiting
unfolding waiting
um_sendv iovecs = record (waiting OpKind.op_send (λ res. res)) {
  start = λ fiber m. (do
    let (a, m₁) = um_op_acquire m
    let m₂ = modify m₁ a (λ op. record op { iovecs = iovecs })
    m₃ ←
        um_get_sqe (um_prep_op fiber m₂ a OpKind.op_send 2 (record no_flags { free_iovecs = true }))
          a (op_sqe a)
    ok (a, m₃));
}

pub um_connect : Waiting
unfolding waiting
um_connect = waiting OpKind.op_connect (λ res. res)

pub um_bind : Waiting
unfolding waiting
um_bind = waiting OpKind.op_bind (λ res. res)

-- The kernel writes the option to `int_value`.
pub um_getsockopt : (int_value : ℤ) → Waiting
unfolding waiting
um_getsockopt int_value = waiting OpKind.op_getsockopt (λ res. int_value)

pub um_setsockopt : Waiting
unfolding waiting
um_setsockopt = waiting OpKind.op_setsockopt (λ res. res)

pub um_shutdown : Waiting
unfolding waiting
um_shutdown = waiting OpKind.op_shutdown (λ res. res)

pub um_send_fd : (fd : ℕ) → Waiting
unfolding waiting
um_send_fd fd = waiting OpKind.op_sendmsg (λ res. pos fd)

pub um_open : Waiting
unfolding waiting
um_open = waiting OpKind.op_open (λ res. res)

-- `um_statx` and `um_waitid` return an object built from what the kernel wrote, `info`, or from zeros,
-- also where the operation is given up.
pub finish_info :
    (info value : ℕ) (is_exception : Bool) → ℕ → Verified × Core → Outcome (End × Core)
finish_info info value is_exception a (completed res, m) =
    ok (returned (pos info), um_op_release m a)
finish_info info value is_exception a (not_done, m) =
    ok (if is_exception then raised_value else returned (pos info), um_op_release m a)
finish_info info value is_exception a (error, m) = ok (raised_error, m)

pub um_statx : (info : ℕ) → Waiting
unfolding finish_info
um_statx info = record {
  start = λ fiber m. start_op fiber OpKind.op_statx m;
  finish = λ switches value is_exception m a.
      um_verify_op_completion_await switches m a >>= finish_info info value is_exception a;
}

pub um_waitid : (info : ℕ) → Blocking
unfolding finish_info
um_waitid info = record {
  start = λ fiber m. start_op fiber OpKind.op_waitid m;
  finish = λ value is_exception m a.
      um_verify_op_completion m a >>= finish_info info value is_exception a;
}

-- `received` is the file descriptor in the message, or `none` where it has none: then the exception
-- is raised before the operation is released.
pub recv_fd_get_fd : Option ℕ → ℕ → Core → Outcome (End × Core)
recv_fd_get_fd none a m = ok (raised_error, m)
recv_fd_get_fd (some fd) a m = ok (returned (pos fd), um_op_release m a)

pub finish_recv_fd :
    (received : Option ℕ) (value : ℕ) (is_exception : Bool)
    → ℕ
    → Verified × Core
    → Outcome (End × Core)
unfolding recv_fd_get_fd
finish_recv_fd received value is_exception a (completed res, m) = recv_fd_get_fd received a m
finish_recv_fd received value is_exception a (not_done, m) =
    ok (if is_exception then raised_value else resumed_with value, um_op_release m a)
finish_recv_fd received value is_exception a (error, m) = ok (raised_error, m)

pub um_recv_fd : (received : Option ℕ) → Waiting
unfolding finish_recv_fd
um_recv_fd received = record {
  start = λ fiber m. start_op fiber OpKind.op_recvmsg m;
  finish = λ switches value is_exception m a.
      um_verify_op_completion_await switches m a >>= finish_recv_fd received value is_exception a;
}

-- `um_read` and `um_recv`: the buffer is prepared first.
unfoldable pub start_read :
    OpKind
    → ReadBuffer
    → (maxlen : ℕ) (ofs : ℤ) (fiber : ℕ) → Core
    → Outcome (ℕ × ℕ × ReadBuffer × Core)
unfolding um_prepare_read_buffer start_op
start_read kind buffer maxlen ofs fiber m = do
  (place, buffer₁) ← um_prepare_read_buffer buffer maxlen ofs
  (a, m₁) ← start_op fiber kind m
  ok (place, a, buffer₁, m₁)

unfoldable pub finish_read :
    ReadBuffer
    → (ofs : ℤ) (otherwise : End) → ℕ
    → Verified × Core
    → Outcome (End × ReadBuffer × Core)
unfolding um_update_read_buffer
finish_read buffer ofs otherwise a (completed res, m) =
    ok (returned res, um_update_read_buffer buffer ofs res, um_op_release m a)
finish_read buffer ofs otherwise a (not_done, m) = ok (otherwise, buffer, um_op_release m a)
finish_read buffer ofs otherwise a (error, m) = ok (raised_error, buffer, m)

-- Behind `um_yield`, with the offset 0 for `um_recv`.
unfoldable pub finish_um_read :
    List Switch
    → ReadBuffer
    → (ofs : ℤ) (value : ℕ) (is_exception : Bool) → Core
    → ℕ
    → Outcome (End × ReadBuffer × Core)
unfolding finish_read um_verify_op_completion_await
finish_um_read switches buffer ofs value is_exception m a =
    um_verify_op_completion_await switches m a
    >>= finish_read buffer ofs (if is_exception then raised_value else resumed_with value) a
