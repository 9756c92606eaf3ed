-- ===== src/Op/State.antt =====
-- `struct um_op`, its kinds and flags, and the part of `struct um` that schedules operations
-- (ext/um/um.h).
use uringmachine.Base.{ℕ, Bool, false, List, ℤ, ◌==◌, if◌then◌else◌}

-- `enum um_op_kind`.
pub data OpKind : Type 0 where
  op_undefined op_timeout op_schedule op_sleep op_open op_read op_write op_writev : OpKind
  op_write_async op_close op_close_async op_statx op_splice op_tee op_fsync op_accept : OpKind
  op_recv op_recvmsg op_send op_sendmsg op_sendv op_socket op_connect op_bind op_listen : OpKind
  op_getsockopt op_setsockopt op_shutdown op_shutdown_async op_poll op_waitid : OpKind
  op_futex_wait op_futex_wake op_accept_multishot op_read_multishot : OpKind
  op_recv_multishot op_timeout_multishot : OpKind

-- The flags OP_F_… that the scheduler reads.
pub record Flags : Type 0 where
  pub cqe_seen : Bool
  pub cqe_done : Bool
  pub scheduled : Bool
  pub canceled : Bool
  pub multishot : Bool
  pub async : Bool
  pub transient : Bool
  pub free_iovecs : Bool
  pub skip : Bool

abbrev pub no_flags : Flags
no_flags = record {
  cqe_seen = false;
  cqe_done = false;
  scheduled = false;
  canceled = false;
  multishot = false;
  async = false;
  transient = false;
  free_iovecs = false;
  skip = false;
}

-- An operation is named by its address, a number that is not 0; 0 is the null pointer. Fibers and
-- Ruby values are numbers too, 0 for `Qnil`. `results` are the results of a multishot operation that
-- does not use the buffer pool, `res` is the one of a single-shot operation.
pub record Op : Type 0 where
  pub prev : ℕ
  pub next : ℕ
  pub kind : OpKind
  pub flags : Flags
  pub open flags use *
  pub ref_count : ℕ
  pub fiber : ℕ
  pub value : ℕ
  pub res : ℤ
  pub results : List ℤ
  pub iovecs : ℕ

-- What is put on the submission queue.
pub data Sqe : Type 0 where
  op_sqe : (user_data : ℕ) → Sqe
  cancel_sqe : (target : ℕ) → Sqe
  wake_sqe : Sqe
  nop_sqe : Sqe

-- A completion: its operation (0 for a cancellation or a no-op), the result, IORING_CQE_F_MORE.
pub record Cqe : Type 0 where
  pub user_data : ℕ
  pub res : ℤ
  pub more : Bool

-- What a wait for completions gives: those that are ready, -EINTR or -EAGAIN, or another error.
pub data Wait : Type 0 where
  ready : List Cqe → Wait
  retry : Wait
  failed : Wait

-- `waits` is what the kernel will give to the waits to come, `room` how many entries
-- `io_uring_get_sqe` still has, `sqes` what was put on the submission queue (newest first), and
-- `freed` the arrays that `free` was given.
pub record Core : Type 0 where
  pub ops : ℕ → Op
  pub next_op : ℕ
  pub op_freelist : ℕ
  pub transient_head : ℕ
  pub runqueue_head : ℕ
  pub runqueue_tail : ℕ
  pub test_mode : Bool
  pub room : ℕ
  pub sqes : List Sqe
  pub waits : List Wait
  pub freed : List ℕ
  pub total_ops : ℕ
  pub total_switches : ℕ
  pub total_waits : ℕ
  pub ops_pending : ℕ
  pub ops_unsubmitted : ℕ
  pub ops_runqueue : ℕ
  pub ops_free : ℕ
  pub ops_transient : ℕ

abbrev pub write : (ℕ → Op) → ℕ → Op → ℕ → Op
write ops a op x = if a == x then op else ops x

-- Changes the operation at an address.
abbrev pub modify : Core → ℕ → (Op → Op) → Core
modify m a f = record m { ops = write m.ops a (f (m.ops a)) }
