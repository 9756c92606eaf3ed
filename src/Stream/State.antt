-- ===== src/Stream/State.antt =====
-- `struct um_io` (ext/um/um.h), and what its environment does: the completions that the kernel
-- hands over while the fiber waits, in the order in which they come.
use uringmachine.Base.{ℕ, Bool, false, Option, none, List, ℤ}
use uringmachine.Pool.State.{Segment, Machine}

-- `enum um_io_mode`.
pub data IoMode : Type 0 where
  io_fd io_socket io_ssl io_file io_string io_io_buffer : IoMode

-- A completion of a multishot read or receive: the bytes that the kernel wrote (`res` is their
-- number), IORING_CQE_F_MORE, the buffer id and IORING_CQE_F_BUF_MORE; or a negative `res`.
pub data Cqe : Type 0 where
  received : (bytes : List ℕ) (more : Bool) (bid : ℕ) (buf_more : Bool) → Cqe
  failed : (errno : ℕ) (more : Bool) → Cqe

-- `struct um_op_result`; of the flags only IORING_CQE_F_MORE is read from it.
pub record OpResult : Type 0 where
  pub res : ℤ
  pub more : Bool
  pub segment : Option Segment

-- The operation of a stream: the flags OP_F_CQE_SEEN and OP_F_CQE_DONE, the first result, which
-- lies in the operation, and those behind it.
pub record StreamOp : Type 0 where
  pub seen : Bool
  pub done : Bool
  pub result : OpResult
  pub extra : List OpResult
  pub multishot_result_count : ℕ
  pub commit_level : ℕ

-- What happens until `um_yield` returns: the completions for the operation, and whether the fiber
-- is resumed with an exception.
pub record Resume : Type 0 where
  pub cqes : List Cqe
  pub exception : Bool

-- The end of a single read: completed with these bytes, failed, or the fiber is resumed before.
pub data FileRead : Type 0 where
  completed : List ℕ → FileRead
  failed : ℕ → FileRead
  interrupted : (exception : Bool) → FileRead

-- `none`: `SSL_read` returns a negative number.
abbrev pub SslRead : Type 0
SslRead = Option (List ℕ)

pub record Io : Type 0 where
  pub machine : Machine
  pub mode : IoMode
  pub working_buffer : Option ℕ
  pub op : Option StreamOp
  pub segments : List Segment
  pub consumed_bytes : ℕ
  pub pending_bytes : ℕ
  pub pos : ℕ
  pub eof : Bool
  pub resumes : List Resume
  pub file_reads : List FileRead
  pub ssl_reads : List SslRead

abbrev pub no_result : OpResult
no_result = record { res = ℤ.pos 0; more = false; segment = none }
