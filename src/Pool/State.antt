-- ===== src/Pool/State.antt =====
-- The parts of `struct um` (ext/um/um.h) that ext/um/um_buffer_pool.c works on.
use uringmachine.Base.{ℕ, Bool, Option, List, if◌then◌else◌, ◌==◌}

-- `struct um_buffer`; its `next` is the place in a free list. `memory` are the bytes that have been
-- written to `buf` since it was checked out, from the first on.
pub record Buffer : Type 0 where
  pub len : ℕ
  pub pos : ℕ
  pub ref_count : ℕ
  pub memory : List ℕ

-- `struct um_segment`: the bytes at `ptr` of length `len`, and the buffer that holds them.
pub record Segment : Type 0 where
  pub bytes : List ℕ
  pub buffer : ℕ

-- The metrics of `struct um_metrics` that the buffer pool keeps.
pub record Metrics : Type 0 where
  pub buffers_allocated : ℕ
  pub buffers_free : ℕ
  pub segments_free : ℕ
  pub buffer_space_allocated : ℕ
  pub buffer_space_commited : ℕ

-- A buffer is named by a number; `buffers` is the memory that `malloc` gave for them, and
-- `next_buffer` the number of the next. `ring` lists what `io_uring_buf_ring_add` was given: buffer
-- id, buffer and length, newest first. Segment structs are alike, so their free list is a count.
pub record Machine : Type 0 where
  pub ring_initialized : Bool
  pub metrics : Metrics
  pub open metrics use *
  pub segment_freelist : ℕ
  pub bp_buffer_size : ℕ
  pub bp_commit_level : ℕ
  pub bp_commited_buffers : List (Option ℕ)
  pub bp_avail_bid_bitmap : List ℕ
  pub bp_buffer_freelist : List ℕ
  pub bp_buffer_count : ℕ
  pub bp_total_commited : ℕ
  pub buffers : ℕ → Buffer
  pub next_buffer : ℕ
  pub ring : List (ℕ × ℕ × ℕ)

abbrev pub update : (ℕ → Buffer) → ℕ → Buffer → ℕ → Buffer
update f b v x = if b == x then v else f x
