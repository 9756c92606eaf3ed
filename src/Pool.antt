-- ===== src/Pool.antt =====
-- The buffer pool, ext/um/um_buffer_pool.c: buffers with reference counts that are lent to the
-- kernel through a buffer ring, and the segments that point into them.
pub mod Bitmap
pub mod State
pub mod Counts
pub mod Tests
pub mod Commit
pub mod InStep
use uringmachine.Base.{
  ℕ, zero, suc, ◌+◌, ◌-◌, ◌*◌, ◌/◌, ◌^◌, Bool, true, false, not, ◌&&◌, ◌||◌, Option, none, some,
  List, [], ◌∷◌, ◌++◌, ltb, leb, ◌==◌, if◌then◌else◌, length, get_or, set, take, drop, replicate,
  sub32, sub64, Outcome, ok, raised, fault, out_of_fuel, buffer_starvation, ◌>>=◌,
}
use Bitmap.{bitmap_find_first_set_bit, bitmap_set, bitmap_unset}
use State.{Buffer, Segment, Metrics, Machine, update}

abbrev pub bp_br_entries : ℕ
bp_br_entries = 1024

abbrev pub bp_initial_buffer_size : ℕ
bp_initial_buffer_size = 2 ^ 14

abbrev pub bp_initial_commit_level : ℕ
bp_initial_commit_level = bp_initial_buffer_size * 16

abbrev pub bp_max_commit_level : ℕ
bp_max_commit_level = 2 ^ 20 * bp_br_entries

abbrev pub um_segment_alloc_batch_size : ℕ
um_segment_alloc_batch_size = 256

-- `malloc` is taken to succeed (the code exits where it does not). `pos` is set by the caller.
pub buffer_alloc : Machine → ℕ × Machine
buffer_alloc m = (
  m.next_buffer,
  record m {
    buffers =
        update m.buffers m.next_buffer
          (record { len = m.bp_buffer_size; pos = 0; ref_count = 0; memory = [] });
    next_buffer = m.next_buffer + 1;
    metrics = record (m.metrics) {
      buffers_allocated = m.buffers_allocated + 1;
      buffer_space_allocated = m.buffer_space_allocated + m.bp_buffer_size;
    };
  },
)

take_buffer : List ℕ → Machine → ℕ × Machine
unfolding buffer_alloc
take_buffer [] m = buffer_alloc m
take_buffer (b ∷ rest) m = (
  b,
  record m {
    bp_buffer_freelist = rest;
    metrics = record (m.metrics) { buffers_free = sub32 m.buffers_free 1 };
  },
)

-- A buffer off the free list, or a new one, with one more reference and nothing consumed. What stands
-- in its memory is nobody's any more.
pub bp_buffer_checkout : Machine → ℕ × Machine
unfolding take_buffer
bp_buffer_checkout m =
    let (b, m') = take_buffer m.bp_buffer_freelist m in
    (
      b,
      record m' {
        buffers = update m'.buffers b (record (m'.buffers b) {
          ref_count = (m'.buffers b).ref_count + 1;
          pos = 0;
          memory = [];
        });
      },
    )

pub buffer_free : Machine → ℕ → Machine
buffer_free m b =
    if not m.ring_initialized || not ((m.buffers b).len == m.bp_buffer_size)
    then record m {
      metrics = record (m.metrics) {
        buffers_allocated = sub32 m.buffers_allocated 1;
        buffer_space_allocated = sub64 m.buffer_space_allocated (m.buffers b).len;
      };
    }
    else record m {
      bp_buffer_freelist = b ∷ m.bp_buffer_freelist;
      metrics = record (m.metrics) { buffers_free = m.buffers_free + 1 };
    }

-- Drops a reference, and frees the buffer with the last one.
unfoldable pub bp_buffer_checkin : Machine → ℕ → Machine
unfolding buffer_free
bp_buffer_checkin m b =
    let left = sub32 (m.buffers b).ref_count 1 in
    let m' = record m {
      buffers = update m.buffers b (record (m.buffers b) { ref_count = left });
    } in
    if left == 0 then buffer_free m' b else m'

discard : List ℕ → Machine → Machine
discard [] m = record m { bp_buffer_freelist = [] }
discard (b ∷ bs) m = discard bs (record m {
  metrics = record (m.metrics) {
    buffers_allocated = sub32 m.buffers_allocated 1;
    buffer_space_allocated = sub64 m.buffer_space_allocated (m.buffers b).len;
  };
})

pub bp_discard_buffer_freelist : Machine → Machine
unfolding discard
bp_discard_buffer_freelist m = discard m.bp_buffer_freelist m

-- The ring is set up by liburing, which is taken to succeed.
pub bp_setup : Machine → Machine
bp_setup m = record m {
  bp_buffer_size = bp_initial_buffer_size;
  bp_commit_level = bp_initial_commit_level;
  bp_commited_buffers = replicate bp_br_entries none;
  bp_avail_bid_bitmap = replicate 16 (2 ^ 64 - 1);
  bp_buffer_freelist = [];
  bp_buffer_count = 0;
  bp_total_commited = 0;
}

checkin_commited : List (Option ℕ) → Machine → Machine
unfolding bp_buffer_checkin
checkin_commited [] m = m
checkin_commited (none ∷ slots) m = checkin_commited slots m
checkin_commited (some b ∷ slots) m = checkin_commited slots (bp_buffer_checkin m b)

pub bp_teardown : Machine → Machine
unfolding checkin_commited
bp_teardown m = let m' = bp_discard_buffer_freelist m in checkin_commited m'.bp_commited_buffers m'

pub commit_found : Machine → Option ℕ → Outcome Machine
unfolding bp_buffer_checkout
commit_found m none = fault
commit_found m (some bid) =
    let (b, m') =
      bp_buffer_checkout
        (record m { bp_avail_bid_bitmap = bitmap_unset m.bp_avail_bid_bitmap bid }) in
    let len = (m'.buffers b).len in
    ok (record m' {
      buffers = update m'.buffers b (record (m'.buffers b) { ref_count = 1 });
      bp_buffer_count = m'.bp_buffer_count + 1;
      bp_commited_buffers = set m'.bp_commited_buffers bid (some b);
      bp_total_commited = m'.bp_total_commited + len;
      metrics = record (m'.metrics) { buffer_space_commited = m'.buffer_space_commited + len };
      ring = (bid, b, len) ∷ m'.ring;
    })

-- Lends a buffer to the kernel under the first free buffer id. The bitmap search never reports -1,
-- so the `return false` cannot be reached: with no bit set it reads past the bitmap, a `fault`.
pub commit_buffer : Machine → Outcome Machine
unfolding commit_found
commit_buffer m = commit_found m (bitmap_find_first_set_bit m.bp_avail_bid_bitmap)

-- The kernel has used up the buffer: its id is free again, and the kernel's reference is dropped.
pub uncommit_buffer : Machine → ℕ → ℕ → Machine
unfolding bp_buffer_checkin
uncommit_buffer m b bid =
    bp_buffer_checkin
      (record m {
        bp_buffer_count = sub32 m.bp_buffer_count 1;
        bp_commited_buffers = set m.bp_commited_buffers bid none;
        bp_avail_bid_bitmap = bitmap_set m.bp_avail_bid_bitmap bid;
      })
      b

pub should_commit_more_p : Machine → Bool
should_commit_more_p m =
    ltb m.bp_buffer_count bp_br_entries && ltb m.bp_total_commited m.bp_commit_level

pub commit_more : (Machine → Outcome Machine) → Machine → Bool → Outcome Machine
commit_more rest m true = commit_buffer m >>= rest
commit_more rest m false = ok m

-- Each round commits one buffer, so `bp_br_entries + 1` rounds are enough.
pub commit_loop : ℕ → Machine → Outcome Machine
unfolding commit_more
commit_loop zero m = out_of_fuel
commit_loop (suc fuel) m = commit_more (commit_loop fuel) m (should_commit_more_p m)

unfoldable pub bp_ensure_commit_level : Machine → Outcome Machine
unfolding commit_loop
bp_ensure_commit_level m =
    if ltb (m.bp_commit_level / 2) m.bp_total_commited
    then ok m
    else commit_loop (bp_br_entries + 1) m

-- `while (size < target) size *= 2`, with `target` a quarter of the commit level.
pub grow : ℕ → ℕ → ℕ → ℕ
grow zero target size = size
grow (suc fuel) target size =
    let rest = grow fuel target (size * 2) in if ltb size target then rest else size

-- The quarter of a commit level is below 2^30, so 30 rounds are enough.
pub bp_handle_enobufs : Machine → Outcome Machine
unfolding grow bp_discard_buffer_freelist
bp_handle_enobufs m =
    if leb bp_max_commit_level m.bp_commit_level
    then raised buffer_starvation
    else (let level = m.bp_commit_level * 2 in
        ok (
          bp_discard_buffer_freelist (record m {
            bp_commit_level = level;
            bp_buffer_size = grow 30 (level / 4) m.bp_buffer_size;
          })))

-- Takes a segment struct off the free list, or allocates a batch and puts the others there.
unfoldable pub segment_alloc : Machine → Machine
segment_alloc m =
    if 0 == m.segment_freelist
    then record m {
      segment_freelist = um_segment_alloc_batch_size - 1;
      metrics = record (m.metrics) {
        segments_free = m.segments_free + (um_segment_alloc_batch_size - 1);
      };
    }
    else record m {
      segment_freelist = m.segment_freelist - 1;
      metrics = record (m.metrics) { segments_free = sub32 m.segments_free 1 };
    }

unfoldable pub um_segment_free : Machine → Machine
um_segment_free m = record m {
  segment_freelist = m.segment_freelist + 1;
  metrics = record (m.metrics) { segments_free = m.segments_free + 1 };
}

-- A segment for the `len` bytes that stand at `pos` in the buffer, which gets one more reference.
unfoldable pub bp_buffer_consume : Machine → ℕ → (len : ℕ) → Segment × Machine
unfolding segment_alloc
bp_buffer_consume m b len =
    let m' = segment_alloc m in
    (
      record { bytes = take len (drop (m'.buffers b).pos (m'.buffers b).memory); buffer = b },
      record m' {
        buffers = update m'.buffers b (record (m'.buffers b) {
          pos = (m'.buffers b).pos + len;
          ref_count = (m'.buffers b).ref_count + 1;
        });
      },
    )

-- A read that is told to write at `at` writes there.
abbrev pub written_at : Machine → ℕ → (at : ℕ) → List ℕ → Machine
written_at m b at bytes = record m {
  buffers =
      update m.buffers b (record (m.buffers b) { memory = take at (m.buffers b).memory ++ bytes });
}

-- `none` is the null that `get_buffer` would hand on, its assertion being compiled out.
unfoldable pub get_buffer : Machine → ℕ → Option ℕ
get_buffer m bid = get_or m.bp_commited_buffers bid none

-- The kernel fills a buffer of the ring from its beginning on, each completion behind the one before
-- (IOU_PBUF_RING_INC), whatever the pool has consumed of it.
unfoldable pub filled : Machine → List ℕ → Option ℕ → Machine
filled m bytes none = m
filled m bytes (some b) = record m {
  buffers = update m.buffers b (record (m.buffers b) { memory = (m.buffers b).memory ++ bytes });
}

unfoldable pub kernel_fills : Machine → (bid : ℕ) → List ℕ → Machine
unfolding filled get_buffer
kernel_fills m bid bytes = filled m bytes (get_buffer m bid)

-- The segment of `res` bytes in the buffer that was found, and what the completion changes in the pool.
unfoldable pub segment_in :
    Machine → (res bid : ℕ) (buf_more : Bool) → Option ℕ → Outcome (Option Segment × Machine)
unfolding bp_buffer_consume uncommit_buffer bp_ensure_commit_level
segment_in m res bid buf_more none = fault
segment_in m res bid buf_more (some b) =
    let (segment, m₁) = bp_buffer_consume m b res in
    let m₂ = record m₁ {
      bp_total_commited = sub64 m₁.bp_total_commited res;
      metrics = record (m₁.metrics) { buffer_space_commited = sub64 m₁.buffer_space_commited res };
    } in
    bp_ensure_commit_level m₂ >>= λ m₃.
    ok (some segment, if buf_more then m₃ else uncommit_buffer m₃ b bid)

-- The segment of a completion with a `res` that is not negative, buffer id `bid` and the flag
-- IORING_CQE_F_BUF_MORE.
unfoldable pub bp_get_op_result_segment :
    Machine → (res bid : ℕ) (buf_more : Bool) → Outcome (Option Segment × Machine)
unfolding segment_in get_buffer
bp_get_op_result_segment m zero bid buf_more = ok (none, m)
bp_get_op_result_segment m (suc n) bid buf_more =
    segment_in m (suc n) bid buf_more (get_buffer m bid)

unfoldable pub um_segment_checkin : Machine → Segment → Machine
unfolding bp_buffer_checkin um_segment_free
um_segment_checkin m segment = um_segment_free (bp_buffer_checkin m segment.buffer)
