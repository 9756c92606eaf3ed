-- ===== src/Pool/Tests.antt =====
-- The buffer pool at a concrete state.
use uringmachine.Base.{
  ◌<◌, ◌≤◌, ◌≡◌, refl, ◌⊎◌, arith, true, [], ◌∷◌, none, replicate, ok, raised, buffer_starvation,
  ◌-◌, ◌^◌,
}
use uringmachine.Pool.State.{Machine}
use uringmachine.Pool.{
  bp_handle_enobufs, bp_max_commit_level, bp_buffer_checkout, bp_buffer_checkin,
  bp_discard_buffer_freelist,
}
use uringmachine.Pool.Commit.{Grown, bp_handle_enobufs-Grown}
use uringmachine.Pool.Counts.{
  IsCounted, bp_buffer_checkin-IsCounted, bp_buffer_checkin-bp_buffer_checkout,
  bp_discard_buffer_freelist-IsCounted, space_of, Discarded,
}

-- A pool with one buffer on the free list and one that is in use.
abbrev pool : Machine
pool = record {
  ring_initialized = true;
  metrics = record {
    buffers_allocated = 2;
    buffers_free = 1;
    segments_free = 3;
    buffer_space_allocated = 32768;
    buffer_space_commited = 0;
  };
  segment_freelist = 3;
  bp_buffer_size = 16384;
  bp_commit_level = 262144;
  bp_commited_buffers = replicate 1024 none;
  bp_avail_bid_bitmap = replicate 16 (2 ^ 64 - 1);
  bp_buffer_freelist = 0 ∷ [];
  bp_buffer_count = 0;
  bp_total_commited = 0;
  buffers = λ b. record { len = 16384; pos = 0; ref_count = 1; memory = [] };
  next_buffer = 2;
  ring = [];
}

bp_handle_enobufs-Grown_example :
    ((bp_max_commit_level ≤ pool.bp_commit_level)
      × (bp_handle_enobufs pool ≡ raised buffer_starvation))
    ⊎ ((pool.bp_commit_level < bp_max_commit_level)
        × ((m : Machine) × (bp_handle_enobufs pool ≡ ok m) × Grown pool m))
bp_handle_enobufs-Grown_example = bp_handle_enobufs-Grown pool (omega arith)

pool-IsCounted : IsCounted pool
pool-IsCounted = record { buffers = refl; segments = refl }

bp_buffer_checkin-IsCounted_example : IsCounted (bp_buffer_checkin pool 1)
bp_buffer_checkin-IsCounted_example = bp_buffer_checkin-IsCounted pool 1 pool-IsCounted

bp_discard_buffer_freelist-IsCounted_example :
    Discarded (0 ∷ []) pool (bp_discard_buffer_freelist pool)
    × (¬ IsCounted (bp_discard_buffer_freelist pool))
unfolding space_of
bp_discard_buffer_freelist-IsCounted_example =
    bp_discard_buffer_freelist-IsCounted pool 0 [] refl pool-IsCounted (omega arith) (omega arith)

-- The same with the buffer on the free list out of use.
abbrev idle : Machine
idle = record pool { buffers = λ b. record { len = 16384; pos = 0; ref_count = 0; memory = [] } }

bp_buffer_checkin-bp_buffer_checkout_example :
    ((bp_buffer_checkout idle).0 ≡ 0)
    × ((bp_buffer_checkin (bp_buffer_checkout idle).1 0).bp_buffer_freelist ≡ 0 ∷ [])
bp_buffer_checkin-bp_buffer_checkout_example =
    bp_buffer_checkin-bp_buffer_checkout idle 0 [] refl refl refl refl
