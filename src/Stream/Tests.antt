-- ===== src/Stream/Tests.antt =====
-- Streams at a concrete state.
use uringmachine.Base.{replicate, ◌≡◌, refl, arith, true, false, [], ◌∷◌, none, some, ℤ, ok}
use uringmachine.Pool.State.{Machine}
use uringmachine.Stream.State.{Io, io_fd}
use uringmachine.Stream.Consume.{io_skip}
use uringmachine.Stream.Read.{io_read, io_read_line}
use uringmachine.Stream.Content.{content, Consumed, IsValid}
use uringmachine.Stream.Copy.{io_skip-drop}
use uringmachine.Stream.Cr.{strip_cr}
use uringmachine.Stream.Line.{io_read_line-strip_cr}
use uringmachine.Stream.Exact.{io_read-take}

abbrev pub pool : Machine
pool = record {
  ring_initialized = true;
  metrics = record {
    buffers_allocated = 1;
    buffers_free = 0;
    segments_free = 0;
    buffer_space_allocated = 16384;
    buffer_space_commited = 0;
  };
  segment_freelist = 0;
  bp_buffer_size = 16384;
  bp_commit_level = 262144;
  bp_commited_buffers = [];
  bp_avail_bid_bitmap = [];
  bp_buffer_freelist = [];
  bp_buffer_count = 0;
  bp_total_commited = 0;
  buffers = λ b. record { len = 16384; pos = 6; ref_count = 2; memory = replicate 6 0 };
  next_buffer = 1;
  ring = [];
}

-- Two segments of three bytes each, one byte of which is used up.
abbrev pub two_segments : Io
two_segments = record {
  machine = pool;
  mode = io_fd;
  working_buffer = none;
  op = none;
  segments =
      record { bytes = 65 ∷ 66 ∷ 67 ∷ []; buffer = 0 }
      ∷ record { bytes = 68 ∷ 69 ∷ 70 ∷ []; buffer = 0 }
      ∷ [];
  consumed_bytes = 1;
  pending_bytes = 5;
  pos = 1;
  eof = false;
  resumes = [];
  file_reads = [];
  ssl_reads = [];
}

two_segments-IsValid : IsValid two_segments
two_segments-IsValid = record {
  non_empty = (omega arith, (omega arith, tt));
  within = omega arith;
  pending = refl;
}

io_read-take_example :
    (io : Io) × (io_read two_segments (ℤ.pos 4) 0 false ≡ ok (some (66 ∷ 67 ∷ 68 ∷ 69 ∷ []), io))
    × Consumed 4 two_segments io
io_read-take_example = io_read-take two_segments 3 two_segments-IsValid (omega arith)

io_skip-drop_example :
    (io : Io) × (io_skip two_segments 3 true ≡ ok io) × Consumed 3 two_segments io
io_skip-drop_example =
    io_skip-drop two_segments 3 true two_segments-IsValid (omega arith) (omega arith)

-- A line in three segments, with its carriage return and its line feed in two.
abbrev three_segments : Io
three_segments = record two_segments {
  segments =
      record { bytes = 65 ∷ 66 ∷ []; buffer = 0 }
      ∷ record { bytes = 67 ∷ 13 ∷ []; buffer = 0 }
      ∷ record { bytes = 10 ∷ 68 ∷ []; buffer = 0 }
      ∷ [];
}

three_segments-IsValid : IsValid three_segments
three_segments-IsValid = record {
  non_empty = (omega arith, (omega arith, (omega arith, tt)));
  within = omega arith;
  pending = refl;
}

io_read_line-strip_cr_example :
    (io : Io) × (io_read_line three_segments 0 ≡ ok (some (66 ∷ 67 ∷ []), io))
    × Consumed 4 three_segments io
    × (content io ≡ 68 ∷ [])
unfolding strip_cr
io_read_line-strip_cr_example =
    io_read_line-strip_cr three_segments (66 ∷ 67 ∷ 13 ∷ []) (68 ∷ []) three_segments-IsValid refl
      (refl, (refl, (refl, tt)))
