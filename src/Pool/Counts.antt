-- ===== src/Pool/Counts.antt =====
-- The free lists of buffers and segments, and the metrics that count them (ext/um/um_buffer_pool.c).
use uringmachine.Base.{
  ℕ, ◌+◌, ◌≤◌, ◌≡◌, refl, sym, ap, subst, ◌∙◌, true, List, [], ◌∷◌, arith, length, eq_refl, sub32,
  sub32_of_le, sub32_last, sub64, sub64_of_le,
}
use uringmachine.Pool.State.{Buffer, Segment, Machine, update}
use uringmachine.Pool.{
  bp_buffer_checkout, bp_buffer_checkin, bp_discard_buffer_freelist, segment_alloc, um_segment_free,
  um_segment_checkin, take_buffer, discard, buffer_free,
}

-- The two metrics tell the lengths of the free lists.
pub record IsCounted (m : Machine) : Type 0 where
  pub buffers : m.buffers_free ≡ length m.bp_buffer_freelist
  pub segments : m.segments_free ≡ m.segment_freelist

take_buffer-IsCounted :
    (free : List ℕ) (m : Machine)
    → m.bp_buffer_freelist ≡ free
    → IsCounted m
    → IsCounted (take_buffer free m).1
unfolding take_buffer
take_buffer-IsCounted [] m e c = ground (arith, c.buffers, c.segments)
take_buffer-IsCounted (b ∷ bs) m e c = record {
  buffers = omega (arith, c.buffers, ap length e, sub32_of_le m.buffers_free 1);
  segments = c.segments;
}

-- Checking out a buffer keeps the metrics of the free lists equal to their lengths.
pub bp_buffer_checkout-IsCounted : (m : Machine) → IsCounted m → IsCounted (bp_buffer_checkout m).1
unfolding bp_buffer_checkout
bp_buffer_checkout-IsCounted m c =
    let d = take_buffer-IsCounted m.bp_buffer_freelist m refl c in
    record { buffers = d.buffers; segments = d.segments }

-- So does a checkin, whether or not it frees the buffer.
pub bp_buffer_checkin-IsCounted :
    (m : Machine) (b : ℕ) → IsCounted m → IsCounted (bp_buffer_checkin m b)
unfolding bp_buffer_checkin buffer_free
bp_buffer_checkin-IsCounted m b c = ground arith

pub segment_alloc-IsCounted : (m : Machine) → IsCounted m → IsCounted (segment_alloc m)
unfolding segment_alloc
segment_alloc-IsCounted m c = ground (arith, sub32_of_le m.segments_free 1)

-- Checking in a segment keeps the metrics of the free lists equal to their lengths.
pub um_segment_checkin-IsCounted :
    (m : Machine) (s : Segment) → IsCounted m → IsCounted (um_segment_checkin m s)
unfolding um_segment_checkin um_segment_free
um_segment_checkin-IsCounted m s c =
    let d = bp_buffer_checkin-IsCounted m s.buffer c in ground (arith, d.buffers, d.segments)

-- The bytes of the buffers on a list.
unfoldable pub space_of : (ℕ → Buffer) → List ℕ → ℕ
space_of buffers [] = 0
space_of buffers (b ∷ bs) = (buffers b).len + space_of buffers bs

-- The buffers `bs` are freed and counted as such, but for `buffers_free`, which stays as it was.
pub record Discarded (bs : List ℕ) (m m' : Machine) : Type 0 where
  pub allocated : m'.buffers_allocated + length bs ≡ m.buffers_allocated
  pub space : m'.buffer_space_allocated + space_of m.buffers bs ≡ m.buffer_space_allocated
  pub list : m'.bp_buffer_freelist ≡ []
  pub free : m'.buffers_free ≡ m.buffers_free

discard-Discarded :
    (bs : List ℕ) (m : Machine)
    → length bs ≤ m.buffers_allocated
    → space_of m.buffers bs ≤ m.buffer_space_allocated
    → Discarded bs m (discard bs m)
unfolding discard space_of
discard-Discarded [] m h k = record {
  allocated = omega arith;
  space = omega arith;
  list = refl;
  free = refl;
}
discard-Discarded (b ∷ bs) m h k =
    let one = sub32_of_le m.buffers_allocated 1 (omega (arith, h)) in
    let its = sub64_of_le m.buffer_space_allocated (m.buffers b).len (omega (arith, k)) in
    let m₁ = record m {
      metrics = record (m.metrics) {
        buffers_allocated = sub32 m.buffers_allocated 1;
        buffer_space_allocated = sub64 m.buffer_space_allocated (m.buffers b).len;
      };
    } in
    let rest : Discarded bs m₁ (discard bs m₁) =
      discard-Discarded bs m₁ (omega (arith, h, one)) (omega (arith, k, its)) in
    record {
      allocated = omega (arith, h, one, rest.allocated);
      space = omega (arith, k, its, rest.space);
      list = rest.list;
      free = rest.free;
    }

-- `bp_discard_buffer_freelist` frees every buffer of a free list that is not empty, which the metrics of
-- the allocated buffers and of their space tell, but not `buffers_free`: where it told the length of
-- the free list, it now counts buffers that are not there. All buffers of the list are counted as
-- allocated before.
pub bp_discard_buffer_freelist-IsCounted :
    (m : Machine) (b : ℕ) (rest : List ℕ)
    → m.bp_buffer_freelist ≡ b ∷ rest
    → IsCounted m
    → length (b ∷ rest) ≤ m.buffers_allocated
    → space_of m.buffers (b ∷ rest) ≤ m.buffer_space_allocated
    → Discarded (b ∷ rest) m (bp_discard_buffer_freelist m)
      × (¬ IsCounted (bp_discard_buffer_freelist m))
unfolding bp_discard_buffer_freelist
bp_discard_buffer_freelist-IsCounted m b rest e c h k =
    let d : Discarded (b ∷ rest) m (discard m.bp_buffer_freelist m) =
      subst (λ bs. Discarded (b ∷ rest) m (discard bs m)) (sym e)
        (discard-Discarded (b ∷ rest) m h k) in
    (d, λ after. omega (arith, c.buffers, ap length e, d.free, after.buffers, ap length d.list))

checkout_free :
    (m : Machine) (b : ℕ) (rest : List ℕ)
    → m.bp_buffer_freelist ≡ b ∷ rest
    → bp_buffer_checkout m ≡ (
      b,
      record m {
        bp_buffer_freelist = rest;
        metrics = record (m.metrics) { buffers_free = sub32 m.buffers_free 1 };
        buffers = update m.buffers b (record (m.buffers b) {
          ref_count = (m.buffers b).ref_count + 1;
          pos = 0;
          memory = [];
        });
      },
    )
unfolding bp_buffer_checkout take_buffer
checkout_free m b rest e = simp (e, take_buffer)

-- A buffer of the pool's size that is taken off the free list, unused, and checked in again is the
-- first of the free list again, before the same buffers, as long as the ring is initialized.
pub bp_buffer_checkin-bp_buffer_checkout :
    (m : Machine) (b : ℕ) (rest : List ℕ)
    → m.bp_buffer_freelist ≡ b ∷ rest
    → (m.buffers b).ref_count ≡ 0
    → (m.buffers b).len ≡ m.bp_buffer_size
    → m.ring_initialized ≡ true
    → ((bp_buffer_checkout m).0 ≡ b)
      × ((bp_buffer_checkin (bp_buffer_checkout m).1 b).bp_buffer_freelist ≡ m.bp_buffer_freelist)
unfolding bp_buffer_checkin buffer_free
bp_buffer_checkin-bp_buffer_checkout m b rest e z l r =
    let c = checkout_free m b rest e in
    (
      ap (λ x. x.0) c,
      ap (λ x. (bp_buffer_checkin x.1 b).bp_buffer_freelist) c
          ∙ simp (eq_refl b, z, sub32_last, l, eq_refl m.bp_buffer_size, r, e),
    )
