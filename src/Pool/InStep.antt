-- ===== src/Pool/InStep.antt =====
-- What the kernel has written to the buffers, and what the pool has consumed of them
-- (ext/um/um_buffer_pool.c).
use uringmachine.Base.{
  ℕ, zero, suc, ◌+◌, ◌≡◌, refl, sym, ap, subst, ◌∙◌, Bool, true, false, none, some, Option, List,
  [], ◌∷◌, ◌++◌, ◌/◌, eq_refl, arith, ◌==◌, if◌then◌else◌, Bool-cases, inl, inr, length,
  length-append, take, drop, take-all, drop-append, drop-all, Outcome, ok, returned_before,
  returned_then, ltb, sub64,
}
use uringmachine.Pool.State.{Buffer, Segment, Machine, update}
use uringmachine.Pool.Bitmap.{bitmap_find_first_set_bit, bitmap_unset}
use uringmachine.Pool.{
  buffer_alloc, take_buffer, bp_buffer_checkout, buffer_free, bp_buffer_checkin, commit_found,
  commit_buffer, uncommit_buffer, should_commit_more_p, commit_more, commit_loop,
  bp_ensure_commit_level, segment_alloc, um_segment_free, bp_buffer_consume, filled, kernel_fills,
  get_buffer, bp_br_entries, segment_in, bp_get_op_result_segment, um_segment_checkin,
}

-- Of each buffer just the bytes have been consumed that have been written to it.
abbrev pub AreInStep : (ℕ → Buffer) → Type 0
AreInStep buffers = (b : ℕ) → length (buffers b).memory ≡ (buffers b).pos

abbrev pub IsInStep : Machine → Type 0
IsInStep m = AreInStep m.buffers

ok_injective {κ} : {A : Type κ} (x y : A) → ◌≡◌ {A = Outcome A} (ok x) (ok y) → x ≡ y
ok_injective x y h = cc

update-AreInStep :
    (buffers : ℕ → Buffer) (b : ℕ) (v : Buffer)
    → AreInStep buffers
    → length v.memory ≡ v.pos
    → AreInStep (update buffers b v)
update-AreInStep buffers b v s h c = elim (Bool-cases (b == c)) [
  | inl e ↦ rw e h
  | inr e ↦ rw e (s c)
]

take_buffer-IsInStep : (free : List ℕ) (m : Machine) → IsInStep m → IsInStep (take_buffer free m).1
unfolding take_buffer buffer_alloc
take_buffer-IsInStep [] m s =
    update-AreInStep m.buffers m.next_buffer
      (record { len = m.bp_buffer_size; pos = 0; ref_count = 0; memory = [] }) s refl
take_buffer-IsInStep (b ∷ rest) m s = s

checkout-IsInStep : (m : Machine) → IsInStep m → IsInStep (bp_buffer_checkout m).1
unfolding bp_buffer_checkout
checkout-IsInStep m s c = ground (arith, take_buffer-IsInStep m.bp_buffer_freelist m s c)

checkin-IsInStep : (m : Machine) (b : ℕ) → IsInStep m → IsInStep (bp_buffer_checkin m b)
unfolding bp_buffer_checkin buffer_free
checkin-IsInStep m b s c = ground (arith, s c)

uncommit-IsInStep : (m : Machine) (b bid : ℕ) → IsInStep m → IsInStep (uncommit_buffer m b bid)
unfolding uncommit_buffer bp_buffer_checkin buffer_free
uncommit-IsInStep m b bid s c = ground (arith, s c)

pub segment_free-IsInStep : (m : Machine) → IsInStep m → IsInStep (um_segment_free m)
unfolding um_segment_free
segment_free-IsInStep m s = s

pub segment_checkin-IsInStep :
    (m : Machine) (segment : Segment) → IsInStep m → IsInStep (um_segment_checkin m segment)
unfolding um_segment_checkin
segment_checkin-IsInStep m segment s =
    segment_free-IsInStep (bp_buffer_checkin m segment.buffer) (checkin-IsInStep m segment.buffer s)

commit_found-IsInStep :
    (m m' : Machine) (found : Option ℕ) → IsInStep m → commit_found m found ≡ ok m' → IsInStep m'
unfolding commit_found
commit_found-IsInStep m m' none s e = cc
commit_found-IsInStep m m' (some bid) s e =
    let m₁ = record m { bp_avail_bid_bitmap = bitmap_unset m.bp_avail_bid_bitmap bid } in
    let t = checkout-IsInStep m₁ s in subst IsInStep (ok_injective _ _ e) (λ c. ground (arith, t c))

loop-IsInStep : (fuel : ℕ) (m m' : Machine) → IsInStep m → commit_loop fuel m ≡ ok m' → IsInStep m'
unfolding commit_loop commit_more commit_buffer
loop-IsInStep zero m m' s e = cc
loop-IsInStep (suc fuel) m m' s e = elim (Bool-cases (should_commit_more_p m)) [
  | inl more ↦
      let (m₁, f, g) =
        returned_then (commit_buffer m) (commit_loop fuel) m'
          (sym (ap (commit_more (commit_loop fuel) m) more) ∙ e) in
      loop-IsInStep fuel m₁ m'
        (commit_found-IsInStep m m₁ (bitmap_find_first_set_bit m.bp_avail_bid_bitmap) s f) g
  | inr done ↦
      subst IsInStep (ok_injective _ _ (sym (ap (commit_more (commit_loop fuel) m) done) ∙ e)) s
]

pub ensure-IsInStep : (m m' : Machine) → IsInStep m → bp_ensure_commit_level m ≡ ok m' → IsInStep m'
unfolding bp_ensure_commit_level
ensure-IsInStep m m' s e = elim (Bool-cases (ltb (m.bp_commit_level / 2) m.bp_total_commited)) [
  | inl h ↦ subst IsInStep (ok_injective m m' (rw h at e)) s
  | inr h ↦ loop-IsInStep (bp_br_entries + 1) m m' s (rw h at e)
]

alloc_buffers : (m : Machine) → (segment_alloc m).buffers ≡ m.buffers
unfolding segment_alloc
alloc_buffers m = elim (Bool-cases (0 == m.segment_freelist)) [ inl e ↦ rw e | inr e ↦ rw e ]

here : (buffers : ℕ → Buffer) (b : ℕ) (v : Buffer) → update buffers b v b ≡ v
here buffers b v = ap (λ x. if x then v else buffers b) (eq_refl b)

drop_at : (at : ℕ) (memory bytes : List ℕ) → length memory ≡ at → drop at (memory ++ bytes) ≡ bytes
drop_at at memory bytes e =
    drop-append at memory bytes (omega (arith, e))
    ∙ ap (λ xs. xs ++ bytes) (drop-all at memory (omega (arith, e)))

consumed-AreInStep :
    (m : Machine) (bytes : List ℕ) (b : ℕ)
    → IsInStep m
    → IsInStep (bp_buffer_consume (filled m bytes (some b)) b (length bytes)).1
unfolding bp_buffer_consume filled segment_alloc
consumed-AreInStep m bytes b s c =
    ground (arith, s c, s b, length-append (m.buffers b).memory bytes)

last_step :
    (m : Machine) (b bid : ℕ) (buf_more : Bool)
    → IsInStep m
    → IsInStep (if buf_more then m else uncommit_buffer m b bid)
last_step m b bid true s = s
last_step m b bid false s = uncommit-IsInStep m b bid s

-- The segment of a completion has the bytes that the kernel wrote for it, and the buffers are in step
-- again behind it.
filled-segment :
    (m m' : Machine) (bytes : List ℕ) (bid : ℕ) (buf_more : Bool) (found : Option ℕ)
    (segment : Option Segment)
    → IsInStep m
    → segment_in (filled m bytes found) (length bytes) bid buf_more found ≡ ok (segment, m')
    → (s : Segment) × (segment ≡ some s) × (s.bytes ≡ bytes) × IsInStep m'
unfolding segment_in filled bp_buffer_consume
filled-segment m m' bytes bid buf_more none segment s e = cc
filled-segment m m' bytes bid buf_more (some b) segment s e =
    let at = (m.buffers b).pos in
    let memory = (m.buffers b).memory in
    let m₁ = filled m bytes (some b) in
    let (m₃, f, g) = returned_before _ _ (segment, m') e in
    let there = alloc_buffers m₁ in
    let full : Buffer = record (m.buffers b) { memory = memory ++ bytes } in
    let its : (segment_alloc m₁).buffers b ≡ full = ap (λ f. f b) there ∙ here m.buffers b full in
    let m₂ = (bp_buffer_consume m₁ b (length bytes)).1 in
    let after : IsInStep m₃ =
      ensure-IsInStep
        (record m₂ {
          bp_total_commited = sub64 m₂.bp_total_commited (length bytes);
          metrics = record (m₂.metrics) {
            buffer_space_commited = sub64 m₂.buffer_space_commited (length bytes);
          };
        })
        m₃ (consumed-AreInStep m bytes b s) f in
    let read : take (length bytes) (drop at (memory ++ bytes)) ≡ bytes =
      ap (take (length bytes)) (drop_at at memory bytes (s b)) ∙ take-all bytes in
    (
      (bp_buffer_consume m₁ b (length bytes)).0,
      sym (ap (λ x. x.0) g),
      ap (λ (v : Buffer). take (length bytes) (drop v.pos v.memory)) its ∙ read,
      subst IsInStep (ap (λ x. x.1) g) (last_step m₃ b bid buf_more after),
    )

found_same :
    (m : Machine) (bytes : List ℕ) (found : Option ℕ) (bid : ℕ)
    → get_buffer (filled m bytes found) bid ≡ get_buffer m bid
unfolding get_buffer filled
found_same m bytes none bid = refl
found_same m bytes (some b) bid = refl

pub kernel_fills-segment :
    (m m' : Machine) (x : ℕ) (xs : List ℕ) (bid : ℕ) (buf_more : Bool) (segment : Option Segment)
    → IsInStep m
    → bp_get_op_result_segment (kernel_fills m bid (x ∷ xs)) (length (x ∷ xs)) bid buf_more
      ≡ ok (segment, m')
    → (s : Segment) × (segment ≡ some s) × (s.bytes ≡ x ∷ xs) × IsInStep m'
unfolding bp_get_op_result_segment kernel_fills
kernel_fills-segment m m' x xs bid buf_more segment s e =
    let found = get_buffer m bid in
    filled-segment m m' (x ∷ xs) bid buf_more found segment s (
      sym (
        ap (segment_in (filled m (x ∷ xs) found) (length (x ∷ xs)) bid buf_more)
          (found_same m (x ∷ xs) found bid))
      ∙ e)
