-- ===== src/Pool/Commit.antt =====
-- How much is committed to the kernel, and how the pool grows (ext/um/um_buffer_pool.c).
use uringmachine.Base.{
  ℕ, zero, suc, ◌+◌, ◌*◌, ◌/◌, ◌^◌, ◌<◌, ◌≤◌, ◌≡◌, refl, sym, subst, ◌∙◌, ◌⊎◌, inl, inr, List, [],
  ◌∷◌, arith, ltb, leb, Bool-cases, none, Outcome, ok, raised, fault, buffer_starvation, leb→le,
}
use uringmachine.Pool.Bitmap.{bitmap_find_first_set_bit}
use uringmachine.Pool.State.{Machine}
use uringmachine.Pool.{
  commit_buffer, bp_handle_enobufs, grow, discard, bp_discard_buffer_freelist, bp_max_commit_level,
  bp_br_entries,
}

-- `size` doubled so many times.
pub doubled : ℕ → ℕ → ℕ
doubled zero size = size
doubled (suc n) size = doubled n (size * 2)

doubled_mono : (n a b : ℕ) → a ≤ b → doubled n a ≤ doubled n b
unfolding doubled
doubled_mono zero a b h = h
doubled_mono (suc n) a b h = doubled_mono n (a * 2) (b * 2) (omega arith)

doubled_thirty : (size : ℕ) → 0 < size → 2 ^ 30 ≤ doubled 30 size
unfolding doubled
doubled_thirty size h =
    let e : doubled 30 1 ≡ 2 ^ 30 = refl in omega (arith, e, doubled_mono 30 1 size h)

-- The loop of `bp_handle_enobufs` doubles the size some number of times: as long as it is below the
-- target, and no further.
record Doubles (target size last : ℕ) : Type 0 where
  times : ℕ
  same : last ≡ doubled times size
  reached : target ≤ last
  below : (j : ℕ) → j < times → doubled j size < target

below_next :
    (target size times : ℕ)
    → size < target
    → ((j : ℕ) → j < times → doubled j (size * 2) < target)
    → (j : ℕ) → j < suc times
    → doubled j size < target
unfolding doubled
below_next target size times h f zero l = h
below_next target size times h f (suc j) l = f j (omega (arith, l))

Doubles-next :
    (target size last : ℕ)
    → size < target
    → Doubles target (size * 2) last
    → Doubles target size last
unfolding doubled
Doubles-next target size last h d = record {
  times = suc d.times;
  same = d.same;
  reached = d.reached;
  below = below_next target size d.times h d.below;
}

grow-Doubles :
    (fuel target size : ℕ)
    → target ≤ doubled fuel size
    → Doubles target size (grow fuel target size)
unfolding grow doubled
grow-Doubles zero target size h = record {
  times = 0;
  same = refl;
  reached = h;
  below = λ j l. absurd (omega (arith, l));
}
grow-Doubles (suc fuel) target size h = elim (Bool-cases (ltb size target)) [
  | inl e ↦ subst (Doubles target size) (sym (rw e)) (
      Doubles-next target size (grow fuel target (size * 2)) (ground arith)
        (grow-Doubles fuel target (size * 2) h))
  | inr e ↦ subst (Doubles target size) (sym (rw e)) (record {
    times = 0;
    same = refl;
    reached = ground arith;
    below = λ j l. absurd (omega (arith, l));
  })
]

discard_fields :
    (bs : List ℕ) (m : Machine)
    → ((discard bs m).bp_commit_level ≡ m.bp_commit_level)
      × ((discard bs m).bp_buffer_size ≡ m.bp_buffer_size)
      × ((discard bs m).bp_buffer_freelist ≡ [])
unfolding discard
discard_fields [] m = (refl, refl, refl)
discard_fields (b ∷ bs) m = discard_fields bs _

-- The pool after it has grown; `times` is how often the buffer size was doubled.
pub record Grown (m m' : Machine) : Type 0 where
  pub level : m'.bp_commit_level ≡ m.bp_commit_level * 2
  pub times : ℕ
  pub size : m'.bp_buffer_size ≡ doubled times m.bp_buffer_size
  pub enough : m'.bp_commit_level / 4 ≤ m'.bp_buffer_size
  pub not_before : (j : ℕ) → j < times → doubled j m.bp_buffer_size < m'.bp_commit_level / 4
  pub discarded : m'.bp_buffer_freelist ≡ []

-- ENOBUFS, with a positive buffer size: below the maximum the commit level is doubled, the buffer size
-- is doubled until it is a quarter of that and not once more, and the free list, whose buffers are too
-- small, is dropped; the loop ends. At the maximum the exception is raised.
pub bp_handle_enobufs-Grown :
    (m : Machine)
    → 0 < m.bp_buffer_size
    → ((bp_max_commit_level ≤ m.bp_commit_level) × (bp_handle_enobufs m ≡ raised buffer_starvation))
      ⊎ ((m.bp_commit_level < bp_max_commit_level)
          × ((m' : Machine) × (bp_handle_enobufs m ≡ ok m') × Grown m m'))
unfolding bp_handle_enobufs bp_discard_buffer_freelist
bp_handle_enobufs-Grown m h = elim (Bool-cases (leb bp_max_commit_level m.bp_commit_level)) [
  | inl e ↦ inl (leb→le _ _ e, rw e)
  | inr e ↦
      let below : m.bp_commit_level < bp_max_commit_level = ground arith in
      let level = m.bp_commit_level * 2 in
      let size = grow 30 (level / 4) m.bp_buffer_size in
      let m₁ = record m { bp_commit_level = level; bp_buffer_size = size } in
      let d = discard_fields m.bp_buffer_freelist m₁ in
      let g =
        grow-Doubles 30 (level / 4) m.bp_buffer_size
          (omega (arith, doubled_thirty m.bp_buffer_size h)) in
      inr (
        below,
        (
          discard m.bp_buffer_freelist m₁,
          rw e,
          record {
            level = d.0;
            times = g.times;
            size = d.1 ∙ g.same;
            enough = omega (arith, d.0, d.1, g.reached);
            not_before = λ j l. omega (arith, d.0, g.below j l);
            discarded = d.2;
          },
        ),
      )
]

-- What a commit leaves alone, and what it counts.
record Commits (m m' : Machine) : Type 0 where
  count : m'.bp_buffer_count ≡ m.bp_buffer_count + 1
  level : m'.bp_commit_level ≡ m.bp_commit_level

-- The ring has an entry for one more buffer, and less is committed than the level.
pub record IsShort (m : Machine) : Type 0 where
  pub entries : m.bp_buffer_count < bp_br_entries
  pub below : m.bp_total_commited < m.bp_commit_level

-- Rounds in which one buffer is committed each, as long as the pool is short of them: up to the level,
-- to the last entry of the ring, or to a bitmap with no free buffer id, which the code reads past.
pub data Rounds : Machine → Outcome Machine → Type 0 where
  level_reached : {m : Machine} → m.bp_commit_level ≤ m.bp_total_commited → Rounds m (ok m)
  ring_full : {m : Machine} → m.bp_buffer_count ≡ bp_br_entries → Rounds m (ok m)
  no_free_bid :
      {m : Machine}
      → IsShort m
      → bitmap_find_first_set_bit m.bp_avail_bid_bitmap ≡ none
      → Rounds m fault
  commit :
      {m : Machine} (m₁ : Machine) {r : Outcome Machine}
      → IsShort m
      → commit_buffer m ≡ ok m₁
      → m₁.bp_buffer_count ≡ m.bp_buffer_count + 1
      → m₁.bp_commit_level ≡ m.bp_commit_level
      → Rounds m₁ r
      → Rounds m r
