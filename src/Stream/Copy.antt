-- ===== src/Stream/Copy.antt =====
-- `io_copy`, `io_skip` and `io_consume_string` of ext/um/um_io.c over the bytes that are there.
use uringmachine.Base.{
  ℕ, zero, suc, ◌+◌, ◌-◌, ◌≤◌, ◌<◌, ◌≡◌, refl, sym, ap, subst, ◌∙◌, inl, inr, Bool, true, List, ◌∷◌,
  ◌++◌, arith, length, take, drop, length-drop, List-cases, take-split, length-drop-nil, Outcome,
  ok,
}
use uringmachine.Pool.State.{Segment}
use uringmachine.Stream.State.{Io}
use uringmachine.Stream.Content.{
  content, flat, IsValid, Consumed, Consumed-none, Consumed-trans, take-first, step_len_bounds,
  advance-Consumed,
}
use uringmachine.Stream.Consume.{
  advance, step_len, copy_loop, io_copy, skip_loop, io_skip, refill, budget,
}

-- A stream with bytes has a first segment.
pub first_segment :
    (io : Io)
    → 0 < length (content io)
    → (s : Segment) × (rest : List Segment) × (io.segments ≡ s ∷ rest)
first_segment io h = elim (List-cases io.segments) [
  | inl e ↦ absurd (
      omega
        (arith, ap (λ xs. length (drop io.pos (flat xs))) e, length-drop-nil io.pos (content io)))
  | inr r ↦ r
]

-- A copying loop that has the bytes and the rounds.
abbrev Copied : ℕ → Io → Outcome (List ℕ × Io) → Type 0
Copied len io r = (io' : Io) × (r ≡ ok (take len (content io), io')) × Consumed len io io'

module _ (fuel k : ℕ) (io io' : Io) (s : Segment) (rest : List Segment)
    (e : io.segments ≡ s ∷ rest) where
  copy_loop_step :
      (bytes : List ℕ)
      → copy_loop fuel (advance io s rest (step_len io s (suc k))) (suc k - step_len io s (suc k))
        ≡ ok (bytes, io')
      → copy_loop (suc fuel) io (suc k)
        ≡ ok (take (step_len io s (suc k)) (drop io.pos s.bytes) ++ bytes, io')
  unfolding copy_loop
  copy_loop_step bytes r = simp (e, copy_loop, r)

  skip_loop_step :
      (safe_inc : Bool)
      → refill (advance io s rest (step_len io s (suc k))) (suc k - step_len io s (suc k)) safe_inc
        ≡ ok (true, advance io s rest (step_len io s (suc k)))
      → skip_loop fuel
          (advance io s rest (step_len io s (suc k)))
          (suc k - step_len io s (suc k))
          safe_inc
        ≡ ok io'
      → skip_loop (suc fuel) io (suc k) safe_inc ≡ ok io'
  unfolding skip_loop
  skip_loop_step safe_inc stay r = simp (e, skip_loop, stay, r)

copy_loop-Copied :
    (fuel len : ℕ) (io : Io)
    → IsValid io
    → len ≤ length (content io)
    → len < fuel
    → Copied len io (copy_loop fuel io len)
unfolding copy_loop
copy_loop-Copied zero len io v h f = absurd (omega arith)
copy_loop-Copied (suc fuel) zero io v h f = (io, refl, Consumed-none v)
copy_loop-Copied (suc fuel) (suc k) io v h f =
    let (s, rest, e) = first_segment io (omega arith) in
    let n = step_len io s (suc k) in
    let (n_pos, n_le, n_in) = step_len_bounds io s rest e v (suc k) (omega arith) h in
    let c = advance-Consumed io s rest e v n n_pos (omega arith) n_in in
    let (io', r, c') =
      copy_loop-Copied fuel (suc k - n) (advance io s rest n) c.valid
        (omega (arith, ap length c.rest, length-drop n (content io))) (omega arith) in
    let total : n + (suc k - n) ≡ suc k = omega arith in
    let bytes : take n (drop io.pos s.bytes) ++ take (suc k - n) (content (advance io s rest n))
        ≡ take (suc k) (content io) =
      rw (take-first io s rest e v n n_in, c.rest) (sym (take-split n (suc k) (content io) n_le)) in
    (
      io',
      copy_loop_step fuel k io io' s rest e _ r ∙ ap (λ xs. ok (xs, io')) bytes,
      subst (λ m. Consumed m io io') total (Consumed-trans c c'),
    )

-- `io_copy` hands out exactly the next `len` bytes of a valid stream that holds them, uses them up
-- and nothing else, and leaves the stream valid.
pub io_copy-take :
    (io : Io) (len : ℕ)
    → IsValid io
    → len ≤ length (content io)
    → (io' : Io) × (io_copy io len ≡ ok (take len (content io), io')) × Consumed len io io'
unfolding io_copy
io_copy-take io len v h = copy_loop-Copied (len + length io.segments + 1) len io v h (omega arith)

abbrev Skipped : ℕ → Io → Outcome Io → Type 0
Skipped inc io r = (io' : Io) × (r ≡ ok io') × Consumed inc io io'

-- A skip waits for bytes only where some are left to skip and none is there.
refill-stays :
    (io : Io) (inc : ℕ) (safe_inc : Bool)
    → IsValid io
    → inc ≤ length (content io)
    → refill io inc safe_inc ≡ ok (true, io)
unfolding refill
refill-stays io zero safe_inc v h = refl
refill-stays io (suc k) safe_inc v h =
    let (s, rest, e) = first_segment io (omega arith) in simp e (ground arith)

skip_loop-Skipped :
    (fuel inc : ℕ) (io : Io) (safe_inc : Bool)
    → IsValid io
    → inc ≤ length (content io)
    → inc < fuel
    → Skipped inc io (skip_loop fuel io inc safe_inc)
unfolding skip_loop
skip_loop-Skipped zero inc io safe_inc v h f = absurd (omega arith)
skip_loop-Skipped (suc fuel) zero io safe_inc v h f = (io, refl, Consumed-none v)
skip_loop-Skipped (suc fuel) (suc k) io safe_inc v h f =
    let (s, rest, e) = first_segment io (omega arith) in
    let n = step_len io s (suc k) in
    let (n_pos, n_le, n_in) = step_len_bounds io s rest e v (suc k) (omega arith) h in
    let c = advance-Consumed io s rest e v n n_pos (omega arith) n_in in
    let there : suc k - n ≤ length (content (advance io s rest n)) =
      omega (arith, ap length c.rest, length-drop n (content io)) in
    let (io', r, c') =
      skip_loop-Skipped fuel (suc k - n) (advance io s rest n) safe_inc c.valid there
        (omega arith) in
    let total : n + (suc k - n) ≡ suc k = omega arith in
    (
      io',
      skip_loop_step fuel k io io' s rest e safe_inc
          (refill-stays (advance io s rest n) (suc k - n) safe_inc c.valid there) r,
      subst (λ m. Consumed m io io') total (Consumed-trans c c'),
    )

io_skip-skip_loop :
    (io : Io) (s : Segment) (rest : List Segment)
    → io.segments ≡ s ∷ rest
    → (inc : ℕ) (safe_inc : Bool)
    → io_skip io inc safe_inc ≡ skip_loop (inc + budget io + 1) io inc safe_inc
unfolding io_skip
io_skip-skip_loop io s rest e inc safe_inc = ground arith

-- `io_skip` of bytes that are there drops them and nothing else, whether or not it may wait.
pub io_skip-drop :
    (io : Io) (inc : ℕ) (safe_inc : Bool)
    → IsValid io
    → inc ≤ length (content io)
    → 0 < length (content io)
    → (io' : Io) × (io_skip io inc safe_inc ≡ ok io') × Consumed inc io io'
unfolding io_skip
io_skip-drop io inc safe_inc v h some_left =
    let (s, rest, e) = first_segment io some_left in
    let (io', r, c) = skip_loop-Skipped (inc + budget io + 1) inc io safe_inc v h (omega arith) in
    (io', io_skip-skip_loop io s rest e inc safe_inc ∙ r, c)
