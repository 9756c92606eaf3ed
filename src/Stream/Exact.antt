-- ===== src/Stream/Exact.antt =====
-- `io_read` of ext/um/um_io.c for a number of bytes that are there.
use uringmachine.Base.{
  ℕ, zero, suc, ◌+◌, ◌-◌, ◌≤◌, ◌<◌, ◌≡◌, ap, ◌∙◌, inl, inr, Bool, false, Option, some, List, [],
  ◌∷◌, arith, leb, is_zero_sub, is_zero_pos, Bool-cases, length, take, drop, get_elem?, leb→le,
  lt→leb, get_elem?-drop, drop_next, length-drop, length-append, sub64, sub64_of_le, ℤ, Outcome, ok,
}
use uringmachine.Pool.State.{Segment}
use uringmachine.Stream.State.{Io}
use uringmachine.Stream.Content.{content, flat, IsValid, Consumed, length-content, in_first}
use uringmachine.Stream.Copy.{first_segment, io_copy-take}
use uringmachine.Stream.Consume.{budget, io_consume_string}
use uringmachine.Stream.Read.{read_loop, io_read, take_string, with_data, with_next, labs, limited}

limited_all : (n remaining len : ℕ) → remaining ≤ len → limited (suc n) remaining len ≡ remaining
unfolding limited
limited_all n remaining len h = ground arith

limited_part : (n remaining len : ℕ) → len < remaining → limited (suc n) remaining len ≡ len
unfolding limited
limited_part n remaining len h = ground arith

pub with_next-here :
    {A : Type 0} (io : Io) (k : ℕ) (body : Io → Outcome (Option A × Io))
    → k < length io.segments
    → with_next io k body ≡ body io
unfolding with_next
with_next-here io k body h = ground arith

module _ (io : Io) (n inc : ℕ) (safe_inc : Bool) where
  -- One round over the segment `current`, the `k`-th, of which `left` bytes have not been counted.
  read_loop_last :
      (fuel k remaining total ofs : ℕ) (current : Segment)
      → get_elem? io.segments k ≡ some current
      → remaining ≤ sub64 (length current.bytes) ofs
      → read_loop (suc fuel) io k remaining total ofs (ℤ.pos (suc n)) inc safe_inc
        ≡ take_string io (total + remaining) inc safe_inc
  unfolding read_loop labs
  read_loop_last fuel k remaining total ofs current e h = simp (
    e,
    read_loop,
    limited_all n remaining (sub64 (length current.bytes) ofs) h,
    is_zero_sub remaining remaining (omega arith),
  )

  read_loop_next :
      (fuel k remaining total ofs : ℕ) (current : Segment)
      → get_elem? io.segments k ≡ some current
      → sub64 (length current.bytes) ofs < remaining
      → k + 1 < length io.segments
      → read_loop (suc fuel) io k remaining total ofs (ℤ.pos (suc n)) inc safe_inc
        ≡ read_loop fuel io
            (k + 1)
            (remaining - sub64 (length current.bytes) ofs)
            (total + sub64 (length current.bytes) ofs)
            0
            (ℤ.pos (suc n))
            inc
            safe_inc
  unfolding read_loop labs
  read_loop_next fuel k remaining total ofs current e h more = simp (
    e,
    read_loop,
    limited_part n remaining (sub64 (length current.bytes) ofs) h,
    is_zero_pos (remaining - sub64 (length current.bytes) ofs) (omega arith),
    with_next-here,
    more,
    lt→leb (length io.segments) (k + 1) more,
  )

  -- The bytes from place `ofs` of the `k`-th segment on are enough.
  pub read_loop-take_string :
      (fuel k remaining total ofs : ℕ) (current : Segment) (rest : List Segment)
      → drop k io.segments ≡ current ∷ rest
      → ofs ≤ length current.bytes
      → 0 < remaining
      → remaining + ofs ≤ length current.bytes + length (flat rest)
      → length rest < fuel
      → read_loop fuel io k remaining total ofs (ℤ.pos (suc n)) inc safe_inc
        ≡ take_string io (total + remaining) inc safe_inc
  read_loop-take_string zero k remaining total ofs current rest e o p h f = absurd (omega arith)
  read_loop-take_string (suc fuel) k remaining total ofs current [] e o p h f =
      read_loop_last fuel k remaining total ofs current (get_elem?-drop k io.segments e)
        (omega (arith, sub64_of_le (length current.bytes) ofs))
  read_loop-take_string (suc fuel) k remaining total ofs current (x ∷ xs) e o p h f =
      let here = get_elem?-drop k io.segments e in
      let left = sub64_of_le (length current.bytes) ofs o in
      elim (Bool-cases (leb remaining (length current.bytes - ofs))) [
        | inl enough ↦
            read_loop_last fuel k remaining total ofs current here
              (omega (arith, left, leb→le remaining (length current.bytes - ofs) enough))
        | inr short ↦
            let more : length current.bytes - ofs < remaining = ground arith in
            read_loop_next fuel k remaining total ofs current here (omega (arith, left))
              (omega (arith, ap length e, length-drop k io.segments))
            ∙ read_loop-take_string fuel (k + 1) (remaining - sub64 (length current.bytes) ofs)
                (total + sub64 (length current.bytes) ofs) 0 x xs (drop_next k io.segments e)
                (omega arith) (omega (arith, left))
                (omega (arith, left, length-append x.bytes (flat xs))) (omega arith)
            ∙ ap (λ t. take_string io t inc safe_inc) (omega (arith, left))
      ]

-- `io_consume_string` of bytes that are there.
pub io_consume_string-take :
    (io : Io) (len : ℕ)
    → IsValid io
    → len ≤ length (content io)
    → (io' : Io) × (io_consume_string io len 0 false ≡ ok (take len (content io), io'))
      × Consumed len io io'
unfolding io_consume_string
io_consume_string-take io len v h = let (io', r, c) = io_copy-take io len v h in (io', simp r, c)

pub with_data-here :
    {A : Type 0} (io : Io) (s : Segment) (rest : List Segment)
    → io.segments ≡ s ∷ rest
    → (body : Io → Outcome (Option A × Io)) → with_data io body ≡ body io
unfolding with_data
with_data-here io s rest e body = ground arith

pub budget_gt :
    (io : Io) (s : Segment) (rest : List Segment) → io.segments ≡ s ∷ rest → length rest < budget io
unfolding budget
budget_gt io s rest e = omega (arith, ap length e)

taken :
    (io io' : Io) (n : ℕ) (bytes : List ℕ)
    → io_consume_string io n 0 false ≡ ok (bytes, io')
    → take_string io (0 + n) 0 false ≡ ok (some bytes, io')
unfolding take_string
taken io io' n bytes r = let z : 0 + n ≡ n = omega arith in simp (z, r)

-- `io_read` of a number of bytes that are there hands out exactly these, in whatever segments they
-- lie, uses them up and nothing else, and waits for nothing.
pub io_read-take :
    (io : Io) (n : ℕ)
    → IsValid io
    → suc n ≤ length (content io)
    → (io' : Io) × (io_read io (ℤ.pos (suc n)) 0 false ≡ ok (some (take (suc n) (content io)), io'))
      × Consumed (suc n) io io'
unfolding io_read take_string labs
io_read-take io n v h =
    let (s, rest, e) = first_segment io (omega arith) in
    let (io', r, c) = io_consume_string-take io (suc n) v h in
    let all =
      read_loop-take_string io n 0 false (budget io) 0 (suc n) 0 io.pos s rest e
        (omega (arith, in_first io s rest e v)) (omega arith)
        (omega (arith, length-content io s rest e v)) (budget_gt io s rest e) in
    (io', with_data-here io s rest e _ ∙ all ∙ taken io io' (suc n) _ r, c)
