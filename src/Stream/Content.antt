-- ===== src/Stream/Content.antt =====
-- A stream seen as the bytes that it holds, and what one step over its first segment does to them.
use uringmachine.Base.{
  ℕ, ◌+◌, ◌-◌, ◌≤◌, ◌<◌, ◌≡◌, refl, sym, ap, ◌∙◌, inl, inr, List, [], ◌∷◌, ◌++◌, arith, ◌==◌,
  Bool-cases, ==_iff, length, take, drop, length-append, drop-append, take-append, drop-append_ge,
  drop-drop, length-drop, sub64, sub64_of_le,
}
use uringmachine.Pool.State.{Segment}
use uringmachine.Stream.State.{Io}
use uringmachine.Stream.Consume.{advance, step_len, io_shift_head}

-- The bytes of a list of segments.
abbrev pub flat : List Segment → List ℕ
flat [] = []
flat (s ∷ rest) = s.bytes ++ flat rest

-- The bytes that are there to be read.
abbrev pub content : Io → List ℕ
content io = drop io.pos (flat io.segments)

abbrev pub NonEmpty : List Segment → Type 0
NonEmpty [] = Unit {0}
NonEmpty (s ∷ rest) = (0 < length s.bytes) × NonEmpty rest

-- The position lies inside the first segment.
abbrev pub Within : ℕ → List Segment → Type 0
Within p [] = p ≡ 0
Within p (s ∷ rest) = p < length s.bytes

-- No segment is empty, the position lies in the first, and `pending_bytes` counts what is there.
pub record IsValid (io : Io) : Type 0 where
  pub non_empty : NonEmpty io.segments
  pub within : Within io.pos io.segments
  pub pending : io.pending_bytes ≡ length (content io)

-- From `io` to `io'` exactly `n` bytes have been used up, and nothing has been waited for.
pub record Consumed (n : ℕ) (io io' : Io) : Type 0 where
  pub rest : content io' ≡ drop n (content io)
  pub counted : io'.consumed_bytes ≡ io.consumed_bytes + n
  pub valid : IsValid io'
  pub eof : io'.eof ≡ io.eof
  pub op : io'.op ≡ io.op
  pub resumes : io'.resumes ≡ io.resumes
  pub fewer : length io'.segments ≤ length io.segments

pub Consumed-none : {io : Io} → IsValid io → Consumed 0 io io
Consumed-none {io} v = record {
  rest = refl;
  counted = omega arith;
  valid = v;
  eof = refl;
  op = refl;
  resumes = refl;
  fewer = omega arith;
}

pub Consumed-trans : {m n : ℕ} {a b c : Io} → Consumed m a b → Consumed n b c → Consumed (m + n) a c
Consumed-trans {m} {n} {a} {b} {c} p q = record {
  rest = q.rest ∙ ap (drop n) p.rest ∙ drop-drop m n (content a);
  counted = omega (arith, p.counted, q.counted);
  valid = q.valid;
  eof = q.eof ∙ p.eof;
  op = q.op ∙ p.op;
  resumes = q.resumes ∙ p.resumes;
  fewer = omega (arith, p.fewer, q.fewer);
}

-- A valid stream, its first segment and the others taken apart.
module _ (io : Io) (s : Segment) (rest : List Segment) (e : io.segments ≡ s ∷ rest)
    (v : IsValid io) where
  pub in_first : io.pos < length s.bytes
  in_first = rw e at v.within

  rest_filled : NonEmpty rest
  rest_filled = (rw e at v.non_empty).1

  rest-Within : Within 0 rest
  rest-Within = rest-Within' rest rest_filled
    where
      rest-Within' : (xs : List Segment) → NonEmpty xs → Within 0 xs
      rest-Within' [] h = refl
      rest-Within' (x ∷ xs) h = h.0

  pub content_first : content io ≡ drop io.pos (s.bytes ++ flat rest)
  content_first = rw e

  pub length-content : length (content io) + io.pos ≡ length s.bytes + length (flat rest)
  length-content = omega (
    arith,
    ap length content_first,
    length-drop io.pos (s.bytes ++ flat rest),
    length-append s.bytes (flat rest),
    in_first,
  )

  pub step_len_bounds :
      (n : ℕ)
      → 0 < n
      → n ≤ length (content io)
      → (0 < step_len io s n) × (step_len io s n ≤ n) × (io.pos + step_len io s n ≤ length s.bytes)
  unfolding step_len
  step_len_bounds n pos_n h = ground (arith, in_first, sub64_of_le (length s.bytes) io.pos)

  -- The bytes that a step takes are the first of the content.
  pub take-first :
      (n : ℕ) → io.pos + n ≤ length s.bytes → take n (drop io.pos s.bytes) ≡ take n (content io)
  take-first n h =
      rw (content_first, drop-append io.pos s.bytes (flat rest) (omega arith))
        (sym (
          take-append n (drop io.pos s.bytes) (flat rest)
            (omega (arith, length-drop io.pos s.bytes))))

  -- The content after a step, whether or not it uses up the segment.
  drop-first :
      (n : ℕ) → io.pos + n ≤ length s.bytes → content (advance io s rest n) ≡ drop n (content io)
  unfolding advance io_shift_head
  drop-first n h = elim (Bool-cases (io.pos + n == length s.bytes)) [
    | inl all ↦
        let full : io.pos + n ≡ length s.bytes = (==_iff _ _).0 all in
        rw (all, content_first, drop-drop io.pos n (s.bytes ++ flat rest), full)
          (sym (drop-append_ge (length s.bytes) s.bytes (flat rest) (omega arith) ∙ none_left))
    | inr part ↦ rw (part, content_first, drop-drop io.pos n (s.bytes ++ flat rest)) (rw e)
  ]
    where
      none_left : drop (length s.bytes - length s.bytes) (flat rest) ≡ flat rest
      none_left = let z : length s.bytes - length s.bytes ≡ 0 = omega arith in rw z

  pub advance-Consumed :
      (n : ℕ)
      → 0 < n
      → n ≤ length (content io)
      → io.pos + n ≤ length s.bytes
      → Consumed n io (advance io s rest n)
  unfolding advance io_shift_head
  advance-Consumed n pos_n h k = record {
    rest = drop-first n k;
    counted = counted;
    valid = record { non_empty = ground arith; within = ground arith; pending = pending };
    eof = ground arith;
    op = ground arith;
    resumes = ground arith;
    fewer = fewer;
  }
    where
      fewer : length (advance io s rest n).segments ≤ length io.segments
      fewer = ground (arith, ap length e)

      counted : (advance io s rest n).consumed_bytes ≡ io.consumed_bytes + n
      counted = ground arith

      pending : (advance io s rest n).pending_bytes ≡ length (content (advance io s rest n))
      pending =
          let p : (advance io s rest n).pending_bytes ≡ sub64 io.pending_bytes n = ground arith in
          omega (
            arith,
            p,
            ap length (drop-first n k),
            length-drop n (content io),
            sub64_of_le io.pending_bytes n,
            v.pending,
          )
