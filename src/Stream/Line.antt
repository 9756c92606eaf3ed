-- ===== src/Stream/Line.antt =====
-- `io_read_line` of a line that is there (ext/um/um_io.c).
use uringmachine.Base.{
  ℕ, zero, suc, ◌+◌, ◌-◌, ◌≤◌, ◌<◌, ◌≡◌, refl, sym, ap, subst, ◌∙◌, inl, inr, false, not, ◌&&◌,
  Option, some, none, List, [], ◌∷◌, ◌++◌, arith, Bool-cases, is_zero, if◌then◌else◌, length, take,
  drop, get_elem?, length-drop, take-all, take-append-drop, drop-append, length-append,
  append_assoc, append-nil, get_elem?-drop, drop_next, sub64, sub64_of_le, Outcome, ok,
}
use uringmachine.Pool.State.{Segment}
use uringmachine.Stream.State.{Io}
use uringmachine.Stream.Content.{
  content, flat, NonEmpty, IsValid, Consumed, in_first, content_first,
}
use uringmachine.Stream.Copy.{first_segment}
use uringmachine.Stream.Consume.{budget}
use uringmachine.Stream.Read.{
  lf, memchr, trailing_cr_p, cr_before, take_string, limited, line_loop, io_read_line,
}
use uringmachine.Stream.Exact.{with_data-here, with_next-here, budget_gt}
use uringmachine.Stream.Search.{Without, memchr-append, memchr-none, take_string-ended}
use uringmachine.Stream.Cr.{
  ends_with_cr, strip_cr, strip_cr-cr, strip_cr-none, ends_with_cr-append, trailing_cr_p-ends,
  split_at_byte, Without-front, Ends, cr_test,
}

-- How the call ends that has found the end of the line.
ended : Io → List ℕ → Outcome (Option (List ℕ) × Io)
ended io line =
    if ends_with_cr line
    then take_string io (length line - 1) 2 false
    else take_string io (length line) 1 false

limited_none : (remaining n : ℕ) → limited 0 remaining n ≡ n
unfolding limited
limited_none remaining n = refl

searched :
    (remaining ofs : ℕ) (xs : List ℕ)
    → ofs ≤ length xs
    → take (limited 0 remaining (sub64 (length xs) ofs)) (drop ofs xs) ≡ drop ofs xs
searched remaining ofs xs h =
    let n = sub64_of_le (length xs) ofs h ∙ sym (length-drop ofs xs) in
    ap (λ k. take k (drop ofs xs)) (limited_none remaining (sub64 (length xs) ofs) ∙ n)
    ∙ take-all (drop ofs xs)

module _ (io : Io) (fuel k : ℕ) (last : Option Segment) (remaining ofs : ℕ) (before : List ℕ)
    (current : Segment) (here : get_elem? io.segments k ≡ some current)
    (o : ofs ≤ length current.bytes) where
  line_loop_found :
      (after more : List ℕ)
      → drop ofs current.bytes ≡ after ++ lf ∷ more
      → Without lf after
      → Ends last before
      → line_loop (suc fuel) io k last remaining (length before) ofs 0 ≡ ended io (before ++ after)
  unfolding line_loop ended
  line_loop_found after more e w l =
      let s = searched remaining ofs current.bytes o in
      let found = ap (memchr lf) (s ∙ e) ∙ memchr-append lf after more w in
      let test =
        ap (λ xs. not (is_zero (length before + length after)) && cr_before xs (length after) last)
          e
        ∙ cr_test last before after more l in
      let n = length-append before after in simp (here, line_loop, found, test, n)

  line_loop_next :
      memchr lf (drop ofs current.bytes) ≡ none
      → k + 1 < length io.segments
      → line_loop (suc fuel) io k last remaining (length before) ofs 0
        ≡ line_loop fuel io
            (k + 1)
            (some current)
            (sub64 remaining (sub64 (length current.bytes) ofs))
            (length before + sub64 (length current.bytes) ofs)
            0
            0
  unfolding line_loop
  line_loop_next none_here more =
      let s = searched remaining ofs current.bytes o in
      let found = ap (memchr lf) s ∙ none_here in
      simp (here, line_loop, found, with_next-here, more)

-- The segment that was searched in vain ends with what is now in front.
Ends-next :
    (current : Segment) (ofs : ℕ) (before : List ℕ)
    → ofs < length current.bytes
    → Ends (some current) (before ++ drop ofs current.bytes)
Ends-next current ofs before o =
    let left = length-drop ofs current.bytes in
    let n = length-append before (drop ofs current.bytes) in
    let whole = take-append-drop ofs current.bytes in
    (
      omega (arith, left, n),
      ap (λ xs. trailing_cr_p xs (length current.bytes)) (sym (append-nil current.bytes))
          ∙ trailing_cr_p-ends current.bytes [] (omega arith)
          ∙ ap ends_with_cr (sym whole)
          ∙ ends_with_cr-append (take ofs current.bytes) (drop ofs current.bytes)
              (omega (arith, left))
          ∙ sym (ends_with_cr-append before (drop ofs current.bytes) (omega (arith, left))),
    )

-- From the `k`-th segment on the line goes on with `after`.
line_loop-ended :
    (io : Io) (fuel k : ℕ) (last : Option Segment) (remaining ofs : ℕ) (before after rest : List ℕ)
    (current : Segment) (segments : List Segment)
    → drop k io.segments ≡ current ∷ segments
    → NonEmpty segments
    → ofs < length current.bytes
    → drop ofs current.bytes ++ flat segments ≡ after ++ lf ∷ rest
    → Without lf after
    → Ends last before
    → length segments < fuel
    → line_loop fuel io k last remaining (length before) ofs 0 ≡ ended io (before ++ after)
line_loop-ended io zero k last remaining ofs before after rest current segments e f o c w l b =
    absurd (omega arith)
line_loop-ended io (suc fuel) k last remaining ofs before after rest current [] e f o c w l b =
    elim (split_at_byte (drop ofs current.bytes) [] after rest lf c) [
      | inl (more, h) ↦
          line_loop_found io fuel k last remaining ofs before current
            (get_elem?-drop k io.segments e) (omega arith) after more h w l
      | inr (left, h, t) ↦ absurd (omega (arith, ap length t, length-append left (lf ∷ rest)))
    ]
line_loop-ended io (suc fuel) k last remaining ofs before after rest current (x ∷ xs) e f o c w l
      b =
    let here = get_elem?-drop k io.segments e in
    let start = drop ofs current.bytes in
    let n = sub64 (length current.bytes) ofs in
    elim (split_at_byte start (x.bytes ++ flat xs) after rest lf c) [
      | inl (more, h) ↦
          line_loop_found io fuel k last remaining ofs before current here (omega arith) after more
            h w l
      | inr (left, h, t) ↦
          let parts = Without-front lf start left (subst (Without lf) h w) in
          let size : length before + n ≡ length (before ++ start) = omega (
            arith,
            sub64_of_le (length current.bytes) ofs,
            length-drop ofs current.bytes,
            length-append before start,
          ) in
          let line : (before ++ start) ++ left ≡ before ++ after =
            append_assoc before start left ∙ ap (λ ys. before ++ ys) (sym h) in
          line_loop_next io fuel k last remaining ofs before current here (omega arith)
            (memchr-none lf start parts.0) (omega (arith, ap length e, length-drop k io.segments))
          ∙ ap (λ m. line_loop fuel io (k + 1) (some current) (sub64 remaining n) m 0 0) size
          ∙ line_loop-ended io fuel (k + 1) (some current) (sub64 remaining n) 0 (before ++ start)
              left rest x xs (drop_next k io.segments e) f.1 f.0 t parts.1
              (Ends-next current ofs before o) (omega arith)
          ∙ ap (ended io) line
    ]

-- `io_read_line` without a limit, in a valid stream that has a line feed: the bytes in front of the
-- first line feed are handed out, in whatever segments they lie, without the carriage return at their
-- end if there is one; they and the line feed are used up and nothing else, and nothing is waited for.
pub io_read_line-strip_cr :
    (io : Io) (line rest : List ℕ)
    → IsValid io
    → content io ≡ line ++ lf ∷ rest
    → Without lf line
    → (io' : Io) × (io_read_line io 0 ≡ ok (some (strip_cr line), io'))
      × Consumed (length line + 1) io io'
      × (content io' ≡ rest)
unfolding io_read_line ended
io_read_line-strip_cr io line rest v e w =
    let (s, segments, f) =
      first_segment io (omega (arith, ap length e, length-append line (lf ∷ rest))) in
    let inside = in_first io s segments f v in
    let found : io_read_line io 0 ≡ ended io line =
      with_data-here io s segments f _
      ∙ line_loop-ended io (budget io) 0 none 0 io.pos [] line rest s segments f
          ((rw f at v.non_empty).1) inside
          (sym (drop-append io.pos s.bytes (flat segments) (omega arith))
            ∙ sym (content_first io s segments f v)
            ∙ e)
          w refl (budget_gt io s segments f) in
    elim (Bool-cases (ends_with_cr line)) [
      | inl cr ↦
          let split = strip_cr-cr line cr in
          let size : length line ≡ length (strip_cr line) + 1 =
            ap length split ∙ length-append (strip_cr line) (13 ∷ []) in
          let (io', r, c, left) =
            take_string-ended io (strip_cr line) (13 ∷ lf ∷ []) rest false v
              (e
                ∙ ap (λ xs. xs ++ lf ∷ rest) split
                ∙ append_assoc (strip_cr line) (13 ∷ []) (lf ∷ rest))
              (omega arith) in
          let shorter : length line - 1 ≡ length (strip_cr line) = omega arith in
          let total : length (strip_cr line) + 2 ≡ length line + 1 = omega arith in
          (io', found ∙ simp (cr, shorter, r), subst (λ n. Consumed n io io') total c, left)
      | inr none_there ↦
          let (io', r, c, left) =
            take_string-ended io line (lf ∷ []) rest false v e (omega arith) in
          let same = strip_cr-none line none_there in
          (io', found ∙ simp (none_there, r, same), c, left)
    ]
