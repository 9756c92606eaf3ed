-- ===== src/Resp/Line.antt =====
-- `resp_read_line` of a stream whose bytes lie in one segment (ext/um/um_io.c).
use uringmachine.Base.{
  ℕ, suc, ◌+◌, ◌-◌, ◌≤◌, ◌≡◌, sym, ap, ◌∙◌, true, false, some, List, [], ◌∷◌, ◌++◌, arith, ltb,
  length, drop, get_elem?, length-append, append-nil, ok,
}
use uringmachine.Pool.State.{Segment}
use uringmachine.Stream.State.{Io}
use uringmachine.Stream.Content.{content, flat, IsValid, Consumed, in_first}
use uringmachine.Stream.Copy.{first_segment}
use uringmachine.Stream.Search.{Without, memchr-append, take_string-ended}
use uringmachine.Stream.Exact.{with_data-here, budget_gt}
use uringmachine.Stream.Consume.{budget}
use uringmachine.Stream.Read.{memchr, take_string}
use uringmachine.Resp.Buffer.{crlf}
use uringmachine.Resp.Decode.{resp_line_loop, resp_read_line}

-- No byte of the list is the carriage return.
abbrev pub NoCr : List ℕ → Type 0
NoCr xs = Without 13 xs

-- The next bytes of a stream, and what follows them.
abbrev pub Reads : List ℕ → List ℕ → Io → Type 0
Reads xs rest io = content io ≡ xs ++ rest

-- All bytes lie in one segment.
pub record IsSingle (io : Io) : Type 0 where
  pub valid : IsValid io
  pub single : length io.segments ≤ 1

pub only_segment :
    (io : Io) (s : Segment) (rest : List Segment)
    → io.segments ≡ s ∷ rest
    → IsSingle io
    → content io ≡ drop io.pos s.bytes
only_segment io s [] e v =
    let inside = in_first io s [] e v.valid in
    ap (λ xs. drop io.pos (flat xs)) e ∙ ap (drop io.pos) (append-nil s.bytes)
only_segment io s (x ∷ xs) e v = absurd (omega (arith, v.single, ap length e))

line_loop_found :
    (fuel : ℕ) (io : Io) (s : Segment) (rest : List Segment) (n : ℕ)
    → io.segments ≡ s ∷ rest
    → io.pos ≤ length s.bytes
    → memchr 13 (drop io.pos s.bytes) ≡ some n
    → resp_line_loop (suc fuel) io 0 0 ≡ take_string io (0 + n) 2 true
unfolding resp_line_loop
line_loop_found fuel io s rest n e h m =
    let g : get_elem? io.segments 0 ≡ some s = rw e in
    let f : ltb (length s.bytes) io.pos ≡ false = ground arith in simp (g, resp_line_loop, f, m)

-- The first line of a stream whose bytes lie in one segment is handed out without its end.
pub resp_read_line-line :
    (io : Io) (line rest : List ℕ)
    → IsSingle io
    → NoCr line
    → Reads line (crlf ++ rest) io
    → (io' : Io) × (resp_read_line io ≡ ok (some line, io'))
      × Consumed (length line + 2) io io'
      × (content io' ≡ rest)
unfolding resp_read_line
resp_read_line-line io line rest v h e =
    let (s, segments, f) =
      first_segment io (omega (arith, ap length e, length-append line (crlf ++ rest))) in
    let (io', r, c, left) = take_string-ended io line crlf rest true v.valid e (omega arith) in
    let found : memchr 13 (drop io.pos s.bytes) ≡ some (length line) =
      ap (memchr 13) (sym (only_segment io s segments f v) ∙ e)
      ∙ memchr-append 13 line (10 ∷ rest) h in
    let z : 0 + length line ≡ length line = omega arith in
    let rounds : budget io ≡ suc (budget io - 1) = omega (arith, budget_gt io s segments f) in
    (
      io',
      with_data-here io s segments f _
          ∙ ap (λ n. resp_line_loop n io 0 0) rounds
          ∙ line_loop_found (budget io - 1) io s segments (length line) f
              (omega (arith, in_first io s segments f v.valid)) found
          ∙ ap (λ n. take_string io n 2 true) z
          ∙ r,
      c,
      left,
    )
