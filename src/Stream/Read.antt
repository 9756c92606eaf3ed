-- ===== src/Stream/Read.antt =====
-- Reading from a stream: `io_read_line`, `io_read`, `io_read_to_delim`, `io_read_each`,
-- `io_read_int_be` and `io_read_uint_be` of ext/um/um_io.c. A result `none` is Ruby's nil.
-- `current` is given by its place in the list of segments.
use uringmachine.Base.{
  ℕ, zero, suc, ◌+◌, ◌-◌, ◌*◌, ◌%◌, ◌^◌, Bool, true, false, not, ◌&&◌, ◌||◌, Option, none, some,
  List, [], ◌∷◌, ltb, is_zero, leb, ◌==◌, if◌then◌else◌, length, get_elem?, get_or, take, drop,
  sub64, ℤ, pos, negsuc, Outcome, ok, raised, fault, out_of_fuel, bad_delimiter, ◌>>=◌,
}
use uringmachine.Pool.State.{Segment}
use uringmachine.Stream.State.{Io}
use uringmachine.Stream.Fetch.{io_get_more_segments}
use uringmachine.Stream.Consume.{is_empty, budget, io_shift_head, io_skip, io_consume_string}

-- `memchr`: the place of the first byte `c`.
unfoldable pub memchr : ℕ → List ℕ → Option ℕ
memchr c [] = none
memchr c (x ∷ xs) =
    if x == c then some 0 else elim (memchr c xs) [ none ↦ none | some i ↦ some (suc i) ]

abbrev pub lf : ℕ
lf = 10

abbrev pub cr : ℕ
cr = 13

unfoldable pub trailing_cr_p : List ℕ → ℕ → Bool
trailing_cr_p bytes len = get_or bytes (len - 1) 0 == cr

-- Whether a byte CR stands right in front of the LF that was found `len` bytes behind `start`:
-- in this segment, or at the end of the one before.
unfoldable pub cr_before : List ℕ → ℕ → Option Segment → Bool
unfolding trailing_cr_p
cr_before start len none = not (is_zero len) && trailing_cr_p start len
cr_before start len (some last) =
    (not (is_zero len) && trailing_cr_p start len)
    || (is_zero len && trailing_cr_p last.bytes (length last.bytes))

-- The early returns with which the reading functions begin: nil at the end of the stream, or where
-- nothing is there and nothing comes.
unfoldable pub with_data :
    {A : Type 0} → Io → (Io → Outcome (Option A × Io)) → Outcome (Option A × Io)
with_data io body =
    if io.eof && is_empty io.segments
    then ok (none, io)
    else if is_empty io.segments
    then (do
      (n, io') ← io_get_more_segments io
      if not (is_zero n) then body io' else ok (none, io'))
    else body io

-- Goes on with the next segment, the `k`-th, waiting for it where it is not there yet; nil where
-- nothing comes.
unfoldable pub with_next :
    {A : Type 0} → Io → ℕ → (Io → Outcome (Option A × Io)) → Outcome (Option A × Io)
with_next io k body = if ltb k (length io.segments) then body io else (do
  (n, io') ← io_get_more_segments io
  if not (is_zero n) then body io' else ok (none, io'))

unfoldable pub take_string : Io → (len inc : ℕ) (safe_inc : Bool) → Outcome (Option (List ℕ) × Io)
take_string io len inc safe_inc = do
  (bytes, io') ← io_consume_string io len inc safe_inc
  ok (some bytes, io')

unfoldable pub limited : (maxlen remaining len : ℕ) → ℕ
limited maxlen remaining len = if not (is_zero maxlen) && ltb remaining len then remaining else len

unfoldable pub line_loop :
    ℕ
    → Io
    → (k : ℕ) (last : Option Segment) (remaining total ofs maxlen : ℕ)
    → Outcome (Option (List ℕ) × Io)
unfolding take_string memchr cr_before
line_loop zero io k last remaining total ofs maxlen = out_of_fuel
line_loop (suc fuel) io k last remaining total ofs maxlen = elim (get_elem? io.segments k) [
  | none ↦ fault
  | some current ↦
      let segment_len = sub64 (length current.bytes) ofs in
      let start = drop ofs current.bytes in
      elim (memchr lf (take (limited maxlen remaining segment_len) start)) [
        | some len ↦
            if not (is_zero (total + len)) && cr_before start len last
            then take_string io (total + len - 1) 2 false
            else take_string io (total + len) 1 false
        | none ↦
            if not (is_zero maxlen) && leb maxlen segment_len
            then ok (none, io)
            else with_next io (k + 1) λ io'.
              line_loop fuel io' (k + 1) (some current) (sub64 remaining segment_len)
                (total + segment_len) 0 maxlen
      ]
]

unfoldable pub io_read_line : Io → (maxlen : ℕ) → Outcome (Option (List ℕ) × Io)
unfolding line_loop with_data
io_read_line io maxlen =
    with_data io λ io'. line_loop (budget io') io' 0 none maxlen 0 io'.pos maxlen

unfoldable pub labs : ℤ → ℕ
labs (pos n) = n
labs (negsuc n) = n + 1

abbrev pub is_positive : ℤ → Bool
is_positive (pos zero) = false
is_positive (pos (suc n)) = true
is_positive (negsuc n) = false

unfoldable pub read_loop :
    ℕ
    → Io
    → (k remaining total ofs : ℕ) (len : ℤ) (inc : ℕ) (safe_inc : Bool)
    → Outcome (Option (List ℕ) × Io)
unfolding take_string labs
read_loop zero io k remaining total ofs len inc safe_inc = out_of_fuel
read_loop (suc fuel) io k remaining total ofs len inc safe_inc = elim (get_elem? io.segments k) [
  | none ↦ fault
  | some current ↦
      let segment_len = limited (labs len) remaining (sub64 (length current.bytes) ofs) in
      if not (is_zero (labs len)) && is_zero (remaining - segment_len)
      then take_string io (total + segment_len) inc safe_inc
      else if leb (length io.segments) (k + 1) && not (is_positive len)
      then take_string io (total + segment_len) inc safe_inc
      else with_next io (k + 1) λ io'.
        read_loop fuel io' (k + 1) (remaining - segment_len) (total + segment_len) 0 len inc
          safe_inc
]

unfoldable pub io_read : Io → (len : ℤ) (inc : ℕ) (safe_inc : Bool) → Outcome (Option (List ℕ) × Io)
unfolding read_loop with_data
io_read io len inc safe_inc =
    with_data io λ io'. read_loop (budget io') io' 0 (labs len) 0 io'.pos len inc safe_inc

-- `none` is a delimiter that is no string.
pub delim_to_char : Option (List ℕ) → Outcome ℕ
delim_to_char none = raised bad_delimiter
delim_to_char (some []) = raised bad_delimiter
delim_to_char (some (c ∷ [])) = ok c
delim_to_char (some (c ∷ d ∷ cs)) = raised bad_delimiter

pub delim_loop :
    ℕ → Io → (k remaining total ofs c : ℕ) (maxlen : ℤ) → Outcome (Option (List ℕ) × Io)
unfolding take_string labs memchr
delim_loop zero io k remaining total ofs c maxlen = out_of_fuel
delim_loop (suc fuel) io k remaining total ofs c maxlen = elim (get_elem? io.segments k) [
  | none ↦ fault
  | some current ↦
      let segment_len = sub64 (length current.bytes) ofs in
      let search_len = limited (labs maxlen) remaining segment_len in
      elim (memchr c (take search_len (drop ofs current.bytes))) [
        | some len ↦ take_string io (total + len) 1 false
        | none ↦
            if not (is_zero (labs maxlen)) && leb (labs maxlen) (total + search_len)
            then (if is_positive maxlen
                then ok (none, io)
                else take_string io (labs maxlen) 1 false)
            else with_next io (k + 1) λ io'.
              delim_loop fuel io' (k + 1) (sub64 remaining search_len) (total + search_len) 0 c
                maxlen
      ]
]

pub io_read_to_delim : Io → (delim : Option (List ℕ)) (maxlen : ℤ) → Outcome (Option (List ℕ) × Io)
unfolding delim_loop with_data delim_to_char
io_read_to_delim io delim maxlen = do
  c ← delim_to_char delim
  with_data io λ io'. delim_loop (budget io') io' 0 (labs maxlen) 0 io'.pos c maxlen

-- The chunks that the block is called with. The first begins at the stream's position; neither
-- `consumed_bytes` nor `pending_bytes` is touched.
pub each_loop : ℕ → Io → (ofs : ℕ) → Outcome (List (List ℕ) × Io)
each_loop zero io ofs = out_of_fuel
each_loop (suc fuel) io ofs = elim io.segments [
  | [] ↦ fault
  | s ∷ rest ↦ do
    let io₁ = io_shift_head io s rest
    (go_on, io₂) ←
        if is_empty rest
        then (do (n, io') ← io_get_more_segments io₁; ok (not (is_zero n), io'))
        else ok (true, io₁)
    (chunks, io₃) ← if go_on then each_loop fuel io₂ 0 else ok ([], io₂)
    ok (drop ofs s.bytes ∷ chunks, io₃)
]

pub io_read_each : Io → Outcome (List (List ℕ) × Io)
unfolding each_loop
io_read_each io =
    if io.eof && is_empty io.segments
    then ok ([], io)
    else if is_empty io.segments
    then (do
      (n, io') ← io_get_more_segments io
      if not (is_zero n) then each_loop (budget io') io' io'.pos else ok ([], io'))
    else each_loop (budget io) io io.pos

-- `value * 0x100 + byte` for each byte; the accumulator has 64 bits.
unfoldable pub big_endian : ℕ → List ℕ → ℕ
big_endian value [] = value
big_endian value (x ∷ xs) = big_endian ((value * 0x100 + x) % 2 ^ 64) xs

unfoldable pub int_loop : ℕ → Io → (len value : ℕ) → Outcome (Option ℕ × Io)
unfolding big_endian
int_loop zero io len value = out_of_fuel
int_loop (suc fuel) io len value = elim io.segments [
  | [] ↦ fault
  | s ∷ rest ↦ do
    let left = sub64 (length s.bytes) io.pos
    let n = if leb left len then left else len
    let value' = big_endian value (take n (drop io.pos s.bytes))
    io₁ ← if not (is_zero n) then io_skip io n true else ok io
    if is_zero (len - n)
        then ok (some value', io₁)
        else if is_empty io₁.segments
        then (do
          (m, io₂) ← io_get_more_segments io₁
          if not (is_zero m) then int_loop fuel io₂ (len - n) value' else ok (none, io₂))
        else int_loop fuel io₁ (len - n) value'
]

unfoldable pub io_read_uint_be : Io → (len : ℕ) → Outcome (Option ℕ × Io)
unfolding int_loop with_data
io_read_uint_be io len = with_data io λ io'. int_loop (len + budget io') io' len 0

-- The accumulator is a `long`: the same bits, read in two's complement.
unfoldable pub as_long : ℕ → ℤ
as_long n = if ltb n (2 ^ 63) then pos n else negsuc (2 ^ 64 - 1 - n)

pub io_read_int_be : Io → (len : ℕ) → Outcome (Option ℤ × Io)
unfolding int_loop with_data as_long
io_read_int_be io len = with_data io λ io'. do
  (r, io'') ← int_loop (len + budget io') io' len 0
  ok (elim r [ none ↦ none | some n ↦ some (as_long n) ], io'')
