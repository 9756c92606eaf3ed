-- ===== src/Resp/Decode.antt =====
-- `resp_read` (ext/um/um_io.c): an object from a stream. The line that is read, and each bulk string,
-- are put into one string, the out buffer; `out` is what it holds.
use uringmachine.Base.{
  ℕ, zero, suc, ◌+◌, ◌-◌, true, not, ◌||◌, Option, none, some, List, [], ◌∷◌, ltb, ◌==◌,
  if◌then◌else◌, length, get_elem?, get_or, drop, Outcome, ok, raised, fault, out_of_fuel,
  internal_error, ◌>>=◌,
}
use uringmachine.Stream.State.{Io}
use uringmachine.Stream.Consume.{budget}
use uringmachine.Stream.Read.{memchr, with_data, with_next, take_string, io_read, as_long}
use uringmachine.Resp.Value.{
  bytes, out_buffer, contents, Floats, Value, nil, bool, integer, float, string, error, array, hash,
  Items, no_items, item, Pairs, no_pairs, pair,
}
use uringmachine.Resp.Number.{resp_parse_length_field, strtol}

-- The `k`-th segment is searched from the stream's position on, which is not set back for the second.
-- A segment that ends before that position is searched past its end.
unfoldable pub resp_line_loop : ℕ → Io → (k total : ℕ) → Outcome (Option (List ℕ) × Io)
unfolding memchr take_string
resp_line_loop zero io k total = out_of_fuel
resp_line_loop (suc fuel) io k total = elim (get_elem? io.segments k) [
  | none ↦ fault
  | some current ↦
      if ltb (length current.bytes) io.pos
      then fault
      else (elim (memchr 13 (drop io.pos current.bytes)) [
        | some len ↦ take_string io (total + len) 2 true
        | none ↦
            with_next io (k + 1)
              λ io'. resp_line_loop fuel io' (k + 1) (total + (length current.bytes - io.pos))
      ])
]

unfoldable pub resp_read_line : Io → Outcome (Option (List ℕ) × Io)
unfolding resp_line_loop with_data
resp_read_line io = with_data io λ io'. resp_line_loop (budget io') io' 0 0

-- An object, the out buffer and the stream.
abbrev pub Answer : Type 0 → Type 0
Answer A = Outcome (A × List ℕ × Io)

unfoldable pub resp_decode_string : (len : ℕ) → Io → List ℕ → Answer Value
resp_decode_string len io out = do
  (r, io') ← io_read io (as_long len) 2 true
  elim r [ none ↦ ok (nil, out, io') | some xs ↦ ok (string out_buffer, xs, io') ]

-- Four bytes, the encoding and a colon, are taken off. Without a string a null pointer is read.
unfoldable pub resp_decode_string_with_encoding : (len : ℕ) → Io → List ℕ → Answer Value
resp_decode_string_with_encoding len io out = do
  (r, io') ← io_read io (as_long len) 2 true
  elim r [
    | none ↦ fault
    | some xs ↦
        if ltb (length xs) 4 || not (get_or xs 3 0 == 58)
        then ok (nil, xs, io')
        else ok (string (bytes (drop 4 xs)), xs, io')
  ]

-- The message of the error is the out buffer, or nil, which is written as an empty text here.
unfoldable pub resp_decode_error : (len : ℕ) → Io → List ℕ → Answer Value
resp_decode_error len io out = do
  (r, io') ← io_read io (as_long len) 2 true
  elim r [ none ↦ ok (error (bytes []), out, io') | some xs ↦ ok (error out_buffer, xs, io') ]

-- `rb_hash_aset` stores a copy of a key that is a string.
abbrev pub stored_key : (out : List ℕ) → Value → Value
stored_key out (string s) = string (bytes (contents out s))
stored_key out v = v

module _ (read : Io → List ℕ → Answer Value) where
  unfoldable pub resp_decode_array : (len : ℕ) → Io → List ℕ → Answer Items
  resp_decode_array zero io out = ok (no_items, out, io)
  resp_decode_array (suc len) io out = do
    (v, out₁, io₁) ← read io out
    (vs, out₂, io₂) ← resp_decode_array len io₁ out₁
    ok (item v vs, out₂, io₂)

  -- The pairs in the order in which they are stored; a later one of the same key replaces it.
  unfoldable pub resp_decode_hash : (len : ℕ) → Io → List ℕ → Answer Pairs
  resp_decode_hash zero io out = ok (no_pairs, out, io)
  resp_decode_hash (suc len) io out = do
    (k, out₁, io₁) ← read io out
    (v, out₂, io₂) ← read io₁ out₁
    (ps, out₃, io₃) ← resp_decode_hash len io₂ out₂
    ok (pair (stored_key out₂ k) v ps, out₃, io₃)

  -- By the first byte `c` of the line `c ∷ cs`, which the out buffer holds.
  unfoldable pub resp_dispatch : Floats → (c : ℕ) (cs : List ℕ) → Io → Answer Value
  unfolding resp_decode_array resp_decode_hash resp_decode_string resp_decode_string_with_encoding
      resp_decode_error
  resp_dispatch floats c cs io =
      let out = c ∷ cs in
      let len = resp_parse_length_field out in
      if c == 37 || c == 124
      then (resp_decode_hash len io out >>= λ (ps, out', io'). ok (hash ps, out', io'))
      else if c == 42 || c == 126 || c == 62
      then (resp_decode_array len io out >>= λ (vs, out', io'). ok (array vs, out', io'))
      else if c == 43
      then ok (string (bytes cs), out, io)
      else if c == 36
      then resp_decode_string len io out
      else if c == 61
      then resp_decode_string_with_encoding len io out
      else if c == 95
      then ok (nil, out, io)
      else if c == 35
      then ok (bool (get_or cs 0 0 == 116), out, io)
      else if c == 58
      then ok (integer (strtol cs), out, io)
      else if c == 40
      then raised internal_error
      else if c == 44
      then ok (float (floats.strtod cs), out, io)
      else if c == 45
      then ok (error (bytes cs), out, io)
      else if c == 33
      then resp_decode_error len io out
      else raised internal_error

-- By the line that was read.
unfoldable pub resp_answer :
    (Io → List ℕ → Answer Value) → Floats → (out : List ℕ) → Option (List ℕ) × Io → Answer Value
unfolding resp_dispatch
resp_answer read floats out (none, io) = ok (nil, out, io)
resp_answer read floats out (some [], io) = ok (nil, [], io)
resp_answer read floats out (some (c ∷ cs), io) = resp_dispatch read floats c cs io

-- The fuel is the depth to which objects may be nested.
unfoldable pub resp_read : Floats → (fuel : ℕ) → Io → (out : List ℕ) → Answer Value
unfolding resp_answer resp_read_line
resp_read floats zero io out = out_of_fuel
resp_read floats (suc fuel) io out =
    resp_read_line io >>= resp_answer (resp_read floats fuel) floats out

-- `IO_resp_read` (ext/um/um_io_class.c).
unfoldable pub io_resp_read : Floats → (fuel : ℕ) → Io → Answer Value
unfolding resp_read
io_resp_read floats fuel io = resp_read floats fuel io []
