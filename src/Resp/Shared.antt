-- ===== src/Resp/Shared.antt =====
-- Bulk strings that are read (ext/um/um_io.c): all of them are put into the out buffer.
use uringmachine.Base.{
  ℕ, suc, ◌+◌, ◌^◌, ◌<◌, ◌≡◌, refl, ap, ◌∙◌, true, some, List, [], ◌∷◌, ◌++◌, arith, length,
  length-append, append_assoc, ℤ, ok, ◌>>=◌,
}
use uringmachine.Stream.State.{Io}
use uringmachine.Stream.Content.{content, length-content, in_first}
use uringmachine.Stream.Consume.{budget}
use uringmachine.Stream.Copy.{first_segment}
use uringmachine.Stream.Exact.{with_data-here, read_loop-take_string, budget_gt}
use uringmachine.Stream.Read.{io_read, take_string, labs, as_long}
use uringmachine.Resp.Value.{bytes, out_buffer, Floats, string, array, Items, no_items, item}
use uringmachine.Resp.Number.{decimal}
use uringmachine.Resp.Digits.{resp_parse_length_field-decimal}
use uringmachine.Resp.Buffer.{crlf}
use uringmachine.Resp.Encode.{array_len}
use uringmachine.Resp.Text.{text, text_items}
use uringmachine.Resp.Line.{IsSingle}
use uringmachine.Stream.Search.{take_string-ended}
use uringmachine.Resp.RoundTrip.{Consumed-IsSingle, decimal-NoCr, resp_read_head, regroup}
use uringmachine.Resp.Decode.{resp_decode_string, resp_decode_array, resp_dispatch, resp_read}

-- `io_read` of a string that two bytes follow.
io_read-crlf :
    (io : Io) (x : ℕ) (xs rest : List ℕ)
    → IsSingle io
    → content io ≡ (x ∷ xs) ++ (crlf ++ rest)
    → (io' : Io) × (io_read io (ℤ.pos (suc (length xs))) 2 true ≡ ok (some (x ∷ xs), io'))
      × IsSingle io'
      × (content io' ≡ rest)
unfolding io_read labs
io_read-crlf io x xs rest v h =
    let bound = ap length h in
    let sum = length-append (x ∷ xs) (crlf ++ rest) in
    let (s, segments, e) = first_segment io (omega (arith, bound, sum)) in
    let n = suc (length xs) in
    let (io', r, c, left) = take_string-ended io (x ∷ xs) crlf rest true v.valid h (omega arith) in
    let all =
      read_loop-take_string io (length xs) 2 true (budget io) 0 n 0 io.pos s segments e
        (omega (arith, in_first io s segments e v.valid)) (omega arith)
        (omega (arith, length-content io s segments e v.valid, bound, sum))
        (budget_gt io s segments e) in
    let z : 0 + n ≡ length (x ∷ xs) = omega arith in
    (
      io',
      with_data-here io s segments e _ ∙ all ∙ ap (λ k. take_string io k 2 true) z ∙ r,
      Consumed-IsSingle v c,
      left,
    )

as_long-small : (n : ℕ) → n < 2 ^ 63 → as_long n ≡ ℤ.pos n
unfolding as_long
as_long-small n h = ground arith

resp_decode_string-Leaves :
    (io : Io) (x : ℕ) (xs rest out : List ℕ)
    → suc (length xs) < 2 ^ 63
    → IsSingle io
    → content io ≡ (x ∷ xs) ++ (crlf ++ rest)
    → (io' : Io) × (resp_decode_string (suc (length xs)) io out
        ≡ ok (string out_buffer, x ∷ xs, io'))
      × IsSingle io'
      × (content io' ≡ rest)
unfolding resp_decode_string
resp_decode_string-Leaves io x xs rest out b v h =
    let (io', r, s, left) = io_read-crlf io x xs rest v h in
    (io', simp (as_long-small (suc (length xs)) b, r), s, left)

module _ (floats : Floats) (shared : List ℕ) where
  string_regroup :
      (xs ds rest : List ℕ)
      → (36 ∷ (ds ++ (crlf ++ (xs ++ crlf)))) ++ rest
        ≡ (36 ∷ ds) ++ (crlf ++ (xs ++ (crlf ++ rest)))
  string_regroup xs ds rest =
      append_assoc (36 ∷ ds) (crlf ++ (xs ++ crlf)) rest
      ∙ ap (λ ys. (36 ∷ ds) ++ (crlf ++ ys)) (append_assoc xs crlf rest)

  -- A bulk string that is not empty, whose message is the next in a stream that has all its bytes in
  -- one segment: the string that is returned is the out buffer, which then holds its bytes.
  pub resp_read-bulk_string :
      (fuel : ℕ) (io : Io) (x : ℕ) (xs out rest : List ℕ)
      → suc (length xs) < 2 ^ 63
      → IsSingle io
      → content io ≡ text floats shared (string (bytes (x ∷ xs))) ++ rest
      → (io' : Io) × (resp_read floats (suc fuel) io out ≡ ok (string out_buffer, x ∷ xs, io'))
        × IsSingle io'
        × (content io' ≡ rest)
  unfolding text resp_dispatch
  resp_read-bulk_string fuel io x xs out rest b s h =
      let n = suc (length xs) in
      let ds = decimal n in
      let (io₁, r₁, s₁, e₁) =
        resp_read_head floats fuel 36 ds ((x ∷ xs) ++ (crlf ++ rest)) io out s
          (refl, decimal-NoCr n) (h ∙ string_regroup (x ∷ xs) ds rest) in
      let (io₂, r₂, s₂, e₂) = resp_decode_string-Leaves io₁ x xs rest (36 ∷ ds) b s₁ e₁ in
      (
        io₂,
        r₁
            ∙ ap (λ k. resp_decode_string k io₁ (36 ∷ ds))
                (resp_parse_length_field-decimal 36 n (omega arith))
            ∙ r₂,
        s₂,
        e₂,
      )

-- Strings that are not empty, and whose lengths fit in a `long`.
unfoldable pub AreBulk : List (List ℕ) → Type 0
AreBulk [] = Unit {0}
AreBulk (xs ∷ xss) = (0 < length xs) × (length xs < 2 ^ 63) × AreBulk xss

-- The array of these strings, and the array of as many references to the out buffer.
unfoldable pub strings : List (List ℕ) → Items
strings [] = no_items
strings (xs ∷ xss) = item (string (bytes xs)) (strings xss)

unfoldable pub references : List (List ℕ) → Items
references [] = no_items
references (xs ∷ xss) = item (string out_buffer) (references xss)

-- The last of the strings, or `xs` where there is none.
unfoldable pub last_of : (xs : List ℕ) → List (List ℕ) → List ℕ
last_of xs [] = xs
last_of xs (ys ∷ xss) = last_of ys xss

module _ (floats : Floats) (shared : List ℕ) where
  strings-Leaves :
      (xss : List (List ℕ)) (fuel : ℕ) (io : Io) (out rest : List ℕ)
      → AreBulk xss
      → IsSingle io
      → content io ≡ text_items floats shared (strings xss) ++ rest
      → (io' : Io) × (resp_decode_array
            (resp_read floats (suc fuel))
            (array_len (strings xss))
            io
            out
          ≡ ok (references xss, last_of out xss, io'))
        × IsSingle io'
        × (content io' ≡ rest)
  unfolding AreBulk strings references last_of resp_decode_array text
  strings-Leaves [] fuel io out rest a s h = (io, refl, s, h)
  strings-Leaves ([] ∷ xss) fuel io out rest a s h = absurd (omega (arith, a.0))
  strings-Leaves ((x ∷ xs) ∷ xss) fuel io out rest a s h =
      let more = text_items floats shared (strings xss) in
      let (io₁, r₁, s₁, e₁) =
        resp_read-bulk_string floats shared fuel io x xs out (more ++ rest) a.1 s
          (h ∙ append_assoc (text floats shared (string (bytes (x ∷ xs)))) more rest) in
      let (io₂, r₂, s₂, e₂) = strings-Leaves xss fuel io₁ (x ∷ xs) rest a.2 s₁ e₁ in
      (io₂, simp (r₁, r₂), s₂, e₂)

  -- An array of strings that are not empty, whose message is the next in a stream that has all its
  -- bytes in one segment: all elements of the array that is returned are the out buffer, which then
  -- holds the bytes of the last string.
  pub resp_read-references :
      (fuel : ℕ) (io : Io) (xss : List (List ℕ)) (out rest : List ℕ)
      → AreBulk xss
      → array_len (strings xss) < 2 ^ 63
      → IsSingle io
      → content io ≡ text floats shared (array (strings xss)) ++ rest
      → (io' : Io) × (resp_read floats (suc (suc fuel)) io out
          ≡ ok (array (references xss), last_of (42 ∷ decimal (array_len (strings xss))) xss, io'))
        × IsSingle io'
        × (content io' ≡ rest)
  unfolding text resp_dispatch
  resp_read-references fuel io xss out rest a b s h =
      let n = array_len (strings xss) in
      let line : List ℕ = 42 ∷ decimal n in
      let body = text_items floats shared (strings xss) in
      let split =
        append_assoc (42 ∷ (decimal n ++ crlf)) body rest
        ∙ regroup floats 42 (decimal n) (body ++ rest) in
      let (io₁, r₁, s₁, e₁) =
        resp_read_head floats (suc fuel) 42 (decimal n) (body ++ rest) io out s
          (refl, decimal-NoCr n) (h ∙ split) in
      let (io₂, r₂, s₂, e₂) = strings-Leaves xss fuel io₁ line rest a s₁ e₁ in
      let wrapped : resp_dispatch (resp_read floats (suc fuel)) floats 42 (decimal n) io₁
          ≡ ok (array (references xss), last_of line xss, io₂) =
        ap
          (λ k. resp_decode_array (resp_read floats (suc fuel)) k io₁ line >>= λ (x, o, z).
            ok (array x, o, z))
          (resp_parse_length_field-decimal 42 n (omega arith))
        ∙ ap (λ x. x >>= λ (y, o, z). ok (array y, o, z)) r₂ in
      (io₂, r₁ ∙ wrapped, s₂, e₂)
