-- ===== src/Resp/Tests.antt =====
-- Messages at concrete objects.
use uringmachine.Base.{
  ℕ, length, ◌≡◌, refl, sym, arith, true, replicate, append-nil, ap, ◌<◌, [], ◌∷◌, ◌++◌, List, ok,
  fault, pos,
}
use uringmachine.Stream.State.{Io}
use uringmachine.Stream.Content.{content}
use uringmachine.Stream.Tests.{two_segments}
use uringmachine.Resp.Value.{
  out_buffer, Floats, Value, bool, integer, string, array, no_items, item,
}
use uringmachine.Resp.Number.{decimal, digits, signed}
use uringmachine.Resp.Buffer.{WriteBuffer, write_buffer_append}
use uringmachine.Resp.Encode.{resp_encode}
use uringmachine.Resp.Decode.{resp_read}
use uringmachine.Resp.Text.{text, IsAmple}
use uringmachine.Resp.Overflow.{write_buffer_append-fault}
use uringmachine.Resp.Line.{IsSingle}
use uringmachine.Resp.RoundTrip.{IsPlain, size, Leaves}
use uringmachine.Resp.Shared.{
  resp_read-bulk_string, resp_read-references, AreBulk, strings, references, last_of,
}
use uringmachine.Resp.Whole.{resp_read-resp_encode}

-- A C library whose texts of doubles are all empty.
abbrev no_floats : Floats
no_floats = record { strtod = λ xs. 0; lg = λ n. [] }

-- A stream that holds these bytes in one segment.
abbrev stream : List ℕ → Io
stream xs = record two_segments {
  segments = record { bytes = xs; buffer = 0 } ∷ [];
  consumed_bytes = 0;
  pending_bytes = length xs;
  pos = 0;
}

-- A new buffer of a page that has its memory.
abbrev empty : WriteBuffer
empty = record { bytes = []; capa = 4096; str_len = 0; str_capa = 4096 }

empty-IsAmple : IsAmple empty
empty-IsAmple = record { capa = omega arith; str_capa = omega arith }

-- true and nil
abbrev flag_and_number : Value
flag_and_number = array (item (bool true) (item (integer (pos 7)) no_items))

abbrev flag_and_number_text : List ℕ
flag_and_number_text = 42 ∷ 50 ∷ 13 ∷ 10 ∷ 35 ∷ 116 ∷ 13 ∷ 10 ∷ 58 ∷ 55 ∷ 13 ∷ 10 ∷ []

text_test : text no_floats [] flag_and_number ≡ flag_and_number_text
unfolding text decimal digits signed
text_test = refl

encode_test :
    resp_encode no_floats [] flag_and_number empty
    ≡ ok (record { bytes = flag_and_number_text; capa = 4096; str_len = 0; str_capa = 4096 })
unfolding resp_encode write_buffer_append decimal digits signed
encode_test = refl

stream-IsSingle : (xs : List ℕ) → 0 < length xs → IsSingle (stream xs)
stream-IsSingle xs h = record {
  valid = record {
    non_empty = (h, tt);
    within = omega arith;
    pending = ap length (sym (append-nil xs));
  };
  single = omega arith;
}

resp_read-resp_encode_example :
    Leaves flag_and_number
      (58 ∷ [])
      (resp_read no_floats 3 (stream (flag_and_number_text ++ 58 ∷ [])) [])
unfolding IsPlain size text decimal digits signed
resp_read-resp_encode_example =
    resp_read-resp_encode no_floats [] flag_and_number 3 empty
      (record empty { bytes = flag_and_number_text }) (stream (flag_and_number_text ++ 58 ∷ [])) []
      (58 ∷ []) (omega arith, (tt, (omega arith, tt))) (omega arith) empty-IsAmple refl
      (omega arith) encode_test (stream-IsSingle (flag_and_number_text ++ 58 ∷ []) (omega arith))
      refl

write_buffer_append-fault_example :
    write_buffer_append (record empty { bytes = replicate 4096 0 }) (95 ∷ []) ≡ fault
write_buffer_append-fault_example =
    write_buffer_append-fault (record empty { bytes = replicate 4096 0 }) (95 ∷ []) refl refl
      (omega arith)

-- $2 and AB
abbrev bulk : List ℕ
bulk = 36 ∷ 50 ∷ 13 ∷ 10 ∷ 65 ∷ 66 ∷ 13 ∷ 10 ∷ []

resp_read-bulk_string_example :
    (io : Io) × (resp_read no_floats 1 (stream (bulk ++ 58 ∷ [])) []
      ≡ ok (string out_buffer, 65 ∷ 66 ∷ [], io))
    × IsSingle io
    × (content io ≡ 58 ∷ [])
unfolding text decimal digits signed
resp_read-bulk_string_example =
    resp_read-bulk_string no_floats [] 0 (stream (bulk ++ 58 ∷ [])) 65 (66 ∷ []) [] (58 ∷ [])
      (omega arith) (stream-IsSingle (bulk ++ 58 ∷ []) (omega arith)) refl

-- $1 and C
abbrev short_bulk : List ℕ
short_bulk = 36 ∷ 49 ∷ 13 ∷ 10 ∷ 67 ∷ 13 ∷ 10 ∷ []

-- The array of AB and C
abbrev two_strings : List ℕ
two_strings = 42 ∷ 50 ∷ 13 ∷ 10 ∷ (bulk ++ short_bulk)

resp_read-references_example :
    (io : Io) × (resp_read no_floats 2 (stream (two_strings ++ 58 ∷ [])) []
      ≡ ok (array (item (string out_buffer) (item (string out_buffer) no_items)), 67 ∷ [], io))
    × IsSingle io
    × (content io ≡ 58 ∷ [])
unfolding text decimal digits signed strings references AreBulk last_of
resp_read-references_example =
    resp_read-references no_floats [] 0 (stream (two_strings ++ 58 ∷ []))
      ((65 ∷ 66 ∷ []) ∷ (67 ∷ []) ∷ []) [] (58 ∷ [])
      (omega arith, omega arith, (omega arith, omega arith, tt)) (omega arith)
      (stream-IsSingle (two_strings ++ 58 ∷ []) (omega arith)) refl
