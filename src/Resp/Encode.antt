-- ===== src/Resp/Encode.antt =====
-- `resp_encode` (ext/um/um_io.c), and the text of a message.
use uringmachine.Base.{
  ℕ, suc, ◌^◌, Bool, true, false, ltb, if◌then◌else◌, ℤ, pos, negsuc, List, ◌∷◌, ◌++◌, Outcome, ok,
  raised, cannot_encode, ◌>>=◌,
}
use uringmachine.Resp.Value.{
  contents, Floats, Value, nil, bool, integer, float, string, error, array, hash, other, Items,
  no_items, item, Pairs, no_pairs, pair,
}
use uringmachine.Resp.Number.{decimal, signed}
use uringmachine.Resp.Buffer.{
  WriteBuffer, crlf, write_buffer_append, write_buffer_append_resp_bulk_string,
}

-- RARRAY_LEN and `rb_hash_size_num`.
abbrev pub array_len : Items → ℕ
array_len no_items = 0
array_len (item v vs) = suc (array_len vs)

abbrev pub hash_size : Pairs → ℕ
hash_size no_pairs = 0
hash_size (pair k v ps) = suc (hash_size ps)

-- Whether TYPE gives T_FIXNUM for an Integer, which it does for 63 bits; it is T_BIGNUM else.
abbrev pub is_fixnum : ℤ → Bool
is_fixnum (pos n) = ltb n (2 ^ 62)
is_fixnum (negsuc n) = ltb n (2 ^ 62)

module _ (floats : Floats) (shared : List ℕ) where
  unfoldable mutual
    pub resp_encode : Value → WriteBuffer → Outcome WriteBuffer
    resp_encode nil buf = write_buffer_append buf (95 ∷ crlf)
    resp_encode (bool false) buf = write_buffer_append buf (35 ∷ 102 ∷ crlf)
    resp_encode (bool true) buf = write_buffer_append buf (35 ∷ 116 ∷ crlf)
    resp_encode (integer n) buf =
        if is_fixnum n
        then write_buffer_append buf (58 ∷ (signed n ++ crlf))
        else raised cannot_encode
    resp_encode (float x) buf = write_buffer_append buf (44 ∷ (floats.lg x ++ crlf))
    resp_encode (string s) buf = write_buffer_append_resp_bulk_string buf (contents shared s)
    resp_encode (array vs) buf =
        write_buffer_append buf (42 ∷ (decimal (array_len vs) ++ crlf)) >>= encode_items vs
    resp_encode (hash ps) buf =
        write_buffer_append buf (37 ∷ (decimal (hash_size ps) ++ crlf)) >>= encode_pairs ps
    resp_encode (error s) buf = raised cannot_encode
    resp_encode other buf = raised cannot_encode

    pub encode_items : Items → WriteBuffer → Outcome WriteBuffer
    encode_items no_items buf = ok buf
    encode_items (item v vs) buf = resp_encode v buf >>= encode_items vs

    pub encode_pairs : Pairs → WriteBuffer → Outcome WriteBuffer
    encode_pairs no_pairs buf = ok buf
    encode_pairs (pair k v ps) buf = resp_encode k buf >>= resp_encode v >>= encode_pairs ps
