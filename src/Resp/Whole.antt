-- ===== src/Resp/Whole.antt =====
-- What `resp_encode` writes is what `resp_read` reads (ext/um/um_io.c).
use uringmachine.Base.{ℕ, ◌≤◌, ◌≡◌, sym, ap, ◌∙◌, List, [], ◌++◌, arith, length, Outcome, ok}
use uringmachine.Stream.State.{Io}
use uringmachine.Stream.Content.{content}
use uringmachine.Resp.Value.{
  Floats, Value, nil, bool, integer, float, string, error, array, hash, other, Items, no_items,
  item, Pairs, no_pairs, pair,
}
use uringmachine.Resp.Buffer.{WriteBuffer, page}
use uringmachine.Resp.Encode.{resp_encode}
use uringmachine.Resp.Text.{
  text, IsAmple, CanEncode, CanEncodeItems, CanEncodePairs, resp_encode-text,
}
use uringmachine.Resp.Line.{IsSingle}
use uringmachine.Resp.RoundTrip.{
  IsPlain, ArePlain, ArePairsPlain, size, is_fixnum-IsFixnum, resp_read-text,
}
use uringmachine.Resp.Decode.{resp_read}

mutual
  unfolding IsPlain CanEncode

  plain-CanEncode : (v : Value) → IsPlain v → CanEncode v
  plain-CanEncode nil p = tt
  plain-CanEncode (bool b) p = tt
  plain-CanEncode (integer n) p = is_fixnum-IsFixnum n p
  plain-CanEncode (float x) p = tt
  plain-CanEncode (string s) p = tt
  plain-CanEncode (error s) p = p
  plain-CanEncode (array vs) p = plain-CanEncodeItems vs p.1
  plain-CanEncode (hash ps) p = plain-CanEncodePairs ps p.1
  plain-CanEncode other p = p

  plain-CanEncodeItems : (vs : Items) → ArePlain vs → CanEncodeItems vs
  plain-CanEncodeItems no_items p = tt
  plain-CanEncodeItems (item v vs) p = (plain-CanEncode v p.0, plain-CanEncodeItems vs p.1)

  plain-CanEncodePairs : (ps : Pairs) → ArePairsPlain ps → CanEncodePairs ps
  plain-CanEncodePairs no_pairs p = tt
  plain-CanEncodePairs (pair k v ps) p =
      (plain-CanEncode k p.0, plain-CanEncode v p.1, plain-CanEncodePairs ps p.2)

ok_bytes : (a b : WriteBuffer) → Outcome.ok a ≡ Outcome.ok b → a.bytes ≡ b.bytes
ok_bytes a b e = cc

-- What `resp_encode` writes for an object without strings, errors and floats, with Integers from -2^62
-- to 2^62 - 1, in an empty buffer of a page is read back as the same object, in a stream that has these
-- bytes next and all bytes in one segment; the stream goes on behind them. The message fits in a page,
-- and fuel for the number of objects is enough.
pub resp_read-resp_encode :
    (floats : Floats) (shared : List ℕ) (v : Value) (fuel : ℕ) (buf last : WriteBuffer) (io : Io)
    (out rest : List ℕ)
    → IsPlain v
    → size v ≤ fuel
    → IsAmple buf
    → buf.bytes ≡ []
    → length (text floats shared v) ≤ page
    → resp_encode floats shared v buf ≡ ok last
    → IsSingle io
    → content io ≡ last.bytes ++ rest
    → (out' : List ℕ) × (io' : Io) × (resp_read floats fuel io out ≡ ok (v, out', io'))
      × IsSingle io'
      × (content io' ≡ rest)
resp_read-resp_encode floats shared v fuel buf last io out rest p f a z n r s e =
    let (last', r', b, _) =
      resp_encode-text floats shared v buf (plain-CanEncode v p) a
        (omega (arith, ap length z, n)) in
    let all : last.bytes ≡ text floats shared v =
      ok_bytes last last' (sym r ∙ r') ∙ b ∙ ap (λ xs. xs ++ text floats shared v) z in
    resp_read-text floats shared v fuel io out rest p f s (e ∙ ap (λ xs. xs ++ rest) all)
