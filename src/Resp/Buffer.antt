-- ===== src/Resp/Buffer.antt =====
-- `struct um_write_buffer` (ext/um/um.h), a Ruby string that is written to directly, and its
-- operations (ext/um/um_io.c).
use uringmachine.Base.{
  ℕ, zero, suc, ◌+◌, ◌-◌, List, [], ◌∷◌, ◌++◌, ltb, if◌then◌else◌, length, Outcome, ok, fault,
}
use uringmachine.Resp.Number.{decimal}

-- `bytes` are the first `len` bytes of the string's memory. `str_len` is the length that Ruby has
-- stored for the string, and `str_capa` the bytes that its calls promise to have allocated: a write
-- past them is a `fault`.
pub record WriteBuffer : Type 0 where
  pub bytes : List ℕ
  pub capa : ℕ
  pub str_len : ℕ
  pub str_capa : ℕ

abbrev pub page : ℕ
page = 4096

-- `while (capa < size) capa += 1 << 12`; as many rounds as bytes are enough.
unfoldable pub grow_capa : (rounds capa size : ℕ) → ℕ
grow_capa zero capa size = capa
grow_capa (suc rounds) capa size =
    let rest = grow_capa rounds (capa + page) size in if ltb capa size then rest else capa

-- `rb_str_resize(str, capa)` promises `capa` bytes.
unfoldable pub write_buffer_init : List ℕ → WriteBuffer
unfolding grow_capa
write_buffer_init str =
    let capa = grow_capa (length str) page (length str) in
    record { bytes = str; capa = capa; str_len = length str; str_capa = capa }

-- `rb_str_modify_expand(str, n)` promises `n` bytes more than the stored length of the string.
unfoldable pub write_buffer_expand : WriteBuffer → (newsize : ℕ) → WriteBuffer
unfolding grow_capa
write_buffer_expand buf newsize =
    let capa = grow_capa newsize buf.capa newsize in
    if ltb buf.capa newsize
    then record buf { capa = capa; str_capa = buf.str_len + (capa - buf.capa) }
    else buf

-- Writes behind what is there.
unfoldable pub store : WriteBuffer → List ℕ → Outcome WriteBuffer
store buf xs =
    if ltb buf.str_capa (length buf.bytes + length xs)
    then fault
    else ok (record buf { bytes = buf.bytes ++ xs })

unfoldable pub write_buffer_append : WriteBuffer → List ℕ → Outcome WriteBuffer
unfolding write_buffer_expand store
write_buffer_append buf xs = store (write_buffer_expand buf (length buf.bytes + length xs)) xs

abbrev pub crlf : List ℕ
crlf = 13 ∷ 10 ∷ []

unfoldable pub write_buffer_append_resp_bulk_string : WriteBuffer → List ℕ → Outcome WriteBuffer
unfolding write_buffer_expand store decimal
write_buffer_append_resp_bulk_string buf str =
    store (write_buffer_expand buf (length buf.bytes + length str + 16))
      (36 ∷ (decimal (length str) ++ (crlf ++ (str ++ crlf))))
