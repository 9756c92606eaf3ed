-- ===== src/Resp/Overflow.antt =====
-- Messages that are longer than a page (ext/um/um_io.c).
use uringmachine.Base.{ℕ, ◌+◌, ◌<◌, ◌≡◌, List, arith, length, fault}
use uringmachine.Resp.Buffer.{WriteBuffer, page, write_buffer_expand, store, write_buffer_append}
use uringmachine.Resp.Text.{grow_capa_bounds}

-- The first write that leaves the page of a buffer whose string was empty, whatever its size, goes past
-- the memory of the string: the stored length is still 0, so that Ruby promises one page less than
-- `capa` says.
pub write_buffer_append-fault :
    (buf : WriteBuffer) (xs : List ℕ)
    → buf.str_len ≡ 0
    → buf.capa ≡ page
    → page < length buf.bytes + length xs
    → write_buffer_append buf xs ≡ fault
unfolding write_buffer_append write_buffer_expand store
write_buffer_append-fault buf xs z p h =
    let size = length buf.bytes + length xs in ground (arith, grow_capa_bounds size buf.capa size)
