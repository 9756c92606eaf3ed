-- ===== src/Op/Memory.antt =====
-- The buffers that `um_read` and `um_recv` read into, Ruby strings and IO buffers (ext/um/um_utils.c).
use uringmachine.Base.{
  ℕ, ◌+◌, ◌-◌, ◌%◌, ◌^◌, List, [], ◌∷◌, ltb, ◌==◌, is_zero, if◌then◌else◌, length, ℤ, pos, negsuc,
  is_neg, Outcome, ok, raised, fault, internal_error, ◌>>=◌,
}

pub data BufferKind : Type 0 where
  string io_buffer neither : BufferKind

-- The bytes of an object that is read into, by their place, of which the first `len` are its contents
-- and the first `capa` may be written.
pub record ReadBuffer : Type 0 where
  pub kind : BufferKind
  pub memory : ℕ → ℕ
  pub len : ℕ
  pub capa : ℕ

-- A `ssize_t` as a `size_t`.
unfoldable pub as_size : ℤ → ℕ
as_size (pos n) = n % 2 ^ 64
as_size (negsuc n) = 2 ^ 64 - 1 - n

-- `if (ofs < 0) ofs = current_len + ofs + 1`, as a `size_t`.
unfoldable pub place_of : (current_len : ℕ) (ofs : ℤ) → ℕ
unfolding as_size
place_of current_len ofs =
    if is_neg ofs then (current_len + as_size ofs + 1) % 2 ^ 64 else as_size ofs

-- The place at which the kernel is to write. `rb_str_modify_expand` promises `new_len` bytes more than
-- the string's length. `len` is a `size_t`.
unfoldable pub um_prepare_read_buffer : ReadBuffer → (len : ℕ) (ofs : ℤ) → Outcome (ℕ × ReadBuffer)
unfolding place_of
um_prepare_read_buffer buffer len ofs =
    let place = place_of buffer.len ofs in
    let new_len = ((if len == 2 ^ 64 - 1 then buffer.len else len) + place) % 2 ^ 64 in
    elim buffer.kind [
      | string ↦ ok (
        place,
        if ltb buffer.len new_len then record buffer { capa = buffer.len + new_len } else buffer,
      )
      | io_buffer ↦ ok (
        place,
        if ltb buffer.len new_len then record buffer { len = new_len; capa = new_len } else buffer,
      )
      | neither ↦ raised internal_error
    ]

-- What the kernel writes, from a place on.
unfoldable pub deliver : (ℕ → ℕ) → (place : ℕ) → List ℕ → ℕ → ℕ
deliver memory place [] = memory
deliver memory place (x ∷ xs) = deliver (λ i. if i == place then x else memory i) (place + 1) xs

unfoldable pub kernel_writes : ReadBuffer → (place : ℕ) → List ℕ → Outcome ReadBuffer
unfolding deliver
kernel_writes buffer place xs =
    if ltb buffer.capa (place + length xs)
    then fault
    else ok (record buffer { memory = deliver buffer.memory place xs })

-- Lengths are of 32 bits here, and the offset is of 64.
unfoldable pub adjust_read_buffer_len : ReadBuffer → (result : ℤ) (ofs : ℤ) → ReadBuffer
unfolding place_of
adjust_read_buffer_len buffer result ofs =
    let read = if is_neg result then 0 else as_size result % 2 ^ 32 in
    elim buffer.kind [
      | string ↦ record buffer {
        len = (read + place_of (buffer.len % 2 ^ 32) ofs % 2 ^ 32) % 2 ^ 32;
      }
      | io_buffer ↦ buffer
      | neither ↦ buffer
    ]

unfoldable pub um_update_read_buffer : ReadBuffer → (ofs result : ℤ) → ReadBuffer
unfolding adjust_read_buffer_len
um_update_read_buffer buffer ofs result =
    if is_zero (as_size result) then buffer else adjust_read_buffer_len buffer result ofs

-- What the code of `um_read` does to its buffer when the kernel reads `xs`.
unfoldable pub read_into : ReadBuffer → (maxlen : ℕ) (ofs : ℤ) → List ℕ → Outcome ReadBuffer
unfolding um_prepare_read_buffer kernel_writes um_update_read_buffer
read_into buffer maxlen ofs xs = do
  (place, buffer₁) ← um_prepare_read_buffer buffer maxlen ofs
  buffer₂ ← kernel_writes buffer₁ place xs
  ok (um_update_read_buffer buffer₂ ofs (pos (length xs)))
