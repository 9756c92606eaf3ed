-- ===== src/Ssl.antt =====
-- The writes of ext/um/um_ssl.c. `ssl_write` is OpenSSL's SSL_write: it is given the connection, the
-- bytes and their number as an `int`, and returns what the connection becomes.
pub mod Whole
pub mod Tests
use uringmachine.Base.{
  ℕ, zero, suc, ◌+◌, ◌-◌, ◌%◌, ◌^◌, Bool, true, false, List, [], ◌∷◌, ltb, is_zero, ◌||◌,
  if◌then◌else◌, length, drop, sub64, ℤ, pos, negsuc, pos_part, is_neg, Outcome, ok, raised,
  int_of_size, out_of_fuel, write_failed, internal_error, ◌>>=◌,
}

-- What is handed over to be written: the bytes of a string or an IO buffer, or something else.
pub data Source : Type 0 where
  bytes_of : List ℕ → Source
  no_buffer : Source

-- `um_get_buffer_bytes_for_writing` of ext/um/um_utils.c, raising for what is no buffer.
unfoldable pub um_get_buffer_bytes_for_writing : Source → Outcome (List ℕ)
um_get_buffer_bytes_for_writing (bytes_of bytes) = ok bytes
um_get_buffer_bytes_for_writing no_buffer = raised internal_error

-- An `int` as a `size_t`.
unfoldable pub size_of_int : ℤ → ℕ
size_of_int (pos n) = n
size_of_int (negsuc n) = 2 ^ 64 - 1 - n

abbrev pub is_positive : ℤ → Bool
is_positive (pos zero) = false
is_positive (pos (suc n)) = true
is_positive (negsuc n) = false

module _ {ℓ} (Connection : Type ℓ)
    (ssl_write : Connection → List ℕ → (num : ℤ) → ℤ × Connection) where
  -- The loop, with the bytes from `base` on, of which there are `left`.
  unfoldable pub write_loop :
      (fuel : ℕ) → Connection → (base : List ℕ) (left : ℕ) → Outcome Connection
  unfolding int_of_size
  write_loop zero c base left = out_of_fuel
  write_loop (suc fuel) c base left = if is_zero left then ok c else (do
    let (ret, c₁) = ssl_write c base (int_of_size left)
    let rest = write_loop fuel c₁ (drop (pos_part ret) base) (sub64 left (pos_part ret))
    if is_positive ret then rest else raised write_failed)

  -- Each round writes a byte at least.
  unfoldable pub um_ssl_write_all : Connection → Source → Outcome (ℤ × Connection)
  unfolding write_loop um_get_buffer_bytes_for_writing
  um_ssl_write_all c source = do
    bytes ← um_get_buffer_bytes_for_writing source
    c₁ ← write_loop (length bytes + 1) c bytes (length bytes)
    ok (int_of_size (length bytes), c₁)

  -- `total` is a `size_t`.
  unfoldable pub writev_from : (total : ℕ) → Connection → List Source → Outcome (ℤ × Connection)
  unfolding um_ssl_write_all size_of_int
  writev_from total c [] = ok (int_of_size total, c)
  writev_from total c (source ∷ sources) = do
    (n, c₁) ← um_ssl_write_all c source
    writev_from ((total + size_of_int n) % 2 ^ 64) c₁ sources

  unfoldable pub um_ssl_writev : Connection → List Source → Outcome (ℤ × Connection)
  unfolding writev_from
  um_ssl_writev c sources = writev_from 0 c sources

  -- One call, whatever it writes. With no bytes the Ruby value of 0 is returned as an `int`, 1.
  unfoldable pub um_ssl_write_raw : Connection → List ℕ → Outcome (ℤ × Connection)
  unfolding int_of_size
  um_ssl_write_raw c buffer =
      if is_zero (length buffer)
      then ok (pos 1, c)
      else (let (ret, c₁) = ssl_write c buffer (int_of_size (length buffer)) in
          if is_positive ret then ok (ret, c₁) else raised write_failed)

  -- No more than the buffer holds, and than an `int` can tell; `len` 0 stands for all of it.
  unfoldable pub um_ssl_write : Connection → Source → (len : ℕ) → Outcome (ℤ × Connection)
  unfolding int_of_size um_get_buffer_bytes_for_writing
  um_ssl_write c source len = do
    bytes ← um_get_buffer_bytes_for_writing source
    let size = length bytes
    let asked = if is_zero len || ltb size len then size else len
    let num = if ltb (2 ^ 31 - 1) asked then 2 ^ 31 - 1 else asked
    let (ret, c₁) = ssl_write c bytes (int_of_size num)
    if is_zero num
        then ok (pos 1, c)
        else (if is_positive ret then ok (ret, c₁) else raised write_failed)
