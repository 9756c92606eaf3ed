-- ===== src/Ssl/Whole.antt =====
-- Everything is written, however much each call takes (ext/um/um_ssl.c).
use mathlib.Core.List.{map}
use uringmachine.Base.{
  ℕ, zero, suc, ◌+◌, ◌%◌, ◌^◌, ◌<◌, ◌≤◌, ◌≡◌, refl, sym, ap, ◌∙◌, List, [], ◌∷◌, ◌++◌, arith, true,
  length, take, drop, length-append, length-drop, take-append-drop, append_assoc, append-nil, sub64,
  sub64_of_le, ℤ, pos, ok, int_of_short,
}
use uringmachine.Writev.{Iovecs, joined}
use uringmachine.Ssl.{
  bytes_of, um_get_buffer_bytes_for_writing, size_of_int, is_positive, write_loop, um_ssl_write_all,
  writev_from, um_ssl_writev,
}

is_positive_pos : (n : ℕ) → 0 < n → is_positive (pos n) ≡ true
is_positive_pos zero h = absurd (omega arith)
is_positive_pos (suc n) h = refl

module _ {ℓ} (Connection : Type ℓ) (ssl_write : Connection → List ℕ → (num : ℤ) → ℤ × Connection)
    (sent : Connection → List ℕ) where
  -- What SSL_write does where it succeeds: it takes some of the bytes, one at least.
  pub record Takes (c : Connection) (base : List ℕ) (num : ℕ) : Type 0 where
    pub count : ℕ
    pub some_byte : 0 < count
    pub no_more : count ≤ num
    pub ret : (ssl_write c base (pos num)).0 ≡ pos count
    pub taken : sent (ssl_write c base (pos num)).1 ≡ sent c ++ take count base

  module _
      (takes : (c : Connection) (base : List ℕ) (num : ℕ)
        → 0 < num
        → num ≤ length base
        → Takes c base num) where
    loop-sent :
        (fuel : ℕ) (c : Connection) (base : List ℕ)
        → length base < fuel
        → length base < 2 ^ 31
        → (c' : Connection) × (write_loop Connection ssl_write fuel c base (length base) ≡ ok c')
          × (sent c' ≡ sent c ++ base)
    unfolding write_loop
    loop-sent zero c base f h = absurd (omega arith)
    loop-sent (suc fuel) c [] f h = (c, refl, sym (append-nil (sent c)))
    loop-sent (suc fuel) c (x ∷ xs) f h =
        let base : List ℕ = x ∷ xs in
        let t = takes c base (length base) (omega arith) (omega arith) in
        let c₁ = (ssl_write c base (pos (length base))).1 in
        let k = t.count in
        let dropped = length-drop k base in
        let left : sub64 (length base) k ≡ length (drop k base) =
          sub64_of_le (length base) k t.no_more ∙ sym dropped in
        let (c', run, all) =
          loop-sent fuel c₁ (drop k base) (omega (arith, dropped, t.some_byte, f))
            (omega (arith, dropped, h)) in
        let positive = is_positive_pos k t.some_byte in
        let as_int = int_of_short (length base) h in
        (
          c',
          simp (as_int, t.ret, positive, left, run),
          all
              ∙ ap (λ ys. ys ++ drop k base) t.taken
              ∙ append_assoc (sent c) (take k base) (drop k base)
              ∙ ap (λ ys. sent c ++ ys) (take-append-drop k base),
        )

    write_all-sent :
        (c : Connection) (bytes : List ℕ)
        → length bytes < 2 ^ 31
        → (c' : Connection) × (um_ssl_write_all Connection ssl_write c (bytes_of bytes)
            ≡ ok (pos (length bytes), c'))
          × (sent c' ≡ sent c ++ bytes)
    unfolding um_ssl_write_all um_get_buffer_bytes_for_writing
    write_all-sent c bytes h =
        let (c', run, all) = loop-sent (length bytes + 1) c bytes (omega arith) h in
        let as_int = int_of_short (length bytes) h in (c', simp (run, as_int), all)

    from-sent :
        (buffers : Iovecs) (total : ℕ) (c : Connection)
        → total + length (joined buffers) < 2 ^ 31
        → (c' : Connection) × (writev_from Connection ssl_write total c (map bytes_of buffers)
            ≡ ok (pos (total + length (joined buffers)), c'))
          × (sent c' ≡ sent c ++ joined buffers)
    unfolding writev_from size_of_int joined
    from-sent [] total c h =
        let e : total + 0 ≡ total = omega arith in
        let as_int = int_of_short total (omega arith) in
        (c, ap (λ n. ok (n, c)) as_int ∙ ap (λ n. ok (pos n, c)) (sym e), sym (append-nil (sent c)))
    from-sent (b ∷ bs) total c h =
        let both = length-append b (joined bs) in
        let (c₁, run₁, all₁) = write_all-sent c b (omega (arith, both, h)) in
        let next : (total + length b) % 2 ^ 64 ≡ total + length b = omega (arith, both, h) in
        let (c', run, all) = from-sent bs (total + length b) c₁ (omega (arith, both, h)) in
        let sum : total + length b + length (joined bs) ≡ total + length (b ++ joined bs) =
          omega (arith, both) in
        (
          c',
          simp (run₁, next, run, sum),
          all ∙ ap (λ xs. xs ++ joined bs) all₁ ∙ append_assoc (sent c) b (joined bs),
        )

    -- Buffers of less than 2^31 bytes together, on a connection whose SSL_write succeeds and takes some
    -- of the bytes that it is given, one at least: um_ssl_writev ends, all bytes of all buffers are
    -- sent in order, each once, and their number is returned.
    pub um_ssl_writev-sent :
        (buffers : Iovecs) (c : Connection)
        → length (joined buffers) < 2 ^ 31
        → (c' : Connection) × (um_ssl_writev Connection ssl_write c (map bytes_of buffers)
            ≡ ok (pos (length (joined buffers)), c'))
          × (sent c' ≡ sent c ++ joined buffers)
    unfolding um_ssl_writev
    um_ssl_writev-sent buffers c h =
        let n = length (joined buffers) in
        let none : 0 + n ≡ n = omega arith in
        let (c', run, all) = from-sent buffers 0 c (omega arith) in
        (c', run ∙ ap (λ k. ok (pos k, c')) none, all)
