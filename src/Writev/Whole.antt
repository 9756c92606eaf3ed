-- ===== src/Writev/Whole.antt =====
-- A vectored write writes everything (ext/um/um.c, ext/um/um_utils.c).
use uringmachine.Base.{
  ℕ, zero, suc, ◌-◌, ◌<◌, ◌≤◌, ◌≡◌, refl, sym, ap, subst, ◌∙◌, ◌⊎◌, false, List, [], ◌∷◌, ◌++◌,
  arith, ltb, ◌==◌, if◌then◌else◌, Bool-cases, inl, inr, length, take, drop, length-append,
  length-drop, take-append-drop, append_assoc, append-nil, Outcome, ok, drop-append, drop-append_ge,
  sub64, sub64_of_le, take-all, is_zero, ℤ, pos, ◌^◌, int_of_size, int_of_short,
}
use uringmachine.Writev.{
  Iovecs, joined, um_advance_iovecs_for_writing, WriteEnd, wrote, failed, interrupted, Offset,
  next_offset, Written, writev_loop, um_writev,
}

-- Advancing the iovecs by no more bytes than they hold drops these bytes, and reads no iovec past the
-- last.
pub um_advance_iovecs_for_writing-drop :
    (iovecs : Iovecs) (n : ℕ)
    → n ≤ length (joined iovecs)
    → (rest : Iovecs) × (um_advance_iovecs_for_writing iovecs n ≡ ok rest)
      × (joined rest ≡ drop n (joined iovecs))
unfolding um_advance_iovecs_for_writing joined
um_advance_iovecs_for_writing-drop iovecs zero h = (iovecs, refl, refl)
um_advance_iovecs_for_writing-drop [] (suc n) h = absurd (omega arith)
um_advance_iovecs_for_writing-drop (v ∷ vs) (suc n) h = elim (Bool-cases (ltb (suc n) (length v))) [
  | inl e ↦
      let inside : suc n ≤ length v = ground arith in
      (drop (suc n) v ∷ vs, rw e, sym (drop-append (suc n) v (joined vs) inside))
  | inr e ↦
      let past : length v ≤ suc n = ground arith in
      let r =
        um_advance_iovecs_for_writing-drop vs (suc n - length v)
          (omega (arith, h, length-append v (joined vs))) in
      (r.0, simp (e, r.1), r.2 ∙ sym (drop-append_ge (suc n) v (joined vs) past))
]

-- The writes are successful and none writes more than is left, up to one that writes the rest.
abbrev pub Splits : ℕ → List WriteEnd → Type 0
Splits n [] = n < n
Splits n (wrote k ∷ ends) = (k ≡ n) ⊎ ((k < n) × Splits (n - k) ends)
Splits n (failed ∷ ends) = n < n
Splits n (interrupted e ∷ ends) = n < n

-- What was written, in order.
abbrev pub bytes : List (Offset × List ℕ) → List ℕ
bytes [] = []
bytes (w ∷ ws) = w.1 ++ bytes ws

-- Each write begins where the one before it ended.
abbrev pub Contiguous : Offset → List (Offset × List ℕ) → Type 0
Contiguous o [] = Unit {0}
Contiguous o (w ∷ ws) = (w.0 ≡ o) × Contiguous (next_offset o (length w.1)) ws

-- All bytes are written in order, each at its place, and their number is returned.
pub record Whole (offset : Offset) (content : List ℕ) (result : ℤ) (before : List (Offset × List ℕ))
    (r : Outcome Written) : Type 0 where
  pub writes : List (Offset × List ℕ)
  pub end : r ≡ ok (record { writes = before ++ writes; result = result })
  pub all : bytes writes ≡ content
  pub contiguous : Contiguous offset writes

take_all_of : (n : ℕ) (xs : List ℕ) → n ≡ length xs → take n xs ≡ xs
take_all_of n xs e = ap (λ k. take k xs) e ∙ take-all xs

length-take_of : (n : ℕ) (xs : List ℕ) → n ≤ length xs → length (take n xs) ≡ n
length-take_of n xs h =
    let e = length-append (take n xs) (drop n xs) in
    let f = ap length (take-append-drop n xs) in omega (arith, e, f, h, length-drop n xs)

writev_loop-Whole :
    (ends : List WriteEnd) (total : ℕ) (offset : Offset) (iovecs : Iovecs) (len : ℕ)
    (before : List (Offset × List ℕ))
    → len ≡ length (joined iovecs)
    → Splits len ends
    → Whole offset
        (joined iovecs)
        (int_of_size total)
        before
        (writev_loop ends total offset iovecs len before)
unfolding writev_loop
writev_loop-Whole [] total offset iovecs len before e s = absurd (omega (arith, s))
writev_loop-Whole (failed ∷ ends) total offset iovecs len before e s = absurd (omega (arith, s))
writev_loop-Whole (interrupted x ∷ ends) total offset iovecs len before e s =
    absurd (omega (arith, s))
writev_loop-Whole (wrote n ∷ ends) total offset iovecs len before e (inl last) =
    let left : sub64 len n ≡ 0 = omega (arith, last, sub64_of_le len n (omega (arith, last))) in
    record {
      writes = (offset, take n (joined iovecs)) ∷ [];
      end = simp left;
      all = append-nil (take n (joined iovecs)) ∙ take_all_of n (joined iovecs) (last ∙ e);
      contiguous = (refl, tt);
    }
writev_loop-Whole (wrote n ∷ ends) total offset iovecs len before e (inr (less, s)) =
    let a = um_advance_iovecs_for_writing-drop iovecs n (omega (arith, less, e)) in
    let left = sub64_of_le len n (omega (arith, less)) in
    let more : (len - n == 0) ≡ false = ground (arith, less) in
    let w : Offset × List ℕ = (offset, take n (joined iovecs)) in
    let i =
      writev_loop-Whole ends total (next_offset offset n) a.0 (len - n) (before ++ w ∷ [])
        (omega (arith, less, e, ap length a.2, length-drop n (joined iovecs))) s in
    let run : writev_loop (wrote n ∷ ends) total offset iovecs len before
        ≡ writev_loop ends total (next_offset offset n) a.0 (len - n) (before ++ w ∷ []) =
      simp (left, more, a.1) in
    record {
      writes = w ∷ i.writes;
      end =
          run
          ∙ i.end
          ∙ ap (λ x. ok (record { writes = x; result = int_of_size total }))
              (append_assoc before (w ∷ []) i.writes);
      all =
          ap (λ x. take n (joined iovecs) ++ x) (i.all ∙ a.2) ∙ take-append-drop n (joined iovecs);
      contiguous = (
        refl,
        subst (λ k. Contiguous (next_offset offset k) i.writes)
            (sym (length-take_of n (joined iovecs) (omega (arith, less, e)))) i.contiguous,
      );
    }

-- A vectored write of at least one byte and less than 2^31 bytes, whatever the sizes of its partial
-- writes: when each write is successful and writes no more than is left, the file is given all bytes
-- of all buffers in order, each write at the offset where the one before it ended, and the total length
-- is returned.
pub um_writev-Whole :
    (ends : List WriteEnd) (offset : Offset) (buffers : Iovecs) (n : ℕ)
    → length (joined buffers) ≡ suc n
    → length (joined buffers) < 2 ^ 31
    → Splits (length (joined buffers)) ends
    → Whole offset
        (joined buffers)
        (pos (length (joined buffers)))
        []
        (um_writev ends offset buffers)
unfolding um_writev
um_writev-Whole ends offset buffers n e short s =
    let total = length (joined buffers) in
    subst
      (λ b. Whole offset (joined buffers) (pos total) [] (
        if b
        then ok (record { writes = []; result = pos 0 })
        else writev_loop ends total offset buffers total []))
      (sym (ap is_zero e))
      (subst
        (λ x. Whole offset (joined buffers) x [] (writev_loop ends total offset buffers total []))
        (int_of_short total short) (writev_loop-Whole ends total offset buffers total [] refl s))
