-- ===== src/Writev.antt =====
-- The vectored write: `um_writev` (ext/um/um.c) and the handling of its iovecs (ext/um/um_utils.c).
pub mod Whole
pub mod Tests
use uringmachine.Base.{
  ℕ, zero, suc, ◌+◌, ◌-◌, ◌<◌, ◌≤◌, ◌≡◌, refl, sym, ap, ◌∙◌, Bool, true, false, List, [], ◌∷◌, ◌++◌,
  Option, none, some, arith, ltb, leb, ◌==◌, is_zero, if◌then◌else◌, Bool-cases, inl, inr, length,
  take, drop, length-append, length-drop, take-append-drop, append-nil, append_assoc, Outcome, ok,
  raised, blocked, fault, os_error, injected, ◌>>=◌, drop-append, drop-append_ge, sub64, leb→le, ℤ,
  pos, int_of_size,
}

-- An iovec is the bytes that it still has.
abbrev pub Iovecs : Type 0
Iovecs = List (List ℕ)

unfoldable pub joined : Iovecs → List ℕ
joined [] = []
joined (v ∷ vs) = v ++ joined vs

-- Past the last iovec the code reads what is not there.
unfoldable pub um_advance_iovecs_for_writing : Iovecs → ℕ → Outcome Iovecs
um_advance_iovecs_for_writing iovecs zero = ok iovecs
um_advance_iovecs_for_writing [] (suc adv) = fault
um_advance_iovecs_for_writing (v ∷ vs) (suc adv) =
    let rest = um_advance_iovecs_for_writing vs (suc adv - length v) in
    if ltb (suc adv) (length v) then ok (drop (suc adv) v ∷ vs) else rest

-- How one write ends: the kernel wrote so many bytes, or it failed, or the fiber is resumed before.
pub data WriteEnd : Type 0 where
  wrote : ℕ → WriteEnd
  failed : WriteEnd
  interrupted : (exception : Bool) → WriteEnd

-- A file offset, `none` for -1.
abbrev pub Offset : Type 0
Offset = Option ℕ

abbrev pub next_offset : Offset → ℕ → Offset
next_offset none n = none
next_offset (some o) n = some (o + n)

-- What the file was given: each write's offset and bytes, newest last, and the returned number, an `int`.
pub record Written : Type 0 where
  pub writes : List (Offset × List ℕ)
  pub result : ℤ

-- The loop: `ends` is how the writes to come end, `len` what is left to write. A fiber that is resumed
-- with no exception returns `total` all the same.
unfoldable pub writev_loop :
    (ends : List WriteEnd) (total : ℕ)
    → Offset
    → Iovecs
    → (len : ℕ) → (writes : List (Offset × List ℕ)) → Outcome Written
unfolding int_of_size
writev_loop [] total offset iovecs len writes = blocked
writev_loop (failed ∷ ends) total offset iovecs len writes = raised os_error
writev_loop (interrupted true ∷ ends) total offset iovecs len writes = raised injected
writev_loop (interrupted false ∷ ends) total offset iovecs len writes =
    ok (record { writes = writes; result = int_of_size total })
writev_loop (wrote n ∷ ends) total offset iovecs len writes =
    let writes' = writes ++ (offset, take n (joined iovecs)) ∷ [] in
    let left = sub64 len n in
    let rest = um_advance_iovecs_for_writing iovecs n >>= λ iovecs'.
    writev_loop ends total (next_offset offset n) iovecs' left writes' in
    if left == 0 then ok (record { writes = writes'; result = int_of_size total }) else rest

-- The buffers are iovecs; with no bytes in them nothing is written.
unfoldable pub um_writev : (ends : List WriteEnd) → Offset → Iovecs → Outcome Written
unfolding joined writev_loop
um_writev ends offset buffers =
    let total = length (joined buffers) in
    if is_zero total
    then ok (record { writes = []; result = pos 0 })
    else writev_loop ends total offset buffers total []
