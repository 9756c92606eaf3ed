-- ===== src/Writev/Tests.antt =====
-- Vectored writes at concrete inputs.
use uringmachine.Base.{refl, inl, inr, arith, List, [], ◌∷◌, some, length, pos}
use uringmachine.Writev.{Iovecs, joined, WriteEnd, wrote, um_writev}
use uringmachine.Writev.Whole.{Whole, um_writev-Whole}

abbrev buffers : Iovecs
buffers = (1 ∷ 2 ∷ 3 ∷ []) ∷ [] ∷ (4 ∷ 5 ∷ []) ∷ []

abbrev ends : List WriteEnd
ends = wrote 2 ∷ wrote 2 ∷ wrote 1 ∷ []

-- Five bytes in three writes.
um_writev-Whole_example :
    Whole
      (some 10)
      (joined buffers)
      (pos (length (joined buffers)))
      []
      (um_writev ends (some 10) buffers)
unfolding joined
um_writev-Whole_example =
    um_writev-Whole ends (some 10) buffers 4 refl (omega arith)
      (inr (omega arith, inr (omega arith, inl refl)))
