-- ===== src/Op/Reading.antt =====
-- `um_read` and `um_recv` of a string, from the completion on (ext/um/um.c).
use uringmachine.Base.{
  ℕ, suc, ◌+◌, ◌^◌, ◌≤◌, ◌<◌, ◌≡◌, sym, ap, ◌∙◌, Bool, true, false, ltb, List, ◌++◌, length, take,
  ℤ, pos, arith, Outcome, ok, ◌>>=◌,
}
use uringmachine.Op.State.{Core}
use uringmachine.Op.{um_op_release}
use uringmachine.Op.Schedule.{um_process_cqe, process_runqueue_op}
use uringmachine.Op.Blocking.{End, returned}
use uringmachine.Op.Steps.{
  Single, Freed, completed, resumed, completed-Completed, resumed-Resumed, process_cqe-completed,
  process_runqueue_op-resumed,
}
use uringmachine.Op.Lifecycle.{resumed_completed_done, resumed_completed-Freed}
use uringmachine.Op.Memory.{
  ReadBuffer, um_prepare_read_buffer, deliver, kernel_writes, um_update_read_buffer, read_into,
}
use uringmachine.Op.Place.{
  IsSound, IsPlace, contents, um_prepare_read_buffer-bounds, read_into-contents,
}
use uringmachine.Op.Await.{Switch, um_verify_op_completion_await}
use uringmachine.Op.Waiting.{finish_read, finish_um_read}

finish_um_read-done :
    (switches : List Switch) (buffer : ReadBuffer) (ofs : ℤ) (value n : ℕ) (is_exception : Bool)
    (m : Core) (a : ℕ)
    → (m.ops a).cqe_done ≡ true
    → (m.ops a).res ≡ pos n
    → finish_um_read switches buffer ofs value is_exception m a
      ≡ ok (returned (pos n), um_update_read_buffer buffer ofs (pos n), um_op_release m a)
unfolding finish_um_read finish_read um_verify_op_completion_await
finish_um_read-done switches buffer ofs value n is_exception m a d r = simp (d, r)

kernel_writes-fits :
    (buffer : ReadBuffer) (place : ℕ) (xs : List ℕ)
    → place + length xs ≤ buffer.capa
    → kernel_writes buffer place xs ≡ ok (record buffer { memory = deliver buffer.memory place xs })
unfolding kernel_writes
kernel_writes-fits buffer place xs h =
    let fits : ltb buffer.capa (place + length xs) ≡ false = ground arith in simp fits

-- What a read of `xs` at a place of the buffer ends with.
pub record ReadsInto (m : Core) (a : ℕ) (buffer : ReadBuffer) (place : ℕ) (xs : List ℕ)
    (r : Outcome (End × ReadBuffer × Core)) : Type 0 where
  pub after : ReadBuffer
  pub last : Core
  pub end : r ≡ ok (returned (pos (length xs)), after, last)
  pub sound : IsSound after
  pub bytes : contents after ≡ take place (contents buffer) ++ xs
  pub freed : Freed m last a
  pub ref_count : (last.ops a).ref_count ≡ 0

-- A read of at least one byte into a string, less than 2^32 of them, whose operation the kernel
-- completes while the fiber waits: the fiber gets the number of bytes, which are in the string from the
-- place that the offset gives, and are its last, nothing is written past its memory, and the operation is freed once.
pub finish_um_read-ReadsInto :
    (switches : List Switch) (buffer : ReadBuffer) (maxlen : ℕ) (ofs : ℤ) (place : ℕ) (xs : List ℕ)
    (m : Core) (k : ℕ) (more : Bool) (value : ℕ) (is_exception : Bool)
    → IsSound buffer
    → place + maxlen < 2 ^ 32
    → IsPlace buffer.len ofs place
    → 0 < length xs
    → length xs ≤ maxlen
    → Single (m.ops (suc k))
    → (m.ops (suc k)).canceled ≡ false
    → (m.ops (suc k)).ref_count ≡ 2
    → ReadsInto m (suc k) buffer place xs (do
      (to, prepared) ← um_prepare_read_buffer buffer maxlen ofs
      written ← kernel_writes prepared to xs
      finish_um_read switches written ofs value is_exception
          (process_runqueue_op
            (um_process_cqe m (record { user_data = suc k; res = pos (length xs); more = more }))
            (suc k)).1
          (suc k))
unfolding read_into
finish_um_read-ReadsInto switches buffer maxlen ofs place xs m k more value is_exception s b h z l
      single c two =
    let a = suc k in
    let n = length xs in
    let res : ℤ = pos n in
    let m₁ = resumed (completed m a res) a in
    let (b₁, r, room, s₁, len, e) =
      um_prepare_read_buffer-bounds buffer maxlen ofs place s (omega arith) h in
    let (after, q, sound, bytes) = read_into-contents buffer maxlen ofs place xs s b h z l in
    let f = resumed_completed-Freed m a res single in
    let done = resumed_completed_done m a res in
    let result = (resumed-Resumed (completed m a res) a).res ∙ (completed-Completed m a res).res in
    let back =
      ap (λ x. (process_runqueue_op x a).1) (process_cqe-completed m k res more single c two)
      ∙ ap (λ x. x.1)
          (process_runqueue_op-resumed (completed m a res) a
            (completed-Completed m a res).ref_count) in
    let b₂ : ReadBuffer = record b₁ { memory = deliver b₁.memory place xs } in
    let fits = kernel_writes-fits b₁ place xs (omega arith) in
    let go : ReadBuffer → Outcome (End × ReadBuffer × Core) = λ w.
      finish_um_read switches w ofs value is_exception
        (process_runqueue_op
          (um_process_cqe m (record { user_data = suc k; res = res; more = more })) a).1
        a in
    let updated : ok (um_update_read_buffer b₂ ofs res) ≡ ok after =
      sym (
        ap
          (λ x.
            x >>= λ (to, w). kernel_writes w to xs >>= λ v. ok (um_update_read_buffer v ofs res))
          r
        ∙ ap (λ x. x >>= λ v. ok (um_update_read_buffer v ofs res)) fits)
      ∙ q in
    record {
      after = after;
      last = um_op_release m₁ a;
      end =
          ap (λ x. x >>= λ (to, w). kernel_writes w to xs >>= go) r
          ∙ ap (λ x. x >>= go) fits
          ∙ ap (λ y. finish_um_read switches b₂ ofs value is_exception y a) back
          ∙ finish_um_read-done switches b₂ ofs value n is_exception m₁ a done result
          ∙ ap (λ x. x >>= λ w. ok (returned res, w, um_op_release m₁ a)) updated;
      sound = sound;
      bytes = bytes;
      freed = f.0;
      ref_count = f.1;
    }
