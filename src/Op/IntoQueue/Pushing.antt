-- ===== src/Op/IntoQueue/Pushing.antt =====
-- The connections of a round are pushed on the queue (ext/um/um.c).
use mathlib.Core.List.{map}
use uringmachine.Base.{
  ℕ, suc, ◌≤◌, ◌≡◌, refl, sym, ap, ◌∙◌, false, List, [], ◌∷◌, ◌++◌, append_assoc, arith, length, ℤ,
  is_neg, is_zero, ok, ◌>>=◌, Bool-cases, inl, inr, append-nil, is_zero_pos, ◌+◌, ◌-◌,
}
use uringmachine.Op.State.{wake_sqe, Core}
use uringmachine.Op.{um_get_sqe}
use uringmachine.Op.Multishot.{all_yielded}
use uringmachine.Op.Accepted.{AreAccepted}
use uringmachine.Op.IntoQueue.{um_submit, um_futex_wake_transient, push_result, push_results}
use uringmachine.Sync.Queue.{Queue, um_queue_push}
use uringmachine.Sync.Queue.Fifo.{IsFifo, contents}
use uringmachine.Sync.Queue.Push.{um_queue_push-contents}

get_sqe-ok :
    (m : Core) (r : ℕ)
    → m.room ≡ suc r
    → um_get_sqe m 0 wake_sqe
      ≡ ok (record m {
        room = m.room - 1;
        sqes = wake_sqe ∷ m.sqes;
        ops_unsubmitted = m.ops_unsubmitted + 1;
      })
unfolding um_get_sqe
get_sqe-ok m r e = simp e

module _ (submit : Core → ℤ) (int2num : ℤ → ℕ)
    (submits : (m : Core) → is_neg (submit m) ≡ false) where
  submit-ok :
      (m : Core)
      → is_zero m.ops_unsubmitted ≡ false
      → um_submit submit m ≡ ok (record m { ops_unsubmitted = 0 })
  unfolding um_submit
  submit-ok m h = let e = submits m in simp (h, e)

  wake-ok :
      (m : Core) (r : ℕ)
      → m.room ≡ suc r
      → (m' : Core) × (um_futex_wake_transient submit m ≡ ok m') × (m'.ops ≡ m.ops) × (m'.room ≡ r)
  unfolding um_futex_wake_transient
  wake-ok m r e =
      let put : Core = record m {
        room = m.room - 1;
        sqes = wake_sqe ∷ m.sqes;
        ops_unsubmitted = m.ops_unsubmitted + 1;
      } in
      (
        record put { ops_unsubmitted = 0 },
        ap (λ x. x >>= um_submit submit) (get_sqe-ok m r e)
            ∙ submit-ok put (is_zero_pos (m.ops_unsubmitted + 1) (omega arith)),
        refl,
        omega arith,
      )

  -- A connection is pushed, with an entry of the submission queue used up where a fiber waits.
  push-ok :
      (m : Core) (q : Queue) (res : ℤ) (r : ℕ)
      → m.room ≡ suc r
      → (m' : Core) × (push_result submit int2num (m, q) res
          ≡ ok (m', um_queue_push q (int2num res)))
        × (m'.ops ≡ m.ops)
        × (r ≤ m'.room)
  unfolding push_result
  push-ok m q res r e = elim (Bool-cases (is_zero q.num_waiters)) [
    | inl z ↦ (m, simp z, refl, omega arith)
    | inr n ↦ let (m', run, same, left) = wake-ok m r e in (m', simp (n, run), same, omega arith)
  ]

  -- The connections of a round, with room in the submission queue for a wake-up for each.
  pub push_results-contents :
      (results : List ℤ) (m : Core) (q : Queue) (live spare : List ℕ)
      → AreAccepted results
      → IsFifo q live spare
      → length results ≤ m.room
      → (m' : Core) × (q' : Queue) × (live' spare' : List ℕ) × (push_results submit int2num results
            (m, q)
          ≡ ok (all_yielded, (m', q')))
        × (m'.ops ≡ m.ops)
        × IsFifo q' live' spare'
        × (contents q' live' ≡ contents q live ++ map int2num results)
  unfolding push_results AreAccepted
  push_results-contents [] m q live spare h v fits =
      (m, q, live, spare, refl, refl, v, sym (append-nil (contents q live)))
  push_results-contents (res ∷ results) m q live spare h v fits =
      let e : m.room ≡ suc (m.room - 1) = omega arith in
      let (m₁, run, same, left) = push-ok m q res (m.room - 1) e in
      let q₁ = um_queue_push q (int2num res) in
      let (live₁, spare₁, v₁, c₁) = um_queue_push-contents q (int2num res) live spare v in
      let (m', q', live', spare', run', same', v', c') =
        push_results-contents results m₁ q₁ live₁ spare₁ h.1 v₁ (omega arith) in
      (
        m',
        q',
        live',
        spare',
        simp (h.0, run, run'),
        same' ∙ same,
        v',
        c'
            ∙ ap (λ xs. xs ++ map int2num results) c₁
            ∙ append_assoc (contents q live) (int2num res ∷ []) (map int2num results),
      )
