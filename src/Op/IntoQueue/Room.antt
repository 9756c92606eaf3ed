-- ===== src/Op/IntoQueue/Room.antt =====
-- Completions and switches (ext/um/um.c) take no entry of the submission queue.
use uringmachine.Base.{
  ℕ, ◌≡◌, ◌∙◌, Bool, true, false, refl, List, [], ◌∷◌, ◌++◌, ◌||◌, ltb, not, ℤ, arith, is_zero,
  if◌then◌else◌, sub32,
}
use uringmachine.Op.State.{Core, Cqe, modify}
use uringmachine.Op.{um_op_release, um_op_free, um_op_transient_remove, um_runqueue_push}
use uringmachine.Op.Schedule.{
  set_flags, complete, um_schedule_op, complete_transient, complete_multishot, complete_single,
  complete_op, um_process_cqe, um_process_ready_cqes, process_runqueue_op,
}

if-room : (b : Bool) (x y : Core) (r : ℕ) → x.room ≡ r → y.room ≡ r → (if b then x else y).room ≡ r
if-room true x y r h k = h
if-room false x y r h k = k

release-room : (m : Core) (a : ℕ) → (um_op_release m a).room ≡ m.room
unfolding um_op_release um_op_free
release-room m a = ground arith

push-room : (m : Core) (a : ℕ) → (um_runqueue_push m a).room ≡ m.room
unfolding um_runqueue_push
push-room m a = ground arith

schedule_op-room : (m : Core) (a : ℕ) → (um_schedule_op m a).room ≡ m.room
unfolding um_schedule_op
schedule_op-room m a = push-room _ a

transient_remove-room : (m : Core) (a : ℕ) → (um_op_transient_remove m a).room ≡ m.room
unfolding um_op_transient_remove
transient_remove-room m a = ground arith

complete_transient-room : (m : Core) (a : ℕ) (res : ℤ) → (complete_transient m a res).room ≡ m.room
unfolding complete_transient
complete_transient-room m a res =
    let m₁ = um_op_transient_remove (record m { ops_pending = sub32 m.ops_pending 1 }) a in
    let h = transient_remove-room (record m { ops_pending = sub32 m.ops_pending 1 }) a in
    release-room _ a
    ∙ if-room (ltb 1 (m₁.ops a).ref_count)
        (modify m₁ a (λ op. record op { res = res; flags = complete op.flags })) m₁ m.room h h

complete_multishot-room :
    (m : Core) (a : ℕ) (res : ℤ) (done : Bool) → (complete_multishot m a res done).room ≡ m.room
unfolding complete_multishot
complete_multishot-room m a res done =
    let m₁ : Core = modify m a (λ op. record op {
      results = op.results ++ res ∷ [];
      flags = if done then complete op.flags else record (op.flags) { cqe_seen = true };
    }) in
    if-room ((m₁.ops a).scheduled || (m₁.ops a).async) m₁ (um_schedule_op m₁ a) m.room refl
      (schedule_op-room m₁ a)

complete_single-room : (m : Core) (a : ℕ) (res : ℤ) → (complete_single m a res).room ≡ m.room
unfolding complete_single
complete_single-room m a res =
    let m₁ : Core = modify m a (λ op. record op { res = res; flags = complete op.flags }) in
    if-room (m₁.ops a).async m₁ (um_schedule_op m₁ a) m.room refl (schedule_op-room m₁ a)

complete_op-room :
    (m : Core) (a : ℕ) (res : ℤ) (multishot done : Bool)
    → (complete_op m a res multishot done).room ≡ m.room
unfolding complete_op
complete_op-room m a res multishot done =
    if-room (m.ops a).canceled (if done then um_op_release (set_flags m a complete) a else m)
      (if multishot then complete_multishot m a res done else complete_single m a res) m.room
      (if-room done (um_op_release (set_flags m a complete) a) m m.room (release-room _ a) refl)
      (if-room multishot (complete_multishot m a res done) (complete_single m a res) m.room
        (complete_multishot-room m a res done) (complete_single-room m a res))

pub process_cqe-room : (m : Core) (cqe : Cqe) → (um_process_cqe m cqe).room ≡ m.room
unfolding um_process_cqe
process_cqe-room m cqe =
    let a = cqe.user_data in
    let op = m.ops a in
    let done = if op.multishot then not cqe.more else true in
    let m₁ =
      if done then um_op_release (record m { ops_pending = sub32 m.ops_pending 1 }) a else m in
    let rest = complete_op m₁ a cqe.res op.multishot done in
    let h : rest.room ≡ m.room =
      complete_op-room m₁ a cqe.res op.multishot done
      ∙ if-room done (um_op_release (record m { ops_pending = sub32 m.ops_pending 1 }) a) m m.room
          (release-room _ a) refl in
    if-room (is_zero a) m (if op.transient then complete_transient m a cqe.res else rest) m.room
      refl
      (if-room op.transient (complete_transient m a cqe.res) rest m.room
        (complete_transient-room m a cqe.res) h)

pub process_ready_cqes-room :
    (m : Core) (cqes : List Cqe) → (um_process_ready_cqes m cqes).room ≡ m.room
unfolding um_process_ready_cqes
process_ready_cqes-room m [] = refl
process_ready_cqes-room m (cqe ∷ cqes) =
    process_ready_cqes-room (um_process_cqe m cqe) cqes ∙ process_cqe-room m cqe

pub process_runqueue_op-room : (m : Core) (a : ℕ) → (process_runqueue_op m a).1.room ≡ m.room
unfolding process_runqueue_op
process_runqueue_op-room m a = release-room _ a
