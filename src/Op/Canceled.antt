-- ===== src/Op/Canceled.antt =====
-- A blocking call that is given up because its fiber is resumed before the operation completes, and
-- the completion that comes afterwards (ext/um/um.c).
use uringmachine.Base.{
  ℕ, suc, ◌+◌, ◌-◌, ◌^◌, ◌≡◌, refl, sym, ap, subst, ◌∙◌, Bool, true, false, if◌then◌else◌, ℤ, ◌∷◌,
  ok, sub32_none, sub32_last, ◌>>=◌,
}
use uringmachine.Op.State.{Op, cancel_sqe, Core, modify}
use uringmachine.Op.{um_op_release, um_op_free, um_get_sqe}
use uringmachine.Op.Schedule.{
  complete, set_flags, um_process_cqe, complete_op, um_cancel_op, um_cancel_op_and_discard_cqe,
}
use uringmachine.Op.Blocking.{
  um_verify_op_completion, Verified, finish, finish_op, raised_value, resumed_with,
}
use uringmachine.Op.Steps.{
  here, Single, Freed, release_last, release_shared, process_cqe-alone, pending_less, one_reference,
}

-- A cancellation is put on the submission queue.
asked : Core → ℕ → Core
asked m a = record m {
  room = m.room - 1;
  sqes = cancel_sqe a ∷ m.sqes;
  ops_unsubmitted = m.ops_unsubmitted + 1;
}

as_canceled : Op → Op
as_canceled op = record op { flags = record (op.flags) { canceled = true } }

cancel-asked :
    (m : Core) (a r : ℕ)
    → m.room ≡ suc r
    → um_cancel_op_and_discard_cqe m a ≡ ok (modify (asked m a) a as_canceled)
unfolding um_cancel_op_and_discard_cqe um_cancel_op um_get_sqe asked as_canceled
cancel-asked m a r e = simp e

-- The machine behind a call whose fiber was resumed before the operation completed.
given_up : Core → ℕ → Core
unfolding asked as_canceled
given_up m a = modify (modify (asked m a) a as_canceled) a one_reference

verify-not_done :
    (m : Core) (a r : ℕ)
    → m.room ≡ suc r
    → (m.ops a).cqe_done ≡ false
    → um_verify_op_completion m a ≡ ok (Verified.not_done, modify (asked m a) a as_canceled)
unfolding um_verify_op_completion asked as_canceled
verify-not_done m a r e d = simp (d, cancel-asked m a r e)

finish-given_up :
    (give : ℤ → ℤ) (value : ℕ) (is_exception : Bool) (m : Core) (a r : ℕ)
    → m.room ≡ suc r
    → (m.ops a).cqe_done ≡ false
    → (m.ops a).ref_count ≡ 2
    → finish_op give value is_exception m a
      ≡ ok (if is_exception then raised_value else resumed_with value, given_up m a)
unfolding finish_op finish given_up asked as_canceled one_reference
finish-given_up give value is_exception m a r e d two =
    let m₁ = modify (asked m a) a as_canceled in
    let end = if is_exception then raised_value else resumed_with value in
    ap (λ v. v >>= finish give end a) (verify-not_done m a r e d)
    ∙ ap (λ x. ok (end, x))
        (release_shared m₁ a (ap (λ o. o.ref_count) (here (asked m a) a as_canceled) ∙ two))

-- The last release, with what it leaves written out.
unfoldable pub gone : Core → ℕ → Core
gone m a = um_op_free (modify m a (λ op. record op { ref_count = 0 })) a

pub gone_op :
    (m : Core) (a : ℕ) → (gone m a).ops a ≡ record (m.ops a) { ref_count = 0; next = m.op_freelist }
unfolding gone um_op_free
gone_op m a =
    let m₁ = modify m a (λ op. record op { ref_count = 0 }) in
    here m₁ a (λ op. record op { next = m.op_freelist })
    ∙ ap {A = Op} (λ op. record op { next = m.op_freelist })
        (here m a (λ op. record op { ref_count = 0 }))

pub release_none :
    (m : Core) (a : ℕ)
    → (m.ops a).ref_count ≡ 0
    → um_op_release m a ≡ modify m a (λ op. record op { ref_count = 2 ^ 32 - 1 })
unfolding um_op_release
release_none m a e = simp (e, sub32_none)

pub release-gone :
    (m : Core) (a : ℕ)
    → (m.ops a).multishot ≡ false
    → (m.ops a).free_iovecs ≡ false
    → (m.ops a).ref_count ≡ 1
    → um_op_release m a ≡ gone m a
unfolding um_op_release gone
release-gone m a s i e = simp (e, sub32_last, s, i)

canceled_op :
    (m : Core) (a : ℕ) (res : ℤ)
    → (m.ops a).canceled ≡ true
    → complete_op m a res false true ≡ um_op_release (set_flags m a complete) a
unfolding complete_op
canceled_op m a res e = simp e

-- Behind the completion of a canceled operation.
discarded : Core → ℕ → Core
discarded m a =
    modify (set_flags (gone (pending_less m) a) a complete) a
      (λ op. record op { ref_count = 2 ^ 32 - 1 })

process_cqe-discarded :
    (m : Core) (n : ℕ) (res : ℤ) (more : Bool)
    → Single (m.ops (suc n))
    → (m.ops (suc n)).canceled ≡ true
    → (m.ops (suc n)).ref_count ≡ 1
    → um_process_cqe m (record { user_data = suc n; res = res; more = more }) ≡ discarded m (suc n)
unfolding pending_less discarded gone
process_cqe-discarded m n res more s c e =
    let a = suc n in
    let m₁ = gone (pending_less m) a in
    let op = gone_op (pending_less m) a in
    process_cqe-alone m n res more s
    ∙ ap (λ x. complete_op x a res false true) (release_last (pending_less m) a e s)
    ∙ canceled_op m₁ a res (ap (λ o. o.canceled) op ∙ c)
    ∙ release_none (set_flags m₁ a complete) a (
        ap (λ o. o.ref_count) (here m₁ a (λ o. record o { flags = complete o.flags }))
        ∙ ap (λ o. o.ref_count) op)

-- The operation is freed once and the run queue left alone; its reference count has gone below 0.
pub record Discarded (m m' : Core) (a : ℕ) : Type 0 where
  pub freed : Freed m m' a
  pub runqueue_head : m'.runqueue_head ≡ m.runqueue_head
  pub ops_runqueue : m'.ops_runqueue ≡ m.ops_runqueue
  pub ref_count : (m'.ops a).ref_count ≡ 2 ^ 32 - 1

discarded-Discarded : (m : Core) (a : ℕ) → Discarded m (discarded m a) a
unfolding discarded pending_less gone um_op_free
discarded-Discarded m a =
    let m₁ = gone (pending_less m) a in
    let h = here (set_flags m₁ a complete) a (λ op. record op { ref_count = 2 ^ 32 - 1 }) in
    let k = here m₁ a (λ o. record o { flags = complete o.flags }) in
    record {
      freed = record {
        head = refl;
        next =
            ap (λ o. o.next) h ∙ ap (λ o. o.next) k ∙ ap (λ o. o.next) (gone_op (pending_less m) a);
        ops_free = refl;
      };
      runqueue_head = refl;
      ops_runqueue = refl;
      ref_count = ap (λ o. o.ref_count) h;
    }

-- A blocking call whose fiber is resumed before the operation completes.
pub record GivesUp (m : Core) (a : ℕ) (res : ℤ) (more : Bool) (give : ℤ → ℤ) (value : ℕ)
    (is_exception : Bool) : Type 0 where
  pub left : Core
  pub end :
      finish_op give value is_exception m a
      ≡ ok (if is_exception then raised_value else resumed_with value, left)
  pub sqes : left.sqes ≡ cancel_sqe a ∷ m.sqes
  pub held : (left.ops a).ref_count ≡ 1
  pub op_freelist : left.op_freelist ≡ m.op_freelist
  pub discarded :
      Discarded left (um_process_cqe left (record { user_data = a; res = res; more = more })) a

given_up_op :
    (m : Core) (a : ℕ)
    → (given_up m a).ops a
      ≡ record (m.ops a) { flags = record ((m.ops a).flags) { canceled = true }; ref_count = 1 }
unfolding given_up asked as_canceled one_reference
given_up_op m a =
    here (modify (asked m a) a as_canceled) a one_reference
    ∙ ap one_reference (here (asked m a) a as_canceled)

given_up-Single : (m : Core) (a : ℕ) → Single (m.ops a) → Single ((given_up m a).ops a)
given_up-Single m a s =
    let op = given_up_op m a in
    record {
      multishot = ap (λ o. o.multishot) op ∙ s.multishot;
      async = ap (λ o. o.async) op ∙ s.async;
      transient = ap (λ o. o.transient) op ∙ s.transient;
      free_iovecs = ap (λ o. o.free_iovecs) op ∙ s.free_iovecs;
    }

-- A single-shot operation with two references that is not done when its fiber is resumed, with room
-- for one more entry in the submission queue: the call puts a cancellation there, and raises the exception or returns the value that the
-- fiber was resumed with; the operation stays allocated until its completion comes, which frees it
-- once and resumes nobody. The freed operation's reference count is then 2^32 - 1: it is released
-- once more than it has references.
pub finish_op-GivesUp :
    (m : Core) (n r : ℕ) (res : ℤ) (more : Bool) (give : ℤ → ℤ) (value : ℕ) (is_exception : Bool)
    → Single (m.ops (suc n))
    → (m.ops (suc n)).cqe_done ≡ false
    → (m.ops (suc n)).ref_count ≡ 2
    → m.room ≡ suc r
    → GivesUp m (suc n) res more give value is_exception
unfolding given_up asked
finish_op-GivesUp m n r res more give value is_exception s d e room =
    let a = suc n in
    let op = given_up_op m a in
    record {
      left = given_up m a;
      end = finish-given_up give value is_exception m a r room d e;
      sqes = refl;
      held = ap (λ o. o.ref_count) op;
      op_freelist = refl;
      discarded =
          subst (λ x. Discarded (given_up m a) x a)
            (sym (
              process_cqe-discarded (given_up m a) n res more (given_up-Single m a s)
                (ap (λ o. o.canceled) op) (ap (λ o. o.ref_count) op)))
            (discarded-Discarded (given_up m a) a);
    }
