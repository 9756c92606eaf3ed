-- ===== src/Op/Listening.antt =====
-- A multishot operation while completions come in (ext/um/um.c).
use uringmachine.Base.{
  ℕ, suc, ◌+◌, ◌≡◌, refl, sym, ap, subst, ◌∙◌, Bool, true, false, not, List, [], ◌∷◌, ◌++◌, arith,
  eq_refl, ℤ, sub32, sub32_of_le, sub32_two, if◌then◌else◌,
}
use uringmachine.Op.State.{Op, Core, modify}
use uringmachine.Op.{um_op_release, um_runqueue_push}
use uringmachine.Op.Schedule.{
  complete, set_flags, um_schedule_op, complete_multishot, complete_op, um_process_cqe,
}
use uringmachine.Op.Steps.{here, pending_less}

-- A multishot operation that its fiber waits for.
pub record IsListening (op : Op) (seen done scheduled : Bool) (list : List ℤ) (refs : ℕ)
    : Type 0 where
  pub multishot : op.multishot ≡ true
  pub transient : op.transient ≡ false
  pub async : op.async ≡ false
  pub canceled : op.canceled ≡ false
  pub seen_flag : op.cqe_seen ≡ seen
  pub done_flag : op.cqe_done ≡ done
  pub scheduled_flag : op.scheduled ≡ scheduled
  pub results : op.results ≡ list
  pub ref_count : op.ref_count ≡ refs

push-results : (m : Core) (a : ℕ) → ((um_runqueue_push m a).ops a).results ≡ (m.ops a).results
unfolding um_runqueue_push
push-results m a = ground (arith, eq_refl a)

push-flags : (m : Core) (a : ℕ) → ((um_runqueue_push m a).ops a).flags ≡ (m.ops a).flags
unfolding um_runqueue_push
push-flags m a = ground (arith, eq_refl a)

push-ref_count : (m : Core) (a : ℕ) → ((um_runqueue_push m a).ops a).ref_count ≡ (m.ops a).ref_count
unfolding um_runqueue_push
push-ref_count m a = ground (arith, eq_refl a)

schedule-IsListening :
    (m : Core) (a : ℕ) (seen done : Bool) (list : List ℤ) (refs : ℕ)
    → IsListening (m.ops a) seen done false list refs
    → IsListening ((um_schedule_op m a).ops a) seen done true list (refs + 1)
unfolding um_schedule_op
schedule-IsListening m a seen done list refs l =
    let m₁ = set_flags m a (λ f. record f { scheduled = true }) in
    let h = here (um_runqueue_push m₁ a) a (λ op. record op { ref_count = op.ref_count + 1 }) in
    let k = here m a (λ op. record op { flags = record (op.flags) { scheduled = true } }) in
    let f = ap (λ o. o.flags) h ∙ push-flags m₁ a ∙ ap (λ o. o.flags) k in
    record {
      multishot = ap (λ x. x.multishot) f ∙ l.multishot;
      transient = ap (λ x. x.transient) f ∙ l.transient;
      async = ap (λ x. x.async) f ∙ l.async;
      canceled = ap (λ x. x.canceled) f ∙ l.canceled;
      seen_flag = ap (λ x. x.cqe_seen) f ∙ l.seen_flag;
      done_flag = ap (λ x. x.cqe_done) f ∙ l.done_flag;
      scheduled_flag = ap (λ x. x.scheduled) f;
      results = ap (λ o. o.results) h ∙ push-results m₁ a ∙ ap (λ o. o.results) k ∙ l.results;
      ref_count =
          ap (λ o. o.ref_count) h
          ∙ ap (λ n. n + 1) (push-ref_count m₁ a ∙ ap (λ o. o.ref_count) k ∙ l.ref_count);
    }

process-more :
    (m : Core) (n : ℕ) (res : ℤ) (more : Bool)
    → (m.ops (suc n)).transient ≡ false
    → (m.ops (suc n)).multishot ≡ true
    → um_process_cqe m (record { user_data = suc n; res = res; more = more })
      ≡ complete_op
          (if not more then um_op_release (pending_less m) (suc n) else m)
          (suc n)
          res
          true
          (not more)
unfolding um_process_cqe pending_less
process-more m n res more t k = simp (t, k)

complete_op-multishot :
    (m : Core) (a : ℕ) (res : ℤ) (done : Bool)
    → (m.ops a).canceled ≡ false
    → complete_op m a res true done ≡ complete_multishot m a res done
unfolding complete_op
complete_op-multishot m a res done c = simp c

-- A result is added; `done` with the last.
add_result : ℤ → Bool → Op → Op
add_result res done op = record op {
  results = op.results ++ res ∷ [];
  flags = if done then complete op.flags else record (op.flags) { cqe_seen = true };
}

complete_multishot-scheduled :
    (m : Core) (a : ℕ) (res : ℤ) (done : Bool)
    → (m.ops a).scheduled ≡ true
    → complete_multishot m a res done ≡ modify m a (add_result res done)
unfolding complete_multishot add_result
complete_multishot-scheduled m a res true s = simp (s, eq_refl a)
complete_multishot-scheduled m a res false s = simp (s, eq_refl a)

complete_multishot-idle :
    (m : Core) (a : ℕ) (res : ℤ) (done : Bool)
    → (m.ops a).scheduled ≡ false
    → (m.ops a).async ≡ false
    → complete_multishot m a res done ≡ um_schedule_op (modify m a (add_result res done)) a
unfolding complete_multishot add_result
complete_multishot-idle m a res true s k = simp (s, k, eq_refl a)
complete_multishot-idle m a res false s k = simp (s, k, eq_refl a)

add-IsListening :
    (op : Op) (res : ℤ) (seen done scheduled : Bool) (list : List ℤ) (refs : ℕ)
    → IsListening op seen false scheduled list refs
    → IsListening (add_result res done op) true done scheduled (list ++ res ∷ []) refs
unfolding add_result
add-IsListening op res seen true scheduled list refs l = record {
  multishot = l.multishot;
  transient = l.transient;
  async = l.async;
  canceled = l.canceled;
  seen_flag = refl;
  done_flag = refl;
  scheduled_flag = l.scheduled_flag;
  results = ap (λ xs. xs ++ res ∷ []) l.results;
  ref_count = l.ref_count;
}
add-IsListening op res seen false scheduled list refs l = record {
  multishot = l.multishot;
  transient = l.transient;
  async = l.async;
  canceled = l.canceled;
  seen_flag = refl;
  done_flag = l.done_flag;
  scheduled_flag = l.scheduled_flag;
  results = ap (λ xs. xs ++ res ∷ []) l.results;
  ref_count = l.ref_count;
}

added-IsListening :
    (m : Core) (a : ℕ) (res : ℤ) (seen done scheduled : Bool) (list : List ℤ) (refs : ℕ)
    → IsListening (m.ops a) seen false scheduled list refs
    → IsListening
        ((modify m a (add_result res done)).ops a)
        true
        done
        scheduled
        (list ++ res ∷ [])
        refs
unfolding add_result
added-IsListening m a res seen done scheduled list refs l =
    subst (λ op. IsListening op true done scheduled (list ++ res ∷ []) refs)
      (sym (here m a (add_result res done)))
      (add-IsListening (m.ops a) res seen done scheduled list refs l)

complete-IsListening :
    (m : Core) (a : ℕ) (res : ℤ) (seen done scheduled : Bool) (list : List ℤ) (refs : ℕ)
    → IsListening (m.ops a) seen false scheduled list refs
    → IsListening
        ((complete_op m a res true done).ops a)
        true
        done
        true
        (list ++ res ∷ [])
        (if scheduled then refs else refs + 1)
complete-IsListening m a res seen done true list refs l =
    subst (λ x. IsListening (x.ops a) true done true (list ++ res ∷ []) refs)
      (sym (
        complete_op-multishot m a res done l.canceled
        ∙ complete_multishot-scheduled m a res done l.scheduled_flag))
      (added-IsListening m a res seen done true list refs l)
complete-IsListening m a res seen done false list refs l =
    subst (λ x. IsListening (x.ops a) true done true (list ++ res ∷ []) (refs + 1))
      (sym (
        complete_op-multishot m a res done l.canceled
        ∙ complete_multishot-idle m a res done l.scheduled_flag l.async))
      (schedule-IsListening (modify m a (add_result res done)) a true done (list ++ res ∷ []) refs
        (added-IsListening m a res seen done false list refs l))

-- The references: the kernel's and the fiber's, and the run queue's where the operation is there.
unfoldable pub refs_of : Bool → ℕ
refs_of true = 3
refs_of false = 2

pub process-IsListening :
    (m : Core) (n : ℕ) (res : ℤ) (seen scheduled : Bool) (list : List ℤ)
    → IsListening (m.ops (suc n)) seen false scheduled list (refs_of scheduled)
    → IsListening
        ((um_process_cqe m (record { user_data = suc n; res = res; more = true })).ops (suc n))
        true
        false
        true
        (list ++ res ∷ [])
        3
unfolding refs_of
process-IsListening m n res seen true list l =
    subst (λ x. IsListening (x.ops (suc n)) true false true (list ++ res ∷ []) 3)
      (sym (process-more m n res true l.transient l.multishot))
      (complete-IsListening m (suc n) res seen false true list 3 l)
process-IsListening m n res seen false list l =
    subst (λ x. IsListening (x.ops (suc n)) true false true (list ++ res ∷ []) 3)
      (sym (process-more m n res true l.transient l.multishot))
      (complete-IsListening m (suc n) res seen false false list 2 l)

set_refs : ℕ → Op → Op
set_refs k op = record op { ref_count = k }

release_one :
    (m : Core) (a : ℕ) (scheduled : Bool)
    → (m.ops a).ref_count ≡ refs_of scheduled
    → um_op_release m a ≡ modify m a (set_refs (if scheduled then 2 else 1))
unfolding um_op_release set_refs refs_of
release_one m a true e =
    let three : sub32 3 1 ≡ 2 = sub32_of_le 3 1 (omega arith) in simp (e, three)
release_one m a false e = simp (e, sub32_two)

pub released-IsListening :
    (m : Core) (a : ℕ) (seen done scheduled many : Bool) (list : List ℤ)
    → IsListening (m.ops a) seen done scheduled list (refs_of many)
    → IsListening ((um_op_release m a).ops a) seen done scheduled list (if many then 2 else 1)
unfolding set_refs
released-IsListening m a seen done scheduled many list l =
    let refs = if many then 2 else 1 in
    subst (λ x. IsListening (x.ops a) seen done scheduled list refs)
      (sym (release_one m a many l.ref_count))
      (subst (λ op. IsListening op seen done scheduled list refs) (sym (here m a (set_refs refs)))
        (record {
          multishot = l.multishot;
          transient = l.transient;
          async = l.async;
          canceled = l.canceled;
          seen_flag = l.seen_flag;
          done_flag = l.done_flag;
          scheduled_flag = l.scheduled_flag;
          results = l.results;
          ref_count = refl;
        }))

-- The last completion.
pub last-IsListening :
    (m : Core) (n : ℕ) (res : ℤ) (seen scheduled : Bool) (list : List ℤ)
    → IsListening (m.ops (suc n)) seen false scheduled list (refs_of scheduled)
    → IsListening
        ((um_process_cqe m (record { user_data = suc n; res = res; more = false })).ops (suc n))
        true
        true
        true
        (list ++ res ∷ [])
        2
unfolding pending_less
last-IsListening m n res seen true list l =
    subst (λ x. IsListening (x.ops (suc n)) true true true (list ++ res ∷ []) 2)
      (sym (process-more m n res false l.transient l.multishot))
      (complete-IsListening (um_op_release (pending_less m) (suc n)) (suc n) res seen true true list
        2 (released-IsListening (pending_less m) (suc n) seen false true true list l))
last-IsListening m n res seen false list l =
    subst (λ x. IsListening (x.ops (suc n)) true true true (list ++ res ∷ []) 2)
      (sym (process-more m n res false l.transient l.multishot))
      (complete-IsListening (um_op_release (pending_less m) (suc n)) (suc n) res seen true false
        list 1 (released-IsListening (pending_less m) (suc n) seen false false false list l))
