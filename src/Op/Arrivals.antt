-- ===== src/Op/Arrivals.antt =====
-- Several completions of a multishot operation, and the switch to its fiber (ext/um/um.c).
use uringmachine.Base.{
  ℕ, suc, ◌+◌, ◌≡◌, refl, sym, subst, Bool, true, false, List, [], ◌∷◌, ◌++◌, append_assoc,
  append-nil, ℤ, if◌then◌else◌,
}
use uringmachine.Op.State.{Op, Cqe, Core}
use uringmachine.Op.Schedule.{set_flags, um_process_cqe, um_process_ready_cqes, process_runqueue_op}
use uringmachine.Op.Steps.{here}
use uringmachine.Op.Listening.{IsListening, refs_of, process-IsListening, released-IsListening}

-- Completions that more will follow.
unfoldable pub arrivals : ℕ → List ℤ → List Cqe
arrivals a [] = []
arrivals a (res ∷ results) = record { user_data = a; res = res; more = true } ∷ arrivals a results

-- Behind the first of them the operation is on the run queue.
pub arrivals-IsListening :
    (m : Core) (n : ℕ) (results list : List ℤ) (seen : Bool)
    → IsListening (m.ops (suc n)) seen false true list 3
    → seen ≡ true
    → IsListening
        ((um_process_ready_cqes m (arrivals (suc n) results)).ops (suc n))
        true
        false
        true
        (list ++ results)
        3
unfolding arrivals um_process_ready_cqes refs_of
arrivals-IsListening m n [] list seen l e =
    subst (λ s. IsListening (m.ops (suc n)) s false true (list ++ []) 3) e
      (subst (λ xs. IsListening (m.ops (suc n)) seen false true xs 3) (sym (append-nil list)) l)
arrivals-IsListening m n (res ∷ results) list seen l e =
    let m₁ = um_process_cqe m (record { user_data = suc n; res = res; more = true }) in
    subst
      (λ xs.
        IsListening ((um_process_ready_cqes m₁ (arrivals (suc n) results)).ops (suc n)) true false
          true xs 3)
      (append_assoc list (res ∷ []) results)
      (arrivals-IsListening m₁ n results (list ++ res ∷ []) true
        (process-IsListening m n res seen true list l) refl)

off_queue : Op → Op
off_queue op = record op { flags = record (op.flags) { scheduled = false } }

-- The fiber is resumed for an operation.
pub resumed-IsListening :
    (m : Core) (a : ℕ) (done many : Bool) (list : List ℤ)
    → IsListening (m.ops a) true done true list (refs_of many)
    → IsListening ((process_runqueue_op m a).1.ops a) true done false list (if many then 2 else 1)
unfolding process_runqueue_op off_queue
resumed-IsListening m a done many list l =
    let m₁ = record m { total_switches = m.total_switches + 1 } in
    released-IsListening (set_flags m₁ a (λ f. record f { scheduled = false })) a true done false
      many list
      (subst (λ op. IsListening op true done false list (refs_of many)) (sym (here m₁ a off_queue))
        (record {
          multishot = l.multishot;
          transient = l.transient;
          async = l.async;
          canceled = l.canceled;
          seen_flag = l.seen_flag;
          done_flag = l.done_flag;
          scheduled_flag = refl;
          results = l.results;
          ref_count = l.ref_count;
        }))
