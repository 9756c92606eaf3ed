-- ===== src/Op/Accepted.antt =====
-- Every connection of `um_accept_each` is yielded once (ext/um/um.c).
use uringmachine.Base.{
  ℕ, suc, ◌≡◌, refl, sym, ap, subst, ◌∙◌, true, false, List, [], ◌∷◌, ◌++◌, ℤ, is_neg, Outcome, ok,
  ◌>>=◌,
}
use uringmachine.Op.State.{Op, Core}
use uringmachine.Op.Schedule.{um_process_cqe, um_process_ready_cqes, process_runqueue_op}
use uringmachine.Op.Steps.{here}
use uringmachine.Op.Multishot.{
  Resumption, all_yielded, yield_results, returned_nil, Each, each_round, each_resumed,
  clear_results, accept_each_loop,
}
use uringmachine.Op.Listening.{IsListening, refs_of, process-IsListening, last-IsListening}
use uringmachine.Op.Arrivals.{arrivals, arrivals-IsListening, resumed-IsListening}

unfoldable pub AreAccepted : List ℤ → Type 0
AreAccepted [] = Unit {0}
AreAccepted (res ∷ results) = (is_neg res ≡ false) × AreAccepted results

-- Results come in, at least one, and the fiber is resumed.
abbrev pub IsArriving : ℕ → (first : ℤ) → (others : List ℤ) → Resumption → Type 0
IsArriving a first others resume =
    (m : Core)
    → (m₁ : Core) × (resume m
        ≡ ok (
          false,
          (process_runqueue_op (um_process_ready_cqes m₁ (arrivals a (first ∷ others))) a).1,
        ))
      × (m₁.ops a ≡ m.ops a)

-- Results come in, and behind them the last.
abbrev pub IsEnding : ℕ → (others : List ℤ) → (last : ℤ) → Resumption → Type 0
IsEnding a others last resume =
    (m : Core)
    → (m₁ : Core) × (resume m
        ≡ ok (
          false,
          (process_runqueue_op
              (um_process_cqe (um_process_ready_cqes m₁ (arrivals a others))
                (record { user_data = a; res = last; more = false }))
              a).1,
        ))
      × (m₁.ops a ≡ m.ops a)

-- The results of the rounds, and how each comes in.
abbrev pub Batch : Type 0
Batch = ℤ × List ℤ

unfoldable pub AreArriving : ℕ → List Batch → List Resumption → Type 0
unfolding AreAccepted
AreArriving a [] [] = Unit {0}
AreArriving a [] (resume ∷ resumptions) = ⊥
AreArriving a (batch ∷ batches) [] = ⊥
AreArriving a (batch ∷ batches) (resume ∷ resumptions) =
    IsArriving a batch.0 batch.1 resume
    × AreAccepted (batch.0 ∷ batch.1)
    × AreArriving a batches resumptions

-- All results in their order, with those of the last round.
unfoldable pub in_order : List Batch → List ℤ → List ℤ
in_order [] final = final
in_order (batch ∷ batches) final = (batch.0 ∷ batch.1) ++ in_order batches final

yield-all :
    (results : List ℤ) → AreAccepted results → yield_results results ≡ (results, all_yielded)
unfolding yield_results AreAccepted
yield-all [] h = refl
yield-all (res ∷ results) h = simp (h.0, yield-all results h.1)

pub accepted-append :
    (results : List ℤ) (last : ℤ)
    → AreAccepted results
    → is_neg last ≡ false
    → AreAccepted (results ++ last ∷ [])
unfolding AreAccepted
accepted-append [] last h k = (k, tt)
accepted-append (res ∷ results) last h k = (h.0, accepted-append results last h.1 k)

-- A round whose results are all accepted, and more are to come, or not.
more_to_come :
    (more : Core → Outcome Each) (a : ℕ) (m : Core) (results : List ℤ)
    → IsListening (m.ops a) true false false results 2
    → AreAccepted results
    → each_resumed more a (false, m)
      ≡ (more (clear_results m a) >>= λ (ys, end, last). ok (results ++ ys, end, last))
unfolding each_resumed each_round
more_to_come more a m results l h =
    let y = ap yield_results l.results ∙ yield-all results h in simp (l.seen_flag, y, l.done_flag)

last_round :
    (more : Core → Outcome Each) (a : ℕ) (m : Core) (results : List ℤ)
    → IsListening (m.ops a) true true false results 1
    → AreAccepted results
    → each_resumed more a (false, m) ≡ ok (results, returned_nil, m)
unfolding each_resumed each_round
last_round more a m results l h =
    let y = ap yield_results l.results ∙ yield-all results h in simp (l.seen_flag, y, l.done_flag)

cleared : Op → Op
cleared op = record op { results = []; flags = record (op.flags) { cqe_seen = false } }

pub clear-IsListening :
    (m : Core) (a : ℕ) (results : List ℤ)
    → IsListening (m.ops a) true false false results 2
    → IsListening ((clear_results m a).ops a) false false false [] 2
unfolding clear_results cleared
clear-IsListening m a results l =
    subst (λ op. IsListening op false false false [] 2) (sym (here m a cleared))
      (record {
        multishot = l.multishot;
        transient = l.transient;
        async = l.async;
        canceled = l.canceled;
        seen_flag = refl;
        done_flag = l.done_flag;
        scheduled_flag = l.scheduled_flag;
        results = refl;
        ref_count = l.ref_count;
      })

pub first_arrivals :
    (m : Core) (n : ℕ) (first : ℤ) (others : List ℤ)
    → IsListening (m.ops (suc n)) false false false [] 2
    → IsListening
        ((um_process_ready_cqes m (arrivals (suc n) (first ∷ others))).ops (suc n))
        true
        false
        true
        (first ∷ others)
        3
unfolding arrivals um_process_ready_cqes refs_of
first_arrivals m n first others l =
    arrivals-IsListening (um_process_cqe m (record { user_data = suc n; res = first; more = true }))
      n others (first ∷ []) true (process-IsListening m n first false false [] l) refl

pub all_arrivals :
    (m : Core) (n : ℕ) (others : List ℤ) (last : ℤ)
    → IsListening (m.ops (suc n)) false false false [] 2
    → IsListening
        ((um_process_cqe
            (um_process_ready_cqes m (arrivals (suc n) others))
            (record { user_data = suc n; res = last; more = false })).ops
          (suc n))
        true
        true
        true
        (others ++ last ∷ [])
        2
unfolding arrivals um_process_ready_cqes refs_of
all_arrivals m n [] last l = last-IsListening m n last false false [] l
all_arrivals m n (first ∷ others) last l =
    last-IsListening (um_process_ready_cqes m (arrivals (suc n) (first ∷ others))) n last true true
      (first ∷ others) (first_arrivals m n first others l)

-- The last round ends the loop, with the fiber's reference left.
final_round :
    (final : Resumption) (more_resumptions : List Resumption) (m : Core) (n : ℕ) (others : List ℤ)
    (last : ℤ)
    → IsEnding (suc n) others last final
    → AreAccepted others
    → is_neg last ≡ false
    → IsListening (m.ops (suc n)) false false false [] 2
    → (end : Core) × (accept_each_loop (final ∷ more_resumptions) (suc n) m
        ≡ ok (others ++ last ∷ [], returned_nil, end))
      × IsListening (end.ops (suc n)) true true false (others ++ last ∷ []) 1
unfolding accept_each_loop refs_of
final_round final more_resumptions m n others last e h k l =
    let a = suc n in
    let (m₁, r, same) = e m in
    let m₂ =
      um_process_cqe (um_process_ready_cqes m₁ (arrivals a others))
        (record { user_data = a; res = last; more = false }) in
    let arrived =
      all_arrivals m₁ n others last
        (subst (λ op. IsListening op false false false [] 2) (sym same) l) in
    let there = resumed-IsListening m₂ a true false (others ++ last ∷ []) arrived in
    let rest = accept_each_loop more_resumptions a in
    (
      (process_runqueue_op m₂ a).1,
      ap (λ x. x >>= each_resumed rest a) r
          ∙ last_round rest a (process_runqueue_op m₂ a).1 (others ++ last ∷ []) there
              (accepted-append others last h k),
      there,
    )

-- A multishot accept whose completions come in any number of rounds, each with any number of them, all
-- of them connections, the last without IORING_CQE_F_MORE: each connection is yielded once, in the
-- order in which they came, and the loop ends, with the operation done and only the fiber's reference
-- left. The block neither raises an exception nor switches fibers, and the fiber is resumed for the
-- operation only.
pub accept_each_loop-in_order :
    (batches : List Batch) (resumptions : List Resumption) (final : Resumption)
    (more_resumptions : List Resumption) (m : Core) (n : ℕ) (others : List ℤ) (last : ℤ)
    → AreArriving (suc n) batches resumptions
    → IsEnding (suc n) others last final
    → AreAccepted others
    → is_neg last ≡ false
    → IsListening (m.ops (suc n)) false false false [] 2
    → (end : Core) × (accept_each_loop (resumptions ++ final ∷ more_resumptions) (suc n) m
        ≡ ok (in_order batches (others ++ last ∷ []), returned_nil, end))
      × IsListening (end.ops (suc n)) true true false (others ++ last ∷ []) 1
unfolding AreArriving in_order accept_each_loop refs_of
accept_each_loop-in_order [] [] final more_resumptions m n others last b e h k l =
    final_round final more_resumptions m n others last e h k l
accept_each_loop-in_order [] (resume ∷ resumptions) final more_resumptions m n others last b e h k
      l =
    absurd b
accept_each_loop-in_order (batch ∷ batches) [] final more_resumptions m n others last b e h k l =
    absurd b
accept_each_loop-in_order (batch ∷ batches) (resume ∷ resumptions) final more_resumptions m n others
      last b e h k l =
    let a = suc n in
    let results : List ℤ = batch.0 ∷ batch.1 in
    let (m₁, r, same) = b.0 m in
    let m₂ = um_process_ready_cqes m₁ (arrivals a results) in
    let arrived =
      first_arrivals m₁ n batch.0 batch.1
        (subst (λ op. IsListening op false false false [] 2) (sym same) l) in
    let m₃ = (process_runqueue_op m₂ a).1 in
    let there = resumed-IsListening m₂ a false true results arrived in
    let rest = accept_each_loop (resumptions ++ final ∷ more_resumptions) a in
    let (end, r', left) =
      accept_each_loop-in_order batches resumptions final more_resumptions (clear_results m₃ a) n
        others last b.2 e h k (clear-IsListening m₃ a results there) in
    (
      end,
      ap (λ x. x >>= each_resumed rest a) r
          ∙ more_to_come rest a m₃ results there b.1
          ∙ ap (λ x. x >>= λ (ys, z, w). ok (results ++ ys, z, w)) r',
      left,
    )
