-- ===== src/Op/IntoQueue/Contents.antt =====
-- Every connection of `um_accept_into_queue` is pushed once, in order, whatever other fibers take from
-- the queue meanwhile (ext/um/um.c).
use mathlib.Core.List.{map, map-append}
use uringmachine.Base.{
  ℕ, suc, ◌≤◌, ◌≡◌, sym, ap, subst, ◌∙◌, true, false, List, [], ◌∷◌, ◌++◌, append_assoc, arith,
  length, ℤ, is_neg, Outcome, ok, ◌>>=◌,
}
use uringmachine.Op.State.{Op, Core}
use uringmachine.Op.Schedule.{um_process_cqe, um_process_ready_cqes, process_runqueue_op}
use uringmachine.Op.Multishot.{all_yielded, EachEnd, returned_nil, clear_results}
use uringmachine.Op.Listening.{IsListening, refs_of}
use uringmachine.Op.Arrivals.{arrivals, resumed-IsListening}
use uringmachine.Op.Accepted.{
  AreAccepted, Batch, in_order, accepted-append, clear-IsListening, first_arrivals, all_arrivals,
}
use uringmachine.Op.IntoQueue.{
  Shared, Resume, push_results, into_queue_round, into_queue_resumed, accept_into_queue_loop,
}
use uringmachine.Sync.Queue.{Queue}
use uringmachine.Sync.Queue.Fifo.{IsFifo, contents}
use uringmachine.Op.IntoQueue.Room.{
  process_ready_cqes-room, process_cqe-room, process_runqueue_op-room,
}
use uringmachine.Op.IntoQueue.Pushing.{push_results-contents}

-- Results come in, at least one, and the fiber is resumed. Meanwhile other fibers may have taken
-- values from the queue's head.
abbrev pub IsFilling : ℕ → (first : ℤ) → (others : List ℤ) → Resume → Type 0
IsFilling a first others resume =
    (m : Core) (q : Queue) (live spare : List ℕ)
    → IsFifo q live spare
    → (m₁ : Core) × (q₁ : Queue) × (live₁ spare₁ taken : List ℕ) × (resume (m, q)
        ≡ ok (
          false,
          ((process_runqueue_op (um_process_ready_cqes m₁ (arrivals a (first ∷ others))) a).1, q₁),
        ))
      × (m₁.ops a ≡ m.ops a)
      × (length (first ∷ others) ≤ m₁.room)
      × IsFifo q₁ live₁ spare₁
      × (contents q live ≡ taken ++ contents q₁ live₁)

-- Results come in, and behind them the last.
abbrev pub IsFinal : ℕ → (others : List ℤ) → (last : ℤ) → Resume → Type 0
IsFinal a others last resume =
    (m : Core) (q : Queue) (live spare : List ℕ)
    → IsFifo q live spare
    → (m₁ : Core) × (q₁ : Queue) × (live₁ spare₁ taken : List ℕ) × (resume (m, q)
        ≡ ok (
          false,
          (
            (process_runqueue_op
                (um_process_cqe (um_process_ready_cqes m₁ (arrivals a others))
                  (record { user_data = a; res = last; more = false }))
                a).1,
            q₁,
          ),
        ))
      × (m₁.ops a ≡ m.ops a)
      × (length (others ++ last ∷ []) ≤ m₁.room)
      × IsFifo q₁ live₁ spare₁
      × (contents q live ≡ taken ++ contents q₁ live₁)

unfoldable pub AreFilling : ℕ → List Batch → List Resume → Type 0
AreFilling a [] [] = Unit {0}
AreFilling a [] (resume ∷ resumptions) = ⊥
AreFilling a (batch ∷ batches) [] = ⊥
AreFilling a (batch ∷ batches) (resume ∷ resumptions) =
    IsFilling a batch.0 batch.1 resume
    × AreAccepted (batch.0 ∷ batch.1)
    × AreFilling a batches resumptions

-- How the loop ends: the connections are behind what was there, but for what was taken.
pub record Filled (int2num : ℤ → ℕ) (a : ℕ) (q : Queue) (live : List ℕ) (pushed final : List ℤ)
    (result : Outcome (EachEnd × Shared)) : Type 0 where
  pub end : Core
  pub queue : Queue
  pub live' : List ℕ
  pub spare' : List ℕ
  pub taken : List ℕ
  pub run : result ≡ ok (returned_nil, (end, queue))
  pub listening : IsListening (end.ops a) true true false final 1
  pub fifo : IsFifo queue live' spare'
  pub in_order : contents q live ++ map int2num pushed ≡ taken ++ contents queue live'

module _ (submit : Core → ℤ) (int2num : ℤ → ℕ)
    (submits : (m : Core) → is_neg (submit m) ≡ false) where
  round_more :
      (rest : Shared → Outcome (EachEnd × Shared)) (a : ℕ) (m m' : Core) (q q' : Queue)
      (results : List ℤ)
      → IsListening (m.ops a) true false false results 2
      → push_results submit int2num results (m, q) ≡ ok (all_yielded, (m', q'))
      → m'.ops ≡ m.ops
      → into_queue_resumed submit int2num rest a (false, (m, q)) ≡ rest (clear_results m' a, q')
  unfolding into_queue_resumed into_queue_round
  round_more rest a m m' q q' results l run same =
      let more : (m'.ops a).cqe_done ≡ false = ap (λ f. (f a).cqe_done) same ∙ l.done_flag in
      simp (l.seen_flag, l.results, run, more)

  round_last :
      (rest : Shared → Outcome (EachEnd × Shared)) (a : ℕ) (m m' : Core) (q q' : Queue)
      (results : List ℤ)
      → IsListening (m.ops a) true true false results 1
      → push_results submit int2num results (m, q) ≡ ok (all_yielded, (m', q'))
      → m'.ops ≡ m.ops
      → into_queue_resumed submit int2num rest a (false, (m, q)) ≡ ok (returned_nil, (m', q'))
  unfolding into_queue_resumed into_queue_round
  round_last rest a m m' q q' results l run same =
      let done : (m'.ops a).cqe_done ≡ true = ap (λ f. (f a).cqe_done) same ∙ l.done_flag in
      simp (l.seen_flag, l.results, run, done)

  -- What was there before a round, and what is pushed from it on.
  around :
      (before taken middle after taken' final : List ℕ) (some_pushed rest : List ℕ)
      → before ≡ taken ++ middle
      → after ≡ middle ++ some_pushed
      → after ++ rest ≡ taken' ++ final
      → before ++ (some_pushed ++ rest) ≡ (taken ++ taken') ++ final
  around before taken middle after taken' final some_pushed rest b c d =
      ap (λ xs. xs ++ (some_pushed ++ rest)) b
      ∙ append_assoc taken middle (some_pushed ++ rest)
      ∙ ap (λ xs. taken ++ xs)
          (sym (append_assoc middle some_pushed rest) ∙ ap (λ xs. xs ++ rest) (sym c) ∙ d)
      ∙ sym (append_assoc taken taken' final)

  final_round :
      (final : Resume) (others_after : List Resume) (m : Core) (q : Queue) (live spare : List ℕ)
      (n : ℕ) (others : List ℤ) (last : ℤ)
      → IsFinal (suc n) others last final
      → AreAccepted others
      → is_neg last ≡ false
      → IsListening (m.ops (suc n)) false false false [] 2
      → IsFifo q live spare
      → Filled int2num
          (suc n)
          q
          live
          (others ++ last ∷ [])
          (others ++ last ∷ [])
          (accept_into_queue_loop submit int2num (final ∷ others_after) (suc n) (m, q))
  unfolding accept_into_queue_loop refs_of
  final_round final others_after m q live spare n others last e h k l v =
      let a = suc n in
      let results : List ℤ = others ++ last ∷ [] in
      let (m₁, q₁, live₁, spare₁, taken, r, same, fits, v₁, c₁) = e m q live spare v in
      let m₂ =
        um_process_cqe (um_process_ready_cqes m₁ (arrivals a others))
          (record { user_data = a; res = last; more = false }) in
      let m₃ = (process_runqueue_op m₂ a).1 in
      let room : m₃.room ≡ m₁.room =
        process_runqueue_op-room m₂ a
        ∙ process_cqe-room (um_process_ready_cqes m₁ (arrivals a others))
            (record { user_data = a; res = last; more = false })
        ∙ process_ready_cqes-room m₁ (arrivals a others) in
      let there = resumed-IsListening m₂ a true false results (
        all_arrivals m₁ n others last
          (subst (λ op. IsListening op false false false [] 2) (sym same) l)) in
      let (m₄, q₄, live₄, spare₄, run, same₄, v₄, c₄) =
        push_results-contents submit int2num submits results m₃ q₁ live₁ spare₁
          (accepted-append others last h k) v₁ (omega (arith, fits, room)) in
      let rest = accept_into_queue_loop submit int2num others_after a in
      record {
        end = m₄;
        queue = q₄;
        live' = live₄;
        spare' = spare₄;
        taken = taken;
        run =
            ap (λ x. x >>= into_queue_resumed submit int2num rest a) r
            ∙ round_last rest a m₃ m₄ q₁ q₄ results there run same₄;
        listening =
            subst (λ (f : ℕ → Op). IsListening (f a) true true false results 1) (sym same₄) there;
        fifo = v₄;
        in_order =
            ap (λ xs. xs ++ map int2num results) c₁
            ∙ append_assoc taken (contents q₁ live₁) (map int2num results)
            ∙ ap (λ xs. taken ++ xs) (sym c₄);
      }

  -- A multishot accept whose connections come in any number of rounds, the last of them without
  -- IORING_CQE_F_MORE, and are pushed on a well formed queue from which other fibers may shift
  -- meanwhile: what was in the queue, followed by all connections in the order in which they came, is
  -- what the other fibers took, followed by what is left; the queue stays well formed, and the loop
  -- ends with the operation done and only the fiber's reference left. Submissions succeed, there is
  -- room in the submission queue for a wake-up for each connection, and the fiber is resumed for the
  -- operation only.
  pub accept_into_queue_loop-Filled :
      (batches : List Batch) (resumptions : List Resume) (final : Resume)
      (others_after : List Resume) (m : Core) (q : Queue) (live spare : List ℕ) (n : ℕ)
      (others : List ℤ) (last : ℤ)
      → AreFilling (suc n) batches resumptions
      → IsFinal (suc n) others last final
      → AreAccepted others
      → is_neg last ≡ false
      → IsListening (m.ops (suc n)) false false false [] 2
      → IsFifo q live spare
      → Filled int2num
          (suc n)
          q
          live
          (in_order batches (others ++ last ∷ []))
          (others ++ last ∷ [])
          (accept_into_queue_loop submit int2num
            (resumptions ++ final ∷ others_after)
            (suc n)
            (m, q))
  unfolding AreFilling in_order accept_into_queue_loop refs_of
  accept_into_queue_loop-Filled [] [] final others_after m q live spare n others last b e h k l v =
      final_round final others_after m q live spare n others last e h k l v
  accept_into_queue_loop-Filled [] (resume ∷ resumptions) final others_after m q live spare n others
        last b e h k l v =
      absurd b
  accept_into_queue_loop-Filled (batch ∷ batches) [] final others_after m q live spare n others last
        b e h k l v =
      absurd b
  accept_into_queue_loop-Filled (batch ∷ batches) (resume ∷ resumptions) final others_after m q live
        spare n others last b e h k l v =
      let a = suc n in
      let results : List ℤ = batch.0 ∷ batch.1 in
      let pushed = in_order batches (others ++ last ∷ []) in
      let (m₁, q₁, live₁, spare₁, taken, r, same, fits, v₁, c₁) = b.0 m q live spare v in
      let m₂ = um_process_ready_cqes m₁ (arrivals a results) in
      let m₃ = (process_runqueue_op m₂ a).1 in
      let room : m₃.room ≡ m₁.room =
        process_runqueue_op-room m₂ a ∙ process_ready_cqes-room m₁ (arrivals a results) in
      let there = resumed-IsListening m₂ a false true results (
        first_arrivals m₁ n batch.0 batch.1
          (subst (λ op. IsListening op false false false [] 2) (sym same) l)) in
      let (m₄, q₄, live₄, spare₄, run, same₄, v₄, c₄) =
        push_results-contents submit int2num submits results m₃ q₁ live₁ spare₁ b.1 v₁
          (omega (arith, fits, room)) in
      let still : IsListening (m₄.ops a) true false false results 2 =
        subst (λ (f : ℕ → Op). IsListening (f a) true false false results 2) (sym same₄) there in
      let rest = accept_into_queue_loop submit int2num (resumptions ++ final ∷ others_after) a in
      let f =
        accept_into_queue_loop-Filled batches resumptions final others_after (clear_results m₄ a) q₄
          live₄ spare₄ n others last b.2 e h k (clear-IsListening m₄ a results still) v₄ in
      record {
        end = f.end;
        queue = f.queue;
        live' = f.live';
        spare' = f.spare';
        taken = taken ++ f.taken;
        run =
            ap (λ x. x >>= into_queue_resumed submit int2num rest a) r
            ∙ round_more rest a m₃ m₄ q₁ q₄ results there run same₄
            ∙ f.run;
        listening = f.listening;
        fifo = f.fifo;
        in_order =
            ap (λ xs. contents q live ++ xs) (map-append int2num results pushed)
            ∙ around (contents q live) taken (contents q₁ live₁) (contents q₄ live₄) f.taken
                (contents f.queue f.live') (map int2num results) (map int2num pushed) c₁ c₄
                f.in_order;
      }
