-- ===== src/Stream/Each/Rounds.antt =====
-- A round of a multishot read that more rounds follow (ext/um/um.c).
use uringmachine.Base.{
  subst, Option-cases, arith, ◌==◌, Bool-cases, ℕ, ◌≡◌, refl, sym, ap, ◌∙◌, false, not, none, some,
  List, [], ◌∷◌, ◌++◌, append-nil, inl, inr, length, pos, is_neg, Outcome, ok, ◌>>=◌, pos_part,
  if◌then◌else◌, is_zero,
}
use uringmachine.Pool.State.{Segment, Machine}
use uringmachine.Pool.{um_segment_checkin, um_segment_free}
use uringmachine.Pool.InStep.{IsInStep, segment_checkin-IsInStep}
use uringmachine.Stream.State.{OpResult, StreamOp}
use uringmachine.Stream.Results.{multishot_result_free, free_results, um_op_multishot_results_clear}
use uringmachine.Stream.Each.Received.{Brings, Holds}
use uringmachine.Stream.Each.{
  yield_segment, no_more_results, ResultRound, process_each, returned_value, Reading,
  read_recv_each_multishot_process_result, with_results, next_round, read_stopped, read_round,
  read_resumed,
}

-- The results that bring bytes are yielded, and then those behind them are processed.
pub record Yielded (rs : List OpResult) (cs : List (List ℕ)) (tail : List OpResult) (m : Machine)
    : Type 0 where
  pub behind : Machine
  pub chunks : (process_each m (rs ++ tail)).chunks ≡ cs ++ (process_each behind tail).chunks
  pub stop : (process_each m (rs ++ tail)).stop ≡ (process_each behind tail).stop

result-yield :
    (m : Machine) (r : OpResult) (c : List ℕ) (segment : Segment)
    → r.segment ≡ some segment
    → segment.bytes ≡ c
    → read_recv_each_multishot_process_result m r
      ≡ (c ∷ [], um_segment_checkin m segment, record r { segment = none })
unfolding read_recv_each_multishot_process_result yield_segment
result-yield m r c segment t b =
    ap (yield_segment m r) t
    ∙ ap (λ xs. (xs ∷ [], um_segment_checkin m segment, record r { segment = none })) b

process_each-step :
    (m : Machine) (r : OpResult) (rs : List OpResult) (c : List ℕ) (segment : Segment)
    → r.segment ≡ some segment
    → segment.bytes ≡ c
    → r.res ≡ pos (length c)
    → is_zero (length c) ≡ false
    → process_each m (r ∷ rs) ≡ (
        let rest = process_each (um_segment_checkin m segment) rs in
        record rest {
          chunks = c ∷ rest.chunks;
          results = record r { segment = none } ∷ rest.results;
        })
unfolding process_each
process_each-step m r rs c segment t b e f =
    let y = result-yield m r c segment t b in
    let n : is_neg r.res ≡ false = ap is_neg e in
    let z : is_zero (pos_part r.res) ≡ false = ap (λ x. is_zero (pos_part x)) e ∙ f in
    simp (n, z, y)

pub process_each-Yielded :
    (rs : List OpResult) (cs : List (List ℕ)) (tail : List OpResult) (m : Machine)
    → Brings rs cs
    → Yielded rs cs tail m
unfolding Brings
process_each-Yielded [] [] tail m b = record { behind = m; chunks = refl; stop = refl }
process_each-Yielded [] (c ∷ cs) tail m b = absurd b
process_each-Yielded (r ∷ rs) [] tail m b = absurd b
process_each-Yielded (r ∷ rs) (c ∷ cs) tail m b =
    let q = b.0 in
    let y = process_each-Yielded rs cs tail (um_segment_checkin m q.segment) b.1 in
    let e = process_each-step m r (rs ++ tail) c q.segment q.there q.bytes q.res q.filled in
    record {
      behind = y.behind;
      chunks = ap (λ x. x.chunks) e ∙ ap (λ xs. c ∷ xs) y.chunks;
      stop = ap (λ x. x.stop) e ∙ y.stop;
    }

pub with_results-done : (op : StreamOp) (rs : List OpResult) → (with_results op rs).done ≡ op.done
unfolding with_results
with_results-done op [] = refl
with_results-done op (r ∷ rs) = refl

pub next_round-fields :
    (m : Machine) (op : StreamOp)
    → ((next_round m op).1.multishot_result_count ≡ 0) × ((next_round m op).1.done ≡ op.done)
unfolding next_round um_op_multishot_results_clear
next_round-fields m op = elim (Bool-cases (op.multishot_result_count == 0)) [
  | inl e ↦ (ground (arith, e), ground (arith, e))
  | inr e ↦ (ground (arith, e), ground (arith, e))
]

-- The state in which the next round begins.
unfoldable pub round_end : Machine × StreamOp → Machine × StreamOp
unfolding with_results process_each next_round
round_end (m, op) =
    let round = process_each m (op.result ∷ op.extra) in
    next_round round.machine (with_results op round.results)

yield-IsInStep :
    (m : Machine) (r : OpResult)
    → IsInStep m
    → IsInStep (read_recv_each_multishot_process_result m r).1
unfolding read_recv_each_multishot_process_result yield_segment
yield-IsInStep m r i = elim (Option-cases r.segment) [
  | inl e ↦ subst (λ s. IsInStep (yield_segment m r s).1) (sym e) i
  | inr (s, e) ↦
      subst (λ x. IsInStep (yield_segment m r x).1) (sym e) (segment_checkin-IsInStep m s i)
]

process_each-IsInStep :
    (rs : List OpResult) (m : Machine) → IsInStep m → IsInStep (process_each m rs).machine
unfolding process_each
process_each-IsInStep [] m i = i
process_each-IsInStep (r ∷ rs) m i =
    let next = (read_recv_each_multishot_process_result m r).1 in
    let rest = process_each-IsInStep rs next (yield-IsInStep m r i) in
    λ b. ground (arith, i b, rest b)

result_free-IsInStep :
    (m : Machine) (r : OpResult) → IsInStep m → IsInStep (multishot_result_free m r)
unfolding multishot_result_free um_segment_free
result_free-IsInStep m r i b = ground (arith, i b)

free_results-IsInStep :
    (rs : List OpResult) (m : Machine) → IsInStep m → IsInStep (free_results m rs)
unfolding free_results
free_results-IsInStep [] m i = i
free_results-IsInStep (r ∷ rs) m i =
    free_results-IsInStep rs (multishot_result_free m r) (result_free-IsInStep m r i)

-- A round leaves the buffers in step.
pub round_end-IsInStep : (s : Machine × StreamOp) → IsInStep s.0 → IsInStep (round_end s).0
unfolding round_end next_round um_op_multishot_results_clear
round_end-IsInStep (m, op) i =
    let round = process_each m (op.result ∷ op.extra) in
    let op' = with_results op round.results in
    let kept = process_each-IsInStep (op.result ∷ op.extra) m i in
    let freed = free_results-IsInStep op'.extra round.machine kept in
    λ b. ground (arith, kept b, freed b)

stopped_open :
    (rest : Machine × StreamOp → Outcome Reading) (m : Machine) (op : StreamOp)
    (chunks : List (List ℕ))
    → op.done ≡ false
    → read_stopped rest m op chunks no_more_results ≡ (
        rest (next_round m op) >>= λ reading.
        ok (record reading { chunks = chunks ++ reading.chunks }))
unfolding read_stopped
stopped_open rest m op chunks d = simp d

read_round-more :
    (rest : Machine × StreamOp → Outcome Reading) (op : StreamOp) (round : ResultRound)
    → round.stop ≡ no_more_results
    → op.done ≡ false
    → read_round rest op round ≡ (
        rest (next_round round.machine (with_results op round.results)) >>= λ reading.
        ok (record reading { chunks = round.chunks ++ reading.chunks }))
unfolding read_round
read_round-more rest op round h d =
    let op' = with_results op round.results in
    let open_still : op'.done ≡ false = with_results-done op round.results ∙ d in
    ap (read_stopped rest round.machine op' round.chunks) h
    ∙ stopped_open rest round.machine op' round.chunks open_still

all_yielded :
    (m : Machine) (op : StreamOp) (cs : List (List ℕ))
    → Brings (op.result ∷ op.extra) cs
    → ((process_each m (op.result ∷ op.extra)).chunks ≡ cs)
      × ((process_each m (op.result ∷ op.extra)).stop ≡ no_more_results)
unfolding process_each
all_yielded m op cs b =
    let rs : List OpResult = op.result ∷ op.extra in
    let y = process_each-Yielded rs cs [] m b in
    let same : process_each m rs ≡ process_each m (rs ++ []) =
      ap (process_each m) (sym (append-nil rs)) in
    (
      ap (λ (x : ResultRound). x.chunks) same ∙ y.chunks ∙ append-nil cs,
      ap (λ (x : ResultRound). x.stop) same ∙ y.stop,
    )

pub resumed_more :
    (rest : Machine × StreamOp → Outcome Reading) (m : Machine) (op : StreamOp) (cs : List (List ℕ))
    → Holds op false cs
    → read_resumed rest false (m, op) ≡ (
        rest (round_end (m, op)) >>= λ reading.
        ok (record reading { chunks = cs ++ reading.chunks }))
unfolding read_resumed round_end
resumed_more rest m op cs h =
    let y = all_yielded m op cs h.brings in
    let round = process_each m (op.result ∷ op.extra) in
    ap
      (λ b.
        if not b
        then ok (record { chunks = []; end = returned_value; machine = m; op = op })
        else read_round rest op round)
      h.seen
    ∙ read_round-more rest op round y.1 h.over
    ∙ ap
        (λ (xs : List (List ℕ)).
          rest (next_round round.machine (with_results op round.results)) >>= λ reading.
          ok (record reading { chunks = xs ++ reading.chunks }))
        y.0
