-- ===== src/Stream/Each/InOrder.antt =====
-- What is received is yielded once, in order (ext/um/um.c).
use mathlib.Core.List.{map}
use uringmachine.Base.{
  returned_then, arith, ℕ, ◌≡◌, refl, sym, ap, subst, ◌∙◌, Bool, true, false, not, ◌||◌, none, List,
  [], ◌∷◌, ◌++◌, append-nil, pos, Outcome, ok, fault, blocked, out_of_fuel, raised, ◌>>=◌,
  if◌then◌else◌,
}
use uringmachine.Pool.State.{Machine}
use uringmachine.Pool.{bp_get_op_result_segment}
use uringmachine.Pool.InStep.{IsInStep}
use uringmachine.Stream.State.{Cqe, received, OpResult, StreamOp, Resume}
use uringmachine.Stream.Results.{
  add_result, delivered, process_cqe, process_cqes, um_op_multishot_results_push,
}
use uringmachine.Stream.Each.Received.{
  Chunk, bytes_of, cqe_of, Brings, all-Holds, add_result-first, add_result-next,
}
use uringmachine.Stream.Each.{
  Stop, end_of_stream, ResultRound, process_each, returned_nil, returned_value, Reading,
  with_results, read_stopped, read_round, read_resumed, read_recv_each_loop,
}
use uringmachine.Stream.Each.Rounds.{
  process_each-Yielded, with_results-done, next_round-fields, round_end, round_end-IsInStep,
  resumed_more,
}

-- The completion of a stream that has ended.
abbrev pub end_cqe : (bid : ℕ) (buf_more : Bool) → Cqe
end_cqe bid buf_more = received [] false bid buf_more

ok_injective {κ} : {A : Type κ} (x y : A) → ◌≡◌ {A = Outcome A} (ok x) (ok y) → x ≡ y
ok_injective x y h = cc

bind_assoc {κ ℓ μ} :
    {A : Type κ} {B : Type ℓ} {C : Type μ} (o : Outcome A) (f : A → Outcome B) (g : B → Outcome C)
    → (o >>= f >>= g) ≡ (o >>= λ x. f x >>= g)
bind_assoc blocked f g = refl
bind_assoc fault f g = refl
bind_assoc out_of_fuel f g = refl
bind_assoc (raised e) f g = refl
bind_assoc (ok x) f g = refl

process_cqes-append :
    (m : Machine) (op : StreamOp) (xs ys : List Cqe)
    → process_cqes m op (xs ++ ys) ≡ (process_cqes m op xs >>= λ s. process_cqes s.0 s.1 ys)
unfolding process_cqes
process_cqes-append m op [] ys = refl
process_cqes-append m op (x ∷ xs) ys =
    (λ i. process_cqe m op x >>= λ s. process_cqes-append s.0 s.1 xs ys i)
    ∙ sym (
        bind_assoc (process_cqe m op x) (λ s. process_cqes s.0 s.1 xs)
          (λ s. process_cqes s.0 s.1 ys))

seen_end : StreamOp → StreamOp
seen_end op = record op { seen = true; done = op.done || true }

end_result : OpResult
end_result = record { res = pos 0; more = false; segment = none }

end_alone :
    (m : Machine) (op : StreamOp) (bid : ℕ) (buf_more : Bool)
    → process_cqes m op (end_cqe bid buf_more ∷ []) ≡ ok (m, seen_end (add_result op end_result))
unfolding process_cqes process_cqe delivered um_op_multishot_results_push bp_get_op_result_segment
    seen_end end_result
end_alone m op bid buf_more = refl

-- The results of the last round.
record Final (op : StreamOp) (cs : List (List ℕ)) : Type 0 where
  rs : List OpResult
  brings : Brings rs cs
  results : ◌≡◌ {A = List OpResult} (op.result ∷ op.extra) (rs ++ end_result ∷ [])
  seen : op.seen ≡ true

process_cqes-Final :
    (chunks : List Chunk) (m m' : Machine) (op op' : StreamOp) (bid : ℕ) (buf_more : Bool)
    → IsInStep m
    → op.multishot_result_count ≡ 0
    → op.done ≡ false
    → process_cqes m op (map cqe_of chunks ++ end_cqe bid buf_more ∷ []) ≡ ok (m', op')
    → Final op' (map bytes_of chunks)
unfolding Brings seen_end
process_cqes-Final [] m m' op op' bid buf_more i z d e =
    let k = ok_injective _ _ (sym (end_alone m op bid buf_more) ∙ e) in
    let first = add_result-first op end_result (ground (arith, z)) in
    subst (λ (o : StreamOp). Final o []) (ap (λ x. x.1) k)
      (record {
        rs = [];
        brings = tt;
        results = ap (λ (o : StreamOp). o.result ∷ o.extra) first;
        seen = refl;
      })
process_cqes-Final (c ∷ chunks) m m' op op' bid buf_more i z d e =
    let ((m₁, op₁), f, g) =
      returned_then _ _ (m', op')
        (sym (process_cqes-append m op (map cqe_of (c ∷ chunks)) (end_cqe bid buf_more ∷ []))
          ∙ e) in
    let (h, _) = all-Holds c chunks m m₁ op op₁ false i z d f in
    let k = ok_injective _ _ (sym (end_alone m₁ op₁ bid buf_more) ∙ g) in
    let more = add_result-next op₁ end_result (ground (arith, h.some_results)) in
    subst (λ (o : StreamOp). Final o (map bytes_of (c ∷ chunks))) (ap (λ x. x.1) k)
      (record {
        rs = op₁.result ∷ op₁.extra;
        brings = h.brings;
        results = ap (λ (o : StreamOp). o.result ∷ o.extra) more;
        seen = refl;
      })

process_each-end :
    (m : Machine) (rs : List OpResult)
    → process_each m (end_result ∷ rs)
      ≡ record { chunks = []; stop = end_of_stream; machine = m; results = end_result ∷ rs }
unfolding process_each end_result
process_each-end m rs = refl

-- What the loop returns: the bytes that were yielded, and nil.
pub record Yields (cs : List (List ℕ)) (result : Outcome Reading) : Type 0 where
  pub reading : Reading
  pub run : result ≡ ok reading
  pub chunks : reading.chunks ≡ cs
  pub end : reading.end ≡ returned_nil

stopped_end :
    (rest : Machine × StreamOp → Outcome Reading) (m : Machine) (op : StreamOp)
    (chunks : List (List ℕ)) (stop : Stop)
    → stop ≡ end_of_stream
    → read_stopped rest m op chunks stop
      ≡ ok (record { chunks = chunks; end = returned_nil; machine = m; op = op })
unfolding read_stopped
stopped_end rest m op chunks stop e = ap (read_stopped rest m op chunks) e

resumed_last :
    (rest : Machine × StreamOp → Outcome Reading) (m : Machine) (op : StreamOp) (cs : List (List ℕ))
    → Final op cs
    → Yields cs (read_resumed rest false (m, op))
unfolding read_resumed read_round
resumed_last rest m op cs f =
    let y = process_each-Yielded f.rs cs (end_result ∷ []) m f.brings in
    let round = process_each m (op.result ∷ op.extra) in
    let last = process_each-end y.behind [] in
    let same : round ≡ process_each m (f.rs ++ end_result ∷ []) = ap (process_each m) f.results in
    let stop : round.stop ≡ end_of_stream =
      ap (λ (x : ResultRound). x.stop) same ∙ y.stop ∙ ap (λ (x : ResultRound). x.stop) last in
    record {
      reading = record {
        chunks = round.chunks;
        end = returned_nil;
        machine = round.machine;
        op = with_results op round.results;
      };
      run =
          ap
            (λ b.
              if not b
              then ok (record { chunks = []; end = returned_value; machine = m; op = op })
              else read_round rest op round)
            f.seen
          ∙ stopped_end rest round.machine (with_results op round.results) round.chunks round.stop
              stop;
      chunks =
          ap (λ (x : ResultRound). x.chunks) same
          ∙ y.chunks
          ∙ ap (λ (x : ResultRound). cs ++ x.chunks) last
          ∙ append-nil cs;
      end = refl;
    }

-- The completions of a round, one at least.
abbrev pub Batch : Type 0
Batch = Chunk × List Chunk

-- In each round the fiber is resumed for its completions, which bring bytes, and the buffer pool has the
-- buffers that they name; the last round brings the end of the stream.
unfoldable pub AreServed :
    List Batch → (last : List Chunk) → List Resume → Resume → Machine × StreamOp → Type 0
unfolding round_end
AreServed [] last [] final s =
    (final.exception ≡ false)
    × (bid : ℕ) × (buf_more : Bool) × (final.cqes ≡ map cqe_of last ++ end_cqe bid buf_more ∷ [])
    × (after : Machine × StreamOp) × (process_cqes s.0 s.1 final.cqes ≡ ok after)
AreServed [] last (resume ∷ resumes) final s = ⊥
AreServed (batch ∷ batches) last [] final s = ⊥
AreServed (batch ∷ batches) last (resume ∷ resumes) final s =
    (resume.exception ≡ false)
    × (resume.cqes ≡ map cqe_of (batch.0 ∷ batch.1))
    × (after : Machine × StreamOp) × (process_cqes s.0 s.1 resume.cqes ≡ ok after)
    × AreServed batches last resumes final (round_end after)

unfoldable pub all_bytes : List Batch → (last : List Chunk) → List (List ℕ)
all_bytes [] last = map bytes_of last
all_bytes (batch ∷ batches) last = map bytes_of (batch.0 ∷ batch.1) ++ all_bytes batches last

-- A multishot read whose completions come in any number of rounds, each with any number of them, all
-- with bytes, and the last with the end of the stream: the block is given the bytes that the kernel
-- wrote for each completion once, in the order in which they came, and the loop returns nil. The kernel
-- writes to each buffer of the ring one completion behind the other. At first just the bytes have been
-- consumed of each buffer that have been written to it; the buffer pool has the buffers that the
-- completions name, the fiber is resumed for them only, and the block neither raises an exception nor
-- switches fibers.
pub read_recv_each_loop-Yields :
    (batches : List Batch) (last : List Chunk) (resumes : List Resume) (final : Resume)
    (others_after : List Resume) (m : Machine) (op : StreamOp)
    → IsInStep m
    → op.multishot_result_count ≡ 0
    → op.done ≡ false
    → AreServed batches last resumes final (m, op)
    → Yields
        (all_bytes batches last)
        (read_recv_each_loop (resumes ++ final ∷ others_after) (m, op))
unfolding AreServed all_bytes read_recv_each_loop round_end
read_recv_each_loop-Yields [] last [] final others_after m op i z d s =
    let (e, bid, buf_more, c, after, run) = s in
    let rest = read_recv_each_loop others_after in
    let f =
      process_cqes-Final last m after.0 op after.1 bid buf_more i z d
        (ap (process_cqes m op) (sym c) ∙ run) in
    let y = resumed_last rest after.0 after.1 (map bytes_of last) f in
    record {
      reading = y.reading;
      run =
          ap (λ x. x >>= read_resumed rest final.exception) run
          ∙ ap (λ b. read_resumed rest b after) e
          ∙ y.run;
      chunks = y.chunks;
      end = y.end;
    }
read_recv_each_loop-Yields [] last (resume ∷ resumes) final others_after m op i z d s = absurd s
read_recv_each_loop-Yields (batch ∷ batches) last [] final others_after m op i z d s = absurd s
read_recv_each_loop-Yields (batch ∷ batches) last (resume ∷ resumes) final others_after m op i z d
      s =
    let (e, c, after, run, more) = s in
    let rest = read_recv_each_loop (resumes ++ final ∷ others_after) in
    let (h, j) =
      all-Holds batch.0 batch.1 m after.0 op after.1 false i z d
        (ap (process_cqes m op) (sym c) ∙ run) in
    let chunks = map bytes_of (batch.0 ∷ batch.1) in
    let round = process_each after.0 (after.1.result ∷ after.1.extra) in
    let fields = next_round-fields round.machine (with_results after.1 round.results) in
    let next = round_end after in
    let y =
      read_recv_each_loop-Yields batches last resumes final others_after next.0 next.1
        (round_end-IsInStep after j) fields.0
        (fields.1 ∙ with_results-done after.1 round.results ∙ h.over) more in
    record {
      reading = record (y.reading) { chunks = chunks ++ y.reading.chunks };
      run =
          ap (λ x. x >>= read_resumed rest resume.exception) run
          ∙ ap (λ b. read_resumed rest b after) e
          ∙ resumed_more rest after.0 after.1 chunks h
          ∙ ap
              (λ (x : Outcome Reading).
                x >>= λ reading. ok (record reading { chunks = chunks ++ reading.chunks }))
              y.run;
      chunks = ap (λ xs. chunks ++ xs) y.chunks;
      end = y.end;
    }
