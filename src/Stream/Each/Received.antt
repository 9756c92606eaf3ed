-- ===== src/Stream/Each/Received.antt =====
-- The results that completions with bytes leave in an operation (ext/um/um.c, ext/um/um_op.c).
use mathlib.Core.List.{map}
use uringmachine.Base.{
  returned_before, returned_then, arith, ◌==◌, is_zero_pos, ℕ, ◌+◌, ◌≡◌, refl, sym, ap, subst, ◌∙◌,
  Bool, true, false, ◌||◌, some, List, [], ◌∷◌, ◌++◌, append_assoc, append-nil, length, pos, ok,
  is_zero,
}
use uringmachine.Pool.State.{Segment, Machine}
use uringmachine.Pool.InStep.{IsInStep, kernel_fills-segment}
use uringmachine.Stream.State.{Cqe, received, OpResult, StreamOp}
use uringmachine.Stream.Results.{
  add_result, delivered, process_cqe, process_cqes, um_op_multishot_results_push,
}

-- A completion that brings bytes, one at least, and that more will follow.
pub record Chunk : Type 0 where
  pub first : ℕ
  pub others : List ℕ
  pub bid : ℕ
  pub buf_more : Bool

abbrev pub bytes_of : Chunk → List ℕ
bytes_of c = c.first ∷ c.others

abbrev pub cqe_of : Chunk → Cqe
cqe_of c = received (bytes_of c) true c.bid c.buf_more

-- A result with its segment.
pub record Bringing (r : OpResult) (content : List ℕ) : Type 0 where
  pub segment : Segment
  pub there : r.segment ≡ some segment
  pub bytes : segment.bytes ≡ content
  pub res : r.res ≡ pos (length content)
  pub filled : is_zero (length content) ≡ false

unfoldable pub Brings : List OpResult → List (List ℕ) → Type 0
Brings [] [] = Unit {0}
Brings [] (c ∷ cs) = ⊥
Brings (r ∷ rs) [] = ⊥
Brings (r ∷ rs) (c ∷ cs) = Bringing r c × Brings rs cs

pub Brings-append :
    (rs : List OpResult) (cs : List (List ℕ)) (r : OpResult) (c : List ℕ)
    → Brings rs cs
    → Bringing r c
    → Brings (rs ++ r ∷ []) (cs ++ c ∷ [])
unfolding Brings
Brings-append [] [] r c b n = (n, tt)
Brings-append [] (d ∷ cs) r c b n = absurd b
Brings-append (q ∷ rs) [] r c b n = absurd b
Brings-append (q ∷ rs) (d ∷ cs) r c b n = (b.0, Brings-append rs cs r c b.1 n)

-- The results of an operation that has been seen.
pub record Holds (op : StreamOp) (done : Bool) (cs : List (List ℕ)) : Type 0 where
  pub seen : op.seen ≡ true
  pub over : op.done ≡ done
  pub some_results : is_zero op.multishot_result_count ≡ false
  pub brings : Brings (op.result ∷ op.extra) cs

-- A completion that brings bytes: they are read where the kernel wrote them.
pub push-Bringing :
    (m m' : Machine) (op op' : StreamOp) (c : Chunk)
    → IsInStep m
    → process_cqe m op (cqe_of c) ≡ ok (m', op')
    → (r : OpResult) × Bringing r (bytes_of c)
      × (op' ≡ record (add_result op r) { seen = true; done = (add_result op r).done || false })
      × IsInStep m'
unfolding process_cqe um_op_multishot_results_push delivered
push-Bringing m m' op op' c i h =
    let ((m₁, op₁), e, k) = returned_before _ _ (m', op') h in
    let ((s, m₂), f, l) = returned_before _ _ (m₁, op₁) e in
    let (segment, there, bytes, j) =
      kernel_fills-segment m m₂ c.first c.others c.bid c.buf_more s i f in
    let r : OpResult = record { res = pos (length (bytes_of c)); more = true; segment = s } in
    (
      r,
      record { segment = segment; there = there; bytes = bytes; res = refl; filled = refl },
      sym (ap (λ x. x.1) k)
          ∙ ap (λ (o : StreamOp). record o { seen = true; done = o.done || false })
              (sym (ap (λ x. x.1) l)),
      subst IsInStep (ap (λ x. x.0) l ∙ ap (λ x. x.0) k) j,
    )

unfoldable pub seen_done : StreamOp → StreamOp
seen_done op = record op { seen = true; done = op.done || false }

or_false : (b : Bool) → (b || false) ≡ b
or_false true = refl
or_false false = refl

pub add_result-first :
    (op : StreamOp) (r : OpResult)
    → (op.multishot_result_count == 0) ≡ true
    → add_result op r ≡ record op { result = r; extra = []; multishot_result_count = 1 }
unfolding add_result
add_result-first op r z = simp z

pub add-first :
    (op : StreamOp) (r : OpResult) (done : Bool) (c : List ℕ)
    → (op.multishot_result_count == 0) ≡ true
    → op.done ≡ done
    → Bringing r c
    → Holds (seen_done (add_result op r)) done (c ∷ [])
unfolding seen_done Brings
add-first op r done c z d b =
    let e : add_result op r ≡ record op { result = r; extra = []; multishot_result_count = 1 } =
      add_result-first op r z in
    subst (λ (o : StreamOp). Holds (seen_done o) done (c ∷ [])) (sym e)
      (record { seen = refl; over = or_false op.done ∙ d; some_results = refl; brings = (b, tt) })

pub add_result-next :
    (op : StreamOp) (r : OpResult)
    → (op.multishot_result_count == 0) ≡ false
    → add_result op r ≡ record op {
      extra = op.extra ++ r ∷ [];
      multishot_result_count = op.multishot_result_count + 1;
    }
unfolding add_result
add_result-next op r z = simp z

add-next :
    (op : StreamOp) (r : OpResult) (done : Bool) (c : List ℕ) (cs : List (List ℕ))
    → Holds op done cs
    → Bringing r c
    → Holds (seen_done (add_result op r)) done (cs ++ c ∷ [])
unfolding seen_done Brings
add-next op r done c cs h b =
    let z : (op.multishot_result_count == 0) ≡ false = ground (arith, h.some_results) in
    let e : add_result op r ≡ record op {
      extra = op.extra ++ r ∷ [];
      multishot_result_count = op.multishot_result_count + 1;
    } =
      add_result-next op r z in
    subst (λ (o : StreamOp). Holds (seen_done o) done (cs ++ c ∷ [])) (sym e)
      (record {
        seen = refl;
        over = or_false op.done ∙ h.over;
        some_results = is_zero_pos (op.multishot_result_count + 1) (omega arith);
        brings = Brings-append (op.result ∷ op.extra) cs r c h.brings b;
      })

pub more-Holds :
    (chunks : List Chunk) (m m' : Machine) (op op' : StreamOp) (done : Bool) (cs : List (List ℕ))
    → IsInStep m
    → Holds op done cs
    → process_cqes m op (map cqe_of chunks) ≡ ok (m', op')
    → Holds op' done (cs ++ map bytes_of chunks) × IsInStep m'
unfolding process_cqes seen_done
more-Holds [] m m' op op' done cs i h e =
    let same : op ≡ op' = cc in
    let machine : m ≡ m' = cc in
    (
      subst (λ (o : StreamOp). Holds o done (cs ++ [])) same
          (subst (λ xs. Holds op done xs) (sym (append-nil cs)) h),
      subst IsInStep machine i,
    )
more-Holds (c ∷ chunks) m m' op op' done cs i h e =
    let ((m₁, op₁), f, g) = returned_then _ _ (m', op') e in
    let (r, b, p, j) = push-Bringing m m₁ op op₁ c i f in
    let next : Holds op₁ done (cs ++ bytes_of c ∷ []) =
      subst (λ (o : StreamOp). Holds o done (cs ++ bytes_of c ∷ [])) (sym p)
        (add-next op r done (bytes_of c) cs h b) in
    let rest = more-Holds chunks m₁ m' op₁ op' done (cs ++ bytes_of c ∷ []) j next g in
    (
      subst (λ xs. Holds op' done xs) (append_assoc cs (bytes_of c ∷ []) (map bytes_of chunks))
          rest.0,
      rest.1,
    )

-- The completions of a round, one at least.
pub all-Holds :
    (c : Chunk) (chunks : List Chunk) (m m' : Machine) (op op' : StreamOp) (done : Bool)
    → IsInStep m
    → op.multishot_result_count ≡ 0
    → op.done ≡ done
    → process_cqes m op (map cqe_of (c ∷ chunks)) ≡ ok (m', op')
    → Holds op' done (map bytes_of (c ∷ chunks)) × IsInStep m'
unfolding process_cqes seen_done
all-Holds c chunks m m' op op' done i z d e =
    let ((m₁, op₁), f, g) = returned_then _ _ (m', op') e in
    let (r, b, p, j) = push-Bringing m m₁ op op₁ c i f in
    let first : Holds op₁ done (bytes_of c ∷ []) =
      subst (λ (o : StreamOp). Holds o done (bytes_of c ∷ [])) (sym p)
        (add-first op r done (bytes_of c) (ground (arith, z)) d b) in
    more-Holds chunks m₁ m' op₁ op' done (bytes_of c ∷ []) j first g
