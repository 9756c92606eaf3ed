-- ===== src/Sync/Queue/Push.antt =====
-- `um_queue_push` keeps a queue in order: the new value comes last.
use mathlib.Core.List.{map-append}
use uringmachine.Base.{
  ℕ, ◌+◌, ◌<◌, ◌≤◌, ◌≡◌, refl, sym, ap, subst, ◌∙◌, inl, inr, true, false, List, [], ◌∷◌, ◌++◌,
  arith, ◌==◌, is_zero, Bool-cases, if◌then◌else◌, length-append,
}
use uringmachine.Sync.Queue.{
  Entry, Queue, write, queue_ready, um_queue_entry_checkout, um_queue_push,
}
use uringmachine.Base.{
  has, Distinct, last_of, Chain, Chain-frame, Chain-append, last_pos, Chain-pos, has-append_cases,
  tail_has, last_of-append, Distinct-append, not_has,
}
use uringmachine.Sync.Queue.Fifo.{nexts, IsFifo, Apart, Below, contents, values, values-same}

-- The entry `p` that is checked out, and the free entries that are left.
record Taken (q q₁ : Queue) (live spare spare' : List ℕ) (p : ℕ) : Type 0 where
  not_null : 0 < p
  not_live : has p live ≡ false
  not_spare : has p spare' ≡ false
  free : Chain (nexts q) q₁.free_head spare'
  distinct : Distinct spare'
  apart : Apart live spare'
  bound : p < q₁.next_entry
  grows : q.next_entry ≤ q₁.next_entry
  below : Below q₁.next_entry spare'

beyond : (n : ℕ) (ps : List ℕ) → Below n ps → has n ps ≡ false
beyond n ps b = elim (Bool-cases (has n ps)) [ inl h ↦ absurd (omega (arith, b n h)) | inr h ↦ h ]

checkout-Taken :
    (q : Queue) (live spare : List ℕ)
    → IsFifo q live spare
    → (spare' : List ℕ) × Taken q
        (um_queue_entry_checkout q).1
        live
        spare
        spare'
        (um_queue_entry_checkout q).0
unfolding um_queue_entry_checkout
checkout-Taken q live [] v =
    let z : is_zero q.free_head ≡ true = ground (arith, v.free) in
    let n = beyond q.next_entry live v.below in
    (
      [],
      record {
        not_null = ground (arith, v.positive);
        not_live = ground arith;
        not_spare = refl;
        free = ground (arith, v.free);
        distinct = tt;
        apart = λ b h. refl;
        bound = ground arith;
        grows = ground arith;
        below = λ b h. cc;
      },
    )
checkout-Taken q live (x ∷ xs) v =
    let z : is_zero q.free_head ≡ false = ground (arith, v.free) in
    let e : q.free_head ≡ x = v.free.0 in
    (
      xs,
      record {
        not_null = ground (arith, v.free.1);
        not_live =
            subst (λ p. has p live ≡ false)
              (let first : x ≡ (um_queue_entry_checkout q).0 = ground (arith, v.free) in first)
              (let out : has x live ≡ false = ground (arith, v.apart x) in out);
        not_spare = ground (arith, v.distinct_free.0);
        free =
            subst (λ p. Chain (nexts q) p xs)
              (let n : (q.entries x).next ≡ (um_queue_entry_checkout q).1.free_head =
                  ground (arith, v.free) in
                n)
              v.free.2;
        distinct = v.distinct_free.1;
        apart = λ b h. ground (arith, v.apart b);
        bound = ground (arith, v.below_free x);
        grows = ground arith;
        below = λ b h. ground (arith, v.below_free b);
      },
    )

-- The fields of the queue after a push through the entry `p`.
record Pushed (q q₁ q' : Queue) (p value : ℕ) : Type 0 where
  entries :
      q'.entries
      ≡ write
          (if is_zero q.tail
            then q.entries
            else write q.entries q.tail (record (q.entries q.tail) { next = p }))
          p
          (record { prev = q.tail; next = 0; value = value })
  head : q'.head ≡ (if is_zero q.tail then p else q.head)
  tail : q'.tail ≡ p
  free_head : q'.free_head ≡ q₁.free_head
  next_entry : q'.next_entry ≡ q₁.next_entry
  count : q'.count ≡ q.count + 1
  state : q'.state ≡ queue_ready

push-Pushed :
    (q : Queue) (value : ℕ)
    → Pushed q
        (um_queue_entry_checkout q).1
        (um_queue_push q value)
        (um_queue_entry_checkout q).0
        value
unfolding um_queue_push um_queue_entry_checkout
push-Pushed q value = ground arith

module _ (q q₁ q' : Queue) (p value : ℕ) (live spare spare' : List ℕ)
    (t : Taken q q₁ live spare spare' p) (s : Pushed q q₁ q' p value)
    (v : IsFifo q live spare) where
  new_entry : q'.entries p ≡ record { prev = q.tail; next = 0; value = value }
  new_entry = ap (λ f. f p) s.entries ∙ ground arith

  value_same : (b : ℕ) → (p == b) ≡ false → (q'.entries b).value ≡ (q.entries b).value
  value_same b h = ap (λ f. (f b).value) s.entries ∙ ground arith

  next_same :
      (b : ℕ) → (p == b) ≡ false → (q.tail == b) ≡ false → (q'.entries b).next ≡ (q.entries b).next
  next_same b h k = ap (λ f. (f b).next) s.entries ∙ ground arith

  tail_next : (p == q.tail) ≡ false → 0 < q.tail → (q'.entries q.tail).next ≡ p
  tail_next h k = ap (λ f. (f q.tail).next) s.entries ∙ ground arith

  p_not_live : (b : ℕ) → has b live ≡ true → (p == b) ≡ false
  p_not_live b h = not_has p b live t.not_live h

  values-append : values q'.entries (live ++ p ∷ []) ≡ values q.entries live ++ value ∷ []
  values-append =
      map-append (λ a. (q'.entries a).value) live (p ∷ [])
      ∙ ap (λ xs. xs ++ (q'.entries p).value ∷ [])
          (values-same q.entries q'.entries live (λ b h. value_same b (p_not_live b h)))
      ∙ ap (λ (e : Entry). values q.entries live ++ e.value ∷ []) new_entry

  tail_in : (b : ℕ) → has b spare' ≡ true → (q.tail == b) ≡ false
  tail_in b h = tail_in' live v.last t.apart
    where
      tail_in' : (ps : List ℕ) → q.tail ≡ last_of ps → Apart ps spare' → (q.tail == b) ≡ false
      tail_in' [] l far = ground (arith, Chain-pos (nexts q) q₁.free_head b spare' t.free h)
      tail_in' (a ∷ ps) l far = not_has q.tail b spare' (far q.tail (tail_has q.tail a ps l)) h

  free_kept : Chain (nexts q') q'.free_head spare'
  free_kept =
      subst (λ f. Chain (nexts q') f spare') (sym s.free_head)
        (Chain-frame (nexts q) (nexts q') q₁.free_head spare' t.free
          (λ b h. next_same b (not_has p b spare' t.not_spare h) (tail_in b h)))

Pushed-Chain :
    (q q₁ q' : Queue) (p value : ℕ) (live spare spare' : List ℕ)
    → Taken q q₁ live spare spare' p
    → Pushed q q₁ q' p value
    → IsFifo q live spare
    → Chain (nexts q') q'.head (live ++ p ∷ [])
Pushed-Chain q q₁ q' p value [] spare spare' t s v = (
  ground (arith, s.head, v.last),
  t.not_null,
  ap (λ (e : Entry). e.next) (new_entry q q₁ q' p value [] spare spare' t s v),
)
Pushed-Chain q q₁ q' p value (a ∷ ps) spare spare' t s v =
    let l : q.tail ≡ last_of (a ∷ ps) = v.last in
    let some_tail : 0 < q.tail = rw l (last_pos (nexts q) q.head a ps v.chain) in
    let e : q'.head ≡ q.head = ground (arith, s.head) in
    let old = p_not_live q q₁ q' p value (a ∷ ps) spare spare' t s v in
    let same = next_same q q₁ q' p value (a ∷ ps) spare spare' t s v in
    subst (λ h. Chain (nexts q') h (a ∷ ps ++ p ∷ [])) (sym e)
      (Chain-append (nexts q) (nexts q') q.head p a ps v.chain v.distinct t.not_null
        (λ b h k. same b (old b h) (ground arith))
        (subst (λ x. (q'.entries x).next ≡ p) l
          (tail_next q q₁ q' p value (a ∷ ps) spare spare' t s v
            (old q.tail (tail_has q.tail a ps l)) some_tail))
        (ap (λ (e : Entry). e.next) (new_entry q q₁ q' p value (a ∷ ps) spare spare' t s v)))

Pushed-IsFifo :
    (q q₁ q' : Queue) (p value : ℕ) (live spare spare' : List ℕ)
    → Taken q q₁ live spare spare' p
    → Pushed q q₁ q' p value
    → IsFifo q live spare
    → IsFifo q' (live ++ p ∷ []) spare'
Pushed-IsFifo q q₁ q' p value live spare spare' t s v = record {
  chain = Pushed-Chain q q₁ q' p value live spare spare' t s v;
  last = s.tail ∙ sym (last_of-append p live);
  distinct = Distinct-append p live t.not_live v.distinct;
  free = free_kept q q₁ q' p value live spare spare' t s v;
  distinct_free = t.distinct;
  apart = λ b h. elim (has-append_cases b p live h) [
    | inl old ↦ t.apart b old
    | inr new ↦ subst (λ x. has x spare' ≡ false) (sym new) t.not_spare
  ];
  below = λ b h. elim (has-append_cases b p live h) [
    | inl old ↦ omega (arith, v.below b old, t.grows, s.next_entry)
    | inr new ↦ omega (arith, t.bound, s.next_entry)
  ];
  below_free = λ b h. ground (arith, s.next_entry, t.below b);
  positive = ground (arith, s.next_entry, t.bound);
  counted = omega (arith, s.count, v.counted, length-append live (p ∷ []));
  ready = ground (arith, s.state, length-append live (p ∷ []));
}

-- `um_queue_push` on a well formed queue puts the value behind those that are there: the queue stays well formed, and its
-- contents are the old ones with the new value at the end.
pub um_queue_push-contents :
    (q : Queue) (value : ℕ) (live spare : List ℕ)
    → IsFifo q live spare
    → (live' spare' : List ℕ) × IsFifo (um_queue_push q value) live' spare'
      × (contents (um_queue_push q value) live' ≡ contents q live ++ value ∷ [])
um_queue_push-contents q value live spare v =
    let (spare', t) = checkout-Taken q live spare v in
    let (p, q₁) = um_queue_entry_checkout q in
    let s = push-Pushed q value in
    (
      live ++ p ∷ [],
      spare',
      Pushed-IsFifo q q₁ (um_queue_push q value) p value live spare spare' t s v,
      values-append q q₁ (um_queue_push q value) p value live spare spare' t s v,
    )
