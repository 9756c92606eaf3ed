-- ===== src/Sync/Queue/Fifo.antt =====
-- A queue that is taken from at its head only.
use uringmachine.Base.{
  ℕ, ◌+◌, ◌<◌, ◌≡◌, refl, sym, ap, subst, ◌∙◌, true, false, List, [], ◌∷◌, arith, ◌==◌, is_zero,
  if◌then◌else◌, length, sub32, sub32_of_le, ok,
}
use mathlib.Core.List.{map}
use uringmachine.Sync.Queue.{
  Entry, Queue, write, um_queue_shift, um_queue_remove_complete, um_queue_entry_checkin,
}
use uringmachine.Base.{not_has, has, Distinct, last_of, Chain, Chain-frame, last_pos}

-- The `next` pointers of the entries.
abbrev pub nexts : Queue → ℕ → ℕ
nexts q a = (q.entries a).next

abbrev pub Apart : List ℕ → List ℕ → Type 0
Apart ps qs = (a : ℕ) → has a ps ≡ true → has a qs ≡ false

abbrev pub Below : ℕ → List ℕ → Type 0
Below n ps = (a : ℕ) → has a ps ≡ true → a < n

-- `live` are the entries from the head on, `spare` those of the free list.
pub record IsFifo (q : Queue) (live spare : List ℕ) : Type 0 where
  pub chain : Chain (nexts q) q.head live
  pub last : q.tail ≡ last_of live
  pub distinct : Distinct live
  pub free : Chain (nexts q) q.free_head spare
  pub distinct_free : Distinct spare
  pub apart : Apart live spare
  pub below : Below q.next_entry live
  pub below_free : Below q.next_entry spare
  pub positive : 0 < q.next_entry
  pub counted : q.count ≡ length live
  pub ready : is_zero q.state ≡ is_zero (length live)

abbrev pub values : (ℕ → Entry) → List ℕ → List ℕ
values es ps = map (λ a. (es a).value) ps

-- The values of a queue, oldest first.
abbrev pub contents : Queue → List ℕ → List ℕ
contents q live = values q.entries live

pub values-same :
    (es fs : ℕ → Entry) (ps : List ℕ)
    → ((a : ℕ) → has a ps ≡ true → (fs a).value ≡ (es a).value)
    → values fs ps ≡ values es ps
values-same es fs [] same = refl
values-same es fs (a ∷ ps) same =
    ap₂' (same a (ground arith)) (values-same es fs ps (λ b h. same b (ground arith)))
  where
    ap₂' : {x y : ℕ} {xs ys : List ℕ} → x ≡ y → xs ≡ ys → x ∷ xs ≡ y ∷ ys
    ap₂' p q i = p i ∷ q i

-- The queue that `um_queue_shift` leaves.
shifted : Queue → Queue
shifted q =
    let entry = q.entries q.head in
    um_queue_remove_complete (
      um_queue_entry_checkin
        (record q {
          num_waiters = q.num_waiters + 1;
          count = sub32 q.count 1;
          head = entry.next;
          tail = if is_zero entry.next then 0 else q.tail;
        })
        q.head)

um_queue_shift-shifted :
    (q : Queue)
    → is_zero q.head ≡ false
    → is_zero q.state ≡ false
    → um_queue_shift q ≡ ok ((q.entries q.head).value, shifted q)
unfolding um_queue_shift shifted
um_queue_shift-shifted q h s = ground arith

-- The fields of that queue.
record Shifted (q q' : Queue) : Type 0 where
  entries : q'.entries ≡ write q.entries q.head (record (q.entries q.head) { next = q.free_head })
  head : q'.head ≡ (q.entries q.head).next
  tail : q'.tail ≡ (if is_zero (q.entries q.head).next then 0 else q.tail)
  free_head : q'.free_head ≡ q.head
  next_entry : q'.next_entry ≡ q.next_entry
  count : q'.count ≡ sub32 q.count 1
  state : is_zero q'.state ≡ (if is_zero q'.tail then true else is_zero q.state)

shifted-Shifted : (q : Queue) → Shifted q (shifted q)
unfolding shifted um_queue_remove_complete um_queue_entry_checkin
shifted-Shifted q = ground arith

module _ (q q' : Queue) (a : ℕ) (live spare : List ℕ) (s : Shifted q q')
    (v : IsFifo q (a ∷ live) spare) where
  entry_same : (b : ℕ) → (a == b) ≡ false → q'.entries b ≡ q.entries b
  entry_same b h = ap (λ f. f b) s.entries ∙ ground (arith, v.chain)

  next_self : (q'.entries a).next ≡ q.free_head
  next_self = ap (λ f. (f a).next) s.entries ∙ ground (arith, v.chain)

  value_same : (b : ℕ) → (q'.entries b).value ≡ (q.entries b).value
  value_same b = ap (λ f. (f b).value) s.entries ∙ ground arith

  head_next : q'.head ≡ (q.entries a).next
  head_next = s.head ∙ ap (λ p. (q.entries p).next) v.chain.0

  a_not_live : (b : ℕ) → has b live ≡ true → (a == b) ≡ false
  a_not_live b h = not_has a b live v.distinct.0 h

  a_not_spare : has a spare ≡ false
  a_not_spare = v.apart a (ground arith)

  Shifted-free : Chain (nexts q') q'.free_head (a ∷ spare)
  Shifted-free = (
    s.free_head ∙ v.chain.0,
    v.chain.1,
    subst (λ p. Chain (nexts q') p spare) (sym next_self)
        (Chain-frame (nexts q) (nexts q') q.free_head spare v.free
          (λ b h. ap (λ (e : Entry). e.next) (entry_same b (not_has a b spare a_not_spare h)))),
  )

  Shifted-Chain : Chain (nexts q') q'.head live
  Shifted-Chain =
      subst (λ p. Chain (nexts q') p live) (sym head_next)
        (Chain-frame (nexts q) (nexts q') (q.entries a).next live v.chain.2
          (λ b h. ap (λ (e : Entry). e.next) (entry_same b (a_not_live b h))))

Shifted-last :
    (q q' : Queue) (a : ℕ) (live spare : List ℕ)
    → Shifted q q'
    → IsFifo q (a ∷ live) spare
    → q'.tail ≡ last_of live
Shifted-last q q' a [] spare s v = ground (arith, s.tail, v.chain)
Shifted-last q q' a (b ∷ bs) spare s v = ground (arith, s.tail, v.chain, v.last)

Shifted-ready :
    (q q' : Queue) (a : ℕ) (live spare : List ℕ)
    → Shifted q q'
    → IsFifo q (a ∷ live) spare
    → is_zero q'.state ≡ is_zero (length live)
Shifted-ready q q' a [] spare s v = ground (arith, s.state, Shifted-last q q' a [] spare s v)
Shifted-ready q q' a (b ∷ bs) spare s v = ground (
  arith,
  s.state,
  Shifted-last q q' a (b ∷ bs) spare s v,
  last_pos (nexts q) (q.entries a).next b bs v.chain.2,
  v.ready,
)

Shifted-IsFifo :
    (q q' : Queue) (a : ℕ) (live spare : List ℕ)
    → Shifted q q'
    → IsFifo q (a ∷ live) spare
    → IsFifo q' live (a ∷ spare)
Shifted-IsFifo q q' a live spare s v = record {
  chain = Shifted-Chain q q' a live spare s v;
  last = Shifted-last q q' a live spare s v;
  distinct = v.distinct.1;
  free = Shifted-free q q' a live spare s v;
  distinct_free = (a_not_spare q q' a live spare s v, v.distinct_free);
  apart = λ b h. ground (arith, a_not_live q q' a live spare s v b h, v.apart b);
  below = λ b h. ground (arith, s.next_entry, v.below b);
  below_free = λ b h. ground (arith, s.next_entry, v.below_free b, v.below a);
  positive = ground (arith, v.positive, s.next_entry);
  counted = omega (arith, s.count, v.counted, sub32_of_le q.count 1);
  ready = Shifted-ready q q' a live spare s v;
}

-- `um_queue_shift` of a well formed queue that is not empty hands out the oldest value; the queue
-- stays well formed, and the other values stay in their order.
pub um_queue_shift-contents :
    (q : Queue) (a : ℕ) (live spare : List ℕ)
    → IsFifo q (a ∷ live) spare
    → (q' : Queue) × (um_queue_shift q ≡ ok ((q.entries a).value, q'))
      × IsFifo q' live (a ∷ spare)
      × (contents q' live ≡ contents q live)
um_queue_shift-contents q a live spare v =
    let s = shifted-Shifted q in
    (
      shifted q,
      um_queue_shift-shifted q (ground (arith, v.chain)) v.ready
          ∙ ap (λ p. ok ((q.entries p).value, shifted q)) v.chain.0,
      Shifted-IsFifo q (shifted q) a live spare s v,
      values-same q.entries (shifted q).entries live
          (λ b h. value_same q (shifted q) a live spare s v b),
    )
