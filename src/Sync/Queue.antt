-- ===== src/Sync/Queue.antt =====
-- `struct um_queue` of ext/um/um_sync.c: a doubly linked list of entries with a free list. An entry
-- is named by its address, a number that is not 0; 0 is the null pointer. A value is a machine word.
pub mod Fifo
pub mod Mixed
pub mod Push
pub mod Refine
use uringmachine.Base.{
  ℕ, ◌+◌, ◌-◌, Bool, true, false, not, ◌&&◌, List, [], ◌∷◌, Option, none, some, ◌==◌, is_zero,
  if◌then◌else◌, sub32, Outcome, ok, blocked, fault, ◌>>=◌,
}

pub record Entry : Type 0 where
  pub prev : ℕ
  pub next : ℕ
  pub value : ℕ

-- `entries` is the memory, `next_entry` the address that the next `malloc` returns, and `wakes` the
-- number of calls of `um_futex_wake_transient`, each for one waiter.
pub record Queue : Type 0 where
  pub head : ℕ
  pub tail : ℕ
  pub free_head : ℕ
  pub num_waiters : ℕ
  pub state : ℕ
  pub count : ℕ
  pub entries : ℕ → Entry
  pub next_entry : ℕ
  pub wakes : ℕ

abbrev pub queue_empty : ℕ
queue_empty = 0

abbrev pub queue_ready : ℕ
queue_ready = 1

abbrev pub write : (ℕ → Entry) → ℕ → Entry → ℕ → Entry
write entries p e q = if p == q then e else entries q

-- The memory of the queue object is zeroed when it is allocated, `num_waiters` too.
pub um_queue_init : (ℕ → Entry) → Queue
um_queue_init memory = record {
  head = 0;
  tail = 0;
  free_head = 0;
  num_waiters = 0;
  state = queue_empty;
  count = 0;
  entries = memory;
  next_entry = 1;
  wakes = 0;
}

pub um_queue_entry_checkout : Queue → ℕ × Queue
um_queue_entry_checkout q =
    if is_zero q.free_head
    then (q.next_entry, record q { next_entry = q.next_entry + 1 })
    else (q.free_head, record q { free_head = (q.entries q.free_head).next })

pub um_queue_entry_checkin : Queue → ℕ → Queue
um_queue_entry_checkin q p = record q {
  entries = write q.entries p (record (q.entries p) { next = q.free_head });
  free_head = p;
}

pub queue_add_head : Queue → ℕ → Queue
unfolding um_queue_entry_checkout
queue_add_head q value =
    let (p, q') = um_queue_entry_checkout q in
    let linked = if is_zero q'.head then record q' { head = p; tail = p } else record q' {
      entries = write q'.entries q'.head (record (q'.entries q'.head) { prev = p });
      head = p;
    } in
    record linked {
      entries = write linked.entries p (record { prev = 0; next = q'.head; value = value });
    }

pub queue_add_tail : Queue → ℕ → Queue
unfolding um_queue_entry_checkout
queue_add_tail q value =
    let (p, q') = um_queue_entry_checkout q in
    let linked = if is_zero q'.tail then record q' { head = p; tail = p } else record q' {
      entries = write q'.entries q'.tail (record (q'.entries q'.tail) { next = p });
      tail = p;
    } in
    record linked {
      entries = write linked.entries p (record { prev = q'.tail; next = 0; value = value });
    }

-- The entry behind the head becomes the head; its `prev` is left as it was.
pub queue_remove_head : Queue → Outcome (ℕ × Queue)
unfolding um_queue_entry_checkin
queue_remove_head q =
    if is_zero q.head
    then fault
    else (let entry = q.entries q.head in
        let q' = record q { head = entry.next; tail = if is_zero entry.next then 0 else q.tail } in
        ok (entry.value, um_queue_entry_checkin q' q.head))

-- The entry before the tail becomes the tail; its `next` is left as it was.
pub queue_remove_tail : Queue → Outcome (ℕ × Queue)
unfolding um_queue_entry_checkin
queue_remove_tail q =
    if is_zero q.tail
    then fault
    else (let entry = q.entries q.tail in
        let q' = record q { tail = entry.prev; head = if is_zero entry.prev then 0 else q.head } in
        ok (entry.value, um_queue_entry_checkin q' q.tail))

-- A change of the queue, and a call that wakes a waiter.
abbrev wake : Queue → Queue
wake q = record q { wakes = q.wakes + 1 }

pub um_queue_add : Queue → ℕ → (add_head : Bool) → Queue
unfolding queue_add_head queue_add_tail
um_queue_add q value add_head =
    let q₁ = if add_head then queue_add_head q value else queue_add_tail q value in
    let q₂ = record q₁ { count = q₁.count + 1; state = queue_ready } in
    if is_zero q₂.num_waiters then q₂ else wake q₂

pub um_queue_push : Queue → ℕ → Queue
unfolding um_queue_add
um_queue_push q value = um_queue_add q value false

pub um_queue_unshift : Queue → ℕ → Queue
unfolding um_queue_add
um_queue_unshift q value = um_queue_add q value true

pub data QueueOp : Type 0 where
  queue_pop queue_shift : QueueOp

-- The fiber counts as a waiter. Where the queue is empty it waits on the futex, and another fiber
-- has to go on: `blocked`. (It comes here again, with the same queue but for the others' changes.)
pub um_queue_remove_start : Queue → QueueOp → Outcome (ℕ × Queue)
unfolding queue_remove_head queue_remove_tail
um_queue_remove_start q op =
    let q' = record q { num_waiters = q.num_waiters + 1 } in
    if q'.state == queue_empty
    then blocked
    else (let q'' = record q' { count = sub32 q'.count 1 } in
        elim op [ queue_pop ↦ queue_remove_tail q'' | queue_shift ↦ queue_remove_head q'' ])

pub um_queue_remove_complete : Queue → Queue
um_queue_remove_complete q =
    let q' = record q { num_waiters = sub32 q.num_waiters 1 } in
    if not (is_zero q'.num_waiters) && not (is_zero q'.tail)
    then wake q'
    else if is_zero q'.tail
    then record q' { state = queue_empty }
    else q'

um_queue_remove : Queue → QueueOp → Outcome (ℕ × Queue)
unfolding um_queue_remove_start um_queue_remove_complete
um_queue_remove q op = do (v, q') ← um_queue_remove_start q op; ok (v, um_queue_remove_complete q')

pub um_queue_pop : Queue → Outcome (ℕ × Queue)
unfolding um_queue_remove
um_queue_pop q = um_queue_remove q queue_pop

pub um_queue_shift : Queue → Outcome (ℕ × Queue)
unfolding um_queue_remove
um_queue_shift q = um_queue_remove q queue_shift

-- A client's calls, one after the other.
pub data Call : Type 0 where
  push unshift : ℕ → Call
  pop shift : Call

-- The values that the calls return, up to the first that has to wait.
pub run : Queue → List Call → List ℕ
unfolding um_queue_push um_queue_unshift um_queue_pop um_queue_shift
run q [] = []
run q (push v ∷ calls) = run (um_queue_push q v) calls
run q (unshift v ∷ calls) = run (um_queue_unshift q v) calls
run q (pop ∷ calls) = elim (um_queue_pop q) [ ok (v, q') ↦ v ∷ run q' calls | _ ↦ [] ]
run q (shift ∷ calls) = elim (um_queue_shift q) [ ok (v, q') ↦ v ∷ run q' calls | _ ↦ [] ]
