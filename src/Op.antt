-- ===== src/Op.antt =====
-- Operations and the scheduler: ext/um/um_op.c and the first part of ext/um/um.c.
pub mod State
pub mod Schedule
pub mod Blocking
pub mod Await
pub mod Memory
pub mod Place
pub mod Waiting
pub mod Reading
pub mod Select
pub mod SelectSteps
pub mod Selected
pub mod Awaited
pub mod Steps
pub mod Tests
pub mod QueueTests
pub mod Lifecycle
pub mod Canceled
pub mod Timeout
pub mod Calls
pub mod RunQueue
pub mod Reach
pub mod Multishot
pub mod Listening
pub mod Arrivals
pub mod Accepted
pub mod Futex
pub mod Async
pub mod Start
pub mod RoundTrip
pub mod Close
pub mod AsyncOp
pub mod IntoQueue
use uringmachine.Base.{
  ℕ, zero, suc, ◌+◌, ◌-◌, ◌*◌, Bool, true, false, not, ◌&&◌, ◌||◌, List, [], ◌∷◌, ◌++◌, ◌==◌, ltb,
  is_zero, if◌then◌else◌, sub32, ℤ, Outcome, ok, raised, internal_error,
}
use State.{OpKind, Flags, no_flags, Op, Sqe, op_sqe, cancel_sqe, Core, write, modify}

abbrev pub um_op_alloc_batch_size : ℕ
um_op_alloc_batch_size = 256

-- The new head's old successor gets a back pointer.
unfoldable pub um_op_transient_add : Core → ℕ → Core
um_op_transient_add m a =
    let m₁ =
      if is_zero m.transient_head
      then m
      else modify (modify m a (λ op. record op { next = m.transient_head })) m.transient_head
          (λ op. record op { prev = a }) in
    record m₁ { transient_head = a; ops_transient = m₁.ops_transient + 1 }

-- The flag is cleared and the neighbours are linked with each other.
unfoldable pub um_op_transient_remove : Core → ℕ → Core
um_op_transient_remove m a =
    let m₁ = modify m a (λ op. record op { flags = record (op.flags) { transient = false } }) in
    let op = m₁.ops a in
    let m₂ = if is_zero op.prev then m₁ else modify m₁ op.prev (λ o. record o { next = op.next }) in
    let m₃ = if is_zero op.next then m₂ else modify m₂ op.next (λ o. record o { prev = op.prev }) in
    record m₃ {
      transient_head = if m₃.transient_head == a then (m₃.ops a).next else m₃.transient_head;
      ops_transient = sub32 m₃.ops_transient 1;
    }

unfoldable pub um_runqueue_push : Core → ℕ → Core
um_runqueue_push m a =
    let m₁ =
      if is_zero m.runqueue_tail
      then record m { runqueue_head = a; runqueue_tail = a }
      else record (modify (modify m a (λ op. record op { prev = m.runqueue_tail })) m.runqueue_tail
          (λ op. record op { next = a })) { runqueue_tail = a } in
    record (modify m₁ a (λ op. record op { next = 0 })) { ops_runqueue = m₁.ops_runqueue + 1 }

-- The operation, 0 where there is none.
unfoldable pub um_runqueue_shift : Core → ℕ × Core
um_runqueue_shift m =
    if is_zero m.runqueue_head
    then (0, m)
    else (let next = (m.ops m.runqueue_head).next in
        (
          m.runqueue_head,
          record m {
            runqueue_head = next;
            runqueue_tail = if is_zero next then 0 else m.runqueue_tail;
            ops_runqueue = sub32 m.ops_runqueue 1;
          },
        ))

-- The operations of a batch are linked with each other, from the second to the last.
link_batch : (left : ℕ) (a : ℕ) → (ℕ → Op) → ℕ → Op
link_batch zero a ops = write ops a (record (ops a) { next = 0 })
link_batch (suc left) a ops =
    link_batch left (a + 1) (write ops a (record (ops a) { next = a + 1 }))

unfoldable pub um_op_alloc : Core → ℕ × Core
unfolding link_batch
um_op_alloc m =
    if is_zero m.op_freelist
    then (
      m.next_op,
      record m {
        ops = link_batch (um_op_alloc_batch_size - 2) (m.next_op + 1) m.ops;
        next_op = m.next_op + um_op_alloc_batch_size;
        op_freelist = m.next_op + 1;
        ops_free = m.ops_free + (um_op_alloc_batch_size - 1);
      },
    )
    else (
      m.op_freelist,
      record m { op_freelist = (m.ops m.op_freelist).next; ops_free = sub32 m.ops_free 1 },
    )

unfoldable pub um_op_free : Core → ℕ → Core
um_op_free m a = record (modify m a (λ op. record op { next = m.op_freelist })) {
  op_freelist = a;
  ops_free = m.ops_free + 1;
}

unfoldable pub um_op_acquire : Core → ℕ × Core
um_op_acquire m = um_op_alloc m

-- Drops a reference. With the last one the array of a vectored write is freed, the results of a
-- multishot operation are cleared, and the operation goes on the free list.
unfoldable pub um_op_release : Core → ℕ → Core
unfolding um_op_free
um_op_release m a =
    let left = sub32 (m.ops a).ref_count 1 in
    let m₁ = modify m a (λ op. record op { ref_count = left }) in
    if left == 0
    then (let op = m.ops a in
        let m₂ = if op.free_iovecs then record m₁ { freed = op.iovecs ∷ m₁.freed } else m₁ in
        um_op_free (if op.multishot then modify m₂ a (λ o. record o { results = [] }) else m₂) a)
    else m₁

-- An entry of the submission queue for the operation, 0 for none (`um_get_sqe(machine, NULL)`).
unfoldable pub um_get_sqe : Core → ℕ → Sqe → Outcome Core
um_get_sqe m a sqe =
    if is_zero m.room
    then raised internal_error
    else (let m₁ = record m {
      room = m.room - 1;
      sqes = sqe ∷ m.sqes;
      ops_unsubmitted = m.ops_unsubmitted + 1;
    } in
        ok (
          if is_zero a
          then m₁
          else record m₁ { ops_pending = m₁.ops_pending + 1; total_ops = m₁.total_ops + 1 }))

-- All is zeroed but kind, reference count, flags and, unless it is async, the running fiber. A
-- transient operation goes on its list.
unfoldable pub um_prep_op : (fiber : ℕ) → Core → ℕ → OpKind → (ref_count : ℕ) → Flags → Core
unfolding um_op_transient_add
um_prep_op fiber m a kind ref_count flags =
    let m₁ = modify m a (λ op. record {
      prev = 0;
      next = 0;
      kind = kind;
      flags = flags;
      ref_count = ref_count;
      fiber = if flags.async then 0 else fiber;
      value = 0;
      res = ℤ.pos 0;
      results = [];
      iovecs = 0;
    }) in
    if flags.transient then um_op_transient_add m₁ a else m₁

-- Puts a fiber on the run queue, with the value that it is resumed with.
unfoldable pub um_schedule : Core → (fiber value : ℕ) → Core
unfolding um_op_acquire um_runqueue_push
um_schedule m fiber value =
    let (a, m₁) = um_op_acquire m in
    um_runqueue_push
      (modify m₁ a (λ op. record {
        prev = 0;
        next = 0;
        kind = OpKind.op_schedule;
        flags = record no_flags { scheduled = true };
        ref_count = 1;
        fiber = fiber;
        value = value;
        res = ℤ.pos 0;
        results = [];
        iovecs = 0;
      }))
      a
