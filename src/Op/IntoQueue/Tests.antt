-- ===== src/Op/IntoQueue/Tests.antt =====
-- Connections that go through a queue, at a concrete state.
use uringmachine.Base.{
  ℕ, refl, ap, sym, Bool, true, false, [], ◌∷◌, ℤ, pos_part, Outcome, ok, arith,
}
use uringmachine.Op.State.{no_flags, Core}
use uringmachine.Op.Schedule.{um_process_cqe, um_process_ready_cqes, process_runqueue_op}
use uringmachine.Op.Arrivals.{arrivals}
use uringmachine.Op.Accepted.{AreAccepted, in_order}
use uringmachine.Op.Tests.{core, sleeping}
use uringmachine.Op.IntoQueue.{Shared, Resume, accept_into_queue_loop}
use uringmachine.Op.IntoQueue.Contents.{
  IsFilling, IsFinal, AreFilling, Filled, accept_into_queue_loop-Filled,
}
use uringmachine.Sync.Queue.{Queue, um_queue_shift}
use uringmachine.Sync.Queue.Fifo.{IsFifo, um_queue_shift-contents}
use uringmachine.Sync.Queue.Refine.{um_queue_shift-blocked}

-- A socket that is listened to.
abbrev listening : Core
listening = record core {
  ops = λ a. record sleeping { flags = record no_flags { multishot = true } };
}

-- An empty queue that a fiber waits for.
abbrev awaited : Queue
awaited = record {
  head = 0;
  tail = 0;
  free_head = 0;
  num_waiters = 1;
  state = 0;
  count = 0;
  entries = λ a. record { prev = 0; next = 0; value = 0 };
  next_entry = 1;
  wakes = 0;
}

awaited-IsFifo : IsFifo awaited [] []
awaited-IsFifo = record {
  chain = refl;
  last = refl;
  distinct = tt;
  free = refl;
  distinct_free = tt;
  apart = λ b h. refl;
  below = λ b h. cc;
  below_free = λ b h. cc;
  positive = omega arith;
  counted = refl;
  ready = refl;
}

-- Two connections.
abbrev two_come : Resume
two_come (m, q) = ok (
  false,
  (
    (process_runqueue_op
        (um_process_ready_cqes (record m { room = 100 }) (arrivals 1 (ℤ.pos 5 ∷ ℤ.pos 6 ∷ [])))
        1).1,
    q,
  ),
)

two_come-IsFilling : IsFilling 1 (ℤ.pos 5) (ℤ.pos 6 ∷ []) two_come
two_come-IsFilling m q live spare v =
    (record m { room = 100 }, q, live, spare, [], refl, refl, omega arith, v, refl)

-- The other fiber takes a value, if there is one.
take : Outcome (ℕ × Queue) → Queue → Queue
take (ok (v, q')) q = q'
take outcome q = q

-- A last connection.
abbrev ended : Core → Queue → Outcome (Bool × Shared)
ended m q = ok (
  false,
  (
    (process_runqueue_op
        (um_process_cqe (um_process_ready_cqes (record m { room = 100 }) (arrivals 1 []))
          (record { user_data = 1; res = ℤ.pos 7; more = false }))
        1).1,
    q,
  ),
)

-- Before it the other fiber shifts.
last_comes : Resume
last_comes (m, q) = ended m (take (um_queue_shift q) q)

last_comes-IsFinal : IsFinal 1 [] (ℤ.pos 7) last_comes
unfolding last_comes take
last_comes-IsFinal m q [] spare v =
    let e = um_queue_shift-blocked q v.ready in
    (
      record m { room = 100 },
      q,
      [],
      spare,
      [],
      ap (λ x. ended m (take x q)) e,
      refl,
      omega arith,
      v,
      refl,
    )
last_comes-IsFinal m q (a ∷ live) spare v =
    let (q', e, v', same) = um_queue_shift-contents q a live spare v in
    (
      record m { room = 100 },
      q',
      live,
      a ∷ spare,
      (q.entries a).value ∷ [],
      ap (λ x. ended m (take x q)) e,
      refl,
      omega arith,
      v',
      ap (λ xs. (q.entries a).value ∷ xs) (sym same),
    )

accept_into_queue_loop-Filled_example :
    Filled pos_part 1 awaited [] (ℤ.pos 5 ∷ ℤ.pos 6 ∷ ℤ.pos 7 ∷ []) (ℤ.pos 7 ∷ []) (
      accept_into_queue_loop
        (λ m. ℤ.pos 0)
        pos_part
        (two_come ∷ last_comes ∷ [])
        1
        (listening, awaited))
unfolding AreFilling AreAccepted in_order
accept_into_queue_loop-Filled_example =
    accept_into_queue_loop-Filled (λ m. ℤ.pos 0) pos_part (λ m. refl) ((ℤ.pos 5, ℤ.pos 6 ∷ []) ∷ [])
      (two_come ∷ []) last_comes [] listening awaited [] [] 0 [] (ℤ.pos 7)
      (two_come-IsFilling, (refl, (refl, tt)), tt) last_comes-IsFinal tt refl
      (record {
        multishot = refl;
        transient = refl;
        async = refl;
        canceled = refl;
        seen_flag = refl;
        done_flag = refl;
        scheduled_flag = refl;
        results = refl;
        ref_count = refl;
      })
      awaited-IsFifo
