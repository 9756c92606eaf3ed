-- ===== src/Sync/Tests.antt =====
-- Queues and mutexes at concrete inputs.
use mathlib.Core.List.{map}
use uringmachine.Base.{ℕ, ◌≡◌, refl, arith, List, [], ◌∷◌, Option, some, none}
use uringmachine.Sync.Queue.{Entry, Queue, um_queue_init, run, push, pop, shift}
use uringmachine.Sync.Queue.Fifo.{IsFifo}
use uringmachine.Sync.Queue.Refine.{fifo_call, fifo, run-fifo}
use uringmachine.Sync.Queue.Mixed.{run_shift_pop_shift}
use uringmachine.Sync.Mutex.{
  State, start, must_wait, lock_enter, lock_leave, lock_test, synchronize_start, Reach, here, next,
  enter,
}
use uringmachine.Sync.Mutex.Exclusion.{
  IsExclusive, Reach-IsExclusive, BreaksExclusion, raised-BreaksExclusion,
}

abbrev zeroed : ℕ → Entry
zeroed a = record { prev = 0; next = 0; value = 0 }

abbrev calls : List (Option ℕ)
calls = some 7 ∷ some 8 ∷ none ∷ some 9 ∷ none ∷ none ∷ none ∷ []

run-fifo_example : run (um_queue_init zeroed) (map fifo_call calls) ≡ fifo [] calls
run-fifo_example = run-fifo zeroed calls

-- A queue that holds one value.
abbrev one_value : Queue
one_value = record {
  head = 1;
  tail = 1;
  free_head = 0;
  num_waiters = 0;
  state = 1;
  count = 1;
  entries = λ a. record { prev = 0; next = 0; value = 5 };
  next_entry = 2;
  wakes = 0;
}

one_value-IsFifo : IsFifo one_value (1 ∷ []) []
one_value-IsFifo = record {
  chain = (refl, omega arith, refl);
  last = refl;
  distinct = (refl, tt);
  free = refl;
  distinct_free = tt;
  apart = λ b h. refl;
  below = λ b h. ground arith;
  below_free = λ b h. cc;
  positive = omega arith;
  counted = refl;
  ready = refl;
}

run_shift_pop_shift_example :
    run (um_queue_init zeroed) (push 3 ∷ push 4 ∷ shift ∷ pop ∷ shift ∷ []) ≡ 3 ∷ 4 ∷ 4 ∷ []
run_shift_pop_shift_example = run_shift_pop_shift zeroed 3 4

Reach-IsExclusive_example : IsExclusive (synchronize_start start 1)
Reach-IsExclusive_example = Reach-IsExclusive (next here (enter 1 refl))

-- Fiber 2 is inside, and fiber 1 waits.
abbrev contended : State
contended = synchronize_start (synchronize_start start 2) 1

contended-Reach : Reach contended
unfolding synchronize_start lock_test must_wait lock_leave lock_enter
contended-Reach = next (next here (enter 2 refl)) (enter 1 refl)

raised-BreaksExclusion_example : BreaksExclusion contended 1 2 3
unfolding synchronize_start lock_test must_wait lock_leave lock_enter
raised-BreaksExclusion_example = raised-BreaksExclusion 1 2 3 contended-Reach refl refl refl
