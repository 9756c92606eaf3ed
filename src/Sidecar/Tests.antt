-- ===== src/Sidecar/Tests.antt =====
-- The signal in concrete runs.
use uringmachine.Base.{ℕ, ◌≡◌, ◌≤◌, ◌≢◌, refl, List, [], ◌∷◌}
use uringmachine.Sidecar.{
  State, outside, asleep, idle, waking, start, xchg_futex_wait, xchg_futex_wake, interrupt, Reach,
  here, next, waits, wakes,
}
use uringmachine.Sidecar.Wakeup.{
  IsCovered, Reach-IsCovered, Received, Reach-Received, interrupt-returns, steps, woken_up,
}

abbrev sleeping : State
sleeping = record { signal = 0; waiter = asleep 0; waker = idle }

sleeping-Reach : Reach sleeping
unfolding xchg_futex_wait
sleeping-Reach = next (next (next here waits) waits) waits

-- The sidecar thread has set the signal, and has not called FUTEX_WAKE yet.
abbrev signaled : State
signaled = record { signal = 1; waiter = asleep 0; waker = waking }

signaled-Reach : Reach signaled
unfolding xchg_futex_wake
signaled-Reach = next (next sleeping-Reach wakes) wakes

Reach-IsCovered_example : IsCovered signaled
Reach-IsCovered_example = Reach-IsCovered signaled-Reach

is_inside : asleep 0 ≢ outside
is_inside h = cc

Reach-Received_example : (k : ℕ) × (k ≤ 4) × Received (steps k (woken_up (asleep 0) signaled))
Reach-Received_example = Reach-Received signaled-Reach refl is_inside

interrupt-returns_example : Received (xchg_futex_wait (interrupt sleeping))
interrupt-returns_example = interrupt-returns 0 sleeping-Reach refl refl

data Move : Type 0 where
  wait wake : Move

move : Move → State → State
move wait s = xchg_futex_wait s
move wake s = xchg_futex_wake s

run : List Move → State → State
unfolding move
run [] s = s
run (m ∷ moves) s = run moves (move m s)

-- The machine's thread finds the signal set before FUTEX_WAIT, and takes it.
abbrev first : List Move
first = wait ∷ wait ∷ wake ∷ wake ∷ wait ∷ wait ∷ wait ∷ wait ∷ []

-- It calls again and sleeps; the late FUTEX_WAKE ends this call too.
abbrev second : List Move
second = wait ∷ wait ∷ wait ∷ wake ∷ wait ∷ []

run_first : run first start ≡ record { signal = 0; waiter = outside; waker = waking }
unfolding run xchg_futex_wait xchg_futex_wake
run_first = refl

run_second : run second (record { signal = 0; waiter = outside; waker = waking }) ≡ start
unfolding run xchg_futex_wait xchg_futex_wake
run_second = refl
