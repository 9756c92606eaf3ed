-- ===== src/Sidecar.antt =====
-- The signal between the sidecar thread and the machine's thread: ext/um/um_sidecar.c. The two run in
-- parallel, so that a step is one access to the signal, or one system call.
pub mod Wakeup
pub mod Tests
use uringmachine.Base.{ℕ, ◌≡◌, Bool, true, false, ◌==◌, if◌then◌else◌}

-- Where the machine's thread is in `xchg_futex_wait(futexp, 0, 1)`. `expected` is its variable
-- `newval`, which a compare-exchange that fails overwrites with what it found. `asleep`: in FUTEX_WAIT.
pub data Waiter : Type 0 where
  outside : Waiter
  comparing : (expected : ℕ) → Waiter
  going_to_wait : (expected : ℕ) → Waiter
  asleep : (expected : ℕ) → Waiter

-- Where the sidecar thread is in `xchg_futex_wake(futexp, 1, 0)`. `waking`: before FUTEX_WAKE.
pub data Waker : Type 0 where
  idle : Waker
  exchanging : (expected : ℕ) → Waker
  pausing : (expected : ℕ) → Waker
  waking : Waker

pub record State : Type 0 where
  pub signal : ℕ
  pub waiter : Waiter
  pub waker : Waker

-- What a wake-up does to the machine's thread: FUTEX_WAIT returns.
unfoldable pub awaken : Waiter → Waiter
awaken outside = outside
awaken (comparing e) = comparing e
awaken (going_to_wait e) = going_to_wait e
awaken (asleep e) = comparing e

-- FUTEX_WAIT puts the thread to sleep only while the signal is 0.
unfoldable pub wait_at : Waiter → State → State
wait_at outside s = record s { waiter = comparing 1 }
wait_at (comparing e) s =
    if s.signal == e
    then record s { signal = 0; waiter = outside }
    else record s { waiter = going_to_wait s.signal }
wait_at (going_to_wait e) s = record s { waiter = if s.signal == 0 then asleep e else comparing e }
wait_at (asleep e) s = s

-- A step of the machine's thread.
unfoldable pub xchg_futex_wait : State → State
unfolding wait_at
xchg_futex_wait s = wait_at s.waiter s

unfoldable pub wake_at : Waker → State → State
unfolding awaken
wake_at idle s = record s { waker = exchanging 0 }
wake_at (exchanging e) s =
    if s.signal == e
    then record s { signal = 1; waker = waking }
    else record s { waker = pausing s.signal }
wake_at (pausing e) s = record s { waker = exchanging e }
wake_at waking s = record s { waiter = awaken s.waiter; waker = idle }

-- A step of the sidecar thread.
unfoldable pub xchg_futex_wake : State → State
unfolding wake_at
xchg_futex_wake s = wake_at s.waker s

-- FUTEX_WAIT may return early, for a signal that the thread gets or for no reason.
unfoldable pub interrupt : State → State
unfolding awaken
interrupt s = record s { waiter = awaken s.waiter }

pub data Step (s : State) : State → Type 0 where
  waits : Step s (xchg_futex_wait s)
  wakes : Step s (xchg_futex_wake s)
  interrupted : Step s (interrupt s)

abbrev pub start : State
start = record { signal = 0; waiter = outside; waker = idle }

pub data Reach : State → Type 0 where
  here : Reach start
  next : {s t : State} → Reach s → Step s t → Reach t
