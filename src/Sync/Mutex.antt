-- ===== src/Sync/Mutex.antt =====
-- `struct um_mutex` of ext/um/um_sync.c, and the fibers of one machine that use it. Fibers do not
-- preempt one another: they change only where one of them waits, so each handler below runs from
-- one wait to the next without interruption.
pub mod Exclusion
use uringmachine.Base.{
  ℕ, zero, suc, ◌+◌, Bool, true, false, ◌≡◌, List, [], ◌∷◌, Option, none, some, ◌==◌, is_zero,
  if◌then◌else◌, sub32,
}

abbrev pub mutex_unlocked : ℕ
mutex_unlocked = 0

abbrev pub mutex_locked : ℕ
mutex_locked = 1

pub record Mutex : Type 0 where
  pub state : ℕ
  pub num_waiters : ℕ

pub um_mutex_init : Mutex
um_mutex_init = record { state = mutex_unlocked; num_waiters = 0 }

-- The part of `um_mutex_lock` before its loop.
unfoldable pub lock_enter : Mutex → Mutex
lock_enter m = record m { num_waiters = m.num_waiters + 1 }

-- The test of the loop: whether the fiber has to wait on the futex.
unfoldable pub must_wait : Mutex → Bool
must_wait m = m.state == mutex_locked

-- The part of `um_mutex_lock` behind its loop.
unfoldable pub lock_leave : Mutex → Mutex
lock_leave m = record m { num_waiters = sub32 m.num_waiters 1; state = mutex_locked }

-- `um_mutex_unlock`: the mutex is free; whether a waiter is woken.
pub um_mutex_unlock : Mutex → Mutex × Bool
um_mutex_unlock m =
    let m' = record m { state = mutex_unlocked } in
    (m', if is_zero m'.num_waiters then false else true)

-- Where a fiber stands in `um_mutex_synchronize`. `waiting`: in the loop of `um_mutex_lock`.
-- `inside`: in the block. `leaving`: in `um_futex_wake`, after it has freed the mutex.
pub data Place : Type 0 where
  outside waiting inside leaving : Place

pub record State : Type 0 where
  pub mutex : Mutex
  pub place : ℕ → Place

abbrev pub move : (ℕ → Place) → ℕ → Place → ℕ → Place
move place f p g = if f == g then p else place g

-- After the test of the loop: the fiber waits, or takes the mutex and runs the block.
unfoldable pub lock_test : State → ℕ → State
unfolding must_wait lock_leave
lock_test s f =
    if must_wait s.mutex
    then record s { place = move s.place f waiting }
    else record { mutex = lock_leave s.mutex; place = move s.place f inside }

-- `synchronize_start` up to the first wait or the block.
unfoldable pub synchronize_start : State → ℕ → State
unfolding lock_test lock_enter
synchronize_start s f = lock_test (record s { mutex = lock_enter s.mutex }) f

-- `synchronize_complete` up to the wait in `um_futex_wake`, or to the end.
pub synchronize_complete : State → ℕ → State
unfolding um_mutex_unlock
synchronize_complete s f =
    let (m, wakes) = um_mutex_unlock s.mutex in
    record { mutex = m; place = move s.place f (if wakes then leaving else outside) }

-- `um_futex_wait` raises an exception in the loop of `um_mutex_lock`, and with it `synchronize_start`
-- ends: `num_waiters` is left as it is, and `rb_ensure` runs `synchronize_complete`.
pub synchronize_raised : State → ℕ → State
unfolding synchronize_complete
synchronize_raised s f = synchronize_complete s f

-- What a fiber does when it runs: it calls `synchronize`, goes on after a futex wait (woken, or
-- because the futex had another value), is resumed with an exception in that wait, ends its block (by
-- an exception or not), or goes on after `um_futex_wake`. The index tells whether the step is an
-- exception in the wait.
pub data Step (s : State) : (exception : Bool) → State → Type 0 where
  enter : (f : ℕ) → s.place f ≡ outside → Step s false (synchronize_start s f)
  resume : (f : ℕ) → s.place f ≡ waiting → Step s false (lock_test s f)
  raised : (f : ℕ) → s.place f ≡ waiting → Step s true (synchronize_raised s f)
  exit : (f : ℕ) → s.place f ≡ inside → Step s false (synchronize_complete s f)
  woken : (f : ℕ) → s.place f ≡ leaving → Step s false (record s { place = move s.place f outside })

abbrev pub start : State
start = record { mutex = record { state = mutex_unlocked; num_waiters = 0 }; place = λ f. outside }

-- The states that are reached without an exception in a wait.
pub data Reach : State → Type 0 where
  here : Reach start
  next : {s t : State} → Reach s → Step s false t → Reach t
