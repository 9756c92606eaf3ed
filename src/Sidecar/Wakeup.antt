-- ===== src/Sidecar/Wakeup.antt =====
-- No wake-up of the sidecar thread is lost, and what a wake-up without a signal does.
use uringmachine.Base.{ℕ, zero, suc, ◌≡◌, ◌≤◌, arith, refl, ◌≢◌}
use uringmachine.Sidecar.{
  Waiter, Waker, outside, comparing, going_to_wait, asleep, waking, State, wait_at, wake_at, awaken,
  xchg_futex_wait, xchg_futex_wake, interrupt, Step, waits, wakes, interrupted, Reach, here, next,
}

-- What the next compare-exchange expects.
abbrev pub expects : Waiter → ℕ
expects outside = 1
expects (comparing e) = e
expects (going_to_wait e) = e
expects (asleep e) = e

-- A sleeping thread whose signal is set is about to be woken.
pub record IsCovered (s : State) : Type 0 where
  pub signal : s.signal ≤ 1
  pub expected : expects s.waiter ≤ 1
  pub covered : (e : ℕ) → s.waiter ≡ asleep e → s.signal ≡ 1 → s.waker ≡ waking
  pub cleared : (e : ℕ) → s.waiter ≡ asleep e → e ≡ 0
  pub seen : (e : ℕ) → s.waiter ≡ going_to_wait e → e ≤ s.signal

wait-IsCovered : (w : Waiter) (s : State) → s.waiter ≡ w → IsCovered s → IsCovered (wait_at w s)
unfolding wait_at
wait-IsCovered w s p v = record {
  signal = ground (arith, v.signal);
  expected = ground (arith, v.signal, v.expected);
  covered = λ e h one. ground (arith, v.covered e);
  cleared = λ e h. ground (arith, v.cleared e, v.seen e);
  seen = λ e h. ground (arith, v.seen e, v.signal);
}

wake-IsCovered : (w : Waker) (s : State) → s.waker ≡ w → IsCovered s → IsCovered (wake_at w s)
unfolding wake_at awaken
wake-IsCovered w s p v = record {
  signal = ground (arith, v.signal);
  expected = ground (arith, v.signal, v.expected);
  covered = λ e h one. ground (arith, v.covered e);
  cleared = λ e h. ground (arith, v.cleared e, v.seen e);
  seen = λ e h. ground (arith, v.seen e, v.signal);
}

interrupt-IsCovered : (s : State) → IsCovered s → IsCovered (interrupt s)
unfolding interrupt awaken
interrupt-IsCovered s v = record {
  signal = v.signal;
  expected = ground (arith, v.expected);
  covered = λ e h one. ground (arith, v.covered e);
  cleared = λ e h. ground (arith, v.cleared e, v.seen e);
  seen = λ e h. ground (arith, v.seen e, v.signal);
}

Step-IsCovered : {s t : State} → Step s t → IsCovered s → IsCovered t
unfolding xchg_futex_wait xchg_futex_wake
Step-IsCovered {s} waits v = wait-IsCovered s.waiter s refl v
Step-IsCovered {s} wakes v = wake-IsCovered s.waker s refl v
Step-IsCovered {s} interrupted v = interrupt-IsCovered s v

-- However the two threads interleave, and however often FUTEX_WAIT returns early: while the machine's
-- thread sleeps and the signal is set, the sidecar thread is about to call FUTEX_WAKE, so that no
-- wake-up is lost.
pub Reach-IsCovered : {s : State} → Reach s → IsCovered s
Reach-IsCovered here = record {
  signal = omega arith;
  expected = omega arith;
  covered = λ e h one. cc;
  cleared = λ e h. cc;
  seen = λ e h. cc;
}
Reach-IsCovered (next r st) = Step-IsCovered st (Reach-IsCovered r)

-- The call of `um_sidecar_signal_wait` has returned, and the signal is cleared.
pub record Received (s : State) : Type 0 where
  pub waiter : s.waiter ≡ outside
  pub signal : s.signal ≡ 0

unfoldable pub steps : ℕ → State → State
unfolding xchg_futex_wait
steps zero s = s
steps (suc k) s = steps k (xchg_futex_wait s)

-- The wake-up that a sleeping thread waits for.
unfoldable pub woken_up : Waiter → State → State
unfolding xchg_futex_wake
woken_up outside s = s
woken_up (comparing e) s = s
woken_up (going_to_wait e) s = s
woken_up (asleep e) s = xchg_futex_wake s

-- With the signal set, from any place but outside of the call.
pub Received-steps :
    (w : Waiter) (s : State)
    → IsCovered s
    → s.signal ≡ 1
    → s.waiter ≡ w
    → w ≢ outside
    → (k : ℕ) × (k ≤ 4) × Received (steps k (woken_up w s))
unfolding steps woken_up xchg_futex_wait xchg_futex_wake wait_at wake_at awaken
Received-steps outside s v one p n = absurd (n refl)
Received-steps (comparing zero) s v one p n =
    (3, omega arith, record { waiter = ground arith; signal = ground arith })
Received-steps (comparing (suc e)) s v one p n = (
  1,
  omega arith,
  record { waiter = ground (arith, v.expected); signal = ground (arith, v.expected) },
)
Received-steps (going_to_wait zero) s v one p n =
    (4, omega arith, record { waiter = ground arith; signal = ground arith })
Received-steps (going_to_wait (suc e)) s v one p n = (
  2,
  omega arith,
  record { waiter = ground (arith, v.expected); signal = ground (arith, v.expected) },
)
Received-steps (asleep e) s v one p n = (
  3,
  omega arith,
  record {
    waiter = ground (arith, v.covered e, v.cleared e);
    signal = ground (arith, v.covered e, v.cleared e);
  },
)

-- In any state that the two threads reach, with the signal set and the machine's thread anywhere in
-- `um_sidecar_signal_wait`: after at most four steps of that thread, before which, if it sleeps, the
-- sidecar thread does its next step, the call has returned and the signal is cleared.
pub Reach-Received :
    {s : State}
    → Reach s
    → s.signal ≡ 1
    → s.waiter ≢ outside
    → (k : ℕ) × (k ≤ 4) × Received (steps k (woken_up s.waiter s))
Reach-Received {s} r one n = Received-steps s.waiter s (Reach-IsCovered r) one refl n

-- In any state that the two threads reach, where the machine's thread sleeps and the signal is not
-- set: if FUTEX_WAIT returns early, the thread's next step ends the call, with no signal received,
-- since the compare-exchange now expects the 0 that it finds.
pub interrupt-returns :
    {s : State} (e : ℕ)
    → Reach s
    → s.waiter ≡ asleep e
    → s.signal ≡ 0
    → Received (xchg_futex_wait (interrupt s))
unfolding xchg_futex_wait wait_at interrupt awaken
interrupt-returns {s} e r w z =
    let v = Reach-IsCovered r in
    record { waiter = ground (arith, v.cleared e); signal = ground (arith, v.cleared e) }
