-- ===== src/Sync/Mutex/Exclusion.antt =====
-- Mutual exclusion, and what an exception in `um_mutex_lock` does to it.
use uringmachine.Base.{ℕ, true, false, ◌≡◌, ◌≢◌, arith}
use uringmachine.Sync.Mutex.{
  mutex_locked, outside, waiting, inside, State, lock_test, synchronize_start, synchronize_complete,
  synchronize_raised, Step, enter, resume, raised, exit, woken, Reach, here, next,
}

-- At most one fiber is inside, and the mutex is locked exactly while one is.
pub record IsExclusive (s : State) : Type 0 where
  pub locked : (f : ℕ) → s.place f ≡ inside → s.mutex.state ≡ mutex_locked
  pub single : (f g : ℕ) → s.place f ≡ inside → s.place g ≡ inside → f ≡ g

lock_test-IsExclusive : (s : State) (f : ℕ) → IsExclusive s → IsExclusive (lock_test s f)
unfolding lock_test
lock_test-IsExclusive s f v = record {
  locked = λ g h. ground (arith, v.locked g);
  single = λ g k h i. ground (arith, v.single g k, v.locked g, v.locked k);
}

synchronize_start-IsExclusive :
    (s : State) (f : ℕ) → IsExclusive s → IsExclusive (synchronize_start s f)
unfolding synchronize_start
synchronize_start-IsExclusive s f v =
    lock_test-IsExclusive _ f
      (record { locked = λ g h. ground (arith, v.locked g); single = λ g k h i. v.single g k h i })

synchronize_complete-IsExclusive :
    (s : State) (f : ℕ)
    → s.place f ≡ inside
    → IsExclusive s
    → IsExclusive (synchronize_complete s f)
unfolding synchronize_complete
synchronize_complete-IsExclusive s f e v = record {
  locked = λ g h. ground (arith, v.single f g);
  single = λ g k h i. ground (arith, v.single g k);
}

Step-IsExclusive : {s t : State} → Step s false t → IsExclusive s → IsExclusive t
Step-IsExclusive {s} (enter f e) v = synchronize_start-IsExclusive s f v
Step-IsExclusive {s} (resume f e) v = lock_test-IsExclusive s f v
Step-IsExclusive {s} (exit f e) v = synchronize_complete-IsExclusive s f e v
Step-IsExclusive {s} (woken f e) v = record {
  locked = λ g h. ground (arith, v.locked g);
  single = λ g k h i. ground (arith, v.single g k);
}

-- However the fibers of a machine take turns, no two are in the block of one mutex at a time, and
-- the mutex is locked while one is, as long as no fiber is resumed with an exception while it waits
-- for the mutex.
pub Reach-IsExclusive : {s : State} → Reach s → IsExclusive s
Reach-IsExclusive here = record { locked = λ f h. cc; single = λ f g h i. cc }
Reach-IsExclusive (next r st) = Step-IsExclusive st (Reach-IsExclusive r)

-- What an exception in a fiber `f` that waits for the mutex comes to: two fibers are in the block.
pub record BreaksExclusion (s : State) (f g h : ℕ) : Type 0 where
  pub after : State
  pub last : State
  pub first : Step s true after
  pub second : Step after false last
  pub still : last.place g ≡ inside
  pub too : last.place h ≡ inside
  pub different : g ≢ h

-- In a state that is reached without such exceptions, an exception that is raised in a fiber `f` while
-- it waits for the mutex that `g` holds frees the mutex: a third fiber `h` that calls `synchronize`
-- then runs its block while `g` is still in its.
pub raised-BreaksExclusion :
    {s : State} (f g h : ℕ)
    → Reach s
    → s.place f ≡ waiting
    → s.place g ≡ inside
    → s.place h ≡ outside
    → BreaksExclusion s f g h
unfolding synchronize_start synchronize_raised synchronize_complete
raised-BreaksExclusion {s} f g h r w i o = record {
  after = synchronize_raised s f;
  last = synchronize_start (synchronize_raised s f) h;
  first = raised f w;
  second = enter h (ground arith);
  still = ground arith;
  too = ground arith;
  different = ground arith;
}
