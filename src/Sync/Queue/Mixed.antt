-- ===== src/Sync/Queue/Mixed.antt =====
-- What happens when one queue is taken from at both ends.
use uringmachine.Base.{ℕ, ◌≡◌, [], ◌∷◌, arith}
use uringmachine.Sync.Queue.{Entry, um_queue_init, push, shift, pop, run}

-- After a shift that leaves one entry, a pop hands that entry out but does not empty the queue: its
-- value is handed out again.
pub run_shift_pop_shift :
    (memory : ℕ → Entry) (v w : ℕ)
    → run (um_queue_init memory) (push v ∷ push w ∷ shift ∷ pop ∷ shift ∷ []) ≡ v ∷ w ∷ w ∷ []
unfolding run um_queue_init
run_shift_pop_shift memory v w = ground arith

-- The same the other way round.
pub run_pop_shift_pop :
    (memory : ℕ → Entry) (v w : ℕ)
    → run (um_queue_init memory) (push v ∷ push w ∷ pop ∷ shift ∷ pop ∷ []) ≡ w ∷ v ∷ v ∷ []
unfolding run um_queue_init
run_pop_shift_pop memory v w = ground arith
