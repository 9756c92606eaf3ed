-- ===== src/Sync/Queue/Refine.antt =====
-- Clients that push and shift only cannot tell a queue from a list.
use mathlib.Core.List.{map}
use uringmachine.Base.{
  ℕ, ◌≡◌, refl, ap, ◌∙◌, Option, none, some, List, [], ◌∷◌, ◌++◌, arith, ok, blocked, is_zero, true,
}
use uringmachine.Sync.Queue.{
  Entry, Queue, Call, push, shift, um_queue_init, um_queue_push, um_queue_shift, run,
}
use uringmachine.Sync.Queue.Fifo.{IsFifo, contents, um_queue_shift-contents}
use uringmachine.Sync.Queue.Push.{um_queue_push-contents}

-- A client that pushes a value, or shifts.
abbrev pub fifo_call : Option ℕ → Call
fifo_call (some v) = push v
fifo_call none = shift

-- What it sees of a list: a value goes to the end, and comes from the front; on an empty list it has
-- to wait.
pub fifo : List ℕ → List (Option ℕ) → List ℕ
fifo xs [] = []
fifo xs (some v ∷ calls) = fifo (xs ++ v ∷ []) calls
fifo [] (none ∷ calls) = []
fifo (x ∷ xs) (none ∷ calls) = x ∷ fifo xs calls

pub um_queue_init-IsFifo : (memory : ℕ → Entry) → IsFifo (um_queue_init memory) [] []
unfolding um_queue_init
um_queue_init-IsFifo memory = record {
  chain = refl;
  last = refl;
  distinct = tt;
  free = refl;
  distinct_free = tt;
  apart = λ b h. refl;
  below = λ b h. cc;
  below_free = λ b h. cc;
  positive = omega arith;
  counted = refl;
  ready = refl;
}

pub um_queue_shift-blocked : (q : Queue) → is_zero q.state ≡ true → um_queue_shift q ≡ blocked
unfolding um_queue_shift
um_queue_shift-blocked q h = ground arith

run-shift :
    (q q' : Queue) (v : ℕ) (calls : List Call)
    → um_queue_shift q ≡ ok (v, q')
    → run q (shift ∷ calls) ≡ v ∷ run q' calls
unfolding run
run-shift q q' v calls e = rw (e, run)

run_blocked :
    (q : Queue) (calls : List Call) → um_queue_shift q ≡ blocked → run q (shift ∷ calls) ≡ []
unfolding run
run_blocked q calls e = rw (e, run)

run-fifo_from :
    (q : Queue) (live spare : List ℕ) (calls : List (Option ℕ))
    → IsFifo q live spare
    → run q (map fifo_call calls) ≡ fifo (contents q live) calls
unfolding run fifo
run-fifo_from q live spare [] v = refl
run-fifo_from q live spare (some x ∷ calls) v =
    let (live', spare', v', e) = um_queue_push-contents q x live spare v in
    run-fifo_from (um_queue_push q x) live' spare' calls v' ∙ ap (λ xs. fifo xs calls) e
run-fifo_from q [] spare (none ∷ calls) v =
    run_blocked q (map fifo_call calls) (um_queue_shift-blocked q v.ready)
run-fifo_from q (a ∷ live) spare (none ∷ calls) v =
    let (q', e, v', same) = um_queue_shift-contents q a live spare v in
    run-shift q q' _ (map fifo_call calls) e
    ∙ ap (◌∷◌ (q.entries a).value)
        (run-fifo_from q' live (a ∷ spare) calls v' ∙ ap (λ xs. fifo xs calls) same)

-- Any history of pushes and shifts of a new queue returns what a list returns: the values in the
-- order in which they were pushed, each once.
pub run-fifo :
    (memory : ℕ → Entry) (calls : List (Option ℕ))
    → run (um_queue_init memory) (map fifo_call calls) ≡ fifo [] calls
run-fifo memory calls =
    run-fifo_from (um_queue_init memory) [] [] calls (um_queue_init-IsFifo memory)
