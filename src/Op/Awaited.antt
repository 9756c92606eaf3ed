-- ===== src/Op/Awaited.antt =====
-- A blocking call whose fiber is resumed first, and that waits for the completion of the operation
-- that it has canceled (ext/um/um.c).
use uringmachine.Base.{
  ℕ, suc, ◌+◌, ◌-◌, ◌≡◌, sym, ap, subst, ◌∙◌, Bool, true, false, if◌then◌else◌, List, [], ◌∷◌, ◌++◌,
  ℤ, Outcome, ok, ◌>>=◌,
}
use uringmachine.Op.State.{Op, cancel_sqe, Core}
use uringmachine.Op.{um_op_release, um_get_sqe}
use uringmachine.Op.Schedule.{um_cancel_op, um_process_cqe, process_runqueue_op}
use uringmachine.Op.Blocking.{End, finish_op, um_verify_op_completion, raised_value, resumed_with}
use uringmachine.Op.Steps.{
  Single, completed, completed-Completed, process_cqe-completed, resumed,
  process_runqueue_op-resumed, Freed,
}
use uringmachine.Op.Lifecycle.{resumed_completed_done, resumed_completed-Freed}
use uringmachine.Op.Await.{
  Switch, await_prepare, unless_done, await_loop, um_cancel_op_and_await_cqe,
  um_verify_op_completion_await, finish_op_await,
}

-- The fiber is resumed, and the operation `a` is as it was.
abbrev pub IsIdle : ℕ → Switch → Type 0
IsIdle a switch = (m : Core) → (m' : Core) × (switch m ≡ ok m') × (m'.ops a ≡ m.ops a)

unfoldable pub AreIdle : ℕ → List Switch → Type 0
AreIdle a [] = Unit {0}
AreIdle a (switch ∷ switches) = IsIdle a switch × AreIdle a switches

-- The completion of the operation comes at some point, and the fiber is resumed for it.
abbrev pub IsCompleting : ℕ → (res : ℤ) → (more : Bool) → Switch → Type 0
IsCompleting a res more switch =
    (m : Core)
    → (m₁ : Core) × (switch m
        ≡ ok
            (process_runqueue_op
              (um_process_cqe m₁ (record { user_data = a; res = res; more = more })) a).1)
      × (m₁.ops a ≡ m.ops a)

-- The switches one after the other.
unfoldable pub all_of : List Switch → Core → Outcome Core
all_of [] m = ok m
all_of (switch ∷ switches) m = switch m >>= all_of switches

-- A single-shot operation that is waited for.
record Pending (op : Op) : Type 0 where
  single : Single op
  not_done : op.cqe_done ≡ false
  not_canceled : op.canceled ≡ false
  ref_count : op.ref_count ≡ 2

-- The machine in which the completion comes: the one that `completing` makes of `waiting`, the machine
-- behind the switches in between.
record Arrived (a : ℕ) (res : ℤ) (more : Bool) (switch : Switch)
    (c : IsCompleting a res more switch) (idle : List Switch) (m : Core) (r : Outcome Core)
    : Type 0 where
  waiting : Core
  behind : all_of idle m ≡ ok waiting
  pending : Pending ((c waiting).0.ops a)
  eq : r ≡ ok (resumed (completed (c waiting).0 a res) a)

round :
    (switch : Switch) (switches : List Switch) (count a : ℕ) (m : Core)
    → Pending (m.ops a)
    → await_loop (switch ∷ switches) count a m ≡ (switch m >>= await_loop switches (count + 1) a)
unfolding await_loop await_prepare unless_done
round switch switches count a m p = simp (p.not_done, p.single.multishot)

await_done :
    (switches : List Switch) (count a : ℕ) (m : Core)
    → (m.ops a).cqe_done ≡ true
    → await_loop switches count a m ≡ ok m
unfolding await_loop unless_done
await_done [] count a m d = simp d
await_done (switch ∷ switches) count a m d = simp d

-- However often the fiber is resumed in between.
await_loop-Arrived :
    (idle : List Switch) (switch : Switch) (more_switches : List Switch) (count n : ℕ) (res : ℤ)
    (more : Bool) (m : Core)
    → AreIdle (suc n) idle
    → (c : IsCompleting (suc n) res more switch) → Pending (m.ops (suc n))
    → Arrived
        (suc n)
        res
        more
        switch
        c
        idle
        m
        (await_loop (idle ++ switch ∷ more_switches) count (suc n) m)
unfolding AreIdle all_of
await_loop-Arrived [] switch more_switches count n res more m i c p =
    let a = suc n in
    let (m₁, r, e) = c m in
    let p₁ = subst Pending (sym e) p in
    let back = process_cqe-completed m₁ n res more p₁.single p₁.not_canceled p₁.ref_count in
    let there =
      process_runqueue_op-resumed (completed m₁ a res) a (completed-Completed m₁ a res).ref_count in
    record {
      waiting = m;
      behind = (λ i. ok m);
      pending = p₁;
      eq =
          round switch more_switches count a m p
          ∙ ap (λ x. x >>= await_loop more_switches (count + 1) a)
              (r ∙ ap (λ x. ok (process_runqueue_op x a).1) back ∙ ap (λ x. ok x.1) there)
          ∙ await_done more_switches (count + 1) a (resumed (completed m₁ a res) a)
              (resumed_completed_done m₁ a res);
    }
await_loop-Arrived (s ∷ idle) switch more_switches count n res more m i c p =
    let a = suc n in
    let switches = idle ++ switch ∷ more_switches in
    let (m', r, e) = i.0 m in
    let next =
      await_loop-Arrived idle switch more_switches (count + 1) n res more m' i.1 c
        (subst Pending (sym e) p) in
    record {
      waiting = next.waiting;
      behind = ap (λ x. x >>= all_of idle) r ∙ next.behind;
      pending = next.pending;
      eq =
          round s switches count a m p
          ∙ ap (λ x. x >>= await_loop switches (count + 1) a) r
          ∙ next.eq;
    }

asked : Core → ℕ → Core
asked m a = record m {
  room = m.room - 1;
  sqes = cancel_sqe a ∷ m.sqes;
  ops_unsubmitted = m.ops_unsubmitted + 1;
}

cancel_op-asked : (m : Core) (a r : ℕ) → m.room ≡ suc r → um_cancel_op m a ≡ ok (asked m a)
unfolding um_cancel_op um_get_sqe asked
cancel_op-asked m a r e = simp e

-- How the call ends. `waiting` is the machine behind the cancellation and the switches in between, and
-- `arrival` the one that the completion of the operation finds when it comes from there: next to that
-- one, the operation is freed once.
pub record GivesUpLate (a : ℕ) (m : Core) (idle : List Switch) (arrival : Core → Core)
    (otherwise : End) (r : Outcome (End × Core)) : Type 0 where
  pub waiting : Core
  pub behind : (um_cancel_op m a >>= all_of idle) ≡ ok waiting
  pub last : Core
  pub end : r ≡ ok (otherwise, last)
  pub freed : Freed (arrival waiting) last a
  pub ref_count : (last.ops a).ref_count ≡ 0

-- A single-shot operation with two references that is not done when its fiber is resumed, with room
-- for one more entry in the submission queue: however often the fiber is resumed before the completion
-- comes, the call cancels the operation and goes on waiting until the completion does come. It then
-- raises the exception or returns the value that the fiber was first resumed with, and the operation
-- has been put on the free list once, in front of what the completion found there.
pub finish_op_await-GivesUpLate :
    (idle : List Switch) (switch : Switch) (more_switches : List Switch) (m : Core) (n r : ℕ)
    (res : ℤ) (more : Bool) (give : ℤ → ℤ) (value : ℕ) (is_exception : Bool)
    → AreIdle (suc n) idle
    → (c : IsCompleting (suc n) res more switch) → Single (m.ops (suc n))
    → (m.ops (suc n)).cqe_done ≡ false
    → (m.ops (suc n)).canceled ≡ false
    → (m.ops (suc n)).ref_count ≡ 2
    → m.room ≡ suc r
    → GivesUpLate
        (suc n)
        m
        idle
        (λ waiting. (c waiting).0)
        (if is_exception then raised_value else resumed_with value)
        (finish_op_await (idle ++ switch ∷ more_switches) give value is_exception m (suc n))
unfolding finish_op_await um_verify_op_completion_await um_cancel_op_and_await_cqe asked
finish_op_await-GivesUpLate idle switch more_switches m n r res more give value is_exception i c s d
      k e room =
    let a = suc n in
    let switches = idle ++ switch ∷ more_switches in
    let p : Pending ((asked m a).ops a) = record {
      single = s;
      not_done = d;
      not_canceled = k;
      ref_count = e;
    } in
    let arrived = await_loop-Arrived idle switch more_switches 0 n res more (asked m a) i c p in
    let before = (c arrived.waiting).0 in
    let m₁ = resumed (completed before a res) a in
    let all : um_cancel_op_and_await_cqe switches m a ≡ ok m₁ =
      ap (λ x. x >>= await_loop switches 0 a) (cancel_op-asked m a r room) ∙ arrived.eq in
    let f = resumed_completed-Freed before a res arrived.pending.single in
    record {
      waiting = arrived.waiting;
      behind = ap (λ x. x >>= all_of idle) (cancel_op-asked m a r room) ∙ arrived.behind;
      last = um_op_release m₁ a;
      end = simp (d, all);
      freed = f.0;
      ref_count = f.1;
    }

-- Where the operation is done, it makes no difference whether its completion would be waited for.
pub finish_op_await-finish_op :
    (switches : List Switch) (give : ℤ → ℤ) (value : ℕ) (is_exception : Bool) (m : Core) (a : ℕ)
    → (m.ops a).cqe_done ≡ true
    → finish_op_await switches give value is_exception m a ≡ finish_op give value is_exception m a
unfolding finish_op_await um_verify_op_completion_await finish_op um_verify_op_completion
finish_op_await-finish_op switches give value is_exception m a d = simp d
