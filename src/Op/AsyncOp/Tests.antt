-- ===== src/Op/AsyncOp/Tests.antt =====
-- AsyncOps at a concrete state.
use uringmachine.Base.{◌≡◌, refl, true, false, [], ℤ, negsuc, ok, some, none}
use uringmachine.Op.State.{OpKind, no_flags, Op, Core}
use uringmachine.Op.Schedule.{um_process_cqe, process_runqueue_op}
use uringmachine.Op.Await.{Switch}
use uringmachine.Op.Tests.{core, sleeping}
use uringmachine.Op.AsyncOp.{async_op_result, async_op_cancelled_p, async_op_kind, sym_timeout}
use uringmachine.Op.AsyncOp.Life.{Running}
use uringmachine.Op.AsyncOp.Prep.{Whole, um_prep_timeout-Whole}
use uringmachine.Op.AsyncOp.Awaiting.{
  Returned, FreedTwice, async_op_await-Returned, async_op_await-FreedTwice,
}

um_prep_timeout-Whole_example : Whole core 2 (negsuc 61) false
um_prep_timeout-Whole_example = um_prep_timeout-Whole core 1 99 (negsuc 61) false refl refl

-- An operation of a timeout that runs.
abbrev ticking : Op
ticking = record sleeping {
  kind = OpKind.op_timeout;
  flags = record no_flags { async = true; transient = true };
}

abbrev ticks : Core
ticks = record core { ops = λ a. ticking; transient_head = 1 }

ticking-Running : Running ticking
ticking-Running = record {
  multishot = refl;
  free_iovecs = refl;
  transient = refl;
  canceled = refl;
  cqe_done = refl;
  ref_count = refl;
}

-- Other fibers run until the timeout fires.
abbrev fires : ℤ → Switch
fires res m =
    ok
      (process_runqueue_op (um_process_cqe m (record { user_data = 1; res = res; more = false }))
        1).1

async_op_await-Returned_example : Returned 7 (fires (negsuc 61)) [] ticks 1 (negsuc 61) false
async_op_await-Returned_example =
    async_op_await-Returned 7 (fires (negsuc 61)) [] ticks 0 (negsuc 61) false ticking-Running
      (λ m. (m, refl, refl)) refl

async_op_await-FreedTwice_example : FreedTwice 7 (fires (negsuc 124)) [] ticks 1
async_op_await-FreedTwice_example =
    async_op_await-FreedTwice 7 (fires (negsuc 124)) [] ticks 0 (negsuc 124) false ticking-Running
      (λ m. (m, refl, refl)) refl

cancelled :
    async_op_cancelled_p
      (record core {
        ops = λ a. record ticking { res = negsuc 124; flags = record no_flags { cqe_done = true } };
      })
      1
    ≡ ok (some true)
unfolding async_op_cancelled_p
cancelled = refl

kind_of_timeout : async_op_kind ticks 1 ≡ ok sym_timeout
unfolding async_op_kind
kind_of_timeout = refl

no_result_yet : async_op_result ticks 1 ≡ ok none
unfolding async_op_result
no_result_yet = refl
