-- ===== src/Op/QueueTests.antt =====
-- The run queue, `um_select` and `um_accept_each` at a concrete state.
use uringmachine.Base.{
  ◌≡◌, ◌==◌, if◌then◌else◌, List, arith, refl, false, [], ◌∷◌, negsuc, ok, true, ℤ,
}
use uringmachine.Op.State.{no_flags, cancel_sqe, Core}
use uringmachine.Op.Schedule.{um_switch}
use uringmachine.Op.Select.{Event, Poll, SelectEnd, um_select_finish}
use uringmachine.Op.Selected.{
  Succeed, ready_fds, cancels, um_select_finish-ready, um_select_finish-first_error,
}
use uringmachine.Op.RunQueue.{IsQueued}
use uringmachine.Op.Reach.{AreSkipped, um_switch-reaches}
use uringmachine.Op.Schedule.{um_process_cqe, um_process_ready_cqes, process_runqueue_op}
use uringmachine.Op.Multishot.{Resumption, EachEnd, accept_each_loop}
use uringmachine.Op.Listening.{IsListening}
use uringmachine.Op.Arrivals.{arrivals}
use uringmachine.Op.Accepted.{AreArriving, AreAccepted, in_order, accept_each_loop-in_order}
use uringmachine.Op.Tests.{sleeping, core}

-- Two polls, of which the second is done.
abbrev polled : Core
polled = record core {
  ops = λ a.
      if a == 2
      then record sleeping { value = 7; flags = record no_flags { cqe_done = true } }
      else sleeping;
}

abbrev polls : List Poll
polls = record { event = Event.pollin; op = 1 } ∷ record { event = Event.pollout; op = 2 } ∷ []

um_select_finish-ready_example :
    (last : Core) × (um_select_finish false polls polled
      ≡ ok (SelectEnd.selected (record { rfds = []; wfds = 7 ∷ []; efds = [] }), last))
    × (last.sqes ≡ cancel_sqe 1 ∷ [])
unfolding Succeed ready_fds cancels
um_select_finish-ready_example =
    um_select_finish-ready polls polled (omega arith) (refl, (refl, tt))

-- The second has failed.
abbrev failed_poll : Core
failed_poll = record polled {
  ops = λ a.
      if a == 2
      then record sleeping { res = negsuc 8; flags = record no_flags { cqe_done = true } }
      else sleeping;
}

um_select_finish-first_error_example :
    (last : Core) × (um_select_finish false polls failed_poll
      ≡ ok (SelectEnd.raised_error (negsuc 8), last))
    × (last.sqes ≡ cancel_sqe 1 ∷ [])
unfolding Succeed cancels
um_select_finish-first_error_example =
    um_select_finish-first_error (record { event = Event.pollin; op = 1 } ∷ [])
      (record { event = Event.pollout; op = 2 }) [] failed_poll (omega arith) (refl, tt) refl refl

-- The second operation waits behind the first, which is to be skipped.
abbrev waiting : Core
waiting = record core {
  ops = λ a.
      if a == 1
      then record sleeping { next = 2; flags = record no_flags { scheduled = true; skip = true } }
      else record sleeping { value = 7; flags = record no_flags { scheduled = true } };
  runqueue_head = 1;
  runqueue_tail = 2;
  ops_runqueue = 2;
}

waiting-IsQueued : IsQueued waiting (1 ∷ 2 ∷ [])
waiting-IsQueued = record {
  chain = (refl, omega arith, (refl, omega arith, refl));
  last = refl;
  distinct = (refl, (refl, tt));
  counted = refl;
}

um_switch-reaches_example :
    (last : Core) × (um_switch 2 waiting ≡ ok ((4, 7), last)) × IsQueued last []
unfolding AreSkipped
um_switch-reaches_example =
    um_switch-reaches (1 ∷ []) 2 [] 2 waiting waiting-IsQueued (refl, tt) refl refl (omega arith)

-- A socket that is listened to.
abbrev listening : Core
listening = record core {
  ops = λ a. record sleeping { flags = record no_flags { multishot = true } };
}

-- Two connections, and then a last one.
abbrev two_come : Resumption
two_come m = ok (
  false,
  (process_runqueue_op (um_process_ready_cqes m (arrivals 1 (ℤ.pos 5 ∷ ℤ.pos 6 ∷ []))) 1).1,
)

abbrev last_comes : Resumption
last_comes m = ok (
  false,
  (process_runqueue_op
      (um_process_cqe (um_process_ready_cqes m (arrivals 1 []))
        (record { user_data = 1; res = ℤ.pos 7; more = false }))
      1).1,
)

accept_each_loop-in_order_example :
    (end : Core) × (accept_each_loop (two_come ∷ last_comes ∷ []) 1 listening
      ≡ ok (ℤ.pos 5 ∷ ℤ.pos 6 ∷ ℤ.pos 7 ∷ [], EachEnd.returned_nil, end))
    × IsListening (end.ops 1) true true false (ℤ.pos 7 ∷ []) 1
unfolding AreArriving AreAccepted in_order
accept_each_loop-in_order_example =
    accept_each_loop-in_order ((ℤ.pos 5, ℤ.pos 6 ∷ []) ∷ []) (two_come ∷ []) last_comes [] listening
      0 [] (ℤ.pos 7) ((λ m. (m, refl, refl)), (refl, (refl, tt)), tt) (λ m. (m, refl, refl)) tt refl
      (record {
        multishot = refl;
        transient = refl;
        async = refl;
        canceled = refl;
        seen_flag = refl;
        done_flag = refl;
        scheduled_flag = refl;
        results = refl;
        ref_count = refl;
      })
