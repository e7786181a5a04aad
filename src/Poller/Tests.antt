-- ===== src/Poller/Tests.antt =====
-- Runs of the poller and its callers, and the theorems at them.
use vclnet.Base.{
  ℕ, ◌+◌, ◌≡◌, ◌≢◌, refl, [], ◌∷◌, true, none, some, arith, lookup, insert, int_eq, pos,
}
use vclnet.Wait.{
  Vlsh, Waiter, WaitSet, has, include, exclude, combined_events, kept, fired, fires, is_terminal,
}
use vclnet.Wait.Sets.{count, count_of}
use vclnet.Wait.Epoll.{Epoll, interest}
use vclnet.Poller.Defs.{Poller, register, handle_event, unregister, cancel}
use vclnet.Poller.Tickets.{parked, tickets}
use vclnet.Poller.System.{
  Phase, waiting, System, Reach, init, later, moves, turns, begin, send, take_registration, start,
}
use vclnet.Poller.Safety.{Reach-Safe}
use vclnet.Poller.Wakeups.{interest-eq-union, wait_accounted}
use vclnet.Poller.Barriers.{unregister_barrier, cancel_before_register}

-- VPP accepts every call.
abbrev willing : Epoll
willing = record { add_ok = λ _ _ _. true; mod_ok = λ _ _ _. true }

record Run : Type 0 where
  last : System
  reach : Reach willing last

-- Waiter 0 waits for input on session 7, waiter 1 for output.
abbrev reader : Waiter
reader = record { id = 0; vlsh = pos 7; events = 1 }

abbrev writer : Waiter
writer = record { id = 1; vlsh = pos 7; events = 4 }

abbrev run : Run
unfolding start register lookup
run = record {
  last = _;
  reach =
      later
        (later
          (later
            (later
              (later (later init (moves 0 (begin (pos 7) 1 refl)))
                (moves 0 (send reader (omega arith))))
              (moves 1 (begin (pos 7) 4 refl)))
            (moves 1 (send writer (omega arith))))
          (turns (take_registration reader (writer ∷ []) refl refl)))
        (turns (take_registration writer [] refl refl));
}

abbrev parked_poller : Poller
unfolding run
parked_poller = run.last.poller

abbrev both : WaitSet
both = record { waiters = reader ∷ writer ∷ []; events = 5 }

-- Both are parked, and VPP is asked for the union of their masks.
interest-eq-union_example : interest (pos 7) parked_poller.calls ≡ some 5
unfolding parked_poller lookup combined_events insert include
interest-eq-union_example = interest-eq-union run.reach (pos 7)

wait_accounted_example :
    ((w : Waiter) → run.last.phase 0 ≡ waiting w → tickets 0 run.last.poller ≡ 1)
    × (run.last.phase 0 ≡ Phase.returned true → count 0 run.last.poller.woken ≡ 1)
wait_accounted_example = wait_accounted run.reach 0

writer_only : (handle_event willing parked_poller (pos 7) 4).woken ≡ 1 ∷ []
unfolding parked_poller handle_event lookup fired fires kept insert include combined_events
    vclnet.Wait.wake_all_of
writer_only = refl

unregister_barrier_example :
    let q = unregister parked_poller (record { vlsh = pos 7; done = 9 }) in
    (lookup (pos 7) q.waiters ≡ none)
    × (interest (pos 7) q.calls ≡ none)
    × ((set : WaitSet) (i : ℕ)
        → lookup (pos 7) parked_poller.waiters ≡ some set
        → count i q.woken ≡ count i parked_poller.woken + count_of i set.waiters)
    × ((u : Vlsh) → u ≢ pos 7 → lookup u q.waiters ≡ lookup u parked_poller.waiters)
    × (q.acked ≡ 9 ∷ parked_poller.acked)
unfolding parked_poller
unregister_barrier_example =
    unregister_barrier run.last.poller (record { vlsh = pos 7; done = 9 })
      (Reach-Safe run.reach).consistent

cancel_before_register_example :
    let w : Waiter = record { id = 2; vlsh = pos 8; events = 1 } in
    let q = register willing (cancel willing parked_poller w) w in
    (parked 2 q ≡ parked 2 parked_poller + 1)
    × (interest (pos 8) q.calls ≡ some 1)
    × (q.woken ≡ parked_poller.woken)
unfolding parked_poller lookup insert
cancel_before_register_example =
    cancel_before_register willing parked_poller (record { id = 2; vlsh = pos 8; events = 1 }) refl
      refl
