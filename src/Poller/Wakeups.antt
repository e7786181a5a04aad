-- ===== src/Poller/Wakeups.antt =====
-- What callers of the poller rely on: internal/vclpoll/poller.go, lines 129 to 263 and 342 to 374.
use vclnet.Base.{
  ℕ, ◌+◌, ◌≤◌, ◌≡◌, ◌≢◌, refl, subst, ◌∙◌, List, [], ◌∷◌, true, false, Option, none, some, arith,
  ◌⊎◌, inl, inr, lookup, insert, int_eq, Option-cases, lookup-insert, lookup-delete,
}
use vclnet.Wait.{Vlsh, Waiter, WaitSet, combined_events, kept, fired, wake_all_of}
use vclnet.Wait.Sets.{count_of, count, count_of-kept, count-wake}
use vclnet.Wait.Epoll.{Epoll, interest}
use vclnet.Poller.Defs.{Poller, settle, handle_event}
use vclnet.Poller.Invariant.{IsConsistent}
use vclnet.Poller.Tickets.{tickets}
use vclnet.Poller.System.{waiting, returned, System, Reach}
use vclnet.Poller.Safety.{Reach-Safe, Fits, Fits-le}

abbrev pub union? : Option WaitSet → Option ℕ
union? none = none
union? (some set) = some (combined_events set.waiters)

-- In every reachable state of the poller and its callers, whatever VPP answers: what the epoll calls
-- leave registered for a session is the union of the masks of the waiters parked on it, and nothing
-- if none is parked.
pub interest-eq-union :
    {ep : Epoll} {s : System}
    → Reach ep s
    → (v : Vlsh) → interest v s.poller.calls ≡ union? (lookup v s.poller.waiters)
interest-eq-union {s} r v = elim (Option-cases (lookup v s.poller.waiters)) [
  | inl e ↦ rw e (c.asked v ∙ rw e refl)
  | inr (set, e) ↦ rw e (c.asked v ∙ rw e (rw ((c.sets v set e).agrees) refl))
]
  where
    c : IsConsistent s.poller
    c = (Reach-Safe r).consistent

-- In every reachable state a waiter stands at most once among the registration channel, the wait
-- sets and the woken; so no `ready` channel is ever closed twice, which would panic.
woken_once :
    {ep : Epoll} {s : System}
    → Reach ep s
    → (i : ℕ) → (tickets i s.poller ≤ 1) × (count i s.poller.woken ≤ 1)
unfolding tickets
woken_once {s} r i =
    let h = Fits-le i s.poller (s.phase i) ((Reach-Safe r).fits i) in (h, omega arith)

-- In every reachable state a call of `PollWaitContext` that waits has its waiter queued, parked or
-- woken, once; and one that has returned true has its waiter woken, once.
pub wait_accounted :
    {ep : Epoll} {s : System}
    → Reach ep s
    → (i : ℕ)
    → ((w : Waiter) → s.phase i ≡ waiting w → tickets i s.poller ≡ 1)
      × (s.phase i ≡ returned true → count i s.poller.woken ≡ 1)
unfolding tickets
wait_accounted {s} r i = (
  λ w e. (subst (Fits i s.poller) e f).1,
  λ e. let g = subst (Fits i s.poller) e f in omega arith,
)
  where
    f : Fits i s.poller (s.phase i)
    f = (Reach-Safe r).fits i

module _ (ep : Epoll) (p : Poller) (v : Vlsh) where
  settle_others :
      (set : WaitSet) (ws : List Waiter) (u : Vlsh)
      → u ≢ v
      → lookup u (settle ep p v set ws).waiters ≡ lookup u p.waiters
  unfolding settle
  settle_others set [] u ne = ground (arith, int_eq.beq_iff u v, lookup-delete u v p.waiters)
  settle_others set (w ∷ ws) u ne = ground (
    arith,
    int_eq.beq_iff u v,
    lookup-insert u v set' p.waiters,
    lookup-delete u v (insert v set' p.waiters),
  )
    where
      set' : WaitSet
      set' = record { waiters = w ∷ ws; events = combined_events (w ∷ ws) }

  -- `settle` wakes no one; or VPP refused the new mask, and then all that were left are woken.
  settle_woken :
      (set : WaitSet) (ws : List Waiter) (i : ℕ)
      → (count i (settle ep p v set ws).woken ≡ count i p.woken)
        ⊎ ((count i (settle ep p v set ws).woken ≡ count i p.woken + count_of i ws)
            × (lookup v (settle ep p v set ws).waiters ≡ none)
            × (ep.mod_ok p.calls v (combined_events ws) ≡ false))
  unfolding settle
  settle_woken set [] i = inl refl
  settle_woken set (w ∷ ws) i = ground (
    arith,
    int_eq.beq_iff v v,
    count-wake i (w ∷ ws) p.woken,
    lookup-delete v v
        (insert v (record { waiters = w ∷ ws; events = combined_events (w ∷ ws) }) p.waiters),
  )

-- An event on a session wakes exactly the parked waiters whose mask it meets (all of them, if it is
-- an error or hang-up). The only exception: VPP refuses the mask of those that stay; then they are
-- woken too, and the session has no wait set. Other sessions are left alone in either case.
handle_event_lem :
    (ep : Epoll) (p : Poller) (v : Vlsh) (events : ℕ) (set : WaitSet)
    → lookup v p.waiters ≡ some set
    → let q = handle_event ep p v events in
      ((u : Vlsh) → u ≢ v → lookup u q.waiters ≡ lookup u p.waiters)
      × ((i : ℕ)
          → (count i q.woken ≡ count i p.woken + count_of i (fired events set.waiters))
            ⊎ ((count i q.woken ≡ count i p.woken + count_of i set.waiters)
                × (lookup v q.waiters ≡ none)
                × (ep.mod_ok p.calls v (combined_events (kept events set.waiters)) ≡ false)))
unfolding handle_event
handle_event_lem ep p v events set e =
    rw (e, handle_event)
      (
        settle_others ep q v set (kept events set.waiters),
        λ i. ground (
          arith,
          settle_woken ep q v set (kept events set.waiters) i,
          count-wake i (fired events set.waiters) p.woken,
          count_of-kept i events set.waiters,
        ),
      )
  where
    q : Poller
    q = record p { woken = wake_all_of (fired events set.waiters) p.woken }
