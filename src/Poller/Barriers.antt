-- ===== src/Poller/Barriers.antt =====
-- Cancellation, the close barrier and the end of the poller: internal/vclpoll/poller.go, lines 113
-- to 127, 161 to 210, 316 to 337.
use vclnet.Base.{
  ℕ, ◌+◌, ◌≡◌, ◌≢◌, refl, List, [], ◌∷◌, true, none, some, arith, lookup, Distinct, int_eq,
  lookup-delete, total-insert, total-delete,
}
use vclnet.Wait.{Vlsh, Waiter, WaitSet, has, exclude, combined_events}
use vclnet.Wait.Sets.{hit, count_of, count, count_of-exclude, count-wake}
use vclnet.Wait.Epoll.{Epoll, interest}
use vclnet.Poller.Defs.{
  Poller, UnregisterRequest, register, register_first, cancel, cancel_in, wake_waiter, settle,
  unregister, finish, wake_all,
}
use vclnet.Poller.Invariant.{IsConsistent, wake_all-Consistent}
use vclnet.Poller.Tickets.{parked, tickets, in_set, wake_all-woken}
use vclnet.Poller.System.{System, Reach}
use vclnet.Poller.Safety.{Reach-Safe}

-- When the barrier of a close is acknowledged, the session has no wait set, VPP has no interest in
-- it, every waiter that was parked on it has been woken, and the other sessions are as they were.
pub unregister_barrier :
    (p : Poller) (req : UnregisterRequest)
    → IsConsistent p
    → let q = unregister p req in
      (lookup req.vlsh q.waiters ≡ none)
      × (interest req.vlsh q.calls ≡ none)
      × ((set : WaitSet) (i : ℕ)
          → lookup req.vlsh p.waiters ≡ some set
          → count i q.woken ≡ count i p.woken + count_of i set.waiters)
      × ((u : Vlsh) → u ≢ req.vlsh → lookup u q.waiters ≡ lookup u p.waiters)
      × (q.acked ≡ req.done ∷ p.acked)
unfolding unregister interest
unregister_barrier p req c = (
  ground (arith, int_eq.beq_iff req.vlsh req.vlsh, lookup-delete req.vlsh req.vlsh p.waiters),
  ground (arith, int_eq.beq_iff req.vlsh req.vlsh, c.asked req.vlsh),
  λ set i e. rw (e, unregister) (omega (arith, count-wake i set.waiters p.woken)),
  λ u ne. ground (arith, int_eq.beq_iff u req.vlsh, lookup-delete u req.vlsh p.waiters),
  ground arith,
)

module _ (ep : Epoll) (p : Poller) (j : ℕ) where
  settle_accepted :
      (v : Vlsh) (set : WaitSet) (ws : List Waiter)
      → Distinct p.waiters
      → lookup v p.waiters ≡ some set
      → ep.mod_ok p.calls v (combined_events ws) ≡ true
      → (parked j (settle ep p v set ws) + in_set j set ≡ parked j p + count_of j ws)
        × ((settle ep p v set ws).woken ≡ p.woken)
  unfolding settle parked
  settle_accepted v set [] d e ok =
      (unfold count_of in ground (arith, total-delete (in_set j) v p.waiters d), refl)
  settle_accepted v set (w ∷ ws) d e ok =
      (ground (arith, total-insert (in_set j) v set' p.waiters), ground arith)
    where
      set' : WaitSet
      set' = record { waiters = w ∷ ws; events = combined_events (w ∷ ws) }

-- Cancelling a waiter that is parked takes it out of its set and wakes it. If VPP accepts the mask
-- of those that stay, no other waiter is moved or woken.
cancel_only_one :
    (ep : Epoll) (p : Poller) (w : Waiter) (set : WaitSet)
    → Distinct p.waiters
    → lookup w.vlsh p.waiters ≡ some set
    → has w.id set.waiters ≡ true
    → ep.mod_ok p.calls w.vlsh (combined_events (exclude w.id set.waiters)) ≡ true
    → (j : ℕ)
    → (parked j (cancel ep p w) + hit j w.id ≡ parked j p)
      × (count j (cancel ep p w).woken ≡ count j p.woken + hit j w.id)
unfolding cancel cancel_in
cancel_only_one ep p w set d e h ok j =
    rw (e, cancel)
      (rw (h, cancel_in)
        (unfold wake_waiter parked count in
          (omega (arith, s.0, count_of-exclude j w.id set.waiters h), rw s.1 (omega arith))))
  where
    s :
        (parked j (settle ep (wake_waiter p w) w.vlsh set (exclude w.id set.waiters)) + in_set j set
          ≡ parked j (wake_waiter p w) + count_of j (exclude w.id set.waiters))
        × ((settle ep (wake_waiter p w) w.vlsh set (exclude w.id set.waiters)).woken
            ≡ (wake_waiter p w).woken)
    s =
        unfold wake_waiter in
        settle_accepted ep (wake_waiter p w) j w.vlsh set (exclude w.id set.waiters) d e ok

-- A cancellation that the loop reads before the registration is dropped: the waiter is then parked
-- and its mask asked of VPP, although its caller has returned.
pub cancel_before_register :
    (ep : Epoll) (p : Poller) (w : Waiter)
    → lookup w.vlsh p.waiters ≡ none
    → ep.add_ok p.calls w.vlsh w.events ≡ true
    → let q = register ep (cancel ep p w) w in
      (parked w.id q ≡ parked w.id p + 1)
      × (interest w.vlsh q.calls ≡ some w.events)
      × (q.woken ≡ p.woken)
unfolding cancel register register_first interest parked count_of
cancel_before_register ep p w e ok =
    rw (e, cancel)
      (rw (e, register)
        (rw ok (
          ground (
            arith,
            total-insert (in_set w.id) w.vlsh (record { waiters = w ∷ []; events = w.events })
                p.waiters,
          ),
          ground (arith, int_eq.beq_iff w.vlsh w.vlsh),
          refl,
        )))

-- When the loop ends after a stop, no wait set and no queued registration is left, VPP has no
-- interest in any session, and every waiter that stood anywhere has been woken.
finish_wakes_all :
    {ep : Epoll} {s : System}
    → Reach ep s
    → let q = finish s.poller in
      ((i : ℕ) → count i q.woken ≡ tickets i s.poller)
      × ((v : Vlsh) → (lookup v q.waiters ≡ none) × (interest v q.calls ≡ none))
      × (q.reg_ch ≡ [])
      × (q.stopped ≡ true)
unfolding finish
finish_wakes_all {s} r = (
  λ i. wake_all-woken i s.poller,
  λ v. (
    unfold wake_all lookup in refl,
    unfold wake_all lookup in (wake_all-Consistent s.poller (Reach-Safe r).consistent).asked v,
  ),
  unfold wake_all in refl,
  refl,
)
