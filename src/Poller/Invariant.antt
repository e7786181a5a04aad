-- ===== src/Poller/Invariant.antt =====
-- What every operation of the poller keeps: the wait sets are well formed, and VPP has been asked
-- for exactly their masks.
use vclnet.Base.{
  ℕ, ◌≡◌, ◌≢◌, refl, sym, List, [], ◌∷◌, ◌++◌, false, Option, none, some, bit_or, arith, All,
  lookup, insert, Distinct, int_eq, lookup-insert, lookup-delete, insert-Distinct, delete-Distinct,
  Option-cases, inl, inr, Bool-cases,
}
use vclnet.Wait.{Vlsh, Waiter, WaitSet, has, include, exclude, combined_events, kept, wake_all_of}
use vclnet.Wait.Sets.{combined-append, combined_one}
use vclnet.Wait.Epoll.{del, Epoll, interest}
use vclnet.Poller.Defs.{
  Poller, UnregisterRequest, register, register_first, register_more, settle, cancel, cancel_in,
  wake_waiter, unregister, handle_event, wake_all, wake_sets,
}

-- A wait set of session `v`.
pub record IsSetOf (v : Vlsh) (set : WaitSet) : Type 0 where
  pub agrees : set.events ≡ combined_events set.waiters
  pub parked : set.waiters ≢ []
  pub mine : All (λ w. w.vlsh ≡ v) set.waiters

abbrev pub mask? : Option WaitSet → Option ℕ
mask? none = none
mask? (some set) = some set.events

pub record IsConsistent (p : Poller) : Type 0 where
  pub distinct : Distinct p.waiters
  pub sets : (v : Vlsh) (set : WaitSet) → lookup v p.waiters ≡ some set → IsSetOf v set
  pub asked : (v : Vlsh) → interest v p.calls ≡ mask? (lookup v p.waiters)

-- A waiter is not yet parked on its session.
abbrev pub IsNew : Waiter → Poller → Type 0
IsNew w p = (set : WaitSet) → lookup w.vlsh p.waiters ≡ some set → has w.id set.waiters ≡ false

pub All-exclude :
    (v : Vlsh) (i : ℕ) (ws : List Waiter)
    → All (λ w. w.vlsh ≡ v) ws
    → All (λ w. w.vlsh ≡ v) (exclude i ws)
unfolding exclude
All-exclude v i [] a = tt
All-exclude v i (w ∷ ws) a = ground (arith, All-exclude v i ws)

pub All-kept :
    (v : Vlsh) (events : ℕ) (ws : List Waiter)
    → All (λ w. w.vlsh ≡ v) ws
    → All (λ w. w.vlsh ≡ v) (kept events ws)
unfolding kept
All-kept v events [] a = tt
All-kept v events (w ∷ ws) a = ground (arith, All-kept v events ws)

All-append :
    (v : Vlsh) (w : Waiter) (ws : List Waiter)
    → All (λ w. w.vlsh ≡ v) ws
    → w.vlsh ≡ v
    → All (λ w. w.vlsh ≡ v) (ws ++ w ∷ [])
All-append v w [] a e = (e, tt)
All-append v w (x ∷ ws) a e = (a.0, All-append v w ws a.1 e)

append-ne-nil : (ws : List Waiter) (w : Waiter) → ws ++ w ∷ [] ≢ []
append-ne-nil [] w = λ e. cc
append-ne-nil (v ∷ ws) w = λ e. cc

include-IsSetOf :
    (w : Waiter) (set : WaitSet)
    → has w.id set.waiters ≡ false
    → IsSetOf w.vlsh set
    → IsSetOf w.vlsh
        (record { waiters = include w set.waiters; events = bit_or set.events w.events })
unfolding include
include-IsSetOf w set new g = rw new (record {
  agrees = rw (combined-append set.waiters w, g.agrees) refl;
  parked = append-ne-nil set.waiters w;
  mine = All-append w.vlsh w set.waiters g.mine refl;
})

settle-Consistent :
    (ep : Epoll) (p : Poller) (v : Vlsh) (set : WaitSet) (ws : List Waiter)
    → IsConsistent p
    → lookup v p.waiters ≡ some set
    → All (λ w. w.vlsh ≡ v) ws
    → IsConsistent (settle ep p v set ws)
unfolding settle interest
settle-Consistent ep p v set [] c e a = record {
  distinct = delete-Distinct v p.waiters c.distinct;
  sets = λ u s h. ground (arith, lookup-delete u v p.waiters, c.sets u s);
  asked = λ u. ground (arith, lookup-delete u v p.waiters, c.asked u);
}
settle-Consistent ep p v set (w ∷ ws) c e a = record {
  distinct =
      let d = insert-Distinct v set' p.waiters c.distinct in
      ground (arith, d, delete-Distinct v (insert v set' p.waiters) d);
  sets = λ u s h. ground (
    arith,
    good,
    int_eq.beq_iff u v,
    lookup-insert u v set' p.waiters,
    lookup-delete u v (insert v set' p.waiters),
    c.sets u s,
  );
  asked = λ u. ground (
    arith,
    int_eq.beq_iff u v,
    lookup-insert u v set' p.waiters,
    lookup-delete u v (insert v set' p.waiters),
    c.asked u,
  );
}
  where
    set' : WaitSet
    set' = record { waiters = w ∷ ws; events = combined_events (w ∷ ws) }

    good : IsSetOf v set'
    good = record { agrees = refl; parked = λ x. cc; mine = a }

register_first-Consistent :
    (ep : Epoll) (p : Poller) (w : Waiter)
    → IsConsistent p
    → lookup w.vlsh p.waiters ≡ none
    → IsConsistent (register_first ep p w)
unfolding register_first interest
register_first-Consistent ep p w c e = record {
  distinct = ground (arith, c.distinct, insert-Distinct w.vlsh set' p.waiters c.distinct);
  sets = λ u s h.
      ground
        (arith, good, int_eq.beq_iff u w.vlsh, lookup-insert u w.vlsh set' p.waiters, c.sets u s);
  asked = λ u.
      ground (arith, int_eq.beq_iff u w.vlsh, lookup-insert u w.vlsh set' p.waiters, c.asked u);
}
  where
    set' : WaitSet
    set' = record { waiters = w ∷ []; events = w.events }

    good : IsSetOf w.vlsh set'
    good = record { agrees = sym (combined_one w); parked = λ x. cc; mine = (refl, tt) }

register_more-Consistent :
    (ep : Epoll) (p : Poller) (w : Waiter) (set : WaitSet)
    → IsConsistent p
    → lookup w.vlsh p.waiters ≡ some set
    → has w.id set.waiters ≡ false
    → IsConsistent (register_more ep p w set)
unfolding register_more interest
register_more-Consistent ep p w set c e new = record {
  distinct = ground (arith, c.distinct, insert-Distinct w.vlsh set' p.waiters c.distinct);
  sets = λ u s h.
      ground
        (arith, good, int_eq.beq_iff u w.vlsh, lookup-insert u w.vlsh set' p.waiters, c.sets u s);
  asked = λ u.
      ground (arith, int_eq.beq_iff u w.vlsh, lookup-insert u w.vlsh set' p.waiters, c.asked u);
}
  where
    set' : WaitSet
    set' = record { waiters = include w set.waiters; events = bit_or set.events w.events }

    good : IsSetOf w.vlsh set'
    good = include-IsSetOf w set new (c.sets w.vlsh set e)

-- Registering a new waiter, whether VPP accepts the call or not.
pub register-Consistent :
    (ep : Epoll) (p : Poller) (w : Waiter)
    → IsConsistent p
    → IsNew w p
    → IsConsistent (register ep p w)
unfolding register
register-Consistent ep p w c new = elim (Option-cases (lookup w.vlsh p.waiters)) [
  | inl e ↦ rw (e, register) (register_first-Consistent ep p w c e)
  | inr (set, e) ↦ rw (e, register) (register_more-Consistent ep p w set c e (new set e))
]

wake-Consistent :
    (p : Poller) (woken : List ℕ) → IsConsistent p → IsConsistent (record p { woken = woken })
wake-Consistent p woken c = record { distinct = c.distinct; sets = c.sets; asked = c.asked }

cancel_in-Consistent :
    (ep : Epoll) (p : Poller) (w : Waiter) (set : WaitSet)
    → IsConsistent p
    → lookup w.vlsh p.waiters ≡ some set
    → IsConsistent (cancel_in ep p w set)
unfolding cancel_in
cancel_in-Consistent ep p w set c e = elim (Bool-cases (has w.id set.waiters)) [
  | inl h ↦ rw h (
      settle-Consistent ep (wake_waiter p w) w.vlsh set (exclude w.id set.waiters)
        (wake-Consistent p (w.id ∷ p.woken) c) e
        (All-exclude w.vlsh w.id set.waiters (c.sets w.vlsh set e).mine))
  | inr h ↦ rw h c
]

pub cancel-Consistent :
    (ep : Epoll) (p : Poller) (w : Waiter) → IsConsistent p → IsConsistent (cancel ep p w)
unfolding cancel
cancel-Consistent ep p w c = elim (Option-cases (lookup w.vlsh p.waiters)) [
  | inl e ↦ rw (e, cancel) c
  | inr (set, e) ↦ rw (e, cancel) (cancel_in-Consistent ep p w set c e)
]

pub handle_event-Consistent :
    (ep : Epoll) (p : Poller) (v : Vlsh) (events : ℕ)
    → IsConsistent p
    → IsConsistent (handle_event ep p v events)
unfolding handle_event
handle_event-Consistent ep p v events c = elim (Option-cases (lookup v p.waiters)) [
  | inl e ↦ rw (e, handle_event) c
  | inr (set, e) ↦
      rw (e, handle_event)
        (settle-Consistent ep _ v set (kept events set.waiters) (wake-Consistent p _ c) e
          (All-kept v events set.waiters (c.sets v set e).mine))
]

pub unregister-Consistent :
    (p : Poller) (req : UnregisterRequest) → IsConsistent p → IsConsistent (unregister p req)
unfolding unregister interest
unregister-Consistent p req c = record {
  distinct = ground (arith, c.distinct, delete-Distinct req.vlsh p.waiters c.distinct);
  sets = λ u s h. ground (arith, lookup-delete u req.vlsh p.waiters, c.sets u s);
  asked =
      λ u. ground (arith, int_eq.beq_iff u req.vlsh, lookup-delete u req.vlsh p.waiters, c.asked u);
}

asked_after : Option WaitSet → Option ℕ → Option ℕ
asked_after none before = before
asked_after (some set) before = none

interest-wake_sets :
    (u : Vlsh) (m : List (Vlsh × WaitSet)) (p : Poller)
    → interest u (wake_sets m p).calls ≡ asked_after (lookup u m) (interest u p.calls)
unfolding wake_sets interest lookup asked_after
interest-wake_sets u [] p = refl
interest-wake_sets u ((v, set) ∷ m) p = ground (
  arith,
  interest-wake_sets u m
      (record p { calls = del v ∷ p.calls; woken = wake_all_of set.waiters p.woken }),
)

pub wake_all-Consistent : (p : Poller) → IsConsistent p → IsConsistent (wake_all p)
unfolding wake_all asked_after lookup
wake_all-Consistent p c = record {
  distinct = tt;
  sets = λ u s h. cc;
  asked = λ u. ground (arith, interest-wake_sets u p.waiters p, c.asked u);
}
