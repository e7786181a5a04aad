-- ===== src/Poller/Tickets.antt =====
-- Every waiter stands in one place: in the registration channel, in a wait set, or among those that
-- have been woken. No operation of the poller loses one or wakes one twice.
use vclnet.Base.{
  ℕ, ◌+◌, ◌≤◌, ◌≡◌, refl, List, [], ◌∷◌, false, none, some, bit_or, arith, lookup, insert, Distinct,
  int_eq, total, total-insert, total-delete, insert-Distinct, lookup-insert, Option-cases, inl, inr,
  Bool-cases,
}
use vclnet.Wait.{
  Vlsh, Waiter, WaitSet, has, include, exclude, combined_events, kept, fired, wake_all_of,
}
use vclnet.Wait.Sets.{
  hit, count_of, count, count_of-include, count_of-exclude, count_of-kept, count-wake,
}
use vclnet.Wait.Epoll.{Epoll, del}
use vclnet.Poller.Defs.{
  Poller, UnregisterRequest, register, register_first, register_more, settle, cancel, cancel_in,
  wake_waiter, unregister, handle_event, wake_all, wake_sets,
}
use vclnet.Poller.Invariant.{IsNew}

abbrev pub in_set : ℕ → WaitSet → ℕ
in_set i set = count_of i set.waiters

-- How often the waiter `i` is parked.
unfoldable pub parked : ℕ → Poller → ℕ
parked i p = total (in_set i) p.waiters

-- How often it stands anywhere.
unfoldable pub tickets : ℕ → Poller → ℕ
unfolding parked
tickets i p = count_of i p.reg_ch + parked i p + count i p.woken

module _ (i : ℕ) where
  settle-tickets :
      (ep : Epoll) (p : Poller) (v : Vlsh) (set : WaitSet) (ws : List Waiter)
      → Distinct p.waiters
      → lookup v p.waiters ≡ some set
      → tickets i (settle ep p v set ws) + in_set i set ≡ tickets i p + count_of i ws
  unfolding settle tickets count_of
  settle-tickets ep p v set [] d e = ground (arith, total-delete (in_set i) v p.waiters d)
  settle-tickets ep p v set (w ∷ ws) d e = ground (
    arith,
    total-insert (in_set i) v set' p.waiters,
    total-delete (in_set i) v (insert v set' p.waiters) (insert-Distinct v set' p.waiters d),
    lookup-insert v v set' p.waiters,
    int_eq.beq_iff v v,
    count-wake i (w ∷ ws) p.woken,
  )
    where
      set' : WaitSet
      set' = record { waiters = w ∷ ws; events = combined_events (w ∷ ws) }

  register_first-tickets :
      (ep : Epoll) (p : Poller) (w : Waiter)
      → lookup w.vlsh p.waiters ≡ none
      → tickets i (register_first ep p w) ≡ tickets i p + hit i w.id
  unfolding register_first tickets count_of count
  register_first-tickets ep p w e = ground (
    arith,
    total-insert (in_set i) w.vlsh (record { waiters = w ∷ []; events = w.events }) p.waiters,
  )

  register_more-tickets :
      (ep : Epoll) (p : Poller) (w : Waiter) (set : WaitSet)
      → lookup w.vlsh p.waiters ≡ some set
      → has w.id set.waiters ≡ false
      → tickets i (register_more ep p w set) ≡ tickets i p + hit i w.id
  unfolding register_more tickets count
  register_more-tickets ep p w set e new = ground (
    arith,
    total-insert (in_set i) w.vlsh
        (record { waiters = include w set.waiters; events = bit_or set.events w.events }) p.waiters,
    count_of-include i w set.waiters new,
  )

  pub register-tickets :
      (ep : Epoll) (p : Poller) (w : Waiter)
      → IsNew w p
      → tickets i (register ep p w) ≡ tickets i p + hit i w.id
  unfolding register
  register-tickets ep p w new = elim (Option-cases (lookup w.vlsh p.waiters)) [
    | inl e ↦ rw (e, register) (register_first-tickets ep p w e)
    | inr (set, e) ↦ rw (e, register) (register_more-tickets ep p w set e (new set e))
  ]

  cancel_in-tickets :
      (ep : Epoll) (p : Poller) (w : Waiter) (set : WaitSet)
      → Distinct p.waiters
      → lookup w.vlsh p.waiters ≡ some set
      → tickets i (cancel_in ep p w set) ≡ tickets i p
  unfolding cancel_in wake_waiter
  cancel_in-tickets ep p w set d e = elim (Bool-cases (has w.id set.waiters)) [
    | inl h ↦ rw h (
        unfold tickets count in
        ground (
          arith,
          settle-tickets ep (wake_waiter p w) w.vlsh set (exclude w.id set.waiters) d e,
          count_of-exclude i w.id set.waiters h,
        ))
    | inr h ↦ rw h refl
  ]

  pub cancel-tickets :
      (ep : Epoll) (p : Poller) (w : Waiter)
      → Distinct p.waiters
      → tickets i (cancel ep p w) ≡ tickets i p
  unfolding cancel
  cancel-tickets ep p w d = elim (Option-cases (lookup w.vlsh p.waiters)) [
    | inl e ↦ rw (e, cancel) refl
    | inr (set, e) ↦ rw (e, cancel) (cancel_in-tickets ep p w set d e)
  ]

  fire :
      (p : Poller) (ws : List Waiter)
      → tickets i (record p { woken = wake_all_of ws p.woken }) ≡ tickets i p + count_of i ws
  unfolding tickets
  fire p ws = omega (arith, count-wake i ws p.woken)

  pub handle_event-tickets :
      (ep : Epoll) (p : Poller) (v : Vlsh) (events : ℕ)
      → Distinct p.waiters
      → tickets i (handle_event ep p v events) ≡ tickets i p
  unfolding handle_event
  handle_event-tickets ep p v events d = elim (Option-cases (lookup v p.waiters)) [
    | inl e ↦ rw (e, handle_event) refl
    | inr (set, e) ↦
        rw (e, handle_event)
          (omega (
            arith,
            settle-tickets ep (record p { woken = wake_all_of (fired events set.waiters) p.woken })
                v set (kept events set.waiters) d e,
            fire p (fired events set.waiters),
            count_of-kept i events set.waiters,
          ))
  ]

  pub unregister-tickets :
      (p : Poller) (req : UnregisterRequest)
      → Distinct p.waiters
      → tickets i (unregister p req) ≡ tickets i p
  unfolding unregister tickets
  unregister-tickets p req d = elim (Option-cases (lookup req.vlsh p.waiters)) [
    | inl e ↦ rw (e, unregister) refl
    | inr (set, e) ↦
        rw (e, unregister)
          (ground (
            arith,
            e,
            total-delete (in_set i) req.vlsh p.waiters d,
            count-wake i set.waiters p.woken,
          ))
  ]

  wake_sets-woken :
      (m : List (Vlsh × WaitSet)) (p : Poller)
      → count i (wake_sets m p).woken ≡ total (in_set i) m + count i p.woken
  unfolding wake_sets total
  wake_sets-woken [] p = omega arith
  wake_sets-woken ((v, set) ∷ m) p = omega (
    arith,
    wake_sets-woken m
        (record p { calls = del v ∷ p.calls; woken = wake_all_of set.waiters p.woken }),
    count-wake i set.waiters p.woken,
  )

  wake_sets-reg_ch : (m : List (Vlsh × WaitSet)) (p : Poller) → (wake_sets m p).reg_ch ≡ p.reg_ch
  unfolding wake_sets
  wake_sets-reg_ch [] p = refl
  wake_sets-reg_ch ((v, set) ∷ m) p =
      wake_sets-reg_ch m
        (record p { calls = del v ∷ p.calls; woken = wake_all_of set.waiters p.woken })

  -- After it, all waiters are woken: none is parked or queued.
  pub wake_all-woken : (p : Poller) → count i (wake_all p).woken ≡ tickets i p
  unfolding wake_all tickets
  wake_all-woken p =
      rw
        (
          count-wake i (wake_sets p.waiters p).reg_ch (wake_sets p.waiters p).woken,
          wake_sets-reg_ch p.waiters p,
        )
        (omega (arith, wake_sets-woken p.waiters p))

  pub wake_all-tickets : (p : Poller) → tickets i (wake_all p) ≡ tickets i p
  unfolding wake_all
  wake_all-tickets p = unfold tickets wake_all total count_of in (omega (arith, wake_all-woken p))

  settle-woken :
      (ep : Epoll) (p : Poller) (v : Vlsh) (set : WaitSet) (ws : List Waiter)
      → count i p.woken ≤ count i (settle ep p v set ws).woken
  unfolding settle
  settle-woken ep p v set [] = omega arith
  settle-woken ep p v set (w ∷ ws) = ground (arith, count-wake i (w ∷ ws) p.woken)

  pub register-woken :
      (ep : Epoll) (p : Poller) (w : Waiter) → count i p.woken ≤ count i (register ep p w).woken
  unfolding register count
  register-woken ep p w = ground arith

  pub cancel-woken :
      (ep : Epoll) (p : Poller) (w : Waiter) → count i p.woken ≤ count i (cancel ep p w).woken
  unfolding cancel cancel_in wake_waiter count
  cancel-woken ep p w = elim (Option-cases (lookup w.vlsh p.waiters)) [
    | inl e ↦ rw (e, cancel) (omega arith)
    | inr (set, e) ↦
        rw (e, cancel)
          (elim (Bool-cases (has w.id set.waiters)) [
            | inl h ↦ rw h (
                omega
                  (arith, settle-woken ep (wake_waiter p w) w.vlsh set (exclude w.id set.waiters)))
            | inr h ↦ rw h (omega arith)
          ])
  ]

  pub handle_event-woken :
      (ep : Epoll) (p : Poller) (v : Vlsh) (events : ℕ)
      → count i p.woken ≤ count i (handle_event ep p v events).woken
  unfolding handle_event
  handle_event-woken ep p v events = elim (Option-cases (lookup v p.waiters)) [
    | inl e ↦ rw (e, handle_event) (omega arith)
    | inr (set, e) ↦
        rw (e, handle_event)
          (omega (
            arith,
            settle-woken ep (record p { woken = wake_all_of (fired events set.waiters) p.woken }) v
                set (kept events set.waiters),
            count-wake i (fired events set.waiters) p.woken,
          ))
  ]

  pub unregister-woken :
      (p : Poller) (req : UnregisterRequest) → count i p.woken ≤ count i (unregister p req).woken
  unfolding unregister
  unregister-woken p req = elim (Option-cases (lookup req.vlsh p.waiters)) [
    | inl e ↦ rw (e, unregister) (omega arith)
    | inr (set, e) ↦ rw (e, unregister) (omega (arith, count-wake i set.waiters p.woken))
  ]
