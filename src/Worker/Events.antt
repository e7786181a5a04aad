-- ===== src/Worker/Events.antt =====
-- The delivery of an event by a worker: internal/vclpoll/worker.go, lines 299 to 326.
use vclnet.Base.{
  ℕ, ◌+◌, ◌≡◌, refl, List, [], ◌∷◌, false, none, some, ◌⊎◌, inl, inr, arith, lookup, insert, int_eq,
  lookup-insert, lookup-delete, Option-cases, Bool-cases, ◌==◌,
}
use vclnet.Wait.{Vlsh, Waiter, WaitSet, kept, fired, combined_events, wake_all_of}
use vclnet.Wait.Sets.{count, count_of, count-wake, count_of-kept}
use vclnet.Worker.Defs.{Vpp, Worker, note_mod, drop_wait_set}
use vclnet.Worker.Leave.{settle, orphan_event, handle_event}
use vclnet.Worker.Invariant.{IsConsistent}

module _ (vpp : Vpp) (w : Worker) (k raw : Vlsh) where
  settle_lem :
      (set : WaitSet) (left : List Waiter) (i : ℕ)
      → ((count i (settle vpp w k raw set left).woken ≡ count i w.woken)
          × ((x : Waiter) (xs : List Waiter)
              → left ≡ x ∷ xs
              → lookup k (settle vpp w k raw set left).waiters
                ≡ some (record { waiters = left; events = combined_events left })))
        ⊎ ((count i (settle vpp w k raw set left).woken ≡ count i w.woken + count_of i left)
            × (lookup k (settle vpp w k raw set left).waiters ≡ none)
            × (vpp.mod_ok w.calls raw (combined_events left) ≡ false))
  unfolding settle note_mod drop_wait_set
  settle_lem set [] i = inl (refl, λ x xs e. absurd (cc))
  settle_lem set (x ∷ left) i = elim (Bool-cases (combined_events (x ∷ left) == set.events)) [
    | inl same ↦ rw same (inl (refl, λ _ _ _. at_k))
    | inr differs ↦
        rw differs (elim (Bool-cases (vpp.mod_ok w.calls raw (combined_events (x ∷ left)))) [
          | inl accepted ↦ rw accepted (inl (refl, λ _ _ _. at_k))
          | inr refused ↦ rw refused (
              inr (
                omega (arith, count-wake i (x ∷ left) w.woken),
                (ground (arith, lookup-delete k k (insert k set' w.waiters), int_eq.beq_iff k k)),
                refl,
              ))
        ])
  ]
    where
      set' : WaitSet
      set' = record { waiters = x ∷ left; events = combined_events (x ∷ left) }

      at_k : lookup k (insert k set' w.waiters) ≡ some set'
      at_k = ground (arith, lookup-insert k k set' w.waiters, int_eq.beq_iff k k)

-- On a consistent worker an event wakes exactly the waiters whose mask it meets, and those that stay
-- are still parked under the union of their masks; or VPP refuses that mask, and then every waiter of
-- the session is woken. None is dropped unwoken.
event_wakes :
    (vpp : Vpp) (w : Worker) (k : Vlsh) (events : ℕ) (set : WaitSet)
    → IsConsistent w
    → lookup k w.waiters ≡ some set
    → (i : ℕ)
    → let w' = handle_event vpp w k events in
      let left = kept events set.waiters in
      ((count i w'.woken ≡ count i w.woken + count_of i (fired events set.waiters))
        × ((x : Waiter) (xs : List Waiter)
            → left ≡ x ∷ xs
            → lookup k w'.waiters
              ≡ some (record { waiters = left; events = combined_events left })))
      ⊎ ((count i w'.woken ≡ count i w.woken + count_of i set.waiters)
          × (lookup k w'.waiters ≡ none))
unfolding handle_event
event_wakes vpp w k events set c e i = elim (Option-cases (lookup k w.sessions)) [
  | inl gone ↦ absurd (cc (c.tracked k gone))
  | inr (raw, here) ↦
      rw (e, handle_event)
        (rw here (elim (settle_lem vpp w' k raw set (kept events set.waiters) i) [
          | inl (same, stay) ↦
              inl (omega (arith, same, count-wake i (fired events set.waiters) w.woken), stay)
          | inr (more, empty, refused) ↦ inr (
            omega (
              arith,
              more,
              count-wake i (fired events set.waiters) w.woken,
              count_of-kept i events set.waiters,
            ),
            empty,
          )
        ]))
]
  where
    w' : Worker
    w' = record w { woken = wake_all_of (fired events set.waiters) w.woken }

-- Without its session a wait set is dropped: the waiters that the event does not meet stay asleep.
orphans_sleep :
    (vpp : Vpp) (w : Worker) (k : Vlsh) (events : ℕ) (set : WaitSet)
    → lookup k w.waiters ≡ some set
    → lookup k w.sessions ≡ none
    → (i : ℕ)
    → let w' = handle_event vpp w k events in
      (count i w'.woken ≡ count i w.woken + count_of i (fired events set.waiters))
      × (lookup k w'.waiters ≡ none)
unfolding handle_event orphan_event
orphans_sleep vpp w k events set e gone i =
    rw (e, handle_event)
      (rw gone (
        omega (arith, count-wake i (fired events set.waiters) w.woken),
        ground (arith, lookup-delete k k w.waiters, int_eq.beq_iff k k),
      ))
