-- ===== src/Worker/Keeps.antt =====
-- Every operation on the waiters of a worker keeps `IsConsistent`.
use vclnet.Base.{
  ℕ, ◌≡◌, ◌≢◌, refl, sym, List, [], ◌∷◌, ◌++◌, true, false, none, some, ◌==◌, bit_or, arith, lookup,
  insert, delete, int_eq, lookup-insert, lookup-delete, insert-Distinct, delete-Distinct,
  Option-cases, inl, inr, Bool-cases, ◌∙◌,
}
use vclnet.Wait.{Vlsh, Waiter, WaitSet, has, include, exclude, combined_events, kept, wake_all_of}
use vclnet.Wait.Sets.{combined-append, combined_one}
use vclnet.Worker.Defs.{
  mod_, del, Vpp, Worker, park, first_waiter, next_waiter, drop_wait_set, note_mod, join,
}
use vclnet.Worker.Leave.{
  settle, cancel_in, cancel_waiter, remove_waiters, handle_event, wake_waiter,
}
use vclnet.Worker.Invariant.{IsConsistent, IsUnion, interest, put-Consistent, take-Consistent}

append-ne-nil : (ws : List Waiter) (x : Waiter) → ws ++ x ∷ [] ≢ []
append-ne-nil [] x = λ e. cc
append-ne-nil (y ∷ ws) x = λ e. cc

include-IsUnion :
    (x : Waiter) (set : WaitSet)
    → has x.id set.waiters ≡ false
    → IsUnion set
    → IsUnion (record { waiters = include x set.waiters; events = bit_or set.events x.events })
unfolding include
include-IsUnion x set new g = rw new (record {
  agrees = rw (combined-append set.waiters x, g.agrees) refl;
  parked = append-ne-nil set.waiters x;
})

module _ (vpp : Vpp) (w : Worker) (k raw : Vlsh) (c : IsConsistent w)
    (here : lookup k w.sessions ≡ some raw) where
  drop-Consistent :
      (set : WaitSet) (woken : List ℕ)
      → IsConsistent
          (record w { calls = del raw ∷ w.calls; waiters = delete k w.waiters; woken = woken })
  unfolding interest
  drop-Consistent set woken =
      take-Consistent vpp w k raw c here _ refl (delete-Distinct k w.waiters c.distinct)
        (λ u. lookup-delete u k w.waiters) (ground (arith, int_eq.beq_iff raw raw))
        (λ r ne. ground (arith, int_eq.beq_iff r raw))

  -- A new mask that VPP is told, or that it has already.
  told-Consistent :
      (w' : Worker) (set : WaitSet)
      → w'.sessions ≡ w.sessions
      → w'.waiters ≡ insert k set w.waiters
      → IsUnion set
      → w'.calls ≡ mod_ raw k set.events true ∷ w.calls
      → IsConsistent w'
  unfolding interest
  told-Consistent w' set es ew good ec =
      put-Consistent vpp w k raw c here w' set es ew good
        (rw ec (ground (arith, int_eq.beq_iff raw raw)))
        (λ r ne. rw ec (ground (arith, int_eq.beq_iff r raw)))

  same_mask-Consistent :
      (w' : Worker) (old set : WaitSet)
      → w'.sessions ≡ w.sessions
      → w'.waiters ≡ insert k set w.waiters
      → IsUnion set
      → w'.calls ≡ w.calls
      → lookup k w.waiters ≡ some old
      → set.events ≡ old.events
      → IsConsistent w'
  same_mask-Consistent w' old set es ew good ec e m =
      put-Consistent vpp w k raw c here w' set es ew good
        (rw ec (c.asked k raw here ∙ rw (e, m) refl)) (λ r ne. rw ec refl)

  -- A refused call changes nothing that VPP has registered.
  refused-Consistent : (m : ℕ) → IsConsistent (record w { calls = mod_ raw k m false ∷ w.calls })
  unfolding interest
  refused-Consistent m = record {
    distinct = c.distinct;
    apart = c.apart;
    sets = c.sets;
    tracked = c.tracked;
    asked = c.asked;
    unasked = c.unasked;
  }

  pub settle-Consistent :
      (set : WaitSet) (left : List Waiter)
      → lookup k w.waiters ≡ some set
      → IsConsistent (settle vpp w k raw set left)
  unfolding settle interest
  settle-Consistent set [] e = drop-Consistent set w.woken
  settle-Consistent set (x ∷ left) e =
      elim (Bool-cases (combined_events (x ∷ left) == set.events)) [
        | inl same ↦ rw same (same_mask-Consistent _ set set' refl refl good refl e (ground arith))
        | inr differs ↦
            rw differs (elim (Bool-cases (vpp.mod_ok w.calls raw (combined_events (x ∷ left)))) [
              | inl accepted ↦ rw (accepted, note_mod) (told-Consistent _ set' refl refl good refl)
              | inr refused ↦
                  rw (refused, note_mod, drop_wait_set)
                    (take-Consistent vpp w k raw c here _ refl
                      (delete-Distinct k (insert k set' w.waiters)
                        (insert-Distinct k set' w.waiters c.distinct))
                      (λ u. ground (
                        arith,
                        lookup-delete u k (insert k set' w.waiters),
                        lookup-insert u k set' w.waiters,
                        int_eq.beq_iff u k,
                      ))
                      (ground (arith, int_eq.beq_iff raw raw))
                      (λ r ne. ground (arith, int_eq.beq_iff r raw, refused)))
            ])
      ]
    where
      set' : WaitSet
      set' = record { waiters = x ∷ left; events = combined_events (x ∷ left) }

      good : IsUnion set'
      good = record { agrees = refl; parked = λ h. cc }

  first-Consistent :
      (x : Waiter) → lookup k w.waiters ≡ none → IsConsistent (first_waiter vpp w k raw x).0
  unfolding first_waiter interest
  first-Consistent x e = elim (Bool-cases (vpp.add_ok w.calls raw x.events)) [
    | inl accepted ↦ rw accepted (
        put-Consistent vpp w k raw c here _ set' refl refl good
          (ground (arith, int_eq.beq_iff raw raw)) (λ r ne. ground (arith, int_eq.beq_iff r raw)))
    | inr refused ↦ rw refused (record {
      distinct = c.distinct;
      apart = c.apart;
      sets = c.sets;
      tracked = c.tracked;
      asked = c.asked;
      unasked = c.unasked;
    })
  ]
    where
      set' : WaitSet
      set' = record { waiters = x ∷ []; events = x.events }

      good : IsUnion set'
      good = record { agrees = sym (combined_one x); parked = λ h. cc }

  next-Consistent :
      (x : Waiter) (set : WaitSet)
      → lookup k w.waiters ≡ some set
      → has x.id set.waiters ≡ false
      → IsConsistent (next_waiter vpp w k raw x set).0
  unfolding next_waiter
  next-Consistent x set e new = elim (Bool-cases (bit_or set.events x.events == set.events)) [
    | inl same ↦ rw same (same_mask-Consistent _ set set' refl refl good refl e (ground arith))
    | inr differs ↦
        rw differs (elim (Bool-cases (vpp.mod_ok w.calls raw (bit_or set.events x.events))) [
          | inl accepted ↦
              rw (accepted, note_mod, join) (told-Consistent _ set' refl refl good refl)
          | inr refused ↦ rw (refused, note_mod) (refused-Consistent (bit_or set.events x.events))
        ])
  ]
    where
      set' : WaitSet
      set' = record { waiters = include x set.waiters; events = bit_or set.events x.events }

      good : IsUnion set'
      good = include-IsUnion x set new (c.sets k set e)

  pub park-Consistent :
      (x : Waiter)
      → ((set : WaitSet) → lookup k w.waiters ≡ some set → has x.id set.waiters ≡ false)
      → IsConsistent (park vpp w k raw x).0
  unfolding park
  park-Consistent x new = elim (Option-cases (lookup k w.waiters)) [
    | inl e ↦ rw (e, park) (first-Consistent x e)
    | inr (set, e) ↦ rw (e, park) (next-Consistent x set e (new set e))
  ]

  pub remove_waiters-Consistent : IsConsistent (remove_waiters w k raw)
  unfolding remove_waiters drop_wait_set
  remove_waiters-Consistent = elim (Option-cases (lookup k w.waiters)) [
    | inl e ↦ rw (e, remove_waiters) c
    | inr (set, e) ↦ rw (e, remove_waiters) (drop-Consistent set (wake_all_of set.waiters w.woken))
  ]

pub woken-Consistent :
    (w : Worker) (woken : List ℕ) → IsConsistent w → IsConsistent (record w { woken = woken })
woken-Consistent w woken c = record {
  distinct = c.distinct;
  apart = c.apart;
  sets = c.sets;
  tracked = c.tracked;
  asked = c.asked;
  unasked = c.unasked;
}

module _ (vpp : Vpp) (w : Worker) (c : IsConsistent w) where
  pub cancel_waiter-Consistent :
      (k raw : Vlsh) (x : Waiter)
      → lookup k w.sessions ≡ some raw
      → IsConsistent (cancel_waiter vpp w k raw x).0
  unfolding cancel_waiter cancel_in wake_waiter
  cancel_waiter-Consistent k raw x here = elim (Option-cases (lookup k w.waiters)) [
    | inl e ↦ rw (e, cancel_waiter) c
    | inr (set, e) ↦
        rw (e, cancel_waiter)
          (elim (Bool-cases (has x.id set.waiters)) [
            | inl h ↦ rw h (
                settle-Consistent vpp (wake_waiter w x) k raw (woken-Consistent w _ c) here set
                  (exclude x.id set.waiters) e)
            | inr h ↦ rw h c
          ])
  ]

  -- A wait set always has a session, so `handleEvent` never drops waiters that it has not woken.
  pub handle_event-Consistent : (k : Vlsh) (events : ℕ) → IsConsistent (handle_event vpp w k events)
  unfolding handle_event
  handle_event-Consistent k events = elim (Option-cases (lookup k w.waiters)) [
    | inl e ↦ rw (e, handle_event) c
    | inr (set, e) ↦ elim (Option-cases (lookup k w.sessions)) [
      | inl gone ↦ absurd (cc (c.tracked k gone))
      | inr (raw, here) ↦
          rw (e, handle_event)
            (rw here (
              settle-Consistent vpp _ k raw (woken-Consistent w _ c) here set
                (kept events set.waiters) e))
    ]
  ]
