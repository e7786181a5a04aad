-- ===== src/Worker/Turns.antt =====
-- The operations that run on a worker's goroutine, in any order: internal/vclpoll/worker.go, lines
-- 228 to 413, and the parts of mode2.go that add and remove sessions.
use vclnet.Base.{
  ℕ, ◌≡◌, ◌≢◌, refl, sym, ◌∙◌, subst, List, [], ◌∷◌, false, none, some, arith, lookup, insert,
  delete, int_eq, lookup-insert, lookup-delete, Option-cases, Bool-cases, inl, inr, complement,
}
use vclnet.Errors.{Result, ok, err}
use vclnet.Wait.{Vlsh, Waiter, WaitSet, has, exclude}
use vclnet.Worker.Defs.{
  Vpp, Worker, add_waiter, add_waiter_raw, parked_owned, owned_raw, check_ownership, raw_close,
  drop_wait_set,
}
use vclnet.Worker.Leave.{
  settle, wake_waiter, forget_if_empty, cancel_waiter, cancel_waiter_raw, remove_waiters,
  remove_waiters_raw, handle_event,
}
use vclnet.Worker.Invariant.{IsConsistent}
use vclnet.Worker.Keeps.{
  park-Consistent, settle-Consistent, woken-Consistent, remove_waiters-Consistent,
  cancel_waiter-Consistent, handle_event-Consistent,
}
use vclnet.Worker.Sessions.{insert_session-Consistent, delete_session-Consistent}

-- The waiter is not parked under this key.
abbrev pub IsNew : Waiter → Vlsh → Worker → Type 0
IsNew x k w = (set : WaitSet) → lookup k w.waiters ≡ some set → has x.id set.waiters ≡ false

-- One operation of the goroutine. `session` is a successful `registerSession` of a raw handle that VPP
-- gives to no two sessions, under a handle that has not come round again, and `close` the operation of
-- `Close`.
pub data Turn (vpp : Vpp) (w : Worker) : Worker → Type 0 where
  session :
      (k raw : Vlsh)
      → lookup k w.sessions ≡ none
      → ((u : Vlsh) → lookup u w.sessions ≢ some raw)
      → Turn vpp w (record w { sessions = insert k raw w.sessions })
  wait : (k raw : Vlsh) (x : Waiter) → IsNew x k w → Turn vpp w (add_waiter vpp w k raw x).0
  wait_raw :
      (raw : Vlsh) (x : Waiter)
      → IsNew x (complement raw) w
      → ((u : Vlsh) → lookup u w.sessions ≡ some raw → u ≡ complement raw)
      → ((r : Vlsh) → lookup (complement raw) w.sessions ≡ some r → r ≡ raw)
      → Turn vpp w (add_waiter_raw vpp w raw x).0
  cancel :
      (k raw : Vlsh) (x : Waiter)
      → lookup k w.sessions ≡ some raw
      → Turn vpp w (cancel_waiter vpp w k raw x).0
  wake : (k raw : Vlsh) → lookup k w.sessions ≡ some raw → Turn vpp w (remove_waiters w k raw)
  close :
      (k raw : Vlsh)
      → lookup k w.sessions ≡ some raw
      → Turn vpp w (record (raw_close (remove_waiters w k raw) raw) {
        sessions = delete k (remove_waiters w k raw).sessions;
      })
  unlisten :
      (raw : Vlsh)
      → lookup (complement raw) w.sessions ≡ some raw
      → Turn vpp w (remove_waiters_raw w raw)
  unwait_raw :
      (raw : Vlsh) (x : Waiter)
      → lookup (complement raw) w.sessions ≡ some raw
      → Turn vpp w (cancel_waiter_raw vpp w raw x)
  event : (k : Vlsh) (events : ℕ) → Turn vpp w (handle_event vpp w k events)

-- Only the count of violations or the list of closed handles changes.
same-Consistent :
    (w w' : Worker)
    → w'.sessions ≡ w.sessions
    → w'.waiters ≡ w.waiters
    → w'.calls ≡ w.calls
    → IsConsistent w
    → IsConsistent w'
same-Consistent w w' es ew ec c = record {
  distinct = rw ew c.distinct;
  apart = λ u v r lu lv. c.apart u v r (rw (sym es) lu) (rw (sym es) lv);
  sets = λ k set l. c.sets k set (rw (sym ew) l);
  tracked = λ k l. rw ew (c.tracked k (rw (sym es) l));
  asked = λ k r l. rw (ec, ew) (c.asked k r (rw (sym es) l));
  unasked = λ r no. rw ec (c.unasked r (λ k l. no k (rw es l)));
}

owned_raw_cases :
    (vpp : Vpp) (w : Worker) (k expected : Vlsh)
    → (((owned_raw vpp w k expected).0.sessions ≡ w.sessions)
        × ((owned_raw vpp w k expected).0.waiters ≡ w.waiters)
        × ((owned_raw vpp w k expected).0.calls ≡ w.calls))
      × ((raw : Vlsh)
          → (owned_raw vpp w k expected).1 ≡ ok raw
          → (lookup k w.sessions ≡ some raw) × (raw ≡ expected))
unfolding owned_raw check_ownership
owned_raw_cases vpp w k expected =
    (ground arith, λ raw e. ground (arith, e, int_eq.beq_iff raw expected))

wait-Consistent :
    (vpp : Vpp) (w : Worker) (k raw : Vlsh) (x : Waiter)
    → IsConsistent w
    → IsNew x k w
    → IsConsistent (add_waiter vpp w k raw x).0
unfolding add_waiter
wait-Consistent vpp w k expected x c new =
    let o = owned_raw_cases vpp w k expected in
    go (owned_raw vpp w k expected) o.0.0 o.0.1 o.0.2 (λ raw e. (o.1 raw e).0)
  where
    go :
        (r : Worker × Result Vlsh)
        → r.0.sessions ≡ w.sessions
        → r.0.waiters ≡ w.waiters
        → r.0.calls ≡ w.calls
        → ((raw : Vlsh) → r.1 ≡ ok raw → lookup k w.sessions ≡ some raw)
        → IsConsistent (parked_owned vpp k x r).0
    go (v, err e) es ew ec here = unfold parked_owned in same-Consistent w v es ew ec c
    go (v, ok raw) es ew ec here =
        unfold parked_owned in
        park-Consistent vpp v k raw (same-Consistent w v es ew ec c) (rw es (here raw refl)) x
          (λ set l. new set (rw (sym ew) l))

lookups-Consistent :
    (w : Worker) (sessions : List (Vlsh × Vlsh))
    → ((u : Vlsh) → lookup u sessions ≡ lookup u w.sessions)
    → IsConsistent w
    → IsConsistent (record w { sessions = sessions })
lookups-Consistent w sessions same c = record {
  distinct = c.distinct;
  apart = λ u v r lu lv. c.apart u v r (sym (same u) ∙ lu) (sym (same v) ∙ lv);
  sets = c.sets;
  tracked = λ k l. c.tracked k (sym (same k) ∙ l);
  asked = λ k r l. c.asked k r (sym (same k) ∙ l);
  unasked = λ r no. c.unasked r (λ k l. no k (same k ∙ l));
}

listen-Consistent :
    (w : Worker) (k raw : Vlsh)
    → IsConsistent w
    → ((u : Vlsh) → lookup u w.sessions ≡ some raw → u ≡ k)
    → ((r : Vlsh) → lookup k w.sessions ≡ some r → r ≡ raw)
    → IsConsistent (record w { sessions = insert k raw w.sessions })
listen-Consistent w k raw c only this = elim (Option-cases (lookup k w.sessions)) [
  | inl free ↦
      insert_session-Consistent w k raw c free
        (λ u l. absurd (cc (subst (λ v. lookup v w.sessions ≡ some raw) (only u l) l, free)))
  | inr (r, here) ↦
      lookups-Consistent w (insert k raw w.sessions)
        (λ u.
          ground (arith, here, this r here, lookup-insert u k raw w.sessions, int_eq.beq_iff u k))
        c
]

forget-Consistent :
    (vpp : Vpp) (w : Worker) (k raw : Vlsh) (set : WaitSet) (left : List Waiter)
    → IsConsistent w
    → lookup k w.sessions ≡ some raw
    → lookup k w.waiters ≡ some set
    → IsConsistent (forget_if_empty left (settle vpp w k raw set left) k)
unfolding forget_if_empty
forget-Consistent vpp w k raw set [] c here e =
    delete_session-Consistent (settle vpp w k raw set []) k
      (settle-Consistent vpp w k raw c here set [] e)
      (unfold settle in ground (arith, lookup-delete k k w.waiters, int_eq.beq_iff k k))
forget-Consistent vpp w k raw set (x ∷ left) c here e =
    settle-Consistent vpp w k raw c here set (x ∷ left) e

remove_waiters-none :
    (w : Worker) (k raw : Vlsh)
    → (lookup k (remove_waiters w k raw).waiters ≡ none)
      × ((remove_waiters w k raw).sessions ≡ w.sessions)
unfolding remove_waiters drop_wait_set
remove_waiters-none w k raw =
    (ground (arith, lookup-delete k k w.waiters, int_eq.beq_iff k k), ground arith)

-- A worker that registers only sessions whose handle and raw handle no session has, parks only waiters
-- that are not parked there, and runs the operations that wait, cancel, wake, close and handle an event,
-- but not `quiesce`: each wait set stays that of an open session with the union of its masks, and VPP is
-- asked for exactly those masks, under the public handle by which events are delivered; for a raw handle
-- that is no session, for nothing.
pub Turn-Consistent : {vpp : Vpp} {w v : Worker} → Turn vpp w v → IsConsistent w → IsConsistent v
unfolding cancel_waiter_raw
Turn-Consistent {w} (session k raw free unused) c = insert_session-Consistent w k raw c free unused
Turn-Consistent {vpp} {w} (wait k raw x new) c = wait-Consistent vpp w k raw x c new
Turn-Consistent {vpp} {w} (wait_raw raw x new only this) c =
    unfold add_waiter_raw in
    park-Consistent vpp (record w { sessions = insert (complement raw) raw w.sessions })
      (complement raw) raw (listen-Consistent w (complement raw) raw c only this)
      (ground (
        arith,
        lookup-insert (complement raw) (complement raw) raw w.sessions,
        int_eq.beq_iff (complement raw) (complement raw),
      ))
      x new
Turn-Consistent {vpp} {w} (cancel k raw x here) c = cancel_waiter-Consistent vpp w c k raw x here
Turn-Consistent {vpp} {w} (wake k raw here) c = remove_waiters-Consistent vpp w k raw c here
Turn-Consistent {vpp} {w} (close k raw here) c =
    unfold raw_close in
    delete_session-Consistent (raw_close (remove_waiters w k raw) raw) k
      (same-Consistent (remove_waiters w k raw) (raw_close (remove_waiters w k raw) raw) refl refl
        refl (remove_waiters-Consistent vpp w k raw c here))
      (remove_waiters-none w k raw).0
Turn-Consistent {vpp} {w} (unlisten raw here) c =
    unfold remove_waiters_raw in
    delete_session-Consistent (remove_waiters w (complement raw) raw) (complement raw)
      (remove_waiters-Consistent vpp w (complement raw) raw c here)
      (remove_waiters-none w (complement raw) raw).0
Turn-Consistent {vpp} {w} (unwait_raw raw x here) c =
    elim (Option-cases (lookup (complement raw) w.waiters)) [
      | inl e ↦ rw (e, cancel_waiter_raw) c
      | inr (set, e) ↦
          rw (e, cancel_waiter_raw)
            (elim (Bool-cases (has x.id set.waiters)) [
              | inl h ↦ rw h (
                  forget-Consistent vpp (wake_waiter w x) (complement raw) raw set
                    (exclude x.id set.waiters) (woken-Consistent w _ c) here e)
              | inr h ↦ rw h c
            ])
    ]
Turn-Consistent {vpp} {w} (event k events) c = handle_event-Consistent vpp w c k events
