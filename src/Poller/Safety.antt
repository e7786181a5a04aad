-- ===== src/Poller/Safety.antt =====
-- What holds in every reachable state of the poller and its callers.
use vclnet.Base.{
  ℕ, ◌+◌, ◌≤◌, ◌≡◌, ◌≢◌, refl, subst, List, [], ◌∷◌, Bool, true, false, some, ◌==◌, arith, lookup,
  total, int_eq, weight-le-total, inl, inr, ==_iff, Bool-cases,
}
use vclnet.Wait.{Waiter}
use vclnet.Wait.Sets.{hit, count_of, count, count_of-append, has_pos}
use vclnet.Wait.Epoll.{Epoll, interest}
use vclnet.Poller.Defs.{Poller, finish, wake_all}
use vclnet.Poller.Invariant.{
  IsConsistent, IsNew, register-Consistent, cancel-Consistent, unregister-Consistent,
  wake_all-Consistent, handle_event-Consistent,
}
use vclnet.Poller.Tickets.{
  parked, tickets, in_set, register-tickets, cancel-tickets, unregister-tickets,
  handle_event-tickets, wake_all-tickets, register-woken, cancel-woken, unregister-woken,
  handle_event-woken, wake_all-woken,
}
use vclnet.Poller.System.{
  start, stop, launch, Phase, idle, registering, waiting, cancelling, returned, Move, begin, refuse,
  send, give_up, wake, done, closed, send_cancel, wake_late, closed_late, Turn, take_registration,
  take_cancellation, take_unregistration, event, exit, ask_unregister, ask_stop, System, update,
  Step, moves, turns, Reach, init, later, default_poller,
}

-- What the phase of a call says about its waiter.
abbrev pub Fits : ℕ → Poller → Phase → Type 0
Fits i p idle = tickets i p ≡ 0
Fits i p (registering w) = (w.id ≡ i) × (tickets i p ≡ 0)
Fits i p (waiting w) = (w.id ≡ i) × (tickets i p ≡ 1)
Fits i p (cancelling w) = (w.id ≡ i) × (tickets i p ≡ 1)
Fits i p (returned true) = (tickets i p ≡ 1) × (1 ≤ count i p.woken)
Fits i p (returned false) = tickets i p ≤ 1

pub record IsSafe (s : System) : Type 0 where
  pub consistent : IsConsistent s.poller
  pub fits : (i : ℕ) → Fits i s.poller (s.phase i)

-- A queued waiter is parked nowhere.
IsNew-of_queued :
    (p : Poller) (w : Waiter) (rest : List Waiter)
    → p.reg_ch ≡ w ∷ rest
    → tickets w.id p ≤ 1
    → IsNew w p
unfolding tickets parked count_of
IsNew-of_queued p w rest e h set l =
    grind (arith, has_pos w.id set.waiters, weight-le-total (in_set w.id) w.vlsh p.waiters)

pub Fits-le : (i : ℕ) (p : Poller) (x : Phase) → Fits i p x → tickets i p ≤ 1
Fits-le i p idle h = omega arith
Fits-le i p (registering w) h = omega arith
Fits-le i p (waiting w) h = omega arith
Fits-le i p (cancelling w) h = omega arith
Fits-le i p (returned true) h = omega arith
Fits-le i p (returned false) h = omega arith

-- A change of the poller that keeps where each waiter counts, and wakes none back.
Fits-keep :
    (i : ℕ) (p q : Poller) (x : Phase)
    → tickets i q ≡ tickets i p
    → count i p.woken ≤ count i q.woken
    → Fits i p x
    → Fits i q x
Fits-keep i p q idle e m h = omega arith
Fits-keep i p q (registering w) e m h = (h.0, omega arith)
Fits-keep i p q (waiting w) e m h = (h.0, omega arith)
Fits-keep i p q (cancelling w) e m h = (h.0, omega arith)
Fits-keep i p q (returned true) e m h = (omega arith, omega arith)
Fits-keep i p q (returned false) e m h = omega arith

-- What the loop does to the whole: it keeps the wait sets in order, every waiter in one place, and
-- those that are woken woken.
record Keeps (p q : Poller) : Type 0 where
  consistent : IsConsistent q
  same : (i : ℕ) → tickets i q ≡ tickets i p
  grows : (i : ℕ) → count i p.woken ≤ count i q.woken

-- Consistency does not read the channels or the flags.
IsConsistent-channels :
    (p q : Poller) → q.waiters ≡ p.waiters → q.calls ≡ p.calls → IsConsistent p → IsConsistent q
IsConsistent-channels p q e f c = record {
  distinct = rw e c.distinct;
  sets = λ v set l. c.sets v set (subst (λ m. lookup v m ≡ some set) e l);
  asked = λ v. rw (e, f) (c.asked v);
}

Turn-Keeps :
    {ep : Epoll} {p q : Poller}
    → Turn ep p q
    → IsConsistent p
    → ((i : ℕ) → tickets i p ≤ 1)
    → Keeps p q
unfolding tickets parked count_of finish stop
Turn-Keeps {ep} {p} (take_registration w rest on e) c once = record {
  consistent = register-Consistent ep q w d new;
  same = λ i. omega (arith, register-tickets i ep q w new, popped i);
  grows = λ i. register-woken i ep q w;
}
  where
    q : Poller
    q = record p { reg_ch = rest }

    d : IsConsistent q
    d = record { distinct = c.distinct; sets = c.sets; asked = c.asked }

    new : IsNew w q
    new = IsNew-of_queued p w rest e (once w.id)

    popped : (i : ℕ) → tickets i q + hit i w.id ≡ tickets i p
    popped i = rw e (omega arith)
Turn-Keeps {ep} {p} (take_cancellation w rest on e) c once = record {
  consistent = cancel-Consistent ep q w d;
  same = λ i. cancel-tickets i ep q w c.distinct;
  grows = λ i. cancel-woken i ep q w;
}
  where
    q : Poller
    q = record p { cancel_ch = rest }

    d : IsConsistent q
    d = record { distinct = c.distinct; sets = c.sets; asked = c.asked }
Turn-Keeps {ep} {p} (take_unregistration req rest on e) c once = record {
  consistent = unregister-Consistent q req d;
  same = λ i. unregister-tickets i q req c.distinct;
  grows = λ i. unregister-woken i q req;
}
  where
    q : Poller
    q = record p { unreg_ch = rest }

    d : IsConsistent q
    d = record { distinct = c.distinct; sets = c.sets; asked = c.asked }
Turn-Keeps {ep} {p} (event v events on) c once = record {
  consistent = handle_event-Consistent ep p v events c;
  same = λ i. handle_event-tickets i ep p v events c.distinct;
  grows = λ i. handle_event-woken i ep p v events;
}
Turn-Keeps {p} (exit on asked) c once = record {
  consistent = IsConsistent-channels (wake_all p) (finish p) refl refl (wake_all-Consistent p c);
  same = λ i. wake_all-tickets i p;
  grows = λ i. omega (arith, wake_all-woken i p);
}
Turn-Keeps {p} (ask_unregister req ok room) c once = record {
  consistent = IsConsistent-channels p _ refl refl c;
  same = λ i. refl;
  grows = λ i. omega arith;
}
Turn-Keeps {p} ask_stop c once = record {
  consistent = IsConsistent-channels p (stop p) refl refl c;
  same = λ i. refl;
  grows = λ i. omega arith;
}

Turn-Safe :
    {ep : Epoll} {s : System} {q : Poller}
    → Turn ep s.poller q
    → IsSafe s
    → IsSafe (record s { poller = q })
Turn-Safe {s} {q} t h = record {
  consistent = k.consistent;
  fits = λ i. Fits-keep i s.poller q (s.phase i) (k.same i) (k.grows i) (h.fits i);
}
  where
    k : Keeps s.poller q
    k = Turn-Keeps t h.consistent (λ i. Fits-le i s.poller (s.phase i) (h.fits i))

-- The effect of a move of call `i` on the poller, and the phase that it reaches.
record Moved (i : ℕ) (p q : Poller) (x : Phase) : Type 0 where
  sets : q.waiters ≡ p.waiters
  calls : q.calls ≡ p.calls
  woken : q.woken ≡ p.woken
  others : (j : ℕ) → i ≢ j → tickets j q ≡ tickets j p
  fits : Fits i q x

-- A move that leaves the queue, the sets and the woken waiters alone.
Moved-of_same :
    (i : ℕ) (p q : Poller) (x y : Phase)
    → (q.reg_ch ≡ p.reg_ch) × (q.waiters ≡ p.waiters) × (q.calls ≡ p.calls) × (q.woken ≡ p.woken)
    → (tickets i q ≡ tickets i p → Fits i p x → Fits i q y)
    → Fits i p x
    → Moved i p q y
unfolding tickets parked
Moved-of_same i p q x y (r, m, c, k) step h = record {
  sets = m;
  calls = c;
  woken = k;
  others = λ j ne. rw (r, m, k) refl;
  fits = step (rw (r, m, k) refl) h;
}

start-same :
    (p q : Poller) (b : Bool)
    → start p ≡ (q, b)
    → (q.reg_ch ≡ p.reg_ch) × (q.waiters ≡ p.waiters) × (q.calls ≡ p.calls) × (q.woken ≡ p.woken)
unfolding start launch
start-same p q b e = ground arith

Move-Moved : {i : ℕ} {p q : Poller} {x y : Phase} → Move i p x q y → Fits i p x → Moved i p q y
unfolding tickets parked count_of
Move-Moved {i} {p} {q} (begin v events e) h =
    Moved-of_same i p q idle _ (start-same p q true e) (λ t f. (refl, omega arith)) h
Move-Moved {i} {p} {q} (refuse e) h =
    Moved-of_same i p q idle _ (start-same p q false e) (λ t f. omega arith) h
Move-Moved {i} {p} (send w room) h = record {
  sets = refl;
  calls = refl;
  woken = refl;
  others = λ j ne. ground (arith, count_of-append j p.reg_ch (w ∷ []));
  fits = (h.0, ground (arith, count_of-append i p.reg_ch (w ∷ [])));
}
Move-Moved {i} {p} (give_up w) h =
    Moved-of_same i p p (registering w) _ (refl, refl, refl, refl) (λ t f. omega arith) h
Move-Moved {i} {p} (wake w r) h =
    Moved-of_same i p p (waiting w) _ (refl, refl, refl, refl) (λ t f. (f.1, ground arith)) h
Move-Moved {i} {p} (done w) h =
    Moved-of_same i p p (waiting w) _ (refl, refl, refl, refl) (λ t f. f) h
Move-Moved {i} {p} (closed w r) h =
    Moved-of_same i p p (waiting w) _ (refl, refl, refl, refl) (λ t f. omega arith) h
Move-Moved {i} {p} (send_cancel w room) h =
    Moved-of_same i p _ (cancelling w) _ (refl, refl, refl, refl) (λ t f. omega arith) h
Move-Moved {i} {p} (wake_late w r) h =
    Moved-of_same i p p (cancelling w) _ (refl, refl, refl, refl) (λ t f. (f.1, ground arith)) h
Move-Moved {i} {p} (closed_late w r) h =
    Moved-of_same i p p (cancelling w) _ (refl, refl, refl, refl) (λ t f. omega arith) h

Move-Safe :
    {i : ℕ} {s : System} {q : Poller} {x : Phase}
    → Move i s.poller (s.phase i) q x
    → IsSafe s
    → IsSafe (record { poller = q; phase = update s.phase i x })
Move-Safe {i} {s} {q} {x} mv h = record {
  consistent = IsConsistent-channels s.poller q m.sets m.calls h.consistent;
  fits = λ j. elim (Bool-cases (j == i)) [
    | inl e ↦ rw (e, (==_iff j i).0 e) m.fits
    | inr e ↦ rw e (
        Fits-keep j s.poller q (s.phase j) (m.others j (λ a. ground arith))
          (rw m.woken (omega arith)) (h.fits j))
  ];
}
  where
    m : Moved i s.poller q x
    m = Move-Moved mv (h.fits i)

-- Every step keeps the wait sets in order and every waiter in one place.
pub Step-Safe : {ep : Epoll} {s t : System} → Step ep s t → IsSafe s → IsSafe t
Step-Safe (moves i mv) h = Move-Safe mv h
Step-Safe (turns t) h = Turn-Safe t h

init-Safe : IsSafe (record { poller = default_poller; phase = λ _. idle })
unfolding interest lookup tickets parked count_of count total
init-Safe = record {
  consistent = record { distinct = tt; sets = λ v set l. cc; asked = λ v. refl };
  fits = λ i. refl;
}

pub Reach-Safe : {ep : Epoll} {s : System} → Reach ep s → IsSafe s
Reach-Safe init = init-Safe
Reach-Safe (later r st) = Step-Safe st (Reach-Safe r)
