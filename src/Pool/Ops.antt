-- ===== src/Pool/Ops.antt =====
-- internal/vclpoll/mode2.go, lines 126 to 142, and worker.go, lines 137 to 174: what a call of `submit`
-- may rely on.
use vclnet.Base.{
  ℕ, ◌+◌, ◌<◌, ◌≤◌, ◌≡◌, ◌∙◌, refl, ap, sym, List, Bool, true, false, ◌==◌, arith, ==_iff, ◌⊎◌, inl,
  inr, Bool-cases,
}
use vclnet.Wait.Sets.{count}
use vclnet.Pool.Life.{
  Phase, absent, starting, started, opening, looping, quiescing, drained, unregistering, gone,
  waiting_destroy, parked, failed,
}
use vclnet.Pool.System.{
  Pool, Turn, controls, lives_on, appends, Caller, rejected, sending, waiting, returned, System,
  update, drain_op, refuses, Step, turns, drains_op, refuses_op, submits, rejects, sends,
  gives_up_sending, gets_answer, gives_up_waiting, Reach, init, later,
}
use vclnet.Pool.Invariant.{is_up, after_quiesce}
use vclnet.Pool.Safety.{Reach-IsSafe}
use vclnet.Pool.Counts.{is_for, waits_at, AreCounted, Reach-AreCounted}

-- Every call is about a worker that was appended.
ArePlaced : System → Type 0
ArePlaced s = (o i : ℕ) → is_for (s.caller o) i ≡ true → i < s.pool.appended

Turn-appended :
    {total : ℕ} {queue : ℕ → List ℕ} {p q : Pool} → Turn total queue p q → p.appended ≤ q.appended
Turn-appended (controls (appends e h)) = omega arith
Turn-appended (controls c) = omega arith
Turn-appended (lives_on i m) = omega arith

for_caller :
    {n : ℕ} (f : ℕ → Caller) (o : ℕ) (d : Caller)
    → ((i : ℕ) → is_for d i ≡ true → i < n)
    → ((p i : ℕ) → is_for (f p) i ≡ true → i < n)
    → (p i : ℕ) → is_for (update f o d p) i ≡ true
    → i < n
for_caller f o d new old p i = elim (Bool-cases (p == o)) [
  | inl same ↦ rw same (new i)
  | inr other ↦ rw other (old p i)
]

drained_placed : (s : System) (a : ℕ) → ArePlaced s → ArePlaced (drain_op s a)
unfolding ArePlaced drain_op
drained_placed s a k o j = elim (Bool-cases (refuses s.pool)) [
  | inl r ↦ rw r (k o j)
  | inr r ↦ rw r (k o j)
]

Step-ArePlaced : {total : ℕ} {s t : System} → Step total s t → ArePlaced s → ArePlaced t
unfolding ArePlaced
Step-ArePlaced (turns u) k = λ o i e. omega (arith, k o i e, Turn-appended u)
Step-ArePlaced {s = s} (drains_op i a rest e d) k =
    drained_placed (record s { queue = update s.queue i rest }) a k
Step-ArePlaced (refuses_op i o rest e d) k = k
Step-ArePlaced {s = s} (submits o i e d l) k =
    for_caller s.caller o (sending i) (λ j x. ground (arith, l, x, ==_iff j i)) k
Step-ArePlaced {s = s} (rejects o e d) k = for_caller s.caller o rejected (λ j x. absurd (cc)) k
Step-ArePlaced {s = s} (sends o i e l) k =
    for_caller s.caller o (waiting i) (λ j x. k o j (ap (λ (c : Caller). is_for c j) e ∙ x)) k
Step-ArePlaced {s = s} (gives_up_sending o i e d) k =
    for_caller s.caller o (returned i) (λ j x. absurd (cc)) k
Step-ArePlaced {s = s} (gets_answer o i e d) k =
    for_caller s.caller o (returned i) (λ j x. absurd (cc)) k
Step-ArePlaced {s = s} (gives_up_waiting o i e d) k =
    for_caller s.caller o (returned i) (λ j x. absurd (cc)) k

Reach-ArePlaced : {total : ℕ} {s : System} → Reach total s → ArePlaced s
unfolding ArePlaced
Reach-ArePlaced init = λ o i e. absurd (cc)
Reach-ArePlaced (later r t) = Step-ArePlaced t (Reach-ArePlaced r)

-- Whether a worker has registered and not quiesced.
abbrev pub serves : Phase → Bool
serves started = true
serves opening = true
serves looping = true
serves quiescing = true
serves drained = true
serves _ = false

up_serves :
    (x : Phase) {q : Bool} → is_up x ≡ true → after_quiesce x ≡ q → (serves x ≡ true) ⊎ (q ≡ true)
up_serves absent u e = absurd (cc)
up_serves starting u e = absurd (cc)
up_serves failed u e = absurd (cc)
up_serves unregistering u e = inr (sym e)
up_serves gone u e = inr (sym e)
up_serves waiting_destroy u e = inr (sym e)
up_serves parked u e = inr (sym e)
up_serves _ u e = inl refl

-- In every reachable state of the pool and its callers: an operation is in the channel of a worker, run
-- by one or refused by one at most once in all; while its call waits for worker `i` it is in the channel
-- of that worker, or was run or refused, once; and then the worker still serves its channel, or has
-- quiesced, which ends the wait.
pub op_accounted :
    (total o i : ℕ) {s : System}
    → Reach total s
    → (count o (s.queue i) + count o s.ran + count o s.refused ≤ 1)
      × (s.caller o ≡ waiting i
          → (count o (s.queue i) + count o s.ran + count o s.refused ≡ 1)
            × ((serves (s.pool.phase i) ≡ true) ⊎ ((s.pool.lives i).quiesced ≡ true)))
unfolding AreCounted ArePlaced
op_accounted total o i {s} r =
    let k = Reach-AreCounted r o in
    let f = (Reach-IsSafe r).fits i in
    (
      k.once i,
      λ e. (
        k.kept i (waits_here e),
        up_serves (s.pool.phase i) (f.up (Reach-ArePlaced r o i (for_here e))) f.quiet,
      ),
    )
  where
    waits_here : s.caller o ≡ waiting i → waits_at (s.caller o) i ≡ true
    waits_here e = ap (λ (c : Caller). waits_at c i) e ∙ ground (arith, ==_iff i i)

    for_here : s.caller o ≡ waiting i → is_for (s.caller o) i ≡ true
    for_here e = ap (λ (c : Caller). is_for c i) e ∙ ground (arith, ==_iff i i)
