-- ===== src/Pool/Progress.antt =====
-- internal/vclpoll/worker.go, lines 57 to 190, and mode2.go, lines 90 to 124: while the dispatcher stops,
-- somebody can always go on.
use vclnet.Base.{
  ℕ, zero, suc, ◌<◌, ◌≤◌, ◌≡◌, ◌∙◌, refl, ap, sym, subst, Bool, true, false, ◌==◌, ltb, arith, ◌⊎◌,
  inl, inr, Bool-cases,
}
use vclnet.Pool.Life.{
  Phase, absent, starting, started, opening, looping, quiescing, drained, unregistering, gone,
  waiting_destroy, parked, failed, Life, Live, sees_stop, opens, stops, empties, quiesces,
  unregisters, destroys, Signals,
}
use vclnet.Pool.System.{
  Main, launching, awaiting, readying, running, signalling, joining, exiting, stopped,
  waiting_destroyed, ended, Pool, signals_stop, signalled, joins, joined, skips, finds_exited,
  finds_all, has_none, closes_destroy, finds_destroyed, is_empty, Control, Turn, controls, lives_on,
  System, Reach,
}
use vclnet.Pool.Invariant.{is_up, is_gone, is_parked, has_role, after_quiesce, was_told, is_waiting}
use vclnet.Pool.Safety.{IsSafe, Reach-IsSafe}

-- Whether the dispatcher is in `stop`, or in `appDestroy`.
abbrev pub is_stopping : Main → Bool
is_stopping (signalling k) = true
is_stopping (joining k) = true
is_stopping (exiting k) = true
is_stopping stopped = true
is_stopping waiting_destroyed = true
is_stopping _ = false

-- A step that a stop may take: one of the dispatcher or of a worker, or a worker refuses an operation.
abbrev pub CanStep : ℕ → System → Type 0
CanStep total s =
    ((q : Pool) × Turn total s.queue s.pool q)
    ⊎ ((i : ℕ) × (s.pool.phase i ≡ quiescing) × (is_empty (s.queue i) ≡ false))

below_or_not : (k n : ℕ) → (k < n) ⊎ (n ≤ k)
below_or_not k n = elim (Bool-cases (ltb k n)) [
  | inl e ↦ inl (ground (arith, e))
  | inr e ↦ inr (ground (arith, e))
]

module _ (total : ℕ) (s : System) (h : IsSafe s.pool) where
  goes_on :
      (k : ℕ) {x y : Phase} {g : Signals} {l : Life}
      → s.pool.phase k ≡ x
      → Live k (is_empty (s.queue k)) s.pool.signals (s.pool.lives k) x g l y
      → CanStep total s
  goes_on k {x} {y} {g} {l} e m = inl (
    _,
    lives_on k (
        subst (λ z. Live k (is_empty (s.queue k)) s.pool.signals (s.pool.lives k) z g l y) (sym e)
          m),
  )

  -- A worker that was told to stop and has not quiesced goes on.
  quiescing_goes_on :
      (k : ℕ) (x : Phase)
      → s.pool.phase k ≡ x
      → is_up x ≡ true
      → after_quiesce x ≡ false
      → (s.pool.lives k).stop_closed ≡ true
      → CanStep total s
  quiescing_goes_on k started e u q c = goes_on k e (sees_stop c)
  quiescing_goes_on k opening e u q c = goes_on k e opens
  quiescing_goes_on k looping e u q c = goes_on k e (stops c)
  quiescing_goes_on k quiescing e u q c = elim (Bool-cases (is_empty (s.queue k))) [
    | inl n ↦ goes_on k e (empties n)
    | inr n ↦ inr (k, e, n)
  ]
  quiescing_goes_on k drained e u q c = goes_on k e quiesces
  quiescing_goes_on k absent e u q c = absurd (cc)
  quiescing_goes_on k starting e u q c = absurd (cc)
  quiescing_goes_on k failed e u q c = absurd (cc)
  quiescing_goes_on k unregistering e u q c = absurd (cc)
  quiescing_goes_on k gone e u q c = absurd (cc)
  quiescing_goes_on k waiting_destroy e u q c = absurd (cc)
  quiescing_goes_on k parked e u q c = absurd (cc)

  -- A worker but the bootstrap one that was told to stop has exited or goes on.
  exiting_goes_on :
      (k : ℕ) (x : Phase)
      → s.pool.phase k ≡ x
      → is_up x ≡ true
      → has_role (k == 0) x ≡ true
      → (k == 0) ≡ false
      → (s.pool.lives k).stop_closed ≡ true
      → (is_gone x ≡ true) ⊎ CanStep total s
  exiting_goes_on k started e u r n c = inr (quiescing_goes_on k started e refl refl c)
  exiting_goes_on k opening e u r n c = inr (quiescing_goes_on k opening e refl refl c)
  exiting_goes_on k looping e u r n c = inr (quiescing_goes_on k looping e refl refl c)
  exiting_goes_on k quiescing e u r n c = inr (quiescing_goes_on k quiescing e refl refl c)
  exiting_goes_on k drained e u r n c = inr (quiescing_goes_on k drained e refl refl c)
  exiting_goes_on k unregistering e u r n c = inr (goes_on k e unregisters)
  exiting_goes_on k gone e u r n c = inl refl
  exiting_goes_on k waiting_destroy e u r n c =
      absurd (cc (ap (λ b. has_role b waiting_destroy) n, r))
  exiting_goes_on k parked e u r n c = absurd (cc (ap (λ b. has_role b parked) n, r))
  exiting_goes_on k absent e u r n c = absurd (cc)
  exiting_goes_on k starting e u r n c = absurd (cc)
  exiting_goes_on k failed e u r n c = absurd (cc)

  -- The bootstrap worker, told to end, has destroyed the application or goes on.
  bootstrap_goes_on :
      (x : Phase)
      → s.pool.phase 0 ≡ x
      → is_up x ≡ true
      → has_role true x ≡ true
      → s.pool.signals.destroy_closed ≡ true
      → (s.pool.lives 0).stop_closed ≡ true
      → (is_parked x ≡ true) ⊎ CanStep total s
  bootstrap_goes_on started e u r d c = inr (quiescing_goes_on 0 started e refl refl c)
  bootstrap_goes_on opening e u r d c = inr (quiescing_goes_on 0 opening e refl refl c)
  bootstrap_goes_on looping e u r d c = inr (quiescing_goes_on 0 looping e refl refl c)
  bootstrap_goes_on quiescing e u r d c = inr (quiescing_goes_on 0 quiescing e refl refl c)
  bootstrap_goes_on drained e u r d c = inr (quiescing_goes_on 0 drained e refl refl c)
  bootstrap_goes_on waiting_destroy e u r d c = inr (goes_on 0 e (destroys d))
  bootstrap_goes_on parked e u r d c = inl refl
  bootstrap_goes_on unregistering e u r d c = absurd (cc)
  bootstrap_goes_on gone e u r d c = absurd (cc)
  bootstrap_goes_on absent e u r d c = absurd (cc)
  bootstrap_goes_on starting e u r d c = absurd (cc)
  bootstrap_goes_on failed e u r d c = absurd (cc)

  told_at :
      (k : ℕ) (m : Main)
      → s.pool.main ≡ m
      → k < s.pool.appended
      → was_told m k ≡ true
      → (s.pool.lives k).stop_closed ≡ true
  told_at k m e l w = (h.fits k).told l (ap (λ (n : Main). was_told n k) e ∙ w)

  controls_on : {q : Pool} → Control total s.pool q → CanStep total s
  controls_on c = inl (_, controls c)

  join_goes_on : (k : ℕ) → s.pool.main ≡ joining k → k < s.pool.appended → CanStep total s
  join_goes_on k e l = elim (Bool-cases (s.pool.lives k).quiesced) [
    | inl q ↦ controls_on (joins k e l q)
    | inr q ↦
        let f = h.fits k in
        quiescing_goes_on k (s.pool.phase k) refl (f.up l) (f.quiet ∙ q)
          (told_at k (joining k) e l refl)
  ]

  exit_goes_on : (k : ℕ) → s.pool.main ≡ exiting k → k < s.pool.appended → CanStep total s
  exit_goes_on zero e l = controls_on (skips e l)
  exit_goes_on (suc k) e l =
      let f = h.fits (suc k) in
      elim (exiting_goes_on (suc k) (s.pool.phase (suc k)) refl (f.up l) f.role (ground arith)
        (told_at (suc k) (exiting (suc k)) e l refl)) [
          | inl g ↦ controls_on (finds_exited (suc k) e (omega arith) l (f.exits g))
          | inr c ↦ c
        ]

  wait_goes_on : s.pool.main ≡ waiting_destroyed → CanStep total s
  wait_goes_on e =
      let f = h.fits 0 in
      let (some_worker, closed) = h.ordered.bootstrapped (ap is_waiting e) in
      elim (bootstrap_goes_on (s.pool.phase 0) refl (f.up some_worker) f.role closed
        (told_at 0 waiting_destroyed e some_worker refl)) [
          | inl g ↦ controls_on (finds_destroyed e (f.parks g))
          | inr c ↦ c
        ]

  stop_goes_on : (m : Main) → s.pool.main ≡ m → is_stopping m ≡ true → CanStep total s
  stop_goes_on (signalling k) e i = elim (below_or_not k s.pool.appended) [
    | inl l ↦ controls_on (signals_stop k e l)
    | inr l ↦ controls_on (signalled k e l)
  ]
  stop_goes_on (joining k) e i = elim (below_or_not k s.pool.appended) [
    | inl l ↦ join_goes_on k e l
    | inr l ↦ controls_on (joined k e l)
  ]
  stop_goes_on (exiting k) e i = elim (below_or_not k s.pool.appended) [
    | inl l ↦ exit_goes_on k e l
    | inr l ↦ controls_on (finds_all k e l)
  ]
  stop_goes_on stopped e i = elim (below_or_not 0 s.pool.appended) [
    | inl l ↦ controls_on (closes_destroy e l)
    | inr l ↦ controls_on (has_none e (omega (arith, l)))
  ]
  stop_goes_on waiting_destroyed e i = wait_goes_on e
  stop_goes_on launching e i = absurd (cc)
  stop_goes_on awaiting e i = absurd (cc)
  stop_goes_on (readying k) e i = absurd (cc)
  stop_goes_on running e i = absurd (cc)
  stop_goes_on ended e i = absurd (cc)

-- In every reachable state in which the dispatcher stops its workers or destroys the application, also
-- after an initialisation that failed half-way, the dispatcher or a worker can take its next step, or a
-- worker can refuse an operation that is still in its channel: no wait in `stop` or `appDestroy` is a
-- deadlock.
pub stop_never_stuck :
    (total : ℕ) {s : System} → Reach total s → is_stopping s.pool.main ≡ true → CanStep total s
stop_never_stuck total {s} r i = stop_goes_on total s (Reach-IsSafe r) s.pool.main refl i
