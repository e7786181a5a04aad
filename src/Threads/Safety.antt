-- ===== src/Threads/Safety.antt =====
-- internal/vclpoll/cgo.go, lines 704 to 886 and 1508 to 1528: what `vlsMu` and the registration promise
-- to libvppcom.
use vclnet.Base.{
  ℕ, Option, none, ◌∙◌, ◌≤◌, ◌≡◌, refl, Bool, true, false, ◌==◌, some, arith, ==_iff, ap, inl, inr,
  Bool-cases, if◌then◌else◌,
}
use vclnet.Wait.Sets.{count}
use vclnet.Threads.Defs.{Shared, Once, fresh, running, finished, is_finished, load, is_thread}
use vclnet.Threads.System.{
  Phase, registering, destroying, creating, in_call, looping, Call, Move, begin_shutdown, System,
  update, Step, moves, ends, unused, Reach, init, later, idle,
}
use vclnet.Threads.Invariant.{writes, is_known, saw_live, Fits, IsOrdered}
use vclnet.Threads.Moves.{Move-IsOrdered}
use vclnet.Threads.Own.{Move-Fits}
use vclnet.Threads.Others.{Move-others, alone_writes}

record IsSafe (s : System) : Type 0 where
  ordered : IsOrdered s.shared
  fits : (i : ℕ) → Fits s.shared i (s.phase i)

updated-Fits :
    {s : System} {i : ℕ} {t : Shared} {x : Phase} (j : ℕ)
    → Move i s.shared (s.phase i) t x
    → IsSafe s
    → Fits t j (update s.phase i x j)
updated-Fits {s} {i} {t} {x} j m h = elim (Bool-cases (j == i)) [
  | inl same ↦ rw (same, (==_iff j i).0 same) (Move-Fits m (h.fits i) h.ordered)
  | inr other ↦ rw other (Move-others (s.phase j) m other h.ordered (h.fits i) (h.fits j))
]

-- A shutdown that does not come early finds the initialisation finished.
ended_in_time :
    {o : Once} {b : Bool}
    → (if is_finished o then b else true) ≡ false
    → (o ≡ finished) × (b ≡ false)
ended_in_time {o = fresh} e = absurd (cc)
ended_in_time {o = running i} e = absurd (cc)
ended_in_time {o = finished} e = (refl, e)

ended-Fits : {s : Shared} {i : ℕ} {p : Phase} → Fits s i p → Fits (begin_shutdown s) i p
unfolding begin_shutdown
ended-Fits f = record {
  holds = f.holds;
  shares = f.shares;
  known = f.known;
  unknown = f.unknown;
  calls = f.calls;
  destroyer = f.destroyer;
  initialiser = f.initialiser;
  lives = λ n m. f.lives n (ended_in_time m).1;
  young = f.young;
}

ended-IsOrdered : {s : Shared} → IsOrdered s → IsOrdered (begin_shutdown s)
unfolding begin_shutdown
ended-IsOrdered o = record {
  alone = o.alone;
  unstarted = o.unstarted;
  over = λ _ m. (refl, (ended_in_time m).0);
  at_end = λ j d. refl;
  whole = o.whole;
  gone = λ _. refl;
  at_most = o.at_most;
}

Step-IsSafe : {s t : System} → Step s t → IsSafe s → IsSafe t
Step-IsSafe {s} (moves i m) h = record {
  ordered = Move-IsOrdered m (h.fits i) h.ordered;
  fits = λ j. updated-Fits j m h;
}
Step-IsSafe ends h = record {
  ordered = ended-IsOrdered h.ordered;
  fits = λ j. ended-Fits (h.fits j);
}

unused-Fits : (i : ℕ) → Fits unused i idle
unfolding count load
unused-Fits i = record {
  holds = refl;
  shares = refl;
  known = λ e. absurd (cc);
  unknown = λ e. absurd (cc);
  calls = omega arith;
  destroyer = λ e. absurd (cc);
  initialiser = λ e. absurd (cc);
  lives = λ e. absurd (cc);
  young = λ e. absurd (cc);
}

unused-IsOrdered : IsOrdered unused
unused-IsOrdered = record {
  alone = λ j e. refl;
  unstarted = λ e. (refl, refl, refl);
  over = λ e. absurd (cc);
  at_end = λ j e. absurd (cc);
  whole = λ e. absurd (cc);
  gone = λ h. absurd (omega arith);
  at_most = omega arith;
}

Reach-IsSafe : {s : System} → Reach s → IsSafe s
Reach-IsSafe init = record { ordered = unused-IsOrdered; fits = unused-Fits }
Reach-IsSafe (later r t) = Step-IsSafe t (Reach-IsSafe r)

-- Whether the thread is in a call of libvppcom that changes what all its workers share:
-- `vclpoll_register_worker`, `vclpoll_app_create` or `vclpoll_app_destroy`.
abbrev pub alters : Phase → Bool
alters (registering g) = true
alters creating = true
alters destroying = true
alters _ = false

-- Whether it is in any call of libvppcom.
abbrev pub in_vls : Phase → Bool
in_vls (registering g) = true
in_vls creating = true
in_vls destroying = true
in_vls (in_call c) = true
in_vls _ = false

alters-writes : (p : Phase) → alters p ≡ true → writes p ≡ true
alters-writes (registering g) e = refl
alters-writes creating e = refl
alters-writes destroying e = refl
alters-writes _ e = absurd (cc)

same_writer : {i j : ℕ} (w : Option ℕ) → is_thread i w ≡ true → is_thread j w ≡ true → i ≡ j
same_writer {i} {j} none e d = absurd (cc)
same_writer {i} {j} (some k) e d = ground (arith, e, d, ==_iff i k, ==_iff j k)

holds_one :
    {s : Shared} {i j : ℕ} (p : Phase)
    → IsOrdered s
    → is_thread i s.writer ≡ true
    → Fits s j p
    → in_vls p ≡ true
    → i ≡ j
holds_one {s} (registering g) o e f h = same_writer s.writer e f.holds
holds_one {s} creating o e f h = same_writer s.writer e f.holds
holds_one {s} destroying o e f h = same_writer s.writer e f.holds
holds_one {s} {i} {j} (in_call c) o e f h = absurd (omega (arith, alone_writes i j o e f.shares))
holds_one _ o e f h = absurd (cc)

-- In every reachable state: while a thread registers as a VCL worker, or creates or destroys the
-- application, no other thread is in any call of libvppcom.
pub calls_exclusive :
    (i j : ℕ) {s : System} → Reach s → alters (s.phase i) ≡ true → in_vls (s.phase j) ≡ true → i ≡ j
calls_exclusive i j {s} r a c =
    let h = Reach-IsSafe r in
    holds_one (s.phase j) h.ordered ((h.fits i).holds ∙ alters-writes (s.phase i) a) (h.fits j) c

-- In every reachable state: a thread that is in a call of a session or of the poller is in
-- `workerRegistry`, no thread has called `vclpoll_register_worker` more than once,
-- `vclpoll_app_destroy` was called at most once, and, unless `mode3BeginShutdown` was called before the
-- end of `mode3AppInit`, a call whose loop reads `appLive` under the read lock is in libvppcom only
-- while it was not called.
pub call_allowed :
    (i : ℕ) (c : Call) {s : System}
    → Reach s
    → ((s.phase i ≡ in_call c) → load i s.shared.registry ≡ true)
      × (count i s.shared.register_calls ≤ 1)
      × (s.shared.destroys ≤ 1)
      × ((s.phase i ≡ in_call looping) → s.shared.ended_early ≡ false → s.shared.destroys ≡ 0)
call_allowed i c {s} r =
    let h = Reach-IsSafe r in
    let f = h.fits i in
    (
      λ e. f.known (ap is_known e),
      ground (arith, f.calls),
      h.ordered.at_most,
      λ e. f.lives (ap saw_live e),
    )
