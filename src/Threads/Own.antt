-- ===== src/Threads/Own.antt =====
-- internal/vclpoll/cgo.go, lines 723 to 886 and 1508 to 1528: what a step of a thread keeps of what the
-- thread itself knows.
use vclnet.Base.{ℕ, ◌≤◌, ◌≡◌, refl, true, false, some, ◌||◌, if◌then◌else◌, arith, ==_iff}
use vclnet.Wait.Sets.{count}
use vclnet.Threads.Defs.{Shared, running, load, is_thread, load-store, count-release}
use vclnet.Threads.System.{
  Phase, Move, enters, finds, misses, locks, finds_late, registers, returns, stores, unlocks,
  read_locks, calls_once, sees_live, sees_dead, calls_live, call_returns, read_unlocks, unpins,
  stays, begins_destroy, locks_destroy, destroys, unlocks_destroy, inits, locks_init, create_fails,
  creates, stores_init, marks_created, marks_live, unlocks_init, init_returns,
}
use vclnet.Threads.Invariant.{
  writes, reads, is_known, is_registering, is_registered, will_destroy, in_init, saw_live, is_young,
  Untouched, Fits, IsOrdered,
}

impossible {ℓ} : {A : Type ℓ} → false ≡ true → A
impossible e = absurd (cc)

-- `Fits` of a thread that neither is to destroy the application nor initialises it.
fits :
    {s : Shared} {i : ℕ} {p : Phase}
    → is_thread i s.writer ≡ writes p
    → count i s.readers ≡ (if reads p then 1 else 0)
    → (is_known p ≡ true → load i s.registry ≡ true)
    → count i s.register_calls ≤ (if load i s.registry || is_registered p then 1 else 0)
    → (will_destroy p ≡ true → (s.destroyer ≡ some i) × (s.destroys ≡ 0))
    → (in_init p ≡ true → s.app_once ≡ running i)
    → is_registering p ≡ false
    → saw_live p ≡ false
    → (is_young p ≡ true → Untouched s)
    → Fits s i p
fits a b c d e f g h y = record {
  holds = a;
  shares = b;
  known = c;
  unknown = λ n. absurd (cc (n, g));
  calls = d;
  destroyer = e;
  initialiser = f;
  lives = λ n. absurd (cc (n, h));
  young = y;
}

-- One step of a thread keeps to what the thread itself knows.
pub Move-Fits :
    {i : ℕ} {s t : Shared} {p q : Phase} → Move i s p t q → Fits s i p → IsOrdered s → Fits t i q
Move-Fits (enters c) f o =
    fits f.holds f.shares impossible f.calls impossible impossible refl refl impossible
Move-Fits (finds g e) f o =
    fits f.holds f.shares (λ _. e) f.calls f.destroyer impossible refl refl impossible
Move-Fits (misses g e) f o =
    fits f.holds f.shares impossible f.calls f.destroyer impossible refl refl impossible
Move-Fits {i} {s} (locks g w r) f o =
    fits (ground (arith, ==_iff i i)) f.shares impossible f.calls f.destroyer impossible refl refl
      impossible
Move-Fits (finds_late g e) f o =
    fits f.holds f.shares (λ _. e) f.calls f.destroyer impossible refl refl impossible
Move-Fits (registers g e) f o = record {
  holds = f.holds;
  shares = f.shares;
  known = λ e. absurd (cc);
  unknown = λ _. e;
  calls = f.calls;
  destroyer = f.destroyer;
  initialiser = λ e. absurd (cc);
  lives = λ e. absurd (cc);
  young = λ e. absurd (cc);
}
Move-Fits {i} {s} (returns g) f o =
    fits f.holds f.shares impossible
      (unfold count in ground (arith, f.calls, f.unknown refl, ==_iff i i)) f.destroyer impossible
      refl refl impossible
Move-Fits {i} {s} (stores g) f o =
    fits f.holds f.shares (λ _. ground (arith, load-store i i s.registry, ==_iff i i))
      (ground (arith, f.calls, load-store i i s.registry, ==_iff i i)) f.destroyer impossible refl
      refl impossible
Move-Fits (unlocks g) f o =
    fits refl f.shares (λ _. f.known refl) f.calls f.destroyer impossible refl refl impossible
Move-Fits {i} {s} (read_locks c w) f o =
    fits f.holds (unfold count in ground (arith, f.shares, ==_iff i i)) (λ _. f.known refl) f.calls
      impossible impossible refl refl impossible
Move-Fits calls_once f o =
    fits f.holds f.shares (λ _. f.known refl) f.calls impossible impossible refl refl impossible
Move-Fits (sees_live e) f o = record {
  holds = f.holds;
  shares = f.shares;
  known = λ _. f.known refl;
  unknown = λ e. absurd (cc);
  calls = f.calls;
  destroyer = λ e. absurd (cc);
  initialiser = λ e. absurd (cc);
  lives = λ _ m. ground (arith, o.gone, o.over, m, e);
  young = λ e. absurd (cc);
}
Move-Fits (sees_dead e) f o =
    fits f.holds f.shares (λ _. f.known refl) f.calls impossible impossible refl refl impossible
Move-Fits calls_live f o = record {
  holds = f.holds;
  shares = f.shares;
  known = λ _. f.known refl;
  unknown = λ e. absurd (cc);
  calls = f.calls;
  destroyer = λ e. absurd (cc);
  initialiser = λ e. absurd (cc);
  lives = λ _. f.lives refl;
  young = λ e. absurd (cc);
}
Move-Fits (call_returns c) f o =
    fits f.holds f.shares (λ _. f.known refl) f.calls impossible impossible refl refl impossible
Move-Fits {i} {s} read_unlocks f o =
    fits f.holds (ground (arith, count-release i i s.readers f.shares, f.shares, ==_iff i i))
      (λ _. f.known refl) f.calls impossible impossible refl refl impossible
Move-Fits unpins f o =
    fits f.holds f.shares impossible f.calls impossible impossible refl refl impossible
Move-Fits stays f o =
    fits f.holds f.shares (λ _. f.known refl) f.calls impossible impossible refl refl impossible
Move-Fits (begins_destroy e c) f o =
    fits f.holds f.shares impossible f.calls (λ _. (refl, (o.whole c).1)) impossible refl refl
      impossible
Move-Fits {i} {s} (locks_destroy w r) f o =
    fits (ground (arith, ==_iff i i)) f.shares (λ _. f.known refl) f.calls (λ _. f.destroyer refl)
      impossible refl refl impossible
Move-Fits destroys f o =
    fits f.holds f.shares impossible f.calls impossible impossible refl refl impossible
Move-Fits unlocks_destroy f o =
    fits refl f.shares impossible f.calls impossible impossible refl refl impossible
Move-Fits (inits e) f o =
    fits f.holds f.shares impossible f.calls impossible (λ _. refl) refl refl (λ _. o.unstarted e)
Move-Fits {i} {s} (locks_init w r) f o =
    fits (ground (arith, ==_iff i i)) f.shares impossible f.calls impossible
      (λ _. f.initialiser refl) refl refl (λ _. f.young refl)
Move-Fits create_fails f o =
    fits f.holds f.shares impossible f.calls impossible (λ _. f.initialiser refl) refl refl
      impossible
Move-Fits creates f o =
    fits f.holds f.shares impossible f.calls impossible (λ _. f.initialiser refl) refl refl
      (λ _. f.young refl)
Move-Fits {i} {s} stores_init f o =
    fits f.holds f.shares impossible
      (ground (arith, f.calls, load-store i i s.registry, ==_iff i i)) impossible
      (λ _. f.initialiser refl) refl refl (λ _. f.young refl)
Move-Fits marks_created f o =
    fits f.holds f.shares impossible f.calls impossible (λ _. f.initialiser refl) refl refl
      impossible
Move-Fits marks_live f o =
    fits f.holds f.shares impossible f.calls impossible (λ _. f.initialiser refl) refl refl
      impossible
Move-Fits unlocks_init f o =
    fits refl f.shares impossible f.calls impossible (λ _. f.initialiser refl) refl refl impossible
Move-Fits init_returns f o =
    fits f.holds f.shares impossible f.calls impossible impossible refl refl impossible
