-- ===== src/Threads/Others.antt =====
-- internal/vclpoll/cgo.go, lines 723 to 886 and 1508 to 1528: what a step of one thread leaves to
-- the others.
use vclnet.Base.{◌∙◌, ℕ, ◌≡◌, refl, true, false, Option, none, some, ◌==◌, arith, ==_iff, ap}
use vclnet.Wait.Sets.{count}
use vclnet.Threads.Defs.{running, load, Shared, is_thread, load-store, count-release}
use vclnet.Threads.System.{
  Phase, in_call, cleared, init_entered, creating, created, stored, Move, enters, finds, misses,
  locks, finds_late, registers, returns, stores, unlocks, read_locks, calls_once, sees_live,
  sees_dead, calls_live, call_returns, read_unlocks, unpins, stays, begins_destroy, locks_destroy,
  destroys, unlocks_destroy, inits, locks_init, create_fails, creates, stores_init, marks_created,
  marks_live, unlocks_init, init_returns,
}
use vclnet.Threads.Invariant.{
  will_destroy, in_init, reads, saw_live, is_young, Untouched, Fits, IsOrdered,
}

free_of : (i j : ℕ) (w : Option ℕ) → is_thread i w ≡ true → (j == i) ≡ false → is_thread j w ≡ false
free_of i j none e d = refl
free_of i j (some k) e d = ground (arith, e, d, ==_iff i k, ==_iff j k, ==_iff j i)

live_reads : (p : Phase) → saw_live p ≡ true → reads p ≡ true
live_reads cleared e = refl
live_reads (in_call c) e = refl
live_reads _ e = absurd (cc)

young_inits : (p : Phase) → is_young p ≡ true → in_init p ≡ true
young_inits init_entered e = refl
young_inits creating e = refl
young_inits created e = refl
young_inits stored e = refl
young_inits _ e = absurd (cc)

written_by : (i : ℕ) (w : Option ℕ) → is_thread i w ≡ true → (k : ℕ) × (w ≡ some k)
written_by i none e = absurd (cc)
written_by i (some k) e = (k, refl)

-- While one thread holds the lock for writing, none holds it for reading.
pub alone_writes :
    (i j : ℕ) {s : Shared} {n : ℕ}
    → IsOrdered s
    → is_thread i s.writer ≡ true
    → count j s.readers ≡ n
    → n ≡ 0
unfolding count
alone_writes i j {s} o e c =
    let (k, w) = written_by i s.writer e in ground (arith, c, ap (count j) (o.alone k w))

-- What a thread knows depends on what it reads of the shared state.
undisturbed :
    {s t : Shared} {j : ℕ} {p : Phase}
    → Fits s j p
    → is_thread j t.writer ≡ is_thread j s.writer
    → count j t.readers ≡ count j s.readers
    → load j t.registry ≡ load j s.registry
    → count j t.register_calls ≡ count j s.register_calls
    → (will_destroy p ≡ true → (t.destroyer ≡ some j) × (t.destroys ≡ 0))
    → (in_init p ≡ true → t.app_once ≡ running j)
    → (saw_live p ≡ true → t.ended_early ≡ false → t.destroys ≡ 0)
    → (is_young p ≡ true → Untouched t)
    → Fits t j p
undisturbed k a b c d e f g h = record {
  holds = a ∙ k.holds;
  shares = b ∙ k.shares;
  known = λ n. c ∙ k.known n;
  unknown = λ n. c ∙ k.unknown n;
  calls = rw (d, c) k.calls;
  destroyer = e;
  initialiser = f;
  lives = g;
  young = h;
}

pub Move-others :
    {i j : ℕ} {s t : Shared} {p q : Phase} (r : Phase)
    → Move i s p t q
    → (j == i) ≡ false
    → IsOrdered s
    → Fits s i p
    → Fits s j r
    → Fits t j r
Move-others r (enters c) apart o f k = k
Move-others r (finds g e) apart o f k = k
Move-others r (misses g e) apart o f k = k
Move-others r (finds_late g e) apart o f k = k
Move-others r (registers g e) apart o f k = k
Move-others r calls_once apart o f k = k
Move-others r (sees_live e) apart o f k = k
Move-others r (sees_dead e) apart o f k = k
Move-others r calls_live apart o f k = k
Move-others r (call_returns c) apart o f k = k
Move-others r unpins apart o f k = k
Move-others r stays apart o f k = k
Move-others r creates apart o f k = k
Move-others {i} {j} {s} r (locks g w e) apart o f k =
    undisturbed k (ground (arith, w, apart)) refl refl refl k.destroyer k.initialiser k.lives
      k.young
Move-others {i} {j} {s} r (returns g) apart o f k =
    undisturbed k refl refl refl (unfold count in ground (arith, apart)) k.destroyer k.initialiser
      k.lives k.young
Move-others {i} {j} {s} r (stores g) apart o f k =
    undisturbed k refl refl (ground (arith, load-store j i s.registry, apart)) refl k.destroyer
      k.initialiser k.lives k.young
Move-others {i} {j} {s} r (unlocks g) apart o f k =
    undisturbed k (ground (arith, f.holds, apart, free_of i j s.writer)) refl refl refl k.destroyer
      k.initialiser k.lives k.young
Move-others {i} {j} {s} r (read_locks c w) apart o f k =
    undisturbed k refl (unfold count in ground (arith, apart)) refl refl k.destroyer k.initialiser
      k.lives k.young
Move-others {i} {j} {s} r read_unlocks apart o f k =
    undisturbed k refl (ground (arith, count-release j i s.readers f.shares, apart)) refl refl
      k.destroyer k.initialiser k.lives k.young
Move-others {i} {j} {s} r (begins_destroy e c) apart o f k =
    undisturbed k refl refl refl refl (λ d. absurd (cc ((k.destroyer d).0, (o.whole c).0)))
      k.initialiser k.lives (λ y. absurd (cc ((k.young y).0, c)))
Move-others {i} {j} {s} r (locks_destroy w e) apart o f k =
    undisturbed k (ground (arith, w, apart)) refl refl refl k.destroyer k.initialiser k.lives
      k.young
Move-others {i} {j} {s} r destroys apart o f k =
    undisturbed k refl refl refl refl
      (λ d. absurd (ground (arith, (k.destroyer d).0, (f.destroyer refl).0, ==_iff j i, apart)))
      k.initialiser
      (λ e m. absurd (ground (arith, alone_writes i j o f.holds k.shares, live_reads r e)))
      (λ y. let (a, b, z) = k.young y in absurd (cc (b, (f.destroyer refl).0)))
Move-others {i} {j} {s} r unlocks_destroy apart o f k =
    undisturbed k (ground (arith, f.holds, apart, free_of i j s.writer)) refl refl refl k.destroyer
      k.initialiser k.lives k.young
Move-others {i} {j} {s} r (inits e) apart o f k =
    undisturbed k refl refl refl refl k.destroyer (λ d. absurd (cc (k.initialiser d, e))) k.lives
      k.young
Move-others {i} {j} {s} r (locks_init w e) apart o f k =
    undisturbed k (ground (arith, w, apart)) refl refl refl k.destroyer k.initialiser k.lives
      k.young
Move-others {i} {j} {s} r create_fails apart o f k =
    undisturbed k refl refl refl refl k.destroyer k.initialiser k.lives k.young
Move-others {i} {j} {s} r stores_init apart o f k =
    undisturbed k refl refl (ground (arith, load-store j i s.registry, apart)) refl k.destroyer
      k.initialiser k.lives k.young
Move-others {i} {j} {s} r marks_created apart o f k =
    undisturbed k refl refl refl refl (k.destroyer) k.initialiser k.lives (λ y.
      absurd
        (ground (arith, k.initialiser (young_inits r y), f.initialiser refl, ==_iff j i, apart)))
Move-others {i} {j} {s} r marks_live apart o f k =
    undisturbed k refl refl refl refl k.destroyer k.initialiser k.lives k.young
Move-others {i} {j} {s} r unlocks_init apart o f k =
    undisturbed k (ground (arith, f.holds, apart, free_of i j s.writer)) refl refl refl k.destroyer
      k.initialiser k.lives k.young
Move-others {i} {j} {s} r init_returns apart o f k =
    undisturbed k refl refl refl refl k.destroyer
      (λ d. absurd (ground (arith, k.initialiser d, f.initialiser refl, ==_iff j i, apart))) k.lives
      k.young
