-- ===== src/Threads/Moves.antt =====
-- internal/vclpoll/cgo.go, lines 723 to 886 and 1508 to 1528: what one step of a thread keeps.
use vclnet.Base.{sym, ℕ, ◌≡◌, refl, [], some, arith, ap, ◌∙◌}
use vclnet.Threads.Defs.{Shared, release}
use vclnet.Threads.System.{
  Phase, Move, enters, finds, misses, locks, finds_late, registers, returns, stores, unlocks,
  read_locks, calls_once, sees_live, sees_dead, calls_live, call_returns, read_unlocks, unpins,
  stays, begins_destroy, locks_destroy, destroys, unlocks_destroy, inits, locks_init, create_fails,
  creates, stores_init, marks_created, marks_live, unlocks_init, init_returns,
}
use vclnet.Threads.Invariant.{Fits, IsOrdered}

release_nil : (i : ℕ) → release i [] ≡ []
unfolding release
release_nil i = refl

-- A step that concerns only the lock, the registry, or the outcome of the initialisation.
carried :
    {s t : Shared}
    → IsOrdered s
    → t.ending ≡ s.ending
    → t.ended_early ≡ s.ended_early
    → t.app_live ≡ s.app_live
    → t.app_once ≡ s.app_once
    → t.destroyer ≡ s.destroyer
    → t.app_created ≡ s.app_created
    → t.destroys ≡ s.destroys
    → ((j : ℕ) → t.writer ≡ some j → t.readers ≡ [])
    → IsOrdered t
carried o a a' b c d e f alone = record {
  alone = alone;
  unstarted = λ n. let (x, y, z) = o.unstarted (sym c ∙ n) in (e ∙ x, d ∙ y, f ∙ z);
  over = λ n m. let (x, y) = o.over (sym a ∙ n) (sym a' ∙ m) in (b ∙ x, c ∙ y);
  at_end = λ j n. a ∙ o.at_end j (sym d ∙ n);
  whole = λ n. (d ∙ (o.whole (sym e ∙ n)).0, f ∙ (o.whole (sym e ∙ n)).1);
  gone = λ n. a ∙ o.gone (omega (arith, n, f));
  at_most = omega (arith, o.at_most, f);
}

-- One step of a thread keeps the shared state in order.
pub Move-IsOrdered :
    {i : ℕ} {s t : Shared} {p q : Phase} → Move i s p t q → Fits s i p → IsOrdered s → IsOrdered t
Move-IsOrdered (enters c) f o = o
Move-IsOrdered (finds g e) f o = o
Move-IsOrdered (misses g e) f o = o
Move-IsOrdered (finds_late g e) f o = o
Move-IsOrdered (registers g e) f o = o
Move-IsOrdered calls_once f o = o
Move-IsOrdered (sees_live e) f o = o
Move-IsOrdered (sees_dead e) f o = o
Move-IsOrdered calls_live f o = o
Move-IsOrdered (call_returns c) f o = o
Move-IsOrdered unpins f o = o
Move-IsOrdered stays f o = o
Move-IsOrdered creates f o = o
Move-IsOrdered (locks g w r) f o = carried o refl refl refl refl refl refl refl (λ j e. r)
Move-IsOrdered (returns g) f o = carried o refl refl refl refl refl refl refl o.alone
Move-IsOrdered (stores g) f o = carried o refl refl refl refl refl refl refl o.alone
Move-IsOrdered (unlocks g) f o = carried o refl refl refl refl refl refl refl (λ j e. absurd (cc))
Move-IsOrdered (read_locks c w) f o =
    carried o refl refl refl refl refl refl refl (λ j e. absurd (cc))
Move-IsOrdered {i} read_unlocks f o =
    carried o refl refl refl refl refl refl refl
      (λ j e. ap (release i) (o.alone j e) ∙ release_nil i)
Move-IsOrdered (begins_destroy e c) f o = record {
  alone = o.alone;
  unstarted = λ n. absurd (cc ((o.unstarted n).0, c));
  over = o.over;
  at_end = λ j d. e;
  whole = λ d. absurd (cc);
  gone = o.gone;
  at_most = o.at_most;
}
Move-IsOrdered (locks_destroy w r) f o = carried o refl refl refl refl refl refl refl (λ j e. r)
Move-IsOrdered {i} destroys f o = record {
  alone = o.alone;
  unstarted = λ n. let (x, y, z) = o.unstarted n in absurd (cc (y, (f.destroyer refl).0));
  over = o.over;
  at_end = o.at_end;
  whole = λ e. ground (arith, o.whole e, f.destroyer refl);
  gone = λ e. o.at_end i (f.destroyer refl).0;
  at_most = omega (arith, (f.destroyer refl).1);
}
Move-IsOrdered unlocks_destroy f o =
    carried o refl refl refl refl refl refl refl (λ j e. absurd (cc))
Move-IsOrdered (inits e) f o = record {
  alone = o.alone;
  unstarted = λ n. absurd (cc);
  over = λ n m. absurd (cc ((o.over n m).1, e));
  at_end = o.at_end;
  whole = o.whole;
  gone = o.gone;
  at_most = o.at_most;
}
Move-IsOrdered (locks_init w r) f o = carried o refl refl refl refl refl refl refl (λ j e. r)
Move-IsOrdered create_fails f o = carried o refl refl refl refl refl refl refl o.alone
Move-IsOrdered stores_init f o = carried o refl refl refl refl refl refl refl o.alone
Move-IsOrdered marks_created f o = record {
  alone = o.alone;
  unstarted = λ n. absurd (cc (n, f.initialiser refl));
  over = o.over;
  at_end = o.at_end;
  whole = λ e. let (x, y, z) = f.young refl in (y, z);
  gone = o.gone;
  at_most = o.at_most;
}
Move-IsOrdered marks_live f o = record {
  alone = o.alone;
  unstarted = λ n. absurd (cc (n, f.initialiser refl));
  over = λ n m. absurd (cc ((o.over n m).1, f.initialiser refl));
  at_end = o.at_end;
  whole = o.whole;
  gone = o.gone;
  at_most = o.at_most;
}
Move-IsOrdered unlocks_init f o = carried o refl refl refl refl refl refl refl (λ j e. absurd (cc))
Move-IsOrdered init_returns f o = record {
  alone = o.alone;
  unstarted = λ n. absurd (cc);
  over = λ n m. ((o.over n m).0, refl);
  at_end = o.at_end;
  whole = o.whole;
  gone = o.gone;
  at_most = o.at_most;
}
