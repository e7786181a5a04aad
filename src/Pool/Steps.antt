-- ===== src/Pool/Steps.antt =====
-- internal/vclpoll/mode2.go, lines 56 to 124: what a step of the dispatcher leaves of each worker.
use vclnet.Base.{
  ℕ, ◌+◌, ◌<◌, ◌≡◌, ◌≢◌, ◌∙◌, refl, true, false, ◌==◌, ltb, arith, ==_iff, ap, Bool-cases, inl, inr,
}
use vclnet.Pool.Life.{starting, never}
use vclnet.Pool.System.{
  Main, launching, awaiting, signalling, exiting, Pool, update, Control, launches, starts, appends,
  gives_up, finds_ready, finds_unready, goes_live, begins_shutdown, begins_stop, signals_stop,
  signalled, joins, joined, skips, finds_exited, finds_all, has_none, closes_destroy,
  finds_destroyed,
}
use vclnet.Pool.Invariant.{is_gone, is_awaiting, is_final, saw_exit, was_told, Fits, IsOrdered}
use vclnet.Pool.Moves.{undisturbed}
use vclnet.Pool.Control.{failed_pends, absent_pends, out_gone, app_needed}

module _ {p : Pool} (all : (j : ℕ) → Fits p j (p.lives j) (p.phase j)) (o : IsOrdered p) where
  launched-Fits :
      (i : ℕ)
      → p.main ≡ launching
      → Fits
          (record p {
            main = awaiting;
            lives = update p.lives p.appended never;
            phase = update p.phase p.appended starting;
          })
          i
          (update p.lives p.appended never i)
          (update p.phase p.appended starting i)
  launched-Fits i e = elim (Bool-cases (i == p.appended)) [
    | inl same ↦ rw same (new i (ground (arith, same, ==_iff i p.appended)))
    | inr other ↦ rw other (old i (ground (arith, other, ==_iff i p.appended)))
  ]
    where
      new :
          (i : ℕ)
          → i ≡ p.appended
          → Fits
              (record p {
                main = awaiting;
                lives = update p.lives p.appended never;
                phase = update p.phase p.appended starting;
              })
              i
              never
              starting
      new i a = record {
        up = λ b. absurd (omega (arith, a));
        late = λ b. absurd (omega (arith, a));
        pending = λ b. refl;
        signalled = λ b. absurd (cc);
        told = λ b c. absurd (cc);
        role = ground (arith);
        app = λ b.
            app_needed (ground (arith, a, b)) (ground (arith, o.undestroyed, ap is_final e))
              (all 0);
        out = λ b. absurd (cc);
        passed = λ a b c. absurd (cc);
        destroyed = λ b. absurd (cc);
        exits = λ b. absurd (cc);
        parks = λ b. absurd (cc);
        quiet = refl;
        answered = λ b. absurd (cc);
        refused = λ b. absurd (cc);
      }

      old :
          (i : ℕ)
          → i ≢ p.appended
          → Fits
              (record p {
                main = awaiting;
                lives = update p.lives p.appended never;
                phase = update p.phase p.appended starting;
              })
              i
              (p.lives i)
              (p.phase i)
      old i a =
          let f = all i in
          record {
            up = f.up;
            late = f.late;
            pending = λ b. absurd (a b);
            signalled = f.signalled;
            told = λ b c. absurd (cc);
            role = f.role;
            app = f.app;
            out = f.out;
            passed = λ a b c. absurd (cc);
            destroyed = f.destroyed;
            exits = f.exits;
            parks = f.parks;
            quiet = f.quiet;
            answered = f.answered;
            refused = f.refused;
          }

  exited_gone :
      (i k : ℕ)
      → p.main ≡ exiting k
      → (p.lives k).exited ≡ true
      → (i == 0) ≡ false
      → i < p.appended
      → ltb i (k + 1) ≡ true
      → is_gone (p.phase i) ≡ true
  exited_gone i k e r a b c =
      let f = all i in
      ground (
        arith,
        f.passed a b,
        ap (λ (m : Main). saw_exit m i) e,
        out_gone (p.phase i) (f.up b),
        f.out,
        c,
        ap (λ (j : ℕ). (p.lives j).exited),
        r,
      )

  signalled-Fits :
      (i k : ℕ)
      → p.main ≡ signalling k
      → k < p.appended
      → Fits
          (record p {
            main = signalling (k + 1);
            lives = update p.lives k (record (p.lives k) { stop_closed = true });
          })
          i
          (update p.lives k (record (p.lives k) { stop_closed = true }) i)
          (p.phase i)
  signalled-Fits i k e h =
      let f = all i in
      let g = all k in
      record {
        up = f.up;
        late = f.late;
        pending = λ a. ground (arith, f.pending a, ap is_awaiting e);
        signalled = λ a. ground (arith, f.signalled, a, h, ==_iff i k);
        told = λ a b. ground (arith, f.told a, b, ap (λ (m : Main). was_told m i) e, ==_iff i k);
        role = f.role;
        app = f.app;
        out = λ a. ground (arith, f.out, a, ==_iff i k, ap (λ (j : ℕ). (p.lives j).exited));
        passed = λ a b c. absurd (cc);
        destroyed = f.destroyed;
        exits = λ a. ground (arith, f.exits a, ==_iff i k, ap (λ (j : ℕ). (p.lives j).exited));
        parks = λ a. ground (arith, f.parks a, ==_iff i k, ap (λ (j : ℕ). (p.lives j).destroyed));
        quiet = ground (arith, f.quiet, ==_iff i k, ap (λ (j : ℕ). (p.lives j).quiesced));
        answered =
            λ a. ground (arith, f.answered, a, ==_iff i k, ap (λ (j : ℕ). (p.lives j).registered));
        refused =
            λ a. ground (arith, f.refused, a, ==_iff i k, ap (λ (j : ℕ). (p.lives j).registered));
      }

  pub Control-Fits :
      {total : ℕ} {q : Pool} (i : ℕ) → Control total p q → Fits q i (q.lives i) (q.phase i)
  Control-Fits i (launches e h) = launched-Fits i e
  Control-Fits i (starts e h) =
      let f = all i in
      undisturbed f refl (λ a. ground (arith, f.pending a, ap is_awaiting e)) (λ a b. absurd (cc))
        f.app (λ a b c. absurd (cc)) f.destroyed
  Control-Fits i (appends e h) =
      let f = all i in
      record {
        up = λ a. ground (arith, f.up, f.answered, ap (λ (j : ℕ). (p.lives j).registered), h);
        late = λ a. f.late (omega (arith, a));
        pending = λ a. absent_pends (p.phase i) (f.late (omega (arith, a)));
        signalled = λ a. omega (arith, f.signalled a);
        told = λ a b. absurd (cc);
        role = f.role;
        app = f.app;
        out = f.out;
        passed = λ a b c. absurd (cc);
        destroyed = f.destroyed;
        exits = f.exits;
        parks = f.parks;
        quiet = f.quiet;
        answered = f.answered;
        refused = f.refused;
      }
  Control-Fits i (gives_up e h) =
      let f = all i in
      undisturbed f refl
        (λ a.
          failed_pends false (p.phase i) (f.refused (ap (λ (j : ℕ). (p.lives j).registered) a ∙ h)))
        (λ a b. absurd (ground (arith, b))) f.app (λ a b c. absurd (cc)) f.destroyed
  Control-Fits i (finds_ready k e h r) =
      let f = all i in
      undisturbed f refl (λ a. ground (arith, f.pending a, ap is_awaiting e)) (λ a b. absurd (cc))
        f.app (λ a b c. absurd (cc)) f.destroyed
  Control-Fits i (finds_unready k e h r) =
      let f = all i in
      undisturbed f refl (λ a. ground (arith, f.pending a, ap is_awaiting e))
        (λ a b. absurd (ground (arith, b))) f.app (λ a b c. absurd (cc)) f.destroyed
  Control-Fits i (goes_live k e h) =
      let f = all i in
      undisturbed f refl (λ a. ground (arith, f.pending a, ap is_awaiting e)) (λ a b. absurd (cc))
        f.app (λ a b c. absurd (cc)) f.destroyed
  Control-Fits i (begins_shutdown e) =
      let f = all i in undisturbed f refl f.pending f.told f.app f.passed f.destroyed
  Control-Fits i (begins_stop e) =
      let f = all i in
      undisturbed f refl (λ a. ground (arith, f.pending a, ap is_awaiting e))
        (λ a b. absurd (ground (arith, b))) f.app (λ a b c. absurd (cc)) f.destroyed
  Control-Fits i (signalled k e h) =
      let f = all i in
      undisturbed f refl (λ a. ground (arith, f.pending a, ap is_awaiting e))
        (λ a b. f.told a (ground (arith, ap (λ (m : Main). was_told m i) e, a, h))) f.app
        (λ a b c. absurd (cc)) f.destroyed
  Control-Fits i (joins k e h r) =
      let f = all i in
      undisturbed f refl (λ a. ground (arith, f.pending a, ap is_awaiting e))
        (λ a b. f.told a (ap (λ (m : Main). was_told m i) e)) f.app (λ a b c. absurd (cc))
        f.destroyed
  Control-Fits i (joined k e h) =
      let f = all i in
      undisturbed f refl (λ a. ground (arith, f.pending a, ap is_awaiting e))
        (λ a b. f.told a (ap (λ (m : Main). was_told m i) e)) f.app
        (λ a b c. absurd (ground (arith, c))) f.destroyed
  Control-Fits i (skips e h) =
      let f = all i in
      undisturbed f refl (λ a. ground (arith, f.pending a, ap is_awaiting e))
        (λ a b. f.told a (ap (λ (m : Main). was_told m i) e)) f.app
        (λ a b c. absurd (ground (arith, a, c))) f.destroyed
  Control-Fits i (finds_exited k e n h r) =
      let f = all i in
      undisturbed f refl (λ a. ground (arith, f.pending a, ap is_awaiting e))
        (λ a b. f.told a (ap (λ (m : Main). was_told m i) e)) f.app
        (λ a b c. exited_gone i k e r a b c) f.destroyed
  Control-Fits i (finds_all k e h) =
      let f = all i in
      undisturbed f refl (λ a. ground (arith, f.pending a, ap is_awaiting e))
        (λ a b. f.told a (ap (λ (m : Main). was_told m i) e)) f.app
        (λ a b c. f.passed a b (ground (arith, ap (λ (m : Main). saw_exit m i) e, b, h)))
        f.destroyed
  Control-Fits i (has_none e h) =
      let f = all i in
      undisturbed f refl (λ a. ground (arith, f.pending a, ap is_awaiting e))
        (λ a b. f.told a (ap (λ (m : Main). was_told m i) e)) f.app
        (λ a b c. absurd (omega (arith, b, h))) f.destroyed
  Control-Fits i (closes_destroy e h) =
      let f = all i in
      undisturbed f refl (λ a. ground (arith, f.pending a, ap is_awaiting e))
        (λ a b. f.told a (ap (λ (m : Main). was_told m i) e)) f.app
        (λ a b c. f.passed a b (ap (λ m. saw_exit m i) e)) (λ a. refl)
  Control-Fits i (finds_destroyed e h) =
      let f = all i in
      undisturbed f refl (λ a. ground (arith, f.pending a, ap is_awaiting e))
        (λ a b. f.told a (ap (λ (m : Main). was_told m i) e)) f.app
        (λ a b c. f.passed a b (ap (λ m. saw_exit m i) e)) f.destroyed
  Control-Fits i (signals_stop k e h) = signalled-Fits i k e h
