-- ===== src/Pool/Moves.antt =====
-- internal/vclpoll/worker.go, lines 57 to 190: what a step of a worker leaves to the others.
use vclnet.Base.{ℕ, ◌<◌, ◌≡◌, ◌∙◌, refl, Bool, true, false, ◌==◌, arith, ==_iff, sym, ap}
use vclnet.Pool.Life.{
  Phase, absent, gone, waiting_destroy, failed, Life, Signals, Live, registers, fails, sees_start,
  sees_stop, opens, opens_not, stops, empties, quiesces, unregisters, destroys,
}
use vclnet.Pool.System.{Main, waiting_destroyed, ended, Pool}
use vclnet.Pool.Invariant.{
  is_absent, is_gone, is_parked, may_pend, has_role, needs_app, is_awaiting, is_early, is_final,
  is_waiting, saw_exit, was_told, Fits, IsOrdered,
}

final_saw_exit :
    (m : Main) (j : ℕ) → is_final m ≡ true → (saw_exit m j ≡ true) × (is_awaiting m ≡ false)
final_saw_exit waiting_destroyed j e = (refl, refl)
final_saw_exit ended j e = (refl, refl)
final_saw_exit _ j e = absurd (cc)

gone_idle : (b : Bool) (x : Phase) → is_gone x ≡ true → needs_app b x ≡ false
gone_idle b gone e = refl
gone_idle b _ e = absurd (cc)

pending_idle : (b : Bool) (x : Phase) → may_pend false x ≡ true → needs_app b x ≡ false
pending_idle b absent e = refl
pending_idle b failed e = refl
pending_idle b _ e = absurd (cc)

absent_idle : (b : Bool) (x : Phase) → is_absent x ≡ true → needs_app b x ≡ false
absent_idle b absent e = refl
absent_idle b _ e = absurd (cc)

-- When the application is destroyed, no worker but the bootstrap one needs it.
final_idle :
    {p : Pool} (j : ℕ) {l : Life} {x : Phase}
    → is_final p.main ≡ true
    → (j == 0) ≡ false
    → Fits p j l x
    → needs_app (j == 0) x ≡ false
final_idle {p} j {l} {x} e n f =
    let (saw, late) = final_saw_exit p.main j e in
    ground (
      arith,
      saw,
      late,
      f.passed n,
      f.pending,
      f.late,
      gone_idle (j == 0) x,
      pending_idle (j == 0) x,
      absent_idle (j == 0) x,
    )

waits_bootstrap : (b : Bool) → has_role b waiting_destroy ≡ true → b ≡ true
waits_bootstrap true e = refl
waits_bootstrap false e = absurd (cc)

-- What is known of a worker depends on the dispatcher only where it reads it.
pub undisturbed :
    {p q : Pool} {j : ℕ} {l : Life} {x : Phase}
    → Fits p j l x
    → q.appended ≡ p.appended
    → (j ≡ p.appended → may_pend (is_awaiting q.main) x ≡ true)
    → (j < p.appended → was_told q.main j ≡ true → l.stop_closed ≡ true)
    → (needs_app (j == 0) x ≡ true → q.signals.app_exists ≡ true)
    → ((j == 0) ≡ false → j < p.appended → saw_exit q.main j ≡ true → is_gone x ≡ true)
    → (is_parked x ≡ true → q.signals.destroy_closed ≡ true)
    → Fits q j l x
undisturbed f e pending told app passed destroyed = record {
  up = λ h. f.up (omega (arith, h, e));
  late = λ h. f.late (omega (arith, h, e));
  pending = λ h. pending (h ∙ e);
  signalled = λ h. omega (arith, f.signalled h, e);
  told = λ h. told (omega (arith, h, e));
  role = f.role;
  app = app;
  out = f.out;
  passed = λ n h. passed n (omega (arith, h, e));
  destroyed = destroyed;
  exits = f.exits;
  parks = f.parks;
  quiet = f.quiet;
  answered = f.answered;
  refused = f.refused;
}

pub Live-others :
    (i j : ℕ) {b : Bool} {p : Pool} {l m k : Life} {s : Signals} {x y z : Phase} {ls : ℕ → Life}
    {ph : ℕ → Phase}
    → Live i b p.signals l x s m y
    → (j == i) ≡ false
    → Fits p i l x
    → IsOrdered p
    → Fits p j k z
    → Fits (record p { signals = s; lives = ls; phase = ph }) j k z
Live-others i j registers d f o g =
    undisturbed g refl g.pending g.told (λ a. ground (arith, g.app a)) g.passed g.destroyed
Live-others i j fails d f o g = undisturbed g refl g.pending g.told g.app g.passed g.destroyed
Live-others i j (sees_start h) d f o g =
    undisturbed g refl g.pending g.told g.app g.passed g.destroyed
Live-others i j (sees_stop h) d f o g =
    undisturbed g refl g.pending g.told g.app g.passed g.destroyed
Live-others i j opens d f o g = undisturbed g refl g.pending g.told g.app g.passed g.destroyed
Live-others i j opens_not d f o g = undisturbed g refl g.pending g.told g.app g.passed g.destroyed
Live-others i j (stops h) d f o g = undisturbed g refl g.pending g.told g.app g.passed g.destroyed
Live-others i j (empties h) d f o g = undisturbed g refl g.pending g.told g.app g.passed g.destroyed
Live-others i j quiesces d f o g = undisturbed g refl g.pending g.told g.app g.passed g.destroyed
Live-others i j unregisters d f o g = undisturbed g refl g.pending g.told g.app g.passed g.destroyed
Live-others i j (destroys h) d f o g =
    undisturbed g refl g.pending g.told
      (λ a. absurd (
        ground (
          arith,
          a,
          final_idle j (o.undestroyed h)
              (ground
                (arith, d, waits_bootstrap (i == 0) f.role, ==_iff i 0, ==_iff j 0, ==_iff j i))
              g,
        )))
      g.passed g.destroyed

stays-IsOrdered :
    {p q : Pool}
    → IsOrdered p
    → q.main ≡ p.main
    → q.appended ≡ p.appended
    → q.signals.start_closed ≡ p.signals.start_closed
    → q.signals.destroy_closed ≡ p.signals.destroy_closed
    → IsOrdered q
stays-IsOrdered {p} {q} o a b c d = record {
  unstarted = λ n. c ∙ o.unstarted (ap is_early (sym a) ∙ n);
  bootstrapped = λ n. ground (arith, o.bootstrapped (ap is_waiting (sym a) ∙ n), b, d);
  undestroyed = λ n. ap is_final a ∙ o.undestroyed (sym d ∙ n);
}

pub Live-IsOrdered :
    (i : ℕ) {b : Bool} {p : Pool} {l m : Life} {s : Signals} {x y : Phase} {ls : ℕ → Life}
    {ph : ℕ → Phase}
    → Live i b p.signals l x s m y
    → IsOrdered p
    → IsOrdered (record p { signals = s; lives = ls; phase = ph })
Live-IsOrdered i registers o = stays-IsOrdered o refl refl refl refl
Live-IsOrdered i fails o = stays-IsOrdered o refl refl refl refl
Live-IsOrdered i (sees_start h) o = stays-IsOrdered o refl refl refl refl
Live-IsOrdered i (sees_stop h) o = stays-IsOrdered o refl refl refl refl
Live-IsOrdered i opens o = stays-IsOrdered o refl refl refl refl
Live-IsOrdered i opens_not o = stays-IsOrdered o refl refl refl refl
Live-IsOrdered i (stops h) o = stays-IsOrdered o refl refl refl refl
Live-IsOrdered i (empties h) o = stays-IsOrdered o refl refl refl refl
Live-IsOrdered i quiesces o = stays-IsOrdered o refl refl refl refl
Live-IsOrdered i unregisters o = stays-IsOrdered o refl refl refl refl
Live-IsOrdered i (destroys h) o = stays-IsOrdered o refl refl refl refl
