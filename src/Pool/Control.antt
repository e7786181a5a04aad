-- ===== src/Pool/Control.antt =====
-- internal/vclpoll/mode2.go, lines 56 to 124: what a step of the dispatcher keeps.
use vclnet.Base.{ℕ, ◌<◌, ◌≡◌, ◌∙◌, refl, Bool, true, false, arith, sym, ap}
use vclnet.Pool.Life.{Phase, absent, starting, gone, parked, failed, Life}
use vclnet.Pool.System.{
  Main, launching, awaiting, readying, running, signalling, joining, exiting, stopped,
  waiting_destroyed, Pool, Control, launches, starts, appends, gives_up, finds_ready, finds_unready,
  goes_live, begins_shutdown, begins_stop, signals_stop, signalled, joins, joined, skips,
  finds_exited, finds_all, has_none, closes_destroy, finds_destroyed,
}
use vclnet.Pool.Invariant.{
  is_up, is_absent, is_failed, is_gone, is_out, is_parked, may_pend, has_role, needs_app, is_early,
  is_final, is_waiting, Fits, IsOrdered,
}

pub failed_pends : (b : Bool) (x : Phase) → is_failed x ≡ true → may_pend b x ≡ true
failed_pends true failed e = refl
failed_pends false failed e = refl
failed_pends b _ e = absurd (cc)

pub absent_pends : (x : Phase) → is_absent x ≡ true → may_pend false x ≡ true
absent_pends absent e = refl
absent_pends _ e = absurd (cc)

pub out_gone : (x : Phase) → is_up x ≡ true → is_out x ≡ true → is_gone x ≡ true
out_gone gone u e = refl
out_gone failed u e = absurd (cc)
out_gone _ u e = absurd (cc)

-- The bootstrap worker, once appended, needs the application until it is destroyed.
up_needs :
    (x : Phase)
    → is_up x ≡ true
    → has_role true x ≡ true
    → is_parked x ≡ false
    → needs_app true x ≡ true
up_needs gone u r n = absurd (cc)
up_needs parked u r n = absurd (cc)
up_needs absent u r n = absurd (cc)
up_needs starting u r n = absurd (cc)
up_needs failed u r n = absurd (cc)
up_needs _ u r n = refl

pub app_needed :
    {p : Pool} {l : Life} {x : Phase}
    → 0 < p.appended
    → p.signals.destroy_closed ≡ false
    → Fits p 0 l x
    → p.signals.app_exists ≡ true
app_needed {p} {l} {x} h c f = f.app (up_needs x (f.up h) f.role (ground (arith, f.destroyed, c)))

-- A step of the dispatcher that closes neither `start` nor `destroyCh`, or is behind them.
goes_on :
    {p q : Pool} (m : Main)
    → IsOrdered p
    → p.main ≡ m
    → q.signals.destroy_closed ≡ p.signals.destroy_closed
    → (is_final m ≡ true → is_final q.main ≡ true)
    → (is_early q.main ≡ true → q.signals.start_closed ≡ false)
    → is_waiting q.main ≡ false
    → IsOrdered q
goes_on m o e d f g w = record {
  unstarted = g;
  bootstrapped = λ n. absurd (cc (n, w));
  undestroyed = λ n. f (ap is_final (sym e) ∙ o.undestroyed (sym d ∙ n));
}

pub Control-IsOrdered : {total : ℕ} {p q : Pool} → Control total p q → IsOrdered p → IsOrdered q
Control-IsOrdered (launches e h) o =
    goes_on launching o e refl (λ a. absurd (cc)) (λ a. o.unstarted (ap is_early e)) refl
Control-IsOrdered (starts e h) o =
    goes_on launching o e refl (λ a. absurd (cc)) (λ a. absurd (cc)) refl
Control-IsOrdered (appends e h) o =
    goes_on awaiting o e refl (λ a. absurd (cc)) (λ a. o.unstarted (ap is_early e)) refl
Control-IsOrdered (gives_up e h) o =
    goes_on awaiting o e refl (λ a. absurd (cc)) (λ a. absurd (cc)) refl
Control-IsOrdered (finds_ready k e h r) o =
    goes_on (readying k) o e refl (λ a. absurd (cc)) (λ a. absurd (cc)) refl
Control-IsOrdered (finds_unready k e h r) o =
    goes_on (readying k) o e refl (λ a. absurd (cc)) (λ a. absurd (cc)) refl
Control-IsOrdered (goes_live k e h) o =
    goes_on (readying k) o e refl (λ a. absurd (cc)) (λ a. absurd (cc)) refl
Control-IsOrdered (begins_shutdown e) o = record {
  unstarted = o.unstarted;
  bootstrapped = o.bootstrapped;
  undestroyed = o.undestroyed;
}
Control-IsOrdered (begins_stop e) o =
    goes_on running o e refl (λ a. absurd (cc)) (λ a. absurd (cc)) refl
Control-IsOrdered (signals_stop k e h) o =
    goes_on (signalling k) o e refl (λ a. absurd (cc)) (λ a. absurd (cc)) refl
Control-IsOrdered (signalled k e h) o =
    goes_on (signalling k) o e refl (λ a. absurd (cc)) (λ a. absurd (cc)) refl
Control-IsOrdered (joins k e h r) o =
    goes_on (joining k) o e refl (λ a. absurd (cc)) (λ a. absurd (cc)) refl
Control-IsOrdered (joined k e h) o =
    goes_on (joining k) o e refl (λ a. absurd (cc)) (λ a. absurd (cc)) refl
Control-IsOrdered (skips e h) o =
    goes_on (exiting 0) o e refl (λ a. absurd (cc)) (λ a. absurd (cc)) refl
Control-IsOrdered (finds_exited k e n h r) o =
    goes_on (exiting k) o e refl (λ a. absurd (cc)) (λ a. absurd (cc)) refl
Control-IsOrdered (finds_all k e h) o =
    goes_on (exiting k) o e refl (λ a. absurd (cc)) (λ a. absurd (cc)) refl
Control-IsOrdered (has_none e h) o =
    goes_on stopped o e refl (λ a. absurd (cc)) (λ a. absurd (cc)) refl
Control-IsOrdered (closes_destroy e h) o = record {
  unstarted = λ a. absurd (cc);
  bootstrapped = λ a. (h, refl);
  undestroyed = λ a. refl;
}
Control-IsOrdered (finds_destroyed e h) o =
    goes_on waiting_destroyed o e refl (λ a. refl) (λ a. absurd (cc)) refl
