-- ===== src/Pool/Own.antt =====
-- internal/vclpoll/worker.go, lines 57 to 190: what a step of a worker keeps of the worker itself.
use vclnet.Base.{ℕ, refl, Bool, arith}
use vclnet.Pool.Life.{
  Phase, Life, Signals, Live, registers, fails, sees_start, sees_stop, opens, opens_not, stops,
  empties, quiesces, unregisters, destroys,
}
use vclnet.Pool.System.{Pool}
use vclnet.Pool.Invariant.{Fits, IsOrdered}

pub Live-Fits :
    (i : ℕ) {b : Bool} {p : Pool} {l m : Life} {s : Signals} {x y : Phase} {ls : ℕ → Life}
    {ph : ℕ → Phase}
    → Live i b p.signals l x s m y
    → Fits p i l x
    → IsOrdered p
    → Fits (record p { signals = s; lives = ls; phase = ph }) i m y
Live-Fits i {b} {p} {l} registers f o = record {
  exits = λ a. absurd (cc);
  parks = λ a. absurd (cc);
  told = f.told;
  up = λ a. ground (arith, f.up a);
  late = λ a. ground (arith, f.late a);
  pending = λ a. ground (arith, f.pending a, f.signalled, o.unstarted);
  signalled = f.signalled;
  role = ground (arith, f.role);
  app = λ a. ground (arith, f.app);
  out = λ a. ground (arith, f.out a);
  passed = λ a u v. ground (arith, f.passed a u v);
  destroyed = λ a. absurd (cc);
  quiet = f.quiet;
  answered = λ a. refl;
  refused = λ a. absurd (cc a);
}
Live-Fits i {b} {p} {l} fails f o = record {
  exits = λ a. absurd (cc);
  parks = λ a. absurd (cc);
  told = f.told;
  up = λ a. ground (arith, f.up a);
  late = λ a. ground (arith, f.late a);
  pending = λ a. ground (arith, f.pending a, f.signalled, o.unstarted);
  signalled = f.signalled;
  role = ground (arith, f.role);
  app = λ a. absurd (cc);
  out = λ a. refl;
  passed = λ a u v. ground (arith, f.passed a u v);
  destroyed = λ a. absurd (cc);
  quiet = f.quiet;
  answered = λ a. absurd (cc a);
  refused = λ a. refl;
}
Live-Fits i {b} {p} {l} (sees_start h) f o = record {
  exits = λ a. absurd (cc);
  parks = λ a. absurd (cc);
  told = f.told;
  up = λ a. ground (arith, f.up a);
  late = λ a. ground (arith, f.late a);
  pending = λ a. ground (arith, f.pending a, f.signalled, o.unstarted);
  signalled = f.signalled;
  role = ground (arith, f.role);
  app = λ a. f.app refl;
  out = λ a. ground (arith, f.out a);
  passed = λ a u v. ground (arith, f.passed a u v);
  destroyed = λ a. absurd (cc);
  quiet = f.quiet;
  answered = λ a. refl;
  refused = λ a. absurd (cc (f.refused a));
}
Live-Fits i {b} {p} {l} (sees_stop h) f o = record {
  exits = λ a. absurd (cc);
  parks = λ a. absurd (cc);
  told = f.told;
  up = λ a. ground (arith, f.up a);
  late = λ a. ground (arith, f.late a);
  pending = λ a. ground (arith, f.pending a, f.signalled, o.unstarted);
  signalled = f.signalled;
  role = ground (arith, f.role);
  app = λ a. f.app refl;
  out = λ a. ground (arith, f.out a);
  passed = λ a u v. ground (arith, f.passed a u v);
  destroyed = λ a. absurd (cc);
  quiet = f.quiet;
  answered = λ a. refl;
  refused = λ a. absurd (cc (f.refused a));
}
Live-Fits i {b} {p} {l} opens f o = record {
  exits = λ a. absurd (cc);
  parks = λ a. absurd (cc);
  told = f.told;
  up = λ a. ground (arith, f.up a);
  late = λ a. ground (arith, f.late a);
  pending = λ a. ground (arith, f.pending a, f.signalled, o.unstarted);
  signalled = f.signalled;
  role = ground (arith, f.role);
  app = λ a. f.app refl;
  out = λ a. ground (arith, f.out a);
  passed = λ a u v. ground (arith, f.passed a u v);
  destroyed = λ a. absurd (cc);
  quiet = f.quiet;
  answered = λ a. refl;
  refused = λ a. absurd (cc (f.refused a));
}
Live-Fits i {b} {p} {l} opens_not f o = record {
  exits = λ a. absurd (cc);
  parks = λ a. absurd (cc);
  told = f.told;
  up = λ a. ground (arith, f.up a);
  late = λ a. ground (arith, f.late a);
  pending = λ a. ground (arith, f.pending a, f.signalled, o.unstarted);
  signalled = f.signalled;
  role = ground (arith, f.role);
  app = λ a. f.app refl;
  out = λ a. ground (arith, f.out a);
  passed = λ a u v. ground (arith, f.passed a u v);
  destroyed = λ a. absurd (cc);
  quiet = f.quiet;
  answered = λ a. refl;
  refused = λ a. absurd (cc (f.refused a));
}
Live-Fits i {b} {p} {l} (stops h) f o = record {
  exits = λ a. absurd (cc);
  parks = λ a. absurd (cc);
  told = f.told;
  up = λ a. ground (arith, f.up a);
  late = λ a. ground (arith, f.late a);
  pending = λ a. ground (arith, f.pending a, f.signalled, o.unstarted);
  signalled = f.signalled;
  role = ground (arith, f.role);
  app = λ a. f.app refl;
  out = λ a. ground (arith, f.out a);
  passed = λ a u v. ground (arith, f.passed a u v);
  destroyed = λ a. absurd (cc);
  quiet = f.quiet;
  answered = λ a. refl;
  refused = λ a. absurd (cc (f.refused a));
}
Live-Fits i {b} {p} {l} (empties h) f o = record {
  exits = λ a. absurd (cc);
  parks = λ a. absurd (cc);
  told = f.told;
  up = λ a. ground (arith, f.up a);
  late = λ a. ground (arith, f.late a);
  pending = λ a. ground (arith, f.pending a, f.signalled, o.unstarted);
  signalled = f.signalled;
  role = ground (arith, f.role);
  app = λ a. f.app refl;
  out = λ a. ground (arith, f.out a);
  passed = λ a u v. ground (arith, f.passed a u v);
  destroyed = λ a. absurd (cc);
  quiet = f.quiet;
  answered = λ a. refl;
  refused = λ a. absurd (cc (f.refused a));
}
Live-Fits i {b} {p} {l} quiesces f o = record {
  exits = λ a. ground (arith, a);
  parks = λ a. ground (arith, a);
  told = f.told;
  up = λ a. ground (arith, f.up a);
  late = λ a. ground (arith, f.late a);
  pending = λ a. ground (arith, f.pending a, f.signalled, o.unstarted);
  signalled = f.signalled;
  role = ground (arith, f.role);
  app = λ a. f.app refl;
  out = λ a. ground (arith, f.out a);
  passed = λ a u v. ground (arith, f.passed a u v);
  destroyed = λ a. ground (arith, a);
  quiet = ground (arith);
  answered = λ a. ground (arith);
  refused = λ a. absurd (cc (f.refused a));
}
Live-Fits i {b} {p} {l} unregisters f o = record {
  exits = λ a. refl;
  parks = λ a. absurd (cc);
  told = f.told;
  up = λ a. ground (arith, f.up a);
  late = λ a. ground (arith, f.late a);
  pending = λ a. ground (arith, f.pending a, f.signalled, o.unstarted);
  signalled = f.signalled;
  role = ground (arith, f.role);
  app = λ a. absurd (cc);
  out = λ a. refl;
  passed = λ a u v. refl;
  destroyed = λ a. absurd (cc);
  quiet = f.quiet;
  answered = λ a. refl;
  refused = λ a. absurd (cc (f.refused a));
}
Live-Fits i {b} {p} {l} (destroys h) f o = record {
  exits = λ a. absurd (cc);
  parks = λ a. refl;
  told = f.told;
  up = λ a. ground (arith, f.up a);
  late = λ a. ground (arith, f.late a);
  pending = λ a. ground (arith, f.pending a, f.signalled, o.unstarted);
  signalled = f.signalled;
  role = ground (arith, f.role);
  app = λ a. absurd (cc);
  out = λ a. ground (arith, f.out a);
  passed = λ a u v. ground (arith, f.passed a u v);
  destroyed = λ a. h;
  quiet = f.quiet;
  answered = λ a. refl;
  refused = λ a. absurd (cc (f.refused a));
}
