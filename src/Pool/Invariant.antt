-- ===== src/Pool/Invariant.antt =====
-- internal/vclpoll/worker.go, lines 57 to 190, and mode2.go, lines 56 to 124: what each worker and the
-- dispatcher keep to.
use vclnet.Base.{ℕ, ◌<◌, ◌≡◌, Bool, true, false, some, ◌==◌, ltb, not}
use vclnet.Pool.Life.{
  Phase, absent, starting, started, unregistering, gone, waiting_destroy, parked, failed, Life,
}
use vclnet.Pool.System.{
  Main, launching, awaiting, signalling, joining, exiting, stopped, waiting_destroyed, ended, Pool,
}

-- Whether a worker has registered.
abbrev pub is_up : Phase → Bool
is_up absent = false
is_up starting = false
is_up failed = false
is_up _ = true

abbrev pub is_absent : Phase → Bool
is_absent absent = true
is_absent _ = false

abbrev pub is_failed : Phase → Bool
is_failed failed = true
is_failed _ = false

abbrev pub is_gone : Phase → Bool
is_gone gone = true
is_gone _ = false

-- Whether `exited` may be closed.
abbrev pub is_out : Phase → Bool
is_out gone = true
is_out failed = true
is_out _ = false

abbrev pub is_parked : Phase → Bool
is_parked parked = true
is_parked _ = false

-- The phases of a worker that is not appended yet: while `appInit` waits for it, and else.
abbrev pub may_pend : Bool → Phase → Bool
may_pend true starting = true
may_pend true started = true
may_pend b absent = not b
may_pend b failed = true
may_pend b _ = false

-- The phases of the bootstrap worker, and those of the others.
abbrev pub has_role : Bool → Phase → Bool
has_role true unregistering = false
has_role true gone = false
has_role false waiting_destroy = false
has_role false parked = false
has_role b _ = true

-- Whether libvppcom is, or will be, called by the worker before it ends. The bootstrap worker creates
-- the application, the others register with it.
abbrev pub needs_app : Bool → Phase → Bool
needs_app b absent = false
needs_app b failed = false
needs_app b gone = false
needs_app b parked = false
needs_app b starting = not b
needs_app b _ = true

-- Whether `quiesced` is closed.
abbrev pub after_quiesce : Phase → Bool
after_quiesce unregistering = true
after_quiesce gone = true
after_quiesce waiting_destroy = true
after_quiesce parked = true
after_quiesce _ = false

abbrev pub is_awaiting : Main → Bool
is_awaiting awaiting = true
is_awaiting _ = false

-- Whether `appInit` is still launching.
abbrev pub is_early : Main → Bool
is_early launching = true
is_early awaiting = true
is_early _ = false

-- Whether `appDestroy` waits for the bootstrap worker.
abbrev pub is_waiting : Main → Bool
is_waiting waiting_destroyed = true
is_waiting _ = false

-- Whether `destroyCh` may be closed.
abbrev pub is_final : Main → Bool
is_final waiting_destroyed = true
is_final ended = true
is_final _ = false

-- Whether `stop` has found that the worker `j` has exited.
abbrev pub saw_exit : Main → ℕ → Bool
saw_exit (exiting k) j = ltb j k
saw_exit stopped j = true
saw_exit waiting_destroyed j = true
saw_exit ended j = true
saw_exit _ j = false

-- Whether `stop` has closed `stopCh` of the worker `j`.
abbrev pub was_told : Main → ℕ → Bool
was_told (signalling k) j = ltb j k
was_told (joining k) j = true
was_told (exiting k) j = true
was_told stopped j = true
was_told waiting_destroyed j = true
was_told ended j = true
was_told _ j = false

-- What holds of the worker `i`.
pub record Fits (p : Pool) (i : ℕ) (l : Life) (x : Phase) : Type 0 where
  pub up : i < p.appended → is_up x ≡ true
  pub late : p.appended < i → is_absent x ≡ true
  pub pending : i ≡ p.appended → may_pend (is_awaiting p.main) x ≡ true
  pub signalled : l.stop_closed ≡ true → i < p.appended
  pub told : i < p.appended → was_told p.main i ≡ true → l.stop_closed ≡ true
  pub role : has_role (i == 0) x ≡ true
  pub app : needs_app (i == 0) x ≡ true → p.signals.app_exists ≡ true
  pub out : l.exited ≡ true → is_out x ≡ true
  pub passed : (i == 0) ≡ false → i < p.appended → saw_exit p.main i ≡ true → is_gone x ≡ true
  pub destroyed : is_parked x ≡ true → p.signals.destroy_closed ≡ true
  pub exits : is_gone x ≡ true → l.exited ≡ true
  pub parks : is_parked x ≡ true → l.destroyed ≡ true
  pub quiet : after_quiesce x ≡ l.quiesced
  pub answered : l.registered ≡ some true → is_up x ≡ true
  pub refused : l.registered ≡ some false → is_failed x ≡ true

-- What holds of the pool.
pub record IsOrdered (p : Pool) : Type 0 where
  pub unstarted : is_early p.main ≡ true → p.signals.start_closed ≡ false
  pub bootstrapped : is_waiting p.main ≡ true → (0 < p.appended) × (p.signals.destroy_closed ≡ true)
  pub undestroyed : p.signals.destroy_closed ≡ true → is_final p.main ≡ true
