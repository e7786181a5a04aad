-- ===== src/Pool/System.antt =====
-- internal/vclpoll/mode2.go, lines 56 to 142: the dispatcher starts, stops and ends its workers while
-- callers submit operations to them.
use vclnet.Base.{
  ℕ, ◌+◌, ◌<◌, ◌≤◌, ◌≡◌, List, [], ◌∷◌, ◌++◌, Bool, true, false, some, ◌||◌, not, if◌then◌else◌,
  length,
}
use vclnet.Wait.Sets.{count}
use vclnet.Pool.Life.{Phase, absent, starting, looping, quiescing, Life, never, Signals, Live}
pub use vclnet.Base.{update}

-- Where the goroutine that runs `appInit`, `stop` and `appDestroy` stands: before it launches the next
-- worker, at `<-w.registered`, at `<-w.ready` of worker k, behind `appInit`, at the three loops of
-- `stop`, behind them, at `<-bootstrap.destroyed`, and at the end.
pub data Main : Type 0 where
  launching awaiting : Main
  readying : ℕ → Main
  running : Main
  signalling joining exiting : ℕ → Main
  stopped waiting_destroyed ended : Main

-- `appended` is `len(d.workers)`, and the worker of that index the one that `appInit` has launched
-- last but not appended yet.
pub record Pool : Type 0 where
  pub signals : Signals
  pub main : Main
  pub appended : ℕ
  pub stopping : Bool
  pub app_live : Bool
  pub lives : ℕ → Life
  pub phase : ℕ → Phase

-- A step of that goroutine, which launches a worker by `newWorker` and `go w.loop(appName)`, for `total` workers.
pub data Control (total : ℕ) (p : Pool) : Pool → Type 0 where
  launches :
      p.main ≡ launching
      → p.appended < total
      → Control total p (record p {
        main = awaiting;
        lives = update p.lives p.appended never;
        phase = update p.phase p.appended starting;
      })
  starts :
      p.main ≡ launching
      → p.appended ≡ total
      → Control total p
          (record p { main = readying 0; signals = record p.signals { start_closed = true } })
  appends :
      p.main ≡ awaiting
      → (p.lives p.appended).registered ≡ some true
      → Control total p (record p { main = launching; appended = p.appended + 1 })
  gives_up :
      p.main ≡ awaiting
      → (p.lives p.appended).registered ≡ some false
      → Control total p (record p {
        main = signalling 0;
        signals = record p.signals { start_closed = true };
        stopping = true;
      })
  finds_ready :
      (k : ℕ)
      → p.main ≡ readying k
      → k < p.appended
      → (p.lives k).ready ≡ some true
      → Control total p (record p { main = readying (k + 1) })
  finds_unready :
      (k : ℕ)
      → p.main ≡ readying k
      → k < p.appended
      → (p.lives k).ready ≡ some false
      → Control total p (record p { main = signalling 0; stopping = true })
  goes_live :
      (k : ℕ)
      → p.main ≡ readying k
      → p.appended ≤ k
      → Control total p (record p { main = running; app_live = true })
  begins_shutdown : p.main ≡ running → Control total p (record p { app_live = false })
  begins_stop :
      p.main ≡ running → Control total p (record p { main = signalling 0; stopping = true })
  signals_stop :
      (k : ℕ)
      → p.main ≡ signalling k
      → k < p.appended
      → Control total p (record p {
        main = signalling (k + 1);
        lives = update p.lives k (record (p.lives k) { stop_closed = true });
      })
  signalled :
      (k : ℕ)
      → p.main ≡ signalling k
      → p.appended ≤ k
      → Control total p (record p { main = joining 0 })
  joins :
      (k : ℕ)
      → p.main ≡ joining k
      → k < p.appended
      → (p.lives k).quiesced ≡ true
      → Control total p (record p { main = joining (k + 1) })
  joined :
      (k : ℕ)
      → p.main ≡ joining k
      → p.appended ≤ k
      → Control total p (record p { main = exiting 0 })
  skips : p.main ≡ exiting 0 → 0 < p.appended → Control total p (record p { main = exiting 1 })
  finds_exited :
      (k : ℕ)
      → p.main ≡ exiting k
      → 0 < k
      → k < p.appended
      → (p.lives k).exited ≡ true
      → Control total p (record p { main = exiting (k + 1) })
  finds_all :
      (k : ℕ) → p.main ≡ exiting k → p.appended ≤ k → Control total p (record p { main = stopped })
  has_none : p.main ≡ stopped → p.appended ≡ 0 → Control total p (record p { main = ended })
  closes_destroy :
      p.main ≡ stopped
      → 0 < p.appended
      → Control total p (record p {
        main = waiting_destroyed;
        signals = record p.signals { destroy_closed = true };
      })
  finds_destroyed :
      p.main ≡ waiting_destroyed
      → (p.lives 0).destroyed ≡ true
      → Control total p (record p { main = ended })

abbrev pub is_empty : List ℕ → Bool
is_empty [] = true
is_empty (o ∷ os) = false

-- A step of the pool: of the controlling goroutine, or of a worker.
pub data Turn (total : ℕ) (queue : ℕ → List ℕ) (p : Pool) : Pool → Type 0 where
  controls : {q : Pool} → Control total p q → Turn total queue p q
  lives_on :
      (i : ℕ) {s : Signals} {l : Life} {x : Phase}
      → Live i (is_empty (queue i)) p.signals (p.lives i) (p.phase i) s l x
      → Turn total queue p
          (record p { signals = s; lives = update p.lives i l; phase = update p.phase i x })

-- Where a call of `submit` stands: before its test of `stopping` and `appLive`, at the first `select`,
-- at the second, behind its return, and behind the one after the test.
pub data Caller : Type 0 where
  idle rejected : Caller
  sending waiting returned : ℕ → Caller

-- The operations in `opCh` of each worker, those that a worker ran and those it refused.
pub record System : Type 0 where
  pub pool : Pool
  pub queue : ℕ → List ℕ
  pub ran : List ℕ
  pub refused : List ℕ
  pub caller : ℕ → Caller

abbrev pub capacity : ℕ
capacity = 256

-- The test of `submit` and of `drainOps`.
unfoldable pub refuses : Pool → Bool
refuses p = p.stopping || not p.app_live

-- The answer of `drainOps` to an operation.
unfoldable pub drain_op : System → ℕ → System
unfolding refuses
drain_op s o =
    if refuses s.pool then record s { refused = o ∷ s.refused } else record s { ran = o ∷ s.ran }

-- A step of the whole: `o` is the call and its operation.
pub data Step (total : ℕ) (s : System) : System → Type 0 where
  turns : {q : Pool} → Turn total s.queue s.pool q → Step total s (record s { pool = q })
  drains_op :
      (i o : ℕ) (rest : List ℕ)
      → s.pool.phase i ≡ looping
      → s.queue i ≡ o ∷ rest
      → Step total s (drain_op (record s { queue = update s.queue i rest }) o)
  refuses_op :
      (i o : ℕ) (rest : List ℕ)
      → s.pool.phase i ≡ quiescing
      → s.queue i ≡ o ∷ rest
      → Step total s (record s { queue = update s.queue i rest; refused = o ∷ s.refused })
  submits :
      (o i : ℕ)
      → s.caller o ≡ idle
      → refuses s.pool ≡ false
      → i < s.pool.appended
      → Step total s (record s { caller = update s.caller o (sending i) })
  rejects :
      (o : ℕ)
      → s.caller o ≡ idle
      → refuses s.pool ≡ true
      → Step total s (record s { caller = update s.caller o rejected })
  sends :
      (o i : ℕ)
      → s.caller o ≡ sending i
      → length (s.queue i) < capacity
      → Step total s (record s {
        queue = update s.queue i (s.queue i ++ o ∷ []);
        caller = update s.caller o (waiting i);
      })
  gives_up_sending :
      (o i : ℕ)
      → s.caller o ≡ sending i
      → (s.pool.lives i).quiesced ≡ true
      → Step total s (record s { caller = update s.caller o (returned i) })
  gets_answer :
      (o i : ℕ)
      → s.caller o ≡ waiting i
      → 0 < count o s.ran + count o s.refused
      → Step total s (record s { caller = update s.caller o (returned i) })
  gives_up_waiting :
      (o i : ℕ)
      → s.caller o ≡ waiting i
      → (s.pool.lives i).quiesced ≡ true
      → Step total s (record s { caller = update s.caller o (returned i) })

abbrev pub new_pool : Pool
new_pool = record {
  signals = record { start_closed = false; destroy_closed = false; app_exists = false };
  main = launching;
  appended = 0;
  stopping = false;
  app_live = false;
  lives = λ _. never;
  phase = λ _. absent;
}

abbrev pub new_system : System
new_system = record { pool = new_pool; queue = λ _. []; ran = []; refused = []; caller = λ _. idle }

pub data Reach (total : ℕ) : System → Type 0 where
  init : Reach total new_system
  later : {s t : System} → Reach total s → Step total s t → Reach total t
