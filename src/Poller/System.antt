-- ===== src/Poller/System.antt =====
-- internal/vclpoll/poller.go, lines 65 to 111 and 287 to 374: the goroutine of the poller and those
-- that call `PollWaitContext`, `pollUnregister` and `StopPoller`, interleaved in any order.
use vclnet.Base.{
  ℕ, ◌<◌, ◌≡◌, List, [], ◌∷◌, ◌++◌, Bool, true, false, ◌&&◌, ◌||◌, not, if◌then◌else◌, length,
}
use vclnet.Wait.{Vlsh, Waiter}
use vclnet.Wait.Sets.{count}
use vclnet.Wait.Epoll.{Epoll}
use vclnet.Poller.Defs.{
  Poller, UnregisterRequest, register, cancel, unregister, handle_event, finish,
}
pub use vclnet.Base.{update}

-- The capacity of `regCh`, `cancelCh` and `unregCh`.
abbrev pub capacity : ℕ
capacity = 256

-- `start` up to its result: the loop is launched once, and never after `stop`.
unfoldable pub launch : Poller → Poller
launch p = if p.started then p else record p { started = true; running = true }

unfoldable pub start : Poller → Poller × Bool
unfolding launch
start p = if p.disabled then (p, false) else (launch p, (launch p).running)

-- `stop` up to its wait for the loop.
unfoldable pub stop : Poller → Poller
stop p = record p { disabled = true; stop_ch = p.stop_ch || p.started }

-- The test of `pollUnregister`.
unfoldable pub accepts_unregister : Poller → Bool
accepts_unregister p = not p.disabled && p.running

-- Where a call of `PollWaitContext` stands: before `start`, at its first `select`, at the second, at
-- the one that sends the cancellation, and behind its `return`.
pub data Phase : Type 0 where
  idle : Phase
  registering : Waiter → Phase
  waiting : Waiter → Phase
  cancelling : Waiter → Phase
  returned : Bool → Phase

-- A step of the call whose waiter is `i`. A `select` may take any case that is ready; whether
-- `doneCh` is closed is up to the caller.
pub data Move (i : ℕ) (p : Poller) : Phase → Poller → Phase → Type 0 where
  begin :
      {q : Poller} (v : Vlsh) (events : ℕ)
      → start p ≡ (q, true)
      → Move i p idle q (registering (record { id = i; vlsh = v; events = events }))
  refuse : {q : Poller} → start p ≡ (q, false) → Move i p idle q (returned false)
  send :
      (w : Waiter)
      → length p.reg_ch < capacity
      → Move i p (registering w) (record p { reg_ch = p.reg_ch ++ w ∷ [] }) (waiting w)
  give_up : (w : Waiter) → Move i p (registering w) p (returned false)
  wake : (w : Waiter) → 0 < count w.id p.woken → Move i p (waiting w) p (returned true)
  done : (w : Waiter) → Move i p (waiting w) p (cancelling w)
  closed : (w : Waiter) → p.stopped ≡ true → Move i p (waiting w) p (returned false)
  send_cancel :
      (w : Waiter)
      → length p.cancel_ch < capacity
      → Move i p (cancelling w) (record p { cancel_ch = p.cancel_ch ++ w ∷ [] }) (returned false)
  wake_late : (w : Waiter) → 0 < count w.id p.woken → Move i p (cancelling w) p (returned true)
  closed_late : (w : Waiter) → p.stopped ≡ true → Move i p (cancelling w) p (returned false)

-- A step of the loop, or of a call that does not wait for readiness.
pub data Turn (ep : Epoll) (p : Poller) : Poller → Type 0 where
  take_registration :
      (w : Waiter) (rest : List Waiter)
      → p.running ≡ true
      → p.reg_ch ≡ w ∷ rest
      → Turn ep p (register ep (record p { reg_ch = rest }) w)
  take_cancellation :
      (w : Waiter) (rest : List Waiter)
      → p.running ≡ true
      → p.cancel_ch ≡ w ∷ rest
      → Turn ep p (cancel ep (record p { cancel_ch = rest }) w)
  take_unregistration :
      (req : UnregisterRequest) (rest : List UnregisterRequest)
      → p.running ≡ true
      → p.unreg_ch ≡ req ∷ rest
      → Turn ep p (unregister (record p { unreg_ch = rest }) req)
  event : (v : Vlsh) (events : ℕ) → p.running ≡ true → Turn ep p (handle_event ep p v events)
  exit : p.running ≡ true → p.stop_ch ≡ true → Turn ep p (finish p)
  ask_unregister :
      (req : UnregisterRequest)
      → accepts_unregister p ≡ true
      → length p.unreg_ch < capacity
      → Turn ep p (record p { unreg_ch = p.unreg_ch ++ req ∷ [] })
  ask_stop : Turn ep p (stop p)

pub record System : Type 0 where
  pub poller : Poller
  pub phase : ℕ → Phase

pub data Step (ep : Epoll) (s : System) : System → Type 0 where
  moves :
      (i : ℕ) {q : Poller} {x : Phase}
      → Move i s.poller (s.phase i) q x
      → Step ep s (record { poller = q; phase = update s.phase i x })
  turns : {q : Poller} → Turn ep s.poller q → Step ep s (record { poller = q; phase = s.phase })

-- `defaultPoller`
abbrev pub default_poller : Poller
default_poller = record {
  reg_ch = [];
  cancel_ch = [];
  unreg_ch = [];
  waiters = [];
  woken = [];
  acked = [];
  calls = [];
  disabled = false;
  started = false;
  running = false;
  stop_ch = false;
  stopped = false;
}

pub data Reach (ep : Epoll) : System → Type 0 where
  init : Reach ep (record { poller = default_poller; phase = λ _. idle })
  later : {s t : System} → Reach ep s → Step ep s t → Reach ep t
