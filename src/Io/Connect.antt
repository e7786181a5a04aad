-- ===== src/Io/Connect.antt =====
-- internal/vclpoll/mode2.go, lines 207 to 225, 286 to 311 and 420 to 429: connects of the multi-worker
-- mode, and waking the waiters of a session.
use vclnet.Base.{ℕ, ◌≡◌, Bool, true, false, if◌then◌else◌, int_eq}
use vclnet.Errors.{poll_closed, errno, etimedout, Result, ok, err}
use vclnet.Wait.{Vlsh, epoll_out}
use vclnet.Worker.Defs.{Vpp, Worker}
use vclnet.Worker.Leave.{remove_waiters}
use vclnet.Mode2.Defs.{
  Dispatcher, put_worker, submit, lookup_ref, session_call, close_session, pick_worker,
  register_session,
}
use vclnet.Mode2.Close.{IsOpen, close_session_lem}
use vclnet.Io.Mode2.{Turn, poll_wait_context}

-- The reply of a connect: the handle, and whether it is connected.
abbrev pub connect_reply : Bool → Dispatcher × Result Vlsh → Dispatcher × Result (Vlsh × Bool)
connect_reply immediate (d, ok public) = (d, ok (public, immediate))
connect_reply immediate (d, err e) = (d, err e)

abbrev pub connect_on :
    Vpp → Dispatcher → ℕ → Worker → Result (Vlsh × Bool) → Dispatcher × Result (Vlsh × Bool)
connect_on vpp d i w (ok (raw, immediate)) =
    connect_reply immediate (register_session vpp d i w raw)
connect_on vpp d i w (err e) = (d, err e)

-- `createConnect`, by what `fn` gives.
unfoldable pub create_connect :
    Vpp → Dispatcher → Result (Vlsh × Bool) → Dispatcher × Result (Vlsh × Bool)
unfolding pick_worker submit register_session
create_connect vpp d answer =
    let (d', i) = pick_worker d in submit d' i (λ w. connect_on vpp d' i w answer)

-- `if d.stopping.Load() { return ErrClosed }` and the timeout, after the close.
abbrev pub close_failed : Vpp → Vlsh → Dispatcher → Dispatcher × Result Vlsh
close_failed vpp handle d = (
  (close_session vpp d handle).0,
  err (if (close_session vpp d handle).0.stopping then poll_closed else errno etimedout),
)

abbrev pub waited_connect : Vpp → Vlsh → Turn → Dispatcher × Result Bool → Dispatcher × Result Vlsh
waited_connect vpp handle t (d, ok true) = (d, ok handle)
waited_connect vpp handle t (d, ok false) = close_failed vpp handle (t.before_error d)
waited_connect vpp handle t (d, err e) = (d, err e)

-- `finishLegacyConnect`, where the turn says how the wait goes; the timer closes `timedOut`.
unfoldable pub finish_legacy_connect :
    Vpp → Turn → Dispatcher → Result (Vlsh × Bool) → Dispatcher × Result Vlsh
unfolding poll_wait_context close_session
finish_legacy_connect vpp t d (err e) = (d, err e)
finish_legacy_connect vpp t d (ok (handle, true)) = (d, ok handle)
finish_legacy_connect vpp t d (ok (handle, false)) =
    waited_connect vpp handle t (poll_wait_context vpp handle epoll_out t d)

wake_session : Dispatcher → Vlsh → ℕ → Vlsh → Dispatcher × Result (Unit {0})
unfolding submit remove_waiters
wake_session d handle i raw =
    submit d i (λ w. (put_worker d i (remove_waiters w handle raw), ok tt))

wake_on : Dispatcher → Vlsh → Result (ℕ × Vlsh) → Dispatcher
unfolding wake_session
wake_on d handle (err e) = d
wake_on d handle (ok (i, raw)) = (wake_session d handle i raw).0

-- `wakeVLSH`; a panic of `lookup` is left out.
unfoldable pub wake_vlsh : Dispatcher → Vlsh → Dispatcher
unfolding wake_on lookup_ref
wake_vlsh d handle = wake_on d handle (lookup_ref d handle)

waited-closed :
    (vpp : Vpp) (handle : Vlsh) (t : Turn) (c : Dispatcher × Result Bool) (i : ℕ) (w : Worker)
    (raw : Vlsh) (fn : Dispatcher → ℕ → Worker → Vlsh → Dispatcher × Result (Unit {0}))
    → c.1 ≡ ok false
    → IsOpen vpp (t.before_error c.0) handle i w raw
    → let (d', r) = waited_connect vpp handle t c in
      session_call vpp d' handle fn ≡ (d', err poll_closed)
waited-closed vpp handle t (d, ok true) i w raw fn e o = absurd (cc)
waited-closed vpp handle t (d, ok false) i w raw fn e o =
    (close_session_lem vpp (t.before_error d) handle i w raw o).3 fn
waited-closed vpp handle t (d, err x) i w raw fn e o = absurd (cc)

-- A connect whose wait fails while its session is open is closed: whatever is done with the handle
-- afterwards gives `ErrClosed`.
failed_connect-closed :
    (vpp : Vpp) (handle : Vlsh) (t : Turn) (d : Dispatcher) (i : ℕ) (w : Worker) (raw : Vlsh)
    (fn : Dispatcher → ℕ → Worker → Vlsh → Dispatcher × Result (Unit {0}))
    → (poll_wait_context vpp handle epoll_out t d).1 ≡ ok false
    → IsOpen vpp (t.before_error (poll_wait_context vpp handle epoll_out t d).0) handle i w raw
    → let (d', r) = finish_legacy_connect vpp t d (ok (handle, false)) in
      session_call vpp d' handle fn ≡ (d', err poll_closed)
unfolding finish_legacy_connect
failed_connect-closed vpp handle t d i w raw fn e o =
    waited-closed vpp handle t (poll_wait_context vpp handle epoll_out t d) i w raw fn e o
