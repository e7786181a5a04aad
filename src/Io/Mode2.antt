-- ===== src/Io/Mode2.antt =====
-- internal/vclpoll/mode2.go, lines 328 to 404 and 537 to 625: the calls of the multi-worker mode. Between
-- two steps of a call other goroutines change the dispatcher; a turn says how.
use vclnet.Base.{ℕ, List, [], ◌∷◌, Bool, true, false, Option, none, some, if◌then◌else◌}
use vclnet.Errors.{Error, panicked, poll_closed, wait_canceled, Result, ok, err, is_again_error}
use vclnet.Wait.{Vlsh, Waiter, epoll_in, epoll_out}
use vclnet.Vls.Addr.{AddrInfo}
use vclnet.Worker.Defs.{Vpp, Worker, add_waiter}
use vclnet.Worker.Leave.{cancel_waiter}
use vclnet.Mode2.Defs.{Dispatcher, put_worker, submit, lookup_ref, session_call, register_session}
use vclnet.Io.Raw.{
  Op, read, write, recv_from, send_to, accept_full, Reply, Answer, raw, raw_accept_full,
}

-- The branch that the `select` of `pollWaitContext` takes.
pub data Branch : Type 0 where
  waiter_ready done_closed worker_quiesced : Branch

-- What the goroutine meets in a turn: the answer of libvppcom, what others do before its steps, the
-- identity of the waiter, the branch taken, whether the waiter is ready when its cancellation cannot be
-- submitted, and whether `done` is closed at the end.
pub record Turn : Type 0 where
  pub before_call : Dispatcher → Dispatcher
  pub answer : Answer
  pub before_wait : Dispatcher → Dispatcher
  pub waiter_id : ℕ
  pub branch : Branch
  pub before_cancel : Dispatcher → Dispatcher
  pub woken : Bool
  pub before_error : Dispatcher → Dispatcher
  pub done : Bool

abbrev pub Run {ℓ} : Type ℓ → Type ℓ
Run A = Dispatcher × Option (Result A)

-- `lookup` may panic.
abbrev pub is_panicked : Error → Bool
is_panicked panicked = true
is_panicked _ = false

-- `if err != nil { return false }` after `lookup`.
abbrev pub no_wait : Error → Result Bool
no_wait e = if is_panicked e then err panicked else ok false

abbrev pub waiter_of : Vlsh → ℕ → Turn → Waiter
waiter_of handle events t = record { id = t.waiter_id; vlsh = handle; events = events }

module _ (vpp : Vpp) (handle : Vlsh) (events : ℕ) (t : Turn) (i : ℕ) (raw : Vlsh) where
  -- The operation that parks the waiter.
  abbrev pub add_result : Dispatcher → Worker × Option Error → Dispatcher × Result (Unit {0})
  add_result d (w, none) = (put_worker d i w, ok tt)
  add_result d (w, some e) = (put_worker d i w, err e)

  abbrev pub submit_waiter : Dispatcher → Dispatcher × Result (Unit {0})
  submit_waiter d =
      submit d i (λ w. add_result d (add_waiter vpp w handle raw (waiter_of handle events t)))

  -- The operation that cancels it.
  abbrev pub cancel_result : Dispatcher → Worker × Bool → Dispatcher × Result Bool
  cancel_result d (w, b) = (put_worker d i w, ok b)

  abbrev pub submit_cancel : Dispatcher → Dispatcher × Result Bool
  submit_cancel d =
      submit d i (λ w. cancel_result d (cancel_waiter vpp w handle raw (waiter_of handle events t)))

  abbrev pub or_woken : Dispatcher × Result Bool → Dispatcher × Result Bool
  or_woken (d, ok b) = (d, ok b)
  or_woken (d, err e) = (d, ok t.woken)

  abbrev pub selected : Branch → Dispatcher → Dispatcher × Result Bool
  selected waiter_ready d = (d, ok true)
  selected done_closed d = or_woken (submit_cancel (t.before_cancel d))
  selected worker_quiesced d = (d, ok false)

  abbrev pub after_submit : Dispatcher × Result (Unit {0}) → Dispatcher × Result Bool
  after_submit (d, ok u) = selected t.branch d
  after_submit (d, err e) = (d, ok false)

unfoldable pub wait_on :
    Vpp → Vlsh → ℕ → Turn → Dispatcher → Result (ℕ × Vlsh) → Dispatcher × Result Bool
unfolding put_worker submit add_waiter cancel_waiter
wait_on vpp handle events t d (ok (i, raw)) =
    after_submit vpp handle events t i raw (submit_waiter vpp handle events t i raw d)
wait_on vpp handle events t d (err e) = (d, no_wait e)

-- `pollWaitContext`; the result is an error only where `lookup` panics.
unfoldable pub poll_wait_context : Vpp → Vlsh → ℕ → Turn → Dispatcher → Dispatcher × Result Bool
unfolding wait_on lookup_ref
poll_wait_context vpp handle events t d = wait_on vpp handle events t d (lookup_ref d handle)

unfoldable pub interrupted_lookup : Dispatcher → Result (ℕ × Vlsh) → Error
interrupted_lookup d (ok ref) = if d.stopping then poll_closed else wait_canceled
interrupted_lookup d (err e) = if is_panicked e then panicked else poll_closed

-- `waitInterruptedError`
unfoldable pub wait_interrupted_error : Dispatcher → Vlsh → Bool → Error
unfolding interrupted_lookup lookup_ref
wait_interrupted_error d handle done =
    if done then wait_canceled else interrupted_lookup d (lookup_ref d handle)

-- The operations that the calls submit.
abbrev registered_reply :
    AddrInfo → Dispatcher × Result Vlsh → Dispatcher × Result (Vlsh × AddrInfo)
registered_reply addr (d, ok public) = (d, ok (public, addr))
registered_reply addr (d, err e) = (d, err e)

abbrev accept_reply :
    Vpp → Dispatcher → ℕ → Worker → Result (Vlsh × AddrInfo) → Dispatcher × Result (Vlsh × AddrInfo)
accept_reply vpp d i w (ok (conn, addr)) = registered_reply addr (register_session vpp d i w conn)
accept_reply vpp d i w (err e) = (put_worker d i w, err e)

abbrev pub operation :
    Vpp → (op : Op) → Answer → Dispatcher → ℕ → Worker → Vlsh → Dispatcher × Result (Reply op)
operation vpp (read len) a d i w r = (put_worker d i w, raw (read len) a)
operation vpp (write len) a d i w r = (put_worker d i w, raw (write len) a)
operation vpp (recv_from len) a d i w r = (put_worker d i w, raw (recv_from len) a)
operation vpp (send_to len addr) a d i w r = (put_worker d i w, raw (send_to len addr) a)
operation vpp accept_full a d i w r = accept_reply vpp d i w (raw_accept_full a)

module _ {ℓ} {A : Type ℓ} where
  -- After a wait.
  abbrev pub waited : Vlsh → Turn → (Dispatcher → Run A) → Dispatcher × Result Bool → Run A
  waited handle t rest (d, ok true) = rest d
  waited handle t rest (d, ok false) =
      (t.before_error d, some (err (wait_interrupted_error (t.before_error d) handle t.done)))
  waited handle t rest (d, err e) = (d, some (err e))

  -- After the call.
  abbrev pub settle : Vpp → Vlsh → ℕ → Turn → (Dispatcher → Run A) → Dispatcher × Result A → Run A
  settle vpp handle events t rest (d, ok a) = (d, some (ok a))
  settle vpp handle events t rest (d, err e) =
      if is_again_error e
      then waited handle t rest (poll_wait_context vpp handle events t (t.before_wait d))
      else (d, some (err e))

  -- The loop that the five calls share.
  unfoldable pub retry :
      Vpp
      → Vlsh
      → ℕ
      → (Answer → Dispatcher → Dispatcher × Result A)
      → List Turn
      → Dispatcher
      → Run A
  retry vpp handle events attempt [] d = (d, none)
  retry vpp handle events attempt (t ∷ ts) d =
      settle vpp handle events t (retry vpp handle events attempt ts)
        (attempt t.answer (t.before_call d))

-- One attempt: `sessionCall` with the operation of the call.
abbrev pub attempt_call :
    Vpp → Vlsh → (op : Op) → Answer → Dispatcher → Dispatcher × Result (Reply op)
attempt_call vpp handle op a d = session_call vpp d handle (operation vpp op a)

-- `readContext`
abbrev pub read_context : Vpp → Vlsh → ℕ → List Turn → Dispatcher → Run ℕ
read_context vpp handle len ts d =
    retry vpp handle epoll_in (attempt_call vpp handle (read len)) ts d

-- `writeContext`
abbrev pub write_context : Vpp → Vlsh → ℕ → List Turn → Dispatcher → Run ℕ
write_context vpp handle len ts d =
    retry vpp handle epoll_out (attempt_call vpp handle (write len)) ts d

-- `sendToContext`
abbrev pub send_to_context : Vpp → Vlsh → ℕ → AddrInfo → List Turn → Dispatcher → Run ℕ
send_to_context vpp handle len addr ts d =
    retry vpp handle epoll_out (attempt_call vpp handle (send_to len addr)) ts d

-- `recvFromContext`
abbrev pub recv_from_context : Vpp → Vlsh → ℕ → List Turn → Dispatcher → Run (ℕ × AddrInfo)
recv_from_context vpp handle len ts d =
    retry vpp handle epoll_in (attempt_call vpp handle (recv_from len)) ts d

-- `acceptFullContext`, of a listener that is not sharded.
abbrev pub accept_full_context : Vpp → Vlsh → List Turn → Dispatcher → Run (Vlsh × AddrInfo)
accept_full_context vpp handle ts d =
    retry vpp handle epoll_in (attempt_call vpp handle accept_full) ts d

-- The call `op` of the multi-worker mode.
abbrev pub call2 : Vpp → Vlsh → (op : Op) → List Turn → Dispatcher → Run (Reply op)
call2 vpp handle (read len) ts d = read_context vpp handle len ts d
call2 vpp handle (write len) ts d = write_context vpp handle len ts d
call2 vpp handle (send_to len addr) ts d = send_to_context vpp handle len addr ts d
call2 vpp handle (recv_from len) ts d = recv_from_context vpp handle len ts d
call2 vpp handle accept_full ts d = accept_full_context vpp handle ts d
