-- ===== src/Io/Mode3.antt =====
-- internal/vclpoll/cgo.go, lines 778 to 799, 936 to 1035, 1484 to 1507 and 1619 to 1674: the calls of
-- the shared-worker mode. A turn of their loops is what it finds, and what happens at VLS is traced.
use vclnet.Base.{
  ℕ, ℤ, List, [], ◌∷◌, ◌++◌, Bool, true, false, ◌==◌, Option, none, some, not, if◌then◌else◌,
}
use vclnet.Errors.{
  Error, poll_closed, wait_canceled, Result, ok, err, vpp_err, is_again, is_again_error,
}
use vclnet.Vls.Addr.{AddrInfo}
use vclnet.Vls.Calls.{is_negative}
use vclnet.Wait.{Vlsh}
use vclnet.Io.Raw.{
  Op, read, write, recv_from, send_to, accept_full, Reply, Answer, raw_send_to, raw_recv_from,
  raw_accept_full, no_addr, count_or_error,
}

-- What the goroutine does with the thread and the read lock of `vlsMu`, the calls of libvppcom, and
-- the waits for readiness.
pub data Event : Type 0 where
  lock_thread register_thread read_lock read_unlock unlock_thread vls_call : Event
  poll_wait poll_unregister : Event

-- `enterVLS`
abbrev pub enter_vls : List Event
enter_vls = lock_thread ∷ register_thread ∷ read_lock ∷ []

-- `exitVLS`
abbrev pub exit_vls : List Event
exit_vls = read_unlock ∷ unlock_thread ∷ []

-- `appLive` at the head of the loop, the answer of the call, and whether the wait after it, if there
-- is one, finds the session ready.
pub record Turn : Type 0 where
  pub app_live : Bool
  pub answer : Answer
  pub ready : Bool

-- What has happened, and the result, or none while the loop is still running.
abbrev pub Run {ℓ} : Type ℓ → Type ℓ
Run A = List Event × Option (Result A)

-- What a turn does with the answer of the call.
pub data Tried {ℓ} (A : Type ℓ) : Type ℓ where
  done : Result A → Tried A
  again : Tried A

-- `if rv >= 0 { return }; if !isAgain(rv) { return vppErr }`
abbrev pub tried_rv : ℤ → Tried ℕ
tried_rv rv =
    if not (is_negative rv)
    then done (count_or_error rv)
    else if not (is_again rv)
    then done (err (vpp_err rv))
    else again

-- `if err == nil { return }; if !isAgainError(err) { return err }`
abbrev pub tried_error {ℓ} : {A : Type ℓ} → Result A → Tried A
tried_error (ok a) = done (ok a)
tried_error (err e) = if not (is_again_error e) then done (err e) else again

module _ {ℓ} {A : Type ℓ} where
  -- The end of a turn, with the rest of the loop.
  abbrev pub settle : Error → Bool → Tried A → Run A → Run A
  settle interrupted ready (done r) rest = (enter_vls ++ vls_call ∷ exit_vls, some r)
  settle interrupted ready again rest =
      if ready
      then (enter_vls ++ vls_call ∷ exit_vls ++ poll_wait ∷ rest.0, rest.1)
      else (enter_vls ++ vls_call ∷ exit_vls ++ poll_wait ∷ [], some (err interrupted))

  -- `if !appLive.Load() { exitVLS(); return ErrClosed }`
  abbrev pub if_live : Bool → Run A → Run A
  if_live true run = run
  if_live false run = (enter_vls ++ exit_vls, some (err poll_closed))

  -- The loop that the five calls share.
  unfoldable pub retry : Error → (Answer → Tried A) → List Turn → Run A
  retry interrupted attempt [] = ([], none)
  retry interrupted attempt (t ∷ ts) =
      if_live t.app_live
        (settle interrupted t.ready (attempt t.answer) (retry interrupted attempt ts))

-- `mode3ReadContext`
unfoldable pub mode3_read_context : ℕ → List Turn → Run ℕ
unfolding retry
mode3_read_context len ts =
    if len == 0 then ([], some (ok 0)) else retry wait_canceled (λ a. tried_rv a.rv) ts

-- `mode3WriteContext`
unfoldable pub mode3_write_context : ℕ → List Turn → Run ℕ
unfolding retry
mode3_write_context len ts =
    if len == 0 then ([], some (ok 0)) else retry wait_canceled (λ a. tried_rv a.rv) ts

-- `mode3SendToContext`
unfoldable pub mode3_send_to_context : ℕ → List Turn → Run ℕ
unfolding retry raw_send_to
mode3_send_to_context len ts =
    if len == 0
    then ([], some (ok 0))
    else retry wait_canceled (λ a. tried_error (raw_send_to len a)) ts

-- `mode3RecvFromContext`
unfoldable pub mode3_recv_from_context : ℕ → List Turn → Run (ℕ × AddrInfo)
unfolding retry raw_recv_from
mode3_recv_from_context len ts =
    if len == 0
    then ([], some (ok (0, no_addr)))
    else retry wait_canceled (λ a. tried_error (raw_recv_from len a)) ts

-- `mode3AcceptFullContext`
unfoldable pub mode3_accept_full_context : List Turn → Run (Vlsh × AddrInfo)
unfolding retry raw_accept_full
mode3_accept_full_context ts = retry poll_closed (λ a. tried_error (raw_accept_full a)) ts

-- The call `op` of the shared-worker mode.
abbrev pub call3 : (op : Op) → List Turn → Run (Reply op)
call3 (read len) ts = mode3_read_context len ts
call3 (write len) ts = mode3_write_context len ts
call3 (recv_from len) ts = mode3_recv_from_context len ts
call3 (send_to len addr) ts = mode3_send_to_context len ts
call3 accept_full ts = mode3_accept_full_context ts
