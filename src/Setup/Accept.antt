-- ===== src/Setup/Accept.antt =====
-- listener.go, lines 14 to 117: a TCP listener, its `AcceptContext` and its `Close`. An operation is one
-- step but for the call of the dispatcher, around which others may act.
use vclnet.Base.{
  ◌≡◌, refl, List, [], ◌∷◌, Bool, true, false, ◌||◌, Bool-cases, inl, inr, Option, none, some,
  if◌then◌else◌,
}
use vclnet.Errors.{Error, closed, poll_closed, Result, ok, err}
use vclnet.Wait.{Vlsh}

-- A call that `Close` makes.
pub data Call : Type 0 where
  close_done close_vls remove_listener : Call

pub record TcpListener : Type 0 where
  pub is_closed : Bool
  pub close_once : Bool
  pub tracked : Bool
  pub calls : List Call

-- `newTCPListener`, and the store to `tracked` of the callers that register it.
abbrev pub new_tcp_listener : TcpListener
new_tcp_listener = record { is_closed = false; close_once = false; tracked = true; calls = [] }

-- The flags of the listener and of the package, and `ctx.Err()`.
pub record State : Type 0 where
  pub is_closed : Bool
  pub shutdown_started : Bool
  pub ctx_err : Option Error

abbrev pub is_down : State → Bool
is_down s = s.is_closed || s.shutdown_started

-- The channel that the call waits on, by `ctx.Done() == nil`: that of the listener, or the merged one.
pub data DoneCh : Type 0 where
  own merged : DoneCh

unfoldable pub merged_done : Bool → DoneCh
merged_done true = own
merged_done false = merged

-- `errors.Is(err, vclpoll.ErrClosed)`
abbrev pub translate : Error → Error
translate poll_closed = closed
translate e = e

abbrev pub ctx_or : Option Error → Error → Error
ctx_or (some e) x = e
ctx_or none x = x

-- The error of an accept that failed with `e`, by what holds after it.
unfoldable pub accept_error : State → Error → Error
accept_error s e = if is_down s then closed else ctx_or s.ctx_err (translate e)

-- What has been registered with the lifecycle registry, and the result.
abbrev pub accept_answer : State → Result Vlsh → List Vlsh × Result Vlsh
accept_answer after (ok v) = (v ∷ [], ok v)
accept_answer after (err e) = ([], err (accept_error after e))

abbrev pub unless_ctx : Option Error → List Vlsh × Result Vlsh → List Vlsh × Result Vlsh
unless_ctx (some e) r = ([], err e)
unless_ctx none r = r

-- `AcceptContext`, by what holds before the call of the dispatcher and after it, and its answer.
unfoldable pub accept_context : State → State → Result Vlsh → List Vlsh × Result Vlsh
unfolding accept_error
accept_context before after answer =
    if is_down before
    then ([], err closed)
    else unless_ctx before.ctx_err (accept_answer after answer)

-- `Close`, where `answer` is what the dispatcher returns.
unfoldable pub close_listener : Bool → Option Error → TcpListener → TcpListener × Option Error
close_listener shutdown_started answer l =
    let vls = if shutdown_started then close_done ∷ l.calls else close_vls ∷ close_done ∷ l.calls in
    let l' = record l {
      is_closed = true;
      close_once = true;
      calls = if l.tracked then remove_listener ∷ vls else vls;
    } in
    if l.close_once then (l, none) else (l', if shutdown_started then none else answer)

-- The sessions that a result holds.
abbrev pub sessions_of : Result Vlsh → List Vlsh
sessions_of (ok v) = v ∷ []
sessions_of (err e) = []

answer-registered :
    (after : State) (answer : Result Vlsh)
    → (accept_answer after answer).0 ≡ sessions_of (accept_answer after answer).1
answer-registered after (ok v) = refl
answer-registered after (err e) = refl

unless_ctx-registered :
    (e : Option Error) (r : List Vlsh × Result Vlsh)
    → r.0 ≡ sessions_of r.1
    → (unless_ctx e r).0 ≡ sessions_of (unless_ctx e r).1
unless_ctx-registered none r h = h
unless_ctx-registered (some e) r h = refl

if-registered :
    (b : Bool) (e : Error) (r : List Vlsh × Result Vlsh)
    → r.0 ≡ sessions_of r.1
    → let s = if b then ([], err e) else r in s.0 ≡ sessions_of s.1
if-registered true e r h = refl
if-registered false e r h = h

-- `AcceptContext` registers the session that it returns, and nothing if it returns an error.
accept_context-registered :
    (before after : State) (answer : Result Vlsh)
    → let r = accept_context before after answer in r.0 ≡ sessions_of r.1
unfolding accept_context
accept_context-registered before after answer =
    if-registered (is_down before) closed (unless_ctx before.ctx_err (accept_answer after answer)) (
      unless_ctx-registered before.ctx_err (accept_answer after answer)
        (answer-registered after answer))

closed-once :
    (down : Bool) (answer : Option Error) (l : TcpListener)
    → (close_listener down answer l).0.close_once ≡ true
unfolding close_listener
closed-once down answer l = elim (Bool-cases l.close_once) [
  | inl h ↦ simp h refl
  | inr h ↦ simp h refl
]

close_closed :
    (down : Bool) (answer : Option Error) (l : TcpListener)
    → l.close_once ≡ true
    → close_listener down answer l ≡ (l, none)
unfolding close_listener
close_closed down answer l h = simp h refl

-- Closing again does nothing.
close_listener-again :
    (down down' : Bool) (answer answer' : Option Error) (l : TcpListener)
    → close_listener down' answer' (close_listener down answer l).0
      ≡ ((close_listener down answer l).0, none)
close_listener-again down down' answer answer' l =
    close_closed down' answer' (close_listener down answer l).0 (closed-once down answer l)
