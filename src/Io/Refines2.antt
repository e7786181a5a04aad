-- ===== src/Io/Refines2.antt =====
-- internal/vclpoll/mode2.go, lines 324 to 404 and 537 to 621, against what a blocking call promises.
use vclnet.Base.{
  ℕ, List, [], ◌∷◌, Bool, true, false, some, ◌≡◌, refl, ap, ◌∙◌, ◌↔◌, Bool-cases, inl, inr,
}
use vclnet.Errors.{Error, Result, ok, err, is_again_error}
use vclnet.Wait.{Vlsh, epoll_in, epoll_out}
use vclnet.Worker.Defs.{Vpp}
use vclnet.Mode2.Defs.{Dispatcher}
use vclnet.Io.Raw.{Op, read, write, recv_from, send_to, accept_full, Reply, Answer, events_of}
use vclnet.Io.Spec.{Attempt, judge, Returns, or_else, first_verdict, first_verdict_iff}
use vclnet.Io.Mode2.{Turn, Run, waited, settle, retry, attempt_call, call2, poll_wait_context}
use vclnet.Io.Waits.{why_interrupted, why_lem, wait_outcome, wait_outcome_lem}

-- A wait as the contract sees it: whether it finds the session ready, and the error if not.
abbrev pub is_ready : Result Bool → Bool
is_ready (ok b) = b
is_ready (err e) = false

abbrev pub wait_error : Error → Result Bool → Error
wait_error interrupted (ok b) = interrupted
wait_error interrupted (err e) = e

module _ {ℓ} {A : Type ℓ} (vpp : Vpp) (handle : Vlsh) (events : ℕ)
    (attempt : Answer → Dispatcher → Dispatcher × Result A) where
  abbrev called : Turn → Dispatcher → Dispatcher × Result A
  called t d = attempt t.answer (t.before_call d)

  abbrev parked : Turn → Dispatcher → Dispatcher × Result Bool
  parked t d = poll_wait_context vpp handle events t (t.before_wait (called t d).0)

  -- A turn that finds the dispatcher in state `d`, as an attempt.
  abbrev attempt_of : Turn → Dispatcher → Attempt A
  attempt_of t d =
      let d' = (parked t d).0 in
      let w = wait_outcome vpp handle events t (t.before_wait (called t d).0) in
      record {
        answer = (called t d).1;
        ready = is_ready w;
        interrupted = wait_error (why_interrupted (t.before_error d') handle t.done) w;
      }

  -- The turns, each in the state that the one before and the other goroutines leave.
  abbrev pub attempts : List Turn → Dispatcher → List (Attempt A)
  attempts [] d = []
  attempts (t ∷ ts) d = attempt_of t d ∷ attempts ts (parked t d).0

  waited-judge :
      (t : Turn) (rest : Dispatcher → Run A) (w : Dispatcher × Result Bool) (e : Error)
      → is_again_error e ≡ true
      → (waited handle t rest w).1
        ≡ or_else
            (judge
              (is_ready w.1)
              (wait_error (why_interrupted (t.before_error w.0) handle t.done) w.1)
              (err e))
            (rest w.0).1
  waited-judge t rest (d, ok true) e h = simp h refl
  waited-judge t rest (d, ok false) e h =
      simp h (ap (λ x. some (err x)) (why_lem (t.before_error d) handle t.done))
  waited-judge t rest (d, err x) e h = simp h refl

  -- The error of a wait that is interrupted in the turn.
  abbrev interruption : Turn → Dispatcher → Error
  interruption t d =
      why_interrupted (t.before_error (poll_wait_context vpp handle events t (t.before_wait d)).0)
        handle t.done

  settle-judge :
      (t : Turn) (rest : Dispatcher → Run A) (c : Dispatcher × Result A)
      → (settle vpp handle events t rest c).1 ≡ (
          let d' = (poll_wait_context vpp handle events t (t.before_wait c.0)).0 in
          let w = wait_outcome vpp handle events t (t.before_wait c.0) in
          or_else
            (judge
              (is_ready w)
              (wait_error (why_interrupted (t.before_error d') handle t.done) w)
              c.1)
            (rest d').1)
  settle-judge t rest (d, ok a) = refl
  settle-judge t rest (d, err e) = elim (Bool-cases (is_again_error e)) [
    | inl h ↦
        (simp h refl)
        ∙ waited-judge t rest (poll_wait_context vpp handle events t (t.before_wait d)) e h
        ∙ ap
            (λ w.
              or_else (judge (is_ready w) (wait_error (interruption t d) w) (err e))
                (rest (poll_wait_context vpp handle events t (t.before_wait d)).0).1)
            (wait_outcome_lem vpp handle events t (t.before_wait d))
    | inr h ↦ simp h refl
  ]

  retry-first_verdict :
      (ts : List Turn) (d : Dispatcher)
      → (retry vpp handle events attempt ts d).1 ≡ first_verdict (attempts ts d)
  unfolding retry
  retry-first_verdict [] d = refl
  retry-first_verdict (t ∷ ts) d =
      settle-judge t (retry vpp handle events attempt ts) (called t d)
      ∙ ap
          (or_else
            (judge (attempt_of t d).ready (attempt_of t d).interrupted (attempt_of t d).answer))
          (retry-first_verdict ts (parked t d).0)

  pub retry_iff :
      (ts : List Turn) (d : Dispatcher) (r : Result A)
      → ((retry vpp handle events attempt ts d).1 ≡ some r) ↔ Returns (attempts ts d) r
  retry_iff ts d r = rw (retry-first_verdict ts d) (first_verdict_iff (attempts ts d) r)

-- Each of the five calls, whatever the other goroutines do to the dispatcher between its steps, returns
-- `r` exactly if some turn settles it as `r` and no turn before settles anything: a turn settles the call
-- if `sessionCall` gives anything but EAGAIN, or if the wait after it finds no readiness. A wait finds
-- readiness if a worker takes the waiter and parks it, and the waiter is woken before its caller is done,
-- or as no worker is left to cancel it, or is not parked when it is canceled. Without readiness the call
-- gives a canceled wait if its `done` is closed or its session is still open, and otherwise, for an
-- unknown handle or a dispatcher that stops, that the poller is closed; on a listener it panics.
pub call2-Returns :
    (vpp : Vpp) (handle : Vlsh) (op : Op) (ts : List Turn) (d : Dispatcher) (r : Result (Reply op))
    → ((call2 vpp handle op ts d).1 ≡ some r)
      ↔ Returns (attempts vpp handle (events_of op) (attempt_call vpp handle op) ts d) r
call2-Returns vpp handle (read len) ts d r =
    retry_iff vpp handle epoll_in (attempt_call vpp handle (read len)) ts d r
call2-Returns vpp handle (write len) ts d r =
    retry_iff vpp handle epoll_out (attempt_call vpp handle (write len)) ts d r
call2-Returns vpp handle (send_to len addr) ts d r =
    retry_iff vpp handle epoll_out (attempt_call vpp handle (send_to len addr)) ts d r
call2-Returns vpp handle (recv_from len) ts d r =
    retry_iff vpp handle epoll_in (attempt_call vpp handle (recv_from len)) ts d r
call2-Returns vpp handle accept_full ts d r =
    retry_iff vpp handle epoll_in (attempt_call vpp handle accept_full) ts d r
