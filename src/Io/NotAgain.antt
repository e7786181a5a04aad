-- ===== src/Io/NotAgain.antt =====
-- internal/vclpoll/cgo.go and mode2.go: EAGAIN stays inside the calls that are tried again.
use vclnet.Base.{
  ℕ, List, [], ◌∷◌, Bool, true, false, some, ◌≡◌, refl, ◌==◌, if◌then◌else◌, Bool-cases, inl, inr,
  All, ap, sym, ◌∙◌,
}
use vclnet.Errors.{
  Error, panicked, errno, eagain, Result, ok, err, is_again_error, poll_closed, wait_canceled,
}
use vclnet.Wait.{Vlsh}
use vclnet.Worker.Defs.{Vpp}
use vclnet.Mode2.Defs.{Dispatcher, lookup_ref}
use vclnet.Io.Raw.{Op, read, write, recv_from, send_to, accept_full, Answer, events_of, raw}
use vclnet.Io.Spec.{Returns-not_again}
use vclnet.Io.Mode3
use vclnet.Io.Mode3.{
  call3, mode3_read_context, mode3_write_context, mode3_send_to_context, mode3_recv_from_context,
}
use vclnet.Io.Refines.{call3-Returns, is_empty, interrupted_by}
use vclnet.Io.Refines
use vclnet.Io.Waits.{why_interrupted, why_lem, wait_outcome, wait_outcome_lem}
use vclnet.Io.Mode2
use vclnet.Io.Mode2.{
  call2, attempt_call, poll_wait_context, wait_on, no_wait, is_panicked, wait_interrupted_error,
  interrupted_lookup, after_submit, submit_waiter,
}
use vclnet.Io.Refines2.{call2-Returns, wait_error}
use vclnet.Io.Refines2

attempts3-All {ℓ} :
    {A : Type ℓ} (interrupted : Error) (answer : Answer → Result A) (ts : List Mode3.Turn)
    → is_again_error interrupted ≡ false
    → All (λ t. is_again_error t.interrupted ≡ false) (Refines.attempts interrupted answer ts)
attempts3-All interrupted answer [] h = tt
attempts3-All interrupted answer (t ∷ ts) h = (h, attempts3-All interrupted answer ts h)

interrupted_by-not_again : (op : Op) → is_again_error (interrupted_by op) ≡ false
unfolding is_again_error
interrupted_by-not_again (read len) = refl
interrupted_by-not_again (write len) = refl
interrupted_by-not_again (recv_from len) = refl
interrupted_by-not_again (send_to len addr) = refl
interrupted_by-not_again accept_full = refl

empty-ok {ℓ} :
    {A : Type ℓ} (b : Bool) (a : A) (run : Mode3.Run A) (e : Error)
    → b ≡ true
    → ¬ ((if b then ([], some (ok a)) else run).1 ≡ some (err e))
empty-ok true a run e h x = absurd (cc)
empty-ok false a run e h x = absurd (cc)

empty-not_again :
    (op : Op) (ts : List Mode3.Turn) (e : Error)
    → is_empty op ≡ true
    → ¬ ((call3 op ts).1 ≡ some (err e))
unfolding mode3_read_context mode3_write_context mode3_send_to_context mode3_recv_from_context
empty-not_again (read len) ts e h = empty-ok (len == 0) _ _ e h
empty-not_again (write len) ts e h = empty-ok (len == 0) _ _ e h
empty-not_again (send_to len addr) ts e h = empty-ok (len == 0) _ _ e h
empty-not_again (recv_from len) ts e h = empty-ok (len == 0) _ _ e h
empty-not_again accept_full ts e h = absurd (cc)

-- None of the five calls of the shared-worker mode returns EAGAIN, whatever its turns.
call3-not_again : (op : Op) (ts : List Mode3.Turn) → ¬ ((call3 op ts).1 ≡ some (err (errno eagain)))
call3-not_again op ts e = elim (Bool-cases (is_empty op)) [
  | inl h ↦ empty-not_again op ts (errno eagain) h e
  | inr h ↦
      Returns-not_again (Refines.attempts (interrupted_by op) (raw op) ts)
        (attempts3-All (interrupted_by op) (raw op) ts (interrupted_by-not_again op))
        ((call3-Returns op ts (err (errno eagain)) h).0 e)
]

if-not_again :
    (b : Bool) (x y : Error)
    → is_again_error x ≡ false
    → is_again_error y ≡ false
    → is_again_error (if b then x else y) ≡ false
if-not_again true x y hx hy = hx
if-not_again false x y hx hy = hy

interrupted_lookup-not_again :
    (d : Dispatcher) (r : Result (ℕ × Vlsh)) → is_again_error (interrupted_lookup d r) ≡ false
unfolding is_again_error interrupted_lookup
interrupted_lookup-not_again d (ok ref) =
    if-not_again d.stopping poll_closed wait_canceled refl refl
interrupted_lookup-not_again d (err e) = if-not_again (is_panicked e) panicked poll_closed refl refl

wait_interrupted_error-not_again :
    (d : Dispatcher) (handle : Vlsh) (done : Bool)
    → is_again_error (wait_interrupted_error d handle done) ≡ false
unfolding is_again_error wait_interrupted_error
wait_interrupted_error-not_again d handle done =
    if-not_again done wait_canceled (interrupted_lookup d (lookup_ref d handle)) refl
      (interrupted_lookup-not_again d (lookup_ref d handle))

-- A wait ends in no error but a panic.
no_wait-not_again :
    (b : Bool) (x : Error)
    → is_again_error x ≡ false
    → is_again_error (wait_error x (if b then err panicked else ok false)) ≡ false
unfolding is_again_error
no_wait-not_again true x h = refl
no_wait-not_again false x h = h

module _ (vpp : Vpp) (handle : Vlsh) (events : ℕ) (t : Mode2.Turn) (x : Error)
    (hx : is_again_error x ≡ false) where
  module _ (i : ℕ) (r : Vlsh) where
    or_woken-not_again :
        (c : Dispatcher × Result Bool)
        → is_again_error (wait_error x (Mode2.or_woken vpp handle events t i r c).1) ≡ false
    or_woken-not_again (d, ok b) = hx
    or_woken-not_again (d, err e) = hx

    selected-not_again :
        (b : Mode2.Branch) (d : Dispatcher)
        → is_again_error (wait_error x (Mode2.selected vpp handle events t i r b d).1) ≡ false
    selected-not_again Mode2.waiter_ready d = hx
    selected-not_again Mode2.done_closed d =
        or_woken-not_again (Mode2.submit_cancel vpp handle events t i r (t.before_cancel d))
    selected-not_again Mode2.worker_quiesced d = hx

    after_submit-not_again :
        (c : Dispatcher × Result (Unit {0}))
        → is_again_error (wait_error x (after_submit vpp handle events t i r c).1) ≡ false
    after_submit-not_again (d, ok u) = selected-not_again t.branch d
    after_submit-not_again (d, err e) = hx

  wait_on-not_again :
      (d : Dispatcher) (l : Result (ℕ × Vlsh))
      → is_again_error (wait_error x (wait_on vpp handle events t d l).1) ≡ false
  unfolding wait_on
  wait_on-not_again d (ok (i, r)) =
      after_submit-not_again i r (submit_waiter vpp handle events t i r d)
  wait_on-not_again d (err e) = no_wait-not_again (is_panicked e) x hx

wait-not_again :
    (vpp : Vpp) (handle : Vlsh) (events : ℕ) (t : Mode2.Turn) (d : Dispatcher) (x : Error)
    → is_again_error x ≡ false
    → is_again_error (wait_error x (poll_wait_context vpp handle events t d).1) ≡ false
unfolding poll_wait_context
wait-not_again vpp handle events t d x h =
    wait_on-not_again vpp handle events t x h d (lookup_ref d handle)

interrupted-not_again :
    (vpp : Vpp) (handle : Vlsh) (events : ℕ) (t : Mode2.Turn) (d e : Dispatcher)
    → is_again_error
        (wait_error (why_interrupted e handle t.done) (wait_outcome vpp handle events t d))
      ≡ false
interrupted-not_again vpp handle events t d e =
    ap (λ y. is_again_error (wait_error y (wait_outcome vpp handle events t d)))
      (sym (why_lem e handle t.done))
    ∙ ap (λ y. is_again_error (wait_error (wait_interrupted_error e handle t.done) y))
        (sym (wait_outcome_lem vpp handle events t d))
    ∙ wait-not_again vpp handle events t d (wait_interrupted_error e handle t.done)
        (wait_interrupted_error-not_again e handle t.done)

attempts2-All {ℓ} :
    {A : Type ℓ} (vpp : Vpp) (handle : Vlsh) (events : ℕ)
    (attempt : Answer → Dispatcher → Dispatcher × Result A) (ts : List Mode2.Turn) (d : Dispatcher)
    → All
        (λ t. is_again_error t.interrupted ≡ false)
        (Refines2.attempts vpp handle events attempt ts d)
attempts2-All vpp handle events attempt [] d = tt
attempts2-All vpp handle events attempt (t ∷ ts) d =
    let c = attempt t.answer (t.before_call d) in
    let w = poll_wait_context vpp handle events t (t.before_wait c.0) in
    (
      interrupted-not_again vpp handle events t (t.before_wait c.0) (t.before_error w.0),
      attempts2-All vpp handle events attempt ts w.0,
    )

-- None of the five calls of the multi-worker mode returns EAGAIN, whatever VPP answers and the other
-- goroutines do.
call2-not_again :
    (vpp : Vpp) (handle : Vlsh) (op : Op) (ts : List Mode2.Turn) (d : Dispatcher)
    → ¬ ((call2 vpp handle op ts d).1 ≡ some (err (errno eagain)))
call2-not_again vpp handle op ts d e =
    Returns-not_again
      (Refines2.attempts vpp handle (events_of op) (attempt_call vpp handle op) ts d)
      (attempts2-All vpp handle (events_of op) (attempt_call vpp handle op) ts d)
      ((call2-Returns vpp handle op ts d (err (errno eagain))).0 e)
