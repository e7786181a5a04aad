-- ===== src/Io/Waits.antt =====
-- internal/vclpoll/mode2.go, lines 126 to 142, 324 to 341 and 560 to 621: what a wait of the multi-worker
-- mode finds, described apart from its steps.
use vclnet.Base.{
  ℕ, Bool, true, false, Option, none, some, not, ◌||◌, if◌then◌else◌, lookup, int_eq, get_elem?,
  ◌≡◌, refl, ap, ◌∙◌, Bool-cases, Option-cases, inl, inr,
}
use vclnet.Errors.{Error, poll_closed, wait_canceled, panicked, Result, ok, err}
use vclnet.Wait.{Vlsh}
use vclnet.Worker.Defs.{Vpp, Worker, add_waiter}
use vclnet.Worker.Leave.{cancel_waiter}
use vclnet.Mode2.Defs.{Dispatcher, Owner, session, listener, lookup_ref, submit, put_worker}
use vclnet.Io.Mode2.{
  Turn, poll_wait_context, wait_interrupted_error, interrupted_lookup, Branch, waiter_ready,
  done_closed, worker_quiesced, waiter_of, add_result, cancel_result, or_woken, selected,
  after_submit, wait_on,
}

-- Why a wait was interrupted, by the entry of the handle and whether the dispatcher stops: the caller's
-- `done`, an unknown handle or a stop, or, while the session is open, a canceled wait.
abbrev why_open : Option Owner → Bool → Error
why_open none stopping = poll_closed
why_open (some (session i raw)) true = poll_closed
why_open (some (session i raw)) false = wait_canceled
why_open (some (listener shards)) stopping = panicked

abbrev pub why_interrupted : Dispatcher → Vlsh → Bool → Error
why_interrupted d handle true = wait_canceled
why_interrupted d handle false = why_open (lookup handle d.owners) d.stopping

open_lem :
    (d : Dispatcher) (handle : Vlsh) (o : Option Owner)
    → lookup handle d.owners ≡ o
    → interrupted_lookup d (lookup_ref d handle) ≡ why_open o d.stopping
unfolding lookup_ref
open_lem d handle none e = rw (e, lookup_ref) (unfold interrupted_lookup in refl)
open_lem d handle (some (session i raw)) e =
    rw (e, lookup_ref) (unfold interrupted_lookup in stopping_lem d.stopping)
  where
    stopping_lem :
        (b : Bool) → (if b then poll_closed else wait_canceled) ≡ why_open (some (session i raw)) b
    stopping_lem true = refl
    stopping_lem false = refl
open_lem d handle (some (listener shards)) e =
    rw (e, lookup_ref) (unfold interrupted_lookup in refl)

pub why_lem :
    (d : Dispatcher) (handle : Vlsh) (done : Bool)
    → wait_interrupted_error d handle done ≡ why_interrupted d handle done
unfolding wait_interrupted_error
why_lem d handle true = refl
why_lem d handle false = open_lem d handle (lookup handle d.owners) refl

-- The worker that takes an operation, if one does: none once the dispatcher or the worker has stopped.
abbrev unless_quiesced : Worker → Bool → Option Worker
unless_quiesced w true = none
unless_quiesced w false = some w

abbrev if_serving : Option Worker → Option Worker
if_serving none = none
if_serving (some w) = unless_quiesced w w.quiesced

abbrev worker_of : Dispatcher → ℕ → Bool → Option Worker
worker_of d i true = none
worker_of d i false = if_serving (get_elem? d.workers i)

abbrev taking : Dispatcher → ℕ → Option Worker
taking d i = worker_of d i (d.stopping || not d.app_live)

abbrev taken_by {ℓ} :
    {A : Type ℓ}
    → Dispatcher
    → (Worker → Dispatcher × Result A)
    → Option Worker
    → Dispatcher × Result A
taken_by d run none = (d, err poll_closed)
taken_by d run (some w) = run w

submit_lem {ℓ} :
    {A : Type ℓ} (d : Dispatcher) (i : ℕ) (run : Worker → Dispatcher × Result A)
    → submit d i run ≡ taken_by d run (taking d i)
unfolding submit
submit_lem d i run = elim (Bool-cases (d.stopping || not d.app_live)) [
  | inl e ↦ rw e refl
  | inr e ↦ rw e (elim (Option-cases (get_elem? d.workers i)) [
    | inl none_there ↦ rw none_there refl
    | inr (w, there) ↦ rw there (serving w w.quiesced)
  ])
]
  where
    serving :
        (w : Worker) (b : Bool)
        → (if b then (d, err poll_closed) else run w) ≡ taken_by d run (unless_quiesced w b)
    serving w true = refl
    serving w false = refl

-- What a wait finds, none of its own steps hidden: nothing without an entry, a panic on a listener's; no
-- readiness if no worker takes the waiter or it cannot be parked; else what the branch says, where a
-- caller that is done finds the waiter woken if no worker cancels it in time.
module _ (vpp : Vpp) (handle : Vlsh) (events : ℕ) (t : Turn) where
  abbrev canceled_by : ℕ → Vlsh → Option Worker → Result Bool
  canceled_by i raw none = ok t.woken
  canceled_by i raw (some w) = ok (cancel_waiter vpp w handle raw (waiter_of handle events t)).1

  abbrev branched : Dispatcher → ℕ → Vlsh → Branch → Result Bool
  branched d i raw waiter_ready = ok true
  branched d i raw done_closed = canceled_by i raw (taking (t.before_cancel d) i)
  branched d i raw worker_quiesced = ok false

  abbrev parked_with : Dispatcher → ℕ → Vlsh → Worker × Option Error → Result Bool
  parked_with d i raw (w, some e) = ok false
  parked_with d i raw (w, none) = branched (put_worker d i w) i raw t.branch

  abbrev waits_on : Dispatcher → ℕ → Vlsh → Option Worker → Result Bool
  waits_on d i raw none = ok false
  waits_on d i raw (some w) =
      parked_with d i raw (add_waiter vpp w handle raw (waiter_of handle events t))

  abbrev found_wait : Dispatcher → Option Owner → Result Bool
  found_wait d none = ok false
  found_wait d (some (session i raw)) = waits_on d i raw (taking d i)
  found_wait d (some (listener shards)) = err panicked

  abbrev pub wait_outcome : Dispatcher → Result Bool
  wait_outcome d = found_wait d (lookup handle d.owners)

  cancel_lem :
      (d : Dispatcher) (i : ℕ) (raw : Vlsh) (o : Option Worker)
      → (or_woken vpp handle events t i raw (
          taken_by d
            (λ w.
              cancel_result vpp handle events t i raw d
                (cancel_waiter vpp w handle raw (waiter_of handle events t)))
            o)).1
        ≡ canceled_by i raw o
  cancel_lem d i raw none = refl
  cancel_lem d i raw (some w) = refl

  selected_lem :
      (d : Dispatcher) (i : ℕ) (raw : Vlsh) (b : Branch)
      → (selected vpp handle events t i raw b d).1 ≡ branched d i raw b
  selected_lem d i raw waiter_ready = refl
  selected_lem d i raw worker_quiesced = refl
  selected_lem d i raw done_closed =
      ap (λ r. (or_woken vpp handle events t i raw r).1) (submit_lem (t.before_cancel d) i _)
      ∙ cancel_lem (t.before_cancel d) i raw (taking (t.before_cancel d) i)

  parked_lem :
      (d : Dispatcher) (i : ℕ) (raw : Vlsh) (r : Worker × Option Error)
      → (after_submit vpp handle events t i raw (add_result vpp handle events t i raw d r)).1
        ≡ parked_with d i raw r
  parked_lem d i raw (w, none) = selected_lem (put_worker d i w) i raw t.branch
  parked_lem d i raw (w, some e) = refl

  waits_lem :
      (d : Dispatcher) (i : ℕ) (raw : Vlsh) (o : Option Worker)
      → (after_submit vpp handle events t i raw (
          taken_by d
            (λ w.
              add_result vpp handle events t i raw d
                (add_waiter vpp w handle raw (waiter_of handle events t)))
            o)).1
        ≡ waits_on d i raw o
  waits_lem d i raw none = refl
  waits_lem d i raw (some w) =
      parked_lem d i raw (add_waiter vpp w handle raw (waiter_of handle events t))

  found_lem :
      (d : Dispatcher) (o : Option Owner)
      → lookup handle d.owners ≡ o
      → (wait_on vpp handle events t d (lookup_ref d handle)).1 ≡ found_wait d o
  unfolding lookup_ref wait_on
  found_lem d none e = rw (e, lookup_ref) refl
  found_lem d (some (session i raw)) e =
      rw (e, lookup_ref)
        (ap (λ r. (after_submit vpp handle events t i raw r).1) (submit_lem d i _)
          ∙ waits_lem d i raw (taking d i))
  found_lem d (some (listener shards)) e = rw (e, lookup_ref) refl

  pub wait_outcome_lem :
      (d : Dispatcher) → (poll_wait_context vpp handle events t d).1 ≡ wait_outcome d
  unfolding poll_wait_context
  wait_outcome_lem d = found_lem d (lookup handle d.owners) refl
