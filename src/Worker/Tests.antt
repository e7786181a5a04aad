-- ===== src/Worker/Tests.antt =====
-- A worker with one session, and the theorems at it.
use vclnet.Base.{refl, [], ◌∷◌, true, false, none, some, lookup, insert, pos, int_eq}
use vclnet.Errors.{Error}
use vclnet.Wait.{Waiter, WaitSet}
use vclnet.Worker.Defs.{Vpp, Worker, add_waiter}
use vclnet.Worker.Leave.{handle_event}
use vclnet.Worker.Invariant.{IsConsistent, interest}
use vclnet.Worker.Turns.{session, wait, event, Turn-Consistent}

-- VPP accepts every call, and every raw handle belongs to VCL worker 3.
abbrev willing : Vpp
willing = record {
  add_ok = λ _ _ _. true;
  mod_ok = λ _ _ _. true;
  ctl_error = λ _ _. Error.eof;
  session_worker = λ _. some 3;
  close_error = λ _. none;
}

abbrev fresh_worker : Worker
fresh_worker = record {
  vcl_index = 3;
  sessions = [];
  waiters = [];
  woken = [];
  calls = [];
  closed_raw = [];
  violations = 0;
  ep_open = true;
  quiesced = false;
}

abbrev reader : Waiter
reader = record { id = 0; vlsh = pos 1; events = 1 }

-- Public handle 1 stands for raw handle 7.
abbrev with_session : Worker
with_session = record fresh_worker { sessions = insert (pos 1) (pos 7) [] }

abbrev with_waiter : Worker
with_waiter = (add_waiter willing with_session (pos 1) (pos 7) reader).0

fresh-Consistent : IsConsistent fresh_worker
unfolding lookup interest
fresh-Consistent = record {
  distinct = tt;
  apart = λ u v raw e f. absurd (cc);
  sets = λ k set e. absurd (cc);
  tracked = λ k e. refl;
  asked = λ k raw e. absurd (cc);
  unasked = λ raw none_has. refl;
}

with_session-Consistent : IsConsistent with_session
unfolding lookup
with_session-Consistent =
    Turn-Consistent {vpp = willing} (session (pos 1) (pos 7) refl (λ u e. absurd (cc)))
      fresh-Consistent

with_waiter-Consistent : IsConsistent with_waiter
unfolding lookup
with_waiter-Consistent =
    Turn-Consistent (wait (pos 1) (pos 7) reader (λ set e. absurd (cc))) with_session-Consistent

Turn-Consistent_example : IsConsistent (handle_event willing with_waiter (pos 1) 1)
Turn-Consistent_example = Turn-Consistent (event (pos 1) 1) with_waiter-Consistent

abbrev just_reader : WaitSet
just_reader = record { waiters = reader ∷ []; events = 1 }
