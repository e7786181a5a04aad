-- ===== src/Io/Tests.antt =====
-- The theorems on calls that are tried again, at concrete turns.
use vclnet.Base.{
  ℕ, pos, negsuc, List, [], ◌∷◌, Bool, true, false, Option, none, some, ◌≡◌, refl, ◌↔◌, int_eq,
}
use vclnet.Errors.{Error, errno, eagain, wait_canceled, poll_closed, Result, ok, err}
use vclnet.Wait.{Vlsh, epoll_in}
use vclnet.Worker.Defs.{Vpp, Worker}
use vclnet.Mode2.Defs.{Dispatcher, session}
use vclnet.Io.Raw.{Op, read, Answer, raw, events_of}
use vclnet.Io.Spec.{Returns}
use vclnet.Io.Mode3
use vclnet.Io.Mode3.{call3}
use vclnet.Io.Mode2
use vclnet.Io.Mode2.{call2, attempt_call}
use vclnet.Io.Locks.{follow, free, call3-follow}
use vclnet.Io.Refines.{call3-Returns, interrupted_by}
use vclnet.Io.Refines
use vclnet.Io.Refines2.{call2-Returns}
use vclnet.Io.Refines2

-- EAGAIN and a wait, then five bytes.
abbrev nothing_yet : Answer
nothing_yet = record { rv = negsuc 10; peer = record { is_ip4 = true; ip = []; port_be = 0 } }

abbrev five_bytes : Answer
five_bytes = record { rv = pos 5; peer = record { is_ip4 = true; ip = []; port_be = 0 } }

abbrev turn3 : Answer → Bool → Mode3.Turn
turn3 a ready = record { app_live = true; answer = a; ready = ready }

abbrev turns3 : List Mode3.Turn
turns3 = turn3 nothing_yet true ∷ turn3 five_bytes true ∷ []

call3-Returns_example :
    ((call3 (read 8) turns3).1 ≡ some (ok 5))
    ↔ Returns (Refines.attempts (interrupted_by (read 8)) (raw (read 8)) turns3) (ok 5)
call3-Returns_example = call3-Returns (read 8) turns3 (ok 5) refl

read_twice : (call3 (read 8) turns3).1 ≡ some (ok 5)
unfolding Mode3.mode3_read_context vclnet.Errors.is_again
read_twice = refl

call3-follow_example : follow free (call3 (read 8) turns3).0 ≡ some free
call3-follow_example = call3-follow (read 8) turns3

-- One worker with session 1, whose raw handle is 7.
abbrev willing : Vpp
willing = record {
  add_ok = λ _ _ _. true;
  mod_ok = λ _ _ _. true;
  ctl_error = λ _ _. Error.eof;
  session_worker = λ _. some 3;
  close_error = λ _. none;
}

abbrev reader : Dispatcher
reader = record {
  workers =
      record {
        vcl_index = 3;
        sessions = (pos 1, pos 7) ∷ [];
        waiters = [];
        woken = [];
        calls = [];
        closed_raw = [];
        violations = 0;
        ep_open = true;
        quiesced = false;
      }
      ∷ [];
  owners = (pos 1, session 0 (pos 7)) ∷ [];
  rr = 0;
  next_handle = 1;
  stopping = false;
  app_live = true;
}

abbrev turn2 : Answer → Mode2.Branch → Mode2.Turn
turn2 a b = record {
  before_call = λ d. d;
  answer = a;
  before_wait = λ d. d;
  waiter_id = 0;
  branch = b;
  before_cancel = λ d. d;
  woken = false;
  before_error = λ d. d;
  done = true;
}

abbrev turns2 : List Mode2.Turn
turns2 = turn2 nothing_yet Mode2.waiter_ready ∷ turn2 five_bytes Mode2.waiter_ready ∷ []

call2-Returns_example :
    ((call2 willing (pos 1) (read 8) turns2 reader).1 ≡ some (ok 5))
    ↔ Returns
        (Refines2.attempts willing
          (pos 1)
          epoll_in
          (attempt_call willing (pos 1) (read 8))
          turns2
          reader)
        (ok 5)
call2-Returns_example = call2-Returns willing (pos 1) (read 8) turns2 reader (ok 5)

read_twice2 : (call2 willing (pos 1) (read 8) turns2 reader).1 ≡ some (ok 5)
unfolding Mode2.retry vclnet.Mode2.Defs.session_call vclnet.Base.lookup vclnet.Worker.Defs.owned_raw
    vclnet.Io.Raw.raw_read vclnet.Errors.is_again_error vclnet.Errors.vpp_err
    Mode2.poll_wait_context
read_twice2 = refl

canceled :
    (call2 willing (pos 1) (read 8) (turn2 nothing_yet Mode2.done_closed ∷ []) reader).1
    ≡ some (err wait_canceled)
unfolding Mode2.retry vclnet.Mode2.Defs.session_call vclnet.Base.lookup vclnet.Worker.Defs.owned_raw
    vclnet.Io.Raw.raw_read vclnet.Errors.is_again_error vclnet.Errors.vpp_err
    Mode2.poll_wait_context vclnet.Base.insert vclnet.Wait.has Mode2.wait_interrupted_error
canceled = refl
