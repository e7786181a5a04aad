-- ===== src/Shards/Tests.antt =====
-- The theorems on sharded listeners at concrete runs.
use vclnet.Base.{ℕ, zero, suc, ◌+◌, ◌≡◌, refl, pos, [], ◌∷◌, true, false, none, some, int_eq}
use vclnet.Errors.{Error, errno, Result, ok, err}
use vclnet.Wait.{Vlsh}
use vclnet.Worker.Defs.{Vpp, Worker}
use vclnet.Wait.Sets.{count}
use vclnet.Mode2.Defs.{Dispatcher}
use vclnet.Shards.Defs.{new_sharded_listener}
use vclnet.Shards.Create.{Listens, new_sharded_listener-Listens}
use vclnet.Shards.Loops.{
  Fan, Reach, init, later, enters, accepts, stops, drops, drains, start_accept_loops, moved, accept,
  accepting, accepted, drop_result, drain, all_ended,
}
use vclnet.Shards.Account.{sessions_after_close}

-- Two workers; the second cannot bind.
abbrev willing : Vpp
willing = record {
  add_ok = λ _ _ _. true;
  mod_ok = λ _ _ _. true;
  ctl_error = λ _ _. Error.eof;
  session_worker = λ _. some 3;
  close_error = λ _. none;
}

abbrev idle_worker : Worker
idle_worker = record {
  vcl_index = 3;
  sessions = [];
  waiters = [];
  woken = [];
  calls = [];
  closed_raw = [];
  violations = 0;
  ep_open = true;
  quiesced = false;
}

abbrev two_workers : Dispatcher
two_workers = record {
  workers = idle_worker ∷ idle_worker ∷ [];
  owners = [];
  rr = 0;
  next_handle = 0;
  stopping = false;
  app_live = true;
}

abbrev both_bind : ℕ → Result Vlsh
both_bind zero = ok (pos 5)
both_bind (suc n) = ok (pos 6)

abbrev one_binds : ℕ → Result Vlsh
one_binds zero = ok (pos 5)
one_binds (suc n) = err (errno 98)

new_sharded_listener-Listens_example :
    Listens two_workers both_bind (new_sharded_listener willing both_bind two_workers)
new_sharded_listener-Listens_example = new_sharded_listener-Listens willing both_bind two_workers

bind_failed : (new_sharded_listener willing one_binds two_workers).1 ≡ err (errno 98)
unfolding new_sharded_listener vclnet.Worker.Defs.check_ownership vclnet.Mode2.Defs.put_worker
bind_failed = refl

-- One loop registers session 7, and returns because the listener is closed before it can send it.
abbrev accepted_one : Fan
accepted_one = accept 0 7 (moved 0 accepting (start_accept_loops 1))

abbrev stopped_one : Fan
stopped_one = record accepted_one { stop = true }

closing : Reach 1 (drain (drop_result 0 (accepted 7) stopped_one))
unfolding accept drop_result all_ended
closing =
    later
      (later (later (later (later init (enters 0 refl refl)) (accepts 0 7 refl)) (stops refl))
        (drops 0 (accepted 7) refl refl))
      (drains refl refl)

sessions_after_close_example :
    count 7 (drain (drop_result 0 (accepted 7) stopped_one)).taken
    ≡ count 7 (drain (drop_result 0 (accepted 7) stopped_one)).delivered
      + count 7 (drain (drop_result 0 (accepted 7) stopped_one)).closed
      + count 7 (drain (drop_result 0 (accepted 7) stopped_one)).dropped
      + count 7 (drain (drop_result 0 (accepted 7) stopped_one)).abandoned
unfolding drain
sessions_after_close_example = sessions_after_close 7 closing refl
