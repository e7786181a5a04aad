-- ===== src/Queries/Tests.antt =====
-- A session and a listener with two shards, and the theorems at them.
use vclnet.Base.{◌≡◌, ◌↔◌, refl, some, none, [], ◌∷◌, true, false, pos, negsuc, All, lookup}
use vclnet.Errors.{Error, ok, err, errno}
use vclnet.Wait.{Vlsh}
use vclnet.Worker.Defs.{Vpp, Worker}
use vclnet.Mode2.Defs.{Dispatcher, session, listener, put_worker}
use vclnet.Io.Locks.{free, follow}
use vclnet.Queries.Raw.{connect_error, set_v6only, Outcome, raw_query}
use vclnet.Queries.Mode3.{
  query3, mode3_close, mode3_close_vlsh, mode3_add_cert_key_pair, mode3_del_cert_key_pair,
  queries-follow,
}
use vclnet.Queries.Mode2.{ask_shard, query2, set_v6_only}
use vclnet.Queries.Agree.{query2-query3, set_v6_only-accepts}

abbrev willing : Vpp
willing = record {
  add_ok = λ _ _ _. true;
  mod_ok = λ _ _ _. true;
  ctl_error = λ _ _. Error.eof;
  session_worker = λ _. some 3;
  close_error = λ _. none;
}

-- Handle 1 stands for raw handle 7.
abbrev open_worker : Worker
open_worker = record {
  vcl_index = 3;
  sessions = (pos 1, pos 7) ∷ [];
  waiters = [];
  woken = [];
  calls = [];
  closed_raw = [];
  violations = 0;
  ep_open = true;
  quiesced = false;
}

-- Handle 2 stands for a listener with a shard on the one worker.
abbrev one_open : Dispatcher
one_open = record {
  workers = open_worker ∷ [];
  owners = (pos 1, session 0 (pos 7)) ∷ (pos 2, listener ((0, pos 8) ∷ [])) ∷ [];
  rr = 0;
  next_handle = 2;
  stopping = false;
  app_live = true;
}

-- The connect of raw handle 7 was refused, and all else succeeds.
abbrev refusing : Vlsh → Outcome
refusing raw = record {
  answer = record {
    rv = negsuc 110;
    peer = record { is_ip4 = true; ip = 10 ∷ 0 ∷ 0 ∷ 1 ∷ []; port_be = 80 };
  };
  resolved = true;
}

abbrev accepting : Vlsh → Outcome
accepting raw = record (refusing raw) { answer = record (refusing raw).answer { rv = pos 0 } }

queries-follow_example :
    (follow free (query3 connect_error (refusing (pos 7))).0 ≡ some free)
    × (follow free (mode3_close (negsuc 8)).0 ≡ some free)
    × (follow free (mode3_close_vlsh (negsuc 8)) ≡ some free)
    × (follow free (mode3_add_cert_key_pair 700 900 (negsuc 8)).0 ≡ some free)
    × (follow free (mode3_del_cert_key_pair (negsuc 8)).0 ≡ some free)
queries-follow_example = queries-follow connect_error (refusing (pos 7)) 700 900 (negsuc 8)

query2-query3_example :
    query2 willing connect_error refusing one_open (pos 1)
    ≡ (put_worker one_open 0 open_worker, (query3 connect_error (refusing (pos 7))).1)
unfolding lookup
query2-query3_example =
    query2-query3 connect_error refusing
      (record { entry = refl; up = (refl, refl); at = refl; runs = refl; held = refl; own = refl })

connect_refused : (query2 willing connect_error refusing one_open (pos 1)).1 ≡ err (errno 111)
unfolding query2 lookup vclnet.Worker.Defs.owned_raw raw_query vclnet.Errors.vpp_err
connect_refused = refl

set_v6_only-accepts_example :
    ((set_v6_only willing true accepting one_open (pos 2)).1 ≡ ok tt)
    ↔ All (λ s. (ask_shard (set_v6only true) accepting one_open s).1 ≡ ok tt) ((0, pos 8) ∷ [])
unfolding lookup vclnet.Shards.Close.lookup_sharded_listener
set_v6_only-accepts_example =
    set_v6_only-accepts willing true accepting one_open (pos 2) ((0, pos 8) ∷ []) refl
