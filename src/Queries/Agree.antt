-- ===== src/Queries/Agree.antt =====
-- internal/vclpoll/cgo.go, lines 1036 to 1065 and 1530 to 1565, and mode2.go, lines 406 to 418 and 455 to
-- 502: what a query answers in the two modes.
use vclnet.Base.{◌≡◌, refl, sym, ap, ◌∙◌, ◌↔◌, List, [], ◌∷◌, Bool, none, some, ℕ, All, arith}
use vclnet.Errors.{Result, ok, err}
use vclnet.Wait.{Vlsh}
use vclnet.Worker.Defs.{Vpp, Worker}
use vclnet.Mode2.Defs.{Dispatcher, put_worker, submit}
use vclnet.Mode2.Close.{IsOpen, session_call_open}
use vclnet.Shards.Defs.{ListenerShard}
use vclnet.Shards.Close.{lookup_sharded_listener}
use vclnet.Queries.Raw.{
  Query, shutdown, connect_error, local_addr, peer_addr, set_v6only, Outcome, raw_query,
}
use vclnet.Queries.Mode3.{query3}
use vclnet.Queries.Mode2.{
  ask, ask_session, ask_shard, unless_refused, set_shards, get_local_addr, set_v6_only, query2,
}

module _ {vpp : Vpp} {d : Dispatcher} {public : Vlsh} {i : ℕ} {w : Worker} {raw : Vlsh} where
  open_ask_session :
      (q : Query) (answers : Vlsh → Outcome)
      → IsOpen vpp d public i w raw
      → ask_session vpp q answers d public ≡ (put_worker d i w, raw_query q (answers raw))
  unfolding ask_session
  open_ask_session q answers o = session_call_open vpp d public i w raw (ask q answers) o

  open_unsharded : IsOpen vpp d public i w raw → lookup_sharded_listener d public ≡ none
  unfolding lookup_sharded_listener
  open_unsharded o = ground (arith, o)

  -- For a session that is registered with a running worker which owns it, each query answers in the
  -- multi-worker mode what the shared-worker mode answers for the raw handle, and the worker stays as
  -- it is.
  pub query2-query3 :
      (q : Query) (answers : Vlsh → Outcome)
      → IsOpen vpp d public i w raw
      → query2 vpp q answers d public ≡ (put_worker d i w, (query3 q (answers raw)).1)
  unfolding query2 query3
  query2-query3 (shutdown how) answers o = open_ask_session (shutdown how) answers o
  query2-query3 connect_error answers o = open_ask_session connect_error answers o
  query2-query3 peer_addr answers o = open_ask_session peer_addr answers o
  query2-query3 local_addr answers o =
      rw (open_unsharded o, get_local_addr) (open_ask_session local_addr answers o)
  query2-query3 (set_v6only b) answers o =
      rw (open_unsharded o, set_v6_only) (open_ask_session (set_v6only b) answers o)

module _ (b : Bool) (answers : Vlsh → Outcome) (d : Dispatcher) where
  ask_shard-keeps : (s : ListenerShard) → (ask_shard (set_v6only b) answers d s).0 ≡ d
  unfolding ask_shard submit
  ask_shard-keeps (i, raw) = ground arith

  refused :
      (r : Dispatcher × Result (Unit {0})) (rest : Dispatcher → Dispatcher × Result (Unit {0}))
      → r.0 ≡ d
      → ((unless_refused rest r).1 ≡ ok tt) ↔ ((r.1 ≡ ok tt) × ((rest d).1 ≡ ok tt))
  refused (c, ok tt) rest e =
      (λ h. (refl, ap (λ x. (rest x).1) (sym e) ∙ h), λ h. ap (λ x. (rest x).1) e ∙ h.1)
  refused (c, err x) rest e = (λ h. absurd (cc), λ h. absurd (cc (h.0)))

  set_shards-accepts :
      (shards : List ListenerShard)
      → ((set_shards b answers d shards).1 ≡ ok tt)
        ↔ All (λ s. (ask_shard (set_v6only b) answers d s).1 ≡ ok tt) shards
  unfolding set_shards
  set_shards-accepts [] = (λ h. tt, λ h. refl)
  set_shards-accepts (s ∷ ss) =
      let r =
        refused (ask_shard (set_v6only b) answers d s) (λ c. set_shards b answers c ss)
          (ask_shard-keeps s) in
      let rest = set_shards-accepts ss in
      (λ h. ((r.0 h).0, rest.0 (r.0 h).1), λ h. r.1 (h.0, rest.1 h.1))

-- Setting `IPV6_V6ONLY` on a sharded listener succeeds exactly when it succeeds on each of its shards.
pub set_v6_only-accepts :
    (vpp : Vpp) (b : Bool) (answers : Vlsh → Outcome) (d : Dispatcher) (public : Vlsh)
    (shards : List ListenerShard)
    → lookup_sharded_listener d public ≡ some shards
    → ((set_v6_only vpp b answers d public).1 ≡ ok tt)
      ↔ All (λ s. (ask_shard (set_v6only b) answers d s).1 ≡ ok tt) shards
unfolding set_v6_only
set_v6_only-accepts vpp b answers d public shards e =
    rw (e, set_v6_only) (set_shards-accepts b answers d shards)
