-- ===== src/Queries/Mode2.antt =====
-- internal/vclpoll/mode2.go, lines 237 to 256, 406 to 418 and 455 to 502: the calls of the multi-worker
-- mode that ask libvppcom once.
use vclnet.Base.{ℕ, ℤ, List, [], ◌∷◌, Bool, none, some}
use vclnet.Errors.{panicked, Result, ok, err}
use vclnet.Wait.{Vlsh}
use vclnet.Worker.Defs.{Vpp, Worker}
use vclnet.Mode2.Defs.{Dispatcher, put_worker, submit, session_call, pick_worker}
use vclnet.Shards.Defs.{ListenerShard}
use vclnet.Shards.Close.{lookup_sharded_listener}
use vclnet.Queries.Raw.{
  Query, shutdown, connect_error, local_addr, peer_addr, set_v6only, Value, Outcome, raw_query,
  raw_add_cert_key_pair, raw_del_cert_key_pair,
}

-- The operation that asks about a raw handle.
abbrev pub ask :
    (q : Query) → (Vlsh → Outcome) → Dispatcher → ℕ → Worker → Vlsh → Dispatcher × Result (Value q)
ask q answers d i w raw = (put_worker d i w, raw_query q (answers raw))

-- `shutdown`, `sessionConnectError` and `getPeerAddr`, and the others for a session.
unfoldable pub ask_session :
    Vpp → (q : Query) → (Vlsh → Outcome) → Dispatcher → Vlsh → Dispatcher × Result (Value q)
unfolding session_call put_worker raw_query
ask_session vpp q answers d public = session_call vpp d public (ask q answers)

-- The operation on a shard, which does not look the handle up.
unfoldable pub ask_shard :
    (q : Query) → (Vlsh → Outcome) → Dispatcher → ListenerShard → Dispatcher × Result (Value q)
unfolding submit raw_query
ask_shard q answers d (i, raw) = submit d i (λ w. (d, raw_query q (answers raw)))

-- The local address of a listener is that of its first shard.
unfoldable pub first_shard_addr :
    (Vlsh → Outcome) → Dispatcher → List ListenerShard → Dispatcher × Result (Value local_addr)
unfolding ask_shard
first_shard_addr answers d [] = (d, err panicked)
first_shard_addr answers d (s ∷ ss) = ask_shard local_addr answers d s

-- `if err != nil { return err }`
abbrev pub unless_refused :
    (Dispatcher → Dispatcher × Result (Unit {0}))
    → Dispatcher × Result (Unit {0})
    → Dispatcher × Result (Unit {0})
unless_refused rest (d, ok u) = rest d
unless_refused rest (d, err e) = (d, err e)

-- The option is set on one shard after the other, up to the first that refuses.
unfoldable pub set_shards :
    Bool → (Vlsh → Outcome) → Dispatcher → List ListenerShard → Dispatcher × Result (Unit {0})
unfolding ask_shard
set_shards b answers d [] = (d, ok tt)
set_shards b answers d (s ∷ ss) =
    unless_refused (λ d'. set_shards b answers d' ss) (ask_shard (set_v6only b) answers d s)

-- `getLocalAddr`
unfoldable pub get_local_addr :
    Vpp → (Vlsh → Outcome) → Dispatcher → Vlsh → Dispatcher × Result (Value local_addr)
unfolding lookup_sharded_listener first_shard_addr ask_session
get_local_addr vpp answers d public = elim (lookup_sharded_listener d public) [
  | some shards ↦ first_shard_addr answers d shards
  | none ↦ ask_session vpp local_addr answers d public
]

-- `setV6Only`
unfoldable pub set_v6_only :
    Vpp → Bool → (Vlsh → Outcome) → Dispatcher → Vlsh → Dispatcher × Result (Unit {0})
unfolding lookup_sharded_listener set_shards ask_session
set_v6_only vpp b answers d public = elim (lookup_sharded_listener d public) [
  | some shards ↦ set_shards b answers d shards
  | none ↦ ask_session vpp (set_v6only b) answers d public
]

-- The five calls.
unfoldable pub query2 :
    Vpp → (q : Query) → (Vlsh → Outcome) → Dispatcher → Vlsh → Dispatcher × Result (Value q)
unfolding get_local_addr set_v6_only ask_session
query2 vpp (shutdown how) answers d public = ask_session vpp (shutdown how) answers d public
query2 vpp connect_error answers d public = ask_session vpp connect_error answers d public
query2 vpp local_addr answers d public = get_local_addr vpp answers d public
query2 vpp peer_addr answers d public = ask_session vpp peer_addr answers d public
query2 vpp (set_v6only b) answers d public = set_v6_only vpp b answers d public

-- `addCertKeyPair`
unfoldable pub add_cert_key_pair : ℕ → ℕ → ℤ → Dispatcher → Dispatcher × Result ℕ
unfolding pick_worker submit raw_add_cert_key_pair
add_cert_key_pair cert_len key_len rv d =
    let (d', i) = pick_worker d in
    submit d' i (λ w. (d', raw_add_cert_key_pair cert_len key_len rv))

-- `delCertKeyPair`
unfoldable pub del_cert_key_pair : ℤ → Dispatcher → Dispatcher × Result (Unit {0})
unfolding pick_worker submit raw_del_cert_key_pair
del_cert_key_pair rv d =
    let (d', i) = pick_worker d in submit d' i (λ w. (d', raw_del_cert_key_pair rv))
