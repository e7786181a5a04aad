-- ===== src/Queries/Mode3.antt =====
-- internal/vclpoll/cgo.go, lines 783 to 788, 1036 to 1065, 1348 to 1382, 1530 to 1565 and 1675 to 1690:
-- the calls of the shared-worker mode that `pin` wraps.
use vclnet.Base.{
  ℕ, ℤ, List, [], ◌∷◌, ◌++◌, ◌≡◌, refl, some, ◌==◌, ◌||◌, Bool, true, false, if◌then◌else◌, arith,
}
use vclnet.Errors.{Result}
use vclnet.Io.Mode3.{Event, vls_call, poll_unregister, enter_vls, exit_vls}
use vclnet.Io.Locks.{free, follow}
use vclnet.Queries.Raw.{
  Query, shutdown, connect_error, local_addr, peer_addr, set_v6only, Value, Outcome, raw_query,
  raw_close_result, raw_add_cert_key_pair, raw_del_cert_key_pair,
}

-- `defer pin()()` around what the call does.
unfoldable pub pin {ℓ} : {A : Type ℓ} → List Event → A → List Event × A
pin body a = (enter_vls ++ body ++ exit_vls, a)

-- The calls of libvppcom that a query makes: for a connect error `vlsh_to_sh` comes first.
abbrev pub query_calls : Query → Outcome → List Event
query_calls connect_error o = vls_call ∷ (if o.resolved then vls_call ∷ [] else [])
query_calls _ o = vls_call ∷ []

-- `mode3Shutdown`, `mode3SessionConnectError`, `mode3GetLocalAddr`, `mode3GetPeerAddr` and
-- `mode3SetV6Only`.
unfoldable pub query3 : (q : Query) → Outcome → List Event × Result (Value q)
unfolding pin
query3 q o = pin (query_calls q o) (raw_query q o)

-- `mode3Close`; `pollUnregister` waits for the poller before the thread is pinned.
unfoldable pub mode3_close : ℤ → List Event × Result (Unit {0})
unfolding pin
mode3_close rv =
    let (es, r) = pin (vls_call ∷ []) (raw_close_result rv) in (poll_unregister ∷ es, r)

-- `mode3CloseVLSH`
unfoldable pub mode3_close_vlsh : ℤ → List Event
unfolding pin
mode3_close_vlsh rv = poll_unregister ∷ (pin (vls_call ∷ []) rv).0

-- `mode3AddCertKeyPair`
unfoldable pub mode3_add_cert_key_pair : ℕ → ℕ → ℤ → List Event × Result ℕ
unfolding pin
mode3_add_cert_key_pair cert_len key_len rv =
    pin (if cert_len == 0 || key_len == 0 then [] else vls_call ∷ [])
      (raw_add_cert_key_pair cert_len key_len rv)

-- `mode3DelCertKeyPair`
unfoldable pub mode3_del_cert_key_pair : ℤ → List Event × Result (Unit {0})
unfolding pin
mode3_del_cert_key_pair rv = pin (vls_call ∷ []) (raw_del_cert_key_pair rv)

-- A query, a close and the calls on key pairs are each made on a locked and registered thread that
-- holds the read lock, and release lock and thread, whatever libvppcom answers; the poller is told of
-- a close before the lock is taken.
pub queries-follow :
    (q : Query) (o : Outcome) (cert_len key_len : ℕ) (rv : ℤ)
    → (follow free (query3 q o).0 ≡ some free)
      × (follow free (mode3_close rv).0 ≡ some free)
      × (follow free (mode3_close_vlsh rv) ≡ some free)
      × (follow free (mode3_add_cert_key_pair cert_len key_len rv).0 ≡ some free)
      × (follow free (mode3_del_cert_key_pair rv).0 ≡ some free)
unfolding follow query3 mode3_close mode3_close_vlsh mode3_add_cert_key_pair mode3_del_cert_key_pair
queries-follow q o cert_len key_len rv =
    (query_calls-follow q o, refl, refl, body-follow (cert_len == 0 || key_len == 0), refl)
  where
    query_calls-follow :
        (r : Query) (p : Outcome)
        → follow free (enter_vls ++ query_calls r p ++ exit_vls) ≡ some free
    query_calls-follow (shutdown how) p = refl
    query_calls-follow connect_error p = ground (arith)
    query_calls-follow local_addr p = refl
    query_calls-follow peer_addr p = refl
    query_calls-follow (set_v6only b) p = refl

    body-follow :
        (b : Bool)
        → follow free (enter_vls ++ (if b then [] else vls_call ∷ []) ++ exit_vls) ≡ some free
    body-follow true = refl
    body-follow false = refl
