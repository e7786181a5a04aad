-- ===== src/Setup/Listen.antt =====
-- vclnet.go, lines 100 to 154 and 177 to 231, and tls.go, lines 181 to 242: how an address becomes a
-- listener or a packet socket. What the resolver and the dispatcher answer is a parameter.
use vclnet.Base.{ℕ, List, ◌∷◌, Bool, true, false, Option, none, some, ◌==◌, not, int_eq}
use vclnet.Errors.{Error, closed, unknown_network, addr_error, Result, ok, err}
use vclnet.Wait.{Vlsh}
use vclnet.Addr.Resolve.{Network, Ip, v4, v6, parse_network, is_udp}
use vclnet.Vls.Calls.{remove_first}

-- The sessions that are open, and those of the listeners and packet sockets that are registered; the
-- last one first.
pub record World : Type 0 where
  pub opened : List Vlsh
  pub tracked : List Vlsh

-- What the resolver gives for the address, with the port, and what the dispatcher answers: the
-- creating call for IPv4 and IPv6, `SetV6Only`, `GetLocalAddr`.
pub record Answers : Type 0 where
  pub resolved : Result (Ip × ℕ)
  pub create4 : Result Vlsh
  pub create6 : Result Vlsh
  pub set_v6_only : Option Error
  pub local_addr : Option Error

-- The guards, then the rest.
abbrev pub and_then {ℓ κ} :
    {A : Type ℓ} {B : Type κ} → World × Result A → (World → A → World × Result B) → World × Result B
and_then (w, ok a) k = k w a
and_then (w, err e) k = (w, err e)

abbrev pub check {ℓ} :
    {A : Type ℓ} → Bool → Error → World → (World → World × Result A) → World × Result A
check true e w k = (w, err e)
check false e w k = k w

-- A session that the dispatcher has created is open.
abbrev pub created : World → Result Vlsh → World × Result Vlsh
created w (ok v) = (record w { opened = v ∷ w.opened }, ok v)
created w (err e) = (w, err e)

-- `if err != nil { _ = vclpoll.Close(vlsh) }` and the return.
abbrev pub close_on_error : World → Vlsh → Option Error → World × Result Vlsh
close_on_error w v none = (w, ok v)
close_on_error w v (some e) = (record w { opened = remove_first v w.opened }, err e)

abbrev pub v6_only_set : Bool → Answers → World → Vlsh → World × Result Vlsh
v6_only_set false a w v = (w, ok v)
v6_only_set true a w v = close_on_error w v a.set_v6_only

-- The choice between IPv4 and IPv6.
abbrev pub create_v6 : Bool → Answers → World → World × Result Vlsh
create_v6 only a w = and_then (created w a.create6) (v6_only_set only a)

abbrev pub create_for : Bool → Answers → World → Ip → World × Result Vlsh
create_for false a w (v4 ip) = created w a.create4
create_for true a w (v4 ip) = create_v6 true a w
create_for only a w (v6 ip) = create_v6 only a w

-- `newTCPListener` or `newPacketConn`, and its registration.
abbrev pub track : World → Vlsh → World × Result Vlsh
track w v = (record w { tracked = v ∷ w.tracked }, ok v)

-- From the choice of the version to the end.
abbrev pub open_and_track : Bool → Answers → World → Ip → World × Result Vlsh
open_and_track only a w ip =
    and_then (create_for only a w ip) (λ w v. and_then (close_on_error w v a.local_addr) track)

-- From `resolveAddr` on, where `prepare` stands for what `ListenTLS` does in between.
abbrev pub resolve_and_open :
    Bool → Answers → (World → World × Result (Unit {0})) → World → World × Result Vlsh
resolve_and_open only a prepare w =
    and_then (w, a.resolved)
      (λ w (ip, port).
        check (port == 0) addr_error w
          (λ w. and_then (prepare w) (λ w u. open_and_track only a w ip)))

-- `Listen`
unfoldable pub listen : Bool → Network → Answers → World → World × Result Vlsh
unfolding parse_network is_udp remove_first
listen shutdown_started network a w = check shutdown_started closed w (λ w.
    and_then (w, parse_network network)
      (λ w families.
        check (is_udp network) unknown_network w (resolve_and_open families.1 a (λ w. (w, ok tt)))))

-- `ListenPacket`
unfoldable pub listen_packet : Bool → Network → Answers → World → World × Result Vlsh
unfolding parse_network is_udp remove_first
listen_packet shutdown_started network a w = check shutdown_started closed w (λ w.
    and_then (w, parse_network network)
      (λ w families.
        check (not (is_udp network)) unknown_network w
          (resolve_and_open families.1 a (λ w. (w, ok tt)))))

-- `ListenTLS`, by what `validate` and `resolveCKPair` give.
unfoldable pub listen_tls :
    Bool → Network → Result (Unit {0}) → Result (Unit {0}) → Answers → World → World × Result Vlsh
unfolding parse_network is_udp remove_first
listen_tls shutdown_started network validated ckpair a w = check shutdown_started closed w (λ w.
    and_then (w, validated)
      (λ w u.
        and_then (w, parse_network network)
          (λ w families.
            check (is_udp network) unknown_network w
              (resolve_and_open families.1 a (λ w. (w, ckpair))))))

-- The three functions, with what only one of them takes.
pub data Kind : Type 0 where
  tcp_listener packet_conn : Kind
  tls_listener : Result (Unit {0}) → Result (Unit {0}) → Kind

abbrev pub listen_as : Kind → Bool → Network → Answers → World → World × Result Vlsh
listen_as tcp_listener down network a w = listen down network a w
listen_as packet_conn down network a w = listen_packet down network a w
listen_as (tls_listener validated ckpair) down network a w =
    listen_tls down network validated ckpair a w
