-- ===== src/Vls/Variants.antt =====
-- internal/vclpoll/cgo.go, lines 79 to 129, 215 to 337, 367 to 411, 506 to 587 and 624 to 659: the
-- functions that create sessions, one for each protocol and version of IP.
use vclnet.Base.{ℕ, List, true, false, Option}
use vclnet.Vls.Addr.{ip_of_be, bytes_of}
use vclnet.Vls.Calls.{tcp, udp, Endpoint, Calls}
use vclnet.Base.{ℤ}
use vclnet.Vls.Create.{
  listen_tcp_nb, listen_tls_nb, bind_udp_nb, Connecting, connect_nb, connect_tls_start,
}

-- `ep.is_ip4`, `ep.ip` and `ep.port`, as the functions fill them.
unfoldable pub endpoint4 : ℕ → ℕ → Endpoint
unfolding ip_of_be
endpoint4 ip4_be port_be = record {
  is_ip4 = true;
  ip = bytes_of (ip_of_be ip4_be);
  port_be = port_be;
}

unfoldable pub endpoint6 : List ℕ → ℕ → Endpoint
endpoint6 ip port_be = record { is_ip4 = false; ip = ip; port_be = port_be }

abbrev pub listen_tcp4_nb : ℕ → ℕ → ℕ → Calls ℤ
listen_tcp4_nb ip port_be backlog = listen_tcp_nb (endpoint4 ip port_be) backlog

abbrev pub listen_tcp6_nb : List ℕ → ℕ → ℕ → Calls ℤ
listen_tcp6_nb ip port_be backlog = listen_tcp_nb (endpoint6 ip port_be) backlog

abbrev pub listen_tls4_nb : ℕ → ℕ → ℕ → ℕ → Calls ℤ
listen_tls4_nb ip port_be backlog ckp = listen_tls_nb (endpoint4 ip port_be) backlog ckp

abbrev pub listen_tls6_nb : List ℕ → ℕ → ℕ → ℕ → Calls ℤ
listen_tls6_nb ip port_be backlog ckp = listen_tls_nb (endpoint6 ip port_be) backlog ckp

abbrev pub bind_udp4_nb : ℕ → ℕ → Calls ℤ
bind_udp4_nb ip port_be = bind_udp_nb (endpoint4 ip port_be)

abbrev pub bind_udp6_nb : List ℕ → ℕ → Calls ℤ
bind_udp6_nb ip port_be = bind_udp_nb (endpoint6 ip port_be)

abbrev pub connect_tcp4_nb : ℕ → ℕ → Calls Connecting
connect_tcp4_nb ip port_be = connect_nb tcp (endpoint4 ip port_be)

abbrev pub connect_tcp6_nb : List ℕ → ℕ → Calls Connecting
connect_tcp6_nb ip port_be = connect_nb tcp (endpoint6 ip port_be)

abbrev pub connect_udp4_nb : ℕ → ℕ → Calls Connecting
connect_udp4_nb ip port_be = connect_nb udp (endpoint4 ip port_be)

abbrev pub connect_udp6_nb : List ℕ → ℕ → Calls Connecting
connect_udp6_nb ip port_be = connect_nb udp (endpoint6 ip port_be)

abbrev pub connect_tcp4_start : ℕ → ℕ → Calls Connecting
connect_tcp4_start ip port_be = connect_nb tcp (endpoint4 ip port_be)

abbrev pub connect_tcp6_start : List ℕ → ℕ → Calls Connecting
connect_tcp6_start ip port_be = connect_nb tcp (endpoint6 ip port_be)

abbrev pub connect_tls4_start : ℕ → ℕ → Option ℕ → Calls Connecting
connect_tls4_start ip port_be ckp = connect_tls_start ckp (endpoint4 ip port_be)

abbrev pub connect_tls6_start : List ℕ → ℕ → Option ℕ → Calls Connecting
connect_tls6_start ip port_be ckp = connect_tls_start ckp (endpoint6 ip port_be)
