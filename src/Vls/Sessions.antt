-- ===== src/Vls/Sessions.antt =====
-- internal/vclpoll/cgo.go: the Go functions that create sessions, which pin their thread and call the
-- C ones, and what becomes of the return values.
use vclnet.Base.{ℕ, ℤ, List, Bool, Option, if◌then◌else◌}
use vclnet.Errors.{Result, ok, err, vpp_err}
use vclnet.Wait.{Vlsh}
use vclnet.Vls.Addr.{Ip4, ip_be, port_be}
use vclnet.Vls.Calls.{Calls, ◌>>=◌, return, is_negative}
use vclnet.Vls.Create.{parse_connect_result, finish_blocking_connect}
use vclnet.Vls.Variants

-- `if rv < 0 { return invalidVLSH, vppErr(…) }`, then `return VLSH(rv), nil`.
abbrev pub handle_or_error : ℤ → Calls (Result Vlsh)
handle_or_error rv = return (if is_negative rv then err (vpp_err rv) else ok rv)

abbrev pub mode3_listen_tcp4 : Ip4 → ℕ → ℕ → Calls (Result Vlsh)
mode3_listen_tcp4 ip port backlog =
    Variants.listen_tcp4_nb (ip_be ip) (port_be port) backlog >>= handle_or_error

abbrev pub mode3_listen_tcp6 : List ℕ → ℕ → ℕ → Calls (Result Vlsh)
mode3_listen_tcp6 ip port backlog =
    Variants.listen_tcp6_nb ip (port_be port) backlog >>= handle_or_error

abbrev pub raw_listen_tls4 : Ip4 → ℕ → ℕ → ℕ → Calls (Result Vlsh)
raw_listen_tls4 ip port backlog ckp =
    Variants.listen_tls4_nb (ip_be ip) (port_be port) backlog ckp >>= handle_or_error

abbrev pub raw_listen_tls6 : List ℕ → ℕ → ℕ → ℕ → Calls (Result Vlsh)
raw_listen_tls6 ip port backlog ckp =
    Variants.listen_tls6_nb ip (port_be port) backlog ckp >>= handle_or_error

abbrev pub mode3_bind_udp4 : Ip4 → ℕ → Calls (Result Vlsh)
mode3_bind_udp4 ip port = Variants.bind_udp4_nb (ip_be ip) (port_be port) >>= handle_or_error

abbrev pub mode3_bind_udp6 : List ℕ → ℕ → Calls (Result Vlsh)
mode3_bind_udp6 ip port = Variants.bind_udp6_nb ip (port_be port) >>= handle_or_error

abbrev pub mode3_dial_tcp4 : Ip4 → ℕ → Calls (Result Vlsh)
mode3_dial_tcp4 ip port =
    Variants.connect_tcp4_nb (ip_be ip) (port_be port) >>= finish_blocking_connect

abbrev pub mode3_dial_tcp6 : List ℕ → ℕ → Calls (Result Vlsh)
mode3_dial_tcp6 ip port = Variants.connect_tcp6_nb ip (port_be port) >>= finish_blocking_connect

abbrev pub mode3_connect_udp4 : Ip4 → ℕ → Calls (Result Vlsh)
mode3_connect_udp4 ip port =
    Variants.connect_udp4_nb (ip_be ip) (port_be port) >>= finish_blocking_connect

abbrev pub mode3_connect_udp6 : List ℕ → ℕ → Calls (Result Vlsh)
mode3_connect_udp6 ip port = Variants.connect_udp6_nb ip (port_be port) >>= finish_blocking_connect

abbrev pub mode3_connect_tcp4_start : Ip4 → ℕ → Calls (Result (Vlsh × Bool))
mode3_connect_tcp4_start ip port =
    Variants.connect_tcp4_start (ip_be ip) (port_be port) >>= parse_connect_result

abbrev pub mode3_connect_tcp6_start : List ℕ → ℕ → Calls (Result (Vlsh × Bool))
mode3_connect_tcp6_start ip port =
    Variants.connect_tcp6_start ip (port_be port) >>= parse_connect_result

abbrev pub mode3_connect_udp4_start : Ip4 → ℕ → Calls (Result (Vlsh × Bool))
mode3_connect_udp4_start ip port =
    Variants.connect_udp4_nb (ip_be ip) (port_be port) >>= parse_connect_result

abbrev pub mode3_connect_udp6_start : List ℕ → ℕ → Calls (Result (Vlsh × Bool))
mode3_connect_udp6_start ip port =
    Variants.connect_udp6_nb ip (port_be port) >>= parse_connect_result

abbrev pub raw_connect_tls4_start : Ip4 → ℕ → Option ℕ → Calls (Result (Vlsh × Bool))
raw_connect_tls4_start ip port ckp =
    Variants.connect_tls4_start (ip_be ip) (port_be port) ckp >>= parse_connect_result

abbrev pub raw_connect_tls6_start : List ℕ → ℕ → Option ℕ → Calls (Result (Vlsh × Bool))
raw_connect_tls6_start ip port ckp =
    Variants.connect_tls6_start ip (port_be port) ckp >>= parse_connect_result

-- The functions that create a listener or a bound socket, with their arguments.
pub data Listener : Type 0 where
  tcp4_listener : Ip4 → ℕ → ℕ → Listener
  tcp6_listener : List ℕ → ℕ → ℕ → Listener
  tls4_listener : Ip4 → ℕ → ℕ → ℕ → Listener
  tls6_listener : List ℕ → ℕ → ℕ → ℕ → Listener
  udp4_socket : Ip4 → ℕ → Listener
  udp6_socket : List ℕ → ℕ → Listener

abbrev pub create_listener : Listener → Calls (Result Vlsh)
create_listener (tcp4_listener ip port backlog) = mode3_listen_tcp4 ip port backlog
create_listener (tcp6_listener ip port backlog) = mode3_listen_tcp6 ip port backlog
create_listener (tls4_listener ip port backlog ckp) = raw_listen_tls4 ip port backlog ckp
create_listener (tls6_listener ip port backlog ckp) = raw_listen_tls6 ip port backlog ckp
create_listener (udp4_socket ip port) = mode3_bind_udp4 ip port
create_listener (udp6_socket ip port) = mode3_bind_udp6 ip port

-- The functions that start a connect and do not wait for it.
pub data Starter : Type 0 where
  tcp4_start udp4_start : Ip4 → ℕ → Starter
  tcp6_start udp6_start : List ℕ → ℕ → Starter
  tls4_start : Ip4 → ℕ → Option ℕ → Starter
  tls6_start : List ℕ → ℕ → Option ℕ → Starter

abbrev pub connect_start : Starter → Calls (Result (Vlsh × Bool))
connect_start (tcp4_start ip port) = mode3_connect_tcp4_start ip port
connect_start (tcp6_start ip port) = mode3_connect_tcp6_start ip port
connect_start (udp4_start ip port) = mode3_connect_udp4_start ip port
connect_start (udp6_start ip port) = mode3_connect_udp6_start ip port
connect_start (tls4_start ip port ckp) = raw_connect_tls4_start ip port ckp
connect_start (tls6_start ip port ckp) = raw_connect_tls6_start ip port ckp

-- The functions that wait for the connect that they start.
pub data Dial : Type 0 where
  tcp4_dial udp4_dial : Ip4 → ℕ → Dial
  tcp6_dial udp6_dial : List ℕ → ℕ → Dial

abbrev pub connect_blocking : Dial → Calls (Result Vlsh)
connect_blocking (tcp4_dial ip port) = mode3_dial_tcp4 ip port
connect_blocking (tcp6_dial ip port) = mode3_dial_tcp6 ip port
connect_blocking (udp4_dial ip port) = mode3_connect_udp4 ip port
connect_blocking (udp6_dial ip port) = mode3_connect_udp6 ip port
