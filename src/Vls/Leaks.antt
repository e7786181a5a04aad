-- ===== src/Vls/Leaks.antt =====
-- What the functions that create sessions leave open: internal/vclpoll/cgo.go, lines 76 to 129, 210 to
-- 411, 501 to 587, 619 to 659, 904 to 929 and 1311 to 1326.
use vclnet.Base.{ℕ, ℤ, List, ◌∷◌, Bool, Option, none, some, ◌≡◌, arith, int_eq}
use vclnet.Errors.{Result, ok, err}
use vclnet.Wait.{Vlsh}
use vclnet.Vls.Calls.{
  Proto, tcp, udp, tls, Endpoint, Call, create, Vls, Calls, ◌>>=◌, open_after, opened_by,
  remove_first,
}
use vclnet.Vls.Create.{
  listen_tcp_nb, listen_tls_nb, bind_udp_nb, bind_and_listen, Connecting, connect_nb,
  connect_tls_start, parse_connect_result,
}
use vclnet.Vls.Addr.{ip_be, port_be}
use vclnet.Vls.Variants.{endpoint4, endpoint6}
use vclnet.Vls.Sessions.{
  Listener, tcp4_listener, tcp6_listener, tls4_listener, tls6_listener, udp4_socket, udp6_socket,
  create_listener, handle_or_error, Starter, tcp4_start, tcp6_start, udp4_start, udp6_start,
  tls4_start, tls6_start, connect_start,
}

pub remove_first_self : (v : Vlsh) (xs : List Vlsh) → remove_first v (v ∷ xs) ≡ xs
unfolding remove_first
remove_first_self v xs = ground (arith, int_eq.beq_iff v v)

-- What running `m` after `log` leaves open, where `left` is open besides the session it returns.
module _ (vls : Vls) (log : List Call) where
  listen_tcp_nb-open :
      (ep : Endpoint) (backlog : ℕ)
      → let (log', rv) = listen_tcp_nb ep backlog vls log in
        open_after vls log' ≡ opened_by rv (open_after vls log)
  unfolding listen_tcp_nb bind_and_listen open_after opened_by
  listen_tcp_nb-open ep backlog =
      ground (arith, remove_first_self (vls.answer log (create tcp)) (open_after vls log))

  listen_tls_nb-open :
      (ep : Endpoint) (backlog ckp : ℕ)
      → let (log', rv) = listen_tls_nb ep backlog ckp vls log in
        open_after vls log' ≡ opened_by rv (open_after vls log)
  unfolding listen_tls_nb bind_and_listen open_after opened_by
  listen_tls_nb-open ep backlog ckp =
      ground (arith, remove_first_self (vls.answer log (create tls)) (open_after vls log))

  bind_udp_nb-open :
      (ep : Endpoint)
      → let (log', rv) = bind_udp_nb ep vls log in
        open_after vls log' ≡ opened_by rv (open_after vls log)
  unfolding bind_udp_nb bind_and_listen open_after opened_by
  bind_udp_nb-open ep =
      ground (arith, remove_first_self (vls.answer log (create udp)) (open_after vls log))

-- The sessions of a result, added to those that are open.
unfoldable pub opened_handle : Result Vlsh → List Vlsh → List Vlsh
unfolding opened_by
opened_handle (ok v) left = opened_by v left
opened_handle (err e) left = left

handle_or_error-open :
    (rv : ℤ) (vls : Vls) (log : List Call) (left : List Vlsh)
    → open_after vls log ≡ opened_by rv left
    → let (log', r) = handle_or_error rv vls log in open_after vls log' ≡ opened_handle r left
unfolding opened_by opened_handle
handle_or_error-open rv vls log left e = ground (arith, e)

listening :
    (m : Calls ℤ) (vls : Vls) (log : List Call)
    → let (log1, rv) = m vls log in
      open_after vls log1 ≡ opened_by rv (open_after vls log)
      → let (log', r) = (m >>= handle_or_error) vls log in
        open_after vls log' ≡ opened_handle r (open_after vls log)
listening m vls log e =
    let (log1, rv) = m vls log in handle_or_error-open rv vls log1 (open_after vls log) e

-- A function that creates a listener or a bound socket leaves open, besides what was open before, the
-- session that it returns if it returns one, and nothing if it returns an error.
pub create_listener-open :
    (vls : Vls) (l : Listener) (log : List Call)
    → let (log', r) = create_listener l vls log in
      open_after vls log' ≡ opened_handle r (open_after vls log)
unfolding listen_tcp_nb listen_tls_nb bind_udp_nb
create_listener-open vls (tcp4_listener ip port backlog) log =
    listening (listen_tcp_nb (endpoint4 (ip_be ip) (port_be port)) backlog) vls log
      (listen_tcp_nb-open vls log (endpoint4 (ip_be ip) (port_be port)) backlog)
create_listener-open vls (tcp6_listener ip port backlog) log =
    listening (listen_tcp_nb (endpoint6 ip (port_be port)) backlog) vls log
      (listen_tcp_nb-open vls log (endpoint6 ip (port_be port)) backlog)
create_listener-open vls (tls4_listener ip port backlog ckp) log =
    listening (listen_tls_nb (endpoint4 (ip_be ip) (port_be port)) backlog ckp) vls log
      (listen_tls_nb-open vls log (endpoint4 (ip_be ip) (port_be port)) backlog ckp)
create_listener-open vls (tls6_listener ip port backlog ckp) log =
    listening (listen_tls_nb (endpoint6 ip (port_be port)) backlog ckp) vls log
      (listen_tls_nb-open vls log (endpoint6 ip (port_be port)) backlog ckp)
create_listener-open vls (udp4_socket ip port) log =
    listening (bind_udp_nb (endpoint4 (ip_be ip) (port_be port))) vls log
      (bind_udp_nb-open vls log (endpoint4 (ip_be ip) (port_be port)))
create_listener-open vls (udp6_socket ip port) log =
    listening (bind_udp_nb (endpoint6 ip (port_be port))) vls log
      (bind_udp_nb-open vls log (endpoint6 ip (port_be port)))

pub connect_nb-open :
    (vls : Vls) (proto : Proto) (ep : Endpoint) (log : List Call)
    → let (log', r) = connect_nb proto ep vls log in
      open_after vls log' ≡ opened_by r.out_vlsh (open_after vls log)
unfolding connect_nb open_after opened_by
connect_nb-open vls proto ep log = ground arith

connect_tls_start-open :
    (vls : Vls) (ckp : Option ℕ) (ep : Endpoint) (log : List Call)
    → let (log', r) = connect_tls_start ckp ep vls log in
      open_after vls log' ≡ opened_by r.out_vlsh (open_after vls log)
unfolding connect_tls_start open_after opened_by
connect_tls_start-open vls none ep log = ground arith
connect_tls_start-open vls (some idx) ep log = ground arith

unfoldable pub opened_result : Result (Vlsh × Bool) → List Vlsh → List Vlsh
unfolding opened_by
opened_result (ok s) left = opened_by s.0 left
opened_result (err e) left = left

parse-open :
    (vls : Vls) (c : Connecting) (log : List Call) (left : List Vlsh)
    → open_after vls log ≡ opened_by c.out_vlsh left
    → let (log', r) = parse_connect_result c vls log in open_after vls log' ≡ opened_result r left
unfolding parse_connect_result opened_result open_after opened_by
parse-open vls c log left e = ground (arith, e, remove_first_self c.out_vlsh left)

starting :
    (m : Calls Connecting) (vls : Vls) (log : List Call)
    → let (log1, r) = m vls log in
      open_after vls log1 ≡ opened_by r.out_vlsh (open_after vls log)
      → let (log', s) = (m >>= parse_connect_result) vls log in
        open_after vls log' ≡ opened_result s (open_after vls log)
starting m vls log e = let (log1, r) = m vls log in parse-open vls r log1 (open_after vls log) e

-- A connect that is started and not waited for leaves open, besides what was open before, the session
-- that it returns if it returns one, and nothing if it returns an error.
connect_start-open :
    (vls : Vls) (c : Starter) (log : List Call)
    → let (log', s) = connect_start c vls log in
      open_after vls log' ≡ opened_result s (open_after vls log)
unfolding connect_nb connect_tls_start
connect_start-open vls (tcp4_start ip port) log =
    starting (connect_nb tcp (endpoint4 (ip_be ip) (port_be port))) vls log
      (connect_nb-open vls tcp (endpoint4 (ip_be ip) (port_be port)) log)
connect_start-open vls (tcp6_start ip port) log =
    starting (connect_nb tcp (endpoint6 ip (port_be port))) vls log
      (connect_nb-open vls tcp (endpoint6 ip (port_be port)) log)
connect_start-open vls (udp4_start ip port) log =
    starting (connect_nb udp (endpoint4 (ip_be ip) (port_be port))) vls log
      (connect_nb-open vls udp (endpoint4 (ip_be ip) (port_be port)) log)
connect_start-open vls (udp6_start ip port) log =
    starting (connect_nb udp (endpoint6 ip (port_be port))) vls log
      (connect_nb-open vls udp (endpoint6 ip (port_be port)) log)
connect_start-open vls (tls4_start ip port ckp) log =
    starting (connect_tls_start ckp (endpoint4 (ip_be ip) (port_be port))) vls log
      (connect_tls_start-open vls ckp (endpoint4 (ip_be ip) (port_be port)) log)
connect_start-open vls (tls6_start ip port ckp) log =
    starting (connect_tls_start ckp (endpoint6 ip (port_be port))) vls log
      (connect_tls_start-open vls ckp (endpoint6 ip (port_be port)) log)
