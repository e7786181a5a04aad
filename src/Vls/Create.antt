-- ===== src/Vls/Create.antt =====
-- internal/vclpoll/cgo.go, lines 344 to 362, 904 to 929 and 1311 to 1326, and the bodies that the
-- functions that create sessions share.
use vclnet.Base.{
  ℕ, ℤ, pos, negsuc, Bool, true, false, Option, none, some, if◌then◌else◌, int_eq, not, ◌||◌, ◌&&◌,
}
use vclnet.Errors.{errno, vpp_err, Result, ok, err, is_again, is_in_progress, etimedout}
use vclnet.Wait.{Vlsh, epoll_out}
use vclnet.Vls.Calls.{
  Proto, tcp, udp, tls, Endpoint, create, set_reuseport, set_ckpair, bind, listen, connect, close,
  is_negative, Calls, ◌>>=◌, ◌>>◌, return, epoll_create, epoll_add, epoll_wait, call,
  unless_negative, close_if_negative,
}

-- The end of every listener: `vls_bind`, then `vls_listen`.
unfoldable pub bind_and_listen : Vlsh → Endpoint → ℕ → Calls ℤ
bind_and_listen v ep backlog = do
  rv ← call (bind v ep)
  close_if_negative v rv (do rv ← call (listen v backlog); close_if_negative v rv (return v))

-- The body of `vclpoll_listen_tcp4_nb` and `vclpoll_listen_tcp6_nb`, by the endpoint.
unfoldable pub listen_tcp_nb : Endpoint → ℕ → Calls ℤ
unfolding bind_and_listen
listen_tcp_nb ep backlog = do
  v ← call (create tcp)
  unless_negative v (do call (set_reuseport v); bind_and_listen v ep backlog)

-- The body of `vclpoll_listen_tls4_nb` and `vclpoll_listen_tls6_nb`
unfoldable pub listen_tls_nb : Endpoint → ℕ → ℕ → Calls ℤ
unfolding bind_and_listen
listen_tls_nb ep backlog ckp = do
  v ← call (create tls)
  unless_negative v (do
    call (set_reuseport v)
    rv ← call (set_ckpair v ckp)
    close_if_negative v rv (bind_and_listen v ep backlog))

-- The body of `vclpoll_bind_udp4_nb` and `vclpoll_bind_udp6_nb`
unfoldable pub bind_udp_nb : Endpoint → Calls ℤ
unfolding bind_and_listen
bind_udp_nb ep = do v ← call (create udp); unless_negative v (bind_and_listen v ep 1)

-- The return value of a connecting function, and what it stores in `out_vlsh`.
pub record Connecting : Type 0 where
  pub rv : ℤ
  pub out_vlsh : Vlsh

abbrev pub invalid_vlsh : Vlsh
invalid_vlsh = negsuc 0

-- The body of the functions that connect without TLS, by protocol and endpoint.
unfoldable pub connect_nb : Proto → Endpoint → Calls Connecting
connect_nb proto ep = do
  v ← call (create proto)
  if is_negative v
      then return (record { rv = v; out_vlsh = invalid_vlsh })
      else (do rv ← call (connect v ep); return (record { rv = rv; out_vlsh = v }))

-- The body of `vclpoll_connect_tls4_start` and `vclpoll_connect_tls6_start`; `ckp` is none if `ckp_index_valid`
-- is zero.
unfoldable pub connect_tls_start : Option ℕ → Endpoint → Calls Connecting
connect_tls_start ckp ep = do
  v ← call (create tls)
  if is_negative v then return (record { rv = v; out_vlsh = invalid_vlsh }) else (do
    rv ← elim ckp [ some idx ↦ call (set_ckpair v idx) | none ↦ return (pos 0) ]
    if is_negative rv
        then return (record { rv = rv; out_vlsh = v })
        else (do rv ← call (connect v ep); return (record { rv = rv; out_vlsh = v })))

-- `parseConnectResult`: the session and whether it is connected, or the error.
unfoldable pub parse_connect_result : Connecting → Calls (Result (Vlsh × Bool))
parse_connect_result c =
    if not (is_negative c.rv)
    then return (ok (c.out_vlsh, true))
    else if is_in_progress c.rv || is_again c.rv
    then return (ok (c.out_vlsh, false))
    else if is_negative c.out_vlsh
    then return (err (vpp_err c.rv))
    else (do call (close c.out_vlsh); return (err (vpp_err c.rv)))

-- `vclpoll_wait_once`
unfoldable pub wait_once : Vlsh → ℕ → Calls ℤ
wait_once v events = do
  ep ← call epoll_create
  unless_negative ep (do
    rv ← call (epoll_add ep v events)
    close_if_negative ep rv (do
      n ← call (epoll_wait ep)
      call (close ep)
      return (if is_negative n then n else if int_eq.beq n (pos 0) then pos 0 else pos 1)))

-- `finishBlockingConnect`
unfoldable pub finish_blocking_connect : Connecting → Calls (Result Vlsh)
unfolding wait_once
finish_blocking_connect c =
    if not (is_negative c.rv)
    then return (ok c.out_vlsh)
    else if not (is_in_progress c.rv) && not (is_again c.rv)
    then (if is_negative c.out_vlsh
        then return (err (vpp_err c.rv))
        else (do call (close c.out_vlsh); return (err (vpp_err c.rv))))
    else (do
      w ← wait_once c.out_vlsh epoll_out
      if is_negative w
          then (do call (close c.out_vlsh); return (err (vpp_err w)))
          else if int_eq.beq w (pos 0)
          then (do call (close c.out_vlsh); return (err (errno etimedout)))
          else return (ok c.out_vlsh))
