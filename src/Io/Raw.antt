-- ===== src/Io/Raw.antt =====
-- internal/vclpoll/cgo.go, lines 1186 to 1219 and 1383 to 1413: one attempt of each call, by what
-- libvppcom returns.
use vclnet.Base.{ℕ, ℤ, pos, negsuc, [], ◌∷◌, false, ◌==◌, if◌then◌else◌}
use vclnet.Errors.{Result, ok, err, vpp_err}
use vclnet.Wait.{Vlsh, epoll_in, epoll_out}
use vclnet.Vls.Addr.{AddrInfo, received_addr}
use vclnet.Vls.Calls.{Endpoint, is_negative}

-- The calls, with the lengths of their buffers.
pub data Op : Type 0 where
  read write recv_from : ℕ → Op
  send_to : ℕ → AddrInfo → Op
  accept_full : Op

abbrev pub Reply : Op → Type 0
Reply (read len) = ℕ
Reply (write len) = ℕ
Reply (recv_from len) = ℕ × AddrInfo
Reply (send_to len addr) = ℕ
Reply accept_full = Vlsh × AddrInfo

-- A return value, and the endpoint that libvppcom fills in.
pub record Answer : Type 0 where
  pub rv : ℤ
  pub peer : Endpoint

abbrev pub no_addr : AddrInfo
no_addr = record {
  ip = 0 ∷ 0 ∷ 0 ∷ 0 ∷ 0 ∷ 0 ∷ 0 ∷ 0 ∷ 0 ∷ 0 ∷ 0 ∷ 0 ∷ 0 ∷ 0 ∷ 0 ∷ 0 ∷ [];
  port = 0;
  is_v4 = false;
}

-- `if rv < 0 { return 0, vppErr(…) }`, then `return int(rv), nil`.
abbrev pub count_or_error : ℤ → Result ℕ
count_or_error (pos n) = ok n
count_or_error (negsuc n) = err (vpp_err (negsuc n))

abbrev pub with_addr : Endpoint → Result ℕ → Result (ℕ × AddrInfo)
with_addr peer (ok n) = ok (n, received_addr peer)
with_addr peer (err e) = err e

-- `rawRead`
unfoldable pub raw_read : ℕ → Answer → Result ℕ
raw_read len a = if len == 0 then ok 0 else count_or_error a.rv

-- `rawWrite`
unfoldable pub raw_write : ℕ → Answer → Result ℕ
raw_write len a = if len == 0 then ok 0 else count_or_error a.rv

-- `rawSendTo`
unfoldable pub raw_send_to : ℕ → Answer → Result ℕ
raw_send_to len a = if len == 0 then ok 0 else count_or_error a.rv

-- `rawRecvFrom`
unfoldable pub raw_recv_from : ℕ → Answer → Result (ℕ × AddrInfo)
raw_recv_from len a = if len == 0 then ok (0, no_addr) else with_addr a.peer (count_or_error a.rv)

-- `rawAcceptFull`
unfoldable pub raw_accept_full : Answer → Result (Vlsh × AddrInfo)
unfolding received_addr
raw_accept_full a = if is_negative a.rv then err (vpp_err a.rv) else ok (a.rv, received_addr a.peer)

-- The raw function of a call.
abbrev pub raw : (op : Op) → Answer → Result (Reply op)
raw (read len) a = raw_read len a
raw (write len) a = raw_write len a
raw (recv_from len) a = raw_recv_from len a
raw (send_to len addr) a = raw_send_to len a
raw accept_full a = raw_accept_full a

-- The readiness that a call waits for.
abbrev pub events_of : Op → ℕ
events_of (read len) = epoll_in
events_of (write len) = epoll_out
events_of (recv_from len) = epoll_in
events_of (send_to len addr) = epoll_out
events_of accept_full = epoll_in
