-- ===== src/Queries/Raw.antt =====
-- internal/vclpoll/cgo.go, lines 184 to 209, 436 to 500, 1220 to 1287 and 1530 to 1565: the calls that
-- ask libvppcom once, by what it returns.
use vclnet.Base.{ℕ, ℤ, pos, negsuc, ◌%◌, ◌^◌, Bool, Option, none, some, ◌==◌, ◌||◌, if◌then◌else◌}
use vclnet.Errors.{errno, Result, ok, err, vpp_err}
use vclnet.Vls.Addr.{AddrInfo, received_addr}
use vclnet.Vls.Calls.{Endpoint, is_negative}
use vclnet.Io.Raw.{Answer, no_addr}

-- What a session is asked: `shutdown` with its direction, the outcome of a connect, the two addresses,
-- and to set the option `IPV6_V6ONLY`.
pub data Query : Type 0 where
  shutdown : ℕ → Query
  connect_error local_addr peer_addr : Query
  set_v6only : Bool → Query

abbrev pub Value : Query → Type 0
Value (shutdown how) = Unit {0}
Value connect_error = Unit {0}
Value local_addr = AddrInfo
Value peer_addr = AddrInfo
Value (set_v6only b) = Unit {0}

-- `if rv < 0 { return vppErr(…) }; return nil`
abbrev pub nil_or_error : ℤ → Result (Unit {0})
nil_or_error rv = if is_negative rv then err (vpp_err rv) else ok tt

abbrev pub ebadf : ℕ
ebadf = 9

abbrev pub einval : ℕ
einval = 22

-- `vclpoll_session_get_connect_error`: the session is asked only if `vlsh_to_sh` knows its handle.
unfoldable pub session_get_connect_error : Bool → ℤ → ℤ
session_get_connect_error resolved rv = if resolved then rv else negsuc 8

-- `rawSessionConnectError`
unfoldable pub raw_session_connect_error : Bool → ℤ → Result (Unit {0})
unfolding session_get_connect_error
raw_session_connect_error resolved rv = nil_or_error (session_get_connect_error resolved rv)

-- `vclpoll_get_local_addr` and `vclpoll_get_peer_addr`: the return value, and the endpoint stored.
unfoldable pub get_local_addr : Answer → ℤ × Option Endpoint
get_local_addr a = if is_negative a.rv then (a.rv, none) else (pos 0, some a.peer)

unfoldable pub get_peer_addr : Answer → ℤ × Option Endpoint
get_peer_addr a = if is_negative a.rv then (a.rv, none) else (pos 0, some a.peer)

-- `addrInfoFromC` of what was stored, in variables that are zero at first.
abbrev pub stored_addr : Option Endpoint → AddrInfo
stored_addr none = no_addr
stored_addr (some ep) = received_addr ep

-- `mode3GetLocalAddr`
unfoldable pub local_addr_result : Answer → Result AddrInfo
unfolding get_local_addr
local_addr_result a =
    let (rv, ep) = get_local_addr a in
    if is_negative rv then err (vpp_err rv) else ok (stored_addr ep)

-- `mode3GetPeerAddr`
unfoldable pub peer_addr_result : Answer → Result AddrInfo
unfolding get_peer_addr
peer_addr_result a =
    let (rv, ep) = get_peer_addr a in
    if is_negative rv then err (vpp_err rv) else ok (stored_addr ep)

-- `rawShutdown`
unfoldable pub raw_shutdown : ℤ → Result (Unit {0})
raw_shutdown rv = nil_or_error rv

-- `mode3SetV6Only`
unfoldable pub set_v6only_result : ℤ → Result (Unit {0})
set_v6only_result rv = nil_or_error rv

-- `resolved` is whether `vlsh_to_sh` knows the handle.
pub record Outcome : Type 0 where
  pub answer : Answer
  pub resolved : Bool

-- The result of a query, in either mode.
unfoldable pub raw_query : (q : Query) → Outcome → Result (Value q)
unfolding raw_session_connect_error local_addr_result peer_addr_result raw_shutdown
    set_v6only_result
raw_query (shutdown how) o = raw_shutdown o.answer.rv
raw_query connect_error o = raw_session_connect_error o.resolved o.answer.rv
raw_query local_addr o = local_addr_result o.answer
raw_query peer_addr o = peer_addr_result o.answer
raw_query (set_v6only b) o = set_v6only_result o.answer.rv

-- `rawClose`
unfoldable pub raw_close_result : ℤ → Result (Unit {0})
raw_close_result rv = nil_or_error rv

-- `vclpoll_add_cert_key_pair`: the return value, and the index stored as a `uint32_t`.
unfoldable pub add_cert_key_pair : ℤ → ℤ × ℕ
add_cert_key_pair (pos n) = (pos 0, n % 2 ^ 32)
add_cert_key_pair (negsuc n) = (negsuc n, 0)

-- `rawAddCertKeyPair`, by the lengths of the two texts.
unfoldable pub raw_add_cert_key_pair : ℕ → ℕ → ℤ → Result ℕ
unfolding add_cert_key_pair
raw_add_cert_key_pair cert_len key_len answer =
    let (rv, idx) = add_cert_key_pair answer in
    if cert_len == 0 || key_len == 0
    then err (errno einval)
    else if is_negative rv
    then err (vpp_err rv)
    else ok idx

-- `rawDelCertKeyPair`
unfoldable pub raw_del_cert_key_pair : ℤ → Result (Unit {0})
raw_del_cert_key_pair rv = nil_or_error rv
