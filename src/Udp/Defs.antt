-- ===== src/Udp/Defs.antt =====
-- udpconn.go, lines 17 to 179 and 207 to 232: UDP sockets. An operation is one step, a turn of a loop is
-- what it finds; the errors are those inside `opErrorAddr`.
use vclnet.Base.{
  ℕ, ℤ, pos, negsuc, List, [], ◌∷◌, ◌++◌, Bool, true, false, not, ◌||◌, Option, none, some, ltb,
  if◌then◌else◌,
}
use vclnet.Errors.{
  Error, closed, timeout, addr_error, connected_peer, missing_peer, Result, ok, err,
}
use vclnet.Conn.Deadline.{Deadline, new_deadline, set_deadline, interrupt, expired}
use vclnet.Conn.Defs.{World, map_io_error}
use vclnet.Vls.Addr.{Ip4, bytes_of, AddrInfo}

-- A call that a socket makes.
pub data Call : Type 0 where
  close_vls remove_conn : Call

pub record UdpConn : Type 0 where
  pub connected : Bool
  pub is_closed : Bool
  pub close_once : Bool
  pub tracked : Bool
  pub read_deadline : Deadline
  pub write_deadline : Deadline
  pub calls : List Call

-- `newUDPConn`, and the store to `tracked` of the callers that register it.
abbrev pub new_udp_conn : Bool → Bool → UdpConn
new_udp_conn connected tracked = record {
  connected = connected;
  is_closed = false;
  close_once = false;
  tracked = tracked;
  read_deadline = new_deadline;
  write_deadline = new_deadline;
  calls = [];
}

-- `ioStateError` of conn.go, on the flag and a deadline of the socket.
unfoldable pub state_error : World → UdpConn → Deadline → Option Error
unfolding expired
state_error o c dl =
    if c.is_closed || o.shutdown_started
    then some closed
    else if expired o.now dl
    then some timeout
    else none

-- An address that a caller of `WriteTo` gives; the IP is four bytes for `To4`, sixteen for `To16`, or
-- neither.
pub data UdpIp : Type 0 where
  ip4 : Ip4 → UdpIp
  ip6 : List ℕ → UdpIp
  no_ip : UdpIp

pub data Addr : Type 0 where
  nil_addr non_udp : Addr
  udp_addr : UdpIp → ℤ → Addr

abbrev pub twelve_zeros : List ℕ
twelve_zeros = 0 ∷ 0 ∷ 0 ∷ 0 ∷ 0 ∷ 0 ∷ 0 ∷ 0 ∷ 0 ∷ 0 ∷ 0 ∷ 0 ∷ []

abbrev pub with_ip : UdpIp → ℕ → Result AddrInfo
with_ip (ip4 ip) port = ok (record { ip = bytes_of ip ++ twelve_zeros; port = port; is_v4 = true })
with_ip (ip6 ip) port = ok (record { ip = ip; port = port; is_v4 = false })
with_ip no_ip port = err addr_error

abbrev pub with_port : UdpIp → ℤ → Result AddrInfo
with_port ip (pos port) = if ltb 65535 port then err addr_error else with_ip ip port
with_port ip (negsuc n) = err addr_error

-- The tests of `WriteTo` on the address, and `info`.
unfoldable pub addr_info : Addr → Result AddrInfo
addr_info nil_addr = err addr_error
addr_info non_udp = err addr_error
addr_info (udp_addr ip port) = with_port ip port

-- One turn of a loop: the socket and the world as the turn finds them, what the call returns, if the
-- turn makes it, and, for `WriteTo`, the socket and the world after a wait that was interrupted.
pub record Round : Type 0 where
  pub conn : UdpConn
  pub world : World
  pub count : ℕ
  pub peer : AddrInfo
  pub error : Option Error
  pub conn_after : UdpConn
  pub world_after : World

-- What has been given to VLS, in order, and the result, or none while the call has not returned.
pub record Run {ℓ} (A : Type ℓ) : Type ℓ where
  pub sent : List AddrInfo
  pub result : Option (Result A)

abbrev pub done {ℓ} : {A : Type ℓ} → Result A → Run A
done r = record { sent = []; result = some r }

-- After a call: go round again, or return.
abbrev pub after_call {ℓ} :
    {A : Type ℓ} → A → Option (Result A) → Bool × Option Error → Option (Result A)
after_call a rest (true, e) = rest
after_call a rest (false, some e) = some (err e)
after_call a rest (false, none) = some (ok a)

abbrev pub unless_error {ℓ} : {A : Type ℓ} → Option Error → Option (Result A) → Option (Result A)
unless_error (some e) rest = some (err e)
unless_error none rest = rest

-- `ReadFrom`
unfoldable pub read_from : List Round → Option (Result (ℕ × AddrInfo))
unfolding state_error map_io_error
read_from [] = none
read_from (r ∷ rs) =
    unless_error (state_error r.world r.conn r.conn.read_deadline)
      (after_call (r.count, r.peer) (read_from rs) (map_io_error r.error))

-- `Read`
unfoldable pub read : List Round → Option (Result ℕ)
unfolding state_error map_io_error
read [] = none
read (r ∷ rs) =
    unless_error (state_error r.world r.conn r.conn.read_deadline)
      (after_call r.count (read rs) (map_io_error r.error))

-- The loop of `Write`.
unfoldable pub write_loop : List Round → Option (Result ℕ)
unfolding state_error map_io_error
write_loop [] = none
write_loop (r ∷ rs) =
    unless_error (state_error r.world r.conn r.conn.write_deadline)
      (after_call r.count (write_loop rs) (map_io_error r.error))

-- `Write`; `c` and `o` are what the tests before the loop see.
unfoldable pub write : World → UdpConn → List Round → Option (Result ℕ)
unfolding state_error write_loop
write o c rs =
    unless_error (state_error o c c.write_deadline)
      (if not c.connected then some (err missing_peer) else write_loop rs)

-- The end of a turn of `WriteTo`, which has sent to `info`.
abbrev pub sent_to : AddrInfo → ℕ → Option Error → Run ℕ → Bool × Option Error → Run ℕ
sent_to info n state rest (true, e) = elim state [
  | some x ↦ record { sent = info ∷ []; result = some (err x) }
  | none ↦ record { sent = info ∷ rest.sent; result = rest.result }
]
sent_to info n state rest (false, some e) = record { sent = info ∷ []; result = some (err e) }
sent_to info n state rest (false, none) = record { sent = info ∷ []; result = some (ok n) }

-- The loop of `WriteTo`.
unfoldable pub write_to_loop : AddrInfo → List Round → Run ℕ
unfolding state_error map_io_error
write_to_loop info [] = record { sent = []; result = none }
write_to_loop info (r ∷ rs) =
    sent_to info r.count (state_error r.world_after r.conn_after r.conn_after.write_deadline)
      (write_to_loop info rs) (map_io_error r.error)

abbrev pub write_checked : Result AddrInfo → List Round → Run ℕ
write_checked (err e) rs = done (err e)
write_checked (ok info) rs = write_to_loop info rs

abbrev pub write_connected : Bool → Addr → List Round → Run ℕ
write_connected true addr rs = done (err connected_peer)
write_connected false addr rs = write_checked (addr_info addr) rs

abbrev pub write_in_state : Option Error → UdpConn → Addr → List Round → Run ℕ
write_in_state (some e) c addr rs = done (err e)
write_in_state none c addr rs = write_connected c.connected addr rs

-- `WriteTo`; `c` and `o` are what the tests before the loop see.
unfoldable pub write_to : World → UdpConn → Addr → List Round → Run ℕ
unfolding state_error addr_info write_to_loop
write_to o c addr rs = write_in_state (state_error o c c.write_deadline) c addr rs

-- `Close`
unfoldable pub close_udp : World → UdpConn → UdpConn × Option Error
close_udp o c =
    let vls = if o.shutdown_started then c.calls else close_vls ∷ c.calls in
    let c' = record c {
      close_once = true;
      is_closed = true;
      read_deadline = interrupt c.read_deadline;
      write_deadline = interrupt c.write_deadline;
      calls = if c.tracked then remove_conn ∷ vls else vls;
    } in
    if c.close_once then (c, none) else (c', if o.shutdown_started then none else o.answer)

-- `closedStateError` of conn.go, on the flag of the socket.
unfoldable pub deadline_state_error : World → UdpConn → Option Error
deadline_state_error o c = if c.is_closed || o.shutdown_started then some closed else none

abbrev unless_closed : Option Error → UdpConn → UdpConn → UdpConn × Option Error
unless_closed (some e) c c' = (c, some e)
unless_closed none c c' = (c', none)

-- `SetReadDeadline`
unfoldable pub set_read_deadline : Option ℕ → World → UdpConn → UdpConn × Option Error
unfolding deadline_state_error
set_read_deadline t o c =
    unless_closed (deadline_state_error o c) c
      (record c { read_deadline = set_deadline o.now t c.read_deadline })

-- `SetWriteDeadline`
unfoldable pub set_write_deadline : Option ℕ → World → UdpConn → UdpConn × Option Error
unfolding deadline_state_error
set_write_deadline t o c =
    unless_closed (deadline_state_error o c) c
      (record c { write_deadline = set_deadline o.now t c.write_deadline })

-- `SetDeadline`
unfoldable pub set_both_deadlines : Option ℕ → World → UdpConn → UdpConn × Option Error
unfolding deadline_state_error
set_both_deadlines t o c = unless_closed (deadline_state_error o c) c (record c {
  read_deadline = set_deadline o.now t c.read_deadline;
  write_deadline = set_deadline o.now t c.write_deadline;
})
