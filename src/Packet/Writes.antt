-- ===== src/Packet/Writes.antt =====
-- packetconn.go, lines 186 to 231: `WriteTo`.
use vclnet.Base.{
  ℕ, ◌≡◌, List, [], ◌∷◌, Bool, true, false, Option, none, some, if◌then◌else◌, inl, inr, lookup,
  nat_eq, Option-cases,
}
use vclnet.Errors.{Error, closed, timeout, unknown_peer, addr_error, Result, ok, err}
use vclnet.Conn.Defs.{map_io_error}
use vclnet.Packet.Peers.{UdpAddr, PacketConn, addr_to_key}

-- What a test of the socket sees, and what `WriteContext` returns to the turn before it.
pub record Round : Type 0 where
  pub is_closed : Bool
  pub expired : Bool
  pub count : ℕ
  pub error : Option Error

-- The tests for a closed socket and a deadline; `is_closed` is `closed` or `shutdownStarted`.
unfoldable pub state_error : Round → Option Error
state_error r = if r.is_closed then some closed else if r.expired then some timeout else none

after_write : Round → Option (Result ℕ) → Bool × Option Error → Option (Result ℕ)
unfolding state_error
after_write r rest (true, e) = elim (state_error r) [ some x ↦ some (err x) | none ↦ rest ]
after_write r rest (false, some e) = some (err e)
after_write r rest (false, none) = some (ok r.count)

-- The loop of `WriteTo`: none while it has not returned after these turns.
unfoldable pub write_loop : List Round → Option (Result ℕ)
unfolding after_write map_io_error
write_loop [] = none
write_loop (r ∷ rs) = let rest = write_loop rs in after_write r rest (map_io_error r.error)

-- `WriteTo`; none is an address that is nil or no UDP address.
unfoldable pub write_to : PacketConn → Option UdpAddr → Round → List Round → Option (Result ℕ)
unfolding state_error write_loop
write_to pc addr first rs = elim (state_error first) [
  | some e ↦ some (err e)
  | none ↦ elim addr [
    | none ↦ some (err addr_error)
    | some a ↦ elim (lookup (addr_to_key a) pc.peers) [
      | none ↦ some (err unknown_peer)
      | some vlsh ↦ write_loop rs
    ]
  ]
]

-- A datagram is sent only by an open socket before its deadline, and only to an address whose key
-- is that of a peer's session.
write_to-known :
    (pc : PacketConn) (addr : UdpAddr) (first : Round) (rs : List Round) (n : ℕ)
    → write_to pc (some addr) first rs ≡ some (ok n)
    → (state_error first ≡ none) × (vlsh : ℕ) × (lookup (addr_to_key addr) pc.peers ≡ some vlsh)
unfolding write_to
write_to-known pc addr first rs n h = elim (Option-cases (state_error first)) [
  | inr (e, bad) ↦ absurd (cc (h, bad))
  | inl fine ↦ elim (Option-cases (lookup (addr_to_key addr) pc.peers)) [
    | inl gone ↦ absurd (cc (h, fine, gone))
    | inr (vlsh, here) ↦ (fine, vlsh, here)
  ]
]
