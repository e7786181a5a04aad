-- ===== src/Packet/Tests.antt =====
-- Two peers with one key, and the theorems at them.
use vclnet.Base.{◌<◌, ◌⊎◌, nat_eq, ◌*◌, ◌%◌, ◌^◌, ◌≡◌, ◌↔◌, refl, true, arith, contains}
use vclnet.Packet.Peers.{
  UdpAddr, ip4, ip6, addr_to_key, SameKey, new_packet_conn, accept, close_packet_conn,
  replaced_peer_leaks, addr_to_key_iff,
}
use vclnet.Packet.Goroutines
use vclnet.Packet.Goroutines.{
  Socket, Reach, here, later, sees_stop, accept_loop, marks_closed, closes_stop, finishes, waiting,
  returned, finished,
}
use vclnet.Packet.Quiet.{IsStuck, close_hangs, stuck_reached}
use vclnet.Packet.Ends.{Goes, close_waits}

abbrev first : UdpAddr
first = record { ip = ip4 0x0a000001; port = 5353 }

-- The IPv6 address a00:1::
abbrev double : UdpAddr
double = record { ip = ip6 (0x0a000001 * 2 ^ 96); port = 5353 }

replaced_peer_leaks_example :
    contains 7 (close_packet_conn (accept double 9 (accept first 7 new_packet_conn))).open_vlsh
    ≡ true
unfolding addr_to_key
replaced_peer_leaks_example = replaced_peer_leaks first double 7 9 refl (λ e. omega (arith, e))

addr_to_key_iff_example :
    (addr_to_key first ≡ addr_to_key double)
    ↔ (SameKey first.ip double.ip × (5353 % 2 ^ 16 ≡ 5353 % 2 ^ 16))
addr_to_key_iff_example = addr_to_key_iff first double

close_hangs_example : stuck_reached.0.closing ≡ waiting
close_hangs_example = close_hangs stuck_reached.2 here

-- A socket without peers is closed.
abbrev closing : (s : Socket) × Reach Goroutines.new_packet_conn s
unfolding Goroutines.new_packet_conn
closing = (_, later (later here (marks_closed refl)) (closes_stop refl))

abbrev closed : (s : Socket) × Reach Goroutines.new_packet_conn s
unfolding Goroutines.new_packet_conn
closed = (
  _,
  later (later closing.1 (accept_loop (sees_stop refl)))
      (finishes refl refl (λ i l. absurd (omega arith))),
)

close_waits_example :
    (closing.0.closing ≡ finished
      → (closing.0.acceptor ≡ returned) × (0 < closing.0.next → closing.0.reader 0 ≡ returned))
    × (closing.0.closing ≡ waiting → IsStuck closing.0 ⊎ Goes closing.0)
unfolding Goroutines.new_packet_conn
close_waits_example = close_waits 0 closing.1

closed_behind_loops : closed.0.acceptor ≡ returned
unfolding Goroutines.new_packet_conn
closed_behind_loops = ((close_waits 0 closed.1).0 refl).0
