-- ===== src/Udp/Tests.antt =====
-- The theorems on UDP sockets at concrete inputs.
use vclnet.Base.{pos, negsuc, [], ◌∷◌, true, false, Option, none, some, ◌≡◌, refl, All}
use vclnet.Errors.{Error, wait_canceled, closed, addr_error, ok, err}
use vclnet.Conn.Defs.{World}
use vclnet.Udp.Defs.{UdpConn, new_udp_conn, Addr, udp_addr, ip4, Round, write_to, close_udp}
use vclnet.Udp.Laws.{IsFor, write_to-addressed}

abbrev calm : World
calm = record { now = 0; shutdown_started = false; answer = none }

abbrev socket : UdpConn
socket = new_udp_conn false true

abbrev server : Addr
server = udp_addr (ip4 (record { b0 = 10; b1 = 0; b2 = 0; b3 = 1 })) (pos 53)

abbrev turn : Option Error → Round
turn e = record {
  conn = socket;
  world = calm;
  count = 4;
  peer = record { ip = []; port = 0; is_v4 = false };
  error = e;
  conn_after = socket;
  world_after = calm;
}

-- The first attempt is interrupted, and the second one succeeds.
write_to-addressed_example :
    All
      (λ info. (socket.connected ≡ false) × IsFor server info)
      (write_to calm socket server (turn (some wait_canceled) ∷ turn none ∷ [])).sent
write_to-addressed_example =
    write_to-addressed calm socket server (turn (some wait_canceled) ∷ turn none ∷ [])

sent_at_last :
    (write_to calm socket server (turn (some wait_canceled) ∷ turn none ∷ [])).result ≡ some (ok 4)
unfolding write_to
sent_at_last = refl

negative_port :
    (write_to calm socket
      (udp_addr (ip4 (record { b0 = 10; b1 = 0; b2 = 0; b3 = 1 })) (negsuc 0))
      []).result
    ≡ some (err addr_error)
unfolding write_to
negative_port = refl

closed_socket : (write_to calm (close_udp calm socket).0 server []).result ≡ some (err closed)
unfolding write_to close_udp
closed_socket = refl
