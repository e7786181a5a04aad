-- ===== src/Packet/Goroutines.antt =====
-- packetconn.go, lines 57 to 152, 154 to 187 and 233 to 260: the goroutines of an unconnected UDP socket,
-- `ReadFrom` and `Close`, interleaved in any order.
use vclnet.Base.{ℕ, ◌+◌, ◌-◌, ◌<◌, ◌≡◌, Bool, true, false}
pub use vclnet.Base.{update}

-- Where `acceptLoop` or a `peerReadLoop` stands: not started, at the first `select`, in the call of
-- `AcceptFullContext` or `ReadContext`, at the `select` that sends a datagram, at the send of an error,
-- before `removePeer`, and returned.
pub data Phase : Type 0 where
  absent at_head calling sending sending_error removing returned : Phase

-- Where `Close` stands: not called, before `close(pc.stopCh)`, at `pc.wg.Wait()`, and behind it.
pub data Closing : Type 0 where
  not_called marked waiting finished : Closing

-- `next` is the number of peer sessions so far, `incoming` the number of datagrams in the channel,
-- `selecting` that of the calls of `ReadFrom` at their `select`.
pub record Socket : Type 0 where
  pub closed : Bool
  pub stop_closed : Bool
  pub acceptor : Phase
  pub next : ℕ
  pub reader : ℕ → Phase
  pub incoming : ℕ
  pub selecting : ℕ
  pub closing : Closing

abbrev pub capacity : ℕ
capacity = 64

-- The phase behind an error: dropped if `stopCh` is closed or the error is `ErrClosed`, else sent.
abbrev pub after_error : Bool → Phase → Phase
after_error true behind = behind
after_error false behind = sending_error

-- A step of a loop with what it adds to `incoming`; `behind` is where it goes after an error. An
-- accept loop has no datagrams to send.
pub data Move (s : Socket) (behind : Phase) : Phase → ℕ → Phase → Type 0 where
  sees_stop : s.stop_closed ≡ true → Move s behind at_head 0 returned
  calls : s.stop_closed ≡ false → Move s behind at_head 0 calling
  fails_stopped : s.stop_closed ≡ true → Move s behind calling 0 behind
  fails :
      (is_closed : Bool)
      → s.stop_closed ≡ false
      → Move s behind calling 0 (after_error is_closed behind)
  sends_error : s.incoming < capacity → Move s behind sending_error 1 behind

pub data Step (s : Socket) : Socket → Type 0 where
  accept_loop :
      {n : ℕ} {x : Phase}
      → Move s returned s.acceptor n x
      → Step s (record s { acceptor = x; incoming = s.incoming + n })
  accepts :
      s.acceptor ≡ calling
      → Step s (record s {
        acceptor = at_head;
        next = s.next + 1;
        reader = update s.reader s.next at_head;
      })
  read_loop :
      (i : ℕ) {n : ℕ} {x : Phase}
      → Move s removing (s.reader i) n x
      → Step s (record s { reader = update s.reader i x; incoming = s.incoming + n })
  reads : (i : ℕ) → s.reader i ≡ calling → Step s (record s { reader = update s.reader i sending })
  sends :
      (i : ℕ)
      → s.reader i ≡ sending
      → s.incoming < capacity
      → Step s (record s { reader = update s.reader i at_head; incoming = s.incoming + 1 })
  stops_sending :
      (i : ℕ)
      → s.reader i ≡ sending
      → s.stop_closed ≡ true
      → Step s (record s { reader = update s.reader i returned })
  removes :
      (i : ℕ) → s.reader i ≡ removing → Step s (record s { reader = update s.reader i returned })
  -- `ReadFrom` tests `closed` before its `select`, and leaves it with a datagram or without.
  selects : s.closed ≡ false → Step s (record s { selecting = s.selecting + 1 })
  receives :
      0 < s.selecting
      → 0 < s.incoming
      → Step s (record s { selecting = s.selecting - 1; incoming = s.incoming - 1 })
  leaves : 0 < s.selecting → Step s (record s { selecting = s.selecting - 1 })
  marks_closed : s.closing ≡ not_called → Step s (record s { closed = true; closing = marked })
  closes_stop : s.closing ≡ marked → Step s (record s { stop_closed = true; closing = waiting })
  finishes :
      s.closing ≡ waiting
      → s.acceptor ≡ returned
      → ((i : ℕ) → i < s.next → s.reader i ≡ returned)
      → Step s (record s { closing = finished })

-- `newPacketConn`
unfoldable pub new_packet_conn : Socket
new_packet_conn = record {
  closed = false;
  stop_closed = false;
  acceptor = at_head;
  next = 0;
  reader = λ _. absent;
  incoming = 0;
  selecting = 0;
  closing = not_called;
}

pub data Reach (s : Socket) : Socket → Type 0 where
  here : Reach s s
  later : {t u : Socket} → Reach s t → Step t u → Reach s u
