-- ===== src/Packet/Reads.antt =====
-- packetconn.go, lines 40 to 48 and 157 to 184: `ReadFrom`.
use vclnet.Base.{
  ℕ, zero, suc, ◌≤◌, List, [], ◌∷◌, Bool, true, false, Option, none, some, if◌then◌else◌, length,
  take, arith, ltb,
}
use vclnet.Errors.{Error, closed, timeout, Result, ok, err}
use vclnet.Packet.Peers.{UdpAddr}

-- What the `select` of a turn receives: a datagram or an error of the socket from `incoming`, the
-- deadline's channel, with whether the deadline has expired then, or `stopCh`.
pub data Received : Type 0 where
  datagram : List ℕ → UdpAddr → Received
  failed : Error → Received
  woken : Bool → Received
  stopped : Received

-- One turn; `is_closed` is `closed` or `shutdownStarted` at its head, and `expired` the deadline there.
pub record Turn : Type 0 where
  pub is_closed : Bool
  pub expired : Bool
  pub received : Received

-- `copy(p, dg.data)` into a buffer of `size` bytes.
abbrev pub copied : ℕ → List ℕ → List ℕ
copied size bytes = if ltb size (length bytes) then take size bytes else bytes

abbrev pub after_select :
    ℕ → Option (Result (List ℕ × UdpAddr)) → Received → Option (Result (List ℕ × UdpAddr))
after_select size rest (datagram bytes addr) = some (ok (copied size bytes, addr))
after_select size rest (failed e) = some (err e)
after_select size rest (woken true) = some (err timeout)
after_select size rest (woken false) = rest
after_select size rest stopped = some (err closed)

abbrev pub at_head :
    Bool → Bool → Option (Result (List ℕ × UdpAddr)) → Option (Result (List ℕ × UdpAddr))
at_head true expired r = some (err closed)
at_head false true r = some (err timeout)
at_head false false r = r

-- `ReadFrom`: the bytes in the buffer and the peer, or none while it has not returned after these turns.
unfoldable pub read_from : ℕ → List Turn → Option (Result (List ℕ × UdpAddr))
read_from size [] = none
read_from size (t ∷ ts) =
    at_head t.is_closed t.expired (after_select size (read_from size ts) t.received)

length-take : (n : ℕ) (xs : List ℕ) → length (take n xs) ≤ n
length-take zero xs = omega arith
length-take (suc n) [] = omega arith
length-take (suc n) (x ∷ xs) = omega (arith, length-take n xs)

length-copied : (size : ℕ) (bytes : List ℕ) → length (copied size bytes) ≤ size
length-copied size bytes = ground (arith, length-take size bytes)

-- What `ReadFrom` returns fits into the buffer.
Fits : ℕ → Option (Result (List ℕ × UdpAddr)) → Type 0
Fits size (some (ok (bytes, addr))) = length bytes ≤ size
Fits size (some (err e)) = Unit
Fits size none = Unit

select-Fits :
    (size : ℕ) (rest : Option (Result (List ℕ × UdpAddr))) (r : Received)
    → Fits size rest
    → Fits size (after_select size rest r)
unfolding Fits
select-Fits size rest (datagram bytes addr) h = length-copied size bytes
select-Fits size rest (failed e) h = tt
select-Fits size rest (woken true) h = tt
select-Fits size rest (woken false) h = h
select-Fits size rest stopped h = tt

head-Fits :
    (size : ℕ) (is_closed expired : Bool) (r : Option (Result (List ℕ × UdpAddr)))
    → Fits size r
    → Fits size (at_head is_closed expired r)
unfolding Fits
head-Fits size true expired r h = tt
head-Fits size false true r h = tt
head-Fits size false false r h = h

read_from-Fits : (size : ℕ) (ts : List Turn) → Fits size (read_from size ts)
unfolding read_from Fits
read_from-Fits size [] = tt
read_from-Fits size (t ∷ ts) =
    head-Fits size t.is_closed t.expired (after_select size (read_from size ts) t.received)
      (select-Fits size (read_from size ts) t.received (read_from-Fits size ts))
