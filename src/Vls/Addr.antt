-- ===== src/Vls/Addr.antt =====
-- internal/vclpoll/cgo.go, lines 592 to 618, 887 to 891, 951 to 958, 1137 to 1141, 1389 to 1394 and 1469
-- to 1478, and addr.go, lines 10 to 15: how addresses go to libvppcom and come back. The host stores
-- the lowest byte of a word first.
use vclnet.Base.{
  ℕ, ◌+◌, ◌/◌, ◌%◌, ◌^◌, ◌<◌, ◌≡◌, refl, List, [], ◌∷◌, Bool, true, false, ◌==◌, not, arith,
  if◌then◌else◌, bit_or, shift_left, bit_or-shift_left,
}
use vclnet.Vls.Calls.{Endpoint}

-- `[4]byte`
pub record Ip4 : Type 0 where
  pub b0 : ℕ
  pub b1 : ℕ
  pub b2 : ℕ
  pub b3 : ℕ

abbrev pub bytes_of : Ip4 → List ℕ
bytes_of ip = ip.b0 ∷ ip.b1 ∷ ip.b2 ∷ ip.b3 ∷ []

abbrev pub IsBytes : Ip4 → Type 0
IsBytes ip = (ip.b0 < 2 ^ 8) × (ip.b1 < 2 ^ 8) × (ip.b2 < 2 ^ 8) × (ip.b3 < 2 ^ 8)

-- `ipBE`
unfoldable pub ip_be : Ip4 → ℕ
ip_be ip =
    bit_or (bit_or (bit_or ip.b0 (shift_left ip.b1 8)) (shift_left ip.b2 16)) (shift_left ip.b3 24)

-- `portBE`; `p & 0xff` is the remainder.
unfoldable pub port_be : ℕ → ℕ
port_be p = bit_or (p / 2 ^ 8) (shift_left (p % 2 ^ 8) 8)

-- `byte(be)`, `byte(be >> 8)`, `byte(be >> 16)`, `byte(be >> 24)` of `mode3Accept`.
unfoldable pub ip_of_be : ℕ → Ip4
ip_of_be be = record {
  b0 = be % 2 ^ 8;
  b1 = be / 2 ^ 8 % 2 ^ 8;
  b2 = be / 2 ^ 16 % 2 ^ 8;
  b3 = be / 2 ^ 24 % 2 ^ 8;
}

-- What `mode3Accept` makes of the peer's address.
unfoldable pub accepted_peer : ℕ → ℕ → Ip4 × ℕ
unfolding ip_of_be port_be
accepted_peer peer_ip4 peer_port = (ip_of_be peer_ip4, port_be peer_port)

port_be-sum : (p : ℕ) → p < 2 ^ 16 → port_be p ≡ p / 2 ^ 8 + shift_left (p % 2 ^ 8) 8
unfolding port_be
port_be-sum p h = bit_or-shift_left 8 (p / 2 ^ 8) (p % 2 ^ 8) (omega arith)

port_be-twice : (p : ℕ) → p < 2 ^ 16 → port_be (port_be p) ≡ p
port_be-twice p h =
    let e = port_be-sum p h in omega (arith, e, port_be-sum (port_be p) (omega arith))

ip_be-sum :
    (ip : Ip4)
    → IsBytes ip
    → ip_be ip ≡ ip.b0 + shift_left ip.b1 8 + shift_left ip.b2 16 + shift_left ip.b3 24
unfolding ip_be
ip_be-sum ip (h0, h1, h2, h3) =
    let e1 = bit_or-shift_left 8 ip.b0 ip.b1 h0 in
    let e2 = bit_or-shift_left 16 (ip.b0 + shift_left ip.b1 8) ip.b2 (omega arith) in
    let e3 =
      bit_or-shift_left 24 (ip.b0 + shift_left ip.b1 8 + shift_left ip.b2 16) ip.b3 (omega arith) in
    rw (e1, e2, e3) refl

byte_path :
    (ip : Ip4) {x0 x1 x2 x3 : ℕ}
    → x0 ≡ ip.b0
    → x1 ≡ ip.b1
    → x2 ≡ ip.b2
    → x3 ≡ ip.b3
    → Path Ip4 (record { b0 = x0; b1 = x1; b2 = x2; b3 = x3 }) ip
byte_path ip p0 p1 p2 p3 = λ i. record { b0 = p0 i; b1 = p1 i; b2 = p2 i; b3 = p3 i }

ip_of_be-ip_be : (ip : Ip4) → IsBytes ip → ip_of_be (ip_be ip) ≡ ip
unfolding ip_of_be
ip_of_be-ip_be ip h =
    rw (ip_be-sum ip h) (byte_path ip (omega arith) (omega arith) (omega arith) (omega arith))

-- An IPv4 address and a port that are encoded for libvppcom, and decoded as `mode3Accept` decodes a
-- peer, come back, if the bytes and the port are in range.
pub accepted_peer-encoded :
    (ip : Ip4) (port : ℕ)
    → IsBytes ip
    → port < 2 ^ 16
    → accepted_peer (ip_be ip) (port_be port) ≡ (ip, port)
unfolding accepted_peer
accepted_peer-encoded ip port h l = rw (ip_of_be-ip_be ip h, port_be-twice port l) refl

-- `AddrInfo`
pub record AddrInfo : Type 0 where
  pub ip : List ℕ
  pub port : ℕ
  pub is_v4 : Bool

-- The endpoint of `rawSendTo`, as `vclpoll_sendto` passes it on.
unfoldable pub send_endpoint : AddrInfo → Endpoint
unfolding port_be
send_endpoint addr = record { is_ip4 = addr.is_v4; ip = addr.ip; port_be = port_be addr.port }

-- `addrInfoFromC`
unfoldable pub addr_info_from_c : List ℕ → ℕ → ℕ → AddrInfo
unfolding port_be
addr_info_from_c ip port is_ip4 = record { ip = ip; port = port_be port; is_v4 = not (is_ip4 == 0) }

-- What `vclpoll_recvfrom` stores from the endpoint, through `addrInfoFromC`.
unfoldable pub received_addr : Endpoint → AddrInfo
unfolding addr_info_from_c
received_addr ep = addr_info_from_c ep.ip ep.port_be (if ep.is_ip4 then 1 else 0)

flag_kept : (b : Bool) → not ((if b then 1 else 0) == 0) ≡ b
flag_kept true = refl
flag_kept false = refl

-- The address that a datagram is sent to, decoded from the endpoint that libvppcom gets, is the one
-- that the caller gave, if its port is in range.
pub received_addr-send_endpoint :
    (addr : AddrInfo) → addr.port < 2 ^ 16 → received_addr (send_endpoint addr) ≡ addr
unfolding received_addr send_endpoint
received_addr-send_endpoint addr h =
    rw (port_be-twice addr.port h)
      (λ i. record { ip = addr.ip; port = addr.port; is_v4 = flag_kept addr.is_v4 i })
