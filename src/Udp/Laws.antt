-- ===== src/Udp/Laws.antt =====
-- udpconn.go, lines 67 to 119: where the datagrams of `WriteTo` go.
use vclnet.Base.{
  ℕ, ◌<◌, ◌^◌, ℤ, pos, negsuc, ◌≡◌, refl, List, [], ◌∷◌, Bool, true, false, Option, none, some, ltb,
  arith, All, take, ap, sym, ◌∙◌, Bool-cases, inl, inr,
}
use vclnet.Errors.{Error, Result, ok, err}
use vclnet.Conn.Defs.{World, map_io_error}
use vclnet.Vls.Addr.{AddrInfo, bytes_of, send_endpoint, received_addr, received_addr-send_endpoint}
use vclnet.Udp.Defs.{
  UdpConn, UdpIp, ip4, ip6, no_ip, Addr, nil_addr, non_udp, udp_addr, with_ip, with_port, addr_info,
  Round, Run, sent_to, write_to_loop, write_checked, write_connected, write_in_state, write_to,
  state_error,
}

-- The IP address of a datagram for `ip`: the four bytes first if there are four, or the sixteen; there
-- is none for an IP that is neither.
abbrev pub HasIp : UdpIp → AddrInfo → Type 0
HasIp (ip4 ip) info = (info.is_v4 ≡ true) × (take 4 info.ip ≡ bytes_of ip)
HasIp (ip6 ip) info = (info.is_v4 ≡ false) × (info.ip ≡ ip)
HasIp no_ip info = ⊥

-- A destination that is the IP and the port of `addr`; there is none for nil, an address that is not
-- UDP, and a port that does not have sixteen bits.
abbrev pub HasAddr : Addr → AddrInfo → Type 0
HasAddr nil_addr info = ⊥
HasAddr non_udp info = ⊥
HasAddr (udp_addr ip port) info = (port ≡ pos info.port) × (info.port < 2 ^ 16) × HasIp ip info

-- The value of a result that succeeds.
info_of : AddrInfo → Result AddrInfo → AddrInfo
info_of other (ok info) = info
info_of other (err e) = other

ok-injective : {x y : AddrInfo} → Path (Result AddrInfo) (ok x) (ok y) → x ≡ y
unfolding info_of
ok-injective {x} e = ap (info_of x) e

with_ip-port :
    (ip : UdpIp) (port : ℕ) {info : AddrInfo} → with_ip ip port ≡ ok info → info.port ≡ port
with_ip-port (ip4 ip) port e = ground (arith, e)
with_ip-port (ip6 ip) port e = ground (arith, e)
with_ip-port no_ip port e = absurd (cc)

with_ip-HasIp :
    (ip : UdpIp) (port : ℕ) (info : AddrInfo) → with_ip ip port ≡ ok info → HasIp ip info
with_ip-HasIp (ip4 ip) port info e =
    let same = ok-injective e in
    (ap (λ x. x.is_v4) (sym same), ap (λ x. take 4 x.ip) (sym same) ∙ refl)
with_ip-HasIp (ip6 ip) port info e =
    let same = ok-injective e in (ap (λ x. x.is_v4) (sym same), ap (λ x. x.ip) (sym same))
with_ip-HasIp no_ip port info e = absurd (cc)

with_port-lt :
    (ip : UdpIp) (port : ℤ) {info : AddrInfo} → with_port ip port ≡ ok info → info.port < 2 ^ 16
with_port-lt ip (pos port) e = elim (Bool-cases (ltb 65535 port)) [
  | inl h ↦ absurd (too_high (simp h at e))
  | inr h ↦ ground (arith, h, with_ip-port ip port (simp h at e))
]
  where
    too_high : {b : AddrInfo} {x : Error} → Path (Result AddrInfo) (err x) (ok b) → ⊥
    too_high y = absurd (cc)
with_port-lt ip (negsuc n) e = absurd (cc)

with_port-HasAddr :
    (ip : UdpIp) (port : ℤ) (info : AddrInfo)
    → with_port ip port ≡ ok info
    → HasAddr (udp_addr ip port) info
with_port-HasAddr ip (pos port) info e = elim (Bool-cases (ltb 65535 port)) [
  | inl h ↦ absurd (refused (simp h at e))
  | inr h ↦
      let passed = simp h at e in
      (
        ap pos (sym (with_ip-port ip port passed)),
        with_port-lt ip (pos port) e,
        with_ip-HasIp ip port info passed,
      )
]
  where
    refused : {b : AddrInfo} {x : Error} → Path (Result AddrInfo) (err x) (ok b) → ⊥
    refused y = absurd (cc)
with_port-HasAddr ip (negsuc n) info e = absurd (cc)

addr_info-HasAddr : (addr : Addr) (info : AddrInfo) → addr_info addr ≡ ok info → HasAddr addr info
unfolding addr_info
addr_info-HasAddr nil_addr info e = absurd (cc)
addr_info-HasAddr non_udp info e = absurd (cc)
addr_info-HasAddr (udp_addr ip port) info e = with_port-HasAddr ip port info e

addr_info-lt : (addr : Addr) {info : AddrInfo} → addr_info addr ≡ ok info → info.port < 2 ^ 16
unfolding addr_info
addr_info-lt nil_addr e = absurd (cc)
addr_info-lt non_udp e = absurd (cc)
addr_info-lt (udp_addr ip port) e = with_port-lt ip port e

-- A datagram for the address `addr`, also as VPP reads its destination.
abbrev pub IsFor : Addr → AddrInfo → Type 0
IsFor addr info = HasAddr addr info × (received_addr (send_endpoint info) ≡ info)

sent_to-All :
    (P : AddrInfo → Type 0) (info : AddrInfo) (n : ℕ) (state : Option Error) (rest : Run ℕ)
    (c : Bool × Option Error)
    → P info
    → All P rest.sent
    → All P (sent_to info n state rest c).sent
sent_to-All P info n (some e) rest (true, x) p h = (p, tt)
sent_to-All P info n none rest (true, x) p h = (p, h)
sent_to-All P info n state rest (false, some e) p h = (p, tt)
sent_to-All P info n state rest (false, none) p h = (p, tt)

write_to_loop-All :
    (P : AddrInfo → Type 0) (info : AddrInfo) (rs : List Round)
    → P info
    → All P (write_to_loop info rs).sent
unfolding write_to_loop
write_to_loop-All P info [] p = tt
write_to_loop-All P info (r ∷ rs) p =
    sent_to-All P info r.count (state_error r.world_after r.conn_after r.conn_after.write_deadline)
      (write_to_loop info rs) (map_io_error r.error) p (write_to_loop-All P info rs p)

write_checked-All :
    (addr : Addr) (i : Result AddrInfo) (rs : List Round)
    → addr_info addr ≡ i
    → All (λ info. Path Bool false false × IsFor addr info) (write_checked i rs).sent
write_checked-All addr (err e) rs h = tt
write_checked-All addr (ok info) rs h =
    write_to_loop-All (λ x. Path Bool false false × IsFor addr x) info rs
      (
        refl,
        (addr_info-HasAddr addr info h, received_addr-send_endpoint info (addr_info-lt addr h)),
      )

write_connected-All :
    (connected : Bool) (addr : Addr) (rs : List Round)
    → All (λ info. (connected ≡ false) × IsFor addr info) (write_connected connected addr rs).sent
write_connected-All true addr rs = tt
write_connected-All false addr rs = write_checked-All addr (addr_info addr) rs refl

write_in_state-All :
    (state : Option Error) (c : UdpConn) (addr : Addr) (rs : List Round)
    → All (λ info. (c.connected ≡ false) × IsFor addr info) (write_in_state state c addr rs).sent
write_in_state-All (some e) c addr rs = tt
write_in_state-All none c addr rs = write_connected-All c.connected addr rs

-- Every datagram that `WriteTo` hands to VLS, however often it tries, has the IP and the port of the
-- address that the caller gave, also as VPP reads them back from the endpoint; an address that is nil,
-- is not a UDP address, or whose port or IP is out of range gets none, and neither does any on a
-- connected socket.
pub write_to-addressed :
    (o : World) (c : UdpConn) (addr : Addr) (rs : List Round)
    → All (λ info. (c.connected ≡ false) × IsFor addr info) (write_to o c addr rs).sent
unfolding write_to
write_to-addressed o c addr rs = write_in_state-All (state_error o c c.write_deadline) c addr rs
