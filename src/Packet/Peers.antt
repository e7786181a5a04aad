-- ===== src/Packet/Peers.antt =====
-- packetconn.go, lines 31 to 48, 94 to 104, 143 to 155, 233 to 261 and 292 to 301: the peers of a
-- socket and their sessions.
use vclnet.Base.{
  ℕ, ◌+◌, ◌*◌, ◌%◌, ◌/◌, ◌^◌, ◌≡◌, ◌≢◌, refl, List, [], ◌∷◌, Bool, true, false, ◌==◌, Option, none,
  some, arith, if◌then◌else◌, lookup, insert, delete, nat_eq, lookup-insert, lookup-delete,
  contains, ==_iff, Bool-cases, inl, inr, ◌↔◌,
}
use vclnet.Lifecycle.Registry.{exclude}

-- An IP address by what `To4` and `To16` make of it: four bytes, sixteen, or nil; the bytes are read
-- as a number, the first one highest.
pub data Ip : Type 0 where
  ip4 ip6 : ℕ → Ip
  no_ip : Ip

pub record UdpAddr : Type 0 where
  pub ip : Ip
  pub port : ℕ

unfoldable pub key_ip : Ip → ℕ
key_ip (ip4 a) = a * 2 ^ 96
key_ip (ip6 a) = a
key_ip no_ip = 0

-- `addrToKey`: the sixteen bytes and the port, as one number. An IPv4 address fills the first four
-- bytes.
unfoldable pub addr_to_key : UdpAddr → ℕ
unfolding key_ip
addr_to_key addr = key_ip addr.ip * 2 ^ 16 + addr.port % 2 ^ 16

-- `peers` goes from keys to sessions; `open_vlsh` are the sessions that were accepted and not closed.
pub record PacketConn : Type 0 where
  pub peers : List (ℕ × ℕ)
  pub open_vlsh : List ℕ
  pub close_once : Bool

-- `newPacketConn`
abbrev pub new_packet_conn : PacketConn
new_packet_conn = record { peers = []; open_vlsh = []; close_once = false }

-- A session that `acceptLoop` accepts from `addr`.
unfoldable pub accept : UdpAddr → ℕ → PacketConn → PacketConn
unfolding addr_to_key
accept addr vlsh pc = record pc {
  peers = insert (addr_to_key addr) vlsh pc.peers;
  open_vlsh = vlsh ∷ pc.open_vlsh;
}

holds : Option ℕ → ℕ → Bool
holds none vlsh = false
holds (some v) vlsh = v == vlsh

-- `removePeer`
unfoldable pub remove_peer : UdpAddr → ℕ → PacketConn → PacketConn
unfolding addr_to_key holds
remove_peer addr vlsh pc = record pc {
  peers =
      if holds (lookup (addr_to_key addr) pc.peers) vlsh
      then delete (addr_to_key addr) pc.peers
      else pc.peers;
  open_vlsh = exclude vlsh pc.open_vlsh;
}

-- The loop of `Close` over the peers.
unfoldable pub close_peers : List (ℕ × ℕ) → List ℕ → List ℕ
close_peers [] left = left
close_peers ((key, vlsh) ∷ peers) left = close_peers peers (exclude vlsh left)

-- `Close`, as far as the sessions of peers go, once the loops have ended.
unfoldable pub close_packet_conn : PacketConn → PacketConn
unfolding close_peers
close_packet_conn pc =
    if pc.close_once
    then pc
    else record { peers = []; open_vlsh = close_peers pc.peers pc.open_vlsh; close_once = true }

-- What the loops do before `Close`, while no address is accepted under a key that is in use.
pub data Reach : PacketConn → Type 0 where
  init : Reach new_packet_conn
  accepts :
      {pc : PacketConn} (addr : UdpAddr) (vlsh : ℕ)
      → Reach pc
      → lookup (addr_to_key addr) pc.peers ≡ none
      → Reach (accept addr vlsh pc)
  removes :
      {pc : PacketConn} (addr : UdpAddr) (vlsh : ℕ) → Reach pc → Reach (remove_peer addr vlsh pc)

Tracked : PacketConn → Type 0
Tracked pc = (i : ℕ) → contains i pc.open_vlsh ≡ true → (k : ℕ) × (lookup k pc.peers ≡ some i)

contains-exclude :
    (i j : ℕ) (xs : List ℕ)
    → contains j (exclude i xs) ≡ true
    → (contains j xs ≡ true) × ((j == i) ≡ false)
unfolding exclude
contains-exclude i j [] h = absurd (cc)
contains-exclude i j (x ∷ xs) h =
    ground (arith, contains-exclude i j xs, ==_iff i x, ==_iff j x, ==_iff j i)

Reach-Tracked : {pc : PacketConn} → Reach pc → Tracked pc
unfolding Tracked accept remove_peer holds lookup
Reach-Tracked init i h = absurd (cc)
Reach-Tracked (accepts {pc} addr vlsh r free) i h =
    let key = addr_to_key addr in
    elim (Bool-cases (i == vlsh)) [
      | inl same ↦
          (key, ground (arith, lookup-insert key key vlsh pc.peers, ==_iff key key, ==_iff i vlsh))
      | inr other ↦
          let (k, e) = Reach-Tracked r i (ground (arith, h, ==_iff i vlsh)) in
          (k, ground (arith, lookup-insert k key vlsh pc.peers, e, ==_iff k key))
    ]
Reach-Tracked (removes {pc} addr vlsh r) i h =
    let key = addr_to_key addr in
    let (here, other) = contains-exclude vlsh i pc.open_vlsh h in
    let (k, e) = Reach-Tracked r i here in
    (
      k,
      ground
          (arith, lookup-delete k key pc.peers, e, ==_iff k key, ==_iff i vlsh, ==_iff vlsh vlsh),
    )

lookup_gone :
    (k v i : ℕ) (peers : List (ℕ × ℕ)) (j : ℕ)
    → lookup j ((k, v) ∷ peers) ≡ some i
    → (i == v) ≡ false
    → lookup j peers ≡ some i
unfolding lookup
lookup_gone k v i peers j e other = ground (arith, e, ==_iff i v)

abbrev no_peers : List (ℕ × ℕ)
no_peers = []

none_left :
    (xs : List ℕ)
    → ((i : ℕ) → contains i xs ≡ true → (k : ℕ) × (lookup k no_peers ≡ some i))
    → xs ≡ []
unfolding lookup
none_left [] all = refl
none_left (x ∷ xs) all = absurd (cc ((all x (ground (arith, ==_iff x x))).1))

close_peers-none :
    (peers : List (ℕ × ℕ)) (left : List ℕ)
    → ((i : ℕ) → contains i left ≡ true → (k : ℕ) × (lookup k peers ≡ some i))
    → close_peers peers left ≡ []
unfolding close_peers
close_peers-none [] left all = none_left left all
close_peers-none ((k, v) ∷ peers) left all = close_peers-none peers (exclude v left) (λ i h.
    let (here, other) = contains-exclude v i left h in
    let (j, e) = all i here in (j, lookup_gone k v i peers j e other))

Reach-running : {pc : PacketConn} → Reach pc → pc.close_once ≡ false
unfolding accept remove_peer
Reach-running init = refl
Reach-running (accepts addr vlsh r free) = Reach-running r
Reach-running (removes addr vlsh r) = Reach-running r

-- If no session was accepted under a key in use, `Close` leaves no peer's session open, and a second
-- `Close` does nothing.
close_packet_conn-none :
    {pc : PacketConn}
    → Reach pc
    → ((close_packet_conn pc).open_vlsh ≡ [])
      × ((close_packet_conn (close_packet_conn pc)) ≡ close_packet_conn pc)
unfolding close_packet_conn Tracked
close_packet_conn-none {pc} r =
    rw (Reach-running r) (close_peers-none pc.peers pc.open_vlsh (Reach-Tracked r), refl)

-- Of two addresses with one key, the second takes the place of the first among the peers. If the
-- loop that reads the first session ends without `removePeer`, `Close` leaves that session open.
pub replaced_peer_leaks :
    (x y : UdpAddr) (i j : ℕ)
    → addr_to_key x ≡ addr_to_key y
    → i ≢ j
    → contains i (close_packet_conn (accept y j (accept x i new_packet_conn))).open_vlsh ≡ true
unfolding close_packet_conn accept close_peers insert exclude
replaced_peer_leaks x y i j e ne = rw e (
    ground (
      arith,
      ==_iff i j,
      ==_iff j i,
      ==_iff (addr_to_key y) (addr_to_key y),
      ==_iff i i,
      ==_iff j j,
    ))

-- Whether two IP addresses have one key: addresses of one kind if they are equal, an IPv4 and an IPv6
-- address if the IPv4 address is the first four bytes of the other, whose twelve last are zero, and no
-- address with any whose bytes are all zero.
abbrev pub SameKey : Ip → Ip → Type 0
SameKey (ip4 a) (ip4 b) = a ≡ b
SameKey (ip4 a) (ip6 b) = (b / 2 ^ 96 ≡ a) × (b % 2 ^ 96 ≡ 0)
SameKey (ip4 a) no_ip = a ≡ 0
SameKey (ip6 a) (ip4 b) = (a / 2 ^ 96 ≡ b) × (a % 2 ^ 96 ≡ 0)
SameKey (ip6 a) (ip6 b) = a ≡ b
SameKey (ip6 a) no_ip = a ≡ 0
SameKey no_ip (ip4 b) = b ≡ 0
SameKey no_ip (ip6 b) = b ≡ 0
SameKey no_ip no_ip = Unit

key_ip_iff : (x y : Ip) → (key_ip x ≡ key_ip y) ↔ SameKey x y
unfolding key_ip
key_ip_iff (ip4 a) (ip4 b) = (λ e. omega (arith, e), λ e. omega (arith, e))
key_ip_iff (ip4 a) (ip6 b) =
    (λ e. (omega (arith, e), omega (arith, e)), λ (q, r). omega (arith, q, r))
key_ip_iff (ip4 a) no_ip = (λ e. omega (arith, e), λ e. omega (arith, e))
key_ip_iff (ip6 a) (ip4 b) =
    (λ e. (omega (arith, e), omega (arith, e)), λ (q, r). omega (arith, q, r))
key_ip_iff (ip6 a) (ip6 b) = (λ e. e, λ e. e)
key_ip_iff (ip6 a) no_ip = (λ e. e, λ e. e)
key_ip_iff no_ip (ip4 b) = (λ e. omega (arith, e), λ e. omega (arith, e))
key_ip_iff no_ip (ip6 b) = (λ e. omega (arith, e), λ e. omega (arith, e))
key_ip_iff no_ip no_ip = (λ e. tt, λ e. refl)

-- Two addresses have one key exactly when their ports agree modulo 2^16 and their IP addresses are
-- equal if they are of one kind; an IPv4 and an IPv6 address have one key if the IPv6 address begins
-- with the IPv4 address and goes on with twelve zero bytes; and an address that is neither has the key
-- of the zero address of both kinds.
pub addr_to_key_iff :
    (x y : UdpAddr)
    → (addr_to_key x ≡ addr_to_key y) ↔ (SameKey x.ip y.ip × (x.port % 2 ^ 16 ≡ y.port % 2 ^ 16))
unfolding addr_to_key
addr_to_key_iff x y =
    let (to, from) = key_ip_iff x.ip y.ip in
    (
      λ e. (to (omega (arith, e)), omega (arith, e)),
      λ (h, p). let same = from h in omega (arith, same, p),
    )
