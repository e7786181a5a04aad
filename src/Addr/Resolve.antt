-- ===== src/Addr/Resolve.antt =====
-- addr.go, lines 27 to 178: networks, and the addresses that a name or a literal stands for on them.
-- The resolver and the parser of Go are parameters: a name comes with what they give for it.
use vclnet.Base.{
  ℕ, ◌≡◌, refl, ap, List, [], ◌∷◌, Bool, true, false, not, Option, none, some, arith, if◌then◌else◌,
  ◌↔◌,
}
use vclnet.Errors.{unknown_network, dns_error, addr_error, Result, ok, err}

-- The names of networks that the package tells apart.
pub data Network : Type 0 where
  tcp tcp4 tcp6 udp udp4 udp6 other : Network

-- An address by whether `To4` gives one.
pub data Ip : Type 0 where
  v4 v6 : ℕ → Ip

-- `network == "tcp4" || network == "udp4"`
unfoldable pub ipv4_only : Network → Bool
ipv4_only tcp4 = true
ipv4_only udp4 = true
ipv4_only _ = false

-- `network == "tcp6" || network == "udp6"`
unfoldable pub ipv6_only : Network → Bool
ipv6_only tcp6 = true
ipv6_only udp6 = true
ipv6_only _ = false

-- `parseNetwork`
unfoldable pub parse_network : Network → Result (Bool × Bool)
unfolding ipv4_only ipv6_only
parse_network other = err unknown_network
parse_network network = ok (ipv4_only network, ipv6_only network)

-- `isUDP`
unfoldable pub is_udp : Network → Bool
is_udp udp = true
is_udp udp4 = true
is_udp udp6 = true
is_udp _ = false

-- The loop of `resolveAddrContext`; what does not parse is none.
unfoldable pub resolve_loop : Network → List (Option Ip) → Option Ip → Option Ip
unfolding ipv4_only ipv6_only
resolve_loop network [] first_v6 = first_v6
resolve_loop network (none ∷ xs) first_v6 = resolve_loop network xs first_v6
resolve_loop network (some (v4 a) ∷ xs) first_v6 =
    let rest = resolve_loop network xs first_v6 in
    if not (ipv6_only network) then some (v4 a) else rest
resolve_loop network (some (v6 a) ∷ xs) none =
    let rest = resolve_loop network xs none in
    let taken = resolve_loop network xs (some (v6 a)) in
    if not (ipv4_only network) then taken else rest
resolve_loop network (some (v6 a) ∷ xs) (some b) = resolve_loop network xs (some b)

-- The end of `resolveAddrContext`.
unfoldable pub or_dns_error : Option Ip → Result Ip
or_dns_error (some a) = ok a
or_dns_error none = err dns_error

-- `resolveAddrContext` for a host name, given its addresses.
unfoldable pub resolve_host : Network → List (Option Ip) → Result Ip
unfolding resolve_loop or_dns_error
resolve_host network xs = or_dns_error (resolve_loop network xs none)

-- `network == "tcp4"`, `network == "tcp6"`
unfoldable pub is_tcp4 : Network → Bool
is_tcp4 tcp4 = true
is_tcp4 _ = false

unfoldable pub is_tcp6 : Network → Bool
is_tcp6 tcp6 = true
is_tcp6 _ = false

-- The loop of `resolveAddrs`.
unfoldable pub candidates : Network → List (Option Ip) → List Ip
unfolding is_tcp4 is_tcp6
candidates network [] = []
candidates network (none ∷ xs) = candidates network xs
candidates network (some (v4 a) ∷ xs) =
    let rest = candidates network xs in if not (is_tcp6 network) then v4 a ∷ rest else rest
candidates network (some (v6 a) ∷ xs) =
    let rest = candidates network xs in if not (is_tcp4 network) then v6 a ∷ rest else rest

-- `literalAddr` for a host that is not empty.
unfoldable pub literal_addr : Network → Option Ip → Result Ip
unfolding ipv4_only ipv6_only
literal_addr network none = err dns_error
literal_addr network (some (v4 a)) = if ipv6_only network then err addr_error else ok (v4 a)
literal_addr network (some (v6 a)) = if ipv4_only network then err addr_error else ok (v6 a)

first_of : List Ip → Option Ip
first_of [] = none
first_of (a ∷ xs) = some a

-- The first IPv4 address, or else `fallback`.
first_v4 : List Ip → Option Ip → Option Ip
first_v4 [] fallback = fallback
first_v4 (v4 a ∷ xs) fallback = some (v4 a)
first_v4 (v6 a ∷ xs) fallback = first_v4 xs fallback

-- The preference of one address among many: the first IPv4 address, or else the first of all.
unfoldable pub preferred : List Ip → Result Ip
unfolding first_of first_v4 or_dns_error
preferred xs = or_dns_error (first_v4 xs (first_of xs))

same_rule :
    (network : Network)
    → is_udp network ≡ false
    → (ipv4_only network ≡ is_tcp4 network) × (ipv6_only network ≡ is_tcp6 network)
unfolding is_udp ipv4_only ipv6_only is_tcp4 is_tcp6
same_rule tcp h = (refl, refl)
same_rule tcp4 h = (refl, refl)
same_rule tcp6 h = (refl, refl)
same_rule udp h = absurd (cc)
same_rule udp4 h = absurd (cc)
same_rule udp6 h = absurd (cc)
same_rule other h = (refl, refl)

module _ (network : Network) (tcp_only : is_udp network ≡ false) where
  loop-some :
      (xs : List (Option Ip)) (b : Ip)
      → resolve_loop network xs (some b) ≡ first_v4 (candidates network xs) (some b)
  unfolding resolve_loop candidates first_v4
  loop-some [] b = refl
  loop-some (none ∷ xs) b = loop-some xs b
  loop-some (some (v4 a) ∷ xs) b = ground (arith, same_rule network tcp_only, loop-some xs b)
  loop-some (some (v6 a) ∷ xs) b = ground (arith, same_rule network tcp_only, loop-some xs b)

  loop-none :
      (xs : List (Option Ip))
      → resolve_loop network xs none
        ≡ first_v4 (candidates network xs) (first_of (candidates network xs))
  unfolding resolve_loop candidates first_v4 first_of
  loop-none [] = refl
  loop-none (none ∷ xs) = loop-none xs
  loop-none (some (v4 a) ∷ xs) = ground (arith, same_rule network tcp_only, loop-none xs)
  loop-none (some (v6 a) ∷ xs) =
      ground (arith, same_rule network tcp_only, loop-none xs, loop-some xs (v6 a))

-- On a TCP network the one address that `resolveAddrContext` picks for a name is, of those that
-- `resolveAddrs` gives, the first IPv4 address, or else the first; and it fails only if there is none.
pub resolve_host-preferred :
    (network : Network) (xs : List (Option Ip))
    → is_udp network ≡ false
    → resolve_host network xs ≡ preferred (candidates network xs)
unfolding resolve_host preferred
resolve_host-preferred network xs h = ap or_dns_error (loop-none network h xs)

-- A literal address is accepted on a network exactly when a name that stands for it alone is.
pub literal_addr-resolve_host :
    (network : Network) (a b : Ip)
    → (literal_addr network (some a) ≡ ok b) ↔ (resolve_host network (some a ∷ []) ≡ ok b)
unfolding literal_addr resolve_host resolve_loop
literal_addr-resolve_host network (v4 a) b = (λ h. ground (arith, h), λ h. ground (arith, h))
literal_addr-resolve_host network (v6 a) b = (λ h. ground (arith, h), λ h. ground (arith, h))
