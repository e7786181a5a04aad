-- ===== src/Addr/Tests.antt =====
-- A name with addresses of both families, and the theorems at it.
use vclnet.Base.{◌≡◌, refl, List, [], ◌∷◌, Option, none, some}
use vclnet.Addr.Resolve.{
  Ip, v4, v6, tcp, tcp4, resolve_host, candidates, preferred, literal_addr, resolve_host-preferred,
  literal_addr-resolve_host,
}

abbrev found : List (Option Ip)
found = some (v6 1) ∷ none ∷ some (v4 2) ∷ some (v4 3) ∷ []

resolve_host-preferred_example : resolve_host tcp found ≡ preferred (candidates tcp found)
unfolding vclnet.Addr.Resolve.is_udp
resolve_host-preferred_example = resolve_host-preferred tcp found refl
