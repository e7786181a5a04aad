-- ===== src/Dialer/Others.antt =====
-- dialer.go, lines 252 to 274, and tls.go, lines 257 to 303: dials over UDP and with native TLS. What
-- the resolver, the checks and VPP answer is a parameter.
use vclnet.Base.{ℕ, refl, List, [], Bool, false, Option, none, some, arith, if◌then◌else◌}
use vclnet.Errors.{Error, closed, err}
use vclnet.Wait.{Vlsh}
use vclnet.Lifecycle.Registry.{Registry, begin_dial}
use vclnet.Dialer.Connect.{
  Attempt, Dialed, dial_started, ending, opened, Left, Balanced, started-Balanced, ending-keeps,
}

-- A dial behind `beginDial`, where `refused` is the error of a check before the session is created.
abbrev pub dial_begun : Option Error → Attempt → ℕ → Registry → Dialed
dial_begun (some e) a i r = record { live = r; closed_vlsh = []; outcome = err e }
dial_begun none a i r = dial_started a.start a i r

-- `dialUDP`; the check is `resolveUDPAddr`.
unfoldable pub dial_udp : Option Error → Attempt → ℕ → Registry → Dialed
unfolding dial_started ending
dial_udp unresolved a i r = ending (dial_begun unresolved a i (begin_dial r))

-- The checks of `DialTLSContext`, in their order.
pub record TlsChecks : Type 0 where
  pub invalid : Option Error
  pub bad_network : Option Error
  pub udp_network : Option Error
  pub ctx_done : Option Error
  pub no_ckpair : Option Error
  pub unresolved : Option Error

abbrev pub or_else : Option Error → Option Error → Option Error
or_else (some e) o = some e
or_else none o = o

abbrev pub refused : TlsChecks → Option Error
refused c = or_else c.invalid (
    or_else c.bad_network
      (or_else c.udp_network (or_else c.ctx_done (or_else c.no_ckpair c.unresolved))))

-- `DialTLSContext`
unfoldable pub dial_tls_context : Bool → TlsChecks → Attempt → ℕ → Registry → Dialed
unfolding dial_started ending
dial_tls_context shutdown_started c a i r =
    if shutdown_started
    then record { live = r; closed_vlsh = []; outcome = err closed }
    else ending (dial_begun (refused c) a i (begin_dial r))

-- The sessions that a dial opens.
abbrev pub opened_by_dial : Option Error → Attempt → List Vlsh
opened_by_dial (some e) a = []
opened_by_dial none a = opened a.start

begun-Balanced :
    (o : Option Error) (a : Attempt) (i : ℕ) (r : Registry)
    → Balanced (opened_by_dial o a) i r (ending (dial_begun o a i (begin_dial r)))
unfolding Balanced ending Left begin_dial
begun-Balanced none a i r = started-Balanced a.start a i r
begun-Balanced (some e) a i r =
    let (b, n, c, w) =
      ending-keeps (record { live = begin_dial r; closed_vlsh = []; outcome = err e }) in
    (omega (arith, b), omega (arith, n), (refl, c))

-- A dial over UDP begins and ends once and leaks no session, as `dialSingleTCP`.
dial_udp-Balanced :
    (unresolved : Option Error) (a : Attempt) (i : ℕ) (r : Registry)
    → Balanced (opened_by_dial unresolved a) i r (dial_udp unresolved a i r)
unfolding dial_udp
dial_udp-Balanced unresolved a i r = begun-Balanced unresolved a i r

-- So does one with native TLS, before a shutdown.
dial_tls_context-Balanced :
    (c : TlsChecks) (a : Attempt) (i : ℕ) (r : Registry)
    → Balanced (opened_by_dial (refused c) a) i r (dial_tls_context false c a i r)
unfolding dial_tls_context
dial_tls_context-Balanced c a i r = begun-Balanced (refused c) a i r
