-- ===== src/Vls/Blocking.antt =====
-- What connects that wait leave open: internal/vclpoll/cgo.go, lines 344 to 362 and 904 to 929.
use vclnet.Vls.Leaks.{remove_first_self, connect_nb-open, opened_handle}
use vclnet.Base.{ℕ, ℤ, pos, negsuc, List, [], ◌∷◌, false, ◌≡◌, refl, ap, arith, int_eq, All}
use vclnet.Wait.{Vlsh, epoll_out}
use vclnet.Vls.Calls.{
  tcp, udp, Call, create, set_reuseport, set_ckpair, bind, listen, connect, close, Vls, is_negative,
  Calls, ◌>>=◌, open_after, opened_by, remove_first, accept, epoll_create, epoll_add, epoll_wait,
}
use vclnet.Vls.Create.{Connecting, connect_nb, finish_blocking_connect, wait_once}
use vclnet.Vls.Addr.{ip_be, port_be}
use vclnet.Vls.Variants.{endpoint4, endpoint6}
use vclnet.Vls.Sessions.{Dial, tcp4_dial, tcp6_dial, udp4_dial, udp6_dial, connect_blocking}

wait_once-open :
    (vls : Vls) (v : Vlsh) (events : ℕ) (log : List Call)
    → open_after vls (wait_once v events vls log).0 ≡ open_after vls log
unfolding wait_once open_after opened_by
wait_once-open vls v events log =
    ground (arith, remove_first_self (vls.answer log epoll_create) (open_after vls log))

-- Open sessions have handles from 0 on.
abbrev NoneNegative : List Vlsh → Type 0
NoneNegative xs = All (λ v. is_negative v ≡ false) xs

remove_first-NoneNegative :
    (v : Vlsh) (xs : List Vlsh) → NoneNegative xs → NoneNegative (remove_first v xs)
unfolding remove_first
remove_first-NoneNegative v [] h = h
remove_first-NoneNegative v (x ∷ xs) h = ground (arith, remove_first-NoneNegative v xs h.1)

opened_by-NoneNegative :
    (rv : ℤ) (xs : List Vlsh) → NoneNegative xs → NoneNegative (opened_by rv xs)
unfolding opened_by
opened_by-NoneNegative (pos n) xs h = (refl, h)
opened_by-NoneNegative (negsuc n) xs h = h

remove_first-negative : (n : ℕ) (xs : List Vlsh) → NoneNegative xs → remove_first (negsuc n) xs ≡ xs
unfolding remove_first
remove_first-negative n [] h = refl
remove_first-negative n (pos m ∷ xs) h = ap (λ ys. pos m ∷ ys) (remove_first-negative n xs h.1)
remove_first-negative n (negsuc m ∷ xs) h = absurd (cc)

open_after-NoneNegative : (vls : Vls) (log : List Call) → NoneNegative (open_after vls log)
unfolding open_after
open_after-NoneNegative vls [] = tt
open_after-NoneNegative vls (create p ∷ log) =
    opened_by-NoneNegative (vls.answer log (create p)) (open_after vls log)
      (open_after-NoneNegative vls log)
open_after-NoneNegative vls (accept v ∷ log) =
    opened_by-NoneNegative (vls.answer log (accept v)) (open_after vls log)
      (open_after-NoneNegative vls log)
open_after-NoneNegative vls (epoll_create ∷ log) =
    opened_by-NoneNegative (vls.answer log epoll_create) (open_after vls log)
      (open_after-NoneNegative vls log)
open_after-NoneNegative vls (close v ∷ log) =
    remove_first-NoneNegative v (open_after vls log) (open_after-NoneNegative vls log)
open_after-NoneNegative vls (set_reuseport v ∷ log) = open_after-NoneNegative vls log
open_after-NoneNegative vls (set_ckpair v ckp ∷ log) = open_after-NoneNegative vls log
open_after-NoneNegative vls (bind v ep ∷ log) = open_after-NoneNegative vls log
open_after-NoneNegative vls (listen v n ∷ log) = open_after-NoneNegative vls log
open_after-NoneNegative vls (connect v ep ∷ log) = open_after-NoneNegative vls log
open_after-NoneNegative vls (epoll_add e v n ∷ log) = open_after-NoneNegative vls log
open_after-NoneNegative vls (epoll_wait e ∷ log) = open_after-NoneNegative vls log

-- Closing what `opened_by` added, be it a session or none.
remove_first-opened_by :
    (v : Vlsh) (xs : List Vlsh) → NoneNegative xs → remove_first v (opened_by v xs) ≡ xs
unfolding opened_by
remove_first-opened_by (pos n) xs h = remove_first_self (pos n) xs
remove_first-opened_by (negsuc n) xs h = remove_first-negative n xs h

finish-open :
    (vls : Vls) (c : Connecting) (log : List Call) (left : List Vlsh)
    → NoneNegative left
    → open_after vls log ≡ opened_by c.out_vlsh left
    → let (log', r) = finish_blocking_connect c vls log in
      open_after vls log' ≡ opened_handle r left
unfolding finish_blocking_connect opened_handle open_after opened_by
finish-open vls c log left h e = ground (
  arith,
  e,
  remove_first-opened_by c.out_vlsh left h,
  wait_once-open vls c.out_vlsh epoll_out log,
)

blocking :
    (m : Calls Connecting) (vls : Vls) (log : List Call)
    → let (log1, r) = m vls log in
      open_after vls log1 ≡ opened_by r.out_vlsh (open_after vls log)
      → let (log', s) = (m >>= finish_blocking_connect) vls log in
        open_after vls log' ≡ opened_handle s (open_after vls log)
blocking m vls log e =
    let (log1, r) = m vls log in
    finish-open vls r log1 (open_after vls log) (open_after-NoneNegative vls log) e

-- A connect that is waited for leaves open, besides what was open before, the session that it returns
-- if it returns one, and nothing if it fails or runs into its timeout; the epoll handle that it
-- waits on is closed on every path.
pub connect_blocking-open :
    (vls : Vls) (c : Dial) (log : List Call)
    → let (log', r) = connect_blocking c vls log in
      open_after vls log' ≡ opened_handle r (open_after vls log)
connect_blocking-open vls (tcp4_dial ip port) log =
    blocking (connect_nb tcp (endpoint4 (ip_be ip) (port_be port))) vls log
      (connect_nb-open vls tcp (endpoint4 (ip_be ip) (port_be port)) log)
connect_blocking-open vls (tcp6_dial ip port) log =
    blocking (connect_nb tcp (endpoint6 ip (port_be port))) vls log
      (connect_nb-open vls tcp (endpoint6 ip (port_be port)) log)
connect_blocking-open vls (udp4_dial ip port) log =
    blocking (connect_nb udp (endpoint4 (ip_be ip) (port_be port))) vls log
      (connect_nb-open vls udp (endpoint4 (ip_be ip) (port_be port)) log)
connect_blocking-open vls (udp6_dial ip port) log =
    blocking (connect_nb udp (endpoint6 ip (port_be port))) vls log
      (connect_nb-open vls udp (endpoint6 ip (port_be port)) log)
