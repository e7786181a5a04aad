-- ===== src/Vls/Calls.antt =====
-- The calls of libvppcom that internal/vclpoll/cgo.go makes to create, use and close sessions. The
-- library itself is a parameter: its answer to a call, by all calls that went before.
use vclnet.Base.{ℕ, ℤ, pos, negsuc, int_eq, List, [], ◌∷◌, Bool, true, false, if◌then◌else◌}
use vclnet.Wait.{Vlsh}

pub data Proto : Type 0 where
  tcp udp tls : Proto

-- `vppcom_endpt_t`: the address as four or sixteen bytes, the port in network order.
pub record Endpoint : Type 0 where
  pub is_ip4 : Bool
  pub ip : List ℕ
  pub port_be : ℕ

pub data Call : Type 0 where
  create : Proto → Call
  set_reuseport : Vlsh → Call
  set_ckpair : Vlsh → ℕ → Call
  bind : Vlsh → Endpoint → Call
  listen : Vlsh → ℕ → Call
  connect : Vlsh → Endpoint → Call
  accept : Vlsh → Call
  close : Vlsh → Call
  epoll_create : Call
  epoll_add : Vlsh → Vlsh → ℕ → Call
  epoll_wait : Vlsh → Call

-- The return value of a call, by the calls before it, the last one first.
pub record Vls : Type 0 where
  pub answer : List Call → Call → ℤ

abbrev pub is_negative : ℤ → Bool
is_negative (pos n) = false
is_negative (negsuc n) = true

-- A sequence of calls: from the calls before it to those after it, and its result.
abbrev pub Calls {ℓ} : Type ℓ → Type ℓ
Calls A = Vls → List Call → List Call × A

infixl 5 ◌>>=◌ ◌>>◌
abbrev pub ◌>>=◌ {ℓ κ} : {A : Type ℓ} {B : Type κ} → Calls A → (A → Calls B) → Calls B
(m >>= f) vls log = let (log', a) = m vls log in f a vls log'

abbrev pub ◌>>◌ {ℓ κ} : {A : Type ℓ} {B : Type κ} → Calls A → Calls B → Calls B
m >> k = m >>= λ _. k

abbrev pub return {ℓ} : {A : Type ℓ} → A → Calls A
return a vls log = (log, a)

abbrev pub call : Call → Calls ℤ
call c vls log = (c ∷ log, vls.answer log c)

-- `if (rv < 0) return rv;` around the rest.
abbrev pub unless_negative : ℤ → Calls ℤ → Calls ℤ
unless_negative rv rest = if is_negative rv then return rv else rest

-- `if (rv < 0) { vls_close(vlsh); return rv; }` around the rest.
abbrev pub close_if_negative : Vlsh → ℤ → Calls ℤ → Calls ℤ
close_if_negative v rv rest = if is_negative rv then (do call (close v); return rv) else rest

unfoldable pub remove_first : Vlsh → List Vlsh → List Vlsh
remove_first v [] = []
remove_first v (x ∷ xs) = if int_eq.beq v x then xs else x ∷ remove_first v xs

unfoldable pub opened_by : ℤ → List Vlsh → List Vlsh
opened_by rv left = if is_negative rv then left else rv ∷ left

-- The sessions that the calls have created and not closed, the last one first.
unfoldable pub open_after : Vls → List Call → List Vlsh
unfolding remove_first opened_by
open_after vls [] = []
open_after vls (create p ∷ log) = opened_by (vls.answer log (create p)) (open_after vls log)
open_after vls (accept v ∷ log) = opened_by (vls.answer log (accept v)) (open_after vls log)
open_after vls (epoll_create ∷ log) = opened_by (vls.answer log epoll_create) (open_after vls log)
open_after vls (close v ∷ log) = remove_first v (open_after vls log)
open_after vls (_ ∷ log) = open_after vls log
