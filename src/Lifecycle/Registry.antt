-- ===== src/Lifecycle/Registry.antt =====
-- lifecycle.go: the registry of listeners, connections and pending dials, and the wait for its end.
use vclnet.Base.{
  ℕ, suc, ◌<◌, List, [], ◌∷◌, Bool, true, false, ◌==◌, ◌&&◌, Option, none, some, if◌then◌else◌,
  contains, ◌≡◌,
}

-- The live objects by their identities. A dial in flight is one that has begun and not ended. The
-- channels for `drainedCh` are numbered as they are made; `shut` lists those closed. `notifying`
-- counts the goroutines that have taken something out and have not yet called `notifyIfDrained`.
pub record Registry : Type 0 where
  pub listeners : List ℕ
  pub conns : List ℕ
  pub packet_conns : List ℕ
  pub dials_begun : ℕ
  pub dials_ended : ℕ
  pub drained_ch : Option ℕ
  pub made : ℕ
  pub shut : List ℕ
  pub notifying : ℕ

-- `newLiveRegistry`
abbrev pub new_registry : Registry
new_registry = record {
  listeners = [];
  conns = [];
  packet_conns = [];
  dials_begun = 0;
  dials_ended = 0;
  drained_ch = none;
  made = 0;
  shut = [];
  notifying = 0;
}

pub data Kind : Type 0 where
  listener conn packet_conn : Kind

unfoldable pub include : ℕ → List ℕ → List ℕ
include i xs = if contains i xs then xs else i ∷ xs

unfoldable pub exclude : ℕ → List ℕ → List ℕ
exclude i [] = []
exclude i (x ∷ xs) = if i == x then exclude i xs else x ∷ exclude i xs

-- `addListener`, `addConn` and `addPacketConn`
unfoldable pub add : Kind → ℕ → Registry → Registry
unfolding include
add listener i r = record r { listeners = include i r.listeners }
add conn i r = record r { conns = include i r.conns }
add packet_conn i r = record r { packet_conns = include i r.packet_conns }

-- `removeListener`, `removeConn` and `removePacketConn`, up to the call of `notifyIfDrained`.
unfoldable pub remove : Kind → ℕ → Registry → Registry
unfolding exclude
remove listener i r = record r { listeners = exclude i r.listeners; notifying = suc r.notifying }
remove conn i r = record r { conns = exclude i r.conns; notifying = suc r.notifying }
remove packet_conn i r = record r {
  packet_conns = exclude i r.packet_conns;
  notifying = suc r.notifying;
}

-- `beginDial`
unfoldable pub begin_dial : Registry → Registry
begin_dial r = record r { dials_begun = suc r.dials_begun }

-- The function that `beginDial` returns, up to the call of `notifyIfDrained`.
unfoldable pub end_dial : Registry → Registry
end_dial r = record r { dials_ended = suc r.dials_ended; notifying = suc r.notifying }

unfoldable pub is_empty : List ℕ → Bool
is_empty [] = true
is_empty (x ∷ xs) = false

-- `drainedLocked` and `isDrained`
unfoldable pub drained : Registry → Bool
unfolding is_empty
drained r =
    is_empty r.listeners
    && is_empty r.conns
    && is_empty r.packet_conns
    && (r.dials_begun == r.dials_ended)

unfoldable pub close_drained : Registry → Registry
close_drained r = elim r.drained_ch [
  | none ↦ r
  | some c ↦ record r { shut = c ∷ r.shut; drained_ch = none }
]

-- `notifyIfDrained`
unfoldable pub notify_if_drained : Registry → Registry
unfolding drained close_drained
notify_if_drained r = if drained r then close_drained r else r

-- The call of `notifyIfDrained` that is still due.
unfoldable pub notify : ℕ → Registry → Registry
unfolding notify_if_drained
notify left r = record (notify_if_drained r) { notifying = left }

-- `waitDrain` up to its wait: none if it returns true at once, or the channel it waits on.
unfoldable pub enter_drain : Registry → Registry × Option ℕ
unfolding drained
enter_drain r = if drained r then (r, none) else elim r.drained_ch [
  | some c ↦ (r, some c)
  | none ↦ (record r { drained_ch = some r.made; made = suc r.made }, some r.made)
]

-- What other goroutines do to it. Each dial ends once, after it has begun.
pub data Turn (r : Registry) : Registry → Type 0 where
  adds : (k : Kind) (i : ℕ) → Turn r (add k i r)
  removes : (k : Kind) (i : ℕ) → Turn r (remove k i r)
  dial_begins : Turn r (begin_dial r)
  dial_ends : r.dials_ended < r.dials_begun → Turn r (end_dial r)
  notifies : (left : ℕ) → r.notifying ≡ suc left → Turn r (notify left r)
  waits : Turn r (enter_drain r).0

pub data Reach : Registry → Type 0 where
  init : Reach new_registry
  later : {r s : Registry} → Reach r → Turn r s → Reach s
