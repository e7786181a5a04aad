-- ===== src/Vls/Epoll.antt =====
-- internal/vclpoll/cgo.go, lines 800 to 886 and 1413 to 1468: the calls on a VLS epoll handle. The poller
-- and the workers make the same, the poller under the read lock.
use vclnet.Base.{
  ℕ, zero, suc, ℤ, pos, negsuc, ◌-◌, ◌%◌, ◌^◌, ◌<◌, ◌≤◌, ◌≡◌, refl, List, [], ◌∷◌, Option, none,
  some, ◌==◌, ltb, length, arith, if◌then◌else◌,
}
use vclnet.Errors.{Error, Result, ok, err, vpp_err}
use vclnet.Wait.{Vlsh}
use vclnet.Vls.Calls.{is_negative}

-- The operations of `epoll_ctl`, and `struct epoll_event`: the mask and the 64 bits of data.
pub data CtlOp : Type 0 where
  ctl_add ctl_mod ctl_del : CtlOp

pub record EpollEvent : Type 0 where
  pub events : ℕ
  pub payload : ℕ

-- `pollEvent`
pub record PollEvent : Type 0 where
  pub vlsh : Vlsh
  pub events : ℕ

-- `C.uint64_t(vlsh)`: the sign of the 32 bits is extended.
unfoldable pub to_payload : Vlsh → ℕ
to_payload (pos n) = n % 2 ^ 64
to_payload (negsuc n) = 2 ^ 64 - 1 - n % 2 ^ 64

-- `VLSH(…)` of the 64 bits: the lowest 32, read with their sign.
unfoldable pub of_payload : ℕ → Vlsh
of_payload x =
    let low = x % 2 ^ 32 in if ltb low (2 ^ 31) then pos low else negsuc (2 ^ 32 - 1 - low)

-- An `int32`.
abbrev pub IsInt32 : Vlsh → Type 0
IsInt32 (pos n) = n < 2 ^ 31
IsInt32 (negsuc n) = n < 2 ^ 31

-- `pollerEpollCreate` and `rawEpollCreate`
unfoldable pub epoll_create : ℤ → Result Vlsh
epoll_create rv = if is_negative rv then err (vpp_err rv) else ok rv

-- The event of `rawEpollCtl`, `pollerEpollCtlAdd` and `pollerEpollCtlMod`; the poller's key is the
-- session itself.
unfoldable pub ctl_event : Vlsh → ℕ → EpollEvent
unfolding to_payload
ctl_event key events = record { events = events % 2 ^ 32; payload = to_payload key }

-- `rawEpollCtl`: what libvppcom is given, and the error.
unfoldable pub raw_epoll_ctl :
    Vlsh → Vlsh → ℕ → CtlOp → ℤ → (CtlOp × Vlsh × EpollEvent) × Option Error
unfolding ctl_event
raw_epoll_ctl raw key events op rv =
    ((op, raw, ctl_event key events), if is_negative rv then some (vpp_err rv) else none)

-- `maxEvents`
unfoldable pub max_events : ℕ → ℕ
max_events len = if ltb 64 len then 64 else len

-- `buf[i] = pollEvent{…}` for the events that libvppcom counted.
unfoldable pub copy_events : ℕ → List EpollEvent → List PollEvent
unfolding of_payload
copy_events zero es = []
copy_events (suc n) [] = []
copy_events (suc n) (e ∷ es) =
    record { vlsh = of_payload e.payload; events = e.events } ∷ copy_events n es

copied_if_positive : ℤ × List EpollEvent → ℕ × List PollEvent
unfolding copy_events
copied_if_positive (pos n, es) = (n, copy_events n es)
copied_if_positive (negsuc n, es) = (0, [])

-- `rawEpollWait` and `pollerEpollWait`, into a buffer of `len` events: the count, and the events
-- written. `vls_epoll_wait` is given the largest count.
unfoldable pub epoll_wait : ℕ → (ℕ → ℤ × List EpollEvent) → ℕ × List PollEvent
unfolding max_events copied_if_positive
epoll_wait len vls_epoll_wait =
    if len == 0 then (0, []) else copied_if_positive (vls_epoll_wait (max_events len))

-- A key that is given to `epoll_ctl` comes back with the event, for every handle of 32 bits: also the
-- negative keys that the accept loops use.
pub of_payload-to_payload : (key : Vlsh) → IsInt32 key → of_payload (to_payload key) ≡ key
unfolding of_payload to_payload
of_payload-to_payload (pos n) h = ground arith
of_payload-to_payload (negsuc n) h = ground arith

length-copy_events : (n : ℕ) (es : List EpollEvent) → n ≤ length es → length (copy_events n es) ≡ n
unfolding copy_events
length-copy_events zero es h = refl
length-copy_events (suc n) [] h = absurd (omega arith)
length-copy_events (suc n) (e ∷ es) h = omega (arith, length-copy_events n es)

-- `vls_epoll_wait` fills in as many events as it counts, and no more than it may.
abbrev pub IsHonest : ℕ → ℤ × List EpollEvent → Type 0
IsHonest max (pos n, es) = (n ≤ max) × (n ≤ length es)
IsHonest max (negsuc n, es) = Unit {0}

copied-bounded :
    (max : ℕ) (a : ℤ × List EpollEvent)
    → IsHonest max a
    → ((copied_if_positive a).0 ≤ max)
      × (length (copied_if_positive a).1 ≡ (copied_if_positive a).0)
unfolding copied_if_positive
copied-bounded max (pos n, es) h = (h.0, length-copy_events n es h.1)
copied-bounded max (negsuc n, es) h = (omega arith, refl)

-- If `vls_epoll_wait` keeps to the largest count that it is given, `rawEpollWait` and `pollerEpollWait`
-- write as many events as they return, and neither more than the buffer holds nor more than 64.
pub epoll_wait-bounded :
    (len : ℕ) (vls_epoll_wait : ℕ → ℤ × List EpollEvent)
    → IsHonest (max_events len) (vls_epoll_wait (max_events len))
    → ((epoll_wait len vls_epoll_wait).0 ≤ len)
      × ((epoll_wait len vls_epoll_wait).0 ≤ 64)
      × (length (epoll_wait len vls_epoll_wait).1 ≡ (epoll_wait len vls_epoll_wait).0)
unfolding epoll_wait max_events
epoll_wait-bounded len vls_epoll_wait h =
    ground (arith, copied-bounded (max_events len) (vls_epoll_wait (max_events len)) h)
