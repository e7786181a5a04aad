-- ===== src/Worker/Defs.antt =====
-- internal/vclpoll/worker.go, lines 22 to 55 and 215 to 436: the state of a worker and what its
-- goroutine does to it.
use vclnet.Base.{
  ℕ, suc, List, [], ◌∷◌, Bool, true, false, Option, none, some, ◌==◌, bit_or, if◌then◌else◌, lookup,
  insert, delete, int_eq, not, complement,
}
use vclnet.Errors.{Error, poll_closed, ownership, Result, ok, err}
use vclnet.Wait.{Vlsh, Waiter, WaitSet, include, wake_all_of}

-- A call on the epoll handle: the raw handle, the key under which events come back, the mask, and
-- whether VPP accepted it.
pub data RawCall : Type 0 where
  add mod_ : Vlsh → Vlsh → ℕ → Bool → RawCall
  del : Vlsh → RawCall

-- The answers of VPP: to epoll calls, by all that was called before; `session_worker` is the VCL
-- worker that owns a raw handle, if it can tell; `ctl_error` and `close_error` are the errors of epoll
-- calls that it refuses and of `rawClose`.
pub record Vpp : Type 0 where
  pub add_ok : List RawCall → Vlsh → ℕ → Bool
  pub mod_ok : List RawCall → Vlsh → ℕ → Bool
  pub ctl_error : Vlsh → ℕ → Error
  pub session_worker : Vlsh → Option ℕ
  pub close_error : Vlsh → Option Error

-- `closed_raw` are the raw handles given to `rawClose`, the last one first. `violations` is what the
-- worker has added to the dispatcher's `ownershipViolations`.
pub record Worker : Type 0 where
  pub vcl_index : ℕ
  pub sessions : List (Vlsh × Vlsh)
  pub waiters : List (Vlsh × WaitSet)
  pub woken : List ℕ
  pub calls : List RawCall
  pub closed_raw : List Vlsh
  pub violations : ℕ
  pub ep_open : Bool
  pub quiesced : Bool

unfoldable pub raw_close : Worker → Vlsh → Worker
raw_close w raw = record w { closed_raw = raw ∷ w.closed_raw }

-- `checkOwnership`
unfoldable pub check_ownership : Vpp → Worker → Vlsh → Worker × Bool
check_ownership vpp w raw = elim (vpp.session_worker raw) [
  | none ↦ (record w { violations = suc w.violations }, false)
  | some owner ↦
      if owner == w.vcl_index
      then (w, true)
      else (record w { violations = suc w.violations }, false)
]

owned_checked : Vlsh → Worker × Bool → Worker × Result Vlsh
owned_checked raw (w, true) = (w, ok raw)
owned_checked raw (w, false) = (w, err ownership)

-- `ownedRaw`: the raw handle, if it is still the one that the caller saw and the worker's own.
unfoldable pub owned_raw : Vpp → Worker → Vlsh → Vlsh → Worker × Result Vlsh
unfolding owned_checked check_ownership
owned_raw vpp w public expected = elim (lookup public w.sessions) [
  | none ↦ (w, err poll_closed)
  | some raw ↦
      if not (int_eq.beq raw expected)
      then (w, err poll_closed)
      else owned_checked raw (check_ownership vpp w raw)
]

unfoldable pub note_mod : Vpp → Worker → Vlsh → Vlsh → ℕ → Worker
note_mod vpp w raw key m = record w { calls = mod_ raw key m (vpp.mod_ok w.calls raw m) ∷ w.calls }

unfoldable pub drop_wait_set : Worker → Vlsh → Vlsh → WaitSet → Worker
drop_wait_set w public raw set = record w {
  calls = del raw ∷ w.calls;
  waiters = delete public w.waiters;
  woken = wake_all_of set.waiters w.woken;
}

unfoldable pub first_waiter : Vpp → Worker → Vlsh → Vlsh → Waiter → Worker × Bool
first_waiter vpp w key raw wtr =
    let accepted = vpp.add_ok w.calls raw wtr.events in
    let w' = record w { calls = add raw key wtr.events accepted ∷ w.calls } in
    if accepted
    then (
      record w' {
        waiters = insert key (record { waiters = wtr ∷ []; events = wtr.events }) w.waiters;
      },
      true,
    )
    else (w', false)

unfoldable pub join : Worker → Vlsh → Waiter → WaitSet → Worker
join w key wtr set = record w {
  waiters =
      insert key
        (record { waiters = include wtr set.waiters; events = bit_or set.events wtr.events })
        w.waiters;
}

unfoldable pub next_waiter : Vpp → Worker → Vlsh → Vlsh → Waiter → WaitSet → Worker × Bool
unfolding join note_mod
next_waiter vpp w key raw wtr set =
    let new_events = bit_or set.events wtr.events in
    if new_events == set.events
    then (join w key wtr set, true)
    else if vpp.mod_ok w.calls raw new_events
    then (join (note_mod vpp w raw key new_events) key wtr set, true)
    else (note_mod vpp w raw key new_events, false)

-- The part that `addWaiter` and `addWaiterRaw` share: false if VPP refuses.
unfoldable pub park : Vpp → Worker → Vlsh → Vlsh → Waiter → Worker × Bool
unfolding first_waiter next_waiter
park vpp w key raw wtr = elim (lookup key w.waiters) [
  | none ↦ first_waiter vpp w key raw wtr
  | some set ↦ next_waiter vpp w key raw wtr set
]

unfoldable pub parked_owned : Vpp → Vlsh → Waiter → Worker × Result Vlsh → Worker × Option Error
unfolding park
parked_owned vpp public wtr (w, err e) = (w, some e)
parked_owned vpp public wtr (w, ok raw) =
    let (w', accepted) = park vpp w public raw wtr in
    (w', if accepted then none else some (vpp.ctl_error raw wtr.events))

-- `addWaiter`: nil, or the error.
unfoldable pub add_waiter : Vpp → Worker → Vlsh → Vlsh → Waiter → Worker × Option Error
unfolding owned_raw parked_owned
add_waiter vpp w public raw wtr = parked_owned vpp public wtr (owned_raw vpp w public raw)

-- `addWaiterRaw`: the listener's raw handle is kept in `sessions` under its complement.
unfoldable pub add_waiter_raw : Vpp → Worker → Vlsh → Waiter → Worker × Bool
unfolding park
add_waiter_raw vpp w raw wtr =
    park vpp (record w { sessions = insert (complement raw) raw w.sessions }) (complement raw) raw
      wtr
