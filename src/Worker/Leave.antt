-- ===== src/Worker/Leave.antt =====
-- internal/vclpoll/worker.go, lines 154 to 188, 255 to 342 and 374 to 413: how waiters and sessions
-- leave a worker.
use vclnet.Base.{
  ℕ, List, [], ◌∷◌, Bool, true, false, Option, none, some, ◌==◌, if◌then◌else◌, lookup, insert,
  delete, int_eq, complement, contains,
}
use vclnet.Wait.{Vlsh, Waiter, WaitSet, has, exclude, combined_events, kept, fired, wake_all_of}
use vclnet.Worker.Defs.{RawCall, del, Vpp, Worker, raw_close, note_mod, drop_wait_set}

-- The end of `cancelWaiter`, `cancelWaiterRaw` and `handleEvent` for a session with a raw handle:
-- `left` are the waiters that stay.
unfoldable pub settle : Vpp → Worker → Vlsh → Vlsh → WaitSet → List Waiter → Worker
unfolding note_mod drop_wait_set
settle vpp w key raw set [] = record w { calls = del raw ∷ w.calls; waiters = delete key w.waiters }
settle vpp w key raw set (x ∷ left) =
    let union = combined_events (x ∷ left) in
    let set' : WaitSet = record { waiters = x ∷ left; events = union } in
    let w' = record w { waiters = insert key set' w.waiters } in
    if union == set.events
    then w'
    else if vpp.mod_ok w.calls raw union
    then note_mod vpp w' raw key union
    else drop_wait_set (note_mod vpp w' raw key union) key raw set'

unfoldable pub wake_waiter : Worker → Waiter → Worker
wake_waiter w wtr = record w { woken = wtr.id ∷ w.woken }

-- `waiterIsReady`
unfoldable pub waiter_is_ready : Worker → Waiter → Bool
waiter_is_ready w wtr = contains wtr.id w.woken

unfoldable pub cancel_in : Vpp → Worker → Vlsh → Vlsh → Waiter → WaitSet → Worker
unfolding settle wake_waiter
cancel_in vpp w key raw wtr set =
    settle vpp (wake_waiter w wtr) key raw set (exclude wtr.id set.waiters)

unfoldable pub cancel_waiter : Vpp → Worker → Vlsh → Vlsh → Waiter → Worker × Bool
unfolding cancel_in waiter_is_ready
cancel_waiter vpp w public raw wtr = elim (lookup public w.waiters) [
  | none ↦ (w, waiter_is_ready w wtr)
  | some set ↦
      if has wtr.id set.waiters
      then (cancel_in vpp w public raw wtr set, false)
      else (w, waiter_is_ready w wtr)
]

unfoldable pub remove_waiters : Worker → Vlsh → Vlsh → Worker
unfolding drop_wait_set
remove_waiters w public raw = elim (lookup public w.waiters) [
  | none ↦ w
  | some set ↦ drop_wait_set w public raw set
]

-- The branch of `handleEvent` for a wait set whose session is gone: those that stay are dropped.
unfoldable pub orphan_event : Worker → Vlsh → ℕ → WaitSet → Worker
orphan_event w public events set = record w {
  waiters = delete public w.waiters;
  woken = wake_all_of (fired events set.waiters) w.woken;
}

unfoldable pub handle_event : Vpp → Worker → Vlsh → ℕ → Worker
unfolding settle orphan_event
handle_event vpp w public events = elim (lookup public w.waiters) [
  | none ↦ w
  | some set ↦ elim (lookup public w.sessions) [
    | none ↦ orphan_event w public events set
    | some raw ↦
        settle vpp (record w { woken = wake_all_of (fired events set.waiters) w.woken }) public raw
          set (kept events set.waiters)
  ]
]

unfoldable pub forget_if_empty : List Waiter → Worker → Vlsh → Worker
forget_if_empty [] w key = record w { sessions = delete key w.sessions }
forget_if_empty (x ∷ left) w key = w

-- `cancelWaiterRaw`: with its last waiter the listener leaves `sessions` too.
unfoldable pub cancel_waiter_raw : Vpp → Worker → Vlsh → Waiter → Worker
unfolding cancel_in forget_if_empty
cancel_waiter_raw vpp w raw wtr = elim (lookup (complement raw) w.waiters) [
  | none ↦ w
  | some set ↦
      let w' = cancel_in vpp w (complement raw) raw wtr set in
      if has wtr.id set.waiters
      then forget_if_empty (exclude wtr.id set.waiters) w' (complement raw)
      else w
]

unfoldable pub remove_waiters_raw : Worker → Vlsh → Worker
unfolding remove_waiters
remove_waiters_raw w raw =
    let w' = remove_waiters w (complement raw) raw in
    record w' { sessions = delete (complement raw) w'.sessions }

del_session : Option Vlsh → List RawCall → List RawCall
del_session none calls = calls
del_session (some raw) calls = del raw ∷ calls

-- The loop of `wakeAllWaiters`.
unfoldable pub wake_sets : List (Vlsh × WaitSet) → Worker → Worker
unfolding del_session
wake_sets [] w = w
wake_sets ((public, set) ∷ m) w = wake_sets m (record w {
  calls = if w.ep_open then del_session (lookup public w.sessions) w.calls else w.calls;
  woken = wake_all_of set.waiters w.woken;
})

unfoldable pub wake_all_waiters : Worker → Worker
unfolding wake_sets
wake_all_waiters w = record (wake_sets w.waiters w) { waiters = [] }

-- The loop of `quiesce` over the sessions; the dispatcher forgets their owners.
unfoldable pub close_sessions : List (Vlsh × Vlsh) → Worker → Worker
unfolding raw_close
close_sessions [] w = w
close_sessions ((public, raw) ∷ m) w = close_sessions m (raw_close w raw)

-- `quiesce` up to the drain of the operations, which all get `ErrClosed`.
unfoldable pub quiesce : Worker → Worker
unfolding wake_all_waiters close_sessions
quiesce w = record (close_sessions w.sessions (wake_all_waiters w)) {
  sessions = [];
  ep_open = false;
  quiesced = true;
}
