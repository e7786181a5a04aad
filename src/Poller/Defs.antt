-- ===== src/Poller/Defs.antt =====
-- internal/vclpoll/poller.go, lines 24 to 263: the state of the poller and the bodies of its loops.
use vclnet.Base.{
  ℕ, List, [], ◌∷◌, Bool, true, false, none, some, ◌==◌, bit_or, if◌then◌else◌, lookup, insert,
  delete, int_eq,
}
use vclnet.Wait.{
  Vlsh, Waiter, WaitSet, has, include, exclude, combined_events, kept, fired, wake_all_of,
}
use vclnet.Wait.Epoll.{Call, add, mod_, del, Epoll}

-- A close barrier: `done` is the channel that acknowledges it.
pub record UnregisterRequest : Type 0 where
  pub vlsh : Vlsh
  pub done : ℕ

-- `woken` holds the waiters whose `ready` channel is closed and `acked` the closed `done` channels.
-- `calls` are the calls made on the one epoll handle `epVLSH`. The flags say which of the channels
-- `started`, `stopCh` and `stopped` are closed.
pub record Poller : Type 0 where
  pub reg_ch : List Waiter
  pub cancel_ch : List Waiter
  pub unreg_ch : List UnregisterRequest
  pub waiters : List (Vlsh × WaitSet)
  pub woken : List ℕ
  pub acked : List ℕ
  pub calls : List Call
  pub disabled : Bool
  pub started : Bool
  pub running : Bool
  pub stop_ch : Bool
  pub stopped : Bool

unfoldable pub wake_waiter : Poller → Waiter → Poller
wake_waiter p w = record p { woken = w.id ∷ p.woken }

-- `p.mod` with its outcome recorded.
unfoldable pub note_mod : Epoll → Poller → Vlsh → ℕ → Poller
note_mod ep p v m = record p { calls = mod_ v m (ep.mod_ok p.calls v m) ∷ p.calls }

unfoldable pub drop_wait_set : Poller → Vlsh → WaitSet → Poller
drop_wait_set p v set = record p {
  calls = del v ∷ p.calls;
  waiters = delete v p.waiters;
  woken = wake_all_of set.waiters p.woken;
}

-- The branch of `drainRegistrations` for a session that has no wait set.
unfoldable pub register_first : Epoll → Poller → Waiter → Poller
unfolding wake_waiter
register_first ep p w =
    let q = record p {
      calls = add w.vlsh w.events (ep.add_ok p.calls w.vlsh w.events) ∷ p.calls;
    } in
    if ep.add_ok p.calls w.vlsh w.events
    then record q {
      waiters = insert w.vlsh (record { waiters = w ∷ []; events = w.events }) q.waiters;
    }
    else wake_waiter q w

unfoldable pub join : Poller → Waiter → WaitSet → Poller
join p w set = record p {
  waiters =
      insert w.vlsh
        (record { waiters = include w set.waiters; events = bit_or set.events w.events }) p.waiters;
}

-- The branch for a session that has one.
unfoldable pub register_more : Epoll → Poller → Waiter → WaitSet → Poller
unfolding join wake_waiter note_mod
register_more ep p w set =
    let new_events = bit_or set.events w.events in
    if new_events == set.events
    then join p w set
    else if ep.mod_ok p.calls w.vlsh new_events
    then join (note_mod ep p w.vlsh new_events) w set
    else wake_waiter (note_mod ep p w.vlsh new_events) w

-- One round of `drainRegistrations`.
unfoldable pub register : Epoll → Poller → Waiter → Poller
unfolding register_first register_more
register ep p w = elim (lookup w.vlsh p.waiters) [
  | none ↦ register_first ep p w
  | some set ↦ register_more ep p w set
]

-- The end of `drainCancellations` and of `handleEvent`: `left` are the waiters that stay, `p` has
-- woken the others. An empty set leaves the epoll handle; a changed union is told to it.
unfoldable pub settle : Epoll → Poller → Vlsh → WaitSet → List Waiter → Poller
unfolding note_mod drop_wait_set
settle ep p v set [] = record p { calls = del v ∷ p.calls; waiters = delete v p.waiters }
settle ep p v set (w ∷ ws) =
    let set' : WaitSet = record { waiters = w ∷ ws; events = combined_events (w ∷ ws) } in
    let q = record p { waiters = insert v set' p.waiters } in
    if combined_events (w ∷ ws) == set.events
    then q
    else if ep.mod_ok p.calls v (combined_events (w ∷ ws))
    then note_mod ep q v (combined_events (w ∷ ws))
    else drop_wait_set (note_mod ep q v (combined_events (w ∷ ws))) v set'

unfoldable pub cancel_in : Epoll → Poller → Waiter → WaitSet → Poller
unfolding settle wake_waiter
cancel_in ep p w set =
    if has w.id set.waiters
    then settle ep (wake_waiter p w) w.vlsh set (exclude w.id set.waiters)
    else p

-- One round of `drainCancellations`.
unfoldable pub cancel : Epoll → Poller → Waiter → Poller
unfolding cancel_in
cancel ep p w = elim (lookup w.vlsh p.waiters) [ none ↦ p | some set ↦ cancel_in ep p w set ]

unfoldable pub acknowledge : Poller → ℕ → Poller
acknowledge p done = record p { acked = done ∷ p.acked }

-- One round of `drainUnregistrations`.
unfoldable pub unregister : Poller → UnregisterRequest → Poller
unfolding acknowledge drop_wait_set
unregister p req = elim (lookup req.vlsh p.waiters) [
  | none ↦ acknowledge p req.done
  | some set ↦ acknowledge (drop_wait_set p req.vlsh set) req.done
]

unfoldable pub handle_event : Epoll → Poller → Vlsh → ℕ → Poller
unfolding settle
handle_event ep p v events = elim (lookup v p.waiters) [
  | none ↦ p
  | some set ↦
      settle ep (record p { woken = wake_all_of (fired events set.waiters) p.woken }) v set
        (kept events set.waiters)
]

-- The first loop of `wakeAll`.
unfoldable pub wake_sets : List (Vlsh × WaitSet) → Poller → Poller
wake_sets [] p = p
wake_sets ((v, set) ∷ m) p =
    wake_sets m (record p { calls = del v ∷ p.calls; woken = wake_all_of set.waiters p.woken })

unfoldable pub wake_all : Poller → Poller
unfolding wake_sets
wake_all p =
    let q = wake_sets p.waiters p in
    record q { waiters = []; reg_ch = []; woken = wake_all_of q.reg_ch q.woken }

-- The case `<-p.stopCh` of `loop`.
unfoldable pub finish : Poller → Poller
unfolding wake_all
finish p = record (wake_all p) { running = false; stopped = true }
