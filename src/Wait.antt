-- ===== src/Wait.antt =====
-- internal/vclpoll/poller.go, lines 9 to 22 and 241 to 257: waiters, the sets of those parked on
-- one VLS session, and the calls that a poller makes on its VLS epoll handle.
pub mod Epoll
pub mod Sets
use vclnet.Base.{ℕ, ℤ, List, [], ◌∷◌, ◌++◌, Bool, true, false, ◌==◌, ◌||◌, bit_and, bit_or, not}
use vclnet.Base.{if◌then◌else◌}

-- `vclpoll.VLSH`, a signed 32-bit handle.
abbrev pub Vlsh : Type 0
Vlsh = ℤ

-- A parked goroutine. `id` is the identity of the Go pointer; its `ready` channel is closed when
-- `id` stands in the list of woken waiters.
pub record Waiter : Type 0 where
  pub id : ℕ
  pub vlsh : Vlsh
  pub events : ℕ

-- The waiters of one session, and the union of their masks. The Go map holds each pointer once; the
-- list stands in the order of registration.
pub record WaitSet : Type 0 where
  pub waiters : List Waiter
  pub events : ℕ

abbrev pub epoll_in : ℕ
epoll_in = 0x001

abbrev pub epoll_out : ℕ
epoll_out = 0x004

abbrev pub epoll_err : ℕ
epoll_err = 0x008

abbrev pub epoll_hup : ℕ
epoll_hup = 0x010

abbrev pub epoll_rdhup : ℕ
epoll_rdhup = 0x2000

-- `_, ok := set.waiters[w]`
unfoldable pub has : ℕ → List Waiter → Bool
has i [] = false
has i (w ∷ ws) = (i == w.id) || has i ws

-- `set.waiters[w] = struct{}{}`
unfoldable pub include : Waiter → List Waiter → List Waiter
unfolding has
include w ws = if has w.id ws then ws else ws ++ w ∷ []

-- `delete(set.waiters, w)`
unfoldable pub exclude : ℕ → List Waiter → List Waiter
exclude i [] = []
exclude i (w ∷ ws) = if i == w.id then ws else w ∷ exclude i ws

combine : ℕ → List Waiter → ℕ
combine events [] = events
combine events (w ∷ ws) = combine (bit_or events w.events) ws

-- `combinedEvents`: the union of the masks.
unfoldable pub combined_events : List Waiter → ℕ
unfolding combine
combined_events ws = combine 0 ws

-- `events&(epollErr|epollHup|epollRDHup) != 0`
unfoldable pub is_terminal : ℕ → Bool
is_terminal events = not (bit_and events (bit_or (bit_or epoll_err epoll_hup) epoll_rdhup) == 0)

-- `terminal || events&w.events != 0`
unfoldable pub fires : ℕ → Waiter → Bool
unfolding is_terminal
fires events w = is_terminal events || not (bit_and events w.events == 0)

-- The loop of `handleEvent` over a set: the waiters that stay, and those that are woken.
unfoldable pub kept : ℕ → List Waiter → List Waiter
kept events [] = []
kept events (w ∷ ws) = if fires events w then kept events ws else w ∷ kept events ws

unfoldable pub fired : ℕ → List Waiter → List Waiter
fired events [] = []
fired events (w ∷ ws) = if fires events w then w ∷ fired events ws else fired events ws

-- `wakeWaitSet`: the identities whose `ready` channels are closed, the last one first.
unfoldable pub wake_all_of : List Waiter → List ℕ → List ℕ
wake_all_of [] woken = woken
wake_all_of (w ∷ ws) woken = wake_all_of ws (w.id ∷ woken)
