-- ===== src/Lib.antt =====
-- vclnet gives Go programs network connections over VPP's host stack. Its public package (vclnet.go,
-- conn.go, listener.go, dialer.go, udpconn.go, packetconn.go, tls.go, lifecycle.go, shutdown.go)
-- keeps deadlines, half-closes, the registry of live objects and the order of a shutdown, and calls
-- internal/vclpoll, which turns non-blocking calls of libvppcom into blocking ones: poller.go is
-- the one goroutine that owns an epoll handle and parks waiters on sessions; worker.go and mode2.go
-- do the same with several VCL workers, each with its own epoll handle and sessions, behind a table
-- of virtual handles.
--
-- Which file models which part:
--   Base           names of the libraries, Boolean tests, lists by native numbers, integers, maps.
--   Errors         the errors that callers test, and results.
--   Wait           waiters and wait sets, which poller.go and worker.go share, and in Wait/Epoll the
--                  calls made on an epoll handle (poller.go, `waiter`, `waitSet`, `combinedEvents`).
--   Poller         internal/vclpoll/poller.go. Defs has one function for each round of
--                  `drainRegistrations`, `drainCancellations`, `drainUnregistrations` and
--                  `handleEvent`, and `wakeAll`. System interleaves the loop with callers of
--                  `mode3PollWaitContext`, `pollUnregister` and `stop`, one channel operation a step.
--   Worker         internal/vclpoll/worker.go. Defs parks waiters (`addWaiter`, `addWaiterRaw`), Leave
--                  has what ends a wait or a session, Turns the sequences of operations.
--   Mode2          internal/vclpoll/mode2.go: the table of handles, `submit`, `registerSession`,
--                  `sessionCall`, `create`, `close`.
--   Conn           conn.go. Deadline is `deadlineState`; Defs the closings and deadline setters;
--                  Loops `Read` and `Write` over the turns of their loops.
--   Lifecycle      lifecycle.go (Registry, Drain) and shutdown.go (Shutdown).
--   Dialer         dialer.go: Order is `interleaveAddrs`, Race the loop of `dialHappyEyeballs`, Connect
--                  `dialSingleTCP` with `finishConnect` and `connectWait`, Others `dialUDP` and, of
--                  tls.go, `DialTLSContext`.
--   Tls            tls.go: Keys is what `ckpairKey` hashes, Cache `validate` and `resolveCKPair`;
--                  Account and Sound say where the indexes of certificates are.
--   Threads        internal/vclpoll/cgo.go: the threads that call libvppcom. System is `mode3AppInit`,
--                  `registerThisThread`, `enterVLS`, `exitVLS` and `mode3AppDestroy` as steps of any
--                  number of threads over `vlsMu` and `workerRegistry`.
--   Pool           the life of the workers of the multi-worker mode: Life is the goroutine of a worker
--                  (internal/vclpoll/worker.go, `loop`, `quiesce`), System adds `appInit`, `stop`,
--                  `appDestroy` and `submit` of internal/vclpoll/mode2.go, and `drainOps`.
--   Queries        the calls that ask libvppcom once: Raw by its answers, Mode3 under `pin`
--                  (`mode3Close`, `mode3Shutdown` and the like), Mode2 through the owner of a session
--                  (`getLocalAddr`, `setV6Only` and the like).
--   Addr           addr.go: `resolveAddrContext`, `resolveAddrs` and `literalAddr`.
--   Packet         packetconn.go: `addrToKey`, the sessions of peers, `WriteTo` and `ReadFrom`;
--                  Goroutines interleaves `acceptLoop`, `peerReadLoop`, `ReadFrom` and `Close`.
--   Vls            internal/vclpoll/cgo.go. Calls is what it calls of libvppcom; Create, Variants and
--                  Sessions are the functions in C and Go that create sessions, listen and connect;
--                  Addr is `ipBE`, `portBE`, `AddrInfo` and their decoding (addresses in addr.go
--                  are made from it). Leaks and Blocking say what stays open; Epoll is
--                  `rawEpollCtl`, `rawEpollWait` and the like.
--   Io             the calls that are tried again when a session is ready. Raw is one attempt of each
--                  (`rawRead` and the like), Spec what a blocking call promises; Mode3 has those of
--                  internal/vclpoll/cgo.go (`mode3ReadContext` and the like) with the read lock, Mode2
--                  those of internal/vclpoll/mode2.go, with `pollWaitContext`,
--                  and Connect has `createConnect`, `finishLegacyConnect` and `wakeVLSH`.
--   Setup          vclnet.go, tls.go and internal/vclpoll/dispatch.go: Options is `InitWithOptions`
--                  and `AppInitWithOptions`, Listen is `Listen`, `ListenPacket` and `ListenTLS`; Accept
--                  is listener.go.
--   Shards         internal/vclpoll/shard_listener.go: Defs is `newShardedListener`, Loops interleaves
--                  `acceptLoop`, `shardedAcceptFullContext` and `closeShardedListener`, Close is
--                  the last of these once the loops have returned.
--   Udp            udpconn.go: `ReadFrom`, `WriteTo`, `Read`, `Write`, `Close` and the deadlines.
--
-- How the code is read. Go maps are association lists with one entry for a key; the order in which Go
-- visits a map is not modelled, nor does a theorem depend on it. A pointer is an identity, a channel
-- that is only closed is a flag or an entry in a list of closed channels, so that a second close,
-- which would panic, can be counted. What a mutex or the owning goroutine makes atomic is one step. The
-- wrappers `opError` and `opErrorAddr` are left out. Handles and counters of 32 bits wrap.
--
-- What VPP does is a parameter: `Epoll` and `Vpp` say whether it accepts an epoll call, by all calls
-- that went before, and which worker owns a handle; `Vls` is its answer to each call of libvppcom.
-- Nothing is assumed of these answers unless a theorem says so; `Tls.Cache.Step` lets VPP give only
-- indexes that it does not hold.
--
-- Loops over channels and retries are recursions over the list of what each turn meets, so a loop that
-- has not returned at the end of the list is still running. `alternate` in Dialer/Order runs on
-- fuel, one unit for each address, and each turn takes one.
--
-- Not modelled: of cgo.go the C functions that hand one call to libvppcom, and `mode3Accept`; the
-- functions of dispatch.go that only choose between two implementations, and those of mode2.go that
-- only hand a constructor to `newShardedListener` or `createConnect`, or a call to the bootstrap
-- worker; of dialer.go `DialContext` and `dialTCP`, which resolve and choose among the parts that are
-- modelled; the accessors of addresses and the deadline setters of packetconn.go, whose deadlines
-- are modelled in Conn/Deadline; transport.go; how long `drainCloseNotifications` waits; and the
-- signal handler. The pool of workers (Pool) and the sessions of one worker (Worker) are modelled
-- apart. A session of Io/Mode2 is not a sharded listener.
mod Base
pub mod Wait
pub mod Poller
pub mod Errors
pub mod Worker
pub mod Mode2
pub mod Conn
pub mod Lifecycle
pub mod Dialer
pub mod Tls
pub mod Packet
pub mod Pool
pub mod Queries
pub mod Threads
pub mod Addr
pub mod Vls
pub mod Io
pub mod Setup
pub mod Shards
pub mod Udp
