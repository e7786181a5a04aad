-- ===== src/Lifecycle/Shutdown.antt =====
-- shutdown.go, lines 48 to 79: the order in which a process takes down what is live.
use vclnet.Base.{
  ℕ, ℤ, pos, negsuc, ◌≡◌, refl, sym, ◌∙◌, List, [], ◌∷◌, ◌++◌, Bool, true, false, if◌then◌else◌,
}
use mathlib.Core.List.{append-nil, append_assoc}
use vclnet.Lifecycle.Registry.{Registry, Kind, listener, conn, packet_conn, remove}

-- What a shutdown does, in order.
pub data Act : Type 0 where
  close_object : Kind → ℕ → Act
  wait_drain : ℕ → Act
  begin_shutdown stop_poller app_destroy : Act

-- `shutdown_once` says whether the `sync.Once` has run.
pub record Process : Type 0 where
  pub shutdown_once : Bool
  pub shutdown_started : Bool
  pub shutdown_done : Bool
  pub live : Registry
  pub acts : List Act

unfoldable pub tracked : Kind → Registry → List ℕ
tracked listener r = r.listeners
tracked conn r = r.conns
tracked packet_conn r = r.packet_conns

-- What the other goroutines do to the registry, by the moment: what the shutdown has done before.
abbrev pub Others : Type 0
Others = List Act → Registry → Registry

-- The other goroutines go on.
unfoldable pub meanwhile : Others → Process → Process
meanwhile others p = record p { live = others p.acts p.live }

-- The `Close` of a tracked object, which leaves the registry.
unfoldable pub close_one : Others → Kind → ℕ → Process → Process
unfolding meanwhile
close_one others k i p =
    meanwhile others (record p { live = remove k i p.live; acts = p.acts ++ close_object k i ∷ [] })

-- `for _, x := range snapshot { _ = x.Close() }`
unfoldable pub close_all : Others → Kind → List ℕ → Process → Process
unfolding close_one
close_all others k [] p = p
close_all others k (i ∷ is) p = close_all others k is (close_one others k i p)

-- The call of `waitDrain`, unless the timeout is negative.
unfoldable pub wait : Others → ℤ → Process → Process
unfolding meanwhile
wait others (pos t) p = meanwhile others (record p { acts = p.acts ++ wait_drain t ∷ [] })
wait others (negsuc t) p = p

-- A snapshot of the tracked objects of a kind, and their closing; others act before and during it.
unfoldable pub close_tracked : Others → Kind → Process → Process
unfolding meanwhile close_all tracked
close_tracked others k p = let q = meanwhile others p in close_all others k (tracked k q.live) q

-- The body of the `Once`.
take_down : Others → ℤ → Process → Process
unfolding close_tracked wait
take_down others timeout p0 =
    let p1 = record p0 { shutdown_once = true; shutdown_started = true; shutdown_done = true } in
    let p2 = wait others timeout (close_tracked others listener p1) in
    let p4 = close_tracked others packet_conn (close_tracked others conn p2) in
    record p4 { acts = p4.acts ++ begin_shutdown ∷ stop_poller ∷ app_destroy ∷ [] }

-- `ShutdownWithTimeout`
unfoldable pub shutdown_with_timeout : Others → ℤ → Process → Process
unfolding take_down
shutdown_with_timeout others timeout p = if p.shutdown_once then p else take_down others timeout p

-- What closes a list of objects.
unfoldable pub closings : Kind → List ℕ → List Act
closings k [] = []
closings k (i ∷ is) = close_object k i ∷ closings k is

close_all-acts :
    (others : Others) (k : Kind) (is : List ℕ) (p : Process)
    → (close_all others k is p).acts ≡ p.acts ++ closings k is
unfolding close_all closings close_one meanwhile
close_all-acts others k [] p = sym (append-nil p.acts)
close_all-acts others k (i ∷ is) p =
    close_all-acts others k is (close_one others k i p)
    ∙ append_assoc p.acts (close_object k i ∷ []) (closings k is)

close_all-once :
    (others : Others) (k : Kind) (is : List ℕ) (p : Process)
    → (close_all others k is p).shutdown_once ≡ p.shutdown_once
unfolding close_all close_one meanwhile
close_all-once others k [] p = refl
close_all-once others k (i ∷ is) p = close_all-once others k is (close_one others k i p)

-- The objects of a kind that a snapshot finds when others have acted.
abbrev pub snapshot : Others → Kind → Process → List ℕ
snapshot others k p = tracked k (others p.acts p.live)

close_tracked-acts :
    (others : Others) (k : Kind) (p : Process)
    → ((close_tracked others k p).acts ≡ p.acts ++ closings k (snapshot others k p))
      × ((close_tracked others k p).shutdown_once ≡ p.shutdown_once)
unfolding close_tracked meanwhile
close_tracked-acts others k p =
    let q = meanwhile others p in
    (close_all-acts others k (tracked k q.live) q, close_all-once others k (tracked k q.live) q)

unfoldable pub waited : ℤ → List Act
waited (pos t) = wait_drain t ∷ []
waited (negsuc t) = []

wait-acts :
    (others : Others) (timeout : ℤ) (p : Process)
    → ((wait others timeout p).acts ≡ p.acts ++ waited timeout)
      × ((wait others timeout p).shutdown_once ≡ p.shutdown_once)
unfolding wait waited meanwhile
wait-acts others (pos t) p = (refl, refl)
wait-acts others (negsuc t) p = (sym (append-nil p.acts), refl)

-- The process when its flags are set, when the listeners are closed and the wait is over, and when the
-- connections are closed.
abbrev pub started : Process → Process
started p = record p { shutdown_once = true; shutdown_started = true; shutdown_done = true }

unfoldable pub drained : Others → ℤ → Process → Process
drained others timeout p = wait others timeout (close_tracked others listener (started p))

unfoldable pub without_conns : Others → ℤ → Process → Process
unfolding drained
without_conns others timeout p = close_tracked others conn (drained others timeout p)

-- Whatever the other goroutines do to the registry before, between and after the calls of the first
-- shutdown: it closes the listeners that its snapshot finds, each once and in its order, waits unless
-- the timeout is negative, closes the connections that a snapshot taken after that finds, then the
-- packet connections that a snapshot taken after that finds, and only then stops the dispatcher and the
-- poller and destroys the application, in this order. A later shutdown does nothing.
pub shutdown-order :
    (others : Others) (timeout : ℤ) (p : Process)
    → p.shutdown_once ≡ false
    → let q = shutdown_with_timeout others timeout p in
      (q.acts
        ≡ p.acts
          ++ closings listener (snapshot others listener (started p))
          ++ waited timeout
          ++ closings conn (snapshot others conn (drained others timeout p))
          ++ closings packet_conn (snapshot others packet_conn (without_conns others timeout p))
          ++ begin_shutdown ∷ stop_poller ∷ app_destroy ∷ [])
      × ((f : Others) (t : ℤ) → shutdown_with_timeout f t q ≡ q)
unfolding shutdown_with_timeout take_down drained without_conns
shutdown-order others timeout p h = rw h (
  cc (
    (close_tracked-acts others listener (started p)).0,
    (wait-acts others timeout (close_tracked others listener (started p))).0,
    (close_tracked-acts others conn (drained others timeout p)).0,
    (close_tracked-acts others packet_conn (without_conns others timeout p)).0,
  ),
  λ f t. rw once refl,
)
  where
    once : (close_tracked others packet_conn (without_conns others timeout p)).shutdown_once ≡ true
    once =
        (close_tracked-acts others packet_conn (without_conns others timeout p)).1
        ∙ (close_tracked-acts others conn (drained others timeout p)).1
        ∙ (wait-acts others timeout (close_tracked others listener (started p))).1
        ∙ (close_tracked-acts others listener (started p)).1
