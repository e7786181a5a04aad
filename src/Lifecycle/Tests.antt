-- ===== src/Lifecycle/Tests.antt =====
-- A registry that a shutdown drains, and the theorems at it.
use vclnet.Base.{pos, ℤ, ◌≡◌, refl, [], ◌∷◌, ◌++◌, false}
use vclnet.Lifecycle.Registry.{
  Registry, new_registry, conn, listener, packet_conn, add, remove, enter_drain, Reach, init, later,
  adds, removes, waits,
}
use vclnet.Lifecycle.Drain.{IsSound, registry-IsSound}
use vclnet.Lifecycle.Shutdown.{
  Process, begin_shutdown, stop_poller, app_destroy, shutdown_with_timeout, Others, snapshot,
  started, drained, without_conns, closings, waited, shutdown-order,
}

-- A connection is added, a shutdown waits, the connection goes.
abbrev emptied : Registry
emptied = remove conn 4 (enter_drain (add conn 4 new_registry)).0

abbrev emptying : Reach emptied
emptying = later (later (later init (adds conn 4)) waits) (removes conn 4)

registry-IsSound_example : IsSound emptied
registry-IsSound_example = registry-IsSound emptying

abbrev busy : Process
busy = record {
  shutdown_once = false;
  shutdown_started = false;
  shutdown_done = false;
  live = add listener 1 (add conn 2 (add packet_conn 3 new_registry));
  acts = [];
}

-- Connection 4 is registered when the wait has begun.
abbrev late : Others
late [] r = r
late (x ∷ acts) r = add conn 4 r

shutdown-order_example :
    let q = shutdown_with_timeout late (pos 5) busy in
    (q.acts
      ≡ []
        ++ closings listener (snapshot late listener (started busy))
        ++ waited (pos 5)
        ++ closings conn (snapshot late conn (drained late (pos 5) busy))
        ++ closings packet_conn (snapshot late packet_conn (without_conns late (pos 5) busy))
        ++ begin_shutdown ∷ stop_poller ∷ app_destroy ∷ [])
    × ((f : Others) (t : ℤ) → shutdown_with_timeout f t q ≡ q)
shutdown-order_example = shutdown-order late (pos 5) busy refl
