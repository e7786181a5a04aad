-- ===== src/Pool/Tests.antt =====
-- A pool of one worker that starts, runs an operation and stops, and the theorems at it.
use vclnet.Base.{◌+◌, ◌<◌, ◌≤◌, ◌≡◌, ◌⊎◌, refl, [], true, false, ◌==◌, arith}
use vclnet.Wait.Sets.{count}
use vclnet.Pool.Life.{gone, registers, sees_start, opens, stops, empties, quiesces, destroys}
use vclnet.Pool.System.{
  System, Reach, init, later, turns, controls, lives_on, launches, appends, starts, finds_ready,
  goes_live, submits, sends, waiting, begins_shutdown, begins_stop, signals_stop, signalled, joins,
  joined, skips, finds_all, closes_destroy, refuses, refuses_op,
}
use vclnet.Pool.Invariant.{needs_app, is_parked}
use vclnet.Pool.Safety.{app_outlives_workers}
use vclnet.Pool.Progress.{CanStep, stop_never_stuck}
use vclnet.Pool.Ops.{serves, op_accounted}

-- The dispatcher has started its worker.
abbrev started : (s : System) × Reach 1 s
started = (
  _,
  later
      (later
        (later
          (later
            (later
              (later
                (later (later init (turns (controls (launches refl (omega arith)))))
                  (turns (lives_on 0 registers)))
                (turns (controls (appends refl refl))))
              (turns (controls (starts refl refl))))
            (turns (lives_on 0 (sees_start refl))))
          (turns (lives_on 0 opens)))
        (turns (controls (finds_ready 0 refl (omega arith) refl))))
      (turns (controls (goes_live 1 refl (omega arith)))),
)

-- Call 7 waits for its operation.
abbrev submitted : (s : System) × Reach 1 s
unfolding refuses
submitted = (
  _,
  later (later started.1 (submits 7 0 refl refl (omega arith))) (sends 7 0 refl (omega arith)),
)

-- The dispatcher stops, and the worker has been told.
abbrev stopping : (s : System) × Reach 1 s
unfolding refuses
stopping = (
  _,
  later
      (later (later submitted.1 (turns (controls (begins_shutdown refl))))
        (turns (controls (begins_stop refl))))
      (turns (controls (signals_stop 0 refl (omega arith)))),
)

-- The application is destroyed.
abbrev over : (s : System) × Reach 1 s
unfolding refuses
over = (
  _,
  later
      (later
        (later
          (later
            (later
              (later
                (later
                  (later
                    (later
                      (later (later stopping.1 (turns (lives_on 0 (stops refl))))
                        (refuses_op 0 7 [] refl refl))
                      (turns (lives_on 0 (empties refl))))
                    (turns (lives_on 0 quiesces)))
                  (turns (controls (signalled 1 refl (omega arith)))))
                (turns (controls (joins 0 refl (omega arith) refl))))
              (turns (controls (joined 1 refl (omega arith)))))
            (turns (controls (skips refl (omega arith)))))
          (turns (controls (finds_all 1 refl (omega arith)))))
        (turns (controls (closes_destroy refl (omega arith)))))
      (turns (lives_on 0 (destroys refl))),
)

op_accounted_example :
    (count 7 (submitted.0.queue 0) + count 7 submitted.0.ran + count 7 submitted.0.refused ≤ 1)
    × (submitted.0.caller 7 ≡ waiting 0
        → (count 7 (submitted.0.queue 0) + count 7 submitted.0.ran + count 7 submitted.0.refused
            ≡ 1)
          × ((serves (submitted.0.pool.phase 0) ≡ true)
              ⊎ ((submitted.0.pool.lives 0).quiesced ≡ true)))
unfolding refuses
op_accounted_example = op_accounted 1 7 0 submitted.1

app_outlives_workers_example :
    (needs_app (0 == 0) (over.0.pool.phase 0) ≡ true → over.0.pool.signals.app_exists ≡ true)
    × (is_parked (over.0.pool.phase 0) ≡ true
        → (0 == 0) ≡ false
        → 0 < over.0.pool.appended
        → over.0.pool.phase 0 ≡ gone)
unfolding refuses
app_outlives_workers_example = app_outlives_workers 1 0 over.1

stop_never_stuck_example : CanStep 1 stopping.0
unfolding refuses
stop_never_stuck_example = stop_never_stuck 1 stopping.1 refl
