-- ===== src/Threads/Tests.antt =====
-- A thread that creates the application and one that reads, and the theorems at them.
use vclnet.Base.{ℕ, ◌≤◌, ◌≡◌, refl, true, false}
use vclnet.Wait.Sets.{count}
use vclnet.Threads.Defs.{load, store}
use vclnet.Threads.System.{
  looping, call, in_call, System, Reach, init, later, moves, inits, locks_init, creates,
  stores_init, marks_created, marks_live, unlocks_init, init_returns, enters, misses, locks,
  registers, returns, stores, unlocks, read_locks, sees_live, calls_live,
}
use vclnet.Threads.Safety.{calls_exclusive, call_allowed}

-- Thread 1 runs `mode3AppInit`.
abbrev initialised : (s : System) × Reach s
unfolding load store
initialised = (
  _,
  later
      (later
        (later
          (later
            (later
              (later (later (later init (moves 1 (inits refl))) (moves 1 (locks_init refl refl)))
                (moves 1 creates))
              (moves 1 stores_init))
            (moves 1 marks_created))
          (moves 1 marks_live))
        (moves 1 unlocks_init))
      (moves 1 init_returns),
)

-- Thread 2 registers.
abbrev in_registration : (s : System) × Reach s
unfolding load store
in_registration = (
  _,
  later
      (later
        (later (later initialised.1 (moves 2 (enters looping)))
          (moves 2 (misses (call looping) refl)))
        (moves 2 (locks (call looping) refl refl)))
      (moves 2 (registers (call looping) refl)),
)

-- Thread 2 is in a read.
abbrev in_read : (s : System) × Reach s
unfolding load store
in_read = (
  _,
  later
      (later
        (later
          (later
            (later (later in_registration.1 (moves 2 (returns (call looping))))
              (moves 2 (stores (call looping))))
            (moves 2 (unlocks (call looping))))
          (moves 2 (read_locks looping refl)))
        (moves 2 (sees_live refl)))
      (moves 2 calls_live),
)

calls_exclusive_example : ◌≡◌ {A = ℕ} 2 2
unfolding load store
calls_exclusive_example = calls_exclusive 2 2 in_registration.1 refl refl

call_allowed_example :
    ((in_read.0.phase 2 ≡ in_call looping) → load 2 in_read.0.shared.registry ≡ true)
    × (count 2 in_read.0.shared.register_calls ≤ 1)
    × (in_read.0.shared.destroys ≤ 1)
    × ((in_read.0.phase 2 ≡ in_call looping)
        → in_read.0.shared.ended_early ≡ false
        → in_read.0.shared.destroys ≡ 0)
unfolding load store
call_allowed_example = call_allowed 2 looping in_read.1
