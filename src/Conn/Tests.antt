-- ===== src/Conn/Tests.antt =====
-- A connection that is read, written and closed, and the theorems at it.
use vclnet.Base.{ℕ, ◌≤◌, ◌<◌, ◌≡◌, ◌⊎◌, refl, List, [], ◌∷◌, false, Option, none, some, arith}
use vclnet.Errors.{Error, wait_canceled}
use vclnet.Conn.Deadline.{
  Deadline, new_deadline, set_deadline, Reach, init, later, sets, IsSound, deadline-IsSound,
}
use vclnet.Conn.Defs.{
  new_conn, World, Live, sets_both, check_setter, run_setter, close_read, close_conn,
}
use vclnet.Conn.Closing
use vclnet.Conn.Closing.{IsTidy, conn-IsTidy}
use vclnet.Conn.Loops.{Round, read, write}
use vclnet.Conn.Reads.{read-Reports}
use vclnet.Conn.Writes.{write-Reports, write-returns, write_turns}

-- A deadline at 5 that is moved to 9.
abbrev moved : Deadline
moved = set_deadline 2 (some 9) (set_deadline 0 (some 5) new_deadline)

abbrev moving : Reach moved
moving = later (later init (sets 0 (some 5))) (sets 2 (some 9))

deadline-IsSound_example : IsSound moved
deadline-IsSound_example = deadline-IsSound moving

abbrev calm : World
calm = record { now = 3; shutdown_started = false; answer = none }

-- A connection is registered, a call of `SetDeadline` checks it, it is half closed, and the deadlines are
-- set after it is closed.
abbrev halved : (l : Live) × Closing.Reach l
unfolding check_setter run_setter close_read close_conn
halved = (
  _,
  Closing.later
      (Closing.later
        (Closing.later
          (Closing.later (Closing.later Closing.init Closing.registers)
            (Closing.checks (sets_both (some 5)) calm))
          (Closing.reading_ends calm))
        (Closing.ends calm))
      (Closing.sets [] (sets_both (some 5)) [] 3 refl),
)

conn-IsTidy_example : IsTidy halved.0.conn
conn-IsTidy_example = conn-IsTidy halved.1

abbrev answers : ℕ → Option Error → Round
answers n e = record { conn = new_conn; world = calm; count = n; error = e }

-- Three bytes: two are accepted, a wait is canceled, the last is accepted.
abbrev three : List Round
three = answers 2 none ∷ answers 0 (some wait_canceled) ∷ answers 1 none ∷ []

abbrev nil : Option Error
nil = none

write-Reports_example :
    ((write (7 ∷ 8 ∷ 9 ∷ []) (answers 0 none) three).sent ≡ 7 ∷ 8 ∷ 9 ∷ [])
    × (((nil ≡ none) × (3 ≤ 3)) ⊎ ((x : Error) × (nil ≡ some x)))
unfolding write
write-Reports_example = write-Reports (7 ∷ 8 ∷ 9 ∷ []) (answers 0 none) three 3 none refl

write-returns_example :
    (n : ℕ) × (e : Option Error) × ((write (7 ∷ 8 ∷ []) (answers 0 none) three).result
      ≡ some (n, e))
unfolding write_turns
write-returns_example = write-returns (7 ∷ 8 ∷ []) (answers 0 none) three (omega arith)

read-Reports_example :
    (n : ℕ) × (e : Option Error) × ((after : List Round)
      → read 16 (answers 0 none) (answers 0 (some wait_canceled) ∷ answers 4 none ∷ after)
        ≡ some (n, e))
    × (((0 < n) × (e ≡ none)) ⊎ ((x : Error) × (n ≡ 0) × (e ≡ some x)))
read-Reports_example =
    read-Reports 16 (answers 0 none) (answers 0 (some wait_canceled) ∷ []) (answers 4 none)
      (omega arith) refl
