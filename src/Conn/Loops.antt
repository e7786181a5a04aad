-- ===== src/Conn/Loops.antt =====
-- conn.go, lines 140 to 205: `Read` and `Write`.
use vclnet.Base.{
  ℕ, ◌+◌, List, [], ◌∷◌, ◌++◌, Bool, true, false, ◌==◌, Option, none, some, if◌then◌else◌, take,
  drop,
}
use vclnet.Errors.{Error, net_closed, eof, zero_write, wait_canceled}
use vclnet.Conn.Defs.{Conn, World, io_state_error, map_io_error}

-- One turn of a loop: the connection and the world as the turn finds them, and what `ReadContext` or
-- `WriteContext` returns, if the turn calls it. Other goroutines may have changed the connection
-- since the turn before.
pub record Round : Type 0 where
  pub conn : Conn
  pub world : World
  pub count : ℕ
  pub error : Option Error

-- Whether `WriteContext` or `ReadContext` ended in a canceled wait.
abbrev pub is_canceled : Option Error → Bool
is_canceled (some wait_canceled) = true
is_canceled e = false

-- What the loop does with an answer: go round again, or return.
pub data Next : Type 0 where
  again : Next
  return : ℕ → Option Error → Next

after_read : ℕ → Bool × Option Error → Next
after_read n (true, e) = again
after_read n (false, some e) = return 0 (some e)
after_read n (false, none) = if n == 0 then return 0 (some eof) else return n none

-- A turn of the loop of `Read`.
unfoldable pub read_round : Round → Next
unfolding io_state_error map_io_error after_read
read_round r =
    if r.conn.read_shutdown
    then return 0 (some eof)
    else elim (io_state_error r.world r.conn r.conn.read_deadline) [
      | some e ↦ return 0 (some e)
      | none ↦ after_read r.count (map_io_error r.error)
    ]

-- The loop of `Read`: none while it has not returned after these turns.
unfoldable pub read_loop : List Round → Option (ℕ × Option Error)
unfolding read_round
read_loop [] = none
read_loop (r ∷ rs) =
    let rest = read_loop rs in elim (read_round r) [ again ↦ rest | return n e ↦ some (n, e) ]

-- `Read` into a buffer of `size` bytes; `first` is what the tests before the loop see.
unfoldable pub read : ℕ → Round → List Round → Option (ℕ × Option Error)
unfolding io_state_error read_loop
read size first rs =
    if first.conn.read_shutdown
    then some (0, some eof)
    else elim (io_state_error first.world first.conn first.conn.read_deadline) [
      | some e ↦ some (0, some e)
      | none ↦ if size == 0 then some (0, none) else read_loop rs
    ]

-- What `Write` has done: the bytes that VLS accepted, in order, and the result once it has returned.
pub record Written : Type 0 where
  pub sent : List ℕ
  pub result : Option (ℕ × Option Error)

-- What a turn of the loop of `Write` does with the answer for the bytes `rest`.
pub data Progress : Type 0 where
  retry : Progress
  fail : Error → Progress
  accept : ℕ → Progress

after_write : ℕ → Bool × Option Error → Progress
after_write n (true, e) = retry
after_write n (false, some e) = fail e
after_write n (false, none) = if n == 0 then fail zero_write else accept n

unfoldable pub write_round : Round → Progress
unfolding io_state_error map_io_error after_write
write_round r =
    if r.conn.write_shutdown
    then fail net_closed
    else elim (io_state_error r.world r.conn r.conn.write_deadline) [
      | some e ↦ fail e
      | none ↦ after_write r.count (map_io_error r.error)
    ]

prepend : List ℕ → Written → Written
prepend bytes w = record { sent = bytes ++ w.sent; result = w.result }

-- The loop of `Write`: `written` bytes are accepted and `rest` are left.
unfoldable pub write_loop : ℕ → List ℕ → List Round → Written
unfolding write_round prepend
write_loop written [] rs = record { sent = []; result = some (written, none) }
write_loop written (b ∷ rest) [] = record { sent = []; result = none }
write_loop written (b ∷ rest) (r ∷ rs) = elim (write_round r) [
  | retry ↦ write_loop written (b ∷ rest) rs
  | fail e ↦ record { sent = []; result = some (written, some e) }
  | accept n ↦ prepend (take n (b ∷ rest)) (write_loop (written + n) (drop n (b ∷ rest)) rs)
]

-- `Write` of the bytes `b`.
unfoldable pub write : List ℕ → Round → List Round → Written
unfolding io_state_error write_loop
write b first rs =
    if first.conn.write_shutdown
    then record { sent = []; result = some (0, some net_closed) }
    else elim (io_state_error first.world first.conn first.conn.write_deadline) [
      | some e ↦ record { sent = []; result = some (0, some e) }
      | none ↦ write_loop 0 b rs
    ]
