-- ===== src/Conn/Defs.antt =====
-- conn.go, lines 102 to 138, 218 to 293 and 329 to 388: a connection, its closing and its deadlines.
-- `Close` and the half-closes are one step each, a deadline is checked for and set in steps of their own;
-- the errors are those inside `opErrorAddr`.
use vclnet.Base.{ℕ, List, [], ◌∷◌, Bool, true, false, ◌||◌, Option, none, some, if◌then◌else◌}
use vclnet.Errors.{Error, closed, poll_closed, net_closed, wait_canceled, timeout}
use vclnet.Conn.Deadline.{Deadline, new_deadline, set_deadline, interrupt, expired}

-- A call that a connection makes on its session or on the lifecycle registry.
pub data Call : Type 0 where
  shut_rd shut_wr close_vls remove_conn : Call

-- `is_closed` is the flag `closed`; `close_once`, `read_shut_once` and `write_shut_once` say whether
-- the `sync.Once` has run. `calls` are the calls made, the last one first.
pub record Conn : Type 0 where
  pub is_closed : Bool
  pub close_once : Bool
  pub tracked : Bool
  pub read_shutdown : Bool
  pub write_shutdown : Bool
  pub read_shut_once : Bool
  pub write_shut_once : Bool
  pub read_deadline : Deadline
  pub write_deadline : Deadline
  pub calls : List Call

-- `newTCPConn`
abbrev pub new_conn : Conn
new_conn = record {
  is_closed = false;
  close_once = false;
  tracked = false;
  read_shutdown = false;
  write_shutdown = false;
  read_shut_once = false;
  write_shut_once = false;
  read_deadline = new_deadline;
  write_deadline = new_deadline;
  calls = [];
}

-- The store to `tracked` of a caller that has registered the connection.
abbrev pub track : Conn → Conn
track c = record c { tracked = true }

-- What an operation sees of its surroundings: the time, the flag `shutdownStarted`, and what the
-- call on VLS returns, if it is made.
pub record World : Type 0 where
  pub now : ℕ
  pub shutdown_started : Bool
  pub answer : Option Error

-- `CloseRead`
unfoldable pub close_read : World → Conn → Conn × Option Error
close_read o c =
    let c' = record c {
      read_shut_once = true;
      read_shutdown = true;
      read_deadline = interrupt c.read_deadline;
    } in
    if c.is_closed
    then (c, some net_closed)
    else if c.read_shut_once
    then (c, none)
    else if o.shutdown_started
    then (c', none)
    else (record c' { calls = shut_rd ∷ c.calls }, o.answer)

-- `CloseWrite`
unfoldable pub close_write : World → Conn → Conn × Option Error
close_write o c =
    let c' = record c {
      write_shut_once = true;
      write_shutdown = true;
      write_deadline = interrupt c.write_deadline;
    } in
    if c.is_closed
    then (c, some net_closed)
    else if c.write_shut_once
    then (c, none)
    else if o.shutdown_started
    then (c', none)
    else (record c' { calls = shut_wr ∷ c.calls }, o.answer)

-- `Close`
unfoldable pub close_conn : World → Conn → Conn × Option Error
close_conn o c =
    let vls = if o.shutdown_started then c.calls else close_vls ∷ c.calls in
    let c' = record c {
      close_once = true;
      is_closed = true;
      read_deadline = interrupt c.read_deadline;
      write_deadline = interrupt c.write_deadline;
      calls = if c.tracked then remove_conn ∷ vls else vls;
    } in
    if c.close_once then (c, none) else (c', if o.shutdown_started then none else o.answer)

-- `closedStateError`
unfoldable pub closed_state_error : World → Conn → Option Error
closed_state_error o c = if c.is_closed || o.shutdown_started then some closed else none

-- A call of `SetReadDeadline`, `SetWriteDeadline` or `SetDeadline` that has passed its check, with what
-- it has to set yet.
pub data Setter : Type 0 where
  sets_read sets_write sets_both : Option ℕ → Setter

-- A connection, and the calls on it that have passed their check.
pub record Live : Type 0 where
  pub conn : Conn
  pub setters : List Setter

-- The check of a call.
unfoldable pub check_setter : Setter → World → Live → Live × Option Error
unfolding closed_state_error
check_setter x o l = elim (closed_state_error o l.conn) [
  | some e ↦ (l, some e)
  | none ↦ (record l { setters = x ∷ l.setters }, none)
]

-- What a call that has passed its check sets next, at the time `now`, on the connection, which may have
-- been closed since; `others` are the other calls.
unfoldable pub run_setter : Setter → List Setter → ℕ → Conn → Live
run_setter (sets_read t) others now c = record {
  conn = record c { read_deadline = set_deadline now t c.read_deadline };
  setters = others;
}
run_setter (sets_write t) others now c = record {
  conn = record c { write_deadline = set_deadline now t c.write_deadline };
  setters = others;
}
run_setter (sets_both t) others now c = record {
  conn = record c { read_deadline = set_deadline now t c.read_deadline };
  setters = sets_write t ∷ others;
}

-- `ioStateError`
unfoldable pub io_state_error : World → Conn → Deadline → Option Error
unfolding expired
io_state_error o c dl =
    if c.is_closed || o.shutdown_started
    then some closed
    else if expired o.now dl
    then some timeout
    else none

-- `mapIOError`: whether to try again, and the error.
unfoldable pub map_io_error : Option Error → Bool × Option Error
map_io_error (some wait_canceled) = (true, none)
map_io_error (some poll_closed) = (false, some closed)
map_io_error e = (false, e)
