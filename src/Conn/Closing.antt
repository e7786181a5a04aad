-- ===== src/Conn/Closing.antt =====
-- Closing a connection, whole or by half: conn.go, lines 218 to 293 and 329 to 354.
use vclnet.Base.{
  ℕ, ◌+◌, ◌≤◌, ◌≡◌, refl, List, [], ◌∷◌, ◌++◌, Bool, none, some, arith, if◌then◌else◌,
}
use vclnet.Errors.{closed, net_closed}
use vclnet.Conn.Deadline.{Deadline, set_deadline}
use vclnet.Conn.Defs.{
  Call, shut_rd, shut_wr, close_vls, remove_conn, Conn, new_conn, track, World, close_read,
  close_write, close_conn, closed_state_error, Setter, sets_read, sets_write, sets_both, Live,
  check_setter, run_setter,
}

-- The connection after an operation.
abbrev pub with_conn : Conn → Live → Live
with_conn c l = record l { conn = c }

-- A step on a connection that does no I/O. A call that sets deadlines checks first, and sets the
-- deadlines one by one, with any steps of others in between.
pub data Turn (l : Live) : Live → Type 0 where
  registers : Turn l (with_conn (track l.conn) l)
  reading_ends : (o : World) → Turn l (with_conn (close_read o l.conn).0 l)
  writing_ends : (o : World) → Turn l (with_conn (close_write o l.conn).0 l)
  ends : (o : World) → Turn l (with_conn (close_conn o l.conn).0 l)
  checks : (x : Setter) (o : World) → Turn l (check_setter x o l).0
  sets :
      (before : List Setter) (x : Setter) (after : List Setter) (now : ℕ)
      → l.setters ≡ before ++ x ∷ after
      → Turn l (run_setter x (before ++ after) now l.conn)

pub data Reach : Live → Type 0 where
  init : Reach (record { conn = new_conn; setters = [] })
  later : {l m : Live} → Reach l → Turn l m → Reach m

abbrev is_close : Call → ℕ
is_close close_vls = 1
is_close _ = 0

abbrev is_remove : Call → ℕ
is_remove remove_conn = 1
is_remove _ = 0

abbrev is_shut_rd : Call → ℕ
is_shut_rd shut_rd = 1
is_shut_rd _ = 0

abbrev is_shut_wr : Call → ℕ
is_shut_wr shut_wr = 1
is_shut_wr _ = 0

-- How many calls of a kind.
unfoldable pub tally : (Call → ℕ) → List Call → ℕ
tally f [] = 0
tally f (x ∷ xs) = f x + tally f xs

abbrev bit : Bool → ℕ
bit b = if b then 1 else 0

pub record IsTidy (c : Conn) : Type 0 where
  pub same : c.is_closed ≡ c.close_once
  pub closes : tally is_close c.calls ≤ bit c.close_once
  pub removes : tally is_remove c.calls ≤ bit c.close_once
  pub reads : tally is_shut_rd c.calls ≤ bit c.read_shut_once
  pub writes : tally is_shut_wr c.calls ≤ bit c.write_shut_once
  pub read_flag : c.read_shutdown ≡ c.read_shut_once
  pub write_flag : c.write_shutdown ≡ c.write_shut_once

-- The connection once its deadlines have changed.
deadlines-IsTidy :
    {c : Conn} (r w : Deadline)
    → IsTidy c
    → IsTidy (record c { read_deadline = r; write_deadline = w })
deadlines-IsTidy r w s = record {
  same = s.same;
  closes = s.closes;
  removes = s.removes;
  reads = s.reads;
  writes = s.writes;
  read_flag = s.read_flag;
  write_flag = s.write_flag;
}

run_setter-IsTidy :
    {c : Conn} (x : Setter) (others : List Setter) (now : ℕ)
    → IsTidy c
    → IsTidy (run_setter x others now c).conn
unfolding run_setter
run_setter-IsTidy {c} (sets_read t) others now s =
    deadlines-IsTidy (set_deadline now t c.read_deadline) c.write_deadline s
run_setter-IsTidy {c} (sets_write t) others now s =
    deadlines-IsTidy c.read_deadline (set_deadline now t c.write_deadline) s
run_setter-IsTidy {c} (sets_both t) others now s =
    deadlines-IsTidy (set_deadline now t c.read_deadline) c.write_deadline s

check_setter-conn : (x : Setter) (o : World) (l : Live) → (check_setter x o l).0.conn ≡ l.conn
unfolding check_setter closed_state_error
check_setter-conn x o l = ground arith

Turn-IsTidy : {l m : Live} → Turn l m → IsTidy l.conn → IsTidy m.conn
Turn-IsTidy registers s = record {
  same = s.same;
  closes = s.closes;
  removes = s.removes;
  reads = s.reads;
  writes = s.writes;
  read_flag = s.read_flag;
  write_flag = s.write_flag;
}
Turn-IsTidy (reading_ends o) s =
    unfold close_read tally in
    record {
      same = ground (arith, s);
      closes = ground (arith, s);
      removes = ground (arith, s);
      reads = ground (arith, s);
      writes = ground (arith, s);
      read_flag = ground (arith, s);
      write_flag = ground (arith, s);
    }
Turn-IsTidy (writing_ends o) s =
    unfold close_write tally in
    record {
      same = ground (arith, s);
      closes = ground (arith, s);
      removes = ground (arith, s);
      reads = ground (arith, s);
      writes = ground (arith, s);
      read_flag = ground (arith, s);
      write_flag = ground (arith, s);
    }
Turn-IsTidy (ends o) s =
    unfold close_conn tally in
    record {
      same = ground (arith, s);
      closes = ground (arith, s);
      removes = ground (arith, s);
      reads = ground (arith, s);
      writes = ground (arith, s);
      read_flag = ground (arith, s);
      write_flag = ground (arith, s);
    }
Turn-IsTidy {l} (checks x o) s = rw (check_setter-conn x o l) s
Turn-IsTidy (sets before x after now e) s = run_setter-IsTidy x (before ++ after) now s

-- Whatever steps a connection goes through, with calls that set deadlines checked before a `Close` and
-- carried out behind it: its session is closed at most once, each half is shut down at most once, it
-- leaves the registry at most once, none of these before the `Close` or half-close that does it has
-- begun, and the flags say which of them have begun.
pub conn-IsTidy : {l : Live} → Reach l → IsTidy l.conn
conn-IsTidy init =
    unfold tally in
    record {
      same = refl;
      closes = omega arith;
      removes = omega arith;
      reads = omega arith;
      writes = omega arith;
      read_flag = refl;
      write_flag = refl;
    }
conn-IsTidy (later r t) = Turn-IsTidy t (conn-IsTidy r)

-- After `Close` every operation that begins then changes nothing and makes no call: `Close` again returns
-- nil, the half-closes return `net.ErrClosed`, and a call that sets deadlines `ErrClosed`.
close_conn-final :
    (o q : World) (l : Live) (x : Setter)
    → Reach l
    → let d = (close_conn o l.conn).0 in
      (close_conn q d ≡ (d, none))
      × (close_read q d ≡ (d, some net_closed))
      × (close_write q d ≡ (d, some net_closed))
      × (check_setter x q (with_conn d l) ≡ (with_conn d l, some closed))
unfolding close_conn close_read close_write check_setter closed_state_error
close_conn-final o q l x r = let s = conn-IsTidy r in ground (arith, s)
