-- ===== src/Packet/Quiet.antt =====
-- packetconn.go, lines 73 to 152 and 233 to 260: when the wait of `Close` ends, and when it cannot.
use vclnet.Base.{
  ℕ, zero, suc, ◌+◌, ◌<◌, ◌≤◌, ◌≡◌, ◌∙◌, refl, ap, sym, subst, true, false, ◌==◌, arith, ==_iff,
  ◌⊎◌, inl, inr, Bool-cases,
}
use vclnet.Packet.Goroutines.{
  Phase, at_head, calling, sending, sending_error, removing, returned, not_called, waiting, Socket,
  capacity, Move, sees_stop, calls, fails_stopped, fails, sends_error, update, Step, accept_loop,
  accepts, read_loop, reads, sends, stops_sending, removes, selects, receives, leaves, marks_closed,
  closes_stop, finishes, new_packet_conn, Reach, here, later,
}

-- Somebody is at the send of an error.
abbrev pub Sends : Phase → ℕ → (ℕ → Phase) → Type 0
Sends acceptor next reader =
    (acceptor ≡ sending_error) ⊎ ((i : ℕ) × (i < next) × (reader i ≡ sending_error))

-- A state from which `Close` cannot return: it waits, and a loop sends an error to the full channel,
-- while no call of `ReadFrom` is left to receive.
pub record IsStuck (s : Socket) : Type 0 where
  pub shut : s.closed ≡ true
  pub waits : s.closing ≡ waiting
  pub sends_to : Sends s.acceptor s.next s.reader
  pub full : s.incoming ≡ capacity
  pub nobody : s.selecting ≡ 0

full_blocks :
    {s : Socket} {behind x y : Phase} {n : ℕ}
    → s.incoming ≡ capacity
    → Move s behind x n y
    → (n ≡ 0) × (x ≡ sending_error → ⊥)
full_blocks e (sees_stop h) = (refl, λ q. absurd (cc))
full_blocks e (calls h) = (refl, λ q. absurd (cc))
full_blocks e (fails_stopped h) = (refl, λ q. absurd (cc))
full_blocks e (fails b h) = (refl, λ q. absurd (cc))
full_blocks e (sends_error h) = absurd (omega (arith, e))

-- A loop that is not at that send moves.
kept_reader :
    {a : Phase} {n : ℕ} {f : ℕ → Phase} (j : ℕ) (x : Phase)
    → (f j ≡ sending_error → ⊥)
    → Sends a n f
    → Sends a n (update f j x)
kept_reader j x h (inl e) = inl e
kept_reader {f = f} j x h (inr (i, l, e)) = elim (Bool-cases (i == j)) [
  | inl same ↦ absurd (h (ap f (sym ((==_iff i j).0 same)) ∙ e))
  | inr other ↦ inr (i, l, rw other e)
]

kept_acceptor :
    {a : Phase} {n : ℕ} {f : ℕ → Phase} (x : Phase)
    → (a ≡ sending_error → ⊥)
    → Sends a n f
    → Sends x n f
kept_acceptor x h (inl e) = absurd (h e)
kept_acceptor x h (inr r) = inr r

one_more : {a : Phase} {n : ℕ} {f : ℕ → Phase} → Sends a n f → Sends a (n + 1) (update f n at_head)
one_more (inl e) = inl e
one_more {n = n} (inr (i, l, e)) = elim (Bool-cases (i == n)) [
  | inl same ↦ absurd (omega (arith, l, (==_iff i n).0 same))
  | inr other ↦ inr (i, omega (arith, l), rw other e)
]

stuck :
    {s t : Socket}
    → IsStuck s
    → t.closed ≡ s.closed
    → t.closing ≡ s.closing
    → t.incoming ≡ s.incoming
    → t.selecting ≡ s.selecting
    → Sends t.acceptor t.next t.reader
    → IsStuck t
stuck k a b c d e = record {
  shut = a ∙ k.shut;
  waits = b ∙ k.waits;
  sends_to = e;
  full = c ∙ k.full;
  nobody = d ∙ k.nobody;
}

Step-IsStuck : {s t : Socket} → Step s t → IsStuck s → IsStuck t
Step-IsStuck (accept_loop {x = x} m) k =
    let (nil, other) = full_blocks k.full m in
    stuck k refl refl (omega (arith, nil)) refl (kept_acceptor x other k.sends_to)
Step-IsStuck (accepts e) k =
    stuck k refl refl refl refl
      (one_more (kept_acceptor at_head (λ q. absurd (cc (q, e))) k.sends_to))
Step-IsStuck (read_loop i {x = x} m) k =
    let (nil, other) = full_blocks k.full m in
    stuck k refl refl (omega (arith, nil)) refl (kept_reader i x other k.sends_to)
Step-IsStuck (reads i e) k =
    stuck k refl refl refl refl (kept_reader i sending (λ q. absurd (cc (q, e))) k.sends_to)
Step-IsStuck (sends i e l) k = absurd (omega (arith, k.full))
Step-IsStuck (stops_sending i e h) k =
    stuck k refl refl refl refl (kept_reader i returned (λ q. absurd (cc (q, e))) k.sends_to)
Step-IsStuck (removes i e) k =
    stuck k refl refl refl refl (kept_reader i returned (λ q. absurd (cc (q, e))) k.sends_to)
Step-IsStuck (selects e) k = absurd (cc (k.shut, e))
Step-IsStuck (receives h l) k = absurd (omega (arith, k.nobody))
Step-IsStuck (leaves h) k = absurd (omega (arith, k.nobody))
Step-IsStuck (marks_closed e) k = absurd (cc (k.waits, e))
Step-IsStuck (closes_stop e) k = absurd (cc (k.waits, e))
Step-IsStuck {s} (finishes e a r) k = absurd (gone k.sends_to)
  where
    gone : Sends s.acceptor s.next s.reader → ⊥
    gone (inl q) = absurd (cc (q, a))
    gone (inr (i, l, q)) = absurd (cc (q, r i l))

-- If an accept or read loop is at the send of an error while `incoming` is full and no call of
-- `ReadFrom` is left, then a `Close` that waits for the loops waits for ever: whatever anybody does, it
-- is never behind its wait.
pub close_hangs : {s t : Socket} → IsStuck s → Reach s t → t.closing ≡ waiting
close_hangs k r = (still r k).waits
  where
    still : {s t : Socket} → Reach s t → IsStuck s → IsStuck t
    still here k = k
    still (later r u) k = Step-IsStuck u (still r k)

-- A socket whose first peer has sent `n` datagrams that nobody has received.
record Filled (n : ℕ) (s : Socket) : Type 0 where
  from_new : Reach new_packet_conn s
  idle : s.reader 0 ≡ at_head
  accepting : s.acceptor ≡ at_head
  peer : s.next ≡ 1
  held : s.incoming ≡ n
  open_yet : (s.closed ≡ false) × (s.stop_closed ≡ false)
  uncalled : s.closing ≡ not_called
  nobody : s.selecting ≡ 0

first_peer : (s : Socket) × Filled 0 s
unfolding new_packet_conn
first_peer = (
  _,
  record {
    from_new = later (later here (accept_loop (calls refl))) (accepts refl);
    idle = refl;
    accepting = refl;
    peer = refl;
    held = refl;
    open_yet = (refl, refl);
    uncalled = refl;
    nobody = refl;
  },
)

next_datagram : {n : ℕ} {s : Socket} → n < capacity → Filled n s → (t : Socket) × Filled (n + 1) t
next_datagram {n} {s} l k = (
  _,
  record {
    from_new =
        later
          (later
            (later k.from_new (
              read_loop 0
                (subst (λ x. Move s removing x 0 calling) (sym k.idle) (calls k.open_yet.1))))
            (reads 0 refl))
          (sends 0 refl (omega (arith, l, k.held)));
    idle = refl;
    accepting = k.accepting;
    peer = k.peer;
    held = omega (arith, k.held);
    open_yet = k.open_yet;
    uncalled = k.uncalled;
    nobody = k.nobody;
  },
)

filled : (n : ℕ) → n ≤ capacity → (s : Socket) × Filled n s
filled zero l = first_peer
filled (suc n) l =
    let (s, k) = filled n (omega (arith, l)) in
    let (t, j) = next_datagram (omega (arith, l)) k in (t, subst (λ m. Filled m t) (omega arith) j)

-- A socket can get there: its only peer fills the channel, its next read fails, and then `Close` is
-- called.
pub stuck_reached : (s : Socket) × Reach new_packet_conn s × IsStuck s
stuck_reached =
    let (s, k) = filled capacity (omega arith) in
    (
      _,
      later
          (later
            (later
              (later k.from_new (
                read_loop 0
                  (subst (λ x. Move s removing x 0 calling) (sym k.idle) (calls k.open_yet.1))))
              (read_loop 0 (fails false k.open_yet.1)))
            (marks_closed k.uncalled))
          (closes_stop refl),
      record {
        shut = refl;
        waits = refl;
        sends_to = inr (0, omega (arith, k.peer), refl);
        full = omega (arith, k.held);
        nobody = k.nobody;
      },
    )
