-- ===== src/Packet/Sane.antt =====
-- packetconn.go, lines 73 to 152 and 233 to 260: what holds of a socket in every state.
use vclnet.Base.{
  ℕ, ◌+◌, ◌<◌, ◌≤◌, ◌≡◌, ◌∙◌, refl, ap, sym, Bool, true, false, ◌==◌, arith, ==_iff, inl, inr,
  Bool-cases,
}
use vclnet.Packet.Goroutines.{
  Phase, absent, at_head, sending, removing, returned, Closing, marked, waiting, finished, Socket,
  capacity, Move, sees_stop, calls, fails_stopped, fails, sends_error, update, Step, accept_loop,
  accepts, read_loop, reads, sends, stops_sending, removes, selects, receives, leaves, marks_closed,
  closes_stop, finishes, new_packet_conn, Reach, here, later,
}

abbrev pub is_absent : Phase → Bool
is_absent absent = true
is_absent _ = false

-- The phases of an accept loop.
abbrev pub accepts_in : Phase → Bool
accepts_in absent = false
accepts_in sending = false
accepts_in removing = false
accepts_in _ = true

abbrev pub is_shut : Closing → Bool
is_shut waiting = true
is_shut finished = true
is_shut _ = false

-- What holds of a socket that was made by `newPacketConn`.
pub record IsSane (s : Socket) : Type 0 where
  pub begun : (i : ℕ) → i < s.next → is_absent (s.reader i) ≡ false
  pub accepting : accepts_in s.acceptor ≡ true
  pub shut : is_shut s.closing ≡ true → (s.closed ≡ true) × (s.stop_closed ≡ true)
  pub marks : s.closing ≡ marked → s.closed ≡ true
  pub bounded : s.incoming ≤ capacity
  pub over :
      s.closing ≡ finished
      → (s.acceptor ≡ returned) × ((i : ℕ) → i < s.next → s.reader i ≡ returned)

Move-bounded :
    {s : Socket} {b x y : Phase} {n : ℕ}
    → Move s b x n y
    → s.incoming ≤ capacity
    → s.incoming + n ≤ capacity
Move-bounded (sees_stop h) l = omega (arith, l)
Move-bounded (calls h) l = omega (arith, l)
Move-bounded (fails_stopped h) l = omega (arith, l)
Move-bounded (fails c h) l = omega (arith, l)
Move-bounded (sends_error h) l = omega (arith, h)

Move-running : {s : Socket} {b x y : Phase} {n : ℕ} → Move s b x n y → x ≡ returned → ⊥
Move-running (sees_stop h) e = absurd (cc)
Move-running (calls h) e = absurd (cc)
Move-running (fails_stopped h) e = absurd (cc)
Move-running (fails c h) e = absurd (cc)
Move-running (sends_error h) e = absurd (cc)

accept_moves : {s : Socket} {x y : Phase} {n : ℕ} → Move s returned x n y → accepts_in y ≡ true
accept_moves (sees_stop h) = refl
accept_moves (calls h) = refl
accept_moves (fails_stopped h) = refl
accept_moves (fails true h) = refl
accept_moves (fails false h) = refl
accept_moves (sends_error h) = refl

read_moves : {s : Socket} {x y : Phase} {n : ℕ} → Move s removing x n y → is_absent y ≡ false
read_moves (sees_stop h) = refl
read_moves (calls h) = refl
read_moves (fails_stopped h) = refl
read_moves (fails true h) = refl
read_moves (fails false h) = refl
read_moves (sends_error h) = refl

begun_put :
    {n : ℕ} (f : ℕ → Phase) (j : ℕ) (x : Phase)
    → is_absent x ≡ false
    → ((i : ℕ) → i < n → is_absent (f i) ≡ false)
    → (i : ℕ) → i < n
    → is_absent (update f j x i) ≡ false
begun_put f j x a h i l = elim (Bool-cases (i == j)) [
  | inl same ↦ rw same a
  | inr other ↦ rw other (h i l)
]

-- A loop that has not returned cannot run once `Close` is behind its wait.
over_put :
    {s : Socket} (j : ℕ) (x : Phase)
    → (s.reader j ≡ returned → ⊥)
    → IsSane s
    → s.closing ≡ finished
    → (s.acceptor ≡ returned) × ((i : ℕ) → i < s.next → update s.reader j x i ≡ returned)
over_put {s} j x run k e = (
  (k.over e).0,
  λ i l. elim (Bool-cases (i == j)) [
    | inl same ↦ absurd (run (ap s.reader (sym ((==_iff i j).0 same)) ∙ (k.over e).1 i l))
    | inr other ↦ rw other ((k.over e).1 i l)
  ],
)

reader_moved :
    {s : Socket} (j : ℕ) (x : Phase) (n : ℕ)
    → IsSane s
    → (s.reader j ≡ returned → ⊥)
    → is_absent x ≡ false
    → s.incoming + n ≤ capacity
    → IsSane (record s { reader = update s.reader j x; incoming = s.incoming + n })
reader_moved {s} j x n k run a l = record {
  begun = begun_put s.reader j x a k.begun;
  accepting = k.accepting;
  shut = k.shut;
  marks = k.marks;
  bounded = l;
  over = over_put j x run k;
}

reader_stays :
    {s : Socket} (j : ℕ) (x : Phase)
    → IsSane s
    → (s.reader j ≡ returned → ⊥)
    → is_absent x ≡ false
    → IsSane (record s { reader = update s.reader j x })
reader_stays {s} j x k run a = record {
  begun = begun_put s.reader j x a k.begun;
  accepting = k.accepting;
  shut = k.shut;
  marks = k.marks;
  bounded = k.bounded;
  over = over_put j x run k;
}

Step-IsSane : {s t : Socket} → Step s t → IsSane s → IsSane t
Step-IsSane (accept_loop m) k = record {
  begun = k.begun;
  accepting = accept_moves m;
  shut = k.shut;
  marks = k.marks;
  bounded = Move-bounded m k.bounded;
  over = λ e. absurd (Move-running m (k.over e).0);
}
Step-IsSane {s} (accepts e) k = record {
  begun = λ i l. elim (Bool-cases (i == s.next)) [
    | inl same ↦ rw same refl
    | inr other ↦ rw other (k.begun i (ground (arith, l, other)))
  ];
  accepting = refl;
  shut = k.shut;
  marks = k.marks;
  bounded = k.bounded;
  over = λ q. absurd (cc ((k.over q).0, e));
}
Step-IsSane (read_loop i {n} {x} m) k =
    reader_moved i x n k (Move-running m) (read_moves m) (Move-bounded m k.bounded)
Step-IsSane (reads i e) k = reader_stays i sending k (λ q. absurd (cc (q, e))) refl
Step-IsSane (sends i e l) k =
    reader_moved i at_head 1 k (λ q. absurd (cc (q, e))) refl (omega (arith, l))
Step-IsSane (stops_sending i e h) k = reader_stays i returned k (λ q. absurd (cc (q, e))) refl
Step-IsSane (removes i e) k = reader_stays i returned k (λ q. absurd (cc (q, e))) refl
Step-IsSane (selects e) k = record {
  begun = k.begun;
  accepting = k.accepting;
  shut = k.shut;
  marks = k.marks;
  bounded = k.bounded;
  over = k.over;
}
Step-IsSane (receives h l) k = record {
  begun = k.begun;
  accepting = k.accepting;
  shut = k.shut;
  marks = k.marks;
  bounded = omega (arith, k.bounded);
  over = k.over;
}
Step-IsSane (leaves h) k = record {
  begun = k.begun;
  accepting = k.accepting;
  shut = k.shut;
  marks = k.marks;
  bounded = k.bounded;
  over = k.over;
}
Step-IsSane (marks_closed e) k = record {
  begun = k.begun;
  accepting = k.accepting;
  shut = λ q. absurd (cc);
  marks = λ q. refl;
  bounded = k.bounded;
  over = λ q. absurd (cc);
}
Step-IsSane (closes_stop e) k = record {
  begun = k.begun;
  accepting = k.accepting;
  shut = λ q. (k.marks e, refl);
  marks = λ q. absurd (cc);
  bounded = k.bounded;
  over = λ q. absurd (cc);
}
Step-IsSane (finishes e a r) k = record {
  begun = k.begun;
  accepting = k.accepting;
  shut = λ q. k.shut (ap is_shut e);
  marks = λ q. absurd (cc);
  bounded = k.bounded;
  over = λ q. (a, r);
}

pub Reach-IsSane : {s : Socket} → Reach new_packet_conn s → IsSane s
unfolding new_packet_conn
Reach-IsSane here = record {
  begun = λ i l. absurd (omega (arith, l));
  accepting = refl;
  shut = λ e. absurd (cc);
  marks = λ e. absurd (cc);
  bounded = omega arith;
  over = λ e. absurd (cc);
}
Reach-IsSane (later r t) = Step-IsSane t (Reach-IsSane r)
