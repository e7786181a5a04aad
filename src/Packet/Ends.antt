-- ===== src/Packet/Ends.antt =====
-- packetconn.go, lines 73 to 152 and 233 to 260: `Close` waits for the loops, and they end.
use vclnet.Base.{
  ℕ, zero, suc, ◌<◌, ◌≤◌, ◌≡◌, ◌∙◌, refl, ap, sym, true, false, ◌==◌, arith, ==_iff, ltb, ◌⊎◌, inl,
  inr, Bool-cases, subst,
}
use vclnet.Packet.Goroutines.{
  Phase, absent, at_head, calling, sending, sending_error, removing, returned, waiting, finished,
  Socket, capacity, Move, sees_stop, fails_stopped, sends_error, Step, accept_loop, read_loop,
  stops_sending, removes, leaves, finishes, new_packet_conn, Reach,
}
use vclnet.Packet.Quiet.{IsStuck, Sends}
use vclnet.Packet.Sane.{is_absent, accepts_in, is_shut, IsSane, Reach-IsSane}

abbrev pub Goes : Socket → Type 0
Goes s = (t : Socket) × Step s t

module _ (s : Socket) (k : IsSane s) (stop : s.stop_closed ≡ true) where
  accept-Goes :
      (x : Phase)
      → s.acceptor ≡ x
      → accepts_in x ≡ true
      → (x ≡ returned) ⊎ (x ≡ sending_error) ⊎ Goes s
  accept-Goes at_head e a =
      inr
        (inr (_, accept_loop (subst (λ x. Move s returned x 0 returned) (sym e) (sees_stop stop))))
  accept-Goes calling e a = inr (
      inr (_, accept_loop (subst (λ x. Move s returned x 0 returned) (sym e) (fails_stopped stop))))
  accept-Goes sending_error e a = inr (inl refl)
  accept-Goes returned e a = inl refl
  accept-Goes absent e a = absurd (cc)
  accept-Goes sending e a = absurd (cc)
  accept-Goes removing e a = absurd (cc)

  read-Goes :
      (i : ℕ) (x : Phase)
      → s.reader i ≡ x
      → is_absent x ≡ false
      → (x ≡ returned) ⊎ (x ≡ sending_error) ⊎ Goes s
  read-Goes i at_head e a =
      inr
        (inr (_, read_loop i (subst (λ x. Move s removing x 0 returned) (sym e) (sees_stop stop))))
  read-Goes i calling e a = inr (
      inr (_, read_loop i (subst (λ x. Move s removing x 0 removing) (sym e) (fails_stopped stop))))
  read-Goes i sending e a = inr (inr (_, stops_sending i e stop))
  read-Goes i sending_error e a = inr (inl refl)
  read-Goes i removing e a = inr (inr (_, removes i e))
  read-Goes i returned e a = inl refl
  read-Goes i absent e a = absurd (cc)

  -- The read loops below `n`: all have returned, one is at the send of an error, or one goes on.
  readers_go :
      (n : ℕ)
      → n ≤ s.next
      → ((i : ℕ) → i < n → s.reader i ≡ returned)
        ⊎ ((i : ℕ) × (i < s.next) × (s.reader i ≡ sending_error))
        ⊎ Goes s
  readers_go zero l = inl (λ i h. absurd (omega (arith, h)))
  readers_go (suc n) l = elim (readers_go n (omega (arith, l))) [
    | inl all ↦ elim (read-Goes n (s.reader n) refl (k.begun n (omega (arith, l)))) [
      | inl e ↦ inl (one_further n e all)
      | inr r ↦ elim r [ inl e ↦ inr (inl (n, omega (arith, l), e)) | inr g ↦ inr (inr g) ]
    ]
    | inr r ↦ inr r
  ]
    where
      one_further :
          (m : ℕ)
          → s.reader m ≡ returned
          → ((i : ℕ) → i < m → s.reader i ≡ returned)
          → (i : ℕ) → i < suc m
          → s.reader i ≡ returned
      one_further m e all i h = elim (Bool-cases (i == m)) [
        | inl same ↦ ap s.reader ((==_iff i m).0 same) ∙ e
        | inr other ↦ all i (ground (arith, h, other))
      ]

  sender-Goes : Sends s.acceptor s.next s.reader → s.incoming < capacity → Goes s
  sender-Goes (inl e) l =
      (_, accept_loop (subst (λ x. Move s returned x 1 returned) (sym e) (sends_error l)))
  sender-Goes (inr (i, h, e)) l =
      (_, read_loop i (subst (λ x. Move s removing x 1 removing) (sym e) (sends_error l)))

  sender_or_stuck : s.closing ≡ waiting → Sends s.acceptor s.next s.reader → IsStuck s ⊎ Goes s
  sender_or_stuck w e = elim (Bool-cases (ltb s.incoming capacity)) [
    | inl l ↦ inr (sender-Goes e (ground (arith, l)))
    | inr l ↦ elim (Bool-cases (s.selecting == 0)) [
      | inl n ↦ inl (record {
        shut = (k.shut (ap is_shut w)).0;
        waits = w;
        sends_to = e;
        full = ground (arith, l, k.bounded);
        nobody = (==_iff s.selecting 0).0 n;
      })
      | inr n ↦ inr (_, leaves (ground (arith, n)))
    ]
  ]

  wait-Goes : s.closing ≡ waiting → IsStuck s ⊎ Goes s
  wait-Goes w = elim (accept-Goes s.acceptor refl k.accepting) [
    | inl a ↦ elim (readers_go s.next (omega arith)) [
      | inl all ↦ inr (_, finishes w a all)
      | inr r ↦ elim r [ inl e ↦ sender_or_stuck w (inr e) | inr g ↦ inr g ]
    ]
    | inr r ↦ elim r [ inl e ↦ sender_or_stuck w (inl e) | inr g ↦ inr g ]
  ]

-- Once `Close` is behind its wait for the loops, the accept loop and every read loop have returned, so
-- that none of them uses the table of peers that `Close` then takes away. While it waits, some loop or a
-- call of `ReadFrom` can go on, or the wait is over, unless a loop is at the send of an error while
-- `incoming` is full and no call of `ReadFrom` is left.
pub close_waits :
    (i : ℕ) {s : Socket}
    → Reach new_packet_conn s
    → (s.closing ≡ finished → (s.acceptor ≡ returned) × (i < s.next → s.reader i ≡ returned))
      × (s.closing ≡ waiting → IsStuck s ⊎ Goes s)
close_waits i {s} r =
    let k = Reach-IsSane r in
    (λ e. ((k.over e).0, (k.over e).1 i), λ w. wait-Goes s k (k.shut (ap is_shut w)).1 w)
