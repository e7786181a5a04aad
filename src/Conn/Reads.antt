-- ===== src/Conn/Reads.antt =====
-- What a call of `Read` returns: conn.go, lines 140 to 172.
use vclnet.Base.{
  ℕ, ◌<◌, ◌≡◌, refl, List, [], ◌∷◌, ◌++◌, true, false, ◌==◌, Option, none, some, arith, ◌⊎◌, inl,
  inr, Bool-cases, Option-cases,
}
use vclnet.Errors.{Error, eof}
use vclnet.Conn.Defs.{io_state_error, map_io_error}
use vclnet.Conn.Loops.{Round, Next, again, return, read_round, read_loop, read, is_canceled}

Next-cases : (x : Next) → (x ≡ again) ⊎ ((n : ℕ) × (e : Option Error) × (x ≡ return n e))
Next-cases again = inl refl
Next-cases (return n e) = inr (n, e, refl)

-- Bytes, or an error and no bytes.
unfoldable pub Reports : ℕ → Option Error → Type 0
Reports n e = ((0 < n) × (e ≡ none)) ⊎ ((x : Error) × (n ≡ 0) × (e ≡ some x))

round-Reports : (r : Round) (n : ℕ) (e : Option Error) → read_round r ≡ return n e → Reports n e
unfolding read_round io_state_error map_io_error Reports
round-Reports r n none h = inl (ground (arith, h), refl)
round-Reports r n (some x) h = inr (x, ground (arith, h), refl)

again-canceled : (r : Round) → read_round r ≡ again → is_canceled r.error ≡ true
unfolding read_round io_state_error map_io_error
again-canceled r e = ground (arith, e)

loop-returned :
    (r : Round) (after : List Round) (n : ℕ) (e : Option Error)
    → read_round r ≡ return n e
    → read_loop (r ∷ after) ≡ some (n, e)
unfolding read_loop
loop-returned r after n e ends = rw (ends, read_loop) refl

loop-Reports :
    (before : List Round) (r : Round)
    → is_canceled r.error ≡ false
    → (n : ℕ) × (e : Option Error) × ((after : List Round)
        → read_loop (before ++ r ∷ after) ≡ some (n, e))
      × Reports n e
unfolding read_loop
loop-Reports [] r h = elim (Next-cases (read_round r)) [
  | inl same ↦ absurd (ground (arith, again-canceled r same, h))
  | inr (n, e, ends) ↦ (n, e, (λ after. loop-returned r after n e ends), round-Reports r n e ends)
]
loop-Reports (x ∷ before) r h = elim (Next-cases (read_round x)) [
  | inl same ↦
      let (n, e, returns, reports) = loop-Reports before r h in
      (n, e, (λ after. rw (same, read_loop) (returns after)), reports)
  | inr (n, e, ends) ↦
      (n, e, (λ after. loop-returned x (before ++ r ∷ after) n e ends), round-Reports x n e ends)
]

-- `Read` into a buffer that is not empty returns, at the latest with the first turn in which
-- `ReadContext` does not end in a canceled wait, whatever comes after that turn; and it returns either
-- at least one byte and no error, or no byte and an error.
pub read-Reports :
    (size : ℕ) (first : Round) (before : List Round) (r : Round)
    → 0 < size
    → is_canceled r.error ≡ false
    → (n : ℕ) × (e : Option Error) × ((after : List Round)
        → read size first (before ++ r ∷ after) ≡ some (n, e))
      × (((0 < n) × (e ≡ none)) ⊎ ((x : Error) × (n ≡ 0) × (e ≡ some x)))
unfolding read Reports
read-Reports size first before r s h = elim (Bool-cases first.conn.read_shutdown) [
  | inl shut ↦ (0, some eof, (λ after. rw shut refl), inr (eof, refl, refl))
  | inr running ↦
      elim (Option-cases (io_state_error first.world first.conn first.conn.read_deadline)) [
        | inl fine ↦
            let (n, e, returns, reports) = loop-Reports before r h in
            (n, e, (λ after. rw running (rw fine (rw (nonempty size s) (returns after)))), reports)
        | inr (y, bad) ↦ (0, some y, (λ after. rw running (rw bad refl)), inr (y, refl, refl))
      ]
]
  where
    nonempty : (k : ℕ) → 0 < k → (k == 0) ≡ false
    nonempty k p = ground arith
