-- ===== src/Conn/Writes.antt =====
-- What a call of `Write` sends and reports: conn.go, lines 174 to 205.
use vclnet.Base.{
  ℕ, suc, zero, ◌+◌, ◌≤◌, ◌≡◌, refl, ◌∙◌, ap, List, [], ◌∷◌, ◌++◌, Option, none, some, arith, ◌⊎◌,
  true, if◌then◌else◌, inl, inr, Bool-cases, Option-cases, length, take, drop,
}
use native.Mathlib.Numerals.{unary_clauses}
use vclnet.Errors.{Error, net_closed}
use vclnet.Conn.Defs.{io_state_error, map_io_error}
use vclnet.Conn.Loops.{
  Round, Progress, retry, fail, accept, write_round, write_loop, write, is_canceled,
}

-- The turns in which `WriteContext` did not end in a canceled wait.
unfoldable pub write_turns : List Round → ℕ
write_turns [] = 0
write_turns (r ∷ rs) = if is_canceled r.error then write_turns rs else suc (write_turns rs)

-- What a result says of the bytes `b`, of which `sent` went out and `before` were sent earlier.
unfoldable pub Reports : ℕ → List ℕ → List ℕ → ℕ → Option Error → Type 0
Reports before b sent n e =
    (m : ℕ) × (n ≡ before + m)
    × (sent ≡ take m b)
    × (((e ≡ none) × (length b ≤ m)) ⊎ ((x : Error) × (e ≡ some x)))

Progress-cases :
    (p : Progress) → (p ≡ retry) ⊎ ((y : Error) × (p ≡ fail y)) ⊎ ((k : ℕ) × (p ≡ accept k))
Progress-cases retry = inl refl
Progress-cases (fail y) = inr (inl (y, refl))
Progress-cases (accept k) = inr (inr (k, refl))

take-append : (n m : ℕ) (b : List ℕ) → take n b ++ take m (drop n b) ≡ take (n + m) b
take-append zero m b = ap (λ k. take k b) (omega arith)
take-append (suc n) zero [] = ap (λ k. take {A = ℕ} k []) {x = suc n} (omega arith)
take-append (suc n) (suc m) [] = simp unary_clauses refl
take-append (suc n) m (x ∷ b) =
    ap (x ∷◌) (take-append n m b) ∙ ap (λ k. take k (x ∷ b)) {x = suc (n + m)} (omega arith)

length-drop : (n : ℕ) (b : List ℕ) → length b ≤ n + length (drop n b)
length-drop zero b = omega arith
length-drop (suc n) [] = omega arith
length-drop (suc n) (x ∷ b) = omega (arith, length-drop n b)

drop-length : (n : ℕ) (b : List ℕ) → 1 ≤ n → 1 ≤ length b → length (drop n b) + 1 ≤ length b
drop-length zero b h k = absurd (omega arith)
drop-length (suc n) [] h k = absurd (omega arith)
drop-length (suc zero) (x ∷ b) h k = omega arith
drop-length (suc (suc n)) (x ∷ []) h k = omega arith
drop-length (suc (suc n)) (x ∷ y ∷ b) h k =
    omega (arith, drop-length (suc n) (y ∷ b) (omega arith) (omega arith))

accept_pos : (r : Round) (n : ℕ) → write_round r ≡ accept n → 1 ≤ n
unfolding write_round io_state_error map_io_error
accept_pos r n e = ground (arith, e)

-- What went out before a turn and what goes out from it on.
Reports-accept :
    (before n m : ℕ) (b : List ℕ) (sent : List ℕ) (e : Option Error)
    → Reports (before + n) (drop n b) sent m e
    → Reports before b (take n b ++ sent) m e
unfolding Reports
Reports-accept before n m b sent e (k, at, out, inl (fine, all)) = (
  n + k,
  omega arith,
  ap (take n b ++◌) out ∙ take-append n k b,
  inl (fine, omega (arith, length-drop n b)),
)
Reports-accept before n m b sent e (k, at, out, inr failed) =
    (n + k, omega arith, ap (take n b ++◌) out ∙ take-append n k b, inr failed)

loop-Reports :
    (before : ℕ) (b : List ℕ) (rs : List Round) (n : ℕ) (e : Option Error)
    → (write_loop before b rs).result ≡ some (n, e)
    → Reports before b (write_loop before b rs).sent n e
unfolding write_loop Reports
loop-Reports before [] rs n e h = (0, ground (arith, h), refl, inl (ground (arith, h), omega arith))
loop-Reports before (x ∷ b) [] n e h = absurd (cc)
loop-Reports before (x ∷ b) (r ∷ rs) n e h = elim (Progress-cases (write_round r)) [
  | inl same ↦
      rw (same, write_loop) (loop-Reports before (x ∷ b) rs n e (rw (same, write_loop) at h))
  | inr (inl (y, fails)) ↦
      rw (fails, write_loop)
        (
          0,
          ground (arith, rw (fails, write_loop) at h),
          refl,
          inr (y, ground (arith, rw (fails, write_loop) at h)),
        )
  | inr (inr (k, more)) ↦
      rw (more, write_loop)
        (Reports-accept before k n (x ∷ b) (write_loop (before + k) (drop k (x ∷ b)) rs).sent e
          (loop-Reports (before + k) (drop k (x ∷ b)) rs n e (rw (more, write_loop) at h)))
]

sent_first :
    (b : List ℕ) (rs : List Round) (n : ℕ) (e : Option Error)
    → (write_loop 0 b rs).result ≡ some (n, e)
    → ((write_loop 0 b rs).sent ≡ take n b)
      × (((e ≡ none) × (length b ≤ n)) ⊎ ((x : Error) × (e ≡ some x)))
unfolding Reports
sent_first b rs n e h =
    let (m, at, out, end) = loop-Reports 0 b rs n e h in
    (
      out ∙ ap (λ k. take k b) (omega (arith, at)),
      elim end [ inl (fine, all) ↦ inl (fine, omega (arith, at, all)) | inr failed ↦ inr failed ],
    )

-- `Write` reports honestly: if it returns `n`, what VLS accepted, in order, is the first `n` bytes of
-- `b` and no other; and its error is nil only if that is all of `b`.
pub write-Reports :
    (b : List ℕ) (first : Round) (rs : List Round) (n : ℕ) (e : Option Error)
    → (write b first rs).result ≡ some (n, e)
    → ((write b first rs).sent ≡ take n b)
      × (((e ≡ none) × (length b ≤ n)) ⊎ ((x : Error) × (e ≡ some x)))
unfolding write
write-Reports b first rs n e h = elim (Bool-cases first.conn.write_shutdown) [
  | inl shut ↦
      let k : some (0, some net_closed) ≡ some (n, e) = rw shut at h in
      rw shut (ground (arith, k), inr (net_closed, ground (arith, k)))
  | inr running ↦
      elim (Option-cases (io_state_error first.world first.conn first.conn.write_deadline)) [
        | inl fine ↦ rw running (rw fine (sent_first b rs n e (rw fine at (rw running at h))))
        | inr (y, bad) ↦
            let k : some (0, some y) ≡ some (n, e) = rw bad at (rw running at h) in
            rw running (rw bad (ground (arith, k), inr (y, ground (arith, k))))
      ]
]

retry-canceled : (r : Round) → write_round r ≡ retry → is_canceled r.error ≡ true
unfolding write_round io_state_error map_io_error
retry-canceled r e = ground (arith, e)

write_turns-cons : (r : Round) (rs : List Round) → write_turns (r ∷ rs) ≤ suc (write_turns rs)
unfolding write_turns
write_turns-cons r rs = ground arith

loop-returns :
    (before : ℕ) (b : List ℕ) (rs : List Round)
    → length b ≤ write_turns rs
    → (n : ℕ) × (e : Option Error) × ((write_loop before b rs).result ≡ some (n, e))
unfolding write_loop write_turns
loop-returns before [] rs h = (before, none, refl)
loop-returns before (x ∷ b) [] h = absurd (omega arith)
loop-returns before (x ∷ b) (r ∷ rs) h = elim (Progress-cases (write_round r)) [
  | inl same ↦
      rw (same, write_loop)
        (loop-returns before (x ∷ b) rs (rw (retry-canceled r same, write_turns) at h))
  | inr (inl (y, fails)) ↦ rw (fails, write_loop) (before, some y, refl)
  | inr (inr (k, more)) ↦
      rw (more, write_loop)
        (loop-returns (before + k) (drop k (x ∷ b)) rs (
          let counted = write_turns-cons r rs in
          let shorter = drop-length k (x ∷ b) (accept_pos r k more) (omega arith) in omega arith))
]

-- `Write` of any bytes returns, at the latest once as many turns as there are bytes have not ended in a
-- canceled wait.
pub write-returns :
    (b : List ℕ) (first : Round) (rs : List Round)
    → length b ≤ write_turns rs
    → (n : ℕ) × (e : Option Error) × ((write b first rs).result ≡ some (n, e))
unfolding write
write-returns b first rs h = elim (Bool-cases first.conn.write_shutdown) [
  | inl shut ↦ rw shut (0, some net_closed, refl)
  | inr running ↦
      elim (Option-cases (io_state_error first.world first.conn first.conn.write_deadline)) [
        | inl fine ↦ rw running (rw fine (loop-returns 0 b rs h))
        | inr (y, bad) ↦ rw running (rw bad (0, some y, refl))
      ]
]
