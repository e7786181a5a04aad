-- ===== src/Dialer/Race.antt =====
-- dialer.go, lines 171 to 243: the race of `dialHappyEyeballs`.
use vclnet.Base.{
  ℕ, suc, ◌+◌, ◌-◌, ◌≤◌, ◌≡◌, refl, sym, subst, ap, ◌∙◌, List, [], ◌∷◌, true, ◌==◌, ◌&&◌, ltb, leb,
  Option, none, some, arith, if◌then◌else◌, ◌||◌, Bool-cases, Option-cases, inl, inr,
}
use vclnet.Errors.{Error, Result, ok, err}

-- What the loop selects: the result of an attempt, the timer, or the end of the context.
pub data Event : Type 0 where
  result : Result ℕ → Event
  timer : Event
  done : Error → Event

-- How the call ends: with a connection, with the error of the last attempt, interrupted, or by
-- falling out of the loop.
pub data Verdict : Type 0 where
  won : ℕ → Verdict
  lost interrupted : Error → Verdict
  none_succeeded : Verdict

-- `next_idx` attempts are started. `received` counts the results that the loop took, and `reaped`
-- those that `cleanup` leaves to its goroutine, which closes their connections.
pub record Race : Type 0 where
  pub next_idx : ℕ
  pub outstanding : ℕ
  pub received : ℕ
  pub reaped : ℕ
  pub verdict : Option Verdict

-- After `start(sorted[0])`.
abbrev pub started : Race
started = record { next_idx = 1; outstanding = 1; received = 0; reaped = 0; verdict = none }

-- `start(sorted[nextIdx])`, if an address is left of the `n`.
unfoldable pub start_next : ℕ → Race → Race
start_next n r =
    if ltb r.next_idx n
    then record r { next_idx = r.next_idx + 1; outstanding = r.outstanding + 1 }
    else r

-- `cleanup`, and the return.
unfoldable pub finish : Verdict → Race → Race
finish v r = record r { reaped = r.outstanding; verdict = some v }

unfoldable pub select : ℕ → Event → Race → Race
unfolding start_next finish
select n (result (ok c)) r =
    finish (won c) (record r { outstanding = r.outstanding - 1; received = r.received + 1 })
select n (result (err e)) r =
    let r' = record r { outstanding = r.outstanding - 1; received = r.received + 1 } in
    if (r'.outstanding == 0) && leb n r'.next_idx
    then record r' { verdict = some (lost e) }
    else start_next n r'
select n timer r = start_next n r
select n (done e) r = finish (interrupted e) r

turn_at : Option Verdict → ℕ → Event → Race → Race
unfolding select
turn_at (some v) n e r = r
turn_at none n e r =
    if ltb 0 r.outstanding then select n e r else record r { verdict = some none_succeeded }

-- One turn of the loop, with its condition. A call that has returned takes no more turns.
unfoldable pub turn : ℕ → Event → Race → Race
unfolding turn_at
turn n e r = turn_at r.verdict n e r

-- `dialHappyEyeballs` over `n` addresses, by what its loop selects.
unfoldable pub race : ℕ → List Event → Race → Race
unfolding turn
race n [] r = r
race n (e ∷ es) r = race n es (turn n e r)

-- What holds of a verdict.
unfoldable pub Ended : ℕ → Race → Option Verdict → Type 0
Ended n r none = (1 ≤ r.outstanding) × (r.reaped ≡ 0)
Ended n r (some (won c)) = r.reaped ≡ r.outstanding
Ended n r (some (lost e)) = (r.next_idx ≡ n) × (r.received ≡ n) × (r.reaped ≡ 0)
Ended n r (some (interrupted e)) = r.reaped ≡ r.outstanding
Ended n r (some none_succeeded) = ⊥

pub record IsFair (n : ℕ) (r : Race) : Type 0 where
  pub accounted : r.received + r.outstanding ≡ r.next_idx
  pub bounded : r.next_idx ≤ n
  pub ended : Ended n r r.verdict

-- A race that goes on, from its numbers.
running-IsFair :
    (n : ℕ) (r : Race)
    → r.verdict ≡ none
    → r.received + r.outstanding ≡ r.next_idx
    → r.next_idx ≤ n
    → 1 ≤ r.outstanding
    → r.reaped ≡ 0
    → IsFair n r
unfolding Ended
running-IsFair n r v a b o z = record { accounted = a; bounded = b; ended = rw v (o, z) }

start_next-IsFair :
    (n : ℕ) (r : Race)
    → r.verdict ≡ none
    → r.received + r.outstanding ≡ r.next_idx
    → r.next_idx ≤ n
    → (ltb 0 r.outstanding || ltb r.next_idx n) ≡ true
    → r.reaped ≡ 0
    → IsFair n (start_next n r)
unfolding start_next
start_next-IsFair n r v a b more z = elim (Bool-cases (ltb r.next_idx n)) [
  | inl left ↦ rw left (running-IsFair n _ v (omega arith) (ground arith) (omega arith) z)
  | inr over ↦ rw over (running-IsFair n r v a b (ground arith) z)
]

select-IsFair :
    (n : ℕ) (e : Event) (r : Race)
    → r.verdict ≡ none
    → 1 ≤ r.outstanding
    → r.reaped ≡ 0
    → IsFair n r
    → IsFair n (select n e r)
unfolding select finish Ended
select-IsFair n (result (ok c)) r v o z f = record {
  accounted = omega (arith, f.accounted);
  bounded = f.bounded;
  ended = refl;
}
select-IsFair n (result (err e)) r v o z f =
    elim (Bool-cases ((r.outstanding - 1 == 0) && leb n r.next_idx)) [
      | inl last ↦ rw last (record {
        accounted = omega (arith, f.accounted);
        bounded = f.bounded;
        ended = (ground (arith, f.bounded), ground (arith, f.bounded, f.accounted), z);
      })
      | inr more ↦
          rw more (start_next-IsFair n _ v (omega (arith, f.accounted)) f.bounded (ground arith) z)
    ]
select-IsFair n timer r v o z f = start_next-IsFair n r v f.accounted f.bounded (ground arith) z
select-IsFair n (done e) r v o z f = record {
  accounted = f.accounted;
  bounded = f.bounded;
  ended = refl;
}

turn-over : (n : ℕ) (e : Event) (r : Race) (v : Verdict) → r.verdict ≡ some v → turn n e r ≡ r
unfolding turn turn_at
turn-over n e r v h = ap (λ x. turn_at x n e r) h

positive : (k : ℕ) → 1 ≤ k → ltb 0 k ≡ true
positive k h = ground arith

turn-select :
    (n : ℕ) (e : Event) (r : Race)
    → r.verdict ≡ none
    → 1 ≤ r.outstanding
    → turn n e r ≡ select n e r
unfolding turn turn_at
turn-select n e r h o = ap (λ x. turn_at x n e r) h ∙ rw (positive r.outstanding o) refl

going : (n : ℕ) (r : Race) → r.verdict ≡ none → IsFair n r → (1 ≤ r.outstanding) × (r.reaped ≡ 0)
unfolding Ended
going n r v f = rw v at f.ended

turn-IsFair : (n : ℕ) (e : Event) (r : Race) → IsFair n r → IsFair n (turn n e r)
turn-IsFair n e r f = elim (Option-cases r.verdict) [
  | inl v ↦
      let (o, z) = going n r v f in
      subst (IsFair n) (sym (turn-select n e r v o)) (select-IsFair n e r v o z f)
  | inr (v, over) ↦ subst (IsFair n) (sym (turn-over n e r v over)) f
]

race_from-IsFair : (n : ℕ) (es : List Event) (r : Race) → IsFair n r → IsFair n (race n es r)
unfolding race
race_from-IsFair n [] r f = f
race_from-IsFair n (e ∷ es) r f = race_from-IsFair n es (turn n e r) (turn-IsFair n e r f)

-- However the results, the timer and the context interleave: the addresses are started one after the
-- other and no more than there are, the loop never leaves without a verdict of its own, and when
-- the call returns every attempt that was started has its result taken, by the loop or by the
-- goroutine of `cleanup`, so that no connection leaks. The error of an attempt is returned only when
-- all addresses have been tried and have failed.
pub race-IsFair : (n : ℕ) (es : List Event) → 1 ≤ n → IsFair n (race n es started)
unfolding Ended
race-IsFair n es h =
    race_from-IsFair n es started
      (record { accounted = omega arith; bounded = h; ended = (omega arith, refl) })

-- The results among the events.
unfoldable pub results : List Event → ℕ
results [] = 0
results (result x ∷ es) = suc (results es)
results (timer ∷ es) = results es
results (done e ∷ es) = results es

-- While the call has not returned, it has taken all results.
select-received :
    (n : ℕ) (e : Event) (es : List Event) (r : Race)
    → (select n e r).verdict ≡ none
    → (select n e r).received + results es ≡ r.received + results (e ∷ es)
unfolding select start_next finish results
select-received n (result (ok c)) es r h = absurd (cc)
select-received n (result (err x)) es r h = ground (arith, h)
select-received n timer es r h = ground (arith, h)
select-received n (done x) es r h = absurd (cc)

turn-received :
    (n : ℕ) (e : Event) (es : List Event) (r : Race)
    → IsFair n r
    → (turn n e r).verdict ≡ none
    → (turn n e r).received + results es ≡ r.received + results (e ∷ es)
turn-received n e es r f h = elim (Option-cases r.verdict) [
  | inl v ↦
      let (o, z) = going n r v f in
      subst (λ q. q.received + results es ≡ r.received + results (e ∷ es))
        (sym (turn-select n e r v o))
        (select-received n e es r (subst (λ q. q.verdict ≡ none) (turn-select n e r v o) h))
  | inr (v, over) ↦ absurd (cc (turn-over n e r v over, over, h))
]

race-over :
    (n : ℕ) (es : List Event) (r : Race) (v : Verdict) → r.verdict ≡ some v → race n es r ≡ r
unfolding race
race-over n [] r v h = refl
race-over n (e ∷ es) r v h = ap (race n es) (turn-over n e r v h) ∙ race-over n es r v h

race-received :
    (n : ℕ) (es : List Event) (r : Race)
    → IsFair n r
    → (race n es r).verdict ≡ none
    → (race n es r).received ≡ r.received + results es
unfolding race
race-received n [] r f h = unfold results in omega arith
race-received n (e ∷ es) r f h = elim (Option-cases (turn n e r).verdict) [
  | inl runs ↦
      race-received n es (turn n e r) (turn-IsFair n e r f) h ∙ turn-received n e es r f runs
  | inr (v, over) ↦
      let stays = ap (λ x. x.verdict) (race-over n es (turn n e r) v over) in
      absurd (cc (stays, over, h))
]

-- The call returns as soon as it has as many results as there are addresses.
race-ends :
    (n : ℕ) (es : List Event)
    → 1 ≤ n
    → n ≤ results es
    → (v : Verdict) × ((race n es started).verdict ≡ some v)
unfolding race
race-ends n es h enough = elim (Option-cases (race n es started).verdict) [
  | inl runs ↦
      let f = race-IsFair n es h in
      absurd (
        omega (
          arith,
          (going n (race n es started) runs f).0,
          f.accounted,
          f.bounded,
          race-received n es started (race-IsFair n [] h) runs,
        ))
  | inr found ↦ found
]
