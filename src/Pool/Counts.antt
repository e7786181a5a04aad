-- ===== src/Pool/Counts.antt =====
-- internal/vclpoll/mode2.go, lines 126 to 142, and worker.go, lines 137 to 174: every operation that is
-- submitted is in one place.
use vclnet.Base.{
  ℕ, ◌+◌, ◌≤◌, ◌≡◌, refl, ap, List, [], ◌∷◌, ◌++◌, Bool, true, false, ◌==◌, arith, ==_iff, inl, inr,
  subst, Bool-cases,
}
use vclnet.Wait.Sets.{hit, count}
use vclnet.Pool.System.{
  Caller, idle, rejected, sending, waiting, returned, System, update, drain_op, refuses, Step,
  turns, drains_op, refuses_op, submits, rejects, sends, gives_up_sending, gets_answer,
  gives_up_waiting, Reach, init, later,
}

count-append_one : (o a : ℕ) (xs : List ℕ) → count o (xs ++ a ∷ []) ≡ count o xs + hit o a
unfolding count
count-append_one o a [] = omega arith
count-append_one o a (x ∷ xs) = omega (arith, count-append_one o a xs)

-- Whether the call may have left its operation with worker `i`.
abbrev pub is_at : Caller → ℕ → Bool
is_at (waiting i) j = j == i
is_at (returned i) j = j == i
is_at _ j = false

abbrev pub is_sent : Caller → Bool
is_sent (waiting i) = true
is_sent (returned i) = true
is_sent _ = false

-- The worker that a call is about.
abbrev pub is_for : Caller → ℕ → Bool
is_for (sending i) j = j == i
is_for (waiting i) j = j == i
is_for _ j = false

abbrev pub waits_at : Caller → ℕ → Bool
waits_at (waiting i) j = j == i
waits_at _ j = false

at_one : (c : Caller) (i j : ℕ) → is_at c i ≡ true → is_at c j ≡ true → i ≡ j
at_one (waiting k) i j e d = ground (arith, e, d, ==_iff i k, ==_iff j k)
at_one (returned k) i j e d = ground (arith, e, d, ==_iff i k, ==_iff j k)
at_one _ i j e d = absurd (cc)

waits_is_at : (c : Caller) (i : ℕ) → waits_at c i ≡ true → is_at c i ≡ true
waits_is_at (waiting k) i e = e
waits_is_at _ i e = absurd (cc)

at_sent : (c : Caller) (i : ℕ) → is_at c i ≡ true → is_sent c ≡ true
at_sent (waiting k) i e = refl
at_sent (returned k) i e = refl
at_sent _ i e = absurd (cc)

-- What holds of the operation `o`: `queue`, `ran` and `refused` are where it can be.
pub record IsCounted (queue : ℕ → List ℕ) (ran refused : List ℕ) (o : ℕ) (c : Caller) : Type 0 where
  pub once : (j : ℕ) → count o (queue j) + count o ran + count o refused ≤ 1
  pub apart : (j : ℕ) → is_at c j ≡ false → count o (queue j) ≡ 0
  pub unsent : is_sent c ≡ false → count o ran + count o refused ≡ 0
  pub kept : (j : ℕ) → waits_at c j ≡ true → count o (queue j) + count o ran + count o refused ≡ 1

-- Worker `i` takes the operation `a` from its channel, and answers it in one of two ways.
taken :
    {queue : ℕ → List ℕ} {ran refused ran' refused' rest : List ℕ} {o : ℕ} {c : Caller} (i a : ℕ)
    → queue i ≡ a ∷ rest
    → count o ran' + count o refused' ≡ count o ran + count o refused + hit o a
    → IsCounted queue ran refused o c
    → IsCounted (update queue i rest) ran' refused' o c
unfolding count
taken {queue} {ran} {refused} {ran'} {refused'} {rest} {o} {c} i a e s k =
    let here = ap (count o) e in
    record {
      once = λ j.
          ground
            (arith, here, s, k.once i, k.once j, k.apart i, k.apart j, at_one c i j, ==_iff j i);
      apart =
          λ j d. ground (arith, here, k.apart j d, ==_iff j i, ap (λ (x : ℕ). count o (queue x)));
      unsent = λ d. ground (arith, here, s, k.unsent d, k.apart i, at_sent c i);
      kept = λ j d. ground (
        arith,
        here,
        s,
        k.kept j d,
        k.once i,
        k.apart i,
        waits_is_at c j d,
        at_one c i j,
        ==_iff j i,
        ap (λ (x : ℕ). count o (queue x)),
      );
    }

-- A call that goes on, while its operation stays where it is.
recalled :
    {queue : ℕ → List ℕ} {ran refused : List ℕ} {o : ℕ} {c : Caller} (d : Caller)
    → ((j : ℕ) → is_at d j ≡ false → is_at c j ≡ false)
    → (is_sent d ≡ false → is_sent c ≡ false)
    → ((j : ℕ) → waits_at d j ≡ true → waits_at c j ≡ true)
    → IsCounted queue ran refused o c
    → IsCounted queue ran refused o d
recalled d a b w k = record {
  once = k.once;
  apart = λ j e. k.apart j (a j e);
  unsent = λ e. k.unsent (b e);
  kept = λ j e. k.kept j (w j e);
}

-- The call sends its operation to worker `i`.
sent :
    {queue : ℕ → List ℕ} {ran refused : List ℕ} {o : ℕ} (i : ℕ)
    → IsCounted queue ran refused o (sending i)
    → IsCounted (update queue i (queue i ++ o ∷ [])) ran refused o (waiting i)
sent {queue} {ran} {refused} {o} i k =
    let one = count-append_one o o (queue i) in
    record {
      once = λ j.
          ground
            (arith, one, k.apart i refl, k.apart j refl, k.unsent refl, ==_iff o o, ==_iff j i);
      apart = λ j e. ground (arith, e, k.apart j refl);
      unsent = λ e. absurd (cc);
      kept = λ j e. ground (arith, one, e, k.apart i refl, k.unsent refl, ==_iff o o);
    }

-- Another call does.
sent_other :
    {queue : ℕ → List ℕ} {ran refused : List ℕ} {o : ℕ} {c : Caller} (i a : ℕ)
    → (o == a) ≡ false
    → IsCounted queue ran refused o c
    → IsCounted (update queue i (queue i ++ a ∷ [])) ran refused o c
sent_other {queue} {ran} {refused} {o} {c} i a d k =
    let none_more = count-append_one o a (queue i) in
    let at = λ (j : ℕ) (e : j ≡ i). ap (λ (x : ℕ). count o (queue x)) e in
    record {
      once = λ j. ground (arith, none_more, d, k.once j, k.once i);
      apart = λ j e. ground (arith, none_more, d, k.apart j e, ==_iff j i, at j);
      unsent = k.unsent;
      kept = λ j e. ground (arith, none_more, d, k.kept j e, ==_iff j i, at j);
    }

unfoldable pub AreCounted : System → Type 0
AreCounted s = (o : ℕ) → IsCounted s.queue s.ran s.refused o (s.caller o)

-- A step of the call `o`, which changes no queue.
called :
    (s : System) (o : ℕ) (c d : Caller)
    → s.caller o ≡ c
    → (IsCounted s.queue s.ran s.refused o c → IsCounted s.queue s.ran s.refused o d)
    → AreCounted s
    → AreCounted (record s { caller = update s.caller o d })
unfolding AreCounted
called s o c d e f k p = elim (Bool-cases (p == o)) [
  | inl same ↦
      rw (same, (==_iff p o).0 same)
        (f (subst (λ x. IsCounted s.queue s.ran s.refused o x) e (k o)))
  | inr other ↦ rw other (k p)
]

sends-AreCounted :
    (s : System) (o i : ℕ)
    → s.caller o ≡ sending i
    → AreCounted s
    → AreCounted (record s {
      queue = update s.queue i (s.queue i ++ o ∷ []);
      caller = update s.caller o (waiting i);
    })
unfolding AreCounted
sends-AreCounted s o i e k p = elim (Bool-cases (p == o)) [
  | inl same ↦
      rw (same, (==_iff p o).0 same)
        (sent i (subst (λ x. IsCounted s.queue s.ran s.refused o x) e (k o)))
  | inr other ↦ rw other (sent_other i o other (k p))
]

drains-AreCounted :
    (s : System) (i o : ℕ) (rest : List ℕ)
    → s.queue i ≡ o ∷ rest
    → AreCounted s
    → AreCounted (drain_op (record s { queue = update s.queue i rest }) o)
unfolding AreCounted drain_op count
drains-AreCounted s i o rest e k p = elim (Bool-cases (refuses s.pool)) [
  | inl r ↦ rw r (taken i o e (omega arith) (k p))
  | inr r ↦ rw r (taken i o e (omega arith) (k p))
]

Step-AreCounted : {total : ℕ} {s t : System} → Step total s t → AreCounted s → AreCounted t
unfolding AreCounted count
Step-AreCounted (turns u) k = k
Step-AreCounted {s = s} (drains_op i o rest e d) k = drains-AreCounted s i o rest d k
Step-AreCounted (refuses_op i o rest e d) k = λ p. taken i o d (omega arith) (k p)
Step-AreCounted {s = s} (submits o i e d l) k =
    called s o idle (sending i) e
      (recalled (sending i) (λ j x. refl) (λ x. refl) (λ j x. absurd (cc))) k
Step-AreCounted {s = s} (rejects o e d) k =
    called s o idle rejected e (recalled rejected (λ j x. refl) (λ x. refl) (λ j x. absurd (cc))) k
Step-AreCounted {s = s} (sends o i e l) k = sends-AreCounted s o i e k
Step-AreCounted {s = s} (gives_up_sending o i e d) k =
    called s o (sending i) (returned i) e
      (recalled (returned i) (λ j x. refl) (λ x. refl) (λ j x. absurd (cc))) k
Step-AreCounted {s = s} (gets_answer o i e d) k =
    called s o (waiting i) (returned i) e
      (recalled (returned i) (λ j x. x) (λ x. absurd (cc)) (λ j x. absurd (cc))) k
Step-AreCounted {s = s} (gives_up_waiting o i e d) k =
    called s o (waiting i) (returned i) e
      (recalled (returned i) (λ j x. x) (λ x. absurd (cc)) (λ j x. absurd (cc))) k

pub Reach-AreCounted : {total : ℕ} {s : System} → Reach total s → AreCounted s
unfolding AreCounted count
Reach-AreCounted init = λ o. record {
  once = λ j. omega arith;
  apart = λ j e. refl;
  unsent = λ e. refl;
  kept = λ j e. absurd (cc);
}
Reach-AreCounted (later r t) = Step-AreCounted t (Reach-AreCounted r)
