-- ===== src/Worker/Sessions.antt =====
-- Adding and removing a session of a worker keeps `IsConsistent`: what `registerSession` and
-- `unregisterSession` of internal/vclpoll/mode2.go do to it.
use vclnet.Base.{
  ◌≡◌, ◌≢◌, refl, sym, ◌∙◌, Option, none, some, arith, lookup, insert, delete, int_eq,
  lookup-insert, lookup-delete, Option-cases, inl, inr, int_cases,
}
use vclnet.Wait.{Vlsh}
use vclnet.Worker.Defs.{Worker}
use vclnet.Worker.Invariant.{IsConsistent}

-- A session that is added has a public handle and a raw handle that the worker does not hold.
pub insert_session-Consistent :
    (w : Worker) (k raw : Vlsh)
    → IsConsistent w
    → lookup k w.sessions ≡ none
    → ((u : Vlsh) → lookup u w.sessions ≢ some raw)
    → IsConsistent (record w { sessions = insert k raw w.sessions })
insert_session-Consistent w k raw c free unused = record {
  distinct = c.distinct;
  apart = λ u v r lu lv. elim (int_cases u k) [
    | inl eu ↦ elim (int_cases v k) [
      | inl ev ↦ eu ∙ sym ev
      | inr nv ↦ absurd (unused v (old v r nv lv ∙ is_raw u r eu lu))
    ]
    | inr nu ↦ elim (int_cases v k) [
      | inl ev ↦ absurd (unused u (old u r nu lu ∙ is_raw v r ev lv))
      | inr nv ↦ c.apart u v r (old u r nu lu) (old v r nv lv)
    ]
  ];
  sets = c.sets;
  tracked = λ u l.
      c.tracked u (ground (arith, l, free, lookup-insert u k raw w.sessions, int_eq.beq_iff u k));
  asked = λ u r l. elim (int_cases u k) [
    | inl eu ↦ ground (arith, eu, is_raw u r eu l, c.unasked raw unused, c.tracked k free)
    | inr nu ↦ c.asked u r (old u r nu l)
  ];
  unasked = λ r no.
      c.unasked r (λ u l.
        no u (ground (arith, l, free, lookup-insert u k raw w.sessions, int_eq.beq_iff u k)));
}
  where
    old :
        (u r : Vlsh)
        → u ≢ k
        → lookup u (insert k raw w.sessions) ≡ some r
        → lookup u w.sessions ≡ some r
    old u r ne l = ground (arith, l, lookup-insert u k raw w.sessions, int_eq.beq_iff u k)

    is_raw :
        (u r : Vlsh)
        → u ≡ k
        → lookup u (insert k raw w.sessions) ≡ some r
        → ◌≡◌ {A = Option Vlsh} (some r) (some raw)
    is_raw u r e l = ground (arith, l, lookup-insert u k raw w.sessions, int_eq.beq_iff u k)

pub delete_session-Consistent :
    (w : Worker) (k : Vlsh)
    → IsConsistent w
    → lookup k w.waiters ≡ none
    → IsConsistent (record w { sessions = delete k w.sessions })
delete_session-Consistent w k c quiet = record {
  distinct = c.distinct;
  apart = λ u v r lu lv. c.apart u v r (old u r lu) (old v r lv);
  sets = c.sets;
  tracked = λ u l. elim (int_cases u k) [
    | inl e ↦ rw e quiet
    | inr ne ↦ c.tracked u (ground (arith, l, lookup-delete u k w.sessions, int_eq.beq_iff u k))
  ];
  asked = λ u r l. c.asked u r (old u r l);
  unasked = λ r no. elim (Option-cases (lookup k w.sessions)) [
    | inl gone ↦
        c.unasked r
          (λ u l. no u (ground (arith, l, gone, lookup-delete u k w.sessions, int_eq.beq_iff u k)))
    | inr (raw, here) ↦ elim (int_cases r raw) [
      | inl e ↦ rw e (c.asked k raw here ∙ rw quiet refl)
      | inr ne ↦ c.unasked r (λ u l.
          no u (ground (arith, l, here, ne, lookup-delete u k w.sessions, int_eq.beq_iff u k)))
    ]
  ];
}
  where
    old : (u r : Vlsh) → lookup u (delete k w.sessions) ≡ some r → lookup u w.sessions ≡ some r
    old u r l = ground (arith, l, lookup-delete u k w.sessions)
