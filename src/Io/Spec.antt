-- ===== src/Io/Spec.antt =====
-- What a blocking call promises: internal/vclpoll/cgo.go and mode2.go, whatever the mode.
use vclnet.Base.{
  List, [], ◌∷◌, ◌++◌, Bool, true, false, Option, none, some, ◌≡◌, refl, ◌↔◌, if◌then◌else◌, All,
  ap, ◌∙◌, Option-cases, Bool-cases, subst, arith, inl, inr,
}
use vclnet.Errors.{Error, Result, ok, err, is_again_error, errno, eagain}

-- One attempt: what it answers, whether the wait after it finds the session ready, and the error of
-- a wait that does not.
pub record Attempt {ℓ} (A : Type ℓ) : Type ℓ where
  pub answer : Result A
  pub ready : Bool
  pub interrupted : Error

module _ {ℓ} {A : Type ℓ} where
  -- What an attempt settles, none if the call goes on.
  abbrev pub judge : Bool → Error → Result A → Option (Result A)
  judge ready interrupted (ok a) = some (ok a)
  judge ready interrupted (err e) =
      if is_again_error e then (if ready then none else some (err interrupted)) else some (err e)

  abbrev pub verdict : Attempt A → Option (Result A)
  verdict t = judge t.ready t.interrupted t.answer

  -- A call returns `r` if some attempt settles it as `r` and none before settles anything.
  abbrev pub Returns : List (Attempt A) → Result A → Type ℓ
  Returns ts r =
      (before : List (Attempt A)) × (t : Attempt A) × (after : List (Attempt A)) × (ts
        ≡ before ++ t ∷ after)
      × All (λ s. verdict s ≡ none) before
      × (verdict t ≡ some r)

  abbrev pub or_else : Option (Result A) → Option (Result A) → Option (Result A)
  or_else none o = o
  or_else (some r) o = some r

  -- The first verdict, as a function.
  abbrev pub first_verdict : List (Attempt A) → Option (Result A)
  first_verdict [] = none
  first_verdict (t ∷ ts) = or_else (verdict t) (first_verdict ts)

  Returns-later :
      (t : Attempt A) (ts : List (Attempt A)) (r : Result A)
      → verdict t ≡ none
      → Returns ts r
      → Returns (t ∷ ts) r
  Returns-later t ts r h (before, s, after, e, hs, v) =
      (t ∷ before, s, after, ap (λ xs. t ∷ xs) e, (h, hs), v)

  first_verdict-Returns :
      (ts : List (Attempt A)) (r : Result A) → first_verdict ts ≡ some r → Returns ts r
  first_verdict-Returns [] r e = absurd (cc)
  first_verdict-Returns (t ∷ ts) r e = elim (Option-cases (verdict t)) [
    | inl h ↦ Returns-later t ts r h (first_verdict-Returns ts r (simp h at e))
    | inr (s, h) ↦ ([], t, ts, refl, tt, h ∙ simp h at e)
  ]

  Returns-first_verdict :
      (before : List (Attempt A)) (t : Attempt A) (after : List (Attempt A)) (r : Result A)
      → All (λ s. verdict s ≡ none) before
      → verdict t ≡ some r
      → first_verdict (before ++ t ∷ after) ≡ some r
  Returns-first_verdict [] t after r hs v = simp v refl
  Returns-first_verdict (s ∷ before) t after r (h, hs) v =
      simp h (Returns-first_verdict before t after r hs v)

  pub first_verdict_iff :
      (ts : List (Attempt A)) (r : Result A) → (first_verdict ts ≡ some r) ↔ Returns ts r
  first_verdict_iff ts r = (
    first_verdict-Returns ts r,
    λ (before, t, after, e, hs, v).
        ap first_verdict e ∙ Returns-first_verdict before t after r hs v,
  )

-- No verdict is EAGAIN, if no interrupted wait ends in it.
module _ {ℓ} {A : Type ℓ} where
  judge-not_again :
      (ready : Bool) (interrupted : Error) (r : Result A)
      → is_again_error interrupted ≡ false
      → ¬ (judge ready interrupted r ≡ some (err (errno eagain)))
  unfolding is_again_error
  judge-not_again ready interrupted (ok a) h e = absurd (cc)
  judge-not_again true interrupted (err x) h e = elim (Bool-cases (is_again_error x)) [
    | inl hx ↦ absurd (ground (arith, hx, e))
    | inr hx ↦ absurd (ground (arith, hx, e))
  ]
  judge-not_again false interrupted (err x) h e = elim (Bool-cases (is_again_error x)) [
    | inl hx ↦ absurd (ground (arith, hx, h, e))
    | inr hx ↦ absurd (ground (arith, hx, e))
  ]

  interrupted_at :
      (before : List (Attempt A)) (t : Attempt A) (after : List (Attempt A))
      → All (λ s. is_again_error s.interrupted ≡ false) (before ++ t ∷ after)
      → is_again_error t.interrupted ≡ false
  interrupted_at [] t after h = h.0
  interrupted_at (s ∷ before) t after h = interrupted_at before t after h.1

  -- A call that returns does not return EAGAIN.
  pub Returns-not_again :
      (ts : List (Attempt A))
      → All (λ s. is_again_error s.interrupted ≡ false) ts
      → ¬ Returns ts (err (errno eagain))
  Returns-not_again ts h (before, t, after, e, hs, v) =
      judge-not_again t.ready t.interrupted t.answer
        (interrupted_at before t after
          (subst (All (λ s. is_again_error s.interrupted ≡ false)) e h))
        v
