-- ===== src/Setup/Options.antt =====
-- vclnet.go, lines 44 to 87, and internal/vclpoll/dispatch.go, lines 97 to 127: the choice of a mode.
use vclnet.Base.{
  ℤ, pos, negsuc, ◌≡◌, inl, inr, refl, Bool, true, false, Option, none, some, int_eq, ltb,
  if◌then◌else◌, arith, Bool-cases,
}
use vclnet.Errors.{Error, bad_option, closed, Result, ok, err}

pub data Mode : Type 0 where
  mode2 mode3 : Mode

-- What VCLNET_VLS_MODE says, if it is set.
pub data ModeText : Type 0 where
  text2 text3 other_text : ModeText

-- VCLNET_WORKERS, none if it is not set; a value that `Atoi` refuses is `some none`.
pub record Environment : Type 0 where
  pub workers : Option (Option ℤ)
  pub mode : Option ModeText

abbrev pub below_one : ℤ → Bool
below_one (pos n) = ltb n 1
below_one (negsuc n) = true

-- `workers`, as the options give it.
abbrev pub option_workers : ℤ → Result ℤ
option_workers (pos n) = ok (if ltb n 1 then pos 1 else pos n)
option_workers (negsuc n) = err bad_option

-- `workers`, once the environment is read.
abbrev pub parsed_workers : Option ℤ → Result ℤ
parsed_workers none = err bad_option
parsed_workers (some n) = if below_one n then err bad_option else ok n

abbrev pub env_workers : Option (Option ℤ) → ℤ → Result ℤ
env_workers none workers = ok workers
env_workers (some value) workers = parsed_workers value

abbrev pub default_mode : ℤ → Mode
default_mode (pos n) = if ltb 1 n then mode2 else mode3
default_mode (negsuc n) = mode3

abbrev pub with_mode : Option ModeText → ℤ → Result (Mode × ℤ)
with_mode none workers = ok (default_mode workers, workers)
with_mode (some text2) workers = ok (mode2, workers)
with_mode (some text3) workers = ok (mode3, workers)
with_mode (some other_text) workers = err bad_option

abbrev pub and_then {ℓ κ} : {A : Type ℓ} {B : Type κ} → Result A → (A → Result B) → Result B
and_then (ok a) k = k a
and_then (err e) k = err e

-- `resolveInitOptions`
unfoldable pub resolve_init_options : ℤ → Environment → Result (Mode × ℤ)
resolve_init_options workers env =
    and_then (option_workers workers)
      (λ n. and_then (env_workers env.workers n) (λ m. with_mode env.mode m))

-- `dispatchInitOnce`, `dispatchInitErr` and the mode of `activeDispatcher`.
pub record Dispatch : Type 0 where
  pub init_once : Bool
  pub init_err : Option Error
  pub active : Mode

abbrev pub initialized : Dispatch → Mode → Option Error → Dispatch
initialized s mode none = record { init_once = true; init_err = none; active = mode }
initialized s mode (some e) = record { init_once = true; init_err = some e; active = s.active }

abbrev pub first_init : Dispatch → Mode → ℤ → Option Error → Dispatch
first_init s mode3 workers answer = initialized s mode3 answer
first_init s mode2 workers answer =
    if below_one workers then initialized s mode2 (some bad_option) else initialized s mode2 answer

-- `AppInitWithOptions`, where `answer` is what `appInit` of the selected dispatcher returns.
unfoldable pub app_init_with_options : Dispatch → Mode → ℤ → Option Error → Dispatch × Option Error
app_init_with_options s mode workers answer =
    if s.init_once
    then (s, s.init_err)
    else (first_init s mode workers answer, (first_init s mode workers answer).init_err)

-- `InitWithOptions`
abbrev init_resolved : Dispatch → Option Error → Result (Mode × ℤ) → Dispatch × Option Error
init_resolved s answer (err e) = (s, some e)
init_resolved s answer (ok (mode, workers)) = app_init_with_options s mode workers answer

unfoldable pub init_with_options :
    Bool → Dispatch → ℤ → Environment → Option Error → Dispatch × Option Error
unfolding resolve_init_options app_init_with_options
init_with_options shutdown_started s workers env answer =
    if shutdown_started
    then (s, some closed)
    else init_resolved s answer (resolve_init_options workers env)

option_workers-below_one : (w : ℤ) {n : ℤ} → option_workers w ≡ ok n → below_one n ≡ false
option_workers-below_one (pos w) e = ground (arith, e)
option_workers-below_one (negsuc w) e = absurd (cc)

parsed-below_one : (v : Option ℤ) {m : ℤ} → parsed_workers v ≡ ok m → below_one m ≡ false
parsed-below_one none e = absurd (cc)
parsed-below_one (some v) e = ground (arith, e)

env-below_one :
    (v : Option (Option ℤ)) (n : ℤ) {m : ℤ}
    → below_one n ≡ false
    → env_workers v n ≡ ok m
    → below_one m ≡ false
env-below_one none n h e = ground (arith, h, e)
env-below_one (some v) n h e = parsed-below_one v e

with_mode-workers : (t : Option ModeText) (m : ℤ) {r : Mode × ℤ} → with_mode t m ≡ ok r → r.1 ≡ m
with_mode-workers none m e = ground (arith, e)
with_mode-workers (some text2) m e = ground (arith, e)
with_mode-workers (some text3) m e = ground (arith, e)
with_mode-workers (some other_text) m e = absurd (cc)

-- What stands behind a chain that gives a result.
and_then-ok {ℓ κ} :
    {A : Type ℓ} {B : Type κ} (r : Result A) (k : A → Result B) {b : B}
    → and_then r k ≡ ok b
    → (a : A) × (r ≡ ok a) × (k a ≡ ok b)
and_then-ok (ok a) k e = (a, refl, e)
and_then-ok (err x) k e = absurd (cc)

pub resolved-below_one :
    (workers : ℤ) (env : Environment) {r : Mode × ℤ}
    → resolve_init_options workers env ≡ ok r
    → below_one r.1 ≡ false
unfolding resolve_init_options
resolved-below_one workers env {r} e =
    let (n, e1, rest) = and_then-ok (option_workers workers) _ e in
    let (m, e2, e3) = and_then-ok (env_workers env.workers n) _ rest in
    rw (with_mode-workers env.mode m e3)
      (env-below_one env.workers n (option_workers-below_one workers e1) e2)

first_init-answer :
    (s : Dispatch) (mode : Mode) (workers : ℤ) (answer : Option Error)
    → below_one workers ≡ false
    → first_init s mode workers answer ≡ initialized s mode answer
first_init-answer s mode3 workers answer h = refl
first_init-answer s mode2 workers answer h = simp h refl

initialized-err :
    (s : Dispatch) (mode : Mode) (answer : Option Error)
    → (initialized s mode answer).init_err ≡ answer
initialized-err s mode none = refl
initialized-err s mode (some e) = refl

-- The first initialisation, once its options are resolved, has the worker count that its mode needs: it
-- returns what `appInit` of the selected dispatcher returns, and selects the mode exactly if that is no
-- error.
init_with_options-resolved :
    (s : Dispatch) (workers : ℤ) (env : Environment) (answer : Option Error) (mode : Mode) (n : ℤ)
    → s.init_once ≡ false
    → resolve_init_options workers env ≡ ok (mode, n)
    → init_with_options false s workers env answer ≡ (initialized s mode answer, answer)
unfolding init_with_options app_init_with_options
init_with_options-resolved s workers env answer mode n h e =
    rw
      (
        e,
        h,
        first_init-answer s mode n answer (resolved-below_one workers env e),
        initialized-err s mode answer,
      )
      refl

initialized-once :
    (s : Dispatch) (mode : Mode) (answer : Option Error)
    → (initialized s mode answer).init_once ≡ true
initialized-once s mode none = refl
initialized-once s mode (some e) = refl

first_init-once :
    (s : Dispatch) (mode : Mode) (workers : ℤ) (answer : Option Error)
    → (first_init s mode workers answer).init_once ≡ true
first_init-once s mode3 workers answer = initialized-once s mode3 answer
first_init-once s mode2 workers answer = elim (Bool-cases (below_one workers)) [
  | inl h ↦ simp h refl
  | inr h ↦ simp h (initialized-once s mode2 answer)
]

-- What an initialisation makes of a state that is initialised.
later_init :
    (s : Dispatch) (mode : Mode) (workers : ℤ) (answer : Option Error)
    → s.init_once ≡ true
    → app_init_with_options s mode workers answer ≡ (s, s.init_err)
unfolding app_init_with_options
later_init s mode workers answer h = simp h refl

earlier_init :
    (s : Dispatch) (mode : Mode) (workers : ℤ) (answer : Option Error)
    → s.init_once ≡ false
    → app_init_with_options s mode workers answer
      ≡ (first_init s mode workers answer, (first_init s mode workers answer).init_err)
unfolding app_init_with_options
earlier_init s mode workers answer h = simp h refl

once-by :
    (s : Dispatch) (mode mode' : Mode) (workers workers' : ℤ) (answer answer' : Option Error)
    (b : Bool)
    → s.init_once ≡ b
    → let (s', e) = app_init_with_options s mode workers answer in
      app_init_with_options s' mode' workers' answer' ≡ (s', e)
once-by s mode mode' workers workers' answer answer' true h =
    rw (later_init s mode workers answer h) (later_init s mode' workers' answer' h)
once-by s mode mode' workers workers' answer answer' false h =
    rw (earlier_init s mode workers answer h) (
      later_init (first_init s mode workers answer) mode' workers' answer'
        (first_init-once s mode workers answer))

-- Only the first initialisation counts: whatever its outcome, each later one changes nothing and
-- returns the same.
app_init_with_options-once :
    (s : Dispatch) (mode mode' : Mode) (workers workers' : ℤ) (answer answer' : Option Error)
    → let (s', e) = app_init_with_options s mode workers answer in
      app_init_with_options s' mode' workers' answer' ≡ (s', e)
unfolding app_init_with_options
app_init_with_options-once s mode mode' workers workers' answer answer' =
    once-by s mode mode' workers workers' answer answer' s.init_once refl
