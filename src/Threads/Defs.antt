-- ===== src/Threads/Defs.antt =====
-- internal/vclpoll/cgo.go, lines 704 to 788: `workerRegistry`, `vlsMu` and what is known of the
-- application.
use vclnet.Base.{
  ℕ, ◌+◌, ◌≡◌, refl, List, [], ◌∷◌, Bool, true, false, Option, none, some, ◌==◌, ◌||◌,
  if◌then◌else◌, arith, ==_iff,
}
use vclnet.Wait.Sets.{hit, count}

-- `workerRegistry.Load`: whether the thread is there.
unfoldable pub load : ℕ → List ℕ → Bool
load i [] = false
load i (j ∷ js) = i == j || load i js

-- `workerRegistry.Store`
unfoldable pub store : ℕ → List ℕ → List ℕ
unfolding load
store i js = if load i js then js else i ∷ js

-- One holder of the read lock less.
unfoldable pub release : ℕ → List ℕ → List ℕ
release i [] = []
release i (j ∷ js) = if i == j then js else j ∷ release i js

-- `appOnce`: the thread that runs the initialisation, if one does.
pub data Once : Type 0 where
  fresh : Once
  running : ℕ → Once
  finished : Once

abbrev pub is_finished : Once → Bool
is_finished finished = true
is_finished _ = false

-- `writer` and `readers` are the threads that hold `vlsMu`. `register_calls` are the threads that have
-- called `vclpoll_register_worker`, `ending` is whether `mode3BeginShutdown` was called, `ended_early`
-- whether it was while `appOnce` had not finished, `destroyer`
-- the thread whose `mode3AppDestroy` found the application created, and `destroys` the number of calls
-- of `vclpoll_app_destroy`.
pub record Shared : Type 0 where
  pub writer : Option ℕ
  pub readers : List ℕ
  pub registry : List ℕ
  pub register_calls : List ℕ
  pub app_once : Once
  pub app_err : Bool
  pub app_created : Bool
  pub app_live : Bool
  pub ending : Bool
  pub ended_early : Bool
  pub destroyer : Option ℕ
  pub destroys : ℕ

-- Whether the thread is the one named.
abbrev pub is_thread : ℕ → Option ℕ → Bool
is_thread i none = false
is_thread i (some j) = i == j

pub load-store : (j i : ℕ) (js : List ℕ) → load j (store i js) ≡ (j == i || load j js)
unfolding store load
load-store j i [] = refl
load-store j i (k ∷ js) =
    ground (arith, load-store j i js, ==_iff j i, ==_iff i k, ==_iff j k, load_self j i js)
  where
    load_self : (a b : ℕ) (ks : List ℕ) → load b ks ≡ true → a ≡ b → load a ks ≡ true
    load_self a b ks h e = ground (arith, e, h)

pub count-release :
    (j i : ℕ) (js : List ℕ) → count i js ≡ 1 → count j (release i js) + hit j i ≡ count j js
unfolding release count
count-release j i [] h = absurd (omega arith)
count-release j i (k ∷ js) h =
    ground (arith, count-release j i js, ==_iff i k, ==_iff j i, ==_iff j k)
