-- ===== src/Threads/System.antt =====
-- internal/vclpoll/cgo.go, lines 723 to 886 and 1508 to 1528: what a thread does around a call of
-- libvppcom, one step for each call or access that another thread may see.
use vclnet.Base.{ℕ, ◌+◌, ◌≡◌, [], ◌∷◌, true, false, none, some, if◌then◌else◌}
use vclnet.Threads.Defs.{Shared, fresh, running, finished, is_finished, load, store, release}
pub use vclnet.Base.{update}

-- A call that is made at once under the read lock, as by `pin` and by the poller, and one whose loop
-- reads `appLive` under the lock first, as in `mode3ReadContext`.
pub data Call : Type 0 where
  one_shot looping : Call

-- What a thread registers for.
pub data Goal : Type 0 where
  call : Call → Goal
  destroy : Goal

-- Where the goroutine on a thread stands. `entered` to `leaving` are `registerThisThread`, `ready` to
-- `released` the rest of `enterVLS`, the call and `exitVLS`, `destroying` and `destroyed` the rest of
-- `mode3AppDestroy`, and the last seven `mode3AppInit`.
pub data Phase : Type 0 where
  idle : Phase
  entered missed checking registering registered leaving ready : Goal → Phase
  reading in_call : Call → Phase
  cleared read_done released : Phase
  destroying destroyed : Phase
  init_entered creating created stored marked init_leaving init_returning : Phase

-- A step of the goroutine on the thread `i`. `Lock` waits until nobody holds `vlsMu`, and `RLock`
-- until nobody holds it for writing. `vclnet` calls `AppDestroy` after `BeginShutdown`.
pub data Move (i : ℕ) (s : Shared) : Phase → Shared → Phase → Type 0 where
  enters : (c : Call) → Move i s idle s (entered (call c))
  finds : (g : Goal) → load i s.registry ≡ true → Move i s (entered g) s (ready g)
  misses : (g : Goal) → load i s.registry ≡ false → Move i s (entered g) s (missed g)
  locks :
      (g : Goal)
      → s.writer ≡ none
      → s.readers ≡ []
      → Move i s (missed g) (record s { writer = some i }) (checking g)
  finds_late : (g : Goal) → load i s.registry ≡ true → Move i s (checking g) s (leaving g)
  registers : (g : Goal) → load i s.registry ≡ false → Move i s (checking g) s (registering g)
  returns :
      (g : Goal)
      → Move i s (registering g) (record s { register_calls = i ∷ s.register_calls }) (registered g)
  stores :
      (g : Goal) → Move i s (registered g) (record s { registry = store i s.registry }) (leaving g)
  unlocks : (g : Goal) → Move i s (leaving g) (record s { writer = none }) (ready g)
  read_locks :
      (c : Call)
      → s.writer ≡ none
      → Move i s (ready (call c)) (record s { readers = i ∷ s.readers }) (reading c)
  calls_once : Move i s (reading one_shot) s (in_call one_shot)
  sees_live : s.app_live ≡ true → Move i s (reading looping) s cleared
  sees_dead : s.app_live ≡ false → Move i s (reading looping) s read_done
  calls_live : Move i s cleared s (in_call looping)
  call_returns : (c : Call) → Move i s (in_call c) s read_done
  read_unlocks : Move i s read_done (record s { readers = release i s.readers }) released
  unpins : Move i s released s idle
  -- The poller stays on its thread and takes the read lock for each of its calls.
  stays : Move i s released s (ready (call one_shot))
  begins_destroy :
      s.ending ≡ true
      → s.app_created ≡ true
      → Move i s idle (record s { app_created = false; destroyer = some i }) (entered destroy)
  locks_destroy :
      s.writer ≡ none
      → s.readers ≡ []
      → Move i s (ready destroy) (record s { writer = some i }) destroying
  destroys : Move i s destroying (record s { destroys = s.destroys + 1 }) destroyed
  unlocks_destroy : Move i s destroyed (record s { writer = none }) idle
  inits : s.app_once ≡ fresh → Move i s idle (record s { app_once = running i }) init_entered
  locks_init :
      s.writer ≡ none
      → s.readers ≡ []
      → Move i s init_entered (record s { writer = some i }) creating
  create_fails : Move i s creating (record s { app_err = true }) init_leaving
  creates : Move i s creating s created
  stores_init : Move i s created (record s { registry = store i s.registry }) stored
  marks_created : Move i s stored (record s { app_created = true }) marked
  marks_live : Move i s marked (record s { app_live = true }) init_leaving
  unlocks_init : Move i s init_leaving (record s { writer = none }) init_returning
  init_returns : Move i s init_returning (record s { app_once = finished }) idle

-- `mode3BeginShutdown`; nothing keeps a caller from calling it before `Init` has returned.
unfoldable pub begin_shutdown : Shared → Shared
begin_shutdown s = record s {
  app_live = false;
  ending = true;
  ended_early = if is_finished s.app_once then s.ended_early else true;
}

pub record System : Type 0 where
  pub shared : Shared
  pub phase : ℕ → Phase

pub data Step (s : System) : System → Type 0 where
  moves :
      (i : ℕ) {t : Shared} {x : Phase}
      → Move i s.shared (s.phase i) t x
      → Step s (record { shared = t; phase = update s.phase i x })
  ends : Step s (record { shared = begin_shutdown s.shared; phase = s.phase })

abbrev pub unused : Shared
unused = record {
  writer = none;
  readers = [];
  registry = [];
  register_calls = [];
  app_once = fresh;
  app_err = false;
  app_created = false;
  app_live = false;
  ending = false;
  ended_early = false;
  destroyer = none;
  destroys = 0;
}

pub data Reach : System → Type 0 where
  init : Reach (record { shared = unused; phase = λ _. idle })
  later : {s t : System} → Reach s → Step s t → Reach t
