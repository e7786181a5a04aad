-- ===== src/Pool/Life.antt =====
-- internal/vclpoll/worker.go, lines 57 to 190: what the goroutine of a worker does from its start to its
-- end, apart from the sessions it serves.
use vclnet.Base.{ℕ, ◌≡◌, Bool, true, false, Option, none, some, ◌==◌}

-- Where the goroutine stands: not launched, before its registration, at the `select` on `startCh`,
-- before `rawEpollCreate`, in the loop, in `quiesce` while it empties `opCh`, before it closes
-- `quiesced`, before `rawUnregisterWorker`, returned, at `destroyCh`, in the last `select`, and returned
-- because it could not register.
pub data Phase : Type 0 where
  absent starting started opening looping quiescing drained : Phase
  unregistering gone waiting_destroy parked failed : Phase

-- `registered` and `ready` are what was sent on those channels, true for nil; the others are whether
-- the channel is closed.
pub record Life : Type 0 where
  pub registered : Option Bool
  pub ready : Option Bool
  pub stop_closed : Bool
  pub quiesced : Bool
  pub exited : Bool
  pub destroyed : Bool

abbrev pub never : Life
never = record {
  registered = none;
  ready = none;
  stop_closed = false;
  quiesced = false;
  exited = false;
  destroyed = false;
}

-- What a worker reads and changes that is not its own: `start`, `destroyCh` of the bootstrap worker,
-- and whether the application exists in VPP.
pub record Signals : Type 0 where
  pub start_closed : Bool
  pub destroy_closed : Bool
  pub app_exists : Bool

-- After `close(w.quiesced)` the bootstrap worker, the worker 0, waits for `destroyCh`.
abbrev pub after_quiesced : Bool → Phase
after_quiesced true = waiting_destroy
after_quiesced false = unregistering

-- The application exists once the bootstrap worker has created it.
abbrev pub created_by : Bool → Bool → Bool
created_by true app = true
created_by false app = app

-- A step of worker `i`, whose `opCh` is empty or not. One that creates the application but finds no multi-thread workers destroys it
-- again, and fails.
pub data Live (i : ℕ) (empty : Bool) (s : Signals) (l : Life)
    : Phase → Signals → Life → Phase → Type 0 where
  registers :
      Live i empty s l starting
        (record s { app_exists = created_by (i == 0) s.app_exists })
        (record l { registered = some true })
        started
  fails : Live i empty s l starting s (record l { registered = some false; exited = true }) failed
  sees_start : s.start_closed ≡ true → Live i empty s l started s l opening
  sees_stop : l.stop_closed ≡ true → Live i empty s l started s l quiescing
  opens : Live i empty s l opening s (record l { ready = some true }) looping
  opens_not : Live i empty s l opening s (record l { ready = some false }) quiescing
  stops : l.stop_closed ≡ true → Live i empty s l looping s l quiescing
  empties : empty ≡ true → Live i empty s l quiescing s l drained
  quiesces : Live i empty s l drained s (record l { quiesced = true }) (after_quiesced (i == 0))
  unregisters : Live i empty s l unregistering s (record l { exited = true }) gone
  destroys :
      s.destroy_closed ≡ true
      → Live i empty s l waiting_destroy
          (record s { app_exists = false })
          (record l { destroyed = true })
          parked
