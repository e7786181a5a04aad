-- ===== src/Mode2/Defs.antt =====
-- internal/vclpoll/mode2.go, lines 12 to 50 and 126 to 205, 406 to 453: the dispatcher, its table of
-- owners, and the calls that go through it.
use vclnet.Base.{
  ℕ, ◌+◌, ◌%◌, ◌^◌, ◌-◌, List, Bool, true, false, Option, none, some, ◌==◌, ltb, if◌then◌else◌,
  lookup, insert, delete, not, ◌||◌, pos, int_eq, get_elem?, set, length,
}
use vclnet.Errors.{Error, poll_closed, ownership, handles_exhausted, panicked, Result, ok, err}
use vclnet.Wait.{Vlsh}
use vclnet.Worker.Defs.{Vpp, Worker, raw_close, check_ownership, owned_raw}
use vclnet.Worker.Leave.{remove_waiters}

abbrev pub u32 : ℕ
u32 = 2 ^ 32

abbrev pub max_virtual_handle : ℕ
max_virtual_handle = 2 ^ 31 - 1

-- What `owners` holds for a public handle: a session with its worker's index and its raw handle, or
-- a sharded listener with those of its shards.
pub data Owner : Type 0 where
  session : ℕ → Vlsh → Owner
  listener : List (ℕ × Vlsh) → Owner

-- `app_live` is the package's flag `appLive`.
pub record Dispatcher : Type 0 where
  pub workers : List Worker
  pub owners : List (Vlsh × Owner)
  pub rr : ℕ
  pub next_handle : ℕ
  pub stopping : Bool
  pub app_live : Bool

unfoldable pub put_worker : Dispatcher → ℕ → Worker → Dispatcher
put_worker d i w = record d { workers = set d.workers i w }

-- `submit`: the operation runs on worker `i`, one at a time, unless the dispatcher or the worker has
-- stopped.
unfoldable pub submit {ℓ} :
    {A : Type ℓ} → Dispatcher → ℕ → (Worker → Dispatcher × Result A) → Dispatcher × Result A
submit d i run =
    if d.stopping || not d.app_live then (d, err poll_closed) else elim (get_elem? d.workers i) [
      | none ↦ (d, err poll_closed)
      | some w ↦ if w.quiesced then (d, err poll_closed) else run w
    ]

-- `pickWorker`: the index, and the counter after it.
unfoldable pub pick_worker : Dispatcher → Dispatcher × ℕ
pick_worker d =
    (record d { rr = (d.rr + 1) % u32 }, ((d.rr + 1) % u32 + u32 - 1) % u32 % length d.workers)

-- `registerSession` behind the check of the owner.
unfoldable pub register_owned : Dispatcher → ℕ → Worker → Vlsh → Dispatcher × Result Vlsh
unfolding put_worker raw_close
register_owned d i w raw =
    let id = (d.next_handle + 1) % u32 in
    let d' = record d { next_handle = id } in
    if id == 0 || ltb max_virtual_handle id
    then (put_worker d' i (raw_close w raw), err handles_exhausted)
    else (
      record (put_worker d' i (record w { sessions = insert (pos id) raw w.sessions })) {
        owners = insert (pos id) (session i raw) d.owners;
      },
      ok (pos id),
    )

unfoldable pub register_checked : Dispatcher → ℕ → Vlsh → Worker × Bool → Dispatcher × Result Vlsh
unfolding register_owned put_worker raw_close
register_checked d i raw (w, true) = register_owned d i w raw
register_checked d i raw (w, false) = (put_worker d i (raw_close w raw), err ownership)

-- `registerSession` on worker `i`, whose state is `w`.
unfoldable pub register_session : Vpp → Dispatcher → ℕ → Worker → Vlsh → Dispatcher × Result Vlsh
unfolding register_checked
register_session vpp d i w raw = register_checked d i raw (check_ownership vpp w raw)

-- `lookup`: a listener's entry is no `sessionRef`, and the type assertion panics.
unfoldable pub lookup_ref : Dispatcher → Vlsh → Result (ℕ × Vlsh)
lookup_ref d public = elim (lookup public d.owners) [
  | none ↦ err poll_closed
  | some owner ↦ elim owner [ session i raw ↦ ok (i, raw) | listener shards ↦ err panicked ]
]

-- `unregisterSession`
unfoldable pub unregister_session : Dispatcher → ℕ → Worker → Vlsh → Dispatcher
unfolding put_worker
unregister_session d i w public =
    record (put_worker d i (record w { sessions = delete public w.sessions })) {
      owners = delete public d.owners;
    }

on_owned {ℓ} :
    {A : Type ℓ}
    → Dispatcher
    → ℕ
    → (Worker → Vlsh → Dispatcher × Result A)
    → Worker × Result Vlsh
    → Dispatcher × Result A
unfolding put_worker
on_owned d i fn (w, ok raw) = fn w raw
on_owned d i fn (w, err e) = (put_worker d i w, err e)

-- `sessionCall`: `fn` gets the worker and the raw handle that it owns for the session.
unfoldable pub session_call {ℓ} :
    {A : Type ℓ}
    → Vpp
    → Dispatcher
    → Vlsh
    → (Dispatcher → ℕ → Worker → Vlsh → Dispatcher × Result A)
    → Dispatcher × Result A
unfolding lookup_ref submit on_owned
session_call vpp d public fn = elim (lookup_ref d public) [
  | err e ↦ (d, err e)
  | ok (i, expected) ↦ submit d i (λ w. on_owned d i (fn d i) (owned_raw vpp w public expected))
]

unfoldable pub close_result : Option Error → Result (Unit {0})
close_result none = ok tt
close_result (some e) = err e

-- The operation of `close` for a session: wake its waiters, close the raw handle, forget both.
unfoldable pub close_owned :
    Vpp → Vlsh → Dispatcher → ℕ → Worker → Vlsh → Dispatcher × Result (Unit {0})
unfolding unregister_session close_result raw_close
close_owned vpp public d i w raw = (
  unregister_session d i (raw_close (remove_waiters w public raw) raw) public,
  close_result (vpp.close_error raw),
)

-- `close` of a session; a sharded listener is closed by `closeShardedListener`.
unfoldable pub close_session : Vpp → Dispatcher → Vlsh → Dispatcher × Result (Unit {0})
unfolding session_call close_owned
close_session vpp d public = session_call vpp d public (close_owned vpp public)

-- `create` and `createConnect`, after VPP's answer to the creating call.
create_on : Vpp → Dispatcher → ℕ → Result Vlsh → Dispatcher × Result Vlsh
unfolding submit register_session
create_on vpp d i (err e) = submit d i (λ w. (d, err e))
create_on vpp d i (ok raw) = submit d i (λ w. register_session vpp d i w raw)

unfoldable pub create : Vpp → Dispatcher → Result Vlsh → Dispatcher × Result Vlsh
unfolding create_on pick_worker
create vpp d answer = let (d', i) = pick_worker d in create_on vpp d' i answer
