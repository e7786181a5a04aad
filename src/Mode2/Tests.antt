-- ===== src/Mode2/Tests.antt =====
-- A dispatcher with two workers, and the theorems at it.
use vclnet.Base.{
  ℕ, ◌+◌, ◌-◌, ◌≡◌, ◌≢◌, refl, [], ◌∷◌, true, false, none, some, arith, lookup, pos, int_eq,
  get_elem?,
}
use vclnet.Errors.{Error, poll_closed, handles_exhausted, Result, ok, err}
use vclnet.Wait.{Vlsh, WaitSet}
use vclnet.Wait.Sets.{count, count_of}
use vclnet.Worker.Defs.{Vpp, Worker}
use vclnet.Worker.Invariant.{interest}
use vclnet.Mode2.Defs.{
  Dispatcher, session, u32, register_session, session_call, close_session, close_result,
}
use vclnet.Mode2.Handles.{IsLinked}
use vclnet.Mode2.Linked.{Registers, register_session-IsLinked}
use vclnet.Mode2.Close.{IsOpen, close_session_lem, handle_reused}

-- Raw handles belong to VCL worker 3.
abbrev willing : Vpp
willing = record {
  add_ok = λ _ _ _. true;
  mod_ok = λ _ _ _. true;
  ctl_error = λ _ _. Error.eof;
  session_worker = λ _. some 3;
  close_error = λ _. none;
}

abbrev idle_worker : Worker
idle_worker = record {
  vcl_index = 3;
  sessions = [];
  waiters = [];
  woken = [];
  calls = [];
  closed_raw = [];
  violations = 0;
  ep_open = true;
  quiesced = false;
}

abbrev empty : Dispatcher
empty = record {
  workers = idle_worker ∷ idle_worker ∷ [];
  owners = [];
  rr = 0;
  next_handle = 0;
  stopping = false;
  app_live = true;
}

empty-IsLinked : IsLinked empty
unfolding lookup
empty-IsLinked = record {
  numbered = λ p o e. absurd (cc);
  owned = λ p i raw e. absurd (cc);
  known = λ i w n raw a e. absurd (none_known i w n raw a e);
}
  where
    none_known :
        (i : ℕ) (w : Worker) (n : ℕ) (raw : Vlsh)
        → get_elem? empty.workers i ≡ some w
        → lookup (pos n) w.sessions ≡ some raw
        → ⊥
    none_known i w n raw a e = ground arith

register_session-IsLinked_example :
    Registers empty 1 (pos 7) (register_session willing empty 1 idle_worker (pos 7))
register_session-IsLinked_example =
    register_session-IsLinked willing empty 1 idle_worker (pos 7) empty-IsLinked refl (omega arith)

-- Handle 1 stands for raw handle 7 of worker 1.
abbrev open_worker : Worker
open_worker = record idle_worker { sessions = (pos 1, pos 7) ∷ [] }

abbrev one_open : Dispatcher
one_open = record empty {
  workers = idle_worker ∷ open_worker ∷ [];
  owners = (pos 1, session 1 (pos 7)) ∷ [];
  next_handle = 1;
}

one_open-IsOpen : IsOpen willing one_open (pos 1) 1 open_worker (pos 7)
unfolding lookup
one_open-IsOpen = record {
  entry = refl;
  up = (refl, refl);
  at = refl;
  runs = refl;
  held = refl;
  own = refl;
}

close_session_lem_example :
    let (d', r) = close_session willing one_open (pos 1) in
    ((w' : Worker) × (get_elem? d'.workers 1 ≡ some w')
      × (lookup (pos 1) w'.sessions ≡ none)
      × (lookup (pos 1) w'.waiters ≡ none)
      × (w'.closed_raw ≡ pos 7 ∷ [])
      × ((set : WaitSet) (j : ℕ)
          → lookup (pos 1) open_worker.waiters ≡ some set
          → (count j w'.woken ≡ count_of j set.waiters + count j open_worker.woken)
            × (interest (pos 7) w'.calls ≡ none)))
    × ((u : Vlsh) → u ≢ pos 1 → lookup u d'.owners ≡ lookup u one_open.owners)
    × (r ≡ close_result none)
    × ((fn : Dispatcher → ℕ → Worker → Vlsh → Dispatcher × Result (Unit {0}))
        → session_call willing d' (pos 1) fn ≡ (d', err poll_closed))
close_session_lem_example =
    close_session_lem willing one_open (pos 1) 1 open_worker (pos 7) one_open-IsOpen

handle_reused_example :
    let d = record one_open { next_handle = u32 - 1 } in
    let first = register_session willing d 0 idle_worker (pos 8) in
    let second = register_session willing first.0 0 idle_worker (pos 9) in
    (first.1 ≡ err handles_exhausted)
    × (lookup (pos 1) first.0.owners ≡ some (session 1 (pos 7)))
    × (second.1 ≡ ok (pos 1))
    × (lookup (pos 1) second.0.owners ≡ some (session 0 (pos 9)))
unfolding lookup
handle_reused_example =
    handle_reused willing (record one_open { next_handle = u32 - 1 }) 0 idle_worker idle_worker
      (pos 8) (pos 9) 1 (pos 7) refl refl refl refl
