-- ===== src/Mode2/Close.antt =====
-- Closing a session, stale handles, and the choice of a worker: internal/vclpoll/mode2.go, lines 126
-- to 163 and 431 to 451.
use vclnet.Base.{
  ℕ, ◌+◌, ◌-◌, ◌%◌, ◌<◌, ◌≡◌, ◌≢◌, refl, sym, ◌∷◌, true, false, none, some, arith, lookup, delete,
  lookup-insert, lookup-delete, int_eq, pos, get_elem?, length, get_elem?-set, get_elem?-lt, ==_iff,
}
use native.Mathlib.Nat.{mod-eq_of_lt, mod-add-mod}
use vclnet.Errors.{poll_closed, handles_exhausted, Result, ok, err}
use vclnet.Wait.{Vlsh, WaitSet}
use vclnet.Wait.Sets.{count, count_of, count-wake}
use vclnet.Worker.Defs.{Vpp, Worker, raw_close, check_ownership, owned_raw, drop_wait_set}
use vclnet.Worker.Leave.{remove_waiters}
use vclnet.Worker.Invariant.{interest}
use vclnet.Mode2.Defs.{
  Dispatcher, session, u32, put_worker, submit, register_owned, register_checked, close_result,
  register_session, lookup_ref, unregister_session, session_call, close_owned, close_session,
  pick_worker,
}

-- A session that is open: its entry, its worker `w`, which runs, owns the raw handle and holds it.
pub record IsOpen (vpp : Vpp) (d : Dispatcher) (public : Vlsh) (i : ℕ) (w : Worker) (raw : Vlsh)
    : Type 0 where
  pub entry : lookup public d.owners ≡ some (session i raw)
  pub up : (d.stopping ≡ false) × (d.app_live ≡ true)
  pub at : get_elem? d.workers i ≡ some w
  pub runs : w.quiesced ≡ false
  pub held : lookup public w.sessions ≡ some raw
  pub own : vpp.session_worker raw ≡ some w.vcl_index

-- What an operation on an open session does: it runs on the session's own worker and raw handle.
pub session_call_open {ℓ} :
    {A : Type ℓ} (vpp : Vpp) (d : Dispatcher) (public : Vlsh) (i : ℕ) (w : Worker) (raw : Vlsh)
    (fn : Dispatcher → ℕ → Worker → Vlsh → Dispatcher × Result A)
    → IsOpen vpp d public i w raw
    → session_call vpp d public fn ≡ fn d i w raw
unfolding session_call owned_raw lookup_ref submit
session_call_open vpp d public i w raw fn o =
    ground (arith, o, int_eq.beq_iff raw raw, ==_iff w.vcl_index w.vcl_index)

remove_waiters_lem :
    (w : Worker) (public raw : Vlsh)
    → let w' = remove_waiters w public raw in
      (lookup public w'.waiters ≡ none)
      × (w'.sessions ≡ w.sessions)
      × (w'.closed_raw ≡ w.closed_raw)
      × ((set : WaitSet) (j : ℕ)
          → lookup public w.waiters ≡ some set
          → (count j w'.woken ≡ count_of j set.waiters + count j w.woken)
            × (interest raw w'.calls ≡ none))
unfolding remove_waiters drop_wait_set interest
remove_waiters_lem w public raw = (
  ground (arith, lookup-delete public public w.waiters, int_eq.beq_iff public public),
  ground arith,
  ground arith,
  λ set j e. ground (arith, e, count-wake j set.waiters w.woken, int_eq.beq_iff raw raw),
)

-- `close` of an open session forgets it in both tables, wakes every waiter parked on it and takes it
-- out of the epoll handle, closes the raw handle once, leaves the owners of other handles, and
-- returns what `rawClose` said. Every later operation on the handle gives `ErrClosed` and changes
-- nothing.
pub close_session_lem :
    (vpp : Vpp) (d : Dispatcher) (public : Vlsh) (i : ℕ) (w : Worker) (raw : Vlsh)
    → IsOpen vpp d public i w raw
    → let (d', r) = close_session vpp d public in
      ((w' : Worker) × (get_elem? d'.workers i ≡ some w')
        × (lookup public w'.sessions ≡ none)
        × (lookup public w'.waiters ≡ none)
        × (w'.closed_raw ≡ raw ∷ w.closed_raw)
        × ((set : WaitSet) (j : ℕ)
            → lookup public w.waiters ≡ some set
            → (count j w'.woken ≡ count_of j set.waiters + count j w.woken)
              × (interest raw w'.calls ≡ none)))
      × ((u : Vlsh) → u ≢ public → lookup u d'.owners ≡ lookup u d.owners)
      × (r ≡ close_result (vpp.close_error raw))
      × ((fn : Dispatcher → ℕ → Worker → Vlsh → Dispatcher × Result (Unit {0}))
          → session_call vpp d' public fn ≡ (d', err poll_closed))
unfolding close_session
close_session_lem vpp d public i w raw o =
    rw (session_call_open vpp d public i w raw (close_owned vpp public) o) (
      unfold close_owned unregister_session put_worker raw_close in
      (
        (
          w2,
          ground
              (arith, get_elem?-set d.workers i i w2 (get_elem?-lt d.workers i o.at), ==_iff i i),
          ground (arith, lookup-delete public public w1.sessions, int_eq.beq_iff public public),
          k.0,
          rw k.2 refl,
          k.3,
        ),
        (λ u ne. ground (arith, lookup-delete u public d.owners, int_eq.beq_iff u public)),
        refl,
        (λ fn.
            unfold session_call lookup_ref in
            ground (arith, lookup-delete public public d.owners, int_eq.beq_iff public public)),
      ))
  where
    w1 : Worker
    w1 = remove_waiters w public raw

    w2 : Worker
    w2 = record w1 { closed_raw = raw ∷ w1.closed_raw; sessions = delete public w1.sessions }

    k :
        (lookup public w1.waiters ≡ none)
        × (w1.sessions ≡ w.sessions)
        × (w1.closed_raw ≡ w.closed_raw)
        × ((set : WaitSet) (j : ℕ)
            → lookup public w.waiters ≡ some set
            → (count j w1.woken ≡ count_of j set.waiters + count j w.woken)
              × (interest raw w1.calls ≡ none))
    k = remove_waiters_lem w public raw

-- While the 32-bit counter has not wrapped, a new handle is above every handle given out before.
handle_above :
    (vpp : Vpp) (d : Dispatcher) (i : ℕ) (w : Worker) (raw : Vlsh) (n : ℕ)
    → d.next_handle + 1 < u32
    → (register_session vpp d i w raw).1 ≡ ok (pos n)
    → (d.next_handle < n) × ((register_session vpp d i w raw).0.next_handle ≡ n)
unfolding register_session register_checked register_owned check_ownership put_worker raw_close
handle_above vpp d i w raw n room e = ground (arith, e)

-- The counter wraps: at 2^32 - 1 one registration fails and leaves it at 0, and the next one, on a
-- worker that owns its raw handle, gives out handle 1 again, in place of a session that still holds it.
pub handle_reused :
    (vpp : Vpp) (d : Dispatcher) (i : ℕ) (w v : Worker) (raw : Vlsh) (raw' : Vlsh) (j : ℕ)
    (old : Vlsh)
    → d.next_handle ≡ u32 - 1
    → lookup (pos 1) d.owners ≡ some (session j old)
    → vpp.session_worker raw ≡ some w.vcl_index
    → vpp.session_worker raw' ≡ some v.vcl_index
    → let first = register_session vpp d i w raw in
      let second = register_session vpp first.0 i v raw' in
      (first.1 ≡ err handles_exhausted)
      × (lookup (pos 1) first.0.owners ≡ some (session j old))
      × (second.1 ≡ ok (pos 1))
      × (lookup (pos 1) second.0.owners ≡ some (session i raw'))
unfolding register_session register_checked register_owned check_ownership put_worker raw_close
handle_reused vpp d i w v raw raw' j old full here a b = ground (
  arith,
  ==_iff w.vcl_index w.vcl_index,
  ==_iff v.vcl_index v.vcl_index,
  lookup-insert (pos 1) (pos 1) (session i raw') d.owners,
)

index_of : (a : ℕ) → a < u32 → ((a + 1) % u32 + u32 - 1) % u32 ≡ a
index_of a h = omega arith

-- `pickWorker` always names a worker, and goes round: after worker `k` comes `k + 1`, and after the
-- last one the first, while the counter does not wrap.
pick_worker_round :
    (d : Dispatcher)
    → 0 < length d.workers
    → d.rr < u32
    → let (d', k) = pick_worker d in
      (k < length d.workers)
      × (k ≡ d.rr % length d.workers)
      × (d.rr + 1 < u32 → (pick_worker d').1 ≡ (k + 1) % length d.workers)
unfolding pick_worker
pick_worker_round d some_worker fits = (
  rw (index_of d.rr fits) (grind arith),
  rw (index_of d.rr fits) refl,
  λ h.
      rw (index_of d.rr fits, mod-eq_of_lt h, index_of (d.rr + 1) h)
        (sym (mod-add-mod d.rr (length d.workers) 1)),
)
