-- ===== src/Io/Locks.antt =====
-- internal/vclpoll/cgo.go, lines 746 to 788 and 1484 to 1674: the read lock around the calls.
use vclnet.Base.{
  List, [], ◌∷◌, Bool, true, false, Option, none, some, ◌≡◌, refl, if◌then◌else◌, ◌==◌,
}
use vclnet.Errors.{Error, Result}
use vclnet.Io.Raw.{Op, read, write, recv_from, send_to, accept_full, Answer}
use vclnet.Io.Mode3.{
  Event, lock_thread, register_thread, read_lock, read_unlock, unlock_thread, vls_call, poll_wait,
  poll_unregister, Turn, Run, Tried, done, again, settle, if_live, retry, mode3_read_context,
  mode3_write_context, mode3_send_to_context, mode3_recv_from_context, mode3_accept_full_context,
  call3,
}

-- Whether the thread is locked, whether it is registered since, and whether the lock is held; none
-- once an event is out of place.
pub data Holding : Type 0 where
  free pinned registered locked unlocked : Holding

abbrev pub next : Holding → Event → Option Holding
next free lock_thread = some pinned
next pinned register_thread = some registered
next registered read_lock = some locked
next locked vls_call = some locked
next locked read_unlock = some unlocked
next unlocked unlock_thread = some free
next free poll_wait = some free
next free poll_unregister = some free
next _ _ = none

unfoldable pub follow : Holding → List Event → Option Holding
follow h [] = some h
follow h (e ∷ es) = elim (next h e) [ none ↦ none | some h' ↦ follow h' es ]

module _ {ℓ} {A : Type ℓ} where
  settle-follow :
      (interrupted : Error) (ready : Bool) (t : Tried A) (rest : Run A)
      → follow free rest.0 ≡ some free
      → follow free (settle interrupted ready t rest).0 ≡ some free
  unfolding follow
  settle-follow interrupted ready (done r) rest e = refl
  settle-follow interrupted true again rest e = e
  settle-follow interrupted false again rest e = refl

  if_live-follow :
      (live : Bool) (run : Run A)
      → follow free run.0 ≡ some free
      → follow free (if_live live run).0 ≡ some free
  unfolding follow
  if_live-follow true run e = e
  if_live-follow false run e = refl

  retry-follow :
      (interrupted : Error) (attempt : Answer → Tried A) (ts : List Turn)
      → follow free (retry interrupted attempt ts).0 ≡ some free
  unfolding retry follow
  retry-follow interrupted attempt [] = refl
  retry-follow interrupted attempt (t ∷ ts) =
      let rest = retry interrupted attempt ts in
      if_live-follow t.app_live (settle interrupted t.ready (attempt t.answer) rest) (
        settle-follow interrupted t.ready (attempt t.answer) rest
          (retry-follow interrupted attempt ts))

  unless_empty-follow :
      (b : Bool) (r : Result A) (run : Run A)
      → follow free run.0 ≡ some free
      → follow free (if b then ([], some r) else run).0 ≡ some free
  unfolding follow
  unless_empty-follow true r run e = refl
  unless_empty-follow false r run e = e

-- In each of the five calls, however often it is tried again, and also if it is still running after
-- its last turn: VLS is called only on a locked and registered thread that holds the read lock; a
-- thread is registered and a wait begun only while the lock is not held; and lock and thread are
-- released on every path.
pub call3-follow : (op : Op) (ts : List Turn) → follow free (call3 op ts).0 ≡ some free
unfolding mode3_read_context mode3_write_context mode3_send_to_context mode3_recv_from_context
    mode3_accept_full_context
call3-follow (read len) ts = unless_empty-follow (len == 0) _ _ (retry-follow _ _ ts)
call3-follow (write len) ts = unless_empty-follow (len == 0) _ _ (retry-follow _ _ ts)
call3-follow (send_to len addr) ts = unless_empty-follow (len == 0) _ _ (retry-follow _ _ ts)
call3-follow (recv_from len) ts = unless_empty-follow (len == 0) _ _ (retry-follow _ _ ts)
call3-follow accept_full ts = retry-follow _ _ ts
