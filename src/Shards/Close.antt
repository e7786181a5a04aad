-- ===== src/Shards/Close.antt =====
-- internal/vclpoll/shard_listener.go, lines 183 to 194 and 217 to 247: closing a sharded listener, once
-- its accept loops have returned.
use vclnet.Base.{
  ◌≡◌, refl, ap, ◌∙◌, List, [], ◌∷◌, Option, none, some, if◌then◌else◌, lookup, delete,
  lookup-delete, int_eq, pos,
}
use vclnet.Errors.{Error, Result, ok, err}
use vclnet.Wait.{Vlsh}
use vclnet.Worker.Defs.{Vpp, raw_close}
use vclnet.Worker.Leave.{remove_waiters_raw}
use vclnet.Mode2.Defs.{
  Owner, session, listener, Dispatcher, put_worker, submit, close_session, close_result,
}
use vclnet.Shards.Defs.{ListenerShard}
use vclnet.Shards.Loops.{AcceptResult, accepted, failed}

abbrev shards_of : Option Owner → Option (List ListenerShard)
shards_of none = none
shards_of (some (session i raw)) = none
shards_of (some (listener shards)) = some shards

-- `lookupShardedListener`
unfoldable pub lookup_sharded_listener : Dispatcher → Vlsh → Option (List ListenerShard)
lookup_sharded_listener d public = shards_of (lookup public d.owners)

-- The sessions left in the channel are closed; an error is dropped.
abbrev close_result_of : Vpp → Dispatcher → AcceptResult → Dispatcher
close_result_of vpp d (accepted h) = (close_session vpp d (pos h)).0
close_result_of vpp d (failed e) = d

abbrev pub close_accepted : Vpp → Dispatcher → List AcceptResult → Dispatcher
close_accepted vpp d [] = d
close_accepted vpp d (r ∷ rs) = close_accepted vpp (close_result_of vpp d r) rs

-- The first error is kept.
abbrev pub first_error {ℓ} : {A : Type ℓ} → Option Error → Result A → Option Error
first_error none (ok a) = none
first_error none (err e) = some e
first_error (some e) r = some e

-- The operation on the worker of a shard, and the loop over the shards.
abbrev pub close_raw_listener : Vpp → Dispatcher → ListenerShard → Dispatcher × Result (Unit {0})
close_raw_listener vpp d (i, raw) = submit d i (λ w.
    (put_worker d i (raw_close (remove_waiters_raw w raw) raw), close_result (vpp.close_error raw)))

abbrev pub close_raw_listeners :
    Vpp → Dispatcher → List ListenerShard → Option Error → Dispatcher × Option Error
close_raw_listeners vpp d [] e = (d, e)
close_raw_listeners vpp d (s ∷ ss) e =
    let (d', r) = close_raw_listener vpp d s in close_raw_listeners vpp d' ss (first_error e r)

-- `closeShardedListener`, by what is left in the channel.
unfoldable pub close_sharded_listener :
    Vpp → Dispatcher → Vlsh → List ListenerShard → List AcceptResult → Dispatcher × Option Error
unfolding submit close_session remove_waiters_raw
close_sharded_listener vpp d public shards queue =
    let (d', e) = close_raw_listeners vpp (close_accepted vpp d queue) shards none in
    (record d' { owners = delete public d'.owners }, e)

own_key : (v : Vlsh) (o : Option Owner) → (if int_eq.beq v v then none else o) ≡ none
own_key v o = simp ((int_eq.beq_iff v v).1 refl) refl

-- Afterwards the handle stands for no listener.
pub close_sharded_listener-gone :
    (vpp : Vpp) (d : Dispatcher) (public : Vlsh) (shards : List ListenerShard)
    (queue : List AcceptResult)
    → lookup_sharded_listener (close_sharded_listener vpp d public shards queue).0 public ≡ none
unfolding lookup_sharded_listener close_sharded_listener
close_sharded_listener-gone vpp d public shards queue =
    let (d', e) = close_raw_listeners vpp (close_accepted vpp d queue) shards none in
    ap shards_of (lookup-delete public public d'.owners ∙ own_key public (lookup public d'.owners))
