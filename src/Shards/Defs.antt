-- ===== src/Shards/Defs.antt =====
-- internal/vclpoll/shard_listener.go, lines 25 to 97: how a sharded listener is created,
-- and its shards closed if that fails. `skipOwnershipCheck`, which only tests set, is off.
use vclnet.Base.{
  ℕ, suc, ◌+◌, ◌-◌, ◌%◌, ltb, pos, negsuc, List, [], ◌∷◌, ◌++◌, Bool, true, false, if◌then◌else◌,
  insert, int_eq,
}
use vclnet.Errors.{Error, ownership, Result, ok, err}
use vclnet.Wait.{Vlsh}
use vclnet.Worker.Defs.{Vpp, Worker, raw_close, check_ownership}
use vclnet.Mode2.Defs.{
  listener, Dispatcher, u32, max_virtual_handle, put_worker, submit, close_result,
}

-- `listenerShard`: the index of the worker, and its raw handle.
abbrev pub ListenerShard : Type 0
ListenerShard = ℕ × Vlsh

-- The operation of `closeShards` on one shard.
abbrev pub close_shard : Vpp → Dispatcher → ListenerShard → Dispatcher × Result (Unit {0})
close_shard vpp d (i, raw) =
    submit d i (λ w. (put_worker d i (raw_close w raw), close_result (vpp.close_error raw)))

-- An error is kept for `errors.Join`.
abbrev pub keep_error {ℓ} : {A : Type ℓ} → Result A → List Error → List Error
keep_error (ok a) es = es
keep_error (err e) es = e ∷ es

-- `closeShards`, with the errors, the last one first.
unfoldable pub close_shards :
    Vpp → Dispatcher → List ListenerShard → List Error → Dispatcher × List Error
unfolding submit
close_shards vpp d [] es = (d, es)
close_shards vpp d (s ∷ ss) es =
    let (d', r) = close_shard vpp d s in close_shards vpp d' ss (keep_error r es)

-- The operation that creates a shard: `createFn`, then the check of the owner.
abbrev pub shard_checked : Dispatcher → ℕ → Vlsh → Worker × Bool → Dispatcher × Result Vlsh
shard_checked d i raw (w, true) = (put_worker d i w, ok raw)
shard_checked d i raw (w, false) = (put_worker d i (raw_close w raw), err ownership)

abbrev pub shard_created : Vpp → Dispatcher → ℕ → Worker → Result Vlsh → Dispatcher × Result Vlsh
shard_created vpp d i w (ok raw) = shard_checked d i raw (check_ownership vpp w raw)
shard_created vpp d i w (err e) = (d, err e)

abbrev pub create_shard : Vpp → Dispatcher → ℕ → Result Vlsh → Dispatcher × Result Vlsh
create_shard vpp d i answer = submit d i (λ w. shard_created vpp d i w answer)

-- The end of a round: the next one, or the release of the shards created before.
abbrev pub after_shard :
    Vpp
    → List ListenerShard
    → (Dispatcher → Vlsh → Dispatcher × Result (List ListenerShard))
    → Dispatcher × Result Vlsh
    → Dispatcher × Result (List ListenerShard)
after_shard vpp shards next (d, ok raw) = next d raw
after_shard vpp shards next (d, err e) = ((close_shards vpp d shards []).0, err e)

-- The loop over the workers from the one with index `i` on, by what `createFn` gives on each.
unfoldable pub create_shards :
    Vpp
    → (ℕ → Result Vlsh)
    → List Worker
    → ℕ
    → List ListenerShard
    → Dispatcher
    → Dispatcher × Result (List ListenerShard)
unfolding submit close_shards
create_shards vpp answers [] i shards d = (d, ok shards)
create_shards vpp answers (w ∷ ws) i shards d =
    after_shard vpp shards
      (λ d' raw. create_shards vpp answers ws (suc i) (shards ++ (i, raw) ∷ []) d')
      (create_shard vpp d i (answers i))

-- `VLSH(id)` of an unsigned 32-bit number.
abbrev pub vlsh_of : ℕ → Vlsh
vlsh_of id = if ltb max_virtual_handle id then negsuc (u32 - 1 - id) else pos id

-- The handle of the new listener, and its entry.
abbrev pub publish : Dispatcher × Result (List ListenerShard) → Dispatcher × Result Vlsh
publish (d, ok shards) =
    let id = (d.next_handle + 1) % u32 in
    (
      record d { next_handle = id; owners = insert (vlsh_of id) (listener shards) d.owners },
      ok (vlsh_of id),
    )
publish (d, err e) = (d, err e)

-- `newShardedListener`, up to the start of the accept loops; `answers` is what `createFn` gives on the
-- worker with each index.
unfoldable pub new_sharded_listener :
    Vpp → (ℕ → Result Vlsh) → Dispatcher → Dispatcher × Result Vlsh
unfolding create_shards
new_sharded_listener vpp answers d = publish (create_shards vpp answers d.workers 0 [] d)
