-- ===== src/Shards/Create.antt =====
-- internal/vclpoll/shard_listener.go, lines 54 to 97: what creating a sharded listener gives.
use vclnet.Base.{
  ℕ, suc, ◌+◌, ◌%◌, ◌≡◌, refl, ap, ◌∙◌, List, [], ◌∷◌, ◌++◌, Bool, true, false, not, ◌||◌,
  if◌then◌else◌, insert, get_elem?, int_eq, lookup, lookup-insert, some, ◌≢◌, arith, Bool-cases,
  inl, inr, Option-cases,
}
use vclnet.Errors.{Error, poll_closed, Result, ok, err}
use vclnet.Wait.{Vlsh}
use vclnet.Worker.Defs.{Vpp, Worker, check_ownership}
use vclnet.Mode2.Defs.{Owner, listener, Dispatcher, u32, put_worker, submit}
use vclnet.Shards.Defs.{
  ListenerShard, close_shard, close_shards, keep_error, shard_checked, shard_created, create_shard,
  after_shard, create_shards, vlsh_of, publish, new_sharded_listener,
}

-- The dispatcher's own tables, which the operations on workers leave alone.
abbrev Tables : Type 0
Tables = List (Vlsh × Owner) × ℕ

abbrev tables : Dispatcher → Tables
tables d = (d.owners, d.next_handle)

submit-tables {ℓ} :
    {A : Type ℓ} (d : Dispatcher) (i : ℕ) (run : Worker → Dispatcher × Result A)
    → ((w : Worker) → tables (run w).0 ≡ tables d)
    → tables (submit d i run).0 ≡ tables d
unfolding submit
submit-tables d i run h = elim (Bool-cases (d.stopping || not d.app_live)) [
  | inl e ↦ simp e refl
  | inr e ↦ elim (Option-cases (get_elem? d.workers i)) [
    | inl none_there ↦ simp (e, none_there) refl
    | inr (w, there) ↦ simp (e, there) (if_running w.quiesced w)
  ]
]
  where
    if_running :
        (b : Bool) (w : Worker) → tables (if b then (d, err poll_closed) else run w).0 ≡ tables d
    if_running true w = refl
    if_running false w = h w

close_shard-tables :
    (vpp : Vpp) (d : Dispatcher) (s : ListenerShard) → tables (close_shard vpp d s).0 ≡ tables d
unfolding put_worker
close_shard-tables vpp d (i, raw) = submit-tables d i _ (λ w. refl)

close_shards-tables :
    (vpp : Vpp) (d : Dispatcher) (ss : List ListenerShard) (es : List Error)
    → tables (close_shards vpp d ss es).0 ≡ tables d
unfolding close_shards
close_shards-tables vpp d [] es = refl
close_shards-tables vpp d (s ∷ ss) es =
    close_shards-tables vpp (close_shard vpp d s).0 ss (keep_error (close_shard vpp d s).1 es)
    ∙ close_shard-tables vpp d s

shard_checked-tables :
    (d : Dispatcher) (i : ℕ) (raw : Vlsh) (c : Worker × Bool)
    → tables (shard_checked d i raw c).0 ≡ tables d
unfolding put_worker
shard_checked-tables d i raw (w, true) = refl
shard_checked-tables d i raw (w, false) = refl

create_shard-tables :
    (vpp : Vpp) (d : Dispatcher) (i : ℕ) (answer : Result Vlsh)
    → tables (create_shard vpp d i answer).0 ≡ tables d
create_shard-tables vpp d i (ok raw) =
    submit-tables d i _ (λ w. shard_checked-tables d i raw (check_ownership vpp w raw))
create_shard-tables vpp d i (err e) = submit-tables d i _ (λ w. refl)

-- The shards of the answers from worker `i` on, if all are raw handles.
abbrev pub numbered : List Vlsh → ℕ → List ListenerShard
numbered [] i = []
numbered (raw ∷ raws) i = (i, raw) ∷ numbered raws (suc i)

-- Each worker from the one with index `i` on has created its raw handle.
abbrev pub AllCreated : (ℕ → Result Vlsh) → List Worker → ℕ → List Vlsh → Type 0
AllCreated answers [] i [] = Unit
AllCreated answers (w ∷ ws) i (raw ∷ raws) =
    (answers i ≡ ok raw) × AllCreated answers ws (suc i) raws
AllCreated answers _ i _ = ⊥

-- What `createShards` promises: the tables stay, and a list of shards has one for each worker.
abbrev Created :
    (ℕ → Result Vlsh)
    → List Worker
    → ℕ
    → List ListenerShard
    → Tables
    → Dispatcher × Result (List ListenerShard)
    → Type 0
Created answers ws i shards t (d, err e) = tables d ≡ t
Created answers ws i shards t (d, ok ss) =
    (tables d ≡ t)
    × (raws : List Vlsh) × AllCreated answers ws i raws
    × (ss ≡ shards ++ numbered raws i)

-- An operation that gives a result has run.
submit-ok {ℓ} :
    {A : Type ℓ} (d : Dispatcher) (i : ℕ) (run : Worker → Dispatcher × Result A) {a : A}
    → (submit d i run).1 ≡ ok a
    → (w : Worker) × ((run w).1 ≡ ok a)
unfolding submit
submit-ok {A = A} d i run {a} h = elim (Bool-cases (d.stopping || not d.app_live)) [
  | inl e ↦ absurd (closed_not_ok (simp e at h))
  | inr e ↦ elim (Option-cases (get_elem? d.workers i)) [
    | inl none_there ↦ absurd (closed_not_ok (simp (e, none_there) at h))
    | inr (w, there) ↦ (w, ran w.quiesced w (simp (e, there) at h))
  ]
]
  where
    closed_not_ok : Path (Result A) (err poll_closed) (ok a) → ⊥
    closed_not_ok x = absurd (cc)

    ran :
        (b : Bool) (w : Worker)
        → (if b then (d, err poll_closed) else run w).1 ≡ ok a
        → (run w).1 ≡ ok a
    ran true w x = absurd (cc)
    ran false w x = x

shard_checked-ok :
    (d : Dispatcher) (i : ℕ) (x : Vlsh) (c : Worker × Bool) {raw : Vlsh}
    → (shard_checked d i x c).1 ≡ ok raw
    → Path (Result Vlsh) (ok x) (ok raw)
shard_checked-ok d i x (w, true) h = h
shard_checked-ok d i x (w, false) h = absurd (cc)

create_shard-ok :
    (vpp : Vpp) (d : Dispatcher) (i : ℕ) (answer : Result Vlsh) {raw : Vlsh}
    → (create_shard vpp d i answer).1 ≡ ok raw
    → answer ≡ ok raw
create_shard-ok vpp d i (err e) h =
    let (w, x) = submit-ok d i (λ w. shard_created vpp d i w (err e)) h in absurd (cc)
create_shard-ok vpp d i (ok x) h =
    let (w, y) = submit-ok d i (λ w. shard_created vpp d i w (ok x)) h in
    shard_checked-ok d i x (check_ownership vpp w x) y

appended :
    (shards : List ListenerShard) (s : ListenerShard) (ss : List ListenerShard)
    → (shards ++ s ∷ []) ++ ss ≡ shards ++ s ∷ ss
appended [] s ss = refl
appended (x ∷ shards) s ss = ap (λ ys. x ∷ ys) (appended shards s ss)

-- One more worker in front.
later-Created :
    (answers : ℕ → Result Vlsh) (w : Worker) (ws : List Worker) (i : ℕ)
    (shards : List ListenerShard) (raw : Vlsh) (t t' : Tables)
    (r : Dispatcher × Result (List ListenerShard))
    → answers i ≡ ok raw
    → t' ≡ t
    → Created answers ws (suc i) (shards ++ (i, raw) ∷ []) t' r
    → Created answers (w ∷ ws) i shards t r
later-Created answers w ws i shards raw t t' (d, err e) h same c = c ∙ same
later-Created answers w ws i shards raw t t' (d, ok ss) h same (c, raws, e, f) =
    (c ∙ same, raw ∷ raws, (h, e), f ∙ appended shards (i, raw) (numbered raws (suc i)))

after_shard-Created :
    (vpp : Vpp) (answers : ℕ → Result Vlsh) (w : Worker) (ws : List Worker) (i : ℕ)
    (shards : List ListenerShard) (t : Tables) (c : Dispatcher × Result Vlsh)
    (next : Dispatcher → Vlsh → Dispatcher × Result (List ListenerShard))
    → tables c.0 ≡ t
    → ((raw : Vlsh) → c.1 ≡ ok raw → answers i ≡ ok raw)
    → ((d : Dispatcher) (raw : Vlsh)
        → Created answers ws (suc i) (shards ++ (i, raw) ∷ []) (tables d) (next d raw))
    → Created answers (w ∷ ws) i shards t (after_shard vpp shards next c)
after_shard-Created vpp answers w ws i shards t (d, ok raw) next same h rest =
    later-Created answers w ws i shards raw t (tables d) (next d raw) (h raw refl) same (rest d raw)
after_shard-Created vpp answers w ws i shards t (d, err e) next same h rest =
    close_shards-tables vpp d shards [] ∙ same

nothing-appended : (shards : List ListenerShard) → shards ≡ shards ++ []
nothing-appended [] = refl
nothing-appended (s ∷ shards) = ap (λ ys. s ∷ ys) (nothing-appended shards)

create_shards-Created :
    (vpp : Vpp) (answers : ℕ → Result Vlsh) (ws : List Worker) (i : ℕ) (shards : List ListenerShard)
    (d : Dispatcher)
    → Created answers ws i shards (tables d) (create_shards vpp answers ws i shards d)
unfolding create_shards
create_shards-Created vpp answers [] i shards d = (refl, [], tt, nothing-appended shards)
create_shards-Created vpp answers (w ∷ ws) i shards d =
    after_shard-Created vpp answers w ws i shards (tables d) (create_shard vpp d i (answers i))
      (λ d' raw. create_shards vpp answers ws (suc i) (shards ++ (i, raw) ∷ []) d')
      (create_shard-tables vpp d i (answers i)) (λ raw. create_shard-ok vpp d i (answers i))
      (λ d' raw. create_shards-Created vpp answers ws (suc i) (shards ++ (i, raw) ∷ []) d')

-- What `newShardedListener` promises of a dispatcher `d`.
abbrev pub Listens : Dispatcher → (ℕ → Result Vlsh) → Dispatcher × Result Vlsh → Type 0
Listens d answers (d', err e) = (d'.owners ≡ d.owners) × (d'.next_handle ≡ d.next_handle)
Listens d answers (d', ok public) =
    (public ≡ vlsh_of ((d.next_handle + 1) % u32))
    × (raws : List Vlsh) × AllCreated answers d.workers 0 raws
    × (lookup public d'.owners ≡ some (listener (numbered raws 0)))
    × ((p : Vlsh) → p ≢ public → lookup p d'.owners ≡ lookup p d.owners)

inserted :
    (v : Vlsh) (o : Owner) (owners : List (Vlsh × Owner))
    → (lookup v (insert v o owners) ≡ some o)
      × ((p : Vlsh) → p ≢ v → lookup p (insert v o owners) ≡ lookup p owners)
inserted v o owners = (
  ground (arith, lookup-insert v v o owners, int_eq.beq_iff v v),
  λ p ne. ground (arith, lookup-insert p v o owners, int_eq.beq_iff p v),
)

publish-Listens :
    (d : Dispatcher) (answers : ℕ → Result Vlsh) (c : Dispatcher × Result (List ListenerShard))
    → Created answers d.workers 0 [] (tables d) c
    → Listens d answers (publish c)
publish-Listens d answers (d', err e) c = (ap (λ t. t.0) c, ap (λ t. t.1) c)
publish-Listens d answers (d', ok ss) (same, raws, e, f) =
    let public = vlsh_of ((d'.next_handle + 1) % u32) in
    let (here, others) = inserted public (listener ss) d'.owners in
    (
      ap (λ t. vlsh_of ((t.1 + 1) % u32)) same,
      raws,
      e,
      here ∙ ap (λ xs. some (listener xs)) f,
      λ p ne. others p ne ∙ ap (λ t. lookup p t.0) same,
    )

-- `newShardedListener` fails and leaves the table of handles and the counter as they were; or every
-- worker of the dispatcher has created its raw listener, the next handle stands for a listener with
-- one shard for each worker in order, and every other handle stands for what it did.
pub new_sharded_listener-Listens :
    (vpp : Vpp) (answers : ℕ → Result Vlsh) (d : Dispatcher)
    → Listens d answers (new_sharded_listener vpp answers d)
unfolding new_sharded_listener
new_sharded_listener-Listens vpp answers d =
    publish-Listens d answers (create_shards vpp answers d.workers 0 [] d)
      (create_shards-Created vpp answers d.workers 0 [] d)
