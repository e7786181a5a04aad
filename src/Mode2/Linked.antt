-- ===== src/Mode2/Linked.antt =====
-- `registerSession` keeps the tables of the dispatcher and of its workers in agreement:
-- internal/vclpoll/mode2.go, lines 149 to 163.
use vclnet.Base.{
  ℕ, ◌+◌, ◌<◌, ◌≡◌, ◌≢◌, ◌⊎◌, sym, subst, ap, refl, ◌∙◌, Option, none, Bool, true, false, some,
  ◌==◌, arith, lookup, insert, lookup-insert, int_eq, pos, get_elem?, set, length, get_elem?-set,
  get_elem?-lt, Bool-cases, inl, inr, ==_iff, int_cases,
}
use vclnet.Errors.{Result, ok, err}
use vclnet.Wait.{Vlsh}
use vclnet.Worker.Defs.{Vpp, Worker, raw_close, check_ownership}
use vclnet.Mode2.Defs.{
  Dispatcher, Owner, session, max_virtual_handle, put_worker, register_owned, register_checked,
  register_session,
}
use mathlib.Core.Option.{some-injective}
use vclnet.Mode2.Handles.{IsLinked, check_ownership-keeps}

-- What a registration on worker `i` gives: the tables agree; a failed one leaves the owners as they
-- were; and the handle of one that succeeds was in no table before, stands for the raw handle on that
-- worker now, and the other handles stand for what they did.
abbrev pub Registers : Dispatcher → ℕ → Vlsh → Dispatcher × Result Vlsh → Type 0
Registers d i raw (d', err e) = IsLinked d' × (d'.owners ≡ d.owners)
Registers d i raw (d', ok new) =
    IsLinked d'
    × (lookup new d.owners ≡ none)
    × ((j : ℕ) (v : Worker) → get_elem? d.workers j ≡ some v → lookup new v.sessions ≡ none)
    × (lookup new d'.owners ≡ some (session i raw))
    × ((p : Vlsh) → p ≢ new → lookup p d'.owners ≡ lookup p d.owners)

not_some {ℓ} : {A : Type ℓ} (o : Option A) → ((a : A) → o ≢ some a) → o ≡ none
not_some none h = refl
not_some (some a) h = absurd (h a refl)

module _ (d : Dispatcher) (i : ℕ) (w : Worker) (raw : Vlsh) (l : IsLinked d)
    (at : get_elem? d.workers i ≡ some w) (room : d.next_handle < max_virtual_handle) where
  lt : i < length d.workers
  lt = get_elem?-lt d.workers i at

  id : Vlsh
  id = pos (d.next_handle + 1)

  -- The next handle is in no table yet.
  id_unowned : (o : Owner) → lookup id d.owners ≢ some o
  unfolding id
  id_unowned o e = let (n, eq, le) = l.numbered id o e in absurd (ground arith)

  id_unknown :
      (j : ℕ) (v : Worker)
      → get_elem? d.workers j ≡ some v
      → (r : Vlsh) → lookup id v.sessions ≢ some r
  unfolding id
  id_unknown j v a r e = id_unowned (session j r) (l.known j v (d.next_handle + 1) r a e)

  w' : Worker
  w' = record w { sessions = insert id raw w.sessions }

  d' : Dispatcher
  unfolding w'
  d' = record d {
    workers = set d.workers i w';
    owners = insert id (session i raw) d.owners;
    next_handle = d.next_handle + 1;
  }

  linked : IsLinked d'
  unfolding d' w'
  linked = record {
    numbered = λ p o e. elim (int_cases p id) [
      | inl eq ↦ (d.next_handle + 1, (unfold id in eq), omega arith)
      | inr ne ↦
          let (n, eq, le) =
            l.numbered p o
              (ground (arith, lookup-insert p id (session i raw) d.owners, int_eq.beq_iff p id)) in
          (n, eq, omega arith)
    ];
    owned = λ p j r e. elim (int_cases p id) [
      | inl eq ↦ (
        w',
        (ground (
          arith,
          e,
          eq,
          lookup-insert p id (session i raw) d.owners,
          int_eq.beq_iff p id,
          get_elem?-set d.workers i j w' lt,
          ==_iff j i,
        )),
        (unfold w' in
            ground (
              arith,
              e,
              eq,
              lookup-insert p id (session i raw) d.owners,
              lookup-insert p id raw w.sessions,
              int_eq.beq_iff p id,
            )),
      )
      | inr ne ↦
          kept_owner p j r ne
            (ground (arith, lookup-insert p id (session i raw) d.owners, int_eq.beq_iff p id))
    ];
    known = λ j v n r a e. elim (Bool-cases (j == i)) [
      | inl same ↦ known_here j v n r ((==_iff j i).0 same) a e
      | inr other ↦
          known_there j v n r (ground (arith, a, other, get_elem?-set d.workers i j w' lt)) e
    ];
  }
    where
      kept_owner :
          (p : Vlsh) (j : ℕ) (r : Vlsh)
          → p ≢ id
          → lookup p d.owners ≡ some (session j r)
          → (v : Worker) × (get_elem? (set d.workers i w') j ≡ some v)
            × (lookup p v.sessions ≡ some r)
      kept_owner p j r ne e =
          let (v, a, s) = l.owned p j r e in
          elim (Bool-cases (j == i)) [
            | inl same ↦ (
              w',
              ground (arith, get_elem?-set d.workers i j w' lt, same),
              (unfold w' in
                  ground (
                    arith,
                    a,
                    at,
                    s,
                    (==_iff j i).0 same,
                    lookup-insert p id raw w.sessions,
                    int_eq.beq_iff p id,
                  )),
            )
            | inr other ↦ (v, ground (arith, get_elem?-set d.workers i j w' lt, other, a), s)
          ]

      known_here :
          (j : ℕ) (v : Worker) (n : ℕ) (r : Vlsh)
          → j ≡ i
          → get_elem? (set d.workers i w') j ≡ some v
          → lookup (pos n) v.sessions ≡ some r
          → lookup (pos n) (insert id (session i raw) d.owners) ≡ some (session j r)
      known_here j v n r same a e = ground (
        arith,
        same,
        a,
        e,
        get_elem?-set d.workers i j w' lt,
        ==_iff j i,
        lookup-insert (pos n) id raw w.sessions,
        lookup-insert (pos n) id (session i raw) d.owners,
        int_eq.beq_iff (pos n) id,
        l.known i w n r at,
      )

      known_there :
          (j : ℕ) (v : Worker) (n : ℕ) (r : Vlsh)
          → get_elem? d.workers j ≡ some v
          → lookup (pos n) v.sessions ≡ some r
          → lookup (pos n) (insert id (session i raw) d.owners) ≡ some (session j r)
      known_there j v n r a e = elim (int_cases (pos n) id) [
        | inl eq ↦ absurd (id_unknown j v a r (subst (λ x. lookup x v.sessions ≡ some r) eq e))
        | inr ne ↦ ground (
          arith,
          l.known j v n r a e,
          lookup-insert (pos n) id (session i raw) d.owners,
          int_eq.beq_iff (pos n) id,
        )
      ]

  -- The result of a registration that succeeds.
  register_owned_lem : register_owned d i w raw ≡ (d', ok id)
  unfolding register_owned put_worker id d' w'
  register_owned_lem = ground (arith, room)

  registered : Registers d i raw (d', ok id)
  unfolding d'
  registered = (
    linked,
    not_some (lookup id d.owners) id_unowned,
    λ j v a. not_some (lookup id v.sessions) (id_unknown j v a),
    ground (arith, lookup-insert id id (session i raw) d.owners, int_eq.beq_iff id id),
    λ p ne. ground (arith, lookup-insert p id (session i raw) d.owners, int_eq.beq_iff p id),
  )

-- A worker may change anything but its sessions.
same_sessions-IsLinked :
    (d : Dispatcher) (i : ℕ) (w w' : Worker)
    → get_elem? d.workers i ≡ some w
    → w'.sessions ≡ w.sessions
    → IsLinked d
    → IsLinked (put_worker d i w')
unfolding put_worker
same_sessions-IsLinked d i w w' at es l = record {
  numbered = l.numbered;
  owned = λ p j r e.
      let (v, a, s) = l.owned p j r e in
      elim (Bool-cases (j == i)) [
        | inl same ↦ (
          w',
          ground (arith, get_elem?-set d.workers i j w' lt, same),
          rw es (ground (arith, a, at, s, (==_iff j i).0 same)),
        )
        | inr other ↦ (v, ground (arith, get_elem?-set d.workers i j w' lt, other, a), s)
      ];
  known = λ j v n r a e. elim (Bool-cases (j == i)) [
    | inl same ↦
        let is_i = (==_iff j i).0 same in
        let found : some w' ≡ some v = ground (arith, a, same, get_elem?-set d.workers i j w' lt) in
        let is_v = some-injective w' v found in
        subst (λ x. lookup (pos n) d.owners ≡ some (session x r)) (sym is_i)
          (l.known i w n r at
            (rw (sym es) (subst (λ x. lookup (pos n) x.sessions ≡ some r) (sym is_v) e)))
    | inr other ↦ l.known j v n r (ground (arith, a, other, get_elem?-set d.workers i j w' lt)) e
  ];
}
  where
    lt : i < length d.workers
    lt = get_elem?-lt d.workers i at

check_ownership_cases :
    (vpp : Vpp) (w : Worker) (raw : Vlsh)
    → (check_ownership vpp w raw ≡ (w, true)) ⊎ ((check_ownership vpp w raw).1 ≡ false)
unfolding check_ownership
check_ownership_cases vpp w raw = ground arith

register_failed-IsLinked :
    (d : Dispatcher) (i : ℕ) (w : Worker) (raw : Vlsh) (c : Worker × Bool)
    → get_elem? d.workers i ≡ some w
    → c.0.sessions ≡ w.sessions
    → c.1 ≡ false
    → IsLinked d
    → IsLinked (register_checked d i raw c).0
unfolding register_checked
register_failed-IsLinked d i w raw (v, true) at es e l = absurd (cc)
register_failed-IsLinked d i w raw (v, false) at es e l =
    unfold raw_close in same_sessions-IsLinked d i w (raw_close v raw) at es l

register_failed-Registers :
    (d : Dispatcher) (i : ℕ) (w : Worker) (raw : Vlsh) (c : Worker × Bool)
    → get_elem? d.workers i ≡ some w
    → c.0.sessions ≡ w.sessions
    → c.1 ≡ false
    → IsLinked d
    → Registers d i raw (register_checked d i raw c)
unfolding register_checked put_worker
register_failed-Registers d i w raw (v, true) at es e l = absurd (cc)
register_failed-Registers d i w raw (v, false) at es e l =
    (register_failed-IsLinked d i w raw (v, false) at es e l, refl)

-- While handles are left, `registerSession` keeps the two tables in agreement; if it fails the owners
-- are as before; and if it succeeds the handle that it returns was in neither table before, so that no
-- handle that is held is given out again, it now stands for the raw handle on the worker, and every
-- other handle stands for what it did.
pub register_session-IsLinked :
    (vpp : Vpp) (d : Dispatcher) (i : ℕ) (w : Worker) (raw : Vlsh)
    → IsLinked d
    → get_elem? d.workers i ≡ some w
    → d.next_handle < max_virtual_handle
    → Registers d i raw (register_session vpp d i w raw)
unfolding register_session register_checked
register_session-IsLinked vpp d i w raw l at room = elim (check_ownership_cases vpp w raw) [
  | inl own ↦
      subst (Registers d i raw)
        (sym (ap (register_checked d i raw) own ∙ register_owned_lem d i w raw l at room))
        (registered d i w raw l at room)
  | inr foreign ↦
      register_failed-Registers d i w raw (check_ownership vpp w raw) at
        (check_ownership-keeps vpp w raw).0 foreign l
]
