-- ===== src/Mode2/Handles.antt =====
-- The table of virtual handles: internal/vclpoll/mode2.go, lines 149 to 190 and 431 to 451.
use vclnet.Base.{
  ℕ, ◌+◌, ◌%◌, ◌≤◌, ◌<◌, ◌≡◌, refl, ap, ◌∙◌, ◌∷◌, Bool, true, false, some, ◌==◌, ltb, arith, lookup,
  lookup-insert, int_eq, pos, get_elem?, set, length, get_elem?-set, Bool-cases, inl, inr, ==_iff,
  ◌||◌,
}
use vclnet.Errors.{Result, ok, err}
use vclnet.Wait.{Vlsh}
use vclnet.Worker.Defs.{Vpp, Worker, raw_close, check_ownership}
use vclnet.Mode2.Defs.{
  Dispatcher, Owner, session, u32, max_virtual_handle, put_worker, register_owned, register_checked,
  register_session,
}

-- What `registerSession` promises of its result.
abbrev pub Registered : Dispatcher → ℕ → Worker → Vlsh → Dispatcher → Result Vlsh → Type 0
Registered d i w raw d' (ok h) =
    (lookup h d'.owners ≡ some (session i raw))
    × (w' : Worker) × (get_elem? d'.workers i ≡ some w')
    × (lookup h w'.sessions ≡ some raw)
    × (w'.closed_raw ≡ w.closed_raw)
    × (n : ℕ) × (h ≡ pos n)
    × (1 ≤ n)
    × (n ≤ max_virtual_handle)
Registered d i w raw d' (err e) =
    (d'.owners ≡ d.owners)
    × (w' : Worker) × (get_elem? d'.workers i ≡ some w')
    × (w'.sessions ≡ w.sessions)
    × (w'.closed_raw ≡ raw ∷ w.closed_raw)

module _ (vpp : Vpp) (d : Dispatcher) (i : ℕ) (w : Worker) (raw : Vlsh)
    (lt : i < length d.workers) where
  here : (w' : Worker) → get_elem? (set d.workers i w') i ≡ some w'
  here w' = ground (arith, get_elem?-set d.workers i i w' lt, ==_iff i i)

  register_owned-Registered : (let (d', r) = register_owned d i w raw in Registered d i w raw d' r)
  unfolding register_owned put_worker raw_close
  register_owned-Registered =
      elim (Bool-cases
        (((d.next_handle + 1) % u32 == 0) || ltb max_virtual_handle ((d.next_handle + 1) % u32))) [
          | inl full ↦ rw full (refl, _, here _, refl, refl)
          | inr room ↦ rw room (
            (ground (arith, lookup-insert id id (session i raw) d.owners, int_eq.beq_iff id id)),
            _,
            here _,
            (ground (arith, lookup-insert id id raw w.sessions, int_eq.beq_iff id id)),
            refl,
            _,
            refl,
            ground arith,
            ground arith,
          )
        ]
    where
      id : Vlsh
      id = pos ((d.next_handle + 1) % u32)

pub check_ownership-keeps :
    (vpp : Vpp) (w : Worker) (raw : Vlsh)
    → ((check_ownership vpp w raw).0.sessions ≡ w.sessions)
      × ((check_ownership vpp w raw).0.closed_raw ≡ w.closed_raw)
unfolding check_ownership
check_ownership-keeps vpp w raw = ground arith

Registered-keeps :
    (d : Dispatcher) (i : ℕ) (v w : Worker) (raw : Vlsh) (d' : Dispatcher) (r : Result Vlsh)
    → v.sessions ≡ w.sessions
    → v.closed_raw ≡ w.closed_raw
    → Registered d i v raw d' r
    → Registered d i w raw d' r
Registered-keeps d i v w raw d' (ok h) es ec (a, w', b, c, x, n, e, lo, hi) =
    (a, w', b, c, x ∙ ec, n, e, lo, hi)
Registered-keeps d i v w raw d' (err e) es ec (a, w', b, c, x) =
    (a, w', b, c ∙ es, x ∙ ap (◌∷◌ raw) ec)

register_checked-Registered :
    (vpp : Vpp) (d : Dispatcher) (i : ℕ) (w : Worker) (raw : Vlsh)
    → i < length d.workers
    → (c : Worker × Bool) → c.0.sessions ≡ w.sessions
    → c.0.closed_raw ≡ w.closed_raw
    → (let (d', r) = register_checked d i raw c in Registered d i w raw d' r)
unfolding register_checked put_worker raw_close
register_checked-Registered vpp d i w raw lt (v, true) es ec =
    let (d', r) = register_owned d i v raw in
    Registered-keeps d i v w raw d' r es ec (register_owned-Registered vpp d i v raw lt)
register_checked-Registered vpp d i w raw lt (v, false) es ec =
    (refl, _, here vpp d i v raw lt _, es, ap (◌∷◌ raw) ec)

-- A raw handle that VPP has created is registered under a handle between 1 and 2^31 - 1, or closed:
-- on every path of `registerSession` it is one of the two, and on failure no table changes.
register_session-Registered :
    (vpp : Vpp) (d : Dispatcher) (i : ℕ) (w : Worker) (raw : Vlsh)
    → i < length d.workers
    → (let (d', r) = register_session vpp d i w raw in Registered d i w raw d' r)
unfolding register_session
register_session-Registered vpp d i w raw lt =
    let k = check_ownership-keeps vpp w raw in
    register_checked-Registered vpp d i w raw lt (check_ownership vpp w raw) k.0 k.1

-- The two tables agree: `owners`, and the `sessions` of the workers.
pub record IsLinked (d : Dispatcher) : Type 0 where
  pub numbered :
      (p : Vlsh) (o : Owner)
      → lookup p d.owners ≡ some o
      → (n : ℕ) × (p ≡ pos n) × (n ≤ d.next_handle)
  pub owned :
      (p : Vlsh) (i : ℕ) (raw : Vlsh)
      → lookup p d.owners ≡ some (session i raw)
      → (w : Worker) × (get_elem? d.workers i ≡ some w) × (lookup p w.sessions ≡ some raw)
  pub known :
      (i : ℕ) (w : Worker) (n : ℕ) (raw : Vlsh)
      → get_elem? d.workers i ≡ some w
      → lookup (pos n) w.sessions ≡ some raw
      → lookup (pos n) d.owners ≡ some (session i raw)
