-- ===== src/Worker/Invariant.antt =====
-- What the operations of a worker keep: every wait set belongs to a session, and VPP has been asked
-- for exactly its union of masks, under its public handle.
use vclnet.Base.{
  ℕ, ◌≡◌, ◌≢◌, refl, sym, subst, List, [], ◌∷◌, true, false, Option, none, some, arith,
  if◌then◌else◌, lookup, insert, Distinct, int_eq, lookup-insert, insert-Distinct, inl, inr,
  int_cases, ap, ◌∙◌,
}
use mathlib.Core.Option.{some-injective}
use vclnet.Wait.{Vlsh, WaitSet, combined_events}
use vclnet.Worker.Defs.{RawCall, add, mod_, del, Vpp, Worker}

-- What the calls, the last one first, leave registered for a raw handle: its key and its mask.
unfoldable pub interest : Vlsh → List RawCall → Option (Vlsh × ℕ)
interest h [] = none
interest h (add j k m true ∷ cs) = if int_eq.beq h j then some (k, m) else interest h cs
interest h (add j k m false ∷ cs) = interest h cs
interest h (mod_ j k m true ∷ cs) = if int_eq.beq h j then some (k, m) else interest h cs
interest h (mod_ j k m false ∷ cs) = interest h cs
interest h (del j ∷ cs) = if int_eq.beq h j then none else interest h cs

abbrev pub keyed : Vlsh → Option WaitSet → Option (Vlsh × ℕ)
keyed k none = none
keyed k (some set) = some (k, set.events)

pub record IsUnion (set : WaitSet) : Type 0 where
  pub agrees : set.events ≡ combined_events set.waiters
  pub parked : set.waiters ≢ []

pub record IsConsistent (w : Worker) : Type 0 where
  pub distinct : Distinct w.waiters
  pub apart :
      (u v raw : Vlsh) → lookup u w.sessions ≡ some raw → lookup v w.sessions ≡ some raw → u ≡ v
  pub sets : (k : Vlsh) (set : WaitSet) → lookup k w.waiters ≡ some set → IsUnion set
  pub tracked : (k : Vlsh) → lookup k w.sessions ≡ none → lookup k w.waiters ≡ none
  pub asked :
      (k raw : Vlsh)
      → lookup k w.sessions ≡ some raw
      → interest raw w.calls ≡ keyed k (lookup k w.waiters)
  pub unasked :
      (raw : Vlsh) → ((k : Vlsh) → lookup k w.sessions ≢ some raw) → interest raw w.calls ≡ none

-- A session `k` with its raw handle, in a consistent worker.
module _ (vpp : Vpp) (w : Worker) (k raw : Vlsh) (c : IsConsistent w)
    (here : lookup k w.sessions ≡ some raw) where
  -- Another session has another raw handle.
  other : (u r : Vlsh) → lookup u w.sessions ≡ some r → r ≡ raw → u ≡ k
  other u r l e = c.apart u k raw (rw (sym e) l) here

  -- Putting a set under `k` and telling VPP of it, or taking the set out, keeps the worker
  -- consistent: `calls` is what the change makes of the calls, for `raw` alone.
  change :
      (w' : Worker)
      → w'.sessions ≡ w.sessions
      → Distinct w'.waiters
      → ((set : WaitSet) → lookup k w'.waiters ≡ some set → IsUnion set)
      → ((u : Vlsh) → u ≢ k → lookup u w'.waiters ≡ lookup u w.waiters)
      → (interest raw w'.calls ≡ keyed k (lookup k w'.waiters))
      → ((r : Vlsh) → r ≢ raw → interest r w'.calls ≡ interest r w.calls)
      → IsConsistent w'
  change w' es d good rest asked calls = record {
    distinct = d;
    apart = λ u v r lu lv. c.apart u v r (rw (sym es) lu) (rw (sym es) lv);
    sets = λ u set l. elim (int_cases u k) [
      | inl e ↦ good set (subst (λ x. lookup x w'.waiters ≡ some set) e l)
      | inr ne ↦ c.sets u set (rw (sym (rest u ne)) l)
    ];
    tracked = λ u l. elim (int_cases u k) [
      | inl e ↦ cc (here, subst (λ x. lookup x w'.sessions ≡ none) e l, ap (lookup {V = Vlsh} k) es)
      | inr ne ↦ rw (rest u ne) (c.tracked u (rw (sym es) l))
    ];
    asked = λ u r l. elim (int_cases u k) [
      | inl e ↦ ask_here u r e (rw (sym es) l)
      | inr ne ↦
          rw (rest u ne, calls r (λ e. ne (other u r (rw (sym es) l) e)))
            (c.asked u r (rw (sym es) l))
    ];
    unasked = λ r none_has.
        rw (calls r (λ e. none_has k (rw (es, here, e) refl)))
          (c.unasked r (λ u l. none_has u (rw es l)));
  }
    where
      ask_here :
          (u r : Vlsh)
          → u ≡ k
          → lookup u w.sessions ≡ some r
          → interest r w'.calls ≡ keyed u (lookup u w'.waiters)
      ask_here u r e l =
          rw (e, some-injective r raw (sym l ∙ ap (λ x. lookup x w.sessions) e ∙ here)) asked

  pub put-Consistent :
      (w' : Worker) (set : WaitSet)
      → w'.sessions ≡ w.sessions
      → w'.waiters ≡ insert k set w.waiters
      → IsUnion set
      → interest raw w'.calls ≡ some (k, set.events)
      → ((r : Vlsh) → r ≢ raw → interest r w'.calls ≡ interest r w.calls)
      → IsConsistent w'
  put-Consistent w' set es ew good asked calls =
      change w' es (rw ew (insert-Distinct k set w.waiters c.distinct))
        (λ s l. ground (arith, good, ew, lookup-insert k k set w.waiters, int_eq.beq_iff k k))
        (λ u ne. rw ew (ground (arith, lookup-insert u k set w.waiters, int_eq.beq_iff u k)))
        (ground (arith, asked, ew, lookup-insert k k set w.waiters, int_eq.beq_iff k k)) calls

  pub take-Consistent :
      (w' : Worker)
      → w'.sessions ≡ w.sessions
      → Distinct w'.waiters
      → ((u : Vlsh) → lookup u w'.waiters ≡ (if int_eq.beq u k then none else lookup u w.waiters))
      → interest raw w'.calls ≡ none
      → ((r : Vlsh) → r ≢ raw → interest r w'.calls ≡ interest r w.calls)
      → IsConsistent w'
  take-Consistent w' es d look asked calls =
      change w' es d (λ s l. ground (arith, look k, int_eq.beq_iff k k))
        (λ u ne. ground (arith, look u, int_eq.beq_iff u k))
        (ground (arith, asked, look k, int_eq.beq_iff k k)) calls
