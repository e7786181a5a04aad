-- ===== src/Pool/Safety.antt =====
-- internal/vclpoll/worker.go, lines 57 to 190, and mode2.go, lines 56 to 124: the application outlives
-- the workers that need it, and a stop is never stuck.
use vclnet.Base.{
  ℕ, ◌<◌, ◌≡◌, refl, sym, subst, List, true, false, ◌==◌, arith, ==_iff, inl, inr, Bool-cases,
}
use vclnet.Pool.Life.{Phase, gone}
use vclnet.Pool.System.{
  Main, waiting_destroyed, ended, Pool, Turn, controls, lives_on, System, drain_op, Step, turns,
  drains_op, refuses_op, submits, rejects, sends, gives_up_sending, gets_answer, gives_up_waiting,
  new_pool, Reach, init, later,
}
use vclnet.Pool.Invariant.{is_gone, is_parked, needs_app, saw_exit, is_final, Fits, IsOrdered}
use vclnet.Pool.Own.{Live-Fits}
use vclnet.Pool.Moves.{Live-others, Live-IsOrdered}
use vclnet.Pool.Control.{Control-IsOrdered}
use vclnet.Pool.Steps.{Control-Fits}

pub record IsSafe (p : Pool) : Type 0 where
  pub fits : (i : ℕ) → Fits p i (p.lives i) (p.phase i)
  pub ordered : IsOrdered p

Turn-Fits :
    {total : ℕ} {queue : ℕ → List ℕ} {p q : Pool} (j : ℕ)
    → Turn total queue p q
    → IsSafe p
    → Fits q j (q.lives j) (q.phase j)
Turn-Fits j (controls c) h = Control-Fits h.fits h.ordered j c
Turn-Fits {p = p} j (lives_on i m) h = elim (Bool-cases (j == i)) [
  | inl same ↦ rw (same, (==_iff j i).0 same) (Live-Fits i m (h.fits i) h.ordered)
  | inr other ↦ rw other (Live-others i j m other (h.fits i) h.ordered (h.fits j))
]

Turn-IsSafe :
    {total : ℕ} {queue : ℕ → List ℕ} {p q : Pool} → Turn total queue p q → IsSafe p → IsSafe q
Turn-IsSafe {total} {queue} (controls c) h = record {
  fits = λ j. Turn-Fits {total = total} {queue = queue} j (controls c) h;
  ordered = Control-IsOrdered c h.ordered;
}
Turn-IsSafe {total} {queue} (lives_on i m) h = record {
  fits = λ j. Turn-Fits {total = total} {queue = queue} j (lives_on i m) h;
  ordered = Live-IsOrdered i m h.ordered;
}

pub drain_op-pool : (s : System) (o : ℕ) → (drain_op s o).pool ≡ s.pool
unfolding drain_op
drain_op-pool s o = ground arith

Step-IsSafe : {total : ℕ} {s t : System} → Step total s t → IsSafe s.pool → IsSafe t.pool
Step-IsSafe (turns u) h = Turn-IsSafe u h
Step-IsSafe (drains_op i o rest e d) h = subst (λ q. IsSafe q) (sym (drain_op-pool _ o)) h
Step-IsSafe (refuses_op i o rest e d) h = h
Step-IsSafe (submits o i e d l) h = h
Step-IsSafe (rejects o e d) h = h
Step-IsSafe (sends o i e l) h = h
Step-IsSafe (gives_up_sending o i e d) h = h
Step-IsSafe (gets_answer o i e d) h = h
Step-IsSafe (gives_up_waiting o i e d) h = h

new_pool-IsSafe : IsSafe new_pool
new_pool-IsSafe = record {
  fits = λ i. record {
    up = λ a. absurd (omega arith);
    late = λ a. refl;
    pending = λ a. refl;
    signalled = λ a. absurd (cc);
    told = λ a b. absurd (cc);
    role = ground arith;
    app = λ a. absurd (cc);
    out = λ a. absurd (cc);
    passed = λ a b c. absurd (cc);
    destroyed = λ a. absurd (cc);
    exits = λ a. absurd (cc);
    parks = λ a. absurd (cc);
    quiet = refl;
    answered = λ a. absurd (cc);
    refused = λ a. absurd (cc);
  };
  ordered = record {
    unstarted = λ a. refl;
    bootstrapped = λ a. absurd (cc);
    undestroyed = λ a. absurd (cc);
  };
}

pub Reach-IsSafe : {total : ℕ} {s : System} → Reach total s → IsSafe s.pool
Reach-IsSafe init = new_pool-IsSafe
Reach-IsSafe (later r t) = Step-IsSafe t (Reach-IsSafe r)

is_gone-eq : (x : Phase) → is_gone x ≡ true → x ≡ gone
is_gone-eq gone e = refl
is_gone-eq _ e = absurd (cc)

final_saw : (m : Main) (j : ℕ) → is_final m ≡ true → saw_exit m j ≡ true
final_saw waiting_destroyed j e = refl
final_saw ended j e = refl
final_saw _ j e = absurd (cc)

-- In every reachable state of the pool and its callers: the application exists in VPP as long as a
-- worker may still call libvppcom, from its registration to its unregistration; and once the bootstrap
-- worker has destroyed it, every other worker that was started has unregistered.
pub app_outlives_workers :
    (total i : ℕ) {s : System}
    → Reach total s
    → (needs_app (i == 0) (s.pool.phase i) ≡ true → s.pool.signals.app_exists ≡ true)
      × (is_parked (s.pool.phase 0) ≡ true
          → (i == 0) ≡ false
          → i < s.pool.appended
          → s.pool.phase i ≡ gone)
app_outlives_workers total i {s} r =
    let h = Reach-IsSafe r in
    let f = h.fits i in
    (
      f.app,
      λ b n l.
          is_gone-eq (s.pool.phase i) (
            f.passed n l
              (final_saw s.pool.main i (h.ordered.undestroyed ((h.fits 0).destroyed b)))),
    )
