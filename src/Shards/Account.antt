-- ===== src/Shards/Account.antt =====
-- internal/vclpoll/shard_listener.go, lines 101 to 236: what becomes of the sessions that the accept
-- loops register.
use vclnet.Base.{
  ℕ, zero, suc, ◌+◌, ◌≡◌, refl, sym, ap, ◌∙◌, List, [], ◌∷◌, ◌++◌, true, false, some, get_elem?,
  set, arith,
}
use mathlib.Core.Bool.{false≢true}
use vclnet.Errors.{poll_closed}
use vclnet.Wait.Sets.{count, hit}
use vclnet.Shards.Loops.{
  AcceptResult, accepted, failed, Loop, checking, accepting, waiting, ended, holding, Fan, moved,
  with_result, accept, abandon, after_send, send, drop_result, receive, close_queued, drain,
  has_ended, all_ended, Step, enters, returns, accepts, abandons, fails, is_told_again, sends,
  drops, wakes, gives_up, receives, stops, drains, heads, Reach, init, later,
}

-- How often a session stands in a result, in the results of loops, and in the channel.
abbrev in_result : ℕ → AcceptResult → ℕ
in_result h (accepted k) = hit h k
in_result h (failed e) = 0

abbrev in_loop : ℕ → Loop → ℕ
in_loop h (holding r) = in_result h r
in_loop h _ = 0

unfoldable pub held : ℕ → List Loop → ℕ
held h [] = 0
held h (l ∷ ls) = in_loop h l + held h ls

unfoldable pub queued : ℕ → List AcceptResult → ℕ
queued h [] = 0
queued h (r ∷ rs) = in_result h r + queued h rs

held-set :
    (h : ℕ) (ls : List Loop) (i : ℕ) (old new : Loop)
    → get_elem? ls i ≡ some old
    → held h (set ls i new) + in_loop h old ≡ held h ls + in_loop h new
unfolding held
held-set h [] i old new e = absurd (cc)
held-set h (l ∷ ls) zero old new e = ground (arith, e)
held-set h (l ∷ ls) (suc i) old new e = omega (arith, held-set h ls i old new e)

queued-append :
    (h : ℕ) (rs : List AcceptResult) (r : AcceptResult)
    → queued h (rs ++ r ∷ []) ≡ queued h rs + in_result h r
unfolding queued
queued-append h [] r = omega arith
queued-append h (x ∷ rs) r = omega (arith, queued-append h rs r)

count-with_result :
    (h : ℕ) (r : AcceptResult) (hs : List ℕ)
    → count h (with_result r hs) ≡ in_result h r + count h hs
unfolding count
count-with_result h (accepted k) hs = refl
count-with_result h (failed e) hs = omega arith

count-close_queued :
    (h : ℕ) (rs : List AcceptResult) (hs : List ℕ)
    → count h (close_queued rs hs) ≡ queued h rs + count h hs
unfolding queued
count-close_queued h [] hs = omega arith
count-close_queued h (r ∷ rs) hs =
    omega (arith, count-close_queued h rs (with_result r hs), count-with_result h r hs)

in_loop-after_send : (h : ℕ) (r : AcceptResult) → in_loop h (after_send r) ≡ 0
in_loop-after_send h (accepted k) = refl
in_loop-after_send h (failed e) = refl

queued-front :
    (h : ℕ) (r : AcceptResult) (rest : List AcceptResult) {rs : List AcceptResult}
    → rs ≡ r ∷ rest
    → queued h rs ≡ in_result h r + queued h rest
unfolding queued
queued-front h r rest e = ap (queued h) e

held-heads : (h n : ℕ) → held h (heads n) ≡ 0
unfolding held
held-heads h zero = refl
held-heads h (suc n) = omega (arith, held-heads h n)

-- Every session that was registered is in one place.
abbrev Accounted : ℕ → Fan → Type 0
Accounted h s =
    count h s.taken
    ≡ held h s.loops
      + queued h s.accept_c
      + count h s.delivered
      + count h s.closed
      + count h s.dropped
      + count h s.abandoned

-- A loop that moves on without a session.
move-Accounted :
    (h : ℕ) (s : Fan) (i : ℕ) (old new : Loop)
    → get_elem? s.loops i ≡ some old
    → in_loop h old ≡ in_loop h new
    → Accounted h s
    → Accounted h (moved i new s)
move-Accounted h s i old new e same a = omega (arith, held-set h s.loops i old new e, same, a)

Step-Accounted : (h : ℕ) {s t : Fan} → Step s t → Accounted h s → Accounted h t
unfolding accept abandon send drop_result receive drain
Step-Accounted h {s} (enters i e g) a = move-Accounted h s i checking accepting e refl a
Step-Accounted h {s} (returns i e) a = move-Accounted h s i checking ended e refl a
Step-Accounted h {s} (accepts i k e) a =
    unfold count in omega (arith, held-set h s.loops i accepting (holding (accepted k)) e, a)
Step-Accounted h {s} (abandons i k e) a =
    unfold count in
    omega (arith, held-set h s.loops i accepting (holding (failed poll_closed)) e, a)
Step-Accounted h {s} (fails i x e) a = move-Accounted h s i accepting (holding (failed x)) e refl a
Step-Accounted h {s} (is_told_again i e) a = move-Accounted h s i accepting waiting e refl a
Step-Accounted h {s} (sends i r e g) a = omega (
  arith,
  held-set h s.loops i (holding r) (after_send r) e,
  in_loop-after_send h r,
  queued-append h s.accept_c r,
  a,
)
Step-Accounted h {s} (drops i r e g) a =
    omega (arith, held-set h s.loops i (holding r) ended e, count-with_result h r s.dropped, a)
Step-Accounted h {s} (wakes i e) a = move-Accounted h s i waiting checking e refl a
Step-Accounted h {s} (gives_up i e) a = move-Accounted h s i waiting ended e refl a
Step-Accounted h {s} (receives r rest e) a =
    omega (arith, queued-front h r rest e, count-with_result h r s.delivered, a)
Step-Accounted h {s} (stops g) a = a
Step-Accounted h {s} (drains g e) a =
    unfold queued in omega (arith, count-close_queued h s.accept_c s.closed, a)

-- In every reachable state of a sharded listener each session that an accept loop has registered is
-- in one place: in the hands of a loop, in the channel, delivered to a caller, closed by `Close`,
-- dropped by a loop that returned at the channel, or abandoned by a `submit` that returned `ErrClosed`.
pub sessions_accounted :
    {n : ℕ} {s : Fan} (h : ℕ)
    → Reach n s
    → count h s.taken
      ≡ held h s.loops
        + queued h s.accept_c
        + count h s.delivered
        + count h s.closed
        + count h s.dropped
        + count h s.abandoned
unfolding count queued
sessions_accounted {n} h init = omega (arith, held-heads h n)
sessions_accounted h (later r t) = Step-Accounted h t (sessions_accounted h r)

-- What holds once the channel is emptied: no loop is left to send.
abbrev Emptied : Fan → Type 0
Emptied s = (all_ended s.loops ≡ true) × (s.accept_c ≡ [])

-- A loop that has not returned.
all_ended-running :
    (ls : List Loop) (i : ℕ) (l : Loop)
    → get_elem? ls i ≡ some l
    → has_ended l ≡ false
    → all_ended ls ≡ false
unfolding all_ended
all_ended-running [] i l e h = absurd (cc)
all_ended-running (x ∷ ls) zero l e h = ground (arith, e, h)
all_ended-running (x ∷ ls) (suc i) l e h = ground (arith, all_ended-running ls i l e h)

all_ended-held : (h : ℕ) (ls : List Loop) → all_ended ls ≡ true → held h ls ≡ 0
unfolding all_ended held
all_ended-held h [] e = refl
all_ended-held h (ended ∷ ls) e = omega (arith, all_ended-held h ls e)
all_ended-held h (checking ∷ ls) e = absurd (cc)
all_ended-held h (accepting ∷ ls) e = absurd (cc)
all_ended-held h (waiting ∷ ls) e = absurd (cc)
all_ended-held h (holding r ∷ ls) e = absurd (cc)

none_runs :
    (s : Fan) (i : ℕ) (l : Loop)
    → Emptied s
    → get_elem? s.loops i ≡ some l
    → has_ended l ≡ false
    → ⊥
none_runs s i l (all, empty) e h = false≢true (sym (all_ended-running s.loops i l e h) ∙ all)

Step-Emptied :
    {s t : Fan} → Step s t → (s.drained ≡ true → Emptied s) → t.drained ≡ true → Emptied t
unfolding accept abandon send drop_result receive drain
Step-Emptied {s} (enters i e g) k d = absurd (none_runs s i checking (k d) e refl)
Step-Emptied {s} (returns i e) k d = absurd (none_runs s i checking (k d) e refl)
Step-Emptied {s} (accepts i h e) k d = absurd (none_runs s i accepting (k d) e refl)
Step-Emptied {s} (abandons i h e) k d = absurd (none_runs s i accepting (k d) e refl)
Step-Emptied {s} (fails i x e) k d = absurd (none_runs s i accepting (k d) e refl)
Step-Emptied {s} (is_told_again i e) k d = absurd (none_runs s i accepting (k d) e refl)
Step-Emptied {s} (sends i r e g) k d = absurd (none_runs s i (holding r) (k d) e refl)
Step-Emptied {s} (drops i r e g) k d = absurd (none_runs s i (holding r) (k d) e refl)
Step-Emptied {s} (wakes i e) k d = absurd (none_runs s i waiting (k d) e refl)
Step-Emptied {s} (gives_up i e) k d = absurd (none_runs s i waiting (k d) e refl)
Step-Emptied {s} (receives r rest e) k d = let (all, empty) = k d in absurd (cc)
Step-Emptied (stops g) k d = k d
Step-Emptied (drains g e) k d = (e, refl)

drained-Emptied : {n : ℕ} {s : Fan} → Reach n s → s.drained ≡ true → Emptied s
drained-Emptied init d = absurd (cc)
drained-Emptied (later r t) d = Step-Emptied t (drained-Emptied r) d

-- In every reachable state in which `closeShardedListener` has emptied the channel, each session that
-- was registered has been delivered to a caller, closed by it, dropped by a loop that returned at the
-- channel while it held it, or abandoned, as its worker quiesced and `submit` returned `ErrClosed`
-- although the accept had run; and that as often as it was registered.
pub sessions_after_close :
    {n : ℕ} {s : Fan} (h : ℕ)
    → Reach n s
    → s.drained ≡ true
    → count h s.taken
      ≡ count h s.delivered + count h s.closed + count h s.dropped + count h s.abandoned
unfolding queued
sessions_after_close {n} {s} h r d =
    let (all, empty) = drained-Emptied r d in
    omega (arith, sessions_accounted h r, all_ended-held h s.loops all, ap (queued h) empty)
