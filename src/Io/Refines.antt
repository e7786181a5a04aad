-- ===== src/Io/Refines.antt =====
-- internal/vclpoll/cgo.go, lines 975 to 1035, 1484 to 1507 and 1619 to 1674, against what a blocking
-- call promises.
use vclnet.Base.{
  ℕ, ℤ, pos, negsuc, List, [], ◌∷◌, Bool, true, false, Option, some, ◌≡◌, refl, sym, ap, ◌∙◌, ◌↔◌,
  ◌==◌, if◌then◌else◌, arith, Bool-cases, inl, inr, subst,
}
use vclnet.Errors.{
  Error, poll_closed, wait_canceled, Result, ok, err, is_again_error, is_again, vpp_err,
}
use vclnet.Io.Raw.{
  Op, read, write, recv_from, send_to, accept_full, Reply, Answer, raw, raw_read, raw_write,
  raw_send_to, raw_recv_from, raw_accept_full, count_or_error,
}
use vclnet.Io.Spec.{Attempt, judge, Returns, or_else, first_verdict, first_verdict_iff}
use vclnet.Io.Mode3.{
  Turn, Run, tried_rv, tried_error, settle, if_live, retry, mode3_read_context, mode3_write_context,
  mode3_send_to_context, mode3_recv_from_context, mode3_accept_full_context, call3,
}

-- `len(p) == 0`
abbrev pub is_empty : Op → Bool
is_empty (read len) = len == 0
is_empty (write len) = len == 0
is_empty (recv_from len) = len == 0
is_empty (send_to len addr) = len == 0
is_empty accept_full = false

-- The error of a call whose wait is interrupted.
abbrev pub interrupted_by : Op → Error
interrupted_by accept_full = poll_closed
interrupted_by _ = wait_canceled

-- A turn as an attempt: one that finds the application down has `ErrClosed` for an answer.
abbrev pub live_or_closed {ℓ} : {A : Type ℓ} → Bool → Result A → Result A
live_or_closed true r = r
live_or_closed false r = err poll_closed

module _ {ℓ} {A : Type ℓ} where
  abbrev pub attempts : Error → (Answer → Result A) → List Turn → List (Attempt A)
  attempts interrupted answer [] = []
  attempts interrupted answer (t ∷ ts) =
      record {
        answer = live_or_closed t.app_live (answer t.answer);
        ready = t.ready;
        interrupted = interrupted;
      }
      ∷ attempts interrupted answer ts

  settle-judge :
      (interrupted : Error) (ready : Bool) (r : Result A) (rest : Run A)
      → (settle interrupted ready (tried_error r) rest).1
        ≡ or_else (judge ready interrupted r) rest.1
  settle-judge interrupted ready (ok a) rest = refl
  settle-judge interrupted true (err e) rest = elim (Bool-cases (is_again_error e)) [
    | inl h ↦ simp h refl
    | inr h ↦ simp h refl
  ]
  settle-judge interrupted false (err e) rest = elim (Bool-cases (is_again_error e)) [
    | inl h ↦ simp h refl
    | inr h ↦ simp h refl
  ]

  turn-first_verdict :
      (live ready : Bool) (answer : Result A) (rest : Run A) (o : Option (Result A))
      (interrupted : Error)
      → rest.1 ≡ o
      → (if_live live (settle interrupted ready (tried_error answer) rest)).1
        ≡ or_else (judge ready interrupted (live_or_closed live answer)) o
  unfolding is_again_error
  turn-first_verdict true ready answer rest o interrupted e =
      settle-judge interrupted ready answer rest ∙ ap (or_else (judge ready interrupted answer)) e
  turn-first_verdict false ready answer rest o interrupted e = refl

  retry-first_verdict :
      (interrupted : Error) (answer : Answer → Result A) (ts : List Turn)
      → (retry interrupted (λ a. tried_error (answer a)) ts).1
        ≡ first_verdict (attempts interrupted answer ts)
  unfolding retry
  retry-first_verdict interrupted answer [] = refl
  retry-first_verdict interrupted answer (t ∷ ts) =
      turn-first_verdict t.app_live t.ready (answer t.answer)
        (retry interrupted (λ a. tried_error (answer a)) ts)
        (first_verdict (attempts interrupted answer ts)) interrupted
        (retry-first_verdict interrupted answer ts)

  retry_iff :
      (interrupted : Error) (answer : Answer → Result A) (ts : List Turn) (r : Result A)
      → ((retry interrupted (λ a. tried_error (answer a)) ts).1 ≡ some r)
        ↔ Returns (attempts interrupted answer ts) r
  retry_iff interrupted answer ts r =
      rw (retry-first_verdict interrupted answer ts)
        (first_verdict_iff (attempts interrupted answer ts) r)

-- The test of `read` and `write` on the return value is that of the others on the error.
tried_rv-tried_error : (rv : ℤ) → tried_rv rv ≡ tried_error (count_or_error rv)
unfolding is_again is_again_error vpp_err
tried_rv-tried_error (pos n) = refl
tried_rv-tried_error (negsuc n) = ground arith

-- `raw_read` and `raw_write`, of a buffer that is not empty, as `tried_rv` reads them.
tried_rv-nonempty :
    (b : Bool) (rv : ℤ)
    → b ≡ false
    → tried_rv rv ≡ tried_error (if b then ok 0 else count_or_error rv)
tried_rv-nonempty true rv h = absurd (cc)
tried_rv-nonempty false rv h = tried_rv-tried_error rv

unless_empty_iff {ℓ κ} :
    {A : Type ℓ} {P : Type κ} (b : Bool) (x run : Run A) (r : Result A)
    → b ≡ false
    → (run.1 ≡ some r) ↔ P
    → ((if b then x else run).1 ≡ some r) ↔ P
unless_empty_iff true x run r h e = absurd (cc)
unless_empty_iff false x run r h e = e

retry_rv_iff :
    (answer : Answer → Result ℕ) (ts : List Turn) (r : Result ℕ)
    → ((a : Answer) → tried_rv a.rv ≡ tried_error (answer a))
    → ((retry wait_canceled (λ a. tried_rv a.rv) ts).1 ≡ some r)
      ↔ Returns (attempts wait_canceled answer ts) r
retry_rv_iff answer ts r h =
    subst
      (λ f. ((retry wait_canceled f ts).1 ≡ some r) ↔ Returns (attempts wait_canceled answer ts) r)
      (sym (λ i a. h a i)) (retry_iff wait_canceled answer ts r)

-- Each of the five calls, of a buffer that is not empty, returns `r` exactly if some turn settles it as
-- `r` and no turn before settles anything: a turn settles the call if the application is down, if
-- libvppcom answers otherwise than EAGAIN, or if the wait is interrupted.
pub call3-Returns :
    (op : Op) (ts : List Turn) (r : Result (Reply op))
    → is_empty op ≡ false
    → ((call3 op ts).1 ≡ some r) ↔ Returns (attempts (interrupted_by op) (raw op) ts) r
unfolding mode3_read_context mode3_write_context mode3_send_to_context mode3_recv_from_context
    mode3_accept_full_context raw_read raw_write
call3-Returns (read len) ts r h =
    unless_empty_iff (len == 0) _ _ r h
      (retry_rv_iff (raw_read len) ts r (λ a. tried_rv-nonempty (len == 0) a.rv h))
call3-Returns (write len) ts r h =
    unless_empty_iff (len == 0) _ _ r h
      (retry_rv_iff (raw_write len) ts r (λ a. tried_rv-nonempty (len == 0) a.rv h))
call3-Returns (send_to len addr) ts r h =
    unless_empty_iff (len == 0) _ _ r h (retry_iff wait_canceled (raw_send_to len) ts r)
call3-Returns (recv_from len) ts r h =
    unless_empty_iff (len == 0) _ _ r h (retry_iff wait_canceled (raw_recv_from len) ts r)
call3-Returns accept_full ts r h = retry_iff poll_closed raw_accept_full ts r
