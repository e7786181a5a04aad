-- ===== src/Lifecycle/Drain.antt =====
-- The wait of a shutdown for the last live object: lifecycle.go, lines 151 to 201.
use vclnet.Base.{
  ℕ, ◌+◌, ◌≤◌, ◌≡◌, refl, List, [], ◌∷◌, true, false, Option, none, some, arith, ==_iff, ltb,
  if◌then◌else◌,
}
use vclnet.Wait.Sets.{count, hit}
use vclnet.Lifecycle.Registry.{
  Registry, Kind, listener, conn, packet_conn, include, is_empty, add, remove, begin_dial, end_dial,
  drained, close_drained, notify_if_drained, notify, enter_drain, Turn, adds, removes, dial_begins,
  dial_ends, notifies, waits, Reach, init, later,
}

-- How often the channel `c` is the current one.
abbrev pub current : ℕ → Option ℕ → ℕ
current c none = 0
current c (some d) = hit c d

-- Every channel made is closed, once, or the current one. While the registry is drained the current
-- one is open only as long as a notification is due.
pub record IsSound (r : Registry) : Type 0 where
  pub channels : (c : ℕ) → count c r.shut + current c r.drained_ch ≡ (if ltb c r.made then 1 else 0)
  pub due : (c : ℕ) → r.drained_ch ≡ some c → drained r ≡ true → 1 ≤ r.notifying
  pub ended : r.dials_ended ≤ r.dials_begun

include_busy : (i : ℕ) (xs : List ℕ) → is_empty (include i xs) ≡ false
unfolding include is_empty
include_busy i [] = refl
include_busy i (x ∷ xs) = ground arith

add-drained : (k : Kind) (i : ℕ) (r : Registry) → drained (add k i r) ≡ false
unfolding add drained
add-drained listener i r = ground (arith, include_busy i r.listeners)
add-drained conn i r = ground (arith, include_busy i r.conns)
add-drained packet_conn i r = ground (arith, include_busy i r.packet_conns)

Turn-IsSound : {r s : Registry} → Turn r s → IsSound r → IsSound s
Turn-IsSound {r} (adds listener i) s =
    let busy = add-drained listener i r in
    unfold add in
    record { channels = s.channels; due = λ c e d. ground (arith, busy, d); ended = s.ended }
Turn-IsSound {r} (adds conn i) s =
    let busy = add-drained conn i r in
    unfold add in
    record { channels = s.channels; due = λ c e d. ground (arith, busy, d); ended = s.ended }
Turn-IsSound {r} (adds packet_conn i) s =
    let busy = add-drained packet_conn i r in
    unfold add in
    record { channels = s.channels; due = λ c e d. ground (arith, busy, d); ended = s.ended }
Turn-IsSound {r} (removes listener i) s =
    unfold remove in record { channels = s.channels; due = λ c e d. omega arith; ended = s.ended }
Turn-IsSound {r} (removes conn i) s =
    unfold remove in record { channels = s.channels; due = λ c e d. omega arith; ended = s.ended }
Turn-IsSound {r} (removes packet_conn i) s =
    unfold remove in record { channels = s.channels; due = λ c e d. omega arith; ended = s.ended }
Turn-IsSound {r} dial_begins s =
    unfold begin_dial drained in
    record {
      channels = s.channels;
      due = λ c e d. ground (arith, s.ended);
      ended = omega (arith, s.ended);
    }
Turn-IsSound {r} (dial_ends h) s =
    unfold end_dial in
    record { channels = s.channels; due = λ c e d. omega arith; ended = omega arith }
Turn-IsSound {r} (notifies left e) s =
    unfold notify notify_if_drained close_drained drained count in
    record {
      channels = λ c. ground (arith, s.channels c);
      due = λ c e d. ground arith;
      ended = ground (arith, s.ended);
    }
Turn-IsSound {r} waits s =
    unfold enter_drain drained in
    record {
      channels = λ c. ground (arith, s.channels c, ==_iff c r.made);
      due = λ c e d. ground (arith, s.due c);
      ended = ground (arith, s.ended);
    }

-- In every reachable state each channel on which a `waitDrain` ever waited is closed once, or is the
-- current one; and while nothing is live the current one is open only as long as some goroutine has
-- still to call `notifyIfDrained`. So no wake-up is lost and no channel is closed twice.
pub registry-IsSound : {r : Registry} → Reach r → IsSound r
registry-IsSound init = record {
  channels = λ c. unfold count in ground arith;
  due = λ c e d. absurd (cc);
  ended = omega arith;
}
registry-IsSound (later r t) = Turn-IsSound t (registry-IsSound r)

-- Whenever nothing is live while a `waitDrain` waits on the current channel, a notification is due,
-- and it closes that channel.
notify-wakes :
    (r : Registry) (left c : ℕ)
    → Reach r
    → r.drained_ch ≡ some c
    → drained r ≡ true
    → (1 ≤ r.notifying) × (count c (notify left r).shut ≡ 1)
unfolding notify notify_if_drained close_drained count
notify-wakes r left c reach e d =
    let s = registry-IsSound reach in
    (
      s.due c e d,
      rw (d, notify_if_drained)
          (rw (e, close_drained) (ground (arith, rw e at (s.channels c), ==_iff c c))),
    )
