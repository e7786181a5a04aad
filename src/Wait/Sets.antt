-- ===== src/Wait/Sets.antt =====
-- Counting waiters: no operation on a wait set loses or doubles one.
use vclnet.Base.{
  ℕ, ◌+◌, ◌≤◌, ◌≡◌, refl, List, [], ◌∷◌, ◌++◌, true, false, ◌==◌, arith, if◌then◌else◌, bit_or,
  zero-bit_or,
}
use vclnet.Wait.{Waiter, has, include, exclude, combine, combined_events, kept, fired, wake_all_of}

-- 1 if the two identities are one.
abbrev pub hit : ℕ → ℕ → ℕ
hit i j = if i == j then 1 else 0

unfoldable pub count_of : ℕ → List Waiter → ℕ
count_of i [] = 0
count_of i (w ∷ ws) = hit i w.id + count_of i ws

-- How often `i` stands in a list of identities.
unfoldable pub count : ℕ → List ℕ → ℕ
count i [] = 0
count i (j ∷ js) = hit i j + count i js

pub count_of-append :
    (i : ℕ) (ws vs : List Waiter) → count_of i (ws ++ vs) ≡ count_of i ws + count_of i vs
unfolding count_of
count_of-append i [] vs = omega arith
count_of-append i (w ∷ ws) vs = omega (arith, count_of-append i ws vs)

pub has_pos : (i : ℕ) (ws : List Waiter) → has i ws ≡ true → 1 ≤ count_of i ws
unfolding has count_of
has_pos i [] h = ground arith
has_pos i (w ∷ ws) h = ground (arith, has_pos i ws)

-- A waiter that is not parked anywhere is parked once.
pub count_of-include :
    (i : ℕ) (w : Waiter) (ws : List Waiter)
    → has w.id ws ≡ false
    → count_of i (include w ws) ≡ count_of i ws + hit i w.id
unfolding include count_of
count_of-include i w ws h = rw h (omega (arith, count_of-append i ws (w ∷ [])))

pub count_of-exclude :
    (i j : ℕ) (ws : List Waiter)
    → has j ws ≡ true
    → count_of i (exclude j ws) + hit i j ≡ count_of i ws
unfolding has exclude count_of
count_of-exclude i j [] h = ground arith
count_of-exclude i j (w ∷ ws) h = ground (arith, count_of-exclude i j ws)

pub count_of-kept :
    (i events : ℕ) (ws : List Waiter)
    → count_of i (kept events ws) + count_of i (fired events ws) ≡ count_of i ws
unfolding kept fired count_of
count_of-kept i events [] = refl
count_of-kept i events (w ∷ ws) = ground (arith, count_of-kept i events ws)

pub count-wake :
    (i : ℕ) (ws : List Waiter) (woken : List ℕ)
    → count i (wake_all_of ws woken) ≡ count_of i ws + count i woken
unfolding wake_all_of count_of count
count-wake i [] woken = omega arith
count-wake i (w ∷ ws) woken = omega (arith, count-wake i ws (w.id ∷ woken))

combine-append :
    (events : ℕ) (ws vs : List Waiter) → combine events (ws ++ vs) ≡ combine (combine events ws) vs
unfolding combine
combine-append events [] vs = refl
combine-append events (w ∷ ws) vs = combine-append (bit_or events w.events) ws vs

pub combined-append :
    (ws : List Waiter) (w : Waiter)
    → combined_events (ws ++ w ∷ []) ≡ bit_or (combined_events ws) w.events
unfolding combined_events
combined-append ws w = combine-append 0 ws (w ∷ [])

pub combined_one : (w : Waiter) → combined_events (w ∷ []) ≡ w.events
unfolding combined_events
combined_one w = zero-bit_or w.events
