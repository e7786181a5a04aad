-- ===== src/Conn/Deadline.antt =====
-- conn.go, lines 21 to 100: deadlines, whose channel wakes the calls that wait.
use vclnet.Base.{
  ℕ, suc, ◌<◌, ◌≡◌, refl, List, [], ◌∷◌, Bool, true, false, Option, none, some, ◌==◌, ltb, leb, not,
  Bool-cases, inl, inr, if◌then◌else◌, arith, ==_iff,
}
use vclnet.Wait.Sets.{count}

-- Times are in nanoseconds; `when` is none for the zero time. The channels are numbered as they are
-- made, `ch` is the current one, and `shut` lists those closed, the last one first (a second close
-- would panic). `timer` is the channel that the armed timer closes.
pub record Deadline : Type 0 where
  pub when : Option ℕ
  pub ch : ℕ
  pub closed : Bool
  pub timer : Option ℕ
  pub shut : List ℕ

-- `newDeadlineState`
abbrev pub new_deadline : Deadline
new_deadline = record { when = none; ch = 0; closed = false; timer = none; shut = [] }

-- `closeCurrentLocked`
unfoldable pub close_current : Deadline → Deadline
close_current d = if d.closed then d else record d { closed = true; shut = d.ch ∷ d.shut }

-- `set` after the current channel is closed and replaced.
unfoldable pub arm : ℕ → Option ℕ → Deadline → Deadline
unfolding close_current
arm now none d = record d { when = none; ch = suc d.ch; closed = false; timer = none }
arm now (some t) d =
    let d' = record d { when = some t; ch = suc d.ch; closed = false; timer = none } in
    if leb t now then close_current d' else record d' { timer = some (suc d.ch) }

-- `set`, at the time `now`.
unfoldable pub set_deadline : ℕ → Option ℕ → Deadline → Deadline
unfolding arm close_current
set_deadline now t d = arm now t (close_current d)

-- The function of the timer that was armed for the channel `c`.
unfoldable pub fire : ℕ → Deadline → Deadline
unfolding close_current
fire c d = if d.ch == c then record (close_current d) { timer = none } else d

unfoldable pub interrupt : Deadline → Deadline
unfolding close_current
interrupt d = close_current (record d { timer = none })

unfoldable pub expired : ℕ → Deadline → Bool
expired now d = elim d.when [ none ↦ false | some t ↦ not (ltb now t) ]

-- What can happen to a deadline. A timer that was stopped too late may still fire.
pub data Turn (d : Deadline) : Deadline → Type 0 where
  sets : (now : ℕ) (t : Option ℕ) → Turn d (set_deadline now t d)
  fires : (c : ℕ) → Turn d (fire c d)
  interrupts : Turn d (interrupt d)

pub data Reach : Deadline → Type 0 where
  init : Reach new_deadline
  later : {d e : Deadline} → Reach d → Turn d e → Reach e

-- The channels before the current one are closed, each once; the current one, if `closed` says so.
-- While it is open and a deadline is set, a timer is armed to close it.
pub record IsSound (d : Deadline) : Type 0 where
  pub past : (c : ℕ) → c < d.ch → count c d.shut ≡ 1
  pub now : count d.ch d.shut ≡ (if d.closed then 1 else 0)
  pub next : (c : ℕ) → d.ch < c → count c d.shut ≡ 0
  pub armed : (t : ℕ) → d.when ≡ some t → d.closed ≡ false → d.timer ≡ some d.ch

close_current-IsSound : (d : Deadline) → IsSound d → IsSound (close_current d)
unfolding close_current count
close_current-IsSound d s = record {
  past = λ c h. ground (arith, s.past c, s.now, ==_iff c d.ch);
  now = ground (arith, s.now, ==_iff d.ch d.ch);
  next = λ c h. ground (arith, s.next c, s.now, ==_iff c d.ch);
  armed = λ t e o. ground (arith, s.armed t);
}

close_current-closed : (d : Deadline) → (close_current d).closed ≡ true
unfolding close_current
close_current-closed d = ground arith

close_current-ch :
    (d : Deadline) → ((close_current d).ch ≡ d.ch) × ((close_current d).when ≡ d.when)
unfolding close_current
close_current-ch d = ground arith

-- A closed deadline gets a new open channel.
arm-IsSound :
    (now : ℕ) (t : Option ℕ) (d : Deadline) → IsSound d → d.closed ≡ true → IsSound (arm now t d)
unfolding arm close_current count
arm-IsSound now none d s shut = record {
  past = λ c h. ground (arith, s.past c, s.now, shut);
  now = s.next (suc d.ch) (omega arith);
  next = λ c h. s.next c (omega arith);
  armed = λ t e o. absurd (cc);
}
arm-IsSound now (some t) d s shut = record {
  past = λ c h. ground (arith, s.past c, s.now, shut, ==_iff c (suc d.ch));
  now = ground (arith, s.next (suc d.ch), ==_iff (suc d.ch) (suc d.ch));
  next = λ c h. ground (arith, s.next c, ==_iff c (suc d.ch));
  armed = λ u e o. ground arith;
}

disarmed-IsSound :
    (d : Deadline) → IsSound d → d.closed ≡ true → IsSound (record d { timer = none })
disarmed-IsSound d s shut = record {
  past = s.past;
  now = s.now;
  next = s.next;
  armed = λ t e o. absurd (cc);
}

Turn-IsSound : {d e : Deadline} → Turn d e → IsSound d → IsSound e
unfolding set_deadline fire
Turn-IsSound {d} (sets now t) s =
    arm-IsSound now t (close_current d) (close_current-IsSound d s) (close_current-closed d)
Turn-IsSound {d} (fires c) s = elim (Bool-cases (d.ch == c)) [
  | inl here ↦
      rw here
        (disarmed-IsSound (close_current d) (close_current-IsSound d s) (close_current-closed d))
  | inr past ↦ rw past s
]
Turn-IsSound {d} interrupts s =
    unfold interrupt close_current count in
    record {
      past = λ c h. ground (arith, s.past c, s.now, ==_iff c d.ch);
      now = ground (arith, s.now, ==_iff d.ch d.ch);
      next = λ c h. ground (arith, s.next c, s.now, ==_iff c d.ch);
      armed = λ t e o. ground arith;
    }

-- Whatever sequence of settings, interrupts and timers a deadline goes through: no channel is closed
-- twice, every channel that was replaced is closed, and while the current one is open and a deadline
-- is set, a timer is armed for it.
pub deadline-IsSound : {d : Deadline} → Reach d → IsSound d
deadline-IsSound init = record {
  past = λ c h. absurd (omega arith);
  now = unfold count in refl;
  next = λ c h. unfold count in refl;
  armed = λ t e o. absurd (cc);
}
deadline-IsSound (later r t) = Turn-IsSound t (deadline-IsSound r)

-- A call that waits on the channel of a reachable deadline is woken by any new setting, by an
-- interrupt, and when the armed timer fires.
waiting_wakes :
    {d : Deadline}
    → Reach d
    → (now : ℕ) (t : Option ℕ)
    → (count d.ch (set_deadline now t d).shut ≡ 1)
      × (count d.ch (interrupt d).shut ≡ 1)
      × (count d.ch (fire d.ch d).shut ≡ 1)
unfolding set_deadline interrupt fire arm close_current count
waiting_wakes {d} r now none = let s = deadline-IsSound r in ground (arith, s.now, ==_iff d.ch d.ch)
waiting_wakes {d} r now (some t) =
    let s = deadline-IsSound r in ground (arith, s.now, ==_iff d.ch d.ch, ==_iff d.ch (suc d.ch))
