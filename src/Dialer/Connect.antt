-- ===== src/Dialer/Connect.antt =====
-- dialer.go, lines 74 to 112, 127 to 169 and 245 to 250: one connect, and what it leaves behind.
use vclnet.Base.{
  ℕ, suc, ◌+◌, ◌≡◌, refl, List, [], ◌∷◌, Bool, true, false, Option, none, some, arith,
  if◌then◌else◌, ==_iff, contains, Option-cases, Bool-cases, inl, inr,
}
use vclnet.Errors.{Error, closed, Result, ok, err}
use vclnet.Wait.{Vlsh}
use vclnet.Lifecycle.Registry.{
  Registry, conn, include, is_empty, add, begin_dial, end_dial, drained, close_drained,
  notify_if_drained, notify,
}

-- What one attempt meets: the answer of `connectStart` (the session and whether it is connected at
-- once), of `PollWaitContext`, of `SessionConnectError`, of `ctx.Err` when it is asked after an
-- interrupted wait and at the end, and the flag `shutdownStarted`.
pub record Attempt : Type 0 where
  pub start : Result (Vlsh × Bool)
  pub ready : Bool
  pub session_error : Option Error
  pub wait_error : Option Error
  pub ctx_error : Option Error
  pub shutdown_started : Bool

-- `interruptedConnectError`
interrupted_connect_error : Attempt → Error
interrupted_connect_error a = elim a.wait_error [ some e ↦ e | none ↦ closed ]

-- `connectWait`: nil, or the error.
unfoldable pub connect_wait : Attempt → Option Error
unfolding interrupted_connect_error
connect_wait a =
    if a.ready
    then a.session_error
    else elim a.session_error [ some e ↦ some e | none ↦ some (interrupted_connect_error a) ]

-- The end of `finishConnect`: the sessions that it closes, and nil or the error.
abbrev finish_connected : Attempt → Vlsh → List Vlsh × Option Error
finish_connected a v = elim a.ctx_error [
  | some e ↦ (v ∷ [], some e)
  | none ↦ if a.shutdown_started then (v ∷ [], some closed) else ([], none)
]

-- Behind `connectWait`.
abbrev pub finish_waited : Option Error → Attempt → Vlsh → List Vlsh × Option Error
finish_waited (some e) a v = (v ∷ [], some e)
finish_waited none a v = finish_connected a v

-- `finishConnect` of the session `v`.
unfoldable pub finish_connect : Attempt → Vlsh → Bool → List Vlsh × Option Error
unfolding connect_wait
finish_connect a v true = finish_connected a v
finish_connect a v false = finish_waited (connect_wait a) a v

-- The registry, the sessions closed, and the result.
pub record Dialed : Type 0 where
  pub live : Registry
  pub closed_vlsh : List Vlsh
  pub outcome : Result Vlsh

-- `dialSingleTCP` behind `finishConnect`; the connection's identity is `i`.
unfoldable pub dial_finished : List Vlsh × Option Error → Vlsh → ℕ → Registry → Dialed
dial_finished (closes, some e) v i r = record { live = r; closed_vlsh = closes; outcome = err e }
dial_finished (closes, none) v i r = record {
  live = add conn i r;
  closed_vlsh = closes;
  outcome = ok v;
}

-- `dialSingleTCP` behind `connectStart`.
unfoldable pub dial_started : Result (Vlsh × Bool) → Attempt → ℕ → Registry → Dialed
unfolding dial_finished finish_connect
dial_started (err e) a i r = record { live = r; closed_vlsh = []; outcome = err e }
dial_started (ok s) a i r = dial_finished (finish_connect a s.0 s.1) s.0 i r

-- The deferred `endDial`.
unfoldable pub ending : Dialed → Dialed
ending d = record d { live = notify d.live.notifying (end_dial d.live) }

-- `dialSingleTCP`
unfoldable pub dial_single_tcp : Attempt → ℕ → Registry → Dialed
unfolding dial_started ending
dial_single_tcp a i r = ending (dial_started a.start a i (begin_dial r))

-- The sessions that an answer of `connectStart` opens.
unfoldable pub opened : Result (Vlsh × Bool) → List Vlsh
opened (ok s) = s.0 ∷ []
opened (err e) = []

-- What a dial leaves, by its result: the session that it opened and did not close is the one that it
-- returns, registered as a connection; or it closed every session that it opened and registered none.
unfoldable pub Left : List Vlsh → ℕ → Registry → Dialed → Result Vlsh → Type 0
Left opens i r d (ok v) =
    (opens ≡ v ∷ [])
    × (d.closed_vlsh ≡ [])
    × (contains i d.live.conns ≡ true)
    × (d.live.drained_ch ≡ r.drained_ch)
Left opens i r d (err e) = (d.closed_vlsh ≡ opens) × (d.live.conns ≡ r.conns)

contains-include : (i : ℕ) (xs : List ℕ) → contains i (include i xs) ≡ true
unfolding include
contains-include i xs = ground (arith, ==_iff i i)

-- What ends a dial keeps the counts and the connections; and while one is live it wakes nobody.
pub ending-keeps :
    (d : Dialed)
    → ((ending d).live.dials_begun ≡ d.live.dials_begun)
      × ((ending d).live.dials_ended ≡ suc d.live.dials_ended)
      × ((ending d).live.conns ≡ d.live.conns)
      × (is_empty d.live.conns ≡ false → (ending d).live.drained_ch ≡ d.live.drained_ch)
unfolding ending notify notify_if_drained close_drained end_dial drained
ending-keeps d = ground arith

contains-is_empty : (i : ℕ) (xs : List ℕ) → contains i xs ≡ true → is_empty xs ≡ false
unfolding is_empty
contains-is_empty i [] h = absurd (cc)
contains-is_empty i (x ∷ xs) h = refl

unfoldable pub Balanced : List Vlsh → ℕ → Registry → Dialed → Type 0
Balanced opens i r d =
    (d.live.dials_begun ≡ r.dials_begun + 1)
    × (d.live.dials_ended ≡ r.dials_ended + 1)
    × Left opens i r d d.outcome

-- A session is closed exactly if there is an error.
unfoldable Closes : Vlsh → List Vlsh × Option Error → Type 0
Closes v (closes, some e) = closes ≡ v ∷ []
Closes v (closes, none) = closes ≡ []

finish_connected-Closes : (a : Attempt) (v : Vlsh) → Closes v (finish_connected a v)
unfolding Closes
finish_connected-Closes a v = elim (Option-cases a.ctx_error) [
  | inl fine ↦
      rw fine
        (elim (Bool-cases a.shutdown_started) [ inl down ↦ rw down refl | inr up ↦ rw up refl ])
  | inr (e, done) ↦ rw done refl
]

finish_waited-Closes : (o : Option Error) (a : Attempt) (v : Vlsh) → Closes v (finish_waited o a v)
unfolding Closes
finish_waited-Closes (some e) a v = refl
finish_waited-Closes none a v = finish_connected-Closes a v

finish_connect-Closes :
    (a : Attempt) (v : Vlsh) (immediate : Bool) → Closes v (finish_connect a v immediate)
unfolding finish_connect
finish_connect-Closes a v true = finish_connected-Closes a v
finish_connect-Closes a v false = finish_waited-Closes (connect_wait a) a v

finished-Balanced :
    (o : List Vlsh × Option Error) (v : Vlsh) (i : ℕ) (r : Registry)
    → Closes v o
    → Balanced (v ∷ []) i r (ending (dial_finished o v i (begin_dial r)))
unfolding Balanced dial_finished ending Left begin_dial add Closes
finished-Balanced (closes, some e) v i r h =
    let (b, n, c, w) = ending-keeps (dial_finished (closes, some e) v i (begin_dial r)) in
    (omega (arith, b), omega (arith, n), (h, c))
finished-Balanced (closes, none) v i r h =
    let (b, n, c, w) = ending-keeps (dial_finished (closes, none) v i (begin_dial r)) in
    let here = contains-include i r.conns in
    (
      omega (arith, b),
      omega (arith, n),
      (refl, h, rw c here, w (contains-is_empty i (include i r.conns) here)),
    )

pub started-Balanced :
    (s : Result (Vlsh × Bool)) (a : Attempt) (i : ℕ) (r : Registry)
    → Balanced (opened s) i r (ending (dial_started s a i (begin_dial r)))
unfolding dial_started opened Balanced ending Left begin_dial
started-Balanced (ok s) a i r =
    finished-Balanced (finish_connect a s.0 s.1) s.0 i r (finish_connect-Closes a s.0 s.1)
started-Balanced (err e) a i r =
    let (b, n, c, w) = ending-keeps (dial_started (err e) a i (begin_dial r)) in
    (omega (arith, b), omega (arith, n), (refl, c))

-- On every path of `dialSingleTCP` the dial begins and ends once, and no session leaks: a failed
-- attempt has closed the session it opened; a successful one has registered its connection before
-- the dial ends, so that a shutdown that drains is not woken in between.
pub dial_single_tcp-Left :
    (a : Attempt) (i : ℕ) (r : Registry)
    → let d = dial_single_tcp a i r in
      (d.live.dials_begun ≡ r.dials_begun + 1)
      × (d.live.dials_ended ≡ r.dials_ended + 1)
      × Left (opened a.start) i r d d.outcome
unfolding dial_single_tcp Balanced
dial_single_tcp-Left a i r = started-Balanced a.start a i r
