-- ===== src/Dialer/Tests.antt =====
-- Names with addresses of both families, a race and one connect, and the theorems at them.
use vclnet.Base.{ℕ, ◌+◌, ◌≡◌, List, [], ◌∷◌, true, false, none, some, arith, pos}
use vclnet.Errors.{errno, ok, err}
use vclnet.Lifecycle.Registry.{new_registry}
use vclnet.Dialer.Order.{TcpAddr}
use vclnet.Dialer.Race.{Event, result, timer, started, race, IsFair, race-IsFair}
use vclnet.Dialer.Connect.{Attempt, dial_single_tcp, opened, Left, dial_single_tcp-Left}

abbrev v4 : ℕ → TcpAddr
v4 n = record { is_v4 = true; id = n }

abbrev v6 : ℕ → TcpAddr
v6 n = record { is_v4 = false; id = n }

abbrev both : List TcpAddr
both = v4 1 ∷ v4 2 ∷ v6 3 ∷ v6 4 ∷ []

-- The first attempt fails, the timer starts the third, the second succeeds.
abbrev close_race : List Event
close_race = result (err (errno 111)) ∷ timer ∷ result (ok 7) ∷ []

race-IsFair_example : IsFair 3 (race 3 close_race started)
race-IsFair_example = race-IsFair 3 close_race (omega arith)

-- A connect that is in progress and then refused.
abbrev refused : Attempt
refused = record {
  start = ok (pos 5, false);
  ready = true;
  session_error = some (errno 111);
  wait_error = none;
  ctx_error = none;
  shutdown_started = false;
}

dial_single_tcp-Left_example :
    let d = dial_single_tcp refused 9 new_registry in
    (d.live.dials_begun ≡ 0 + 1)
    × (d.live.dials_ended ≡ 0 + 1)
    × Left (opened refused.start) 9 new_registry d d.outcome
dial_single_tcp-Left_example = dial_single_tcp-Left refused 9 new_registry
