-- ===== src/Setup/Tidy.antt =====
-- vclnet.go, lines 100 to 231, and tls.go, lines 181 to 242: what a listen leaves open and registered.
use vclnet.Base.{◌≡◌, ◌∷◌, int_eq}
use vclnet.Errors.{Result, ok, err}
use vclnet.Wait.{Vlsh}
use vclnet.Setup.Listen.{World}

-- The world after a listen, by its result: a session more, open and registered, or as before.
unfoldable pub with_listener : World → Result Vlsh → World
with_listener w (ok v) = record { opened = v ∷ w.opened; tracked = v ∷ w.tracked }
with_listener w (err e) = w

-- The same before the registration.
abbrev with_session : World → Result Vlsh → World
with_session w (ok v) = record { opened = v ∷ w.opened; tracked = w.tracked }
with_session w (err e) = w

abbrev IsTidy : World → World × Result Vlsh → Type 0
IsTidy w r = r.0 ≡ with_listener w r.1
