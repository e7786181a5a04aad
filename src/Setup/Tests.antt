-- ===== src/Setup/Tests.antt =====
-- The theorems on initialisation and listeners at concrete inputs.
use vclnet.Base.{pos, [], ◌∷◌, none, some, int_eq}
use vclnet.Errors.{errno, ok, err}
use vclnet.Addr.Resolve.{v6}
use vclnet.Setup.Listen.{World, Answers}

-- Session 5 is created, and its local address cannot be read.
abbrev no_local_addr : Answers
no_local_addr = record {
  resolved = ok (v6 1, 80);
  create4 = err (errno 98);
  create6 = ok (pos 5);
  set_v6_only = none;
  local_addr = some (errno 9);
}

abbrev one_open : World
one_open = record { opened = pos 3 ∷ []; tracked = [] }
