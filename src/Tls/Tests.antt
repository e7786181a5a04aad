-- ===== src/Tls/Tests.antt =====
-- Two configurations with one pair that race for the cache, and the theorems at them.
use vclnet.Base.{refl, true, lookup, insert}
use vclnet.Tls.Cache.{
  System, Reach, init, later, looks, added, publishes, gives_back, look, publish, give_back, remove,
}
use vclnet.Tls.Account.{IsAccounted}
use vclnet.Tls.Sound.{store-IsAccounted}

record Run : Type 0 where
  last : System
  reach : Reach last

-- Both look before either publishes; the second gives its index back.
abbrev racing : Run
unfolding look publish lookup insert give_back remove
racing = record {
  last = _;
  reach =
      later
        (later
          (later
            (later
              (later (later (later init (looks 0 77 refl)) (looks 1 77 refl))
                (added 0 77 5 refl refl))
              (added 1 77 6 refl refl))
            (publishes 0 77 5 refl))
          (publishes 1 77 6 refl))
        (gives_back 1 77 6 5 true refl);
}

store-IsAccounted_example : IsAccounted racing.last
store-IsAccounted_example = store-IsAccounted racing.reach
