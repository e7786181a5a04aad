-- ===== src/Threads/Invariant.antt =====
-- internal/vclpoll/cgo.go, lines 723 to 886 and 1508 to 1528: what every thread and the shared state
-- keep to.
use vclnet.Base.{ℕ, ◌≤◌, ◌≡◌, [], Bool, true, false, none, some, ◌||◌, if◌then◌else◌}
use vclnet.Wait.Sets.{count}
use vclnet.Threads.Defs.{Shared, fresh, running, finished, load, is_thread}
use vclnet.Threads.System.{
  looping, Goal, call, destroy, Phase, entered, missed, checking, registering, registered, leaving,
  ready, reading, in_call, cleared, read_done, released, destroying, destroyed, init_entered,
  creating, created, stored, marked, init_leaving, init_returning,
}

-- Whether a thread in this phase holds `vlsMu` for writing.
abbrev pub writes : Phase → Bool
writes (checking g) = true
writes (registering g) = true
writes (registered g) = true
writes (leaving g) = true
writes destroying = true
writes destroyed = true
writes creating = true
writes created = true
writes stored = true
writes marked = true
writes init_leaving = true
writes _ = false

-- Whether it holds the lock for reading.
abbrev pub reads : Phase → Bool
reads (reading c) = true
reads (in_call c) = true
reads cleared = true
reads read_done = true
reads _ = false

-- Whether the thread has been found registered, or registered, before.
abbrev pub is_known : Phase → Bool
is_known (leaving g) = true
is_known (ready g) = true
is_known (reading c) = true
is_known (in_call c) = true
is_known cleared = true
is_known read_done = true
is_known released = true
is_known destroying = true
is_known _ = false

abbrev pub is_registering : Phase → Bool
is_registering (registering g) = true
is_registering _ = false

abbrev pub is_registered : Phase → Bool
is_registered (registered g) = true
is_registered _ = false

abbrev for_destroy : Goal → Bool
for_destroy (call c) = false
for_destroy destroy = true

-- Whether the thread is to destroy the application.
abbrev pub will_destroy : Phase → Bool
will_destroy (entered g) = for_destroy g
will_destroy (missed g) = for_destroy g
will_destroy (checking g) = for_destroy g
will_destroy (registering g) = for_destroy g
will_destroy (registered g) = for_destroy g
will_destroy (leaving g) = for_destroy g
will_destroy (ready g) = for_destroy g
will_destroy destroying = true
will_destroy _ = false

abbrev pub in_init : Phase → Bool
in_init init_entered = true
in_init creating = true
in_init created = true
in_init stored = true
in_init marked = true
in_init init_leaving = true
in_init init_returning = true
in_init _ = false

-- Whether the thread initialises and has not set `appCreated` yet.
abbrev pub is_young : Phase → Bool
is_young init_entered = true
is_young creating = true
is_young created = true
is_young stored = true
is_young _ = false

-- What holds before the application is created: nobody has begun to destroy it.
abbrev pub Untouched : Shared → Type 0
Untouched s = (s.app_created ≡ false) × (s.destroyer ≡ none) × (s.destroys ≡ 0)

-- Whether the thread has seen `appLive` under the lock that it still holds.
abbrev pub saw_live : Phase → Bool
saw_live cleared = true
saw_live (in_call looping) = true
saw_live _ = false

-- What a thread in the phase `p` knows.
pub record Fits (s : Shared) (i : ℕ) (p : Phase) : Type 0 where
  pub holds : is_thread i s.writer ≡ writes p
  pub shares : count i s.readers ≡ (if reads p then 1 else 0)
  pub known : is_known p ≡ true → load i s.registry ≡ true
  pub unknown : is_registering p ≡ true → load i s.registry ≡ false
  pub calls : count i s.register_calls ≤ (if load i s.registry || is_registered p then 1 else 0)
  pub destroyer : will_destroy p ≡ true → (s.destroyer ≡ some i) × (s.destroys ≡ 0)
  pub initialiser : in_init p ≡ true → s.app_once ≡ running i
  pub lives : saw_live p ≡ true → s.ended_early ≡ false → s.destroys ≡ 0
  pub young : is_young p ≡ true → Untouched s

-- What the shared state keeps to.
pub record IsOrdered (s : Shared) : Type 0 where
  pub alone : (j : ℕ) → s.writer ≡ some j → s.readers ≡ []
  pub unstarted : s.app_once ≡ fresh → Untouched s
  pub over :
      s.ending ≡ true → s.ended_early ≡ false → (s.app_live ≡ false) × (s.app_once ≡ finished)
  pub at_end : (j : ℕ) → s.destroyer ≡ some j → s.ending ≡ true
  pub whole : s.app_created ≡ true → (s.destroyer ≡ none) × (s.destroys ≡ 0)
  pub gone : 1 ≤ s.destroys → s.ending ≡ true
  pub at_most : s.destroys ≤ 1

-- One step of a thread keeps the shared state in order.
