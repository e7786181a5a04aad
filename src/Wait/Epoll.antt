-- ===== src/Wait/Epoll.antt =====
-- The VLS epoll handle, seen through the calls made on it. Whether a call succeeds is up to VPP: it
-- is asked of `Epoll`, which may answer by all that was called before.
use vclnet.Base.{ℕ, ℤ, List, [], ◌∷◌, Bool, true, false, Option, none, some, int_eq}
use vclnet.Base.{if◌then◌else◌}

-- One call with its outcome: `vls_epoll_ctl` with ADD, MOD or DEL. The result of a DEL is ignored.
pub data Call : Type 0 where
  add mod_ : ℤ → ℕ → Bool → Call
  del : ℤ → Call

-- The answers of VPP.
pub record Epoll : Type 0 where
  pub add_ok : List Call → ℤ → ℕ → Bool
  pub mod_ok : List Call → ℤ → ℕ → Bool

-- What the calls, the last one first, leave registered for a session: the documented meaning of
-- epoll control calls.
unfoldable pub interest : ℤ → List Call → Option ℕ
interest h [] = none
interest h (add j m true ∷ cs) = if int_eq.beq h j then some m else interest h cs
interest h (add j m false ∷ cs) = interest h cs
interest h (mod_ j m true ∷ cs) = if int_eq.beq h j then some m else interest h cs
interest h (mod_ j m false ∷ cs) = interest h cs
interest h (del j ∷ cs) = if int_eq.beq h j then none else interest h cs
