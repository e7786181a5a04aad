-- ===== src/Base/Int.antt =====
-- Signed integers over the native numbers: what a VLSH is.
use Prim.Native.Nat.{ℕ}
use mathlib.Core.Path.{◌≡◌, sym, ◌∙◌}
use mathlib.Core.Logic.{◌↔◌, ◌⊎◌, inl, inr, ◌≢◌}
use mathlib.Core.Bool.{Bool, true, false, false≢true}
use native.Mathlib.Omega.{arith}
use vclnet.Base.Tests.{◌==◌, Eq, Bool-cases}

-- `negsuc n` is -(n + 1).
pub data ℤ : Type 0 where
  pos : ℕ → ℤ
  negsuc : ℕ → ℤ

abbrev int_beq : ℤ → ℤ → Bool
int_beq (pos a) (pos b) = a == b
int_beq (pos a) (negsuc b) = false
int_beq (negsuc a) (pos b) = false
int_beq (negsuc a) (negsuc b) = a == b

pub int_beq_iff : (a b : ℤ) → (int_beq a b ≡ true) ↔ (a ≡ b)
int_beq_iff a b = ground arith

instance abbrev pub int_eq : Eq ℤ
int_eq = record { beq = int_beq; beq_iff = int_beq_iff }

-- `^x` of Go on a signed integer: -x - 1.
abbrev pub complement : ℤ → ℤ
complement (pos n) = negsuc n
complement (negsuc n) = pos n

pub int_cases : (a b : ℤ) → (a ≡ b) ⊎ (a ≢ b)
int_cases a b = elim (Bool-cases (int_beq a b)) [
  | inl e ↦ inl ((int_beq_iff a b).0 e)
  | inr e ↦ inr (λ h. false≢true (sym e ∙ (int_beq_iff a b).1 h))
]
