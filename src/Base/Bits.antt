-- ===== src/Base/Bits.antt =====
-- Laws of `bit_or` at variables.
use Prim.Native.Nat.{
  ℕ, zero, suc, ◌+◌, ◌*◌, ◌/◌, ◌%◌, ◌≤◌, ◌<◌, max, digits, bit_or, bit_or-bitwise,
}
use mathlib.Core.Path.{◌≡◌, ◌∙◌}
use native.Mathlib.Omega.{arith}

pub zero-bit_or : (b : ℕ) → bit_or 0 b ≡ b
zero-bit_or b = bit_or-bitwise 0 b

-- `x << k` without a bound.
abbrev pub shift_left : ℕ → ℕ → ℕ
shift_left x zero = x
shift_left x (suc k) = shift_left x k * 2

half : (m : ℕ) → m * 2 / 2 ≡ m
half m = omega arith

rest_of_double : (m : ℕ) → m * 2 % 2 ≡ 0
rest_of_double m = omega arith

max-zero : (m : ℕ) → max m 0 ≡ m
max-zero m = omega arith

digits-disjoint :
    (k n a c : ℕ)
    → a ≤ n
    → a < shift_left 1 k
    → digits (λ b. b) max n a (shift_left c k) ≡ a + shift_left c k
digits-disjoint zero zero zero c h l = omega arith
digits-disjoint zero (suc n) zero c h l = omega arith
digits-disjoint zero n (suc a) c h l = absurd (omega arith)
digits-disjoint (suc k) zero zero c h l = omega arith
digits-disjoint (suc k) (suc n) zero c h l = omega arith
digits-disjoint (suc k) zero (suc a) c h l = absurd (omega arith)
digits-disjoint (suc k) (suc n) (suc a) c h l =
    rw
      (
        half (shift_left c k),
        rest_of_double (shift_left c k),
        digits-disjoint k n (suc a / 2) c (omega arith) (omega arith),
      )
      (omega (arith, max-zero (suc a % 2)))

-- `a | c << k` of an `a` below `1 << k` is the sum.
pub bit_or-shift_left :
    (k a c : ℕ) → a < shift_left 1 k → bit_or a (shift_left c k) ≡ a + shift_left c k
bit_or-shift_left k a c l =
    bit_or-bitwise a (shift_left c k) ∙ digits-disjoint k a a c (omega arith) l
