-- ===== src/Common/Int.antt =====
-- Signed integers. A Go `int`, `int64` or `time.Duration` is the integer that it stands for.
use Prim.Native.Nat.{ℕ, zero, suc, ◌/◌, ◌%◌}
use mathlib.Core.Path.{◌≡◌}
use native.Mathlib.Omega.{arith}
use mathlib.Core.Bool.{Bool, true, false}

-- `negsuc n` is -(n + 1).
pub data ℤ : Type 0 where
  pos : ℕ → ℤ
  negsuc : ℕ → ℤ

-- The integer -n.
abbrev pub neg : ℕ → ℤ
neg zero = pos 0
neg (suc n) = negsuc n

-- `z - 1`.
abbrev pub pred : ℤ → ℤ
pred (pos zero) = negsuc 0
pred (pos (suc n)) = pos n
pred (negsuc n) = negsuc (suc n)

-- The number of rounds of `for range z`: none if `z` is negative.
abbrev pub rounds : ℤ → ℕ
rounds (pos n) = n
rounds (negsuc n) = 0

-- `z == 0`.
abbrev pub is_zero : ℤ → Bool
is_zero (pos zero) = true
is_zero (pos (suc n)) = false
is_zero (negsuc n) = false

-- `z == -1`.
abbrev pub is_minus_one : ℤ → Bool
is_minus_one (pos n) = false
is_minus_one (negsuc zero) = true
is_minus_one (negsuc (suc n)) = false

-- `z > 0`.
abbrev pub is_positive : ℤ → Bool
is_positive (pos zero) = false
is_positive (pos (suc n)) = true
is_positive (negsuc n) = false

-- Go's `z / d`, which rounds towards zero, for a positive constant `d`.
abbrev pub quot : ℤ → ℕ → ℤ
quot (pos n) d = pos (n / d)
quot (negsuc n) d = neg (suc n / d)

-- Go's `z % d`, which has the sign of `z`.
abbrev pub rem : ℤ → ℕ → ℤ
rem (pos n) d = pos (n % d)
rem (negsuc n) d = neg (suc n % d)

abbrev pub IsNonPositive : ℤ → Type 0
IsNonPositive (pos zero) = Unit
IsNonPositive (pos (suc n)) = ⊥
IsNonPositive (negsuc n) = Unit

neg-IsNonPositive : (n : ℕ) → IsNonPositive (neg n)
neg-IsNonPositive zero = tt
neg-IsNonPositive (suc n) = tt

pub quot-IsNonPositive : (z : ℤ) (d : ℕ) → IsNonPositive z → IsNonPositive (quot z d)
quot-IsNonPositive (pos zero) d h = let e : 0 / d ≡ 0 = grind arith in rw e tt
quot-IsNonPositive (pos (suc n)) d h = absurd h
quot-IsNonPositive (negsuc n) d h = neg-IsNonPositive (suc n / d)

pub rem-IsNonPositive : (z : ℤ) (d : ℕ) → IsNonPositive z → IsNonPositive (rem z d)
rem-IsNonPositive (pos zero) d h = let e : 0 % d ≡ 0 = grind arith in rw e tt
rem-IsNonPositive (pos (suc n)) d h = absurd h
rem-IsNonPositive (negsuc n) d h = neg-IsNonPositive (suc n % d)
