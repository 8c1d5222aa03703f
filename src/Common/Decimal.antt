-- ===== src/Common/Decimal.antt =====
-- `strconv.Itoa`, `strconv.FormatUint(_, 10)` and the verb `%d`: decimal digits.
use Prim.Native.Nat.{ℕ, zero, suc, ◌+◌, ◌/◌, ◌%◌, ◌<◌, ◌≤◌}
use cqlx.Common.Int.{ℤ, pos, negsuc}
use cqlx.Common.Lists.{Bytes, All, codes}
use cqlx.Common.Tests.{◌==◌, if◌then◌else◌}
use mathlib.Core.Bool.{true, false}
use mathlib.Core.List.{[], ◌∷◌}
use mathlib.Core.Logic.{dite}
use mathlib.Core.Path.{◌≡◌, refl}
use mathlib.Core.WellFounded.{Acc, WellFounded}
use native.Mathlib.Decide.{dec_lt}
use native.Mathlib.Omega.{arith}

below-Acc : (k n : ℕ) → n < k → Acc ◌<◌ n
below-Acc zero n h = absurd (omega arith)
below-Acc (suc k) n h = Acc.intro n λ m lt. below-Acc k m (omega arith)

lt_wf : WellFounded ◌<◌
unfolding below-Acc
lt_wf = record { apply = λ n. below-Acc (suc n) n (omega arith) }

tenth_lt : {n : ℕ} → 0 < n → n / 10 < n
tenth_lt h = omega arith

-- The digits of a positive number, in front of those already written.
digits : (n : ℕ) → Acc ◌<◌ n → Bytes → Bytes
digits n (Acc.intro _ smaller) out =
    dite (dec_lt 0 n) (λ h. digits (n / 10) (smaller (n / 10) (tenth_lt h)) ((b'0' + n % 10) ∷ out))
      (λ _. out)

unfoldable pub format_uint : ℕ → Bytes
unfolding digits lt_wf dec_lt tenth_lt
format_uint n = if n == 0 then b'0' ∷ [] else digits n (lt_wf.apply n) []

unfoldable pub itoa : ℤ → Bytes
unfolding format_uint
itoa (pos n) = format_uint n
itoa (negsuc n) = b'-' ∷ format_uint (suc n)

abbrev pub IsDigit : ℕ → Type 0
IsDigit c = (b'0' ≤ c) × (c ≤ b'9')

digits-IsDigit :
    (n : ℕ) (w : Acc ◌<◌ n) (out : Bytes) → All IsDigit out → All IsDigit (digits n w out)
unfolding digits
digits-IsDigit n (Acc.intro _ smaller) out h =
    elim (dec_lt 0 n)
      as (λ d. All IsDigit (
        dite d (λ p. digits (n / 10) (smaller (n / 10) (tenth_lt p)) ((b'0' + n % 10) ∷ out))
          (λ _. out))) [
            | yes p ↦
                digits-IsDigit (n / 10) (smaller (n / 10) (tenth_lt p)) _
                  ((omega arith, omega arith), h)
            | no p ↦ h
          ]

-- A printed number consists of digits.
pub format_uint-IsDigit : (n : ℕ) → All IsDigit (format_uint n)
unfolding format_uint
format_uint-IsDigit n =
    elim (n == 0) as (λ b. All IsDigit (if b then b'0' ∷ [] else digits n (lt_wf.apply n) [])) [
      | true ↦ omega arith
      | false ↦ digits-IsDigit n (lt_wf.apply n) [] tt
    ]

itoa_12 : itoa (pos 1200) ≡ codes "1200"
unfolding itoa
itoa_12 = refl
