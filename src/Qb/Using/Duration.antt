-- ===== src/Qb/Using/Duration.antt =====
-- `formatDuration`: minutes, seconds and milliseconds.
use cqlx.Common.Decimal.{itoa}
use cqlx.Common.Int.{ℤ, rem, IsNonPositive, quot-IsNonPositive, rem-IsNonPositive, pos, negsuc}
use cqlx.Common.{
  List, ◌∷◌, append-nil, ap, sym, ◌∙◌, ℕ, ◌+◌, ◌*◌, ◌/◌, ◌%◌, ◌<◌, Bytes, [], ◌++◌, codes, ◌≡◌,
  refl, arith, join, zero, suc,
}
use cqlx.Qb.Using.{duration_part, format_duration}

-- A number that is not zero, in decimal, with its unit.
amount : ℕ → Bytes → Bytes
amount zero unit = []
amount (suc n) unit = itoa (pos (suc n)) ++ unit

-- A duration of `m` minutes, `s` seconds and `ms` milliseconds, with those that are not zero.
pub duration_text : ℕ → ℕ → ℕ → Bytes
duration_text m s ms = amount m (codes "m") ++ (amount s (codes "s") ++ amount ms (codes "ms"))

join-duration_part :
    (n : ℕ) (unit : Bytes) (rest : List Bytes)
    → join [] (duration_part (pos n) unit ++ rest) ≡ amount n unit ++ join [] rest
unfolding duration_part amount join
join-duration_part zero unit rest = refl
join-duration_part (suc n) unit [] = sym (append-nil _)
join-duration_part (suc n) unit (r ∷ rest) = refl

join-last : (n : ℕ) (unit : Bytes) → join [] (duration_part (pos n) unit) ≡ amount n unit
unfolding duration_part amount join
join-last zero unit = refl
join-last (suc n) unit = refl

join-durations :
    (m s ms : ℕ)
    → join [] (
        duration_part (pos m) (codes "m")
        ++ (duration_part (pos s) (codes "s") ++ duration_part (pos ms) (codes "ms")))
      ≡ duration_text m s ms
unfolding duration_text
join-durations m s ms =
    join-duration_part m (codes "m") _
    ∙ ap (λ r. amount m (codes "m") ++ r)
        (join-duration_part s (codes "s") _
          ∙ ap (λ r. amount s (codes "s") ++ r) (join-last ms (codes "ms")))

-- A duration of `n` nanoseconds, where 0 ≤ n, is written as its minutes, its seconds below 60 and
-- its milliseconds below 1000, each with its unit and left out where it is zero. They add up to
-- the whole milliseconds of `n`: what is below a millisecond is cut, and not rounded.
pub format_duration-text :
    (n : ℕ)
    → (m : ℕ) × (s : ℕ) × (ms : ℕ) × (format_duration (pos n) ≡ duration_text m s ms)
      × (s < 60)
      × (ms < 1000)
      × (m * 60000 + s * 1000 + ms ≡ n / 1_000_000)
unfolding format_duration
format_duration-text n = (
  n / 60_000_000_000,
  n % 60_000_000_000 / 1_000_000_000,
  n % 60_000_000_000 % 1_000_000_000 / 1_000_000,
  join-durations _ _ _,
  omega arith,
  omega arith,
  omega arith,
)

-- The duration is cut to the millisecond, not rounded: the nanoseconds below do not show.
pub format_duration-truncates :
    (n : ℕ) → format_duration (pos n) ≡ format_duration (pos (n / 1_000_000 * 1_000_000))
unfolding format_duration
format_duration-truncates n =
    let k = n / 1_000_000 * 1_000_000 in
    let minutes : k / 60_000_000_000 ≡ n / 60_000_000_000 = omega arith in
    let seconds : k % 60_000_000_000 / 1_000_000_000 ≡ n % 60_000_000_000 / 1_000_000_000 =
      omega arith in
    let milliseconds : k % 60_000_000_000 % 1_000_000_000 / 1_000_000
        ≡ n % 60_000_000_000 % 1_000_000_000 / 1_000_000 =
      omega arith in
    rw (minutes, seconds, milliseconds)

duration_part-empty : (z : ℤ) (suffix : Bytes) → IsNonPositive z → duration_part z suffix ≡ []
unfolding duration_part
duration_part-empty (pos zero) suffix h = refl
duration_part-empty (pos (suc n)) suffix h = absurd h
duration_part-empty (negsuc n) suffix h = refl

format_duration-IsNonPositive : (d : ℤ) → IsNonPositive d → format_duration d ≡ []
unfolding format_duration join
format_duration-IsNonPositive d h =
    let d' = rem d 60_000_000_000 in
    let h' : IsNonPositive d' = rem-IsNonPositive d 60_000_000_000 h in
    let h'' : IsNonPositive (rem d' 1_000_000_000) = rem-IsNonPositive d' 1_000_000_000 h' in
    rw (
      duration_part-empty _ (codes "m") (quot-IsNonPositive d 60_000_000_000 h),
      duration_part-empty _ (codes "s") (quot-IsNonPositive d' 1_000_000_000 h'),
      duration_part-empty _ (codes "ms") (quot-IsNonPositive _ 1_000_000 h''),
    )

-- Below one millisecond, negative durations among them.
abbrev pub IsBelowMillisecond : ℤ → Type 0
IsBelowMillisecond (pos n) = n < 1_000_000
IsBelowMillisecond (negsuc n) = Unit

-- A negative duration, and one below a millisecond, is written as no text at all.
pub format_duration-empty : (d : ℤ) → IsBelowMillisecond d → format_duration d ≡ []
format_duration-empty (pos n) h =
    let zero_left : n / 1_000_000 * 1_000_000 ≡ 0 = omega arith in
    rw (format_duration-truncates n, zero_left) (format_duration-IsNonPositive (pos 0) tt)
format_duration-empty (negsuc n) h = format_duration-IsNonPositive (negsuc n) tt
