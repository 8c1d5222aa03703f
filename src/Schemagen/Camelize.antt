-- ===== src/Schemagen/Camelize.antt =====
-- cmd/schemagen/camelize.go: a column or table name as a Go identifier.
pub mod Letters
pub mod Words
use cqlx.Common.{
  ℕ, ◌+◌, ◌-◌, Bytes, [], ◌∷◌, Bool, true, false, not, ◌&&◌, ◌||◌, ◌==◌, leb, if◌then◌else◌, Option,
  none, some,
}
use mathlib.Core.Option

unfoldable pub allowed_bind_rune : ℕ → Bool
allowed_bind_rune b =
    (leb b'a' b && leb b b'z') || ((leb b'A' b && leb b b'Z') || (leb b'0' b && leb b b'9'))

-- `unicode.IsLower` and `unicode.ToUpper` of a byte that is ASCII.
abbrev pub is_lower : ℕ → Bool
is_lower b = leb b'a' b && leb b b'z'

abbrev pub to_upper : ℕ → ℕ
to_upper b = b - 32

-- The test `(i == 0 || underscoreSeen) && unicode.IsLower(b)`.
unfoldable pub raises : Bool → Bool → ℕ → Bool
raises first underscore_seen b = (first || underscore_seen) && is_lower b

-- The loop from index `i` on: the first flag is `i == 0`, the second `underscoreSeen`. The result
-- has the bytes that are appended to `out`, and is `none` where the loop panics.
unfoldable pub camelize_from : Bool → Bool → Bytes → Option Bytes
unfolding allowed_bind_rune raises
camelize_from first underscore_seen [] = some []
camelize_from first underscore_seen (b ∷ rest) =
    let raise = raises first underscore_seen b in
    let skipped = camelize_from false true rest in
    let appended =
      Option.map (λ out. (if raise then to_upper b else b) ∷ out)
        (camelize_from false (if raise then false else underscore_seen) rest) in
    if not (allowed_bind_rune b) && not (b == b'_')
    then none
    else if b == b'_'
    then skipped
    else appended

unfoldable pub camelize : Bytes → Option Bytes
unfolding camelize_from
camelize s = camelize_from true false s
