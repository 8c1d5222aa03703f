-- ===== src/Schemagen/Camelize/Letters.antt =====
-- What `camelize` keeps of a name.
use cqlx.Common.{
  ℕ, ◌+◌, Bytes, [], ◌∷◌, Bool, true, false, ◌&&◌, ◌||◌, ◌==◌, leb, if◌then◌else◌, Option, none,
  some, ◌≡◌, refl, arith, All, map, ap₂, Bool-cases, inl, inr,
}
use mathlib.Core.Option
use cqlx.Schemagen.Camelize.{allowed_bind_rune, raises, to_upper, camelize_from, camelize}

-- Every byte is a letter, a digit or `_`.
unfoldable pub all_allowed : Bytes → Bool
unfolding allowed_bind_rune
all_allowed [] = true
all_allowed (b ∷ s) = (allowed_bind_rune b || b == b'_') && all_allowed s

-- Letters are compared without their case.
unfoldable pub to_lower : ℕ → ℕ
to_lower b = if leb b'A' b && leb b b'Z' then b + 32 else b

-- The bytes but `_`.
unfoldable pub without_underscores : Bytes → Bytes
without_underscores [] = []
without_underscores (b ∷ s) = if b == b'_' then without_underscores s else b ∷ without_underscores s

abbrev pub Keeps : Bytes → Option Bytes → Type 0
Keeps s none = all_allowed s ≡ false
Keeps s (some out) =
    (all_allowed s ≡ true)
    × (map to_lower out ≡ map to_lower (without_underscores s))
    × All (λ b. allowed_bind_rune b ≡ true) out

Keeps-stop :
    (b : ℕ) (s : Bytes) → allowed_bind_rune b ≡ false → (b == b'_') ≡ false → Keeps (b ∷ s) none
unfolding all_allowed
Keeps-stop b s h u = rw (h, u)

Keeps-skip :
    (b : ℕ) (s : Bytes) (o : Option Bytes) → (b == b'_') ≡ true → Keeps s o → Keeps (b ∷ s) o
unfolding all_allowed without_underscores allowed_bind_rune
Keeps-skip b s none u h = ground arith
Keeps-skip b s (some out) u h = ground arith

Keeps-letter :
    (b c : ℕ) (s : Bytes) (o : Option Bytes)
    → allowed_bind_rune b ≡ true
    → (b == b'_') ≡ false
    → to_lower c ≡ to_lower b
    → allowed_bind_rune c ≡ true
    → Keeps s o
    → Keeps (b ∷ s) (Option.map (λ out. c ∷ out) o)
unfolding all_allowed without_underscores
Keeps-letter b c s none a u l k h = rw a (h)
Keeps-letter b c s (some out) a u l k (h, same, ok) = rw (a, u) (h, ap₂ ◌∷◌ l same, (k, ok))

-- A small letter as its capital.
raised_lem :
    (first underscore_seen : Bool) (b : ℕ)
    → allowed_bind_rune b ≡ true
    → let c = if raises first underscore_seen b then to_upper b else b in
      (to_lower c ≡ to_lower b) × (allowed_bind_rune c ≡ true)
unfolding raises to_lower allowed_bind_rune
raised_lem first underscore_seen b h = ground arith

-- One round of the loop, if the rounds after it keep their letters.
Keeps-cons :
    (b : ℕ) (s : Bytes) (first underscore_seen : Bool)
    → Keeps s (camelize_from false true s)
    → Keeps s
        (camelize_from false (if raises first underscore_seen b then false else underscore_seen) s)
    → Keeps (b ∷ s) (camelize_from first underscore_seen (b ∷ s))
unfolding camelize_from
Keeps-cons b s first underscore_seen skipped appended = elim (Bool-cases (b == b'_')) [
  | inl mark ↦ elim (Bool-cases (allowed_bind_rune b)) [
    | inl letter ↦ rw (letter, mark) (Keeps-skip b s _ mark skipped)
    | inr bad ↦ rw (bad, mark) (Keeps-skip b s _ mark skipped)
  ]
  | inr other ↦ elim (Bool-cases (allowed_bind_rune b)) [
    | inl letter ↦
        let (same, ok) = raised_lem first underscore_seen b letter in
        rw (letter, other) (Keeps-letter b _ s _ letter other same ok appended)
    | inr bad ↦ rw (bad, other) (Keeps-stop b s bad other)
  ]
]

camelize_from-Keeps :
    (s : Bytes) (first underscore_seen : Bool) → Keeps s (camelize_from first underscore_seen s)
camelize_from-Keeps [] first underscore_seen =
    unfold camelize_from all_allowed without_underscores in (refl, refl, tt)
camelize_from-Keeps (b ∷ s) first underscore_seen =
    Keeps-cons b s first underscore_seen (camelize_from-Keeps s false true)
      (camelize_from-Keeps s false _)

-- `camelize` panics exactly on names with a byte that is no letter, digit or `_`. Of any other it
-- keeps the letters and digits in order, up to case, and nothing else.
pub camelize-Keeps : (s : Bytes) → Keeps s (camelize s)
unfolding camelize
camelize-Keeps s = camelize_from-Keeps s true false
