-- ===== src/Schemagen/References/Frozen.antt =====
-- The loop that takes the wrappers `frozen<…>` off a validator.
use cqlx.Common.{
  ℕ, zero, suc, ◌+◌, ◌≤◌, ◌<◌, Bytes, [], ◌∷◌, ◌++◌, true, false, ◌≡◌, refl, arith, length,
  Bool-cases, inl, inr, length-append, ap,
}
use cqlx.Common.Strings.{
  has_prefix, ends_with, is_space, trim_onto, trim_left, trim_right, trim_space, drop,
}
use cqlx.Schemagen.References.{drop_last, frozen, is_frozen, inner, strip_frozen, validator_name}

length-trim_left : (s : Bytes) → length (trim_left s) ≤ length s
unfolding trim_left
length-trim_left [] = omega arith
length-trim_left (c ∷ s) = ground (arith, length-trim_left s)

length-trim_onto : (c : ℕ) (s : Bytes) → length (trim_onto c s) ≤ length s + 1
unfolding trim_onto
length-trim_onto c [] = ground arith
length-trim_onto c (d ∷ s) = omega arith

length-trim_right : (s : Bytes) → length (trim_right s) ≤ length s
unfolding trim_right
length-trim_right [] = omega arith
length-trim_right (c ∷ s) = omega (arith, length-trim_onto c (trim_right s), length-trim_right s)

length-trim_space : (s : Bytes) → length (trim_space s) ≤ length s
unfolding trim_space
length-trim_space s = omega (arith, length-trim_right (trim_left s), length-trim_left s)

length-drop_last : (s : Bytes) → length (drop_last s) ≤ length s
unfolding drop_last
length-drop_last [] = omega arith
length-drop_last (c ∷ []) = omega arith
length-drop_last (c ∷ d ∷ s) = omega (arith, length-drop_last (d ∷ s))

length-drop : (n : ℕ) (s : Bytes) → length (drop n s) ≤ length s
length-drop zero s = omega arith
length-drop (suc n) [] = omega arith
length-drop (suc n) (c ∷ s) = omega (arith, length-drop n s)

-- A round that is taken makes the name shorter.
length-inner : (s : Bytes) → is_frozen s ≡ true → length (trim_space (inner s)) < length s
unfolding is_frozen inner
length-inner [] h = unfold has_prefix in cc h
length-inner (c ∷ s) h =
    omega (
      arith,
      length-trim_space (drop_last (drop 6 s)),
      length-drop_last (drop 6 s),
      length-drop 6 s,
    )

strip_frozen_ends :
    (fuel : ℕ) (s : Bytes) → length s ≤ fuel → is_frozen (strip_frozen fuel s) ≡ false
unfolding strip_frozen
strip_frozen_ends zero [] h = unfold is_frozen has_prefix in refl
strip_frozen_ends zero (c ∷ s) h = absurd (omega arith)
strip_frozen_ends (suc fuel) s h = elim (Bool-cases (is_frozen s)) [
  | inl more ↦
      let shorter = length-inner s more in
      rw more (strip_frozen_ends fuel (trim_space (inner s)) (omega arith))
  | inr done ↦ rw done done
]

-- The fuel of the loop that strips `frozen<…>` is enough: the loop ends by its test, at a name
-- that is wrapped no more.
pub is_frozen-validator_name : (printed : Bytes) → is_frozen (validator_name printed) ≡ false
unfolding validator_name
is_frozen-validator_name printed =
    strip_frozen_ends (length (trim_space printed)) (trim_space printed) (omega arith)

-- The name inside `n` wrappers.
unfoldable pub wrapped : ℕ → Bytes → Bytes
wrapped zero name = name
wrapped (suc n) name = frozen ++ (wrapped n name ++ b'>' ∷ [])

drop_last-concat : (s : Bytes) (c : ℕ) → drop_last (s ++ c ∷ []) ≡ s
unfolding drop_last
drop_last-concat [] c = refl
drop_last-concat (b ∷ []) c = refl
drop_last-concat (b ∷ d ∷ s) c = ap (◌∷◌ b) (drop_last-concat (d ∷ s) c)

ends_with-concat : (s : Bytes) (c : ℕ) → ends_with (s ++ c ∷ []) c ≡ true
unfolding ends_with
ends_with-concat [] c = ground arith
ends_with-concat (b ∷ []) c = ground arith
ends_with-concat (b ∷ d ∷ s) c = ends_with-concat (d ∷ s) c

trim_onto-concat : (c : ℕ) (s : Bytes) (d : ℕ) → trim_onto c (s ++ d ∷ []) ≡ c ∷ (s ++ d ∷ [])
unfolding trim_onto
trim_onto-concat c [] d = refl
trim_onto-concat c (b ∷ s) d = refl

trim_right-concat :
    (s : Bytes) (c : ℕ) → is_space c ≡ false → trim_right (s ++ c ∷ []) ≡ s ++ c ∷ []
unfolding trim_right
trim_right-concat [] c h = unfold trim_onto in rw h
trim_right-concat (b ∷ s) c h = rw (trim_right-concat s c h) (trim_onto-concat b s c)

module _ (name : Bytes) (trimmed : trim_space name ≡ name) where
  trim_space-wrapped : (n : ℕ) → trim_space (wrapped n name) ≡ wrapped n name
  unfolding wrapped
  trim_space-wrapped zero = trimmed
  trim_space-wrapped (suc n) =
      unfold trim_space trim_left is_space in
      trim_right-concat (frozen ++ wrapped n name) b'>' (unfold is_space in refl)

  inner-wrapped : (n : ℕ) → inner (wrapped (suc n) name) ≡ wrapped n name
  unfolding wrapped inner
  inner-wrapped n = drop_last-concat (wrapped n name) b'>'

  is_frozen-wrapped : (n : ℕ) → is_frozen (wrapped (suc n) name) ≡ true
  unfolding wrapped is_frozen has_prefix
  is_frozen-wrapped n = ends_with-concat (frozen ++ wrapped n name) b'>'

  strip_frozen-wrapped :
      (n fuel : ℕ) → is_frozen name ≡ false → n ≤ fuel → strip_frozen fuel (wrapped n name) ≡ name
  unfolding strip_frozen
  strip_frozen-wrapped zero zero bare h = unfold wrapped in refl
  strip_frozen-wrapped zero (suc fuel) bare h = unfold wrapped in rw bare
  strip_frozen-wrapped (suc n) zero bare h = absurd (omega arith)
  strip_frozen-wrapped (suc n) (suc fuel) bare h =
      rw (is_frozen-wrapped n, inner-wrapped n, trim_space-wrapped n)
        (strip_frozen-wrapped n fuel bare (omega arith))

le-length-wrapped : (n : ℕ) (name : Bytes) → n ≤ length (wrapped n name)
unfolding wrapped
le-length-wrapped zero name = omega arith
le-length-wrapped (suc n) name =
    omega (arith, le-length-wrapped n name, length-append (wrapped n name) (b'>' ∷ []))

-- A name with no space at its ends, and not itself wrapped, comes out of any number of wrappers.
pub validator_name-wrapped :
    (n : ℕ) (name : Bytes)
    → trim_space name ≡ name
    → is_frozen name ≡ false
    → validator_name (wrapped n name) ≡ name
unfolding validator_name
validator_name-wrapped n name trimmed bare =
    rw (trim_space-wrapped name trimmed n)
      (strip_frozen-wrapped name trimmed n _ bare (le-length-wrapped n name))
