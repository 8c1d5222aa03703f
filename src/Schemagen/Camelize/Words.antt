-- ===== src/Schemagen/Camelize/Words.antt =====
-- Names made of words, as CQL spells them.
use cqlx.Common.{
  ℕ, Bytes, List, [], ◌∷◌, ◌++◌, Bool, true, false, ◌||◌, some, ◌≡◌, refl, arith, All,
}
use cqlx.Schemagen.Camelize.{allowed_bind_rune, raises, is_lower, to_upper, camelize_from, camelize}

pub record Word : Type 0 where
  pub first : ℕ
  pub rest : Bytes

-- A small letter, and letters and digits behind it.
abbrev pub IsWord : Word → Type 0
IsWord w = (is_lower w.first ≡ true) × All (λ b. allowed_bind_rune b ≡ true) w.rest

-- The words with `_` between them.
unfoldable pub snake : List Word → Bytes
snake [] = []
snake (w ∷ []) = w.first ∷ w.rest
snake (w ∷ v ∷ ws) = w.first ∷ (w.rest ++ b'_' ∷ snake (v ∷ ws))

-- The words, each with its first letter as a capital.
unfoldable pub camel : List Word → Bytes
camel [] = []
camel (w ∷ ws) = to_upper w.first ∷ (w.rest ++ camel ws)

camelize_first :
    (first seen : Bool) (c : ℕ) (t : Bytes) {out : Bytes}
    → (first || seen) ≡ true
    → is_lower c ≡ true
    → camelize_from false false t ≡ some out
    → camelize_from first seen (c ∷ t) ≡ some (to_upper c ∷ out)
unfolding camelize_from raises allowed_bind_rune
camelize_first first seen c t f l h = ground arith

camelize_letter :
    (c : ℕ) (t : Bytes) {out : Bytes}
    → allowed_bind_rune c ≡ true
    → camelize_from false false t ≡ some out
    → camelize_from false false (c ∷ t) ≡ some (c ∷ out)
unfolding camelize_from raises allowed_bind_rune
camelize_letter c t l h = ground arith

camelize_letters :
    (r t : Bytes) {out : Bytes}
    → All (λ b. allowed_bind_rune b ≡ true) r
    → camelize_from false false t ≡ some out
    → camelize_from false false (r ++ t) ≡ some (r ++ out)
camelize_letters [] t h k = k
camelize_letters (c ∷ r) t (l, h) k = camelize_letter c (r ++ t) l (camelize_letters r t h k)

camelize_rest :
    (r : Bytes)
    → All (λ b. allowed_bind_rune b ≡ true) r
    → camelize_from false false r ≡ some (r ++ [])
camelize_rest [] h = unfold camelize_from in refl
camelize_rest (c ∷ r) (l, h) = camelize_letter c r l (camelize_rest r h)

camelize_underscore :
    (t : Bytes) {out : Bytes}
    → camelize_from false true t ≡ some out
    → camelize_from false false (b'_' ∷ t) ≡ some out
unfolding camelize_from
camelize_underscore t h = h

camelize-snake_from :
    (first seen : Bool) (w : Word) (ws : List Word)
    → (first || seen) ≡ true
    → All IsWord (w ∷ ws)
    → camelize_from first seen (snake (w ∷ ws)) ≡ some (camel (w ∷ ws))
unfolding snake camel
camelize-snake_from first seen w [] f ((l, r), _) =
    camelize_first first seen w.first w.rest f l (camelize_rest w.rest r)
camelize-snake_from first seen w (v ∷ ws) f ((l, r), h) = camelize_first first seen w.first _ f l (
    camelize_letters w.rest _ r
      (camelize_underscore _ (camelize-snake_from false true v ws refl h)))

-- A name of words joined by `_`, each a small letter with letters and digits behind it, becomes
-- the words with their first letters as capitals.
pub camelize-snake :
    (w : Word) (ws : List Word)
    → All IsWord (w ∷ ws)
    → camelize (snake (w ∷ ws)) ≡ some (camel (w ∷ ws))
unfolding camelize
camelize-snake w ws h = camelize-snake_from true false w ws refl h
