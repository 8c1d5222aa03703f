-- ===== src/Common/Strings.antt =====
-- Functions of the Go package `strings` over bytes, and `==` of strings.
use Prim.Native.Nat.{ℕ, zero, suc}
use cqlx.Common.Lists.{Bytes}
use cqlx.Common.Tests.{◌==◌, leb, if◌then◌else◌}
use mathlib.Core.Bool.{Bool, true, false, ◌&&◌, ◌||◌}
use mathlib.Core.List.{List, [], ◌∷◌}
use mathlib.Core.Logic.{◌↔◌}
use mathlib.Core.Path.{◌≡◌}
use native.Mathlib.Omega.{arith}

unfoldable pub equal : Bytes → Bytes → Bool
equal [] [] = true
equal (x ∷ xs) (y ∷ ys) = x == y && equal xs ys
equal _ _ = false

pub equal-eq : (s t : Bytes) → (equal s t ≡ true) ↔ (s ≡ t)
unfolding equal
equal-eq [] t = ground arith
equal-eq (c ∷ s) [] = ground arith
equal-eq (c ∷ s) (d ∷ t) = ground (arith, equal-eq s t)

module _ {ℓ} {A : Type ℓ} where
  abbrev pub drop : ℕ → List A → List A
  drop zero xs = xs
  drop (suc n) [] = []
  drop (suc n) (x ∷ xs) = drop n xs

-- `strings.HasPrefix(s, prefix)`.
unfoldable pub has_prefix : Bytes → Bytes → Bool
has_prefix s [] = true
has_prefix [] (p ∷ ps) = false
has_prefix (c ∷ s) (p ∷ ps) = c == p && has_prefix s ps

-- `strings.HasSuffix(s, suffix)` for a suffix of one byte.
unfoldable pub ends_with : Bytes → ℕ → Bool
ends_with [] b = false
ends_with (c ∷ []) b = c == b
ends_with (c ∷ d ∷ s) b = ends_with (d ∷ s) b

-- White space, of a text that is ASCII.
unfoldable pub is_space : ℕ → Bool
is_space c = c == b' ' || (leb 9 c && leb c 13)

unfoldable pub trim_left : Bytes → Bytes
unfolding is_space
trim_left [] = []
trim_left (c ∷ s) = if is_space c then trim_left s else c ∷ s

-- A byte in front of a text that is trimmed at its end.
unfoldable pub trim_onto : ℕ → Bytes → Bytes
unfolding is_space
trim_onto c [] = if is_space c then [] else c ∷ []
trim_onto c (d ∷ r) = c ∷ d ∷ r

unfoldable pub trim_right : Bytes → Bytes
unfolding trim_onto
trim_right [] = []
trim_right (c ∷ s) = trim_onto c (trim_right s)

-- `strings.TrimSpace`, of a text that is ASCII.
unfoldable pub trim_space : Bytes → Bytes
unfolding trim_left trim_right
trim_space s = trim_right (trim_left s)
