-- ===== src/Qb/Binding.antt =====
-- Positional binding, as CQL defines it: the i-th value goes to the i-th `?` of the statement. A
-- template without `?` in its texts is filled as it was meant, value by name.
use cqlx.Common.{
  Bytes, List, [], ◌∷◌, ◌++◌, Bool, true, false, Option, none, some, ◌≡◌, ◌≢◌, refl, ap, map, arith,
  All, All-append, ◌==◌,
}
use cqlx.Qb.Emit.{Stmt}
use cqlx.Qb.Template.{Piece, text, hole, Template, render, holes, mark, compile, only, join_each}
use mathlib.Core.Option

-- Bytes that hold no bind marker.
abbrev pub IsPlain : Bytes → Type 0
IsPlain = All (λ c. c ≢ mark)

abbrev pub PlainPiece : Piece → Type 0
PlainPiece (text s) = IsPlain s
PlainPiece (hole n) = Unit

-- Every `?` of the rendered template is a hole.
pub record WellMarked (t : Template) : Type 0 where
  pub texts : All PlainPiece t

pub WellMarked-nil : WellMarked []
WellMarked-nil = record { texts = tt }

infixr 5 ◌⊳◌ ◌⊕◌
-- A text and what follows it.
pub ◌⊳◌ : {s : Bytes} {t : Template} → IsPlain s → WellMarked t → WellMarked (text s ∷ t)
p ⊳ w = record { texts = (p, w.texts) }

-- A template and what follows it.
pub ◌⊕◌ : {t u : Template} → WellMarked t → WellMarked u → WellMarked (t ++ u)
◌⊕◌ {t} {u} v w = record { texts = All-append PlainPiece t u v.texts w.texts }

pub WellMarked-text : {s : Bytes} → IsPlain s → WellMarked (text s ∷ [])
WellMarked-text p = p ⊳ WellMarked-nil

pub WellMarked-hole : {n : Bytes} {t : Template} → WellMarked t → WellMarked (hole n ∷ t)
WellMarked-hole w = record { texts = (tt, w.texts) }

pub WellMarked-only : (b : Bool) {t : Template} → WellMarked t → WellMarked (only b t)
WellMarked-only true w = w
WellMarked-only false w = WellMarked-nil

module _ {ℓ κ} {A : Type ℓ} (P : A → Type κ) {sep : Template} {f : A → Template} where
  pub WellMarked-each :
      WellMarked sep
      → ((x : A) → P x → WellMarked (f x))
      → (xs : List A) → All P xs
      → WellMarked (join_each sep f xs)
  unfolding join_each
  WellMarked-each hs hf [] h = WellMarked-nil
  WellMarked-each hs hf (x ∷ []) (p, _) = hf x p
  WellMarked-each hs hf (x ∷ y ∷ xs) (p, h) = hf x p ⊕ hs ⊕ WellMarked-each hs hf (y ∷ xs) h

-- The next value, and the rest of the text with the values after it.
pub take_value : List Bytes → (List Bytes → Option Bytes) → Option Bytes
take_value [] rest = none
take_value (v ∷ vs) rest = Option.map (λ s. v ++ s) (rest vs)

-- The statement with its markers replaced. `none` where their number is not that of the values.
unfoldable pub fill : Bytes → List Bytes → Option Bytes
unfolding take_value
fill [] [] = some []
fill [] (v ∷ vs) = none
fill (c ∷ s) vs = elim (c == mark) [
  | true ↦ take_value vs (fill s)
  | false ↦ Option.map (λ r. c ∷ r) (fill s vs)
]

-- The template with the value of its name at each hole.
unfoldable pub instantiate : (Bytes → Bytes) → Template → Bytes
instantiate env [] = []
instantiate env (text s ∷ t) = s ++ instantiate env t
instantiate env (hole n ∷ t) = env n ++ instantiate env t

fill-plain :
    (s rest : Bytes) (vs : List Bytes) {r : Bytes}
    → IsPlain s
    → fill rest vs ≡ some r
    → fill (s ++ rest) vs ≡ some (s ++ r)
unfolding fill
fill-plain [] rest vs w h = h
fill-plain (c ∷ s) rest vs (ne, w) h = ground (arith, fill-plain s rest vs w h)

fill-mark :
    (rest v : Bytes) (vs : List Bytes) {r : Bytes}
    → fill rest vs ≡ some r
    → fill (mark ∷ rest) (v ∷ vs) ≡ some (v ++ r)
unfolding fill
fill-mark rest v vs h = ap (Option.map (λ s. v ++ s)) h

fill-pieces :
    (env : Bytes → Bytes) (t : Template)
    → All PlainPiece t
    → fill (render t) (map env (holes t)) ≡ some (instantiate env t)
unfolding render holes instantiate
fill-pieces env [] w = unfold fill in refl
fill-pieces env (text s ∷ t) (p, w) = fill-plain s (render t) _ p (fill-pieces env t w)
fill-pieces env (hole n ∷ t) (_, w) = fill-mark (render t) (env n) _ (fill-pieces env t w)

-- Filling the rendered template by the values of its holes puts the value of each name at its hole.
pub fill-render :
    (env : Bytes → Bytes) (t : Template)
    → WellMarked t
    → fill (render t) (map env (holes t)) ≡ some (instantiate env t)
fill-render env t w = fill-pieces env t w.texts

-- A statement that binds by position, to the values of its names, as the template means by name.
abbrev pub BindsAs : (Bytes → Bytes) → Template → Stmt → Type 0
BindsAs env t q = fill q.stmt (map env q.names) ≡ some (instantiate env t)

pub compile-BindsAs :
    (env : Bytes → Bytes) (t : Template) → WellMarked t → BindsAs env t (compile t)
compile-BindsAs env t w = fill-render env t w
