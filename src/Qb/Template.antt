-- ===== src/Qb/Template.antt =====
-- The specification of a statement: text with named holes. A builder promises that its statement
-- is a template with every hole written as `?`, and that its names are those of the holes in order.
use cqlx.Common.{
  ℕ, Bytes, List, [], ◌∷◌, ◌++◌, Bool, true, false, ◌≡◌, refl, append-nil, append_assoc,
  if◌then◌else◌,
}
use cqlx.Qb.Emit.{Emit, ◌>>◌, write_string, write_byte, skip, when, write_each, Stmt, run}

pub data Piece : Type 0 where
  text : Bytes → Piece
  hole : Bytes → Piece

abbrev pub Template : Type 0
Template = List Piece

-- The bind marker of CQL.
abbrev pub mark : ℕ
mark = b'?'

unfoldable pub render : Template → Bytes
render [] = []
render (text s ∷ t) = s ++ render t
render (hole n ∷ t) = mark ∷ render t

unfoldable pub holes : Template → List Bytes
holes [] = []
holes (text s ∷ t) = holes t
holes (hole n ∷ t) = n ∷ holes t

pub render-append : (t u : Template) → render (t ++ u) ≡ render t ++ render u
unfolding render
render-append [] u = refl
render-append (text s ∷ t) u = rw (render-append t u, append_assoc)
render-append (hole n ∷ t) u = rw (render-append t u)

pub holes-append : (t u : Template) → holes (t ++ u) ≡ holes t ++ holes u
unfolding holes
holes-append [] u = refl
holes-append (text s ∷ t) u = holes-append t u
holes-append (hole n ∷ t) u = rw (holes-append t u)

-- The writer adds the template to the end of any buffer, and returns the names of its holes.
pub record Writes (m : Emit) (t : Template) : Type 0 where
  pub runs : (cql : Bytes) → m cql ≡ (cql ++ render t, holes t)

pub Writes-seq : {m k : Emit} {t u : Template} → Writes m t → Writes k u → Writes (m >> k) (t ++ u)
unfolding ◌>>◌
Writes-seq {t} {u} v w = record {
  runs = λ cql. rw (v.runs, w.runs, render-append t u, holes-append t u, append_assoc);
}

-- The rule for a `do` block of writers.
infixr 5 ◌⨾◌
abbrev pub ◌⨾◌ : {m k : Emit} {t u : Template} → Writes m t → Writes k u → Writes (m >> k) (t ++ u)
v ⨾ w = Writes-seq v w

pub Writes-string : (s : Bytes) → Writes (write_string s) (text s ∷ [])
unfolding write_string render holes
Writes-string s = record { runs = λ cql. rw append-nil }

pub Writes-byte : (c : ℕ) → Writes (write_byte c) (text (c ∷ []) ∷ [])
unfolding write_byte render holes
Writes-byte c = record { runs = λ cql. refl }

pub Writes-skip : Writes skip []
unfolding skip render holes
Writes-skip = record { runs = λ cql. rw append-nil }

-- A part of a template that is there if the flag is set.
abbrev pub only : Bool → Template → Template
only b t = if b then t else []

pub Writes-when : (b : Bool) {m : Emit} {t : Template} → Writes m t → Writes (when b m) (only b t)
unfolding when
Writes-when true w = w
Writes-when false w = Writes-skip

pub Writes-if :
    (b : Bool) {m k : Emit} {t u : Template}
    → Writes m t
    → Writes k u
    → Writes (if b then m else k) (if b then t else u)
Writes-if true v w = v
Writes-if false v w = w

-- The templates of a list's elements with `sep` between them.
unfoldable pub join_each {ℓ} : {A : Type ℓ} → Template → (A → Template) → List A → Template
join_each sep f [] = []
join_each sep f (x ∷ []) = f x
join_each sep f (x ∷ y ∷ xs) = f x ++ (sep ++ join_each sep f (y ∷ xs))

module _ {ℓ} {A : Type ℓ} {sep : Emit} {s : Template} {w : A → Emit} {f : A → Template} where
  pub Writes-each :
      Writes sep s
      → ((x : A) → Writes (w x) (f x))
      → (xs : List A) → Writes (write_each sep w xs) (join_each s f xs)
  unfolding write_each join_each
  Writes-each hs hw [] = Writes-skip
  Writes-each hs hw (x ∷ []) =
      rw (← append-nil (f x)) (Writes-seq (hw x) (Writes-seq Writes-skip Writes-skip))
  Writes-each hs hw (x ∷ y ∷ xs) = Writes-seq (hw x) (Writes-seq hs (Writes-each hs hw (y ∷ xs)))

abbrev pub compile : Template → Stmt
compile t = record { stmt = render t; names = holes t }

pub run-Writes : {m : Emit} {t : Template} → Writes m t → run m ≡ compile t
unfolding run
run-Writes w = rw (w.runs)
