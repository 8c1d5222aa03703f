-- ===== src/Queryx/Struct.antt =====
-- `bindStructArgs` over a mapper that does what it is documented to do.
use cqlx.Common.{
  All, ℕ, suc, zero, Bytes, List, [], ◌∷◌, ◌++◌, Bool, true, is_empty, if◌then◌else◌, Option, none,
  some, length, ◌≡◌, refl, sym, ap, ◌∙◌, arith, append-nil, append_assoc, length-append, Bool-cases,
  inl, inr,
}
use cqlx.Queryx.{
  plain, pointer, wrapper, Transformer, Any, BindError, not_found, Queryx, Mapper, Args, ◌>>=◌,
  get_elem?, set_elem, lookup, transform, transform_at, bind_entry, bind_field, indirect,
  bind_struct_args,
}
use cqlx.Queryx.Bound.{Binds, all_bound, bound, missing, Returns, Returns-Binds, Option-cases}

module _ {ℓ} {A : Type ℓ} where
  get_elem?-append :
      (xs : List A) (y : A) (ys : List A) (i : ℕ)
      → i ≡ length xs
      → get_elem? (xs ++ y ∷ ys) i ≡ some y
  unfolding get_elem?
  get_elem?-append [] y ys zero h = refl
  get_elem?-append [] y ys (suc i) h = absurd (omega arith)
  get_elem?-append (x ∷ xs) y ys zero h = absurd (omega arith)
  get_elem?-append (x ∷ xs) y ys (suc i) h = get_elem?-append xs y ys i (omega arith)

  pub set_elem-middle :
      (xs : List A) (y z : A) (ys : List A) (i : ℕ)
      → i ≡ length xs
      → set_elem (xs ++ y ∷ ys) i z ≡ some (xs ++ z ∷ ys)
  unfolding set_elem
  set_elem-middle [] y z ys zero h = refl
  set_elem-middle [] y z ys (suc i) h = absurd (omega arith)
  set_elem-middle (x ∷ xs) y z ys zero h = absurd (omega arith)
  set_elem-middle (x ∷ xs) y z ys (suc i) h = rw (set_elem-middle xs y z ys i (omega arith))

-- The index of the round is that of the name and that of the argument.
transform_at_lem :
    {S : Type 0} (tr : Option (Transformer S)) (before : List Bytes) (name : Bytes)
    (names : List Bytes) (arglist : List (Any S)) (val : Any S) (i : ℕ)
    → i ≡ length before
    → i ≡ length arglist
    → transform_at tr (before ++ name ∷ names) i (arglist ++ val ∷ [])
      ≡ (do val' ← transform tr name val; some (arglist ++ val' ∷ [], none))
unfolding transform_at transform
transform_at_lem none before name names arglist val i hb ha = refl
transform_at_lem (some f) before name names arglist val i hb ha =
    rw (get_elem?-append before name names i hb, get_elem?-append arglist val [] i ha)
      (elim (Option-cases (f name val)) [
        | inl h ↦ rw h refl
        | inr (val', h) ↦ rw h (rw (set_elem-middle arglist val val' [] i ha))
      ])

-- What `TraversalsByNameFunc` is documented to do: it calls the function for each name in turn, with
-- its index and its path, which is empty for a name without a field, up to the first error.
unfoldable pub traverse_each :
    {S : Type 0}
    → (Bytes → List ℕ)
    → (ℕ → List ℕ → List (Any S) → Option (Args S))
    → ℕ
    → List Bytes
    → List (Any S)
    → Option (Args S)
traverse_each path fn i [] arglist = some (arglist, none)
traverse_each path fn i (name ∷ names) arglist = do
  r ← fn i (path name) arglist
  elim r.1 [ none ↦ traverse_each path fn (suc i) names r.0 | some e ↦ some (r.0, some e) ]

module _ {S : Type 0} (path : Bytes → List ℕ)
    (fn : ℕ → List ℕ → List (Any S) → Option (Args S)) where
  traverse_each-stop :
      (i : ℕ) (name : Bytes) (names : List Bytes) (arglist : List (Any S)) {e : BindError}
      → fn i (path name) arglist ≡ some (arglist, some e)
      → traverse_each path fn i (name ∷ names) arglist ≡ some (arglist, some e)
  unfolding traverse_each
  traverse_each-stop i name names arglist h = rw h refl

  traverse_each-next :
      (i : ℕ) (name : Bytes) (names : List Bytes) (arglist : List (Any S)) {longer : List (Any S)}
      → fn i (path name) arglist ≡ some (longer, none)
      → traverse_each path fn i (name ∷ names) arglist ≡ traverse_each path fn (suc i) names longer
  unfolding traverse_each
  traverse_each-next i name names arglist h = rw h refl

-- The law of a mapper: what it is documented to do at a struct.
abbrev pub Traverses :
    {S T : Type 0} (mapper : Mapper S T) (path : T → Bytes → List ℕ) (is_struct : T → Bool) → Type 0
Traverses {S} mapper path is_struct =
    (t : _) (names : List Bytes) (fn : ℕ → List ℕ → List (Any S) → Option (Args S))
    (arglist : List (Any S))
    → is_struct t ≡ true
    → mapper.traversals_by_name_func t names fn arglist ≡ traverse_each (path t) fn 0 names arglist

-- Where a name is looked up: among the fields, which may panic, and where it has none in the map.
unfoldable pub field_or_entry :
    {S T : Type 0} (mapper : Mapper S T) (path : T → Bytes → List ℕ)
    → Any S
    → List (Bytes × Any S)
    → Bytes
    → Option (Option (Any S))
field_or_entry mapper path v arg1 name =
    if is_empty (path (mapper.type_of v) name)
    then some (lookup name arg1)
    else (do val ← mapper.field_by_indexes v (path (mapper.type_of v) name); some (some val))

module _ {S T : Type 0} (mapper : Mapper S T) (path : T → Bytes → List ℕ)
    (tr : Option (Transformer S)) (v : Any S) (arg1 : List (Bytes × Any S)) where
  -- One round, by the value of the name: a panic, the error, or an argument more.
  round : List (Any S) → Bytes → Option (Option (Any S)) → Option (Args S)
  round arglist name none = none
  round arglist name (some none) = some (arglist, some (not_found name))
  round arglist name (some (some val)) = do
    val' ← transform tr name val
    some (arglist ++ val' ∷ [], none)

  bind_entry_lem :
      (before : List Bytes) (name : Bytes) (names : List Bytes) (arglist : List (Any S)) (i : ℕ)
      (o : Option (Any S))
      → i ≡ length before
      → i ≡ length arglist
      → bind_entry tr (before ++ name ∷ names) i arglist name o ≡ round arglist name (some o)
  unfolding bind_entry round
  bind_entry_lem before name names arglist i none hb ha = refl
  bind_entry_lem before name names arglist i (some val) hb ha =
      transform_at_lem tr before name names arglist val i hb ha

  -- The branch of a name with a field, by what reading the field gives.
  bind_read_lem :
      (before : List Bytes) (name : Bytes) (names : List Bytes) (arglist : List (Any S)) (i : ℕ)
      (o : Option (Any S))
      → i ≡ length before
      → i ≡ length arglist
      → (do val ← o; transform_at tr (before ++ name ∷ names) i (arglist ++ val ∷ []))
        ≡ round arglist name (do val ← o; some (some val))
  unfolding round
  bind_read_lem before name names arglist i none hb ha = refl
  bind_read_lem before name names arglist i (some val) hb ha =
      transform_at_lem tr before name names arglist val i hb ha

  bind_field_lem :
      (before : List Bytes) (name : Bytes) (names : List Bytes) (arglist : List (Any S)) (i : ℕ)
      → i ≡ length before
      → i ≡ length arglist
      → bind_field tr mapper.field_by_indexes
          (before ++ name ∷ names)
          v
          arg1
          i
          (path (mapper.type_of v) name)
          arglist
        ≡ round arglist name (field_or_entry mapper path v arg1 name)
  unfolding bind_field field_or_entry
  bind_field_lem before name names arglist i hb ha =
      elim (Bool-cases (is_empty (path (mapper.type_of v) name))) [
        | inl no_field ↦
            rw (no_field, get_elem?-append before name names i hb)
              (bind_entry_lem before name names arglist i (lookup name arg1) hb ha)
        | inr field ↦ rw field (bind_read_lem before name names arglist i _ hb ha)
      ]

  -- The rounds from a name on, behind as many arguments as names before it.
  traverse_each-Binds :
      {names : List Bytes} {args : List (Any S)} {e : Option BindError}
      → Binds tr (field_or_entry mapper path v arg1) names args e
      → (before : List Bytes) (arglist : List (Any S)) (i : ℕ) (all : List Bytes)
      → all ≡ before ++ names
      → i ≡ length before
      → i ≡ length arglist
      → traverse_each
          (path (mapper.type_of v))
          (bind_field tr mapper.field_by_indexes all v arg1)
          i
          names
          arglist
        ≡ some (arglist ++ args, e)
  unfolding round
  traverse_each-Binds all_bound before arglist i all same hb ha =
      unfold traverse_each in ap (λ a. some (a, none)) (sym (append-nil arglist))
  traverse_each-Binds (bound {name} {val} {val'} {names} {args} {e} l t b) before arglist i all same
        hb ha =
      let one = rw (sym same) at (bind_field_lem before name names arglist i hb ha) in
      traverse_each-next _ _ i name names arglist
        (one ∙ ap (round arglist name) l ∙ ap (λ o. do x ← o; some (arglist ++ x ∷ [], none)) t)
      ∙ traverse_each-Binds b (before ++ name ∷ []) (arglist ++ val' ∷ []) (suc i) all
          (same ∙ sym (append_assoc before (name ∷ []) names))
          (omega (arith, length-append before (name ∷ [])))
          (omega (arith, length-append arglist (val' ∷ [])))
      ∙ ap (λ a. some (a, e)) (append_assoc arglist (val' ∷ []) args)
  traverse_each-Binds (missing {name} {names} l) before arglist i all same hb ha =
      let one = rw (sym same) at (bind_field_lem before name names arglist i hb ha) in
      traverse_each-stop _ _ i name names arglist (one ∙ ap (round arglist name) l)
      ∙ ap (λ a. some (a, some (not_found name))) (sym (append-nil arglist))

-- The value behind pointers, none of them nil.
pub data Behind {S : Type 0} (v : Any S) : Any S → Type 0 where
  itself : Behind v v
  through : {arg : Any S} → Behind v arg → Behind v (pointer arg)

-- A value that is not a pointer.
pub data Direct {S : Type 0} : Any S → Type 0 where
  is_plain : {s : S} → Direct (plain s)
  is_wrapper : {v : Any S} {strict : Bool} → Direct (wrapper v strict)

indirect-Direct : {S : Type 0} {v : Any S} → Direct v → indirect v ≡ some v
unfolding indirect
indirect-Direct is_plain = refl
indirect-Direct is_wrapper = refl

pub indirect-Behind : {S : Type 0} {v arg : Any S} → Direct v → Behind v arg → indirect arg ≡ some v
unfolding indirect
indirect-Behind direct itself = indirect-Direct direct
indirect-Behind direct (through behind) = indirect-Behind direct behind

-- `bindStructArgs` of a struct, or of pointers to one, binds each name in order to its field, or where
-- the mapper has no field for it to the value that the map has, behind the transformer, up to the
-- first name with neither, which the error names. It does not panic, if neither reading the field of
-- a name nor the transformer of its value does.
pub bind_struct_args-Binds :
    {S T Q : Type 0} (mapper : Mapper S T) (path : T → Bytes → List ℕ) (is_struct : T → Bool)
    → Traverses mapper path is_struct
    → (q : Queryx S Q) (arg0 v : Any S) (arg1 : List (Bytes × Any S)) → Direct v
    → Behind v arg0
    → is_struct (mapper.type_of v) ≡ true
    → All (Returns q.tr (field_or_entry mapper path v arg1)) q.names
    → (r : Args S) × (bind_struct_args mapper q arg0 arg1 ≡ some r)
      × Binds q.tr (field_or_entry mapper path v arg1) q.names r.0 r.1
unfolding bind_struct_args
bind_struct_args-Binds mapper path is_struct law q arg0 v arg1 direct behind hs returns =
    let (r, b) = Returns-Binds q.tr (field_or_entry mapper path v arg1) q.names returns in
    (
      r,
      rw (indirect-Behind direct behind) (
          law _ q.names _ [] hs
          ∙ traverse_each-Binds mapper path q.tr v arg1 b [] [] 0 q.names refl refl refl),
      b,
    )
