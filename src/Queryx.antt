-- ===== src/Queryx.antt =====
-- queryx.go, from `Queryx` on: the arguments of a query, bound from a struct or a map.
pub mod Bound
pub mod Struct
pub mod Exec
pub mod Fetch
pub mod Options
pub mod Configured
pub mod Cas
pub mod Unsent
mod FetchTests
pub mod Tests
use cqlx.Common.{
  ℕ, suc, zero, ◌+◌, Bytes, List, [], ◌∷◌, ◌++◌, Bool, true, false, is_empty, if◌then◌else◌, Option,
  none, some,
}
use cqlx.Common.Strings.{equal}

-- A value of Go's type `any`: of a type of the program, a pointer, or the wrapper `udt` around a
-- value, with its field `strict`. Its field map is the mapper's of the value.
pub data Any (S : Type 0) : Type 0 where
  plain : S → Any S
  pointer : Any S → Any S
  nil_pointer : Any S
  wrapper : Any S → Bool → Any S

-- `none` is a panic, as `UnsetEmptyTransformer` does of a nil value.
abbrev pub Transformer : Type 0 → Type 0
Transformer S = Bytes → Any S → Option (Any S)

-- The errors of the bind methods, as they are behind `bind error: `.
pub data BindError : Type 0 where
  not_found : Bytes → BindError

-- `Mapper` is a parameter of what uses it. `Q` is the driver's query.
pub record Queryx (S Q : Type 0) : Type 0 where
  pub err : Option BindError
  pub tr : Option (Transformer S)
  pub query : Q
  pub names : List Bytes
  pub strict : Bool

infixl 5 ◌>>=◌
abbrev pub ◌>>=◌ {ℓ κ} : {A : Type ℓ} {B : Type κ} → Option A → (A → Option B) → Option B
none >>= f = none
some a >>= f = f a

module _ {ℓ} {A : Type ℓ} where
  -- `xs[i]`, which panics out of range: `none`.
  unfoldable pub get_elem? : List A → ℕ → Option A
  get_elem? [] i = none
  get_elem? (x ∷ xs) zero = some x
  get_elem? (x ∷ xs) (suc i) = get_elem? xs i

  -- `xs[i] = x`.
  unfoldable pub set_elem : List A → ℕ → A → Option (List A)
  set_elem [] i y = none
  set_elem (x ∷ xs) zero y = some (y ∷ xs)
  set_elem (x ∷ xs) (suc i) y = do ys ← set_elem xs i y; some (x ∷ ys)

  -- `m[key]`, of a map as the list of its entries.
  unfoldable pub lookup : Bytes → List (Bytes × A) → Option A
  unfolding equal
  lookup key [] = none
  lookup key ((k, v) ∷ m) = if equal key k then some v else lookup key m

-- A slice of arguments and an error that may be nil.
abbrev pub Args : Type 0 → Type 0
Args S = List (Any S) × Option BindError

module _ {S : Type 0} (tr : Option (Transformer S)) where
  -- `if q.tr != nil { val = q.tr(name, val) }`. `none` is a panic.
  unfoldable pub transform : Bytes → Any S → Option (Any S)
  transform name val = elim tr [ none ↦ some val | some f ↦ f name val ]

  -- The loop of `bindMapArgs`, behind the arguments that it has.
  unfoldable pub bind_map_from : List (Bytes × Any S) → List Bytes → List (Any S) → Option (Args S)
  unfolding lookup transform
  bind_map_from arg [] arglist = some (arglist, none)
  bind_map_from arg (name ∷ names) arglist = elim (lookup name arg) [
    | none ↦ some (arglist, some (not_found name))
    | some val ↦ do val' ← transform name val; bind_map_from arg names (arglist ++ val' ∷ [])
  ]

  -- `arglist[i] = q.tr(q.Names[i], arglist[i])`, if there is a transformer.
  unfoldable pub transform_at : List Bytes → ℕ → List (Any S) → Option (Args S)
  unfolding get_elem? set_elem
  transform_at names i arglist = elim tr [
    | none ↦ some (arglist, none)
    | some f ↦ do
      name ← get_elem? names i
      val ← get_elem? arglist i
      val' ← f name val
      arglist' ← set_elem arglist i val'
      some (arglist', none)
  ]

  -- The branch of a name without a field, by what the map has for it.
  unfoldable pub bind_entry :
      List Bytes → ℕ → List (Any S) → Bytes → Option (Any S) → Option (Args S)
  unfolding transform_at
  bind_entry names i arglist name none = some (arglist, some (not_found name))
  bind_entry names i arglist name (some val) = transform_at names i (arglist ++ val ∷ [])

  -- The function that `bindStructArgs` gives to `TraversalsByNameFunc`, with the slice `arglist`
  -- that it captures as a state. `none` is a panic.
  unfoldable pub bind_field :
      (Any S → List ℕ → Option (Any S))
      → List Bytes
      → Any S
      → List (Bytes × Any S)
      → ℕ
      → List ℕ
      → List (Any S)
      → Option (Args S)
  unfolding get_elem? lookup transform_at bind_entry
  bind_field field_by_indexes names v arg1 i t arglist =
      if is_empty t
      then (do name ← get_elem? names i; bind_entry names i arglist name (lookup name arg1))
      else (do val ← field_by_indexes v t; transform_at names i (arglist ++ val ∷ []))

-- The loop over pointers. `none` is the zero `reflect.Value`, behind a nil pointer.
unfoldable pub indirect : {S : Type 0} → Any S → Option (Any S)
indirect (pointer v) = indirect v
indirect nil_pointer = none
indirect (plain s) = some (plain s)
indirect (wrapper v strict) = some (wrapper v strict)

-- The mapper and reflection, as the code uses them: the type of a value, `TraversalsByNameFunc`
-- with the state of its function, and `FieldByIndexesReadOnly`, the field of a value at a path,
-- which is `none` where it panics, behind a nil pointer.
pub record Mapper (S T : Type 0) : Type 0 where
  pub type_of : Any S → T
  pub traversals_by_name_func :
      T
      → List Bytes
      → (ℕ → List ℕ → List (Any S) → Option (Args S))
      → List (Any S)
      → Option (Args S)
  pub field_by_indexes : Any S → List ℕ → Option (Any S)
  pub implements_udt : Any S → Bool

module _ {S T : Type 0} (mapper : Mapper S T) where
  unfoldable pub bind_struct_args :
      {Q : Type 0} → Queryx S Q → Any S → List (Bytes × Any S) → Option (Args S)
  unfolding indirect bind_field
  bind_struct_args q arg0 arg1 = do
    v ← indirect arg0
    mapper.traversals_by_name_func (mapper.type_of v) q.names
        (bind_field q.tr mapper.field_by_indexes q.names v arg1) []

  -- `v[i].(UDT)`: the wrapper itself is none.
  unfoldable pub wrap : Bool → Any S → Any S
  wrap strict (wrapper v s) = wrapper v s
  wrap strict (plain s) =
      if mapper.implements_udt (plain s) then wrapper (plain s) strict else plain s
  wrap strict (pointer v) =
      if mapper.implements_udt (pointer v) then wrapper (pointer v) strict else pointer v
  wrap strict nil_pointer =
      if mapper.implements_udt nil_pointer then wrapper nil_pointer strict else nil_pointer

  -- udt.go, `udtWrapSlice`.
  unfoldable pub udt_wrap_slice : Bool → List (Any S) → List (Any S)
  unfolding wrap
  udt_wrap_slice strict [] = []
  udt_wrap_slice strict (v ∷ vs) = wrap strict v ∷ udt_wrap_slice strict vs

  -- The methods that bind. The function `driver_bind` is `Bind` of the driver's query.
  module _ {Q : Type 0} (driver_bind : List (Any S) → Q → Q) where
    unfoldable pub bind : List (Any S) → Queryx S Q → Queryx S Q
    unfolding udt_wrap_slice
    bind v q = record q { query = driver_bind (udt_wrap_slice q.strict v) q.query }

    -- What `BindStruct`, `BindStructMap` and `BindMap` do with the arguments and the error.
    unfoldable pub bind_args : Args S → Queryx S Q → Queryx S Q
    unfolding bind
    bind_args (arglist, some e) q = record q { err = some e }
    bind_args (arglist, none) q = bind arglist (record q { err = none })

    unfoldable pub bind_map : List (Bytes × Any S) → Queryx S Q → Option (Queryx S Q)
    unfolding bind_args bind_map_from
    bind_map arg q = do args ← bind_map_from q.tr arg q.names []; some (bind_args args q)

    -- `BindStruct` has no map.
    unfoldable pub bind_struct_map : Any S → List (Bytes × Any S) → Queryx S Q → Option (Queryx S Q)
    unfolding bind_args bind_struct_args
    bind_struct_map arg0 arg1 q = do args ← bind_struct_args q arg0 arg1; some (bind_args args q)

    abbrev pub bind_struct : Any S → Queryx S Q → Option (Queryx S Q)
    bind_struct arg0 q = bind_struct_map arg0 [] q
