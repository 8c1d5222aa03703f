-- ===== src/Iterx.antt =====
-- iterx.go, `structScan`: how a row is scanned into the fields of a struct. The destination `V` is a
-- pointer that is not nil.
pub mod Targets
pub mod Missing
pub mod Scan
pub mod All
pub mod Rows
pub mod Selects
pub mod Errors
pub mod Gets
pub mod Values
pub mod ReadTests
mod SelectTests
mod Tests
use cqlx.Common.{
  ℕ, suc, zero, Bytes, List, [], ◌∷◌, ◌++◌, Bool, true, false, not, ◌&&◌, is_empty, if◌then◌else◌,
  Option, none, some, codes,
}
use cqlx.Common.Strings.{equal}
use cqlx.Queryx.{◌>>=◌, get_elem?, set_elem}

-- An element of `values`, which `Scan` writes a column to: nil, which it passes over, the address of
-- `applied`, or that of the field of a destination at a path, with whether it is behind a wrapper.
pub data Target (V : Type 0) : Type 0 where
  nil_target : Target V
  applied_flag : Target V
  field_of : V → List ℕ → Bool → Target V

-- Why `structOnlyError` refuses a type.
pub data StructOnly : Type 0 where
  not_struct unmarshals unmarshals_udt auto_udt no_exported_fields : StructOnly

-- The errors of an iterator; `driver` is one of the driver.
pub data IterError (E : Type 0) : Type 0 where
  not_pointer nil_pointer not_slice expected_struct not_found : IterError E
  missing_destination : Bytes → IterError E
  struct_only : StructOnly → IterError E
  one_column : ℕ → IterError E
  driver : E → IterError E

-- `fields` is `none` where the slice is nil. The field `applied` is memory that the driver writes.
pub record Iterx (V E : Type 0) : Type 0 where
  pub err : Option (IterError E)
  pub fields : Option (List (List ℕ))
  pub values : List (Target V)
  pub strict : Bool
  pub struct_only : Bool

-- `structScan` panics, returns false, or calls `Scan` with the values of the iterator.
pub data Outcome (V E : Type 0) : Type 0 where
  panics : Outcome V E
  fails : Iterx V E → Outcome V E
  scans : Iterx V E → Outcome V E

-- The mapper and reflection, as the code uses them. The last says whether the type of a field's
-- address implements `UDT`.
pub record Types (V T : Type 0) : Type 0 where
  pub type_of : V → T
  pub is_struct : V → Bool
  pub traversals_by_name : T → List Bytes → List (List ℕ)
  pub implements_udt : V → List ℕ → Bool

-- cqlx.go, `missingFields`, from index `i` on.
unfoldable pub missing_fields : ℕ → List (List ℕ) → Option ℕ
missing_fields i [] = none
missing_fields i (t ∷ traversals) = if is_empty t then some i else missing_fields (suc i) traversals

-- `len(columns) > 0 && columns[0] == appliedColumn`.
unfoldable pub is_cas : List Bytes → Bool
unfolding equal
is_cas [] = false
is_cas (c ∷ columns) = equal c (codes "[applied]")

unfoldable pub nil_values : {V : Type 0} → List Bytes → List (Target V)
nil_values [] = []
nil_values (c ∷ columns) = nil_target ∷ nil_values columns

-- `values`, as they are made for the columns.
unfoldable pub initial_values : {V : Type 0} → List Bytes → List (Target V)
unfolding nil_values is_cas
initial_values [] = []
initial_values (c ∷ columns) =
    (if is_cas (c ∷ columns) then applied_flag else nil_target) ∷ nil_values columns

module _ {V T : Type 0} (types : Types V T) where
  -- `fieldsByTraversal`, from index `i` on. `none` is a panic.
  unfoldable pub fields_by_traversal :
      V → ℕ → List (List ℕ) → List (Target V) → Option (List (Target V))
  unfolding set_elem
  fields_by_traversal value i [] values = some values
  fields_by_traversal value i (t ∷ traversals) values = elim (is_empty t) [
    | true ↦ fields_by_traversal value (suc i) traversals values
    | false ↦ do
      values' ← set_elem values i (field_of value t (types.implements_udt value t))
      fields_by_traversal value (suc i) traversals values'
  ]

  module _ {E : Type 0} where
    -- The first call, which makes the paths and the values.
    unfoldable pub make_fields : List Bytes → V → Iterx V E → Outcome V E
    unfolding missing_fields get_elem? initial_values is_cas
    make_fields columns value iter =
        let fields = types.traversals_by_name (types.type_of value) columns in
        let made = record iter { fields = some fields } in
        let valued = record made { values = initial_values columns } in
        if iter.strict && not (is_cas columns)
        then elim (missing_fields 0 fields) [
          | some f ↦ elim (get_elem? columns f) [
            | some c ↦ fails (record made { err = some (missing_destination c) })
            | none ↦ panics
          ]
          | none ↦ scans valued
        ]
        else scans valued

    unfoldable pub fill_values : V → Iterx V E → List (List ℕ) → Outcome V E
    unfolding fields_by_traversal
    fill_values value iter fields =
        if types.is_struct value
        then elim (fields_by_traversal value 0 fields iter.values) [
          | some values ↦ scans (record iter { values = values })
          | none ↦ panics
        ]
        else fails (record iter { err = some expected_struct })

    unfoldable pub fill : V → Iterx V E → Outcome V E
    unfolding fill_values
    fill value iter = elim iter.fields [
      | some fields ↦ fill_values value iter fields
      | none ↦ fill_values value iter []
    ]

    -- Behind the block that makes the fields.
    unfoldable pub filled : V → Outcome V E → Outcome V E
    unfolding fill
    filled value panics = panics
    filled value (fails iter) = fails iter
    filled value (scans iter) = fill value iter

    unfoldable pub struct_scan : List Bytes → V → Iterx V E → Outcome V E
    unfolding make_fields filled
    struct_scan columns value iter =
        filled value
          (elim iter.fields [ some fields ↦ scans iter | none ↦ make_fields columns value iter ])
