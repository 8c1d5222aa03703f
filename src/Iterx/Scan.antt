-- ===== src/Iterx/Scan.antt =====
-- iterx.go, `Get` and what it calls: a destination is checked, one row is scanned into it, and the
-- iterator is closed.
use cqlx.Common.{
  ℕ, Bytes, List, [], ◌∷◌, Bool, true, false, not, ◌&&◌, ◌==◌, ltb, if◌then◌else◌, Option, none,
  some, length,
}
use cqlx.Iterx.{
  Target, field_of, StructOnly, not_struct, unmarshals, unmarshals_udt, auto_udt,
  no_exported_fields, IterError, not_pointer, nil_pointer, not_found, struct_only, one_column,
  Iterx, panics, fails, scans, Types, struct_scan,
}
use mathlib.Core.Option

-- A value of type `any`, as a destination.
pub data Dest (V : Type 0) : Type 0 where
  no_pointer nil_value : Dest V
  points_to : V → Dest V

-- Reflection on types, and the number of fields that the mapper finds in one. The three tests are of
-- the pointer to the type: what it implements.
pub record Reflection (T : Type 0) : Type 0 where
  pub deref : T → T
  pub slice_of : T → Option T
  pub is_pointer : T → Bool
  pub is_struct_type : T → Bool
  pub implements_unmarshaler : T → Bool
  pub implements_udt_unmarshaler : T → Bool
  pub implements_auto_udt : T → Bool
  pub index_length : T → ℕ

-- The driver's iterator, and the memory that it writes: `L` is what a destination holds.
pub record Driver (V T L E D : Type 0) : Type 0 where
  pub columns : D → List Bytes
  pub scan : List (Target V) → D → D × Bool
  pub close : D → D × Option E
  pub num_rows : D → ℕ
  pub applied : D → Bool
  pub new : T → D → D × V
  pub load : V → D → L

-- A call that may panic and returns a Boolean.
pub data Scanned (V E D : Type 0) : Type 0 where
  panicked : Scanned V E D
  returned : Bool → Iterx V E → D → Scanned V E D

-- What the tests on the type of a destination decide: the error, or whether it is scannable.
pub data Checked (E : Type 0) : Type 0 where
  refused : IterError E → Checked E
  accepted : Bool → Checked E

module _ {T : Type 0} (r : Reflection T) where
  unfoldable pub is_scannable : T → Bool
  is_scannable t =
      if r.implements_unmarshaler t
      then true
      else if r.implements_udt_unmarshaler t
      then true
      else if r.implements_auto_udt t
      then true
      else if not (r.is_struct_type t)
      then true
      else r.index_length t == 0

  -- cqlx.go, `structOnlyError`.
  unfoldable pub struct_only_error : T → StructOnly
  struct_only_error t =
      if not (r.is_struct_type t)
      then not_struct
      else if r.implements_unmarshaler t
      then unmarshals
      else if r.implements_udt_unmarshaler t
      then unmarshals_udt
      else if r.implements_auto_udt t
      then auto_udt
      else no_exported_fields

  -- The tests that `scanAny` and `scanAll` share, on the base type.
  unfoldable pub check_base : {V E : Type 0} → T → List Bytes → Iterx V E → Checked E
  unfolding is_scannable struct_only_error
  check_base base columns iter =
      let scannable = is_scannable base in
      if iter.struct_only && scannable
      then (if r.is_struct_type base
          then accepted false
          else refused (struct_only (struct_only_error base)))
      else if scannable && ltb 1 (length columns)
      then refused (one_column (length columns))
      else accepted scannable

module _ {V T L E D : Type 0} (types : Types V T) (r : Reflection T)
    (driver : Driver V T L E D) where
  -- `structScan`, with the scan behind it.
  unfoldable pub scan_struct : V → Iterx V E → D → Scanned V E D
  unfolding struct_scan
  scan_struct value iter d = elim (struct_scan types (driver.columns d) value iter) [
    | panics ↦ panicked
    | fails iter' ↦ returned false iter' d
    | scans iter' ↦ let (d', ok) = driver.scan iter'.values d in returned ok iter' d'
  ]

  -- `iter.scan`: the path of the destination itself is empty.
  unfoldable pub scan_value : V → Iterx V E → D → Scanned V E D
  scan_value value iter d =
      let (d', ok) = driver.scan (field_of value [] (types.implements_udt value []) ∷ []) d in
      returned ok iter d'

  unfoldable pub scan_one : Bool → V → Iterx V E → D → Scanned V E D
  unfolding scan_struct scan_value
  scan_one true value iter d = scan_value value iter d
  scan_one false value iter d = scan_struct value iter d

  -- `iter.err = err` and `return false`.
  unfoldable pub refuse : IterError E → Iterx V E → D → Scanned V E D
  refuse e iter d = returned false (record iter { err = some e }) d

  unfoldable pub scan_any : Dest V → Iterx V E → D → Scanned V E D
  unfolding refuse check_base scan_one
  scan_any no_pointer iter d = refuse not_pointer iter d
  scan_any nil_value iter d = refuse nil_pointer iter d
  scan_any (points_to value) iter d =
      elim (check_base r (r.deref (types.type_of value)) (driver.columns d) iter) [
        | refused e ↦ refuse e iter d
        | accepted scannable ↦ scan_one scannable value iter d
      ]

  -- The first error is kept.
  unfoldable pub close : Iterx V E → D → Iterx V E × D
  close iter d =
      let (d', e) = driver.close d in
      (
        elim iter.err [
          | none ↦ record iter { err = Option.map IterError.driver e }
          | some _ ↦ iter
        ],
        d',
      )

  unfoldable pub check_err_and_not_found : Iterx V E → D → Option (IterError E)
  check_err_and_not_found iter d = elim iter.err [
    | some e ↦ some e
    | none ↦ if driver.num_rows d == 0 then some not_found else none
  ]

  -- `none` is a panic. The result has the iterator, the memory and the error.
  unfoldable pub get : Dest V → Iterx V E → D → Option (Iterx V E × D × Option (IterError E))
  unfolding scan_any close check_err_and_not_found
  get dest iter d = elim (scan_any dest iter d) [
    | panicked ↦ none
    | returned _ scanned d' ↦
        let (closed, d'') = close scanned d' in
        some (closed, d'', check_err_and_not_found closed d'')
  ]

  -- `StructScan`.
  unfoldable pub struct_scan_dest : Dest V → Iterx V E → D → Scanned V E D
  unfolding refuse scan_struct
  struct_scan_dest no_pointer iter d = refuse not_pointer iter d
  struct_scan_dest nil_value iter d = refuse nil_pointer iter d
  struct_scan_dest (points_to value) iter d = scan_struct value iter d
