-- ===== src/Iterx/Gets.antt =====
-- `Get` of the first row, into a struct or a scannable value.
use cqlx.Common.{
  ℕ, ◌==◌, Bytes, List, [], ◌∷◌, true, false, ltb, if◌then◌else◌, Option, none, some, length, ◌≡◌,
  ◌⊎◌, inl, inr, refl, ap, ◌∙◌, arith, Bool-cases, ◌<◌,
}
use cqlx.Iterx.Scan.{
  points_to, Reflection, Driver, returned, is_scannable, check_base, accepted, scan_one,
  scan_struct, scan_value, scan_any, close, check_err_and_not_found, get,
}
use cqlx.Iterx.Targets.{overlay, paths, struct_scan-first}
use cqlx.Iterx.{
  Target, field_of, IterError, not_found, Iterx, Types, missing_fields, is_cas, initial_values,
}
use mathlib.Core.Option

-- The error of the driver's `Close`, or else that there was no row.
unfoldable pub close_error : {E : Type 0} → Option E → ℕ → Option (IterError E)
close_error (some e) rows = some (IterError.driver e)
close_error none rows = if rows == 0 then some not_found else none

module _ {V T : Type 0} (types : Types V T) (r : Reflection T) where
  -- The targets of the columns in a destination: the fields of a struct, or the value itself.
  pub data Reads {E : Type 0} (columns : List Bytes) (value : V) (iter : Iterx V E)
      : List (Target V) → Type 0 where
    as_struct :
        (is_scannable r (r.deref (types.type_of value)) ≡ false)
          ⊎ ((iter.struct_only ≡ true) × (r.is_struct_type (r.deref (types.type_of value)) ≡ true))
        → iter.fields ≡ none
        → types.is_struct value ≡ true
        → length (paths types value columns) ≡ length columns
        → (iter.strict ≡ true
            → is_cas columns ≡ false
            → missing_fields 0 (paths types value columns) ≡ none)
        → Reads columns value iter
            (overlay types value (paths types value columns) (initial_values columns))
    as_value :
        is_scannable r (r.deref (types.type_of value)) ≡ true
        → iter.struct_only ≡ false
        → length columns < 2
        → Reads columns value iter (field_of value [] (types.implements_udt value []) ∷ [])

  check_base-accepted :
      {V E : Type 0} (base : T) (columns : List Bytes) (iter : Iterx V E)
      → (is_scannable r base ≡ false) ⊎ ((iter.struct_only ≡ true) × (r.is_struct_type base ≡ true))
      → check_base r base columns iter ≡ accepted false
  unfolding check_base
  check_base-accepted base columns iter (inl h) = elim (Bool-cases iter.struct_only) [
    | inl only ↦ rw (only, h) refl
    | inr all ↦ rw (all, h) refl
  ]
  check_base-accepted base columns iter (inr (only, hs)) = elim (Bool-cases (is_scannable r base)) [
    | inl scannable ↦ rw (only, scannable, hs, check_base) refl
    | inr fields ↦ rw (only, fields, check_base) refl
  ]

  pub check_base-value :
      {V E : Type 0} (base : T) (columns : List Bytes) (iter : Iterx V E)
      → is_scannable r base ≡ true
      → iter.struct_only ≡ false
      → length columns < 2
      → check_base r base columns iter ≡ accepted true
  unfolding check_base
  check_base-value base columns iter h hs hl =
      let one : ltb 1 (length columns) ≡ false = ground (arith, hl) in
      rw (hs, h, one, check_base) refl

  module _ {L E D : Type 0} (driver : Driver V T L E D) where
    scan_any-Reads :
        (value : V) (iter : Iterx V E) (d : D) (ts : List (Target V))
        → Reads (driver.columns d) value iter ts
        → (iter' : Iterx V E) × (scan_any types r driver (points_to value) iter d
            ≡ returned (driver.scan ts d).1 iter' (driver.scan ts d).0)
          × (iter'.err ≡ iter.err)
    unfolding scan_any scan_one scan_struct scan_value
    scan_any-Reads value iter d ts (as_struct hb hf hs hl hm) = (
      record iter {
        fields = some (paths types value (driver.columns d));
        values =
            overlay types value (paths types value (driver.columns d))
              (initial_values (driver.columns d));
      },
      rw (check_base-accepted (r.deref (types.type_of value)) (driver.columns d) iter hb, scan_any)
          (rw (struct_scan-first types (driver.columns d) value iter hf hs hl hm, scan_struct)
            refl),
      refl,
    )
    scan_any-Reads value iter d ts (as_value h hs hl) = (
      iter,
      rw
          (
            check_base-value (r.deref (types.type_of value)) (driver.columns d) iter h hs hl,
            scan_any,
          )
          refl,
      refl,
    )

    check_err-closed :
        (closed : Iterx V E) (d : D) (e : Option E)
        → closed.err ≡ Option.map IterError.driver e
        → check_err_and_not_found types r driver closed d ≡ close_error e (driver.num_rows d)
    unfolding check_err_and_not_found close_error
    check_err-closed closed d none h = rw (h, check_err_and_not_found) refl
    check_err-closed closed d (some e) h = rw (h, check_err_and_not_found) refl

    -- `Get` by an iterator without an error, into a destination that is a struct with a path for
    -- each column, or that takes the one column: it scans one row into the fields of the struct,
    -- or into the value itself, closes the driver's iterator, and returns the error of its
    -- `Close`, or else that there was no row.
    pub get-Reads :
        (value : V) (iter : Iterx V E) (d : D) (ts : List (Target V))
        → Reads (driver.columns d) value iter ts
        → iter.err ≡ none
        → let closing = driver.close (driver.scan ts d).0 in
          (closed : Iterx V E) × (get types r driver (points_to value) iter d
            ≡ some (closed, closing.0, close_error closing.1 (driver.num_rows closing.0)))
          × (closed.err ≡ Option.map IterError.driver closing.1)
    unfolding get close check_err_and_not_found close_error
    get-Reads value iter d ts reads he =
        let (iter', scanned, same) = scan_any-Reads value iter d ts reads in
        let closing = driver.close (driver.scan ts d).0 in
        let closed = record iter' { err = Option.map IterError.driver closing.1 } in
        (
          closed,
          rw (scanned, get)
              (rw (same ∙ he, close)
                (ap (λ e. some (closed, closing.0, e))
                  (check_err-closed closed closing.0 closing.1 refl))),
          refl,
        )
