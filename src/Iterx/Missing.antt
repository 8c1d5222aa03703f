-- ===== src/Iterx/Missing.antt =====
-- What the strict mode does about a column without a field.
use cqlx.Common.{
  ℕ, suc, Bytes, List, [], ◌∷◌, Bool, true, false, not, ◌&&◌, ◌||◌, is_empty, none, some, ◌≡◌, refl,
  ap, Bool-cases, inl, inr, arith,
}
use cqlx.Iterx.Targets.{paths}
use cqlx.Iterx.{
  missing_destination, Iterx, panics, fails, Types, missing_fields, is_cas, fields_by_traversal,
  make_fields, fill_values, fill, filled, struct_scan,
}
use cqlx.Queryx.{get_elem?, set_elem}

-- Some path is not empty.
unfoldable pub has_path : List (List ℕ) → Bool
has_path [] = false
has_path (t ∷ traversals) = not (is_empty t) || has_path traversals

module _ {V T : Type 0} (types : Types V T) where
  fields_by_traversal-nil :
      (value : V) (i : ℕ) (traversals : List (List ℕ))
      → has_path traversals ≡ true
      → fields_by_traversal types value i traversals [] ≡ none
  unfolding fields_by_traversal has_path set_elem
  fields_by_traversal-nil value i [] h = cc
  fields_by_traversal-nil value i (t ∷ traversals) h = elim (Bool-cases (is_empty t)) [
    | inl e ↦
        rw (e, fields_by_traversal)
          (fields_by_traversal-nil value (suc i) traversals (ground (arith, h, e)))
    | inr e ↦ rw (e, fields_by_traversal) refl
  ]

module _ {V T E : Type 0} (types : Types V T) where
  make_fields-missing :
      (columns : List Bytes) (value : V) (iter : Iterx V E) (f : ℕ) (c : Bytes)
      → (iter.strict && not (is_cas columns)) ≡ true
      → missing_fields 0 (paths types value columns) ≡ some f
      → get_elem? columns f ≡ some c
      → make_fields types columns value iter
        ≡ fails (record iter {
          fields = some (paths types value columns);
          err = some (missing_destination c);
        })
  unfolding make_fields
  make_fields-missing columns value iter f c h hm hc = rw (h, hm, hc) refl

  -- In strict mode, without the column `[applied]`, a first column that has no field is the error,
  -- and nothing is scanned. A second call does not report it again: it panics, if any column has a
  -- field, because the first made the paths of the columns and no values.
  pub struct_scan-missing :
      (columns : List Bytes) (value value' : V) (iter : Iterx V E) (f : ℕ) (c : Bytes)
      → iter.fields ≡ none
      → iter.values ≡ []
      → (iter.strict && not (is_cas columns)) ≡ true
      → missing_fields 0 (paths types value columns) ≡ some f
      → get_elem? columns f ≡ some c
      → has_path (paths types value columns) ≡ true
      → types.is_struct value' ≡ true
      → (failed : Iterx V E) × (struct_scan types columns value iter ≡ fails failed)
        × (failed.err ≡ some (missing_destination c))
        × (struct_scan types columns value' failed ≡ panics)
  unfolding struct_scan filled fill fill_values
  struct_scan-missing columns value value' iter f c hf hv h hm hc hp hs =
      let failed = record iter {
        fields = some (paths types value columns);
        err = some (missing_destination c);
      } in
      (
        failed,
        rw (hf, struct_scan)
            (ap (filled types value) (make_fields-missing columns value iter f c h hm hc)),
        refl,
        rw (hs, hv, fields_by_traversal-nil types value' 0 (paths types value columns) hp) refl,
      )
