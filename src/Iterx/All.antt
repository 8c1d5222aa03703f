-- ===== src/Iterx/All.antt =====
-- iterx.go, `Select` and `scanAll`: the rows that are left become the elements of a slice.
use cqlx.Common.{
  ℕ, zero, suc, List, [], ◌∷◌, ◌++◌, Bool, true, false, if◌then◌else◌, Option, none, some,
}
use cqlx.Iterx.Scan.{
  Dest, no_pointer, nil_value, points_to, Reflection, Driver, panicked, returned, refused, accepted,
  check_base, scan_one, close,
}
use cqlx.Iterx.{not_pointer, nil_pointer, not_slice, Iterx, Types}

-- An element of the slice: the pointer to a new destination, or what it holds.
pub data Elem (V L : Type 0) : Type 0 where
  by_pointer : V → Elem V L
  by_value : L → Elem V L

-- The loop panics, has no fuel, or ends with the slice that it allocated at the first row.
pub data Looped (V L E D : Type 0) : Type 0 where
  panics out_of_fuel : Looped V L E D
  ends : Iterx V E → D → Option (List (Elem V L)) → Looped V L E D

-- `reflect.Append`, behind the allocation.
unfoldable pub append_elem :
    {V L : Type 0} → Option (List (Elem V L)) → Elem V L → Option (List (Elem V L))
append_elem none e = some (e ∷ [])
append_elem (some es) e = some (es ++ e ∷ [])

module _ {V T L E D : Type 0} (types : Types V T) (r : Reflection T) (driver : Driver V T L E D)
    (store : V → List (Elem V L) → D → D) where
  unfoldable pub elem_of : Bool → V → D → Elem V L
  elem_of is_ptr value d = if is_ptr then by_pointer value else by_value (driver.load value d)

  -- The loop, on fuel.
  unfoldable pub scan_rows :
      ℕ → Bool → Bool → T → Iterx V E → D → Option (List (Elem V L)) → Looped V L E D
  unfolding scan_one append_elem elem_of
  scan_rows zero scannable is_ptr base iter d v = out_of_fuel
  scan_rows (suc fuel) scannable is_ptr base iter d v =
      let (made, vp) = driver.new base d in
      elim (scan_one types r driver scannable vp iter made) [
        | panicked ↦ panics
        | returned ok iter' d' ↦ elim ok [
          | true ↦
              scan_rows fuel scannable is_ptr base iter' d' (append_elem v (elem_of is_ptr vp d'))
          | false ↦ ends iter' d' v
        ]
      ]

  -- `if alloc { reflect.Indirect(value).Set(v) }`. The function `store` writes the slice.
  unfoldable pub set_slice : V → Option (List (Elem V L)) → D → D
  set_slice value none d = d
  set_slice value (some es) d = store value es d

  unfoldable pub scan_elems : ℕ → V → T → Iterx V E → D → Looped V L E D
  unfolding check_base scan_rows
  scan_elems fuel value elem iter d =
      let base = r.deref elem in
      elim (check_base r base (driver.columns d) iter) [
        | refused e ↦ ends (record iter { err = some e }) d none
        | accepted scannable ↦
            elim (scan_rows fuel scannable (r.is_pointer elem) base iter d none) [
              | panics ↦ panics
              | out_of_fuel ↦ out_of_fuel
              | ends iter' d' v ↦ ends iter' (set_slice value v d') v
            ]
      ]

  -- The slice that the loop made stands beside the state, for what is said of it.
  unfoldable pub scan_all : ℕ → Dest V → Iterx V E → D → Looped V L E D
  unfolding scan_elems
  scan_all fuel no_pointer iter d = ends (record iter { err = some not_pointer }) d none
  scan_all fuel nil_value iter d = ends (record iter { err = some nil_pointer }) d none
  scan_all fuel (points_to value) iter d = elim (r.slice_of (r.deref (types.type_of value))) [
    | none ↦ ends (record iter { err = some not_slice }) d none
    | some elem ↦ scan_elems fuel value elem iter d
  ]

  -- `Select`. What is returned is the field `err` of the iterator behind `Close`.
  unfoldable pub select : ℕ → Dest V → Iterx V E → D → Looped V L E D
  unfolding scan_all close
  select fuel dest iter d = elim (scan_all fuel dest iter d) [
    | panics ↦ panics
    | out_of_fuel ↦ out_of_fuel
    | ends iter' d' v ↦ let (closed, d'') = close types r driver iter' d' in ends closed d'' v
  ]
