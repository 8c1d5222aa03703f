-- ===== src/Iterx/Errors.antt =====
-- The errors that `Get` and `Select` report of their own, before a row is scanned.
use cqlx.Common.{
  ℕ, ◌<◌, Bytes, List, Bool, true, false, ltb, none, some, length, ◌≡◌, inl, inr, refl, sym, subst,
  ◌∙◌, arith, Bool-cases,
}
use cqlx.Iterx.All.{Elem, ends, scan_elems, scan_all, select}
use cqlx.Iterx.Scan.{
  Dest, no_pointer, nil_value, points_to, Reflection, Driver, returned, refused, accepted,
  is_scannable, struct_only_error, check_base, scan_any, close, check_err_and_not_found, get,
}
use cqlx.Iterx.{
  not_struct, IterError, not_pointer, nil_pointer, not_slice, struct_only, one_column, Iterx, Types,
}

-- What `Get` says that a type can be: the iterator is for structs only and the type is none, or
-- the type takes one column and there are more.
pub data RefusesType {T V E : Type 0} (r : Reflection T) (base : T) (columns : List Bytes)
    (iter : Iterx V E) : IterError E → Type 0 where
  no_struct :
      iter.struct_only ≡ true
      → r.is_struct_type base ≡ false
      → RefusesType r base columns iter (struct_only not_struct)
  many_columns :
      iter.struct_only ≡ false
      → is_scannable r base ≡ true
      → 1 < length columns
      → RefusesType r base columns iter (one_column (length columns))

module _ {E : Type 0} where
  accepted-refused : {b : Bool} {e : IterError E} → refused e ≡ accepted b → ⊥
  accepted-refused h = cc

  refused-refused : {e e' : IterError E} → refused e ≡ refused e' → e ≡ e'
  refused-refused h = cc

module _ {T V E : Type 0} (r : Reflection T) (base : T) (columns : List Bytes)
    (iter : Iterx V E) where
  is_scannable-no_struct : r.is_struct_type base ≡ false → is_scannable r base ≡ true
  unfolding is_scannable
  is_scannable-no_struct h = ground (arith, h)

  check_base-RefusesType :
      {e : IterError E}
      → RefusesType r base columns iter e
      → check_base r base columns iter ≡ refused e
  unfolding check_base struct_only_error
  check_base-RefusesType (no_struct only h) =
      rw (only, is_scannable-no_struct h, h, check_base) refl
  check_base-RefusesType (many_columns all scannable l) =
      let many : ltb 1 (length columns) ≡ true = ground (arith, l) in
      rw (all, scannable, many, check_base) refl

  -- The tests on the type of a destination refuse it for one of two reasons: the iterator is for
  -- structs only and the type is none, or the type takes one column and there are more. Of the
  -- messages of `structOnlyError`, only the first is ever given.
  pub check_base-reasons :
      (e : IterError E)
      → check_base r base columns iter ≡ refused e
      → RefusesType r base columns iter e
  unfolding check_base struct_only_error
  check_base-reasons e h = elim (Bool-cases iter.struct_only) [
    | inl only ↦ elim (Bool-cases (r.is_struct_type base)) [
      | inl hs ↦ elim (Bool-cases (is_scannable r base)) [
        | inl scannable ↦
            absurd
              (accepted-refused {b = false} (sym h ∙ rw (only, scannable, hs, check_base) refl))
        | inr fields ↦
            absurd (accepted-refused {b = false} (sym h ∙ rw (only, fields, check_base) refl))
      ]
      | inr hs ↦
          subst (RefusesType r base columns iter)
            (refused-refused (sym (check_base-RefusesType (no_struct only hs)) ∙ h))
            (no_struct only hs)
    ]
    | inr all ↦ elim (Bool-cases (is_scannable r base)) [
      | inl scannable ↦ elim (Bool-cases (ltb 1 (length columns))) [
        | inl many ↦
            let reason = many_columns all scannable (ground (arith, many)) in
            subst (RefusesType r base columns iter)
              (refused-refused (sym (check_base-RefusesType reason) ∙ h)) reason
        | inr one ↦
            absurd (accepted-refused {b = true} (sym h ∙ rw (all, scannable, one, check_base) refl))
      ]
      | inr fields ↦
          absurd (accepted-refused {b = false} (sym h ∙ rw (all, fields, check_base) refl))
    ]
  ]

-- The reasons to refuse a destination, of any kind.
pub data Refuses {V T E : Type 0} (types : Types V T) (r : Reflection T) (columns : List Bytes)
    (iter : Iterx V E) : Dest V → IterError E → Type 0 where
  by_kind : Refuses types r columns iter no_pointer not_pointer
  by_nil : Refuses types r columns iter nil_value nil_pointer
  by_type :
      (value : V) (e : IterError E)
      → RefusesType r (r.deref (types.type_of value)) columns iter e
      → Refuses types r columns iter (points_to value) e

-- The reasons to refuse the destination of a slice.
pub data RefusesSlice {V T E : Type 0} (types : Types V T) (r : Reflection T) (columns : List Bytes)
    (iter : Iterx V E) : Dest V → IterError E → Type 0 where
  by_kind : RefusesSlice types r columns iter no_pointer not_pointer
  by_nil : RefusesSlice types r columns iter nil_value nil_pointer
  by_shape :
      (value : V)
      → r.slice_of (r.deref (types.type_of value)) ≡ none
      → RefusesSlice types r columns iter (points_to value) not_slice
  by_elem :
      (value : V) (elem : T) (e : IterError E)
      → r.slice_of (r.deref (types.type_of value)) ≡ some elem
      → RefusesType r (r.deref elem) columns iter e
      → RefusesSlice types r columns iter (points_to value) e

module _ {V T L E D : Type 0} (types : Types V T) (r : Reflection T)
    (driver : Driver V T L E D) where
  get-scan_any :
      (dest : Dest V) (iter : Iterx V E) (d : D) (e : IterError E)
      → scan_any types r driver dest iter d ≡ returned false (record iter { err = some e }) d
      → get types r driver dest iter d
        ≡ some (record iter { err = some e }, (driver.close d).0, some e)
  unfolding get close check_err_and_not_found
  get-scan_any dest iter d e h = rw (h, get) refl

  -- `Get` into a destination that it refuses scans nothing: it closes the driver's iterator and
  -- returns the error of the destination, whatever error the driver's `Close` gives.
  pub get-Refuses :
      (dest : Dest V) (iter : Iterx V E) (d : D) (e : IterError E)
      → Refuses types r (driver.columns d) iter dest e
      → get types r driver dest iter d
        ≡ some (record iter { err = some e }, (driver.close d).0, some e)
  unfolding scan_any
  get-Refuses dest iter d e by_kind = get-scan_any no_pointer iter d not_pointer refl
  get-Refuses dest iter d e by_nil = get-scan_any nil_value iter d nil_pointer refl
  get-Refuses dest iter d e (by_type value e' h) =
      get-scan_any (points_to value) iter d e
        (rw (check_base-RefusesType r _ (driver.columns d) iter h, scan_any) refl)

module _ {V T L E D : Type 0} (types : Types V T) (r : Reflection T) (driver : Driver V T L E D)
    (store : V → List (Elem V L) → D → D) where
  select-scan_all :
      (fuel : ℕ) (dest : Dest V) (iter : Iterx V E) (d : D) (e : IterError E)
      → scan_all types r driver store fuel dest iter d ≡ ends (record iter { err = some e }) d none
      → select types r driver store fuel dest iter d
        ≡ ends (record iter { err = some e }) (driver.close d).0 none
  unfolding select close
  select-scan_all fuel dest iter d e h = rw (h, select) refl

  -- `Select` into a destination that it refuses scans nothing and leaves the destination as it is:
  -- it closes the driver's iterator and reports the error of the destination, whatever error the
  -- driver's `Close` gives. No fuel is needed.
  pub select-Refuses :
      (fuel : ℕ) (dest : Dest V) (iter : Iterx V E) (d : D) (e : IterError E)
      → RefusesSlice types r (driver.columns d) iter dest e
      → select types r driver store fuel dest iter d
        ≡ ends (record iter { err = some e }) (driver.close d).0 none
  unfolding scan_all scan_elems
  select-Refuses fuel dest iter d e by_kind =
      select-scan_all fuel no_pointer iter d not_pointer refl
  select-Refuses fuel dest iter d e by_nil = select-scan_all fuel nil_value iter d nil_pointer refl
  select-Refuses fuel dest iter d e (by_shape value h) =
      select-scan_all fuel (points_to value) iter d not_slice (rw (h, scan_all) refl)
  select-Refuses fuel dest iter d e (by_elem value elem e' hs h) =
      select-scan_all fuel (points_to value) iter d e (
        rw (hs, scan_all)
          (rw (check_base-RefusesType r _ (driver.columns d) iter h, scan_elems) refl))
