-- ===== src/Iterx/Values.antt =====
-- `Select` of a slice of scannable values.
use cqlx.Common.{
  ℕ, ◌<◌, List, [], ◌∷◌, true, false, none, some, map, length, ◌≡◌, refl, sym, ap, ◌∙◌, subst,
  arith,
}
use cqlx.Iterx.All.{Elem, by_value, ends, scan_rows, select}
use cqlx.Iterx.Gets.{check_base-value}
use cqlx.Iterx.Rows.{ReadsRows, Rounds, scan_rows-ends, slice, extend-none, assigned, scanned}
use cqlx.Iterx.Scan.{points_to, Reflection, Driver, returned, is_scannable, scan_one, scan_value}
use cqlx.Iterx.Selects.{select-scan_rows}
use cqlx.Iterx.{Target, field_of, IterError, Iterx, Types}
use mathlib.Core.Option

module _ {V T L E D Row : Type 0} (types : Types V T) (r : Reflection T) (driver : Driver V T L E D)
    (store : V → List (Elem V L) → D → D) (reads : ReadsRows types r driver Row) where
  -- An iterator over one column, without an error.
  pub record OneColumn (iter : Iterx V E) (d : D) : Type 0 where
    pub one : length (driver.columns d) ≡ 1
    pub no_err : iter.err ≡ none

  made-OneColumn :
      (base : T) (iter : Iterx V E) (d : D)
      → OneColumn iter d
      → OneColumn iter (driver.new base d).0
  made-OneColumn base iter d o = record {
    one = ap length (reads.made_columns base d) ∙ o.one;
    no_err = o.no_err;
  }

  Rounds-values :
      (base : T)
      → Rounds types r driver store reads true base
          (λ v. field_of v [] (types.implements_udt v []) ∷ [])
          OneColumn
          reads.decode_value
  unfolding scan_one scan_value
  Rounds-values base = record {
    row = λ iter d x xs o e.
        let (made, v) = driver.new base d in
        let ts = field_of v [] (types.implements_udt v []) ∷ [] in
        let (ok, left, kept) =
          reads.scan_row ts made x xs (reads.made_rows base d ∙ e)
            (sym (made-OneColumn base iter d o).one) in
        (
          iter,
          ap (λ b. returned b iter (driver.scan ts made).0) ok,
          record { one = ap length kept ∙ (made-OneColumn base iter d o).one; no_err = o.no_err },
          left,
          reads.loads_value base d x xs (types.implements_udt v []) e,
        );
    end = λ iter d o e.
        let (made, v) = driver.new base d in
        let ts = field_of v [] (types.implements_udt v []) ∷ [] in
        (
          iter,
          ap (λ b. returned b iter (driver.scan ts made).0)
              (reads.scan_end ts made (reads.made_rows base d ∙ e)),
          o.no_err,
        );
  }

  -- `Select` by an iterator without an error, of which `StructOnly` was not called: a slice of
  -- scannable values gets, from rows of one column, one element for each row, in order, which
  -- holds what the row has; it is not written where there is no row. The error is then the one of
  -- the driver's `Close`. The loop ends: fuel for one round more than there are rows is enough.
  pub select-values :
      (fuel : ℕ) (value : V) (elem : T) (iter : Iterx V E) (d : D)
      → r.slice_of (r.deref (types.type_of value)) ≡ some elem
      → r.is_pointer elem ≡ false
      → is_scannable r (r.deref elem) ≡ true
      → iter.struct_only ≡ false
      → length (driver.columns d) ≡ 1
      → iter.err ≡ none
      → length (reads.rows d) < fuel
      → let es = map (λ x. by_value (reads.decode_value x)) (reads.rows d) in
        let targets : V → List (Target V) = λ v. field_of v [] (types.implements_udt v []) ∷ [] in
        let closing =
          driver.close
            (assigned (store value) es (scanned driver targets (r.deref elem) (reads.rows d) d)) in
        (closed : Iterx V E) × (select types r driver store fuel (points_to value) iter d
          ≡ ends closed closing.0 (slice es))
        × (closed.err ≡ Option.map IterError.driver closing.1)
  select-values fuel value elem iter d hsl hp hs all hl he hfuel =
      let base = r.deref elem in
      let es = map (λ x. by_value (reads.decode_value x)) (reads.rows d) in
      let d' =
        scanned driver (λ v. field_of v [] (types.implements_udt v []) ∷ []) base (reads.rows d)
          d in
      let (iter', looped, no_err) =
        scan_rows-ends types r driver store reads (Rounds-values base) (reads.rows d) fuel iter d
          none (record { one = hl; no_err = he }) refl hfuel in
      let (closed, selected, err) =
        select-scan_rows types r driver store fuel value elem iter iter' d d' true es hsl
          (check_base-value types r base (driver.columns d) iter hs all
            (subst (λ n. n < 2) (sym hl) (omega arith)))
          (ap (λ is_ptr. scan_rows types r driver store fuel true is_ptr base iter d none) hp
            ∙ looped
            ∙ ap (ends iter' d')
                (extend-none (map (λ x. by_value (reads.decode_value x)) (reads.rows d))))
          no_err in
      (closed, selected, err)
