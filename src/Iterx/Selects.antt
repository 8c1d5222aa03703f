-- ===== src/Iterx/Selects.antt =====
-- `Select` of a slice of structs.
use cqlx.Common.{
  ℕ, ◌<◌, Bytes, List, Bool, true, false, none, some, map, length, ◌≡◌, ◌⊎◌, inl, inr, refl, sym,
  ap, ◌∙◌, Bool-cases,
}
use cqlx.Iterx.All.{Elem, by_value, ends, scan_rows, scan_elems, scan_all, select}
use cqlx.Iterx.Rows.{
  ReadsRows, Rounds, scan_rows-ends, slice, extend, extend-none, assigned, scanned, set_slice-slice,
}
use cqlx.Iterx.Scan.{
  points_to, Reflection, Driver, returned, is_scannable, check_base, accepted, scan_one,
  scan_struct, close,
}
use cqlx.Iterx.Targets.{
  columns_to, overlay-initial_values, overlay, paths, struct_scan-first, struct_scan-next,
  length-overlay, length-initial_values,
}
use cqlx.Iterx.{
  Target, IterError, Iterx, scans, Types, missing_fields, is_cas, initial_values, struct_scan,
}
use mathlib.Core.Option

module _ {V T L E D : Type 0} (types : Types V T) (r : Reflection T) (driver : Driver V T L E D)
    (store : V → List (Elem V L) → D → D) where
  check_base-struct :
      (base : T) (columns : List Bytes) (iter : Iterx V E)
      → is_scannable r base ≡ false
      → check_base r base columns iter ≡ accepted false
  unfolding check_base
  check_base-struct base columns iter h = elim (Bool-cases iter.struct_only) [
    | inl only ↦ rw (only, h) refl
    | inr all ↦ rw (all, h) refl
  ]

  -- From the loop to the result, where the loop reports no error.
  pub select-scan_rows :
      (fuel : ℕ) (value : V) (elem : T) (iter iter' : Iterx V E) (d d' : D) (scannable : Bool)
      (es : List (Elem V L))
      → r.slice_of (r.deref (types.type_of value)) ≡ some elem
      → check_base r (r.deref elem) (driver.columns d) iter ≡ accepted scannable
      → scan_rows types r driver store fuel scannable (r.is_pointer elem) (r.deref elem) iter d none
        ≡ ends iter' d' (slice es)
      → iter'.err ≡ none
      → let closing = driver.close (assigned (store value) es d') in
        (closed : Iterx V E) × (select types r driver store fuel (points_to value) iter d
          ≡ ends closed closing.0 (slice es))
        × (closed.err ≡ Option.map IterError.driver closing.1)
  unfolding select scan_all scan_elems close
  select-scan_rows fuel value elem iter iter' d d' scannable es hsl hc hl he =
      let closing = driver.close (assigned (store value) es d') in
      let all : scan_all types r driver store fuel (points_to value) iter d
          ≡ ends iter' (assigned (store value) es d') (slice es) =
        rw (hsl, scan_all)
          (rw (hc, scan_elems)
            (rw hl (
              ap (λ d. ends iter' d (slice es))
                (set_slice-slice types r driver store value es d')))) in
      (
        record iter' { err = Option.map IterError.driver closing.1 },
        rw (all, select) (rw (he, close) refl),
        refl,
      )

module _ {V T L E D Row : Type 0} (types : Types V T) (r : Reflection T) (driver : Driver V T L E D)
    (store : V → List (Elem V L) → D → D) (reads : ReadsRows types r driver Row) where
  -- The paths of the columns in new destinations.
  abbrev pub new_paths : T → List Bytes → List (List ℕ)
  new_paths base columns = types.traversals_by_name (reads.pointer_to base) columns

  -- An iterator that has scanned structs of the type only.
  pub record Ready (base : T) (columns : List Bytes) (iter : Iterx V E) (d : D) : Type 0 where
    pub same_columns : driver.columns d ≡ columns
    pub no_err : iter.err ≡ none
    pub made :
        ((iter.fields ≡ none)
          × (iter.strict ≡ true
              → is_cas columns ≡ false
              → missing_fields 0 (new_paths base columns) ≡ none))
        ⊎ ((iter.fields ≡ some (new_paths base columns))
            × (before : V) × (iter.values
                ≡ overlay types before (new_paths base columns) (initial_values columns)))

  module _ (base : T) (columns : List Bytes) (is_struct : r.is_struct_type base ≡ true)
      (each_column : length (new_paths base columns) ≡ length columns) where
    -- One scan, into a destination of the type.
    struct_scan-Ready :
        (iter : Iterx V E) (d : D) (value : V)
        → Ready base columns iter d
        → types.type_of value ≡ reads.pointer_to base
        → types.is_struct value ≡ true
        → (iter' : Iterx V E) × (struct_scan types columns value iter ≡ scans iter')
          × (iter'.values ≡ overlay types value (new_paths base columns) (initial_values columns))
          × (iter'.fields ≡ some (new_paths base columns))
          × (iter'.err ≡ none)
    struct_scan-Ready iter d value ready ht hs = elim ready.made [
      | inl (hf, hm) ↦
          let same : paths types value columns ≡ new_paths base columns =
            ap (λ t. types.traversals_by_name t columns) ht in
          (
            _,
            struct_scan-first types columns value iter hf hs (ap length same ∙ each_column)
                (λ strict cas. ap (missing_fields 0) same ∙ hm strict cas),
            ap (λ fs. overlay types value fs (initial_values columns)) same,
            ap some same,
            ready.no_err,
          )
      | inr (hf, before, hv) ↦ (
        _,
        struct_scan-next types columns value before iter (new_paths base columns) hf hs each_column
            hv,
        refl,
        refl,
        ready.no_err,
      )
    ]

    -- The scan of a row, or of its absence, into a new destination.
    scan_struct-Ready :
        (iter : Iterx V E) (d : D) (value : V)
        → Ready base columns iter d
        → types.type_of value ≡ reads.pointer_to base
        → types.is_struct value ≡ true
        → let ts = overlay types value (new_paths base columns) (initial_values columns) in
          (iter' : Iterx V E) × (scan_struct types r driver value iter d
            ≡ returned (driver.scan ts d).1 iter' (driver.scan ts d).0)
          × (iter'.err ≡ none)
          × (iter'.fields ≡ some (new_paths base columns))
          × (iter'.values ≡ ts)
    unfolding scan_struct
    scan_struct-Ready iter d value ready ht hs =
        let (iter', scanned, hv, hf, he) = struct_scan-Ready iter d value ready ht hs in
        (
          iter',
          rw (ap (λ cs. struct_scan types cs value iter) ready.same_columns ∙ scanned, scan_struct)
              (ap (λ ts. returned (driver.scan ts d).1 iter' (driver.scan ts d).0) hv),
          he,
          hf,
          hv,
        )

    made-Ready :
        (iter : Iterx V E) (d : D)
        → Ready base columns iter d
        → Ready base columns iter (driver.new base d).0
    made-Ready iter d ready = record {
      same_columns = reads.made_columns base d ∙ ready.same_columns;
      no_err = ready.no_err;
      made = ready.made;
    }

    Rounds-structs :
        Rounds types r driver store reads false base
          (λ v. overlay types v (new_paths base columns) (initial_values columns))
          (Ready base columns)
          (λ x. reads.decode x (new_paths base columns))
    unfolding scan_one
    Rounds-structs = record {
      row = λ iter d x xs ready e.
          let (made, v) = driver.new base d in
          let ts = overlay types v (new_paths base columns) (initial_values columns) in
          let (iter', scanned, he, hf, hv) =
            scan_struct-Ready iter made v (made-Ready iter d ready) (reads.made_type base d)
              (reads.made_struct base d ∙ is_struct) in
          let same = (made-Ready iter d ready).same_columns in
          let (ok, left, kept) = reads.scan_row ts made x xs (reads.made_rows base d ∙ e) (
            length-overlay types v (new_paths base columns) (initial_values columns)
            ∙ length-initial_values V columns
            ∙ ap length (sym same)) in
          (
            iter',
            scanned ∙ ap (λ b. returned b iter' (driver.scan ts made).0) ok,
            record { same_columns = kept ∙ same; no_err = he; made = inr (hf, v, hv) },
            left,
            ap
                  (λ cs.
                    driver.load v
                      (driver.scan (overlay types v (new_paths base columns) (initial_values cs))
                        made).0)
                  (sym ready.same_columns)
                ∙ reads.loads base d x xs (new_paths base columns) e,
          );
      end = λ iter d ready e.
          let (made, v) = driver.new base d in
          let ts = overlay types v (new_paths base columns) (initial_values columns) in
          let (iter', scanned, he, hf, hv) =
            scan_struct-Ready iter made v (made-Ready iter d ready) (reads.made_type base d)
              (reads.made_struct base d ∙ is_struct) in
          let same = (made-Ready iter d ready).same_columns in
          (
            iter',
            scanned
                ∙ ap (λ b. returned b iter' (driver.scan ts made).0)
                    (reads.scan_end ts made (reads.made_rows base d ∙ e)),
            he,
          );
    }

  -- `Select` by an iterator without an error that has scanned nothing: a slice of structs, whose
  -- type is not scannable and for which the mapper gives a path for each column, gets one element
  -- for each row, in order, which holds what the row has for its fields; it is not written where
  -- there is no row. In strict mode, no path is empty unless the first column is `[applied]`. The
  -- error is then the one of the driver's `Close`. Fuel for one round more than there are rows is
  -- enough.
  pub select-structs :
      (fuel : ℕ) (value : V) (elem : T) (iter : Iterx V E) (d : D)
      → r.slice_of (r.deref (types.type_of value)) ≡ some elem
      → r.is_pointer elem ≡ false
      → r.is_struct_type (r.deref elem) ≡ true
      → is_scannable r (r.deref elem) ≡ false
      → length (new_paths (r.deref elem) (driver.columns d)) ≡ length (driver.columns d)
      → iter.err ≡ none
      → iter.fields ≡ none
      → (iter.strict ≡ true
          → is_cas (driver.columns d) ≡ false
          → missing_fields 0 (new_paths (r.deref elem) (driver.columns d)) ≡ none)
      → length (reads.rows d) < fuel
      → let es =
          map
            (λ x. by_value (reads.decode x (new_paths (r.deref elem) (driver.columns d))))
            (reads.rows d) in
        let targets : V → List (Target V) = λ v.
          columns_to types v true
            (driver.columns d)
            (new_paths (r.deref elem) (driver.columns d)) in
        let closing =
          driver.close
            (assigned (store value) es (scanned driver targets (r.deref elem) (reads.rows d) d)) in
        (closed : Iterx V E) × (select types r driver store fuel (points_to value) iter d
          ≡ ends closed closing.0 (slice es))
        × (closed.err ≡ Option.map IterError.driver closing.1)
  unfolding select scan_all scan_elems check_base close
  select-structs fuel value elem iter d hsl hp hs hn hl he hf hm hfuel =
      let base = r.deref elem in
      let content : Row → Elem V L =
        λ x. by_value (reads.decode x (new_paths base (driver.columns d))) in
      let ts = new_paths base (driver.columns d) in
      let as_filled : V → List (Target V) =
        λ v. overlay types v ts (initial_values (driver.columns d)) in
      let as_named : V → List (Target V) = λ v. columns_to types v true (driver.columns d) ts in
      let same : as_filled ≡ as_named =
        λ i v. overlay-initial_values types v (driver.columns d) ts hl i in
      let d' = scanned driver as_named base (reads.rows d) d in
      let (iter', looped, no_err) =
        scan_rows-ends types r driver store reads (Rounds-structs base (driver.columns d) hs hl)
          (reads.rows d) fuel iter d none
          (record { same_columns = refl; no_err = he; made = inl (hf, hm) }) refl hfuel in
      let (closed, selected, err) =
        select-scan_rows types r driver store fuel value elem iter iter' d d' false
          (map content (reads.rows d)) hsl
          (check_base-struct types r driver store base (driver.columns d) iter hn)
          (ap (λ is_ptr. scan_rows types r driver store fuel false is_ptr base iter d none) hp
            ∙ looped
            ∙ ap
                (λ f.
                  ends iter' (scanned driver f base (reads.rows d) d)
                    (extend none (map content (reads.rows d))))
                same
            ∙ ap (ends iter' d') (extend-none (map content (reads.rows d))))
          no_err in
      (closed, selected, err)
