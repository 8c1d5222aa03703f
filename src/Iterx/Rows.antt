-- ===== src/Iterx/Rows.antt =====
-- What the driver is documented to do with rows, and the loop of `scanAll` over a driver that does.
use cqlx.Common.{
  ℕ, zero, suc, ◌<◌, List, [], ◌∷◌, ◌++◌, Bool, true, false, Option, none, some, map, length, ◌≡◌,
  refl, sym, ap, ◌∙◌, arith, append_assoc, append-nil,
}
use cqlx.Iterx.All.{Elem, by_value, ends, append_elem, elem_of, scan_rows, set_slice}
use cqlx.Iterx.Scan.{Reflection, Driver, returned, scan_one}
use cqlx.Iterx.Targets.{overlay}
use cqlx.Iterx.{Target, field_of, Iterx, Types, initial_values}

-- The driver has rows left, each of which can be scanned. `New` gives a destination of the type, and
-- reads none. `Scan` into as many targets as there are columns reads a row, and returns false where
-- none is left. A new destination then holds what its targets had of the row: `decode` with the path
-- of each column, `decode_value` where the destination was the target.
pub record ReadsRows {V T L E D : Type 0} (types : Types V T) (r : Reflection T)
    (driver : Driver V T L E D) (Row : Type 0) : Type 0 where
  pub rows : D → List Row
  pub pointer_to : T → T
  pub decode : Row → List (List ℕ) → L
  pub decode_value : Row → L
  pub made_rows : (b : T) (d : D) → rows (driver.new b d).0 ≡ rows d
  pub made_columns : (b : T) (d : D) → driver.columns (driver.new b d).0 ≡ driver.columns d
  pub made_type : (b : T) (d : D) → types.type_of (driver.new b d).1 ≡ pointer_to b
  pub made_struct : (b : T) (d : D) → types.is_struct (driver.new b d).1 ≡ r.is_struct_type b
  pub scan_end : (ts : List (Target V)) (d : D) → rows d ≡ [] → (driver.scan ts d).1 ≡ false
  pub scan_row :
      (ts : List (Target V)) (d : D) (x : Row) (xs : List Row)
      → rows d ≡ x ∷ xs
      → length ts ≡ length (driver.columns d)
      → ((driver.scan ts d).1 ≡ true)
        × (rows (driver.scan ts d).0 ≡ xs)
        × (driver.columns (driver.scan ts d).0 ≡ driver.columns d)
  pub loads :
      (b : T) (d : D) (x : Row) (xs : List Row) (paths : List (List ℕ))
      → rows d ≡ x ∷ xs
      → driver.load
          (driver.new b d).1
          (driver.scan
            (overlay types (driver.new b d).1 paths (initial_values (driver.columns d)))
            (driver.new b d).0).0
        ≡ decode x paths
  pub loads_value :
      (b : T) (d : D) (x : Row) (xs : List Row) (wrapped : Bool)
      → rows d ≡ x ∷ xs
      → driver.load
          (driver.new b d).1
          (driver.scan (field_of (driver.new b d).1 [] wrapped ∷ []) (driver.new b d).0).0
        ≡ decode_value x

-- Elements behind those that a slice has.
unfoldable pub extend :
    {V L : Type 0} → Option (List (Elem V L)) → List (Elem V L) → Option (List (Elem V L))
unfolding append_elem
extend v [] = v
extend v (e ∷ es) = extend (append_elem v e) es

extend-some :
    {V L : Type 0} (before es : List (Elem V L)) → extend (some before) es ≡ some (before ++ es)
unfolding extend
extend-some before [] = ap some (sym (append-nil before))
extend-some before (e ∷ es) =
    extend-some (before ++ e ∷ []) es ∙ ap some (append_assoc before (e ∷ []) es)

-- A slice, which is not allocated where it has no element.
unfoldable pub slice : {V L : Type 0} → List (Elem V L) → Option (List (Elem V L))
slice [] = none
slice (e ∷ es) = some (e ∷ es)

pub extend-none : {V L : Type 0} (es : List (Elem V L)) → extend none es ≡ slice es
unfolding extend slice append_elem
extend-none [] = refl
extend-none (e ∷ es) = extend-some (e ∷ []) es

-- What a destination of a slice gets: the elements, and nothing where there is none.
unfoldable pub assigned : {V L D : Type 0} → (List (Elem V L) → D → D) → List (Elem V L) → D → D
assigned assign [] d = d
assigned assign (e ∷ es) d = assign (e ∷ es) d

pub set_slice-slice :
    {V T L E D : Type 0} (types : Types V T) (r : Reflection T) (driver : Driver V T L E D)
    (store : V → List (Elem V L) → D → D) (value : V) (es : List (Elem V L)) (d : D)
    → set_slice types r driver store value (slice es) d ≡ assigned (store value) es d
unfolding set_slice slice assigned
set_slice-slice types r driver store value [] d = refl
set_slice-slice types r driver store value (e ∷ es) d = refl

module _ {V T L E D : Type 0} (driver : Driver V T L E D) (targets : V → List (Target V))
    (base : T) where
  -- One scan, to the targets in a new destination.
  abbrev pub scanned_once : D → D
  scanned_once d = (driver.scan (targets (driver.new base d).1) (driver.new base d).0).0

  -- A scan for each row, and one that finds none left.
  unfoldable pub scanned : {Row : Type 0} → List Row → D → D
  scanned [] d = scanned_once d
  scanned (x ∷ xs) d = scanned xs (scanned_once d)

module _ {V T L E D Row : Type 0} (types : Types V T) (r : Reflection T) (driver : Driver V T L E D)
    (store : V → List (Elem V L) → D → D) (reads : ReadsRows types r driver Row) where
  -- What one round needs: a property of the iterator that each scan keeps, and what a row gives.
  pub record Rounds (scannable : Bool) (base : T) (targets : V → List (Target V))
      (P : Iterx V E → D → Type 0) (content : Row → L) : Type 0 where
    pub row :
        (iter : Iterx V E) (d : D) (x : Row) (xs : List Row)
        → P iter d
        → reads.rows d ≡ x ∷ xs
        → let d' = scanned_once driver targets base d in
          (iter' : Iterx V E) × (scan_one types r driver scannable
              (driver.new base d).1
              iter
              (driver.new base d).0
            ≡ returned true iter' d')
          × P iter' d'
          × (reads.rows d' ≡ xs)
          × (driver.load (driver.new base d).1 d' ≡ content x)
    pub end :
        (iter : Iterx V E) (d : D)
        → P iter d
        → reads.rows d ≡ []
        → (iter' : Iterx V E) × (scan_one types r driver scannable
              (driver.new base d).1
              iter
              (driver.new base d).0
            ≡ returned false iter' (scanned_once driver targets base d))
          × (iter'.err ≡ none)

  -- With more fuel than rows the loop ends, behind one element for each row.
  pub scan_rows-ends :
      {scannable : Bool} {base : T} {targets : V → List (Target V)} {P : Iterx V E → D → Type 0}
      {content : Row → L}
      → Rounds scannable base targets P content
      → (xs : List Row) (fuel : ℕ) (iter : Iterx V E) (d : D) (v : Option (List (Elem V L)))
      → P iter d
      → reads.rows d ≡ xs
      → length xs < fuel
      → (iter' : Iterx V E) × (scan_rows types r driver store fuel scannable false base iter d v
          ≡ ends iter'
              (scanned driver targets base xs d)
              (extend v (map (λ x. by_value (content x)) xs)))
        × (iter'.err ≡ none)
  unfolding scan_rows extend elem_of scanned
  scan_rows-ends rounds xs zero iter d v p e h = absurd (omega arith)
  scan_rows-ends rounds [] (suc fuel) iter d v p e h =
      let (iter', one, p') = rounds.end iter d p e in (iter', rw (one, scan_rows) refl, p')
  scan_rows-ends {content = content} rounds (x ∷ xs) (suc fuel) iter d v p e h =
      let (iter', one, p', left, loaded) = rounds.row iter d x xs p e in
      let (iter'', rest, p'') =
        scan_rows-ends rounds xs fuel iter' _ (append_elem v (by_value (content x))) p' left
          (omega (arith, h)) in
      (iter'', rw (one, scan_rows, loaded) rest, p'')
