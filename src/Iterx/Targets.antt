-- ===== src/Iterx/Targets.antt =====
-- Where `structScan` lets the columns of a row go, call after call.
use cqlx.Common.Strings.{equal}
use cqlx.Common.{
  codes, ℕ, suc, All, Bytes, List, [], ◌∷◌, ◌++◌, Bool, true, false, not, ◌&&◌, is_empty, length,
  if◌then◌else◌, none, some, ◌≡◌, refl, sym, ap, ap₂, ◌∙◌, Bool-cases, inl, inr, arith,
  append_assoc, length-append,
}
use cqlx.Iterx.{
  Target, nil_target, applied_flag, field_of, Iterx, scans, Types, missing_fields, is_cas,
  nil_values, initial_values, fields_by_traversal, make_fields, fill_values, fill, filled,
  struct_scan,
}
use cqlx.Queryx.Struct.{set_elem-middle}

module _ {V T : Type 0} (types : Types V T) where
  -- The column goes to the field of the destination, or where it has none to what it went to.
  unfoldable pub target : V → List ℕ → Target V → Target V
  target value t old = if is_empty t then old else field_of value t (types.implements_udt value t)

  unfoldable pub overlay : V → List (List ℕ) → List (Target V) → List (Target V)
  unfolding target
  overlay value [] values = values
  overlay value (t ∷ traversals) [] = []
  overlay value (t ∷ traversals) (old ∷ values) =
      target value t old ∷ overlay value traversals values

  -- The fields of another destination leave nothing of those before.
  pub overlay-overlay :
      (value value' : V) (traversals : List (List ℕ)) (values : List (Target V))
      → overlay value' traversals (overlay value traversals values)
        ≡ overlay value' traversals values
  unfolding overlay
  overlay-overlay value value' [] values = refl
  overlay-overlay value value' (t ∷ traversals) [] = refl
  overlay-overlay value value' (t ∷ traversals) (old ∷ values) = elim (Bool-cases (is_empty t)) [
    | inl h ↦ rw h (ap (◌∷◌ old) (overlay-overlay value value' traversals values))
    | inr h ↦ rw h (
        ap (◌∷◌ (field_of value' t (types.implements_udt value' t)))
          (overlay-overlay value value' traversals values))
  ]

  pub length-overlay :
      (value : V) (traversals : List (List ℕ)) (values : List (Target V))
      → length (overlay value traversals values) ≡ length values
  unfolding overlay
  length-overlay value [] values = refl
  length-overlay value (t ∷ traversals) [] = refl
  length-overlay value (t ∷ traversals) (old ∷ values) =
      ap suc (length-overlay value traversals values)

  -- A destination without fields for the columns leaves what they went to.
  pub overlay-empty :
      (value : V) (traversals : List (List ℕ)) (values : List (Target V))
      → All (λ t. is_empty t ≡ true) traversals
      → length traversals ≡ length values
      → overlay value traversals values ≡ values
  unfolding overlay target
  overlay-empty value [] values hs hl = refl
  overlay-empty value (t ∷ traversals) [] hs hl = absurd (omega arith)
  overlay-empty value (t ∷ traversals) (old ∷ values) (h, hs) hl =
      rw h (ap (◌∷◌ old) (overlay-empty value traversals values hs (omega (arith, hl))))

  fields_by_traversal-append :
      (value : V) (i : ℕ) (traversals : List (List ℕ)) (before values : List (Target V))
      → i ≡ length before
      → length traversals ≡ length values
      → fields_by_traversal types value i traversals (before ++ values)
        ≡ some (before ++ overlay value traversals values)
  unfolding fields_by_traversal overlay target
  fields_by_traversal-append value i [] before values hi hl = refl
  fields_by_traversal-append value i (t ∷ traversals) before [] hi hl = absurd (omega arith)
  fields_by_traversal-append value i (t ∷ traversals) before (old ∷ values) hi hl =
      let behind : (x : Target V)
          → fields_by_traversal types value (suc i) traversals (before ++ x ∷ values)
            ≡ some (before ++ x ∷ overlay value traversals values) =
        λ x.
          ap (fields_by_traversal types value (suc i) traversals)
            (sym (append_assoc before (x ∷ []) values))
          ∙ fields_by_traversal-append value (suc i) traversals (before ++ x ∷ []) values
              (omega (arith, hi, length-append before (x ∷ []))) (omega (arith, hl))
          ∙ ap some (append_assoc before (x ∷ []) (overlay value traversals values)) in
      elim (Bool-cases (is_empty t)) [
        | inl h ↦ rw (h, fields_by_traversal, target) (behind old)
        | inr h ↦
            rw (h, fields_by_traversal, target, set_elem-middle before old _ values i hi)
              (behind (field_of value t (types.implements_udt value t)))
      ]

length-nil_values :
    (V : Type 0) (columns : List Bytes) → length (nil_values {V = V} columns) ≡ length columns
unfolding nil_values
length-nil_values V [] = refl
length-nil_values V (c ∷ columns) = ap suc (length-nil_values V columns)

pub length-initial_values :
    (V : Type 0) (columns : List Bytes) → length (initial_values {V = V} columns) ≡ length columns
unfolding initial_values
length-initial_values V [] = refl
length-initial_values V (c ∷ columns) = ap suc (length-nil_values V columns)

module _ {V T : Type 0} (types : Types V T) where
  -- Each column to its field, one without a field to the flag `applied` if it is the first and
  -- named `[applied]`, and any other nowhere.
  unfoldable pub columns_to : V → Bool → List Bytes → List (List ℕ) → List (Target V)
  columns_to value first [] ts = []
  columns_to value first (c ∷ columns) [] = []
  columns_to value first (c ∷ columns) (t ∷ ts) =
      (if not (is_empty t)
        then field_of value t (types.implements_udt value t)
        else if first && equal c (codes "[applied]")
        then applied_flag
        else nil_target)
      ∷ columns_to value false columns ts

  overlay-nil_values :
      (value : V) (columns : List Bytes) (ts : List (List ℕ))
      → length ts ≡ length columns
      → overlay types value ts (nil_values columns) ≡ columns_to value false columns ts
  unfolding overlay target nil_values columns_to
  overlay-nil_values value [] [] h = refl
  overlay-nil_values value [] (t ∷ ts) h = absurd (omega arith)
  overlay-nil_values value (c ∷ columns) [] h = absurd (omega arith)
  overlay-nil_values value (c ∷ columns) (t ∷ ts) h = elim (Bool-cases (is_empty t)) [
    | inl e ↦ rw e (ap (◌∷◌ nil_target) (overlay-nil_values value columns ts (omega arith)))
    | inr e ↦ rw e (
        ap (◌∷◌ (field_of value t (types.implements_udt value t)))
          (overlay-nil_values value columns ts (omega arith)))
  ]

  pub overlay-initial_values :
      (value : V) (columns : List Bytes) (ts : List (List ℕ))
      → length ts ≡ length columns
      → overlay types value ts (initial_values columns) ≡ columns_to value true columns ts
  unfolding overlay target initial_values is_cas columns_to
  overlay-initial_values value [] [] h = refl
  overlay-initial_values value [] (t ∷ ts) h = absurd (omega arith)
  overlay-initial_values value (c ∷ columns) [] h = absurd (omega arith)
  overlay-initial_values value (c ∷ columns) (t ∷ ts) h = elim (Bool-cases (is_empty t)) [
    | inl e ↦ rw e (
        ap (◌∷◌ (if equal c (codes "[applied]") then applied_flag else nil_target))
          (overlay-nil_values value columns ts (omega arith)))
    | inr e ↦ rw e (
        ap (◌∷◌ (field_of value t (types.implements_udt value t)))
          (overlay-nil_values value columns ts (omega arith)))
  ]

if-either {ℓ} : {A : Type ℓ} (b : Bool) (x y : A) → (b ≡ true → x ≡ y) → (if b then x else y) ≡ y
if-either true x y h = h refl
if-either false x y h = refl

module _ {V T : Type 0} (types : Types V T) where
  -- The paths of the columns, as the mapper gives them.
  abbrev pub paths : V → List Bytes → List (List ℕ)
  paths value columns = types.traversals_by_name (types.type_of value) columns

module _ {V T E : Type 0} (types : Types V T) where
  fill_lem :
      (value : V) (iter : Iterx V E) (fields : List (List ℕ))
      → types.is_struct value ≡ true
      → iter.fields ≡ some fields
      → length fields ≡ length iter.values
      → fill types value iter
        ≡ scans (record iter { values = overlay types value fields iter.values })
  unfolding fill fill_values
  fill_lem value iter fields hs hf hl =
      rw (hf, fill)
        (rw (hs, fields_by_traversal-append types value 0 fields [] iter.values refl hl)
          (ap
            (λ f.
              scans (record iter { fields = f; values = overlay types value fields iter.values }))
            hf))

  make_fields_lem :
      (columns : List Bytes) (value : V) (iter : Iterx V E)
      → (iter.strict ≡ true
          → is_cas columns ≡ false
          → missing_fields 0 (paths types value columns) ≡ none)
      → make_fields types columns value iter
        ≡ scans (record iter {
          fields = some (paths types value columns);
          values = initial_values columns;
        })
  unfolding make_fields
  make_fields_lem columns value iter hm =
      if-either (iter.strict && not (is_cas columns)) _ _
        (λ h. rw (hm (ground (arith, h)) (ground (arith, h))) refl)

  -- The first scan makes the paths, and a later one takes those that are there.
  pub struct_scan-first :
      (columns : List Bytes) (value : V) (iter : Iterx V E)
      → iter.fields ≡ none
      → types.is_struct value ≡ true
      → length (paths types value columns) ≡ length columns
      → (iter.strict ≡ true
          → is_cas columns ≡ false
          → missing_fields 0 (paths types value columns) ≡ none)
      → struct_scan types columns value iter
        ≡ scans (record iter {
          fields = some (paths types value columns);
          values = overlay types value (paths types value columns) (initial_values columns);
        })
  unfolding struct_scan filled
  struct_scan-first columns value iter hf hs hl hm =
      let fs = paths types value columns in
      rw (hf, struct_scan)
        (ap (filled types value) (make_fields_lem columns value iter hm)
          ∙ fill_lem value (record iter { fields = some fs; values = initial_values columns }) fs hs
              refl (hl ∙ sym (length-initial_values V columns)))

  pub struct_scan-next :
      (columns : List Bytes) (value before : V) (iter : Iterx V E) (fs : List (List ℕ))
      → iter.fields ≡ some fs
      → types.is_struct value ≡ true
      → length fs ≡ length columns
      → iter.values ≡ overlay types before fs (initial_values columns)
      → struct_scan types columns value iter
        ≡ scans (record iter {
          fields = some fs;
          values = overlay types value fs (initial_values columns);
        })
  unfolding struct_scan filled
  struct_scan-next columns value before iter fs hf hs hl hv =
      let same : length fs ≡ length iter.values =
        hl
        ∙ sym (length-initial_values V columns)
        ∙ sym (length-overlay types before fs (initial_values columns))
        ∙ ap length (sym hv) in
      rw (hf, struct_scan)
        (fill_lem value iter fs hs hf same
          ∙ ap₂ (λ fields values. scans (record iter { fields = fields; values = values })) hf
              (ap (overlay types value fs) hv
                ∙ overlay-overlay types before value fs (initial_values columns)))

  -- A struct is scanned into its fields, and a second one after it into its own, with nothing left of
  -- the first: each column goes to the field that the mapper has for it, or else, of a conditional
  -- statement's first column to the flag `applied`, and of any other nowhere. This holds if the
  -- mapper gives a path for each column and, in strict mode and without the column `[applied]`,
  -- none that is empty.
  pub struct_scan-twice :
      (columns : List Bytes) (value value' : V) (iter : Iterx V E)
      → iter.fields ≡ none
      → types.is_struct value ≡ true
      → types.is_struct value' ≡ true
      → length (paths types value columns) ≡ length columns
      → (iter.strict ≡ true
          → is_cas columns ≡ false
          → missing_fields 0 (paths types value columns) ≡ none)
      → (first : Iterx V E) × (struct_scan types columns value iter ≡ scans first)
        × (first.values ≡ columns_to types value true columns (paths types value columns))
        × (second : Iterx V E) × (struct_scan types columns value' first ≡ scans second)
        × (second.values ≡ columns_to types value' true columns (paths types value columns))
  struct_scan-twice columns value value' iter hf hs hs' hl hm =
      let first = record iter {
        fields = some (paths types value columns);
        values = overlay types value (paths types value columns) (initial_values columns);
      } in
      (
        first,
        struct_scan-first columns value iter hf hs hl hm,
        overlay-initial_values types value columns (paths types value columns) hl,
        record first {
          values = overlay types value' (paths types value columns) (initial_values columns);
        },
        struct_scan-next columns value' value first (paths types value columns) refl hs' hl refl,
        overlay-initial_values types value' columns (paths types value columns) hl,
      )
