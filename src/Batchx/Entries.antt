-- ===== src/Batchx/Entries.antt =====
-- What each method that binds leaves in a batch.
use cqlx.Batchx.{BatchError, add_args, bind, bind_map, bind_struct_map}
use cqlx.Common.{
  All, ℕ, Bytes, List, [], ◌∷◌, ◌++◌, Bool, true, Option, none, some, length, ◌==◌, ◌≡◌, ◌≢◌, ◌⊎◌,
  inl, inr, refl, Bool-cases, arith,
}
use cqlx.Queryx.Bound.{Returns, Returns-Binds, entry, Binds-length, bind_map_from-Binds}
use cqlx.Queryx.Struct.{Direct, Behind, Traverses, field_or_entry, bind_struct_args-Binds}
use cqlx.Queryx.{Any, Queryx, Mapper, Args}

module _ {S Q D : Type 0} (statement : Q → Bytes) (add : Bytes → List (Any S) → D → D)
    (entries : D → List (Bytes × List (Any S))) where
  -- Either there is no error, and the batch has one entry more, with the statement of the query and
  -- as many arguments as it has names; or there is an error, and the batch is as it was.
  abbrev pub Adds : Queryx S Q → D → D × Option BatchError → Type 0
  Adds q b (b', e) =
      ((e ≡ none)
        × (args : List (Any S)) × (length args ≡ length q.names)
        × (entries b' ≡ entries b ++ (statement q.query, args) ∷ []))
      ⊎ ((e ≢ none) × (b' ≡ b))

  module _
      (law : (s : Bytes) (args : List (Any S)) (b : D)
        → entries (add s args b) ≡ entries b ++ (s, args) ∷ []) where
    add_args-Adds :
        (q : Queryx S Q) (r : Args S) (b : D)
        → (r.1 ≡ none → length r.0 ≡ length q.names)
        → Adds q b (add_args statement add q r b)
    unfolding add_args
    add_args-Adds q (args, none) b h = inl (refl, args, h refl, law (statement q.query) args b)
    add_args-Adds q (args, some e) b h = inr (λ bad. cc, refl)

    -- `Bind`, `BindMap` and `BindStructMap` of a struct, or of pointers to one, each add one entry,
    -- with as many arguments as the query has names, or return an error and leave the batch as it
    -- was. None panics, if reading the fields of the names does not, nor the transformer of the
    -- values that the struct and the map have for them.
    pub bind-Adds :
        {T : Type 0} (mapper : Mapper S T) (path : T → Bytes → List ℕ) (is_struct : T → Bool)
        → Traverses mapper path is_struct
        → (q : Queryx S Q) (args : List (Any S)) (arg0 v : Any S) (arg1 : List (Bytes × Any S))
          (b : D)
        → Direct v
        → Behind v arg0
        → is_struct (mapper.type_of v) ≡ true
        → All (Returns q.tr (entry q.tr arg1)) q.names
        → All (Returns q.tr (field_or_entry mapper path v arg1)) q.names
        → Adds q b (bind statement add q args b)
          × (m : D × Option BatchError) × (bind_map statement add q arg1 b ≡ some m)
          × Adds q b m
          × (r : D × Option BatchError) × (bind_struct_map statement add mapper q arg0 arg1 b
              ≡ some r)
          × Adds q b r
    unfolding bind bind_map bind_struct_map
    bind-Adds mapper path is_struct traverses q args arg0 v arg1 b direct behind hs given read =
        let (m, from_map) = Returns-Binds q.tr (entry q.tr arg1) q.names given in
        let (r, returns, binds) =
          bind_struct_args-Binds mapper path is_struct traverses q arg0 v arg1 direct behind hs
            read in
        (
          counted,
          add_args statement add q m b,
          rw (bind_map_from-Binds q.tr arg1 from_map []) refl,
          add_args-Adds q m b (Binds-length q.tr _ from_map),
          add_args statement add q r b,
          rw returns refl,
          add_args-Adds q r b (Binds-length q.tr _ binds),
        )
      where
        counted : Adds q b (bind statement add q args b)
        counted = elim (Bool-cases (length q.names == length args)) [
          | inl same ↦
              rw same (inl (refl, args, ground (arith, same), law (statement q.query) args b))
          | inr other ↦ rw other (inr (λ bad. cc, refl))
        ]
