-- ===== src/Schemagen/Keyspace/Lookup.antt =====
-- Which entries of the maps `renderTemplate` keeps.
use cqlx.Common.{
  Bytes, List, [], ◌∷◌, map, Bool, true, false, not, ◌&&◌, ◌||◌, is_empty, if◌then◌else◌, ◌≡◌, refl,
  ap, ap₂, ◌∙◌, arith, Bool-cases, inl, inr,
}
use cqlx.Common.Strings.{equal, equal-eq}
use cqlx.Schemagen.Keyspace.Columns.{
  any, any-map, any-cong, table_types, view_types, used_in_tables-any, used_in_views-any,
  table_types-rewrite, view_types-rewrite,
}
use cqlx.Schemagen.Keyspace.{
  TableMetadata, ViewMetadata, UserType, KeyspaceMetadata, keep, keys, map_values, split_commas,
  used_in_tables, used_in_views, remove_ignored, rewrite_all, resolve_udt_references, drop_orphans,
  sort_columns, prepare,
}
use cqlx.Schemagen.References.{exists_in_slice, rewrite_udt_type_info}
use cqlx.Schemagen.Types.{TypeInfo}
use cqlx.Schemagen.Usage.Mentions.{mentions, type_uses_name-rewrite}
use cqlx.Schemagen.Usage.{type_uses_name}

module _ {ℓ} {V : Type ℓ} where
  -- The key is in the map.
  abbrev pub has : Bytes → List (Bytes × V) → Bool
  has n m = exists_in_slice (keys m) n

  pub has-keep :
      (test : Bytes → Bool) (n : Bytes) (m : List (Bytes × V))
      → has n (keep test m) ≡ (test n && has n m)
  unfolding keep keys exists_in_slice
  has-keep test n [] = ground arith
  has-keep test n ((k, v) ∷ m) = elim (Bool-cases (equal n k)) [
    | inl same ↦ elim (Bool-cases (test k)) [
      | inl kept ↦ rw (kept, same) (rw ((equal-eq n k).0 same) (rw kept refl))
      | inr gone ↦ rw (gone, same) (has-keep test n m ∙ rw ((equal-eq n k).0 same) (rw gone refl))
    ]
    | inr other ↦ ground (arith, has-keep test n m)
  ]

  pub has-map_values :
      (f : V → V) (n : Bytes) (m : List (Bytes × V)) → has n (map_values f m) ≡ has n m
  unfolding map_values keys exists_in_slice
  has-map_values f n [] = refl
  has-map_values f n ((k, v) ∷ m) = ap (if◌then◌else◌ (equal n k) true) (has-map_values f n m)

-- A type refers to the name, or is the text of a validator that does.
unfoldable pub refers : (TypeInfo → Bytes) → Bytes → TypeInfo → Bool
refers print n t = type_uses_name t n || mentions print t n

-- A column of a table or of a view's base table refers to the name.
unfoldable pub used_by_columns : (TypeInfo → Bytes) → Bytes → KeyspaceMetadata → Bool
used_by_columns print n md =
    any (refers print n) (table_types md.tables) || any (refers print n) (view_types md.views)

module _ (print : TypeInfo → Bytes) (udts : List Bytes) (keyspace n : Bytes)
    (known : exists_in_slice udts n ≡ true) where
  any-rewrite :
      (ts : List TypeInfo)
      → any (λ t. type_uses_name t n) (map (rewrite_udt_type_info print udts keyspace) ts)
        ≡ any (refers print n) ts
  unfolding refers
  any-rewrite ts =
      any-map (λ t. type_uses_name t n) (rewrite_udt_type_info print udts keyspace) ts
      ∙ any-cong _ _ ts (type_uses_name-rewrite print udts keyspace n known)

  used-rewrite_all :
      (md : KeyspaceMetadata)
      → (used_in_tables n (rewrite_all (rewrite_udt_type_info print udts keyspace) md).tables
          || used_in_views n (rewrite_all (rewrite_udt_type_info print udts keyspace) md).views)
        ≡ used_by_columns print n md
  unfolding rewrite_all used_by_columns
  used-rewrite_all md =
      ap₂ ◌||◌
        (used_in_tables-any n _
          ∙ ap (any _) (table_types-rewrite _ md.tables)
          ∙ any-rewrite (table_types md.tables))
        (used_in_views-any n _
          ∙ ap (any _) (view_types-rewrite _ md.views)
          ∙ any-rewrite (view_types md.views))

has-empty {ℓ} :
    {V : Type ℓ} (n : Bytes) (m : List (Bytes × V)) → is_empty m ≡ true → has n m ≡ false
unfolding keys exists_in_slice
has-empty n [] e = refl
has-empty n (x ∷ m) e = ground (arith, e)

-- What `resolve_udt_references` rewrites.
abbrev rewriting : (TypeInfo → Bytes) → KeyspaceMetadata → KeyspaceMetadata
rewriting print md = rewrite_all (rewrite_udt_type_info print (keys md.user_types) md.name) md

-- The test may be known at a key of the map only.
has-keep_known {ℓ} :
    {V : Type ℓ} (test : Bytes → Bool) (n : Bytes) (m : List (Bytes × V)) (b h : Bool)
    → has n m ≡ h
    → (h ≡ true → test n ≡ b)
    → has n (keep test m) ≡ (b && h)
has-keep_known test n m b true eh ht = has-keep test n m ∙ ap₂ ◌&&◌ (ht refl) eh
has-keep_known test n m b false eh ht = has-keep test n m ∙ ap (λ c. test n && c) eh ∙ ground arith

-- The orphans go once the references are resolved.
has-drop_orphans :
    (print : TypeInfo → Bytes) (md : KeyspaceMetadata) (n : Bytes)
    → has n (drop_orphans (resolve_udt_references print md)).user_types
      ≡ (used_by_columns print n md && has n md.user_types)
unfolding drop_orphans resolve_udt_references
has-drop_orphans print md n = elim (Bool-cases (is_empty md.user_types)) [
  | inl none_left ↦ rw none_left (
      has-keep_known (λ n. used_in_tables n md.tables || used_in_views n md.views) n md.user_types
        (used_by_columns print n md) (has n md.user_types) refl
        (λ known. ground (arith, has-empty n md.user_types none_left, known)))
  | inr some_left ↦ rw some_left (
      has-keep_known
        (λ n.
          used_in_tables n (rewriting print md).tables
          || used_in_views n (rewriting print md).views)
        n (rewriting print md).user_types (used_by_columns print n md) (has n md.user_types)
        (unfold rewrite_all in has-map_values {V = UserType} _ n md.user_types)
        (λ known. used-rewrite_all print (keys md.user_types) md.name n known md))
]

-- A user-defined type is generated exactly if the keyspace has it and a column of a table or of a
-- view's base table that is not ignored refers to it: as a reference, or as the text of a validator
-- that is the name in `frozen<…>`. The fields of other user-defined types do not count.
pub prepare-user_types :
    (print : TypeInfo → Bytes) (ignore_names : Bytes) (md : KeyspaceMetadata) (n : Bytes)
    → has n (prepare print ignore_names md).0.user_types ≡ (
        used_by_columns print n (remove_ignored (split_commas ignore_names) md)
        && has n md.user_types)
unfolding prepare sort_columns
prepare-user_types print ignore_names md n =
    has-drop_orphans print (remove_ignored (split_commas ignore_names) md) n
    ∙ unfold remove_ignored in refl

-- No name of a table or of a view comes or goes with the references.
has-resolve :
    (print : TypeInfo → Bytes) (md : KeyspaceMetadata) (n : Bytes)
    → (has n (resolve_udt_references print md).tables ≡ has n md.tables)
      × (has n (resolve_udt_references print md).views ≡ has n md.views)
unfolding resolve_udt_references rewrite_all
has-resolve print md n = elim (Bool-cases (is_empty md.user_types)) [
  | inl none_left ↦ rw none_left (refl, refl)
  | inr some_left ↦ rw some_left (
    has-map_values {V = TableMetadata} _ n md.tables,
    has-map_values {V = ViewMetadata} _ n md.views,
  )
]

-- The tables and the views that are generated are those of the keyspace whose names are not among
-- the pieces of the flag between commas.
pub prepare-names :
    (print : TypeInfo → Bytes) (ignore_names : Bytes) (md : KeyspaceMetadata) (n : Bytes)
    → (has n (prepare print ignore_names md).0.tables
        ≡ (not (exists_in_slice (split_commas ignore_names) n) && has n md.tables))
      × (has n (prepare print ignore_names md).0.views
          ≡ (not (exists_in_slice (split_commas ignore_names) n) && has n md.views))
unfolding prepare sort_columns drop_orphans
prepare-names print ignore_names md n =
    let kept = remove_ignored (split_commas ignore_names) md in
    let resolved = resolve_udt_references print kept in
    (
      has-map_values {V = TableMetadata} _ n resolved.tables
          ∙ (has-resolve print kept n).0
          ∙ (unfold remove_ignored in has-keep {V = TableMetadata} _ n md.tables),
      has-map_values {V = ViewMetadata} _ n resolved.views
          ∙ (has-resolve print kept n).1
          ∙ (unfold remove_ignored in has-keep {V = ViewMetadata} _ n md.views),
    )
