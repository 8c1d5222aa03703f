-- ===== src/Schemagen/Keyspace/Columns.antt =====
-- The types that the loops of `renderTemplate` go through, as lists.
use cqlx.Common.{
  Bytes, List, [], ◌∷◌, ◌++◌, Bool, false, ◌||◌, Option, none, some, map, ◌≡◌, refl, sym, ap, ap₂,
  ◌∙◌, arith, map-append,
}
use cqlx.Schemagen.Imports.{collect_imports}
use cqlx.Schemagen.Keyspace.{
  Column, TableMetadata, ViewMetadata, UserType, map_values, used_in_columns, used_in_tables,
  used_in_base, used_in_views, rewrite_table, import_types, update_imports, import_tables,
  import_base, import_views, import_user_types,
}
use cqlx.Schemagen.Types.{TypeInfo}
use cqlx.Schemagen.Usage.{type_uses_name}
use mathlib.Core.Option

-- Some element passes the test.
unfoldable pub any {ℓ} : {A : Type ℓ} → (A → Bool) → List A → Bool
any test [] = false
any test (x ∷ xs) = test x || any test xs

pub any-append {ℓ} :
    {A : Type ℓ} (test : A → Bool) (xs ys : List A)
    → any test (xs ++ ys) ≡ (any test xs || any test ys)
unfolding any
any-append test [] ys = refl
any-append test (x ∷ xs) ys = ground (arith, any-append test xs ys)

pub any-map {ℓ κ} :
    {A : Type ℓ} {B : Type κ} (test : B → Bool) (f : A → B) (xs : List A)
    → any test (map f xs) ≡ any (λ x. test (f x)) xs
unfolding any
any-map test f [] = refl
any-map test f (x ∷ xs) = ap (λ b. test (f x) || b) (any-map test f xs)

pub any-cong {ℓ} :
    {A : Type ℓ} (f g : A → Bool) (xs : List A) → ((x : A) → f x ≡ g x) → any f xs ≡ any g xs
unfolding any
any-cong f g [] h = refl
any-cong f g (x ∷ xs) h = ap₂ ◌||◌ (h x) (any-cong f g xs h)

abbrev pub column_types : List Column → List TypeInfo
column_types = map (λ (c : Column). c.type_info)

unfoldable pub table_types : List (Bytes × TableMetadata) → List TypeInfo
table_types [] = []
table_types ((k, t) ∷ tables) = column_types t.columns ++ table_types tables

abbrev pub base_types : Option TableMetadata → List TypeInfo
base_types none = []
base_types (some t) = column_types t.columns

unfoldable pub view_types : List (Bytes × ViewMetadata) → List TypeInfo
view_types [] = []
view_types ((k, v) ∷ views) = base_types v.base_table ++ view_types views

unfoldable pub field_types : List (Bytes × UserType) → List TypeInfo
field_types [] = []
field_types ((k, u) ∷ user_types) = u.field_types ++ field_types user_types

module _ (n : Bytes) where
  used_in_columns-any :
      (columns : List Column)
      → used_in_columns n columns ≡ any (λ t. type_uses_name t n) (column_types columns)
  unfolding used_in_columns any
  used_in_columns-any [] = refl
  used_in_columns-any (c ∷ columns) = ground (arith, used_in_columns-any columns)

  pub used_in_tables-any :
      (tables : List (Bytes × TableMetadata))
      → used_in_tables n tables ≡ any (λ t. type_uses_name t n) (table_types tables)
  unfolding used_in_tables table_types
  used_in_tables-any [] = unfold any in refl
  used_in_tables-any ((k, t) ∷ tables) =
      rw (any-append (λ t. type_uses_name t n) (column_types t.columns) (table_types tables))
        (ground (arith, used_in_columns-any t.columns, used_in_tables-any tables))

  used_in_base-any :
      (o : Option TableMetadata) → used_in_base n o ≡ any (λ t. type_uses_name t n) (base_types o)
  unfolding used_in_base
  used_in_base-any none = unfold any in refl
  used_in_base-any (some t) = used_in_columns-any t.columns

  pub used_in_views-any :
      (views : List (Bytes × ViewMetadata))
      → used_in_views n views ≡ any (λ t. type_uses_name t n) (view_types views)
  unfolding used_in_views view_types
  used_in_views-any [] = unfold any in refl
  used_in_views-any ((k, v) ∷ views) =
      rw (any-append (λ t. type_uses_name t n) (base_types v.base_table) (view_types views))
        (ground (arith, used_in_base-any v.base_table, used_in_views-any views))

module _ (rewrite : TypeInfo → TypeInfo) where
  columns-rewrite :
      (columns : List Column)
      → column_types (map (λ (c : Column). record c { type_info = rewrite c.type_info }) columns)
        ≡ map rewrite (column_types columns)
  columns-rewrite [] = refl
  columns-rewrite (c ∷ columns) = ap (◌∷◌ (rewrite c.type_info)) (columns-rewrite columns)

  pub table_types-rewrite :
      (tables : List (Bytes × TableMetadata))
      → table_types (map_values (rewrite_table rewrite) tables) ≡ map rewrite (table_types tables)
  unfolding table_types map_values rewrite_table
  table_types-rewrite [] = refl
  table_types-rewrite ((k, t) ∷ tables) =
      ap₂ ◌++◌ (columns-rewrite t.columns) (table_types-rewrite tables)
      ∙ sym (map-append rewrite (column_types t.columns) (table_types tables))

  base-rewrite :
      (o : Option TableMetadata)
      → base_types (Option.map (rewrite_table rewrite) o) ≡ map rewrite (base_types o)
  unfolding rewrite_table
  base-rewrite none = refl
  base-rewrite (some t) = columns-rewrite t.columns

  pub view_types-rewrite :
      (views : List (Bytes × ViewMetadata))
      → view_types (
          map_values
            (λ (v : ViewMetadata). record {
              base_table = Option.map (rewrite_table rewrite) v.base_table;
            })
            views)
        ≡ map rewrite (view_types views)
  unfolding view_types map_values
  view_types-rewrite [] = refl
  view_types-rewrite ((k, v) ∷ views) =
      ap₂ ◌++◌ (base-rewrite v.base_table) (view_types-rewrite views)
      ∙ sym (map-append rewrite (base_types v.base_table) (view_types views))

pub import_types-append :
    (xs ys : List TypeInfo) (imports : List Bytes)
    → import_types (xs ++ ys) imports ≡ import_types ys (import_types xs imports)
unfolding import_types
import_types-append [] ys imports = refl
import_types-append (t ∷ xs) ys imports = import_types-append xs ys (collect_imports t imports)

pub import_tables_lem :
    (tables : List (Bytes × TableMetadata)) (imports : List Bytes)
    → import_tables tables imports ≡ import_types (table_types tables) imports
unfolding import_tables table_types update_imports
import_tables_lem [] imports = unfold import_types in refl
import_tables_lem ((k, t) ∷ tables) imports =
    import_tables_lem tables _
    ∙ sym (import_types-append (column_types t.columns) (table_types tables) imports)

import_base_lem :
    (o : Option TableMetadata) (imports : List Bytes)
    → import_base o imports ≡ import_types (base_types o) imports
unfolding import_base update_imports
import_base_lem none imports = unfold import_types in refl
import_base_lem (some t) imports = refl

pub import_views_lem :
    (views : List (Bytes × ViewMetadata)) (imports : List Bytes)
    → import_views views imports ≡ import_types (view_types views) imports
unfolding import_views view_types
import_views_lem [] imports = unfold import_types in refl
import_views_lem ((k, v) ∷ views) imports =
    import_views_lem views _
    ∙ ap (import_types (view_types views)) (import_base_lem v.base_table imports)
    ∙ sym (import_types-append (base_types v.base_table) (view_types views) imports)

pub import_user_types_lem :
    (user_types : List (Bytes × UserType)) (imports : List Bytes)
    → import_user_types user_types imports ≡ import_types (field_types user_types) imports
unfolding import_user_types field_types
import_user_types_lem [] imports = unfold import_types in refl
import_user_types_lem ((k, u) ∷ user_types) imports =
    import_user_types_lem user_types _
    ∙ sym (import_types-append u.field_types (field_types user_types) imports)
