-- ===== src/Schemagen/Keyspace/Packages.antt =====
-- The imports that `renderTemplate` gives the template.
use cqlx.Common.{
  Bytes, List, [], ◌∷◌, ◌++◌, Bool, true, false, not, ◌&&◌, ◌||◌, is_empty, if◌then◌else◌, ◌≡◌,
  refl, Option, none, some, sym, ap, ap₂, ◌∙◌, arith,
}
use cqlx.Common.Strings.{equal}
use cqlx.Schemagen.Imports.Needed.{needs, exists-collect_imports}
use cqlx.Schemagen.Imports.Unique.{IsUnique, collect_imports-IsUnique}
use cqlx.Schemagen.Imports.{collect_imports}
use cqlx.Schemagen.Keyspace.Columns.{
  any, column_types, base_types, table_types, view_types, field_types, import_types-append,
  import_tables_lem, import_views_lem, import_user_types_lem,
}
use cqlx.Schemagen.Keyspace.{
  KeyspaceMetadata, import_types, keyspace_imports, cqlx_package, sort_columns, sort_table,
  map_values, prepare, drop_orphans, resolve_udt_references, remove_ignored, split_commas,
  TableMetadata, ViewMetadata,
}
use cqlx.Schemagen.References.{exists_in_slice}
use cqlx.Schemagen.Types.{TypeInfo}
use mathlib.Core.Option

exists-import_types :
    (ts : List TypeInfo) (imports : List Bytes) (p : Bytes)
    → exists_in_slice (import_types ts imports) p ≡ (exists_in_slice imports p || any (needs p) ts)
unfolding import_types any
exists-import_types [] imports p = ground arith
exists-import_types (t ∷ ts) imports p = ground (
  arith,
  exists-import_types ts (collect_imports t imports) p,
  exists-collect_imports t imports p,
)

import_types-IsUnique :
    (ts : List TypeInfo) (imports : List Bytes)
    → IsUnique imports
    → IsUnique (import_types ts imports)
unfolding import_types
import_types-IsUnique [] imports u = u
import_types-IsUnique (t ∷ ts) imports u =
    import_types-IsUnique ts _ (collect_imports-IsUnique t imports u)

-- The types of a keyspace: of the columns of tables and of views' base tables, and of the fields.
unfoldable pub keyspace_types : KeyspaceMetadata → List TypeInfo
keyspace_types md = table_types md.tables ++ (view_types md.views ++ field_types md.user_types)

keyspace_imports_lem :
    (md : KeyspaceMetadata)
    → keyspace_imports md
      ≡ import_types (keyspace_types md) (if is_empty md.user_types then [] else cqlx_package ∷ [])
unfolding keyspace_imports keyspace_types
keyspace_imports_lem md =
    let first = if is_empty md.user_types then [] else cqlx_package ∷ [] in
    import_user_types_lem md.user_types _
    ∙ ap (import_types (field_types md.user_types)) (
        import_views_lem md.views _
        ∙ ap (import_types (view_types md.views)) (import_tables_lem md.tables first))
    ∙ sym (import_types-append (view_types md.views) (field_types md.user_types) _)
    ∙ sym (import_types-append (table_types md.tables) _ first)

starts_with_cqlx-IsUnique : (b : Bool) → IsUnique (if b then [] else cqlx_package ∷ [])
unfolding exists_in_slice
starts_with_cqlx-IsUnique true = tt
starts_with_cqlx-IsUnique false = (refl, tt)

starts_with_cqlx-exists :
    (b : Bool) (p : Bytes)
    → exists_in_slice (if b then [] else cqlx_package ∷ []) p ≡ (not b && equal p cqlx_package)
unfolding exists_in_slice
starts_with_cqlx-exists true p = refl
starts_with_cqlx-exists false p = ground arith

table_types-sort :
    (tables : List (Bytes × TableMetadata))
    → table_types (map_values sort_table tables) ≡ table_types tables
unfolding table_types map_values sort_table
table_types-sort [] = refl
table_types-sort ((k, t) ∷ tables) = ap (◌++◌ (column_types t.columns)) (table_types-sort tables)

base_types-sort : (o : Option TableMetadata) → base_types (Option.map sort_table o) ≡ base_types o
unfolding sort_table
base_types-sort none = refl
base_types-sort (some t) = refl

view_types-sort :
    (views : List (Bytes × ViewMetadata))
    → view_types (
        map_values
          (λ (v : ViewMetadata). record { base_table = Option.map sort_table v.base_table })
          views)
      ≡ view_types views
unfolding view_types map_values
view_types-sort [] = refl
view_types-sort ((k, v) ∷ views) = ap₂ ◌++◌ (base_types-sort v.base_table) (view_types-sort views)

keyspace_types-sort : (md : KeyspaceMetadata) → keyspace_types (sort_columns md) ≡ keyspace_types md
unfolding keyspace_types sort_columns
keyspace_types-sort md =
    ap₂ (λ a b. a ++ (b ++ field_types md.user_types)) (table_types-sort md.tables)
      (view_types-sort md.views)

-- A package is imported exactly if it is the one of this library and a user-defined type is
-- generated, or if a column or a field of what is generated holds, at any depth, a type of the
-- package.
pub prepare-imports :
    (print : TypeInfo → Bytes) (ignore_names : Bytes) (md : KeyspaceMetadata) (p : Bytes)
    → exists_in_slice (prepare print ignore_names md).1 p ≡ (
        (not (is_empty (prepare print ignore_names md).0.user_types) && equal p cqlx_package)
        || any (needs p) (keyspace_types (prepare print ignore_names md).0))
unfolding prepare
prepare-imports print ignore_names md p =
    let used =
      drop_orphans (resolve_udt_references print (remove_ignored (split_commas ignore_names) md)) in
    ap (λ imports. exists_in_slice imports p) (keyspace_imports_lem used)
    ∙ exists-import_types (keyspace_types used) _ p
    ∙ ap₂ ◌||◌ (starts_with_cqlx-exists (is_empty used.user_types) p ∙ unfold sort_columns in refl)
        (ap (any (needs p)) (sym (keyspace_types-sort used)))

-- The imports that the template is given hold no package twice.
pub prepare-IsUnique :
    (print : TypeInfo → Bytes) (ignore_names : Bytes) (md : KeyspaceMetadata)
    → IsUnique (prepare print ignore_names md).1
unfolding prepare
prepare-IsUnique print ignore_names md =
    let used =
      drop_orphans (resolve_udt_references print (remove_ignored (split_commas ignore_names) md)) in
    rw (keyspace_imports_lem used) (
      import_types-IsUnique (keyspace_types used) _
        (starts_with_cqlx-IsUnique (is_empty used.user_types)))
