-- ===== src/Schemagen/Keyspace.antt =====
-- cmd/schemagen/schemagen.go: what `renderTemplate` does to the metadata of a keyspace before it
-- runs the template. A Go map is the list of its entries, in the order in which a loop meets them.
-- Of the driver's records the model has the fields that the code reads or writes.
pub mod Columns
pub mod Lookup
pub mod Packages
use cqlx.Common.{
  ℕ, Bytes, List, [], ◌∷◌, Bool, true, false, not, ◌&&◌, ◌||◌, if◌then◌else◌, ◌==◌, ltb, is_empty,
  Option, none, some, codes, map,
}
use cqlx.Common.Strings.{equal}
use cqlx.Schemagen.Imports.{collect_imports}
use cqlx.Schemagen.References.{exists_in_slice, rewrite_udt_type_info}
use cqlx.Schemagen.Types.{TypeInfo}
use cqlx.Schemagen.Usage.{type_uses_name}
use mathlib.Core.Option

-- A `ColumnMetadata` by its `Type`.
pub record Column : Type 0 where
  pub name : Bytes
  pub type_info : TypeInfo

pub record TableMetadata : Type 0 where
  pub columns : List Column
  pub ordered_columns : List Bytes

-- `none` is a nil `BaseTable`.
pub record ViewMetadata : Type 0 where
  pub base_table : Option TableMetadata

pub record UserType : Type 0 where
  pub field_types : List TypeInfo

pub record KeyspaceMetadata : Type 0 where
  pub name : Bytes
  pub tables : List (Bytes × TableMetadata)
  pub views : List (Bytes × ViewMetadata)
  pub user_types : List (Bytes × UserType)

module _ {ℓ} {V : Type ℓ} where
  -- The entries whose keys pass: what `delete` of the others leaves.
  unfoldable pub keep : (Bytes → Bool) → List (Bytes × V) → List (Bytes × V)
  keep test [] = []
  keep test ((k, v) ∷ m) = if test k then (k, v) ∷ keep test m else keep test m

  -- A loop that writes each value anew.
  unfoldable pub map_values : (V → V) → List (Bytes × V) → List (Bytes × V)
  map_values f [] = []
  map_values f ((k, v) ∷ m) = (k, f v) ∷ map_values f m

  unfoldable pub keys : List (Bytes × V) → List Bytes
  keys [] = []
  keys ((k, v) ∷ m) = k ∷ keys m

-- A byte in front of the first piece.
unfoldable pub onto_first : ℕ → List Bytes → List Bytes
onto_first c [] = (c ∷ []) ∷ []
onto_first c (p ∷ ps) = (c ∷ p) ∷ ps

-- `strings.Split(s, ",")`.
unfoldable pub split_commas : Bytes → List Bytes
unfolding onto_first
split_commas [] = [] ∷ []
split_commas (c ∷ s) =
    let pieces = split_commas s in if c == b',' then [] ∷ pieces else onto_first c pieces

-- The order of Go's strings.
unfoldable pub less : Bytes → Bytes → Bool
less [] [] = false
less [] (y ∷ ys) = true
less (x ∷ xs) [] = false
less (x ∷ xs) (y ∷ ys) = if x == y then less xs ys else ltb x y

unfoldable pub insert_sorted : Bytes → List Bytes → List Bytes
unfolding less
insert_sorted x [] = x ∷ []
insert_sorted x (y ∷ ys) = if less y x then y ∷ insert_sorted x ys else x ∷ y ∷ ys

-- `sort.Strings`.
unfoldable pub sort_strings : List Bytes → List Bytes
unfolding insert_sorted
sort_strings [] = []
sort_strings (x ∷ xs) = insert_sorted x (sort_strings xs)

-- `usedInColumns`, `usedInTables` and `usedInViews`.
unfoldable pub used_in_columns : Bytes → List Column → Bool
used_in_columns n [] = false
used_in_columns n (c ∷ columns) =
    if type_uses_name c.type_info n then true else used_in_columns n columns

unfoldable pub used_in_tables : Bytes → List (Bytes × TableMetadata) → Bool
used_in_tables n [] = false
used_in_tables n ((k, t) ∷ tables) =
    if used_in_columns n t.columns then true else used_in_tables n tables

unfoldable pub used_in_base : Bytes → Option TableMetadata → Bool
used_in_base n none = false
used_in_base n (some t) = used_in_columns n t.columns

unfoldable pub used_in_views : Bytes → List (Bytes × ViewMetadata) → Bool
unfolding used_in_base
used_in_views n [] = false
used_in_views n ((k, v) ∷ views) =
    if used_in_base n v.base_table then true else used_in_views n views

-- The deletion of the tables and views that the flag names.
unfoldable pub remove_ignored : List Bytes → KeyspaceMetadata → KeyspaceMetadata
unfolding keep
remove_ignored ignored md = record md {
  tables = keep (λ k. not (exists_in_slice ignored k)) md.tables;
  views = keep (λ k. not (exists_in_slice ignored k)) md.views;
}

module _ (rewrite : TypeInfo → TypeInfo) where
  unfoldable pub rewrite_table : TableMetadata → TableMetadata
  rewrite_table t = record t {
    columns = map (λ (c : Column). record c { type_info = rewrite c.type_info }) t.columns;
  }

  unfoldable pub rewrite_all : KeyspaceMetadata → KeyspaceMetadata
  unfolding map_values rewrite_table
  rewrite_all md = record md {
    tables = map_values rewrite_table md.tables;
    views =
        map_values
          (λ (v : ViewMetadata). record { base_table = Option.map rewrite_table v.base_table })
          md.views;
    user_types =
        map_values (λ (u : UserType). record { field_types = map rewrite u.field_types })
          md.user_types;
  }

-- `resolveUDTReferences`. The argument `print` is `fmt.Sprintf("%s", _)`.
unfoldable pub resolve_udt_references : (TypeInfo → Bytes) → KeyspaceMetadata → KeyspaceMetadata
unfolding rewrite_all keys
resolve_udt_references print md =
    if is_empty md.user_types
    then md
    else rewrite_all (rewrite_udt_type_info print (keys md.user_types) md.name) md

-- The deletion of the user-defined types that no column refers to.
unfoldable pub drop_orphans : KeyspaceMetadata → KeyspaceMetadata
unfolding keep
drop_orphans md = record md {
  user_types = keep (λ n. used_in_tables n md.tables || used_in_views n md.views) md.user_types;
}

-- `sort.Strings(t.OrderedColumns)`.
unfoldable pub sort_table : TableMetadata → TableMetadata
unfolding sort_strings
sort_table t = record t { ordered_columns = sort_strings t.ordered_columns }

unfoldable pub sort_columns : KeyspaceMetadata → KeyspaceMetadata
unfolding sort_table map_values
sort_columns md = record md {
  tables = map_values sort_table md.tables;
  views =
      map_values (λ (v : ViewMetadata). record { base_table = Option.map sort_table v.base_table })
        md.views;
}

-- The loops that collect imports: `updateImports`, and those over tables, views and user types.
unfoldable pub import_types : List TypeInfo → List Bytes → List Bytes
import_types [] imports = imports
import_types (t ∷ ts) imports = import_types ts (collect_imports t imports)

unfoldable pub update_imports : List Column → List Bytes → List Bytes
unfolding import_types
update_imports columns imports = import_types (map (λ (c : Column). c.type_info) columns) imports

unfoldable pub import_tables : List (Bytes × TableMetadata) → List Bytes → List Bytes
unfolding update_imports
import_tables [] imports = imports
import_tables ((k, t) ∷ tables) imports = import_tables tables (update_imports t.columns imports)

unfoldable pub import_base : Option TableMetadata → List Bytes → List Bytes
unfolding update_imports
import_base none imports = imports
import_base (some t) imports = update_imports t.columns imports

unfoldable pub import_views : List (Bytes × ViewMetadata) → List Bytes → List Bytes
unfolding import_base
import_views [] imports = imports
import_views ((k, v) ∷ views) imports = import_views views (import_base v.base_table imports)

unfoldable pub import_user_types : List (Bytes × UserType) → List Bytes → List Bytes
unfolding import_types
import_user_types [] imports = imports
import_user_types ((k, u) ∷ user_types) imports =
    import_user_types user_types (import_types u.field_types imports)

abbrev pub cqlx_package : Bytes
cqlx_package = codes "github.com/moguchev/cqlx"

unfoldable pub keyspace_imports : KeyspaceMetadata → List Bytes
unfolding import_tables import_views import_user_types
keyspace_imports md = import_user_types md.user_types (
    import_views md.views
      (import_tables md.tables (if is_empty md.user_types then [] else cqlx_package ∷ [])))

-- `renderTemplate` up to the template: the metadata and the imports that the template is given.
-- The first argument is `fmt.Sprintf("%s", _)`, the second the flag `ignore-names`.
unfoldable pub prepare :
    (TypeInfo → Bytes) → Bytes → KeyspaceMetadata → KeyspaceMetadata × List Bytes
unfolding split_commas remove_ignored resolve_udt_references drop_orphans sort_columns
    keyspace_imports
prepare print ignore_names md =
    let kept = remove_ignored (split_commas ignore_names) md in
    let resolved = resolve_udt_references print kept in
    let used = drop_orphans resolved in (sort_columns used, keyspace_imports used)
