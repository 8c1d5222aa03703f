-- ===== src/Schemagen/Tests.antt =====
-- The theorems of the generator at a keyspace with nested user-defined types.
use cqlx.Common.{
  Bytes, List, [], ◌∷◌, true, false, not, ◌&&◌, ◌||◌, is_empty, some, codes, ◌≡◌, refl,
}
use cqlx.Common.Strings.{equal}
use cqlx.Schemagen.Camelize.{camelize, allowed_bind_rune}
use cqlx.Schemagen.Camelize.Words.{Word, snake, camel, camelize-snake}
use cqlx.Schemagen.Imports.Needed.{needs}
use cqlx.Schemagen.Imports.{collect_imports}
use cqlx.Schemagen.Keyspace.Columns.{any}
use cqlx.Schemagen.Keyspace.Lookup.{has, used_by_columns, prepare-user_types}
use cqlx.Schemagen.Keyspace.Packages.{keyspace_types, prepare-imports}
use cqlx.Schemagen.Keyspace.{
  TableMetadata, UserType, KeyspaceMetadata, split_commas, remove_ignored, used_in_tables,
  used_in_columns, used_in_views, cqlx_package, prepare,
}
use cqlx.Schemagen.MapTypes.Qualified.{is_qualified, is_qualified-imports}
use cqlx.Schemagen.MapTypes.{map_cql_type_to_go_type}
use cqlx.Schemagen.References.Resolved.{rewrite-rewrite}
use cqlx.Schemagen.References.{rewrite_udt_type_info, exists_in_slice}
use cqlx.Schemagen.Types.{custom, timestamp, text, list_of, TypeInfo, opaque, collection}
use cqlx.Schemagen.Usage.Mentions.{mentions, type_uses_name-rewrite}
use cqlx.Schemagen.Usage.{type_uses_name}

-- A validator prints as its text.
print_text : TypeInfo → Bytes
print_text (opaque k value) = value
print_text _ = codes "?"

-- A list of albums, left as texts; an album has a field that is an artist.
abbrev albums : TypeInfo
albums = collection list_of (opaque custom []) (opaque custom (codes "frozen<album>"))

abbrev fields : List (Bytes × UserType)
fields =
    (codes "album", record { field_types = opaque custom (codes "frozen<artist>") ∷ [] })
    ∷ (codes "artist", record { field_types = opaque text [] ∷ [] })
    ∷ []

abbrev songs : TableMetadata
songs = record {
  columns =
      record { name = codes "albums"; type_info = albums }
      ∷ record { name = codes "added"; type_info = opaque timestamp [] }
      ∷ [];
  ordered_columns = codes "albums" ∷ codes "added" ∷ [];
}

abbrev music : KeyspaceMetadata
music = record {
  name = codes "music";
  tables = (codes "songs", songs) ∷ (codes "old", songs) ∷ [];
  views = [];
  user_types = fields;
}

abbrev song : Word
song = record { first = b's'; rest = codes "ong" }

abbrev id : Word
id = record { first = b'i'; rest = codes "d" }

camelize-snake_example : camelize (codes "song_id") ≡ some (codes "SongId")
unfolding snake camel
camelize-snake_example =
    camelize-snake song (id ∷ [])
      (unfold allowed_bind_rune in ((refl, (refl, (refl, (refl, tt)))), ((refl, (refl, tt)), tt)))

is_qualified-imports_example :
    is_qualified (codes "[]time.Time")
    ≡ not (
        is_empty (collect_imports (collection list_of (opaque custom []) (opaque timestamp [])) []))
unfolding map_cql_type_to_go_type
is_qualified-imports_example =
    is_qualified-imports (collection list_of (opaque custom []) (opaque timestamp []))
      {s = codes "[]time.Time"} refl

abbrev names : List Bytes
names = codes "album" ∷ codes "artist" ∷ []

rewrite-rewrite_example :
    rewrite_udt_type_info print_text names
      (codes "music")
      (rewrite_udt_type_info print_text names (codes "music") albums)
    ≡ rewrite_udt_type_info print_text names (codes "music") albums
rewrite-rewrite_example = rewrite-rewrite print_text names (codes "music") albums

type_uses_name-rewrite_example :
    type_uses_name (rewrite_udt_type_info print_text names (codes "music") albums) (codes "album")
    ≡ (type_uses_name albums (codes "album") || mentions print_text albums (codes "album"))
unfolding exists_in_slice equal
type_uses_name-rewrite_example =
    type_uses_name-rewrite print_text names (codes "music") (codes "album") refl albums

prepare-user_types_example :
    has (codes "artist") (prepare print_text (codes "old,logs") music).0.user_types ≡ (
      used_by_columns print_text
        (codes "artist")
        (remove_ignored (split_commas (codes "old,logs")) music)
      && has (codes "artist") music.user_types)
prepare-user_types_example = prepare-user_types print_text (codes "old,logs") music (codes "artist")

prepare-imports_example : exists_in_slice (prepare print_text [] music).1 (codes "time") ≡ (
    (not (is_empty (prepare print_text [] music).0.user_types) && equal (codes "time") cqlx_package)
    || any (needs (codes "time")) (keyspace_types (prepare print_text [] music).0))
prepare-imports_example = prepare-imports print_text [] music (codes "time")

-- The type that the fields of another refer to is gone, though the other stays.
orphaned_artist :
    (has (codes "album") (prepare print_text (codes "old,logs") music).0.user_types ≡ true)
    × (has (codes "artist") (prepare print_text (codes "old,logs") music).0.user_types ≡ false)
    × ((prepare print_text (codes "old,logs") music).1 ≡ cqlx_package ∷ codes "time" ∷ [])
unfolding prepare print_text exists_in_slice used_in_tables used_in_columns type_uses_name
    rewrite_udt_type_info used_in_views collect_imports
orphaned_artist = (refl, refl, refl)
