-- ===== src/Table/Tests.antt =====
-- The theorems of tables, at a table of songs by artist.
use cqlx.Common.{ℕ, suc, ◌++◌, Option, none, false, refl, arith, Bytes, List, [], ◌∷◌, codes, ◌≡◌}
use cqlx.Qb.Insert.Writes.{insert_template}
use cqlx.Qb.Update.Writes.{update_template}
use cqlx.Qb.Delete.Writes.{delete_template}
use cqlx.Queryx.Tests.{Datum, text, mapper}
use cqlx.Queryx.Bound.{Given}
use cqlx.Queryx.{transform, Any, plain, lookup}
use cqlx.Table.Queries.{insert_query, update_query, delete_query}
use cqlx.Table.Sent.{PlainMetadata, Sends, queries-Sends}
use cqlx.Qb.Insert
use cqlx.Qb.Select
use cqlx.Table.Keys.{stmt-builder}
use cqlx.Table.Names.{stmt-names}
use cqlx.Table.{
  Metadata, new, get, get_builder, select, select_builder, select_all, insert, insert_builder,
  update, update_builder, delete, delete_builder,
}

abbrev song_columns : List Bytes
song_columns = codes "artist" ∷ codes "id" ∷ codes "title" ∷ []

abbrev song_table : Metadata
song_table = record {
  name = codes "songs";
  columns = song_columns;
  part_key = codes "artist" ∷ [];
  sort_key = codes "id" ∷ [];
}

abbrev titles : List Bytes
titles = codes "title" ∷ []

stmt-builder_example :
    (get (new song_table) titles ≡ (Select.to_cql (get_builder (new song_table) titles)).1)
    × (select (new song_table) titles ≡ (Select.to_cql (select_builder (new song_table) titles)).1)
    × (insert (new song_table) ≡ (Insert.to_cql (insert_builder (new song_table))).1)
stmt-builder_example = stmt-builder song_table titles

stmt-names_example :
    ((get (new song_table) titles).names ≡ codes "artist" ∷ codes "id" ∷ [])
    × ((select (new song_table) titles).names ≡ codes "artist" ∷ [])
    × ((insert (new song_table)).names ≡ song_columns)
    × ((update (new song_table) titles).names ≡ codes "title" ∷ codes "artist" ∷ codes "id" ∷ [])
    × ((delete (new song_table) titles).names ≡ codes "artist" ∷ codes "id" ∷ [])
    × ((select_all (new song_table)).names ≡ [])
stmt-names_example = stmt-names song_table titles

-- The driver keeps a statement with its arguments, and counts what it sends.
abbrev Sent : Type 0
Sent = Bytes × List (Any Datum)

prepare : Bytes → Sent
prepare stmt = (stmt, [])

keep_values : List (Any Datum) → Sent → Sent
keep_values values (stmt, old) = (stmt, values)

send : Sent → ℕ → ℕ × Option Bytes
send sent n = (suc n, none)

abbrev quote : Any Datum → Bytes
quote (plain (text s)) = codes "'" ++ (s ++ codes "'")
quote v = []

abbrev hey : List (Bytes × Any Datum)
hey =
    (codes "artist", plain (text (codes "Beck")))
    ∷ (codes "id", plain (text (codes "7")))
    ∷ (codes "title", plain (text (codes "Hey")))
    ∷ []

song_table-PlainMetadata : PlainMetadata song_table
song_table-PlainMetadata = record {
  name = omega arith;
  columns = omega arith;
  part_key = omega arith;
  sort_key = omega arith;
}

artist-Given : Given none hey (codes "artist")
unfolding lookup transform
artist-Given = (plain (text (codes "Beck")), plain (text (codes "Beck")), refl, refl)

id-Given : Given none hey (codes "id")
unfolding lookup transform
id-Given = (plain (text (codes "7")), plain (text (codes "7")), refl, refl)

title-Given : Given none hey (codes "title")
unfolding lookup transform
title-Given = (plain (text (codes "Hey")), plain (text (codes "Hey")), refl, refl)

queries-Sends_example :
    Sends mapper quote none false prepare keep_values send hey 0
      (insert_query prepare none false (new song_table))
      (insert (new song_table))
      (insert_template (insert_builder (new song_table)))
    × Sends mapper quote none false prepare keep_values send hey 0
        (update_query prepare none false (new song_table) titles)
        (update (new song_table) titles)
        (update_template (update_builder (new song_table) titles))
    × Sends mapper quote none false prepare keep_values send hey 0
        (delete_query prepare none false (new song_table) titles)
        (delete (new song_table) titles)
        (delete_template (delete_builder (new song_table) titles))
queries-Sends_example =
    queries-Sends mapper quote none false prepare keep_values send song_table titles hey 0
      song_table-PlainMetadata (omega arith) (artist-Given, (id-Given, (title-Given, tt)))
      (title-Given, tt) (artist-Given, (id-Given, tt))
