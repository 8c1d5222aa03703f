-- ===== src/Qb/Tests.antt =====
-- Runs of the builders, and their theorems at statements of a table of songs.
use cqlx.Common.{Bytes, List, [], ◌∷◌, ◌++◌, codes, arith, All}
use cqlx.Qb.Batch
use cqlx.Qb.Batch.{BatchBuilder}
use cqlx.Qb.Batch.Writes.{
  Holds, batch-Holds, batch_template, add_stmt-Holds, rename, add_stmt_with_prefix-Holds, behind,
  BatchBuilder-BindsAs,
}
use cqlx.Qb.Binding.{BindsAs}
use cqlx.Qb.Template.{Template, compile}
use cqlx.Qb.Cmp.Equality.{eq}
use cqlx.Qb.Cmp.{Cmp}
use cqlx.Qb.Cmp.Writes.{PlainCmp}
use cqlx.Qb.Delete
use cqlx.Qb.Delete.Built.{Built-BindsDelete}
use cqlx.Qb.Delete.{DeleteBuilder}
use cqlx.Qb.Delete.Writes.{delete_template}
use cqlx.Qb.Insert
use cqlx.Qb.Insert.Built.{Built-IsPlainInsert, Built-BindsInsert}
use cqlx.Qb.Insert.{InsertBuilder}
use cqlx.Qb.Insert.Writes.{insert-WellMarked, insert_template}
use cqlx.Qb.Select
use cqlx.Qb.Select.Built.{Built-BindsSelect}
use cqlx.Qb.Select.{SelectBuilder}
use cqlx.Qb.Select.Writes.{select_template}
use cqlx.Qb.Update
use cqlx.Qb.Update.Built.{Built-BindsUpdate}
use cqlx.Qb.Update.{UpdateBuilder}
use cqlx.Qb.Update.Writes.{update_template}

abbrev songs : Bytes
songs = codes "songs"

abbrev by_id : List Cmp
unfolding eq
by_id = eq (codes "id") ∷ eq (codes "artist") ∷ []

by_id-plain : All PlainCmp by_id
unfolding by_id
by_id-plain = omega arith

-- The value of a name, for a look at it in the statement.
abbrev quoted : Bytes → Bytes
quoted name = codes "'" ++ (name ++ codes "'")

abbrev song_select : SelectBuilder
song_select = Select.limit 10 (
    Select.where_cmps by_id
      (Select.columns (codes "title" ∷ codes "album" ∷ []) (Select.select songs)))

song_select-Built : Select.Built.Built song_select
song_select-Built =
    Select.Built.call
      (Select.Built.call
        (Select.Built.call (Select.Built.start songs (omega arith))
          (Select.Built.columns _ (codes "title" ∷ codes "album" ∷ []) (omega arith)))
        (Select.Built.where_cmps _ by_id by_id-plain))
      (Select.Built.limit _ 10)

Built-BindsSelect_example :
    BindsAs quoted (select_template song_select) (Select.to_cql song_select).1
Built-BindsSelect_example = Built-BindsSelect song_select-Built quoted

abbrev song_insert : InsertBuilder
song_insert = Insert.ttl_named (codes "ttl") (
    Insert.unique (
      Insert.lit_column (codes "plays") (codes "0")
        (Insert.columns (codes "id" ∷ codes "title" ∷ []) (Insert.insert songs))))

song_insert-Built : Insert.Built.Built song_insert
song_insert-Built =
    Insert.Built.call
      (Insert.Built.call
        (Insert.Built.call
          (Insert.Built.call (Insert.Built.start songs (omega arith))
            (Insert.Built.columns _ (codes "id" ∷ codes "title" ∷ []) (omega arith)))
          (Insert.Built.lit_column _ (codes "plays") (codes "0") (omega arith) (omega arith)))
        (Insert.Built.unique _))
      (Insert.Built.ttl_named _ (codes "ttl"))

Built-BindsInsert_example :
    BindsAs quoted (insert_template song_insert) (Insert.to_cql song_insert).1
unfolding Insert.ttl_named Insert.unique Insert.lit_column Insert.columns Insert.insert
Built-BindsInsert_example = Built-BindsInsert song_insert-Built quoted

abbrev song_update : UpdateBuilder
song_update = Update.where_cmps by_id (
    Update.add_lit (codes "plays") (codes "1") (
      Update.set_named (codes "title") (codes "new_title")
        (Update.ttl_named (codes "ttl") (Update.update songs))))

song_update-Built : Update.Built.Built song_update
song_update-Built =
    Update.Built.call
      (Update.Built.call
        (Update.Built.call
          (Update.Built.call (Update.Built.start songs (omega arith))
            (Update.Built.ttl_named _ (codes "ttl")))
          (Update.Built.set_named _ (codes "title") (codes "new_title") (omega arith)))
        (Update.Built.add_lit _ (codes "plays") (codes "1") (omega arith) (omega arith)))
      (Update.Built.where_cmps _ by_id by_id-plain)

Built-BindsUpdate_example :
    BindsAs quoted (update_template song_update) (Update.to_cql song_update).1
Built-BindsUpdate_example = Built-BindsUpdate song_update-Built quoted

abbrev song_delete : DeleteBuilder
song_delete =
    Delete.existing
      (Delete.where_cmps by_id (Delete.columns (codes "album" ∷ []) (Delete.delete songs)))

song_delete-Built : Delete.Built.Built song_delete
song_delete-Built =
    Delete.Built.call
      (Delete.Built.call
        (Delete.Built.call (Delete.Built.start songs (omega arith))
          (Delete.Built.columns _ (codes "album" ∷ []) (omega arith)))
        (Delete.Built.where_cmps _ by_id by_id-plain))
      (Delete.Built.existing _)

Built-BindsDelete_example :
    BindsAs quoted (delete_template song_delete) (Delete.to_cql song_delete).1
Built-BindsDelete_example = Built-BindsDelete song_delete-Built quoted

-- The statements of a batch.
abbrev insert_song : Template
insert_song = insert_template song_insert

abbrev update_song : Template
update_song = update_template song_update

abbrev song_batch : BatchBuilder
song_batch =
    Batch.add_stmt_with_prefix (codes "new") (compile update_song)
      (Batch.add_stmt (compile insert_song) Batch.batch)

song_batch-Holds : Holds song_batch (insert_song ∷ rename (behind (codes "new")) update_song ∷ [])
song_batch-Holds =
    add_stmt_with_prefix-Holds (codes "new") update_song (add_stmt-Holds insert_song batch-Holds)

add_stmt_with_prefix-Holds_example :
    Holds
      (Batch.add_stmt_with_prefix (codes "new") (compile update_song) Batch.batch)
      (rename (behind (codes "new")) update_song ∷ [])
add_stmt_with_prefix-Holds_example =
    add_stmt_with_prefix-Holds (codes "new") update_song batch-Holds

BatchBuilder-BindsAs_example :
    BindsAs quoted
      (batch_template (Batch.add_stmt (compile insert_song) Batch.batch) (insert_song ∷ []))
      (Batch.to_cql (Batch.add_stmt (compile insert_song) Batch.batch)).1
BatchBuilder-BindsAs_example =
    BatchBuilder-BindsAs (Batch.add_stmt (compile insert_song) Batch.batch) (insert_song ∷ [])
      (add_stmt-Holds insert_song batch-Holds)
      (insert-WellMarked song_insert (Built-IsPlainInsert song_insert-Built), tt) quoted
