-- ===== src/Table.antt =====
-- table/table.go: the statements of a table, by the builders of qb.
mod Tests
pub mod Keys
pub mod Names
pub mod Queries
pub mod Sent
use cqlx.Common.{Bytes, List, [], ◌∷◌, ◌++◌, is_empty, if◌then◌else◌, length, take}
use cqlx.Qb.Cmp.Equality.{eq}
use cqlx.Qb.Cmp.{Cmp}
use cqlx.Qb.Delete
use cqlx.Qb.Delete.{DeleteBuilder}
use cqlx.Qb.Emit.{Stmt}
use cqlx.Qb.Insert
use cqlx.Qb.Insert.{InsertBuilder}
use cqlx.Qb.Select
use cqlx.Qb.Select.{SelectBuilder}
use cqlx.Qb.Update
use cqlx.Qb.Update.{UpdateBuilder}

pub record Metadata : Type 0 where
  pub name : Bytes
  pub columns : List Bytes
  pub part_key : List Bytes
  pub sort_key : List Bytes

-- The fields `get`, `sel` and `insert` are the prepared statements.
pub record Table : Type 0 where
  pub metadata : Metadata
  pub primary_key_cmp : List Cmp
  pub part_key_cmp : List Cmp
  pub get_stmt : Stmt
  pub sel_stmt : Stmt
  pub insert_stmt : Stmt

-- The loop of `New` over the columns of a key.
append_eq : List Cmp → List Bytes → List Cmp
append_eq cmps [] = cmps
append_eq cmps (k ∷ ks) = append_eq (cmps ++ eq k ∷ []) ks

unfoldable pub new : Metadata → Table
unfolding append_eq
new m =
    let primary_key_cmp = append_eq (append_eq [] m.part_key) m.sort_key in
    let part_key_cmp = take (length m.part_key) primary_key_cmp in
    record {
      metadata = m;
      primary_key_cmp = primary_key_cmp;
      part_key_cmp = part_key_cmp;
      get_stmt = (Select.to_cql (Select.where_cmps primary_key_cmp (Select.select m.name))).1;
      sel_stmt = (Select.to_cql (Select.where_cmps part_key_cmp (Select.select m.name))).1;
      insert_stmt = (Insert.to_cql (Insert.columns m.columns (Insert.insert m.name))).1;
    }

-- `Get`, `GetBuilder`, `Select`, `SelectBuilder`, `SelectAll`.
unfoldable pub get : Table → List Bytes → Stmt
get t columns =
    if is_empty columns
    then t.get_stmt
    else (Select.to_cql (
        Select.where_cmps t.primary_key_cmp
          (Select.columns columns (Select.select t.metadata.name)))).1

unfoldable pub get_builder : Table → List Bytes → SelectBuilder
get_builder t columns =
    if is_empty columns
    then Select.where_cmps t.primary_key_cmp (Select.select t.metadata.name)
    else Select.where_cmps t.primary_key_cmp
        (Select.columns columns (Select.select t.metadata.name))

unfoldable pub select : Table → List Bytes → Stmt
select t columns =
    if is_empty columns
    then t.sel_stmt
    else (Select.to_cql (
        Select.where_cmps (take (length t.metadata.part_key) t.primary_key_cmp)
          (Select.columns columns (Select.select t.metadata.name)))).1

unfoldable pub select_builder : Table → List Bytes → SelectBuilder
select_builder t columns =
    Select.where_cmps t.part_key_cmp (Select.columns columns (Select.select t.metadata.name))

unfoldable pub select_all : Table → Stmt
select_all t = (Select.to_cql (Select.select t.metadata.name)).1

-- `Insert` and `InsertBuilder`.
unfoldable pub insert : Table → Stmt
insert t = t.insert_stmt

unfoldable pub insert_builder : Table → InsertBuilder
insert_builder t = Insert.columns t.metadata.columns (Insert.insert t.metadata.name)

-- `UpdateBuilder` and `Update`.
unfoldable pub update_builder : Table → List Bytes → UpdateBuilder
update_builder t columns =
    Update.where_cmps t.primary_key_cmp (Update.set columns (Update.update t.metadata.name))

unfoldable pub update : Table → List Bytes → Stmt
unfolding update_builder
update t columns = (Update.to_cql (update_builder t columns)).1

-- `DeleteBuilder` and `Delete`.
unfoldable pub delete_builder : Table → List Bytes → DeleteBuilder
delete_builder t columns =
    Delete.where_cmps t.primary_key_cmp (Delete.columns columns (Delete.delete t.metadata.name))

unfoldable pub delete : Table → List Bytes → Stmt
unfolding delete_builder
delete t columns = (Delete.to_cql (delete_builder t columns)).1
