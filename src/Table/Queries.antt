-- ===== src/Table/Queries.antt =====
-- table/table.go: the methods that make a query of a session from a statement of the table.
use cqlx.Common.{Bytes, List, Bool, Option}
use cqlx.Qb.Queries.{query_of}
use cqlx.Queryx.{Transformer, Queryx}
use cqlx.Table
use cqlx.Table.{Table}

module _ {S Q : Type 0} (new_query : Bytes → Q) (tr : Option (Transformer S)) (strict : Bool) where
  unfoldable pub get_query : Table → List Bytes → Queryx S Q
  unfolding query_of
  get_query t columns = query_of new_query tr strict (Table.get t columns)

  unfoldable pub select_query : Table → List Bytes → Queryx S Q
  unfolding query_of
  select_query t columns = query_of new_query tr strict (Table.select t columns)

  unfoldable pub insert_query : Table → Queryx S Q
  unfolding query_of
  insert_query t = query_of new_query tr strict (Table.insert t)

  unfoldable pub update_query : Table → List Bytes → Queryx S Q
  unfolding query_of
  update_query t columns = query_of new_query tr strict (Table.update t columns)

  unfoldable pub delete_query : Table → List Bytes → Queryx S Q
  unfolding query_of
  delete_query t columns = query_of new_query tr strict (Table.delete t columns)
