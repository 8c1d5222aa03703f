-- ===== src/Qb/Queries.antt =====
-- The methods `Query` of the builders of qb: `ToCql`, which changes the builder, and a query of the
-- session on what it gives.
use cqlx.Common.{Bytes, Bool, Option}
use cqlx.Qb.Batch
use cqlx.Qb.Batch.{BatchBuilder}
use cqlx.Qb.Delete
use cqlx.Qb.Delete.{DeleteBuilder}
use cqlx.Qb.Emit.{Stmt}
use cqlx.Qb.Insert
use cqlx.Qb.Insert.{InsertBuilder}
use cqlx.Qb.Select
use cqlx.Qb.Select.{SelectBuilder}
use cqlx.Qb.Update
use cqlx.Qb.Update.{UpdateBuilder}
use cqlx.Queryx.{Transformer, Queryx}
use cqlx.Session

module _ {S Q : Type 0} (new_query : Bytes → Q) (tr : Option (Transformer S)) (strict : Bool) where
  -- `session.Query(stmt, names)`.
  unfoldable pub query_of : Stmt → Queryx S Q
  unfolding Session.query
  query_of q = Session.query new_query tr strict q.stmt q.names

  unfoldable pub select_query : SelectBuilder → SelectBuilder × Queryx S Q
  unfolding query_of
  select_query b = let (b', q) = Select.to_cql b in (b', query_of q)

  unfoldable pub insert_query : InsertBuilder → InsertBuilder × Queryx S Q
  unfolding query_of
  insert_query b = let (b', q) = Insert.to_cql b in (b', query_of q)

  unfoldable pub update_query : UpdateBuilder → UpdateBuilder × Queryx S Q
  unfolding query_of
  update_query b = let (b', q) = Update.to_cql b in (b', query_of q)

  unfoldable pub delete_query : DeleteBuilder → DeleteBuilder × Queryx S Q
  unfolding query_of
  delete_query b = let (b', q) = Delete.to_cql b in (b', query_of q)

  unfoldable pub batch_query : BatchBuilder → BatchBuilder × Queryx S Q
  unfolding query_of
  batch_query b = let (b', q) = Batch.to_cql b in (b', query_of q)
