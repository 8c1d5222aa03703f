-- ===== src/Table/Sent.antt =====
-- From a table to the driver: what `Exec` sends of a query of a table, bound from a map.
use cqlx.Common.{
  Bytes, List, [], ◌∷◌, ◌++◌, All, All-append, Bool, Option, some, map, ◌≡◌, sym, subst,
}
use cqlx.Qb.Binding.{IsPlain, BindsAs, fill, instantiate}
use cqlx.Qb.Cmp.Equality.{eq}
use cqlx.Qb.Cmp.Writes.{PlainCmp}
use cqlx.Qb.Delete
use cqlx.Qb.Delete.Built.{Built-BindsDelete}
use cqlx.Qb.Delete.Writes.{delete_template}
use cqlx.Qb.Emit.{Stmt}
use cqlx.Qb.Insert
use cqlx.Qb.Insert.Built.{Built-BindsInsert}
use cqlx.Qb.Insert.Writes.{insert_template}
use cqlx.Qb.Queries.{query_of}
use cqlx.Qb.Template.{Template}
use cqlx.Qb.Update
use cqlx.Qb.Update.Built.{Built-BindsUpdate}
use cqlx.Qb.Update.Writes.{update_template}
use cqlx.Queryx.Options.{set_option}
use cqlx.Queryx.Exec.{driver, exec}
use cqlx.Queryx.Bound.{Given}
use cqlx.Queryx.{Transformer, Any, Mapper, Queryx, bind_map}
use cqlx.Session.Sends.{text_of, exec-change}
use cqlx.Table.Keys.{new-primary_key, stmt-builder}
use cqlx.Table.Names.{stmt-names}
use cqlx.Table.Queries.{insert_query, update_query, delete_query}
use cqlx.Table.{
  Metadata, new, insert, insert_builder, update, update_builder, delete, delete_builder,
}
use mathlib.Core.Option

-- No name of the table or of a column holds a `?`.
pub record PlainMetadata (m : Metadata) : Type 0 where
  pub name : IsPlain m.name
  pub columns : All IsPlain m.columns
  pub part_key : All IsPlain m.part_key
  pub sort_key : All IsPlain m.sort_key

eq-plain : (ks : List Bytes) → All IsPlain ks → All PlainCmp (map eq ks)
unfolding eq
eq-plain [] h = tt
eq-plain (k ∷ ks) (h, hs) = ((h, tt), eq-plain ks hs)

module _ (m : Metadata) (plain : PlainMetadata m) where
  primary_key-plain : All PlainCmp (new m).primary_key_cmp
  primary_key-plain = subst (All PlainCmp) (sym (new-primary_key m)) (
      eq-plain (m.part_key ++ m.sort_key)
        (All-append IsPlain m.part_key m.sort_key plain.part_key plain.sort_key))

  insert-BindsAs :
      (env : Bytes → Bytes)
      → BindsAs env (insert_template (insert_builder (new m))) (insert (new m))
  unfolding insert_builder Insert.columns Insert.insert new
  insert-BindsAs env = subst (BindsAs env _) (sym (stmt-builder m []).2) (
      Built-BindsInsert
        (Insert.Built.call (Insert.Built.start m.name plain.name)
          (Insert.Built.columns _ m.columns plain.columns))
        env)

  update-BindsAs :
      (columns : List Bytes)
      → All IsPlain columns
      → (env : Bytes → Bytes)
      → BindsAs env (update_template (update_builder (new m) columns)) (update (new m) columns)
  unfolding update update_builder new
  update-BindsAs columns h env =
      Built-BindsUpdate
        (Update.Built.call
          (Update.Built.call (Update.Built.start m.name plain.name) (Update.Built.set _ columns h))
          (Update.Built.where_cmps _ (new m).primary_key_cmp primary_key-plain))
        env

  delete-BindsAs :
      (columns : List Bytes)
      → All IsPlain columns
      → (env : Bytes → Bytes)
      → BindsAs env (delete_template (delete_builder (new m) columns)) (delete (new m) columns)
  unfolding delete delete_builder new
  delete-BindsAs columns h env =
      Built-BindsDelete
        (Delete.Built.call
          (Delete.Built.call (Delete.Built.start m.name plain.name)
            (Delete.Built.columns _ columns h))
          (Delete.Built.where_cmps _ (new m).primary_key_cmp primary_key-plain))
        env

module _ {S T Q W E : Type 0} (mapper : Mapper S T) (print : Any S → Bytes)
    (tr : Option (Transformer S)) (strict : Bool) (new_query : Bytes → Q)
    (driver_bind : List (Any S) → Q → Q) (exec_context : Q → W → W × Option E) where
  -- The query is sent once, with arguments that fill the template by what the map has for each name.
  abbrev pub Sends : List (Bytes × Any S) → W → Queryx S Q → Stmt → Template → Type 0
  Sends arg w q stmt t =
      (bound : Queryx S Q) × (bind_map mapper driver_bind arg q ≡ some bound)
      × (args : List (Any S)) × (exec exec_context bound w ≡ (
          let (w', e) = exec_context (driver_bind args (new_query stmt.stmt)) w in
          (w', Option.map driver e)))
      × (fill stmt.stmt (map print args)
          ≡ some (instantiate (text_of mapper print tr strict arg) t))

  query_of-Sends :
      (stmt : Stmt) (t : Template) (arg : List (Bytes × Any S)) (w : W) (names : List Bytes)
      → ((env : Bytes → Bytes) → BindsAs env t stmt)
      → stmt.names ≡ names
      → All (Given tr arg) names
      → Sends arg w (query_of new_query tr strict stmt) stmt t
  unfolding query_of set_option
  query_of-Sends stmt t arg w names binds same found =
      exec-change mapper print tr strict new_query driver_bind exec_context stmt t (λ d. d) binds
        arg w (subst (All (Given tr arg)) (sym same) found)

  -- `InsertQuery`, `UpdateQuery` and `DeleteQuery` of a table, whose names hold no `?`, bound from a
  -- map that has the columns of the table, those given and those of its primary key, with values
  -- that the transformer returns for: `Exec` sends
  -- the statement of the builder once, in which each column gets what the map has for it, behind the
  -- transformer and the wrapper.
  pub queries-Sends :
      (m : Metadata) (columns : List Bytes) (arg : List (Bytes × Any S)) (w : W)
      → PlainMetadata m
      → All IsPlain columns
      → All (Given tr arg) m.columns
      → All (Given tr arg) columns
      → All (Given tr arg) (m.part_key ++ m.sort_key)
      → Sends arg w
          (insert_query new_query tr strict (new m))
          (insert (new m))
          (insert_template (insert_builder (new m)))
        × Sends arg w
            (update_query new_query tr strict (new m) columns)
            (update (new m) columns)
            (update_template (update_builder (new m) columns))
        × Sends arg w
            (delete_query new_query tr strict (new m) columns)
            (delete (new m) columns)
            (delete_template (delete_builder (new m) columns))
  unfolding insert_query update_query delete_query
  queries-Sends m columns arg w plain h all_columns given key =
      let names = stmt-names m columns in
      (
        query_of-Sends _ _ arg w m.columns (insert-BindsAs m plain) names.2 all_columns,
        query_of-Sends _ _ arg w (columns ++ (m.part_key ++ m.sort_key))
            (update-BindsAs m plain columns h) names.3 (All-append _ columns _ given key),
        query_of-Sends _ _ arg w (m.part_key ++ m.sort_key) (delete-BindsAs m plain columns h)
            names.4 key,
      )
