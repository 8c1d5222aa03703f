-- ===== src/Table/Names.antt =====
-- The parameters of a table's statements.
use cqlx.Common.{
  Bytes, Bool, true, false, List, [], ◌∷◌, ◌++◌, map, ◌≡◌, refl, ap, ◌∙◌, append-nil, append_assoc,
  codes,
}
use cqlx.Qb.Cmp.Equality.{eq}
use cqlx.Qb.Cmp.Writes.{clause_template, cmp_template}
use cqlx.Qb.Delete
use cqlx.Qb.Delete.Writes.{delete_template}
use cqlx.Qb.Emit.{Stmt}
use cqlx.Qb.Insert
use cqlx.Qb.Insert.{Initializer, InsertBuilder}
use cqlx.Qb.Insert.Writes.{insert_template}
use cqlx.Qb.Select
use cqlx.Qb.Select.Writes.{select_template, selection_template, selected}
use cqlx.Qb.Limit.Writes.{limit_template}
use cqlx.Qb.Template.{text, holes, join_each, only, holes-append}
use cqlx.Qb.Update
use cqlx.Qb.Update.{Assignment, UpdateBuilder}
use cqlx.Qb.Update.Writes.{update_template, assignment_template}
use cqlx.Qb.Value.{param}
use cqlx.Qb.Using.Writes.{using_template}
use cqlx.Qb.Value.Writes.{columns_template, comma, columns_clause, value_template}
use cqlx.Table.Keys.{
  new-primary_key, new-part_key, get-keys, select-keys, insert-keys, update-keys, delete-keys,
  select_all-keys,
}
use cqlx.Table.{Metadata, new, get, select, insert, update, delete, select_all}

holes-columns : (cols : List Bytes) → holes (columns_template cols) ≡ []
unfolding columns_template join_each holes
holes-columns [] = refl
holes-columns (c ∷ []) = refl
holes-columns (c ∷ d ∷ cols) = holes-columns (d ∷ cols)

holes-cmps :
    (ks : List Bytes) → holes (join_each (text (codes " AND ") ∷ []) cmp_template (map eq ks)) ≡ ks
unfolding join_each holes cmp_template value_template eq
holes-cmps [] = refl
holes-cmps (k ∷ []) = refl
holes-cmps (k ∷ l ∷ ks) = ap (◌∷◌ k) (holes-cmps (l ∷ ks))

-- A clause of `=` on columns has the columns for its parameters.
holes-clause :
    (keyword : Bytes) (ks : List Bytes) → holes (clause_template keyword (map eq ks)) ≡ ks
unfolding clause_template holes
holes-clause keyword [] = refl
holes-clause keyword (k ∷ ks) =
    holes-append (join_each _ cmp_template (map eq (k ∷ ks))) _ ∙ append-nil _ ∙ holes-cmps (k ∷ ks)

holes-no_clause : (keyword : Bytes) → holes (clause_template keyword []) ≡ []
unfolding clause_template holes
holes-no_clause keyword = refl

holes-selection : (cols : List Bytes) → holes (selection_template [] [] cols) ≡ []
unfolding selection_template selected holes
holes-selection [] = holes-columns (codes "*" ∷ [])
holes-selection (c ∷ cols) = holes-columns (c ∷ cols)

-- The parameters of a SELECT of columns by `=` on key columns are the key columns.
names-select :
    (name : Bytes) (cols ks : List Bytes)
    → (Select.to_cql
        (Select.where_cmps (map eq ks) (Select.columns cols (Select.select name)))).1.names
      ≡ ks
unfolding Select.where_cmps Select.columns Select.select
names-select name cols ks =
    ap (λ (q : Stmt). q.names) (Select.Writes.to_cql-template _)
    ∙ unfold select_template using_template limit_template columns_clause holes in
      simp (holes-append, holes-selection, holes-clause, append-nil, holes)

holes-only :
    (b : Bool) (cols : List Bytes)
    → holes (only b (columns_template cols ++ text (codes " ") ∷ [])) ≡ []
unfolding holes
holes-only true cols = holes-append (columns_template cols) _ ∙ append-nil _ ∙ holes-columns cols
holes-only false cols = refl

names-delete :
    (name : Bytes) (cols ks : List Bytes)
    → (Delete.to_cql
        (Delete.where_cmps (map eq ks) (Delete.columns cols (Delete.delete name)))).1.names
      ≡ ks
unfolding Delete.where_cmps Delete.columns Delete.delete
names-delete name cols ks =
    ap (λ (q : Stmt). q.names) (Delete.Writes.to_cql-template _)
    ∙ unfold delete_template using_template holes in
      simp (holes-append, holes-only, holes-clause, holes-no_clause, append-nil, holes)

-- `Set` appends an assignment from a parameter for each column.
abbrev from_param : Bytes → Assignment
from_param c = record { column = c; value = param c; value_prefix = [] }

set-map :
    (cols : List Bytes) (b : UpdateBuilder)
    → Update.set cols b ≡ record b { assignments = b.assignments ++ map from_param cols }
unfolding Update.set
set-map [] b = rw append-nil
set-map (c ∷ cols) b = set-map cols _ ∙ rw append_assoc

holes-assignments :
    (cols : List Bytes) → holes (join_each comma assignment_template (map from_param cols)) ≡ cols
unfolding join_each holes assignment_template value_template
holes-assignments [] = refl
holes-assignments (k ∷ []) = refl
holes-assignments (k ∷ l ∷ ks) = ap (◌∷◌ k) (holes-assignments (l ∷ ks))

names-update :
    (name : Bytes) (cols ks : List Bytes)
    → (Update.to_cql (Update.where_cmps (map eq ks) (Update.set cols (Update.update name)))).1.names
      ≡ cols ++ ks
unfolding Update.where_cmps Update.update
names-update name cols ks = rw set-map (
    ap (λ (q : Stmt). q.names) (Update.Writes.to_cql-template _)
    ∙ unfold update_template using_template holes in
      simp (holes-append, holes-assignments, holes-clause, holes-no_clause, append-nil, holes))

abbrev initialised : Bytes → Initializer
initialised c = record { value = param c; column = c }

columns-map :
    (cols : List Bytes) (b : InsertBuilder)
    → Insert.columns cols b ≡ record b { columns = b.columns ++ map initialised cols }
unfolding Insert.columns
columns-map [] b = rw append-nil
columns-map (c ∷ cols) b = columns-map cols _ ∙ rw append_assoc

holes-initialised :
    (cols : List Bytes)
    → (holes (join_each comma (λ (c : Initializer). text c.column ∷ []) (map initialised cols))
        ≡ [])
      × (holes
            (join_each comma (λ (c : Initializer). value_template c.value) (map initialised cols))
          ≡ cols)
unfolding join_each holes value_template
holes-initialised [] = (refl, refl)
holes-initialised (k ∷ []) = (refl, refl)
holes-initialised (k ∷ l ∷ ks) = let (h, h') = holes-initialised (l ∷ ks) in (h, ap (◌∷◌ k) h')

names-insert :
    (name : Bytes) (cols : List Bytes)
    → (Insert.to_cql (Insert.columns cols (Insert.insert name))).1.names ≡ cols
unfolding Insert.insert
names-insert name cols =
    let (h, h') = holes-initialised cols in
    rw columns-map (
      ap (λ (q : Stmt). q.names) (Insert.Writes.to_cql-template _ refl)
      ∙ unfold insert_template using_template holes in
        simp (holes-append, h, h', append-nil, holes))

-- The parameters of a table's statements, in order: of `Get`, `Update` and `Delete` the columns of
-- the partition key and then of the sort key, behind those that `Update` sets; of `Select` the
-- columns of the partition key; of `Insert` all columns; of `SelectAll` none.
pub stmt-names :
    (m : Metadata) (cols : List Bytes)
    → ((get (new m) cols).names ≡ m.part_key ++ m.sort_key)
      × ((select (new m) cols).names ≡ m.part_key)
      × ((insert (new m)).names ≡ m.columns)
      × ((update (new m) cols).names ≡ cols ++ (m.part_key ++ m.sort_key))
      × ((delete (new m) cols).names ≡ m.part_key ++ m.sort_key)
      × ((select_all (new m)).names ≡ [])
stmt-names m cols = (
  rw (get-keys m cols, new-primary_key m) (names-select m.name cols _),
  rw (select-keys m cols, new-part_key m) (names-select m.name cols _),
  rw (insert-keys m) (names-insert m.name m.columns),
  rw (update-keys m cols, new-primary_key m) (names-update m.name cols _),
  rw (delete-keys m cols, new-primary_key m) (names-delete m.name cols _),
  rw (select_all-keys m) (names-select m.name [] []),
)
