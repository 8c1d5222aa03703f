-- ===== src/Table/Keys.antt =====
-- The comparators of a table's keys, and the statements that are prepared with them.
use cqlx.Common.{
  Bytes, List, [], ◌∷◌, ◌++◌, map, suc, length, take-append, ◌≡◌, refl, sym, ap, ◌∙◌, append-nil,
  append_assoc, map-append,
}
use cqlx.Qb.Cmp.Equality.{eq}
use cqlx.Qb.Cmp.{Cmp}
use cqlx.Qb.Insert
use cqlx.Qb.Select
use cqlx.Qb.Delete
use cqlx.Qb.Update
use cqlx.Table.{
  Metadata, append_eq, new, get, get_builder, select, select_builder, insert, insert_builder,
  update, delete, select_all,
}

append_eq-map : (cmps : List Cmp) (ks : List Bytes) → append_eq cmps ks ≡ cmps ++ map eq ks
unfolding append_eq
append_eq-map cmps [] = sym (append-nil cmps)
append_eq-map cmps (k ∷ ks) =
    append_eq-map (cmps ++ eq k ∷ []) ks ∙ append_assoc cmps (eq k ∷ []) (map eq ks)

-- The comparators of the primary key are `=` on the columns of the partition key and then on those
-- of the sort key.
pub new-primary_key : (m : Metadata) → (new m).primary_key_cmp ≡ map eq (m.part_key ++ m.sort_key)
unfolding new
new-primary_key m =
    append_eq-map _ m.sort_key
    ∙ ap (λ cmps. cmps ++ map eq m.sort_key) (append_eq-map [] m.part_key)
    ∙ sym (map-append eq m.part_key m.sort_key)

length-map-eq : (ks : List Bytes) → length ks ≡ length (map eq ks)
length-map-eq [] = refl
length-map-eq (k ∷ ks) = ap suc (length-map-eq ks)

-- Those of the partition key are `=` on its columns.
pub new-part_key : (m : Metadata) → (new m).part_key_cmp ≡ map eq m.part_key
unfolding new
new-part_key m =
    rw (append_eq-map, append_eq-map, length-map-eq m.part_key)
      (take-append (map eq m.part_key) (map eq m.sort_key))

-- `Get` gives the statement of `GetBuilder`, `Select` that of `SelectBuilder` and `Insert` that of
-- `InsertBuilder`, prepared or not.
pub stmt-builder :
    (m : Metadata) (columns : List Bytes)
    → (get (new m) columns ≡ (Select.to_cql (get_builder (new m) columns)).1)
      × (select (new m) columns ≡ (Select.to_cql (select_builder (new m) columns)).1)
      × (insert (new m) ≡ (Insert.to_cql (insert_builder (new m))).1)
unfolding new get get_builder select select_builder insert insert_builder
stmt-builder m [] = (refl, unfold Select.columns Select.select in refl, refl)
stmt-builder m (c ∷ columns) = (refl, refl, refl)

-- Each statement by the builder that it comes from, over the comparators of its keys.
module _ (m : Metadata) where
  pub get-keys :
      (cols : List Bytes)
      → get (new m) cols
        ≡ (Select.to_cql (
            Select.where_cmps
              (new m).primary_key_cmp
              (Select.columns cols (Select.select m.name)))).1
  unfolding get new
  get-keys [] = unfold Select.columns Select.select in refl
  get-keys (c ∷ cols) = refl

  pub select-keys :
      (cols : List Bytes)
      → select (new m) cols
        ≡ (Select.to_cql
            (Select.where_cmps (new m).part_key_cmp (Select.columns cols (Select.select m.name)))).1
  unfolding select new
  select-keys [] = unfold Select.columns Select.select in refl
  select-keys (c ∷ cols) = refl

  pub insert-keys :
      insert (new m) ≡ (Insert.to_cql (Insert.columns m.columns (Insert.insert m.name))).1
  unfolding insert new
  insert-keys = refl

  pub update-keys :
      (cols : List Bytes)
      → update (new m) cols
        ≡ (Update.to_cql
            (Update.where_cmps (new m).primary_key_cmp (Update.set cols (Update.update m.name)))).1
  unfolding update new
  update-keys cols = refl

  pub delete-keys :
      (cols : List Bytes)
      → delete (new m) cols
        ≡ (Delete.to_cql (
            Delete.where_cmps
              (new m).primary_key_cmp
              (Delete.columns cols (Delete.delete m.name)))).1
  unfolding delete new
  delete-keys cols = refl

  pub select_all-keys :
      select_all (new m)
      ≡ (Select.to_cql (Select.where_cmps [] (Select.columns [] (Select.select m.name)))).1
  unfolding select_all new Select.where_cmps Select.columns Select.select
  select_all-keys = refl
