-- ===== src/Qb/Select/Writes.antt =====
-- What `SelectBuilder.ToCql` writes: the clauses of a SELECT statement in the order of CQL.
use cqlx.Common.{
  Bytes, List, [], ◌∷◌, ◌++◌, not, is_empty, codes, ◌≡◌, refl, append-nil, All, All-append, arith,
}
use cqlx.Qb.Binding.{
  IsPlain, WellMarked, ◌⊳◌, ◌⊕◌, WellMarked-text, WellMarked-only, BindsAs, compile-BindsAs,
}
use cqlx.Qb.Cmp.Writes.{clause_template, Writes-where, PlainCmp, clause-WellMarked}
use cqlx.Qb.Emit.{when}
use cqlx.Qb.Limit.Writes.{limit_template, Writes-limit, PlainLimit, limit-WellMarked}
use cqlx.Qb.Select.{SelectBuilder, write_selection, write_list, to_cql}
use cqlx.Qb.Template.{
  text, Template, only, Writes, ◌⨾◌, Writes-string, Writes-byte, Writes-skip, Writes-when,
  join_each, compile, run-Writes,
}
use cqlx.Qb.Using.Writes.{using_template, Writes-using, using-WellMarked}
use cqlx.Qb.Value.Writes.{
  columns_template, columns_clause, Writes-columns, columns-WellMarked, columns_clause-WellMarked,
  comma,
}

-- The columns that are selected: those of DISTINCT, or those of GROUP BY and then the others, or
-- all of them.
unfoldable pub selected : List Bytes → List Bytes → List Bytes → List Bytes
selected [] [] [] = codes "*" ∷ []
selected [] group_by columns = group_by ++ columns
selected distinct group_by columns = distinct

unfoldable pub selection_template : List Bytes → List Bytes → List Bytes → Template
selection_template distinct group_by columns =
    only (not (is_empty distinct)) (text (codes "DISTINCT ") ∷ [])
    ++ columns_template (selected distinct group_by columns)

unfoldable pub select_template : SelectBuilder → Template
unfolding selection_template selected
select_template b =
    text (codes "SELECT ")
    ∷ (only b.json (text (codes "JSON ") ∷ [])
        ++ (selection_template b.distinct b.group_by b.columns
            ++ (text (codes " FROM ")
                ∷ (text b.table
                    ∷ (text (codes " ")
                        ∷ (clause_template (codes "WHERE ") b.where_cmps
                            ++ (columns_clause (codes "GROUP BY ") b.group_by
                                ++ (columns_clause (codes "ORDER BY ") b.order_by
                                    ++ (limit_template b.limit_per_partition
                                        ++ (limit_template b.limit
                                            ++ (only b.allow_filtering
                                                  (text (codes "ALLOW FILTERING ") ∷ [])
                                                ++ (only b.bypass_cache
                                                      (text (codes "BYPASS CACHE ") ∷ [])
                                                    ++ using_template b.using))))))))))))

Writes-list :
    (keyword : Bytes) (cols : List Bytes)
    → Writes (write_list keyword cols) (columns_clause keyword cols)
unfolding write_list columns_clause when
Writes-list keyword [] = Writes-skip
Writes-list keyword (c ∷ cols) =
    Writes-string keyword ⨾ Writes-columns (c ∷ cols) ⨾ Writes-byte b' '

-- Two lists of columns with a comma between them are one list.
join-append :
    (x : Bytes) (xs : List Bytes) (y : Bytes) (ys : List Bytes)
    → columns_template (x ∷ xs) ++ (comma ++ columns_template (y ∷ ys))
      ≡ columns_template ((x ∷ xs) ++ y ∷ ys)
unfolding columns_template join_each
join-append x [] y ys = refl
join-append x (z ∷ xs) y ys = rw (← join-append z xs y ys)

Writes-selection :
    (distinct group_by columns : List Bytes)
    → Writes
        (write_selection distinct group_by columns)
        (selection_template distinct group_by columns)
unfolding write_selection selection_template selected
Writes-selection (d ∷ ds) gs cs = Writes-string _ ⨾ Writes-columns (d ∷ ds)
Writes-selection [] [] [] = unfold columns_template join_each in Writes-byte b'*'
Writes-selection [] [] (c ∷ cs) = Writes-columns (c ∷ cs)
Writes-selection [] (g ∷ gs) [] =
    rw (append-nil gs, ← append-nil (columns_template (g ∷ gs)))
      (Writes-columns (g ∷ gs) ⨾ unfold when in Writes-skip)
Writes-selection [] (g ∷ gs) (c ∷ cs) =
    rw (← join-append g gs c cs)
      (Writes-columns (g ∷ gs) ⨾ unfold when in Writes-byte b',' ⨾ Writes-columns (c ∷ cs))

-- The statement is its template, whatever the builder holds.
pub to_cql-template : (b : SelectBuilder) → (to_cql b).1 ≡ compile (select_template b)
unfolding to_cql select_template
to_cql-template b = run-Writes (
    Writes-string (codes "SELECT ")
    ⨾ Writes-when b.json (Writes-string (codes "JSON "))
    ⨾ Writes-selection b.distinct b.group_by b.columns
    ⨾ Writes-string (codes " FROM ")
    ⨾ Writes-string b.table
    ⨾ Writes-byte b' '
    ⨾ Writes-where b.where_cmps
    ⨾ Writes-list (codes "GROUP BY ") b.group_by
    ⨾ Writes-list (codes "ORDER BY ") b.order_by
    ⨾ Writes-limit b.limit_per_partition
    ⨾ Writes-limit b.limit
    ⨾ Writes-when b.allow_filtering (Writes-string (codes "ALLOW FILTERING "))
    ⨾ Writes-when b.bypass_cache (Writes-string (codes "BYPASS CACHE "))
    ⨾ Writes-using b.using)

-- No text that the builder was given holds a `?`.
abbrev pub IsPlainSelect : SelectBuilder → Type 0
IsPlainSelect b =
    IsPlain b.table
    × All IsPlain b.columns
    × All IsPlain b.distinct
    × All IsPlain b.group_by
    × All IsPlain b.order_by
    × All PlainCmp b.where_cmps
    × PlainLimit b.limit
    × PlainLimit b.limit_per_partition

selected-IsPlain :
    (distinct group_by columns : List Bytes)
    → All IsPlain distinct
    → All IsPlain group_by
    → All IsPlain columns
    → All IsPlain (selected distinct group_by columns)
unfolding selected
selected-IsPlain (d ∷ ds) gs cs hd hg hc = hd
selected-IsPlain [] [] [] hd hg hc = omega arith
selected-IsPlain [] [] (c ∷ cs) hd hg hc = hc
selected-IsPlain [] (g ∷ gs) cs hd hg hc = All-append IsPlain (g ∷ gs) cs hg hc

selection-WellMarked :
    (distinct group_by columns : List Bytes)
    → All IsPlain (selected distinct group_by columns)
    → WellMarked (selection_template distinct group_by columns)
unfolding selection_template
selection-WellMarked distinct group_by columns h =
    WellMarked-only (not (is_empty distinct)) (WellMarked-text (omega arith))
    ⊕ columns-WellMarked _ h

pub select-WellMarked : (b : SelectBuilder) → IsPlainSelect b → WellMarked (select_template b)
unfolding select_template
select-WellMarked b
      (table, columns, distinct, group_by, order_by, where_cmps, limit, limit_per_partition) =
    omega arith
    ⊳ WellMarked-only b.json (WellMarked-text (omega arith))
    ⊕ selection-WellMarked b.distinct b.group_by b.columns
        (selected-IsPlain b.distinct b.group_by b.columns distinct group_by columns)
    ⊕ omega arith
    ⊳ table
    ⊳ omega arith
    ⊳ clause-WellMarked (codes "WHERE ") b.where_cmps (omega arith) where_cmps
    ⊕ columns_clause-WellMarked (codes "GROUP BY ") b.group_by (omega arith) group_by
    ⊕ columns_clause-WellMarked (codes "ORDER BY ") b.order_by (omega arith) order_by
    ⊕ limit-WellMarked b.limit_per_partition limit_per_partition
    ⊕ limit-WellMarked b.limit limit
    ⊕ WellMarked-only b.allow_filtering (WellMarked-text (omega arith))
    ⊕ WellMarked-only b.bypass_cache (WellMarked-text (omega arith))
    ⊕ using-WellMarked b.using

-- Binding the names in order fills every hole of the statement with the value of its own name, if
-- no table, column or literal given to the builder holds a `?`.
pub SelectBuilder-BindsAs :
    (b : SelectBuilder)
    → IsPlainSelect b
    → (env : Bytes → Bytes) → BindsAs env (select_template b) (to_cql b).1
SelectBuilder-BindsAs b p env =
    rw (to_cql-template b) (compile-BindsAs env _ (select-WellMarked b p))
