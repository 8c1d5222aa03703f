-- ===== src/Qb/Delete/Writes.antt =====
-- What `DeleteBuilder.ToCql` writes.
use cqlx.Common.{Bytes, [], ◌∷◌, ◌++◌, not, is_empty, codes, ◌≡◌, All, arith}
use cqlx.Qb.Binding.{
  IsPlain, WellMarked, ◌⊳◌, ◌⊕◌, WellMarked-text, WellMarked-only, BindsAs, compile-BindsAs,
}
use cqlx.Qb.Cmp.Writes.{clause_template, Writes-where, Writes-cond, PlainCmp, clause-WellMarked}
use cqlx.Qb.Delete.{DeleteBuilder, to_cql}
use cqlx.Qb.Template.{
  text, Template, only, ◌⨾◌, Writes-string, Writes-byte, Writes-when, compile, run-Writes,
}
use cqlx.Qb.Using.Writes.{using_template, Writes-using, using-WellMarked}
use cqlx.Qb.Value.Writes.{columns_template, Writes-columns, columns-WellMarked}

unfoldable pub delete_template : DeleteBuilder → Template
delete_template b =
    text (codes "DELETE ")
    ∷ (only (not (is_empty b.columns)) (columns_template b.columns ++ text (codes " ") ∷ [])
        ++ (text (codes "FROM ")
            ∷ (text b.table
                ∷ (text (codes " ")
                    ∷ (using_template b.using
                        ++ (clause_template (codes "WHERE ") b.where_cmps
                            ++ (clause_template (codes "IF ") b.if_cmps
                                ++ only b.exists (text (codes "IF EXISTS ") ∷ []))))))))

-- The statement is its template, whatever the builder holds.
pub to_cql-template : (b : DeleteBuilder) → (to_cql b).1 ≡ compile (delete_template b)
unfolding to_cql delete_template
to_cql-template b = run-Writes (
    Writes-string (codes "DELETE ")
    ⨾ Writes-when (not (is_empty b.columns)) (Writes-columns b.columns ⨾ Writes-byte b' ')
    ⨾ Writes-string (codes "FROM ")
    ⨾ Writes-string b.table
    ⨾ Writes-byte b' '
    ⨾ Writes-using b.using
    ⨾ Writes-where b.where_cmps
    ⨾ Writes-cond b.if_cmps
    ⨾ Writes-when b.exists (Writes-string (codes "IF EXISTS ")))

-- No text that the builder was given holds a `?`.
abbrev pub IsPlainDelete : DeleteBuilder → Type 0
IsPlainDelete b =
    IsPlain b.table × All IsPlain b.columns × All PlainCmp b.where_cmps × All PlainCmp b.if_cmps

pub delete-WellMarked : (b : DeleteBuilder) → IsPlainDelete b → WellMarked (delete_template b)
unfolding delete_template
delete-WellMarked b (table, columns, where_cmps, if_cmps) =
    omega arith
    ⊳ WellMarked-only (not (is_empty b.columns))
        (columns-WellMarked b.columns columns ⊕ WellMarked-text (omega arith))
    ⊕ omega arith
    ⊳ table
    ⊳ omega arith
    ⊳ using-WellMarked b.using
    ⊕ clause-WellMarked (codes "WHERE ") b.where_cmps (omega arith) where_cmps
    ⊕ clause-WellMarked (codes "IF ") b.if_cmps (omega arith) if_cmps
    ⊕ WellMarked-only b.exists (WellMarked-text (omega arith))

-- Binding the names in order fills every hole of the statement with the value of its own name, if
-- no text given to the builder holds a `?`.
pub DeleteBuilder-BindsAs :
    (b : DeleteBuilder)
    → IsPlainDelete b
    → (env : Bytes → Bytes) → BindsAs env (delete_template b) (to_cql b).1
DeleteBuilder-BindsAs b p env =
    rw (to_cql-template b) (compile-BindsAs env _ (delete-WellMarked b p))
