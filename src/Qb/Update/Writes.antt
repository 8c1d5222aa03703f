-- ===== src/Qb/Update/Writes.antt =====
-- What `UpdateBuilder.ToCql` writes.
use cqlx.Common.{Bytes, [], ◌∷◌, ◌++◌, codes, ◌≡◌, All, arith}
use cqlx.Qb.Binding.{
  IsPlain, WellMarked, ◌⊳◌, ◌⊕◌, WellMarked-text, WellMarked-only, WellMarked-each, BindsAs,
  compile-BindsAs,
}
use cqlx.Qb.Cmp.Writes.{clause_template, Writes-where, Writes-cond, PlainCmp, clause-WellMarked}
use cqlx.Qb.Update.{Assignment, UpdateBuilder, write_assignment, to_cql}
use cqlx.Qb.Template.{
  text, Template, only, Writes, ◌⨾◌, Writes-string, Writes-byte, Writes-when, Writes-each,
  join_each, compile, run-Writes,
}
use cqlx.Qb.Using.Writes.{using_template, Writes-using, using-WellMarked}
use cqlx.Qb.Value.Writes.{comma, value_template, Writes-value, PlainValue, value-WellMarked}

unfoldable pub assignment_template : Assignment → Template
assignment_template a =
    text a.column ∷ (text (codes "=") ∷ (text a.value_prefix ∷ value_template a.value))

unfoldable pub update_template : UpdateBuilder → Template
update_template b =
    text (codes "UPDATE ")
    ∷ (text b.table
        ∷ (text (codes " ")
            ∷ (using_template b.using
                ++ (text (codes "SET ")
                    ∷ (join_each comma assignment_template b.assignments
                        ++ (text (codes " ")
                            ∷ (clause_template (codes "WHERE ") b.where_cmps
                                ++ (clause_template (codes "IF ") b.if_cmps
                                    ++ (only b.exists (text (codes "IF EXISTS ") ∷ [])
                                        ++ only b.allow_filtering
                                            (text (codes "ALLOW FILTERING ") ∷ []))))))))))

Writes-assignment : (a : Assignment) → Writes (write_assignment a) (assignment_template a)
unfolding write_assignment assignment_template
Writes-assignment a =
    Writes-string a.column ⨾ Writes-byte b'=' ⨾ Writes-string a.value_prefix ⨾ Writes-value a.value

-- The statement is its template, whatever the builder holds.
pub to_cql-template : (b : UpdateBuilder) → (to_cql b).1 ≡ compile (update_template b)
unfolding to_cql update_template
to_cql-template b = run-Writes (
    Writes-string (codes "UPDATE ")
    ⨾ Writes-string b.table
    ⨾ Writes-byte b' '
    ⨾ Writes-using b.using
    ⨾ Writes-string (codes "SET ")
    ⨾ Writes-each (Writes-byte b',') Writes-assignment b.assignments
    ⨾ Writes-byte b' '
    ⨾ Writes-where b.where_cmps
    ⨾ Writes-cond b.if_cmps
    ⨾ Writes-when b.exists (Writes-string (codes "IF EXISTS "))
    ⨾ Writes-when b.allow_filtering (Writes-string (codes "ALLOW FILTERING ")))

pub record PlainAssignment (a : Assignment) : Type 0 where
  pub column : IsPlain a.column
  pub value_prefix : IsPlain a.value_prefix
  pub value : PlainValue a.value

assignment-WellMarked : (a : Assignment) → PlainAssignment a → WellMarked (assignment_template a)
unfolding assignment_template
assignment-WellMarked a p =
    p.column ⊳ omega arith ⊳ p.value_prefix ⊳ value-WellMarked a.value p.value

-- No text that the builder was given holds a `?`.
abbrev pub IsPlainUpdate : UpdateBuilder → Type 0
IsPlainUpdate b =
    IsPlain b.table
    × All PlainAssignment b.assignments
    × All PlainCmp b.where_cmps
    × All PlainCmp b.if_cmps

pub update-WellMarked : (b : UpdateBuilder) → IsPlainUpdate b → WellMarked (update_template b)
unfolding update_template
update-WellMarked b (table, assignments, where_cmps, if_cmps) =
    omega arith
    ⊳ table
    ⊳ omega arith
    ⊳ using-WellMarked b.using
    ⊕ omega arith
    ⊳ WellMarked-each PlainAssignment (WellMarked-text (omega arith)) assignment-WellMarked
        b.assignments assignments
    ⊕ omega arith
    ⊳ clause-WellMarked (codes "WHERE ") b.where_cmps (omega arith) where_cmps
    ⊕ clause-WellMarked (codes "IF ") b.if_cmps (omega arith) if_cmps
    ⊕ WellMarked-only b.exists (WellMarked-text (omega arith))
    ⊕ WellMarked-only b.allow_filtering (WellMarked-text (omega arith))

-- Binding the names in order fills every hole of the statement with the value of its own name, if
-- no text given to the builder holds a `?`.
pub UpdateBuilder-BindsAs :
    (b : UpdateBuilder)
    → IsPlainUpdate b
    → (env : Bytes → Bytes) → BindsAs env (update_template b) (to_cql b).1
UpdateBuilder-BindsAs b p env =
    rw (to_cql-template b) (compile-BindsAs env _ (update-WellMarked b p))
