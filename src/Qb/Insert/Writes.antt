-- ===== src/Qb/Insert/Writes.antt =====
-- What `InsertBuilder.ToCql` writes.
use cqlx.Common.{Bytes, [], ◌∷◌, ◌++◌, false, codes, ◌≡◌, All, arith}
use cqlx.Qb.Binding.{
  IsPlain, WellMarked, ◌⊳◌, ◌⊕◌, WellMarked-text, WellMarked-only, WellMarked-each, BindsAs,
  compile-BindsAs,
}
use cqlx.Qb.Insert.{Initializer, InsertBuilder, to_cql}
use cqlx.Qb.Template.{
  text, Template, only, ◌⨾◌, Writes-string, Writes-byte, Writes-when, Writes-each, join_each,
  compile, run-Writes,
}
use cqlx.Qb.Using.Writes.{using_template, Writes-using, using-WellMarked}
use cqlx.Qb.Value.Writes.{comma, value_template, Writes-value, PlainValue, value-WellMarked}

-- The columns, and then the values in the same order.
unfoldable pub insert_template : InsertBuilder → Template
insert_template b =
    text (codes "INSERT ")
    ∷ (text (codes "INTO ")
        ∷ (text b.table
            ∷ (text (codes " ")
                ∷ (text (codes "(")
                    ∷ (join_each comma (λ c. text c.column ∷ []) b.columns
                        ++ (text (codes ") ")
                            ∷ (text (codes "VALUES (")
                                ∷ (join_each comma (λ c. value_template c.value) b.columns
                                    ++ (text (codes ") ")
                                        ∷ (only b.unique (text (codes "IF NOT EXISTS ") ∷ [])
                                            ++ using_template b.using))))))))))

-- Without `Json`, the statement is its template, whatever the builder holds.
pub to_cql-template :
    (b : InsertBuilder) → b.json ≡ false → (to_cql b).1 ≡ compile (insert_template b)
unfolding to_cql insert_template
to_cql-template b j = rw j (
    run-Writes (
      Writes-string (codes "INSERT ")
      ⨾ Writes-string (codes "INTO ")
      ⨾ Writes-string b.table
      ⨾ Writes-byte b' '
      ⨾ Writes-byte b'('
      ⨾ Writes-each (Writes-byte b',') (λ c. Writes-string c.column) b.columns
      ⨾ Writes-string (codes ") ")
      ⨾ Writes-string (codes "VALUES (")
      ⨾ Writes-each (Writes-byte b',') (λ c. Writes-value c.value) b.columns
      ⨾ Writes-string (codes ") ")
      ⨾ Writes-when b.unique (Writes-string (codes "IF NOT EXISTS "))
      ⨾ Writes-using b.using))

pub record PlainInitializer (c : Initializer) : Type 0 where
  pub column : IsPlain c.column
  pub value : PlainValue c.value

-- No text that the builder was given holds a `?`.
abbrev pub IsPlainInsert : InsertBuilder → Type 0
IsPlainInsert b = IsPlain b.table × All PlainInitializer b.columns

pub insert-WellMarked : (b : InsertBuilder) → IsPlainInsert b → WellMarked (insert_template b)
unfolding insert_template
insert-WellMarked b (table, columns) =
    omega arith
    ⊳ omega arith
    ⊳ table
    ⊳ omega arith
    ⊳ omega arith
    ⊳ WellMarked-each PlainInitializer (WellMarked-text (omega arith))
        (λ c q. WellMarked-text q.column) b.columns columns
    ⊕ omega arith
    ⊳ omega arith
    ⊳ WellMarked-each PlainInitializer (WellMarked-text (omega arith))
        (λ c q. value-WellMarked c.value q.value) b.columns columns
    ⊕ omega arith
    ⊳ WellMarked-only b.unique (WellMarked-text (omega arith))
    ⊕ using-WellMarked b.using

-- Binding the names in order fills every hole of the statement with the value of its own name, if
-- no text given to the builder holds a `?` and `Json` was not called.
pub InsertBuilder-BindsAs :
    (b : InsertBuilder)
    → b.json ≡ false
    → IsPlainInsert b
    → (env : Bytes → Bytes) → BindsAs env (insert_template b) (to_cql b).1
InsertBuilder-BindsAs b j p env =
    rw (to_cql-template b j) (compile-BindsAs env _ (insert-WellMarked b p))
