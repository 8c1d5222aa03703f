-- ===== src/NamedQuery/Tests.antt =====
-- Runs of `CompileNamedQuery`, and its theorems at an INSERT of two columns.
use cqlx.Common.{◌+◌, ◌≤◌, Bytes, [], ◌∷◌, codes, ◌≡◌, refl, arith, length}
use cqlx.NamedQuery.Counts.{marks, compile_named_query-marks}
use cqlx.NamedQuery.Names.{ColonAt, compile_named_query-ColonAt}
use cqlx.NamedQuery.Printing.{print, IsPrintable}
use cqlx.NamedQuery.RoundTrip.{compile_named_query-print}
use cqlx.NamedQuery.{
  ok, err, compile_named_query, is_name_byte, unexpected_colon, expected_named_query,
}
use cqlx.Qb.Emit.{Stmt}
use cqlx.Qb.Template.{text, hole, Template, compile}

abbrev insert_query : Bytes
insert_query = codes "INSERT INTO t (a) VALUES (:a, ::, ?, :b.c_1)"

abbrev inserted : Stmt
inserted = record {
  stmt = codes "INSERT INTO t (a) VALUES (?, :, ?, ?)";
  names = codes "a" ∷ codes "b.c_1" ∷ [];
}

insert_query-compiles : compile_named_query insert_query ≡ ok inserted
unfolding compile_named_query
insert_query-compiles = refl

-- The last byte of a name that ends in `_` is read as text where the query ends.
last_underscore :
    compile_named_query (codes "x=:a_")
    ≡ ok (record { stmt = codes "x=?_"; names = codes "a" ∷ [] })
unfolding compile_named_query
last_underscore = refl

-- A `:` at the end of a query is dropped.
last_colon :
    compile_named_query (codes "x=:a :")
    ≡ ok (record { stmt = codes "x=? "; names = codes "a" ∷ [] })
unfolding compile_named_query
last_colon = refl

no_colon : compile_named_query (codes "x=?") ≡ err expected_named_query
unfolding compile_named_query
no_colon = refl

compile_named_query-marks_example :
    (marks inserted.stmt ≡ marks insert_query + length inserted.names)
    × (length inserted.stmt ≤ length insert_query)
compile_named_query-marks_example = compile_named_query-marks insert_query insert_query-compiles

-- A template with a name at its end.
abbrev comparison : Template
comparison =
    text (codes "a:b = ")
    ∷ (hole (codes "x_1") ∷ (text (codes " AND c = ") ∷ (hole (codes "y") ∷ [])))

comparison-IsPrintable : IsPrintable comparison
unfolding is_name_byte
comparison-IsPrintable = ((refl, (refl, (refl, tt))), (refl, omega arith), ((refl, tt), refl, tt))

compile_named_query-print_example : compile_named_query (print comparison) ≡ ok (compile comparison)
compile_named_query-print_example = compile_named_query-print comparison comparison-IsPrintable tt

split_name : compile_named_query (codes "x=:a:b") ≡ err (unexpected_colon 4 [])
unfolding compile_named_query
split_name = refl

compile_named_query-ColonAt_example : ColonAt 0 (codes "x=:a:b") 4
compile_named_query-ColonAt_example = compile_named_query-ColonAt (codes "x=:a:b") 4 [] split_name
