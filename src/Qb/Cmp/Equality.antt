-- ===== src/Qb/Cmp/Equality.antt =====
-- The comparators of qb/cmp.go, `Eq` to `NeFunc`: each takes its column and what is
-- compared with it.
use cqlx.Common.Int.{ℤ}
use cqlx.Common.{Bytes}
use cqlx.Qb.Cmp.Defs.{Op, Cmp}
use cqlx.Qb.Value.{Func, param, tuple_param, lit, func}

unfoldable pub eq : Bytes → Cmp
eq column = record { op = Op.eq; column = column; value = param column }

unfoldable pub eq_tuple : Bytes → ℤ → Cmp
eq_tuple column count = record { op = Op.eq; column = column; value = tuple_param column count }

unfoldable pub eq_named : Bytes → Bytes → Cmp
eq_named column name = record { op = Op.eq; column = column; value = param name }

unfoldable pub eq_tuple_named : Bytes → ℤ → Bytes → Cmp
eq_tuple_named column count name = record {
  op = Op.eq;
  column = column;
  value = tuple_param name count;
}

unfoldable pub eq_lit : Bytes → Bytes → Cmp
eq_lit column literal = record { op = Op.eq; column = column; value = lit literal }

unfoldable pub eq_func : Bytes → Func → Cmp
eq_func column fn = record { op = Op.eq; column = column; value = func fn }

unfoldable pub ne : Bytes → Cmp
ne column = record { op = Op.ne; column = column; value = param column }

unfoldable pub ne_tuple : Bytes → ℤ → Cmp
ne_tuple column count = record { op = Op.ne; column = column; value = tuple_param column count }

unfoldable pub ne_named : Bytes → Bytes → Cmp
ne_named column name = record { op = Op.ne; column = column; value = param name }

unfoldable pub ne_tuple_named : Bytes → ℤ → Bytes → Cmp
ne_tuple_named column count name = record {
  op = Op.ne;
  column = column;
  value = tuple_param name count;
}

unfoldable pub ne_lit : Bytes → Bytes → Cmp
ne_lit column literal = record { op = Op.ne; column = column; value = lit literal }

unfoldable pub ne_func : Bytes → Func → Cmp
ne_func column fn = record { op = Op.ne; column = column; value = func fn }
