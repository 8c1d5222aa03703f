-- ===== src/Qb/Cmp/Order.antt =====
-- The comparators of qb/cmp.go, `Lt` to `GtOrEqFunc`: each takes its column and what is
-- compared with it.
use cqlx.Common.Int.{ℤ}
use cqlx.Common.{Bytes}
use cqlx.Qb.Cmp.Defs.{Op, Cmp}
use cqlx.Qb.Value.{Func, param, tuple_param, lit, func}

unfoldable pub lt : Bytes → Cmp
lt column = record { op = Op.lt; column = column; value = param column }

unfoldable pub lt_tuple : Bytes → ℤ → Cmp
lt_tuple column count = record { op = Op.lt; column = column; value = tuple_param column count }

unfoldable pub lt_named : Bytes → Bytes → Cmp
lt_named column name = record { op = Op.lt; column = column; value = param name }

unfoldable pub lt_tuple_named : Bytes → ℤ → Bytes → Cmp
lt_tuple_named column count name = record {
  op = Op.lt;
  column = column;
  value = tuple_param name count;
}

unfoldable pub lt_lit : Bytes → Bytes → Cmp
lt_lit column literal = record { op = Op.lt; column = column; value = lit literal }

unfoldable pub lt_func : Bytes → Func → Cmp
lt_func column fn = record { op = Op.lt; column = column; value = func fn }

unfoldable pub lt_or_eq : Bytes → Cmp
lt_or_eq column = record { op = Op.leq; column = column; value = param column }

unfoldable pub lt_or_eq_tuple : Bytes → ℤ → Cmp
lt_or_eq_tuple column count = record {
  op = Op.leq;
  column = column;
  value = tuple_param column count;
}

unfoldable pub lt_or_eq_named : Bytes → Bytes → Cmp
lt_or_eq_named column name = record { op = Op.leq; column = column; value = param name }

unfoldable pub lt_or_eq_tuple_named : Bytes → ℤ → Bytes → Cmp
lt_or_eq_tuple_named column count name = record {
  op = Op.leq;
  column = column;
  value = tuple_param name count;
}

unfoldable pub lt_or_eq_lit : Bytes → Bytes → Cmp
lt_or_eq_lit column literal = record { op = Op.leq; column = column; value = lit literal }

unfoldable pub lt_or_eq_func : Bytes → Func → Cmp
lt_or_eq_func column fn = record { op = Op.leq; column = column; value = func fn }

unfoldable pub gt : Bytes → Cmp
gt column = record { op = Op.gt; column = column; value = param column }

unfoldable pub gt_tuple : Bytes → ℤ → Cmp
gt_tuple column count = record { op = Op.gt; column = column; value = tuple_param column count }

unfoldable pub gt_named : Bytes → Bytes → Cmp
gt_named column name = record { op = Op.gt; column = column; value = param name }

unfoldable pub gt_tuple_named : Bytes → ℤ → Bytes → Cmp
gt_tuple_named column count name = record {
  op = Op.gt;
  column = column;
  value = tuple_param name count;
}

unfoldable pub gt_lit : Bytes → Bytes → Cmp
gt_lit column literal = record { op = Op.gt; column = column; value = lit literal }

unfoldable pub gt_func : Bytes → Func → Cmp
gt_func column fn = record { op = Op.gt; column = column; value = func fn }

unfoldable pub gt_or_eq : Bytes → Cmp
gt_or_eq column = record { op = Op.geq; column = column; value = param column }

unfoldable pub gt_or_eq_tuple : Bytes → ℤ → Cmp
gt_or_eq_tuple column count = record {
  op = Op.geq;
  column = column;
  value = tuple_param column count;
}

unfoldable pub gt_or_eq_named : Bytes → Bytes → Cmp
gt_or_eq_named column name = record { op = Op.geq; column = column; value = param name }

unfoldable pub gt_or_eq_tuple_named : Bytes → ℤ → Bytes → Cmp
gt_or_eq_tuple_named column count name = record {
  op = Op.geq;
  column = column;
  value = tuple_param name count;
}

unfoldable pub gt_or_eq_lit : Bytes → Bytes → Cmp
gt_or_eq_lit column literal = record { op = Op.geq; column = column; value = lit literal }

unfoldable pub gt_or_eq_func : Bytes → Func → Cmp
gt_or_eq_func column fn = record { op = Op.geq; column = column; value = func fn }
