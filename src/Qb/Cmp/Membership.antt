-- ===== src/Qb/Cmp/Membership.antt =====
-- The comparators of qb/cmp.go, `In` to `LikeTupleNamed`: each takes its column and what is
-- compared with it.
use cqlx.Common.Int.{ℤ}
use cqlx.Common.{Bytes}
use cqlx.Qb.Cmp.Defs.{Op, Cmp}
use cqlx.Qb.Value.{param, tuple_param, lit}

unfoldable pub in_column : Bytes → Cmp
in_column column = record { op = Op.in_list; column = column; value = param column }

unfoldable pub in_tuple : Bytes → ℤ → Cmp
in_tuple column count = record {
  op = Op.in_list;
  column = column;
  value = tuple_param column count;
}

unfoldable pub in_named : Bytes → Bytes → Cmp
in_named column name = record { op = Op.in_list; column = column; value = param name }

unfoldable pub in_tuple_named : Bytes → ℤ → Bytes → Cmp
in_tuple_named column count name = record {
  op = Op.in_list;
  column = column;
  value = tuple_param name count;
}

unfoldable pub in_lit : Bytes → Bytes → Cmp
in_lit column literal = record { op = Op.in_list; column = column; value = lit literal }

unfoldable pub contains : Bytes → Cmp
contains column = record { op = Op.cnt; column = column; value = param column }

unfoldable pub contains_tuple : Bytes → ℤ → Cmp
contains_tuple column count = record {
  op = Op.cnt;
  column = column;
  value = tuple_param column count;
}

unfoldable pub contains_key : Bytes → Cmp
contains_key column = record { op = Op.cnt_key; column = column; value = param column }

unfoldable pub contains_key_tuple : Bytes → ℤ → Cmp
contains_key_tuple column count = record {
  op = Op.cnt_key;
  column = column;
  value = tuple_param column count;
}

unfoldable pub contains_named : Bytes → Bytes → Cmp
contains_named column name = record { op = Op.cnt; column = column; value = param name }

unfoldable pub contains_key_named : Bytes → Bytes → Cmp
contains_key_named column name = record { op = Op.cnt_key; column = column; value = param name }

unfoldable pub contains_tuple_named : Bytes → ℤ → Bytes → Cmp
contains_tuple_named column count name = record {
  op = Op.cnt;
  column = column;
  value = tuple_param name count;
}

unfoldable pub contains_key_tuple_named : Bytes → ℤ → Bytes → Cmp
contains_key_tuple_named column count name = record {
  op = Op.cnt_key;
  column = column;
  value = tuple_param name count;
}

unfoldable pub contains_lit : Bytes → Bytes → Cmp
contains_lit column literal = record { op = Op.cnt; column = column; value = lit literal }

unfoldable pub like : Bytes → Cmp
like column = record { op = Op.like; column = column; value = param column }

unfoldable pub like_tuple : Bytes → ℤ → Cmp
like_tuple column count = record { op = Op.like; column = column; value = tuple_param column count }

unfoldable pub like_tuple_named : Bytes → ℤ → Bytes → Cmp
like_tuple_named column count name = record {
  op = Op.like;
  column = column;
  value = tuple_param name count;
}
