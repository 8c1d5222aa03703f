-- ===== src/Qb/Token.antt =====
-- qb/token.go: comparators over the token function.
use cqlx.Common.{Bytes, List, [], ◌++◌, Option, none, some, is_empty, if◌then◌else◌, codes, join}
use cqlx.Qb.Cmp.{Op, Cmp}
use cqlx.Qb.Value.{param, func, fn}

abbrev pub TokenBuilder : Type 0
TokenBuilder = List Bytes

unfoldable pub token : List Bytes → TokenBuilder
token columns = columns

token_column : TokenBuilder → Bytes
token_column t = codes "token(" ++ (join (codes ",") t ++ codes ")")

-- A slice of names that may be nil, which is `none`: a call without names passes nil.
names_or : Option (List Bytes) → TokenBuilder → List Bytes
names_or none t = t
names_or (some names) t = names

-- `TokenBuilder.cmp`.
unfoldable pub cmp : TokenBuilder → Op → Option (List Bytes) → Cmp
unfolding token_column names_or fn
cmp t op names = record {
  op = op;
  column = token_column t;
  value = func (fn (codes "token") (names_or names t));
}

-- `TokenBuilder.valueCmp`.
unfoldable pub value_cmp : TokenBuilder → Op → Bytes → Cmp
unfolding token_column
value_cmp t op name = record {
  op = op;
  column = token_column t;
  value = param (if is_empty name then codes "token" else name);
}

unfoldable pub eq : TokenBuilder → Cmp
unfolding cmp
eq t = cmp t Op.eq none

unfoldable pub eq_value : TokenBuilder → Cmp
unfolding value_cmp
eq_value t = value_cmp t Op.eq []

unfoldable pub eq_named : TokenBuilder → Option (List Bytes) → Cmp
unfolding cmp
eq_named t names = cmp t Op.eq names

unfoldable pub eq_value_named : TokenBuilder → Bytes → Cmp
unfolding value_cmp
eq_value_named t name = value_cmp t Op.eq name

unfoldable pub lt : TokenBuilder → Cmp
unfolding cmp
lt t = cmp t Op.lt none

unfoldable pub lt_value : TokenBuilder → Cmp
unfolding value_cmp
lt_value t = value_cmp t Op.lt []

unfoldable pub lt_named : TokenBuilder → Option (List Bytes) → Cmp
unfolding cmp
lt_named t names = cmp t Op.lt names

unfoldable pub lt_value_named : TokenBuilder → Bytes → Cmp
unfolding value_cmp
lt_value_named t name = value_cmp t Op.lt name

unfoldable pub lt_or_eq : TokenBuilder → Cmp
unfolding cmp
lt_or_eq t = cmp t Op.leq none

unfoldable pub lt_or_eq_value : TokenBuilder → Cmp
unfolding value_cmp
lt_or_eq_value t = value_cmp t Op.leq []

unfoldable pub lt_or_eq_named : TokenBuilder → Option (List Bytes) → Cmp
unfolding cmp
lt_or_eq_named t names = cmp t Op.leq names

unfoldable pub lt_or_eq_value_named : TokenBuilder → Bytes → Cmp
unfolding value_cmp
lt_or_eq_value_named t name = value_cmp t Op.leq name

unfoldable pub gt : TokenBuilder → Cmp
unfolding cmp
gt t = cmp t Op.gt none

unfoldable pub gt_value : TokenBuilder → Cmp
unfolding value_cmp
gt_value t = value_cmp t Op.gt []

unfoldable pub gt_named : TokenBuilder → Option (List Bytes) → Cmp
unfolding cmp
gt_named t names = cmp t Op.gt names

unfoldable pub gt_value_named : TokenBuilder → Bytes → Cmp
unfolding value_cmp
gt_value_named t name = value_cmp t Op.gt name

unfoldable pub gt_or_eq : TokenBuilder → Cmp
unfolding cmp
gt_or_eq t = cmp t Op.geq none

unfoldable pub gt_or_eq_value : TokenBuilder → Cmp
unfolding value_cmp
gt_or_eq_value t = value_cmp t Op.geq []

unfoldable pub gt_or_eq_named : TokenBuilder → Option (List Bytes) → Cmp
unfolding cmp
gt_or_eq_named t names = cmp t Op.geq names

unfoldable pub gt_or_eq_value_named : TokenBuilder → Bytes → Cmp
unfolding value_cmp
gt_or_eq_value_named t name = value_cmp t Op.geq name
