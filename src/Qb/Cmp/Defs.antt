-- ===== src/Qb/Cmp/Defs.antt =====
-- qb/cmp.go: comparators, and the WHERE and IF clauses made of them.
use cqlx.Common.{Bytes, List, [], ◌∷◌, codes}
use cqlx.Qb.Emit.{Emit, ◌>>◌, write_string, write_byte, skip, write_each}
use cqlx.Qb.Value.{Value, write_value}

pub data Op : Type 0 where
  eq ne lt leq gt geq in_list cnt cnt_key like : Op

pub record Cmp : Type 0 where
  pub value : Value
  pub column : Bytes
  pub op : Op

-- The switch of `Cmp.writeCql`.
unfoldable pub write_op : Op → Emit
write_op eq = write_byte b'='
write_op ne = write_string (codes "!=")
write_op lt = write_byte b'<'
write_op leq = do write_byte b'<'; write_byte b'='
write_op gt = write_byte b'>'
write_op geq = do write_byte b'>'; write_byte b'='
write_op in_list = write_string (codes " IN ")
write_op cnt = write_string (codes " CONTAINS ")
write_op cnt_key = write_string (codes " CONTAINS KEY ")
write_op like = write_string (codes " LIKE ")

unfoldable pub write_cmp : Cmp → Emit
unfolding write_op write_value
write_cmp c = do write_string c.column; write_op c.op; write_value c.value

unfoldable pub write_cmps : List Cmp → Emit
unfolding write_cmp write_each
write_cmps cs = do write_each (write_string (codes " AND ")) write_cmp cs; write_byte b' '

unfoldable pub write_where : List Cmp → Emit
unfolding write_cmps
write_where [] = skip
write_where (c ∷ w) = do write_string (codes "WHERE "); write_cmps (c ∷ w)

unfoldable pub write_if : List Cmp → Emit
unfolding write_cmps
write_if [] = skip
write_if (c ∷ w) = do write_string (codes "IF "); write_cmps (c ∷ w)
