-- ===== src/Qb/Value.antt =====
-- qb/value.go, qb/func.go, and `placeholders` and `columns` of qb/utils.go.
pub mod Writes
use cqlx.Common.Int.{ℤ, pos, negsuc, pred, rounds}
use cqlx.Common.Decimal.{itoa}
use cqlx.Common.{
  ℕ, zero, suc, ◌+◌, Bytes, List, [], ◌∷◌, ◌++◌, Bool, if◌then◌else◌, length, codes, is_empty, not,
}
use cqlx.Qb.Emit.{Emit, ◌>>◌, write_string, write_byte, return_names, skip, write_each}

-- The loop `for range count - 1` of `placeholders`.
write_marks : ℕ → Emit
write_marks zero = skip
write_marks (suc n) = do write_byte b'?'; write_byte b','; write_marks n

-- `placeholders`, for a count that is a slice's length.
pub placeholders : ℕ → Emit
unfolding write_marks
placeholders zero = skip
placeholders (suc n) = do write_marks n; write_byte b'?'

-- `columns.writeCql`: a comma after each but the last.
unfoldable pub write_columns : List Bytes → Emit
unfolding write_each
write_columns = write_each (write_byte b',') write_string

pub record Func : Type 0 where
  pub name : Bytes
  pub param_names : List Bytes

unfoldable pub write_func : Func → Emit
unfolding placeholders
write_func f = do
  write_string f.name
  write_byte b'('
  placeholders (length f.param_names)
  write_byte b')'
  return_names f.param_names

-- The implementations of the interface `value`.
pub data Value : Type 0 where
  param : Bytes → Value
  tuple_param : Bytes → ℤ → Value
  lit : Bytes → Value
  func : Func → Value

-- `baseName+"["+strconv.Itoa(i)+"]"`.
pub tuple_name : Bytes → ℤ → Bytes
tuple_name base i = base ++ (b'[' ∷ (itoa i ++ (b']' ∷ [])))

-- The loop of `tupleParam.writeCql`, from index `i` on.
write_elements : Bytes → ℕ → ℕ → Emit
write_elements base zero i = skip
write_elements base (suc n) i = do
  write_byte b'?'
  write_byte b','
  return_names (tuple_name base (pos i) ∷ [])
  write_elements base n (suc i)

pub write_tuple_param : Bytes → ℤ → Emit
unfolding write_elements
write_tuple_param base count = do
  write_byte b'('
  write_elements base (rounds (pred count)) 0
  write_byte b'?'
  write_byte b')'
  return_names (tuple_name base (pred count) ∷ [])

unfoldable pub write_value : Value → Emit
unfolding write_tuple_param write_func tuple_name
write_value (param p) = do write_byte b'?'; return_names (p ∷ [])
write_value (tuple_param p count) = write_tuple_param p count
write_value (lit l) = write_string l
write_value (func f) = write_func f

-- `Fn`, `MinTimeuuid`, `MaxTimeuuid` and `Now`.
unfoldable pub fn : Bytes → List Bytes → Func
fn name param_names = record { name = name; param_names = param_names }

unfoldable pub min_timeuuid : Bytes → Func
unfolding fn
min_timeuuid name = fn (codes "minTimeuuid") (name ∷ [])

unfoldable pub max_timeuuid : Bytes → Func
unfolding fn
max_timeuuid name = fn (codes "maxTimeuuid") (name ∷ [])

unfoldable pub now : Func
unfolding fn
now = fn (codes "now") []
