-- ===== src/Batchx.antt =====
-- batchx.go: the methods that bind a query and add it to a batch.
pub mod Entries
pub mod Handles
pub mod Sharing
mod Tests
use cqlx.Common.{ℕ, Bytes, List, [], ◌∷◌, Option, none, some, length, ◌==◌, if◌then◌else◌}
use cqlx.Queryx.{Any, BindError, Queryx, Mapper, Args, ◌>>=◌, bind_map_from, bind_struct_args}

-- `Bind` counts the arguments; the other methods return the error of the binding.
pub data BatchError : Type 0 where
  arguments : (required provided : ℕ) → BatchError
  bind_failed : BindError → BatchError

-- `D` is the driver's batch, and `add` its method `Query`; `statement` is the driver's
-- `Statement` of a query.
module _ {S Q D : Type 0} (statement : Q → Bytes) (add : Bytes → List (Any S) → D → D) where
  -- What the methods do with the arguments and the error.
  unfoldable pub add_args : Queryx S Q → Args S → D → D × Option BatchError
  add_args q (args, some e) b = (b, some (bind_failed e))
  add_args q (args, none) b = (add (statement q.query) args b, none)

  unfoldable pub bind : Queryx S Q → List (Any S) → D → D × Option BatchError
  bind q args b =
      if length q.names == length args
      then (add (statement q.query) args b, none)
      else (b, some (arguments (length q.names) (length args)))

  -- `none` is a panic.
  unfoldable pub bind_map : Queryx S Q → List (Bytes × Any S) → D → Option (D × Option BatchError)
  unfolding add_args bind_map_from
  bind_map q arg b = do args ← bind_map_from q.tr arg q.names []; some (add_args q args b)

  unfoldable pub bind_struct_map :
      {T : Type 0}
      → Mapper S T
      → Queryx S Q
      → Any S
      → List (Bytes × Any S)
      → D
      → Option (D × Option BatchError)
  unfolding add_args bind_struct_args
  bind_struct_map mapper q arg0 arg1 b = do
    args ← bind_struct_args mapper q arg0 arg1
    some (add_args q args b)

  unfoldable pub bind_struct :
      {T : Type 0} → Mapper S T → Queryx S Q → Any S → D → Option (D × Option BatchError)
  unfolding add_args bind_struct_args
  bind_struct mapper q arg b = do args ← bind_struct_args mapper q arg []; some (add_args q args b)
