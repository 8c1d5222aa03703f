-- ===== src/Dbutil.antt =====
-- dbutil/rewrite.go: `RewriteTable`, which copies the rows of a table into another.
pub mod Rows
mod Tests
use cqlx.Common.{Bytes, List, [], ◌∷◌, Bool, true, false, is_empty, Option, none, some}
use cqlx.Queryx.Exec.{ExecError, driver, exec}
use cqlx.Queryx.{Any, Queryx, Mapper, bind_map, ◌>>=◌}
use mathlib.Core.Option

-- A row, as `MapScan` puts it into a map.
abbrev pub Row : Type 0 → Type 0
Row S = List (Bytes × Any S)

-- `if transform != nil { transform(m) }`.
unfoldable pub transformed : {S : Type 0} → Option (Row S → Row S) → Row S → Row S
transformed none m = m
transformed (some f) m = f m

-- `for _, o := range options { o(insert) }`.
unfoldable pub apply_options : {Q : Type 0} → List (Q → Q) → Q → Q
apply_options [] insert = insert
apply_options (o ∷ options) insert = apply_options options (o insert)

module _ {S T Q W E : Type 0} (mapper : Mapper S T) (driver_bind : List (Any S) → Q → Q)
    (exec_context : Q → W → W × Option E) where
  -- The loop, `none` where a binding panics: `rows` are those that `MapScan` gives, and `close` is
  -- what `Close` returns behind them.
  unfoldable pub rewrite_rows :
      Option (Row S → Row S)
      → Option E
      → Queryx S Q
      → List (Row S)
      → W
      → Option (W × Option (ExecError E))
  unfolding transformed exec bind_map
  rewrite_rows transform close insert [] w = some (w, Option.map driver close)
  rewrite_rows transform close insert (row ∷ rows) w =
      let m = transformed transform row in
      elim (is_empty m) [
        | true ↦ rewrite_rows transform close insert rows w
        | false ↦ do
          bound ← bind_map mapper driver_bind m insert
          let sent = exec exec_context bound w in
              elim sent.1 [
                | some e ↦ some sent
                | none ↦ rewrite_rows transform close bound rows sent.0
              ]
      ]

  -- `insert` is `dst.InsertQuery(session)`, and `rows` and `close` come from the iterator of
  -- `session.Query(src.SelectAll())`.
  unfoldable pub rewrite_table :
      Option (Row S → Row S)
      → List (Queryx S Q → Queryx S Q)
      → Queryx S Q
      → List (Row S)
      → Option E
      → W
      → Option (W × Option (ExecError E))
  unfolding apply_options rewrite_rows
  rewrite_table transform options insert rows close w =
      rewrite_rows transform close (apply_options options insert) rows w
