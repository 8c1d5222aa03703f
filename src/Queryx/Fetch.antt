-- ===== src/Queryx/Fetch.antt =====
-- queryx.go, the methods that read rows: `Iter`, `Get`, `Select`, `GetCAS`, `ExecCAS` and `Scan`. The
-- driver's state `D` has its iterator and the memory that it writes.
use cqlx.Common.{ℕ, List, [], Bool, true, false, Option, none, some}
use cqlx.Iterx.All
use cqlx.Iterx.All.{Elem, Looped}
use cqlx.Iterx.Scan
use cqlx.Iterx.Scan.{Dest, points_to, Reflection, Driver, close}
use cqlx.Iterx.{IterError, Iterx, Types}
use cqlx.Queryx.{Any, BindError, Queryx, Mapper, ◌>>=◌, udt_wrap_slice}
use mathlib.Core.Option

-- `bind_failed` is the error that a bind method left, `reading` one of the iterator.
pub data FetchError (E : Type 0) : Type 0 where
  bind_failed : BindError → FetchError E
  reading : IterError E → FetchError E

-- `Select` returns the error of the binding, or runs on the iterator.
pub data Selected (V L E D : Type 0) : Type 0 where
  unsent : BindError → D → Selected V L E D
  ran : Looped V L E D → Selected V L E D

-- `Scan`, where `scan_context` is `ScanContext` of the driver's query.
unfoldable pub scan :
    {S T Q W E : Type 0}
    → Mapper S T
    → (Q → List (Any S) → W → W × Option E)
    → Queryx S Q
    → List (Any S)
    → W
    → W × Option E
unfolding udt_wrap_slice
scan mapper scan_context q v w = scan_context q.query (udt_wrap_slice mapper q.strict v) w

module _ {V T L E D : Type 0} (types : Types V T) (r : Reflection T)
    (driver : Driver V T L E D) where
  -- `if err := iter.Get(dest); err != nil`, and what is returned otherwise.
  unfoldable pub applied_of :
      Iterx V E → D → Option (IterError E) → D × Bool × Option (FetchError E)
  unfolding close
  applied_of got d (some e) = (d, false, some (reading e))
  applied_of got d none =
      let (closed, d') = close types r driver got d in
      (d', driver.applied d, Option.map reading closed.err)

  -- What the CAS methods do with the iterator.
  unfoldable pub applied_from : Dest V → Iterx V E → D → Option (D × Bool × Option (FetchError E))
  unfolding Scan.get applied_of
  applied_from dest opened d = do
    (got, d', e) ← Scan.get types r driver dest opened d
    some (applied_of got d' e)

  module _ {S Q : Type 0} (iter_context : Q → D → D) where
    -- `Iter`: a new iterator, and the driver's.
    unfoldable pub iter : Queryx S Q → D → Iterx V E × D
    iter q d = (
      record { err = none; fields = none; values = []; strict = q.strict; struct_only = false },
      iter_context q.query d,
    )

    -- `none` is a panic.
    unfoldable pub get : Dest V → Queryx S Q → D → Option (D × Option (FetchError E))
    unfolding iter Scan.get
    get dest q d = elim q.err [
      | some e ↦ some (d, some (bind_failed e))
      | none ↦ do
        let (opened, d') = iter q d
        (_, d'', e) ← Scan.get types r driver dest opened d'
        some (d'', Option.map reading e)
    ]

    -- The slice is stored by `store`; fuel is for the loop over the rows.
    unfoldable pub select :
        (V → List (Elem V L) → D → D) → ℕ → Dest V → Queryx S Q → D → Selected V L E D
    unfolding iter All.select
    select store fuel dest q d = elim q.err [
      | some e ↦ unsent e d
      | none ↦
          let (opened, d') = iter q d in ran (All.select types r driver store fuel dest opened d')
    ]

    module _ (no_skip_metadata : Q → Q) where
      unfoldable pub get_cas :
          Dest V → Queryx S Q → D → Option (Queryx S Q × D × Bool × Option (FetchError E))
      unfolding iter applied_from
      get_cas dest q d = elim q.err [
        | some e ↦ some (q, d, false, some (bind_failed e))
        | none ↦ do
          let q' = record q { query = no_skip_metadata q.query }
          let (opened, d') = iter q' d
          (d'', applied, e) ← applied_from dest opened d'
          some (q', d'', applied, e)
      ]

      -- The value `empty` is the pointer to an empty struct. `ExecCAS` does not look at `q.err`.
      unfoldable pub exec_cas :
          V → Queryx S Q → D → Option (Queryx S Q × D × Bool × Option (FetchError E))
      unfolding iter applied_from
      exec_cas empty q d = do
        let q' = record q { query = no_skip_metadata q.query }
        let (opened, d') = iter q' d
        (d'', applied, e) ← applied_from (points_to empty) (record opened { struct_only = true }) d'
        some (q', d'', applied, e)
