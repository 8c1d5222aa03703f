-- ===== src/Queryx/Cas.antt =====
-- queryx.go, the methods that read rows: what a failed binding does to them, and what the CAS
-- methods return.
use cqlx.Common.{ℕ, zero, suc, List, Bool, true, false, Option, none, some, ◌≡◌, refl, ap}
use cqlx.Iterx.Gets.{Reads, close_error, get-Reads}
use cqlx.Iterx.Scan.{points_to, Reflection, Driver, close}
use cqlx.Iterx.{Target, IterError, Iterx, Types}
use cqlx.Queryx.Fetch.{FetchError, reading, applied_of, applied_from, iter, get_cas, exec_cas}
use cqlx.Queryx.{Queryx}
use mathlib.Core.Option

module _ {V T L E D : Type 0} (types : Types V T) (r : Reflection T)
    (driver : Driver V T L E D) where
  -- The error, or else the flag `applied`, with the error of the second `Close`.
  unfoldable pub flag_or : D → Option (IterError E) → D × Bool × Option (FetchError E)
  flag_or d (some e) = (d, false, some (reading e))
  flag_or d none =
      let (d', e) = driver.close d in
      (d', driver.applied d, Option.map reading (Option.map IterError.driver e))

  -- What a CAS method returns behind the scan of a row: the error of the first `Close`, or that there
  -- was no row, or else the flag.
  unfoldable pub applied_result : D → D × Bool × Option (FetchError E)
  unfolding flag_or close_error
  applied_result d = let (d', e) = driver.close d in flag_or d' (close_error e (driver.num_rows d'))

  applied_of-flag :
      (closed : Iterx V E) (d : D) (e : Option E) (rows : ℕ)
      → closed.err ≡ Option.map IterError.driver e
      → applied_of types r driver closed d (close_error e rows) ≡ flag_or d (close_error e rows)
  unfolding applied_of flag_or close_error close
  applied_of-flag closed d (some e) rows h = refl
  applied_of-flag closed d none zero h = refl
  applied_of-flag closed d none (suc rows) h = rw (h, close) refl

  applied_from-Reads :
      (value : V) (opened : Iterx V E) (d : D) (ts : List (Target V))
      → Reads types r (driver.columns d) value opened ts
      → opened.err ≡ none
      → applied_from types r driver (points_to value) opened d
        ≡ some (applied_result (driver.scan ts d).0)
  unfolding applied_from applied_result
  applied_from-Reads value opened d ts reads he =
      let closing = driver.close (driver.scan ts d).0 in
      let (closed, got, err) = get-Reads types r driver value opened d ts reads he in
      rw (got, applied_from)
        (ap some (applied_of-flag closed closing.0 closing.1 (driver.num_rows closing.0) err))

module _ {V T L E D S Q : Type 0} (types : Types V T) (r : Reflection T) (driver : Driver V T L E D)
    (iter_context : Q → D → D) (no_skip_metadata : Q → Q) where
  -- `GetCAS` without a binding error, into a destination that is a struct with a path for each
  -- column, or that takes the one column: it scans one row into the destination, behind
  -- `NoSkipMetadata`, and returns false with the error of the driver's `Close`, or that there was
  -- no row, and else the flag `applied` with the error of a second `Close`.
  pub get_cas-Reads :
      (value : V) (q : Queryx S Q) (d : D) (ts : List (Target V))
      → q.err ≡ none
      → let q' = record q { query = no_skip_metadata q.query } in
        let (opened, d') = iter types r driver iter_context q' d in
        Reads types r (driver.columns d') value opened ts
        → get_cas types r driver iter_context no_skip_metadata (points_to value) q d ≡ (
            let q' = record q { query = no_skip_metadata q.query } in
            let scanned = (driver.scan ts (iter_context q'.query d)).0 in
            let (d'', applied, e) = applied_result types r driver scanned in
            some (q', d'', applied, e))
  unfolding get_cas iter
  get_cas-Reads value q d ts he reads =
      let opened = iter_context (no_skip_metadata q.query) d in
      let (d', applied, e) = applied_result types r driver (driver.scan ts opened).0 in
      let read = applied_from-Reads types r driver value _ opened ts reads refl in
      rw (he, get_cas)
        (rw read (
          ap
            (λ err. some (record q { err = err; query = no_skip_metadata q.query }, d', applied, e))
            he))

  pub exec_cas-Reads :
      (value : V) (q : Queryx S Q) (d : D) (ts : List (Target V))
      → let q' = record q { query = no_skip_metadata q.query } in
        let (opened, d') = iter types r driver iter_context q' d in
        Reads types r (driver.columns d') value (record opened { struct_only = true }) ts
        → exec_cas types r driver iter_context no_skip_metadata value q d ≡ (
            let q' = record q { query = no_skip_metadata q.query } in
            let scanned = (driver.scan ts (iter_context q'.query d)).0 in
            let (d'', applied, e) = applied_result types r driver scanned in
            some (q', d'', applied, e))
  unfolding exec_cas iter
  exec_cas-Reads value q d ts reads =
      rw
        (
          applied_from-Reads types r driver value _ (iter_context (no_skip_metadata q.query) d) ts
              reads refl,
          exec_cas,
        )
        refl
