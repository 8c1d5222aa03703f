-- ===== src/Queryx/Unsent.antt =====
-- queryx.go: which methods look at the error of a failed binding before they send the query.
use cqlx.Common.{
  ℕ, Bytes, List, ◌∷◌, ◌++◌, All, true, false, is_empty, none, some, length, ◌≡◌, inr, refl, sym,
  ◌∙◌, subst,
}
use cqlx.Iterx.All.{Elem}
use cqlx.Iterx.Gets.{Reads, as_struct}
use cqlx.Iterx.Scan.{Dest, Reflection, Driver}
use cqlx.Iterx.Targets.{overlay-empty, paths, length-initial_values}
use cqlx.Iterx.{Types, is_cas, initial_values}
use cqlx.Queryx.Cas.{applied_result, exec_cas-Reads}
use cqlx.Queryx.Exec.{bind_map-missing}
use cqlx.Queryx.Fetch
use cqlx.Queryx.Fetch.{bind_failed, unsent, iter, get_cas, exec_cas}
use cqlx.Queryx.Bound.{Given}
use cqlx.Queryx.{Any, not_found, Queryx, Mapper, lookup, bind_map}

module _ {V T L E D S Q U : Type 0} (types : Types V T) (r : Reflection T)
    (driver : Driver V T L E D) (iter_context : Q → D → D) (no_skip_metadata : Q → Q)
    (mapper : Mapper S U) (driver_bind : List (Any S) → Q → Q) where
  -- After `BindMap` of a map that lacks a name, `Get`, `Select` and `GetCAS` open no iterator and
  -- leave the destination: they return the error of the first name that is not there, whatever the
  -- destination is. The transformer returns for the values of the names before.
  pub fetch-missing :
      (before after : List Bytes) (name : Bytes) (arg : List (Bytes × Any S)) (q : Queryx S Q)
      (store : V → List (Elem V L) → D → D) (fuel : ℕ) (dest : Dest V) (d : D)
      → q.names ≡ before ++ name ∷ after
      → All (Given q.tr arg) before
      → lookup name arg ≡ none
      → (bound : Queryx S Q) × (bind_map mapper driver_bind arg q ≡ some bound)
        × (Fetch.get types r driver iter_context dest bound d
            ≡ some (d, some (bind_failed (not_found name))))
        × (Fetch.select types r driver iter_context store fuel dest bound d
            ≡ unsent (not_found name) d)
        × (get_cas types r driver iter_context no_skip_metadata dest bound d
            ≡ some (bound, d, false, some (bind_failed (not_found name))))
  unfolding Fetch.get Fetch.select get_cas
  fetch-missing before after name arg q store fuel dest d e h hn = (
    record q { err = some (not_found name) },
    bind_map-missing mapper driver_bind before after name arg q e h hn,
    refl,
    refl,
    refl,
  )

  -- After `BindMap` of a map that lacks a name, `ExecCAS` does not return the error: it sends the
  -- query with the arguments that an earlier binding gave, and returns whether that was applied.
  -- The destination is an empty struct, none of whose fields a column goes to, and the first
  -- column is `[applied]`. The transformer returns for the values of the names before.
  pub exec_cas-missing :
      (before after : List Bytes) (name : Bytes) (arg : List (Bytes × Any S)) (q : Queryx S Q)
      (empty : V) (d : D)
      → q.names ≡ before ++ name ∷ after
      → All (Given q.tr arg) before
      → lookup name arg ≡ none
      → types.is_struct empty ≡ true
      → r.is_struct_type (r.deref (types.type_of empty)) ≡ true
      → let opened = iter_context (no_skip_metadata q.query) d in
        let columns = driver.columns opened in
        is_cas columns ≡ true
        → length (paths types empty columns) ≡ length columns
        → All (λ t. is_empty t ≡ true) (paths types empty columns)
        → (bound : Queryx S Q) × (bind_map mapper driver_bind arg q ≡ some bound)
          × (exec_cas types r driver iter_context no_skip_metadata empty bound d ≡ (
              let (d', applied, e) =
                applied_result types r driver (driver.scan (initial_values columns) opened).0 in
              some (
                record q { err = some (not_found name); query = no_skip_metadata q.query },
                d',
                applied,
                e,
              )))
  unfolding iter
  exec_cas-missing before after name arg q empty d e h hn hv hs hc hl hp =
      let opened = iter_context (no_skip_metadata q.query) d in
      let columns = driver.columns opened in
      (
        record q { err = some (not_found name) },
        bind_map-missing mapper driver_bind before after name arg q e h hn,
        exec_cas-Reads types r driver iter_context no_skip_metadata empty
            (record q { err = some (not_found name) }) d (initial_values columns)
            (subst
              (Reads types r columns empty
                (record (iter types r driver iter_context
                  (record q { err = some (not_found name); query = no_skip_metadata q.query })
                  d).0 { struct_only = true }))
              (overlay-empty types empty (paths types empty columns) (initial_values columns) hp
                (hl ∙ sym (length-initial_values V columns)))
              (as_struct (inr (refl, hs)) refl hv hl (λ strict cas. cc))),
      )
