-- ===== src/Queryx/Exec.antt =====
-- queryx.go, `Exec`, and what the bind methods leave for it.
use cqlx.Common.{
  sym, Bytes, List, [], ◌∷◌, ◌++◌, All, Option, none, some, ◌≡◌, refl, ap, subst, ◌∙◌,
}
use cqlx.Queryx.Bound.{Binds, entry, Given, Given-Binds, Given-missing, bind_map_from-Binds}
use cqlx.Queryx.{
  ◌>>=◌, Any, BindError, not_found, Queryx, Mapper, Args, lookup, bind, bind_args, bind_map,
}
use mathlib.Core.Option

-- `bind_failed` is `bind error: ` with the error of the binding, `driver` an error of the driver.
pub data ExecError (E : Type 0) : Type 0 where
  bind_failed : BindError → ExecError E
  driver : E → ExecError E

-- The function `exec_context` is `ExecContext` of the driver's query, with what it changes, `W`.
unfoldable pub exec :
    {S Q W E : Type 0} → (Q → W → W × Option E) → Queryx S Q → W → W × Option (ExecError E)
exec exec_context q w = elim q.err [
  | some e ↦ (w, some (bind_failed e))
  | none ↦ let (w', e) = exec_context q.query w in (w', Option.map driver e)
]

module _ {S T Q : Type 0} (mapper : Mapper S T) (driver_bind : List (Any S) → Q → Q) where
  bind_args-failed :
      (r : Args S) (q : Queryx S Q) {e : BindError}
      → r.1 ≡ some e
      → bind_args mapper driver_bind r q ≡ record q { err = some e }
  unfolding bind_args
  bind_args-failed (args, none) q h = cc
  bind_args-failed (args, some e') q h = ap (λ e. record q { err = e }) h

  bind_args-bound :
      (r : Args S) (q : Queryx S Q)
      → r.1 ≡ none
      → bind_args mapper driver_bind r q ≡ bind mapper driver_bind r.0 (record q { err = none })
  unfolding bind_args
  bind_args-bound (args, some e) q h = cc
  bind_args-bound (args, none) q h = refl

  bind_map-Binds :
      {args : List (Any S)} {e : Option BindError} (arg : List (Bytes × Any S)) (q : Queryx S Q)
      → Binds q.tr (entry q.tr arg) q.names args e
      → bind_map mapper driver_bind arg q ≡ some (bind_args mapper driver_bind (args, e) q)
  unfolding bind_map
  bind_map-Binds arg q b =
      ap (λ o. do r ← o; some (bind_args mapper driver_bind r q))
        (bind_map_from-Binds q.tr arg b [])

  -- A map that lacks a name leaves the error of the first that it lacks, and nothing else, if the
  -- transformer returns for the values before it.
  pub bind_map-missing :
      (before after : List Bytes) (name : Bytes) (arg : List (Bytes × Any S)) (q : Queryx S Q)
      → q.names ≡ before ++ name ∷ after
      → All (Given q.tr arg) before
      → lookup name arg ≡ none
      → bind_map mapper driver_bind arg q ≡ some (record q { err = some (not_found name) })
  bind_map-missing before after name arg q e h hn =
      let (args, b) = Given-missing q.tr arg before after name h hn in
      bind_map-Binds arg q
        (subst (λ names. Binds q.tr (entry q.tr arg) names args (some (not_found name))) (sym e) b)
      ∙ ap some (bind_args-failed (args, some (not_found name)) q refl)

  -- A map that has a value for every name, for which the transformer returns one, binds these.
  pub bind_map-Given :
      (arg : List (Bytes × Any S)) (q : Queryx S Q)
      → All (Given q.tr arg) q.names
      → (args : List (Any S)) × Binds q.tr (entry q.tr arg) q.names args none
        × (bind_map mapper driver_bind arg q
            ≡ some (bind mapper driver_bind args (record q { err = none })))
  bind_map-Given arg q h =
      let (args, b) = Given-Binds q.tr arg q.names h in
      (args, b, bind_map-Binds arg q b ∙ ap some (bind_args-bound (args, none) q refl))

module _ {S T Q W E : Type 0} (mapper : Mapper S T) (driver_bind : List (Any S) → Q → Q)
    (exec_context : Q → W → W × Option E) where
  exec-failed :
      (q : Queryx S Q) (w : W) {e : BindError}
      → q.err ≡ some e
      → exec exec_context q w ≡ (w, some (bind_failed e))
  unfolding exec
  exec-failed q w h = rw (h, exec) refl

  -- After `BindMap` of a map that lacks a name, `Exec` sends nothing and returns the error of the
  -- first name that is not there, also if `Bind` gave other arguments in between. The transformer
  -- returns for the values of the names before, so that `BindMap` does not panic.
  pub exec-missing :
      (before after : List Bytes) (name : Bytes) (arg : List (Bytes × Any S)) (q : Queryx S Q)
      (values : List (Any S)) (w : W)
      → q.names ≡ before ++ name ∷ after
      → All (Given q.tr arg) before
      → lookup name arg ≡ none
      → (bound : Queryx S Q) × (bind_map mapper driver_bind arg q ≡ some bound)
        × (exec exec_context bound w ≡ (w, some (bind_failed (not_found name))))
        × (exec exec_context (bind mapper driver_bind values bound) w
            ≡ (w, some (bind_failed (not_found name))))
  unfolding bind
  exec-missing before after name arg q values w e h hn = (
    record q { err = some (not_found name) },
    bind_map-missing mapper driver_bind before after name arg q e h hn,
    exec-failed _ w refl,
    exec-failed _ w refl,
  )
