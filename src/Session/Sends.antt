-- ===== src/Session/Sends.antt =====
-- From a builder to the driver: the statement that a builder writes, made a query, bound from a map
-- by `BindMap` and sent by `Exec`.
use cqlx.Common.{Bytes, List, [], ◌∷◌, All, Bool, Option, none, some, map, ◌≡◌, refl, ap, ◌∙◌}
use cqlx.Qb.Binding.{BindsAs, fill, instantiate}
use cqlx.Qb.Emit.{Stmt}
use cqlx.Qb.Template.{Template}
use cqlx.Queryx.Bound.{Binds, all_bound, bound, missing, entry, Given}
use cqlx.Queryx.Configured.{Configured, Configured-set_option}
use cqlx.Queryx.Options.{DriverQuery, set_option}
use cqlx.Queryx.Exec.{driver, exec, bind_map-Given}
use cqlx.Queryx.{
  Transformer, ◌>>=◌, Queryx, Any, BindError, Mapper, lookup, transform, wrap, udt_wrap_slice, bind,
  bind_map,
}
use cqlx.Session.{query}
use mathlib.Core.Option

module _ {S T : Type 0} (mapper : Mapper S T) (print : Any S → Bytes) (tr : Option (Transformer S))
    (strict : Bool) where
  -- The text of what the driver gets for a name: the value of the map, behind the transformer and in
  -- the wrapper of user-defined types.
  abbrev pub text_of : List (Bytes × Any S) → Bytes → Bytes
  text_of arg name = elim (do val ← lookup name arg; transform tr name val) [
    | none ↦ []
    | some val ↦ print (wrap mapper strict val)
  ]

  map-Binds :
      (arg : List (Bytes × Any S)) {names : List Bytes} {args : List (Any S)} {e : Option BindError}
      → Binds tr (entry tr arg) names args e
      → e ≡ none
      → map print (udt_wrap_slice mapper strict args) ≡ map (text_of arg) names
  unfolding udt_wrap_slice
  map-Binds arg all_bound h = refl
  map-Binds arg (bound {name} {val} {val'} l t b) h =
      let l' : lookup name arg ≡ some val = cc in
      rw (l', text_of)
        (rw (t, text_of) (ap (◌∷◌ (print (wrap mapper strict val'))) (map-Binds arg b h)))
  map-Binds arg (missing l) h = cc

  -- A query of the session, of which only the query of the driver was changed.
  pub exec-change :
      {Q W E : Type 0} (new_query : Bytes → Q) (driver_bind : List (Any S) → Q → Q)
      (exec_context : Q → W → W × Option E) (stmt : Stmt) (t : Template) (change : Q → Q)
      → ((env : Bytes → Bytes) → BindsAs env t stmt)
      → (arg : List (Bytes × Any S)) (w : W) → All (Given tr arg) stmt.names
      → let q = set_option change (query new_query tr strict stmt.stmt stmt.names) in
        (ready : Queryx S Q) × (bind_map mapper driver_bind arg q ≡ some ready)
        × (args : List (Any S)) × (exec exec_context ready w ≡ (
            let (w', e) = exec_context (driver_bind args (change (new_query stmt.stmt))) w in
            (w', Option.map driver e)))
        × (fill stmt.stmt (map print args) ≡ some (instantiate (text_of arg) t))
  unfolding query set_option bind_map bind exec
  exec-change new_query driver_bind exec_context stmt t change binds arg w found =
      let q = set_option change (query new_query tr strict stmt.stmt stmt.names) in
      let (values, b, returns) = bind_map-Given mapper driver_bind arg q found in
      (
        bind mapper driver_bind values (record q { err = none }),
        returns,
        udt_wrap_slice mapper strict values,
        refl,
        ap (fill stmt.stmt) (map-Binds arg b refl) ∙ binds (text_of arg),
      )

  -- A statement that binds as a template, as a query of the session behind calls of its options, and
  -- bound from a map with a value for every name that the transformer returns for, is sent with arguments that fill the template: each hole gets
  -- the value that the map has for its name, behind the transformer and the wrapper. The driver is
  -- called once, with every option, and its error is returned.
  pub exec-BindsAs :
      {Q C F H W E : Type 0} (options : DriverQuery Q C F H) (new_query : Bytes → Q)
      (driver_bind : List (Any S) → Q → Q) (exec_context : Q → W → W × Option E) (stmt : Stmt)
      (t : Template) (q : Queryx S Q) (change : Q → Q)
      → ((env : Bytes → Bytes) → BindsAs env t stmt)
      → Configured options (query new_query tr strict stmt.stmt stmt.names) change q
      → (arg : List (Bytes × Any S)) (w : W) → All (Given tr arg) stmt.names
      → (ready : Queryx S Q) × (bind_map mapper driver_bind arg q ≡ some ready)
        × (args : List (Any S)) × (exec exec_context ready w ≡ (
            let (w', e) = exec_context (driver_bind args (change (new_query stmt.stmt))) w in
            (w', Option.map driver e)))
        × (fill stmt.stmt (map print args) ≡ some (instantiate (text_of arg) t))
  exec-BindsAs options new_query driver_bind exec_context stmt t q change binds conf arg w found =
      let (ready, returns, args, sent, filled) =
        exec-change new_query driver_bind exec_context stmt t change binds arg w found in
      (
        ready,
        ap (bind_map mapper driver_bind arg)
              (Configured-set_option options (query new_query tr strict stmt.stmt stmt.names) conf)
            ∙ returns,
        args,
        sent,
        filled,
      )
