-- ===== src/Dbutil/Rows.antt =====
-- What `RewriteTable` sends: every row for itself, though one query is bound again and again.
use cqlx.Common.{List, [], ◌∷◌, true, false, is_empty, Option, none, some, ◌≡◌, refl, ap, ap₂, ◌∙◌}
use cqlx.Dbutil.{Row, transformed, apply_options, rewrite_rows, rewrite_table}
use cqlx.Queryx.Exec.{ExecError, driver, exec}
use cqlx.Queryx.{
  ◌>>=◌, Any, Queryx, Mapper, Args, bind_map_from, udt_wrap_slice, bind, bind_args, bind_map,
}
use mathlib.Core.Option

-- The row in front of the others, if it is not empty.
unfoldable pub with_row : {S : Type 0} → Row S → List (Row S) → List (Row S)
with_row [] rows = rows
with_row (entry ∷ entries) rows = (entry ∷ entries) ∷ rows

-- The rows to insert: as the function leaves them, if there is one, without those that are empty.
unfoldable pub kept : {S : Type 0} → Option (Row S → Row S) → List (Row S) → List (Row S)
unfolding with_row
kept transform [] = []
kept transform (row ∷ rows) =
    with_row (elim transform [ none ↦ row | some f ↦ f row ]) (kept transform rows)

-- A query as the options leave it, which are applied in turn.
unfoldable pub configured : {Q : Type 0} → Q → List (Q → Q) → Q
configured insert [] = insert
configured insert (o ∷ options) = configured (o insert) options

apply_options-configured :
    {Q : Type 0} (options : List (Q → Q)) (insert : Q)
    → apply_options options insert ≡ configured insert options
unfolding apply_options configured
apply_options-configured [] insert = refl
apply_options-configured (o ∷ options) insert = apply_options-configured options (o insert)

transformed_lem :
    {S : Type 0} (transform : Option (Row S → Row S)) (row : Row S)
    → transformed transform row ≡ elim transform [ none ↦ row | some f ↦ f row ]
unfolding transformed
transformed_lem none row = refl
transformed_lem (some f) row = refl

module _ {S T Q W E : Type 0} (mapper : Mapper S T) (driver_bind : List (Any S) → Q → Q)
    (exec_context : Q → W → W × Option E) where
  -- Each row is bound to the same query and sent, up to the first error; behind the last comes the
  -- error of the iterator. `none` is a panic of a binding.
  unfoldable pub insert_each :
      Option E → Queryx S Q → List (Row S) → W → Option (W × Option (ExecError E))
  insert_each close q [] w = some (w, Option.map driver close)
  insert_each close q (m ∷ rows) w = do
    bound ← bind_map mapper driver_bind m q
    let sent = exec exec_context bound w in
        elim sent.1 [ some e ↦ some sent | none ↦ insert_each close q rows sent.0 ]

  -- What a loop does behind a query that it sent.
  abbrev next :
      (W × Option (ExecError E))
      → (W → Option (W × Option (ExecError E)))
      → Option (W × Option (ExecError E))
  next sent rest = elim sent.1 [ some e ↦ some sent | none ↦ rest sent.0 ]

  next-cong :
      (sent : W × Option (ExecError E)) (rest rest' : W → Option (W × Option (ExecError E)))
      → ((w : W) → rest w ≡ rest' w)
      → next sent rest ≡ next sent rest'
  next-cong (w, some e) rest rest' h = refl
  next-cong (w, none) rest rest' h = h w

  -- Two queries that a binding makes alike.
  pub record Rebinds (q q' : Queryx S Q) : Type 0 where
    pub names : q.names ≡ q'.names
    pub tr : q.tr ≡ q'.tr
    pub strict : q.strict ≡ q'.strict
    pub query : (v : List (Any S)) → driver_bind v q.query ≡ driver_bind v q'.query

  exec-bind_args :
      (r : Args S) (q q' : Queryx S Q) (w : W)
      → Rebinds q q'
      → exec exec_context (bind_args mapper driver_bind r q) w
        ≡ exec exec_context (bind_args mapper driver_bind r q') w
  unfolding bind_args bind exec
  exec-bind_args (args, some e) q q' w s = refl
  exec-bind_args (args, none) q q' w s =
      ap (λ query. let (w', e) = exec_context query w in (w', Option.map driver e))
        (s.query _
          ∙ ap (λ strict. driver_bind (udt_wrap_slice mapper strict args) q'.query) s.strict)

  module _
      (law : (u v : List (Any S)) (q : Q) → driver_bind v (driver_bind u q) ≡ driver_bind v q) where
    bind_args-Rebinds :
        (r : Args S) (q q' : Queryx S Q)
        → Rebinds q q'
        → Rebinds (bind_args mapper driver_bind r q) q'
    unfolding bind_args bind
    bind_args-Rebinds (args, some e) q q' s = record {
      names = s.names;
      tr = s.tr;
      strict = s.strict;
      query = s.query;
    }
    bind_args-Rebinds (args, none) q q' s = record {
      names = s.names;
      tr = s.tr;
      strict = s.strict;
      query = λ v. law _ v q.query ∙ s.query v;
    }

    -- One row, by what its binding gives, in front of rows that are sent alike.
    next-rebound :
        (o : Option (Args S)) (q q' : Queryx S Q) (w : W)
        (rest rest' : Queryx S Q → W → Option (W × Option (ExecError E)))
        → Rebinds q q'
        → ((b : Queryx S Q) (w' : W) → Rebinds b q' → rest b w' ≡ rest' q' w')
        → (do
          bound ← (do r ← o; some (bind_args mapper driver_bind r q))
          next (exec exec_context bound w) (rest bound))
          ≡ (do
            bound ← (do r ← o; some (bind_args mapper driver_bind r q'))
            next (exec exec_context bound w) (rest' q'))
    next-rebound none q q' w rest rest' s h = refl
    next-rebound (some r) q q' w rest rest' s h =
        ap (λ sent. next sent (rest (bind_args mapper driver_bind r q))) (exec-bind_args r q q' w s)
        ∙ next-cong (exec exec_context (bind_args mapper driver_bind r q') w) _ _
            (λ w'. h (bind_args mapper driver_bind r q) w' (bind_args-Rebinds r q q' s))

    next-bind_map :
        (m : Row S) (q q' : Queryx S Q) (w : W)
        (rest rest' : Queryx S Q → W → Option (W × Option (ExecError E)))
        → Rebinds q q'
        → ((b : Queryx S Q) (w' : W) → Rebinds b q' → rest b w' ≡ rest' q' w')
        → (do
          bound ← bind_map mapper driver_bind m q
          next (exec exec_context bound w) (rest bound))
          ≡ (do
            bound ← bind_map mapper driver_bind m q'
            next (exec exec_context bound w) (rest' q'))
    unfolding bind_map
    next-bind_map m q q' w rest rest' s h =
        next-rebound (bind_map_from q.tr m q.names []) q q' w rest rest' s h
        ∙ ap₂
            (λ tr names. do
              bound ← (do r ← bind_map_from tr m names []; some (bind_args mapper driver_bind r q'))
              next (exec exec_context bound w) (rest' q'))
            s.tr s.names

    rewrite_row-insert_each :
        (transform : Option (Row S → Row S)) (close : Option E) (rows kept_rows : List (Row S))
        (q q' : Queryx S Q) (w : W) (m : Row S)
        → Rebinds q q'
        → ((b : Queryx S Q) (w' : W)
            → Rebinds b q'
            → rewrite_rows mapper driver_bind exec_context transform close b rows w'
              ≡ insert_each close q' kept_rows w')
        → (elim (is_empty m) [
          | true ↦ rewrite_rows mapper driver_bind exec_context transform close q rows w
          | false ↦ do
            bound ← bind_map mapper driver_bind m q
            next
                (exec exec_context bound w)
                (rewrite_rows mapper driver_bind exec_context transform close bound rows)
        ])
          ≡ insert_each close q' (with_row m kept_rows) w
    unfolding insert_each with_row
    rewrite_row-insert_each transform close rows kept_rows q q' w [] s same = same q w s
    rewrite_row-insert_each transform close rows kept_rows q q' w (e ∷ es) s same =
        next-bind_map (e ∷ es) q q' w
          (λ b. rewrite_rows mapper driver_bind exec_context transform close b rows)
          (λ b. insert_each close b kept_rows) s same

    rewrite_rows-insert_each :
        (transform : Option (Row S → Row S)) (close : Option E) (rows : List (Row S))
        (q q' : Queryx S Q) (w : W)
        → Rebinds q q'
        → rewrite_rows mapper driver_bind exec_context transform close q rows w
          ≡ insert_each close q' (kept transform rows) w
    unfolding rewrite_rows insert_each kept
    rewrite_rows-insert_each transform close [] q q' w s = refl
    rewrite_rows-insert_each transform close (row ∷ rows) q q' w s =
        rewrite_row-insert_each transform close rows (kept transform rows) q q' w
          (transformed transform row) s
          (λ b w' s'. rewrite_rows-insert_each transform close rows b q' w' s')
        ∙ ap (λ m. insert_each close q' (with_row m (kept transform rows)) w)
            (transformed_lem transform row)

    -- `RewriteTable` binds each row that it keeps, as the transforming function leaves it and not
    -- empty then, to the insert query as the options leave it, and sends it, in order and up to the
    -- first error: the bindings of the rows before leave no trace, if a binding replaces the
    -- arguments of the driver's query. Then comes the iterator's error. It panics where one of
    -- these bindings does.
    pub rewrite_table-insert_each :
        (transform : Option (Row S → Row S)) (options : List (Queryx S Q → Queryx S Q))
        (insert : Queryx S Q) (rows : List (Row S)) (close : Option E) (w : W)
        → rewrite_table mapper driver_bind exec_context transform options insert rows close w
          ≡ insert_each close (configured insert options) (kept transform rows) w
    unfolding rewrite_table
    rewrite_table-insert_each transform options insert rows close w =
        ap (λ q. rewrite_rows mapper driver_bind exec_context transform close q rows w)
          (apply_options-configured options insert)
        ∙ rewrite_rows-insert_each transform close rows _ _ w
            (record { names = refl; tr = refl; strict = refl; query = λ v. refl })
