-- ===== src/Qb/Batch/Writes.antt =====
-- What `BatchBuilder.ToCql` writes: the statements that were added, one after the other.
use cqlx.Common.{
  Bytes, List, [], ◌∷◌, ◌++◌, codes, ◌≡◌, refl, sym, ap, ap₂, append-nil, append_assoc, All, arith,
  map, map-append, ◌∙◌,
}
use cqlx.Qb.Binding.{
  WellMarked, WellMarked-nil, ◌⊳◌, ◌⊕◌, WellMarked-text, WellMarked-only, BindsAs, compile-BindsAs,
}
use cqlx.Qb.Emit.{◌>>◌, write_string, write_byte, return_names, skip}
use cqlx.Qb.Batch.{
  BatchBuilder, batch, write_stmts, to_cql, add_stmt, prefixed, add_names, add_stmt_with_prefix,
}
use cqlx.Qb.Template.{
  text, hole, Template, only, render, holes, render-append, holes-append, Writes, ◌⨾◌,
  Writes-string, Writes-when, compile, run-Writes,
}
use cqlx.Qb.Using.Writes.{using_template, Writes-using, using-WellMarked}

-- Each statement with `;` and a space behind it.
stmts_template : List Template → Template
stmts_template [] = []
stmts_template (t ∷ ts) = t ++ (text (codes ";") ∷ (text (codes " ") ∷ stmts_template ts))

-- The builder's switches and options round the statements `ts`.
pub batch_template : BatchBuilder → List Template → Template
batch_template b ts =
    text (codes "BEGIN ")
    ∷ (only b.unlogged (text (codes "UNLOGGED ") ∷ [])
        ++ (only b.counter (text (codes "COUNTER ") ∷ [])
            ++ (text (codes "BATCH ")
                ∷ (using_template b.using
                    ++ (stmts_template ts ++ text (codes "APPLY BATCH ") ∷ [])))))

abbrev pub all_holes : List Template → List Bytes
all_holes [] = []
all_holes (t ∷ ts) = holes t ++ all_holes ts

-- The builder holds the statements `ts`, rendered, and the names of their holes in order.
pub record Holds (b : BatchBuilder) (ts : List Template) : Type 0 where
  pub stmts : b.stmts ≡ map render ts
  pub names : b.names ≡ all_holes ts

write_stmts_lem :
    (ts : List Template) (cql : Bytes)
    → write_stmts (map render ts) cql ≡ (cql ++ render (stmts_template ts), [])
unfolding write_stmts stmts_template ◌>>◌ write_string write_byte skip render
write_stmts_lem [] cql = rw append-nil
write_stmts_lem (t ∷ ts) cql = rw (write_stmts_lem ts) (simp (render-append, append_assoc, render))

holes-stmts : (ts : List Template) → holes (stmts_template ts) ≡ all_holes ts
unfolding stmts_template holes
holes-stmts [] = refl
holes-stmts (t ∷ ts) = rw holes-append (ap (λ ns. holes t ++ ns) (holes-stmts ts))

Writes-stmts :
    (ts : List Template)
    → Writes
        (do
          write_stmts (map render ts)
          return_names (all_holes ts)
          write_string (codes "APPLY BATCH "))
        (stmts_template ts ++ text (codes "APPLY BATCH ") ∷ [])
unfolding ◌>>◌ write_string return_names render holes
Writes-stmts ts = record {
  runs = λ cql.
      rw (write_stmts_lem ts, ← holes-stmts ts)
        (simp (render-append, holes-append, append_assoc, append-nil, render, holes));
}

Writes-held :
    (b : BatchBuilder) (ts : List Template)
    → Holds b ts
    → Writes
        (do write_stmts b.stmts; return_names b.names; write_string (codes "APPLY BATCH "))
        (stmts_template ts ++ text (codes "APPLY BATCH ") ∷ [])
Writes-held b ts h = rw (h.stmts, h.names) (Writes-stmts ts)

-- The statement of the batch is its template round the statements that were added.
pub to_cql-template :
    (b : BatchBuilder) (ts : List Template)
    → Holds b ts
    → (to_cql b).1 ≡ compile (batch_template b ts)
unfolding to_cql batch_template
to_cql-template b ts h = run-Writes (
    Writes-string (codes "BEGIN ")
    ⨾ Writes-when b.unlogged (Writes-string (codes "UNLOGGED "))
    ⨾ Writes-when b.counter (Writes-string (codes "COUNTER "))
    ⨾ Writes-string (codes "BATCH ")
    ⨾ Writes-using b.using
    ⨾ Writes-held b ts h)

all_holes-append : (ts us : List Template) → all_holes (ts ++ us) ≡ all_holes ts ++ all_holes us
all_holes-append [] us = refl
all_holes-append (t ∷ ts) us = rw (all_holes-append ts us, append_assoc)

-- An empty batch holds nothing.
pub batch-Holds : Holds batch []
batch-Holds = record { stmts = refl; names = refl }

-- `AddStmt` of a statement with its names adds the statement behind those before it.
pub add_stmt-Holds :
    (t : Template) {b : BatchBuilder} {ts : List Template}
    → Holds b ts
    → Holds (add_stmt (compile t) b) (ts ++ t ∷ [])
unfolding add_stmt
add_stmt-Holds t {b} {ts} h = record {
  stmts = rw (h.stmts, map-append);
  names = rw (h.names, all_holes-append ts (t ∷ []), append-nil);
}

-- The template with `f` of every name.
pub rename : (Bytes → Bytes) → Template → Template
rename f [] = []
rename f (text s ∷ t) = text s ∷ rename f t
rename f (hole n ∷ t) = hole (f n) ∷ rename f t

render-rename : (f : Bytes → Bytes) (t : Template) → render (rename f t) ≡ render t
unfolding render rename
render-rename f [] = refl
render-rename f (text s ∷ t) = ap (λ r. s ++ r) (render-rename f t)
render-rename f (hole n ∷ t) = ap (λ r. b'?' ∷ r) (render-rename f t)

holes-rename : (f : Bytes → Bytes) (t : Template) → holes (rename f t) ≡ map f (holes t)
unfolding holes rename
holes-rename f [] = refl
holes-rename f (text s ∷ t) = holes-rename f t
holes-rename f (hole n ∷ t) = ap (λ ns. f n ∷ ns) (holes-rename f t)

add_names_lem :
    (prefix : Bytes) (names more : List Bytes)
    → add_names prefix names more ≡ names ++ map (prefixed prefix) more
unfolding add_names
add_names_lem prefix names [] = sym (append-nil names)
add_names_lem prefix names (n ∷ more) =
    add_names_lem prefix (names ++ prefixed prefix n ∷ []) more ∙ rw append_assoc

-- A name behind a prefix that is not empty has the prefix and a dot in front.
pub behind : Bytes → Bytes → Bytes
behind [] name = name
behind (c ∷ prefix) name = (c ∷ prefix) ++ (b'.' ∷ name)

prefixed-behind : (prefix name : Bytes) → prefixed prefix name ≡ behind prefix name
unfolding prefixed behind
prefixed-behind [] name = refl
prefixed-behind (c ∷ prefix) name = refl

map-prefixed :
    (prefix : Bytes) (names : List Bytes) → map (prefixed prefix) names ≡ map (behind prefix) names
map-prefixed prefix [] = refl
map-prefixed prefix (n ∷ names) = ap₂ (◌∷◌) (prefixed-behind prefix n) (map-prefixed prefix names)

-- `AddStmtWithPrefix` of a statement with its names adds it behind the statements that the batch
-- holds. Every name has the prefix and a dot in front, and is as it was if the prefix is empty.
pub add_stmt_with_prefix-Holds :
    (prefix : Bytes) (t : Template) {b : BatchBuilder} {ts : List Template}
    → Holds b ts
    → Holds (add_stmt_with_prefix prefix (compile t) b) (ts ++ rename (behind prefix) t ∷ [])
unfolding add_stmt_with_prefix
add_stmt_with_prefix-Holds prefix t {b} {ts} h = record {
  stmts = rw (h.stmts, map-append, render-rename);
  names =
      add_names_lem prefix b.names (holes t)
      ∙ rw (h.names, map-prefixed, all_holes-append ts, append-nil, holes-rename);
}

stmts-WellMarked : (ts : List Template) → All WellMarked ts → WellMarked (stmts_template ts)
unfolding stmts_template
stmts-WellMarked [] h = WellMarked-nil
stmts-WellMarked (t ∷ ts) (w, h) = w ⊕ omega arith ⊳ omega arith ⊳ stmts-WellMarked ts h

-- Binding the names of a batch in order fills every hole of the statements that it holds with the
-- value of its own name, if these statements have a `?` at their holes only.
pub BatchBuilder-BindsAs :
    (b : BatchBuilder) (ts : List Template)
    → Holds b ts
    → All WellMarked ts
    → (env : Bytes → Bytes) → BindsAs env (batch_template b ts) (to_cql b).1
unfolding batch_template
BatchBuilder-BindsAs b ts h w env = rw (to_cql-template b ts h) (
    compile-BindsAs env (batch_template b ts) (
      omega arith
      ⊳ WellMarked-only b.unlogged (WellMarked-text (omega arith))
      ⊕ WellMarked-only b.counter (WellMarked-text (omega arith))
      ⊕ omega arith
      ⊳ using-WellMarked b.using
      ⊕ stmts-WellMarked ts w
      ⊕ WellMarked-text (omega arith)))
