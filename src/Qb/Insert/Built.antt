-- ===== src/Qb/Insert/Built.antt =====
-- The statements that a chain of calls on a InsertBuilder can build, and what keeps them well marked.
use cqlx.Common.{Bytes, List, [], ◌∷◌, ℤ, All, All-append, ◌≡◌, false, refl, ◌∙◌}
use cqlx.Qb.Binding.{IsPlain, BindsAs}
use cqlx.Qb.Insert
use cqlx.Qb.Insert.{InsertBuilder}
use cqlx.Qb.Insert.Writes.{IsPlainInsert, insert_template, InsertBuilder-BindsAs}
use cqlx.Qb.Value.{Func}

-- One call, whose texts hold no `?`. `Json` is not among them.
pub data Step : InsertBuilder → InsertBuilder → Type 0 where
  into : (b : InsertBuilder) (table : Bytes) → IsPlain table → Step b (Insert.into table b)
  columns :
      (b : InsertBuilder) (cols : List Bytes) → All IsPlain cols → Step b (Insert.columns cols b)
  named_column :
      (b : InsertBuilder) (column name : Bytes)
      → IsPlain column
      → Step b (Insert.named_column column name b)
  lit_column :
      (b : InsertBuilder) (column literal : Bytes)
      → IsPlain column
      → IsPlain literal
      → Step b (Insert.lit_column column literal b)
  func_column :
      (b : InsertBuilder) (column : Bytes) (fn : Func)
      → IsPlain column
      → IsPlain fn.name
      → Step b (Insert.func_column column fn b)
  tuple_column :
      (b : InsertBuilder) (column : Bytes) (count : ℤ)
      → IsPlain column
      → Step b (Insert.tuple_column column count b)
  unique : (b : InsertBuilder) → Step b (Insert.unique b)
  ttl : (b : InsertBuilder) (seconds : ℤ → ℤ) (d : ℤ) → Step b (Insert.ttl seconds d b)
  ttl_named : (b : InsertBuilder) (name : Bytes) → Step b (Insert.ttl_named name b)
  timestamp : (b : InsertBuilder) (t : ℤ) → Step b (Insert.timestamp t b)
  timestamp_named : (b : InsertBuilder) (name : Bytes) → Step b (Insert.timestamp_named name b)
  timeout : (b : InsertBuilder) (d : ℤ) → Step b (Insert.timeout d b)
  timeout_named : (b : InsertBuilder) (name : Bytes) → Step b (Insert.timeout_named name b)

pub data Built : InsertBuilder → Type 0 where
  start : (name : Bytes) → IsPlain name → Built (Insert.insert name)
  call : {b b' : InsertBuilder} → Built b → Step b b' → Built b'

columns-IsPlainInsert :
    (cols : List Bytes) (b : InsertBuilder)
    → All IsPlain cols
    → IsPlainInsert b
    → IsPlainInsert (Insert.columns cols b)
unfolding Insert.columns
columns-IsPlainInsert [] b h p = p
columns-IsPlainInsert (c ∷ cols) b (h, hs) (ta, cs) =
    columns-IsPlainInsert cols _ hs
      (ta, All-append _ b.columns _ cs (record { column = h; value = tt }, tt))

pub Step-IsPlainInsert : {b b' : InsertBuilder} → Step b b' → IsPlainInsert b → IsPlainInsert b'
unfolding Insert.into Insert.named_column Insert.lit_column Insert.func_column Insert.tuple_column
    Insert.unique Insert.ttl Insert.ttl_named Insert.timestamp Insert.timestamp_named Insert.timeout
    Insert.timeout_named
Step-IsPlainInsert (into b table h) (_, cs) = (h, cs)
Step-IsPlainInsert (columns b cols h) p = columns-IsPlainInsert cols b h p
Step-IsPlainInsert (named_column b column name h) (ta, cs) =
    (ta, All-append _ b.columns _ cs (record { column = h; value = tt }, tt))
Step-IsPlainInsert (lit_column b column literal h k) (ta, cs) =
    (ta, All-append _ b.columns _ cs (record { column = h; value = k }, tt))
Step-IsPlainInsert (func_column b column fn h k) (ta, cs) =
    (ta, All-append _ b.columns _ cs (record { column = h; value = k }, tt))
Step-IsPlainInsert (tuple_column b column count h) (ta, cs) =
    (ta, All-append _ b.columns _ cs (record { column = h; value = tt }, tt))
Step-IsPlainInsert (unique b) p = p
Step-IsPlainInsert (ttl b seconds d) p = p
Step-IsPlainInsert (ttl_named b name) p = p
Step-IsPlainInsert (timestamp b t) p = p
Step-IsPlainInsert (timestamp_named b name) p = p
Step-IsPlainInsert (timeout b d) p = p
Step-IsPlainInsert (timeout_named b name) p = p

-- Every builder that `Insert` and a chain of the calls of InsertBuilder make holds no `?` in its
-- texts, if no text given to them holds one.
pub Built-IsPlainInsert : {b : InsertBuilder} → Built b → IsPlainInsert b
unfolding Insert.insert
Built-IsPlainInsert (start name h) = (h, tt)
Built-IsPlainInsert (call built step) = Step-IsPlainInsert step (Built-IsPlainInsert built)

columns-json : (cols : List Bytes) (b : InsertBuilder) → (Insert.columns cols b).json ≡ b.json
unfolding Insert.columns
columns-json [] b = refl
columns-json (c ∷ cols) b = columns-json cols _

Step-json : {b b' : InsertBuilder} → Step b b' → b'.json ≡ b.json
unfolding Insert.into Insert.named_column Insert.lit_column Insert.func_column Insert.tuple_column
    Insert.unique Insert.ttl Insert.ttl_named Insert.timestamp Insert.timestamp_named Insert.timeout
    Insert.timeout_named
Step-json (into b table h) = refl
Step-json (columns b cols h) = columns-json cols b
Step-json (named_column b column name h) = refl
Step-json (lit_column b column literal h k) = refl
Step-json (func_column b column fn h k) = refl
Step-json (tuple_column b column count h) = refl
Step-json (unique b) = refl
Step-json (ttl b seconds d) = refl
Step-json (ttl_named b name) = refl
Step-json (timestamp b t) = refl
Step-json (timestamp_named b name) = refl
Step-json (timeout b d) = refl
Step-json (timeout_named b name) = refl

Built-json : {b : InsertBuilder} → Built b → b.json ≡ false
unfolding Insert.insert
Built-json (start name h) = refl
Built-json (call built step) = Step-json step ∙ Built-json built

-- `ToCql` of every builder that `Insert` and a chain of the calls of InsertBuilder other than `Json`
-- make: binding the names in order fills every hole of the statement with the value of its own name,
-- if no text given to the calls holds a `?`.
pub Built-BindsInsert :
    {b : InsertBuilder}
    → Built b
    → (env : Bytes → Bytes) → BindsAs env (insert_template b) (Insert.to_cql b).1
Built-BindsInsert {b} built env =
    InsertBuilder-BindsAs b (Built-json built) (Built-IsPlainInsert built) env
