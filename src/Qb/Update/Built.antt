-- ===== src/Qb/Update/Built.antt =====
-- The statements that a chain of calls on a UpdateBuilder can build, and what keeps them well marked.
use cqlx.Common.{Bytes, List, [], ◌∷◌, is_empty, ℤ, All, All-append, extend-All, arith}
use cqlx.Qb.Binding.{IsPlain, BindsAs}
use cqlx.Qb.Cmp.{Cmp}
use cqlx.Qb.Cmp.Writes.{PlainCmp}
use cqlx.Qb.Update
use cqlx.Qb.Update.{UpdateBuilder}
use cqlx.Qb.Update.Writes.{IsPlainUpdate, update_template, UpdateBuilder-BindsAs}
use cqlx.Qb.Value.{Func}

-- One call, whose texts hold no `?`.
pub data Step : UpdateBuilder → UpdateBuilder → Type 0 where
  table : (b : UpdateBuilder) (name : Bytes) → IsPlain name → Step b (Update.table name b)
  ttl : (b : UpdateBuilder) (seconds : ℤ → ℤ) (d : ℤ) → Step b (Update.ttl seconds d b)
  ttl_named : (b : UpdateBuilder) (name : Bytes) → Step b (Update.ttl_named name b)
  timestamp : (b : UpdateBuilder) (t : ℤ) → Step b (Update.timestamp t b)
  timestamp_named : (b : UpdateBuilder) (name : Bytes) → Step b (Update.timestamp_named name b)
  timeout : (b : UpdateBuilder) (d : ℤ) → Step b (Update.timeout d b)
  timeout_named : (b : UpdateBuilder) (name : Bytes) → Step b (Update.timeout_named name b)
  set : (b : UpdateBuilder) (cols : List Bytes) → All IsPlain cols → Step b (Update.set cols b)
  set_named :
      (b : UpdateBuilder) (column name : Bytes)
      → IsPlain column
      → Step b (Update.set_named column name b)
  set_lit :
      (b : UpdateBuilder) (column literal : Bytes)
      → IsPlain column
      → IsPlain literal
      → Step b (Update.set_lit column literal b)
  set_func :
      (b : UpdateBuilder) (column : Bytes) (fn : Func)
      → IsPlain column
      → IsPlain fn.name
      → Step b (Update.set_func column fn b)
  set_tuple :
      (b : UpdateBuilder) (column : Bytes) (count : ℤ)
      → IsPlain column
      → Step b (Update.set_tuple column count b)
  add : (b : UpdateBuilder) (column : Bytes) → IsPlain column → Step b (Update.add column b)
  add_named :
      (b : UpdateBuilder) (column name : Bytes)
      → IsPlain column
      → Step b (Update.add_named column name b)
  add_lit :
      (b : UpdateBuilder) (column literal : Bytes)
      → IsPlain column
      → IsPlain literal
      → Step b (Update.add_lit column literal b)
  add_func :
      (b : UpdateBuilder) (column : Bytes) (fn : Func)
      → IsPlain column
      → IsPlain fn.name
      → Step b (Update.add_func column fn b)
  remove : (b : UpdateBuilder) (column : Bytes) → IsPlain column → Step b (Update.remove column b)
  remove_named :
      (b : UpdateBuilder) (column name : Bytes)
      → IsPlain column
      → Step b (Update.remove_named column name b)
  remove_lit :
      (b : UpdateBuilder) (column literal : Bytes)
      → IsPlain column
      → IsPlain literal
      → Step b (Update.remove_lit column literal b)
  remove_func :
      (b : UpdateBuilder) (column : Bytes) (fn : Func)
      → IsPlain column
      → IsPlain fn.name
      → Step b (Update.remove_func column fn b)
  allow_filtering : (b : UpdateBuilder) → Step b (Update.allow_filtering b)
  where_cmps : (b : UpdateBuilder) (w : List Cmp) → All PlainCmp w → Step b (Update.where_cmps w b)
  if_cmps : (b : UpdateBuilder) (w : List Cmp) → All PlainCmp w → Step b (Update.if_cmps w b)
  existing : (b : UpdateBuilder) → Step b (Update.existing b)

pub data Built : UpdateBuilder → Type 0 where
  start : (name : Bytes) → IsPlain name → Built (Update.update name)
  call : {b b' : UpdateBuilder} → Built b → Step b b' → Built b'

set-IsPlainUpdate :
    (cols : List Bytes) (b : UpdateBuilder)
    → All IsPlain cols
    → IsPlainUpdate b
    → IsPlainUpdate (Update.set cols b)
unfolding Update.set
set-IsPlainUpdate [] b h p = p
set-IsPlainUpdate (c ∷ cols) b (h, hs) (ta, xs, ws, fs) = set-IsPlainUpdate cols _ hs (
    (
      ta,
      All-append _ b.assignments _ xs (record { column = h; value_prefix = tt; value = tt }, tt),
      ws,
      fs,
    ))

pub Step-IsPlainUpdate : {b b' : UpdateBuilder} → Step b b' → IsPlainUpdate b → IsPlainUpdate b'
unfolding Update.table Update.ttl Update.ttl_named Update.timestamp Update.timestamp_named
    Update.timeout Update.timeout_named Update.set_named Update.set_lit Update.set_func
    Update.set_tuple Update.add Update.add_named Update.add_lit Update.add_func Update.remove
    Update.remove_named Update.remove_lit Update.remove_func Update.allow_filtering
    Update.where_cmps Update.if_cmps Update.existing Update.add_value Update.remove_value
Step-IsPlainUpdate (table b name h) (_, xs, ws, fs) = (h, xs, ws, fs)
Step-IsPlainUpdate (ttl b seconds d) p = p
Step-IsPlainUpdate (ttl_named b name) p = p
Step-IsPlainUpdate (timestamp b t) p = p
Step-IsPlainUpdate (timestamp_named b name) p = p
Step-IsPlainUpdate (timeout b d) p = p
Step-IsPlainUpdate (timeout_named b name) p = p
Step-IsPlainUpdate (set b cols h) p = set-IsPlainUpdate cols b h p
Step-IsPlainUpdate (set_named b column name h) (ta, xs, ws, fs) = (
  ta,
  All-append _ b.assignments _ xs (record { column = h; value_prefix = tt; value = tt }, tt),
  ws,
  fs,
)
Step-IsPlainUpdate (set_lit b column literal h k) (ta, xs, ws, fs) = (
  ta,
  All-append _ b.assignments _ xs (record { column = h; value_prefix = tt; value = k }, tt),
  ws,
  fs,
)
Step-IsPlainUpdate (set_func b column fn h k) (ta, xs, ws, fs) = (
  ta,
  All-append _ b.assignments _ xs (record { column = h; value_prefix = tt; value = k }, tt),
  ws,
  fs,
)
Step-IsPlainUpdate (set_tuple b column count h) (ta, xs, ws, fs) = (
  ta,
  All-append _ b.assignments _ xs (record { column = h; value_prefix = tt; value = tt }, tt),
  ws,
  fs,
)
Step-IsPlainUpdate (add b column h) (ta, xs, ws, fs) = (
  ta,
  All-append _ b.assignments _ xs
      (record { column = h; value_prefix = All-append _ column _ h (omega arith); value = tt }, tt),
  ws,
  fs,
)
Step-IsPlainUpdate (add_named b column name h) (ta, xs, ws, fs) = (
  ta,
  All-append _ b.assignments _ xs
      (record { column = h; value_prefix = All-append _ column _ h (omega arith); value = tt }, tt),
  ws,
  fs,
)
Step-IsPlainUpdate (add_lit b column literal h k) (ta, xs, ws, fs) = (
  ta,
  All-append _ b.assignments _ xs
      (record { column = h; value_prefix = All-append _ column _ h (omega arith); value = k }, tt),
  ws,
  fs,
)
Step-IsPlainUpdate (add_func b column fn h k) (ta, xs, ws, fs) = (
  ta,
  All-append _ b.assignments _ xs
      (record { column = h; value_prefix = All-append _ column _ h (omega arith); value = k }, tt),
  ws,
  fs,
)
Step-IsPlainUpdate (remove b column h) (ta, xs, ws, fs) = (
  ta,
  All-append _ b.assignments _ xs
      (record { column = h; value_prefix = All-append _ column _ h (omega arith); value = tt }, tt),
  ws,
  fs,
)
Step-IsPlainUpdate (remove_named b column name h) (ta, xs, ws, fs) = (
  ta,
  All-append _ b.assignments _ xs
      (record { column = h; value_prefix = All-append _ column _ h (omega arith); value = tt }, tt),
  ws,
  fs,
)
Step-IsPlainUpdate (remove_lit b column literal h k) (ta, xs, ws, fs) = (
  ta,
  All-append _ b.assignments _ xs
      (record { column = h; value_prefix = All-append _ column _ h (omega arith); value = k }, tt),
  ws,
  fs,
)
Step-IsPlainUpdate (remove_func b column fn h k) (ta, xs, ws, fs) = (
  ta,
  All-append _ b.assignments _ xs
      (record { column = h; value_prefix = All-append _ column _ h (omega arith); value = k }, tt),
  ws,
  fs,
)
Step-IsPlainUpdate (allow_filtering b) p = p
Step-IsPlainUpdate (where_cmps b w h) (ta, xs, ws, fs) =
    (ta, xs, extend-All _ (is_empty b.where_cmps) b.where_cmps _ ws h, fs)
Step-IsPlainUpdate (if_cmps b w h) (ta, xs, ws, fs) =
    (ta, xs, ws, extend-All _ (is_empty b.if_cmps) b.if_cmps _ fs h)
Step-IsPlainUpdate (existing b) p = p

-- Every builder that `Update` and a chain of the calls of UpdateBuilder make holds no `?` in its
-- texts, if no text given to them holds one.
pub Built-IsPlainUpdate : {b : UpdateBuilder} → Built b → IsPlainUpdate b
unfolding Update.update
Built-IsPlainUpdate (start name h) = (h, tt, tt, tt)
Built-IsPlainUpdate (call built step) = Step-IsPlainUpdate step (Built-IsPlainUpdate built)

-- `ToCql` of every builder that `Update` and a chain of the calls of UpdateBuilder make: binding the
-- names in order fills every hole of the statement with the value of its own name, if no text
-- given to the calls holds a `?`.
pub Built-BindsUpdate :
    {b : UpdateBuilder}
    → Built b
    → (env : Bytes → Bytes) → BindsAs env (update_template b) (Update.to_cql b).1
Built-BindsUpdate {b} built env = UpdateBuilder-BindsAs b (Built-IsPlainUpdate built) env
