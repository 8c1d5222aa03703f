-- ===== src/Qb/Delete/Built.antt =====
-- The statements that a chain of calls on a DeleteBuilder can build, and what keeps them well marked.
use cqlx.Common.{Bytes, List, ℤ, All, All-append}
use cqlx.Qb.Binding.{IsPlain, BindsAs}
use cqlx.Qb.Cmp.{Cmp}
use cqlx.Qb.Cmp.Writes.{PlainCmp}
use cqlx.Qb.Delete
use cqlx.Qb.Delete.{DeleteBuilder}
use cqlx.Qb.Delete.Writes.{IsPlainDelete, delete_template, DeleteBuilder-BindsAs}

-- One call, whose texts hold no `?`.
pub data Step : DeleteBuilder → DeleteBuilder → Type 0 where
  from : (b : DeleteBuilder) (table : Bytes) → IsPlain table → Step b (Delete.from table b)
  columns :
      (b : DeleteBuilder) (cols : List Bytes) → All IsPlain cols → Step b (Delete.columns cols b)
  timestamp : (b : DeleteBuilder) (t : ℤ) → Step b (Delete.timestamp t b)
  timestamp_named : (b : DeleteBuilder) (name : Bytes) → Step b (Delete.timestamp_named name b)
  timeout : (b : DeleteBuilder) (d : ℤ) → Step b (Delete.timeout d b)
  timeout_named : (b : DeleteBuilder) (name : Bytes) → Step b (Delete.timeout_named name b)
  where_cmps : (b : DeleteBuilder) (w : List Cmp) → All PlainCmp w → Step b (Delete.where_cmps w b)
  if_cmps : (b : DeleteBuilder) (w : List Cmp) → All PlainCmp w → Step b (Delete.if_cmps w b)
  existing : (b : DeleteBuilder) → Step b (Delete.existing b)

pub data Built : DeleteBuilder → Type 0 where
  start : (name : Bytes) → IsPlain name → Built (Delete.delete name)
  call : {b b' : DeleteBuilder} → Built b → Step b b' → Built b'

pub Step-IsPlainDelete : {b b' : DeleteBuilder} → Step b b' → IsPlainDelete b → IsPlainDelete b'
unfolding Delete.from Delete.columns Delete.timestamp Delete.timestamp_named Delete.timeout
    Delete.timeout_named Delete.where_cmps Delete.if_cmps Delete.existing
Step-IsPlainDelete (from b table h) (_, cs, ws, fs) = (h, cs, ws, fs)
Step-IsPlainDelete (columns b cols h) (ta, cs, ws, fs) = (ta, All-append _ b.columns _ cs h, ws, fs)
Step-IsPlainDelete (timestamp b t) p = p
Step-IsPlainDelete (timestamp_named b name) p = p
Step-IsPlainDelete (timeout b d) p = p
Step-IsPlainDelete (timeout_named b name) p = p
Step-IsPlainDelete (where_cmps b w h) (ta, cs, ws, fs) =
    (ta, cs, All-append _ b.where_cmps _ ws h, fs)
Step-IsPlainDelete (if_cmps b w h) (ta, cs, ws, fs) = (ta, cs, ws, All-append _ b.if_cmps _ fs h)
Step-IsPlainDelete (existing b) p = p

-- Every builder that `Delete` and a chain of the calls of DeleteBuilder make holds no `?` in its
-- texts, if no text given to them holds one.
pub Built-IsPlainDelete : {b : DeleteBuilder} → Built b → IsPlainDelete b
unfolding Delete.delete
Built-IsPlainDelete (start name h) = (h, tt, tt, tt)
Built-IsPlainDelete (call built step) = Step-IsPlainDelete step (Built-IsPlainDelete built)

-- `ToCql` of every builder that `Delete` and a chain of the calls of DeleteBuilder make: binding the
-- names in order fills every hole of the statement with the value of its own name, if no text
-- given to the calls holds a `?`.
pub Built-BindsDelete :
    {b : DeleteBuilder}
    → Built b
    → (env : Bytes → Bytes) → BindsAs env (delete_template b) (Delete.to_cql b).1
Built-BindsDelete {b} built env = DeleteBuilder-BindsAs b (Built-IsPlainDelete built) env
