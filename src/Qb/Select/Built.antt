-- ===== src/Qb/Select/Built.antt =====
-- The statements that a chain of calls on a SelectBuilder can build, and what keeps them well marked.
use cqlx.Common.{
  ℕ, Bytes, List, [], ◌∷◌, ◌++◌, is_empty, codes, ℤ, All, All-append, extend-All, arith,
}
use cqlx.Common.Decimal.{format_uint-IsDigit}
use cqlx.Qb.Binding.{IsPlain, BindsAs}
use cqlx.Qb.Cmp.{Cmp}
use cqlx.Qb.Cmp.Writes.{PlainCmp}
use cqlx.Qb.Select
use cqlx.Qb.Select.{SelectBuilder}
use cqlx.Qb.Select.Writes.{IsPlainSelect, select_template, SelectBuilder-BindsAs}
use cqlx.Qb.Select.{Order, asc, desc}
use cqlx.Common.Decimal.{IsDigit}
use cqlx.Common.{All-append_three}

-- One call, whose texts hold no `?`.
pub data Step : SelectBuilder → SelectBuilder → Type 0 where
  from : (b : SelectBuilder) (table : Bytes) → IsPlain table → Step b (Select.from table b)
  json : (b : SelectBuilder) → Step b (Select.json b)
  columns :
      (b : SelectBuilder) (cols : List Bytes) → All IsPlain cols → Step b (Select.columns cols b)
  distinct :
      (b : SelectBuilder) (cols : List Bytes) → All IsPlain cols → Step b (Select.distinct cols b)
  timeout : (b : SelectBuilder) (d : ℤ) → Step b (Select.timeout d b)
  timeout_named : (b : SelectBuilder) (name : Bytes) → Step b (Select.timeout_named name b)
  where_cmps : (b : SelectBuilder) (w : List Cmp) → All PlainCmp w → Step b (Select.where_cmps w b)
  group_by :
      (b : SelectBuilder) (cols : List Bytes) → All IsPlain cols → Step b (Select.group_by cols b)
  order_by :
      (b : SelectBuilder) (column : Bytes) (o : Order)
      → IsPlain column
      → Step b (Select.order_by column o b)
  limit : (b : SelectBuilder) (l : ℕ) → Step b (Select.limit l b)
  limit_named : (b : SelectBuilder) (name : Bytes) → Step b (Select.limit_named name b)
  limit_per_partition : (b : SelectBuilder) (l : ℕ) → Step b (Select.limit_per_partition l b)
  limit_per_partition_named :
      (b : SelectBuilder) (name : Bytes) → Step b (Select.limit_per_partition_named name b)
  allow_filtering : (b : SelectBuilder) → Step b (Select.allow_filtering b)
  bypass_cache : (b : SelectBuilder) → Step b (Select.bypass_cache b)
  count : (b : SelectBuilder) (column : Bytes) → IsPlain column → Step b (Select.count column b)
  count_all : (b : SelectBuilder) → Step b (Select.count_all b)
  min : (b : SelectBuilder) (column : Bytes) → IsPlain column → Step b (Select.min column b)
  max : (b : SelectBuilder) (column : Bytes) → IsPlain column → Step b (Select.max column b)
  avg : (b : SelectBuilder) (column : Bytes) → IsPlain column → Step b (Select.avg column b)
  sum : (b : SelectBuilder) (column : Bytes) → IsPlain column → Step b (Select.sum column b)

pub data Built : SelectBuilder → Type 0 where
  start : (name : Bytes) → IsPlain name → Built (Select.select name)
  call : {b b' : SelectBuilder} → Built b → Step b b' → Built b'

digits-IsPlain : (s : Bytes) → All IsDigit s → IsPlain s
digits-IsPlain [] h = tt
digits-IsPlain (c ∷ s) (d, h) = (omega arith, digits-IsPlain s h)

order_text-IsPlain :
    (column : Bytes) (o : Order)
    → IsPlain column
    → IsPlain (column ++ (codes " " ++ Select.order_text o))
unfolding Select.order_text
order_text-IsPlain column asc h = All-append _ column _ h (omega arith)
order_text-IsPlain column desc h = All-append _ column _ h (omega arith)

-- A column under a function.
call-IsPlain :
    (name column : Bytes)
    → IsPlain name
    → IsPlain column
    → IsPlain (name ++ (codes "(" ++ (column ++ codes ")")))
call-IsPlain name column n h =
    All-append_three _ name (codes "(") _ n (omega arith) (All-append _ column _ h (omega arith))

pub Step-IsPlainSelect : {b b' : SelectBuilder} → Step b b' → IsPlainSelect b → IsPlainSelect b'
unfolding Select.from Select.json Select.columns Select.distinct Select.timeout Select.timeout_named
    Select.where_cmps Select.group_by Select.order_by Select.limit Select.limit_named
    Select.limit_per_partition Select.limit_per_partition_named Select.allow_filtering
    Select.bypass_cache Select.count Select.count_all Select.min Select.max Select.avg Select.sum
    Select.call
Step-IsPlainSelect (from b table h) (_, cs, ds, gs, os, ws, li, lp) =
    (h, cs, ds, gs, os, ws, li, lp)
Step-IsPlainSelect (json b) p = p
Step-IsPlainSelect (columns b cols h) (ta, cs, ds, gs, os, ws, li, lp) =
    (ta, extend-All _ (is_empty b.columns) b.columns _ cs h, ds, gs, os, ws, li, lp)
Step-IsPlainSelect (distinct b cols h) (ta, cs, ds, gs, os, ws, li, lp) =
    (ta, cs, extend-All _ (is_empty b.where_cmps) b.distinct _ ds h, gs, os, ws, li, lp)
Step-IsPlainSelect (timeout b d) p = p
Step-IsPlainSelect (timeout_named b name) p = p
Step-IsPlainSelect (where_cmps b w h) (ta, cs, ds, gs, os, ws, li, lp) =
    (ta, cs, ds, gs, os, extend-All _ (is_empty b.where_cmps) b.where_cmps _ ws h, li, lp)
Step-IsPlainSelect (group_by b cols h) (ta, cs, ds, gs, os, ws, li, lp) =
    (ta, cs, ds, extend-All _ (is_empty b.group_by) b.group_by _ gs h, os, ws, li, lp)
Step-IsPlainSelect (order_by b column o h) (ta, cs, ds, gs, os, ws, li, lp) =
    (ta, cs, ds, gs, All-append _ b.order_by _ os (order_text-IsPlain column o h, tt), ws, li, lp)
Step-IsPlainSelect (limit b l) (ta, cs, ds, gs, os, ws, _, lp) =
    (ta, cs, ds, gs, os, ws, digits-IsPlain _ (format_uint-IsDigit l), lp)
Step-IsPlainSelect (limit_named b name) (ta, cs, ds, gs, os, ws, _, lp) =
    (ta, cs, ds, gs, os, ws, tt, lp)
Step-IsPlainSelect (limit_per_partition b l) (ta, cs, ds, gs, os, ws, li, _) =
    (ta, cs, ds, gs, os, ws, li, digits-IsPlain _ (format_uint-IsDigit l))
Step-IsPlainSelect (limit_per_partition_named b name) (ta, cs, ds, gs, os, ws, li, _) =
    (ta, cs, ds, gs, os, ws, li, tt)
Step-IsPlainSelect (allow_filtering b) p = p
Step-IsPlainSelect (bypass_cache b) p = p
Step-IsPlainSelect (count b column h) (ta, cs, ds, gs, os, ws, li, lp) = (
  ta,
  extend-All _ (is_empty b.columns) b.columns _ cs
      (call-IsPlain (codes "count") column (omega arith) h, tt),
  ds,
  gs,
  os,
  ws,
  li,
  lp,
)
Step-IsPlainSelect (count_all b) (ta, cs, ds, gs, os, ws, li, lp) = (
  ta,
  extend-All _ (is_empty b.columns) b.columns _ cs
      (call-IsPlain (codes "count") (codes "*") (omega arith) (omega arith), tt),
  ds,
  gs,
  os,
  ws,
  li,
  lp,
)
Step-IsPlainSelect (min b column h) (ta, cs, ds, gs, os, ws, li, lp) = (
  ta,
  extend-All _ (is_empty b.columns) b.columns _ cs
      (call-IsPlain (codes "min") column (omega arith) h, tt),
  ds,
  gs,
  os,
  ws,
  li,
  lp,
)
Step-IsPlainSelect (max b column h) (ta, cs, ds, gs, os, ws, li, lp) = (
  ta,
  extend-All _ (is_empty b.columns) b.columns _ cs
      (call-IsPlain (codes "max") column (omega arith) h, tt),
  ds,
  gs,
  os,
  ws,
  li,
  lp,
)
Step-IsPlainSelect (avg b column h) (ta, cs, ds, gs, os, ws, li, lp) = (
  ta,
  extend-All _ (is_empty b.columns) b.columns _ cs
      (call-IsPlain (codes "avg") column (omega arith) h, tt),
  ds,
  gs,
  os,
  ws,
  li,
  lp,
)
Step-IsPlainSelect (sum b column h) (ta, cs, ds, gs, os, ws, li, lp) = (
  ta,
  extend-All _ (is_empty b.columns) b.columns _ cs
      (call-IsPlain (codes "sum") column (omega arith) h, tt),
  ds,
  gs,
  os,
  ws,
  li,
  lp,
)

-- Every builder that `Select` and a chain of the calls of SelectBuilder make holds no `?` in its
-- texts, if no text given to them holds one.
pub Built-IsPlainSelect : {b : SelectBuilder} → Built b → IsPlainSelect b
unfolding Select.select
Built-IsPlainSelect (start name h) = (h, tt, tt, tt, tt, tt, tt, tt)
Built-IsPlainSelect (call built step) = Step-IsPlainSelect step (Built-IsPlainSelect built)

-- `ToCql` of every builder that `Select` and a chain of the calls of SelectBuilder make: binding the
-- names in order fills every hole of the statement with the value of its own name, if no text
-- given to the calls holds a `?`.
pub Built-BindsSelect :
    {b : SelectBuilder}
    → Built b
    → (env : Bytes → Bytes) → BindsAs env (select_template b) (Select.to_cql b).1
Built-BindsSelect {b} built env = SelectBuilder-BindsAs b (Built-IsPlainSelect built) env
