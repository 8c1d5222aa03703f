-- ===== src/Qb/Limit/Writes.antt =====
-- What the limit clauses write, as templates.
use cqlx.Common.{Bool, Option, none, some, [], ◌∷◌, ◌++◌, codes, arith}
use cqlx.Qb.Binding.{WellMarked, WellMarked-nil, ◌⊳◌, ◌⊕◌, WellMarked-text, WellMarked-only}
use cqlx.Qb.Limit.{Limit, write_limit, write_limit_value}
use cqlx.Qb.Template.{
  text, Template, only, Writes, Writes-seq, Writes-string, Writes-byte, Writes-skip, Writes-when,
}
use cqlx.Qb.Value.Writes.{value_template, Writes-value, PlainValue, value-WellMarked}
use cqlx.Qb.Value.{Value}

limit_value_template : Bool → Option Value → Template
limit_value_template per_partition none = []
limit_value_template per_partition (some v) =
    only per_partition (text (codes "PER PARTITION ") ∷ [])
    ++ (text (codes "LIMIT ") ∷ (value_template v ++ text (codes " ") ∷ []))

unfoldable pub limit_template : Limit → Template
unfolding limit_value_template
limit_template l = limit_value_template l.per_partition l.value

Writes-limit_value :
    (p : Bool) (o : Option Value) → Writes (write_limit_value p o) (limit_value_template p o)
unfolding write_limit_value limit_value_template
Writes-limit_value p none = Writes-skip
Writes-limit_value p (some v) =
    Writes-seq (Writes-when p (Writes-string (codes "PER PARTITION ")))
      (Writes-seq (Writes-string (codes "LIMIT ")) (Writes-seq (Writes-value v) (Writes-byte b' ')))

pub Writes-limit : (l : Limit) → Writes (write_limit l) (limit_template l)
unfolding write_limit limit_template
Writes-limit l = Writes-limit_value l.per_partition l.value

abbrev PlainOption : Option Value → Type 0
PlainOption none = Unit
PlainOption (some v) = PlainValue v

-- The limit's value holds no `?` of its own.
abbrev pub PlainLimit : Limit → Type 0
PlainLimit l = PlainOption l.value

limit_value-WellMarked :
    (p : Bool) (o : Option Value) → PlainOption o → WellMarked (limit_value_template p o)
unfolding limit_value_template
limit_value-WellMarked p none h = WellMarked-nil
limit_value-WellMarked p (some v) h =
    WellMarked-only p (WellMarked-text (omega arith))
    ⊕ omega arith
    ⊳ value-WellMarked v h
    ⊕ WellMarked-text (omega arith)

pub limit-WellMarked : (l : Limit) → PlainLimit l → WellMarked (limit_template l)
unfolding limit_template
limit-WellMarked l = limit_value-WellMarked l.per_partition l.value
