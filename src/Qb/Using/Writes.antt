-- ===== src/Qb/Using/Writes.antt =====
-- What the USING clause writes, as a template.
use cqlx.Common.Decimal.{itoa, IsDigit, format_uint-IsDigit}
use cqlx.Common.Int.{ℤ, pos, negsuc, is_zero, is_positive, quot, rem}
use cqlx.Common.{
  Bytes, List, [], ◌∷◌, ◌++◌, Bool, true, false, not, if◌then◌else◌, codes, join, ◌≡◌, refl, ap,
  append-nil, Option, none, some, All, All-append, All-append_three, arith, suc,
}
use cqlx.Qb.Binding.{
  IsPlain, WellMarked, WellMarked-nil, ◌⊳◌, WellMarked-text, WellMarked-hole, WellMarked-each,
}
use cqlx.Qb.Emit.{Emit, ◌>>◌, write_string, return_names}
use cqlx.Qb.Template.{
  text, hole, Template, render, holes, join_each, Writes, Writes-seq, Writes-string, Writes-skip,
}
use cqlx.Qb.Using.{
  Using, duration_part, format_duration, write_preamble, write_option, normalise_ttl, write_ttl,
  write_timestamp, write_timeout, write_using,
}

-- One option: its literal value, or a hole with its name, or nothing.
unfoldable pub option_template : Bool → Bytes → Bytes → Bytes → Option Template
option_template true keyword literal name = some (text (keyword ++ (literal ++ codes " ")) ∷ [])
option_template false keyword literal [] = none
option_template false keyword literal (c ∷ name) =
    some (text keyword ∷ (hole (c ∷ name) ∷ (text (codes " ") ∷ [])))

abbrev if_some : Option Template → List Template
if_some none = []
if_some (some t) = t ∷ []

-- The options that there are, behind USING and joined by AND.
unfoldable pub options_template : List Template → Template
options_template [] = []
options_template (t ∷ ts) =
    text (codes "USING ") ∷ join_each (text (codes "AND ") ∷ []) (λ t. t) (t ∷ ts)

unfoldable pub ttl_template : Using → Option Template
unfolding option_template
ttl_template u =
    option_template (not (is_zero u.ttl)) (codes "TTL ") (itoa (normalise_ttl u).ttl) u.ttl_name

unfoldable pub timestamp_template : Using → Option Template
unfolding option_template
timestamp_template u =
    option_template (not (is_zero u.timestamp)) (codes "TIMESTAMP ") (itoa u.timestamp)
      u.timestamp_name

unfoldable pub timeout_template : Using → Option Template
unfolding option_template
timeout_template u =
    option_template (not (is_zero u.timeout)) (codes "TIMEOUT ") (format_duration u.timeout)
      u.timeout_name

unfoldable pub using_template : Using → Template
unfolding options_template ttl_template timestamp_template timeout_template
using_template u =
    options_template
      (if_some (ttl_template u) ++ (if_some (timestamp_template u) ++ if_some (timeout_template u)))

-- An option behind the preamble that the flag calls for.
abbrev flagged : Option Template → Bool → Template
flagged none has = []
flagged (some t) has = text (if has then codes "AND " else codes "USING ") ∷ t

abbrev flag_after : Option Template → Bool → Bool
flag_after none has = has
flag_after (some t) has = true

Writes-preamble :
    (has : Bool)
    → Writes (write_preamble has) (text (if has then codes "AND " else codes "USING ") ∷ [])
unfolding write_preamble
Writes-preamble true = Writes-string _
Writes-preamble false = Writes-string _

-- The keyword, the marker and a space are written at once.
Writes-named :
    (keyword name : Bytes)
    → Writes
        (do write_string (keyword ++ codes "? "); return_names (name ∷ []))
        (text keyword ∷ (hole name ∷ (text (codes " ") ∷ [])))
unfolding ◌>>◌ write_string return_names render holes
Writes-named keyword name = record { runs = λ cql. refl }

write_option_lem :
    (is_set : Bool) (keyword literal name : Bytes) (has : Bool)
    → Writes
        (write_option is_set keyword literal name has).0
        (flagged (option_template is_set keyword literal name) has)
      × ((write_option is_set keyword literal name has).1
          ≡ flag_after (option_template is_set keyword literal name) has)
unfolding write_option option_template
write_option_lem true keyword literal name has =
    (Writes-seq (Writes-preamble has) (Writes-string _), refl)
write_option_lem false keyword literal [] has = (Writes-skip, refl)
write_option_lem false keyword literal (c ∷ name) has =
    (Writes-seq (Writes-preamble has) (Writes-named keyword (c ∷ name)), refl)

flagged-options :
    (o p q : Option Template)
    → flagged o false
        ++ (flagged p (flag_after o false) ++ flagged q (flag_after p (flag_after o false)))
      ≡ options_template (if_some o ++ (if_some p ++ if_some q))
unfolding options_template join_each
flagged-options none none none = refl
flagged-options none none (some q) = refl
flagged-options none (some p) none = rw append-nil
flagged-options none (some p) (some q) = refl
flagged-options (some o) none none = ap (λ t. text (codes "USING ") ∷ t) (append-nil o)
flagged-options (some o) none (some q) = refl
flagged-options (some o) (some p) none = rw append-nil
flagged-options (some o) (some p) (some q) = refl

-- A writer that takes the flag of the preamble and hands it on.
abbrev WritesOption : (Bool → Emit × Bool) → Option Template → Type 0
WritesOption w o = (has : Bool) → Writes (w has).0 (flagged o has) × ((w has).1 ≡ flag_after o has)

Writes-options :
    (v w x : Bool → Emit × Bool) (o p q : Option Template)
    → WritesOption v o
    → WritesOption w p
    → WritesOption x q
    → Writes
        (do (v false).0; (w (v false).1).0; (x (w (v false).1).1).0)
        (options_template (if_some o ++ (if_some p ++ if_some q)))
Writes-options v w x o p q hv hw hx =
    rw ((hv false).1, (hw (flag_after o false)).1, ← flagged-options o p q)
      (Writes-seq (hv false).0
        (Writes-seq (hw (flag_after o false)).0 (hx (flag_after p (flag_after o false))).0))

WritesOption-ttl : (u : Using) → WritesOption (write_ttl u) (ttl_template u)
unfolding write_ttl ttl_template
WritesOption-ttl u = write_option_lem _ (codes "TTL ") (itoa (normalise_ttl u).ttl) u.ttl_name

WritesOption-timestamp : (u : Using) → WritesOption (write_timestamp u) (timestamp_template u)
unfolding write_timestamp timestamp_template
WritesOption-timestamp u =
    write_option_lem _ (codes "TIMESTAMP ") (itoa u.timestamp) u.timestamp_name

WritesOption-timeout : (u : Using) → WritesOption (write_timeout u) (timeout_template u)
unfolding write_timeout timeout_template
WritesOption-timeout u =
    write_option_lem _ (codes "TIMEOUT ") (format_duration u.timeout) u.timeout_name

-- The clause is its options in the order TTL, TIMESTAMP, TIMEOUT.
pub Writes-using : (u : Using) → Writes (write_using u).1 (using_template u)
unfolding write_using using_template
Writes-using u =
    Writes-options (write_ttl u) (write_timestamp u) (write_timeout u) _ _ _ (WritesOption-ttl u)
      (WritesOption-timestamp u) (WritesOption-timeout u)

digit-IsPlain : (s : Bytes) → All IsDigit s → IsPlain s
digit-IsPlain [] h = tt
digit-IsPlain (c ∷ s) (d, h) = (omega arith, digit-IsPlain s h)

itoa-IsPlain : (z : ℤ) → IsPlain (itoa z)
unfolding itoa
itoa-IsPlain (pos n) = digit-IsPlain _ (format_uint-IsDigit n)
itoa-IsPlain (negsuc n) = (omega arith, digit-IsPlain _ (format_uint-IsDigit (suc n)))

join-IsPlain : (parts : List Bytes) → All IsPlain parts → IsPlain (join [] parts)
unfolding join
join-IsPlain [] h = tt
join-IsPlain (p ∷ []) (h, _) = h
join-IsPlain (p ∷ q ∷ ps) (h, hs) = All-append _ p _ h (join-IsPlain (q ∷ ps) hs)

duration_part-IsPlain :
    (z : ℤ) (suffix : Bytes) → IsPlain suffix → All IsPlain (duration_part z suffix)
unfolding duration_part
duration_part-IsPlain z suffix h =
    elim (is_positive z) as (λ b. All IsPlain (if b then (itoa z ++ suffix) ∷ [] else [])) [
      | true ↦ (All-append _ (itoa z) suffix (itoa-IsPlain z) h, tt)
      | false ↦ tt
    ]

format_duration-IsPlain : (d : ℤ) → IsPlain (format_duration d)
unfolding format_duration
format_duration-IsPlain d =
    let d' = rem d 60_000_000_000 in
    let minutes = quot d 60_000_000_000 in
    let seconds = quot d' 1_000_000_000 in
    let milliseconds = quot (rem d' 1_000_000_000) 1_000_000 in
    join-IsPlain _ (
      All-append_three IsPlain (duration_part minutes (codes "m"))
        (duration_part seconds (codes "s")) (duration_part milliseconds (codes "ms"))
        (duration_part-IsPlain minutes (codes "m") (omega arith))
        (duration_part-IsPlain seconds (codes "s") (omega arith))
        (duration_part-IsPlain milliseconds (codes "ms") (omega arith)))

option-WellMarked :
    (is_set : Bool) (keyword literal name : Bytes)
    → IsPlain keyword
    → IsPlain literal
    → All WellMarked (if_some (option_template is_set keyword literal name))
unfolding option_template
option-WellMarked true keyword literal name k l =
    (WellMarked-text (All-append_three _ keyword literal _ k l (omega arith)), tt)
option-WellMarked false keyword literal [] k l = tt
option-WellMarked false keyword literal (c ∷ name) k l =
    (k ⊳ WellMarked-hole (WellMarked-text (omega arith)), tt)

options-WellMarked : (ts : List Template) → All WellMarked ts → WellMarked (options_template ts)
unfolding options_template
options-WellMarked [] h = WellMarked-nil
options-WellMarked (t ∷ ts) h =
    omega arith ⊳ WellMarked-each WellMarked (WellMarked-text (omega arith)) (λ t h. h) (t ∷ ts) h

-- Whatever the options hold, the clause has no `?` but those of its names.
pub using-WellMarked : (u : Using) → WellMarked (using_template u)
unfolding using_template ttl_template timestamp_template timeout_template
using-WellMarked u = options-WellMarked _ (
    All-append_three WellMarked (if_some (ttl_template u)) (if_some (timestamp_template u))
      (if_some (timeout_template u))
      (option-WellMarked _ (codes "TTL ") _ u.ttl_name (omega arith) (itoa-IsPlain _))
      (option-WellMarked _ (codes "TIMESTAMP ") _ u.timestamp_name (omega arith) (itoa-IsPlain _))
      (option-WellMarked _ (codes "TIMEOUT ") _ u.timeout_name (omega arith)
        (format_duration-IsPlain _)))
