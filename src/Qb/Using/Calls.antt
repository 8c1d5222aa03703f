-- ===== src/Qb/Using/Calls.antt =====
-- What each call on a USING clause does to its options, and what writing the clause does to it.
use cqlx.Common.Decimal.{itoa}
use cqlx.Common.Int.{ℤ, pos}
use cqlx.Common.{Bytes, [], ◌∷◌, ◌++◌, codes, ◌≡◌, Option, none, some}
use cqlx.Qb.Template.{text, hole, Template}
use cqlx.Qb.Using.Writes.{ttl_template, timestamp_template}
use cqlx.Qb.Using.{Using, set_ttl, normalise_ttl, write_using}

-- A keyword with a value, and a keyword with a hole.
abbrev pub literal_option : Bytes → Bytes → Option Template
literal_option keyword literal = some (text (keyword ++ (literal ++ codes " ")) ∷ [])

abbrev pub named_option : Bytes → Bytes → Option Template
named_option keyword name = some (text keyword ∷ (hole name ∷ (text (codes " ") ∷ [])))

-- `TTL` drops the parameter of `TimestampNamed`: where no timestamp was given as a value, the
-- clause has none behind the call.
pub set_ttl-drops_timestamp :
    (seconds : ℤ → ℤ) (d : ℤ) (u : Using)
    → u.timestamp ≡ pos 0
    → timestamp_template (set_ttl seconds d u) ≡ none
unfolding timestamp_template set_ttl
set_ttl-drops_timestamp seconds d u h = rw h

-- A TTL of zero seconds is written once: with no name for the TTL, the clause that is left after
-- one writing has no TTL.
pub set_ttl-written_once :
    (seconds : ℤ → ℤ) (d : ℤ) (u : Using)
    → seconds d ≡ pos 0
    → u.ttl_name ≡ []
    → (ttl_template (set_ttl seconds d u) ≡ literal_option (codes "TTL ") (codes "0"))
      × (ttl_template (write_using (set_ttl seconds d u)).0 ≡ none)
unfolding ttl_template set_ttl normalise_ttl write_using itoa
set_ttl-written_once seconds d u z n = (rw z, rw (z, n))
