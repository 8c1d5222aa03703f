-- ===== src/Qb/Using/Tests.antt =====
-- Runs of the options, and their theorems at an option of two minutes.
use cqlx.Common.Decimal.{itoa}
use cqlx.Common.Int.{ℤ, quot}
use cqlx.Common.{ℕ, ◌+◌, ◌*◌, ◌/◌, ◌<◌, [], codes, ◌≡◌, refl, arith, join, pos, negsuc, none}
use cqlx.Qb.Using.Calls.{literal_option, set_ttl-drops_timestamp, set_ttl-written_once}
use cqlx.Qb.Using.Duration.{duration_text, format_duration-text, format_duration-empty}
use cqlx.Qb.Using.Writes.{ttl_template, timestamp_template}
use cqlx.Qb.Using.{Using, no_using, set_ttl, timestamp_named, write_using, format_duration}

-- The seconds of a duration in nanoseconds.
abbrev whole_seconds : ℤ → ℤ
whole_seconds d = quot d 1_000_000_000

abbrev named_timestamp : Using
named_timestamp = timestamp_named (codes "ts") no_using

positive_duration : format_duration (pos 61_001_000_000) ≡ codes "1m1s1ms"
unfolding format_duration join itoa
positive_duration = refl

negative_duration : format_duration (negsuc 61_001_000_000) ≡ []
unfolding format_duration join
negative_duration = refl

format_duration-text_example :
    (m : ℕ) × (s : ℕ) × (ms : ℕ) × (format_duration (pos 61_001_000_001) ≡ duration_text m s ms)
    × (s < 60)
    × (ms < 1000)
    × (m * 60000 + s * 1000 + ms ≡ 61_001_000_001 / 1_000_000)
format_duration-text_example = format_duration-text 61_001_000_001

set_ttl-drops_timestamp_example :
    timestamp_template (set_ttl whole_seconds (pos 120_000_000_000) named_timestamp) ≡ none
unfolding timestamp_named
set_ttl-drops_timestamp_example =
    set_ttl-drops_timestamp whole_seconds (pos 120_000_000_000) named_timestamp refl

set_ttl-written_once_example :
    (ttl_template (set_ttl whole_seconds (pos 1_000) no_using)
      ≡ literal_option (codes "TTL ") (codes "0"))
    × (ttl_template (write_using (set_ttl whole_seconds (pos 1_000) no_using)).0 ≡ none)
set_ttl-written_once_example = set_ttl-written_once whole_seconds (pos 1_000) no_using refl refl

format_duration-empty_example : format_duration (pos 999_999) ≡ []
format_duration-empty_example = format_duration-empty (pos 999_999) (omega arith)
