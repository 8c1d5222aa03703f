-- ===== src/Qb/Using.antt =====
-- qb/using.go and `formatDuration` of qb/utils.go: the USING clause.
-- A `time.Duration` is its number of nanoseconds, a `time.Time` its `UnixNano()`.
mod Tests
pub mod Writes
pub mod Calls
pub mod Duration
use cqlx.Common.Decimal.{itoa}
use cqlx.Common.Int.{ℤ, pos, negsuc, is_zero, is_minus_one, is_positive, quot, rem}
use cqlx.Common.{
  ℕ, Bytes, List, [], ◌∷◌, ◌++◌, Bool, true, false, not, if◌then◌else◌, is_empty, codes, join,
}
use cqlx.Qb.Emit.{Emit, ◌>>◌, write_string, write_byte, return_names, skip}

pub record Using : Type 0 where
  pub ttl_name : Bytes
  pub timestamp_name : Bytes
  pub timeout_name : Bytes
  pub ttl : ℤ
  pub timestamp : ℤ
  pub timeout : ℤ

abbrev pub no_using : Using
no_using = record {
  ttl_name = [];
  timestamp_name = [];
  timeout_name = [];
  ttl = pos 0;
  timestamp = pos 0;
  timeout = pos 0;
}

-- `using.TTL`. The first argument is `int64(d.Seconds())`, which Go computes in float64.
unfoldable pub set_ttl : (ℤ → ℤ) → ℤ → Using → Using
set_ttl seconds d u = record u {
  ttl = if is_zero (seconds d) then negsuc 0 else seconds d;
  timestamp_name = [];
}

unfoldable pub ttl_named : Bytes → Using → Using
ttl_named name u = record u { ttl = pos 0; ttl_name = name }

-- `Timestamp`: microseconds.
unfoldable pub unix_micros : ℤ → ℤ
unix_micros t = quot t 1000

unfoldable pub set_timestamp : ℤ → Using → Using
unfolding unix_micros
set_timestamp t u = record u { timestamp = unix_micros t; timestamp_name = [] }

unfoldable pub timestamp_named : Bytes → Using → Using
timestamp_named name u = record u { timestamp = pos 0; timestamp_name = name }

unfoldable pub set_timeout : ℤ → Using → Using
set_timeout d u = record u { timeout = d; timeout_name = [] }

unfoldable pub timeout_named : Bytes → Using → Using
timeout_named name u = record u { timeout = pos 0; timeout_name = name }

-- `res = append(res, fmt.Sprintf("%d<unit>", z))` if `z > 0`.
unfoldable pub duration_part : ℤ → Bytes → List Bytes
duration_part z suffix = if is_positive z then (itoa z ++ suffix) ∷ [] else []

unfoldable pub format_duration : ℤ → Bytes
unfolding duration_part
format_duration d =
    let minutes = quot d 60_000_000_000 in
    let d' = rem d 60_000_000_000 in
    let seconds = quot d' 1_000_000_000 in
    let d'' = rem d' 1_000_000_000 in
    let milliseconds = quot d'' 1_000_000 in
    join [] (
      duration_part minutes (codes "m")
      ++ (duration_part seconds (codes "s") ++ duration_part milliseconds (codes "ms")))

-- The closure of `preambleWriter`: its flag comes as an argument.
unfoldable pub write_preamble : Bool → Emit
write_preamble has_preamble =
    if has_preamble then write_string (codes "AND ") else write_string (codes "USING ")

-- One `if … else if …` of `using.writeCql`: the test of the value, what is written for the value,
-- the keyword and the name. The result has the flag of the preamble afterwards.
write_option : Bool → Bytes → Bytes → Bytes → Bool → Emit × Bool
write_option is_set keyword literal name has =
    if is_set
    then (do write_preamble has; write_string (keyword ++ (literal ++ codes " ")), true)
    else if not (is_empty name)
    then (
      do write_preamble has; write_string (keyword ++ codes "? "); return_names (name ∷ []),
      true,
    )
    else (skip, has)

-- `if u.ttl == -1 { u.ttl = 0 }`, made where `u.ttl != 0`.
unfoldable pub normalise_ttl : Using → Using
normalise_ttl u = record u { ttl = if is_minus_one u.ttl then pos 0 else u.ttl }

write_ttl : Using → Bool → Emit × Bool
unfolding write_option normalise_ttl
write_ttl u =
    write_option (not (is_zero u.ttl)) (codes "TTL ") (itoa (normalise_ttl u).ttl) u.ttl_name

write_timestamp : Using → Bool → Emit × Bool
unfolding write_option
write_timestamp u =
    write_option (not (is_zero u.timestamp)) (codes "TIMESTAMP ") (itoa u.timestamp)
      u.timestamp_name

write_timeout : Using → Bool → Emit × Bool
unfolding write_option
write_timeout u =
    write_option (not (is_zero u.timeout)) (codes "TIMEOUT ") (format_duration u.timeout)
      u.timeout_name

-- `using.writeCql` changes its receiver: the result has the receiver after the call.
unfoldable pub write_using : Using → Using × Emit
unfolding normalise_ttl write_ttl write_timestamp write_timeout write_preamble
write_using u =
    let (ttl_writer, has) = write_ttl u false in
    let (timestamp_writer, has') = write_timestamp u has in
    let (timeout_writer, has'') = write_timeout u has' in
    (normalise_ttl u, do ttl_writer; timestamp_writer; timeout_writer)
