-- ===== src/Session/Tests.antt =====
-- The theorem of a statement that is sent, at an insert of one column.
use cqlx.Common.{
  ℕ, suc, Bytes, List, [], ◌∷◌, ◌++◌, Bool, false, Option, none, some, map, codes, ◌≡◌, refl, arith,
}
use cqlx.Qb.Binding.{fill, instantiate}
use cqlx.Qb.Insert
use cqlx.Qb.Insert.Built.{Built-BindsInsert}
use cqlx.Qb.Insert.Writes.{insert_template}
use cqlx.Qb.Insert.{InsertBuilder}
use cqlx.Queryx.Configured.{as_made, to_set_keyspace}
use cqlx.Queryx.Options.{DriverQuery, set_keyspace}
use cqlx.Queryx.Exec.{driver, exec}
use cqlx.Queryx.Tests.{Datum, text, mapper, artist_entry}
use cqlx.Qb.Emit.{return_names}
use cqlx.Qb.Template.{join_each}
use cqlx.Qb.Using.Writes.{using_template}
use cqlx.Qb.Value.Writes.{value_template}
use cqlx.Queryx.{Queryx, transform, wrap, Any, plain, lookup, bind_map}
use cqlx.Session.Sends.{text_of, exec-BindsAs}
use cqlx.Session.{query}
use mathlib.Core.Option

abbrev insert_artist : InsertBuilder
insert_artist = Insert.columns (codes "artist" ∷ []) (Insert.insert (codes "songs"))

insert_artist-Built : Insert.Built.Built insert_artist
insert_artist-Built =
    Insert.Built.call (Insert.Built.start (codes "songs") (omega arith))
      (Insert.Built.columns _ (codes "artist" ∷ []) (omega arith))

-- The driver keeps a statement with its keyspace and arguments, and counts what it sends.
record Sent : Type 0 where
  stmt : Bytes
  keyspace : Bytes
  values : List (Any Datum)

prepare : Bytes → Sent
prepare stmt = record { stmt = stmt; keyspace = []; values = [] }

keep_values : List (Any Datum) → Sent → Sent
keep_values values sent = record sent { values = values }

send : Sent → ℕ → ℕ × Option Bool
send sent n = (suc n, none)

abbrev options : DriverQuery Sent ℕ ℕ Bool
options = record {
  consistency = λ c sent. sent;
  custom_payload = λ payload sent. sent;
  trace = λ t sent. sent;
  observer = λ o sent. sent;
  page_size = λ n sent. sent;
  default_timestamp = λ b sent. sent;
  with_timestamp = λ t sent. sent;
  routing_key = λ key sent. sent;
  prefetch = λ p sent. sent;
  retry_policy = λ r sent. sent;
  set_speculative_execution_policy = λ sp sent. sent;
  idempotent = λ b sent. sent;
  serial_consistency = λ c sent. sent;
  page_state = λ state sent. sent;
  no_skip_metadata = λ sent. sent;
  set_host_id = λ host sent. sent;
  set_keyspace = λ k sent. record sent { keyspace = k };
  with_now_in_seconds = λ now sent. sent;
}

abbrev quote : Any Datum → Bytes
quote (plain (text s)) = codes "'" ++ (s ++ codes "'")
quote v = []

-- The query of the statement, in a keyspace.
abbrev insert_query : Queryx Datum Sent
unfolding set_keyspace query
insert_query = set_keyspace options (codes "music") (
    query prepare none false (Insert.to_cql insert_artist).1.stmt
      (Insert.to_cql insert_artist).1.names)

exec-BindsAs_example :
    let stmt = (Insert.to_cql insert_artist).1 in
    (ready : Queryx Datum Sent) × (bind_map mapper keep_values artist_entry insert_query
      ≡ some ready)
    × (args : List (Any Datum)) × (exec send ready 0 ≡ (
        let (n, e) =
          send (keep_values args (record (prepare stmt.stmt) { keyspace = codes "music" })) 0 in
        (n, Option.map driver e)))
    × (fill stmt.stmt (map quote args)
        ≡ some (
            instantiate
              (text_of mapper quote none false artist_entry)
              (insert_template insert_artist)))
unfolding insert_query
exec-BindsAs_example =
    exec-BindsAs mapper quote none false options prepare keep_values send
      (Insert.to_cql insert_artist).1 (insert_template insert_artist) insert_query
      (options.set_keyspace (codes "music")) (Built-BindsInsert insert_artist-Built)
      (to_set_keyspace (codes "music") as_made) artist_entry 0
      (unfold Insert.to_cql Insert.columns Insert.insert return_names lookup transform in
        ((plain (text (codes "Beck")), plain (text (codes "Beck")), refl, refl), tt))

insert_artist_sent :
    instantiate (text_of mapper quote none false artist_entry) (insert_template insert_artist)
    ≡ codes "INSERT INTO songs (artist) VALUES ('Beck') "
unfolding instantiate insert_template Insert.columns Insert.insert lookup transform wrap join_each
    value_template using_template
insert_artist_sent = refl
