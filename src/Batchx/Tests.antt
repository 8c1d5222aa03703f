-- ===== src/Batchx/Tests.antt =====
-- The theorems of batches, at a batch that is the list of its entries.
use cqlx.Batchx.Entries.{Adds, bind-Adds}
use cqlx.Batchx.{BatchError, bind, bind_map, bind_struct_map}
use cqlx.Batchx.Handles.{Batch, DriverBatch, with_context, with_timestamp, query, execute_batch}
use cqlx.Batchx.Sharing.{by_query, by_timestamp, Step, run, changed, execute_batch-shared}
use cqlx.Common.{ℕ, none, ◌≢◌, Bytes, List, [], ◌∷◌, ◌++◌, Option, some, codes, ◌≡◌, refl}
use cqlx.Queryx.Tests.{
  Datum, song_path, mapper, mapper-Traverses, one_song, artist_entry, transformed_song, the_song,
  artist-Returns, song-Returns,
}
use cqlx.Queryx.Struct.{is_plain, itself, through}
use cqlx.Queryx.{Any, get_elem?}

abbrev Entries : Type 0
Entries = List (Bytes × List (Any Datum))

insert_statement : List (Any Datum) → Bytes
insert_statement query = codes "INSERT INTO songs (artist,id) VALUES (?,?) "

abbrev add_entry : Bytes → List (Any Datum) → Entries → Entries
add_entry s args b = b ++ (s, args) ∷ []

bind-Adds_example :
    Adds insert_statement add_entry
      (λ b. b)
      transformed_song
      []
      (bind insert_statement add_entry transformed_song [] [])
    × (m : Entries × Option BatchError) × (bind_map insert_statement add_entry transformed_song
          artist_entry []
        ≡ some m)
    × Adds insert_statement add_entry (λ b. b) transformed_song [] m
    × (r : Entries × Option BatchError) × (bind_struct_map insert_statement add_entry mapper
          transformed_song one_song artist_entry []
        ≡ some r)
    × Adds insert_statement add_entry (λ b. b) transformed_song [] r
bind-Adds_example =
    bind-Adds insert_statement add_entry (λ b. b) (λ s args b. refl) mapper song_path (λ t. t)
      mapper-Traverses transformed_song [] one_song the_song artist_entry [] is_plain
      (through itself) refl artist-Returns song-Returns

-- A driver's batch that is its entries and its timestamp.
record Sent : Type 0 where
  entries : List (Bytes × List ℕ)
  timestamp : ℕ

abbrev sent_driver : DriverBatch Sent ℕ Unit Unit Unit ℕ Unit
sent_driver = record {
  consistency = λ c d. d;
  default_timestamp = λ b d. d;
  observer = λ o d. d;
  retry_policy = λ r d. d;
  serial_consistency = λ c d. d;
  set_keyspace = λ k d. d;
  speculative_execution_policy = λ p d. d;
  trace = λ t d. d;
  with_now_in_seconds = λ s d. d;
  with_timestamp = λ s d. record d { timestamp = s };
  query = λ stmt args d. record d { entries = d.entries ++ (stmt, args) ∷ [] };
}

abbrev empty_batch : Sent
empty_batch = record { entries = []; timestamp = 0 }

abbrev original : Batch Bytes
original = record { batch = 1; ctx = none }

-- A query is added on the original, and the timestamp set on a copy.
abbrev two_calls : List (Step sent_driver original)
two_calls =
    record {
      handle = original;
      same = refl;
      change = sent_driver.query (codes "UPDATE songs") [];
      method = query sent_driver (codes "UPDATE songs") [];
      changes = by_query (codes "UPDATE songs") [];
    }
    ∷ record {
      handle = with_context (some (codes "request")) original;
      same = unfold with_context in refl;
      change = sent_driver.with_timestamp 7;
      method = with_timestamp sent_driver 7;
      changes = by_timestamp 7;
    }
    ∷ []

keep_all : Bytes → Sent → ℕ → Bytes × Sent
keep_all ctx d n = (ctx, d)

execute_batch-shared_example :
    (batches : List Sent) × (run sent_driver two_calls (empty_batch ∷ empty_batch ∷ [])
      ≡ some batches)
    × (execute_batch (codes "background") keep_all original batches 0
        ≡ some (keep_all (codes "background") (changed sent_driver two_calls empty_batch) 0))
    × (execute_batch
          (codes "background")
          keep_all
          (with_context (some (codes "request")) original)
          batches
          0
        ≡ some (keep_all (codes "request") (changed sent_driver two_calls empty_batch) 0))
    × ((j : ℕ) → j ≢ 1 → get_elem? batches j ≡ get_elem? (empty_batch ∷ empty_batch ∷ []) j)
execute_batch-shared_example =
    execute_batch-shared sent_driver (codes "background") keep_all original (some (codes "request"))
      two_calls (empty_batch ∷ empty_batch ∷ []) empty_batch 0 (unfold get_elem? in refl)
