-- ===== src/Dbutil/Tests.antt =====
-- The theorem of the copy, with a driver that keeps what it was sent.
use cqlx.Common.{Bytes, List, [], ◌∷◌, ◌++◌, Option, none, some, codes, ◌≡◌, refl}
use cqlx.Dbutil.Rows.{insert_each, kept, configured, rewrite_table-insert_each}
use cqlx.Dbutil.{Row, rewrite_table}
use cqlx.Queryx.Exec.{bind_failed}
use cqlx.Queryx.Tests.{Datum, text, mapper, insert_song}
use cqlx.Queryx.{Queryx, Any, plain, not_found}

abbrev Query : Type 0
Query = Queryx Datum (List (Any Datum))

abbrev Sent : Type 0
Sent = List (List (Any Datum))

abbrev send : List (Any Datum) → Sent → Sent × Option Bytes
send query sent = (sent ++ query ∷ [], none)

abbrev replace : List (Any Datum) → List (Any Datum) → List (Any Datum)
replace values query = values

abbrev song_row : Row Datum
song_row =
    (codes "id", plain (text (codes "7"))) ∷ (codes "artist", plain (text (codes "Beck"))) ∷ []

abbrev rows : List (Row Datum)
rows = song_row ∷ [] ∷ ((codes "artist", plain (text (codes "Air"))) ∷ []) ∷ song_row ∷ []

-- The title of a row is its first entry.
titled : Row Datum → Row Datum
titled ((key, id) ∷ m) = (codes "title", id) ∷ (key, id) ∷ m
titled [] = []

by_title : Query → Query
by_title q = record q { names = codes "title" ∷ q.names }

by_artist : Query → Query
by_artist q = record q { names = codes "artist" ∷ [] }

rewrite_table-insert_each_example :
    rewrite_table mapper replace send
      (some titled)
      (by_artist ∷ by_title ∷ [])
      insert_song
      rows
      none
      []
    ≡ insert_each mapper replace send none
        (configured insert_song (by_artist ∷ by_title ∷ []))
        (kept (some titled) rows)
        []
rewrite_table-insert_each_example =
    rewrite_table-insert_each mapper replace send (λ u v q. refl) (some titled)
      (by_artist ∷ by_title ∷ []) insert_song rows none []

-- The first row is sent, the second is empty, and the third lacks a name.
stopped_copy :
    rewrite_table mapper replace send none [] insert_song rows none []
    ≡ some (
      (plain (text (codes "Beck")) ∷ plain (text (codes "7")) ∷ []) ∷ [],
      some (bind_failed (not_found (codes "id"))),
    )
unfolding rewrite_table
stopped_copy = refl

-- Every row that is not empty is sent, with the title that it got and the names of the options.
titled_copy :
    rewrite_table mapper replace send
      (some titled)
      (by_artist ∷ by_title ∷ [])
      insert_song
      rows
      none
      []
    ≡ some (
      (plain (text (codes "7")) ∷ plain (text (codes "Beck")) ∷ [])
          ∷ (plain (text (codes "Air")) ∷ plain (text (codes "Air")) ∷ [])
          ∷ (plain (text (codes "7")) ∷ plain (text (codes "Beck")) ∷ [])
          ∷ [],
      none,
    )
unfolding rewrite_table titled by_artist by_title
titled_copy = refl
