-- ===== src/Queryx/FetchTests.antt =====
-- The theorems of the methods that read rows, over the driver with its rows in a list.
use cqlx.Common.{All, Bytes, List, [], ◌∷◌, true, false, none, some, codes, ◌≡◌, refl, inl}
use cqlx.Common.Strings.{equal}
use cqlx.Iterx.Gets.{as_struct}
use cqlx.Iterx.ReadTests.{
  song, no_fields, pointer_to, path_of, shapes, reflection, State, song_driver, store, two_songs,
}
use cqlx.Iterx.Scan.{points_to, is_scannable}
use cqlx.Iterx.Targets.{overlay}
use cqlx.Iterx.{initial_values, is_cas}
use cqlx.Queryx.Cas.{applied_result, get_cas-Reads}
use cqlx.Queryx.Fetch
use cqlx.Queryx.Fetch.{FetchError, bind_failed, unsent, iter, get_cas, exec_cas}
use cqlx.Queryx.Tests.{Datum, text, mapper, artist_entry, insert_song}
use cqlx.Queryx.Unsent.{fetch-missing, exec_cas-missing}
use cqlx.Queryx.Bound.{Given}
use cqlx.Queryx.{◌>>=◌, Queryx, transform, Any, plain, not_found, lookup, bind_map}

abbrev cas_columns : List Bytes
cas_columns = codes "[applied]" ∷ codes "id" ∷ []

abbrev one_row : State
one_row = record two_songs { rows = (codes "true" ∷ codes "7" ∷ []) ∷ []; read = 1; failed = none }

-- The query has the arguments, and its iterator the row.
open_iter : List (Any Datum) → State → State
open_iter query d = d

keep_metadata : List (Any Datum) → List (Any Datum)
keep_metadata query = query

keep_values : List (Any Datum) → List (Any Datum) → List (Any Datum)
keep_values values query = values

get_cas-Reads_example :
    get_cas shapes reflection
      (song_driver cas_columns)
      open_iter
      keep_metadata
      (points_to (pointer_to song))
      insert_song
      one_row
    ≡ (let scanned =
          ((song_driver cas_columns).scan
            (overlay shapes (pointer_to song) ([] ∷ (0 ∷ []) ∷ []) (initial_values cas_columns))
            one_row).0 in
        let (d', applied, e) = applied_result shapes reflection (song_driver cas_columns) scanned in
        some (insert_song, d', applied, e))
unfolding path_of equal is_scannable iter open_iter keep_metadata
get_cas-Reads_example =
    get_cas-Reads shapes reflection (song_driver cas_columns) open_iter keep_metadata
      (pointer_to song) insert_song one_row
      (overlay shapes (pointer_to song) ([] ∷ (0 ∷ []) ∷ []) (initial_values cas_columns)) refl
      (as_struct (inl refl) refl refl refl (λ strict cas. cc))

artist-Given : All (Given none artist_entry) (codes "artist" ∷ [])
unfolding lookup transform
artist-Given = ((plain (text (codes "Beck")), plain (text (codes "Beck")), refl, refl), tt)

fetch-missing_example :
    (bound : Queryx Datum (List (Any Datum))) × (bind_map mapper keep_values artist_entry
        insert_song
      ≡ some bound)
    × (Fetch.get shapes reflection
          (song_driver cas_columns)
          open_iter
          (points_to (pointer_to song))
          bound
          one_row
        ≡ some (one_row, some (bind_failed (not_found (codes "id")))))
    × (Fetch.select shapes reflection
          (song_driver cas_columns)
          open_iter
          store
          0
          (points_to (pointer_to song))
          bound
          one_row
        ≡ unsent (not_found (codes "id")) one_row)
    × (get_cas shapes reflection
          (song_driver cas_columns)
          open_iter
          keep_metadata
          (points_to (pointer_to song))
          bound
          one_row
        ≡ some (bound, one_row, false, some (bind_failed (not_found (codes "id")))))
fetch-missing_example =
    fetch-missing shapes reflection (song_driver cas_columns) open_iter keep_metadata mapper
      keep_values (codes "artist" ∷ []) [] (codes "id") artist_entry insert_song store 0
      (points_to (pointer_to song)) one_row refl artist-Given (unfold lookup in refl)

exec_cas-missing_example :
    (bound : Queryx Datum (List (Any Datum))) × (bind_map mapper keep_values artist_entry
        insert_song
      ≡ some bound)
    × (exec_cas shapes reflection
          (song_driver cas_columns)
          open_iter
          keep_metadata
          (pointer_to no_fields)
          bound
          one_row
        ≡ (let (d', applied, e) =
              applied_result shapes reflection
                (song_driver cas_columns)
                ((song_driver cas_columns).scan (initial_values cas_columns) one_row).0 in
            some (record insert_song { err = some (not_found (codes "id")) }, d', applied, e)))
unfolding open_iter keep_metadata
exec_cas-missing_example =
    exec_cas-missing shapes reflection (song_driver cas_columns) open_iter keep_metadata mapper
      keep_values (codes "artist" ∷ []) [] (codes "id") artist_entry insert_song
      (pointer_to no_fields) one_row refl artist-Given (unfold lookup in refl) refl refl
      (unfold is_cas equal in refl) refl (unfold path_of in (refl, (refl, tt)))

-- The query of the failed binding was applied.
applied_though_missing :
    (do
      bound ← bind_map mapper keep_values artist_entry insert_song
      exec_cas shapes reflection
          (song_driver cas_columns)
          open_iter
          keep_metadata
          (pointer_to no_fields)
          bound
          one_row)
    ≡ some (
      record insert_song { err = some (not_found (codes "id")) },
      record one_row { rows = []; flag = true },
      true,
      none,
    )
unfolding exec_cas bind_map equal keep_metadata open_iter path_of
applied_though_missing = refl
