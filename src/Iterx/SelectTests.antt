-- ===== src/Iterx/SelectTests.antt =====
-- The theorems of `Get` and `Select`, over the driver with its rows in a list.
use cqlx.Common.{Bytes, List, [], ◌∷◌, false, true, map, none, some, codes, ◌≡◌, refl, arith, inl}
use cqlx.Common.Strings.{equal}
use cqlx.Iterx.All.{Elem, by_value, ends, select, set_slice}
use cqlx.Iterx.Rows.{slice, assigned, scanned}
use cqlx.Iterx.Scan.{points_to, is_scannable, check_base, get}
use cqlx.Iterx.Selects.{select-structs}
use cqlx.Iterx.Values.{select-values}
use mathlib.Core.Option
use cqlx.Iterx.Errors.{
  many_columns, RefusesType, by_type, by_elem, check_base-reasons, get-Refuses, select-Refuses,
}
use cqlx.Iterx.Gets.{as_struct, close_error, get-Reads}
use cqlx.Iterx.Targets.{overlay, columns_to}
use cqlx.Iterx.{one_column, missing_fields, IterError, field_of, Iterx, initial_values}
use cqlx.Iterx.ReadTests.{
  Shape, path_of, shapes, reflection, Memory, State, written, scan_state, song_driver, store,
  song_driver-ReadsRows, two_columns, two_songs, opened, text, song, pointer_to, slice_of,
}

abbrev song_elem : List Bytes → Elem Shape Memory
song_elem x =
    by_value
      (written (overlay shapes song ((0 ∷ []) ∷ (1 ∷ []) ∷ []) (initial_values two_columns)) x)

select-structs_example :
    let es = map song_elem two_songs.rows in
    let targets = λ (v : Shape). columns_to shapes v true two_columns ((0 ∷ []) ∷ (1 ∷ []) ∷ []) in
    let closing = (song_driver two_columns).close (
      assigned
        (store (pointer_to (slice_of song)))
        es
        (scanned (song_driver two_columns) targets song two_songs.rows two_songs)) in
    (closed : Iterx Shape Bytes) × (select shapes reflection
        (song_driver two_columns)
        store
        3
        (points_to (pointer_to (slice_of song)))
        opened
        two_songs
      ≡ ends closed closing.0 (slice es))
    × (closed.err ≡ Option.map IterError.driver closing.1)
unfolding path_of equal is_scannable
select-structs_example =
    select-structs shapes reflection (song_driver two_columns) store
      (song_driver-ReadsRows two_columns) 3 (pointer_to (slice_of song)) song opened two_songs refl
      refl refl refl refl refl refl (λ strict cas. unfold missing_fields in refl) (omega arith)

-- A select of two songs writes both, each with its id and title.
two_songs_stored :
    (d : State) × (select shapes reflection
        (song_driver two_columns)
        store
        3
        (points_to (pointer_to (slice_of song)))
        opened
        two_songs
      ≡ ends
          (record opened {
            err = some (IterError.driver (codes "timeout"));
            fields = some ((0 ∷ []) ∷ (1 ∷ []) ∷ []);
            values =
                field_of (pointer_to song) (0 ∷ []) false
                ∷ field_of (pointer_to song) (1 ∷ []) false
                ∷ [];
          })
          d
          (some (
            by_value ((0 ∷ [], codes "7") ∷ (1 ∷ [], codes "Hey") ∷ [])
            ∷ by_value ((0 ∷ [], codes "8") ∷ (1 ∷ [], codes "Loser") ∷ [])
            ∷ [])))
unfolding select path_of equal set_slice
two_songs_stored = (_, refl)

select-values_example :
    let ids = record two_songs { rows = (codes "7" ∷ []) ∷ [] } in
    let es = map (λ x. by_value (written (field_of song [] false ∷ []) x)) ids.rows in
    let targets = λ (v : Shape). field_of v [] false ∷ [] in
    let closing = (song_driver (codes "id" ∷ [])).close (
      assigned
        (store (pointer_to (slice_of text)))
        es
        (scanned (song_driver (codes "id" ∷ [])) targets text ids.rows ids)) in
    (closed : Iterx Shape Bytes) × (select shapes reflection
        (song_driver (codes "id" ∷ []))
        store
        2
        (points_to (pointer_to (slice_of text)))
        opened
        ids
      ≡ ends closed closing.0 (slice es))
    × (closed.err ≡ Option.map IterError.driver closing.1)
unfolding is_scannable
select-values_example =
    select-values shapes reflection (song_driver (codes "id" ∷ [])) store
      (song_driver-ReadsRows (codes "id" ∷ [])) 2 (pointer_to (slice_of text)) text opened
      (record two_songs { rows = (codes "7" ∷ []) ∷ [] }) refl refl refl refl refl refl
      (omega arith)

get-Reads_example :
    let targets =
      overlay shapes (pointer_to song) ((0 ∷ []) ∷ (1 ∷ []) ∷ []) (initial_values two_columns) in
    let closing = (song_driver two_columns).close (scan_state targets two_songs.rows two_songs).0 in
    (closed : Iterx Shape Bytes) × (get shapes reflection
        (song_driver two_columns)
        (points_to (pointer_to song))
        opened
        two_songs
      ≡ some (closed, closing.0, close_error closing.1 2))
    × (closed.err ≡ Option.map IterError.driver closing.1)
unfolding path_of equal is_scannable
get-Reads_example =
    get-Reads shapes reflection (song_driver two_columns) (pointer_to song) opened two_songs
      (overlay shapes (pointer_to song) ((0 ∷ []) ∷ (1 ∷ []) ∷ []) (initial_values two_columns))
      (as_struct (inl refl) refl refl refl (λ strict cas. unfold missing_fields in refl)) refl

many_texts : RefusesType reflection text two_columns opened (one_column 2)
unfolding is_scannable
many_texts = many_columns refl refl (omega arith)

check_base-reasons_example : RefusesType reflection text two_columns opened (one_column 2)
check_base-reasons_example =
    check_base-reasons reflection text two_columns opened (one_column 2)
      (unfold check_base is_scannable in refl)

get-Refuses_example :
    get shapes reflection (song_driver two_columns) (points_to (pointer_to text)) opened two_songs
    ≡ some (record opened { err = some (one_column 2) }, two_songs, some (one_column 2))
get-Refuses_example =
    get-Refuses shapes reflection (song_driver two_columns) (points_to (pointer_to text)) opened
      two_songs (one_column 2) (by_type (pointer_to text) (one_column 2) many_texts)

select-Refuses_example :
    select shapes reflection
      (song_driver two_columns)
      store
      0
      (points_to (pointer_to (slice_of text)))
      opened
      two_songs
    ≡ ends (record opened { err = some (one_column 2) }) two_songs none
select-Refuses_example =
    select-Refuses shapes reflection (song_driver two_columns) store 0
      (points_to (pointer_to (slice_of text))) opened two_songs (one_column 2)
      (by_elem (pointer_to (slice_of text)) text (one_column 2) refl many_texts)
