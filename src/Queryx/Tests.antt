-- ===== src/Queryx/Tests.antt =====
-- The theorems of binding, at a struct of two fields and a map.
use cqlx.Common.{
  All, ℕ, suc, zero, Bytes, List, [], ◌∷◌, Bool, true, false, if◌then◌else◌, Option, none, some,
  codes, ◌≡◌, refl,
}
use cqlx.Common.Strings.{equal}
use cqlx.Queryx.Bound.{Binds, Returns, found, absent, entry}
use cqlx.Queryx.Exec.{bind_failed, exec, exec-missing}
use cqlx.Queryx.Struct.{
  is_plain, itself, through, Traverses, traverse_each, field_or_entry, bind_struct_args-Binds,
}
use cqlx.Queryx.{
  Any, plain, pointer, nil_pointer, not_found, Queryx, Mapper, Args, lookup, bind_struct_args, bind,
  bind_map, bind_map_from, transform,
}

-- The values of a program: texts, and songs with an id and a title.
pub data Datum : Type 0 where
  text : Bytes → Datum
  song : Bytes → Bytes → Datum

abbrev pub is_song : Any Datum → Bool
is_song (plain (song id title)) = true
is_song _ = false

-- Reading a field of another value panics.
abbrev pub field : Any Datum → List ℕ → Option (Any Datum)
field (plain (song id title)) (zero ∷ []) = some (plain (text id))
field (plain (song id title)) (suc zero ∷ []) = some (plain (text title))
field _ _ = none

-- The paths of the fields of a song, where the flag says that the type is that of songs.
pub song_path : Bool → Bytes → List ℕ
song_path false name = []
song_path true name =
    if equal name (codes "id") then 0 ∷ [] else if equal name (codes "title") then 1 ∷ [] else []

abbrev pub mapper : Mapper Datum Bool
mapper = record {
  type_of = is_song;
  traversals_by_name_func = λ t names fn args. traverse_each (song_path t) fn 0 names args;
  field_by_indexes = field;
  implements_udt = λ v. false;
}

pub mapper-Traverses : Traverses mapper song_path (λ t. t)
mapper-Traverses t names fn args h = refl

abbrev pub one_song : Any Datum
one_song = pointer (plain (song (codes "7") (codes "Hey")))

abbrev pub artist_entry : List (Bytes × Any Datum)
artist_entry = (codes "artist", plain (text (codes "Beck"))) ∷ []

abbrev pub insert_song : Queryx Datum (List (Any Datum))
insert_song = record {
  err = none;
  tr = none;
  query = [];
  names = codes "artist" ∷ codes "id" ∷ [];
  strict = false;
}

-- A transformer that changes the empty text, and panics at nil.
pub unset_empty : Bytes → Any Datum → Option (Any Datum)
unset_empty name nil_pointer = none
unset_empty name (plain (text [])) = some (plain (text (codes "unset")))
unset_empty name v = some v

abbrev pub transformed_song : Queryx Datum (List (Any Datum))
transformed_song = record insert_song { tr = some unset_empty }

abbrev pub the_song : Any Datum
the_song = plain (song (codes "7") (codes "Hey"))

pub song-Returns :
    All
      (Returns (some unset_empty) (field_or_entry mapper song_path the_song artist_entry))
      transformed_song.names
unfolding field_or_entry song_path equal lookup transform unset_empty
song-Returns = (found refl refl, (found refl refl, tt))

pub artist-Returns :
    All (Returns (some unset_empty) (entry (some unset_empty) artist_entry)) transformed_song.names
unfolding lookup transform unset_empty
artist-Returns = (found refl refl, (absent refl, tt))

bind_struct_args-Binds_example :
    (r : Args Datum) × (bind_struct_args mapper transformed_song one_song artist_entry ≡ some r)
    × Binds
        (some unset_empty)
        (field_or_entry mapper song_path the_song artist_entry)
        (codes "artist" ∷ codes "id" ∷ [])
        r.0
        r.1
bind_struct_args-Binds_example =
    bind_struct_args-Binds mapper song_path (λ t. t) mapper-Traverses transformed_song one_song
      the_song artist_entry is_plain (through itself) refl song-Returns

two_arguments :
    bind_struct_args mapper transformed_song one_song artist_entry
    ≡ some (plain (text (codes "Beck")) ∷ plain (text (codes "7")) ∷ [], none)
unfolding bind_struct_args traverse_each song_path unset_empty
two_arguments = refl

-- The transformer panics at a nil of the map, and reading a field behind a nil pointer does.
nil_entry :
    bind_map_from (some unset_empty) ((codes "id", nil_pointer) ∷ []) (codes "id" ∷ []) [] ≡ none
unfolding bind_map_from unset_empty
nil_entry = refl

-- A driver that keeps the arguments it was given, and counts the queries it sends.
send : List (Any Datum) → ℕ → ℕ × Option Bool
send query sent = (suc sent, none)

keep_values : List (Any Datum) → List (Any Datum) → List (Any Datum)
keep_values values query = values

abbrev by_artist : Queryx Datum (List (Any Datum))
by_artist = record insert_song { names = codes "artist" ∷ []; err = some (not_found (codes "x")) }

exec-missing_example :
    (bound : Queryx Datum (List (Any Datum))) × (bind_map mapper keep_values artist_entry
        transformed_song
      ≡ some bound)
    × (exec send bound 0 ≡ (0, some (bind_failed (not_found (codes "id")))))
    × (exec send (bind mapper keep_values [] bound) 0
        ≡ (0, some (bind_failed (not_found (codes "id")))))
exec-missing_example =
    exec-missing mapper keep_values send (codes "artist" ∷ []) [] (codes "id") artist_entry
      transformed_song [] 0 refl
      (
        (
          plain (text (codes "Beck")),
          plain (text (codes "Beck")),
          unfold lookup in refl,
          unfold transform unset_empty in refl,
        ),
        tt,
      )
      (unfold lookup in refl)
