-- ===== src/Udt/Tests.antt =====
-- The theorem of user-defined types, at two structs of songs, over a memory of numbered places.
use cqlx.Common.{
  ℕ, Bytes, List, [], ◌∷◌, All, Bool, true, false, ◌==◌, if◌then◌else◌, Option, none, some, codes,
  ◌≡◌, ◌≢◌, refl, arith,
}
use cqlx.Common.Strings.{equal}
use cqlx.Queryx.{lookup}
use cqlx.Udt.Fields.{Codec, copy, Places, end, both, only_first, only_second, neither, copy-Places}
use cqlx.Udt.{Udt}

abbrev Memory : Type 0
Memory = ℕ → Bytes

abbrev bytes_or_empty : Option Bytes → Bytes
bytes_or_empty none = []
bytes_or_empty (some bytes) = bytes

marshal : Bool → ℕ → Memory → Option Bytes × Option Bool
marshal info v d = (some (d v), none)

unmarshal : Bool → Option Bytes → ℕ → Memory → Memory × Option Bool
unmarshal info bytes v d = (λ w. if w == v then bytes_or_empty bytes else d w, none)

load : ℕ → Memory → Bytes
load v d = d v

abbrev Same : ℕ → ℕ → Type 0
Same v v' = Unit

same_place : (v : ℕ) (x y : Bytes) → (if v == v then x else y) ≡ x
same_place v x y = ground arith

other_place : (w v : ℕ) (x y : Bytes) → w ≢ v → (if w == v then x else y) ≡ y
other_place w v x y ne = ground (arith, ne)

abbrev null : Bool → ℕ → Bytes
null info v = []

codec : Codec Same load null marshal unmarshal
unfolding marshal unmarshal load
codec = record {
  reads = λ i v v' d d' same ok. (refl, same_place v' (d v) (d' v'));
  keeps = λ i bytes v' v'' d' ne. other_place v'' v' (bytes_or_empty bytes) (d' v'') ne;
  nulls = λ i v' d'. (refl, same_place v' [] (d' v'));
}

-- A song with a title and plays, and one with a title and a year.
abbrev played : Udt ℕ
played = record { field = (codes "title", 0) ∷ (codes "plays", 1) ∷ []; strict = false }

abbrev dated : Udt ℕ
dated = record { field = (codes "title", 2) ∷ (codes "year", 3) ∷ []; strict = false }

abbrev one_song : Memory
one_song v = if v == 0 then codes "Hey" else codes "1996"

abbrev song_fields : List (Bytes × Bool)
song_fields =
    (codes "title", true)
    ∷ (codes "plays", false)
    ∷ (codes "year", false)
    ∷ (codes "label", true)
    ∷ []

abbrev song_places : List (ℕ × Bytes)
song_places = (2, codes "Hey") ∷ (3, []) ∷ []

song-Places : Places marshal Same load null played dated one_song song_fields song_places
unfolding lookup equal marshal load
song-Places =
    both refl refl tt refl ((λ e. absurd (omega (arith, e))), tt)
      (only_first refl refl refl refl
        (only_second refl refl refl tt (neither refl refl refl refl end)))

copy-Places_example :
    let (d', e) = copy marshal unmarshal played dated one_song song_fields one_song in
    (e ≡ none)
    × All {A = ℕ × Bytes} (λ p. load p.0 d' ≡ p.1) song_places
    × ((v : ℕ) → All {A = ℕ × Bytes} (λ p. p.0 ≢ v) song_places → load v d' ≡ load v one_song)
copy-Places_example =
    copy-Places marshal unmarshal Same load null codec played dated one_song song-Places one_song
