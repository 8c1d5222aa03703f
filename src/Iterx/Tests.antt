-- ===== src/Iterx/Tests.antt =====
-- The theorems of scanning, at songs with an id.
use cqlx.Common.{
  ℕ, Bytes, List, [], ◌∷◌, Bool, true, false, if◌then◌else◌, map, none, some, codes, ◌≡◌, refl,
}
use cqlx.Common.Strings.{equal}
use cqlx.Iterx.Missing.{has_path, struct_scan-missing}
use cqlx.Iterx.Targets.{columns_to, paths, struct_scan-twice}
use cqlx.Iterx.{
  nil_target, applied_flag, field_of, missing_destination, Iterx, panics, fails, scans, Types,
  struct_scan, is_cas, missing_fields,
}
use cqlx.Queryx.{get_elem?}

-- Destinations are numbered; a song has a field for `id` only.
song_paths : Bool → List Bytes → List (List ℕ)
song_paths t columns = map (λ c. if equal c (codes "id") then 0 ∷ [] else []) columns

abbrev songs : Types ℕ Bool
songs = record {
  type_of = λ v. true;
  is_struct = λ v. true;
  traversals_by_name = song_paths;
  implements_udt = λ v t. false;
}

abbrev lax : Iterx ℕ Bytes
lax = record { err = none; fields = none; values = []; strict = false; struct_only = false }

abbrev columns : List Bytes
columns = codes "[applied]" ∷ codes "id" ∷ codes "title" ∷ []

struct_scan-twice_example :
    (first : Iterx ℕ Bytes) × (struct_scan songs columns 7 lax ≡ scans first)
    × (first.values ≡ columns_to songs 7 true columns (paths songs 7 columns))
    × (second : Iterx ℕ Bytes) × (struct_scan songs columns 8 first ≡ scans second)
    × (second.values ≡ columns_to songs 8 true columns (paths songs 7 columns))
struct_scan-twice_example =
    struct_scan-twice songs columns 7 8 lax refl refl refl (unfold song_paths in refl)
      (λ strict cas. cc)

targets :
    columns_to songs 8 true columns (paths songs 7 columns)
    ≡ applied_flag ∷ field_of 8 (0 ∷ []) false ∷ nil_target ∷ []
unfolding columns_to song_paths equal
targets = refl

abbrev strict_mode : Iterx ℕ Bytes
strict_mode = record lax { strict = true }

struct_scan-missing_example :
    (failed : Iterx ℕ Bytes) × (struct_scan songs (codes "id" ∷ codes "title" ∷ []) 7 strict_mode
      ≡ fails failed)
    × (failed.err ≡ some (missing_destination (codes "title")))
    × (struct_scan songs (codes "id" ∷ codes "title" ∷ []) 8 failed ≡ panics)
struct_scan-missing_example =
    unfold is_cas missing_fields get_elem? song_paths equal has_path in
    struct_scan-missing songs (codes "id" ∷ codes "title" ∷ []) 7 8 strict_mode 1 (codes "title")
      refl refl refl refl refl refl refl
