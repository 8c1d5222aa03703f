-- ===== src/Iterx/ReadTests.antt =====
-- A driver that has its rows in a list, for the theorems of `Get` and `Select`.
use cqlx.Common.{
  ℕ, Bytes, List, [], ◌∷◌, ◌++◌, is_empty, Bool-cases, ◌∙◌, Bool, true, false, if◌then◌else◌, map,
  Option, none, some, codes, ◌≡◌, refl, ap, inl, inr,
}
use cqlx.Common.Strings.{equal}
use cqlx.Iterx.All.{Elem}
use cqlx.Iterx.Rows.{ReadsRows}
use cqlx.Iterx.Scan.{Reflection, Driver}
use cqlx.Iterx.Targets.{overlay, target}
use cqlx.Iterx.{Target, applied_flag, field_of, Iterx, Types, initial_values}

-- The types of a program, and a destination is known by its type.
pub data Shape : Type 0 where
  text song no_fields : Shape
  pointer_to slice_of : Shape → Shape

abbrev pub base_of : Shape → Shape
base_of (pointer_to t) = t
base_of t = t

abbrev pub is_song : Shape → Bool
is_song song = true
is_song no_fields = true
is_song _ = false

-- A song has fields for `id` and `title`.
unfoldable pub path_of : Shape → Bytes → List ℕ
path_of song c =
    if equal c (codes "id") then 0 ∷ [] else if equal c (codes "title") then 1 ∷ [] else []
path_of _ c = []

abbrev pub shapes : Types Shape Shape
shapes = record {
  type_of = λ v. v;
  is_struct = λ v. is_song (base_of v);
  traversals_by_name = λ t columns. map (path_of (base_of t)) columns;
  implements_udt = λ v t. false;
}

abbrev pub elem_of : Shape → Option Shape
elem_of (slice_of t) = some t
elem_of _ = none

abbrev pub is_pointer : Shape → Bool
is_pointer (pointer_to t) = true
is_pointer _ = false

abbrev pub exported : Shape → ℕ
exported song = 2
exported _ = 0

abbrev pub reflection : Reflection Shape
reflection = record {
  deref = base_of;
  slice_of = elem_of;
  is_pointer = is_pointer;
  is_struct_type = is_song;
  implements_unmarshaler = λ t. false;
  implements_udt_unmarshaler = λ t. false;
  implements_auto_udt = λ t. false;
  index_length = exported;
}

-- What was scanned last: the column of each field, by its path.
abbrev pub Memory : Type 0
Memory = List (List ℕ × Bytes)

pub record State : Type 0 where
  pub rows : List (List Bytes)
  pub read : ℕ
  pub memory : Memory
  pub flag : Bool
  pub stored : List (Elem Shape Memory)
  pub failed : Option Bytes

abbrev pub entry : Target Shape → Bytes → Memory
entry (field_of v t wrapped) x = (t, x) ∷ []
entry _ x = []

abbrev pub written : List (Target Shape) → List Bytes → Memory
written (t ∷ ts) (x ∷ xs) = entry t x ++ written ts xs
written _ _ = []

-- The flag `applied` is the first column, if that is its target.
abbrev pub flagged : List (Target Shape) → List Bytes → Bool → Bool
flagged (applied_flag ∷ ts) (x ∷ xs) old = equal x (codes "true")
flagged _ _ old = old

abbrev pub scan_state : List (Target Shape) → List (List Bytes) → State → State × Bool
scan_state ts [] d = (d, false)
scan_state ts (x ∷ xs) d =
    (record d { rows = xs; memory = written ts x; flag = flagged ts x d.flag }, true)

abbrev pub song_driver : List Bytes → Driver Shape Shape Memory Bytes State
song_driver columns = record {
  columns = λ d. columns;
  scan = λ ts d. scan_state ts d.rows d;
  close = λ d. (d, d.failed);
  num_rows = λ d. d.read;
  applied = λ d. d.flag;
  new = λ t d. (d, pointer_to t);
  load = λ v d. d.memory;
}

abbrev pub store : Shape → List (Elem Shape Memory) → State → State
store v es d = record d { stored = es }

pub reads_row :
    (columns : List Bytes) (ts : List (Target Shape)) (d : State) (x : List Bytes)
    (xs : List (List Bytes))
    → d.rows ≡ x ∷ xs
    → scan_state ts d.rows d
      ≡ (record d { rows = xs; memory = written ts x; flag = flagged ts x d.flag }, true)
reads_row columns ts d x xs h = ap (λ rows. scan_state ts rows d) h

pub written-overlay :
    (v v' : Shape) (paths : List (List ℕ)) (ts : List (Target Shape)) (x : List Bytes)
    → written (overlay shapes v paths ts) x ≡ written (overlay shapes v' paths ts) x
unfolding overlay target
written-overlay v v' [] ts x = refl
written-overlay v v' (t ∷ paths) [] x = refl
written-overlay v v' (t ∷ paths) (old ∷ ts) [] = refl
written-overlay v v' (t ∷ paths) (old ∷ ts) (c ∷ x) = elim (Bool-cases (is_empty t)) [
  | inl h ↦ rw h (ap (λ m. entry old c ++ m) (written-overlay v v' paths ts x))
  | inr h ↦ rw h (ap (λ m. (t, c) ∷ m) (written-overlay v v' paths ts x))
]

pub written-field :
    (x : List Bytes) (wrapped : Bool) (b : Shape)
    → written (field_of (pointer_to b) [] wrapped ∷ []) x ≡ written (field_of song [] false ∷ []) x
written-field [] wrapped b = refl
written-field (c ∷ x) wrapped b = refl

abbrev pub song_driver-ReadsRows :
    (columns : List Bytes) → ReadsRows shapes reflection (song_driver columns) (List Bytes)
song_driver-ReadsRows columns = record {
  rows = λ d. d.rows;
  pointer_to = pointer_to;
  decode = λ x paths. written (overlay shapes song paths (initial_values columns)) x;
  decode_value = λ x. written (field_of song [] false ∷ []) x;
  made_rows = λ b d. refl;
  made_columns = λ b d. refl;
  made_type = λ b d. refl;
  made_struct = λ b d. refl;
  scan_end = λ ts d h. ap (λ rows. (scan_state ts rows d).1) h;
  scan_row = λ ts d x xs h hl. (
    ap (λ s. s.1) (reads_row columns ts d x xs h),
    ap (λ s. s.0.rows) (reads_row columns ts d x xs h),
    refl,
  );
  loads = λ b d x xs paths h.
      ap (λ s. s.0.memory) (reads_row columns _ d x xs h)
      ∙ written-overlay (pointer_to b) song paths (initial_values columns) x;
  loads_value = λ b d x xs wrapped h.
      ap (λ s. s.0.memory) (reads_row columns (field_of (pointer_to b) [] wrapped ∷ []) d x xs h)
      ∙ written-field x wrapped b;
}

abbrev pub two_columns : List Bytes
two_columns = codes "id" ∷ codes "title" ∷ []

abbrev pub two_songs : State
two_songs = record {
  rows = (codes "7" ∷ codes "Hey" ∷ []) ∷ (codes "8" ∷ codes "Loser" ∷ []) ∷ [];
  read = 2;
  memory = [];
  flag = false;
  stored = [];
  failed = some (codes "timeout");
}

abbrev pub opened : Iterx Shape Bytes
opened = record { err = none; fields = none; values = []; strict = true; struct_only = false }
