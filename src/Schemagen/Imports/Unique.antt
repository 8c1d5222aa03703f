-- ===== src/Schemagen/Imports/Unique.antt =====
-- No import is collected twice.
use cqlx.Common.{Bytes, List, [], ◌∷◌, ◌++◌, false, ◌≡◌, refl, sym, arith, Bool-cases, inl, inr}
use cqlx.Common.Strings.{equal-eq}
use cqlx.Schemagen.References.{exists_in_slice}
use cqlx.Schemagen.Imports.Needed.{exists-append}
use cqlx.Schemagen.Imports.{
  append_unique, import_plain, import_collection, import_tuple, collect_imports, collect_elems,
}
use cqlx.Schemagen.Types.{
  Kind, timestamp, date, time, decimal, duration, TypeInfo, absent, opaque, collection, tuple_info,
  udt_info, TypeInfos, nil, cons, Shape, sequence, mapping, product, shape,
}

-- No element stands among those behind it.
abbrev pub IsUnique : List Bytes → Type 0
IsUnique [] = Unit
IsUnique (x ∷ s) = (exists_in_slice s x ≡ false) × IsUnique s

IsUnique-concat :
    (s : List Bytes) (v : Bytes) → IsUnique s → exists_in_slice s v ≡ false → IsUnique (s ++ v ∷ [])
unfolding exists_in_slice
IsUnique-concat [] v u h = (refl, tt)
IsUnique-concat (x ∷ s) v (n, u) h =
    ground (arith, exists-append s v x, equal-eq x v, equal-eq v x, IsUnique-concat s v u, sym n)

append_unique-IsUnique : (s : List Bytes) (v : Bytes) → IsUnique s → IsUnique (append_unique s v)
unfolding append_unique
append_unique-IsUnique s v u = elim (Bool-cases (exists_in_slice s v)) [
  | inl old ↦ rw old u
  | inr new ↦ rw new (IsUnique-concat s v u new)
]

import_plain-IsUnique : (k : Kind) (s : List Bytes) → IsUnique s → IsUnique (import_plain k s)
unfolding import_plain
import_plain-IsUnique timestamp s u = append_unique-IsUnique s _ u
import_plain-IsUnique date s u = append_unique-IsUnique s _ u
import_plain-IsUnique time s u = append_unique-IsUnique s _ u
import_plain-IsUnique decimal s u = append_unique-IsUnique s _ u
import_plain-IsUnique duration s u = append_unique-IsUnique s _ u
import_plain-IsUnique _ s u = u

abbrev KeepsUnique : (List Bytes → List Bytes) → Type 0
KeepsUnique f = (s : List Bytes) → IsUnique s → IsUnique (f s)

import_collection-KeepsUnique :
    (sh : Shape) (k : Kind) (key elem : List Bytes → List Bytes)
    → KeepsUnique key
    → KeepsUnique elem
    → KeepsUnique (import_collection sh k key elem)
unfolding import_collection
import_collection-KeepsUnique sequence k key elem hk he s u = he s u
import_collection-KeepsUnique mapping k key elem hk he s u = he (key s) (hk s u)
import_collection-KeepsUnique _ k key elem hk he s u = import_plain-IsUnique k s u

import_tuple-KeepsUnique :
    (sh : Shape) (k : Kind) (elems : List Bytes → List Bytes)
    → KeepsUnique elems
    → KeepsUnique (import_tuple sh k elems)
unfolding import_tuple
import_tuple-KeepsUnique product k elems h s u = h s u
import_tuple-KeepsUnique _ k elems h s u = import_plain-IsUnique k s u

mutual
  unfolding collect_imports

  collect-KeepsUnique : (t : TypeInfo) → KeepsUnique (collect_imports t)
  collect-KeepsUnique absent s u = u
  collect-KeepsUnique (opaque k value) s u = import_plain-IsUnique k s u
  collect-KeepsUnique (collection k key elem) s u =
      import_collection-KeepsUnique (shape k) k (collect_imports key) (collect_imports elem)
        (collect-KeepsUnique key) (collect-KeepsUnique elem) s u
  collect-KeepsUnique (tuple_info k elems) s u =
      import_tuple-KeepsUnique (shape k) k (collect_elems elems) (elems-KeepsUnique elems) s u
  collect-KeepsUnique (udt_info k space name) s u = import_plain-IsUnique k s u

  elems-KeepsUnique : (elems : TypeInfos) → KeepsUnique (collect_elems elems)
  elems-KeepsUnique nil s u = u
  elems-KeepsUnique (cons e elems) s u =
      elems-KeepsUnique elems (collect_imports e s) (collect-KeepsUnique e s u)

-- Imports without a duplicate stay so.
pub collect_imports-IsUnique :
    (t : TypeInfo) (imports : List Bytes) → IsUnique imports → IsUnique (collect_imports t imports)
collect_imports-IsUnique = collect-KeepsUnique
