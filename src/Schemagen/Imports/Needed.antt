-- ===== src/Schemagen/Imports/Needed.antt =====
-- Which packages `collectImports` collects, and that it collects none twice.
use cqlx.Common.{
  Bytes, List, [], ◌∷◌, ◌++◌, Bool, false, ◌||◌, codes, ◌≡◌, arith, Bool-cases, inl, inr,
}
use cqlx.Common.Strings.{equal, equal-eq}
use cqlx.Schemagen.References.{exists_in_slice}
use cqlx.Schemagen.Imports.{
  append_unique, import_plain, import_collection, import_tuple, collect_imports, collect_elems,
}
use cqlx.Schemagen.Types.{
  Kind, timestamp, date, time, decimal, duration, TypeInfo, absent, opaque, collection, tuple_info,
  udt_info, TypeInfos, nil, cons, Shape, sequence, mapping, product, shape,
}

-- The package of a code, as Go's import path.
unfoldable pub is_package_of : Bytes → Kind → Bool
unfolding equal
is_package_of p timestamp = equal p (codes "time")
is_package_of p date = equal p (codes "time")
is_package_of p time = equal p (codes "time")
is_package_of p decimal = equal p (codes "gopkg.in/inf.v0")
is_package_of p duration = equal p (codes "github.com/apache/cassandra-gocql-driver/v2")
is_package_of p _ = false

-- The code of a collection or a tuple counts only where the switch does not look inside.
pub inside_collection : Shape → (plain key elem : Bool) → Bool
inside_collection sequence plain key elem = elem
inside_collection mapping plain key elem = key || elem
inside_collection _ plain key elem = plain

pub inside_tuple : Shape → (plain elems : Bool) → Bool
inside_tuple product plain elems = elems
inside_tuple _ plain elems = plain

-- A type holds a code of the package, at any depth.
unfoldable mutual
  unfolding is_package_of inside_collection inside_tuple shape

  pub needs : Bytes → TypeInfo → Bool
  needs p absent = false
  needs p (opaque k value) = is_package_of p k
  needs p (collection k key elem) =
      inside_collection (shape k) (is_package_of p k) (needs p key) (needs p elem)
  needs p (tuple_info k elems) = inside_tuple (shape k) (is_package_of p k) (elems_need p elems)
  needs p (udt_info k space name) = is_package_of p k

  pub elems_need : Bytes → TypeInfos → Bool
  elems_need p nil = false
  elems_need p (cons e elems) = needs p e || elems_need p elems

pub exists-append :
    (s : List Bytes) (v p : Bytes)
    → exists_in_slice (s ++ v ∷ []) p ≡ (exists_in_slice s p || equal p v)
unfolding exists_in_slice
exists-append [] v p = ground arith
exists-append (x ∷ s) v p = ground (arith, exists-append s v p)

exists-append_unique :
    (s : List Bytes) (v p : Bytes)
    → exists_in_slice (append_unique s v) p ≡ (exists_in_slice s p || equal p v)
unfolding append_unique
exists-append_unique s v p = elim (Bool-cases (exists_in_slice s v)) [
  | inl old ↦ elim (Bool-cases (equal p v)) [
    | inl same ↦ rw (old, same) (rw ((equal-eq p v).0 same) (rw old))
    | inr other ↦ rw (old, other) (ground arith)
  ]
  | inr new ↦ rw new (exists-append s v p)
]

exists-import_plain :
    (k : Kind) (s : List Bytes) (p : Bytes)
    → exists_in_slice (import_plain k s) p ≡ (exists_in_slice s p || is_package_of p k)
unfolding import_plain is_package_of
exists-import_plain timestamp s p = exists-append_unique s _ p
exists-import_plain date s p = exists-append_unique s _ p
exists-import_plain time s p = exists-append_unique s _ p
exists-import_plain decimal s p = exists-append_unique s _ p
exists-import_plain duration s p = exists-append_unique s _ p
exists-import_plain _ s p = ground arith

-- What is added is known beforehand, whatever is there already.
abbrev Adds : Bytes → (List Bytes → List Bytes) → Bool → Type 0
Adds p f more = (s : List Bytes) → exists_in_slice (f s) p ≡ (exists_in_slice s p || more)

module _ (p : Bytes) where
  Adds-collection :
      (sh : Shape) (k : Kind) (key elem : List Bytes → List Bytes) (m n : Bool)
      → Adds p key m
      → Adds p elem n
      → Adds p (import_collection sh k key elem) (inside_collection sh (is_package_of p k) m n)
  unfolding import_collection inside_collection
  Adds-collection sequence k key elem m n hk he s = he s
  Adds-collection mapping k key elem m n hk he s = ground (arith, he (key s), hk s)
  Adds-collection _ k key elem m n hk he s = exists-import_plain k s p

  Adds-tuple :
      (sh : Shape) (k : Kind) (elems : List Bytes → List Bytes) (m : Bool)
      → Adds p elems m
      → Adds p (import_tuple sh k elems) (inside_tuple sh (is_package_of p k) m)
  unfolding import_tuple inside_tuple
  Adds-tuple product k elems m h s = h s
  Adds-tuple _ k elems m h s = exists-import_plain k s p

mutual
  unfolding collect_imports needs

  Adds-collect : (p : Bytes) (t : TypeInfo) → Adds p (collect_imports t) (needs p t)
  Adds-collect p absent s = ground arith
  Adds-collect p (opaque k value) s = exists-import_plain k s p
  Adds-collect p (collection k key elem) s =
      Adds-collection p (shape k) k (collect_imports key) (collect_imports elem) _ _
        (Adds-collect p key) (Adds-collect p elem) s
  Adds-collect p (tuple_info k elems) s =
      Adds-tuple p (shape k) k (collect_elems elems) _ (Adds-elems p elems) s
  Adds-collect p (udt_info k space name) s = exists-import_plain k s p

  Adds-elems : (p : Bytes) (elems : TypeInfos) → Adds p (collect_elems elems) (elems_need p elems)
  Adds-elems p nil s = ground arith
  Adds-elems p (cons e elems) s =
      ground (arith, Adds-elems p elems (collect_imports e s), Adds-collect p e s)

-- A package is among the imports afterwards exactly if it was before, or if the type needs it.
pub exists-collect_imports :
    (t : TypeInfo) (imports : List Bytes) (p : Bytes)
    → exists_in_slice (collect_imports t imports) p ≡ (exists_in_slice imports p || needs p t)
exists-collect_imports t imports p = Adds-collect p t imports
