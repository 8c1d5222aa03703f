-- ===== src/Schemagen/MapTypes/Qualified.antt =====
-- The Go types that name a package are those for which an import is collected.
use cqlx.Common.{
  ℕ, ◌+◌, suc, Bytes, List, [], ◌∷◌, ◌++◌, Bool, true, false, not, ◌&&◌, ◌||◌, ◌==◌, is_empty,
  Option, none, some, codes, pos, ◌≡◌, refl, arith, All,
}
use cqlx.Common.Decimal.{itoa, IsDigit, format_uint-IsDigit}
use cqlx.Schemagen.Camelize.Letters.{camelize-Keeps, Keeps}
use cqlx.Schemagen.Camelize.{allowed_bind_rune, camelize}
use cqlx.Schemagen.Imports.{
  append_unique, import_plain, import_collection, import_tuple, collect_imports, collect_elems,
}
use cqlx.Schemagen.MapTypes.{
  plain_type, collection_type, tuple_type, udt_type, map_cql_type_to_go_type, tuple_fields, ◌>>=◌,
}
use cqlx.Schemagen.References.{exists_in_slice}
use cqlx.Schemagen.Types.{
  Kind, ascii, decimal, timestamp, date, time, duration, udt, TypeInfo, absent, opaque, collection,
  tuple_info, udt_info, TypeInfos, nil, cons, Shape, sequence, mapping, product, user, shape,
}

-- The text names a package: it holds a `.`.
unfoldable pub is_qualified : Bytes → Bool
is_qualified [] = false
is_qualified (c ∷ s) = c == b'.' || is_qualified s

qualified-append : (s t : Bytes) → is_qualified (s ++ t) ≡ (is_qualified s || is_qualified t)
unfolding is_qualified
qualified-append [] t = refl
qualified-append (c ∷ s) t = ground (arith, qualified-append s t)

qualified-digits : (s : Bytes) → All IsDigit s → is_qualified s ≡ false
unfolding is_qualified
qualified-digits [] h = refl
qualified-digits (c ∷ s) (d, h) = ground (arith, qualified-digits s h)

qualified-itoa : (n : ℕ) → is_qualified (itoa (pos n)) ≡ false
unfolding itoa
qualified-itoa n = qualified-digits _ (format_uint-IsDigit n)

qualified-letters : (s : Bytes) → All (λ b. allowed_bind_rune b ≡ true) s → is_qualified s ≡ false
unfolding is_qualified allowed_bind_rune
qualified-letters [] h = refl
qualified-letters (c ∷ s) (d, h) = ground (arith, qualified-letters s h)

-- A code whose type is of another package.
unfoldable pub is_imported : Kind → Bool
is_imported timestamp = true
is_imported date = true
is_imported time = true
is_imported decimal = true
is_imported duration = true
is_imported _ = false

qualified-plain_type : (k : Kind) → is_qualified (plain_type k) ≡ is_imported k
unfolding plain_type is_qualified is_imported
qualified-plain_type ascii = refl
qualified-plain_type timestamp = refl
qualified-plain_type date = refl
qualified-plain_type time = refl
qualified-plain_type decimal = refl
qualified-plain_type duration = refl
qualified-plain_type _ = refl

-- The imports that a type collects from none, as whether there are any.
abbrev Grows : (List Bytes → List Bytes) → Bool → Type 0
Grows f more = (s : List Bytes) → is_empty (f s) ≡ (is_empty s && not more)

empty-concat : (s : List Bytes) (v : Bytes) → is_empty (s ++ v ∷ []) ≡ false
empty-concat [] v = refl
empty-concat (x ∷ s) v = refl

empty-append_unique : (s : List Bytes) (v : Bytes) → is_empty (append_unique s v) ≡ false
unfolding append_unique exists_in_slice
empty-append_unique [] v = refl
empty-append_unique (x ∷ s) v = ground arith

import_plain-Grows : (k : Kind) → Grows (import_plain k) (is_imported k)
unfolding import_plain is_imported
import_plain-Grows timestamp s = ground (arith, empty-append_unique s (codes "time"))
import_plain-Grows date s = ground (arith, empty-append_unique s (codes "time"))
import_plain-Grows time s = ground (arith, empty-append_unique s (codes "time"))
import_plain-Grows decimal s = ground (arith, empty-append_unique s (codes "gopkg.in/inf.v0"))
import_plain-Grows duration s =
    ground (arith, empty-append_unique s (codes "github.com/apache/cassandra-gocql-driver/v2"))
import_plain-Grows _ s = ground arith

-- The Go type and the imports of one type, side by side.
abbrev Agrees : Option Bytes → (List Bytes → List Bytes) → Type 0
Agrees none f = Unit
Agrees (some s) f = Grows f (is_qualified s)

plain-Agrees : (k : Kind) → Agrees (some (plain_type k)) (import_plain k)
plain-Agrees k = rw (qualified-plain_type k) (import_plain-Grows k)

Grows-mapping :
    (t e : Bytes) (key elem : List Bytes → List Bytes)
    → Grows key (is_qualified t)
    → Grows elem (is_qualified e)
    → Grows (λ imports. elem (key imports)) (is_qualified (codes "map[" ++ (t ++ (codes "]" ++ e))))
Grows-mapping t e key elem hk he s = rw qualified-append (
    unfold is_qualified in
    rw qualified-append (unfold is_qualified in ground (arith, he (key s), hk s)))

Grows-struct :
    (f : Bytes) (elems : List Bytes → List Bytes)
    → Grows elems (is_qualified f)
    → Grows elems (is_qualified (codes "struct {\n" ++ (f ++ codes "\t}")))
Grows-struct f elems h s =
    rw qualified-append
      (unfold is_qualified in rw qualified-append (unfold is_qualified in ground (arith, h s)))

Grows-user :
    (k : Kind) (n : Bytes)
    → is_imported k ≡ false
    → is_qualified n ≡ false
    → Grows (import_plain k) (is_qualified (n ++ codes "UserType"))
Grows-user k n h l s =
    rw (qualified-append, l) (unfold is_qualified in ground (arith, import_plain-Grows k s))

Grows-field :
    (i : ℕ) (t r : Bytes) (elem elems : List Bytes → List Bytes)
    → Grows elem (is_qualified t)
    → Grows elems (is_qualified r)
    → Grows
        (λ imports. elems (elem imports))
        (is_qualified
          (codes "\t\tField" ++ (itoa (pos (i + 1)) ++ (codes " " ++ (t ++ (codes "\n" ++ r))))))
Grows-field i t r elem elems h hs s =
    simp (qualified-append, qualified-itoa)
      (unfold is_qualified in ground (arith, hs (elem s), h s))

Agrees-collection :
    (sh : Shape) (k : Kind) (ko eo : Option Bytes) (key elem : List Bytes → List Bytes)
    → Agrees ko key
    → Agrees eo elem
    → Agrees (collection_type sh k ko eo) (import_collection sh k key elem)
unfolding collection_type import_collection
Agrees-collection sequence k ko none key elem hk he = tt
Agrees-collection sequence k ko (some e) key elem hk he = unfold is_qualified in he
Agrees-collection mapping k none eo key elem hk he = tt
Agrees-collection mapping k (some t) none key elem hk he = tt
Agrees-collection mapping k (some t) (some e) key elem hk he = Grows-mapping t e key elem hk he
Agrees-collection _ k ko eo key elem hk he = plain-Agrees k

Agrees-tuple :
    (sh : Shape) (k : Kind) (o : Option Bytes) (elems : List Bytes → List Bytes)
    → Agrees o elems
    → Agrees (tuple_type sh k o) (import_tuple sh k elems)
unfolding tuple_type import_tuple
Agrees-tuple product k none elems h = tt
Agrees-tuple product k (some f) elems h = Grows-struct f elems h
Agrees-tuple _ k o elems h = plain-Agrees k

user-unimported : (k : Kind) → shape k ≡ user → is_imported k ≡ false
unfolding shape is_imported
user-unimported udt h = refl
user-unimported _ h = ground arith

-- The name of a user-defined type, from that of its record.
camelized-Agrees :
    (k : Kind) (name : Bytes) (o : Option Bytes)
    → is_imported k ≡ false
    → Keeps name o
    → Agrees (o >>= λ n. some (n ++ codes "UserType")) (import_plain k)
camelized-Agrees k name none h l = tt
camelized-Agrees k name (some n) h (_, _, l) = Grows-user k n h (qualified-letters n l)

Agrees-udt :
    (sh : Shape) (k : Kind) (name : Bytes)
    → shape k ≡ sh
    → Agrees (udt_type sh k name) (import_plain k)
unfolding udt_type
Agrees-udt user k name e =
    camelized-Agrees k name (camelize name) (user-unimported k e) (camelize-Keeps name)
Agrees-udt _ k name e = plain-Agrees k

-- One field of a tuple's struct and the fields behind it.
Agrees-field :
    (i : ℕ) (o rest : Option Bytes) (elem elems : List Bytes → List Bytes)
    → Agrees o elem
    → Agrees rest elems
    → Agrees
        (do
          s ← o
          r ← rest
          some (
              codes "\t\tField" ++ (itoa (pos (i + 1)) ++ (codes " " ++ (s ++ (codes "\n" ++ r))))))
        (λ imports. elems (elem imports))
Agrees-field i none rest elem elems h hs = tt
Agrees-field i (some t) none elem elems h hs = tt
Agrees-field i (some t) (some r) elem elems h hs = Grows-field i t r elem elems h hs

Agrees-no_fields : Agrees (some []) (λ imports. imports)
unfolding is_qualified
Agrees-no_fields s = ground arith

mutual
  unfolding map_cql_type_to_go_type collect_imports

  map-Agrees : (t : TypeInfo) → Agrees (map_cql_type_to_go_type t) (collect_imports t)
  map-Agrees absent = tt
  map-Agrees (opaque k value) = plain-Agrees k
  map-Agrees (collection k key elem) =
      Agrees-collection (shape k) k (map_cql_type_to_go_type key) (map_cql_type_to_go_type elem)
        (collect_imports key) (collect_imports elem) (map-Agrees key) (map-Agrees elem)
  map-Agrees (tuple_info k elems) =
      Agrees-tuple (shape k) k (tuple_fields 0 elems) (collect_elems elems) (fields-Agrees 0 elems)
  map-Agrees (udt_info k space name) = Agrees-udt (shape k) k name refl

  fields-Agrees : (i : ℕ) (elems : TypeInfos) → Agrees (tuple_fields i elems) (collect_elems elems)
  fields-Agrees i nil = Agrees-no_fields
  fields-Agrees i (cons e elems) =
      Agrees-field i (map_cql_type_to_go_type e) (tuple_fields (suc i) elems) (collect_imports e)
        (collect_elems elems) (map-Agrees e) (fields-Agrees (suc i) elems)

-- The Go type of a CQL type, where there is one, names a package exactly if `collectImports`
-- collects an import for it.
pub is_qualified-imports :
    (t : TypeInfo) {s : Bytes}
    → map_cql_type_to_go_type t ≡ some s
    → is_qualified s ≡ not (is_empty (collect_imports t []))
is_qualified-imports t {s} h = let grows = rw h at (map-Agrees t) in ground (arith, grows [])
