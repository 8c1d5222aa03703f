-- ===== src/Schemagen/MapTypes.antt =====
-- cmd/schemagen/map_types.go: the Go type of a CQL type.
pub mod Qualified
use cqlx.Common.{ℕ, ◌+◌, suc, Bytes, ◌++◌, Option, none, some, codes, pos}
use cqlx.Common.Decimal.{itoa}
use cqlx.Schemagen.Camelize.{camelize}
use cqlx.Schemagen.Types.{
  Kind, custom, ascii, bigint, blob, boolean, counter, decimal, double, float, int, text, timestamp,
  uuid, varchar, varint, timeuuid, inet, date, time, smallint, tinyint, duration, list_of, set_of,
  map_of, tuple, udt, other, TypeInfo, absent, opaque, collection, tuple_info, udt_info, TypeInfos,
  nil, cons, Shape, sequence, mapping, product, user, unknown, scalar, shape,
}
use mathlib.Core.Option

infixl 5 ◌>>=◌
abbrev pub ◌>>=◌ : Option Bytes → (Bytes → Option Bytes) → Option Bytes
none >>= f = none
some s >>= f = f s

-- The switch over the code, where no assertion of the dynamic type holds.
unfoldable pub plain_type : Kind → Bytes
plain_type ascii = codes "string"
plain_type text = codes "string"
plain_type varchar = codes "string"
plain_type inet = codes "string"
plain_type bigint = codes "int64"
plain_type varint = codes "int64"
plain_type blob = codes "[]byte"
plain_type boolean = codes "bool"
plain_type counter = codes "int"
plain_type date = codes "time.Time"
plain_type timestamp = codes "time.Time"
plain_type decimal = codes "inf.Dec"
plain_type double = codes "float64"
plain_type float = codes "float32"
plain_type int = codes "int32"
plain_type smallint = codes "int16"
plain_type tinyint = codes "int8"
plain_type time = codes "time.Duration"
plain_type uuid = codes "[16]byte"
plain_type timeuuid = codes "[16]byte"
plain_type duration = codes "gocqlv2.Duration"
plain_type list_of = codes "[]any"
plain_type set_of = codes "[]any"
plain_type map_of = codes "map[any]any"
plain_type tuple = codes "any"
plain_type udt = codes "any"
plain_type custom = codes "any"
plain_type other = codes "any"

-- A `CollectionType`, from the Go types of its key and of its element.
unfoldable pub collection_type : Shape → Kind → Option Bytes → Option Bytes → Option Bytes
unfolding plain_type
collection_type sequence k key elem = do e ← elem; some (codes "[]" ++ e)
collection_type mapping k key elem = do
  key_type ← key
  e ← elem
  some (codes "map[" ++ (key_type ++ (codes "]" ++ e)))
collection_type _ k key elem = some (plain_type k)

-- A `TupleTypeInfo`, from the fields of its struct.
unfoldable pub tuple_type : Shape → Kind → Option Bytes → Option Bytes
unfolding plain_type
tuple_type product k fields = do f ← fields; some (codes "struct {\n" ++ (f ++ codes "\t}"))
tuple_type _ k fields = some (plain_type k)

-- A `UDTTypeInfo`, by its name.
unfoldable pub udt_type : Shape → Kind → Bytes → Option Bytes
unfolding plain_type camelize
udt_type user k name = do n ← camelize name; some (n ++ codes "UserType")
udt_type _ k name = some (plain_type k)

-- `none` is a panic: of `camelize`, or of the call `t.Type()` at nil.
unfoldable mutual
  unfolding plain_type collection_type tuple_type udt_type shape

  pub map_cql_type_to_go_type : TypeInfo → Option Bytes
  map_cql_type_to_go_type absent = none
  map_cql_type_to_go_type (opaque k value) = some (plain_type k)
  map_cql_type_to_go_type (collection k key elem) =
      collection_type (shape k) k (map_cql_type_to_go_type key) (map_cql_type_to_go_type elem)
  map_cql_type_to_go_type (tuple_info k elems) = tuple_type (shape k) k (tuple_fields 0 elems)
  map_cql_type_to_go_type (udt_info k keyspace name) = udt_type (shape k) k name

  -- The loop over the elements of a tuple, from index `i` on.
  pub tuple_fields : ℕ → TypeInfos → Option Bytes
  tuple_fields i nil = some (codes "")
  tuple_fields i (cons e elems) = do
    s ← map_cql_type_to_go_type e
    rest ← tuple_fields (suc i) elems
    some (codes "\t\tField" ++ (itoa (pos (i + 1)) ++ (codes " " ++ (s ++ (codes "\n" ++ rest)))))
