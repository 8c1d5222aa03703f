-- ===== src/Schemagen/Types.antt =====
-- The column types that cmd/schemagen reads from the driver, and the type codes that it tells
-- apart. The driver's `TypeInfo` is an interface: a value has the code that `Type()` returns, and
-- a dynamic type that is `CollectionType`, `TupleTypeInfo`, `UDTTypeInfo` or another.
use cqlx.Common.{Bytes}

-- `other` stands for every code that the source does not name.
pub data Kind : Type 0 where
  custom ascii bigint blob boolean counter decimal double float int text timestamp : Kind
  uuid varchar varint timeuuid inet date time smallint tinyint duration : Kind
  list_of set_of map_of tuple udt other : Kind

mutual
  pub data TypeInfo : Type 0 where
    -- the interface value nil
    absent : TypeInfo
    -- another dynamic type, by its value
    opaque : Kind → Bytes → TypeInfo
    -- the code, `Key` and `Elem`
    collection : Kind → TypeInfo → TypeInfo → TypeInfo
    -- the code and `Elems`
    tuple_info : Kind → TypeInfos → TypeInfo
    -- the code, `Keyspace` and `Name`
    udt_info : Kind → Bytes → Bytes → TypeInfo

  pub data TypeInfos : Type 0 where
    nil : TypeInfos
    cons : TypeInfo → TypeInfos → TypeInfos

-- The cases of the switches that look into a type.
pub data Shape : Type 0 where
  sequence mapping product user unknown scalar : Shape

unfoldable pub shape : Kind → Shape
shape list_of = sequence
shape set_of = sequence
shape map_of = mapping
shape tuple = product
shape udt = user
shape custom = unknown
shape _ = scalar
