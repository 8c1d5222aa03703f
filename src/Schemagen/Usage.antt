-- ===== src/Schemagen/Usage.antt =====
-- cmd/schemagen/schemagen.go, `typeUsesName`: whether a type refers to a user-defined type.
pub mod Mentions
use cqlx.Common.{Bytes, Bool, false, ◌||◌}
use cqlx.Common.Strings.{equal}
use cqlx.Schemagen.Types.{
  TypeInfo, absent, opaque, collection, tuple_info, udt_info, TypeInfos, nil, cons, Shape, sequence,
  mapping, product, user, shape,
}

-- A `CollectionType`, from whether its key and its element refer to the name.
unfoldable pub collection_uses : Shape → (key elem : Bool) → Bool
collection_uses sequence key elem = elem
collection_uses mapping key elem = key || elem
collection_uses _ key elem = false

unfoldable pub tuple_uses : Shape → Bool → Bool
tuple_uses product elems = elems
tuple_uses _ elems = false

unfoldable pub udt_uses : Shape → (name type_name : Bytes) → Bool
unfolding equal
udt_uses user name type_name = equal name type_name
udt_uses _ name type_name = false

unfoldable mutual
  unfolding collection_uses tuple_uses udt_uses shape

  pub type_uses_name : TypeInfo → Bytes → Bool
  type_uses_name absent n = false
  type_uses_name (opaque k value) n = false
  type_uses_name (collection k key elem) n =
      collection_uses (shape k) (type_uses_name key n) (type_uses_name elem n)
  type_uses_name (tuple_info k elems) n = tuple_uses (shape k) (elems_use_name elems n)
  type_uses_name (udt_info k space name) n = udt_uses (shape k) name n

  pub elems_use_name : TypeInfos → Bytes → Bool
  elems_use_name nil n = false
  elems_use_name (cons e elems) n = type_uses_name e n || elems_use_name elems n
