-- ===== src/Schemagen/References.antt =====
-- cmd/schemagen/schemagen.go, `rewriteUDTTypeInfo`: types that the driver left as the text of a
-- validator become the user-defined types that they name.
pub mod Frozen
pub mod Resolved
use cqlx.Common.{
  ℕ, zero, suc, Bytes, List, [], ◌∷◌, Bool, true, false, ◌&&◌, if◌then◌else◌, length, codes,
}
use cqlx.Common.Strings.{equal, has_prefix, ends_with, trim_space, drop}
use cqlx.Schemagen.Types.{
  Kind, udt, TypeInfo, absent, opaque, collection, tuple_info, udt_info, TypeInfos, nil, cons,
  Shape, sequence, mapping, product, user, unknown, scalar, shape,
}

-- `existsInSlice`. The set of names that `rewriteUDTTypeInfo` takes is a list too.
unfoldable pub exists_in_slice : List Bytes → Bytes → Bool
unfolding equal
exists_in_slice [] v = false
exists_in_slice (i ∷ s) v = if equal v i then true else exists_in_slice s v

-- All but the last byte.
unfoldable pub drop_last : Bytes → Bytes
drop_last [] = []
drop_last (c ∷ []) = []
drop_last (c ∷ d ∷ s) = c ∷ drop_last (d ∷ s)

abbrev pub frozen : Bytes
frozen = codes "frozen<"

-- The test of the loop, `name` between `frozen<` and `>`.
unfoldable pub is_frozen : Bytes → Bool
unfolding has_prefix ends_with
is_frozen name = has_prefix name frozen && ends_with name b'>'

-- `name[len("frozen<") : len(name)-1]`.
unfoldable pub inner : Bytes → Bytes
unfolding drop_last
inner name = drop_last (drop (length frozen) name)

-- The loop, on fuel.
unfoldable pub strip_frozen : ℕ → Bytes → Bytes
unfolding is_frozen inner trim_space
strip_frozen zero name = name
strip_frozen (suc fuel) name =
    let rest = strip_frozen fuel (trim_space (inner name)) in if is_frozen name then rest else name

-- Each round makes the name shorter: its length is fuel enough.
unfoldable pub validator_name : Bytes → Bytes
unfolding strip_frozen trim_space
validator_name printed = let name = trim_space printed in strip_frozen (length name) name

module _ (print : TypeInfo → Bytes) (udts : List Bytes) (keyspace : Bytes) where
  -- The case of `TypeCustom`. The argument `print` is `fmt.Sprintf("%s", _)`.
  unfoldable pub resolve : TypeInfo → TypeInfo
  unfolding exists_in_slice validator_name
  resolve t =
      let name = validator_name (print t) in
      if exists_in_slice udts name then udt_info udt keyspace name else t

  -- A `CollectionType`, from its key and its element and what these become.
  unfoldable pub rewrite_collection : Shape → Kind → (key key' elem elem' : TypeInfo) → TypeInfo
  unfolding resolve
  rewrite_collection sequence k key key' elem elem' = collection k key elem'
  rewrite_collection mapping k key key' elem elem' = collection k key' elem'
  rewrite_collection unknown k key key' elem elem' = resolve (collection k key elem)
  rewrite_collection _ k key key' elem elem' = collection k key elem

  unfoldable pub rewrite_tuple : Shape → Kind → (elems elems' : TypeInfos) → TypeInfo
  unfolding resolve
  rewrite_tuple product k elems elems' = tuple_info k elems'
  rewrite_tuple unknown k elems elems' = resolve (tuple_info k elems)
  rewrite_tuple _ k elems elems' = tuple_info k elems

  -- A type of another dynamic type, and a `UDTTypeInfo`.
  unfoldable pub rewrite_leaf : Shape → TypeInfo → TypeInfo
  unfolding resolve
  rewrite_leaf unknown t = resolve t
  rewrite_leaf _ t = t

  unfoldable mutual
    unfolding rewrite_collection rewrite_tuple rewrite_leaf shape

    pub rewrite_udt_type_info : TypeInfo → TypeInfo
    rewrite_udt_type_info absent = absent
    rewrite_udt_type_info (opaque k value) = rewrite_leaf (shape k) (opaque k value)
    rewrite_udt_type_info (collection k key elem) =
        rewrite_collection (shape k) k key (rewrite_udt_type_info key) elem
          (rewrite_udt_type_info elem)
    rewrite_udt_type_info (tuple_info k elems) =
        rewrite_tuple (shape k) k elems (rewrite_elems elems)
    rewrite_udt_type_info (udt_info k space name) = rewrite_leaf (shape k) (udt_info k space name)

    pub rewrite_elems : TypeInfos → TypeInfos
    rewrite_elems nil = nil
    rewrite_elems (cons e elems) = cons (rewrite_udt_type_info e) (rewrite_elems elems)
