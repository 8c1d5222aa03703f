-- ===== src/Schemagen/References/Resolved.antt =====
-- Rewriting a type again changes nothing: tables and the base tables of views may share a column.
use cqlx.Common.{Bytes, List, ◌≡◌, refl, ap, ap₂, Bool-cases, inl, inr, ◌∙◌}
use cqlx.Schemagen.References.{
  exists_in_slice, validator_name, resolve, rewrite_collection, rewrite_tuple, rewrite_leaf,
  rewrite_udt_type_info, rewrite_elems,
}
use cqlx.Schemagen.Types.{
  Kind, TypeInfo, absent, opaque, collection, tuple_info, udt_info, TypeInfos, nil, cons, Shape,
  sequence, mapping, product, unknown, shape,
}

module _ (print : TypeInfo → Bytes) (udts : List Bytes) (keyspace : Bytes) where
  -- The rewriting, with its arguments.
  abbrev rewrite : TypeInfo → TypeInfo
  rewrite = rewrite_udt_type_info print udts keyspace

  again-resolve :
      (t : TypeInfo)
      → rewrite t ≡ resolve print udts keyspace t
      → rewrite (resolve print udts keyspace t) ≡ resolve print udts keyspace t
  unfolding resolve
  again-resolve t e = elim (Bool-cases (exists_in_slice udts (validator_name (print t)))) [
    | inl found ↦ rw found (unfold rewrite_udt_type_info in refl)
    | inr other ↦ rw other (e ∙ rw other)
  ]

  again-leaf :
      (sh : Shape) (t : TypeInfo)
      → rewrite t ≡ rewrite_leaf print udts keyspace sh t
      → rewrite (rewrite_leaf print udts keyspace sh t) ≡ rewrite_leaf print udts keyspace sh t
  unfolding rewrite_leaf
  again-leaf unknown t e = again-resolve t e
  again-leaf _ t e = e

  again-collection :
      (sh : Shape) (k : Kind) (key key' elem elem' : TypeInfo)
      → shape k ≡ sh
      → rewrite key' ≡ key'
      → rewrite elem' ≡ elem'
      → rewrite (collection k key elem)
        ≡ rewrite_collection print udts keyspace sh k key key' elem elem'
      → rewrite (rewrite_collection print udts keyspace sh k key key' elem elem')
        ≡ rewrite_collection print udts keyspace sh k key key' elem elem'
  unfolding rewrite_collection
  again-collection unknown k key key' elem elem' s hk he e = again-resolve _ e
  again-collection sequence k key key' elem elem' s hk he e =
      unfold rewrite_udt_type_info in rw s (ap (collection k key) he)
  again-collection mapping k key key' elem elem' s hk he e =
      unfold rewrite_udt_type_info in rw s (ap₂ (collection k) hk he)
  again-collection _ k key key' elem elem' s hk he e = e

  again-tuple :
      (sh : Shape) (k : Kind) (elems elems' : TypeInfos)
      → shape k ≡ sh
      → rewrite_elems print udts keyspace elems' ≡ elems'
      → rewrite (tuple_info k elems) ≡ rewrite_tuple print udts keyspace sh k elems elems'
      → rewrite (rewrite_tuple print udts keyspace sh k elems elems')
        ≡ rewrite_tuple print udts keyspace sh k elems elems'
  unfolding rewrite_tuple
  again-tuple unknown k elems elems' s h e = again-resolve _ e
  again-tuple product k elems elems' s h e =
      unfold rewrite_udt_type_info in rw s (ap (tuple_info k) h)
  again-tuple _ k elems elems' s h e = e

  mutual
    unfolding rewrite_udt_type_info

    again : (t : TypeInfo) → rewrite (rewrite t) ≡ rewrite t
    again absent = refl
    again (opaque k value) = again-leaf (shape k) (opaque k value) refl
    again (collection k key elem) =
        again-collection (shape k) k key _ elem _ refl (again key) (again elem) refl
    again (tuple_info k elems) = again-tuple (shape k) k elems _ refl (again_elems elems) refl
    again (udt_info k space name) = again-leaf (shape k) (udt_info k space name) refl

    again_elems :
        (elems : TypeInfos)
        → rewrite_elems print udts keyspace (rewrite_elems print udts keyspace elems)
          ≡ rewrite_elems print udts keyspace elems
    again_elems nil = refl
    again_elems (cons e elems) = ap₂ cons (again e) (again_elems elems)

-- `rewriteUDTTypeInfo` of what it gives is the same, whatever the type.
pub rewrite-rewrite :
    (print : TypeInfo → Bytes) (udts : List Bytes) (keyspace : Bytes) (t : TypeInfo)
    → rewrite_udt_type_info print udts keyspace (rewrite_udt_type_info print udts keyspace t)
      ≡ rewrite_udt_type_info print udts keyspace t
rewrite-rewrite = again
