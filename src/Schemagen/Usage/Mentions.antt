-- ===== src/Schemagen/Usage/Mentions.antt =====
-- What `typeUsesName` finds in a type that `rewriteUDTTypeInfo` has gone through.
use cqlx.Common.{
  Bytes, List, Bool, true, false, ◌||◌, ◌≡◌, refl, sym, ◌∙◌, arith, Bool-cases, inl, inr,
}
use cqlx.Common.Strings.{equal, equal-eq}
use cqlx.Schemagen.References.{
  exists_in_slice, validator_name, resolve, rewrite_collection, rewrite_tuple, rewrite_leaf,
  rewrite_udt_type_info, rewrite_elems,
}
use cqlx.Schemagen.Types.{
  Kind, TypeInfo, absent, opaque, collection, tuple_info, udt_info, TypeInfos, nil, cons, Shape,
  sequence, mapping, product, unknown, shape,
}
use cqlx.Schemagen.Usage.{collection_uses, tuple_uses, udt_uses, type_uses_name, elems_use_name}

-- A collection or a tuple with the code of a text is read as the text.
unfoldable pub collection_mentions : Shape → (text key elem : Bool) → Bool
collection_mentions sequence text key elem = elem
collection_mentions mapping text key elem = key || elem
collection_mentions unknown text key elem = text
collection_mentions _ text key elem = false

unfoldable pub tuple_mentions : Shape → (text elems : Bool) → Bool
tuple_mentions product text elems = elems
tuple_mentions unknown text elems = text
tuple_mentions _ text elems = false

unfoldable pub leaf_mentions : Shape → Bool → Bool
leaf_mentions unknown text = text
leaf_mentions _ text = false

module _ (print : TypeInfo → Bytes) where
  -- What the value prints is the name in wrappers.
  unfoldable pub prints_name : TypeInfo → Bytes → Bool
  unfolding equal validator_name
  prints_name t n = equal (validator_name (print t)) n

  -- The type holds, at any depth, a text that is the name in wrappers.
  unfoldable mutual
    unfolding collection_mentions tuple_mentions leaf_mentions shape prints_name

    pub mentions : TypeInfo → Bytes → Bool
    mentions absent n = false
    mentions (opaque k value) n = leaf_mentions (shape k) (prints_name (opaque k value) n)
    mentions (collection k key elem) n =
        collection_mentions (shape k) (prints_name (collection k key elem) n) (mentions key n)
          (mentions elem n)
    mentions (tuple_info k elems) n =
        tuple_mentions (shape k) (prints_name (tuple_info k elems) n) (elems_mention elems n)
    mentions (udt_info k space name) n =
        leaf_mentions (shape k) (prints_name (udt_info k space name) n)

    pub elems_mention : TypeInfos → Bytes → Bool
    elems_mention nil n = false
    elems_mention (cons e elems) n = mentions e n || elems_mention elems n

  module _ (udts : List Bytes) (keyspace n : Bytes) (known : exists_in_slice udts n ≡ true) where
    -- A text becomes the type that it names.
    uses-resolve :
        (t : TypeInfo)
        → type_uses_name t n ≡ false
        → type_uses_name (resolve print udts keyspace t) n ≡ prints_name t n
    unfolding resolve prints_name
    uses-resolve t unused = elim (Bool-cases (exists_in_slice udts (validator_name (print t)))) [
      | inl found ↦ rw found (unfold type_uses_name in refl)
      | inr other ↦ elim (Bool-cases (equal (validator_name (print t)) n)) [
        | inl same ↦
            let e = (equal-eq (validator_name (print t)) n).0 same in
            let bad = rw e at other in cc (sym bad ∙ known)
        | inr differs ↦ rw (other, differs) unused
      ]
    ]

    uses-opaque :
        (sh : Shape) (k : Kind) (value : Bytes)
        → type_uses_name (rewrite_leaf print udts keyspace sh (opaque k value)) n
          ≡ leaf_mentions sh (prints_name (opaque k value) n)
    unfolding rewrite_leaf leaf_mentions type_uses_name
    uses-opaque unknown k value = uses-resolve (opaque k value) refl
    uses-opaque _ k value = refl

    uses-udt :
        (sh : Shape) (k : Kind) (space name : Bytes)
        → shape k ≡ sh
        → type_uses_name (rewrite_leaf print udts keyspace sh (udt_info k space name)) n
          ≡ (udt_uses sh name n || leaf_mentions sh (prints_name (udt_info k space name) n))
    unfolding rewrite_leaf leaf_mentions udt_uses
    uses-udt unknown k space name e =
        uses-resolve (udt_info k space name) (unfold type_uses_name in rw e)
    uses-udt _ k space name e = unfold type_uses_name in rw e (ground arith)

    uses-collection :
        (sh : Shape) (k : Kind) (key key' elem elem' : TypeInfo)
        → shape k ≡ sh
        → type_uses_name key' n ≡ (type_uses_name key n || mentions key n)
        → type_uses_name elem' n ≡ (type_uses_name elem n || mentions elem n)
        → type_uses_name (rewrite_collection print udts keyspace sh k key key' elem elem') n ≡ (
            collection_uses sh (type_uses_name key n) (type_uses_name elem n)
            || collection_mentions sh
                (prints_name (collection k key elem) n)
                (mentions key n)
                (mentions elem n))
    unfolding rewrite_collection collection_uses collection_mentions
    uses-collection unknown k key key' elem elem' e hk he =
        uses-resolve (collection k key elem) (unfold type_uses_name in rw e)
    uses-collection sequence k key key' elem elem' e hk he =
        unfold type_uses_name in rw e (ground arith)
    uses-collection mapping k key key' elem elem' e hk he =
        unfold type_uses_name in rw e (ground arith)
    uses-collection _ k key key' elem elem' e hk he = unfold type_uses_name in rw e (ground arith)

    uses-tuple :
        (sh : Shape) (k : Kind) (elems elems' : TypeInfos)
        → shape k ≡ sh
        → elems_use_name elems' n ≡ (elems_use_name elems n || elems_mention elems n)
        → type_uses_name (rewrite_tuple print udts keyspace sh k elems elems') n ≡ (
            tuple_uses sh (elems_use_name elems n)
            || tuple_mentions sh (prints_name (tuple_info k elems) n) (elems_mention elems n))
    unfolding rewrite_tuple tuple_uses tuple_mentions
    uses-tuple unknown k elems elems' e h =
        uses-resolve (tuple_info k elems) (unfold type_uses_name in rw e)
    uses-tuple product k elems elems' e h = unfold type_uses_name in rw e (ground arith)
    uses-tuple _ k elems elems' e h = unfold type_uses_name in rw e (ground arith)

    mutual
      unfolding rewrite_udt_type_info mentions type_uses_name

      uses-rewrite :
          (t : TypeInfo)
          → type_uses_name (rewrite_udt_type_info print udts keyspace t) n
            ≡ (type_uses_name t n || mentions t n)
      uses-rewrite absent = refl
      uses-rewrite (opaque k value) = uses-opaque (shape k) k value
      uses-rewrite (collection k key elem) =
          uses-collection (shape k) k key _ elem _ refl (uses-rewrite key) (uses-rewrite elem)
      uses-rewrite (tuple_info k elems) =
          uses-tuple (shape k) k elems _ refl (elems_use-rewrite elems)
      uses-rewrite (udt_info k space name) = uses-udt (shape k) k space name refl

      elems_use-rewrite :
          (elems : TypeInfos)
          → elems_use_name (rewrite_elems print udts keyspace elems) n
            ≡ (elems_use_name elems n || elems_mention elems n)
      elems_use-rewrite nil = refl
      elems_use-rewrite (cons e elems) = ground (arith, uses-rewrite e, elems_use-rewrite elems)

-- After the rewriting, `typeUsesName` finds a known name exactly where the type referred to it
-- before, or where the driver had left a text with that name in `frozen<…>`.
pub type_uses_name-rewrite :
    (print : TypeInfo → Bytes) (udts : List Bytes) (keyspace n : Bytes)
    → exists_in_slice udts n ≡ true
    → (t : TypeInfo)
    → type_uses_name (rewrite_udt_type_info print udts keyspace t) n
      ≡ (type_uses_name t n || mentions print t n)
type_uses_name-rewrite print udts keyspace n known t = uses-rewrite print udts keyspace n known t
