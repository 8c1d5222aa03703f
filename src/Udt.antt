-- ===== src/Udt.antt =====
-- udt.go: the wrapper that gives the driver the fields of a struct, by name. The wrapping of
-- arguments stands with the query, in Queryx.
pub mod Fields
mod Tests
use cqlx.Common.{Bytes, List, Bool, not, if◌then◌else◌, Option, none, some}
use cqlx.Queryx.{lookup}
use mathlib.Core.Option

pub data UdtError (E : Type 0) : Type 0 where
  missing_name : Bytes → UdtError E
  driver : E → UdtError E

-- The field `value` is there for the message of the error only. `V` are places in memory.
pub record Udt (V : Type 0) : Type 0 where
  pub field : List (Bytes × V)
  pub strict : Bool

-- The function `field_map` is `FieldMap` of the mapper.
unfoldable pub make_udt : {V : Type 0} → (V → List (Bytes × V)) → V → Bool → Udt V
make_udt field_map value strict = record { field = field_map value; strict = strict }

module _ {V I D E : Type 0} where
  -- The function `marshal` is `Marshal` of the driver, on what the memory `D` has at a place; nil
  -- bytes are `none`.
  unfoldable pub marshal_udt :
      (I → V → D → Option Bytes × Option E)
      → Udt V
      → Bytes
      → I
      → D
      → Option Bytes × Option (UdtError E)
  unfolding lookup
  marshal_udt marshal u name info d = elim (lookup name u.field) [
    | some value ↦ let (bytes, e) = marshal info value d in (bytes, Option.map driver e)
    | none ↦ if not u.strict then (none, none) else (none, some (missing_name name))
  ]

  -- The function `unmarshal` is `Unmarshal` of the driver, to a place.
  unfoldable pub unmarshal_udt :
      (I → Option Bytes → V → D → D × Option E)
      → Udt V
      → Bytes
      → I
      → Option Bytes
      → D
      → D × Option (UdtError E)
  unfolding lookup
  unmarshal_udt unmarshal u name info bytes d = elim (lookup name u.field) [
    | some value ↦ let (d', e) = unmarshal info bytes value d in (d', Option.map driver e)
    | none ↦ if not u.strict then (d, none) else (d, some (missing_name name))
  ]
