-- ===== src/Schemagen/Imports.antt =====
-- cmd/schemagen/schemagen.go, `collectImports` and `appendUnique`: the packages that the Go types
-- of columns come from.
pub mod Needed
pub mod Unique
use cqlx.Common.{Bytes, List, [], ◌∷◌, ◌++◌, not, if◌then◌else◌, codes}
use cqlx.Schemagen.References.{exists_in_slice}
use cqlx.Schemagen.Types.{
  Kind, timestamp, date, time, decimal, duration, TypeInfo, absent, opaque, collection, tuple_info,
  udt_info, TypeInfos, nil, cons, Shape, sequence, mapping, product, shape,
}

unfoldable pub append_unique : List Bytes → Bytes → List Bytes
unfolding exists_in_slice
append_unique s v = if not (exists_in_slice s v) then s ++ v ∷ [] else s

-- The cases that look at the code alone.
unfoldable pub import_plain : Kind → List Bytes → List Bytes
unfolding append_unique
import_plain timestamp imports = append_unique imports (codes "time")
import_plain date imports = append_unique imports (codes "time")
import_plain time imports = append_unique imports (codes "time")
import_plain decimal imports = append_unique imports (codes "gopkg.in/inf.v0")
import_plain duration imports =
    append_unique imports (codes "github.com/apache/cassandra-gocql-driver/v2")
import_plain _ imports = imports

-- A `CollectionType`, from what its key and its element do.
unfoldable pub import_collection :
    Shape → Kind → (key elem : List Bytes → List Bytes) → List Bytes → List Bytes
unfolding import_plain
import_collection sequence k key elem imports = elem imports
import_collection mapping k key elem imports = elem (key imports)
import_collection _ k key elem imports = import_plain k imports

unfoldable pub import_tuple : Shape → Kind → (List Bytes → List Bytes) → List Bytes → List Bytes
unfolding import_plain
import_tuple product k elems imports = elems imports
import_tuple _ k elems imports = import_plain k imports

unfoldable mutual
  unfolding import_plain import_collection import_tuple shape

  pub collect_imports : TypeInfo → List Bytes → List Bytes
  collect_imports absent imports = imports
  collect_imports (opaque k value) imports = import_plain k imports
  collect_imports (collection k key elem) imports =
      import_collection (shape k) k (collect_imports key) (collect_imports elem) imports
  collect_imports (tuple_info k elems) imports =
      import_tuple (shape k) k (collect_elems elems) imports
  collect_imports (udt_info k space name) imports = import_plain k imports

  pub collect_elems : TypeInfos → List Bytes → List Bytes
  collect_elems nil imports = imports
  collect_elems (cons e elems) imports = collect_elems elems (collect_imports e imports)
