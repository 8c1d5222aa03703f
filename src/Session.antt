-- ===== src/Session.antt =====
-- session.go: the queries that a session makes. The variables `DefaultBindTransformer` and
-- `DefaultStrict` of the package are parameters, as is the mapper of the session.
pub mod Sends
mod Tests
use cqlx.Common.{Bytes, List, [], Bool, Option, none}
use cqlx.Queryx.Exec.{ExecError, exec}
use cqlx.Queryx.{Transformer, Any, Queryx}

-- The function `new_query` is `Query` of the driver's session.
module _ {S Q : Type 0} (new_query : Bytes → Q) (default_bind_transformer : Option (Transformer S))
    (default_strict : Bool) where
  unfoldable pub query : Bytes → List Bytes → Queryx S Q
  query stmt names = record {
    err = none;
    tr = default_bind_transformer;
    query = new_query stmt;
    names = names;
    strict = default_strict;
  }

  unfoldable pub exec_stmt :
      {W E : Type 0} → (Q → W → W × Option E) → Bytes → W → W × Option (ExecError E)
  unfolding query exec
  exec_stmt exec_context stmt w = exec exec_context (query stmt []) w
