-- ===== src/Qb/Batch.antt =====
-- qb/batch.go: the BATCH builder.
pub mod Writes
use cqlx.Common.{Bytes, List, [], ◌∷◌, ◌++◌, Bool, true, false, codes, ℤ, is_empty, if◌then◌else◌}
use cqlx.Qb.Emit.{Emit, ◌>>◌, write_string, write_byte, return_names, skip, when, Stmt, run}
use cqlx.Qb.Using
use cqlx.Qb.Using.{Using, no_using, write_using}

pub record BatchBuilder : Type 0 where
  pub stmts : List Bytes
  pub names : List Bytes
  pub using : Using
  pub unlogged : Bool
  pub counter : Bool

abbrev pub batch : BatchBuilder
batch = record { stmts = []; names = []; using = no_using; unlogged = false; counter = false }

-- The loop over the statements.
write_stmts : List Bytes → Emit
unfolding skip
write_stmts [] = skip
write_stmts (stmt ∷ stmts) = do
  write_string stmt
  write_byte b';'
  write_byte b' '
  write_stmts stmts

-- `ToCql` also changes the receiver, by its USING clause.
unfoldable pub to_cql : BatchBuilder → BatchBuilder × Stmt
unfolding run ◌>>◌ write_string write_byte return_names when write_stmts write_using
to_cql b =
    let (using, write_using_clause) = write_using b.using in
    (
      record b { using = using },
      run (do
        write_string (codes "BEGIN ")
        when b.unlogged (write_string (codes "UNLOGGED "))
        when b.counter (write_string (codes "COUNTER "))
        write_string (codes "BATCH ")
        write_using_clause
        write_stmts b.stmts
        return_names b.names
        write_string (codes "APPLY BATCH ")),
    )

-- `AddStmt`.
unfoldable pub add_stmt : Stmt → BatchBuilder → BatchBuilder
add_stmt q b = record b { stmts = b.stmts ++ q.stmt ∷ []; names = b.names ++ q.names }

-- `Add`: the builder is given with its `ToCql`, and returned as that leaves it.
unfoldable pub add {ℓ} : {B : Type ℓ} → (B → B × Stmt) → B → BatchBuilder → B × BatchBuilder
unfolding add_stmt
add to_stmt builder b = let (builder', q) = to_stmt builder in (builder', add_stmt q b)

-- The name of a parameter behind the prefix of its statement.
unfoldable pub prefixed : Bytes → Bytes → Bytes
prefixed prefix name = if is_empty prefix then name else prefix ++ (codes "." ++ name)

-- The loop of `AddStmtWithPrefix` over the names.
unfoldable pub add_names : Bytes → List Bytes → List Bytes → List Bytes
unfolding prefixed
add_names prefix names [] = names
add_names prefix names (n ∷ more) = add_names prefix (names ++ prefixed prefix n ∷ []) more

unfoldable pub add_stmt_with_prefix : Bytes → Stmt → BatchBuilder → BatchBuilder
unfolding add_names
add_stmt_with_prefix prefix q b = record b {
  stmts = b.stmts ++ q.stmt ∷ [];
  names = add_names prefix b.names q.names;
}

unfoldable pub add_with_prefix {ℓ} :
    {B : Type ℓ} → Bytes → (B → B × Stmt) → B → BatchBuilder → B × BatchBuilder
unfolding add_stmt_with_prefix
add_with_prefix prefix to_stmt builder b =
    let (builder', q) = to_stmt builder in (builder', add_stmt_with_prefix prefix q b)

-- `UnLogged`.
unfoldable pub un_logged : BatchBuilder → BatchBuilder
un_logged b = record b { unlogged = true }

unfoldable pub counter : BatchBuilder → BatchBuilder
counter b = record b { counter = true }

unfoldable pub ttl : (ℤ → ℤ) → ℤ → BatchBuilder → BatchBuilder
unfolding Using.set_ttl
ttl seconds d b = record b { using = Using.set_ttl seconds d b.using }

unfoldable pub ttl_named : Bytes → BatchBuilder → BatchBuilder
unfolding Using.ttl_named
ttl_named name b = record b { using = Using.ttl_named name b.using }

unfoldable pub timestamp : ℤ → BatchBuilder → BatchBuilder
unfolding Using.set_timestamp
timestamp t b = record b { using = Using.set_timestamp t b.using }

unfoldable pub timestamp_named : Bytes → BatchBuilder → BatchBuilder
unfolding Using.timestamp_named
timestamp_named name b = record b { using = Using.timestamp_named name b.using }

unfoldable pub timeout : ℤ → BatchBuilder → BatchBuilder
unfolding Using.set_timeout
timeout d b = record b { using = Using.set_timeout d b.using }

unfoldable pub timeout_named : Bytes → BatchBuilder → BatchBuilder
unfolding Using.timeout_named
timeout_named name b = record b { using = Using.timeout_named name b.using }
