-- ===== src/Qb/Emit.antt =====
-- The buffer that every `writeCql` and `ToCql` of qb writes to. A writer takes the bytes in the
-- `bytes.Buffer`, and gives the bytes afterwards with the names of the parameters that it returns.
use cqlx.Common.{not, is_empty, ℕ, Bytes, List, [], ◌∷◌, ◌++◌, Bool, if◌then◌else◌}

abbrev pub Emit : Type 0
Emit = Bytes → Bytes × List Bytes

-- `m(cql)` and then `k(cql)`, where the names of `k` are appended to those of `m`.
infixl 5 ◌>>◌
unfoldable pub ◌>>◌ : Emit → Emit → Emit
◌>>◌ m k cql = let (cql', names) = m cql in let (cql'', more) = k cql' in (cql'', names ++ more)

-- `cql.WriteString(s)`.
unfoldable pub write_string : Bytes → Emit
write_string s cql = (cql ++ s, [])

-- `cql.WriteByte(c)`.
unfoldable pub write_byte : ℕ → Emit
write_byte c cql = (cql ++ c ∷ [], [])

-- `names = append(names, ns...)`.
unfoldable pub return_names : List Bytes → Emit
return_names ns cql = (cql, ns)

-- A writer that returns at once.
unfoldable pub skip : Emit
skip cql = (cql, [])

-- `if b { m(cql) }`.
unfoldable pub when : Bool → Emit → Emit
unfolding skip
when b m = if b then m else skip

-- The loop `for i, x := range xs { w(x); if i < len(xs)-1 { sep } }`.
unfoldable pub write_each {ℓ} : {A : Type ℓ} → Emit → (A → Emit) → List A → Emit
unfolding when
write_each sep w [] = skip
write_each sep w (x ∷ xs) = do w x; when (not (is_empty xs)) sep; write_each sep w xs

-- A statement and the names of its parameters, in a fresh buffer.
pub record Stmt : Type 0 where
  pub stmt : Bytes
  pub names : List Bytes

unfoldable pub run : Emit → Stmt
run m = let (cql, ns) = m [] in record { stmt = cql; names = ns }
