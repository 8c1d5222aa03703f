-- ===== src/NamedQuery/Names.antt =====
-- Which names come out, and where a query is refused.
use cqlx.Common.{
  ℕ, ◌+◌, Bytes, List, [], ◌∷◌, ◌++◌, Bool, true, is_empty, Option, none, some, ◌≡◌, arith, length,
  Bool-cases, inl, inr, ap, All, All-append,
}
use cqlx.NamedQuery.{
  Result, ok, err, >>=-eq-ok, >>=-eq-err, Scan, step, scan, initial, compile_named_query, has_colon,
  is_name_byte, unexpected_colon, expected_named_query, colon, Error,
}
use cqlx.Qb.Emit.{Stmt}

-- The bytes of a name are letters, digits, `_` and `.`.
abbrev pub IsName : Bytes → Type 0
IsName = All (λ b. is_name_byte b ≡ true)

abbrev NamesInv : Result Scan → Type 0
NamesInv (ok s) = All IsName s.names × IsName s.name
NamesInv (err e) = Unit

step-NamesInv :
    (i : ℕ) (previous : Option ℕ) (at_last : Bool) (b : ℕ) (s : Scan)
    → NamesInv (ok s)
    → NamesInv (step i previous at_last b s)
unfolding step
step-NamesInv i previous at_last b s h = ground (
  arith,
  All-append (λ b. is_name_byte b ≡ true) s.name (b ∷ []),
  All-append IsName s.names (s.name ∷ []),
  All-append IsName s.names ((s.name ++ b ∷ []) ∷ []),
)

scan-IsName :
    (qs : Bytes) (i : ℕ) (previous : Option ℕ) (s : Scan) (q : Stmt)
    → NamesInv (ok s)
    → scan i previous s qs ≡ ok q
    → All IsName q.names
unfolding scan
scan-IsName [] i previous s q v h = ground arith
scan-IsName (b ∷ qs) i previous s q v h =
    let (s', e, later) =
      >>=-eq-ok (step i previous (is_empty qs) b s) (λ s'. scan (i + 1) (some b) s' qs) h in
    scan-IsName qs (i + 1) (some b) s' q (rw e at (step-NamesInv i previous (is_empty qs) b s v))
      later

-- Every name of a compiled query consists of letters, digits, `_` and `.`.
pub compile_named_query-IsName :
    (qs : Bytes) {q : Stmt} → compile_named_query qs ≡ ok q → All IsName q.names
unfolding compile_named_query
compile_named_query-IsName qs {q} h = ground (arith, scan-IsName qs 0 none initial q (tt, tt))

-- The query splits at a `:` of index `j`, counted from `i`.
pub record ColonAt (i : ℕ) (qs : Bytes) (j : ℕ) : Type 0 where
  pub read : Bytes
  pub unread : Bytes
  pub splits : qs ≡ read ++ colon ∷ unread
  pub index : j ≡ i + length read

abbrev RefusedAt : ℕ → Bytes → Error → Type 0
RefusedAt i qs expected_named_query = ⊥
RefusedAt i qs (unexpected_colon j names) = ColonAt i qs j

step-err :
    (i : ℕ) (previous : Option ℕ) (at_last : Bool) (b : ℕ) (s : Scan) {e : Error}
    → step i previous at_last b s ≡ err e
    → (e ≡ unexpected_colon i s.names) × (b ≡ colon)
unfolding step
step-err i previous at_last b s h = ground arith

RefusedAt-here :
    (i b : ℕ) (qs : Bytes) (names : List Bytes)
    → b ≡ colon
    → RefusedAt i (b ∷ qs) (unexpected_colon i names)
RefusedAt-here i b qs names h = record {
  read = [];
  unread = qs;
  splits = ap (λ c. c ∷ qs) h;
  index = omega arith;
}

RefusedAt-cons :
    (i b : ℕ) (qs : Bytes) (e : Error) → RefusedAt (i + 1) qs e → RefusedAt i (b ∷ qs) e
RefusedAt-cons i b qs expected_named_query h = h
RefusedAt-cons i b qs (unexpected_colon j names) h = record {
  read = b ∷ h.read;
  unread = h.unread;
  splits = ap (◌∷◌ b) h.splits;
  index = omega (arith, h.index);
}

scan-RefusedAt :
    (qs : Bytes) (i : ℕ) (previous : Option ℕ) (s : Scan) (e : Error)
    → scan i previous s qs ≡ err e
    → RefusedAt i qs e
unfolding scan
scan-RefusedAt [] i previous s e h = cc
scan-RefusedAt (b ∷ qs) i previous s e h =
    elim (>>=-eq-err (step i previous (is_empty qs) b s) (λ s'. scan (i + 1) (some b) s' qs) h) [
      | inl now ↦
          let (at, is_colon) = step-err i previous (is_empty qs) b s now in
          rw at (RefusedAt-here i b qs s.names is_colon)
      | inr (s', _, later) ↦ RefusedAt-cons i b qs e (scan-RefusedAt qs (i + 1) (some b) s' e later)
    ]

-- The error about an unexpected colon names the index of a `:` in the query.
pub compile_named_query-ColonAt :
    (qs : Bytes) (j : ℕ) (names : List Bytes)
    → compile_named_query qs ≡ err (unexpected_colon j names)
    → ColonAt 0 qs j
unfolding compile_named_query
compile_named_query-ColonAt qs j names h = elim (Bool-cases (has_colon qs)) [
  | inl some_colon ↦
      scan-RefusedAt qs 0 none initial (unexpected_colon j names) (rw some_colon at h)
  | inr no_colon ↦ let bad = rw no_colon at h in cc
]
