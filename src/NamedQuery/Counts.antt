-- ===== src/NamedQuery/Counts.antt =====
-- How the compiled statement measures against the query.
use cqlx.Common.{
  ℕ, ◌+◌, ◌≤◌, Bytes, List, [], ◌∷◌, ◌++◌, Bool, is_empty, ◌==◌, if◌then◌else◌, Option, none, some,
  ◌≡◌, arith, length, length-append,
}
use cqlx.NamedQuery.{
  >>=-eq-ok, Result, >>=-eq-ok, ok, err, Scan, step, scan, initial, compile_named_query,
}
use cqlx.Qb.Emit.{Stmt}

-- The number of `?` in a text.
pub marks : Bytes → ℕ
marks [] = 0
marks (c ∷ s) = (if c == b'?' then 1 else 0) + marks s

pub marks-append : (s t : Bytes) → marks (s ++ t) ≡ marks s + marks t
unfolding marks
marks-append [] t = omega arith
marks-append (c ∷ s) t = omega (arith, marks-append s t)

pub length-concat : {A : Type 0} (xs : List A) (x : A) → length (xs ++ x ∷ []) ≡ length xs + 1
length-concat xs x = omega (arith, length-append xs (x ∷ []))

marks-concat : (s : Bytes) (c : ℕ) → marks (s ++ c ∷ []) ≡ marks s + marks (c ∷ [])
marks-concat s c = marks-append s (c ∷ [])

-- What one round adds to the markers and to the length at byte `b`.
abbrev StepCounts : Scan → ℕ → Result Scan → Type 0
StepCounts s b (ok s') =
    (marks s'.rebound + length s.names ≡ marks s.rebound + marks (b ∷ []) + length s'.names)
    × (length s'.rebound + (if s'.in_name then 1 else 0)
        ≤ length s.rebound + (if s.in_name then 1 else 0) + 1)
StepCounts s b (err e) = Unit

step_counts :
    (i : ℕ) (previous : Option ℕ) (at_last : Bool) (b : ℕ) (s : Scan)
    → StepCounts s b (step i previous at_last b s)
unfolding step marks
step_counts i previous at_last b s = ground (
  arith,
  marks-append s.rebound (b ∷ []),
  length-append s.rebound (b ∷ []),
  marks-append s.rebound (b'?' ∷ []),
  marks-append (s.rebound ++ b'?' ∷ []) (b ∷ []),
  length-append s.rebound (b'?' ∷ []),
  marks-append (s.rebound ++ b'?' ∷ []) [],
  length-append (s.rebound ++ b'?' ∷ []) [],
  length-append (s.rebound ++ b'?' ∷ []) (b ∷ []),
  length-append s.names (s.name ∷ []),
  length-append s.names ((s.name ++ b ∷ []) ∷ []),
)

abbrev Counts : Scan → Bytes → Stmt → Type 0
Counts s qs q =
    (marks q.stmt + length s.names ≡ marks s.rebound + marks qs + length q.names)
    × (length q.stmt ≤ length s.rebound + (if s.in_name then 1 else 0) + length qs)

-- A round and the rounds after it.
Counts-cons :
    (s s' : Scan) (b : ℕ) (qs : Bytes) (q : Stmt)
    → StepCounts s b (ok s')
    → Counts s' qs q
    → Counts s (b ∷ qs) q
unfolding marks
Counts-cons s s' b qs q h k = ground arith

scan-Counts :
    (qs : Bytes) (i : ℕ) (previous : Option ℕ) (s : Scan) (q : Stmt)
    → scan i previous s qs ≡ ok q
    → Counts s qs q
unfolding scan
scan-Counts [] i previous s q h = unfold marks in ground arith
scan-Counts (b ∷ qs) i previous s q h =
    let (s', e, later) =
      >>=-eq-ok (step i previous (is_empty qs) b s) (λ s'. scan (i + 1) (some b) s' qs) h in
    Counts-cons s s' b qs q (rw e at (step_counts i previous (is_empty qs) b s))
      (scan-Counts qs (i + 1) (some b) s' q later)

-- A compiled query has the `?` of the query itself and one for each name, and is no longer than
-- the query.
pub compile_named_query-marks :
    (qs : Bytes) {q : Stmt}
    → compile_named_query qs ≡ ok q
    → (marks q.stmt ≡ marks qs + length q.names) × (length q.stmt ≤ length qs)
unfolding compile_named_query marks
compile_named_query-marks qs {q} h = ground (arith, scan-Counts qs 0 none initial q)
