-- ===== src/NamedQuery.antt =====
-- queryx.go, `CompileNamedQuery`: a query with named parameters, `:name`, becomes a statement with
-- `?` and the list of its names. `::` stands for `:`.
mod Tests
pub mod Printing
pub mod Runs
pub mod RoundTrip
pub mod Counts
pub mod Names
use cqlx.Common.{
  ℕ, ◌+◌, Bytes, List, [], ◌∷◌, ◌++◌, Bool, true, false, not, ◌&&◌, ◌||◌, is_empty, ◌==◌, leb,
  if◌then◌else◌, Option, none, some, ◌≡◌, refl, ◌⊎◌, inl, inr,
}
use cqlx.Qb.Emit.{Stmt}

-- The errors. Beside the second, Go returns the names found so far and the empty statement.
pub data Error : Type 0 where
  expected_named_query : Error
  unexpected_colon : ℕ → List Bytes → Error

pub data Result {ℓ} (A : Type ℓ) : Type ℓ where
  err : Error → Result A
  ok : A → Result A

abbrev pub colon : ℕ
colon = b':'

unfoldable pub allowed_bind_rune : ℕ → Bool
allowed_bind_rune b =
    (leb b'a' b && leb b b'z') || ((leb b'A' b && leb b b'Z') || (leb b'0' b && leb b b'9'))

-- A byte of a parameter's name.
unfoldable pub is_name_byte : ℕ → Bool
unfolding allowed_bind_rune
is_name_byte b = allowed_bind_rune b || (b == b'_' || b == b'.')

-- The variables of the loop.
pub record Scan : Type 0 where
  pub rebound : Bytes
  pub names : List Bytes
  pub in_name : Bool
  pub name : Bytes

-- `i > 0 && qs[i-1] == ':'`, where `none` stands for the byte before the first.
abbrev pub after_colon : Option ℕ → Bool
after_colon none = false
after_colon (some c) = c == colon

-- The end of a name at byte `b`. The flag is `i == last`.
unfoldable pub end_name : Bool → ℕ → Scan → Scan
unfolding allowed_bind_rune
end_name at_last b s =
    let name = if at_last && allowed_bind_rune b then s.name ++ b ∷ [] else s.name in
    record {
      rebound =
          (s.rebound ++ b'?' ∷ [])
          ++ (if not at_last then b ∷ [] else if not (allowed_bind_rune b) then b ∷ [] else []);
      names = s.names ++ name ∷ [];
      in_name = false;
      name = name;
    }

-- One round of the loop, at byte `b` of index `i`.
unfoldable pub step : ℕ → Option ℕ → Bool → ℕ → Scan → Result Scan
unfolding is_name_byte end_name
step i previous at_last b s =
    if b == colon
    then (if s.in_name && after_colon previous
        then ok (record s { rebound = s.rebound ++ colon ∷ []; in_name = false })
        else if s.in_name
        then err (unexpected_colon i s.names)
        else ok (record s { in_name = true; name = [] }))
    else if s.in_name && (is_name_byte b && not at_last)
    then ok (record s { name = s.name ++ b ∷ [] })
    else if s.in_name
    then ok (end_name at_last b s)
    else ok (record s { rebound = s.rebound ++ b ∷ [] })

-- `if err != nil { return err }` behind a call.
infixl 5 ◌>>=◌
abbrev pub ◌>>=◌ {ℓ κ} : {R : Type ℓ} {S : Type κ} → Result R → (R → Result S) → Result S
err failure >>= next = err failure
ok result >>= next = next result

-- The loop, from index `i` on.
unfoldable pub scan : ℕ → Option ℕ → Scan → Bytes → Result Stmt
unfolding step
scan i previous s [] = ok (record { stmt = s.rebound; names = s.names })
scan i previous s (b ∷ rest) = do
  s' ← step i previous (is_empty rest) b s
  scan (i + 1) (some b) s' rest

-- `bytes.Count(qs, ":")` is positive.
unfoldable pub has_colon : Bytes → Bool
has_colon [] = false
has_colon (b ∷ rest) = b == colon || has_colon rest

abbrev pub initial : Scan
initial = record { rebound = []; names = []; in_name = false; name = [] }

unfoldable pub compile_named_query : Bytes → Result Stmt
unfolding scan has_colon
compile_named_query qs = if has_colon qs then scan 0 none initial qs else err expected_named_query

-- Both rounds of a scan that succeeds have succeeded.
pub >>=-eq-ok {ℓ κ} :
    {R : Type ℓ} {S : Type κ} {final : S} (round : Result R) (next : R → Result S)
    → (round >>= next) ≡ ok final
    → (r : R) × (round ≡ ok r) × (next r ≡ ok final)
>>=-eq-ok (err failure) next h = cc
>>=-eq-ok (ok result) next h = (result, refl, h)

-- A failure is that of the first round, or of the others.
pub >>=-eq-err {ℓ κ} :
    {R : Type ℓ} {S : Type κ} {failure : Error} (round : Result R) (next : R → Result S)
    → (round >>= next) ≡ err failure
    → (round ≡ err failure) ⊎ ((r : R) × (round ≡ ok r) × (next r ≡ err failure))
>>=-eq-err (err early) next h = inl cc
>>=-eq-err (ok result) next h = inr (result, refl, h)
