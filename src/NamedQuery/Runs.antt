-- ===== src/NamedQuery/Runs.antt =====
-- Runs of the loop of `CompileNamedQuery` over a text, and over a name to its end.
use cqlx.Common.{
  ℕ, ◌+◌, Bytes, List, [], ◌∷◌, ◌++◌, true, false, ◌==◌, if◌then◌else◌, Option, some, ◌≡◌, ◌≢◌,
  refl, arith, Bool-cases, inl, inr, append-nil, append_assoc,
}
use cqlx.NamedQuery.{ok, Scan, step, scan, is_name_byte, allowed_bind_rune, colon}
use cqlx.Qb.Emit.{Stmt}
use cqlx.NamedQuery.Names.{IsName}
use cqlx.NamedQuery.Printing.{escape, EndsAllowed}

-- The loop's variables outside a name, and inside one.
abbrev pub outside : Bytes → List Bytes → Bytes → Scan
outside rebound names name = record {
  rebound = rebound;
  names = names;
  in_name = false;
  name = name;
}

abbrev pub inside : Bytes → List Bytes → Bytes → Scan
inside rebound names name = record { rebound = rebound; names = names; in_name = true; name = name }

-- From here on the loop ends well, whatever the index and the byte before.
abbrev pub Runs : Scan → Bytes → Stmt → Type 0
Runs s qs q = (i : ℕ) (previous : Option ℕ) → scan i previous s qs ≡ ok q

module _ (rebound : Bytes) (names : List Bytes) (q : Stmt) where
  Runs-byte :
      (c : ℕ) (name qs : Bytes)
      → (c == colon) ≡ false
      → Runs (outside (rebound ++ c ∷ []) names name) qs q
      → Runs (outside rebound names name) (c ∷ qs) q
  unfolding scan step
  Runs-byte c name qs h k i previous = ground (arith, k (i + 1) (some c))

  Runs-escaped :
      (name qs : Bytes)
      → Runs (outside (rebound ++ colon ∷ []) names []) qs q
      → Runs (outside rebound names name) (colon ∷ colon ∷ qs) q
  unfolding scan step
  Runs-escaped name qs k i previous = k (i + 1 + 1) (some colon)

  Runs-name_byte :
      (c d : ℕ) (name qs : Bytes)
      → is_name_byte c ≡ true
      → Runs (inside rebound names (name ++ c ∷ [])) (d ∷ qs) q
      → Runs (inside rebound names name) (c ∷ d ∷ qs) q
  unfolding scan step
  Runs-name_byte c d name qs h k i previous = ground (arith, k (i + 1) (some c))

  Runs-last :
      (c : ℕ) (name : Bytes)
      → allowed_bind_rune c ≡ true
      → q ≡ record { stmt = rebound ++ b'?' ∷ []; names = names ++ (name ++ c ∷ []) ∷ [] }
      → Runs (inside rebound names name) (c ∷ []) q
  unfolding scan step
  Runs-last c name h e i previous = ground (arith, append-nil (rebound ++ b'?' ∷ []))

  Runs-close :
      (c : ℕ) (name qs : Bytes)
      → is_name_byte c ≡ false
      → c ≢ colon
      → Runs (outside ((rebound ++ b'?' ∷ []) ++ c ∷ []) (names ++ name ∷ []) name) qs q
      → Runs (inside rebound names name) (c ∷ qs) q
  unfolding scan step
  Runs-close c name qs h ne k i previous = ground (arith, k (i + 1) (some c))

escape_byte : ℕ → Bytes → Bytes
escape_byte c s = if c == colon then colon ∷ colon ∷ s else c ∷ s

-- One byte of a text, doubled if it is `:`.
Runs-escape_byte :
    (c : ℕ) (rebound : Bytes) (names : List Bytes) (name qs : Bytes) (q : Stmt)
    → ((name : Bytes) → Runs (outside (rebound ++ c ∷ []) names name) qs q)
    → Runs (outside rebound names name) (escape_byte c qs) q
unfolding escape_byte
Runs-escape_byte c rebound names name qs q k = elim (Bool-cases (c == colon)) [
  | inl is_colon ↦
      let e : c ≡ colon = ground arith in
      rw is_colon (Runs-escaped rebound names q name qs (rw e at (k [])))
  | inr other ↦ rw other (Runs-byte rebound names q c name qs other (k name))
]

escape-append : (c : ℕ) (s qs : Bytes) → escape (c ∷ s) ++ qs ≡ escape_byte c (escape s ++ qs)
unfolding escape escape_byte
escape-append c s qs = ground arith

-- A text is copied with its `::` undone.
pub Runs-text :
    (s rebound : Bytes) (names : List Bytes) (name qs : Bytes) (q : Stmt)
    → ((name : Bytes) → Runs (outside (rebound ++ s) names name) qs q)
    → Runs (outside rebound names name) (escape s ++ qs) q
Runs-text [] rebound names name qs q k = unfold escape in rw (← append-nil rebound) (k name)
Runs-text (c ∷ s) rebound names name qs q k = rw escape-append (
    Runs-escape_byte c rebound names name _ q
      (λ m. Runs-text s (rebound ++ c ∷ []) names m qs q (λ l. rw append_assoc (k l))))

-- A name is read up to the byte that ends it.
pub Runs-delimited :
    (n rebound : Bytes) (names : List Bytes) (name : Bytes) (c : ℕ) (qs : Bytes) (q : Stmt)
    → IsName n
    → is_name_byte c ≡ false
    → c ≢ colon
    → Runs (outside ((rebound ++ b'?' ∷ []) ++ c ∷ []) (names ++ (name ++ n) ∷ []) (name ++ n)) qs q
    → Runs (inside rebound names name) (n ++ c ∷ qs) q
Runs-delimited [] rebound names name c qs q hn hc ne k =
    Runs-close rebound names q c name qs hc ne (rw append-nil at k)
Runs-delimited (m ∷ []) rebound names name c qs q (hm, hn) hc ne k =
    Runs-name_byte rebound names q m c name qs hm
      (Runs-close rebound names q c (name ++ m ∷ []) qs hc ne k)
Runs-delimited (m ∷ l ∷ n) rebound names name c qs q (hm, hn) hc ne k =
    Runs-name_byte rebound names q m l name (n ++ c ∷ qs) hm (
      Runs-delimited (l ∷ n) rebound names (name ++ m ∷ []) c qs q hn hc ne
        (rw (append_assoc name (m ∷ []) (l ∷ n)) k))

-- A name is read up to the end of the query.
pub Runs-final :
    (n rebound : Bytes) (names : List Bytes) (name : Bytes)
    → IsName n
    → EndsAllowed n
    → Runs
        (inside rebound names name)
        n
        (record { stmt = rebound ++ b'?' ∷ []; names = names ++ (name ++ n) ∷ [] })
Runs-final [] rebound names name hn h = absurd h
Runs-final (c ∷ []) rebound names name hn h = Runs-last rebound names _ c name h refl
Runs-final (c ∷ d ∷ n) rebound names name (hc, hn) h =
    Runs-name_byte rebound names _ c d name n hc (
      rw (← append_assoc name (c ∷ []) (d ∷ n))
        (Runs-final (d ∷ n) rebound names (name ++ c ∷ []) hn h))

pub Runs-open :
    (rebound : Bytes) (names : List Bytes) (name qs : Bytes) (q : Stmt)
    → Runs (inside rebound names []) qs q
    → Runs (outside rebound names name) (colon ∷ qs) q
unfolding scan step
Runs-open rebound names name qs q k i previous = k (i + 1) (some colon)
