-- ===== src/NamedQuery/RoundTrip.antt =====
-- A template written with `:name` for its holes and `::` for `:` is compiled to its statement and
-- its names.
use cqlx.Common.{
  ℕ, Bytes, List, [], ◌∷◌, ◌++◌, true, false, none, ◌≡◌, ◌≢◌, refl, arith, append-nil, append_assoc,
}
use cqlx.NamedQuery.{ok, scan, compile_named_query, has_colon, is_name_byte, colon}
use cqlx.Qb.Emit.{Stmt}
use cqlx.Qb.Template.{text, hole, Template, render, holes, compile}
use cqlx.NamedQuery.Names.{IsName}
use cqlx.NamedQuery.Printing.{escape, print, IsPrintable, HasHole}
use cqlx.NamedQuery.Runs.{outside, Runs, Runs-text, Runs-delimited, Runs-final, Runs-open}

-- The statement and the names so far, with those of the template behind them.
abbrev onto : Bytes → List Bytes → Template → Stmt
onto rebound names t = record { stmt = rebound ++ render t; names = names ++ holes t }

escape-delimiter : (c : ℕ) (s : Bytes) → c ≢ colon → escape (c ∷ s) ≡ c ∷ escape s
unfolding escape
escape-delimiter c s h = ground arith

Runs-end :
    (rebound : Bytes) (names : List Bytes) (name : Bytes)
    → Runs (outside rebound names name) [] (onto rebound names [])
unfolding scan render holes
Runs-end rebound names name i previous = rw (append-nil rebound, append-nil names)

onto-text :
    (rebound : Bytes) (names : List Bytes) (s : Bytes) (t : Template)
    → onto (rebound ++ s) names t ≡ onto rebound names (text s ∷ t)
unfolding render holes
onto-text rebound names s t = rw (append_assoc rebound s (render t))

onto-hole :
    (rebound : Bytes) (names : List Bytes) (n : Bytes) (t : Template)
    → onto (rebound ++ b'?' ∷ []) (names ++ n ∷ []) t ≡ onto rebound names (hole n ∷ t)
unfolding render holes
onto-hole rebound names n t =
    rw (append_assoc rebound (b'?' ∷ []) (render t), append_assoc names (n ∷ []) (holes t))

-- A text, if the rest of the template runs.
Runs-piece :
    (s : Bytes) (t : Template) (rebound : Bytes) (names : List Bytes) (name : Bytes)
    → ((m : Bytes) → Runs (outside (rebound ++ s) names m) (print t) (onto (rebound ++ s) names t))
    → Runs (outside rebound names name) (escape s ++ print t) (onto rebound names (text s ∷ t))
Runs-piece s t rebound names name k =
    rw (← onto-text rebound names s t) (Runs-text s rebound names name (print t) _ k)

-- A hole and the text behind it, if the rest of the template runs.
Runs-hole :
    (n : Bytes) (c : ℕ) (s : Bytes) (t : Template) (rebound : Bytes) (names : List Bytes)
    (name : Bytes)
    → IsName n
    → is_name_byte c ≡ false
    → c ≢ colon
    → Runs
        (outside ((rebound ++ b'?' ∷ []) ++ c ∷ []) (names ++ n ∷ []) n)
        (escape s ++ print t)
        (onto ((rebound ++ b'?' ∷ []) ++ c ∷ []) (names ++ n ∷ []) (text s ∷ t))
    → Runs
        (outside rebound names name)
        (colon ∷ (n ++ (escape (c ∷ s) ++ print t)))
        (onto rebound names (hole n ∷ (text (c ∷ s) ∷ t)))
Runs-hole n c s t rebound names name hn hc ne k =
    rw
      (
        escape-delimiter c s ne,
        ← onto-hole rebound names n (text (c ∷ s) ∷ t),
        ← onto-text (rebound ++ b'?' ∷ []) (names ++ n ∷ []) (c ∷ s) t,
      )
      (Runs-open rebound names name _ _ (
        Runs-delimited n rebound names [] c (escape s ++ print t) _ hn hc ne (
          rw
            (
              ← append_assoc (rebound ++ b'?' ∷ []) (c ∷ []) s,
              onto-text ((rebound ++ b'?' ∷ []) ++ c ∷ []) (names ++ n ∷ []) s t,
            )
            k)))

Runs-print :
    (t : Template) (rebound : Bytes) (names : List Bytes) (name : Bytes)
    → IsPrintable t
    → Runs (outside rebound names name) (print t) (onto rebound names t)
unfolding print
Runs-print [] rebound names name p = Runs-end rebound names name
Runs-print (text s ∷ t) rebound names name p =
    Runs-piece s t rebound names name (λ m. Runs-print t (rebound ++ s) names m p)
Runs-print (hole n ∷ []) rebound names name (hn, hd, p) =
    rw append-nil (
      unfold render holes in Runs-open rebound names name n _ (Runs-final n rebound names [] hn hd))
Runs-print (hole n ∷ text [] ∷ t) rebound names name (hn, hd, p) = absurd hd
Runs-print (hole n ∷ hole m ∷ t) rebound names name (hn, hd, p) = absurd hd
Runs-print (hole n ∷ text (c ∷ s) ∷ t) rebound names name (hn, (hc, ne), p) =
    Runs-hole n c s t rebound names name hn hc ne (
      Runs-piece s t _ _ n
        (λ m. Runs-print t (((rebound ++ b'?' ∷ []) ++ c ∷ []) ++ s) (names ++ n ∷ []) m p))

has_colon-append : (s qs : Bytes) → has_colon qs ≡ true → has_colon (s ++ qs) ≡ true
unfolding has_colon
has_colon-append [] qs h = h
has_colon-append (c ∷ s) qs h = ground (arith, has_colon-append s qs h)

has_colon-print : (t : Template) → HasHole t → has_colon (print t) ≡ true
unfolding print
has_colon-print [] h = absurd h
has_colon-print (text s ∷ t) h = has_colon-append (escape s) (print t) (has_colon-print t h)
has_colon-print (hole n ∷ t) h = unfold has_colon in refl

-- A template with a hole, whose names are delimited, is compiled from its named form to its
-- statement and its names, whatever bytes its texts hold.
pub compile_named_query-print :
    (t : Template) → IsPrintable t → HasHole t → compile_named_query (print t) ≡ ok (compile t)
unfolding compile_named_query
compile_named_query-print t p h = rw (has_colon-print t h) (Runs-print t [] [] [] p 0 none)
