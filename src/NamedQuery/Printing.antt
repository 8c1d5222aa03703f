-- ===== src/NamedQuery/Printing.antt =====
-- Queries with named parameters as templates: what `CompileNamedQuery` is meant to read.
use cqlx.Common.{Bytes, [], ◌∷◌, ◌++◌, true, false, ◌==◌, if◌then◌else◌, ◌≡◌, ◌≢◌}
use cqlx.NamedQuery.{is_name_byte, allowed_bind_rune, colon}
use cqlx.Qb.Template.{text, hole, Template}
use cqlx.NamedQuery.Names.{IsName}

-- A text with every `:` doubled.
unfoldable pub escape : Bytes → Bytes
escape [] = []
escape (c ∷ s) = if c == colon then colon ∷ colon ∷ escape s else c ∷ escape s

-- The query that means a template.
unfoldable pub print : Template → Bytes
print [] = []
print (text s ∷ t) = escape s ++ print t
print (hole n ∷ t) = colon ∷ (n ++ print t)

-- The last byte is a letter or a digit.
abbrev pub EndsAllowed : Bytes → Type 0
EndsAllowed [] = ⊥
EndsAllowed (c ∷ []) = allowed_bind_rune c ≡ true
EndsAllowed (c ∷ d ∷ s) = EndsAllowed (d ∷ s)

-- What may follow the name of a hole: a byte of a text that is neither part of a name nor `:`, or
-- the end, if the name ends in a letter or a digit.
abbrev pub Delimits : Bytes → Template → Type 0
Delimits n [] = EndsAllowed n
Delimits n (text (c ∷ s) ∷ t) = (is_name_byte c ≡ false) × (c ≢ colon)
Delimits n (text [] ∷ t) = ⊥
Delimits n (hole m ∷ t) = ⊥

abbrev pub IsPrintable : Template → Type 0
IsPrintable [] = Unit
IsPrintable (text s ∷ t) = IsPrintable t
IsPrintable (hole n ∷ t) = IsName n × Delimits n t × IsPrintable t

-- Some part of the template is a hole.
abbrev pub HasHole : Template → Type 0
HasHole [] = ⊥
HasHole (text s ∷ t) = HasHole t
HasHole (hole n ∷ t) = Unit
