-- ===== src/Queryx/Bound.antt =====
-- What the arguments are that a struct or a map gives for the names of a query.
use cqlx.Common.{
  suc, Bytes, List, [], ◌∷◌, ◌++◌, All, Option, none, some, length, ◌≡◌, refl, sym, ap, ◌∙◌,
  append-nil, append_assoc, ◌⊎◌, inl, inr,
}
use cqlx.Queryx.{Any, BindError, not_found, Args, Transformer, lookup, transform, bind_map_from}

-- The outer `none` of `look` is a panic, the inner a name without a value.
module _ {S : Type 0} (tr : Option (Transformer S)) (look : Bytes → Option (Option (Any S))) where
  -- The names are bound in order, each to its value behind the transformer, up to the first that
  -- has none, which the error names.
  pub data Binds : List Bytes → List (Any S) → Option BindError → Type 0 where
    all_bound : Binds [] [] none
    bound :
        {name : Bytes} {val val' : Any S} {names : List Bytes} {args : List (Any S)}
        {e : Option BindError}
        → look name ≡ some (some val)
        → transform tr name val ≡ some val'
        → Binds names args e
        → Binds (name ∷ names) (val' ∷ args) e
    missing :
        {name : Bytes} {names : List Bytes}
        → look name ≡ some none
        → Binds (name ∷ names) [] (some (not_found name))

  -- Neither looking a name up nor the transformer of its value panics.
  pub data Returns (name : Bytes) : Type 0 where
    found :
        {val val' : Any S}
        → look name ≡ some (some val)
        → transform tr name val ≡ some val'
        → Returns name
    absent : look name ≡ some none → Returns name

  -- As many arguments as names, where there is no error.
  pub Binds-length :
      {names : List Bytes} {args : List (Any S)} {e : Option BindError}
      → Binds names args e
      → e ≡ none
      → length args ≡ length names
  Binds-length all_bound h = refl
  Binds-length (bound l t b) h = ap suc (Binds-length b h)
  Binds-length (missing l) h = cc

  pub Returns-Binds : (names : List Bytes) → All Returns names → (r : Args S) × Binds names r.0 r.1
  Returns-Binds [] hs = (([], none), all_bound)
  Returns-Binds (name ∷ names) (found {val} {val'} l t, hs) =
      let (r, b) = Returns-Binds names hs in ((val' ∷ r.0, r.1), bound l t b)
  Returns-Binds (name ∷ names) (absent l, hs) = (([], some (not_found name)), missing l)

pub Option-cases {ℓ} : {A : Type ℓ} (o : Option A) → (o ≡ none) ⊎ ((a : A) × (o ≡ some a))
Option-cases none = inl refl
Option-cases (some a) = inr (a, refl)

module _ {S : Type 0} (tr : Option (Transformer S)) (arg : List (Bytes × Any S)) where
  -- Looking a name up in a map does not panic.
  abbrev pub entry : Bytes → Option (Option (Any S))
  entry name = some (lookup name arg)

  -- The map has a value for the name, for which the transformer returns one.
  abbrev pub Given : Bytes → Type 0
  Given name =
      (val : Any S) × (val' : Any S) × (lookup name arg ≡ some val)
      × (transform tr name val ≡ some val')

  pub Given-Binds :
      (names : List Bytes)
      → All Given names
      → (args : List (Any S)) × Binds tr entry names args none
  Given-Binds [] hs = ([], all_bound)
  Given-Binds (name ∷ names) ((val, val', l, t), hs) =
      let (args, b) = Given-Binds names hs in (val' ∷ args, bound (ap some l) t b)

  pub Given-missing :
      (before after : List Bytes) (name : Bytes)
      → All Given before
      → lookup name arg ≡ none
      → (args : List (Any S)) × Binds tr entry (before ++ name ∷ after) args (some (not_found name))
  Given-missing [] after name hs l = ([], missing (ap some l))
  Given-missing (n ∷ before) after name ((val, val', h, t), hs) l =
      let (args, b) = Given-missing before after name hs l in (val' ∷ args, bound (ap some h) t b)

  -- The loop of `bindMapArgs` adds what the names are bound to behind the arguments that it has.
  pub bind_map_from-Binds :
      {names : List Bytes} {args : List (Any S)} {e : Option BindError}
      → Binds tr entry names args e
      → (arglist : List (Any S)) → bind_map_from tr arg names arglist ≡ some (arglist ++ args, e)
  unfolding bind_map_from
  bind_map_from-Binds all_bound arglist = ap (λ a. some (a, none)) (sym (append-nil arglist))
  bind_map_from-Binds (bound {name} {val} {val'} {names} {args} {e} l t b) arglist =
      let l' : lookup name arg ≡ some val = cc in
      rw (l', bind_map_from)
        (rw (t, bind_map_from)
          (bind_map_from-Binds b (arglist ++ val' ∷ [])
            ∙ ap (λ a. some (a, e)) (append_assoc arglist (val' ∷ []) args)))
  bind_map_from-Binds (missing {name} l) arglist =
      let l' : lookup name arg ≡ none = cc in
      rw (l', bind_map_from) (ap (λ a. some (a, some (not_found name))) (sym (append-nil arglist)))
