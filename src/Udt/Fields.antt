-- ===== src/Udt/Fields.antt =====
-- A user-defined type, written from one struct and read into another, field by field.
use cqlx.Common.{
  Bytes, List, [], ◌∷◌, All, false, Option, none, some, ◌≡◌, ◌≢◌, refl, sym, ap, ◌∙◌, subst,
}
use cqlx.Queryx.{lookup}
use cqlx.Udt.{UdtError, driver, Udt, marshal_udt, unmarshal_udt}
use mathlib.Core.Option

-- What the driver's `Marshal` and `Unmarshal` do: the bytes of a value, read to a place of the same
-- type, give the value there, nil bytes give the null of the place, and both change no other place.
pub record Codec {V I D E L : Type 0} (Same : V → V → Type 0) (load : V → D → L) (null : I → V → L)
    (marshal : I → V → D → Option Bytes × Option E)
    (unmarshal : I → Option Bytes → V → D → D × Option E) : Type 0 where
  pub reads :
      (i : I) (v v' : V) (d d' : D)
      → Same v v'
      → (marshal i v d).1 ≡ none
      → ((unmarshal i (marshal i v d).0 v' d').1 ≡ none)
        × (load v' (unmarshal i (marshal i v d).0 v' d').0 ≡ load v d)
  pub keeps :
      (i : I) (bytes : Option Bytes) (v' v'' : V) (d' : D)
      → v'' ≢ v'
      → load v'' (unmarshal i bytes v' d').0 ≡ load v'' d'
  pub nulls :
      (i : I) (v' : V) (d' : D)
      → ((unmarshal i none v' d').1 ≡ none) × (load v' (unmarshal i none v' d').0 ≡ null i v')

-- The first error ends the call.
unfoldable pub or_stop :
    {D E : Type 0} → D → Option (UdtError E) → D × Option (UdtError E) → D × Option (UdtError E)
or_stop d (some e) rest = (d, some e)
or_stop d none rest = rest

module _ {V I D E L : Type 0} (marshal : I → V → D → Option Bytes × Option E)
    (Same : V → V → Type 0) (load : V → D → L) (null : I → V → L) (u u' : Udt V) (before : D) where
  -- The places in the second struct that get a value, all different, each with that value: that of
  -- the field in the first, of the same type, or the null of the place where the first has no such
  -- field. A struct that lacks a field is not strict, and the driver writes those of the first.
  pub data Places : List (Bytes × I) → List (V × L) → Type 0 where
    end : Places [] []
    both :
        {name : Bytes} {info : I} {fields : List (Bytes × I)} {v v' : V} {places : List (V × L)}
        → lookup name u.field ≡ some v
        → lookup name u'.field ≡ some v'
        → Same v v'
        → (marshal info v before).1 ≡ none
        → All (λ p. p.0 ≢ v') places
        → Places fields places
        → Places ((name, info) ∷ fields) ((v', load v before) ∷ places)
    only_first :
        {name : Bytes} {info : I} {fields : List (Bytes × I)} {v : V} {places : List (V × L)}
        → lookup name u.field ≡ some v
        → (marshal info v before).1 ≡ none
        → u'.strict ≡ false
        → lookup name u'.field ≡ none
        → Places fields places
        → Places ((name, info) ∷ fields) places
    only_second :
        {name : Bytes} {info : I} {fields : List (Bytes × I)} {v' : V} {places : List (V × L)}
        → u.strict ≡ false
        → lookup name u.field ≡ none
        → lookup name u'.field ≡ some v'
        → All (λ p. p.0 ≢ v') places
        → Places fields places
        → Places ((name, info) ∷ fields) ((v', null info v') ∷ places)
    neither :
        {name : Bytes} {info : I} {fields : List (Bytes × I)} {places : List (V × L)}
        → u.strict ≡ false
        → lookup name u.field ≡ none
        → u'.strict ≡ false
        → lookup name u'.field ≡ none
        → Places fields places
        → Places ((name, info) ∷ fields) places

module _ {V I D E : Type 0} (marshal : I → V → D → Option Bytes × Option E)
    (unmarshal : I → Option Bytes → V → D → D × Option E) where
  -- The driver writes each field of a user-defined type from the one struct, as the memory is at first,
  -- and reads it into the other, up to the first error.
  unfoldable pub copy : Udt V → Udt V → D → List (Bytes × I) → D → D × Option (UdtError E)
  copy u u' before [] d = (d, none)
  copy u u' before ((name, info) ∷ fields) d =
      let (bytes, e) = marshal_udt marshal u name info before in
      let (d', e') = unmarshal_udt unmarshal u' name info bytes d in
      let rest = copy u u' before fields d' in or_stop d e (or_stop d' e' rest)

module _ {V I D E L : Type 0} (marshal : I → V → D → Option Bytes × Option E)
    (unmarshal : I → Option Bytes → V → D → D × Option E) (Same : V → V → Type 0) (load : V → D → L)
    (null : I → V → L) (codec : Codec Same load null marshal unmarshal) (u u' : Udt V)
    (before : D) where
  marshal_udt-field :
      (name : Bytes) (info : I) {v : V}
      → lookup name u.field ≡ some v
      → marshal_udt marshal u name info before
        ≡ ((marshal info v before).0, Option.map driver (marshal info v before).1)
  unfolding marshal_udt
  marshal_udt-field name info l = rw (l, marshal_udt) refl

  marshal_udt-missing :
      (name : Bytes) (info : I)
      → u.strict ≡ false
      → lookup name u.field ≡ none
      → marshal_udt marshal u name info before ≡ (none, none)
  unfolding marshal_udt
  marshal_udt-missing name info lax l = rw (l, lax, marshal_udt) refl

  unmarshal_udt-field :
      (name : Bytes) (info : I) (bytes : Option Bytes) (d : D) {v' : V}
      → lookup name u'.field ≡ some v'
      → unmarshal_udt unmarshal u' name info bytes d
        ≡ ((unmarshal info bytes v' d).0, Option.map driver (unmarshal info bytes v' d).1)
  unfolding unmarshal_udt
  unmarshal_udt-field name info bytes d l = rw (l, unmarshal_udt) refl

  unmarshal_udt-missing :
      (name : Bytes) (info : I) (bytes : Option Bytes) (d : D)
      → u'.strict ≡ false
      → lookup name u'.field ≡ none
      → unmarshal_udt unmarshal u' name info bytes d ≡ (d, none)
  unfolding unmarshal_udt
  unmarshal_udt-missing name info bytes d lax l = rw (l, lax, unmarshal_udt) refl

  copy-both :
      (name : Bytes) (info : I) (fields : List (Bytes × I)) (v v' : V) (d : D)
      → lookup name u.field ≡ some v
      → lookup name u'.field ≡ some v'
      → Same v v'
      → (marshal info v before).1 ≡ none
      → copy marshal unmarshal u u' before ((name, info) ∷ fields) d
        ≡ copy marshal unmarshal u u' before fields
            (unmarshal info (marshal info v before).0 v' d).0
  unfolding copy or_stop
  copy-both name info fields v v' d l l' same ok =
      let after : D × Option (UdtError E) → D × Option (UdtError E) =
        λ r. or_stop r.0 r.1 (copy marshal unmarshal u u' before fields r.0) in
      ap (λ m. or_stop d m.1 (after (unmarshal_udt unmarshal u' name info m.0 d)))
        (marshal_udt-field name info l)
      ∙ ap (λ r. or_stop d (Option.map driver (marshal info v before).1) (after r))
          (unmarshal_udt-field name info (marshal info v before).0 d l')
      ∙ rw ok (rw ((codec.reads info v v' before d same ok).0) refl)

  copy-skipped :
      (name : Bytes) (info : I) (fields : List (Bytes × I)) (d : D)
      → u'.strict ≡ false
      → lookup name u'.field ≡ none
      → (marshal_udt marshal u name info before).1 ≡ none
      → copy marshal unmarshal u u' before ((name, info) ∷ fields) d
        ≡ copy marshal unmarshal u u' before fields d
  unfolding copy or_stop
  copy-skipped name info fields d lax l ok =
      let m = marshal_udt marshal u name info before in
      let after : D × Option (UdtError E) → D × Option (UdtError E) =
        λ r. or_stop r.0 r.1 (copy marshal unmarshal u u' before fields r.0) in
      ap (λ e. or_stop d e (after (unmarshal_udt unmarshal u' name info m.0 d))) ok
      ∙ ap after (unmarshal_udt-missing name info m.0 d lax l)

  copy-second :
      (name : Bytes) (info : I) (fields : List (Bytes × I)) (v' : V) (d : D)
      → u.strict ≡ false
      → lookup name u.field ≡ none
      → lookup name u'.field ≡ some v'
      → copy marshal unmarshal u u' before ((name, info) ∷ fields) d
        ≡ copy marshal unmarshal u u' before fields (unmarshal info none v' d).0
  unfolding copy or_stop
  copy-second name info fields v' d lax l l' =
      let after : D × Option (UdtError E) → D × Option (UdtError E) =
        λ r. or_stop r.0 r.1 (copy marshal unmarshal u u' before fields r.0) in
      ap (λ m. or_stop d m.1 (after (unmarshal_udt unmarshal u' name info m.0 d)))
        (marshal_udt-missing name info lax l)
      ∙ ap after (unmarshal_udt-field name info none d l')
      ∙ rw ((codec.nulls info v' d).0) refl

  -- The copy of the fields gives each place its value, and changes no other.
  record Copied (places : List (V × L)) (d : D) (r : D × Option (UdtError E)) : Type 0 where
    clean : r.1 ≡ none
    each : All (λ p. load p.0 r.0 ≡ p.1) places
    others : (v : V) → All (λ p. p.0 ≢ v) places → load v r.0 ≡ load v d

  -- A field that was read into its place, in front of the others.
  Copied-read :
      {places : List (V × L)} {r : D × Option (UdtError E)} {x : L} (info : I)
      (bytes : Option Bytes) (v' : V) (d : D)
      → load v' (unmarshal info bytes v' d).0 ≡ x
      → All (λ p. p.0 ≢ v') places
      → Copied places (unmarshal info bytes v' d).0 r
      → Copied ((v', x) ∷ places) d r
  Copied-read info bytes v' d read fresh c = record {
    clean = c.clean;
    each = (c.others v' fresh ∙ read, c.each);
    others = λ v ne. c.others v (ne.1) ∙ codec.keeps info bytes v' v d (λ e. ne.0 (sym e));
  }

  copy-Copied :
      {fields : List (Bytes × I)} {places : List (V × L)}
      → Places marshal Same load null u u' before fields places
      → (d : D) → Copied places d (copy marshal unmarshal u u' before fields d)
  copy-Copied end d = record {
    clean = unfold copy in refl;
    each = tt;
    others = λ v ne. unfold copy in refl;
  }
  copy-Copied (both {name} {info} {fields} {v} {v'} {places} l l' same ok fresh rest) d =
      subst (Copied ((v', load v before) ∷ places) d)
        (sym (copy-both name info fields v v' d l l' same ok))
        (Copied-read info _ v' d ((codec.reads info v v' before d same ok).1) fresh
          (copy-Copied rest _))
  copy-Copied (only_first {name} {info} {fields} {v} {places} l ok lax l' rest) d =
      subst (Copied places d)
        (sym (
          copy-skipped name info fields d lax l'
            (ap (λ r. r.1) (marshal_udt-field name info l) ∙ ap (Option.map driver) ok)))
        (copy-Copied rest d)
  copy-Copied (only_second {name} {info} {fields} {v'} {places} lax l l' fresh rest) d =
      subst (Copied ((v', null info v') ∷ places) d)
        (sym (copy-second name info fields v' d lax l l'))
        (Copied-read info none v' d ((codec.nulls info v' d).1) fresh (copy-Copied rest _))
  copy-Copied (neither {name} {info} {fields} {places} lax l lax' l' rest) d =
      subst (Copied places d)
        (sym (
          copy-skipped name info fields d lax' l'
            (ap (λ r. r.1) (marshal_udt-missing name info lax l))))
        (copy-Copied rest d)

  -- A user-defined type is written from one struct and read into another without an error, if the
  -- driver writes every field of the first without one, and a struct that lacks a field is not
  -- strict. Each field that both have gets the value it had in the first; one that only the second
  -- has gets the null of its place; one that the second lacks is passed over. No other place changes.
  pub copy-Places :
      {fields : List (Bytes × I)} {places : List (V × L)}
      → Places marshal Same load null u u' before fields places
      → (d : D)
      → let (d', e) = copy marshal unmarshal u u' before fields d in
        (e ≡ none)
        × All (λ p. load p.0 d' ≡ p.1) places
        × ((v : V) → All (λ p. p.0 ≢ v) places → load v d' ≡ load v d)
  copy-Places places d = let c = copy-Copied places d in (c.clean, c.each, c.others)
