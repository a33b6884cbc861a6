-- ===== src/Application/Binding/Columns.antt =====
-- What a bound expression refers to, src/invariantql/application/binding.py.
use invariantql.Prelude.{
  Bool, Bool-cases, List, Option, String, [], all, ap, contains, eq_iff, false, if◌then◌else◌, inl,
  inr, map, none, or_right, refl, select, some, some-eq, true, ◌==◌, ◌||◌, ◌∙◌, ◌∷◌, ◌≡◌,
}
use invariantql.Domain.Diagnostics.{Outcome, Raised}
use invariantql.Domain.Expressions.{Expression, Expressions, column, literal}
use invariantql.Domain.Expressions.Walk.{walk, walk_all}
use invariantql.Domain.Schema.{Field, Schema, exact, names, only, resolve}
use invariantql.Domain.Types.{is_portable_type}
use invariantql.Prelude.Results.{Ensures, err, holds, ok, raised, ◌>>◌}

-- A column is spelled as a field of the schema, and a literal has a portable type.
abbrev pub is_bound_node : Schema → Expression → Bool
is_bound_node schema (column name) = contains name (names schema)
is_bound_node schema (literal l) = is_portable_type l.data_type
is_bound_node schema _ = true

abbrev pub IsBound : Schema → Expression → Type 0
IsBound schema e = all (walk e) (is_bound_node schema) ≡ true

abbrev pub AreBoundAll : Schema → Expressions → Type 0
AreBoundAll schema es = all (walk_all es) (is_bound_node schema) ≡ true

pub Ensures-then :
    {A : Type 0} {P : A → Type 0} (check : Outcome (Unit {0})) {r : Outcome A}
    → Ensures P r
    → Ensures P (check >> r)
Ensures-then (ok tt) h = h
Ensures-then (err e) h = raised

pub Ensures-unless :
    {A : Type 0} {P : A → Type 0} (b : Bool) (e : Raised) (a : A)
    → P a
    → Ensures P (if b then err e else ok a)
Ensures-unless true e a h = raised
Ensures-unless false e a h = holds h

pub Ensures-given :
    {A : Type 0} {P : A → Type 0} (b : Bool) (e : Raised) (a : A)
    → P a
    → Ensures P (if b then ok a else err e)
Ensures-given true e a h = holds h
Ensures-given false e a h = raised

here_of :
    (g f : Field) (gs : List Field)
    → g ≡ f
    → contains f.name (map (λ (x : Field). x.name) (g ∷ gs)) ≡ true
here_of g f gs h =
    ap (λ b. b || contains f.name (map (λ (x : Field). x.name) gs))
      ((eq_iff g.name f.name).1 (ap (λ (x : Field). x.name) h))

there_of :
    (g f : Field) (gs : List Field)
    → contains f.name (map (λ (x : Field). x.name) gs) ≡ true
    → contains f.name (map (λ (x : Field). x.name) (g ∷ gs)) ≡ true
there_of g f gs h = or_right (g.name == f.name) (contains f.name (map (λ (x : Field). x.name) gs)) h

only_of : (g : Field) (gs : List Field) (f : Field) → only (g ∷ gs) ≡ some f → g ≡ f
only_of g [] f h = cc
only_of g (x ∷ gs) f h = cc

contains-exact :
    (fields : List Field) (name : String) (f : Field)
    → exact fields name ≡ some f
    → contains f.name (map (λ (g : Field). g.name) fields) ≡ true
unfolding exact
contains-exact [] name f h = cc
contains-exact (g ∷ gs) name f h = elim (Bool-cases (g.name == name)) [
  | inl same ↦ here_of g f gs (some-eq (rw same at h))
  | inr other ↦ there_of g f gs (contains-exact gs name f (rw other at h))
]

contains-select :
    (p : Field → Bool) (fields : List Field) (f : Field)
    → only (select p fields) ≡ some f
    → contains f.name (map (λ (g : Field). g.name) fields) ≡ true
contains-select p [] f h = cc
contains-select p (g ∷ gs) f h = elim (Bool-cases (p g)) [
  | inl taken ↦ here_of g f gs (only_of g (select p gs) f (rw taken at h))
  | inr passed ↦ there_of g f gs (contains-select p gs f (rw passed at h))
]

found_of :
    (schema : Schema) (name : String) (f : Field) (p : Field → Bool) (o : Option Field)
    → exact schema.fields name ≡ o
    → (elim o [ some g ↦ some g | none ↦ only (select p schema.fields) ]) ≡ some f
    → contains f.name (names schema) ≡ true
found_of schema name f p none e h = contains-select p schema.fields f h
found_of schema name f p (some g) e h = contains-exact schema.fields name f (e ∙ h)

pub contains-resolve :
    (lower : String → String) (schema : Schema) (name : String) (f : Field)
    → resolve lower schema name ≡ some f
    → contains f.name (names schema) ≡ true
unfolding resolve
contains-resolve lower schema name f h =
    found_of schema name f (λ g. lower g.name == lower name) (exact schema.fields name) refl h
