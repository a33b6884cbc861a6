-- ===== src/Domain/Schema/Resolve.antt =====
-- What `field` and `resolve` find, src/invariantql/domain/schema.py.
use invariantql.Prelude.{
  Bool, List, String, [], contains, eq_iff, false, refl, some, true, ◌++◌, ◌==◌, ◌||◌, ◌∷◌, ◌≡◌,
}
use invariantql.Domain.Diagnostics.{value_error}
use invariantql.Domain.Schema.{Field, Schema, check_fields, exact, field, make_schema, resolve}
use invariantql.Prelude.Results.{>>=-eq-ok, ok, raise_if-eq-ok}

or-eq-false : (a b : Bool) → (a || b) ≡ false → (a ≡ false) × (b ≡ false)
or-eq-false true b h = cc
or-eq-false false b h = (refl, h)

not_seen :
    (seen : List String) (before : List Field) (f : Field) (after : List Field)
    → check_fields seen (before ++ f ∷ after) ≡ ok tt
    → contains f.name seen ≡ false
unfolding check_fields
not_seen seen [] f after h = (raise_if-eq-ok (contains f.name seen) value_error h).0
not_seen seen (b ∷ before) f after h =
    let (_, rest) = raise_if-eq-ok (contains b.name seen) value_error h in
    (or-eq-false _ _ (not_seen (b.name ∷ seen) before f after rest)).1

found_field :
    (seen : List String) (before : List Field) (f : Field) (after : List Field)
    → check_fields seen (before ++ f ∷ after) ≡ ok tt
    → (field (before ++ f ∷ after) f.name ≡ ok f) × (exact (before ++ f ∷ after) f.name ≡ some f)
unfolding check_fields field exact
found_field seen [] f after h = rw ((eq_iff f.name f.name).1 refl) (refl, refl)
found_field seen (b ∷ before) f after h =
    let (_, rest) = raise_if-eq-ok (contains b.name seen) value_error h in
    let other = not_seen (b.name ∷ seen) before f after rest in
    let (left, _) = or-eq-false (b.name == f.name) (contains f.name seen) other in
    rw left (found_field (b.name ∷ seen) before f after rest)

-- In an accepted schema every field is found under its own name, by `field` and by `resolve`,
-- whatever names differ from it only by case.
pub resolve-field :
    (lower : String → String) (schema : Schema) (before : List Field) (f : Field)
    (after : List Field)
    → schema.fields ≡ before ++ f ∷ after
    → make_schema schema.fields ≡ ok schema
    → (field schema.fields f.name ≡ ok f) × (resolve lower schema f.name ≡ some f)
unfolding make_schema resolve
resolve-field lower schema before f after e h =
    let (_, checked, _) = >>=-eq-ok (check_fields [] schema.fields) _ h in
    let (here, found) = found_field [] before f after (rw e at checked) in
    rw e (here, rw (found, resolve))
