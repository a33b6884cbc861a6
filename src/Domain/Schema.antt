-- ===== src/Domain/Schema.antt =====
-- src/invariantql/domain/schema.py: fields and schemas. `str.lower` is a parameter.
pub mod Resolve
use invariantql.Prelude.{
  Bool, List, Option, String, [], contains, if◌then◌else◌, map, none, select, some, ◌==◌, ◌∷◌,
}
use invariantql.Domain.Diagnostics.{Outcome, key_error, value_error}
use invariantql.Domain.Types.{DataType}
use invariantql.Prelude.Results.{err, ok, ◌>>◌}

pub record Field : Type 0 where
  pub name : String
  pub data_type : DataType
  pub nullable : Bool

pub record Schema : Type 0 where
  pub fields : List Field

-- The property `names`.
abbrev pub names : Schema → List String
names schema = map (λ (f : Field). f.name) schema.fields

-- The loop of `Schema.__post_init__` with its set `seen`.
unfoldable pub check_fields : List String → List Field → Outcome (Unit {0})
check_fields seen [] = ok tt
check_fields seen (f ∷ fs) =
    if contains f.name seen then err value_error else check_fields (f.name ∷ seen) fs

-- `Field(name, data_type, nullable)` and `Schema(fields)` with their checks.
unfoldable pub make_field : String → DataType → Bool → Outcome Field
make_field name t nullable =
    if name == ""
    then err value_error
    else ok (record { name = name; data_type = t; nullable = nullable })

unfoldable pub make_schema : List Field → Outcome Schema
unfolding check_fields
make_schema fields = check_fields [] fields >> ok (record { fields = fields })

-- `Schema.field`
unfoldable pub field : List Field → String → Outcome Field
field [] name = err (key_error name)
field (f ∷ fs) name = if f.name == name then ok f else field fs name

-- The first loop of `resolve`.
unfoldable pub exact : List Field → String → Option Field
exact [] name = none
exact (f ∷ fs) name = if f.name == name then some f else exact fs name

-- `matches[0]` if there is one match alone.
abbrev pub only {ℓ} : {A : Type ℓ} → List A → Option A
only (x ∷ []) = some x
only _ = none

module _ (lower : String → String) where
  unfoldable pub resolve : Schema → String → Option Field
  resolve schema name = elim (exact schema.fields name) [
    | some f ↦ some f
    | none ↦ only (select (λ f. lower f.name == lower name) schema.fields)
  ]
