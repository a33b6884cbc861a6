-- ===== src/Tests/Schema.antt =====
-- Runs of the properties of src/invariantql/domain/schema.py.
use invariantql.Prelude.{String, [], false, refl, some, true, ◌∷◌, ◌≡◌}
use invariantql.Domain.Schema.{Field, Schema, check_fields, field, make_schema, resolve}
use invariantql.Domain.Schema.Resolve.{resolve-field}
use invariantql.Domain.Types.{integer, string}
use invariantql.Prelude.Results.{ok}

abbrev upper_id : Field
upper_id = record { name = "ID"; data_type = integer 64; nullable = false }

abbrev lower_id : Field
lower_id = record { name = "id"; data_type = string; nullable = true }

abbrev both_ids : Schema
both_ids = record { fields = upper_id ∷ lower_id ∷ [] }

-- A lower-casing that gives both names the same text.
abbrev same_text : String → String
same_text name = "id"

resolve-field_example :
    (field both_ids.fields "id" ≡ ok lower_id) × (resolve same_text both_ids "id" ≡ some lower_id)
unfolding make_schema check_fields
resolve-field_example = resolve-field same_text both_ids (upper_id ∷ []) lower_id [] refl refl
