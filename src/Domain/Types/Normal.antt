-- ===== src/Domain/Types/Normal.antt =====
-- Portability and normalisation of src/invariantql/domain/types.py.
use invariantql.Prelude.{ap₂, refl, some, ◌&&◌, ◌≡◌}
use invariantql.Domain.Types.{
  DataType, StructFields, are_portable, is_portable_type, is_valid, is_valid_fields, list,
  no_fields, normalise_fields, normalise_portable_type, struct, timestamp, with_field,
}

-- No timestamp inside the type has a zone other than UTC.
unfoldable mutual
  pub HasOnlyUtc : DataType → Type 0
  HasOnlyUtc (timestamp (some timezone)) = timezone ≡ "UTC"
  HasOnlyUtc (list element) = HasOnlyUtc element
  HasOnlyUtc (struct fields) = HaveOnlyUtc fields
  HasOnlyUtc _ = Unit

  pub HaveOnlyUtc : StructFields → Type 0
  HaveOnlyUtc no_fields = Unit
  HaveOnlyUtc (with_field name t fields) = HasOnlyUtc t × HaveOnlyUtc fields

mutual
  unfolding normalise_portable_type HasOnlyUtc

  normalise-HasOnlyUtc : (t : DataType) → HasOnlyUtc (normalise_portable_type t)
  normalise-HasOnlyUtc (timestamp (some timezone)) = refl
  normalise-HasOnlyUtc (list element) = normalise-HasOnlyUtc element
  normalise-HasOnlyUtc (struct fields) = normalise_fields-HaveOnlyUtc fields
  normalise-HasOnlyUtc _ = tt

  normalise_fields-HaveOnlyUtc : (fs : StructFields) → HaveOnlyUtc (normalise_fields fs)
  normalise_fields-HaveOnlyUtc no_fields = tt
  normalise_fields-HaveOnlyUtc (with_field name t fields) =
      (normalise-HasOnlyUtc t, normalise_fields-HaveOnlyUtc fields)

mutual
  unfolding normalise_portable_type HasOnlyUtc

  normalise-eq_self : (t : DataType) → HasOnlyUtc t → normalise_portable_type t ≡ t
  normalise-eq_self (timestamp (some timezone)) h = rw h
  normalise-eq_self (list element) h = rw (normalise-eq_self element h)
  normalise-eq_self (struct fields) h = rw (normalise_fields-eq_self fields h)
  normalise-eq_self _ h = refl

  normalise_fields-eq_self : (fs : StructFields) → HaveOnlyUtc fs → normalise_fields fs ≡ fs
  normalise_fields-eq_self no_fields h = refl
  normalise_fields-eq_self (with_field name t fields) h =
      cc (normalise-eq_self t h.0, normalise_fields-eq_self fields h.1)

mutual
  unfolding normalise_portable_type is_portable_type is_valid

  is_portable-normalise :
      (t : DataType)
      → (is_portable_type (normalise_portable_type t) ≡ is_portable_type t)
        × (is_valid (normalise_portable_type t) ≡ is_valid t)
  is_portable-normalise (timestamp (some timezone)) = (refl, refl)
  is_portable-normalise (list element) = is_portable-normalise element
  is_portable-normalise (struct fields) = are_portable-normalise fields
  is_portable-normalise _ = (refl, refl)

  are_portable-normalise :
      (fs : StructFields)
      → (are_portable (normalise_fields fs) ≡ are_portable fs)
        × (is_valid_fields (normalise_fields fs) ≡ is_valid_fields fs)
  are_portable-normalise no_fields = (refl, refl)
  are_portable-normalise (with_field name t fields) =
      let (a, b) = is_portable-normalise t in
      let (c, d) = are_portable-normalise fields in (ap₂ ◌&&◌ a c, ap₂ ◌&&◌ b d)

-- Normalising leaves no time zone but UTC, a second time changes nothing, and neither the
-- portability nor the validity of the type changes.
pub normalise_portable_type_lem :
    (t : DataType)
    → HasOnlyUtc (normalise_portable_type t)
      × (normalise_portable_type (normalise_portable_type t) ≡ normalise_portable_type t)
      × (is_portable_type (normalise_portable_type t) ≡ is_portable_type t)
      × (is_valid (normalise_portable_type t) ≡ is_valid t)
normalise_portable_type_lem t = (
  normalise-HasOnlyUtc t,
  normalise-eq_self _ (normalise-HasOnlyUtc t),
  (is_portable-normalise t).0,
  (is_portable-normalise t).1,
)
