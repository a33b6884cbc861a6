-- ===== src/Domain/Types.antt =====
-- src/invariantql/domain/types.py: the logical types, their constructors' checks, comparability,
-- portability and normalisation. `Unify` has the common type of two, `Dict` the dictionary form.
pub mod Unify
pub mod Dict
pub mod Equality
pub mod UnifyLaws
pub mod UnifyDigits
pub mod UnifyPortable
pub mod Normal
use invariantql.Prelude.{
  Bool, Option, String, eqb, if◌then◌else◌, leb, some, true, ℕ, ◌&&◌, ◌==◌, ◌||◌,
}
use invariantql.Domain.Diagnostics.{Outcome, value_error}
use invariantql.Prelude.Results.{guard, ok, ◌>>◌}

-- One constructor for each subclass of DataType. A struct holds pairs of a name and a type.
mutual
  pub data DataType : Type 0 where
    unknown null boolean : DataType
    integer : ℕ → DataType
    float : ℕ → DataType
    decimal : ℕ → ℕ → DataType
    string binary date : DataType
    timestamp : Option String → DataType
    list : DataType → DataType
    struct : StructFields → DataType

  pub data StructFields : Type 0 where
    no_fields : StructFields
    with_field : String → DataType → StructFields → StructFields

-- The class attribute `kind`.
abbrev pub kind : DataType → String
kind unknown = "unknown"
kind null = "null"
kind boolean = "boolean"
kind (integer _) = "integer"
kind (float _) = "float"
kind (decimal _ _) = "decimal"
kind string = "string"
kind binary = "binary"
kind date = "date"
kind (timestamp _) = "timestamp"
kind (list _) = "list"
kind (struct _) = "struct"

-- The `__post_init__` checks, as tests on the constructors' arguments.
abbrev pub integer_width : ℕ → Bool
integer_width bits = eqb bits 8 || eqb bits 16 || eqb bits 32 || eqb bits 64

abbrev pub float_width : ℕ → Bool
float_width bits = eqb bits 32 || eqb bits 64

abbrev pub decimal_shape : ℕ → ℕ → Bool
decimal_shape precision scale = leb 1 precision && leb precision 76 && leb scale precision

-- `IntegerType(bits)`, `FloatType(bits)` and `DecimalType(precision, scale)` with those checks.
abbrev pub integer_type : ℕ → Outcome DataType
integer_type bits = guard (integer_width bits) value_error >> ok (integer bits)

abbrev pub float_type : ℕ → Outcome DataType
float_type bits = guard (float_width bits) value_error >> ok (float bits)

abbrev pub decimal_type : ℕ → ℕ → Outcome DataType
decimal_type precision scale =
    guard (decimal_shape precision scale) value_error >> ok (decimal precision scale)

-- A type whose every part passed the checks of its constructor.
unfoldable mutual
  pub is_valid : DataType → Bool
  is_valid (integer bits) = integer_width bits
  is_valid (float bits) = float_width bits
  is_valid (decimal precision scale) = decimal_shape precision scale
  is_valid (list element) = is_valid element
  is_valid (struct fields) = is_valid_fields fields
  is_valid _ = true

  pub is_valid_fields : StructFields → Bool
  is_valid_fields no_fields = true
  is_valid_fields (with_field name t fields) = is_valid t && is_valid_fields fields

abbrev pub is_numeric : DataType → Bool
is_numeric t = kind t == "integer" || kind t == "float" || kind t == "decimal"

-- `kind in ("null", "unknown")`
abbrev pub is_open : DataType → Bool
is_open t = kind t == "null" || kind t == "unknown"

unfoldable pub is_comparable : DataType → DataType → Bool
is_comparable left right =
    if is_open left || is_open right
    then true
    else if is_numeric left && is_numeric right
    then true
    else kind left == kind right

abbrev pub portable_decimal_precision : ℕ
portable_decimal_precision = 38

unfoldable mutual
  pub is_portable_type : DataType → Bool
  is_portable_type (decimal precision scale) = leb precision portable_decimal_precision
  is_portable_type (list element) = is_portable_type element
  is_portable_type (struct fields) = are_portable fields
  is_portable_type _ = true

  pub are_portable : StructFields → Bool
  are_portable no_fields = true
  are_portable (with_field name t fields) = is_portable_type t && are_portable fields

unfoldable mutual
  pub normalise_portable_type : DataType → DataType
  normalise_portable_type (timestamp (some timezone)) = timestamp (some "UTC")
  normalise_portable_type (list element) = list (normalise_portable_type element)
  normalise_portable_type (struct fields) = struct (normalise_fields fields)
  normalise_portable_type t = t

  pub normalise_fields : StructFields → StructFields
  normalise_fields no_fields = no_fields
  normalise_fields (with_field name t fields) =
      with_field name (normalise_portable_type t) (normalise_fields fields)
