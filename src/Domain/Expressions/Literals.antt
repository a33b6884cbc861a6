-- ===== src/Domain/Expressions/Literals.antt =====
-- Literal values and their types, src/invariantql/domain/expressions.py.
use invariantql.Prelude.{
  Bool, List, Option, String, all, arith, beq, eqb, false, if◌then◌else◌, is_some, leb, length, ltb,
  max, none, refl, some, suc, true, ℕ, ◌%◌, ◌&&◌, ◌+◌, ◌-◌, ◌/◌, ◌^◌, ◌||◌, ◌≡◌,
}
use invariantql.Domain.Diagnostics.{Outcome, value_error}
use invariantql.Domain.Types.{
  DataType, binary, boolean, decimal_shape, decimal_type, integer, is_valid, string, timestamp,
}
use invariantql.Prelude.Int.{negsuc, pos, within, ℤ}
use invariantql.Prelude.Results.{>>=-eq-ok, err, guard, ok, ◌>>=◌, ◌>>◌}

-- decimal.Decimal by its `as_tuple()`: the sign, the digits, and the exponent, which is no number
-- for an infinity or a NaN.
pub record Decimal : Type 0 where
  pub negative : Bool
  pub digits : List ℕ
  pub exponent : Option ℤ

pub record Date : Type 0 where
  pub year : ℕ
  pub month : ℕ
  pub day : ℕ

-- What the program asks of a `tzinfo`: `tzname(value)` and `utcoffset(value)`, in seconds.
pub record Zone : Type 0 where
  pub name : Option String
  pub offset : Option ℤ

-- `time` counts the microseconds of the day.
pub record DateTime : Type 0 where
  pub day : Date
  pub time : ℕ
  pub zone : Option Zone

-- LiteralValue. A float is given by the 64 bits of an IEEE double, bytes by their values.
pub data LiteralValue : Type 0 where
  null : LiteralValue
  bool : Bool → LiteralValue
  int : ℤ → LiteralValue
  float : ℕ → LiteralValue
  text : String → LiteralValue
  bytes : List ℕ → LiteralValue
  decimal : Decimal → LiteralValue
  date : Date → LiteralValue
  datetime : DateTime → LiteralValue

pub record Literal : Type 0 where
  pub value : LiteralValue
  pub data_type : DataType

-- `math.isfinite`: the exponent's eleven bits are not all ones.
abbrev pub is_finite_float : ℕ → Bool
is_finite_float bits = if eqb (bits / 2 ^ 52 % 2 ^ 11) 2047 then false else true

-- `abs(value) <= 3.4028234663852886e38` on a finite double: without the sign bit the order of the
-- bits is the order of the values, and 0x47EFFFFFE0000000 are the bits of that constant.
abbrev pub fits_float32 : ℕ → Bool
fits_float32 bits = leb (bits % 2 ^ 63) 0x47EFFFFFE0000000

-- `max(-exponent, 0)` and `max(exponent, 0)`
abbrev pub fraction_digits : ℤ → ℕ
fraction_digits (pos n) = 0
fraction_digits (negsuc n) = suc n

abbrev pub trailing_zeros : ℤ → ℕ
trailing_zeros (pos n) = n
trailing_zeros (negsuc n) = 0

-- `_decimal_shape`: the precision and the scale.
unfoldable pub decimal_shape_of : Decimal → Outcome (ℕ × ℕ)
decimal_shape_of value = elim value.exponent [
  | none ↦ err value_error
  | some exponent ↦
      let scale = fraction_digits exponent in
      let precision = max (max (length value.digits + trailing_zeros exponent) scale) 1 in
      if ltb 76 precision || ltb 76 scale then err value_error else ok (precision, scale)
]

-- `value.is_zero()` on a finite decimal.
abbrev pub is_zero : Decimal → Bool
is_zero value = all value.digits (λ d. eqb d 0)

unfoldable pub validate_literal_value : LiteralValue → Outcome (Unit {0})
validate_literal_value (int value) = guard (within (2 ^ 63) (2 ^ 63 - 1) value) value_error
validate_literal_value (float value) = guard (is_finite_float value) value_error
validate_literal_value (decimal value) = decimal_shape_of value >>= λ _. ok tt
validate_literal_value _ = ok tt

-- `value.tzinfo.tzname(value) if value.tzinfo is not None else None`
abbrev pub zone_name : DateTime → Option String
zone_name value = elim value.zone [ none ↦ none | some zone ↦ zone.name ]

-- `value.tzinfo is not None and value.utcoffset() is not None`
abbrev pub is_aware : DateTime → Bool
is_aware value = elim value.zone [ none ↦ false | some zone ↦ is_some zone.offset ]

unfoldable pub type_of_value : LiteralValue → Outcome DataType
type_of_value null = ok DataType.null
type_of_value (bool _) = ok boolean
type_of_value (int _) = ok (integer 64)
type_of_value (float _) = ok (DataType.float 64)
type_of_value (decimal value) = do
  (precision, scale) ← decimal_shape_of value
  decimal_type precision scale
type_of_value (text _) = ok string
type_of_value (bytes _) = ok binary
type_of_value (datetime value) = ok (timestamp (zone_name value))
type_of_value (date _) = ok DataType.date

unfoldable pub infer_literal_type : LiteralValue → Outcome DataType
infer_literal_type value = validate_literal_value value >> type_of_value value

-- The variable `valid` of `_validate_literal_data_type`.
unfoldable pub is_representable : LiteralValue → DataType → Outcome Bool
is_representable null t = ok true
is_representable (bool _) boolean = ok true
is_representable (int value) (integer bits) =
    ok (within (2 ^ (bits - 1)) (2 ^ (bits - 1) - 1) value)
is_representable (float value) (DataType.float bits) = ok (eqb bits 64 || fits_float32 value)
is_representable (decimal value) (DataType.decimal precision scale) = do
  (digits, places) ← decimal_shape_of value
  let integral = if is_zero value then 0 else digits - places
  ok (leb places scale && leb integral (precision - scale))
is_representable (text _) string = ok true
is_representable (bytes _) binary = ok true
is_representable (datetime value) (timestamp zone) = ok (beq (is_aware value) (is_some zone))
is_representable (date _) DataType.date = ok true
is_representable _ _ = ok false

unfoldable pub validate_literal_data_type : LiteralValue → DataType → Outcome (Unit {0})
validate_literal_data_type value t = do valid ← is_representable value t; guard valid value_error

-- `Literal(value, data_type)` with its checks.
unfoldable pub make_literal : LiteralValue → DataType → Outcome Literal
make_literal value t =
    validate_literal_value value
    >> (validate_literal_data_type value t >> ok (record { value = value; data_type = t }))

-- `Literal.of`
unfoldable pub literal_of : LiteralValue → Outcome Literal
literal_of value = do t ← infer_literal_type value; make_literal value t

-- A datetime whose zone has a name exactly when it has an offset.
abbrev pub HasNamedZone : LiteralValue → Type 0
HasNamedZone (datetime value) = is_aware value ≡ is_some (zone_name value)
HasNamedZone _ = Unit

decimal_shape_of_bounds :
    (d : Decimal) (p s : ℕ) → decimal_shape_of d ≡ ok (p, s) → decimal_shape p s ≡ true
unfolding decimal_shape_of
decimal_shape_of_bounds d p s h = ground arith

-- `Literal.of` accepts every value that passes `_validate_literal_value`, with a type that is
-- valid, provided that a datetime's zone has a name exactly when it has an offset.
pub literal_of_total :
    (value : LiteralValue)
    → HasNamedZone value
    → validate_literal_value value ≡ ok tt
    → (t : DataType) × (literal_of value ≡ ok (record { value = value; data_type = t }))
      × (is_valid t ≡ true)
unfolding literal_of infer_literal_type validate_literal_value type_of_value make_literal
    validate_literal_data_type is_representable is_valid
literal_of_total null z h = (DataType.null, refl, refl)
literal_of_total (bool b) z h = (boolean, refl, refl)
literal_of_total (int n) z h = (integer 64, ground arith, refl)
literal_of_total (float bits) z h = (DataType.float 64, ground arith, refl)
literal_of_total (text s) z h = (string, refl, refl)
literal_of_total (bytes b) z h = (binary, refl, refl)
literal_of_total (decimal d) z h =
    let ((p, s), shape, _) = >>=-eq-ok (decimal_shape_of d) _ h in
    let sound = decimal_shape_of_bounds d p s shape in
    (DataType.decimal p s, rw (shape, sound) (ground arith), sound)
literal_of_total (date d) z h = (DataType.date, refl, refl)
literal_of_total (datetime d) z h = (timestamp (zone_name d), ground arith, refl)
