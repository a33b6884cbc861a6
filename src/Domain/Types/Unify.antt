-- ===== src/Domain/Types/Unify.antt =====
-- `unify` of src/invariantql/domain/types.py, with the helpers on exact decimals.
use invariantql.Prelude.{
  ℕ, ◌+◌, ◌-◌, max, String, Bool, true, false, not, ◌&&◌, ◌||◌, Option, none, some, ◌==◌, ltb, leb,
  eqb, if◌then◌else◌, is_some,
}
use invariantql.Prelude.Results.{ok, err, ◌>>=◌}
use invariantql.Domain.Diagnostics.{Outcome, value_error, type_error, int_key_error}
use invariantql.Domain.Types.{
  DataType, unknown, null, integer, float, decimal, kind, is_open, is_numeric, integer_type,
  float_type, decimal_type, portable_decimal_precision,
}
use invariantql.Domain.Types.Equality.{type_eq}

-- The arithmetic operators, as the domain's ArithmeticOp spells them.
pub data Operation : Type 0 where
  add sub mul div : Operation

-- `operation not in (None, "+", "-", "*", "/")` raises.
abbrev pub operation_of : Option String → Outcome (Option Operation)
operation_of none = ok none
operation_of (some text) =
    if text == "+"
    then ok (some add)
    else if text == "-"
    then ok (some sub)
    else if text == "*"
    then ok (some mul)
    else if text == "/"
    then ok (some div)
    else err value_error

-- The digits that hold an integer of the given width. A width that the constructor refuses has
-- no entry (Python's KeyError).
unfoldable pub integer_digits : ℕ → Outcome ℕ
integer_digits bits =
    if eqb bits 8
    then ok 3
    else if eqb bits 16
    then ok 5
    else if eqb bits 32
    then ok 10
    else if eqb bits 64
    then ok 19
    else err (int_key_error bits)

-- `_as_decimal`: the precision and the scale.
unfoldable pub as_decimal : DataType → Outcome (ℕ × ℕ)
as_decimal (decimal precision scale) = ok (precision, scale)
as_decimal (integer bits) = do digits ← integer_digits bits; ok (digits, 0)
as_decimal _ = err type_error

-- `_bounded_decimal`; `max(…, 0)` of a natural number is the number.
unfoldable pub bounded_decimal : ℕ → ℕ → ℕ → Outcome DataType
bounded_decimal integral scale maximum =
    if ltb maximum integral
    then err value_error
    else if leb (integral + scale) maximum
    then decimal_type (max (integral + scale) 1) scale
    else decimal_type maximum (maximum - integral)

abbrev pub result_scale : Option Operation → ℕ → ℕ → ℕ
result_scale (some mul) s t = s + t
result_scale _ s t = max s t

abbrev pub result_integral : Option Operation → ℕ → ℕ → ℕ
result_integral (some mul) i j = i + j + 1
result_integral none i j = max i j
result_integral _ i j = max i j + 1

abbrev pub maximum_digits : Option Operation → ℕ
maximum_digits op = if is_some op then portable_decimal_precision else 76

-- The last part of `unify`: the checks on the digits that the result needs.
unfoldable pub decimal_result : ℕ → ℕ → Option Operation → Outcome DataType
unfolding bounded_decimal
decimal_result integral scale op =
    let maximum = maximum_digits op in
    if ltb maximum integral
    then err value_error
    else if is_some op && ltb maximum (integral + scale)
    then err value_error
    else bounded_decimal integral scale maximum

-- The shapes of two exact operands give the digits of the result.
unfoldable pub unify_decimals : ℕ × ℕ → ℕ × ℕ → Option Operation → Outcome DataType
unify_decimals (p, s) (q, t) op =
    decimal_result (result_integral op (p - s) (q - t)) (result_scale op s t) op

-- Two numeric operands.
unfoldable pub unify_numeric : DataType → DataType → Option Operation → Outcome DataType
unify_numeric (float a) (float b) op = float_type (max a b)
unify_numeric (float a) right op = float_type 64
unify_numeric left (float b) op = float_type 64
unify_numeric (integer a) (integer b) op = integer_type (if is_some op then 64 else max a b)
unify_numeric left right op = do l ← as_decimal left; r ← as_decimal right; unify_decimals l r op

-- Two types neither of which is null or unknown.
unfoldable pub unify_concrete : DataType → DataType → Option Operation → Outcome DataType
unify_concrete left right op =
    if not (is_numeric left && is_numeric right)
    then ok (if type_eq left right then left else unknown)
    else unify_numeric left right op

abbrev pub is_div : Option Operation → Bool
is_div (some div) = true
is_div _ = false

-- `unify` behind the check of its `operation` argument.
unfoldable pub unify_checked : DataType → DataType → Option Operation → Outcome DataType
unify_checked left right op =
    if is_div op
    then float_type 64
    else if is_some op && (kind left == "unknown" || kind right == "unknown")
    then ok unknown
    else if is_open left && is_open right
    then ok (if kind left == "unknown" || kind right == "unknown" then unknown else null)
    else if is_open left
    then ok right
    else if is_open right
    then ok left
    else unify_concrete left right op

unfoldable pub unify : DataType → DataType → Option String → Outcome DataType
unify left right operation = do op ← operation_of operation; unify_checked left right op
