-- ===== src/Domain/Types/UnifyPortable.antt =====
-- What `unify` of src/invariantql/domain/types.py returns is valid, and portable for portable
-- operands of an arithmetic operation.
use invariantql.Prelude.{
  Bool, Bool-cases, Option, String, arith, false, if◌then◌else◌, inl, inr, is_some, leb, ltb, max,
  none, not, refl, some, subst, true, ℕ, ◌&&◌, ◌+◌, ◌-◌, ◌==◌, ◌||◌, ◌≡◌, ◌≤◌,
}
use invariantql.Domain.Diagnostics.{value_error}
use invariantql.Domain.Types.{
  DataType, decimal_type, float, float_type, integer, integer_type, is_numeric, is_open,
  is_portable_type, is_valid, kind, null, unknown,
}
use invariantql.Domain.Types.Equality.{type_eq}
use invariantql.Domain.Types.Unify.{
  Operation, as_decimal, bounded_decimal, decimal_result, is_div, maximum_digits, operation_of,
  unify, unify_checked, unify_concrete, unify_decimals, unify_numeric,
}
use invariantql.Prelude.Results.{
  >>=-eq-ok, Ensures-if, Ensures-of_eq, Ensures-ok, guard-eq-ok, holds, ok, raise_if-eq-ok,
}

-- A returned type has passed its constructor, and an arithmetic result fits the 38 digits.
abbrev IsSound : Option Operation → DataType → Type 0
IsSound none t = is_valid t ≡ true
IsSound (some o) t = (is_valid t ≡ true) × (is_portable_type t ≡ true)

module _ (op : Option Operation) where
  integer_type-IsSound : (bits : ℕ) (t : DataType) → integer_type bits ≡ ok t → IsSound op t
  unfolding is_valid is_portable_type
  integer_type-IsSound bits t h =
      let (checked, same) = guard-eq-ok value_error h in subst (IsSound op) same (ground arith)

  float_type-IsSound : (bits : ℕ) (t : DataType) → float_type bits ≡ ok t → IsSound op t
  unfolding is_valid is_portable_type
  float_type-IsSound bits t h =
      let (checked, same) = guard-eq-ok value_error h in subst (IsSound op) same (ground arith)

decimal_type-IsSound :
    (op : Option Operation) (p s : ℕ) (t : DataType)
    → p ≤ maximum_digits op
    → decimal_type p s ≡ ok t
    → IsSound op t
unfolding is_valid is_portable_type
decimal_type-IsSound op p s t fits h =
    let (checked, same) = guard-eq-ok value_error h in subst (IsSound op) same (ground arith)

bounded_decimal-IsSound :
    (op : Option Operation) (integral scale : ℕ) (t : DataType)
    → bounded_decimal integral scale (maximum_digits op) ≡ ok t
    → IsSound op t
unfolding bounded_decimal
bounded_decimal-IsSound op integral scale t h =
    let m = maximum_digits op in
    let (small, rest) = raise_if-eq-ok (ltb m integral) value_error h in
    elim (Bool-cases (leb (integral + scale) m)) [
      | inl e ↦
          decimal_type-IsSound op (max (integral + scale) 1) scale t (ground arith) (rw e at rest)
      | inr e ↦ decimal_type-IsSound op m (m - integral) t (omega arith) (rw e at rest)
    ]

decimal_result-IsSound :
    (op : Option Operation) (integral scale : ℕ) (t : DataType)
    → decimal_result integral scale op ≡ ok t
    → IsSound op t
unfolding decimal_result
decimal_result-IsSound op integral scale t h =
    let (_, rest) = raise_if-eq-ok _ value_error h in
    let (_, last) = raise_if-eq-ok _ value_error rest in
    bounded_decimal-IsSound op integral scale t last

unify_numeric-IsSound :
    (l r : DataType) (op : Option Operation) (t : DataType)
    → unify_numeric l r op ≡ ok t
    → IsSound op t
unfolding unify_numeric unify_decimals
unify_numeric-IsSound (float a) (float b) op t h = float_type-IsSound op (max a b) t h
unify_numeric-IsSound (float a) _ op t h = float_type-IsSound op 64 t h
unify_numeric-IsSound _ (float b) op t h = float_type-IsSound op 64 t h
unify_numeric-IsSound (integer a) (integer b) op t h =
    integer_type-IsSound op (if is_some op then 64 else max a b) t h
unify_numeric-IsSound l r op t h =
    let (x, _, more) = >>=-eq-ok (as_decimal l) _ h in
    let (y, _, last) = >>=-eq-ok (as_decimal r) _ more in decimal_result-IsSound op _ _ t last

unify_concrete-IsSound :
    (l r : DataType) (op : Option Operation) (t : DataType)
    → IsSound op l
    → IsSound op unknown
    → unify_concrete l r op ≡ ok t
    → IsSound op t
unfolding unify_concrete
unify_concrete-IsSound l r op t hl hu h = elim (Bool-cases (not (is_numeric l && is_numeric r))) [
  | inl e ↦ elim (Bool-cases (type_eq l r)) [
    | inl s ↦ subst (IsSound op) (cc (rw (e, s) at h)) hl
    | inr s ↦ subst (IsSound op) (cc (rw (e, s) at h)) hu
  ]
  | inr e ↦ unify_numeric-IsSound l r op t (rw e at h)
]

IsSound-unknown : (op : Option Operation) → IsSound op unknown
unfolding is_valid is_portable_type
IsSound-unknown op = ground arith

IsSound-null : (op : Option Operation) → IsSound op null
unfolding is_valid is_portable_type
IsSound-null op = ground arith

IsSound-open : (op : Option Operation) (b : Bool) → IsSound op (if b then unknown else null)
IsSound-open op true = IsSound-unknown op
IsSound-open op false = IsSound-null op

-- A given operation is one of the four, or `unify` raises.
operation_of-some :
    (text : String) (op : Option Operation)
    → operation_of (some text) ≡ ok op
    → (o : Operation) × (op ≡ some o)
operation_of-some text (some o) h = (o, refl)
operation_of-some text none h = ground arith

module _ (l r : DataType) (op : Option Operation) (t : DataType) where
  unify_checked-IsSound : IsSound op l → IsSound op r → unify_checked l r op ≡ ok t → IsSound op t
  unfolding unify_checked
  unify_checked-IsSound hl hr h =
      let either_unknown = kind l == "unknown" || kind r == "unknown" in
      Ensures-ok
        (Ensures-if (is_div op) (λ _. Ensures-of_eq (float_type 64) (float_type-IsSound op 64))
          λ _.
            Ensures-if (is_some op && either_unknown) (λ _. holds (IsSound-unknown op))
              λ _.
                Ensures-if (is_open l && is_open r) (λ _. holds (IsSound-open op either_unknown))
                  λ _.
                    Ensures-if (is_open l) (λ _. holds hr)
                      λ _.
                        Ensures-if (is_open r) (λ _. holds hl)
                          λ _.
                            Ensures-of_eq (unify_concrete l r op)
                              λ a. unify_concrete-IsSound l r op a hl (IsSound-unknown op))
        h

-- With an operation, whatever `unify` returns for valid and portable operands is a valid and
-- portable type: no decimal in it has more than 38 digits.
pub unify-is_portable :
    (l r t : DataType) (text : String)
    → is_valid l ≡ true
    → is_valid r ≡ true
    → is_portable_type l ≡ true
    → is_portable_type r ≡ true
    → unify l r (some text) ≡ ok t
    → (is_valid t ≡ true) × (is_portable_type t ≡ true)
unfolding unify
unify-is_portable l r t text vl vr pl pr h =
    let (op, parsed, rest) = >>=-eq-ok (operation_of (some text)) _ h in
    let (o, given) = operation_of-some text op parsed in
    unify_checked-IsSound l r (some o) t (vl, pl) (vr, pr) (rw given at rest)
