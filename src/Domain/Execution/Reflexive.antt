-- ===== src/Domain/Execution/Reflexive.antt =====
-- Python's `==` on expressions is reflexive where that of the literal values is.
use invariantql.Prelude.{
  Bool, List, Option, String, [], beq, eq_iff, false, none, refl, some, true, ◌==◌, ◌∷◌, ◌≡◌,
}
use invariantql.Domain.Execution.{list_eq, names_eq, option_eq}
use invariantql.Domain.Execution.Equality.{comparison_eq, expression_eq, expressions_eq}
use invariantql.Domain.Expressions.{
  ComparisonOp, Expression, Expressions, alias, and, arithmetic, column, comparison, cons, eq,
  is_in, is_null, like, literal, nil, not, operation_value, or, parameter,
}
use invariantql.Domain.Expressions.Literals.{LiteralValue}
use invariantql.Domain.Schema.{names}
use invariantql.Domain.Types.{DataType}
use invariantql.Domain.Types.Equality.{type_eq, type_eq_iff}

text_eq_refl : (a : String) → (a == a) ≡ true
text_eq_refl a = (eq_iff a a).1 refl

beq_refl : (b : Bool) → beq b b ≡ true
beq_refl true = refl
beq_refl false = refl

comparison_eq_refl : (o : ComparisonOp) → comparison_eq o o ≡ true
comparison_eq_refl eq = refl
comparison_eq_refl _ = refl

type_eq_refl : (t : DataType) → type_eq t t ≡ true
type_eq_refl t = (type_eq_iff t t).1 refl

pub names_eq_refl : (names : List String) → names_eq names names ≡ true
names_eq_refl [] = refl
names_eq_refl (n ∷ names) = rw (text_eq_refl n) (names_eq_refl names)

pub option_eq_refl {ℓ} :
    {A : Type ℓ} (equal : A → A → Bool)
    → ((a : A) → equal a a ≡ true)
    → (o : Option A) → option_eq equal o o ≡ true
option_eq_refl equal h none = refl
option_eq_refl equal h (some a) = h a

module _ (value_eq : LiteralValue → LiteralValue → Bool)
    (same_value : (v : LiteralValue) → value_eq v v ≡ true) where
  mutual
    unfolding expression_eq

    equal_self : (e : Expression) → expression_eq value_eq e e ≡ true
    equal_self (column a) = text_eq_refl a
    equal_self (literal a) = rw (same_value a.value, type_eq_refl a.data_type)
    equal_self (parameter a) = text_eq_refl a
    equal_self (comparison o a b) = rw (comparison_eq_refl o, equal_self a, equal_self b)
    equal_self (and as_) = all_equal_self as_
    equal_self (or as_) = all_equal_self as_
    equal_self (not a) = equal_self a
    equal_self (is_null a m) = rw (equal_self a, beq_refl m)
    equal_self (is_in a as_ m) = rw (equal_self a, all_equal_self as_, beq_refl m)
    equal_self (like a b m) = rw (equal_self a) (rw (equal_self b, beq_refl m))
    equal_self (arithmetic o a b) =
        rw (text_eq_refl (operation_value o)) (rw (equal_self a) (equal_self b))
    equal_self (alias a m) = rw (equal_self a, text_eq_refl m)

    all_equal_self : (es : Expressions) → expressions_eq value_eq es es ≡ true
    all_equal_self nil = refl
    all_equal_self (cons e es) = rw (equal_self e) (all_equal_self es)

  pub list_eq_refl : (es : List Expression) → list_eq (expression_eq value_eq) es es ≡ true
  list_eq_refl [] = refl
  list_eq_refl (e ∷ es) = rw (equal_self e) (list_eq_refl es)
