-- ===== src/Adapters/SqlText/Total.antt =====
-- When the generator returns a text, src/invariantql/adapters/_shared/sqltext.py.
use invariantql.Prelude.{
  Bool, List, Option, [], all, ap₂, arith, false, lookup, none, refl, some, sym, true, ◌&&◌, ◌++◌,
  ◌∙◌, ◌∷◌, ◌≡◌,
}
use invariantql.Adapters.SqlText.{SqlDialect, word}
use invariantql.Adapters.SqlText.Generator.{
  Gen, all_pieces, bind_of, comparison_value, expression_pieces, in_parens, infix_pieces, join,
  literal_pieces, missing_parameter, negation, own, own_arithmetic, own_like, pure, ◌>>=◌,
}
use invariantql.Domain.Diagnostics.{Outcome}
use invariantql.Domain.Expressions.{
  Expression, Expressions, alias, and, arithmetic, column, comparison, cons, is_in, is_null, like,
  literal, nil, not, or, parameter,
}
use invariantql.Domain.Expressions.Literals.{Literal, LiteralValue}
use invariantql.Domain.Expressions.Substitute.{Literals}
use invariantql.Domain.Expressions.Walk.{walk, walk_all}
use invariantql.Domain.Types.{DataType}
use invariantql.Prelude.Results.{err, ok}

abbrev pub is_ok : {A : Type 0} → Outcome A → Bool
is_ok (ok a) = true
is_ok (err e) = false

-- A parameter with a value, or any other node but an alias.
abbrev pub is_rendered : Literals → Expression → Bool
is_rendered parameters (parameter name) = elim (lookup name parameters) [
  | none ↦ false
  | some l ↦ true
]
is_rendered parameters (alias e name) = false
is_rendered parameters _ = true

all-append :
    (p : Expression → Bool) (xs ys : List Expression) → all (xs ++ ys) p ≡ (all xs p && all ys p)
all-append p [] ys = refl
all-append p (x ∷ xs) ys = ground (arith, all-append p xs ys)

-- A computation returns exactly if the condition holds, whatever the values before it.
abbrev pub Returns : {A : Type 0} → Gen A → Bool → Type 0
Returns m b = (vs : List LiteralValue) → is_ok (m vs) ≡ b

module _ {A B : Type 0} where
  then_of :
      (r : Outcome (A × List LiteralValue)) (k : A → Gen B) (a b : Bool)
      → is_ok r ≡ a
      → ((x : A) → Returns (k x) b)
      → is_ok (bind_of r k) ≡ (a && b)
  then_of (err e) k a b h g = cc
  then_of (ok (x, vs)) k a b h g = ap₂ (λ p q. p && q) h (g x vs)

  Returns-then :
      (m : Gen A) (k : A → Gen B) (a b : Bool)
      → Returns m a
      → ((x : A) → Returns (k x) b)
      → Returns (m >>= k) (a && b)
  Returns-then m k a b h g vs = then_of (m vs) k a b (h vs) g

Returns-map :
    {A B : Type 0} (m : Gen A) (f : A → B) (a : Bool)
    → Returns m a
    → Returns (m >>= λ x. pure (f x)) a
Returns-map m f a h vs = Returns-then m (λ x. pure (f x)) a true h (λ x ws. refl) vs ∙ ground arith

Returns-pair :
    {A B C : Type 0} (m : Gen A) (k : Gen B) (f : A → B → C) (a b : Bool)
    → Returns m a
    → Returns k b
    → Returns (m >>= λ x. k >>= λ y. pure (f x y)) (a && b)
Returns-pair m k f a b h g =
    Returns-then m (λ x. k >>= λ y. pure (f x y)) a b h (λ x. Returns-map k (f x) b g)

literal_case :
    (v : LiteralValue) (t : DataType)
    → Returns (literal_pieces (record { value = v; data_type = t })) true
unfolding literal_pieces
literal_case LiteralValue.null t = λ vs. refl
literal_case (LiteralValue.bool b) t = λ vs. refl
literal_case v t = λ vs. refl

and_comm : (a b : Bool) → (a && b) ≡ (b && a)
and_comm a b = ground arith

module _ (dialect : SqlDialect) (parameters : Literals) where
  parameter_of :
      (found : Option Literal)
      → Returns
          (elim found [ none ↦ λ vs. err missing_parameter | some l ↦ literal_pieces l ])
          (elim found [ none ↦ false | some l ↦ true ] && true)
  parameter_of none = λ vs. refl
  parameter_of (some l) = literal_case l.value l.data_type

  two :
      (p : Expression → Bool) (xs ys : List Expression) (a b : Bool)
      → all xs p ≡ a
      → all ys p ≡ b
      → (a && b) ≡ all (xs ++ ys) p
  two p xs ys a b h g = sym (all-append p xs ys ∙ ap₂ (λ x y. x && y) h g)

  mutual
    unfolding expression_pieces walk

    Returns-expression :
        (e : Expression)
        → Returns
            (expression_pieces dialect parameters (own dialect) e)
            (all (walk e) (is_rendered parameters))
    Returns-expression (column name) = λ vs. refl
    Returns-expression (literal l) = literal_case l.value l.data_type
    Returns-expression (parameter name) = parameter_of (lookup name parameters)
    Returns-expression (comparison op left right) = λ vs.
        Returns-pair (expression_pieces dialect parameters (own dialect) left)
          (expression_pieces dialect parameters (own dialect) right)
          (λ l r. infix_pieces l (comparison_value op) r) (all (walk left) (is_rendered parameters))
          (all (walk right) (is_rendered parameters)) (Returns-expression left)
          (Returns-expression right) vs
        ∙ two (is_rendered parameters) (walk left) (walk right) _ _ refl refl
    Returns-expression (and operands) =
        Returns-map (all_pieces dialect parameters (own dialect) operands)
          (λ ps. in_parens (join " AND " ps)) _ (Returns-all operands)
    Returns-expression (or operands) =
        Returns-map (all_pieces dialect parameters (own dialect) operands)
          (λ ps. in_parens (join " OR " ps)) _ (Returns-all operands)
    Returns-expression (not operand) =
        Returns-map (expression_pieces dialect parameters (own dialect) operand)
          (λ o. in_parens (word "NOT " ∷ o)) _ (Returns-expression operand)
    Returns-expression (is_null operand negated) =
        Returns-map (expression_pieces dialect parameters (own dialect) operand)
          (λ o. in_parens (o ++ word " IS " ∷ word (negation negated) ∷ word "NULL" ∷ [])) _
          (Returns-expression operand)
    Returns-expression (is_in operand members negated) = λ vs.
        Returns-pair (all_pieces dialect parameters (own dialect) members)
          (expression_pieces dialect parameters (own dialect) operand)
          (λ ps o. in_parens (
            o
            ++ word " " ∷ word (negation negated) ∷ word "IN (" ∷ (join ", " ps ++ word ")" ∷ [])))
          _ _ (Returns-all members) (Returns-expression operand) vs
        ∙ and_comm (all (walk_all members) (is_rendered parameters))
            (all (walk operand) (is_rendered parameters))
        ∙ two (is_rendered parameters) (walk operand) (walk_all members) _ _ refl refl
    Returns-expression (like operand pattern_expr negated) = λ vs.
        Returns-pair (expression_pieces dialect parameters (own dialect) operand)
          (expression_pieces dialect parameters (own dialect) pattern_expr)
          (own_like dialect negated) _ _ (Returns-expression operand)
          (Returns-expression pattern_expr) vs
        ∙ two (is_rendered parameters) (walk operand) (walk pattern_expr) _ _ refl refl
    Returns-expression (arithmetic op left right) = λ vs.
        Returns-pair (expression_pieces dialect parameters (own dialect) left)
          (expression_pieces dialect parameters (own dialect) right) (own_arithmetic dialect op) _ _
          (Returns-expression left) (Returns-expression right) vs
        ∙ two (is_rendered parameters) (walk left) (walk right) _ _ refl refl
    Returns-expression (alias e name) = λ vs. refl

    Returns-all :
        (es : Expressions)
        → Returns
            (all_pieces dialect parameters (own dialect) es)
            (all (walk_all es) (is_rendered parameters))
    Returns-all nil = λ vs. refl
    Returns-all (cons e es) = λ vs.
        Returns-pair (expression_pieces dialect parameters (own dialect) e)
          (all_pieces dialect parameters (own dialect) es) (λ p ps. p ∷ ps) _ _
          (Returns-expression e) (Returns-all es) vs
        ∙ two (is_rendered parameters) (walk e) (walk_all es) _ _ refl refl

  -- `expression` returns a text exactly if every parameter of the expression has a value and no alias
  -- occurs in it, whatever values the generator holds before.
  pub expression_pieces-is_ok :
      (e : Expression) (values : List LiteralValue)
      → is_ok (expression_pieces dialect parameters (own dialect) e values)
        ≡ all (walk e) (is_rendered parameters)
  expression_pieces-is_ok e values = Returns-expression e values
