-- ===== src/Adapters/SqlText/Generator.antt =====
-- The class SqlGenerator of src/invariantql/adapters/_shared/sqltext.py.
use invariantql.Prelude.{
  Bool, List, Option, String, [], if◌then◌else◌, length, lookup, map, none, some, ℕ, ◌++◌, ◌==◌,
  ◌∷◌,
}
use invariantql.Adapters.SqlText.{Pieces, SqlDialect, hole, quote, word}
use invariantql.Domain.Diagnostics.{
  Outcome, Raised, diagnostic_error, library_error, parameter_error, parameter_missing, value_error,
}
use invariantql.Domain.Expressions.{
  ComparisonOp, Expression, Expressions, alias, and, arithmetic, column, comparison, cons, eq, ge,
  gt, is_in, is_null, le, like, literal, lt, ne, nil, not, operation_value, or, parameter,
}
use invariantql.Domain.Expressions.Literals.{Literal, LiteralValue}
use invariantql.Domain.Expressions.Substitute.{Literals}
use invariantql.Domain.Types.Unify.{Operation}
use invariantql.Prelude.Int.{pos}
use invariantql.Prelude.Results.{err, ok}

-- A computation of the generator: it reads and extends `values`, and may raise.
abbrev pub Gen : Type 0 → Type 0
Gen A = List LiteralValue → Outcome (A × List LiteralValue)

abbrev pub pure : {A : Type 0} → A → Gen A
pure a vs = ok (a, vs)

abbrev pub bind_of :
    {A B : Type 0} → Outcome (A × List LiteralValue) → (A → Gen B) → Outcome (B × List LiteralValue)
bind_of (err e) f = err e
bind_of (ok (a, vs)) f = f a vs

infixl 5 ◌>>=◌
abbrev pub ◌>>=◌ : {A B : Type 0} → Gen A → (A → Gen B) → Gen B
◌>>=◌ m f vs = bind_of (m vs) f

abbrev pub lift : {A : Type 0} → Outcome A → Gen A
lift (ok a) vs = ok (a, vs)
lift (err e) vs = err e

-- `bind`
abbrev pub bind : LiteralValue → Gen Pieces
bind value vs = ok (hole (length vs) ∷ [], vs ++ value ∷ [])

-- The method `literal`.
unfoldable pub literal_pieces : Literal → Gen Pieces
literal_pieces l = elim l.value [
  | LiteralValue.null ↦ pure (word "NULL" ∷ [])
  | LiteralValue.bool b ↦ pure (word (if b then "TRUE" else "FALSE") ∷ [])
  | value ↦ bind value
]

-- `separator.join(parts)`
unfoldable pub join : String → List Pieces → Pieces
join separator [] = []
join separator (p ∷ []) = p
join separator (p ∷ q ∷ ps) = p ++ word separator ∷ join separator (q ∷ ps)

abbrev pub in_parens : Pieces → Pieces
in_parens ps = word "(" ∷ ps ++ word ")" ∷ []

abbrev pub negation : Bool → String
negation negated = if negated then "NOT " else ""

-- `(left op right)`
abbrev pub infix_pieces : Pieces → String → Pieces → Pieces
infix_pieces left op right = in_parens (left ++ word " " ∷ word op ∷ word " " ∷ right)

-- `CAST(part AS target)`
abbrev pub cast : Pieces → String → Pieces
cast part target = word "CAST(" ∷ part ++ word " AS " ∷ word target ∷ word ")" ∷ []

-- What a subclass overrides: how a LIKE and an arithmetic expression are put together from their
-- parts, which are rendered from left to right first.
pub record Overrides : Type 0 where
  pub like : Bool → Pieces → Pieces → Pieces
  pub arithmetic : Operation → Expression → Expression → Pieces → Pieces → Outcome Pieces

-- SqlGenerator's own.
abbrev pub own_like : SqlDialect → Bool → Pieces → Pieces → Pieces
own_like dialect negated operand pattern_pieces = in_parens (
    operand
    ++ word " " ∷ word (negation negated) ∷ word dialect.like_operator ∷ word " " ∷ pattern_pieces)

abbrev pub own_arithmetic : SqlDialect → Operation → Pieces → Pieces → Pieces
own_arithmetic dialect op left right =
    infix_pieces
      (elim dialect.division_cast [
        | none ↦ left
        | some target ↦ if operation_value op == "/" then cast left target else left
      ])
      (operation_value op) right

abbrev pub own : SqlDialect → Overrides
own dialect = record {
  like = own_like dialect;
  arithmetic = λ op l r left right. ok (own_arithmetic dialect op left right);
}

abbrev pub missing_parameter : Raised
missing_parameter = library_error parameter_error (diagnostic_error parameter_missing none none)

abbrev pub comparison_value : ComparisonOp → String
comparison_value eq = "="
comparison_value ne = "<>"
comparison_value lt = "<"
comparison_value le = "<="
comparison_value gt = ">"
comparison_value ge = ">="

module _ (dialect : SqlDialect) (parameters : Literals) (overrides : Overrides) where
  unfoldable mutual
    -- The method `expression`. In renders its values before its operand.
    pub expression_pieces : Expression → Gen Pieces
    expression_pieces (column name) = pure (word (quote dialect name) ∷ [])
    expression_pieces (literal l) = literal_pieces l
    expression_pieces (parameter name) = elim (lookup name parameters) [
      | none ↦ λ vs. err missing_parameter
      | some l ↦ literal_pieces l
    ]
    expression_pieces (comparison op left right) = do
      l ← expression_pieces left
      r ← expression_pieces right
      pure (infix_pieces l (comparison_value op) r)
    expression_pieces (and operands) = do
      ps ← all_pieces operands
      pure (in_parens (join " AND " ps))
    expression_pieces (or operands) = do ps ← all_pieces operands; pure (in_parens (join " OR " ps))
    expression_pieces (not operand) = do
      o ← expression_pieces operand
      pure (in_parens (word "NOT " ∷ o))
    expression_pieces (is_null operand negated) = do
      o ← expression_pieces operand
      pure (in_parens (o ++ word " IS " ∷ word (negation negated) ∷ word "NULL" ∷ []))
    expression_pieces (is_in operand members negated) = do
      ps ← all_pieces members
      o ← expression_pieces operand
      pure (
          in_parens (
            o
            ++ word " " ∷ word (negation negated) ∷ word "IN (" ∷ (join ", " ps ++ word ")" ∷ [])))
    expression_pieces (like operand pattern_expr negated) = do
      o ← expression_pieces operand
      p ← expression_pieces pattern_expr
      pure (overrides.like negated o p)
    expression_pieces (arithmetic op left right) = do
      l ← expression_pieces left
      r ← expression_pieces right
      lift (overrides.arithmetic op left right l r)
    expression_pieces (alias e name) = λ vs. err value_error

    -- The generators in the calls of `join`.
    pub all_pieces : Expressions → Gen (List Pieces)
    all_pieces nil = pure []
    all_pieces (cons e es) = do p ← expression_pieces e; ps ← all_pieces es; pure (p ∷ ps)

  -- The method `projected`.
  unfoldable pub projected_pieces : Expression → Gen Pieces
  unfolding expression_pieces
  projected_pieces (alias e name) = do
    p ← expression_pieces e
    pure (p ++ word " AS " ∷ word (quote dialect name) ∷ [])
  projected_pieces e = expression_pieces e

  unfoldable pub all_projected : List Expression → Gen (List Pieces)
  unfolding projected_pieces
  all_projected [] = pure []
  all_projected (e ∷ es) = do p ← projected_pieces e; ps ← all_projected es; pure (p ∷ ps)

  abbrev pub star : Pieces
  star = word "*" ∷ []

  -- The select list.
  unfoldable pub select_list : Option (List String) → Option (List Expression) → Gen Pieces
  unfolding all_projected
  select_list columns (some es) = do ps ← all_projected es; pure (join ", " ps)
  select_list (some []) none = pure star
  select_list (some (c ∷ cs)) none =
      pure (join ", " (map (λ name. word (quote dialect name) ∷ []) (c ∷ cs)))
  select_list none none = pure star

  unfoldable pub where_pieces : Option Expression → Gen Pieces
  unfolding expression_pieces
  where_pieces none = pure []
  where_pieces (some e) = do p ← expression_pieces e; pure (word " WHERE " ∷ p)

  unfoldable pub limit_pieces : Option ℕ → Gen Pieces
  limit_pieces none = pure []
  limit_pieces (some n) = do
    p ← bind (LiteralValue.int (pos n))
    pure (word " " ∷ word dialect.limit_keyword ∷ word " " ∷ p)

  -- The method `select`.
  unfoldable pub select_pieces :
      String
      → Option (List String)
      → Option (List Expression)
      → Option Expression
      → Option ℕ
      → Gen Pieces
  unfolding select_list where_pieces limit_pieces
  select_pieces relation columns projection predicate limit = do
    s ← select_list columns projection
    w ← where_pieces predicate
    l ← limit_pieces limit
    pure (word "SELECT " ∷ (s ++ (word " FROM " ∷ word relation ∷ (w ++ l))))
