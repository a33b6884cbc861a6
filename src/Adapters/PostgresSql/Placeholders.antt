-- ===== src/Adapters/PostgresSql/Placeholders.antt =====
-- The holes of what PostgresSqlGenerator overrides, src/invariantql/adapters/sources/postgres.py.
use invariantql.Prelude.{Option, String, [], ap, append-nil, ap₂, none, some, ◌++◌, ◌∙◌, ◌∷◌, ◌≡◌}
use invariantql.Adapters.PostgresSql.{
  arithmetic_sides, cast_targets, division_pieces, numeric_pieces, postgres, postgres_arithmetic,
  postgres_numeric_type, typed_arithmetic, typed_pieces,
}
use invariantql.Adapters.SqlText.{Pieces, SqlDialect, word}
use invariantql.Adapters.SqlText.Generator.{cast, infix_pieces, negation}
use invariantql.Adapters.SqlText.Holes.{holes, holes-append, holes-in_parens}
use invariantql.Adapters.SqlText.Orders.{HoleLaws}
use invariantql.Adapters.SqlText.Values.{holes-infix}
use invariantql.Domain.Expressions.{Expression, arithmetic, operation_value}
use invariantql.Domain.Expressions.Substitute.{Literals, substitute_parameters}
use invariantql.Domain.Schema.{Schema}
use invariantql.Domain.Semantics.{expression_type}
use invariantql.Domain.Types.{DataType}
use invariantql.Domain.Types.Unify.{Operation, div}
use invariantql.Prelude.Results.{Ensures, Ensures-any, Ensures-bind, Ensures-ok, holds}

holes-cast : (p : Pieces) (target : String) → holes (cast p target) ≡ holes p
holes-cast p target =
    holes-append p (word " AS " ∷ word target ∷ word ")" ∷ []) ∙ append-nil (holes p)

-- The holes of both sides, in order.
abbrev Keeps : Pieces → Pieces → Pieces → Type 0
Keeps left right made = holes made ≡ holes left ++ holes right

division-Keeps : (left right : Pieces) → Keeps left right (division_pieces left right)
division-Keeps left right =
    holes-in_parens (
      cast left "DOUBLE PRECISION"
      ++ (word " / " ∷ word "NULLIF(" ∷ (cast right "DOUBLE PRECISION" ++ word ", 0.0)" ∷ [])))
    ∙ holes-append (cast left "DOUBLE PRECISION")
        (word " / " ∷ word "NULLIF(" ∷ (cast right "DOUBLE PRECISION" ++ word ", 0.0)" ∷ []))
    ∙ ap₂ (λ x y. x ++ y) (holes-cast left "DOUBLE PRECISION")
        (holes-append (cast right "DOUBLE PRECISION") (word ", 0.0)" ∷ [])
          ∙ append-nil (holes (cast right "DOUBLE PRECISION"))
          ∙ holes-cast right "DOUBLE PRECISION")

typed-Keeps :
    (op : Operation) (targets : String × String) (target : String) (left right : Pieces)
    → Keeps left right (typed_pieces op targets target left right)
typed-Keeps op (a, b) target left right =
    holes-cast (infix_pieces (cast left a) (operation_value op) (cast right b)) target
    ∙ holes-infix (cast left a) (operation_value op) (cast right b)
    ∙ ap₂ (λ x y. x ++ y) (holes-cast left a) (holes-cast right b)

numeric-Keeps :
    (op : Operation) (l r t : DataType) (left right : Pieces) (target : Option String)
    → Keeps left right (numeric_pieces op l r t left right target)
numeric-Keeps op l r t left right none = holes-infix left (operation_value op) right
numeric-Keeps op l r t left right (some target) =
    typed-Keeps op (cast_targets t l r target) target left right

module _ (lower : String → String) (schema : Schema) (parameters : Literals) where
  typed_arithmetic-Keeps :
      (op : Operation) (l r t : DataType) (left right : Pieces)
      → Ensures (Keeps left right) (typed_arithmetic lower schema parameters op l r t left right)
  typed_arithmetic-Keeps div l r t left right = holds (division-Keeps left right)
  typed_arithmetic-Keeps op l r t left right =
      Ensures-bind (Ensures-any (postgres_numeric_type t))
        (λ target _. holds (numeric-Keeps op l r t left right target))

  arithmetic-Keeps :
      (op : Operation) (l r : Expression) (left right : Pieces)
      → Ensures (Keeps left right) (postgres_arithmetic lower schema parameters op l r left right)
  unfolding postgres_arithmetic
  arithmetic-Keeps op l r left right =
      Ensures-bind (Ensures-any (substitute_parameters (arithmetic op l r) parameters)) (λ typed _.
        Ensures-bind (Ensures-any (arithmetic_sides lower schema parameters typed)) (λ sides _.
          Ensures-bind (Ensures-any (expression_type lower sides.0 schema)) (λ a _.
            Ensures-bind (Ensures-any (expression_type lower sides.1 schema)) (λ b _.
              Ensures-bind (Ensures-any (expression_type lower typed schema))
                (λ t _. typed_arithmetic-Keeps op a b t left right)))))

  -- PostgreSQL's LIKE and arithmetic keep their parts in order.
  pub postgres-HoleLaws :
      (dialect : SqlDialect) → HoleLaws (postgres lower schema parameters dialect)
  unfolding postgres
  postgres-HoleLaws dialect = record {
    like_holes = λ negated o p.
        holes-in_parens (
          o
          ++ (word " "
              ∷ word (negation negated)
              ∷ word dialect.like_operator
              ∷ word " "
              ∷ (p ++ word " ESCAPE ''" ∷ [])))
        ∙ holes-append o (
            word " "
            ∷ word (negation negated)
            ∷ word dialect.like_operator
            ∷ word " "
            ∷ (p ++ word " ESCAPE ''" ∷ []))
        ∙ ap (λ x. holes o ++ x) (holes-append p (word " ESCAPE ''" ∷ []) ∙ append-nil (holes p));
    arithmetic_holes =
        λ op l r left right made h. Ensures-ok (arithmetic-Keeps op l r left right) h;
  }
