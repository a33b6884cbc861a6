-- ===== src/Adapters/SqlText/Values.antt =====
-- The values of a text against its expression, src/invariantql/adapters/_shared/sqltext.py. The values
-- in the order of the text, and in the order in which `expression` binds them, which differ for In.
use invariantql.Prelude.{
  Bool, List, Option, String, [], ap, append-nil, if◌then◌else◌, lookup, none, refl, some, sym,
  ◌++◌, ◌∙◌, ◌∷◌, ◌≡◌,
}
use invariantql.Adapters.SqlText.{Pieces, SqlDialect, quote, word}
use invariantql.Adapters.SqlText.Generator.{
  Overrides, all_pieces, bind, comparison_value, expression_pieces, in_parens, infix_pieces, join,
  lift, literal_pieces, missing_parameter, negation, pure, ◌>>=◌,
}
use invariantql.Adapters.SqlText.Holes.{
  Gives, Gives-map, Gives-pure, Gives-seq, Joins-append, Joins-swap, get_elem?-last, holes,
  holes-append, holes-in_parens, holes-join, holes_all,
}
use invariantql.Adapters.SqlText.Orders.{
  HoleLaws, all_bound_values, all_text_values, bound_values, literal_values, parameter_values,
  text_values,
}
use invariantql.Domain.Diagnostics.{Outcome}
use invariantql.Domain.Expressions.{
  Expression, Expressions, alias, and, arithmetic, column, comparison, cons, is_in, is_null, like,
  literal, nil, not, or, parameter,
}
use invariantql.Domain.Expressions.Literals.{Literal, LiteralValue}
use invariantql.Domain.Expressions.Substitute.{Literals}
use invariantql.Domain.Types.{DataType}
use invariantql.Prelude.Results.{err, ok, ok-injective}

pub bind-Gives : (v : LiteralValue) → Gives holes (v ∷ []) (v ∷ []) (bind v)
bind-Gives v vs = (refl, (get_elem?-last vs v, tt))

literal_case :
    (v : LiteralValue) (t : DataType)
    → Gives holes
        (literal_values (record { value = v; data_type = t }))
        (literal_values (record { value = v; data_type = t }))
        (literal_pieces (record { value = v; data_type = t }))
unfolding literal_pieces
literal_case LiteralValue.null t = Gives-pure holes (word "NULL" ∷ []) refl
literal_case (LiteralValue.bool b) t =
    Gives-pure holes (word (if b then "TRUE" else "FALSE") ∷ []) refl
literal_case v t = bind-Gives v

pub literal_pieces-Gives :
    (l : Literal) → Gives holes (literal_values l) (literal_values l) (literal_pieces l)
literal_pieces-Gives l = literal_case l.value l.data_type

pub holes-infix :
    (left : Pieces) (op : String) (right : Pieces)
    → holes (infix_pieces left op right) ≡ holes left ++ holes right
holes-infix left op right =
    holes-in_parens (left ++ word " " ∷ word op ∷ word " " ∷ right)
    ∙ holes-append left (word " " ∷ word op ∷ word " " ∷ right)

module _ (dialect : SqlDialect) (parameters : Literals) (overrides : Overrides)
    (laws : HoleLaws overrides) where
  parameter_of :
      (found : Option Literal)
      → Gives holes
          (parameter_values found)
          (parameter_values found)
          (elim found [ none ↦ λ vs. err missing_parameter | some l ↦ literal_pieces l ])
  parameter_of none = λ vs. tt
  parameter_of (some l) = literal_pieces-Gives l

  pub holes-in_list :
      (negated : Bool) (ps : List Pieces) (o : Pieces)
      → holes (
          in_parens (
            o
            ++ word " " ∷ word (negation negated) ∷ word "IN (" ∷ (join ", " ps ++ word ")" ∷ [])))
        ≡ holes o ++ holes_all ps
  holes-in_list negated ps o =
      holes-in_parens
        (o ++ word " " ∷ word (negation negated) ∷ word "IN (" ∷ (join ", " ps ++ word ")" ∷ []))
      ∙ holes-append o
          (word " " ∷ word (negation negated) ∷ word "IN (" ∷ (join ", " ps ++ word ")" ∷ []))
      ∙ ap (λ hs. holes o ++ hs)
          (holes-append (join ", " ps) (word ")" ∷ [])
            ∙ append-nil (holes (join ", " ps))
            ∙ holes-join ", " ps)

  pub holes-is_null :
      (negated : Bool) (o : Pieces)
      → holes (in_parens (o ++ word " IS " ∷ word (negation negated) ∷ word "NULL" ∷ [])) ≡ holes o
  holes-is_null negated o =
      holes-in_parens (o ++ word " IS " ∷ word (negation negated) ∷ word "NULL" ∷ [])
      ∙ holes-append o (word " IS " ∷ word (negation negated) ∷ word "NULL" ∷ [])
      ∙ append-nil (holes o)

  -- An expression with one operand.
  same :
      (e : Expression) (f : Pieces → Pieces)
      → ((o : Pieces) → holes (f o) ≡ holes o)
      → Gives holes
          (text_values parameters e)
          (bound_values parameters e)
          (expression_pieces dialect parameters overrides e)
      → Gives holes
          (text_values parameters e)
          (bound_values parameters e)
          (expression_pieces dialect parameters overrides e >>= λ o. pure (f o))
  same e f k p =
      Gives-map holes holes f (text_values parameters e) (bound_values parameters e)
        (expression_pieces dialect parameters overrides e) k p

  -- An expression with a left and a right operand.
  pair :
      (left right : Expression) (f : Pieces → Pieces → Outcome Pieces)
      → ((l r c : Pieces) → f l r ≡ ok c → holes c ≡ holes l ++ holes r)
      → Gives holes
          (text_values parameters left)
          (bound_values parameters left)
          (expression_pieces dialect parameters overrides left)
      → Gives holes
          (text_values parameters right)
          (bound_values parameters right)
          (expression_pieces dialect parameters overrides right)
      → Gives holes
          (text_values parameters left ++ text_values parameters right)
          (bound_values parameters left ++ bound_values parameters right)
          (expression_pieces dialect parameters overrides left >>= λ l.
            expression_pieces dialect parameters overrides right >>= λ r. lift (f l r))
  pair left right f h p q =
      Gives-seq holes holes holes f (text_values parameters left) (text_values parameters right)
        (text_values parameters left ++ text_values parameters right) (bound_values parameters left)
        (bound_values parameters right) (expression_pieces dialect parameters overrides left)
        (expression_pieces dialect parameters overrides right)
        (Joins-append holes holes holes f (text_values parameters left)
          (text_values parameters right) h)
        p q

  mutual
    unfolding text_values bound_values expression_pieces

    pub expression_pieces-Gives :
        (e : Expression)
        → Gives holes
            (text_values parameters e)
            (bound_values parameters e)
            (expression_pieces dialect parameters overrides e)
    expression_pieces-Gives (column name) = Gives-pure holes (word (quote dialect name) ∷ []) refl
    expression_pieces-Gives (literal l) = literal_pieces-Gives l
    expression_pieces-Gives (parameter name) = parameter_of (lookup name parameters)
    expression_pieces-Gives (comparison op left right) =
        pair left right (λ l r. ok (infix_pieces l (comparison_value op) r))
          (λ l r c made. ap holes (sym (ok-injective made)) ∙ holes-infix l (comparison_value op) r)
          (expression_pieces-Gives left) (expression_pieces-Gives right)
    expression_pieces-Gives (and operands) =
        Gives-map holes_all holes (λ ps. in_parens (join " AND " ps))
          (all_text_values parameters operands) (all_bound_values parameters operands)
          (all_pieces dialect parameters overrides operands)
          (λ ps. holes-in_parens (join " AND " ps) ∙ holes-join " AND " ps)
          (all_pieces-Gives operands)
    expression_pieces-Gives (or operands) =
        Gives-map holes_all holes (λ ps. in_parens (join " OR " ps))
          (all_text_values parameters operands) (all_bound_values parameters operands)
          (all_pieces dialect parameters overrides operands)
          (λ ps. holes-in_parens (join " OR " ps) ∙ holes-join " OR " ps)
          (all_pieces-Gives operands)
    expression_pieces-Gives (not operand) =
        same operand (λ o. in_parens (word "NOT " ∷ o)) (λ o. holes-in_parens (word "NOT " ∷ o))
          (expression_pieces-Gives operand)
    expression_pieces-Gives (is_null operand negated) =
        same operand
          (λ o. in_parens (o ++ word " IS " ∷ word (negation negated) ∷ word "NULL" ∷ []))
          (λ o. holes-is_null negated o) (expression_pieces-Gives operand)
    expression_pieces-Gives (is_in operand members negated) =
        Gives-seq holes_all holes holes
          (λ ps o. ok (
            in_parens (
              o
              ++ word " "
                ∷ word (negation negated)
                ∷ word "IN ("
                ∷ (join ", " ps ++ word ")" ∷ []))))
          (all_text_values parameters members) (text_values parameters operand)
          (text_values parameters operand ++ all_text_values parameters members)
          (all_bound_values parameters members) (bound_values parameters operand)
          (all_pieces dialect parameters overrides members)
          (expression_pieces dialect parameters overrides operand)
          (Joins-swap holes_all holes holes
            (λ ps o. ok (
              in_parens (
                o
                ++ word " "
                  ∷ word (negation negated)
                  ∷ word "IN ("
                  ∷ (join ", " ps ++ word ")" ∷ []))))
            (all_text_values parameters members) (text_values parameters operand)
            (λ ps o c made. ap holes (sym (ok-injective made)) ∙ holes-in_list negated ps o))
          (all_pieces-Gives members) (expression_pieces-Gives operand)
    expression_pieces-Gives (like operand pattern_expr negated) =
        pair operand pattern_expr (λ o p. ok (overrides.like negated o p))
          (λ o p c made. ap holes (sym (ok-injective made)) ∙ laws.like_holes negated o p)
          (expression_pieces-Gives operand) (expression_pieces-Gives pattern_expr)
    expression_pieces-Gives (arithmetic op left right) =
        pair left right (overrides.arithmetic op left right)
          (λ l r c made. laws.arithmetic_holes op left right l r c made)
          (expression_pieces-Gives left) (expression_pieces-Gives right)
    expression_pieces-Gives (alias e name) = λ vs. tt

    all_pieces-Gives :
        (es : Expressions)
        → Gives holes_all
            (all_text_values parameters es)
            (all_bound_values parameters es)
            (all_pieces dialect parameters overrides es)
    all_pieces-Gives nil = Gives-pure holes_all [] refl
    all_pieces-Gives (cons e es) =
        Gives-seq holes holes_all holes_all (λ p ps. ok (p ∷ ps)) (text_values parameters e)
          (all_text_values parameters es)
          (text_values parameters e ++ all_text_values parameters es) (bound_values parameters e)
          (all_bound_values parameters es) (expression_pieces dialect parameters overrides e)
          (all_pieces dialect parameters overrides es)
          (Joins-append holes holes_all holes_all (λ p ps. ok (p ∷ ps)) (text_values parameters e)
            (all_text_values parameters es) (λ p ps c made. ap holes_all (sym (ok-injective made))))
          (expression_pieces-Gives e) (all_pieces-Gives es)
