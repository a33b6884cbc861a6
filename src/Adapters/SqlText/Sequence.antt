-- ===== src/Adapters/SqlText/Sequence.antt =====
-- The numbers of the holes of an expression and of a statement,
-- src/invariantql/adapters/_shared/sqltext.py.
use invariantql.Prelude.{
  Bool, List, Option, [], ap, conditions, if◌then◌else◌, is_empty, length, length-append, lookup,
  none, refl, some, subst, sym, true, ◌&&◌, ◌++◌, ◌∙◌, ◌∷◌, ◌≡◌,
}
use invariantql.Adapters.SqlText.{SqlDialect, quote, word}
use invariantql.Adapters.SqlText.Generator.{
  Overrides, all_pieces, bind, comparison_value, expression_pieces, in_parens, infix_pieces, join,
  literal_pieces, missing_parameter, negation, pure, ◌>>=◌,
}
use invariantql.Adapters.SqlText.Holes.{Post, holes, holes-in_parens, holes-join, holes_all}
use invariantql.Adapters.SqlText.Numbered.{
  Follows-bind, Follows-silent, Numbered, Numbered-map, Numbered-pure, Numbered-seq,
}
use invariantql.Adapters.SqlText.Ordered.{all_in_order, bound-eq-text, empty_of, in_order}
use invariantql.Adapters.SqlText.Orders.{HoleLaws, text_values}
use invariantql.Adapters.SqlText.Values.{
  expression_pieces-Gives, holes-in_list, holes-infix, holes-is_null,
}
use invariantql.Domain.Expressions.{
  Expression, Expressions, alias, and, arithmetic, column, comparison, cons, is_in, is_null, like,
  literal, nil, not, or, parameter,
}
use invariantql.Domain.Expressions.Literals.{Literal, LiteralValue}
use invariantql.Domain.Expressions.Substitute.{Literals}
use invariantql.Domain.Types.{DataType}
use invariantql.Prelude.Results.{err, ok, ok-injective}

pub bind-Numbered : (v : LiteralValue) → Numbered holes (bind v)
bind-Numbered v vs = (1, length-append vs (v ∷ []), refl)

literal_case :
    (v : LiteralValue) (t : DataType)
    → Numbered holes (literal_pieces (record { value = v; data_type = t }))
unfolding literal_pieces
literal_case LiteralValue.null t = Numbered-pure holes (word "NULL" ∷ []) refl
literal_case (LiteralValue.bool b) t =
    Numbered-pure holes (word (if b then "TRUE" else "FALSE") ∷ []) refl
literal_case v t = bind-Numbered v

literal_pieces-Numbered : (l : Literal) → Numbered holes (literal_pieces l)
literal_pieces-Numbered l = literal_case l.value l.data_type

parameter_case :
    (found : Option Literal)
    → Numbered holes (elim found [ none ↦ λ vs. err missing_parameter | some l ↦ literal_pieces l ])
parameter_case none = λ vs. tt
parameter_case (some l) = literal_pieces-Numbered l

module _ (dialect : SqlDialect) (parameters : Literals) (overrides : Overrides)
    (laws : HoleLaws overrides) where
  -- An operand that has no value binds none.
  operand_silent :
      (operand : Expression) (vs : List LiteralValue)
      → text_values parameters operand ≡ []
      → in_order parameters operand ≡ true
      → Post holes [] [] vs (expression_pieces dialect parameters overrides operand vs)
  operand_silent operand vs e o =
      subst (λ ts. Post holes ts [] vs (expression_pieces dialect parameters overrides operand vs))
        e
        (subst
          (λ bs.
            Post holes (text_values parameters operand) bs vs
              (expression_pieces dialect parameters overrides operand vs))
          (bound-eq-text parameters operand o ∙ e)
          (expression_pieces-Gives dialect parameters overrides laws operand vs))

  -- In, whose operand writes nothing.
  in_case :
      (operand : Expression) (members : Expressions) (negated : Bool)
      → Numbered holes_all (all_pieces dialect parameters overrides members)
      → ((vs : List LiteralValue)
          → Post holes [] [] vs (expression_pieces dialect parameters overrides operand vs))
      → Numbered holes
          (expression_pieces dialect parameters overrides (is_in operand members negated))
  unfolding expression_pieces
  in_case operand members negated numbered silent vs =
      Follows-bind [] holes_all holes (length vs)
        (all_pieces dialect parameters overrides members vs)
        (λ ps. expression_pieces dialect parameters overrides operand >>= λ o. pure (
          in_parens (
            o
            ++ word " " ∷ word (negation negated) ∷ word "IN (" ∷ (join ", " ps ++ word ")" ∷ []))))
        (numbered vs)
        (λ ps ws.
          Follows-silent (holes_all ps) holes holes ws
            (expression_pieces dialect parameters overrides operand ws)
            (λ o. in_parens (
              o
              ++ word " "
                ∷ word (negation negated)
                ∷ word "IN ("
                ∷ (join ", " ps ++ word ")" ∷ [])))
            (silent ws)
            (λ o e.
              holes-in_list dialect parameters overrides laws negated ps o
              ∙ ap (λ hs. hs ++ holes_all ps) e))

  mutual
    unfolding expression_pieces in_order

    pub expression_pieces-Numbered :
        (e : Expression)
        → in_order parameters e ≡ true
        → Numbered holes (expression_pieces dialect parameters overrides e)
    expression_pieces-Numbered (column name) h =
        Numbered-pure holes (word (quote dialect name) ∷ []) refl
    expression_pieces-Numbered (literal l) h = literal_pieces-Numbered l
    expression_pieces-Numbered (parameter name) h = parameter_case (lookup name parameters)
    expression_pieces-Numbered (comparison op left right) h =
        let p = conditions (in_order parameters left) (in_order parameters right) h in
        Numbered-seq holes holes holes (λ l r. ok (infix_pieces l (comparison_value op) r))
          (expression_pieces dialect parameters overrides left)
          (expression_pieces dialect parameters overrides right)
          (λ l r c made. ap holes (sym (ok-injective made)) ∙ holes-infix l (comparison_value op) r)
          (expression_pieces-Numbered left p.0) (expression_pieces-Numbered right p.1)
    expression_pieces-Numbered (and operands) h =
        Numbered-map holes_all holes (λ ps. in_parens (join " AND " ps))
          (all_pieces dialect parameters overrides operands)
          (λ ps. holes-in_parens (join " AND " ps) ∙ holes-join " AND " ps)
          (all_pieces-Numbered operands h)
    expression_pieces-Numbered (or operands) h =
        Numbered-map holes_all holes (λ ps. in_parens (join " OR " ps))
          (all_pieces dialect parameters overrides operands)
          (λ ps. holes-in_parens (join " OR " ps) ∙ holes-join " OR " ps)
          (all_pieces-Numbered operands h)
    expression_pieces-Numbered (not operand) h =
        Numbered-map holes holes (λ o. in_parens (word "NOT " ∷ o))
          (expression_pieces dialect parameters overrides operand)
          (λ o. holes-in_parens (word "NOT " ∷ o)) (expression_pieces-Numbered operand h)
    expression_pieces-Numbered (is_null operand negated) h =
        Numbered-map holes holes
          (λ o. in_parens (o ++ word " IS " ∷ word (negation negated) ∷ word "NULL" ∷ []))
          (expression_pieces dialect parameters overrides operand)
          (λ o. holes-is_null dialect parameters overrides laws negated o)
          (expression_pieces-Numbered operand h)
    expression_pieces-Numbered (is_in operand members negated) h =
        let p =
          conditions (is_empty (text_values parameters operand))
            (in_order parameters operand && all_in_order parameters members) h in
        let q = conditions (in_order parameters operand) (all_in_order parameters members) p.1 in
        in_case operand members negated (all_pieces-Numbered members q.1) (λ vs.
          operand_silent operand vs (empty_of parameters (text_values parameters operand) p.0) q.0)
    expression_pieces-Numbered (like operand pattern_expr negated) h =
        let p = conditions (in_order parameters operand) (in_order parameters pattern_expr) h in
        Numbered-seq holes holes holes (λ o p. ok (overrides.like negated o p))
          (expression_pieces dialect parameters overrides operand)
          (expression_pieces dialect parameters overrides pattern_expr)
          (λ o p c made. ap holes (sym (ok-injective made)) ∙ laws.like_holes negated o p)
          (expression_pieces-Numbered operand p.0) (expression_pieces-Numbered pattern_expr p.1)
    expression_pieces-Numbered (arithmetic op left right) h =
        let p = conditions (in_order parameters left) (in_order parameters right) h in
        Numbered-seq holes holes holes (overrides.arithmetic op left right)
          (expression_pieces dialect parameters overrides left)
          (expression_pieces dialect parameters overrides right)
          (λ l r c made. laws.arithmetic_holes op left right l r c made)
          (expression_pieces-Numbered left p.0) (expression_pieces-Numbered right p.1)
    expression_pieces-Numbered (alias e name) h = λ vs. tt

    all_pieces-Numbered :
        (es : Expressions)
        → all_in_order parameters es ≡ true
        → Numbered holes_all (all_pieces dialect parameters overrides es)
    all_pieces-Numbered nil h = Numbered-pure holes_all [] refl
    all_pieces-Numbered (cons e es) h =
        let p = conditions (in_order parameters e) (all_in_order parameters es) h in
        Numbered-seq holes holes_all holes_all (λ p ps. ok (p ∷ ps))
          (expression_pieces dialect parameters overrides e)
          (all_pieces dialect parameters overrides es)
          (λ p ps c made. ap holes_all (sym (ok-injective made))) (expression_pieces-Numbered e p.0)
          (all_pieces-Numbered es p.1)
