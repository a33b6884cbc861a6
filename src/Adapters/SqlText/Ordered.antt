-- ===== src/Adapters/SqlText/Ordered.antt =====
-- Expressions whose values are bound in the order of the text,
-- src/invariantql/adapters/_shared/sqltext.py.
use invariantql.Prelude.{
  Bool, List, Option, [], all, ap, append-nil, ap₂, conditions, is_empty, none, refl, some, sym,
  true, ℕ, ◌&&◌, ◌++◌, ◌∙◌, ◌∷◌, ◌≡◌,
}
use invariantql.Adapters.SqlText.Orders.{
  all_bound_values, all_text_values, bound_values, text_values,
}
use invariantql.Adapters.SqlText.Statement.{
  bound_of_predicate, bound_of_projection, bound_projection, limit_values, statement_bound,
  statement_values, text_of_predicate, text_of_projection, text_projection,
}
use invariantql.Domain.Expressions.{
  Expression, Expressions, alias, and, arithmetic, comparison, cons, is_in, is_null, like, nil, not,
  or,
}
use invariantql.Domain.Expressions.Literals.{LiteralValue}
use invariantql.Domain.Expressions.Substitute.{Literals}

module _ (parameters : Literals) where
  unfoldable mutual
    unfolding text_values

    -- No operand of an In binds a value.
    pub in_order : Expression → Bool
    in_order (comparison op left right) = in_order left && in_order right
    in_order (and operands) = all_in_order operands
    in_order (or operands) = all_in_order operands
    in_order (not operand) = in_order operand
    in_order (is_null operand negated) = in_order operand
    in_order (is_in operand members negated) =
        is_empty (text_values parameters operand) && (in_order operand && all_in_order members)
    in_order (like operand pattern_expr negated) = in_order operand && in_order pattern_expr
    in_order (arithmetic op left right) = in_order left && in_order right
    in_order _ = true

    pub all_in_order : Expressions → Bool
    all_in_order nil = true
    all_in_order (cons e es) = in_order e && all_in_order es

  pub empty_of : (vs : List LiteralValue) → is_empty vs ≡ true → vs ≡ []
  empty_of [] h = refl
  empty_of (v ∷ vs) h = cc

  both :
      {a b : Bool} {xs ys us vs : List LiteralValue}
      → (a ≡ true → xs ≡ us)
      → (b ≡ true → ys ≡ vs)
      → (a && b) ≡ true
      → xs ++ ys ≡ us ++ vs
  both {a} {b} f g h = let p = conditions a b h in ap₂ (λ x y. x ++ y) (f p.0) (g p.1)

  mutual
    unfolding bound_values text_values in_order

    pub bound-eq-text :
        (e : Expression) → in_order e ≡ true → bound_values parameters e ≡ text_values parameters e
    bound-eq-text (comparison op left right) h = both (bound-eq-text left) (bound-eq-text right) h
    bound-eq-text (and operands) h = all_bound-eq-text operands h
    bound-eq-text (or operands) h = all_bound-eq-text operands h
    bound-eq-text (not operand) h = bound-eq-text operand h
    bound-eq-text (is_null operand negated) h = bound-eq-text operand h
    bound-eq-text (is_in operand members negated) h =
        let p =
          conditions (is_empty (text_values parameters operand))
            (in_order operand && all_in_order members) h in
        let q = conditions (in_order operand) (all_in_order members) p.1 in
        let e = empty_of (text_values parameters operand) p.0 in
        let b = bound-eq-text operand q.0 ∙ e in
        ap₂ (λ x y. x ++ y) (all_bound-eq-text members q.1) b
        ∙ append-nil (all_text_values parameters members)
        ∙ ap (λ x. x ++ all_text_values parameters members) (sym e)
    bound-eq-text (like operand pattern_expr negated) h =
        both (bound-eq-text operand) (bound-eq-text pattern_expr) h
    bound-eq-text (arithmetic op left right) h = both (bound-eq-text left) (bound-eq-text right) h
    bound-eq-text _ h = refl

    pub all_bound-eq-text :
        (es : Expressions)
        → all_in_order es ≡ true
        → all_bound_values parameters es ≡ all_text_values parameters es
    all_bound-eq-text nil h = refl
    all_bound-eq-text (cons e es) h = both (bound-eq-text e) (all_bound-eq-text es) h

  abbrev pub projected_in_order : Expression → Bool
  projected_in_order (alias e name) = in_order e
  projected_in_order e = in_order e

  abbrev pub projection_in_order : Option (List Expression) → Bool
  projection_in_order none = true
  projection_in_order (some es) = all es projected_in_order

  abbrev pub predicate_in_order : Option Expression → Bool
  predicate_in_order none = true
  predicate_in_order (some e) = in_order e

  -- No In of the statement has an operand that binds a value.
  abbrev pub statement_in_order : Option (List Expression) → Option Expression → Bool
  statement_in_order projection predicate =
      projection_in_order projection && predicate_in_order predicate

  pub projection-eq-text :
      (es : List Expression)
      → all es projected_in_order ≡ true
      → bound_projection parameters es ≡ text_projection parameters es
  projection-eq-text [] h = refl
  projection-eq-text (alias e name ∷ es) h = both (bound-eq-text e) (projection-eq-text es) h
  projection-eq-text (e ∷ es) h = both (bound-eq-text e) (projection-eq-text es) h

  of_projection :
      (projection : Option (List Expression))
      → projection_in_order projection ≡ true
      → bound_of_projection parameters projection ≡ text_of_projection parameters projection
  of_projection none h = refl
  of_projection (some es) h = projection-eq-text es h

  of_predicate :
      (predicate : Option Expression)
      → predicate_in_order predicate ≡ true
      → bound_of_predicate parameters predicate ≡ text_of_predicate parameters predicate
  of_predicate none h = refl
  of_predicate (some e) h = bound-eq-text e h

  pub statement-in_order :
      (projection : Option (List Expression)) (predicate : Option Expression) (limit : Option ℕ)
      → statement_in_order projection predicate ≡ true
      → statement_bound parameters projection predicate limit
        ≡ statement_values parameters projection predicate limit
  statement-in_order projection predicate limit h =
      let p = conditions (projection_in_order projection) (predicate_in_order predicate) h in
      ap₂ (λ x y. x ++ (y ++ limit_values parameters limit)) (of_projection projection p.0)
        (of_predicate predicate p.1)
