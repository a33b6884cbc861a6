-- ===== src/Domain/Execution/Equality.antt =====
-- Python's `==` on expressions, which the Counters of `check_completeness` compare by: the frozen
-- dataclasses of src/invariantql/domain/expressions.py compare class and fields. How two literal
-- values compare is Python's own, a parameter.
use invariantql.Prelude.{
  Bool, List, and-eq-true_iff, ap, arith, beq, false, map, map-append, refl, true, ◌&&◌, ◌++◌, ◌==◌,
  ◌∷◌, ◌≡◌,
}
use invariantql.Domain.Expressions.{
  ComparisonOp, Expression, ExpressionKind, Expressions, alias, and, arithmetic, column, comparison,
  cons, eq, ge, gt, is_in, is_null, kind, le, like, literal, lt, ne, nil, not, operation_value, or,
  parameter,
}
use invariantql.Domain.Expressions.Literals.{LiteralValue}
use invariantql.Domain.Expressions.Walk.{walk, walk_all}
use invariantql.Domain.Types.Equality.{type_eq}

abbrev pub comparison_eq : ComparisonOp → ComparisonOp → Bool
comparison_eq eq eq = true
comparison_eq ne ne = true
comparison_eq lt lt = true
comparison_eq le le = true
comparison_eq gt gt = true
comparison_eq ge ge = true
comparison_eq _ _ = false

kinds-append :
    (as_ bs cs ds : List Expression)
    → map kind as_ ≡ map kind cs
    → map kind bs ≡ map kind ds
    → map kind (as_ ++ bs) ≡ map kind (cs ++ ds)
kinds-append as_ bs cs ds h k = rw map-append (rw map-append (cc))

-- The parts of a conjunction of three tests.
three_true : (a b c : Bool) → (a && b && c) ≡ true → (a ≡ true) × (b ≡ true) × (c ≡ true)
three_true a b c h = ground arith

module _ (value_eq : LiteralValue → LiteralValue → Bool) where
  unfoldable mutual
    pub expression_eq : Expression → Expression → Bool
    expression_eq (column a) (column b) = a == b
    expression_eq (literal a) (literal b) =
        value_eq a.value b.value && type_eq a.data_type b.data_type
    expression_eq (parameter a) (parameter b) = a == b
    expression_eq (comparison o a b) (comparison p c d) =
        comparison_eq o p && expression_eq a c && expression_eq b d
    expression_eq (and as_) (and bs) = expressions_eq as_ bs
    expression_eq (or as_) (or bs) = expressions_eq as_ bs
    expression_eq (not a) (not b) = expression_eq a b
    expression_eq (is_null a m) (is_null b n) = expression_eq a b && beq m n
    expression_eq (is_in a as_ m) (is_in b bs n) =
        expression_eq a b && expressions_eq as_ bs && beq m n
    expression_eq (like a b m) (like c d n) = expression_eq a c && expression_eq b d && beq m n
    expression_eq (arithmetic o a b) (arithmetic p c d) =
        operation_value o == operation_value p && expression_eq a c && expression_eq b d
    expression_eq (alias a m) (alias b n) = expression_eq a b && m == n
    expression_eq _ _ = false

    pub expressions_eq : Expressions → Expressions → Bool
    expressions_eq nil nil = true
    expressions_eq (cons a as_) (cons b bs) = expression_eq a b && expressions_eq as_ bs
    expressions_eq _ _ = false

  -- Equal expressions have the same kinds of nodes, in the order of the walks.
  mutual
    unfolding expression_eq walk

    pub expression_eq-kinds :
        (a b : Expression) → expression_eq a b ≡ true → map kind (walk a) ≡ map kind (walk b)
    expression_eq-kinds (column a) (column b) h = refl
    expression_eq-kinds (literal a) (literal b) h = refl
    expression_eq-kinds (parameter a) (parameter b) h = refl
    expression_eq-kinds (comparison o a b) (comparison p c d) h =
        let (_, ha, hb) =
          three_true (comparison_eq o p) (expression_eq a c) (expression_eq b d) h in
        ap (λ ks. ExpressionKind.comparison ∷ ks)
          (kinds-append (walk a) (walk b) (walk c) (walk d) (expression_eq-kinds a c ha)
            (expression_eq-kinds b d hb))
    expression_eq-kinds (and as_) (and bs) h = cc (expressions_eq-kinds as_ bs h)
    expression_eq-kinds (or as_) (or bs) h = cc (expressions_eq-kinds as_ bs h)
    expression_eq-kinds (not a) (not b) h = cc (expression_eq-kinds a b h)
    expression_eq-kinds (is_null a m) (is_null b n) h =
        cc (expression_eq-kinds a b ((and-eq-true_iff (expression_eq a b) _).0 h).0)
    expression_eq-kinds (is_in a as_ m) (is_in b bs n) h =
        let (ha, hs, _) = three_true (expression_eq a b) (expressions_eq as_ bs) (beq m n) h in
        ap (λ ks. ExpressionKind.is_in ∷ ks)
          (kinds-append (walk a) (walk_all as_) (walk b) (walk_all bs) (expression_eq-kinds a b ha)
            (expressions_eq-kinds as_ bs hs))
    expression_eq-kinds (like a b m) (like c d n) h =
        let (ha, hb, _) = three_true (expression_eq a c) (expression_eq b d) (beq m n) h in
        ap (λ ks. ExpressionKind.like ∷ ks)
          (kinds-append (walk a) (walk b) (walk c) (walk d) (expression_eq-kinds a c ha)
            (expression_eq-kinds b d hb))
    expression_eq-kinds (arithmetic o a b) (arithmetic p c d) h =
        let (_, ha, hb) =
          three_true (operation_value o == operation_value p) (expression_eq a c)
            (expression_eq b d) h in
        ap (λ ks. ExpressionKind.arithmetic ∷ ks)
          (kinds-append (walk a) (walk b) (walk c) (walk d) (expression_eq-kinds a c ha)
            (expression_eq-kinds b d hb))
    expression_eq-kinds (alias a m) (alias b n) h =
        cc (expression_eq-kinds a b ((and-eq-true_iff (expression_eq a b) _).0 h).0)
    expression_eq-kinds _ _ h = cc

    expressions_eq-kinds :
        (a b : Expressions)
        → expressions_eq a b ≡ true
        → map kind (walk_all a) ≡ map kind (walk_all b)
    expressions_eq-kinds nil nil h = refl
    expressions_eq-kinds (cons a as_) (cons b bs) h =
        let (ha, hs) = (and-eq-true_iff (expression_eq a b) _).0 h in
        kinds-append (walk a) (walk_all as_) (walk b) (walk_all bs) (expression_eq-kinds a b ha)
          (expressions_eq-kinds as_ bs hs)
    expressions_eq-kinds _ _ h = cc
