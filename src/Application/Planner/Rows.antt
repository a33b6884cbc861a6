-- ===== src/Application/Planner/Rows.antt =====
-- The rows that a placed filter keeps, src/invariantql/application/planner.py.
use invariantql.Prelude.{
  Bool, List, Option, String, [], all, all-append, ap₂, arith, false, inl, inr, is_empty, none,
  refl, select, some, sym, true, ◌&&◌, ◌||◌, ◌∙◌, ◌∷◌, ◌≡◌,
}
use invariantql.Application.Placement.{PlanningTarget, no_parts, plan_filter, split}
use invariantql.Application.Planner.Filter.{
  all-placed, not-eq-false, rechecked, report_filter-is_rejected, select_none,
}
use invariantql.Application.Planner.Split.{Support-cases, keeps, pushes, rejects, split-eq}
use invariantql.Domain.Capabilities.{full}
use invariantql.Domain.Explain.{is_rejected}
use invariantql.Domain.Expressions.{Expression, Expressions, and, column, cons, nil, to_list}
use invariantql.Domain.Expressions.Conjuncts.{
  AreClauses-select, conjuncts-and_all, conjuncts_of-AreClauses,
}
use invariantql.Domain.Expressions.Walk.{and_all, conjuncts, conjuncts_all, conjuncts_of}
use invariantql.Domain.Schema.{exact}

-- A conjunction accepts what each of its operands accepts.
abbrev pub IsConjunctive : (Expression → Bool) → Type 0
IsConjunctive test = (es : Expressions) → test (and es) ≡ all (to_list es) test

-- No predicate keeps every row.
abbrev pub accepts : (Expression → Bool) → Option Expression → Bool
accepts test none = true
accepts test (some e) = test e

module _ (test : Expression → Bool) (conjunctive : IsConjunctive test) where
  mutual
    unfolding conjuncts

    test-conjuncts : (e : Expression) → all (conjuncts e) test ≡ test e
    test-conjuncts (and es) = test-conjuncts_all es ∙ sym (conjunctive es)
    test-conjuncts (column name) = ground arith
    test-conjuncts _ = ground arith

    test-conjuncts_all : (es : Expressions) → all (conjuncts_all es) test ≡ all (to_list es) test
    test-conjuncts_all nil = refl
    test-conjuncts_all (cons e es) =
        all-append (conjuncts e) (conjuncts_all es) test
        ∙ ap₂ ◌&&◌ (test-conjuncts e) (test-conjuncts_all es)

  accepts-conjuncts_of : (o : Option Expression) → accepts test o ≡ all (conjuncts_of o) test
  accepts-conjuncts_of none = refl
  accepts-conjuncts_of (some e) = sym (test-conjuncts e)

-- Two tests that cover a list cover what is asked of all its elements.
all-cover :
    (p q test : Expression → Bool) (xs : List Expression)
    → all xs (λ x. p x || q x) ≡ true
    → (all (select p xs) test && all (select q xs) test) ≡ all xs test
all-cover p q test [] h = refl
all-cover p q test (x ∷ xs) h = ground (arith, all-cover p q test xs)

all-ext :
    (f g : Expression → Bool) (xs : List Expression)
    → ((x : Expression) → f x ≡ g x)
    → all xs f ≡ all xs g
all-ext f g [] h = refl
all-ext f g (x ∷ xs) h = cc (h x, all-ext f g xs h)

all-select_weaker :
    (p test weaker : Expression → Bool) (xs : List Expression)
    → ((x : Expression) → test x ≡ true → weaker x ≡ true)
    → (all (select p xs) weaker && all xs test) ≡ all xs test
all-select_weaker p test weaker [] h = refl
all-select_weaker p test weaker (x ∷ xs) h =
    ground (arith, h x, all-select_weaker p test weaker xs h)

module _ (target : PlanningTarget) (test source_test : Expression → Bool)
    (weaker : (e : Expression) → test e ≡ true → source_test e ≡ true)
    (exact : target.scan.predicate ≡ full → (e : Expression) → source_test e ≡ test e) where
  kept_rows :
      (xs : List Expression)
      → is_empty (select (rejects target) xs) ≡ true
      → (all (select (pushes target) xs) source_test && all (select (keeps target) xs) test)
        ≡ all xs test
  unfolding pushes
  kept_rows xs h = elim (Support-cases target.scan.predicate) [
    | inl s ↦
        rw (all-ext source_test test (select (pushes target) xs) (exact s))
          (all-cover (pushes target) (keeps target) test xs (all-placed target xs h))
    | inr (inl s) ↦
        rw (rechecked target xs s h) (all-select_weaker (pushes target) test source_test xs weaker)
    | inr (inr s) ↦
        let nothing : select (pushes target) xs ≡ [] =
          select_none (pushes target) xs (λ c. ground (arith, s)) in
        rw nothing (
          rw nothing at (all-cover (pushes target) (keeps target) test xs (all-placed target xs h)))
  ]

-- A filter that the planner does not reject keeps the right rows: a row passes the pushed predicate
-- at the source and then the residual one in the engine exactly when it passes the predicate of the
-- plan. The source may evaluate more loosely than the engine, but exactly where its support is full;
-- both accept a conjunction when they accept each operand.
pub plan_filter-rows :
    (target : PlanningTarget) (id : String) (p : Expression) (test source_test : Expression → Bool)
    → IsConjunctive test
    → IsConjunctive source_test
    → ((e : Expression) → test e ≡ true → source_test e ≡ true)
    → (target.scan.predicate ≡ full → (e : Expression) → source_test e ≡ test e)
    → let placed = plan_filter target id p in
      is_rejected placed.node.disposition ≡ false
      → (accepts source_test placed.pushed && accepts test placed.residual) ≡ test p
unfolding plan_filter
plan_filter-rows target id p test source_test engine_and source_and weaker exact h =
    let clauses = conjuncts_of-AreClauses (some p) in
    let xs = conjuncts p in
    let e = split-eq target no_parts xs in
    let accepted =
      not-eq-false (sym (report_filter-is_rejected target id (split target no_parts xs)) ∙ h) in
    rw e (
      rw
        (
          accepts-conjuncts_of source_test source_and (and_all (select (pushes target) xs)),
          accepts-conjuncts_of test engine_and (and_all (select (keeps target) xs)),
          conjuncts-and_all (select (pushes target) xs)
              (AreClauses-select (pushes target) xs clauses),
          conjuncts-and_all (select (keeps target) xs)
              (AreClauses-select (keeps target) xs clauses),
        )
        (kept_rows target test source_test weaker exact xs (rw e at accepted)
          ∙ test-conjuncts test engine_and p))
