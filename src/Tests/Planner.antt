-- ===== src/Tests/Planner.antt =====
-- Runs of the properties of src/invariantql/application/planner.py.
use invariantql.Prelude.{
  Bool, [], all, ap, false, is_empty, map, not, refl, some, true, ◌&&◌, ◌==◌, ◌∷◌, ◌≡◌, ◌≢◌,
}
use invariantql.Application.Binding.{BoundPlan}
use invariantql.Application.Placement.{
  PlanningTarget, place, place_limit, plan_filter, plan_limit, report_filter, split,
}
use invariantql.Application.Planner.{draft, plan_query}
use invariantql.Application.Planner.Complete.{plan_query_lem}
use invariantql.Application.Planner.Explained.{ids, plan_query-explained}
use invariantql.Application.Planner.Limit.{plan_limit_lem}
use invariantql.Application.Planner.Placed.{expected_pushed, expected_residual, plan_filter-parts}
use invariantql.Application.Planner.Rows.{IsConjunctive, accepts, plan_filter-rows}
use invariantql.Domain.Capabilities.{
  Support, engine_supports, engine_to_dict, full, scan_supports, scan_to_dict, unsupported_kinds,
}
use invariantql.Domain.Capabilities.Unsupported.{unsupported_kinds-scan_supports}
use invariantql.Domain.Execution.{ExecutionPlan, check_completeness, check_limit}
use invariantql.Domain.Execution.Equality.{expression_eq}
use invariantql.Domain.Expressions.{
  Expression, Expressions, and, column, cons, is_null, kind_value, like, literal, nil,
}
use invariantql.Domain.Expressions.Literals.{LiteralValue}
use invariantql.Domain.Expressions.Walk.{conjuncts, conjuncts_of, walk}
use invariantql.Domain.Plan.{
  QueryPlan, check_outputs, make_plan, make_project, nodes, operation, projection, source,
}
use invariantql.Domain.Plan.Canonical.{assemble}
use invariantql.Domain.Plan.Methods.{IsValid}
use invariantql.Domain.Types.{string}
use invariantql.Prelude.Results.{ok}

-- Literal values all equal.
abbrev values_eq : LiteralValue → LiteralValue → Bool
values_eq _ _ = true

-- A scan that evaluates comparisons loosely, and an engine that evaluates everything.
abbrev loose : PlanningTarget
loose = record {
  engine_name = "duckdb";
  engine = record {
    name = "duckdb";
    residual_expressions = λ k. true;
    residual_projection = true;
    residual_limit = true;
    lazy = false;
    evidence = [];
  };
  scan = record {
    projection = full;
    predicate = Support.partial;
    limit = Support.none;
    expressions = λ k. not (kind_value k == "like");
    parameters = false;
    evidence = [];
  };
  reachable = true;
}

abbrev wanted : Expression
wanted = and (
    cons (is_null (column "paid") true) (
      cons
        (like (column "note")
          (literal (record { value = LiteralValue.text "a%"; data_type = string })) false)
        nil))

abbrev orders : QueryPlan
orders = record { root = assemble "orders" (some wanted) (some (column "id" ∷ [])) (some 10) }

abbrev bound_orders : BoundPlan
bound_orders = record {
  plan = orders;
  schema = record { fields = [] };
  output_schema = record { fields = [] };
}

orders-IsValid : IsValid orders
unfolding make_plan source projection make_project check_outputs
orders-IsValid = record { accepted = refl; source_named = refl; outputs = refl }

plan_query_lem_example :
    (x : ExecutionPlan) × (draft bound_orders loose ≡ ok x)
    × (check_completeness (expression_eq values_eq) x ≡ ok [])
    × (plan_query (expression_eq values_eq) bound_orders loose ≡ ok x)
plan_query_lem_example = plan_query_lem values_eq (λ v. refl) bound_orders loose orders-IsValid

plan_filter-parts_example :
    let placed = plan_filter loose "filter-1" wanted in
    let accepts = scan_supports loose.scan in
    (conjuncts_of placed.pushed ≡ expected_pushed loose.scan.predicate accepts (conjuncts wanted))
    × (conjuncts_of placed.residual
        ≡ expected_residual loose.scan.predicate accepts (conjuncts wanted))
    × (all (conjuncts_of placed.residual) (engine_supports loose.engine) ≡ true)
unfolding plan_filter split place report_filter scan_supports engine_supports conjuncts walk
plan_filter-parts_example = plan_filter-parts loose "filter-1" wanted refl

plan_limit_lem_example :
    check_limit
      (scan_to_dict loose.scan)
      (engine_to_dict loose.engine)
      (some 10)
      true
      (plan_limit loose "limit-3" 10 (some wanted)).pushed
      (plan_limit loose "limit-3" 10 (some wanted)).residual
    ≡ []
unfolding plan_limit place_limit
plan_limit_lem_example = plan_limit_lem loose "limit-3" 10 (some wanted) refl

-- The execution plan of the loose target.
abbrev loose_plan : ExecutionPlan
loose_plan = (plan_query_lem values_eq (λ v. refl) bound_orders loose orders-IsValid).0

plan_query-explained_example :
    (map (λ m. m.node_id) loose_plan.explain.nodes ≡ ids 0 (nodes orders.root))
    × (map (λ m. m.operation) loose_plan.explain.nodes ≡ map operation (nodes orders.root))
    × (loose_plan.explain.executable ≡ is_empty loose_plan.explain.diagnostics)
plan_query-explained_example =
    plan_query-explained (expression_eq values_eq) bound_orders loose loose_plan
      (plan_query_lem values_eq (λ v. refl) bound_orders loose orders-IsValid).3

-- A row whose note does not match: the engine's test, and a source that lets every row pass.
unfoldable mutual
  kept : Expression → Bool
  kept (and es) = all_kept es
  kept (like e p negated) = false
  kept e = true

  all_kept : Expressions → Bool
  all_kept nil = true
  all_kept (cons e es) = kept e && all_kept es

kept-IsConjunctive : IsConjunctive kept
unfolding kept
kept-IsConjunctive nil = refl
kept-IsConjunctive (cons e es) = ap (λ b. kept e && b) (kept-IsConjunctive es)

every-IsConjunctive : IsConjunctive (λ e. true)
every-IsConjunctive nil = refl
every-IsConjunctive (cons e es) = every-IsConjunctive es

partial-neq-full : Support.partial ≢ full
partial-neq-full h = cc

plan_filter-rows_example :
    (accepts (λ e. true) (plan_filter loose "filter-1" wanted).pushed
      && accepts kept (plan_filter loose "filter-1" wanted).residual)
    ≡ kept wanted
unfolding plan_filter split place report_filter scan_supports engine_supports conjuncts walk
plan_filter-rows_example =
    plan_filter-rows loose "filter-1" wanted kept (λ e. true) kept-IsConjunctive every-IsConjunctive
      (λ e h. refl) (λ h. absurd (partial-neq-full h)) refl

unsupported_kinds-scan_supports_example :
    is_empty (unsupported_kinds loose.scan wanted) ≡ scan_supports loose.scan wanted
unsupported_kinds-scan_supports_example = unsupported_kinds-scan_supports loose.scan wanted
