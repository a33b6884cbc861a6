-- ===== src/Domain/Execution.antt =====
-- src/invariantql/domain/execution.py: the split of a plan into pushed and residual operations, and
-- the check of the pushdown completeness invariant. Python's `==` on literal values is a parameter;
-- the check's report of a violation is the constructor of a Problem.
pub mod Equality
pub mod Counts
pub mod Reflexive
pub mod Supported
use invariantql.Prelude.{
  Bool, List, Option, String, [], all, any, contains, eqb, false, if◌then◌else◌, is_empty, is_some,
  ltb, min, none, not, select, some, suc, true, ℕ, ◌&&◌, ◌++◌, ◌==◌, ◌||◌, ◌∷◌,
}
use invariantql.Domain.Capabilities.{EngineDict, ScanDict}
use invariantql.Domain.Diagnostics.{Outcome}
use invariantql.Domain.Explain.{ExplainNode, ExplainPlan, is_rejected, rejected_nodes}
use invariantql.Domain.Expressions.{Expression, ExpressionKind, column, kind, kind_value}
use invariantql.Domain.Expressions.Walk.{conjuncts_of, output_name, referenced_columns, walk}
use invariantql.Domain.Plan.{QueryPlan, limit_count, predicate, projection, source}
use invariantql.Domain.Schema.{Schema}
use invariantql.Prelude.Results.{ok, traverse, ◌>>=◌}

-- PushedOperations and ResidualOperations.
pub record PushedOperations : Type 0 where
  pub projection : Option (List String)
  pub predicate : Option Expression
  pub limit : Option ℕ

pub record ResidualOperations : Type 0 where
  pub projection : Option (List Expression)
  pub predicate : Option Expression
  pub limit : Option ℕ

pub record ExecutionPlan : Type 0 where
  pub plan : QueryPlan
  pub engine : String
  pub source : String
  pub schema : Schema
  pub output_schema : Schema
  pub pushed : PushedOperations
  pub residual : ResidualOperations
  pub explain : ExplainPlan

pub data Problem : Type 0 where
  no_rejected_node rejected_nodes_in_executable : Problem
  unknown_predicate_support : String → Problem
  pushed_predicate_exceeds residual_predicate_exceeds : Expression → Problem
  partial_predicate_differs predicate_differs projection_differs : Problem
  projection_without_logical residual_projection_unsupported : Problem
  residual_projection_exceeds : Problem
  limit_differs limit_without_logical residual_limit_unsupported : Problem
  rejected_node : String → Problem

-- `if test: problems.append(problem)`
abbrev pub report_if : Bool → Problem → List Problem
report_if true problem = problem ∷ []
report_if false problem = []

-- A Counter of a list of expressions, by an equality test: the list stands for the Counter, a key
-- is an element, and its count is the number of the elements equal to it.
module _ (expression_eq : Expression → Expression → Bool) where
  unfoldable pub count : Expression → List Expression → ℕ
  count e [] = 0
  count e (f ∷ fs) = if expression_eq e f then suc (count e fs) else count e fs

  -- `left == right`
  unfoldable pub same_counts : List Expression → List Expression → Bool
  same_counts left right = all (left ++ right) (λ e. eqb (count e left) (count e right))

  -- The Counter `left & right` has a key.
  unfoldable pub overlaps : List Expression → List Expression → Bool
  overlaps left right = any left (λ e. ltb 0 (min (count e left) (count e right)))

  -- The Counter `left - right` has a key.
  unfoldable pub exceeds : List Expression → List Expression → Bool
  exceeds left right = any left (λ e. ltb (count e right) (count e left))

  -- The keys of the Counter, each once.
  unfoldable pub keys : List Expression → List Expression
  unfolding count
  keys [] = []
  keys (e ∷ es) = e ∷ select (λ f. not (expression_eq e f)) (keys es)

-- The names that a projection outputs; `output_name` raises on any other expression.
abbrev pub output_names : List Expression → Outcome (List String)
output_names es = traverse output_name es

abbrev pub is_column : Expression → Bool
is_column (column _) = true
is_column _ = false

abbrev pub names_eq : List String → List String → Bool
names_eq [] [] = true
names_eq (a ∷ as_) (b ∷ bs) = a == b && names_eq as_ bs
names_eq _ _ = false

abbrev pub option_eq {ℓ} : {A : Type ℓ} → (A → A → Bool) → Option A → Option A → Bool
option_eq eq none none = true
option_eq eq (some a) (some b) = eq a b
option_eq eq _ _ = false

abbrev pub list_eq {ℓ} : {A : Type ℓ} → (A → A → Bool) → List A → List A → Bool
list_eq eq [] [] = true
list_eq eq (a ∷ as_) (b ∷ bs) = eq a b && list_eq eq as_ bs
list_eq eq _ _ = false

-- A kind whose value stands in no list of the scan's dictionary, or a parameter where the scan
-- takes none.
abbrev pub unsupported_by_scan : ScanDict → ExpressionKind → Bool
unsupported_by_scan scan k =
    not (contains (kind_value k) scan.expressions)
    || kind_value k == "parameter" && not scan.parameters

abbrev pub unsupported_by_engine : EngineDict → ExpressionKind → Bool
unsupported_by_engine engine k = not (contains (kind_value k) engine.residual_expressions)

abbrev pub some_node : (ExpressionKind → Bool) → Expression → Bool
some_node test e = any (walk e) (λ node. test (kind node))

-- The loop over the pushed clauses.
unfoldable pub check_pushed : ScanDict → List Expression → List Problem
check_pushed scan [] = []
check_pushed scan (clause ∷ clauses) =
    report_if (scan.predicate == "none" || some_node (unsupported_by_scan scan) clause)
      (pushed_predicate_exceeds clause)
    ++ check_pushed scan clauses

-- The loop over the residual clauses.
unfoldable pub check_residual : EngineDict → List Expression → List Problem
check_residual engine [] = []
check_residual engine (clause ∷ clauses) =
    report_if (some_node (unsupported_by_engine engine) clause) (residual_predicate_exceeds clause)
    ++ check_residual engine clauses

-- Where the projection of an executable plan belongs: the pushed columns and the residual.
abbrev pub expected_projection :
    ScanDict
    → List Expression
    → List String
    → List String
    → Option (List String) × Option (List Expression)
expected_projection scan es names needed =
    if scan.projection == "full" && all es is_column && names_eq needed names
    then (some names, none)
    else (
      (if (scan.projection == "full" || scan.projection == "partial") && not (is_empty needed)
          then some needed
          else none),
      some es,
    )

unfoldable pub valid_limit : ScanDict → Bool → ℕ → Option ℕ → Option ℕ → Bool
valid_limit scan filters count pushed residual =
    if filters
    then option_eq eqb pushed none && option_eq eqb residual (some count)
    else if scan.limit == "full"
    then option_eq eqb pushed (some count) && option_eq eqb residual none
    else if scan.limit == "partial"
    then option_eq eqb pushed (some count) && option_eq eqb residual (some count)
    else if scan.limit == "none"
    then option_eq eqb pushed none && option_eq eqb residual (some count)
    else false

abbrev pub expression_list : Option Expression → List Expression
expression_list none = []
expression_list (some e) = e ∷ []

-- The loop over the nodes at the end.
unfoldable pub check_nodes : List ExplainNode → List Problem
check_nodes [] = []
check_nodes (n ∷ ns) =
    report_if (is_rejected n.disposition) (rejected_node n.node_id) ++ check_nodes ns

module _ (expression_eq : Expression → Expression → Bool) where
  -- The part of the check on the logical, pushed and residual conjuncts.
  unfoldable pub check_predicate :
      ScanDict → EngineDict → List Expression → List Expression → List Expression → List Problem
  check_predicate scan engine logical pushed residual =
      report_if
        (not (scan.predicate == "full" || scan.predicate == "partial" || scan.predicate == "none"))
        (unknown_predicate_support scan.predicate)
      ++ (check_pushed scan (keys expression_eq pushed)
          ++ ((if scan.predicate == "partial"
                then report_if
                    (not (same_counts expression_eq residual logical)
                      || exceeds expression_eq pushed logical)
                    partial_predicate_differs
                else report_if
                    (overlaps expression_eq pushed residual
                      || not (same_counts expression_eq (pushed ++ residual) logical))
                    predicate_differs)
              ++ check_residual engine (keys expression_eq residual)))

  -- The part on the logical projection; `filters` is the residual predicate.
  unfoldable pub check_placement :
      ScanDict
      → Option (List Expression)
      → Option Expression
      → Option (List String)
      → Option (List Expression)
      → Outcome (List Problem)
  check_placement scan (some es) filters pushed residual = do
    outputs ← output_names es
    let needed = referenced_columns (es ++ expression_list filters)
    let (expected_pushed, expected_residual) = expected_projection scan es outputs needed
    ok (
        report_if
          (not (option_eq names_eq pushed expected_pushed)
            || not (option_eq (list_eq expression_eq) residual expected_residual))
          projection_differs)
  check_placement scan none filters pushed residual =
      ok (report_if (is_some residual || is_some pushed) projection_without_logical)

-- The engine must be able to evaluate a residual projection.
unfoldable pub check_projector : EngineDict → Option (List Expression) → List Problem
check_projector engine none = []
check_projector engine (some es) =
    report_if (not engine.residual_projection) residual_projection_unsupported
    ++ report_if (any es (some_node (unsupported_by_engine engine))) residual_projection_exceeds

-- The part on the logical limit; `filters` says whether there is a residual predicate.
unfoldable pub check_limit :
    ScanDict → EngineDict → Option ℕ → Bool → Option ℕ → Option ℕ → List Problem
check_limit scan engine (some n) filters pushed residual =
    report_if (not (valid_limit scan filters n pushed residual)) limit_differs
    ++ report_if (is_some residual && not engine.residual_limit) residual_limit_unsupported
check_limit scan engine none filters pushed residual =
    report_if (is_some pushed || is_some residual) limit_without_logical
    ++ report_if (is_some residual && not engine.residual_limit) residual_limit_unsupported

module _ (expression_eq : Expression → Expression → Bool) where
  -- The checks of an executable plan, in the order of the source.
  unfoldable pub check_executable : ExecutionPlan → Outcome (List Problem)
  check_executable x = do
    let scan = x.explain.scan_capabilities
    let engine = x.explain.engine_capabilities
    placement ←
        check_placement expression_eq scan (projection x.plan) x.residual.predicate
          x.pushed.projection x.residual.projection
    ok (
        report_if (not (is_empty (rejected_nodes x.explain))) rejected_nodes_in_executable
        ++ (check_predicate expression_eq scan engine (conjuncts_of (predicate x.plan))
              (conjuncts_of x.pushed.predicate) (conjuncts_of x.residual.predicate)
            ++ (placement
                ++ (check_projector engine x.residual.projection
                    ++ (check_limit scan engine (limit_count x.plan) (is_some x.residual.predicate)
                          x.pushed.limit x.residual.limit
                        ++ check_nodes x.explain.nodes)))))

  unfoldable pub check_completeness : ExecutionPlan → Outcome (List Problem)
  check_completeness x =
      if x.explain.executable
      then check_executable x
      else ok (report_if (is_empty (rejected_nodes x.explain)) no_rejected_node)
