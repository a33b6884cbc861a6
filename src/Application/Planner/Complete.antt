-- ===== src/Application/Planner/Complete.antt =====
-- The planner's last check finds no problem, src/invariantql/application/planner.py.
use invariantql.Prelude.{
  Bool, Bool-cases, List, Option, String, [], any, any-append, ap, arith, contains, false, inl, inr,
  is_empty, is_some, none, not, refl, select, some, suc, true, ℕ, ◌++◌, ◌∙◌, ◌∷◌, ◌≡◌,
}
use invariantql.Application.Binding.{BoundPlan}
use invariantql.Application.Placement.{PlanningTarget, plan_project}
use invariantql.Application.Planner.{
  PlanningState, after_filter, draft, finish, initial_state, plan_node, plan_nodes, plan_query,
  plan_scan,
}
use invariantql.Application.Planner.Filter.{check_predicate_passes, plan_filter_lem}
use invariantql.Application.Planner.Limit.{plan_limit_lem}
use invariantql.Application.Planner.Project.{project_placement, projector_passes}
use invariantql.Domain.Capabilities.{engine_to_dict, scan_to_dict}
use invariantql.Domain.Diagnostics.{value_error}
use invariantql.Domain.Execution.{
  ExecutionPlan, PushedOperations, ResidualOperations, check_completeness, check_executable,
  check_limit, check_nodes, check_placement, check_predicate, check_projector, output_names,
}
use invariantql.Domain.Execution.Equality.{expression_eq}
use invariantql.Domain.Explain.{ExplainNode, is_rejected, rejected_nodes}
use invariantql.Domain.Expressions.{Expression}
use invariantql.Domain.Expressions.Literals.{LiteralValue}
use invariantql.Domain.Expressions.Walk.{conjuncts_of, output_name}
use invariantql.Domain.Plan.{
  PlanNode, check_outputs, filter, limit, limit_count, make_project, node_id, nodes, predicate,
  project, projection, scan, source,
}
use invariantql.Domain.Plan.Canonical.{assemble, make_plan_iff}
use invariantql.Domain.Plan.Methods.{AreOutputs, IsValid}
use invariantql.Prelude.Results.{>>=-eq-ok, ok, raise_if-eq-ok}

-- Nodes of which none is rejected, and of which one is.
accepted_nodes :
    (ns : List ExplainNode)
    → any ns (λ n. is_rejected n.disposition) ≡ false
    → (select (λ n. is_rejected n.disposition) ns ≡ []) × (check_nodes ns ≡ [])
unfolding check_nodes
accepted_nodes [] h = (refl, refl)
accepted_nodes (n ∷ ns) h = elim (Bool-cases (is_rejected n.disposition)) [
  | inl r ↦ cc (rw r at h)
  | inr r ↦ let (a, b) = accepted_nodes ns (rw r at h) in rw r (rw (a, b) (refl, refl))
]

rejected_one :
    (ns : List ExplainNode)
    → any ns (λ n. is_rejected n.disposition) ≡ true
    → is_empty (select (λ n. is_rejected n.disposition) ns) ≡ false
rejected_one [] h = cc
rejected_one (n ∷ ns) h = elim (Bool-cases (is_rejected n.disposition)) [
  | inl r ↦ rw r
  | inr r ↦ rw r (rejected_one ns (rw r at h))
]

-- The nodes of a chain above its scan, without one, two and three of its parts.
limit_nodes : PlanNode → Option ℕ → List PlanNode
limit_nodes child none = []
limit_nodes child (some n) = limit child n ∷ []

project_nodes : PlanNode → Option (List Expression) → Option ℕ → List PlanNode
project_nodes child none n = limit_nodes child n
project_nodes child (some es) n = project child es ∷ limit_nodes (project child es) n

-- The expressions of a projection have outs.
abbrev HasNames : Option (List Expression) → Type 0
HasNames none = Unit
HasNames (some es) = (outs : List String) × (output_names es ≡ ok outs)

filter_nodes : PlanNode → Option Expression → Option (List Expression) → Option ℕ → List PlanNode
filter_nodes child none es n = project_nodes child es n
filter_nodes child (some p) es n = filter child p ∷ project_nodes (filter child p) es n

assemble-nodes :
    (name : String) (p : Option Expression) (es : Option (List Expression)) (n : Option ℕ)
    → nodes (assemble name p es n) ≡ scan name ∷ filter_nodes (scan name) p es n
unfolding nodes filter_nodes project_nodes limit_nodes
assemble-nodes name none none none = refl
assemble-nodes name none none (some n) = refl
assemble-nodes name none (some es) none = refl
assemble-nodes name none (some es) (some n) = refl
assemble-nodes name (some p) none none = refl
assemble-nodes name (some p) none (some n) = refl
assemble-nodes name (some p) (some es) none = refl
assemble-nodes name (some p) (some es) (some n) = refl

module _ (value_eq : LiteralValue → LiteralValue → Bool) (target : PlanningTarget) where
  -- The parts of the check on the chosen operations, for a plan with these parts.
  abbrev PassesParts :
      Option Expression
      → Option (List Expression)
      → Option ℕ
      → PushedOperations
      → ResidualOperations
      → Type 0
  PassesParts p es n pushed residual =
      (check_predicate (expression_eq value_eq) (scan_to_dict target.scan)
          (engine_to_dict target.engine) (conjuncts_of p) (conjuncts_of pushed.predicate)
          (conjuncts_of residual.predicate)
        ≡ [])
      × (check_placement (expression_eq value_eq) (scan_to_dict target.scan) es residual.predicate
            pushed.projection residual.projection
          ≡ ok [])
      × (check_projector (engine_to_dict target.engine) residual.projection ≡ [])
      × (check_limit (scan_to_dict target.scan) (engine_to_dict target.engine) n
            (is_some residual.predicate) pushed.limit residual.limit
          ≡ [])

  -- If no node was rejected so far, the parts placed so far pass.
  abbrev Passes : Option Expression → Option (List Expression) → Option ℕ → PlanningState → Type 0
  Passes p es n state =
      any state.nodes (λ node. is_rejected node.disposition) ≡ false
      → PassesParts p es n state.pushed state.residual

  last_accepted :
      (ns : List ExplainNode) (n : ExplainNode)
      → any (ns ++ n ∷ []) (λ m. is_rejected m.disposition) ≡ false
      → (any ns (λ m. is_rejected m.disposition) ≡ false) × (is_rejected n.disposition ≡ false)
  last_accepted ns n h =
      let e = any-append ns (n ∷ []) (λ m. is_rejected m.disposition) in
      (ground (arith, e), ground (arith, e))

  Passes-scan : (id : String) → Passes none none none (plan_scan target id initial_state)
  unfolding plan_scan check_placement check_projector check_limit
  Passes-scan id h =
      let nothing = check_predicate_passes value_eq target [] tt refl in
      elim (Bool-cases target.reachable) [
        | inl r ↦ simp r (nothing, refl, refl, refl)
        | inr r ↦ simp r (nothing, refl, refl, refl)
      ]

  run_limit :
      (i : ℕ) (child : PlanNode) (p : Option Expression) (es : Option (List Expression))
      (n : Option ℕ) (state : PlanningState)
      → Passes p es none state
      → (next : PlanningState) × (plan_nodes target state i (limit_nodes child n) ≡ ok next)
        × Passes p es n next
  unfolding plan_nodes plan_node limit_nodes
  run_limit i child p es none state h = (state, refl, h)
  run_limit i child p es (some n) state h = (
    _,
    refl,
    λ accepted.
        let (before, here) = last_accepted state.nodes _ accepted in
        let (a, b, c, _) = h before in
        (a, b, c, plan_limit_lem target _ n state.residual.predicate here),
  )

  module _ (same : (v : LiteralValue) → value_eq v v ≡ true) where
    run_project :
        (i : ℕ) (child : PlanNode) (p : Option Expression) (es : Option (List Expression))
        (n : Option ℕ) (state : PlanningState)
        → HasNames es
        → Passes p none none state
        → (next : PlanningState) × (plan_nodes target state i (project_nodes child es n) ≡ ok next)
          × Passes p es n next
    unfolding plan_nodes plan_node project_nodes plan_project
    run_project i child p none n state has h = run_limit i child p none n state h
    run_project i child p (some es) n state (outs, has) h = rw has (
        run_limit (suc i) (project child es) p (some es) n _ (λ accepted.
          let (before, here) = last_accepted state.nodes _ accepted in
          let (a, _, _, d) = h before in
          (
            a,
            project_placement value_eq target _ es state.residual.predicate outs same has,
            projector_passes value_eq target _ es _ outs has here,
            d,
          )))

    run_filter :
        (i : ℕ) (child : PlanNode) (p : Option Expression) (es : Option (List Expression))
        (n : Option ℕ) (state : PlanningState)
        → HasNames es
        → Passes none none none state
        → (next : PlanningState) × (plan_nodes target state i (filter_nodes child p es n) ≡ ok next)
          × Passes p es n next
    unfolding plan_nodes plan_node filter_nodes after_filter check_placement check_limit
    run_filter i child none es n state has h = run_project i child none es n state has h
    run_filter i child (some p) es n state has h =
        run_project (suc i) (filter child p) (some p) es n (after_filter target state _ p) has
          (λ accepted.
            let (before, here) = last_accepted state.nodes _ accepted in
            let (_, b, c, d) = h before in (plan_filter_lem value_eq target _ p here, b, c, d))

    -- What the check says of an execution plan whose parts pass.
    passes_check :
        (x : ExecutionPlan)
        → x.explain.scan_capabilities ≡ scan_to_dict target.scan
        → x.explain.engine_capabilities ≡ engine_to_dict target.engine
        → x.explain.executable ≡ not (any x.explain.nodes (λ n. is_rejected n.disposition))
        → (any x.explain.nodes (λ n. is_rejected n.disposition) ≡ false
            → PassesParts
                (predicate x.plan)
                (projection x.plan)
                (limit_count x.plan)
                x.pushed
                x.residual)
        → check_completeness (expression_eq value_eq) x ≡ ok []
    unfolding check_completeness check_executable rejected_nodes
    passes_check x s e executable parts =
        elim (Bool-cases (any x.explain.nodes (λ n. is_rejected n.disposition))) [
          | inl r ↦ rw (executable, r) (rw (rejected_one x.explain.nodes r))
          | inr r ↦
              let (a, b, c, d) = parts r in
              let (none_rejected, none_reported) = accepted_nodes x.explain.nodes r in
              rw (executable, r) (simp (s, e, a, b, c, d, none_rejected, none_reported))
        ]

check_outputs-outs :
    (seen : List String) (es : List Expression)
    → check_outputs seen es ≡ ok tt
    → (outs : List String) × (output_names es ≡ ok outs)
unfolding check_outputs
check_outputs-outs seen [] h = ([], refl)
check_outputs-outs seen (e ∷ es) h =
    let (name, here, next) = >>=-eq-ok (output_name e) _ h in
    let (_, later) = raise_if-eq-ok (contains name seen) value_error next in
    let (outs, rest) = check_outputs-outs (name ∷ seen) es later in (name ∷ outs, rw (here, rest))

HasNames-outputs : (es : Option (List Expression)) → AreOutputs es → HasNames es
unfolding make_project
HasNames-outputs none h = tt
HasNames-outputs (some []) h = cc
HasNames-outputs (some (e ∷ es)) h =
    let (_, checked, _) = >>=-eq-ok (check_outputs [] (e ∷ es)) _ h in
    check_outputs-outs [] (e ∷ es) checked

plan_query_of :
    (equal : Expression → Expression → Bool) (bound : BoundPlan) (target : PlanningTarget)
    (next : PlanningState)
    → plan_nodes target initial_state 0 (nodes bound.plan.root) ≡ ok next
    → check_completeness equal (finish bound target next) ≡ ok []
    → (draft bound target ≡ ok (finish bound target next))
      × (plan_query equal bound target ≡ ok (finish bound target next))
unfolding draft plan_query
plan_query_of equal bound target next h k = rw h (rw k (refl, refl))

run_scan :
    (target : PlanningTarget) (name : String) (ns : List PlanNode)
    → plan_nodes target initial_state 0 (scan name ∷ ns)
      ≡ plan_nodes target (plan_scan target (node_id 0 (scan name)) initial_state) 1 ns
unfolding plan_nodes plan_node
run_scan target name ns = refl

-- On a valid plan the planner returns an execution plan in which `check_completeness` finds no
-- problem, whatever the capabilities of the scan and the engine are: its assertion never fails,
-- provided that every literal value equals itself.
pub plan_query_lem :
    (value_eq : LiteralValue → LiteralValue → Bool)
    → ((v : LiteralValue) → value_eq v v ≡ true)
    → (bound : BoundPlan) (target : PlanningTarget) → IsValid bound.plan
    → (x : ExecutionPlan) × (draft bound target ≡ ok x)
      × (check_completeness (expression_eq value_eq) x ≡ ok [])
      × (plan_query (expression_eq value_eq) bound target ≡ ok x)
unfolding finish
plan_query_lem value_eq same bound target v =
    let p = predicate bound.plan in
    let es = projection bound.plan in
    let n = limit_count bound.plan in
    let name = source bound.plan in
    let e : nodes bound.plan.root ≡ scan name ∷ filter_nodes (scan name) p es n =
      ap nodes ((make_plan_iff bound.plan.root).0 v.accepted) ∙ assemble-nodes name p es n in
    let (next, run, passes) =
      run_filter value_eq target same 1 (scan name) p es n _ (HasNames-outputs es v.outputs)
        (Passes-scan value_eq target _) in
    let ran = ap (plan_nodes target initial_state 0) e ∙ run_scan target name _ ∙ run in
    let checked =
      passes_check value_eq target same (finish bound target next) refl refl refl passes in
    let (drafted, planned) = plan_query_of (expression_eq value_eq) bound target next ran checked in
    (finish bound target next, drafted, checked, planned)
