-- ===== src/Application/Planner/Explained.antt =====
-- The explanation that the planner returns, src/invariantql/application/planner.py.
use invariantql.Prelude.{
  Bool, Bool-cases, List, Option, String, [], all, any, ap, append-nil, append_assoc, arith, inl,
  inr, is_empty, map, not, refl, subst, suc, sym, ℕ, ◌&&◌, ◌++◌, ◌∙◌, ◌∷◌, ◌≡◌,
}
use invariantql.Application.Binding.{BoundPlan}
use invariantql.Application.Placement.{
  Placement, PlanningTarget, is_full, place_limit, place_project, plan_filter, plan_limit,
  plan_project, report_filter, report_project, shown,
}
use invariantql.Application.Planner.{
  PlanningState, after_filter, draft, finish, initial_state, plan_node, plan_nodes, plan_query,
  plan_scan,
}
use invariantql.Domain.Diagnostics.{Diagnostic}
use invariantql.Domain.Execution.{
  ExecutionPlan, check_completeness, is_column, names_eq, output_names,
}
use invariantql.Domain.Execution.Equality.{expression_eq}
use invariantql.Domain.Explain.{ExplainNode, is_rejected}
use invariantql.Domain.Expressions.{Expression}
use invariantql.Domain.Plan.{PlanNode, filter, limit, node_id, nodes, operation, project, scan}
use invariantql.Prelude.Results.{>>=-eq-ok, ok, ok-injective}

-- The ids that `node_ids()` gives to nodes from an index on.
abbrev pub ids : ℕ → List PlanNode → List String
ids i [] = []
ids i (n ∷ ns) = node_id i n ∷ ids (suc i) ns

abbrev pub some_rejected : List ExplainNode → Bool
some_rejected shown = any shown (λ n. is_rejected n.disposition)

-- An explain node has the id and the operation of its node, and an error comes with a rejection.
IsExplained : String → String → ExplainNode → List Diagnostic → Type 0
IsExplained id name shown found =
    (shown.node_id ≡ id)
    × (shown.operation ≡ name)
    × (is_rejected shown.disposition ≡ not (is_empty found))

filter-IsExplained :
    (target : PlanningTarget) (id : String) (p : Expression)
    → let placed = plan_filter target id p in IsExplained id "filter" placed.node placed.diagnostics
unfolding plan_filter report_filter IsExplained
filter-IsExplained target id p = (ground arith, ground arith, ground arith)

report_project-IsExplained :
    (target : PlanningTarget) (id : String) (es : List Expression) (columns : Option (List String))
    → let (shown, found) = report_project target id es columns in
      IsExplained id "project" shown found
unfolding report_project IsExplained
report_project-IsExplained target id es columns = (ground arith, ground arith, ground arith)

project-IsExplained :
    (target : PlanningTarget) (id : String) (es : List Expression) (needed outs : List String)
    → let placed = place_project target id es needed outs in
      IsExplained id "project" placed.node placed.diagnostics
unfolding place_project IsExplained
project-IsExplained target id es needed outs =
    elim (Bool-cases (is_full target.scan.projection && all es is_column && names_eq needed outs)) [
      | inl c ↦ simp c (refl, refl, refl)
      | inr c ↦ simp c (report_project-IsExplained target id es _)
    ]

limit-IsExplained :
    (target : PlanningTarget) (id : String) (n : ℕ) (filters : Option Expression)
    → let placed = plan_limit target id n filters in
      IsExplained id "limit" placed.node placed.diagnostics
unfolding plan_limit place_limit IsExplained
limit-IsExplained target id n filters = (ground arith, ground arith, ground arith)

Explains : PlanningState → PlanningState → String → String → Type 0
Explains state next id name =
    (shown : ExplainNode) × (found : List Diagnostic) × (next.nodes ≡ state.nodes ++ shown ∷ [])
    × (next.diagnostics ≡ state.diagnostics ++ found)
    × IsExplained id name shown found

scan-Explains :
    (target : PlanningTarget) (id : String) (state : PlanningState)
    → Explains state (plan_scan target id state) id "scan"
unfolding plan_scan Explains IsExplained
scan-Explains target id state = elim (Bool-cases target.reachable) [
  | inl r ↦ simp r (_, [], refl, simp append-nil, (refl, refl, refl))
  | inr r ↦ simp r (_, _, refl, refl, (refl, refl, refl))
]

-- What the pass on a projection adds.
IsPlaced : PlanningState → String → Placement (List String) (List Expression) → Type 0
IsPlaced state id placed =
    (shown : ExplainNode) × (found : List Diagnostic) × (state.nodes ++ placed.node ∷ []
      ≡ state.nodes ++ shown ∷ [])
    × (state.diagnostics ++ placed.diagnostics ≡ state.diagnostics ++ found)
    × IsExplained id "project" shown found

is_empty-append : (ds es : List Diagnostic) → is_empty (ds ++ es) ≡ (is_empty ds && is_empty es)
is_empty-append [] es = refl
is_empty-append (d ∷ ds) es = refl

plan_node-Explains :
    (target : PlanningTarget) (state next : PlanningState) (id : String) (n : PlanNode)
    → plan_node target state id n ≡ ok next
    → Explains state next id (operation n)
unfolding plan_node plan_project after_filter Explains IsPlaced
plan_node-Explains target state next id (scan name) h =
    subst (λ s. Explains state s id "scan") (ok-injective h) (scan-Explains target id state)
plan_node-Explains target state next id (filter child p) h =
    subst (λ s. Explains state s id "filter") (ok-injective h)
      (_, _, refl, refl, filter-IsExplained target id p)
plan_node-Explains target state next id (project child es) h =
    let (placed, made, done) = >>=-eq-ok (plan_project target id es state.residual.predicate) _ h in
    let (outs, _, same) = >>=-eq-ok (output_names es) _ made in
    subst (λ s. Explains state s id "project") (ok-injective done)
      (subst (λ q. IsPlaced state id q) (ok-injective same)
        (_, _, refl, refl, project-IsExplained target id es _ outs))
plan_node-Explains target state next id (limit child n) h =
    subst (λ s. Explains state s id "limit") (ok-injective h)
      (_, _, refl, refl, limit-IsExplained target id n state.residual.predicate)

-- What the loop over the nodes adds to the explanation.
plan_nodes-explained :
    (target : PlanningTarget) (state last : PlanningState) (i : ℕ) (ns : List PlanNode)
    → plan_nodes target state i ns ≡ ok last
    → (shown : List ExplainNode) × (found : List Diagnostic) × (last.nodes ≡ state.nodes ++ shown)
      × (last.diagnostics ≡ state.diagnostics ++ found)
      × (map (λ m. m.node_id) shown ≡ ids i ns)
      × (map (λ m. m.operation) shown ≡ map operation ns)
      × (some_rejected shown ≡ not (is_empty found))
unfolding plan_nodes Explains IsExplained
plan_nodes-explained target state last i [] h =
    let same = ok-injective h in
    (
      [],
      [],
      rw append-nil (sym (ap (λ s. s.nodes) same)),
      rw append-nil (sym (ap (λ s. s.diagnostics) same)),
      refl,
      refl,
      refl,
    )
plan_nodes-explained target state last i (n ∷ ns) h =
    let (next, here, later) = >>=-eq-ok (plan_node target state (node_id i n) n) _ h in
    let (one, d, a1, b1, (c1, d1, e1)) =
      plan_node-Explains target state next (node_id i n) n here in
    let (more, ds, a2, b2, c2, d2, e2) = plan_nodes-explained target next last (suc i) ns later in
    (
      one ∷ more,
      d ++ ds,
      a2 ∙ rw a1 (append_assoc state.nodes (one ∷ []) more),
      b2 ∙ rw b1 (append_assoc state.diagnostics d ds),
      rw (c1, c2),
      rw (d1, d2),
      ground (arith, e1, e2, is_empty-append d ds),
    )

draft-explained :
    (bound : BoundPlan) (target : PlanningTarget) (x : ExecutionPlan)
    → draft bound target ≡ ok x
    → (map (λ m. m.node_id) x.explain.nodes ≡ ids 0 (nodes bound.plan.root))
      × (map (λ m. m.operation) x.explain.nodes ≡ map operation (nodes bound.plan.root))
      × (x.explain.executable ≡ is_empty x.explain.diagnostics)
unfolding draft finish
draft-explained bound target x h =
    let (last, ran, same) =
      >>=-eq-ok (plan_nodes target initial_state 0 (nodes bound.plan.root)) _ h in
    let (shown, found, a, b, c, d, e) =
      plan_nodes-explained target initial_state last 0 (nodes bound.plan.root) ran in
    subst
      (λ y.
        (map (λ m. m.node_id) y.explain.nodes ≡ ids 0 (nodes bound.plan.root))
        × (map (λ m. m.operation) y.explain.nodes ≡ map operation (nodes bound.plan.root))
        × (y.explain.executable ≡ is_empty y.explain.diagnostics))
      (ok-injective same) (rw a c, rw a d, rw (a, b) (ground (arith, e)))

-- A plan that the planner returns explains each node of the logical plan once, in order, under the
-- id and the operation of that node, and it is executable exactly when it has no diagnostic.
pub plan_query-explained :
    (expression_eq : Expression → Expression → Bool) (bound : BoundPlan) (target : PlanningTarget)
    (x : ExecutionPlan)
    → plan_query expression_eq bound target ≡ ok x
    → (map (λ m. m.node_id) x.explain.nodes ≡ ids 0 (nodes bound.plan.root))
      × (map (λ m. m.operation) x.explain.nodes ≡ map operation (nodes bound.plan.root))
      × (x.explain.executable ≡ is_empty x.explain.diagnostics)
unfolding plan_query
plan_query-explained expression_eq bound target x h =
    let (drafted, made, checked) = >>=-eq-ok (draft bound target) _ h in
    let (problems, _, returned) = >>=-eq-ok (check_completeness expression_eq drafted) _ checked in
    elim (Bool-cases (is_empty problems)) [
      | inl r ↦ draft-explained bound target x (made ∙ (rw r at returned))
      | inr r ↦ cc (rw r at returned)
    ]
