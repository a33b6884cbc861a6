-- ===== src/Application/Planner/Project.antt =====
-- The placement of a projection passes the projection parts of the completeness check,
-- src/invariantql/application/planner.py.
use invariantql.Prelude.{
  Bool, Bool-cases, List, Option, String, [], all, any, ap, arith, false, inl, inr, none, not, refl,
  some, true, ◌&&◌, ◌++◌, ◌||◌, ◌∷◌, ◌≡◌, ◌⊎◌,
}
use invariantql.Application.Placement.{PlanningTarget, is_full, place_project, report_project}
use invariantql.Application.Planner.Split.{Support-cases}
use invariantql.Domain.Capabilities.{
  EngineCapabilities, engine_supports, engine_to_dict, scan_to_dict,
}
use invariantql.Domain.Execution.{
  check_placement, check_projector, expected_projection, expression_list, is_column, list_eq,
  names_eq, output_names, some_node, unsupported_by_engine,
}
use invariantql.Domain.Execution.Equality.{expression_eq}
use invariantql.Domain.Execution.Reflexive.{list_eq_refl, names_eq_refl, option_eq_refl}
use invariantql.Domain.Execution.Supported.{some_node-engine}
use invariantql.Domain.Explain.{is_rejected}
use invariantql.Domain.Expressions.{Expression, alias, column}
use invariantql.Domain.Expressions.Conjuncts.{AreClauses}
use invariantql.Domain.Expressions.Literals.{LiteralValue}
use invariantql.Domain.Expressions.Walk.{conjuncts, output_name, referenced_columns}
use invariantql.Domain.Schema.{names}
use invariantql.Prelude.Results.{>>=-eq-ok, ok}

module _ (value_eq : LiteralValue → LiteralValue → Bool) (target : PlanningTarget) where
  placement_expected :
      (id : String) (es : List Expression) (needed names : List String)
      → let placed = place_project target id es needed names in
        (placed.pushed, placed.residual)
        ≡ expected_projection (scan_to_dict target.scan) es names needed
  unfolding place_project scan_to_dict
  placement_expected id es needed names = elim (Support-cases target.scan.projection) [
    | inl s ↦ simp s (ground arith)
    | inr (inl s) ↦ simp s
    | inr (inr s) ↦ simp s
  ]

  -- The planner rejects a residual projection that the engine cannot evaluate.
  report_project-is_rejected :
      (id : String) (es : List Expression) (columns : Option (List String))
      → is_rejected (report_project target id es columns).0.disposition ≡ (
          not target.engine.residual_projection
          || any es (λ e. not (engine_supports target.engine e)))
  unfolding report_project
  report_project-is_rejected id es columns = ground arith

  place_project-accepted :
      (id : String) (es : List Expression) (needed names : List String)
      → let placed = place_project target id es needed names in
        is_rejected placed.node.disposition ≡ false
        → (placed.residual ≡ none)
          ⊎ ((placed.residual ≡ some es)
              × (target.engine.residual_projection ≡ true)
              × (any es (λ e. not (engine_supports target.engine e)) ≡ false))
  unfolding place_project
  place_project-accepted id es needed names h =
      elim (Bool-cases
        (is_full target.scan.projection && all es is_column && names_eq needed names)) [
          | inl c ↦ simp c (inl refl)
          | inr c ↦
              let k = rw (report_project-is_rejected id es _) at (simp c at h) in
              simp c (inr (refl, ground arith, ground arith))
        ]

output_name-conjuncts :
    (e : Expression) (name : String) → output_name e ≡ ok name → conjuncts e ≡ e ∷ []
unfolding output_name conjuncts
output_name-conjuncts (column a) name h = refl
output_name-conjuncts (alias e a) name h = refl
output_name-conjuncts _ name h = cc

outputs-AreClauses :
    (es : List Expression) (names : List String) → output_names es ≡ ok names → AreClauses es
outputs-AreClauses [] names h = tt
outputs-AreClauses (e ∷ es) names h =
    let (name, here, next) = >>=-eq-ok (output_name e) _ h in
    let (rest, later, _) = >>=-eq-ok (output_names es) _ next in
    (output_name-conjuncts e name here, outputs-AreClauses es rest later)

any_unsupported :
    (able : EngineCapabilities) (es : List Expression)
    → AreClauses es
    → any es (some_node (unsupported_by_engine (engine_to_dict able)))
      ≡ any es (λ e. not (engine_supports able e))
any_unsupported able [] h = refl
any_unsupported able (e ∷ es) h =
    rw (some_node-engine able e h.0)
      (ap (λ b. not (engine_supports able e) || b) (any_unsupported able es h.1))

module _ (value_eq : LiteralValue → LiteralValue → Bool) (target : PlanningTarget) where
  -- Where the planner puts a projection is what `check_completeness` expects, rejected or not.
  pub project_placement :
      (id : String) (es : List Expression) (filters : Option Expression) (names : List String)
      → ((v : LiteralValue) → value_eq v v ≡ true)
      → output_names es ≡ ok names
      → let placed =
          place_project target id es (referenced_columns (es ++ expression_list filters)) names in
        check_placement
          (expression_eq value_eq)
          (scan_to_dict target.scan)
          (some es)
          filters
          placed.pushed
          placed.residual
        ≡ ok []
  unfolding check_placement
  project_placement id es filters names same h =
      let needed = referenced_columns (es ++ expression_list filters) in
      let e = placement_expected value_eq target id es needed names in
      rw h (
        rw (ap (λ x. x.0) e, ap (λ x. x.1) e)
          (rw (
            option_eq_refl names_eq names_eq_refl
                (expected_projection (scan_to_dict target.scan) es names needed).0,
            option_eq_refl (list_eq (expression_eq value_eq)) (list_eq_refl value_eq same)
                (expected_projection (scan_to_dict target.scan) es names needed).1,
          )))

  pub projector_passes :
      (id : String) (es : List Expression) (needed names : List String)
      → output_names es ≡ ok names
      → let placed = place_project target id es needed names in
        is_rejected placed.node.disposition ≡ false
        → check_projector (engine_to_dict target.engine) placed.residual ≡ []
  unfolding check_projector engine_to_dict
  projector_passes id es needed names h accepted =
      elim (place_project-accepted value_eq target id es needed names accepted) [
        | inl e ↦ rw e
        | inr (e, able, supported) ↦
            rw e (
              rw
                (able, any_unsupported target.engine es (outputs-AreClauses es names h), supported))
      ]
