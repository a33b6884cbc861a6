-- ===== src/Application/Planner/Limit.antt =====
-- The placement of a limit passes the limit part of the completeness check,
-- src/invariantql/application/planner.py.
use invariantql.Prelude.{
  Bool-cases, List, Option, String, [], eqb, eqb_iff, false, inl, inr, is_some, none, refl, some,
  true, ℕ, ◌≡◌,
}
use invariantql.Application.Placement.{PlanningTarget, place_limit, plan_limit}
use invariantql.Application.Planner.Split.{Support-cases}
use invariantql.Domain.Capabilities.{engine_to_dict, scan_to_dict}
use invariantql.Domain.Diagnostics.{DiagnosticCode}
use invariantql.Domain.Execution.{check_limit, valid_limit}
use invariantql.Domain.Explain.{Disposition, ExecutionLocation, is_rejected}
use invariantql.Domain.Expressions.{Expression}

place_limit-accepted :
    (target : PlanningTarget) (id : String) (n : ℕ) (to_source : Option ℕ) (d : Disposition)
    (l : ExecutionLocation) (code : DiagnosticCode) (evidence : List String)
    → let placed = place_limit target id n to_source d l code evidence in
      is_rejected placed.node.disposition ≡ false
      → (target.engine.residual_limit ≡ true)
        × (placed.pushed ≡ to_source)
        × (placed.residual ≡ some n)
unfolding place_limit
place_limit-accepted target id n to_source d l code evidence h =
    elim (Bool-cases target.engine.residual_limit) [
      | inl r ↦ simp r (refl, refl, refl)
      | inr r ↦ cc (simp r at h)
    ]

eqb_refl : (n : ℕ) → eqb n n ≡ true
eqb_refl n = (eqb_iff n n).1 refl

-- The placement of a limit that the planner does not reject passes the limit part of
-- `check_completeness`: it is pushed, left to the engine, or both, as the scan's support and the
-- residual predicate demand, and the engine can apply a residual limit.
pub plan_limit_lem :
    (target : PlanningTarget) (id : String) (n : ℕ) (filters : Option Expression)
    → let placed = plan_limit target id n filters in
      is_rejected placed.node.disposition ≡ false
      → check_limit
          (scan_to_dict target.scan)
          (engine_to_dict target.engine)
          (some n)
          (is_some filters)
          placed.pushed
          placed.residual
        ≡ []
unfolding plan_limit check_limit valid_limit scan_to_dict engine_to_dict
plan_limit_lem target id n (some f) h =
    let (r, _, _) = place_limit-accepted target id n none _ _ _ [] h in simp (r, eqb_refl n)
plan_limit_lem target id n none h = elim (Support-cases target.scan.limit) [
  | inl s ↦ simp (s, eqb_refl n)
  | inr (inl s) ↦
      let (r, _, _) = place_limit-accepted target id n (some n) _ _ _ _ (simp s at h) in
      simp (s, r, eqb_refl n)
  | inr (inr s) ↦
      let (r, _, _) =
        place_limit-accepted target id n none _ _ _ target.scan.evidence (simp s at h) in
      simp (s, r, eqb_refl n)
]
