-- ===== src/Application/Planner/Placed.antt =====
-- Where the conjuncts of a filter go, by the support of the scan,
-- src/invariantql/application/planner.py.
use invariantql.Prelude.{
  Bool, List, String, [], all, ap, arith, conditions, false, inl, inr, is_empty, not, refl, select,
  select-eq_self, some, sym, true, ◌||◌, ◌∙◌, ◌∷◌, ◌≡◌,
}
use invariantql.Application.Placement.{PlanningTarget, no_parts, plan_filter, split}
use invariantql.Application.Planner.Filter.{
  all-imp, all-placed, all-select_imp, keeps-engine_supports, not-eq-false, rechecked,
  report_filter-is_rejected, select_none,
}
use invariantql.Application.Planner.Rows.{accepts}
use invariantql.Application.Planner.Split.{Support-cases, keeps, pushes, rejects, split-eq}
use invariantql.Domain.Capabilities.{Support, engine_supports, full, scan_supports}
use invariantql.Domain.Explain.{is_rejected}
use invariantql.Domain.Expressions.{Expression}
use invariantql.Domain.Expressions.Conjuncts.{
  AreClauses-select, conjuncts-and_all, conjuncts_of-AreClauses,
}
use invariantql.Domain.Expressions.Walk.{conjuncts, conjuncts_of}

-- The conjuncts to push, where `accepts` tells which of them the scan can evaluate.
abbrev pub expected_pushed : Support → (Expression → Bool) → List Expression → List Expression
expected_pushed full accepts cs = select accepts cs
expected_pushed Support.partial accepts cs = select accepts cs
expected_pushed Support.none accepts cs = []

-- The conjuncts for the engine.
abbrev pub expected_residual : Support → (Expression → Bool) → List Expression → List Expression
expected_residual full accepts cs = select (λ c. not (accepts c)) cs
expected_residual Support.partial accepts cs = cs
expected_residual Support.none accepts cs = cs

select_agree :
    (p q r : Expression → Bool) (xs : List Expression)
    → ((x : Expression) → r x ≡ true → p x ≡ q x)
    → all xs r ≡ true
    → select p xs ≡ select q xs
select_agree p q r [] h k = refl
select_agree p q r (x ∷ xs) h k =
    let (here, rest) = conditions (r x) (all xs r) k in rw (h x here, select_agree p q r xs h rest)

module _ (target : PlanningTarget) where
  pushed_by :
      {support : Support}
      → target.scan.predicate ≡ support
      → (cs : List Expression)
      → expected_pushed target.scan.predicate (scan_supports target.scan) cs
        ≡ expected_pushed support (scan_supports target.scan) cs
  pushed_by s cs = ap (λ support. expected_pushed support (scan_supports target.scan) cs) s

  residual_by :
      {support : Support}
      → target.scan.predicate ≡ support
      → (cs : List Expression)
      → expected_residual target.scan.predicate (scan_supports target.scan) cs
        ≡ expected_residual support (scan_supports target.scan) cs
  residual_by s cs = ap (λ support. expected_residual support (scan_supports target.scan) cs) s

  pushed-eq :
      (cs : List Expression)
      → is_empty (select (rejects target) cs) ≡ true
      → select (pushes target) cs
        ≡ expected_pushed target.scan.predicate (scan_supports target.scan) cs
  unfolding pushes keeps
  pushed-eq cs h = elim (Support-cases target.scan.predicate) [
    | inl s ↦
        select_agree (pushes target) (scan_supports target.scan)
          (λ c. pushes target c || keeps target c) cs (λ c k. ground (arith, s, k))
          (all-placed target cs h)
        ∙ sym (pushed_by s cs)
    | inr (inl s) ↦
        select_agree (pushes target) (scan_supports target.scan)
          (λ c. pushes target c || keeps target c) cs (λ c k. ground (arith, s, k))
          (all-placed target cs h)
        ∙ sym (pushed_by s cs)
    | inr (inr s) ↦ select_none (pushes target) cs (λ c. ground (arith, s)) ∙ sym (pushed_by s cs)
  ]

  kept-eq :
      (cs : List Expression)
      → is_empty (select (rejects target) cs) ≡ true
      → select (keeps target) cs
        ≡ expected_residual target.scan.predicate (scan_supports target.scan) cs
  unfolding pushes keeps
  kept-eq cs h = elim (Support-cases target.scan.predicate) [
    | inl s ↦
        select_agree (keeps target) (λ c. not (scan_supports target.scan c))
          (λ c. pushes target c || keeps target c) cs (λ c k. ground (arith, s, k))
          (all-placed target cs h)
        ∙ sym (residual_by s cs)
    | inr (inl s) ↦ rechecked target cs s h ∙ sym (residual_by s cs)
    | inr (inr s) ↦
        select-eq_self cs (keeps target)
          (all-imp _ _ cs (λ c k. ground (arith, s, k)) (all-placed target cs h))
        ∙ sym (residual_by s cs)
  ]

  -- The lists that `plan_filter` conjoins.
  plan_filter-lists :
      (id : String) (p : Expression)
      → let placed = plan_filter target id p in
        (conjuncts_of placed.pushed ≡ select (pushes target) (conjuncts p))
        × (conjuncts_of placed.residual ≡ select (keeps target) (conjuncts p))
  unfolding plan_filter
  plan_filter-lists id p =
      let clauses = conjuncts_of-AreClauses (some p) in
      let e = split-eq target no_parts (conjuncts p) in
      rw e (
        conjuncts-and_all (select (pushes target) (conjuncts p))
            (AreClauses-select (pushes target) (conjuncts p) clauses),
        conjuncts-and_all (select (keeps target) (conjuncts p))
            (AreClauses-select (keeps target) (conjuncts p) clauses),
      )

  plan_filter-rejects_none :
      (id : String) (p : Expression)
      → is_rejected (plan_filter target id p).node.disposition ≡ false
      → is_empty (select (rejects target) (conjuncts p)) ≡ true
  unfolding plan_filter
  plan_filter-rejects_none id p h = rw (split-eq target no_parts (conjuncts p)) at (
      not-eq-false
        (sym (report_filter-is_rejected target id (split target no_parts (conjuncts p))) ∙ h))

  kept-engine :
      (cs : List Expression) → all (select (keeps target) cs) (engine_supports target.engine) ≡ true
  kept-engine cs = all-select_imp (keeps target) _ cs (keeps-engine_supports target)

-- Where the planner does not reject a filter, the pushed predicate has the conjuncts that the scan can
-- evaluate, or none if its support is none. The residual one has the others under full support, and
-- every conjunct under partial support or none. Both keep the order of the predicate, and the engine
-- can evaluate each residual conjunct.
pub plan_filter-parts :
    (target : PlanningTarget) (id : String) (p : Expression)
    → let placed = plan_filter target id p in
      let accepts = scan_supports target.scan in
      is_rejected placed.node.disposition ≡ false
      → (conjuncts_of placed.pushed ≡ expected_pushed target.scan.predicate accepts (conjuncts p))
        × (conjuncts_of placed.residual
            ≡ expected_residual target.scan.predicate accepts (conjuncts p))
        × (all (conjuncts_of placed.residual) (engine_supports target.engine) ≡ true)
plan_filter-parts target id p h =
    let lists = plan_filter-lists target id p in
    let none_rejected = plan_filter-rejects_none target id p h in
    (
      lists.0 ∙ pushed-eq target (conjuncts p) none_rejected,
      lists.1 ∙ kept-eq target (conjuncts p) none_rejected,
      rw lists.1 (kept-engine target (conjuncts p)),
    )
