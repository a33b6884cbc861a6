-- ===== src/Application/Planner/Filter.antt =====
-- The placement of a filter passes the predicate part of the completeness check, provided that the
-- planner did not reject the filter; src/invariantql/application/planner.py.
use invariantql.Prelude.{
  Bool, Bool-cases, List, String, [], all, all-select, and-eq-true_iff, arith, false, if◌then◌else◌,
  inl, inr, is_empty, not, refl, select, select-eq_self, some, sym, true, ◌&&◌, ◌++◌, ◌==◌, ◌||◌,
  ◌∙◌, ◌∷◌, ◌≡◌, ◌≢◌,
}
use invariantql.Application.Placement.{
  Parts, PlanningTarget, no_parts, plan_filter, report_filter, split,
}
use invariantql.Application.Planner.Split.{Support-cases, keeps, pushes, rejects, split-eq}
use invariantql.Domain.Capabilities.{
  EngineDict, ScanDict, Support, engine_supports, engine_to_dict, full, scan_supports, scan_to_dict,
}
use invariantql.Domain.Execution.{
  check_predicate, check_pushed, check_residual, exceeds, overlaps, partial_predicate_differs,
  predicate_differs, report_if, same_counts, some_node, unsupported_by_engine, unsupported_by_scan,
}
use invariantql.Domain.Execution.Counts.{
  all-keys, all-of, exceeds-select, overlaps_apart, same_counts-partition, same_counts_refl,
}
use invariantql.Domain.Execution.Equality.{expression_eq, expression_eq-kinds}
use invariantql.Domain.Execution.Supported.{scan_supports-kinds, some_node-engine, some_node-scan}
use invariantql.Domain.Explain.{is_rejected}
use invariantql.Domain.Expressions.{Expression}
use invariantql.Domain.Expressions.Conjuncts.{
  AreClauses, AreClauses-select, conjuncts-and_all, conjuncts_of-AreClauses,
}
use invariantql.Domain.Expressions.Literals.{LiteralValue}
use invariantql.Domain.Expressions.Walk.{conjuncts, conjuncts_of}

not-eq-true : {b : Bool} → not b ≡ true → b ≡ false
not-eq-true {b = true} h = cc
not-eq-true {b = false} h = refl

pub all-imp :
    (f g : Expression → Bool) (xs : List Expression)
    → ((x : Expression) → f x ≡ true → g x ≡ true)
    → all xs f ≡ true
    → all xs g ≡ true
all-imp f g [] h k = refl
all-imp f g (x ∷ xs) h k =
    let (here, rest) = (and-eq-true_iff (f x) (all xs f)).0 k in
    rw (h x here) (all-imp f g xs h rest)

pub all-select_imp :
    (p f : Expression → Bool) (xs : List Expression)
    → ((x : Expression) → p x ≡ true → f x ≡ true)
    → all (select p xs) f ≡ true
all-select_imp p f xs h = all-imp p f (select p xs) h (all-select xs p)

not_all_of_empty :
    (f : Expression → Bool) (xs : List Expression)
    → is_empty (select (λ x. not (f x)) xs) ≡ true
    → all xs f ≡ true
not_all_of_empty f [] h = refl
not_all_of_empty f (x ∷ xs) h = ground (arith, not_all_of_empty f xs)

pub select_none :
    (p : Expression → Bool) (xs : List Expression)
    → ((x : Expression) → p x ≡ false)
    → select p xs ≡ []
select_none p [] h = refl
select_none p (x ∷ xs) h = rw (h x) (select_none p xs h)

check_pushed_passes :
    (scan : ScanDict) (xs : List Expression)
    → all xs (λ c. not (scan.predicate == "none" || some_node (unsupported_by_scan scan) c)) ≡ true
    → check_pushed scan xs ≡ []
unfolding check_pushed
check_pushed_passes scan [] h = refl
check_pushed_passes scan (x ∷ xs) h =
    let (here, rest) = (and-eq-true_iff _ (all xs _)).0 h in
    rw (not-eq-true here) (check_pushed_passes scan xs rest)

check_residual_passes :
    (engine : EngineDict) (xs : List Expression)
    → all xs (λ c. not (some_node (unsupported_by_engine engine) c)) ≡ true
    → check_residual engine xs ≡ []
unfolding check_residual
check_residual_passes engine [] h = refl
check_residual_passes engine (x ∷ xs) h =
    let (here, rest) = (and-eq-true_iff _ (all xs _)).0 h in
    rw (not-eq-true here) (check_residual_passes engine xs rest)

module _ (target : PlanningTarget) where
  pushes-scan_supports :
      (c : Expression) → pushes target c ≡ true → scan_supports target.scan c ≡ true
  unfolding pushes
  pushes-scan_supports c h = ground arith

  pushes-predicate :
      (c : Expression)
      → pushes target c ≡ true
      → ((scan_to_dict target.scan).predicate == "none") ≡ false
  unfolding pushes scan_to_dict
  pushes-predicate c h = elim (Support-cases target.scan.predicate) [
    | inl s ↦ rw s
    | inr (inl s) ↦ rw s
    | inr (inr s) ↦ cc (rw s at h)
  ]

  pub keeps-engine_supports :
      (c : Expression) → keeps target c ≡ true → engine_supports target.engine c ≡ true
  unfolding keeps
  keeps-engine_supports c h = ground arith

  pushed_clauses_pass :
      (xs : List Expression)
      → all (select (pushes target) xs) (λ c. not (
          (scan_to_dict target.scan).predicate == "none"
          || some_node (unsupported_by_scan (scan_to_dict target.scan)) c))
        ≡ true
  pushed_clauses_pass xs = all-select_imp (pushes target) _ xs (λ c h.
      rw (pushes-predicate c h) (rw (some_node-scan target.scan c, pushes-scan_supports c h)))

  kept_clauses_pass :
      (xs : List Expression)
      → AreClauses xs
      → all
          (select (keeps target) xs)
          (λ c. not (some_node (unsupported_by_engine (engine_to_dict target.engine)) c))
        ≡ true
  kept_clauses_pass [] h = refl
  kept_clauses_pass (x ∷ xs) h = elim (Bool-cases (keeps target x)) [
    | inl k ↦ rw k (
        rw (some_node-engine target.engine x h.0, keeps-engine_supports x k)
          (kept_clauses_pass xs h.1))
    | inr k ↦ rw k (kept_clauses_pass xs h.1)
  ]

  -- Every conjunct is placed: what is not rejected is pushed or kept.
  pub all-placed :
      (xs : List Expression)
      → is_empty (select (rejects target) xs) ≡ true
      → all xs (λ c. pushes target c || keeps target c) ≡ true
  unfolding rejects
  all-placed xs h = not_all_of_empty (λ c. pushes target c || keeps target c) xs h

  -- Under a partial scan the engine rechecks every conjunct.
  pub rechecked :
      (xs : List Expression)
      → target.scan.predicate ≡ Support.partial
      → is_empty (select (rejects target) xs) ≡ true
      → select (keeps target) xs ≡ xs
  unfolding pushes keeps
  rechecked xs s h =
      select-eq_self xs (keeps target)
        (all-imp _ _ xs (λ c k. ground (arith, s, k)) (all-placed xs h))

module _ (value_eq : LiteralValue → LiteralValue → Bool) (target : PlanningTarget) where
  same_support :
      (a b : Expression)
      → expression_eq value_eq a b ≡ true
      → scan_supports target.scan a ≡ scan_supports target.scan b
  same_support a b h = scan_supports-kinds target.scan a b (expression_eq-kinds value_eq a b h)

  -- Under a scan that is not partial a conjunct is pushed or kept, never both.
  partitioned :
      (xs : List Expression)
      → target.scan.predicate ≢ Support.partial
      → all xs (λ c. not (pushes target c && keeps target c)) ≡ true
  unfolding pushes keeps
  partitioned xs s = all-of _ xs (λ c. elim (Support-cases target.scan.predicate) [
    | inl e ↦ rw e (ground arith)
    | inr (inl e) ↦ absurd (s e)
    | inr (inr e) ↦ rw e
  ])

  kept_apart :
      (xs : List Expression)
      → target.scan.predicate ≡ full
      → all (select (keeps target) xs) (λ c. not (scan_supports target.scan c)) ≡ true
  unfolding keeps
  kept_apart xs s = all-select_imp (keeps target) _ xs (λ c h. ground (arith, s))

  nothing_overlaps :
      (xs : List Expression)
      → target.scan.predicate ≡ Support.none
      → overlaps (expression_eq value_eq) (select (pushes target) xs) (select (keeps target) xs)
        ≡ false
  unfolding overlaps pushes
  nothing_overlaps xs s = simp (select_none (pushes target) xs (λ c. ground (arith, s)))

  placed_once :
      (xs : List Expression)
      → is_empty (select (rejects target) xs) ≡ true
      → let scan = scan_to_dict target.scan in
        let pushed = select (pushes target) xs in
        let residual = select (keeps target) xs in
        let eq = expression_eq value_eq in
        (if scan.predicate == "partial"
          then report_if
              (not (same_counts eq residual xs) || exceeds eq pushed xs)
              partial_predicate_differs
          else report_if
              (overlaps eq pushed residual || not (same_counts eq (pushed ++ residual) xs))
              predicate_differs)
        ≡ []
  unfolding scan_to_dict
  placed_once xs h = elim (Support-cases target.scan.predicate) [
    | inl s ↦ simp (
      s,
      overlaps_apart (expression_eq value_eq) (scan_supports target.scan) same_support
          (select (pushes target) xs) (select (keeps target) xs)
          (all-select_imp (pushes target) _ xs (pushes-scan_supports target)) (kept_apart xs s),
      same_counts-partition (expression_eq value_eq) (pushes target) (keeps target) xs
          (all-placed target xs h) (partitioned xs (λ e. cc (sym s ∙ e))),
    )
    | inr (inl s) ↦ simp (
      s,
      rechecked target xs s h,
      same_counts_refl (expression_eq value_eq) xs,
      exceeds-select (expression_eq value_eq) (pushes target) xs,
    )
    | inr (inr s) ↦ simp (
      s,
      nothing_overlaps xs s,
      same_counts-partition (expression_eq value_eq) (pushes target) (keeps target) xs
          (all-placed target xs h) (partitioned xs (λ e. cc (sym s ∙ e))),
    )
  ]

  known_support :
      not (
        (scan_to_dict target.scan).predicate == "full"
        || (scan_to_dict target.scan).predicate == "partial"
        || (scan_to_dict target.scan).predicate == "none")
      ≡ false
  unfolding scan_to_dict
  known_support = elim (Support-cases target.scan.predicate) [
    | inl s ↦ simp s
    | inr (inl s) ↦ simp s
    | inr (inr s) ↦ simp s
  ]

  pub check_predicate_passes :
      (xs : List Expression)
      → AreClauses xs
      → is_empty (select (rejects target) xs) ≡ true
      → check_predicate
          (expression_eq value_eq)
          (scan_to_dict target.scan)
          (engine_to_dict target.engine)
          xs
          (select (pushes target) xs)
          (select (keeps target) xs)
        ≡ []
  unfolding check_predicate
  check_predicate_passes xs clauses h =
      rw
        (
          check_pushed_passes (scan_to_dict target.scan) _
              (all-keys (expression_eq value_eq) _ _ (pushed_clauses_pass target xs)),
          check_residual_passes (engine_to_dict target.engine) _
              (all-keys (expression_eq value_eq) _ _ (kept_clauses_pass target xs clauses)),
        )
        (rw (known_support, placed_once xs h))

pub report_filter-is_rejected :
    (target : PlanningTarget) (id : String) (parts : Parts)
    → is_rejected (report_filter target id parts).0.disposition
      ≡ not (is_empty parts.rejected_parts)
unfolding report_filter
report_filter-is_rejected target id parts = ground arith

pub not-eq-false : {b : Bool} → not b ≡ false → b ≡ true
not-eq-false {b = true} h = refl
not-eq-false {b = false} h = cc

-- The placement of a filter that the planner does not reject passes the predicate part of
-- `check_completeness`.
pub plan_filter_lem :
    (value_eq : LiteralValue → LiteralValue → Bool) (target : PlanningTarget) (id : String)
    (p : Expression)
    → let placed = plan_filter target id p in
      is_rejected placed.node.disposition ≡ false
      → check_predicate
          (expression_eq value_eq)
          (scan_to_dict target.scan)
          (engine_to_dict target.engine)
          (conjuncts p)
          (conjuncts_of placed.pushed)
          (conjuncts_of placed.residual)
        ≡ []
unfolding plan_filter
plan_filter_lem value_eq target id p h =
    let clauses = conjuncts_of-AreClauses (some p) in
    let e = split-eq target no_parts (conjuncts p) in
    let accepted =
      not-eq-false
        (sym (report_filter-is_rejected target id (split target no_parts (conjuncts p))) ∙ h) in
    rw e (
      rw
        (
          conjuncts-and_all (select (pushes target) (conjuncts p))
              (AreClauses-select (pushes target) (conjuncts p) clauses),
          conjuncts-and_all (select (keeps target) (conjuncts p))
              (AreClauses-select (keeps target) (conjuncts p) clauses),
        )
        (check_predicate_passes value_eq target (conjuncts p) clauses (rw e at accepted)))
