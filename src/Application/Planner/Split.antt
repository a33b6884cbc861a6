-- ===== src/Application/Planner/Split.antt =====
-- What the loop over the conjuncts of a filter fills its lists with,
-- src/invariantql/application/planner.py.
use invariantql.Prelude.{
  Bool, Bool-cases, List, [], append-nil, append_assoc, arith, inl, inr, not, refl, select, ◌&&◌,
  ◌++◌, ◌||◌, ◌∷◌, ◌≡◌, ◌⊎◌,
}
use invariantql.Application.Placement.{Parts, PlanningTarget, is_full, is_unsupported, place, split}
use invariantql.Domain.Capabilities.{Support, engine_supports, full, scan_supports}
use invariantql.Domain.Expressions.{Expression}

pub Support-cases : (s : Support) → (s ≡ full) ⊎ (s ≡ Support.partial) ⊎ (s ≡ Support.none)
Support-cases full = inl refl
Support-cases Support.partial = inr (inl refl)
Support-cases Support.none = inr (inr refl)

select-append :
    (p : Expression → Bool) (xs ys : List Expression)
    → select p (xs ++ ys) ≡ select p xs ++ select p ys
select-append p [] ys = refl
select-append p (x ∷ xs) ys = ground (arith, select-append p xs ys)

module _ (target : PlanningTarget) where
  -- The conjuncts that go to the source, that stay with the engine, and that neither can evaluate.
  unfoldable pub pushes : Expression → Bool
  pushes c =
      not (is_unsupported target.scan.predicate)
      && scan_supports target.scan c
      && (is_full target.scan.predicate || engine_supports target.engine c)

  unfoldable pub keeps : Expression → Bool
  keeps c =
      engine_supports target.engine c
      && not (is_full target.scan.predicate && scan_supports target.scan c)

  unfoldable pub rejects : Expression → Bool
  unfolding pushes keeps
  rejects c = not (pushes c || keeps c)

  abbrev pub add_parts : Parts → List Expression → Parts
  add_parts parts cs = record {
    pushed_parts = parts.pushed_parts ++ select pushes cs;
    residual_parts = parts.residual_parts ++ select keeps cs;
    rejected_parts = parts.rejected_parts ++ select rejects cs;
  }

  place-eq : (parts : Parts) (c : Expression) → place target parts c ≡ add_parts parts (c ∷ [])
  unfolding place pushes keeps rejects
  place-eq parts c = elim (Bool-cases (scan_supports target.scan c)) [
    | inl h ↦ elim (Bool-cases (engine_supports target.engine c)) [
      | inl k ↦ elim (Support-cases target.scan.predicate) [
        | inl s ↦ rw (h, k) (rw s (simp append-nil))
        | inr (inl s) ↦ rw (h, k) (rw s (simp append-nil))
        | inr (inr s) ↦ rw (h, k) (rw s (simp append-nil))
      ]
      | inr k ↦ elim (Support-cases target.scan.predicate) [
        | inl s ↦ rw (h, k) (rw s (simp append-nil))
        | inr (inl s) ↦ rw (h, k) (rw s (simp append-nil))
        | inr (inr s) ↦ rw (h, k) (rw s (simp append-nil))
      ]
    ]
    | inr h ↦ elim (Bool-cases (engine_supports target.engine c)) [
      | inl k ↦ elim (Support-cases target.scan.predicate) [
        | inl s ↦ rw (h, k) (rw s (simp append-nil))
        | inr (inl s) ↦ rw (h, k) (rw s (simp append-nil))
        | inr (inr s) ↦ rw (h, k) (rw s (simp append-nil))
      ]
      | inr k ↦ elim (Support-cases target.scan.predicate) [
        | inl s ↦ rw (h, k) (rw s (simp append-nil))
        | inr (inl s) ↦ rw (h, k) (rw s (simp append-nil))
        | inr (inr s) ↦ rw (h, k) (rw s (simp append-nil))
      ]
    ]
  ]

  pub split-eq : (parts : Parts) (cs : List Expression) → split target parts cs ≡ add_parts parts cs
  unfolding split
  split-eq parts [] = simp append-nil
  split-eq parts (c ∷ cs) =
      rw (place-eq parts c)
        (rw (split-eq (add_parts parts (c ∷ [])) cs) (simp (append_assoc, ← select-append)))
