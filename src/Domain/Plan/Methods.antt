-- ===== src/Domain/Plan/Methods.antt =====
-- What `where`, `select` and `limit` of src/invariantql/domain/plan.py do to a valid plan.
use mathlib.Core.Option
use invariantql.Prelude.{
  List, Option, Option-cases, String, [], false, inl, inr, is_empty, map, min, none, refl, some, ℕ,
  ◌++◌, ◌==◌, ◌∙◌, ◌∷◌, ◌≡◌,
}
use invariantql.Domain.Expressions.{Expression}
use invariantql.Domain.Expressions.Conjuncts.{
  AreClauses, AreClauses-append, conjuncts-and_all, conjuncts_of-AreClauses, is_some-and_all,
}
use invariantql.Domain.Expressions.Walk.{and_all, conjuncts, conjuncts_of}
use invariantql.Domain.Plan.{
  PlanNode, QueryPlan, add_filter, add_limit, add_projection, build_plan, check_outputs, given,
  limit_count, limit_plan, make_limit, make_plan, make_project, make_scan, predicate, project,
  projection, rebuild, scan, select_plan, selected, source, where_plan,
}
use invariantql.Domain.Plan.Canonical.{assemble, assemble-reads}
use invariantql.Prelude.Int.{pos}
use invariantql.Prelude.Results.{>>=-eq-ok, ok, traverse}

-- The limit that `limit` leaves.
abbrev pub smaller : Option ℕ → ℕ → ℕ
smaller none count = count
smaller (some current) count = min current count

-- Project's checks on the expressions.
abbrev pub AreOutputs : Option (List Expression) → Type 0
AreOutputs none = Unit
AreOutputs (some es) = make_project (scan "s") es ≡ ok (project (scan "s") es)

-- A plan all of whose nodes passed their checks, and its chain too.
pub record IsValid (plan : QueryPlan) : Type 0 where
  pub accepted : make_plan plan.root ≡ ok plan
  pub source_named : (source plan == "") ≡ false
  pub outputs : AreOutputs (projection plan)

make_project-child :
    (child : PlanNode) (es : List Expression)
    → AreOutputs (some es)
    → make_project child es ≡ ok (project child es)
unfolding make_project
make_project-child child [] h = cc
make_project-child child (e ∷ es) h =
    let (_, checked, _) = >>=-eq-ok (check_outputs [] (e ∷ es)) _ h in rw checked

-- `_rebuild` succeeds on parts that pass the checks, and its chain is the assembled one.
build_plan_lem :
    (name : String) (p : Option Expression) (es : Option (List Expression)) (count : Option ℕ)
    → (name == "") ≡ false
    → AreOutputs es
    → build_plan name p es (Option.map pos count) ≡ ok (record { root = assemble name p es count })
unfolding build_plan make_scan add_projection add_limit make_limit
build_plan_lem name p none none h checked = rw h ((assemble-reads name p none none).4)
build_plan_lem name p none (some n) h checked = rw h ((assemble-reads name p none (some n)).4)
build_plan_lem name p (some es) none h checked = rw h (
    rw (make_project-child (add_filter p (scan name)) es checked)
      ((assemble-reads name p (some es) none).4))
build_plan_lem name p (some es) (some n) h checked = rw h (
    rw (make_project-child (add_filter p (scan name)) es checked)
      ((assemble-reads name p (some es) (some n)).4))

assemble-IsValid :
    (name : String) (p : Option Expression) (es : Option (List Expression)) (count : Option ℕ)
    → (name == "") ≡ false
    → AreOutputs es
    → IsValid (record { root = assemble name p es count })
assemble-IsValid name p es count h checked =
    let (a, b, c, d, e) = assemble-reads name p es count in
    record { accepted = e; source_named = rw a h; outputs = rw c checked }

-- The plan has these four parts.
abbrev pub HasParts :
    QueryPlan → String → Option Expression → Option (List Expression) → Option ℕ → Type 0
HasParts plan name p es count =
    (source plan ≡ name)
    × (predicate plan ≡ p)
    × (projection plan ≡ es)
    × (limit_count plan ≡ count)

-- What `_rebuild` returns for chosen parts.
built :
    (name : String) (p : Option Expression) (es : Option (List Expression)) (count : Option ℕ)
    → (name == "") ≡ false
    → AreOutputs es
    → (r : QueryPlan) × (build_plan name p es (Option.map pos count) ≡ ok r)
      × IsValid r
      × HasParts r name p es count
built name p es count h checked =
    let (a, b, c, d, _) = assemble-reads name p es count in
    (
      record { root = assemble name p es count },
      build_plan_lem name p es count h checked,
      assemble-IsValid name p es count h checked,
      (a, b, c, d),
    )

is_empty-append : (xs ys : List Expression) → is_empty ys ≡ false → is_empty (xs ++ ys) ≡ false
is_empty-append [] ys h = h
is_empty-append (x ∷ xs) ys h = refl

-- Clauses, one at least, are conjoined to a predicate that has these conjuncts.
and_all-some :
    (xs : List Expression)
    → AreClauses xs
    → is_empty xs ≡ false
    → (c : Expression) × (and_all xs ≡ some c) × (conjuncts c ≡ xs)
and_all-some xs clauses h = elim (Option-cases (and_all xs)) [
  | inl e ↦ cc (rw (e, h) at (is_some-and_all xs))
  | inr (c, e) ↦ (c, e, rw e at (conjuncts-and_all xs clauses))
]

where_plan_of :
    (plan : QueryPlan) (p c : Expression)
    → and_all (conjuncts_of (predicate plan) ++ conjuncts p) ≡ some c
    → where_plan plan p ≡ rebuild plan (some c) none none
unfolding where_plan
where_plan_of plan p c e = rw (e, where_plan)

limit_plan_of :
    (plan : QueryPlan) (count : ℕ)
    → limit_plan plan (pos count)
      ≡ build_plan
          (source plan)
          (predicate plan)
          (projection plan)
          (some (pos (smaller (limit_count plan) count)))
unfolding limit_plan rebuild
limit_plan_of plan count = elim (Option-cases (limit_count plan)) [
  | inl e ↦ rw (e, limit_plan)
  | inr (current, e) ↦ rw (e, limit_plan)
]

traverse-given : (es : List Expression) → traverse selected (map given es) ≡ ok es
traverse-given [] = refl
traverse-given (e ∷ es) = rw (traverse-given es)

module _ (plan : QueryPlan) (v : IsValid plan) where
  -- `where` on a valid plan returns a valid plan whose predicate has the old conjuncts and then
  -- those of the argument, with the source, the projection and the limit unchanged; the argument
  -- has at least one conjunct.
  pub where_plan_lem :
      (p : Expression)
      → is_empty (conjuncts p) ≡ false
      → (r : QueryPlan) × (where_plan plan p ≡ ok r)
        × IsValid r
        × (conjuncts_of (predicate r) ≡ conjuncts_of (predicate plan) ++ conjuncts p)
        × (source r ≡ source plan)
        × (projection r ≡ projection plan)
        × (limit_count r ≡ limit_count plan)
  unfolding rebuild
  where_plan_lem p h =
      let xs = conjuncts_of (predicate plan) ++ conjuncts p in
      let clauses =
        AreClauses-append (conjuncts_of (predicate plan)) (conjuncts p)
          (conjuncts_of-AreClauses (predicate plan)) (conjuncts_of-AreClauses (some p)) in
      let (c, e, parts) =
        and_all-some xs clauses (is_empty-append (conjuncts_of (predicate plan)) (conjuncts p) h) in
      let (r, made, valid, (named_so, kept, cols, lim)) =
        built (source plan) (some c) (projection plan) (limit_count plan) v.source_named
          v.outputs in
      (r, where_plan_of plan p c e ∙ made, valid, rw kept parts, named_so, cols, lim)

  -- `select` on a valid plan with expressions that pass the checks of a projection returns a valid
  -- plan with that projection, and its source, predicate and limit are unchanged.
  pub select_plan_lem :
      (es : List Expression)
      → AreOutputs (some es)
      → (r : QueryPlan) × (select_plan plan (map given es) ≡ ok r)
        × IsValid r
        × HasParts r (source plan) (predicate plan) (some es) (limit_count plan)
  unfolding select_plan rebuild
  select_plan_lem es h =
      rw (traverse-given es)
        (built (source plan) (predicate plan) (some es) (limit_count plan) v.source_named h)

  -- `limit` with a natural number returns a valid plan bounded by the smaller of that number and
  -- the plan's limit, if it has one, with the rest unchanged.
  pub limit_plan_lem :
      (count : ℕ)
      → (r : QueryPlan) × (limit_plan plan (pos count) ≡ ok r)
        × IsValid r
        × HasParts r
            (source plan)
            (predicate plan)
            (projection plan)
            (some (smaller (limit_count plan) count))
  limit_plan_lem count =
      let (r, made, valid, parts) =
        built (source plan) (predicate plan) (projection plan)
          (some (smaller (limit_count plan) count)) v.source_named v.outputs in
      (r, limit_plan_of plan count ∙ made, valid, parts)
