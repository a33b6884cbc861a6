-- ===== src/Domain/Plan/Canonical.antt =====
-- The shape of a plan that `QueryPlan.__post_init__` accepts, src/invariantql/domain/plan.py.
use invariantql.Prelude.{
  List, Option, String, [], and-eq-true_iff, arith, leb, none, refl, some, subst, suc, sym, true, ℕ,
  ◌++◌, ◌<◌, ◌↔◌, ◌∷◌, ◌≡◌,
}
use invariantql.Domain.Diagnostics.{value_error}
use invariantql.Domain.Expressions.{Expression}
use invariantql.Domain.Plan.{
  PlanNode, QueryPlan, add_filter, filter, is_ordered, limit, limit_count, make_plan, nodes,
  predicate, project, projection, rank, scan, source,
}
use invariantql.Prelude.Results.{guard-eq-ok, ok}

-- Scan, then an optional filter, projection and limit.
abbrev pub projected : Option (List Expression) → PlanNode → PlanNode
projected none node = node
projected (some es) node = project node es

abbrev pub limited : Option ℕ → PlanNode → PlanNode
limited none node = node
limited (some count) node = limit node count

abbrev pub assemble : String → Option Expression → Option (List Expression) → Option ℕ → PlanNode
assemble name p es count = limited count (projected es (add_filter p (scan name)))

-- The nodes below the outermost one.
below : PlanNode → List PlanNode
below (scan _) = []
below (filter child _) = nodes child
below (project child _) = nodes child
below (limit child _) = nodes child

nodes-eq-concat : (n : PlanNode) → nodes n ≡ below n ++ n ∷ []
unfolding nodes below
nodes-eq-concat (scan name) = refl
nodes-eq-concat (filter child p) = refl
nodes-eq-concat (project child es) = refl
nodes-eq-concat (limit child count) = refl

is_ordered-concat :
    (next : ℕ) (ns : List PlanNode) (m n : PlanNode)
    → is_ordered next ((ns ++ m ∷ []) ++ n ∷ []) ≡ true
    → (rank m < rank n) × (is_ordered next (ns ++ m ∷ []) ≡ true)
unfolding is_ordered
is_ordered-concat next [] m n h = ground arith
is_ordered-concat next (x ∷ ns) m n h =
    let (here, later) = (and-eq-true_iff (leb next (rank x)) _).0 h in
    let (less, rest) = is_ordered-concat (suc (rank x)) ns m n later in (less, rw (here, rest))

-- In an accepted chain each node's rank is above its input's, and the input's chain is accepted.
rank-input :
    (child n : PlanNode)
    → is_ordered 0 (nodes child ++ n ∷ []) ≡ true
    → (rank child < rank n) × (is_ordered 0 (nodes child) ≡ true)
rank-input child n h =
    let e = nodes-eq-concat child in
    let (less, rest) = is_ordered-concat 0 (below child) child n (rw e at h) in (less, rw e rest)

abbrev Parts : PlanNode → Type 0
Parts root =
    (name : String) × (p : Option Expression) × (es : Option (List Expression)) × (count : Option ℕ)
    × (root ≡ assemble name p es count)

below_filter : (c : PlanNode) → rank c < 1 → (name : String) × (c ≡ scan name)
below_filter (scan name) h = (name, refl)
below_filter (filter _ _) h = absurd (omega arith)
below_filter (project _ _) h = absurd (omega arith)
below_filter (limit _ _) h = absurd (omega arith)

parts_filter :
    (c : PlanNode) (p : Expression)
    → is_ordered 0 (nodes (filter c p)) ≡ true
    → (name : String) × (c ≡ scan name)
unfolding nodes
parts_filter c p h = below_filter c (rank-input c (filter c p) h).0

parts_project :
    (c : PlanNode)
    → rank c < 2
    → is_ordered 0 (nodes c) ≡ true
    → (name : String) × (p : Option Expression) × (c ≡ add_filter p (scan name))
parts_project (scan name) h o = (name, none, refl)
parts_project (filter c p) h o = let (name, e) = parts_filter c p o in (name, some p, rw e)
parts_project (project _ _) h o = absurd (omega arith)
parts_project (limit _ _) h o = absurd (omega arith)

parts_limit :
    (c : PlanNode)
    → rank c < 3
    → is_ordered 0 (nodes c) ≡ true
    → (name : String) × (p : Option Expression) × (es : Option (List Expression)) × (c
        ≡ projected es (add_filter p (scan name)))
unfolding nodes
parts_limit (project c es) h o =
    let (less, below_ok) = rank-input c (project c es) o in
    let (name, p, e) = parts_project c less below_ok in (name, p, some es, rw e)
parts_limit (limit _ _) h o = absurd (omega arith)
parts_limit (scan name) h o = (name, none, none, refl)
parts_limit (filter c p) h o = let (name, e) = parts_filter c p o in (name, some p, none, rw e)

parts : (root : PlanNode) → is_ordered 0 (nodes root) ≡ true → Parts root
unfolding nodes
parts (limit c count) o =
    let (less, below_ok) = rank-input c (limit c count) o in
    let (name, p, es, e) = parts_limit c less below_ok in (name, p, es, some count, rw e)
parts (scan name) o = (name, none, none, none, refl)
parts (filter c p) o =
    let (name, q, es, e) = parts_limit (filter c p) (omega arith) o in (name, q, es, none, e)
parts (project c fs) o =
    let (name, q, es, e) = parts_limit (project c fs) (omega arith) o in (name, q, es, none, e)

-- What the properties read off an assembled chain, which is accepted.
pub assemble-reads :
    (name : String) (p : Option Expression) (es : Option (List Expression)) (count : Option ℕ)
    → let plan : QueryPlan = record { root = assemble name p es count } in
      (source plan ≡ name)
      × (predicate plan ≡ p)
      × (projection plan ≡ es)
      × (limit_count plan ≡ count)
      × (make_plan (assemble name p es count) ≡ ok plan)
unfolding source predicate projection limit_count make_plan
assemble-reads name none none none = (refl, refl, refl, refl, refl)
assemble-reads name none none (some n) = (refl, refl, refl, refl, refl)
assemble-reads name none (some es) none = (refl, refl, refl, refl, refl)
assemble-reads name none (some es) (some n) = (refl, refl, refl, refl, refl)
assemble-reads name (some p) none none = (refl, refl, refl, refl, refl)
assemble-reads name (some p) none (some n) = (refl, refl, refl, refl, refl)
assemble-reads name (some p) (some es) none = (refl, refl, refl, refl, refl)
assemble-reads name (some p) (some es) (some n) = (refl, refl, refl, refl, refl)

make_plan-is_ordered :
    (root : PlanNode) {plan : QueryPlan}
    → make_plan root ≡ ok plan
    → is_ordered 0 (nodes root) ≡ true
unfolding make_plan
make_plan-is_ordered root h = (guard-eq-ok value_error h).0

-- A chain is accepted exactly when it is the scan of the plan's source under its predicate, its
-- projection and its limit, in this order, each where the plan has one.
pub make_plan_iff :
    (root : PlanNode)
    → let plan : QueryPlan = record { root = root } in
      (make_plan root ≡ ok plan)
      ↔ (root ≡ assemble (source plan) (predicate plan) (projection plan) (limit_count plan))
make_plan_iff root = (
  λ h.
      let (name, p, es, count, e) = parts root (make_plan-is_ordered root h) in
      let (a, b, c, d, _) = assemble-reads name p es count in rw e (rw (a, b, c, d)),
  λ e. subst (λ r. make_plan r ≡ ok (record { root = r })) (sym e) (assemble-reads _ _ _ _).4,
)
