-- ===== src/Domain/Plan.antt =====
-- src/invariantql/domain/plan.py: the chain of nodes over one source, its checked construction, the
-- methods that build plans, and the properties that read them.
pub mod Canonical
pub mod Methods
use mathlib.Core.Option
use Prim.Native.String
use invariantql.Prelude.{
  Bool, List, Option, String, [], contains, false, get_elem?, if◌then◌else◌, leb, ltb, min, none,
  some, suc, true, zero, ℕ, ◌%◌, ◌&&◌, ◌++◌, ◌/◌, ◌==◌, ◌∷◌,
}
use invariantql.Domain.Diagnostics.{Outcome, assertion_error, value_error}
use invariantql.Domain.Expressions.{Expression, make_column}
use invariantql.Domain.Expressions.Walk.{
  and_all, conjuncts, conjuncts_of, output_name, referenced_columns, referenced_parameters,
}
use invariantql.Prelude.Int.{negsuc, pos, ℤ}
use invariantql.Prelude.Results.{err, guard, ok, traverse, ◌>>=◌, ◌>>◌}

-- PlanNode and its subclasses; a SourceRef is the name of the source.
pub data PlanNode : Type 0 where
  scan : String → PlanNode
  filter : PlanNode → Expression → PlanNode
  project : PlanNode → List Expression → PlanNode
  limit : PlanNode → ℕ → PlanNode

-- The class attribute `operation`.
abbrev pub operation : PlanNode → String
operation (scan _) = "scan"
operation (filter _ _) = "filter"
operation (project _ _) = "project"
operation (limit _ _) = "limit"

-- SourceRef's check, then `Scan`.
unfoldable pub make_scan : String → Outcome PlanNode
make_scan name = if name == "" then err value_error else ok (scan name)

-- The loop of `Project.__post_init__` with its set `names`.
unfoldable pub check_outputs : List String → List Expression → Outcome (Unit {0})
unfolding output_name
check_outputs names [] = ok tt
check_outputs names (e ∷ es) = do
  name ← output_name e
  if contains name names then err value_error else check_outputs (name ∷ names) es

unfoldable pub make_project : PlanNode → List Expression → Outcome PlanNode
make_project child [] = err value_error
make_project child (e ∷ es) = check_outputs [] (e ∷ es) >> ok (project child (e ∷ es))

-- `Limit(child, count)` on an integer.
unfoldable pub make_limit : PlanNode → ℤ → Outcome PlanNode
make_limit child (pos count) = ok (limit child count)
make_limit child (negsuc _) = err value_error

-- `_ORDER`
abbrev pub rank : PlanNode → ℕ
rank (scan _) = 0
rank (filter _ _) = 1
rank (project _ _) = 2
rank (limit _ _) = 3

pub record QueryPlan : Type 0 where
  pub root : PlanNode

-- The property `nodes`, from the scan outward.
unfoldable pub nodes : PlanNode → List PlanNode
nodes (scan source) = scan source ∷ []
nodes (filter child predicate) = nodes child ++ filter child predicate ∷ []
nodes (project child expressions) = nodes child ++ project child expressions ∷ []
nodes (limit child count) = nodes child ++ limit child count ∷ []

-- The decimal digits of an index, as an f-string writes them.
unfoldable pub digit : ℕ → String
digit n =
    elim (get_elem? {A = String} ("0" ∷ "1" ∷ "2" ∷ "3" ∷ "4" ∷ "5" ∷ "6" ∷ "7" ∷ "8" ∷ "9" ∷ [])
      n) [ none ↦ "" | some d ↦ d ]

unfoldable pub decimal_digits : ℕ → ℕ → String
decimal_digits zero n = ""
decimal_digits (suc fuel) n = elim (ltb n 10) [
  | true ↦ digit n
  | false ↦ String.◌++◌ (decimal_digits fuel (n / 10)) (digit (n % 10))
]

-- The identifier `<index>-<operation>` of `node_ids`; an index n has at most n + 1 digits.
unfoldable pub node_id : ℕ → PlanNode → String
unfolding decimal_digits digit
node_id i n = String.◌++◌ (decimal_digits (suc i) i) (String.◌++◌ "-" (operation n))

-- The loop of `QueryPlan.__post_init__`; `next` is its `last + 1`.
unfoldable pub is_ordered : ℕ → List PlanNode → Bool
is_ordered next [] = true
is_ordered next (n ∷ ns) = leb next (rank n) && is_ordered (suc (rank n)) ns

-- `QueryPlan(root)`; every chain of these nodes starts with a scan.
unfoldable pub make_plan : PlanNode → Outcome QueryPlan
unfolding nodes is_ordered
make_plan root = guard (is_ordered 0 (nodes root)) value_error >> ok (record { root = root })

unfoldable pub first_source : List PlanNode → String
first_source [] = ""
first_source (scan name ∷ ns) = name
first_source (_ ∷ ns) = first_source ns

unfoldable pub first_predicate : List PlanNode → Option Expression
first_predicate [] = none
first_predicate (filter _ p ∷ ns) = some p
first_predicate (_ ∷ ns) = first_predicate ns

unfoldable pub first_projection : List PlanNode → Option (List Expression)
first_projection [] = none
first_projection (project _ es ∷ ns) = some es
first_projection (_ ∷ ns) = first_projection ns

unfoldable pub first_limit : List PlanNode → Option ℕ
first_limit [] = none
first_limit (limit _ count ∷ ns) = some count
first_limit (_ ∷ ns) = first_limit ns

-- The properties `source`, `predicate`, `projection` and `limit_count`.
unfoldable pub source : QueryPlan → String
unfolding nodes first_source
source plan = first_source (nodes plan.root)

unfoldable pub predicate : QueryPlan → Option Expression
unfolding nodes first_predicate
predicate plan = first_predicate (nodes plan.root)

unfoldable pub projection : QueryPlan → Option (List Expression)
unfolding nodes first_projection
projection plan = first_projection (nodes plan.root)

unfoldable pub limit_count : QueryPlan → Option ℕ
unfolding nodes first_limit
limit_count plan = first_limit (nodes plan.root)

abbrev option_list : Option Expression → List Expression
option_list none = []
option_list (some e) = e ∷ []

-- The list `exprs` of the properties `referenced_columns` and `parameters`.
unfoldable pub plan_expressions : QueryPlan → List Expression
plan_expressions plan = Option.get_or (projection plan) [] ++ option_list (predicate plan)

unfoldable pub plan_columns : QueryPlan → List String
plan_columns plan = referenced_columns (plan_expressions plan)

unfoldable pub plan_parameters : QueryPlan → List String
plan_parameters plan = referenced_parameters (plan_expressions plan)

-- The steps of `_rebuild`.
abbrev pub add_filter : Option Expression → PlanNode → PlanNode
add_filter none node = node
add_filter (some p) node = filter node p

unfoldable pub add_projection : Option (List Expression) → PlanNode → Outcome PlanNode
add_projection none node = ok node
add_projection (some es) node = make_project node es

unfoldable pub add_limit : Option ℤ → PlanNode → Outcome PlanNode
add_limit none node = ok node
add_limit (some count) node = make_limit node count

-- `given if given is not None else own`
abbrev pub or_else {ℓ} : {A : Type ℓ} → Option A → Option A → Option A
or_else none own = own
or_else (some a) own = some a

-- `_rebuild` from the parts that it has chosen.
unfoldable pub build_plan :
    String → Option Expression → Option (List Expression) → Option ℤ → Outcome QueryPlan
build_plan name p es count = do
  base ← make_scan name
  inner ← add_projection es (add_filter p base)
  root ← add_limit count inner
  make_plan root

unfoldable pub rebuild :
    QueryPlan → Option Expression → Option (List Expression) → Option ℤ → Outcome QueryPlan
rebuild plan p es count =
    build_plan (source plan) (or_else p (predicate plan)) (or_else es (projection plan))
      (or_else count (Option.map pos (limit_count plan)))

-- `QueryPlan.scan`
unfoldable pub scan_plan : String → Outcome QueryPlan
scan_plan name = make_scan name >>= make_plan

-- `QueryPlan.where`; its assertion fails where there is no conjunct at all.
unfoldable pub where_plan : QueryPlan → Expression → Outcome QueryPlan
where_plan plan p = elim (and_all (conjuncts_of (predicate plan) ++ conjuncts p)) [
  | none ↦ err assertion_error
  | some combined ↦ rebuild plan (some combined) none none
]

-- An argument of `select` is the name of a column or an expression.
pub data Selection : Type 0 where
  named : String → Selection
  given : Expression → Selection

abbrev pub selected : Selection → Outcome Expression
selected (named name) = make_column name
selected (given e) = ok e

unfoldable pub select_plan : QueryPlan → List Selection → Outcome QueryPlan
select_plan plan selections = do es ← traverse selected selections; rebuild plan none (some es) none

-- Python's `min` of a count in a plan and an integer.
abbrev pub min_count : ℕ → ℤ → ℤ
min_count current (pos count) = pos (min current count)
min_count current (negsuc n) = negsuc n

unfoldable pub limit_plan : QueryPlan → ℤ → Outcome QueryPlan
limit_plan plan count = elim (limit_count plan) [
  | none ↦ rebuild plan none none (some count)
  | some current ↦ rebuild plan none none (some (min_count current count))
]
