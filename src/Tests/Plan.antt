-- ===== src/Tests/Plan.antt =====
-- Runs of the properties of src/invariantql/domain/plan.py.
use invariantql.Prelude.{[], refl, some, ◌++◌, ◌↔◌, ◌∷◌, ◌≡◌}
use invariantql.Domain.Expressions.{Expression, and, column, cons, nil}
use invariantql.Domain.Expressions.Walk.{conjuncts, conjuncts_of}
use invariantql.Domain.Plan.{
  PlanNode, QueryPlan, check_outputs, given, limit_count, limit_plan, make_plan, make_project,
  predicate, projection, select_plan, source, where_plan,
}
use invariantql.Domain.Plan.Canonical.{assemble, make_plan_iff}
use invariantql.Domain.Plan.Methods.{
  HasParts, IsValid, limit_plan_lem, select_plan_lem, smaller, where_plan_lem,
}
use invariantql.Prelude.Int.{pos}
use invariantql.Prelude.Results.{ok}

abbrev orders : PlanNode
orders = assemble "orders" (some (column "paid")) (some (column "id" ∷ [])) (some 10)

abbrev orders_plan : QueryPlan
orders_plan = record { root = orders }

make_plan_iff_example : (make_plan orders ≡ ok orders_plan) ↔ (
    orders
    ≡ assemble
        (source orders_plan)
        (predicate orders_plan)
        (projection orders_plan)
        (limit_count orders_plan))
make_plan_iff_example = make_plan_iff orders

orders_accepted : make_plan orders ≡ ok orders_plan
unfolding make_plan
orders_accepted = refl

orders-IsValid : IsValid orders_plan
unfolding make_plan source projection make_project check_outputs
orders-IsValid = record { accepted = refl; source_named = refl; outputs = refl }

abbrev both : Expression
both = and (cons (column "open") (cons (column "late") nil))

where_plan_lem_example :
    (r : QueryPlan) × (where_plan orders_plan both ≡ ok r)
    × IsValid r
    × (conjuncts_of (predicate r) ≡ conjuncts_of (predicate orders_plan) ++ conjuncts both)
    × (source r ≡ source orders_plan)
    × (projection r ≡ projection orders_plan)
    × (limit_count r ≡ limit_count orders_plan)
unfolding conjuncts
where_plan_lem_example = where_plan_lem orders_plan orders-IsValid both refl

select_plan_lem_example :
    (r : QueryPlan) × (select_plan orders_plan (given (column "total") ∷ []) ≡ ok r)
    × IsValid r
    × HasParts r
        (source orders_plan)
        (predicate orders_plan)
        (some (column "total" ∷ []))
        (limit_count orders_plan)
unfolding make_project check_outputs
select_plan_lem_example = select_plan_lem orders_plan orders-IsValid (column "total" ∷ []) refl

limit_plan_lem_example :
    (r : QueryPlan) × (limit_plan orders_plan (pos 25) ≡ ok r)
    × IsValid r
    × HasParts r
        (source orders_plan)
        (predicate orders_plan)
        (projection orders_plan)
        (some (smaller (limit_count orders_plan) 25))
limit_plan_lem_example = limit_plan_lem orders_plan orders-IsValid 25
