-- ===== src/Tests/Parameters.antt =====
-- Runs of the properties of src/invariantql/application/parameters.py.
use invariantql.Prelude.{[], all, contains, none, some, true, ◌↔◌, ◌∷◌, ◌≡◌}
use invariantql.Application.Parameters.{Arguments, as_value, bind_parameters, supplied_names}
use invariantql.Application.Parameters.Bound.{AreBound, bind_parameters_iff}
use invariantql.Domain.Expressions.{parameter}
use invariantql.Domain.Expressions.Literals.{LiteralValue}
use invariantql.Domain.Expressions.Substitute.{Literals}
use invariantql.Domain.Plan.{QueryPlan, plan_parameters}
use invariantql.Domain.Plan.Canonical.{assemble}
use invariantql.Domain.Types.{boolean}
use invariantql.Prelude.Results.{ok}

-- `select * from orders where :open limit 10`
abbrev open_orders : QueryPlan
open_orders = record { root = assemble "orders" (some (parameter "open")) none (some 10) }

abbrev answer : Arguments
answer = ("open", as_value (LiteralValue.bool true)) ∷ []

abbrev bound_answer : Literals
bound_answer = ("open", record { value = LiteralValue.bool true; data_type = boolean }) ∷ []

bind_parameters_iff_example : (bind_parameters open_orders answer ≡ ok bound_answer) ↔ (
    AreBound answer (plan_parameters open_orders) bound_answer
    × (all (supplied_names answer) (λ n. contains n (plan_parameters open_orders)) ≡ true))
bind_parameters_iff_example = bind_parameters_iff open_orders answer bound_answer
