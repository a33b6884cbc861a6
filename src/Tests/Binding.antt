-- ===== src/Tests/Binding.antt =====
-- Runs of the properties of src/invariantql/application/binding.py.
use invariantql.Prelude.{
  String, [], all, false, if◌then◌else◌, none, refl, some, true, ◌==◌, ◌∷◌, ◌≡◌,
}
use invariantql.Application.Binding.{BoundPlan, bind, bind_plan, check_comparable, type_of}
use invariantql.Application.Binding.Bound.{bind-IsBound}
use invariantql.Application.Binding.Columns.{is_bound_node}
use invariantql.Application.Binding.Portable.{bind_plan-ArePortable}
use invariantql.Domain.Expressions.{Expression, column, comparison, gt, literal, make_column}
use invariantql.Domain.Expressions.Literals.{LiteralValue}
use invariantql.Domain.Expressions.Walk.{and_all, conjuncts, walk}
use invariantql.Domain.Plan.{
  QueryPlan, add_limit, add_projection, build_plan, first_limit, first_predicate, first_projection,
  first_source, is_ordered, make_limit, make_plan, make_scan, rebuild,
}
use invariantql.Domain.Plan.Canonical.{assemble}
use invariantql.Domain.Schema.{Field, Schema, check_fields, exact, resolve}
use invariantql.Domain.Semantics.{expression_type}
use invariantql.Domain.Types.{boolean, integer, is_comparable, is_portable_type}
use invariantql.Prelude.Int.{pos}
use invariantql.Prelude.Results.{ok}

abbrev shop : Schema
shop = record {
  fields =
      record { name = "Total"; data_type = integer 64; nullable = true }
      ∷ record { name = "open"; data_type = boolean; nullable = false }
      ∷ [];
}

-- A `str.lower` for the letter T.
abbrev lower_t : String → String
lower_t s = if s == "Total" then "total" else s

abbrev five : Expression
five = literal (record { value = LiteralValue.int (pos 5); data_type = integer 64 })

-- `total > 5`
abbrev large : Expression
large = comparison gt (column "total") five

large_bound : bind lower_t shop [] large "1-filter" false ≡ ok (comparison gt (column "Total") five)
unfolding bind resolve exact make_column check_comparable type_of expression_type is_comparable
    is_portable_type
large_bound = refl

bind-IsBound_example : all (walk (comparison gt (column "Total") five)) (is_bound_node shop) ≡ true
bind-IsBound_example =
    bind-IsBound lower_t shop [] large "1-filter" false (comparison gt (column "Total") five)
      large_bound

abbrev large_sales : QueryPlan
large_sales = record { root = assemble "shop" (some large) none (some 3) }

abbrev bound_sales : BoundPlan
bound_sales = record {
  plan = record {
    root = assemble "shop" (some (comparison gt (column "Total") five)) none (some 3);
  };
  schema = shop;
  output_schema = record {
    fields =
        record { name = "Total"; data_type = integer 64; nullable = true }
        ∷ record { name = "open"; data_type = boolean; nullable = true }
        ∷ [];
  };
}

sales_bound : bind_plan lower_t large_sales shop [] ≡ ok bound_sales
unfolding bind_plan make_scan make_limit add_limit add_projection build_plan rebuild make_plan
    is_ordered and_all conjuncts first_source first_predicate first_projection first_limit
    check_fields exact is_portable_type
sales_bound = refl

bind_plan-ArePortable_example :
    all bound_sales.output_schema.fields (λ (f : Field). is_portable_type f.data_type) ≡ true
bind_plan-ArePortable_example =
    bind_plan-ArePortable lower_t shop [] large_sales bound_sales sales_bound
