-- ===== src/Tests/Expressions.antt =====
-- Runs of the properties of src/invariantql/domain/expressions.py.
use invariantql.Prelude.{String, [], contains, false, refl, some, true, ◌∷◌, ◌≡◌}
use invariantql.Domain.Expressions.{
  Expression, and, column, comparison, cons, gt, is_null, nil, parameter,
}
use invariantql.Domain.Expressions.Conjuncts.{conjuncts-and_all}
use invariantql.Domain.Expressions.Literals.{
  Literal, LiteralValue, decimal_shape_of, literal_of, literal_of_total, validate_literal_value,
}
use invariantql.Domain.Expressions.Substitute.{Literals, substitute_parameters}
use invariantql.Domain.Expressions.SubstituteLaws.{fill, is_built, substitute_parameters_lem}
use invariantql.Domain.Expressions.Walk.{
  and_all, conjuncts, conjuncts_of, referenced_columns, referenced_parameters, walk,
}
use invariantql.Domain.Expressions.WalkLaws.{
  IsDistinct, column_name, first_seen, names_by, parameter_name, referenced_columns_lem,
  referenced_parameters_lem, walks,
}
use invariantql.Domain.Types.{DataType, integer, is_valid}
use invariantql.Prelude.Int.{negsuc, pos}
use invariantql.Prelude.Results.{ok}

-- `total > :least and note is null`
abbrev test : Expression
test = and (
    cons (comparison gt (column "total") (parameter "least"))
      (cons (is_null (column "note") false) nil))

abbrev least : Literal
least = record { value = LiteralValue.int (pos 5); data_type = integer 64 }

abbrev supplied : Literals
supplied = ("least", least) ∷ []

referenced_columns_lem_example :
    (referenced_columns (test ∷ []) ≡ first_seen [] (names_by column_name (walks (test ∷ []))))
    × IsDistinct (referenced_columns (test ∷ []))
    × ((m : String)
        → contains m (referenced_columns (test ∷ []))
          ≡ contains m (names_by column_name (walks (test ∷ []))))
referenced_columns_lem_example = referenced_columns_lem (test ∷ [])

referenced_parameters_lem_example :
    (referenced_parameters (test ∷ [])
      ≡ first_seen [] (names_by parameter_name (walks (test ∷ []))))
    × IsDistinct (referenced_parameters (test ∷ []))
    × ((m : String)
        → contains m (referenced_parameters (test ∷ []))
          ≡ contains m (names_by parameter_name (walks (test ∷ []))))
referenced_parameters_lem_example = referenced_parameters_lem (test ∷ [])

conjuncts-and_all_example :
    conjuncts_of (and_all (column "a" ∷ column "b" ∷ [])) ≡ column "a" ∷ column "b" ∷ []
unfolding conjuncts
conjuncts-and_all_example = conjuncts-and_all (column "a" ∷ column "b" ∷ []) (refl, (refl, tt))

substitute_parameters_lem_example :
    substitute_parameters test supplied ≡ ok (fill (λ n. least) test)
unfolding is_built walk
substitute_parameters_lem_example =
    substitute_parameters_lem test supplied (λ n. least) refl (refl, tt)

-- 12.5
abbrev price : LiteralValue
price =
    LiteralValue.decimal
      (record { negative = false; digits = 1 ∷ 2 ∷ 5 ∷ []; exponent = some (negsuc 0) })

literal_of_total_example :
    (t : DataType) × (literal_of price ≡ ok (record { value = price; data_type = t }))
    × (is_valid t ≡ true)
unfolding validate_literal_value decimal_shape_of
literal_of_total_example = literal_of_total price tt refl
