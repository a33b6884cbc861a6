-- ===== src/Application/Parameters.antt =====
-- src/invariantql/application/parameters.py: binding of the supplied parameters. The details of the
-- errors are not modelled.
pub mod Bound
use invariantql.Prelude.{
  List, String, [], contains, if◌then◌else◌, is_empty, lookup, map, none, not, select, some, ◌∷◌,
}
use invariantql.Domain.Diagnostics.{
  DiagnosticCode, Outcome, Raised, diagnostic_error, key_error, library_error, parameter_error,
  parameter_invalid, parameter_missing, parameter_unexpected, type_error, value_error,
}
use invariantql.Domain.Expressions.Literals.{Literal, LiteralValue, literal_of}
use invariantql.Domain.Expressions.Substitute.{Literals}
use invariantql.Domain.Plan.{QueryPlan, plan_parameters}
use invariantql.Domain.Types.{is_portable_type}
use invariantql.Prelude.Results.{err, ok, ◌>>=◌}

-- A supplied value: a Literal, a Python value, or one that no literal can hold.
pub data Argument : Type 0 where
  as_literal : Literal → Argument
  as_value : LiteralValue → Argument
  unsupported : Argument

-- `dict(values or {})`
abbrev pub Arguments : Type 0
Arguments = List (String × Argument)

abbrev pub parameter_failure : DiagnosticCode → Raised
parameter_failure code = library_error parameter_error (diagnostic_error code none none)

-- `value if isinstance(value, Literal) else Literal.of(value)`
unfoldable pub to_literal : Argument → Outcome Literal
to_literal (as_literal l) = ok l
to_literal (as_value v) = literal_of v
to_literal unsupported = err type_error

-- The `except` clause.
abbrev pub as_invalid : Outcome Literal → Outcome Literal
as_invalid (err value_error) = err (parameter_failure parameter_invalid)
as_invalid (err type_error) = err (parameter_failure parameter_invalid)
as_invalid r = r

-- The body of the loop over the expected names, on the value of one.
unfoldable pub bind_value : Argument → Outcome Literal
unfolding to_literal
bind_value value = do
  l ← as_invalid (to_literal value)
  if is_portable_type l.data_type then ok l else err (parameter_failure parameter_invalid)

-- `supplied[name]`
abbrev pub supplied_value : Arguments → String → Outcome Argument
supplied_value supplied name = elim (lookup name supplied) [
  | none ↦ err (key_error name)
  | some value ↦ ok value
]

-- The loop.
unfoldable pub bind_names : Arguments → List String → Outcome Literals
unfolding bind_value
bind_names supplied [] = ok []
bind_names supplied (name ∷ names) = do
  value ← supplied_value supplied name
  l ← bind_value value
  rest ← bind_names supplied names
  ok ((name, l) ∷ rest)

abbrev pub supplied_names : Arguments → List String
supplied_names supplied = map (λ e. e.0) supplied

unfoldable pub missing_names : Arguments → List String → List String
missing_names supplied expected =
    select (λ name. not (contains name (supplied_names supplied))) expected

unfoldable pub unexpected_names : Arguments → List String → List String
unexpected_names supplied expected =
    select (λ name. not (contains name expected)) (supplied_names supplied)

unfoldable pub bind_parameters : QueryPlan → Arguments → Outcome Literals
unfolding bind_names missing_names unexpected_names
bind_parameters plan supplied =
    let expected = plan_parameters plan in
    if not (is_empty (missing_names supplied expected))
    then err (parameter_failure parameter_missing)
    else if not (is_empty (unexpected_names supplied expected))
    then err (parameter_failure parameter_unexpected)
    else bind_names supplied expected
