-- ===== src/Tests/SqlText.antt =====
-- Runs of the properties of src/invariantql/adapters/_shared/sqltext.py.
use Prim.Native.String
use invariantql.Prelude.{List, [], all, false, length, none, refl, some, true, ℕ, ◌∷◌, ◌≡◌}
use invariantql.Adapters.PostgresSql.{postgres, postgres_dialect}
use invariantql.Adapters.PostgresSql.Placeholders.{postgres-HoleLaws}
use invariantql.Adapters.SqlText.{Pieces, hole, quoted, word}
use invariantql.Adapters.SqlText.Generator.{
  Overrides, expression_pieces, join, literal_pieces, own, select_pieces,
}
use invariantql.Adapters.SqlText.Holes.{Denotes, holes}
use invariantql.Adapters.SqlText.Numbered.{upto}
use invariantql.Adapters.SqlText.Ordered.{in_order, statement_in_order}
use invariantql.Adapters.SqlText.Orders.{HoleLaws}
use invariantql.Adapters.SqlText.Quote.{quoted-read, read_quoted}
use invariantql.Adapters.SqlText.Selected.{select_pieces-holes, select_pieces-order}
use invariantql.Adapters.SqlText.Statement.{statement_values}
use invariantql.Adapters.SqlText.Total.{expression_pieces-is_ok, is_ok, is_rendered}
use invariantql.Domain.Expressions.{
  Expression, column, comparison, cons, eq, is_in, literal, nil, parameter,
}
use invariantql.Domain.Expressions.Literals.{LiteralValue}
use invariantql.Domain.Expressions.Substitute.{Literals}
use invariantql.Domain.Expressions.Walk.{walk}
use invariantql.Domain.Schema.{Schema}
use invariantql.Domain.Types.{integer}
use invariantql.Prelude.Int.{pos}
use invariantql.Prelude.Results.{ok}

abbrev number : ℕ → Expression
number n = literal (record { value = LiteralValue.int (pos n); data_type = integer 64 })

abbrev no_schema : Schema
no_schema = record { fields = [] }

abbrev one : Literals
one = ("p", record { value = LiteralValue.int (pos 1); data_type = integer 64 }) ∷ []

abbrev over_postgres : Overrides
over_postgres = postgres (λ s. s) no_schema one postgres_dialect

over_postgres_laws : HoleLaws over_postgres
over_postgres_laws = postgres-HoleLaws (λ s. s) no_schema one postgres_dialect

-- `x = :p` and `LIMIT 7`
abbrev equal_one : Expression
equal_one = comparison eq (column "x") (parameter "p")

abbrev equal_pieces : Pieces
equal_pieces =
    word "SELECT "
    ∷ word "*"
    ∷ word " FROM "
    ∷ word "t"
    ∷ word " WHERE "
    ∷ word "("
    ∷ word "\"x\""
    ∷ word " "
    ∷ word "="
    ∷ word " "
    ∷ hole 0
    ∷ word ")"
    ∷ word " "
    ∷ word "LIMIT"
    ∷ word " "
    ∷ hole 1
    ∷ []

abbrev equal_values : List LiteralValue
equal_values = LiteralValue.int (pos 1) ∷ LiteralValue.int (pos 7) ∷ []

selected_equal :
    select_pieces postgres_dialect one over_postgres "t" none none (some equal_one) (some 7) []
    ≡ ok (equal_pieces, equal_values)
unfolding select_pieces expression_pieces literal_pieces quoted postgres
selected_equal = refl

select_pieces-holes_example :
    Denotes equal_values (holes equal_pieces) (statement_values one none (some equal_one) (some 7))
select_pieces-holes_example =
    select_pieces-holes postgres_dialect one over_postgres over_postgres_laws "t" none none
      (some equal_one) (some 7) equal_pieces equal_values selected_equal

equal_in_order : statement_in_order one none (some equal_one) ≡ true
unfolding in_order
equal_in_order = refl

select_pieces-order_example :
    (holes equal_pieces ≡ upto 0 (length equal_values))
    × (equal_values ≡ statement_values one none (some equal_one) (some 7))
select_pieces-order_example =
    select_pieces-order postgres_dialect one over_postgres over_postgres_laws "t" none none
      (some equal_one) (some 7) equal_pieces equal_values selected_equal equal_in_order

-- `:p IN (2, 3)`: the second hole of the text comes first in the values.
swapped_in :
    expression_pieces postgres_dialect one over_postgres
      (is_in (parameter "p") (cons (number 2) (cons (number 3) nil)) false)
      []
    ≡ ok (
      word "("
          ∷ hole 2
          ∷ word " "
          ∷ word ""
          ∷ word "IN ("
          ∷ hole 0
          ∷ word ", "
          ∷ hole 1
          ∷ word ")"
          ∷ word ")"
          ∷ [],
      LiteralValue.int (pos 2) ∷ LiteralValue.int (pos 3) ∷ LiteralValue.int (pos 1) ∷ [],
    )
unfolding expression_pieces literal_pieces join
swapped_in = refl

expression_pieces-is_ok_example :
    is_ok (expression_pieces postgres_dialect one (own postgres_dialect) equal_one [])
    ≡ all (walk equal_one) (is_rendered one)
expression_pieces-is_ok_example = expression_pieces-is_ok postgres_dialect one equal_one []

quoted-read_example : read_quoted "'" (String.◌++◌ (quoted "'" "it's") ") x") ≡ some ("it's", ") x")
quoted-read_example = quoted-read "'" "it's" ") x" refl
