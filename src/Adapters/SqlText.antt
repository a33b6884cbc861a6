-- ===== src/Adapters/SqlText.antt =====
-- src/invariantql/adapters/_shared/sqltext.py: SQL text for expressions, with every value behind a
-- placeholder. The text is a list of pieces: words, and holes, which a dialect writes as its
-- placeholders. A hole carries the index that `bind` had when it wrote it. The attribute `values` of
-- the generator is the state. What the subclass of src/invariantql/adapters/sources/postgres.py
-- overrides is a record of functions.
pub mod Generator
pub mod Holes
pub mod Orders
pub mod Values
pub mod Total
pub mod Statement
pub mod Ordered
pub mod Numbered
pub mod Sequence
pub mod Clauses
pub mod Selected
pub mod Quote
use Prim.Native.Char.{Char, code}
use Prim.Native.String
use invariantql.Prelude.{Bool, List, Option, String, [], eqb, if◌then◌else◌, suc, ℕ, ◌∷◌}
use invariantql.Domain.Plan.{decimal_digits}

-- A dialect; every one quotes identifiers by one character.
pub record SqlDialect : Type 0 where
  pub identifier_quote : Char
  pub numbered : Bool
  pub placeholder : String
  pub like_operator : String
  pub division_cast : Option String
  pub limit_keyword : String

pub data Piece : Type 0 where
  word : String → Piece
  hole : ℕ → Piece

abbrev pub Pieces : Type 0
Pieces = List Piece

-- `text.replace(q, q + q)` for one character.
unfoldable pub double : Char → String → String
double q String.[] = String.[]
double q (String.◌∷◌ c s) =
    if eqb (code c) (code q)
    then String.◌∷◌ q (String.◌∷◌ q (double q s))
    else String.◌∷◌ c (double q s)

-- `quote`, and `sql_string` with the apostrophe.
unfoldable pub quoted : Char → String → String
unfolding double
quoted q text = String.◌∷◌ q (String.◌++◌ (double q text) (String.◌∷◌ q String.[]))

abbrev pub quote : SqlDialect → String → String
quote dialect identifier = quoted dialect.identifier_quote identifier

unfoldable pub sql_string : String → String
sql_string text = quoted "'" text

-- `next_placeholder`
unfoldable pub next_placeholder : SqlDialect → ℕ → String
unfolding decimal_digits
next_placeholder dialect index =
    if dialect.numbered
    then String.◌++◌ "$" (decimal_digits (suc (suc index)) (suc index))
    else dialect.placeholder

unfoldable pub render : SqlDialect → Pieces → String
unfolding next_placeholder
render dialect [] = ""
render dialect (word text ∷ ps) = String.◌++◌ text (render dialect ps)
render dialect (hole index ∷ ps) = String.◌++◌ (next_placeholder dialect index) (render dialect ps)
