-- ===== src/Adapters/MongoDb.antt =====
-- src/invariantql/adapters/sources/mongodb.py: the filter documents of conjuncts, the regular
-- expression of a LIKE pattern, and the evaluation of a predicate in process. A document of the driver
-- is a tree; a value in it is a literal's or what the driver's types make of it. `re.escape` of one
-- character is a parameter.
pub mod Evaluate
pub mod Evaluable
pub mod Translate
pub mod Guarded
pub mod Filters
pub mod Returns
use Prim.Native.Char.{Char, code}
use Prim.Native.String
use invariantql.Prelude.{List, String, [], eqb, if◌then◌else◌, ◌∷◌}
use invariantql.Domain.Expressions.{ComparisonOp, eq, ge, gt, le, lt, ne}
use invariantql.Domain.Expressions.Literals.{DateTime, Decimal, LiteralValue}

-- What `_value` returns.
pub data Stored : Type 0 where
  object_id : String → Stored
  decimal128 : Decimal → Stored
  datetime : DateTime → Stored
  plain : LiteralValue → Stored

-- The condition on one field. `equals_null` is `{column: None}`, `matches_regex` the pair of
-- `$regex` and `$options`, and `not_regex` the negated `Regex`.
pub data Condition : Type 0 where
  equals_null not_null : Condition
  compares : ComparisonOp → Stored → Condition
  differs : Stored → Condition
  among : List Stored → Condition
  not_among : List Stored → Condition
  matches_regex : String → Condition
  not_regex : String → Condition

mutual
  pub data Document : Type 0 where
    everything : Document
    all_of : Documents → Document
    any_of : Documents → Document
    field : String → Condition → Document

  pub data Documents : Type 0 where
    no_documents : Documents
    document_then : Document → Documents → Documents

abbrev pub documents_of : List Document → Documents
documents_of [] = no_documents
documents_of (d ∷ ds) = document_then d (documents_of ds)

-- `_and_all` of the module.
unfoldable pub and_documents : List Document → Document
and_documents [] = everything
and_documents (d ∷ []) = d
and_documents (d ∷ e ∷ ds) = all_of (documents_of (d ∷ e ∷ ds))

-- `_FLIPPED`
abbrev pub flipped : ComparisonOp → ComparisonOp
flipped eq = eq
flipped ne = ne
flipped lt = gt
flipped le = ge
flipped gt = lt
flipped ge = le

module _ (escape : Char → String) where
  -- The part of one character.
  abbrev pub regex_part : Char → String
  regex_part c =
      if eqb (code c) (code "%") then ".*" else if eqb (code c) (code "_") then "." else escape c

  abbrev pub regex_parts : String → String
  regex_parts String.[] = "$(?!.)"
  regex_parts (String.◌∷◌ c s) = String.◌++◌ (regex_part c) (regex_parts s)

  unfoldable pub like_to_regex : String → String
  like_to_regex pattern_text = String.◌++◌ "^" (regex_parts pattern_text)
