-- ===== src/Adapters/MongoDb/Translate.antt =====
-- The class _Translator of src/invariantql/adapters/sources/mongodb.py, and the filter that `scan`
-- hands to `find`. The exception _NotNative is a constructor beside the others. What the driver does
-- is a parameter: `ObjectId.is_valid`, and whether `Decimal128` raises.
use Prim.Native.Char.{Char}
use invariantql.Prelude.{
  Bool, List, Option, String, [], contains, false, if◌then◌else◌, none, some, true, ◌&&◌, ◌++◌,
  ◌||◌, ◌∷◌,
}
use invariantql.Adapters.MongoDb.{
  Document, Documents, Stored, all_of, among, and_documents, any_of, compares, datetime, decimal128,
  differs, document_then, documents_of, equals_null, field, flipped, like_to_regex, matches_regex,
  no_documents, not_among, not_null, not_regex, object_id, plain,
}
use invariantql.Adapters.MongoDb.Evaluate.{is_none}
use invariantql.Domain.Diagnostics.{Outcome, Raised}
use invariantql.Domain.Expressions.{
  ComparisonOp, Expression, Expressions, and, column, comparison, cons, is_in, is_null, like,
  literal, ne, nil, or,
}
use invariantql.Domain.Expressions.Literals.{Decimal, LiteralValue, Zone}
use invariantql.Domain.Expressions.Walk.{conjuncts_of}
use invariantql.Prelude.Int.{pos}
use invariantql.Prelude.Results.{Result, err, ok, ◌>>=◌}

-- Why there is no document: _NotNative, or another exception.
pub data Stop : Type 0 where
  not_native : Stop
  failed : Raised → Stop

abbrev pub Attempt : Type 0 → Type 0
Attempt A = Result Stop A

pub record Driver : Type 0 where
  pub is_valid_id : String → Bool
  pub decimal128_error : Decimal → Option Raised

pub record Translator : Type 0 where
  pub objectid : List String
  pub local_columns : List String
  pub force_local_strings : Bool

abbrev pub is_str : LiteralValue → Bool
is_str (LiteralValue.text s) = true
is_str _ = false

abbrev pub utc : Zone
utc = record { name = some "UTC"; offset = some (pos 0) }

module _ (driver : Driver) (t : Translator) where
  -- `_value`
  unfoldable pub stored_value : String → LiteralValue → Attempt Stored
  stored_value name (LiteralValue.text s) = ok (
      if contains name t.objectid && driver.is_valid_id s
      then object_id s
      else plain (LiteralValue.text s))
  stored_value name (LiteralValue.decimal d) = elim (driver.decimal128_error d) [
    | none ↦ ok (decimal128 d)
    | some e ↦ err (failed e)
  ]
  stored_value name (LiteralValue.datetime d) = ok (datetime d)
  stored_value name (LiteralValue.date d) =
      ok (datetime (record { day = d; time = 0; zone = some utc }))
  stored_value name value = ok (plain value)

  -- `_column`
  abbrev pub column_of : Bool → Expression → Attempt String
  column_of typed (column name) =
      if typed && contains name t.local_columns then err not_native else ok name
  column_of typed _ = err not_native

  -- A text on a column whose strings `find` must not compare.
  abbrev pub is_forced : String → LiteralValue → Bool
  is_forced name value =
      t.force_local_strings && ((if contains name t.objectid then false else true) && is_str value)

  abbrev pub compare_document : String → ComparisonOp → Stored → Document
  compare_document name ne value =
      all_of (documents_of (field name (differs value) ∷ field name not_null ∷ []))
  compare_document name op value = field name (compares op value)

  unfoldable pub compare_column : String → ComparisonOp → LiteralValue → Attempt Document
  compare_column name op value =
      if contains name t.local_columns || (is_none value || is_forced name value)
      then err not_native
      else (stored_value name value >>= λ v. ok (compare_document name op v))

  -- `_comparison`
  unfoldable pub translate_comparison : ComparisonOp → Expression → Expression → Attempt Document
  unfolding compare_column
  translate_comparison op (column name) (literal l) = compare_column name op l.value
  translate_comparison op (literal l) (column name) = compare_column name (flipped op) l.value
  translate_comparison op _ _ = err not_native

  -- What the loop body in `_in` appends for a member.
  unfoldable pub member_of : String → Bool → Expression → Attempt (List Stored)
  member_of name negated (literal l) =
      if is_none l.value
      then (if negated then err not_native else ok [])
      else if is_forced name l.value
      then err not_native
      else (stored_value name l.value >>= λ v. ok (v ∷ []))
  member_of name negated _ = err not_native

  unfoldable pub members_of : String → Bool → Expressions → Attempt (List Stored)
  unfolding member_of
  members_of name negated nil = ok []
  members_of name negated (cons e es) = do
    vs ← member_of name negated e
    rest ← members_of name negated es
    ok (vs ++ rest)

  abbrev pub in_document : String → Bool → List Stored → Attempt Document
  in_document name negated [] = err not_native
  in_document name true vs =
      ok (all_of (documents_of (field name (not_among vs) ∷ field name not_null ∷ [])))
  in_document name false vs = ok (field name (among vs))

  -- `_in`
  unfoldable pub translate_in : Expression → Expressions → Bool → Attempt Document
  unfolding members_of
  translate_in operand members negated = do
    name ← column_of true operand
    vs ← members_of name negated members
    in_document name negated vs

  abbrev pub like_document : Bool → String → String → Document
  like_document true name regex =
      all_of (documents_of (field name (not_regex regex) ∷ field name not_null ∷ []))
  like_document false name regex = field name (matches_regex regex)

  module _ (escape : Char → String) where
    abbrev pub like_value : Bool → String → LiteralValue → Attempt Document
    like_value negated name (LiteralValue.text s) =
        ok (like_document negated name (like_to_regex escape s))
    like_value negated name _ = err not_native

    abbrev pub like_column : Bool → Expression → String → Attempt Document
    like_column negated (literal l) name =
        if contains name t.objectid || t.force_local_strings
        then err not_native
        else like_value negated name l.value
    like_column negated _ name = err not_native

    -- `_like`
    unfoldable pub translate_like : Expression → Expression → Bool → Attempt Document
    unfolding like_to_regex
    translate_like operand pattern_expr negated = do
      name ← column_of true operand
      like_column negated pattern_expr name

    abbrev pub null_document : Bool → String → Document
    null_document negated name = field name (if negated then not_null else equals_null)

    -- `_translate`
    unfoldable mutual
      unfolding translate_comparison translate_in translate_like

      pub translate : Expression → Attempt Document
      translate (and operands) = do ds ← translate_all operands; ok (all_of ds)
      translate (or operands) = do ds ← translate_all operands; ok (any_of ds)
      translate (comparison op left right) = translate_comparison op left right
      translate (is_null operand negated) = do
        name ← column_of false operand
        ok (null_document negated name)
      translate (is_in operand members negated) = translate_in operand members negated
      translate (like operand pattern_expr negated) = translate_like operand pattern_expr negated
      translate _ = err not_native

      pub translate_all : Expressions → Attempt Documents
      translate_all nil = ok no_documents
      translate_all (cons e es) = do d ← translate e; ds ← translate_all es; ok (document_then d ds)

    -- `conjunct`
    abbrev pub conjunct_of : Attempt Document → Outcome (Option Document)
    conjunct_of (ok d) = ok (some d)
    conjunct_of (err not_native) = ok none
    conjunct_of (err (failed other)) = err other

    unfoldable pub conjunct : Expression → Outcome (Option Document)
    unfolding translate
    conjunct e = conjunct_of (translate e)

    -- One of the lists in `scan` is extended.
    abbrev pub sort_conjunct :
        Option Document
        → Expression
        → List Document × List Expression
        → List Document × List Expression
    sort_conjunct none e (native, local) = (native, e ∷ local)
    sort_conjunct (some d) e (native, local) = (d ∷ native, local)

    -- The loop over the conjuncts in `scan`: its lists `native` and `local`.
    unfoldable pub split_conjuncts : List Expression → Outcome (List Document × List Expression)
    unfolding conjunct
    split_conjuncts [] = ok ([], [])
    split_conjuncts (e ∷ es) = do
      found ← conjunct e
      lists ← split_conjuncts es
      ok (sort_conjunct found e lists)

    -- The filter document of `scan`, and what is left to evaluate in process.
    unfoldable pub scan_filter : Option Expression → Outcome (Document × List Expression)
    unfolding split_conjuncts and_documents
    scan_filter predicate = do
      lists ← split_conjuncts (conjuncts_of predicate)
      ok (and_documents lists.0, lists.1)
