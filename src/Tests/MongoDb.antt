-- ===== src/Tests/MongoDb.antt =====
-- Runs of the properties of src/invariantql/adapters/sources/mongodb.py, with a comparison of values by
-- their size.
use invariantql.Prelude.{
  Bool, Option, String, [], eqb, false, leb, ltb, none, refl, select, some, true, ℕ, ◌==◌, ◌∷◌, ◌≡◌,
}
use invariantql.Adapters.MongoDb.{
  Document, all_of, and_documents, differs, documents_of, field, not_null, plain,
}
use invariantql.Adapters.MongoDb.Evaluate.{Python, Row, negate}
use invariantql.Adapters.MongoDb.Filters.{is_local, scan_filter_lem, translations}
use invariantql.Adapters.MongoDb.Guarded.{is_allowed}
use invariantql.Adapters.MongoDb.Translate.{Driver, Translator, scan_filter, stored_value}
use invariantql.Domain.Expressions.{
  ComparisonOp, Expression, and, column, comparison, cons, eq, ge, gt, is_in, is_null, le, literal,
  lt, ne, nil,
}
use invariantql.Domain.Expressions.Literals.{LiteralValue}
use invariantql.Domain.Expressions.Walk.{conjuncts, conjuncts_of}
use invariantql.Domain.Types.{integer, string}
use invariantql.Prelude.Int.{pos}
use invariantql.Prelude.Results.{ok}

abbrev weight : LiteralValue → ℕ
weight (LiteralValue.int (pos n)) = n
weight _ = 0

abbrev compare_weights : ComparisonOp → LiteralValue → LiteralValue → Option Bool
compare_weights eq x y = some (eqb (weight x) (weight y))
compare_weights ne x y = some (negate (eqb (weight x) (weight y)))
compare_weights lt x y = some (ltb (weight x) (weight y))
compare_weights le x y = some (leb (weight x) (weight y))
compare_weights gt x y = some (ltb (weight y) (weight x))
compare_weights ge x y = some (leb (weight y) (weight x))

abbrev text_of : LiteralValue → String
text_of (LiteralValue.text s) = s
text_of _ = ""

abbrev sized : Python
sized = record {
  compare_by = compare_weights;
  equal = λ x y. eqb (weight x) (weight y);
  str = text_of;
  fullmatch = λ regex s. regex == s;
  escape = λ c. String.◌∷◌ c String.[];
}

abbrev number : ℕ → Expression
number n = literal (record { value = LiteralValue.int (pos n); data_type = integer 64 })

abbrev number_row : ℕ → Row
number_row n name = LiteralValue.int (pos n)

-- `2 < n AND n IN (4, 5)`
abbrev both_sides : Expression
both_sides = and (
    cons (comparison lt (number 2) (column "n"))
      (cons (is_in (column "n") (cons (number 4) (cons (number 5) nil)) false) nil))

abbrev plain_driver : Driver
plain_driver = record { is_valid_id = λ s. false; decimal128_error = λ d. none }

-- The texts of `note` are compared in process.
abbrev note_local : Translator
note_local = record {
  objectid = "_id" ∷ [];
  local_columns = "note" ∷ [];
  force_local_strings = false;
}

abbrev note_differs : Expression
note_differs =
    comparison ne (column "note")
      (literal (record { value = LiteralValue.text "a"; data_type = string }))

-- `n <> 3 AND note <> 'a' AND note IS NOT NULL`
abbrev mixed : Expression
mixed = and (
    cons (comparison ne (column "n") (number 3))
      (cons note_differs (cons (is_null (column "note") true) nil)))

abbrev mixed_document : Document
mixed_document = all_of (
    documents_of (
      all_of (
        documents_of
          (field "n" (differs (plain (LiteralValue.int (pos 3)))) ∷ field "n" not_null ∷ []))
      ∷ field "note" not_null
      ∷ []))

mixed_split :
    scan_filter plain_driver note_local sized.escape (some mixed)
    ≡ ok (mixed_document, note_differs ∷ [])
unfolding scan_filter conjuncts stored_value
mixed_split = refl

scan_filter_lem_example :
    (is_allowed note_local [] mixed_document ≡ true)
    × (mixed_document
        ≡ and_documents
            (translations plain_driver note_local sized.escape (conjuncts_of (some mixed))))
    × (note_differs ∷ []
        ≡ select (is_local plain_driver note_local sized.escape) (conjuncts_of (some mixed)))
scan_filter_lem_example =
    scan_filter_lem plain_driver note_local sized.escape (some mixed) mixed_document
      (note_differs ∷ []) mixed_split
