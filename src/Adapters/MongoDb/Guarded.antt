-- ===== src/Adapters/MongoDb/Guarded.antt =====
-- What the filter documents of src/invariantql/adapters/sources/mongodb.py may test.
use invariantql.Prelude.{
  Bool, Bool-cases, List, Option, String, [], all, arith, contains, eq_refl, false, inl, inr,
  is_empty, none, not, refl, some, true, ◌&&◌, ◌++◌, ◌||◌, ◌∷◌, ◌≡◌,
}
use invariantql.Adapters.MongoDb.{
  Condition, Document, Documents, Stored, all_of, among, any_of, compares, decimal128, differs,
  document_then, equals_null, everything, field, flipped, matches_regex, no_documents, not_among,
  not_null, not_regex, plain,
}
use invariantql.Adapters.MongoDb.Evaluate.{is_none}
use invariantql.Adapters.MongoDb.Translate.{
  Driver, Translator, column_of, compare_column, compare_document, failed, in_document, is_forced,
  member_of, members_of, stored_value, translate_comparison, translate_in,
}
use invariantql.Domain.Diagnostics.{Raised}
use invariantql.Domain.Expressions.{
  ComparisonOp, Expression, Expressions, column, cons, eq, ge, gt, le, literal, lt, ne, nil,
}
use invariantql.Domain.Expressions.Literals.{Decimal, LiteralValue}
use invariantql.Prelude.Results.{Ensures, Ensures-bind, Ensures-if, err, holds, ok, raised}

-- A text, which an endpoint without collations must not compare.
abbrev pub is_stored_text : Stored → Bool
is_stored_text (plain (LiteralValue.text s)) = true
is_stored_text _ = false

abbrev pub not_null_names : Documents → List String
not_null_names no_documents = []
not_null_names (document_then (field name not_null) ds) = name ∷ not_null_names ds
not_null_names (document_then d ds) = not_null_names ds

module _ (t : Translator) where
  -- Texts are compared on ObjectId columns only, if the endpoint has no collation.
  abbrev pub value_allowed : String → Stored → Bool
  value_allowed name v =
      not t.force_local_strings || (contains name t.objectid || not (is_stored_text v))

  abbrev pub values_allowed : String → List Stored → Bool
  values_allowed name vs = all vs (λ v. value_allowed name v)

  abbrev pub regex_allowed : String → Bool
  regex_allowed name = not t.force_local_strings && not (contains name t.objectid)

  -- `guards` are the columns whose missing values the enclosing conjunction excludes.
  abbrev pub condition_allowed : List String → String → Condition → Bool
  condition_allowed guards name equals_null = true
  condition_allowed guards name not_null = true
  condition_allowed guards name (compares ne v) = false
  condition_allowed guards name (compares op v) =
      not (contains name t.local_columns) && value_allowed name v
  condition_allowed guards name (differs v) =
      contains name guards && (not (contains name t.local_columns) && value_allowed name v)
  condition_allowed guards name (among vs) =
      not (contains name t.local_columns) && (not (is_empty vs) && values_allowed name vs)
  condition_allowed guards name (not_among vs) =
      contains name guards
      && (not (contains name t.local_columns) && (not (is_empty vs) && values_allowed name vs))
  condition_allowed guards name (matches_regex regex) =
      not (contains name t.local_columns) && regex_allowed name
  condition_allowed guards name (not_regex regex) =
      contains name guards && (not (contains name t.local_columns) && regex_allowed name)

  unfoldable mutual
    -- Only null tests are on local columns, no text is compared where `find` has no collation, and a
    -- negative condition stands beside `{column: {"$ne": None}}`.
    pub is_allowed : List String → Document → Bool
    is_allowed guards everything = true
    is_allowed guards (all_of ds) = are_allowed (not_null_names ds) ds
    is_allowed guards (any_of ds) = are_allowed [] ds
    is_allowed guards (field name condition) = condition_allowed guards name condition

    pub are_allowed : List String → Documents → Bool
    are_allowed guards no_documents = true
    are_allowed guards (document_then d ds) = is_allowed guards d && are_allowed guards ds

  -- In every conjunction.
  abbrev pub IsAllowed : Document → Type 0
  IsAllowed d = (guards : List String) → is_allowed guards d ≡ true

all-append_true :
    (p : Stored → Bool) (xs ys : List Stored)
    → all xs p ≡ true
    → all ys p ≡ true
    → all (xs ++ ys) p ≡ true
all-append_true p [] ys h k = k
all-append_true p (x ∷ xs) ys h k = ground (arith, all-append_true p xs ys)

module _ (driver : Driver) (t : Translator) where
  decimal_case :
      (name : String) (d : Decimal) (error : Option Raised)
      → Ensures
          (λ v. value_allowed t name v ≡ true)
          (elim error [ none ↦ ok (decimal128 d) | some e ↦ err (failed e) ])
  decimal_case name d none = holds (ground arith)
  decimal_case name d (some e) = raised

  stored_value-Ensures :
      (name : String) (value : LiteralValue)
      → is_forced driver t name value ≡ false
      → Ensures (λ v. value_allowed t name v ≡ true) (stored_value driver t name value)
  unfolding stored_value
  stored_value-Ensures name (LiteralValue.text s) h =
      elim (Bool-cases (contains name t.objectid && driver.is_valid_id s)) [
        | inl e ↦ rw e (holds (ground arith))
        | inr e ↦ rw e (holds (ground arith))
      ]
  stored_value-Ensures name (LiteralValue.decimal d) h =
      decimal_case name d (driver.decimal128_error d)
  stored_value-Ensures name (LiteralValue.datetime d) h = holds (ground arith)
  stored_value-Ensures name (LiteralValue.date d) h = holds (ground arith)
  stored_value-Ensures name _ h = holds (ground arith)

  compare_document-IsAllowed :
      (name : String) (op : ComparisonOp) (v : Stored)
      → contains name t.local_columns ≡ false
      → value_allowed t name v ≡ true
      → IsAllowed t (compare_document driver t name op v)
  unfolding is_allowed
  compare_document-IsAllowed name ne v l h guards = rw (eq_refl name, l, h) refl
  compare_document-IsAllowed name eq v l h guards = rw (l, h) refl
  compare_document-IsAllowed name lt v l h guards = rw (l, h) refl
  compare_document-IsAllowed name le v l h guards = rw (l, h) refl
  compare_document-IsAllowed name gt v l h guards = rw (l, h) refl
  compare_document-IsAllowed name ge v l h guards = rw (l, h) refl

  compare_column-Ensures :
      (name : String) (op : ComparisonOp) (value : LiteralValue)
      → Ensures (IsAllowed t) (compare_column driver t name op value)
  unfolding compare_column
  compare_column-Ensures name op value =
      Ensures-if (contains name t.local_columns || (is_none value || is_forced driver t name value))
        (λ h. raised)
        (λ h.
          Ensures-bind (stored_value-Ensures name value (ground (arith, h)))
            (λ v a. holds (compare_document-IsAllowed name op v (ground (arith, h)) a)))

  pub translate_comparison-Ensures :
      (op : ComparisonOp) (left right : Expression)
      → Ensures (IsAllowed t) (translate_comparison driver t op left right)
  unfolding translate_comparison
  translate_comparison-Ensures op (column name) (literal l) = compare_column-Ensures name op l.value
  translate_comparison-Ensures op (literal l) (column name) =
      compare_column-Ensures name (flipped op) l.value
  translate_comparison-Ensures op _ _ = raised

  pub column_of-Ensures :
      (e : Expression)
      → Ensures (λ name. contains name t.local_columns ≡ false) (column_of driver t true e)
  column_of-Ensures (column name) = Ensures-if _ (λ h. raised) (λ h. holds h)
  column_of-Ensures _ = raised

  member_of-Ensures :
      (name : String) (negated : Bool) (e : Expression)
      → Ensures (λ vs. values_allowed t name vs ≡ true) (member_of driver t name negated e)
  unfolding member_of
  member_of-Ensures name negated (literal l) =
      Ensures-if (is_none l.value) (λ h. Ensures-if negated (λ k. raised) (λ k. holds refl))
        (λ h.
          Ensures-if (is_forced driver t name l.value) (λ k. raised)
            (λ k.
              Ensures-bind (stored_value-Ensures name l.value k)
                (λ v a. holds {a = v ∷ []} (rw a refl))))
  member_of-Ensures name negated _ = raised

  members_of-Ensures :
      (name : String) (negated : Bool) (es : Expressions)
      → Ensures (λ vs. values_allowed t name vs ≡ true) (members_of driver t name negated es)
  unfolding members_of
  members_of-Ensures name negated nil = holds refl
  members_of-Ensures name negated (cons e es) =
      Ensures-bind (member_of-Ensures name negated e) (λ vs a.
        Ensures-bind (members_of-Ensures name negated es)
          (λ rest b. holds (all-append_true _ vs rest a b)))

  in_document-Ensures :
      (name : String) (negated : Bool) (vs : List Stored)
      → contains name t.local_columns ≡ false
      → values_allowed t name vs ≡ true
      → Ensures (IsAllowed t) (in_document driver t name negated vs)
  unfolding is_allowed
  in_document-Ensures name negated [] l h = raised
  in_document-Ensures name true (v ∷ vs) l h = holds (λ guards. rw (eq_refl name, l, h) refl)
  in_document-Ensures name false (v ∷ vs) l h = holds (λ guards. rw (l, h) refl)

  pub translate_in-Ensures :
      (operand : Expression) (members : Expressions) (negated : Bool)
      → Ensures (IsAllowed t) (translate_in driver t operand members negated)
  unfolding translate_in
  translate_in-Ensures operand members negated = Ensures-bind (column_of-Ensures operand) (λ name l.
      Ensures-bind (members_of-Ensures name negated members)
        (λ vs h. in_document-Ensures name negated vs l h))
