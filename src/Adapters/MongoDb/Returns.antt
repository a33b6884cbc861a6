-- ===== src/Adapters/MongoDb/Returns.antt =====
-- When `scan` has a filter document, src/invariantql/adapters/sources/mongodb.py.
use Prim.Native.Char.{Char}
use invariantql.Prelude.{
  Bool, List, String, [], contains, false, if◌then◌else◌, none, some, subst, sym, true, ◌&&◌, ◌||◌,
  ◌∷◌, ◌≡◌,
}
use invariantql.Adapters.MongoDb.{Stored, decimal128, flipped}
use invariantql.Adapters.MongoDb.Evaluate.{is_none}
use invariantql.Adapters.MongoDb.Translate.{
  Attempt, Driver, Translator, column_of, compare_column, compare_document, failed, in_document,
  is_forced, like_column, like_value, member_of, members_of, not_native, stored_value, translate,
  translate_all, translate_comparison, translate_in, translate_like,
}
use invariantql.Domain.Expressions.{
  ComparisonOp, Expression, Expressions, and, column, comparison, cons, is_in, is_null, like,
  literal, nil, or,
}
use invariantql.Domain.Expressions.Literals.{Decimal, LiteralValue}
use invariantql.Prelude.Results.{err, ok, ◌>>=◌}

-- No exception but _NotNative.
abbrev IsQuiet : {A : Type 0} → Attempt A → Type 0
IsQuiet (err (failed e)) = ⊥
IsQuiet _ = Unit

IsQuiet-bind :
    {A B : Type 0} (m : Attempt A) (k : A → Attempt B)
    → IsQuiet m
    → ((a : A) → IsQuiet (k a))
    → IsQuiet (m >>= k)
IsQuiet-bind (ok a) k h g = g a
IsQuiet-bind (err not_native) k h g = tt
IsQuiet-bind (err (failed e)) k h g = absurd h

IsQuiet-if :
    {A : Type 0} (b : Bool) (x y : Attempt A) → IsQuiet x → IsQuiet y → IsQuiet (if b then x else y)
IsQuiet-if true x y h g = h
IsQuiet-if false x y h g = g

module _ (driver : Driver) (t : Translator) (escape : Char → String)
    (fits : (d : Decimal) → driver.decimal128_error d ≡ none) where
  stored_value-IsQuiet :
      (name : String) (value : LiteralValue) → IsQuiet (stored_value driver t name value)
  unfolding stored_value
  stored_value-IsQuiet name (LiteralValue.decimal d) =
      subst (λ o. IsQuiet (elim o [ none ↦ ok (decimal128 d) | some e ↦ err (failed e) ]))
        (sym (fits d)) tt
  stored_value-IsQuiet name _ = tt

  compare_column-IsQuiet :
      (name : String) (op : ComparisonOp) (value : LiteralValue)
      → IsQuiet (compare_column driver t name op value)
  unfolding compare_column
  compare_column-IsQuiet name op value =
      IsQuiet-if (contains name t.local_columns || (is_none value || is_forced driver t name value))
        (err not_native)
        (stored_value driver t name value >>= λ v. ok (compare_document driver t name op v)) tt
        (IsQuiet-bind (stored_value driver t name value) _ (stored_value-IsQuiet name value)
          (λ v. tt))

  translate_comparison-IsQuiet :
      (op : ComparisonOp) (left right : Expression)
      → IsQuiet (translate_comparison driver t op left right)
  unfolding translate_comparison
  translate_comparison-IsQuiet op (column name) (literal l) = compare_column-IsQuiet name op l.value
  translate_comparison-IsQuiet op (literal l) (column name) =
      compare_column-IsQuiet name (flipped op) l.value
  translate_comparison-IsQuiet op _ _ = tt

  column_of-IsQuiet : (typed : Bool) (e : Expression) → IsQuiet (column_of driver t typed e)
  column_of-IsQuiet typed (column name) =
      IsQuiet-if (typed && contains name t.local_columns) (err not_native) (ok name) tt tt
  column_of-IsQuiet typed _ = tt

  member_of-IsQuiet :
      (name : String) (negated : Bool) (e : Expression)
      → IsQuiet (member_of driver t name negated e)
  unfolding member_of
  member_of-IsQuiet name negated (literal l) =
      IsQuiet-if (is_none l.value) _ _ (IsQuiet-if negated (err not_native) (ok []) tt tt) (
        IsQuiet-if (is_forced driver t name l.value) (err not_native) _ tt (
          IsQuiet-bind (stored_value driver t name l.value) _ (stored_value-IsQuiet name l.value)
            (λ v. tt)))
  member_of-IsQuiet name negated _ = tt

  members_of-IsQuiet :
      (name : String) (negated : Bool) (es : Expressions)
      → IsQuiet (members_of driver t name negated es)
  unfolding members_of
  members_of-IsQuiet name negated nil = tt
  members_of-IsQuiet name negated (cons e es) =
      IsQuiet-bind (member_of driver t name negated e) _ (member_of-IsQuiet name negated e) (λ vs.
        IsQuiet-bind (members_of driver t name negated es) _ (members_of-IsQuiet name negated es)
          (λ rest. tt))

  in_document-IsQuiet :
      (name : String) (negated : Bool) (vs : List Stored)
      → IsQuiet (in_document driver t name negated vs)
  in_document-IsQuiet name negated [] = tt
  in_document-IsQuiet name true (v ∷ vs) = tt
  in_document-IsQuiet name false (v ∷ vs) = tt

  translate_in-IsQuiet :
      (operand : Expression) (members : Expressions) (negated : Bool)
      → IsQuiet (translate_in driver t operand members negated)
  unfolding translate_in
  translate_in-IsQuiet operand members negated =
      IsQuiet-bind (column_of driver t true operand) _ (column_of-IsQuiet true operand) (λ name.
        IsQuiet-bind (members_of driver t name negated members) _
          (members_of-IsQuiet name negated members) (λ vs. in_document-IsQuiet name negated vs))

  like_value-IsQuiet :
      (negated : Bool) (name : String) (value : LiteralValue)
      → IsQuiet (like_value driver t escape negated name value)
  like_value-IsQuiet negated name (LiteralValue.text s) = tt
  like_value-IsQuiet negated name _ = tt

  like_column-IsQuiet :
      (negated : Bool) (pattern_expr : Expression) (name : String)
      → IsQuiet (like_column driver t escape negated pattern_expr name)
  like_column-IsQuiet negated (literal l) name =
      IsQuiet-if (contains name t.objectid || t.force_local_strings) (err not_native) _ tt
        (like_value-IsQuiet negated name l.value)
  like_column-IsQuiet negated _ name = tt

  translate_like-IsQuiet :
      (operand pattern_expr : Expression) (negated : Bool)
      → IsQuiet (translate_like driver t escape operand pattern_expr negated)
  unfolding translate_like
  translate_like-IsQuiet operand pattern_expr negated =
      IsQuiet-bind (column_of driver t true operand) _ (column_of-IsQuiet true operand)
        (λ name. like_column-IsQuiet negated pattern_expr name)

  mutual
    unfolding translate

    translate-IsQuiet : (e : Expression) → IsQuiet (translate driver t escape e)
    translate-IsQuiet (and operands) =
        IsQuiet-bind (translate_all driver t escape operands) _ (translate_all-IsQuiet operands)
          (λ ds. tt)
    translate-IsQuiet (or operands) =
        IsQuiet-bind (translate_all driver t escape operands) _ (translate_all-IsQuiet operands)
          (λ ds. tt)
    translate-IsQuiet (comparison op left right) = translate_comparison-IsQuiet op left right
    translate-IsQuiet (is_null operand negated) =
        IsQuiet-bind (column_of driver t false operand) _ (column_of-IsQuiet false operand)
          (λ name. tt)
    translate-IsQuiet (is_in operand members negated) = translate_in-IsQuiet operand members negated
    translate-IsQuiet (like operand pattern_expr negated) =
        translate_like-IsQuiet operand pattern_expr negated
    translate-IsQuiet _ = tt

    translate_all-IsQuiet : (es : Expressions) → IsQuiet (translate_all driver t escape es)
    translate_all-IsQuiet nil = tt
    translate_all-IsQuiet (cons e es) =
        IsQuiet-bind (translate driver t escape e) _ (translate-IsQuiet e) (λ d.
          IsQuiet-bind (translate_all driver t escape es) _ (translate_all-IsQuiet es) (λ ds. tt))
