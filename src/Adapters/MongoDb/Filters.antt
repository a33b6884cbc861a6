-- ===== src/Adapters/MongoDb/Filters.antt =====
-- The filter that `scan` hands to `find`, src/invariantql/adapters/sources/mongodb.py.
use Prim.Native.Char.{Char}
use invariantql.Prelude.{
  Bool, List, Option, String, [], ap, arith, contains, eq_refl, false, if◌then◌else◌, refl, select,
  true, ◌++◌, ◌||◌, ◌∷◌, ◌≡◌,
}
use invariantql.Adapters.MongoDb.{
  Document, Documents, all_of, and_documents, any_of, document_then, documents_of, like_to_regex,
  no_documents,
}
use invariantql.Adapters.MongoDb.Guarded.{
  IsAllowed, are_allowed, column_of-Ensures, is_allowed, not_null_names,
  translate_comparison-Ensures, translate_in-Ensures,
}
use invariantql.Adapters.MongoDb.Translate.{
  Attempt, Driver, Translator, column_of, conjunct_of, failed, like_column, like_document,
  like_value, not_native, null_document, scan_filter, sort_conjunct, split_conjuncts, translate,
  translate_all, translate_like,
}
use invariantql.Domain.Diagnostics.{Outcome}
use invariantql.Domain.Expressions.{
  Expression, Expressions, and, comparison, cons, is_in, is_null, like, literal, nil, or,
}
use invariantql.Domain.Expressions.Literals.{LiteralValue}
use invariantql.Domain.Expressions.Walk.{conjuncts_of}
use invariantql.Prelude.Results.{
  Ensures, Ensures-any, Ensures-bind, Ensures-if, Ensures-ok, err, holds, ok, raised, ◌>>=◌,
}

module _ (t : Translator) where
  abbrev pub AreAllowed : Documents → Type 0
  AreAllowed no_documents = Unit
  AreAllowed (document_then d ds) = IsAllowed t d × AreAllowed ds

  are_allowed-AreAllowed :
      (guards : List String) (ds : Documents) → AreAllowed ds → are_allowed t guards ds ≡ true
  unfolding is_allowed
  are_allowed-AreAllowed guards no_documents h = refl
  are_allowed-AreAllowed guards (document_then d ds) h =
      rw (h.0 guards, are_allowed-AreAllowed guards ds h.1) refl

  all_of-IsAllowed : (ds : Documents) → AreAllowed ds → IsAllowed t (all_of ds)
  unfolding is_allowed
  all_of-IsAllowed ds h guards = are_allowed-AreAllowed (not_null_names ds) ds h

  any_of-IsAllowed : (ds : Documents) → AreAllowed ds → IsAllowed t (any_of ds)
  unfolding is_allowed
  any_of-IsAllowed ds h guards = are_allowed-AreAllowed [] ds h

  null_document-IsAllowed :
      (driver : Driver) (escape : Char → String) (negated : Bool) (name : String)
      → IsAllowed t (null_document driver t escape negated name)
  unfolding is_allowed
  null_document-IsAllowed driver escape true name guards = refl
  null_document-IsAllowed driver escape false name guards = refl

  like_document-IsAllowed :
      (driver : Driver) (negated : Bool) (name regex : String)
      → contains name t.local_columns ≡ false
      → (contains name t.objectid || t.force_local_strings) ≡ false
      → IsAllowed t (like_document driver t negated name regex)
  unfolding is_allowed
  like_document-IsAllowed driver true name regex l h guards =
      rw (eq_refl name, l) (ground (arith, h))
  like_document-IsAllowed driver false name regex l h guards = rw l (ground (arith, h))

module _ (driver : Driver) (t : Translator) (escape : Char → String) where
  like_value-Ensures :
      (negated : Bool) (name : String) (value : LiteralValue)
      → contains name t.local_columns ≡ false
      → (contains name t.objectid || t.force_local_strings) ≡ false
      → Ensures (IsAllowed t) (like_value driver t escape negated name value)
  like_value-Ensures negated name (LiteralValue.text s) h k =
      holds (like_document-IsAllowed t driver negated name (like_to_regex escape s) h k)
  like_value-Ensures negated name _ h k = raised

  like_column-Ensures :
      (negated : Bool) (pattern_expr : Expression) (name : String)
      → contains name t.local_columns ≡ false
      → Ensures (IsAllowed t) (like_column driver t escape negated pattern_expr name)
  like_column-Ensures negated (literal l) name h =
      Ensures-if (contains name t.objectid || t.force_local_strings) (λ k. raised)
        (λ k. like_value-Ensures negated name l.value h k)
  like_column-Ensures negated _ name h = raised

  translate_like-Ensures :
      (operand pattern_expr : Expression) (negated : Bool)
      → Ensures (IsAllowed t) (translate_like driver t escape operand pattern_expr negated)
  unfolding translate_like
  translate_like-Ensures operand pattern_expr negated =
      Ensures-bind (column_of-Ensures driver t operand)
        (λ name h. like_column-Ensures negated pattern_expr name h)

  mutual
    unfolding translate

    translate-Ensures : (e : Expression) → Ensures (IsAllowed t) (translate driver t escape e)
    translate-Ensures (and operands) =
        Ensures-bind (translate_all-Ensures operands) (λ ds h. holds (all_of-IsAllowed t ds h))
    translate-Ensures (or operands) =
        Ensures-bind (translate_all-Ensures operands) (λ ds h. holds (any_of-IsAllowed t ds h))
    translate-Ensures (comparison op left right) =
        translate_comparison-Ensures driver t op left right
    translate-Ensures (is_null operand negated) =
        Ensures-bind (Ensures-any (column_of driver t false operand))
          (λ name h. holds (null_document-IsAllowed t driver escape negated name))
    translate-Ensures (is_in operand members negated) =
        translate_in-Ensures driver t operand members negated
    translate-Ensures (like operand pattern_expr negated) =
        translate_like-Ensures operand pattern_expr negated
    translate-Ensures _ = raised

    translate_all-Ensures :
        (es : Expressions) → Ensures (AreAllowed t) (translate_all driver t escape es)
    translate_all-Ensures nil = holds tt
    translate_all-Ensures (cons e es) =
        Ensures-bind (translate-Ensures e)
          (λ d h. Ensures-bind (translate_all-Ensures es) (λ ds k. holds (h, k)))

  -- A conjunct that `find` cannot evaluate.
  abbrev pub is_left : Attempt Document → Bool
  is_left (err not_native) = true
  is_left _ = false

  abbrev pub is_local : Expression → Bool
  is_local e = is_left (translate driver t escape e)

  abbrev pub found_of : Attempt Document → List Document
  found_of (ok d) = d ∷ []
  found_of _ = []

  -- The documents of the conjuncts that have one.
  abbrev pub translations : List Expression → List Document
  translations [] = []
  translations (e ∷ es) = found_of (translate driver t escape e) ++ translations es

  abbrev AllAllowed : List Document → Type 0
  AllAllowed [] = Unit
  AllAllowed (d ∷ ds) = IsAllowed t d × AllAllowed ds

  AreAllowed-documents : (ds : List Document) → AllAllowed ds → AreAllowed t (documents_of ds)
  AreAllowed-documents [] h = tt
  AreAllowed-documents (d ∷ ds) h = (h.0, AreAllowed-documents ds h.1)

  and_documents-IsAllowed : (ds : List Document) → AllAllowed ds → IsAllowed t (and_documents ds)
  unfolding and_documents is_allowed
  and_documents-IsAllowed [] h guards = refl
  and_documents-IsAllowed (d ∷ []) h guards = h.0 guards
  and_documents-IsAllowed (d ∷ e ∷ ds) h guards =
      all_of-IsAllowed t (documents_of (d ∷ e ∷ ds)) (AreAllowed-documents (d ∷ e ∷ ds) h) guards

  abbrev IsSplit : List Expression → List Document × List Expression → Type 0
  IsSplit es lists =
      AllAllowed lists.0 × (lists.0 ≡ translations es) × (lists.1 ≡ select is_local es)

  split_step :
      (e : Expression) (es : List Expression) (r : Attempt Document)
      (rest : Outcome (List Document × List Expression))
      → Ensures (IsAllowed t) r
      → Ensures (IsSplit es) rest
      → Ensures
          (λ lists.
            AllAllowed lists.0
            × (lists.0 ≡ found_of r ++ translations es)
            × (lists.1 ≡ (if is_left r then e ∷ select is_local es else select is_local es)))
          (conjunct_of driver t escape r >>= λ found.
            rest >>= λ lists. ok (sort_conjunct driver t escape found e lists))
  split_step e es (ok d) rest h k =
      Ensures-bind k (λ lists q. holds ((Ensures-ok h refl, q.0), ap (λ ds. d ∷ ds) q.1, q.2))
  split_step e es (err not_native) rest h k =
      Ensures-bind k (λ lists q. holds (q.0, q.1, ap (λ l. e ∷ l) q.2))
  split_step e es (err (failed other)) rest h k = raised

  split_conjuncts-IsSplit :
      (es : List Expression) → Ensures (IsSplit es) (split_conjuncts driver t escape es)
  unfolding split_conjuncts
  split_conjuncts-IsSplit [] = holds (tt, refl, refl)
  split_conjuncts-IsSplit (e ∷ es) =
      split_step e es (translate driver t escape e) (split_conjuncts driver t escape es)
        (translate-Ensures e) (split_conjuncts-IsSplit es)

  -- When `scan` has a filter document for `find`, the document conjoins the translations of the
  -- conjuncts that have one, and the others are left to evaluate in process, in their order. The
  -- document has only null tests on local columns; where `find` has no collation, it compares texts on
  -- ObjectId columns only and has no regular expression; it has none on an ObjectId column; and beside
  -- each negative condition stands the guard `{column: {"$ne": None}}`.
  pub scan_filter_lem :
      (predicate : Option Expression) (document : Document) (local : List Expression)
      → scan_filter driver t escape predicate ≡ ok (document, local)
      → (is_allowed t [] document ≡ true)
        × (document ≡ and_documents (translations (conjuncts_of predicate)))
        × (local ≡ select is_local (conjuncts_of predicate))
  unfolding scan_filter
  scan_filter_lem predicate document local h =
      Ensures-ok
        (Ensures-bind
          {Q = λ made.
            (is_allowed t [] made.0 ≡ true)
            × (made.0 ≡ and_documents (translations (conjuncts_of predicate)))
            × (made.1 ≡ select is_local (conjuncts_of predicate))}
          (split_conjuncts-IsSplit (conjuncts_of predicate))
          (λ lists q. holds (and_documents-IsAllowed lists.0 q.0 [], ap and_documents q.1, q.2)))
        h
