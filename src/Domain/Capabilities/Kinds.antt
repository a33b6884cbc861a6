-- ===== src/Domain/Capabilities/Kinds.antt =====
-- The lists of kind values in the capability dictionaries against the sets of kinds,
-- src/invariantql/domain/capabilities.py.
use invariantql.Prelude.{
  Bool-cases, List, Option, String, [], ap, arith, contains, eq_iff, if◌then◌else◌, inl, inr, map,
  none, refl, select, some, true, ◌&&◌, ◌==◌, ◌∙◌, ◌∷◌, ◌≡◌,
}
use invariantql.Domain.Capabilities.{KindSet, all_kinds, sorted_values}
use invariantql.Domain.Expressions.{ExpressionKind, kind_value}
use invariantql.Prelude.Sort.{contains-sorted}

-- `ExpressionKind(value)`
kind_of : String → Option ExpressionKind
kind_of s =
    if s == "column"
    then some ExpressionKind.column
    else if s == "literal"
    then some ExpressionKind.literal
    else if s == "parameter"
    then some ExpressionKind.parameter
    else if s == "comparison"
    then some ExpressionKind.comparison
    else if s == "and"
    then some ExpressionKind.and
    else if s == "or"
    then some ExpressionKind.or
    else if s == "not"
    then some ExpressionKind.not
    else if s == "is_null"
    then some ExpressionKind.is_null
    else if s == "in"
    then some ExpressionKind.is_in
    else if s == "like"
    then some ExpressionKind.like
    else if s == "arithmetic"
    then some ExpressionKind.arithmetic
    else if s == "alias"
    then some ExpressionKind.alias
    else none

kind_of-kind_value : (k : ExpressionKind) → kind_of (kind_value k) ≡ some k
unfolding kind_of
kind_of-kind_value ExpressionKind.column = refl
kind_of-kind_value _ = refl

pub kind_value-injective : (j k : ExpressionKind) → kind_value j ≡ kind_value k → j ≡ k
kind_value-injective j k h = cc (ap kind_of h, kind_of-kind_value j, kind_of-kind_value k)

contains-select :
    (kinds : KindSet) (k : ExpressionKind) (ks : List ExpressionKind)
    → contains (kind_value k) (map kind_value (select kinds ks))
      ≡ (contains (kind_value k) (map kind_value ks) && kinds k)
contains-select kinds k [] = refl
contains-select kinds k (j ∷ ks) = elim (Bool-cases (kind_value j == kind_value k)) [
  | inl e ↦
      let same = kind_value-injective j k ((eq_iff _ _).0 e) in
      elim (Bool-cases (kinds j)) [
        | inl h ↦ rw h (rw e (rw (← same) (rw h)))
        | inr h ↦ rw h (rw (contains-select kinds k ks) (rw (e, rw same at h) (ground arith)))
      ]
  | inr e ↦ elim (Bool-cases (kinds j)) [
    | inl h ↦ rw h (rw e (contains-select kinds k ks))
    | inr h ↦ rw h (rw e (contains-select kinds k ks))
  ]
]

contains-all_kinds :
    (k : ExpressionKind) → contains (kind_value k) (map kind_value all_kinds) ≡ true
contains-all_kinds ExpressionKind.column = refl
contains-all_kinds _ = refl

-- A kind's value stands in the sorted list exactly when the kind is in the set.
pub contains-sorted_values :
    (kinds : KindSet) (k : ExpressionKind) → contains (kind_value k) (sorted_values kinds) ≡ kinds k
unfolding sorted_values
contains-sorted_values kinds k =
    contains-sorted (kind_value k) (map kind_value (select kinds all_kinds))
    ∙ rw (contains-select kinds k all_kinds) (rw (contains-all_kinds k))
