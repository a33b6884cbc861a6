-- ===== src/Domain/Expressions/SubstituteLaws.antt =====
-- What `substitute_parameters` returns and raises, src/invariantql/domain/expressions.py.
use invariantql.Prelude.{
  All, Bool, List, String, [], all, and-eq-true_iff, append_assoc, ap₂, arith, false, if◌then◌else◌,
  is_empty, leb, length, lookup, refl, some, sym, true, ◌&&◌, ◌++◌, ◌==◌, ◌||◌, ◌∙◌, ◌∷◌, ◌≡◌,
}
use invariantql.Domain.Expressions.{
  Expression, Expressions, alias, and, arithmetic, column, comparison, cons, is_alias, is_in,
  is_literal_or_parameter, is_null, like, literal, make_alias, make_and, make_in, make_like,
  make_or, nil, not, or, parameter, to_list,
}
use invariantql.Domain.Expressions.Literals.{Literal}
use invariantql.Domain.Expressions.Substitute.{Literals, substitute_all, substitute_parameters}
use invariantql.Domain.Expressions.Walk.{walk, walk_all}
use invariantql.Domain.Expressions.WalkLaws.{names_by, parameter_name}
use invariantql.Prelude.Results.{ok}

-- The tree passed the `__post_init__` checks of In, Like, Alias, And and Or.
unfoldable mutual
  pub is_built : Expression → Bool
  is_built (comparison _ left right) = is_built left && is_built right
  is_built (and operands) = leb 2 (length (to_list operands)) && are_built operands
  is_built (or operands) = leb 2 (length (to_list operands)) && are_built operands
  is_built (not operand) = is_built operand
  is_built (is_null operand _) = is_built operand
  is_built (is_in operand values _) =
      is_built operand
      && (if is_empty (to_list values) then false else all (to_list values) is_literal_or_parameter)
  is_built (like operand pattern_expr _) = is_built operand && is_literal_or_parameter pattern_expr
  is_built (arithmetic _ left right) = is_built left && is_built right
  is_built (alias expression name) =
      is_built expression && (if name == "" || is_alias expression then false else true)
  is_built _ = true

  pub are_built : Expressions → Bool
  are_built nil = true
  are_built (cons e es) = is_built e && are_built es

-- A specification: the tree with the literals in place, for a total valuation of the parameters.
unfoldable mutual
  pub fill : (String → Literal) → Expression → Expression
  fill v (parameter name) = literal (v name)
  fill v (comparison op left right) = comparison op (fill v left) (fill v right)
  fill v (and operands) = and (fill_all v operands)
  fill v (or operands) = or (fill_all v operands)
  fill v (not operand) = not (fill v operand)
  fill v (is_null operand negated) = is_null (fill v operand) negated
  fill v (is_in operand values negated) = is_in (fill v operand) (fill_all v values) negated
  fill v (like operand pattern_expr negated) = like (fill v operand) (fill v pattern_expr) negated
  fill v (arithmetic op left right) = arithmetic op (fill v left) (fill v right)
  fill v (alias expression name) = alias (fill v expression) name
  fill v e = e

  pub fill_all : (String → Literal) → Expressions → Expressions
  fill_all v nil = nil
  fill_all v (cons e es) = cons (fill v e) (fill_all v es)

length-fill_all :
    (v : String → Literal) (es : Expressions)
    → length (to_list (fill_all v es)) ≡ length (to_list es)
unfolding fill
length-fill_all v nil = refl
length-fill_all v (cons e es) = rw (length-fill_all v es)

is_literal_or_parameter-fill :
    (v : String → Literal) (e : Expression)
    → is_literal_or_parameter (fill v e) ≡ is_literal_or_parameter e
unfolding fill
is_literal_or_parameter-fill v (parameter name) = refl
is_literal_or_parameter-fill v _ = refl

is_alias-fill : (v : String → Literal) (e : Expression) → is_alias (fill v e) ≡ is_alias e
unfolding fill
is_alias-fill v (parameter name) = refl
is_alias-fill v _ = refl

are_literals-fill_all :
    (v : String → Literal) (es : Expressions)
    → (all (to_list (fill_all v es)) is_literal_or_parameter
        ≡ all (to_list es) is_literal_or_parameter)
      × (is_empty (to_list (fill_all v es)) ≡ is_empty (to_list es))
unfolding fill
are_literals-fill_all v nil = (refl, refl)
are_literals-fill_all v (cons e es) =
    (ap₂ ◌&&◌ (is_literal_or_parameter-fill v e) (are_literals-fill_all v es).0, refl)

is_built_of_plain : (e : Expression) → is_literal_or_parameter e ≡ true → is_built e ≡ true
unfolding is_built
is_built_of_plain (literal value) h = refl
is_built_of_plain (parameter name) h = refl
is_built_of_plain _ h = cc

are_built_of_plain :
    (es : Expressions) → all (to_list es) is_literal_or_parameter ≡ true → are_built es ≡ true
unfolding is_built
are_built_of_plain nil h = refl
are_built_of_plain (cons e es) h =
    let (he, hs) = (and-eq-true_iff (is_literal_or_parameter e) _).0 h in
    rw (is_built_of_plain e he) (are_built_of_plain es hs)

-- The two checks of In on its values.
members_shape :
    (es : List Expression)
    → (if is_empty es then false else all es is_literal_or_parameter) ≡ true
    → (is_empty es ≡ false) × (all es is_literal_or_parameter ≡ true)
members_shape [] h = cc
members_shape (e ∷ es) h = (refl, h)

-- Every parameter of the nodes has a literal in the dict, the one that `v` gives.
abbrev pub Supplies : Literals → (String → Literal) → List Expression → Type 0
Supplies values v nodes = All (λ n. lookup n values ≡ some (v n)) (names_by parameter_name nodes)

names_by-append :
    (f : Expression → List String) (xs ys : List Expression)
    → names_by f (xs ++ ys) ≡ names_by f xs ++ names_by f ys
names_by-append f [] ys = refl
names_by-append f (x ∷ xs) ys =
    rw (names_by-append f xs ys) (sym (append_assoc (f x) (names_by f xs) (names_by f ys)))

module _ (values : Literals) (v : String → Literal) where
  All-split : (P : String → Type 0) (xs ys : List String) → All P (xs ++ ys) → All P xs × All P ys
  All-split P [] ys h = (tt, h)
  All-split P (x ∷ xs) ys h = let (left, right) = All-split P xs ys h.1 in ((h.0, left), right)

  Supplies-split :
      (xs ys : List Expression)
      → Supplies values v (xs ++ ys)
      → Supplies values v xs × Supplies values v ys
  Supplies-split xs ys h =
      All-split _ (names_by parameter_name xs) (names_by parameter_name ys)
        (rw (names_by-append parameter_name xs ys) at h)

  make_and-fill :
      (es : Expressions)
      → leb 2 (length (to_list es)) ≡ true
      → make_and (fill_all v es) ≡ ok (and (fill_all v es))
  unfolding make_and
  make_and-fill es h = rw (length-fill_all v es) (ground arith)

  make_or-fill :
      (es : Expressions)
      → leb 2 (length (to_list es)) ≡ true
      → make_or (fill_all v es) ≡ ok (or (fill_all v es))
  unfolding make_or
  make_or-fill es h = rw (length-fill_all v es) (ground arith)

  make_in-fill :
      (e : Expression) (es : Expressions) (negated : Bool)
      → (if is_empty (to_list es) then false else all (to_list es) is_literal_or_parameter) ≡ true
      → make_in e (fill_all v es) negated ≡ ok (is_in e (fill_all v es) negated)
  unfolding make_in
  make_in-fill e es negated h =
      let (full, plain) = members_shape (to_list es) h in
      rw ((are_literals-fill_all v es).1, (are_literals-fill_all v es).0) (rw (full, plain))

  make_like-fill :
      (e p : Expression) (negated : Bool)
      → is_literal_or_parameter p ≡ true
      → make_like e (fill v p) negated ≡ ok (like e (fill v p) negated)
  unfolding make_like
  make_like-fill e p negated h = rw (is_literal_or_parameter-fill v p) (rw h)

  make_alias-fill :
      (e : Expression) (name : String)
      → (if name == "" || is_alias e then false else true) ≡ true
      → make_alias (fill v e) name ≡ ok (alias (fill v e) name)
  unfolding make_alias
  make_alias-fill e name h = rw (is_alias-fill v e) (ground arith)

  mutual
    unfolding substitute_parameters fill is_built walk

    substitute-fill :
        (e : Expression)
        → is_built e ≡ true
        → Supplies values v (walk e)
        → substitute_parameters e values ≡ ok (fill v e)
    substitute-fill (column name) b h = refl
    substitute-fill (literal value) b h = refl
    substitute-fill (parameter name) b h = rw (h.0, substitute_parameters)
    substitute-fill (comparison op left right) b h =
        let (bl, br) = (and-eq-true_iff (is_built left) (is_built right)).0 b in
        let (hl, hr) = Supplies-split (walk left) (walk right) h in
        rw (substitute-fill left bl hl) (rw (substitute-fill right br hr))
    substitute-fill (and operands) b h =
        let (long, bs) = (and-eq-true_iff _ (are_built operands)).0 b in
        rw (substitute_all-fill operands bs h) (make_and-fill operands long)
    substitute-fill (or operands) b h =
        let (long, bs) = (and-eq-true_iff _ (are_built operands)).0 b in
        rw (substitute_all-fill operands bs h) (make_or-fill operands long)
    substitute-fill (not operand) b h = rw (substitute-fill operand b h)
    substitute-fill (is_null operand negated) b h = rw (substitute-fill operand b h)
    substitute-fill (is_in operand members negated) b h =
        let (bo, shape) = (and-eq-true_iff (is_built operand) _).0 b in
        let (ho, hm) = Supplies-split (walk operand) (walk_all members) h in
        let (full, plain) = members_shape (to_list members) shape in
        rw (substitute-fill operand bo ho) (
          rw (substitute_all-fill members (are_built_of_plain members plain) hm)
            (make_in-fill (fill v operand) members negated shape))
    substitute-fill (like operand pattern_expr negated) b h =
        let (bo, plain) = (and-eq-true_iff (is_built operand) _).0 b in
        let (ho, hp) = Supplies-split (walk operand) (walk pattern_expr) h in
        rw (substitute-fill operand bo ho) (
          rw (substitute-fill pattern_expr (is_built_of_plain pattern_expr plain) hp)
            (make_like-fill (fill v operand) pattern_expr negated plain))
    substitute-fill (arithmetic op left right) b h =
        let (bl, br) = (and-eq-true_iff (is_built left) (is_built right)).0 b in
        let (hl, hr) = Supplies-split (walk left) (walk right) h in
        rw (substitute-fill left bl hl) (rw (substitute-fill right br hr))
    substitute-fill (alias expression name) b h =
        let (be, named) = (and-eq-true_iff (is_built expression) _).0 b in
        rw (substitute-fill expression be h) (make_alias-fill expression name named)

    substitute_all-fill :
        (es : Expressions)
        → are_built es ≡ true
        → Supplies values v (walk_all es)
        → substitute_all es values ≡ ok (fill_all v es)
    substitute_all-fill nil b h = refl
    substitute_all-fill (cons e es) b h =
        let (be, bs) = (and-eq-true_iff (is_built e) (are_built es)).0 b in
        let (he, hs) = Supplies-split (walk e) (walk_all es) h in
        rw (substitute-fill e be he) (rw (substitute_all-fill es bs hs))

-- With a literal for every parameter of a well-built expression, `substitute_parameters` returns
-- the expression with the parameters replaced by their literals and nothing else changed.
pub substitute_parameters_lem :
    (e : Expression) (values : Literals) (v : String → Literal)
    → is_built e ≡ true
    → Supplies values v (walk e)
    → substitute_parameters e values ≡ ok (fill v e)
substitute_parameters_lem e values v b h = substitute-fill values v e b h

mutual
  unfolding walk fill

  parameters-fill :
      (v : String → Literal) (e : Expression) → names_by parameter_name (walk (fill v e)) ≡ []
  parameters-fill v (column name) = refl
  parameters-fill v (literal value) = refl
  parameters-fill v (parameter name) = refl
  parameters-fill v (comparison op left right) =
      names_by-append parameter_name (walk (fill v left)) (walk (fill v right))
      ∙ cc (parameters-fill v left, parameters-fill v right)
  parameters-fill v (and operands) = parameters-fill_all v operands
  parameters-fill v (or operands) = parameters-fill_all v operands
  parameters-fill v (not operand) = parameters-fill v operand
  parameters-fill v (is_null operand negated) = parameters-fill v operand
  parameters-fill v (is_in operand members negated) =
      names_by-append parameter_name (walk (fill v operand)) (walk_all (fill_all v members))
      ∙ cc (parameters-fill v operand, parameters-fill_all v members)
  parameters-fill v (like operand pattern_expr negated) =
      names_by-append parameter_name (walk (fill v operand)) (walk (fill v pattern_expr))
      ∙ cc (parameters-fill v operand, parameters-fill v pattern_expr)
  parameters-fill v (arithmetic op left right) =
      names_by-append parameter_name (walk (fill v left)) (walk (fill v right))
      ∙ cc (parameters-fill v left, parameters-fill v right)
  parameters-fill v (alias expression name) = parameters-fill v expression

  parameters-fill_all :
      (v : String → Literal) (es : Expressions)
      → names_by parameter_name (walk_all (fill_all v es)) ≡ []
  parameters-fill_all v nil = refl
  parameters-fill_all v (cons e es) =
      names_by-append parameter_name (walk (fill v e)) (walk_all (fill_all v es))
      ∙ cc (parameters-fill v e, parameters-fill_all v es)
