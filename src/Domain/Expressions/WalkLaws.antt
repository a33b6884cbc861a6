-- ===== src/Domain/Expressions/WalkLaws.antt =====
-- Laws of `walk` and of the referenced names, src/invariantql/domain/expressions.py.
use invariantql.Prelude.{
  Bool-cases, List, String, [], append-nil, arith, contains, eq_iff, false, inl, inr, refl,
  set_default, sym, ◌++◌, ◌==◌, ◌||◌, ◌∙◌, ◌∷◌, ◌≡◌,
}
use invariantql.Domain.Expressions.{
  Expression, Expressions, alias, and, arithmetic, children, column, comparison, cons, is_in,
  is_null, like, nil, not, or, parameter, to_list,
}
use invariantql.Domain.Expressions.Walk.{
  referenced_columns, referenced_parameters, see_column, see_parameter, visit, visit_nodes, walk,
  walk_all,
}

-- The nodes of a list of expressions, in the order of the walks.
abbrev pub walks : List Expression → List Expression
walks [] = []
walks (e ∷ es) = walk e ++ walks es

walk_all-walks : (es : Expressions) → walk_all es ≡ walks (to_list es)
unfolding walk
walk_all-walks nil = refl
walk_all-walks (cons e es) = rw (walk_all-walks es)

-- `walk` as the source defines it: the expression and then, child by child, the walks of its children.
walk-eq-cons : (e : Expression) → walk e ≡ e ∷ walks (children e)
unfolding walk children
walk-eq-cons (comparison op left right) = rw append-nil
walk-eq-cons (and operands) = rw walk_all-walks
walk-eq-cons (or operands) = rw walk_all-walks
walk-eq-cons (not operand) = rw append-nil
walk-eq-cons (is_null operand negated) = rw append-nil
walk-eq-cons (is_in operand values negated) = rw walk_all-walks
walk-eq-cons (like operand pattern_expr negated) = rw append-nil
walk-eq-cons (arithmetic op left right) = rw append-nil
walk-eq-cons (alias expression name) = rw append-nil
walk-eq-cons _ = refl

-- The name that a node gives to `referenced_columns` or `referenced_parameters`, if any.
abbrev pub column_name : Expression → List String
column_name (column name) = name ∷ []
column_name _ = []

abbrev pub parameter_name : Expression → List String
parameter_name (parameter name) = name ∷ []
parameter_name _ = []

abbrev pub names_by : (Expression → List String) → List Expression → List String
names_by name [] = []
names_by name (e ∷ es) = name e ++ names_by name es

-- First occurrences in order.
abbrev pub first_seen : List String → List String → List String
first_seen seen [] = seen
first_seen seen (n ∷ names) = first_seen (set_default seen n) names

visit_nodes-append :
    (see : List String → Expression → List String) (seen : List String) (xs ys : List Expression)
    → visit_nodes see seen (xs ++ ys) ≡ visit_nodes see (visit_nodes see seen xs) ys
unfolding visit_nodes
visit_nodes-append see seen [] ys = refl
visit_nodes-append see seen (x ∷ xs) ys = visit_nodes-append see (see seen x) xs ys

visit-eq-visit_nodes :
    (see : List String → Expression → List String) (seen : List String) (es : List Expression)
    → visit see seen es ≡ visit_nodes see seen (walks es)
unfolding visit
visit-eq-visit_nodes see seen [] = refl
visit-eq-visit_nodes see seen (e ∷ es) =
    visit-eq-visit_nodes see (visit_nodes see seen (walk e)) es
    ∙ sym (visit_nodes-append see seen (walk e) (walks es))

visit_nodes-columns :
    (seen : List String) (nodes : List Expression)
    → visit_nodes see_column seen nodes ≡ first_seen seen (names_by column_name nodes)
unfolding visit_nodes
visit_nodes-columns seen [] = refl
visit_nodes-columns seen (column name ∷ nodes) = visit_nodes-columns (set_default seen name) nodes
visit_nodes-columns seen (_ ∷ nodes) = visit_nodes-columns seen nodes

visit_nodes-parameters :
    (seen : List String) (nodes : List Expression)
    → visit_nodes see_parameter seen nodes ≡ first_seen seen (names_by parameter_name nodes)
unfolding visit_nodes
visit_nodes-parameters seen [] = refl
visit_nodes-parameters seen (parameter name ∷ nodes) =
    visit_nodes-parameters (set_default seen name) nodes
visit_nodes-parameters seen (_ ∷ nodes) = visit_nodes-parameters seen nodes

-- A list names nothing twice.
abbrev pub IsDistinct : List String → Type 0
IsDistinct [] = Unit
IsDistinct (n ∷ names) = (contains n names ≡ false) × IsDistinct names

pub contains-append :
    (n : String) (xs ys : List String) → contains n (xs ++ ys) ≡ (contains n xs || contains n ys)
contains-append n [] ys = refl
contains-append n (x ∷ xs) ys = ground (arith, contains-append n xs ys)

IsDistinct-concat :
    (xs : List String) (n : String)
    → IsDistinct xs
    → contains n xs ≡ false
    → IsDistinct (xs ++ n ∷ [])
IsDistinct-concat [] n d h = (refl, tt)
IsDistinct-concat (x ∷ xs) n d h = (
  ground (arith, contains-append x xs (n ∷ []), eq_iff x n, eq_iff n x),
  IsDistinct-concat xs n d.1 (ground arith),
)

first_seen-IsDistinct :
    (seen names : List String) → IsDistinct seen → IsDistinct (first_seen seen names)
first_seen-IsDistinct seen [] d = d
first_seen-IsDistinct seen (n ∷ names) d = elim (Bool-cases (contains n seen)) [
  | inl old ↦ rw old (first_seen-IsDistinct seen names d)
  | inr new ↦ rw new (first_seen-IsDistinct (seen ++ n ∷ []) names (IsDistinct-concat seen n d new))
]

contains-set_default :
    (m n : String) (seen : List String)
    → contains m (set_default seen n) ≡ (contains m seen || n == m)
contains-set_default m n seen = ground (arith, contains-append m seen (n ∷ []), eq_iff n m)

contains-first_seen :
    (m : String) (seen names : List String)
    → contains m (first_seen seen names) ≡ (contains m seen || contains m names)
contains-first_seen m seen [] = ground arith
contains-first_seen m seen (n ∷ names) =
    ground (arith, contains-first_seen m (set_default seen n) names, contains-set_default m n seen)

-- `referenced_columns` lists the names of the columns that occur in the expressions: each once,
-- and exactly those that some node of a walk has, in the order in which the walks meet them.
pub referenced_columns_lem :
    (es : List Expression)
    → (referenced_columns es ≡ first_seen [] (names_by column_name (walks es)))
      × IsDistinct (referenced_columns es)
      × ((m : String)
          → contains m (referenced_columns es) ≡ contains m (names_by column_name (walks es)))
unfolding referenced_columns
referenced_columns_lem es =
    let e = visit-eq-visit_nodes see_column [] es ∙ visit_nodes-columns [] (walks es) in
    rw e (
      refl,
      first_seen-IsDistinct [] (names_by column_name (walks es)) tt,
      λ m. contains-first_seen m [] _,
    )

-- `referenced_parameters` lists the names of the parameters that occur in the expressions: each
-- once, and exactly those that some node of a walk has, in the order in which the walks meet them.
pub referenced_parameters_lem :
    (es : List Expression)
    → (referenced_parameters es ≡ first_seen [] (names_by parameter_name (walks es)))
      × IsDistinct (referenced_parameters es)
      × ((m : String)
          → contains m (referenced_parameters es) ≡ contains m (names_by parameter_name (walks es)))
unfolding referenced_parameters
referenced_parameters_lem es =
    let e = visit-eq-visit_nodes see_parameter [] es ∙ visit_nodes-parameters [] (walks es) in
    rw e (
      refl,
      first_seen-IsDistinct [] (names_by parameter_name (walks es)) tt,
      λ m. contains-first_seen m [] _,
    )
