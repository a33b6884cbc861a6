-- ===== src/Application/Binding/Bound.antt =====
-- What `bind` returns, src/invariantql/application/binding.py.
use invariantql.Prelude.{
  Bool, Bool-cases, List, Option, String, all, all-append, ap, ap₂, false, inl, inr, is_empty,
  length, lookup, ltb, none, refl, some, true, ◌&&◌, ◌++◌, ◌==◌, ◌∙◌, ◌≡◌,
}
use invariantql.Application.Binding.{
  bind, bind_column, bind_each, check_booleans, check_comparable, check_kind, check_members,
  check_numeric, check_parameter, invalid_plan, ranged, require_portable_type, type_of,
}
use invariantql.Application.Binding.Columns.{
  AreBoundAll, Ensures-given, Ensures-then, Ensures-unless, IsBound, contains-resolve,
  is_bound_node,
}
use invariantql.Domain.Diagnostics.{Raised, plan_type_mismatch, value_error}
use invariantql.Domain.Expressions.{
  Expression, Expressions, alias, and, arithmetic, column, comparison, cons, is_alias, is_in,
  is_literal_or_parameter, is_null, like, literal, make_alias, make_and, make_column, make_in,
  make_like, make_or, nil, not, or, parameter, to_list,
}
use invariantql.Domain.Expressions.Literals.{Literal}
use invariantql.Domain.Expressions.Substitute.{Literals}
use invariantql.Domain.Expressions.Walk.{walk, walk_all}
use invariantql.Domain.Schema.{Field, Schema, resolve}
use invariantql.Domain.Types.{is_portable_type}
use invariantql.Prelude.Results.{Ensures, Ensures-bind, Ensures-ok, guard, holds, ok, raised, ◌>>◌}

make_and-Ensures :
    (schema : Schema) (es : Expressions)
    → AreBoundAll schema es
    → Ensures (IsBound schema) (make_and es)
unfolding make_and walk
make_and-Ensures schema es h = Ensures-unless (ltb (length (to_list es)) 2) value_error (and es) h

make_or-Ensures :
    (schema : Schema) (es : Expressions)
    → AreBoundAll schema es
    → Ensures (IsBound schema) (make_or es)
unfolding make_or walk
make_or-Ensures schema es h = Ensures-unless (ltb (length (to_list es)) 2) value_error (or es) h

portable :
    (schema : Schema) (b : Bool) (e : Raised) (l : Literal)
    → is_portable_type l.data_type ≡ b
    → Ensures (IsBound schema) (guard b e >> ok (literal l))
unfolding walk
portable schema true e l h = holds (ap (λ b. b && true) h)
portable schema false e l h = raised

joined :
    (schema : Schema) (xs ys : List Expression)
    → all xs (is_bound_node schema) ≡ true
    → all ys (is_bound_node schema) ≡ true
    → all (xs ++ ys) (is_bound_node schema) ≡ true
joined schema xs ys h g = all-append xs ys (is_bound_node schema) ∙ ap₂ (λ a b. a && b) h g

make_in-Ensures :
    (schema : Schema) (e : Expression) (es : Expressions) (negated : Bool)
    → IsBound schema e
    → AreBoundAll schema es
    → Ensures (IsBound schema) (make_in e es negated)
unfolding make_in walk
make_in-Ensures schema e es negated h g = elim (Bool-cases (is_empty (to_list es))) [
  | inl empty ↦ rw empty raised
  | inr filled ↦ rw filled (
      Ensures-given (all (to_list es) is_literal_or_parameter) value_error (is_in e es negated)
        (joined schema (walk e) (walk_all es) h g))
]

make_like-Ensures :
    (schema : Schema) (e p : Expression) (negated : Bool)
    → IsBound schema e
    → IsBound schema p
    → Ensures (IsBound schema) (make_like e p negated)
unfolding make_like walk
make_like-Ensures schema e p negated h g =
    Ensures-given (is_literal_or_parameter p) value_error (like e p negated)
      (joined schema (walk e) (walk p) h g)

make_alias-Ensures :
    (schema : Schema) (e : Expression) (name : String)
    → IsBound schema e
    → Ensures (IsBound schema) (make_alias e name)
unfolding make_alias walk
make_alias-Ensures schema e name h = elim (Bool-cases (name == "")) [
  | inl empty ↦ rw empty raised
  | inr filled ↦ rw filled (Ensures-unless (is_alias e) value_error (alias e name) h)
]

module _ (lower : String → String) (schema : Schema) (parameters : Literals) where
  column-Ensures :
      (name node : String) (o : Option Field)
      → resolve lower schema name ≡ o
      → Ensures (IsBound schema) (bind_column lower schema parameters node o)
  unfolding make_column walk
  column-Ensures name node none e = raised
  column-Ensures name node (some f) e = Ensures-then (require_portable_type f.data_type node) (
      Ensures-unless (f.name == "") value_error (column f.name)
        (ap (λ b. b && true) (contains-resolve lower schema name f e)))

  mutual
    unfolding bind walk

    bound :
        (e : Expression) (node : String) (allow_alias : Bool)
        → Ensures (IsBound schema) (bind lower schema parameters e node allow_alias)
    bound (column name) node allow_alias = column-Ensures name node (resolve lower schema name) refl
    bound (literal l) node allow_alias =
        portable schema (is_portable_type l.data_type) (invalid_plan plan_type_mismatch node) l refl
    bound (parameter name) node allow_alias =
        Ensures-then (check_parameter lower schema parameters node (lookup name parameters))
          (holds refl)
    bound (alias e name) node false = raised
    bound (alias e name) node true =
        Ensures-bind (bound e node false) (λ b h. make_alias-Ensures schema b name h)
    bound (comparison op left right) node allow_alias = Ensures-bind (bound left node false) (λ l h.
        Ensures-bind (bound right node false) (λ r g.
          Ensures-then (check_comparable lower schema parameters l r node)
            (holds (joined schema (walk l) (walk r) h g))))
    bound (and operands) node allow_alias = Ensures-bind (bound_each operands node) (λ os h.
        Ensures-then (check_booleans lower schema parameters os node)
          (make_and-Ensures schema os h))
    bound (or operands) node allow_alias = Ensures-bind (bound_each operands node) (λ os h.
        Ensures-then (check_booleans lower schema parameters os node) (make_or-Ensures schema os h))
    bound (not operand) node allow_alias =
        Ensures-bind (bound operand node false)
          (λ o h. Ensures-then (check_kind lower schema parameters "boolean" o node) (holds h))
    bound (is_null operand negated) node allow_alias =
        Ensures-bind (bound operand node false) (λ o h. holds h)
    bound (is_in operand members negated) node allow_alias =
        Ensures-bind (bound operand node false) (λ o h.
          Ensures-bind (bound_each members node) (λ ms g.
            Ensures-then (check_members lower schema parameters o ms node)
              (make_in-Ensures schema o ms negated h g)))
    bound (like operand pattern_expr negated) node allow_alias =
        Ensures-bind (bound operand node false) (λ o h.
          Ensures-then (check_kind lower schema parameters "string" o node) (
            Ensures-bind (bound pattern_expr node false) (λ p g.
              Ensures-then (check_kind lower schema parameters "string" p node)
                (make_like-Ensures schema o p negated h g))))
    bound (arithmetic op left right) node allow_alias = Ensures-bind (bound left node false) (λ l h.
        Ensures-bind (bound right node false) (λ r g.
          Ensures-then (check_numeric lower schema parameters l node) (
            Ensures-then (check_numeric lower schema parameters r node) (
              Ensures-then
                (ranged lower schema parameters node
                  (type_of lower schema parameters (arithmetic op l r)))
                (holds (joined schema (walk l) (walk r) h g))))))

    bound_each :
        (es : Expressions) (node : String)
        → Ensures (AreBoundAll schema) (bind_each lower schema parameters es node)
    bound_each nil node = holds refl
    bound_each (cons e es) node = Ensures-bind (bound e node false) (λ b h.
        Ensures-bind (bound_each es node)
          (λ bs g. holds (joined schema (walk b) (walk_all bs) h g)))

  -- When `bind` returns, every column of the result is spelled as a field of the schema, and every
  -- literal of it has a portable type.
  pub bind-IsBound :
      (e : Expression) (node : String) (allow_alias : Bool) (b : Expression)
      → bind lower schema parameters e node allow_alias ≡ ok b
      → all (walk b) (is_bound_node schema) ≡ true
  bind-IsBound e node allow_alias b h = Ensures-ok (bound e node allow_alias) h
