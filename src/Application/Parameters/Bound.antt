-- ===== src/Application/Parameters/Bound.antt =====
-- What `bind_parameters` returns, src/invariantql/application/parameters.py.
use invariantql.Prelude.{
  Bool, Bool-cases, List, Option-cases, String, [], all, ap, arith, contains, inl, inr, is_empty,
  lookup, not, refl, select, some, subst, true, ◌↔◌, ◌∙◌, ◌∷◌, ◌≡◌,
}
use invariantql.Application.Parameters.{
  Argument, Arguments, as_invalid, bind_names, bind_parameters, bind_value, missing_names,
  supplied_names, supplied_value, to_literal, unexpected_names,
}
use invariantql.Domain.Diagnostics.{Outcome, type_error, value_error}
use invariantql.Domain.Expressions.Literals.{Literal}
use invariantql.Domain.Expressions.Substitute.{Literals}
use invariantql.Domain.Plan.{QueryPlan, plan_parameters}
use invariantql.Domain.Types.{is_portable_type}
use invariantql.Prelude.Results.{>>=-eq-ok, err, ok, ok-injective, raise_if-eq-ok}

-- Every name of the list is bound, in order, to the literal of its supplied value, of a portable
-- type.
abbrev pub AreBound : Arguments → List String → Literals → Type 0
AreBound supplied [] [] = Unit
AreBound supplied (name ∷ names) ((key, l) ∷ bound) =
    ((key ≡ name)
      × ((value : Argument) × (lookup name supplied ≡ some value) × (to_literal value ≡ ok l))
      × (is_portable_type l.data_type ≡ true))
    × AreBound supplied names bound
AreBound supplied _ _ = ⊥

as_invalid-ok : (r : Outcome Literal) {l : Literal} → as_invalid r ≡ ok l → r ≡ ok l
as_invalid-ok (ok l) h = h
as_invalid-ok (err value_error) h = cc
as_invalid-ok (err type_error) h = cc
as_invalid-ok (err _) h = cc

bind_value-ok :
    (value : Argument) (l : Literal)
    → bind_value value ≡ ok l
    → (to_literal value ≡ ok l) × (is_portable_type l.data_type ≡ true)
unfolding bind_value
bind_value-ok value l h =
    let (k, made, checked) = >>=-eq-ok (as_invalid (to_literal value)) _ h in
    elim (Bool-cases (is_portable_type k.data_type)) [
      | inl p ↦
          let same = ok-injective (rw p at checked) in
          (
            as_invalid-ok (to_literal value) (made ∙ ap ok same),
            subst (λ m. is_portable_type m.data_type ≡ true) same p,
          )
      | inr p ↦ cc (rw p at checked)
    ]

supplied_value-ok :
    (supplied : Arguments) (name : String) (value : Argument)
    → supplied_value supplied name ≡ ok value
    → lookup name supplied ≡ some value
supplied_value-ok supplied name value h = elim (Option-cases (lookup name supplied)) [
  | inl e ↦ cc (rw (e, supplied_value) at h)
  | inr (v, e) ↦ e ∙ ap some (ok-injective (rw (e, supplied_value) at h))
]

bind_names-AreBound :
    (supplied : Arguments) (names : List String) (bound : Literals)
    → bind_names supplied names ≡ ok bound
    → AreBound supplied names bound
unfolding bind_names
bind_names-AreBound supplied [] bound h = subst (λ b. AreBound supplied [] b) (ok-injective h) tt
bind_names-AreBound supplied (name ∷ names) bound h =
    let (value, found, next) = >>=-eq-ok (supplied_value supplied name) _ h in
    let (l, made, later) = >>=-eq-ok (bind_value value) _ next in
    let (rest, done, same) = >>=-eq-ok (bind_names supplied names) _ later in
    subst (λ b. AreBound supplied (name ∷ names) b) (ok-injective same)
      (
        (
          refl,
          (value, supplied_value-ok supplied name value found, (bind_value-ok value l made).0),
          (bind_value-ok value l made).1,
        ),
        bind_names-AreBound supplied names rest done,
      )

all_known :
    (f : String → Bool) (names : List String)
    → is_empty (select (λ n. not (f n)) names) ≡ true
    → all names f ≡ true
all_known f [] h = refl
all_known f (n ∷ names) h = ground (arith, all_known f names)

none_unknown :
    (f : String → Bool) (names : List String)
    → all names f ≡ true
    → is_empty (select (λ n. not (f n)) names) ≡ true
none_unknown f [] h = refl
none_unknown f (n ∷ names) h = ground (arith, none_unknown f names)

contains-lookup :
    (name : String) (value : Argument) (supplied : Arguments)
    → lookup name supplied ≡ some value
    → contains name (supplied_names supplied) ≡ true
contains-lookup name value [] h = cc
contains-lookup name value ((key, v) ∷ es) h = ground (arith, contains-lookup name value es)

supplied_all :
    (supplied : Arguments) (names : List String) (bound : Literals)
    → AreBound supplied names bound
    → all names (λ n. contains n (supplied_names supplied)) ≡ true
supplied_all supplied [] bound h = refl
supplied_all supplied (name ∷ names) [] h = absurd h
supplied_all supplied (name ∷ names) ((key, l) ∷ bound) h =
    let ((_, (value, found, _), _), rest) = h in
    rw (contains-lookup name value supplied found) (supplied_all supplied names bound rest)

supplied_value-eq-ok :
    (supplied : Arguments) (name : String) (value : Argument)
    → lookup name supplied ≡ some value
    → supplied_value supplied name ≡ ok value
supplied_value-eq-ok supplied name value h = rw (h, supplied_value)

bind_value-eq-ok :
    (value : Argument) (l : Literal)
    → to_literal value ≡ ok l
    → is_portable_type l.data_type ≡ true
    → bind_value value ≡ ok l
unfolding bind_value
bind_value-eq-ok value l made portable = rw made (rw portable)

bind_names-eq-ok :
    (supplied : Arguments) (names : List String) (bound : Literals)
    → AreBound supplied names bound
    → bind_names supplied names ≡ ok bound
unfolding bind_names
bind_names-eq-ok supplied [] [] h = refl
bind_names-eq-ok supplied [] (e ∷ bound) h = absurd h
bind_names-eq-ok supplied (name ∷ names) [] h = absurd h
bind_names-eq-ok supplied (name ∷ names) ((key, l) ∷ bound) h =
    let ((same, (value, found, made), portable), rest) = h in
    rw (supplied_value-eq-ok supplied name value found) (
      rw (bind_value-eq-ok value l made portable)
        (rw (bind_names-eq-ok supplied names bound rest) (rw same)))

bind_parameters-AreBound :
    (plan : QueryPlan) (supplied : Arguments) (bound : Literals)
    → bind_parameters plan supplied ≡ ok bound
    → AreBound supplied (plan_parameters plan) bound
      × (all (supplied_names supplied) (λ n. contains n (plan_parameters plan)) ≡ true)
unfolding bind_parameters unexpected_names
bind_parameters-AreBound plan supplied bound h =
    let (_, known) =
      raise_if-eq-ok (not (is_empty (missing_names supplied (plan_parameters plan)))) _ h in
    let (none_unexpected, made) =
      raise_if-eq-ok (not (is_empty (unexpected_names supplied (plan_parameters plan)))) _ known in
    (
      bind_names-AreBound supplied (plan_parameters plan) bound made,
      all_known (λ n. contains n (plan_parameters plan)) (supplied_names supplied) (ground arith),
    )

bind_parameters-eq-ok :
    (plan : QueryPlan) (supplied : Arguments) (bound : Literals)
    → AreBound supplied (plan_parameters plan) bound
    → all (supplied_names supplied) (λ n. contains n (plan_parameters plan)) ≡ true
    → bind_parameters plan supplied ≡ ok bound
unfolding bind_parameters unexpected_names missing_names
bind_parameters-eq-ok plan supplied bound h known =
    rw
      (
        none_unknown (λ n. contains n (supplied_names supplied)) (plan_parameters plan)
            (supplied_all supplied (plan_parameters plan) bound h),
        none_unknown (λ n. contains n (plan_parameters plan)) (supplied_names supplied) known,
      )
      (bind_names-eq-ok supplied (plan_parameters plan) bound h)

-- `bind_parameters` returns exactly when every parameter of the plan has a supplied value that some
-- literal of a portable type holds, and every supplied name is a parameter of the plan; what it
-- returns are these literals under the parameters' names, in their order.
pub bind_parameters_iff :
    (plan : QueryPlan) (supplied : Arguments) (bound : Literals)
    → (bind_parameters plan supplied ≡ ok bound) ↔ (
        AreBound supplied (plan_parameters plan) bound
        × (all (supplied_names supplied) (λ n. contains n (plan_parameters plan)) ≡ true))
bind_parameters_iff plan supplied bound = (
  bind_parameters-AreBound plan supplied bound,
  λ h. bind_parameters-eq-ok plan supplied bound h.0 h.1,
)
