-- ===== src/Domain/Expressions/Conjuncts.antt =====
-- Laws of `conjuncts` and `and_all`, src/invariantql/domain/expressions.py.
use invariantql.Prelude.{
  All, Bool, Bool-cases, List, Option, [], ap, false, if◌then◌else◌, inl, inr, is_empty, is_some,
  none, refl, select, some, true, ◌++◌, ◌∷◌, ◌≡◌,
}
use invariantql.Domain.Expressions.{Expression, Expressions, and, cons, nil, of_list}
use invariantql.Domain.Expressions.Walk.{and_all, conjuncts, conjuncts_all, conjuncts_of}

-- None of the expressions is a conjunction.
abbrev pub AreClauses : List Expression → Type 0
AreClauses = All (λ e. conjuncts e ≡ e ∷ [])

All-append : (xs ys : List Expression) → AreClauses xs → AreClauses ys → AreClauses (xs ++ ys)
All-append [] ys hx hy = hy
All-append (x ∷ xs) ys hx hy = (hx.0, All-append xs ys hx.1 hy)

mutual
  unfolding conjuncts

  conjuncts-AreClauses : (e : Expression) → AreClauses (conjuncts e)
  conjuncts-AreClauses (and operands) = conjuncts_all-AreClauses operands
  conjuncts-AreClauses _ = (refl, tt)

  conjuncts_all-AreClauses : (es : Expressions) → AreClauses (conjuncts_all es)
  conjuncts_all-AreClauses nil = tt
  conjuncts_all-AreClauses (cons e es) =
      All-append (conjuncts e) (conjuncts_all es) (conjuncts-AreClauses e)
        (conjuncts_all-AreClauses es)

pub conjuncts_of-AreClauses : (o : Option Expression) → AreClauses (conjuncts_of o)
conjuncts_of-AreClauses none = tt
conjuncts_of-AreClauses (some e) = conjuncts-AreClauses e

conjuncts_all-of_list : (es : List Expression) → AreClauses es → conjuncts_all (of_list es) ≡ es
unfolding conjuncts
conjuncts_all-of_list [] h = refl
conjuncts_all-of_list (e ∷ es) h = rw h.0 (ap (λ t. e ∷ t) (conjuncts_all-of_list es h.1))

pub AreClauses-append :
    (xs ys : List Expression) → AreClauses xs → AreClauses ys → AreClauses (xs ++ ys)
AreClauses-append = All-append

pub AreClauses-select :
    (p : Expression → Bool) (xs : List Expression) → AreClauses xs → AreClauses (select p xs)
AreClauses-select p [] h = tt
AreClauses-select p (x ∷ xs) h = elim (Bool-cases (p x)) [
  | inl e ↦ rw e (h.0, AreClauses-select p xs h.1)
  | inr e ↦ rw e (AreClauses-select p xs h.1)
]

-- Conjoining clauses and flattening the result gives back the clauses, in their order.
pub conjuncts-and_all : (es : List Expression) → AreClauses es → conjuncts_of (and_all es) ≡ es
unfolding and_all
conjuncts-and_all [] h = refl
conjuncts-and_all (e ∷ []) h = h.0
conjuncts-and_all (e ∷ f ∷ es) h = unfold conjuncts in conjuncts_all-of_list (e ∷ f ∷ es) h

-- `and_all` is empty exactly for no clause.
pub is_some-and_all :
    (es : List Expression) → is_some (and_all es) ≡ (if is_empty es then false else true)
unfolding and_all
is_some-and_all [] = refl
is_some-and_all (e ∷ []) = refl
is_some-and_all (e ∷ f ∷ es) = refl
