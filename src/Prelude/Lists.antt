-- ===== src/Prelude/Lists.antt =====
-- Lists with Boolean tests: Python's `any`, `all`, `in` and list comprehensions with a filter.
use Prim.Native.Nat.{ℕ, zero, suc, ◌+◌}
use mathlib.Core.Path.{◌≡◌, refl}
use mathlib.Core.Bool.{Bool, true, false, ◌&&◌, ◌||◌}
use Prim.Native.String.{String}
use text.Mathlib.Text.{◌==◌}
use mathlib.Core.Option.{Option, none, some}
use invariantql.Prelude.Tests.{if◌then◌else◌}
use mathlib.Core.List.{List, [], ◌∷◌, ◌++◌}
use native.Mathlib.Omega.{arith}

module _ {ℓ} {A : Type ℓ} where
  abbrev pub length : List A → ℕ
  length [] = 0
  length (x ∷ xs) = suc (length xs)

  abbrev pub any : List A → (A → Bool) → Bool
  any [] p = false
  any (x ∷ xs) p = p x || any xs p

  abbrev pub all : List A → (A → Bool) → Bool
  all [] p = true
  all (x ∷ xs) p = p x && all xs p

  -- `[x for x in xs if p(x)]`
  abbrev pub select : (A → Bool) → List A → List A
  select p [] = []
  select p (x ∷ xs) = if p x then x ∷ select p xs else select p xs

  abbrev pub get_elem? : List A → ℕ → Option A
  get_elem? [] i = none
  get_elem? (x ∷ xs) zero = some x
  get_elem? (x ∷ xs) (suc i) = get_elem? xs i

  abbrev pub is_empty : List A → Bool
  is_empty [] = true
  is_empty (x ∷ xs) = false

  pub length-append : (xs ys : List A) → length (xs ++ ys) ≡ length xs + length ys
  length-append [] ys = omega arith
  length-append (x ∷ xs) ys = omega (arith, length-append xs ys)

  pub all-append : (xs ys : List A) (p : A → Bool) → all (xs ++ ys) p ≡ (all xs p && all ys p)
  all-append [] ys p = refl
  all-append (x ∷ xs) ys p = ground (arith, all-append xs ys p)

  pub any-append : (xs ys : List A) (p : A → Bool) → any (xs ++ ys) p ≡ (any xs p || any ys p)
  any-append [] ys p = refl
  any-append (x ∷ xs) ys p = ground (arith, any-append xs ys p)

  pub all-select : (xs : List A) (p : A → Bool) → all (select p xs) p ≡ true
  all-select [] p = refl
  all-select (x ∷ xs) p = ground (arith, all-select xs p)

  pub any-select : (xs : List A) (p q : A → Bool) → any (select p xs) q ≡ any xs (λ x. p x && q x)
  any-select [] p q = refl
  any-select (x ∷ xs) p q = ground (arith, any-select xs p q)

  pub select-eq_self : (xs : List A) (p : A → Bool) → all xs p ≡ true → select p xs ≡ xs
  select-eq_self [] p h = refl
  select-eq_self (x ∷ xs) p h = ground (arith, select-eq_self xs p)

module _ {ℓ κ} {A : Type ℓ} (P : A → Type κ) where
  abbrev pub All : List A → Type κ
  All [] = Unit
  All (x ∷ xs) = P x × All xs

-- Python's dicts with text keys, as association lists in the order of insertion.
module _ {ℓ} {V : Type ℓ} where
  abbrev pub lookup : String → List (String × V) → Option V
  lookup key [] = none
  lookup key ((k, v) ∷ es) = if k == key then some v else lookup key es

-- `name in names`
abbrev pub contains : String → List String → Bool
contains name [] = false
contains name (n ∷ names) = n == name || contains name names

-- `seen.setdefault(name)` on a dict used as an ordered set.
abbrev pub set_default : List String → String → List String
set_default seen name = if contains name seen then seen else seen ++ name ∷ []
