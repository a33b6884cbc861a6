-- ===== src/Prelude/Sort.antt =====
-- `sorted` on texts: insertion into a sorted list, by the order of the characters' codes.
use Prim.Native.Char.{code}
use Prim.Native.String.{String}
use mathlib.Core.Path.{◌≡◌, refl}
use mathlib.Core.Bool.{Bool, true, false, ◌&&◌, ◌||◌}
use mathlib.Core.Logic.{inl, inr}
use mathlib.Core.List.{List, [], ◌∷◌}
use native.Mathlib.Omega.{arith}
use invariantql.Prelude.Tests.{Bool-cases, conditions, eqb, if◌then◌else◌, ltb}
use invariantql.Prelude.Lists.{contains}

-- `s <= t`
unfoldable pub text_leb : String → String → Bool
text_leb String.[] t = true
text_leb (String.◌∷◌ c s) String.[] = false
text_leb (String.◌∷◌ c s) (String.◌∷◌ d t) =
    ltb (code c) (code d) || (eqb (code c) (code d) && text_leb s t)

unfoldable pub insert_text : String → List String → List String
insert_text x [] = x ∷ []
insert_text x (y ∷ ys) = if text_leb x y then x ∷ y ∷ ys else y ∷ insert_text x ys

unfoldable pub sorted : List String → List String
sorted [] = []
sorted (x ∷ xs) = insert_text x (sorted xs)

abbrev is_sorted : List String → Bool
is_sorted [] = true
is_sorted (x ∷ []) = true
is_sorted (x ∷ y ∷ ys) = text_leb x y && is_sorted (y ∷ ys)

text_leb-total : (s t : String) → text_leb s t ≡ false → text_leb t s ≡ true
unfolding text_leb
text_leb-total String.[] t h = cc
text_leb-total (String.◌∷◌ c s) String.[] h = refl
text_leb-total (String.◌∷◌ c s) (String.◌∷◌ d t) h = ground (arith, text_leb-total s t)

insert-is_sorted_after :
    (x y : String) (ys : List String)
    → text_leb y x ≡ true
    → is_sorted (y ∷ ys) ≡ true
    → is_sorted (y ∷ insert_text x ys) ≡ true
unfolding insert_text
insert-is_sorted_after x y [] h k = rw h refl
insert-is_sorted_after x y (z ∷ zs) h k =
    let (here, rest) = conditions (text_leb y z) (is_sorted (z ∷ zs)) k in
    elim (Bool-cases (text_leb x z)) [
      | inl e ↦ rw e (rw (h, e) rest)
      | inr e ↦ rw e (rw here (insert-is_sorted_after x z zs (text_leb-total x z e) rest))
    ]

insert-is_sorted :
    (x : String) (ys : List String) → is_sorted ys ≡ true → is_sorted (insert_text x ys) ≡ true
unfolding insert_text
insert-is_sorted x [] h = refl
insert-is_sorted x (y ∷ ys) h = elim (Bool-cases (text_leb x y)) [
  | inl e ↦ rw e (rw e h)
  | inr e ↦ rw e (insert-is_sorted_after x y ys (text_leb-total x y e) h)
]

sorted-is_sorted : (xs : List String) → is_sorted (sorted xs) ≡ true
unfolding sorted
sorted-is_sorted [] = refl
sorted-is_sorted (x ∷ xs) = insert-is_sorted x (sorted xs) (sorted-is_sorted xs)

contains-insert :
    (n x : String) (ys : List String) → contains n (insert_text x ys) ≡ contains n (x ∷ ys)
unfolding insert_text
contains-insert n x [] = refl
contains-insert n x (y ∷ ys) = ground (arith, contains-insert n x ys)

pub contains-sorted : (n : String) (xs : List String) → contains n (sorted xs) ≡ contains n xs
unfolding sorted
contains-sorted n [] = refl
contains-sorted n (x ∷ xs) = rw (contains-insert n x (sorted xs), contains-sorted n xs)
