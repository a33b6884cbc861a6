-- ===== src/Domain/Execution/Counts.antt =====
-- Laws of the counters of `check_completeness`, src/invariantql/domain/execution.py.
use invariantql.Prelude.{
  Bool, Bool-cases, List, [], all, and-eq-true_iff, any, arith, false, inl, inr, ltb, min, not,
  refl, select, true, ◌&&◌, ◌++◌, ◌+◌, ◌||◌, ◌∷◌, ◌≡◌, ◌≤◌,
}
use invariantql.Domain.Execution.{count, exceeds, keys, overlaps, same_counts}
use invariantql.Domain.Expressions.{Expression}

pub all-of :
    (f : Expression → Bool) (xs : List Expression)
    → ((x : Expression) → f x ≡ true)
    → all xs f ≡ true
all-of f [] h = refl
all-of f (x ∷ xs) h = rw (h x, all-of f xs h)

pub all-select_of :
    (p f : Expression → Bool) (xs : List Expression) → all xs f ≡ true → all (select p xs) f ≡ true
all-select_of p f [] h = refl
all-select_of p f (x ∷ xs) h = ground (arith, all-select_of p f xs)

module _ (eq : Expression → Expression → Bool) where
  pub all-keys :
      (f : Expression → Bool) (xs : List Expression) → all xs f ≡ true → all (keys eq xs) f ≡ true
  unfolding keys
  all-keys f [] h = refl
  all-keys f (x ∷ xs) h =
      let (here, rest) = (and-eq-true_iff (f x) (all xs f)).0 h in
      rw here (all-select_of (λ y. not (eq x y)) f (keys eq xs) (all-keys f xs rest))

  count-append :
      (e : Expression) (xs ys : List Expression)
      → count eq e (xs ++ ys) ≡ count eq e xs + count eq e ys
  unfolding count
  count-append e [] ys = omega arith
  count-append e (x ∷ xs) ys = ground (arith, count-append e xs ys)

  count-select :
      (p : Expression → Bool) (e : Expression) (xs : List Expression)
      → count eq e (select p xs) ≤ count eq e xs
  unfolding count
  count-select p e [] = omega arith
  count-select p e (x ∷ xs) = ground (arith, count-select p e xs)

  -- Lists chosen by two tests, one of which holds of each element, have the counts of the whole.
  count-partition :
      (p q : Expression → Bool) (e : Expression) (xs : List Expression)
      → all xs (λ x. p x || q x) ≡ true
      → all xs (λ x. not (p x && q x)) ≡ true
      → count eq e (select p xs) + count eq e (select q xs) ≡ count eq e xs
  unfolding count
  count-partition p q e [] h k = omega arith
  count-partition p q e (x ∷ xs) h k = ground (arith, count-partition p q e xs)

  pub same_counts-partition :
      (p q : Expression → Bool) (xs : List Expression)
      → all xs (λ x. p x || q x) ≡ true
      → all xs (λ x. not (p x && q x)) ≡ true
      → same_counts eq (select p xs ++ select q xs) xs ≡ true
  unfolding same_counts
  same_counts-partition p q xs h k = all-of _ ((select p xs ++ select q xs) ++ xs) (λ e.
      ground (arith, count-append e (select p xs) (select q xs), count-partition p q e xs h k))

  pub same_counts_refl : (xs : List Expression) → same_counts eq xs xs ≡ true
  unfolding same_counts
  same_counts_refl xs = all-of _ (xs ++ xs) (λ e. ground arith)

  none_exceeds :
      (f : Expression → Bool) (xs : List Expression)
      → ((e : Expression) → f e ≡ false)
      → any xs f ≡ false
  none_exceeds f [] h = refl
  none_exceeds f (x ∷ xs) h = rw (h x, none_exceeds f xs h)

  pub exceeds-select :
      (p : Expression → Bool) (xs : List Expression) → exceeds eq (select p xs) xs ≡ false
  unfolding exceeds
  exceeds-select p xs = none_exceeds _ (select p xs) (λ e. ground (arith, count-select p e xs))

  -- An element of which the test holds is counted in no list whose elements all fail it, when equal
  -- elements have the same value of the test.
  module _ (f : Expression → Bool) (same : (a b : Expression) → eq a b ≡ true → f a ≡ f b) where
    count_apart :
        (e : Expression) (ys : List Expression)
        → f e ≡ true
        → all ys (λ y. not (f y)) ≡ true
        → count eq e ys ≡ 0
    unfolding count
    count_apart e [] h k = refl
    count_apart e (y ∷ ys) h k = elim (Bool-cases (eq e y)) [
      | inl e_y ↦ absurd (ground (arith, same e y e_y))
      | inr e_y ↦ rw e_y (count_apart e ys h (ground arith))
    ]

    pub overlaps_apart :
        (xs ys : List Expression)
        → all xs f ≡ true
        → all ys (λ y. not (f y)) ≡ true
        → overlaps eq xs ys ≡ false
    unfolding overlaps
    overlaps_apart xs ys h k = go xs xs h
      where
        go :
            (all_xs zs : List Expression)
            → all zs f ≡ true
            → any zs (λ e. ltb 0 (min (count eq e all_xs) (count eq e ys))) ≡ false
        go all_xs [] h = refl
        go all_xs (z ∷ zs) h = ground (arith, count_apart z ys, go all_xs zs)
