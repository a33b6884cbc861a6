-- ===== src/Adapters/SqlText/Numbered.antt =====
-- The numbers of the holes of a text, src/invariantql/adapters/_shared/sqltext.py. What a computation
-- of the generator writes is followed piece by piece: its new holes have the next numbers in order.
use invariantql.Prelude.{
  List, [], ap, append-nil, append_assoc, ap₂, arith, length, refl, suc, sym, zero, ℕ, ◌++◌, ◌+◌,
  ◌∙◌, ◌∷◌, ◌≡◌,
}
use invariantql.Adapters.SqlText.{Pieces}
use invariantql.Adapters.SqlText.Generator.{Gen, bind_of, lift, pure, ◌>>=◌}
use invariantql.Adapters.SqlText.Holes.{Denotes, Post, holes}
use invariantql.Domain.Diagnostics.{Outcome}
use invariantql.Domain.Expressions.Literals.{LiteralValue}
use invariantql.Prelude.Results.{err, ok}

abbrev pub upto : ℕ → ℕ → List ℕ
upto first zero = []
upto first (suc count) = first ∷ upto (suc first) count

add_nil : (n : ℕ) → n + 0 ≡ n
add_nil n = omega arith

nil_add : (n : ℕ) → 0 + n ≡ n
nil_add n = omega arith

add_suc : (n m : ℕ) → n + suc m ≡ suc n + m
add_suc n m = omega arith

suc_add : (n m : ℕ) → suc n + m ≡ suc (n + m)
suc_add n m = omega arith

upto-append : (first i j : ℕ) → upto first i ++ upto (first + i) j ≡ upto first (i + j)
upto-append first zero j = ap₂ (λ a b. upto a b) (add_nil first) (sym (nil_add j))
upto-append first (suc i) j =
    ap (λ ns. first ∷ ns)
      (ap (λ n. upto (suc first) i ++ upto n j) (add_suc first i) ∙ upto-append (suc first) i j)
    ∙ ap (λ n. upto first n) (sym (suc_add i j))

-- The computation raised, or its holes are `before` and then the next numbers from `n`, as many as it
-- bound values.
abbrev pub Follows :
    {A : Type 0} → List ℕ → (A → List ℕ) → ℕ → Outcome (A × List LiteralValue) → Type 0
Follows before hs n (err e) = Unit
Follows before hs n (ok (a, ws)) =
    (count : ℕ) × (length ws ≡ n + count) × (hs a ≡ before ++ upto n count)

abbrev pub Numbered : {A : Type 0} → (A → List ℕ) → Gen A → Type 0
Numbered hs m = (vs : List LiteralValue) → Follows [] hs (length vs) (m vs)

pub Follows-ok :
    {A : Type 0} (before : List ℕ) (hs : A → List ℕ) (n : ℕ) (a : A) (ws : List LiteralValue)
    → length ws ≡ n
    → hs a ≡ before
    → Follows before hs n (ok (a, ws))
Follows-ok before hs n a ws l h = (0, l ∙ omega arith, h ∙ sym (append-nil before))

pub Follows-lift :
    {A : Type 0} (before : List ℕ) (hs : A → List ℕ) (n : ℕ) (r : Outcome A)
    (ws : List LiteralValue)
    → length ws ≡ n
    → ((a : A) → r ≡ ok a → hs a ≡ before)
    → Follows before hs n (lift r ws)
Follows-lift before hs n (err e) ws l h = tt
Follows-lift before hs n (ok a) ws l h = Follows-ok before hs n a ws l (h a refl)

after :
    {B : Type 0} (before now : List ℕ) (hb : B → List ℕ) (n i : ℕ) (ws : List LiteralValue)
    (r : Outcome (B × List LiteralValue))
    → length ws ≡ n + i
    → now ≡ before ++ upto n i
    → Follows now hb (length ws) r
    → Follows before hb n r
after before now hb n i ws (err e) l h f = tt
after before now hb n i ws (ok (b, us)) l h (j, m, k) = (
  i + j,
  omega arith,
  k
      ∙ ap₂ (λ xs x. xs ++ upto x j) h l
      ∙ append_assoc before (upto n i) (upto (n + i) j)
      ∙ ap (λ xs. before ++ xs) (upto-append n i j),
)

-- One step, then the rest, which carries on behind the holes of the step.
pub Follows-bind :
    {A B : Type 0} (before : List ℕ) (ha : A → List ℕ) (hb : B → List ℕ) (n : ℕ)
    (r : Outcome (A × List LiteralValue)) (k : A → Gen B)
    → Follows before ha n r
    → ((a : A) (ws : List LiteralValue) → Follows (ha a) hb (length ws) (k a ws))
    → Follows before hb n (bind_of r k)
Follows-bind before ha hb n (err e) k f g = tt
Follows-bind before ha hb n (ok (a, ws)) k (i, l, h) g =
    after before (ha a) hb n i ws (k a ws) l h (g a ws)

-- What was written before stands in front.
pub Follows-behind :
    {A : Type 0} (before : List ℕ) (hs : A → List ℕ) (n : ℕ) (r : Outcome (A × List LiteralValue))
    → Follows [] hs n r
    → Follows before (λ a. before ++ hs a) n r
Follows-behind before hs n (err e) f = tt
Follows-behind before hs n (ok (a, ws)) (i, l, h) = (i, l, ap (λ ns. before ++ ns) h)

no_holes : (vs : List LiteralValue) (hs : List ℕ) → Denotes vs hs [] → hs ≡ []
no_holes vs [] d = refl
no_holes vs (h ∷ hs) d = absurd d

-- A computation that binds nothing and writes no hole.
pub Follows-silent :
    {A B : Type 0} (before : List ℕ) (ha : A → List ℕ) (hb : B → List ℕ) (vs : List LiteralValue)
    (r : Outcome (A × List LiteralValue)) (f : A → B)
    → Post ha [] [] vs r
    → ((a : A) → ha a ≡ [] → hb (f a) ≡ before)
    → Follows before hb (length vs) (bind_of r (λ a. pure (f a)))
Follows-silent before ha hb vs (err e) f p h = tt
Follows-silent before ha hb vs (ok (a, ws)) f p h =
    Follows-ok before hb (length vs) (f a) ws (ap length (p.0 ∙ append-nil vs))
      (h a (no_holes ws (ha a) p.1))

-- The holes of a whole text.
pub numbers_of :
    (text : Pieces) (values : List LiteralValue)
    → Follows [] holes 0 (ok (text, values))
    → holes text ≡ upto 0 (length values)
numbers_of text values (count, l, h) = h ∙ ap (λ n. upto 0 n) (sym (l ∙ nil_add count))

pub Numbered-pure : {A : Type 0} (hs : A → List ℕ) (a : A) → hs a ≡ [] → Numbered hs (pure a)
Numbered-pure hs a h vs = Follows-ok [] hs (length vs) a vs refl h

pub Numbered-map :
    {A C : Type 0} (ha : A → List ℕ) (hc : C → List ℕ) (f : A → C) (m : Gen A)
    → ((a : A) → hc (f a) ≡ ha a)
    → Numbered ha m
    → Numbered hc (m >>= λ a. pure (f a))
Numbered-map ha hc f m h p vs =
    Follows-bind [] ha hc (length vs) (m vs) (λ a. pure (f a)) (p vs)
      (λ a ws. Follows-ok (ha a) hc (length ws) (f a) ws refl (h a))

-- Two steps, and a function of their results that keeps the order of their holes.
pub Numbered-seq :
    {A B C : Type 0} (ha : A → List ℕ) (hb : B → List ℕ) (hc : C → List ℕ) (f : A → B → Outcome C)
    (m : Gen A) (k : Gen B)
    → ((a : A) (b : B) (c : C) → f a b ≡ ok c → hc c ≡ ha a ++ hb b)
    → Numbered ha m
    → Numbered hb k
    → Numbered hc (m >>= λ a. k >>= λ b. lift (f a b))
Numbered-seq ha hb hc f m k h p q vs =
    Follows-bind [] ha hc (length vs) (m vs) (λ a. k >>= λ b. lift (f a b)) (p vs)
      (λ a ws.
        Follows-bind (ha a) (λ b. ha a ++ hb b) hc (length ws) (k ws) (λ b. lift (f a b))
          (Follows-behind (ha a) hb (length ws) (k ws) (q ws))
          (λ b us.
            Follows-lift (ha a ++ hb b) hc (length us) (f a b) us refl (λ c made. h a b c made)))
