-- ===== src/Adapters/SqlText/Holes.antt =====
-- What the holes of a text denote in the list of values, and a rule for the generator's steps,
-- src/invariantql/adapters/_shared/sqltext.py.
use invariantql.Prelude.{
  List, String, [], ap, append-nil, append_assoc, get_elem?, length, refl, some, subst, suc, sym,
  zero, ℕ, ◌++◌, ◌∙◌, ◌∷◌, ◌≡◌,
}
use invariantql.Adapters.SqlText.{Pieces, hole, word}
use invariantql.Adapters.SqlText.Generator.{Gen, bind_of, in_parens, join, lift, pure, ◌>>=◌}
use invariantql.Domain.Diagnostics.{Outcome}
use invariantql.Domain.Expressions.Literals.{LiteralValue}
use invariantql.Prelude.Results.{err, ok}

abbrev pub holes : Pieces → List ℕ
holes [] = []
holes (word _ ∷ ps) = holes ps
holes (hole i ∷ ps) = i ∷ holes ps

abbrev pub holes_all : List Pieces → List ℕ
holes_all [] = []
holes_all (p ∷ ps) = holes p ++ holes_all ps

pub holes-append : (ps qs : Pieces) → holes (ps ++ qs) ≡ holes ps ++ holes qs
holes-append [] qs = refl
holes-append (word _ ∷ ps) qs = holes-append ps qs
holes-append (hole i ∷ ps) qs = ap (λ hs. i ∷ hs) (holes-append ps qs)

pub holes-join : (separator : String) (ps : List Pieces) → holes (join separator ps) ≡ holes_all ps
unfolding join
holes-join separator [] = refl
holes-join separator (p ∷ []) = sym (append-nil (holes p))
holes-join separator (p ∷ q ∷ ps) =
    holes-append p (word separator ∷ join separator (q ∷ ps))
    ∙ ap (λ hs. holes p ++ hs) (holes-join separator (q ∷ ps))

pub holes-in_parens : (ps : Pieces) → holes (in_parens ps) ≡ holes ps
holes-in_parens ps = holes-append ps (word ")" ∷ []) ∙ append-nil (holes ps)

-- Each hole stands for the value with its index.
abbrev pub Denotes : List LiteralValue → List ℕ → List LiteralValue → Type 0
Denotes vs [] [] = Unit
Denotes vs (h ∷ hs) (t ∷ ts) = (get_elem? vs h ≡ some t) × Denotes vs hs ts
Denotes vs _ _ = ⊥

pub Denotes-append :
    (vs : List LiteralValue) (hs ks : List ℕ) (ts us : List LiteralValue)
    → Denotes vs hs ts
    → Denotes vs ks us
    → Denotes vs (hs ++ ks) (ts ++ us)
Denotes-append vs [] ks [] us d e = e
Denotes-append vs (h ∷ hs) ks (t ∷ ts) us d e = (d.0, Denotes-append vs hs ks ts us d.1 e)
Denotes-append vs [] ks (t ∷ ts) us d e = absurd d
Denotes-append vs (h ∷ hs) ks [] us d e = absurd d

get_elem?-extend :
    (vs ws : List LiteralValue) (i : ℕ) (v : LiteralValue)
    → get_elem? vs i ≡ some v
    → get_elem? (vs ++ ws) i ≡ some v
get_elem?-extend [] ws i v h = cc
get_elem?-extend (x ∷ vs) ws zero v h = h
get_elem?-extend (x ∷ vs) ws (suc i) v h = get_elem?-extend vs ws i v h

pub Denotes-extend :
    (vs ws : List LiteralValue) (hs : List ℕ) (ts : List LiteralValue)
    → Denotes vs hs ts
    → Denotes (vs ++ ws) hs ts
Denotes-extend vs ws [] [] d = tt
Denotes-extend vs ws (h ∷ hs) (t ∷ ts) d =
    (get_elem?-extend vs ws h t d.0, Denotes-extend vs ws hs ts d.1)
Denotes-extend vs ws [] (t ∷ ts) d = absurd d
Denotes-extend vs ws (h ∷ hs) [] d = absurd d

pub get_elem?-last :
    (vs : List LiteralValue) (v : LiteralValue) → get_elem? (vs ++ v ∷ []) (length vs) ≡ some v
get_elem?-last [] v = refl
get_elem?-last (x ∷ vs) v = get_elem?-last vs v

-- The computation raised, or it appended the values `bs`, and its holes stand for `ts`.
abbrev pub Post :
    {A : Type 0}
    → (A → List ℕ)
    → List LiteralValue
    → List LiteralValue
    → List LiteralValue
    → Outcome (A × List LiteralValue)
    → Type 0
Post hs ts bs vs (err e) = Unit
Post hs ts bs vs (ok (a, ws)) = (ws ≡ vs ++ bs) × Denotes ws (hs a) ts

abbrev pub Gives :
    {A : Type 0} → (A → List ℕ) → List LiteralValue → List LiteralValue → Gen A → Type 0
Gives hs ts bs m = (vs : List LiteralValue) → Post hs ts bs vs (m vs)

-- A computation without holes.
pub Gives-pure : {A : Type 0} (hs : A → List ℕ) (a : A) → hs a ≡ [] → Gives hs [] [] (pure a)
Gives-pure hs a h vs = (sym (append-nil vs), subst (λ l. Denotes vs l []) (sym h) tt)

Post-shift :
    {C : Type 0} (hc : C → List ℕ) (xs bs cs vs ws : List LiteralValue)
    (r : Outcome (C × List LiteralValue))
    → ws ≡ vs ++ bs
    → Post hc xs cs ws r
    → Post hc xs (bs ++ cs) vs r
Post-shift hc xs bs cs vs ws (err e) p q = tt
Post-shift hc xs bs cs vs ws (ok (c, us)) p q =
    (q.0 ∙ ap (λ l. l ++ cs) p ∙ append_assoc vs bs cs, q.1)

-- One step, then the rest.
pub Post-bind :
    {A C : Type 0} (ha : A → List ℕ) (hc : C → List ℕ) (ts xs bs cs vs : List LiteralValue)
    (r : Outcome (A × List LiteralValue)) (k : A → Gen C)
    → Post ha ts bs vs r
    → ((a : A) (ws : List LiteralValue)
        → ws ≡ vs ++ bs
        → Denotes ws (ha a) ts
        → Post hc xs cs ws (k a ws))
    → Post hc xs (bs ++ cs) vs (bind_of r k)
Post-bind ha hc ts xs bs cs vs (err e) k p q = tt
Post-bind ha hc ts xs bs cs vs (ok (a, ws)) k p q =
    Post-shift hc xs bs cs vs ws (k a ws) p.0 (q a ws p.0 p.1)

module _ {A C : Type 0} (ha : A → List ℕ) (hc : C → List ℕ) where
  map_of :
      (f : A → C) (ts bs vs : List LiteralValue) (r : Outcome (A × List LiteralValue))
      → ((a : A) → hc (f a) ≡ ha a)
      → Post ha ts bs vs r
      → Post hc ts bs vs (bind_of r (λ a. pure (f a)))
  map_of f ts bs vs (err e) k p = tt
  map_of f ts bs vs (ok (a, ws)) k p = (p.0, subst (λ l. Denotes ws l ts) (sym (k a)) p.1)

  -- A step and a function of its result that keeps the holes.
  pub Gives-map :
      (f : A → C) (ts bs : List LiteralValue) (m : Gen A)
      → ((a : A) → hc (f a) ≡ ha a)
      → Gives ha ts bs m
      → Gives hc ts bs (m >>= λ a. pure (f a))
  Gives-map f ts bs m k p vs = map_of f ts bs vs (m vs) k (p vs)

module _ {A B C : Type 0} (ha : A → List ℕ) (hb : B → List ℕ) (hc : C → List ℕ) where
  -- How the holes of two results make those of a third.
  abbrev pub Joins :
      (A → B → Outcome C) → List LiteralValue → List LiteralValue → List LiteralValue → Type 0
  Joins f ts us all_values =
      (ws : List LiteralValue) (a : A) (b : B) (c : C)
      → f a b ≡ ok c
      → Denotes ws (ha a) ts
      → Denotes ws (hb b) us
      → Denotes ws (hc c) all_values

  end_of :
      (f : A → B → Outcome C) (ts us xs bs cs vs us_before : List LiteralValue) (a : A) (b : B)
      (ws : List LiteralValue) (r : Outcome C)
      → f a b ≡ r
      → Joins f ts us xs
      → us_before ≡ vs ++ bs
      → Denotes us_before (ha a) ts
      → ws ≡ us_before ++ cs
      → Denotes ws (hb b) us
      → Post hc xs (bs ++ cs) vs (lift r ws)
  end_of f ts us xs bs cs vs vs' a b ws (err e) made joins p d q g = tt
  end_of f ts us xs bs cs vs vs' a b ws (ok c) made joins p d q g = (
    q ∙ ap (λ l. l ++ cs) p ∙ append_assoc vs bs cs,
    joins ws a b c made
        (subst (λ l. Denotes l (ha a) ts) (sym q) (Denotes-extend vs' cs (ha a) ts d)) g,
  )

  second_of :
      (f : A → B → Outcome C) (ts us xs bs cs vs vs' : List LiteralValue) (a : A)
      (r : Outcome (B × List LiteralValue))
      → Joins f ts us xs
      → vs' ≡ vs ++ bs
      → Denotes vs' (ha a) ts
      → Post hb us cs vs' r
      → Post hc xs (bs ++ cs) vs (bind_of r (λ b. lift (f a b)))
  second_of f ts us xs bs cs vs vs' a (err e) joins p d q = tt
  second_of f ts us xs bs cs vs vs' a (ok (b, ws)) joins p d q =
      end_of f ts us xs bs cs vs vs' a b ws (f a b) refl joins p d q.0 q.1

  first_of :
      (f : A → B → Outcome C) (ts us xs bs cs vs : List LiteralValue) (k : Gen B)
      (r : Outcome (A × List LiteralValue))
      → Joins f ts us xs
      → Post ha ts bs vs r
      → Gives hb us cs k
      → Post hc xs (bs ++ cs) vs (bind_of r (λ a. k >>= λ b. lift (f a b)))
  first_of f ts us xs bs cs vs k (err e) joins p q = tt
  first_of f ts us xs bs cs vs k (ok (a, ws)) joins p q =
      second_of f ts us xs bs cs vs ws a (k ws) joins p.0 p.1 (q ws)

  -- Two steps, and a function of their results.
  pub Gives-seq :
      (f : A → B → Outcome C) (ts us xs bs cs : List LiteralValue) (m : Gen A) (k : Gen B)
      → Joins f ts us xs
      → Gives ha ts bs m
      → Gives hb us cs k
      → Gives hc xs (bs ++ cs) (m >>= λ a. k >>= λ b. lift (f a b))
  Gives-seq f ts us xs bs cs m k joins p q vs = first_of f ts us xs bs cs vs k (m vs) joins (p vs) q

  -- The holes of the first result come first.
  pub Joins-append :
      (f : A → B → Outcome C) (ts us : List LiteralValue)
      → ((a : A) (b : B) (c : C) → f a b ≡ ok c → hc c ≡ ha a ++ hb b)
      → Joins f ts us (ts ++ us)
  Joins-append f ts us h ws a b c made d e =
      subst (λ l. Denotes ws l (ts ++ us)) (sym (h a b c made))
        (Denotes-append ws (ha a) (hb b) ts us d e)

  -- The holes of the second result come first.
  pub Joins-swap :
      (f : A → B → Outcome C) (ts us : List LiteralValue)
      → ((a : A) (b : B) (c : C) → f a b ≡ ok c → hc c ≡ hb b ++ ha a)
      → Joins f ts us (us ++ ts)
  Joins-swap f ts us h ws a b c made d e =
      subst (λ l. Denotes ws l (us ++ ts)) (sym (h a b c made))
        (Denotes-append ws (hb b) (ha a) us ts e d)
