-- ===== src/Application/Registry/Holds.antt =====
-- Which adapters a registry holds or has closed, src/invariantql/application/registry.py.
use invariantql.Prelude.{
  Bool, Bool-cases, List, Option, String, [], ap, arith, eqb, eqb_iff, false, inl, inr, lookup, map,
  none, or_right, refl, some, subst, sym, true, ℕ, ◌++◌, ◌==◌, ◌||◌, ◌∙◌, ◌∷◌, ◌≡◌,
}
use invariantql.Application.Registry.{Adapter, Adapters, Registry, insert, log, remove}

abbrev pub is_it : ℕ → Option Adapter → Bool
is_it i none = false
is_it i (some a) = eqb a.identity i

abbrev pub holds : ℕ → Adapters → Bool
holds i [] = false
holds i ((k, a) ∷ es) = eqb a.identity i || holds i es

abbrev pub logged : ℕ → List ℕ → Bool
logged i [] = false
logged i (j ∷ js) = eqb j i || logged i js

-- The adapter is a registered source or engine, or `close` was called on it.
abbrev pub is_tracked : ℕ → Registry → Bool
is_tracked i r = (holds i r.sources || holds i r.engines) || logged i r.closed

or_rotate : (x b h : Bool) → (b || h) ≡ true → ((x || h) || b) ≡ true
or_rotate x b h p = ground arith

or_swap : (b h : Bool) → (b || h) ≡ true → (h || b) ≡ true
or_swap b h p = ground arith

or_skip : (b h g o : Bool) → (b || h) ≡ true → (h ≡ true → (g || o) ≡ true) → ((b || g) || o) ≡ true
or_skip true h g o p q = refl
or_skip false h g o p q = q p

eqb_refl : (n : ℕ) → eqb n n ≡ true
eqb_refl n = (eqb_iff n n).1 refl

pub holds-insert :
    (i : ℕ) (key : String) (a : Adapter) (es : Adapters)
    → holds i es ≡ true
    → (holds i (insert key a es) || is_it i (lookup key es)) ≡ true
holds-insert i key a [] h = cc
holds-insert i key a ((k, b) ∷ es) h = elim (Bool-cases (k == key)) [
  | inl same ↦ rw same (or_rotate (eqb a.identity i) (eqb b.identity i) (holds i es) h)
  | inr other ↦ rw other (
      or_skip (eqb b.identity i) (holds i es) (holds i (insert key a es)) (is_it i (lookup key es))
        h (holds-insert i key a es))
]

pub holds-inserted :
    (key : String) (a : Adapter) (es : Adapters) → holds a.identity (insert key a es) ≡ true
holds-inserted key a [] = ap (λ b. b || false) (eqb_refl a.identity)
holds-inserted key a ((k, b) ∷ es) = elim (Bool-cases (k == key)) [
  | inl same ↦ rw same (ap (λ b. b || holds a.identity es) (eqb_refl a.identity))
  | inr other ↦ rw other (
      or_right (eqb b.identity a.identity) (holds a.identity (insert key a es))
        (holds-inserted key a es))
]

pub holds-remove :
    (i : ℕ) (key : String) (es : Adapters)
    → holds i es ≡ true
    → (holds i (remove key es) || is_it i (lookup key es)) ≡ true
holds-remove i key [] h = cc
holds-remove i key ((k, b) ∷ es) h = elim (Bool-cases (k == key)) [
  | inl same ↦ rw same (or_swap (eqb b.identity i) (holds i es) h)
  | inr other ↦ rw other (
      or_skip (eqb b.identity i) (holds i es) (holds i (remove key es)) (is_it i (lookup key es)) h
        (holds-remove i key es))
]

pub logged-append : (i : ℕ) (js ks : List ℕ) → logged i (js ++ ks) ≡ (logged i js || logged i ks)
logged-append i [] ks = refl
logged-append i (j ∷ js) ks = ground (arith, logged-append i js ks)

pub logged-values :
    (i : ℕ) (es : Adapters) → logged i (map (λ a. a.identity) (map (λ e. e.1) es)) ≡ holds i es
logged-values i [] = refl
logged-values i ((k, a) ∷ es) = ap (λ b. eqb a.identity i || b) (logged-values i es)

pub or_assoc : (a b c d : Bool) → ((a || b) || (c || d)) ≡ (((a || b) || c) || d)
or_assoc a b c d = ground arith

-- Logging more keeps what is tracked.
pub is_tracked-log :
    (i : ℕ) (adapters : List Adapter) (r : Registry)
    → is_tracked i (log adapters r) ≡ (is_tracked i r || logged i (map (λ a. a.identity) adapters))
is_tracked-log i adapters r =
    ap (λ b. (holds i r.sources || holds i r.engines) || b)
      (logged-append i r.closed (map (λ a. a.identity) adapters))
    ∙ or_assoc (holds i r.sources) (holds i r.engines) (logged i r.closed)
        (logged i (map (λ a. a.identity) adapters))

pub or_left : (a b : Bool) → a ≡ true → (a || b) ≡ true
or_left a b h = rw h refl

or_false_right : (a b : Bool) → (a || b) ≡ true → b ≡ false → a ≡ true
or_false_right a b h g = ground arith

pub or_more : (a b : Bool) → (a || b) ≡ true → (a || (b || false)) ≡ true
or_more a b h = ground arith

pub or_nothing : (a : Bool) → (a || false) ≡ true → a ≡ true
or_nothing a h = ground arith

sources_true : (e l t o : Bool) → (t || o) ≡ true → (((t || e) || l) || o) ≡ true
sources_true e l t o h = ground arith

sources_false : (e l t o : Bool) → (e || l) ≡ true → (((t || e) || l) || o) ≡ true
sources_false e l t o h = ground arith

pub sources_keep :
    (s e l t o : Bool)
    → ((s || e) || l) ≡ true
    → (s ≡ true → (t || o) ≡ true)
    → (((t || e) || l) || o) ≡ true
sources_keep true e l t o h g = sources_true e l t o (g refl)
sources_keep false e l t o h g = sources_false e l t o h

engines_true : (s l t o : Bool) → (t || o) ≡ true → (((s || t) || l) || o) ≡ true
engines_true s l t o h = ground arith

engines_false : (s l t o : Bool) → ((s || false) || l) ≡ true → (((s || t) || l) || o) ≡ true
engines_false s l t o h = ground arith

pub engines_keep :
    (s e l t o : Bool)
    → ((s || e) || l) ≡ true
    → (e ≡ true → (t || o) ≡ true)
    → (((s || t) || l) || o) ≡ true
engines_keep s true l t o h g = engines_true s l t o (g refl)
engines_keep s false l t o h g = engines_false s l t o h

removed_true : (e l t o : Bool) → (t || o) ≡ true → ((t || e) || (l || (o || false))) ≡ true
removed_true e l t o h = ground arith

removed_false : (e l t o : Bool) → (e || l) ≡ true → ((t || e) || (l || (o || false))) ≡ true
removed_false e l t o h = ground arith

pub removed_keep :
    (s e l t o : Bool)
    → ((s || e) || l) ≡ true
    → (s ≡ true → (t || o) ≡ true)
    → ((t || e) || (l || (o || false))) ≡ true
removed_keep true e l t o h g = removed_true e l t o (g refl)
removed_keep false e l t o h g = removed_false e l t o h

pub or_end : (s e l : Bool) → ((s || e) || l) ≡ true → (l || (s || e)) ≡ true
or_end s e l h = ground arith

-- An entry set, where another may have stood.
pub record Sets (name : String) (set : Registry → Registry) (previous : Option Adapter)
    (new : Adapter) (r : Registry) : Type 0 where
  pub keeps : (i : ℕ) → is_tracked i r ≡ true → (is_tracked i (set r) || is_it i previous) ≡ true
  pub has_new : is_tracked new.identity (set r) ≡ true
  pub set_log :
      (i : ℕ) (adapters : List Adapter)
      → is_tracked i (set (log adapters r))
        ≡ (is_tracked i (set r) || logged i (map (λ a. a.identity) adapters))

pub same_kept :
    (i : ℕ) (p new : Adapter) (r : Registry)
    → eqb p.identity new.identity ≡ true
    → (is_tracked i r || eqb p.identity i) ≡ true
    → is_tracked new.identity r ≡ true
    → is_tracked i r ≡ true
same_kept i p new r same h g = elim (Bool-cases (eqb p.identity i)) [
  | inl it ↦
      subst (λ j. is_tracked j r ≡ true)
        (sym ((eqb_iff p.identity new.identity).0 same) ∙ (eqb_iff p.identity i).0 it) g
  | inr other ↦ or_false_right (is_tracked i r) (eqb p.identity i) h other
]
