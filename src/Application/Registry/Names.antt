-- ===== src/Application/Registry/Names.antt =====
-- Entries under names, src/invariantql/application/registry.py.
-- Each source stands once, under its own name, which is not empty.
use invariantql.Prelude.{
  Bool, Bool-cases, Option, String, [], ap, arith, eq_iff, false, if◌then◌else◌, inl, inr, lookup,
  none, refl, some, subst, sym, true, ◌==◌, ◌∙◌, ◌∷◌, ◌≡◌,
}
use invariantql.Application.Registry.{Adapter, Adapters, insert, remove}

abbrev pub AreNamed : Adapters → Type 0
AreNamed [] = Unit
AreNamed ((k, a) ∷ es) = (k ≡ a.name) × ((k == "") ≡ false) × (lookup k es ≡ none) × AreNamed es

if_twice :
    {A : Type 0} (x y z : A) (c : Bool)
    → (if c then x else z) ≡ (if c then x else if c then y else z)
if_twice x y z true = refl
if_twice x y z false = refl

distinct : (k key m : String) → (k == key) ≡ false → (k == m) ≡ true → (key == m) ≡ false
distinct k key m h g = ground (arith, eq_iff k key, eq_iff k m, eq_iff key m)

apart : (k m : String) → (k == m) ≡ false → (m == k) ≡ false
apart k m h = ground (arith, eq_iff k m, eq_iff m k)

passed :
    {A : Type 0} (x : A) {o : Option A} (c : Bool)
    → (if c then some x else o) ≡ none
    → (c ≡ false) × (o ≡ none)
passed x true h = cc
passed x false h = (refl, h)

pub lookup-insert :
    (key : String) (a : Adapter) (m : String) (es : Adapters)
    → lookup m (insert key a es) ≡ (if key == m then some a else lookup m es)
lookup-insert key a m [] = refl
lookup-insert key a m ((k, b) ∷ es) = elim (Bool-cases (k == key)) [
  | inl same ↦ rw same (
      subst
        (λ x.
          (if x == m then some a else lookup m es)
          ≡ (if key == m then some a else if x == m then some b else lookup m es))
        (sym ((eq_iff k key).0 same)) (if_twice (some a) (some b) (lookup m es) (key == m)))
  | inr other ↦ elim (Bool-cases (k == m)) [
    | inl here ↦ rw other (rw here (rw (distinct k key m other here) refl))
    | inr there ↦ rw other (rw there (lookup-insert key a m es))
  ]
]

lookup-remove :
    (key m : String) (es : Adapters) → lookup m es ≡ none → lookup m (remove key es) ≡ none
lookup-remove key m [] h = refl
lookup-remove key m ((k, b) ∷ es) h =
    let p = passed b (k == m) h in
    elim (Bool-cases (k == key)) [
      | inl same ↦ rw same p.1
      | inr other ↦ rw other (rw p.0 (lookup-remove key m es p.1))
    ]

pub insert-AreNamed :
    (a : Adapter) (es : Adapters)
    → (a.name == "") ≡ false
    → AreNamed es
    → AreNamed (insert a.name a es)
insert-AreNamed a [] h g = (refl, h, refl, tt)
insert-AreNamed a ((k, b) ∷ es) h g = elim (Bool-cases (k == a.name)) [
  | inl same ↦ rw same ((eq_iff k a.name).0 same, g.1, g.2, g.3)
  | inr other ↦ rw other (
    g.0,
    g.1,
    lookup-insert a.name a k es
        ∙ ap (λ c. if c then some a else lookup k es) (apart k a.name other)
        ∙ g.2,
    insert-AreNamed a es h g.3,
  )
]

pub remove-AreNamed : (key : String) (es : Adapters) → AreNamed es → AreNamed (remove key es)
remove-AreNamed key [] h = h
remove-AreNamed key ((k, b) ∷ es) h = elim (Bool-cases (k == key)) [
  | inl same ↦ rw same h.3
  | inr other ↦ rw other (h.0, h.1, lookup-remove key k es h.2, remove-AreNamed key es h.3)
]
