-- ===== src/Prelude/Results.antt =====
-- Outcomes of code that may raise: `ok` with the value, or `err` with what was raised.
use mathlib.Core.Path.{◌≡◌, refl}
use mathlib.Core.Bool.{Bool, true, false}
use mathlib.Core.List.{List, [], ◌∷◌}
use invariantql.Prelude.{if◌then◌else◌, subst}

pub data Result {ℓ κ} (E : Type κ) (A : Type ℓ) : Type (ℓ ⊔ κ) where
  ok : A → Result E A
  err : E → Result E A

infixl 5 ◌>>=◌ ◌>>◌
abbrev pub ◌>>=◌ {ℓ κ μ} :
    {E : Type μ} {A : Type ℓ} {B : Type κ} → Result E A → (A → Result E B) → Result E B
ok value >>= next = next value
err error >>= _ = err error

abbrev pub ◌>>◌ {ℓ μ} : {E : Type μ} {B : Type ℓ} → Result E (Unit {0}) → Result E B → Result E B
first >> next = first >>= λ _. next

-- `if not b: raise e`
abbrev pub guard {μ} : {E : Type μ} → Bool → E → Result E (Unit {0})
guard true _ = ok tt
guard false error = err error

-- A comprehension whose body may raise: left to right, the first exception ends it.
abbrev pub traverse {ℓ κ μ} :
    {E : Type μ} {A : Type ℓ} {B : Type κ} → (A → Result E B) → List A → Result E (List B)
traverse body [] = ok []
traverse body (item ∷ items) = do first ← body item; rest ← traverse body items; ok (first ∷ rest)

pub >>=-eq-ok {ℓ κ μ} :
    {E : Type μ} {A : Type ℓ} {B : Type κ} (first : Result E A) (next : A → Result E B) {end : B}
    → (first >>= next) ≡ ok end
    → (value : A) × (first ≡ ok value) × (next value ≡ ok end)
>>=-eq-ok (ok value) next h = (value, refl, h)
>>=-eq-ok (err error) next h = cc

pub ok-injective {ℓ μ} :
    {E : Type μ} {A : Type ℓ} {a b : A} → ◌≡◌ {A = Result E A} (ok a) (ok b) → a ≡ b
ok-injective h = cc

-- A checked constructor that returned has passed its check.
pub guard-eq-ok {ℓ μ} :
    {E : Type μ} {A : Type ℓ} {b : Bool} (e : E) {a x : A}
    → (guard b e >> ok a) ≡ ok x
    → (b ≡ true) × (a ≡ x)
guard-eq-ok {b = true} e h = (refl, cc)
guard-eq-ok {b = false} e h = cc

-- A test that raises did not hold if the code returned.
pub raise_if-eq-ok {ℓ μ} :
    {E : Type μ} {A : Type ℓ} (b : Bool) (e : E) {m : Result E A} {x : A}
    → (if b then err e else m) ≡ ok x
    → (b ≡ false) × (m ≡ ok x)
raise_if-eq-ok true e h = cc
raise_if-eq-ok false e h = (refl, h)

-- The code raised, or `P` holds of the value that it returned.
pub data Ensures {ℓ κ μ} {E : Type μ} {A : Type ℓ} (P : A → Type κ)
    : Result E A → Type (ℓ ⊔ κ ⊔ μ) where
  holds : {a : A} → P a → Ensures P (ok a)
  raised : {e : E} → Ensures P (err e)

module _ {ℓ κ μ} {E : Type μ} {A : Type ℓ} {P : A → Type κ} where
  pub Ensures-if :
      (b : Bool) {x y : Result E A}
      → (b ≡ true → Ensures P x)
      → (b ≡ false → Ensures P y)
      → Ensures P (if b then x else y)
  Ensures-if true hx hy = hx refl
  Ensures-if false hx hy = hy refl

  pub Ensures-ok : {r : Result E A} {a : A} → Ensures P r → r ≡ ok a → P a
  Ensures-ok (holds h) e = subst P (cc) h
  Ensures-ok raised e = cc

  pub Ensures-of_eq : (r : Result E A) → ((a : A) → r ≡ ok a → P a) → Ensures P r
  Ensures-of_eq (ok a) h = holds (h a refl)
  Ensures-of_eq (err e) h = raised

  pub Ensures-bind {ν ξ} :
      {B : Type ν} {Q : B → Type ξ} {r : Result E A} {f : A → Result E B}
      → Ensures P r
      → ((a : A) → P a → Ensures Q (f a))
      → Ensures Q (r >>= f)
  Ensures-bind (holds {a} h) k = k a h
  Ensures-bind raised k = raised

-- Nothing is asked of the value.
pub Ensures-any {ℓ μ} : {E : Type μ} {A : Type ℓ} (r : Result E A) → Ensures (λ (a : A). Unit {0}) r
Ensures-any (ok a) = holds tt
Ensures-any (err e) = raised
