-- ===== src/Prelude/Results.antt =====
-- Go's `(value, error)` results, and the chains that stop at the first error.
use mathlib.Core.Path.{◌≡◌, refl}
use mathlib.Core.Logic.{◌⊎◌, inl, inr}
use mathlib.Core.Bool.{Bool, true, false}
use mathlib.Core.Option.{Option, none, some}

pub data Result {ℓ} (E A : Type ℓ) : Type ℓ where
  ok : A → Result E A
  err : E → Result E A

infixl 5 ◌>>=◌ ◌>>◌
abbrev pub ◌>>=◌ {ℓ} : {E A B : Type ℓ} → Result E A → (A → Result E B) → Result E B
ok a >>= f = f a
err e >>= f = err e

abbrev pub ◌>>◌ {ℓ} : {E B : Type ℓ} → Result E (Unit {ℓ}) → Result E B → Result E B
m >> k = m >>= λ _. k

-- `if bad { return …, err }`
abbrev pub refuse_if {ℓ} : {E : Type ℓ} → Bool → E → Result E (Unit {ℓ})
refuse_if true e = err e
refuse_if false e = ok tt

-- `v, ok := …; if !ok { return …, err }`
abbrev pub require {ℓ} : {E A : Type ℓ} → Option A → E → Result E A
require none e = err e
require (some a) e = ok a

pub >>=-eq-ok {ℓ} :
    {E A B : Type ℓ} (first : Result E A) (next : A → Result E B) {x : B}
    → (first >>= next) ≡ ok x
    → (a : A) × (first ≡ ok a) × (next a ≡ ok x)
>>=-eq-ok (ok a) next done = (a, refl, done)
>>=-eq-ok (err e) next done = cc

pub Result-cases {ℓ} :
    {E A : Type ℓ} (m : Result E A) → ((a : A) × (m ≡ ok a)) ⊎ ((e : E) × (m ≡ err e))
Result-cases (ok a) = inl (a, refl)
Result-cases (err e) = inr (e, refl)

-- Inversion of a chain that ends in a success, one lemma for each kind of step.
module _ {ℓ} {E B : Type ℓ} where
  pub refuse_if-eq-ok :
      (b : Bool) (e : E) (k : Unit {ℓ} → Result E B) (x : B)
      → (refuse_if b e >>= k) ≡ ok x
      → (b ≡ false) × (k tt ≡ ok x)
  refuse_if-eq-ok true e k x h = cc
  refuse_if-eq-ok false e k x h = (refl, h)

  pub require-bind-eq-ok :
      {A : Type ℓ} (o : Option A) (e : E) (k : A → Result E B) (x : B)
      → (require o e >>= k) ≡ ok x
      → (a : A) × (o ≡ some a) × (k a ≡ ok x)
  require-bind-eq-ok none e k x h = cc
  require-bind-eq-ok (some a) e k x h = (a, refl, h)

  pub require-eq-ok : (o : Option B) (e : E) (x : B) → require o e ≡ ok x → o ≡ some x
  require-eq-ok none e x h = cc
  require-eq-ok (some a) e x h = cc

pub ok-inj {ℓ} : {E A : Type ℓ} {a b : A} → ◌≡◌ {A = Result E A} (ok a) (ok b) → a ≡ b
ok-inj h = cc
