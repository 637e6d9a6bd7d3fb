-- ===== src/Common/Results.antt =====
-- The outcome of a call that may throw.
use mathlib.Core.Path.{◌≡◌, refl, subst}
use mathlib.Core.Bool.{Bool, true, false}

pub data Result {ℓ κ} (E : Type ℓ) (A : Type κ) : Type (ℓ ⊔ κ) where
  ok : A → Result E A
  err : E → Result E A

module _ {ℓ κ μ} {E : Type ℓ} {A : Type κ} {B : Type μ} where
  -- What follows a call: the rest after a value, and the error as it is.
  infixl 5 ◌>>=◌
  abbrev pub ◌>>=◌ : Result E A → (A → Result E B) → Result E B
  (err thrown) >>= rest = err thrown
  (ok value) >>= rest = rest value

  pub >>=-eq-ok :
      (m : Result E A) (rest : A → Result E B) {b : B}
      → (m >>= rest) ≡ ok b
      → (a : A) × (m ≡ ok a) × (rest a ≡ ok b)
  >>=-eq-ok (err thrown) rest returned = cc
  >>=-eq-ok (ok value) rest returned = (value, refl, returned)

module _ {ℓ} {E : Type ℓ} where
  -- `if (!test) throw thrown`
  abbrev pub guard : (test : Bool) (thrown : E) → Result E (Unit {0})
  guard false thrown = err thrown
  guard true thrown = ok tt

  infixl 5 ◌>>◌
  abbrev pub ◌>>◌ {μ} : {B : Type μ} → Result E (Unit {0}) → Result E B → Result E B
  first >> second = first >>= λ done. second

pub ok-injective {ℓ κ} :
    {E : Type ℓ} {A : Type κ} {a b : A} → ◌≡◌ {A = Result E A} (ok a) (ok b) → a ≡ b
ok-injective e = cc

-- A predicate on the value of a call that returns.
module _ {ℓ κ μ} {E : Type ℓ} {A : Type κ} where
  abbrev pub Returns : (A → Type μ) → Result E A → Type μ
  Returns P (err thrown) = Unit
  Returns P (ok value) = P value

  pub Returns-ok : (P : A → Type μ) (m : Result E A) {a : A} → Returns P m → m ≡ ok a → P a
  Returns-ok P (err thrown) h e = cc
  Returns-ok P (ok value) h e = subst P (ok-injective e) h

module _ {ℓ κ μ ν} {E : Type ℓ} {A : Type κ} {B : Type μ} where
  pub Returns->>= :
      (P : B → Type ν) (m : Result E A) (rest : A → Result E B)
      → ((a : A) → m ≡ ok a → Returns P (rest a))
      → Returns P (m >>= rest)
  Returns->>= P (err thrown) rest h = tt
  Returns->>= P (ok value) rest h = h value refl
