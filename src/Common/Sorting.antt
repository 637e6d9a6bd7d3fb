-- ===== src/Common/Sorting.antt =====
-- `ORDER BY`: a stable insertion sort by a Boolean order, and what its first row is.
use Prim.Native.Nat.{◌+◌}
use mathlib.Core.Path.{◌≡◌, refl}
use mathlib.Core.Bool.{Bool, true, false}
use mathlib.Core.Option.{Option, none, some}
use mathlib.Core.List.{List, [], ◌∷◌}
use mathlib.Core.Logic.{inl, inr}
use native.Mathlib.Omega.{arith}
use nextjs_saas_boilerplate.Common.Tests.{if◌then◌else◌, Bool-cases}
use nextjs_saas_boilerplate.Common.Lists.{All, All-mono, length}
use nextjs_saas_boilerplate.Common.Tables.{first}

module _ {ℓ} {A : Type ℓ} (before : A → A → Bool) where
  unfoldable pub insert_by : A → List A → List A
  insert_by x [] = x ∷ []
  insert_by x (y ∷ ys) = if before x y then x ∷ (y ∷ ys) else y ∷ insert_by x ys

  unfoldable pub sort_by : List A → List A
  unfolding insert_by
  sort_by [] = []
  sort_by (x ∷ xs) = insert_by x (sort_by xs)

-- A total preorder, as `ORDER BY` uses it.
pub record IsOrder {ℓ} {A : Type ℓ} (before : A → A → Bool) : Type ℓ where
  pub total : (x y : A) → before x y ≡ false → before y x ≡ true
  pub trans : (x y z : A) → before x y ≡ true → before y z ≡ true → before x z ≡ true

module _ {ℓ κ} {A : Type ℓ} (before : A → A → Bool) (P : A → Type κ) where
  All-insert_by : (x : A) (ys : List A) → P x → All P ys → All P (insert_by before x ys)
  unfolding insert_by
  All-insert_by x [] p h = (p, tt)
  All-insert_by x (y ∷ ys) p (q, h) = elim (Bool-cases (before x y)) [
    | inl here ↦ rw here (p, (q, h))
    | inr there ↦ rw there (q, All-insert_by x ys p h)
  ]

  pub All-sort_by : (xs : List A) → All P xs → All P (sort_by before xs)
  unfolding sort_by
  All-sort_by [] h = tt
  All-sort_by (x ∷ xs) (p, h) = All-insert_by x (sort_by before xs) p (All-sort_by xs h)

  insert_by-All : (x : A) (ys : List A) → All P (insert_by before x ys) → P x × All P ys
  unfolding insert_by
  insert_by-All x [] h = h
  insert_by-All x (y ∷ ys) h = elim (Bool-cases (before x y)) [
    | inl here ↦ rw here at h
    | inr there ↦
        let g : P y × All P (insert_by before x ys) = rw there at h in
        let r = insert_by-All x ys g.1 in (r.0, (g.0, r.1))
  ]

  pub sort_by-All : (xs : List A) → All P (sort_by before xs) → All P xs
  unfolding sort_by
  sort_by-All [] h = tt
  sort_by-All (x ∷ xs) h =
      let r = insert_by-All x (sort_by before xs) h in (r.0, sort_by-All xs r.1)

module _ {ℓ} {A : Type ℓ} (before : A → A → Bool) (order : IsOrder before) where
  open order use {total, trans}

  before_refl : (x : A) → before x x ≡ true
  before_refl x = elim (Bool-cases (before x x)) [ inl h ↦ h | inr h ↦ total x x h ]

  -- Every row of `ys` comes at or after its first one.
  abbrev Leads : List A → Type ℓ
  Leads ys = (n : A) → first ys ≡ some n → All (λ z. before n z ≡ true) ys

  Leads-insert_by : (x : A) (ys : List A) → Leads ys → Leads (insert_by before x ys)
  unfolding insert_by
  Leads-insert_by x [] lead n e = (ground (arith, before_refl n), tt)
  Leads-insert_by x (y ∷ ys) lead n e = elim (Bool-cases (before x y)) [
    | inl here ↦
        let same : x ≡ n = ground arith in
        rw (← same, here)
          (
            before_refl x,
            (here, All-mono _ _ ys (λ z h. trans x y z here h) (lead y (ground arith)).1),
          )
    | inr there ↦
        let same : y ≡ n = ground arith in
        let after = lead y (ground arith) in
        rw (← same, there)
          (after.0, All-insert_by before (λ z. before y z ≡ true) x ys (total x y there) after.1)
  ]

  Leads-sort_by : (xs : List A) → Leads (sort_by before xs)
  unfolding sort_by
  Leads-sort_by [] n e = tt
  Leads-sort_by (x ∷ xs) n e =
      Leads-insert_by x (sort_by before xs) (λ k h. Leads-sort_by xs k h) n e

  -- The first row of a sorted table comes before every row.
  pub sort_by-first :
      (xs : List A) (m : A) → first (sort_by before xs) ≡ some m → All (λ z. before m z ≡ true) xs
  sort_by-first xs m e = sort_by-All before (λ z. before m z ≡ true) xs (Leads-sort_by xs m e)

module _ {ℓ} {A : Type ℓ} (before : A → A → Bool) where
  insert_by-ne_none :
      (x : A) (ys : List A) → ¬ (◌≡◌ {A = Option A} (first (insert_by before x ys)) none)
  unfolding insert_by
  insert_by-ne_none x [] e = cc
  insert_by-ne_none x (y ∷ ys) e = ground arith

  pub sort_by-none : (xs : List A) → ◌≡◌ {A = Option A} (first (sort_by before xs)) none → xs ≡ []
  unfolding sort_by
  sort_by-none [] e = refl
  sort_by-none (x ∷ xs) e = absurd (insert_by-ne_none x (sort_by before xs) e)

  length-insert_by : (x : A) (ys : List A) → length (insert_by before x ys) ≡ length ys + 1
  unfolding insert_by
  length-insert_by x [] = omega arith
  length-insert_by x (y ∷ ys) = ground (arith, length-insert_by x ys)

  pub length-sort_by : (xs : List A) → length (sort_by before xs) ≡ length xs
  unfolding sort_by
  length-sort_by [] = refl
  length-sort_by (x ∷ xs) = omega (arith, length-insert_by x (sort_by before xs), length-sort_by xs)
