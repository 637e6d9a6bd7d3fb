-- ===== src/Common/Tables.antt =====
-- A database table as the list of its rows, with the statements that the source sends to it.
use Prim.Native.Nat.{ℕ, ◌+◌, ◌≤◌}
use mathlib.Core.Path.{◌≡◌, refl, subst}
use mathlib.Core.Bool.{Bool, true, false}
use mathlib.Core.Logic.{inl, inr}
use mathlib.Core.Option.{Option, none, some}
use mathlib.Core.List.{List, [], ◌∷◌, ◌++◌, map}
use native.Mathlib.Omega.{arith}
use nextjs_saas_boilerplate.Common.Tests.{if◌then◌else◌, Bool-cases}
use nextjs_saas_boilerplate.Common.Lists.{All, length}

module _ {ℓ} {A : Type ℓ} where
  -- `UPDATE … SET f WHERE p`
  unfoldable pub update_where : (A → Bool) → (A → A) → List A → List A
  update_where p f [] = []
  update_where p f (r ∷ rows) = (if p r then f r else r) ∷ update_where p f rows

  -- `SELECT * … WHERE p`, and the RETURNING rows of an update before it
  unfoldable pub select_where : (A → Bool) → List A → List A
  select_where p [] = []
  select_where p (r ∷ rows) = if p r then r ∷ select_where p rows else select_where p rows

  -- `SELECT … LIMIT 1`, of rows in hand
  abbrev pub first : List A → Option A
  first [] = none
  first (r ∷ rows) = some r

  -- The first row of `SELECT … WHERE p`, as `rows[0]`
  unfoldable pub find_where : (A → Bool) → List A → Option A
  find_where p [] = none
  find_where p (r ∷ rows) = if p r then some r else find_where p rows

  -- `SELECT count(*) … WHERE p`
  unfoldable pub count_where : (A → Bool) → List A → ℕ
  count_where p [] = 0
  count_where p (r ∷ rows) = if p r then count_where p rows + 1 else count_where p rows

  pub find_where-hit :
      (p : A → Bool) (rows : List A) {r : A} → find_where p rows ≡ some r → p r ≡ true
  unfolding find_where
  find_where-hit p [] e = cc
  find_where-hit p (x ∷ rows) {r} e = elim (Bool-cases (p x)) [
    | inl hit ↦ let same : x ≡ r = ground arith in rw (← same) hit
    | inr miss ↦ find_where-hit p rows (rw miss at e)
  ]

  pub find_where-append :
      (p : A → Bool) (rows more : List A) {r : A}
      → find_where p rows ≡ some r
      → find_where p (rows ++ more) ≡ some r
  unfolding find_where
  find_where-append p [] more e = cc
  find_where-append p (x ∷ rows) more e = elim (Bool-cases (p x)) [
    | inl hit ↦ rw hit (rw hit at e)
    | inr miss ↦ rw miss (find_where-append p rows more (rw miss at e))
  ]

  pub update_where-eq-map :
      (p : A → Bool) (f : A → A) (rows : List A)
      → update_where p f rows ≡ map (λ r. if p r then f r else r) rows
  unfolding update_where
  update_where-eq-map p f [] = refl
  update_where-eq-map p f (r ∷ rows) = rw (update_where-eq-map p f rows)

  pub length-select_where :
      (p : A → Bool) (rows : List A) → length (select_where p rows) ≡ count_where p rows
  unfolding select_where count_where
  length-select_where p [] = refl
  length-select_where p (r ∷ rows) = ground (arith, length-select_where p rows)

  pub length-update_where :
      (p : A → Bool) (f : A → A) (rows : List A) → length (update_where p f rows) ≡ length rows
  unfolding update_where
  length-update_where p f [] = refl
  length-update_where p f (r ∷ rows) = omega (arith, length-update_where p f rows)

no_hit : {b : Bool} → b ≡ true → b ≡ false → ⊥
no_hit e f = cc

module _ {ℓ κ} {A : Type ℓ} where
  pub All-update_where :
      (P : A → Type κ) (p : A → Bool) (f : A → A) (rows : List A)
      → ((r : A) → P r → p r ≡ true → P (f r))
      → All P rows
      → All P (update_where p f rows)
  unfolding update_where
  All-update_where P p f [] keep h = tt
  All-update_where P p f (r ∷ rows) keep (q, h) = elim (Bool-cases (p r)) [
    | inl hit ↦ rw hit (keep r q hit, All-update_where P p f rows keep h)
    | inr miss ↦ rw miss (q, All-update_where P p f rows keep h)
  ]

  pub All-select_where :
      (P : A → Type κ) (p : A → Bool) (rows : List A) → All P rows → All P (select_where p rows)
  unfolding select_where
  All-select_where P p [] h = tt
  All-select_where P p (r ∷ rows) (q, h) = elim (Bool-cases (p r)) [
    | inl hit ↦ rw hit (q, All-select_where P p rows h)
    | inr miss ↦ rw miss (All-select_where P p rows h)
  ]

  pub find_where-All :
      (P : A → Type κ) (p : A → Bool) (rows : List A) {r : A}
      → All P rows
      → find_where p rows ≡ some r
      → P r × (p r ≡ true)
  unfolding find_where
  find_where-All P p [] h e = cc
  find_where-All P p (x ∷ rows) {r} (q, h) e = elim (Bool-cases (p x)) [
    | inl hit ↦ let same : x ≡ r = ground arith in (subst P same q, rw (← same) hit)
    | inr miss ↦ find_where-All P p rows h (ground arith)
  ]

  pub All-first : (P : A → Type κ) (rows : List A) {r : A} → All P rows → first rows ≡ some r → P r
  All-first P [] h e = cc
  All-first P (x ∷ rows) {r} (q, h) e = let same : x ≡ r = ground arith in subst P same q

  pub All-select_where_test :
      (P : A → Type κ) (p : A → Bool) (rows : List A)
      → All P rows
      → All (λ r. P r × (p r ≡ true)) (select_where p rows)
  unfolding select_where
  All-select_where_test P p [] h = tt
  All-select_where_test P p (r ∷ rows) (q, h) = elim (Bool-cases (p r)) [
    | inl hit ↦ rw hit ((q, hit), All-select_where_test P p rows h)
    | inr miss ↦ rw miss (All-select_where_test P p rows h)
  ]

  pub select_where-All :
      (P : A → Type κ) (p : A → Bool) (rows : List A)
      → All P (select_where p rows)
      → All (λ z. p z ≡ true → P z) rows
  unfolding select_where
  select_where-All P p [] h = tt
  select_where-All P p (r ∷ rows) h = elim (Bool-cases (p r)) [
    | inl hit ↦
        let g : P r × All P (select_where p rows) = rw hit at h in
        (λ _. g.0, select_where-All P p rows g.1)
    | inr miss ↦ (λ e. absurd (no_hit e miss), select_where-All P p rows (rw miss at h))
  ]

module _ {ℓ} {A : Type ℓ} where
  pub select_where-nil :
      (p : A → Bool) (rows : List A) → select_where p rows ≡ [] → All (λ z. p z ≡ false) rows
  unfolding select_where
  select_where-nil p [] e = tt
  select_where-nil p (r ∷ rows) e = elim (Bool-cases (p r)) [
    | inl hit ↦ cc (rw hit at e)
    | inr miss ↦ (miss, select_where-nil p rows (rw miss at e))
  ]

  pub select_where-eq_nil :
      (p : A → Bool) (rows : List A) → All (λ z. p z ≡ false) rows → select_where p rows ≡ []
  unfolding select_where
  select_where-eq_nil p [] h = refl
  select_where-eq_nil p (r ∷ rows) (miss, h) = rw miss (select_where-eq_nil p rows h)

  -- A count does not fall if each row that was counted is counted after the update.
  pub count_where-update_where :
      (q q' p : A → Bool) (f : A → A) (rows : List A)
      → ((r : A) → q r ≡ true → p r ≡ true → q' (f r) ≡ true)
      → ((r : A) → q r ≡ true → p r ≡ false → q' r ≡ true)
      → count_where q rows ≤ count_where q' (update_where p f rows)
  unfolding count_where update_where
  count_where-update_where q q' p f [] hit miss = omega arith
  count_where-update_where q q' p f (r ∷ rows) hit miss =
      ground (arith, hit r, miss r, count_where-update_where q q' p f rows hit miss)

  -- The counts agree if each row is counted after the update exactly if it was before.
  pub count_where-update_same :
      (q q' p : A → Bool) (f : A → A) (rows : List A)
      → ((r : A) → (if p r then q' (f r) else q' r) ≡ q r)
      → count_where q' (update_where p f rows) ≡ count_where q rows
  unfolding count_where update_where
  count_where-update_same q q' p f [] same = refl
  count_where-update_same q q' p f (r ∷ rows) same =
      ground (arith, same r, count_where-update_same q q' p f rows same)

module _ {ℓ} {A : Type ℓ} where
  pub find_where-none :
      (p : A → Bool) (rows : List A) → All (λ r. p r ≡ false) rows → find_where p rows ≡ none
  unfolding find_where
  find_where-none p [] h = refl
  find_where-none p (r ∷ rows) (miss, h) = rw miss (find_where-none p rows h)

  pub find_where-All-false :
      (p : A → Bool) (rows : List A) → find_where p rows ≡ none → All (λ r. p r ≡ false) rows
  unfolding find_where
  find_where-All-false p [] e = tt
  find_where-All-false p (r ∷ rows) e = elim (Bool-cases (p r)) [
    | inl hit ↦ cc (rw hit at e)
    | inr miss ↦ (miss, find_where-All-false p rows (rw miss at e))
  ]

  pub update_where-none :
      (p : A → Bool) (f : A → A) (rows : List A)
      → All (λ r. p r ≡ false) rows
      → update_where p f rows ≡ rows
  unfolding update_where
  update_where-none p f [] h = refl
  update_where-none p f (r ∷ rows) (miss, h) = rw (miss, update_where-none p f rows h)

module _ {ℓ κ} {A : Type ℓ} where
  -- What an update gives every row.
  pub update_where-All :
      (Q : A → Type κ) (p : A → Bool) (f : A → A) (rows : List A)
      → ((r : A) → p r ≡ true → Q (f r))
      → ((r : A) → p r ≡ false → Q r)
      → All Q (update_where p f rows)
  unfolding update_where
  update_where-All Q p f [] hit miss = tt
  update_where-All Q p f (r ∷ rows) hit miss = elim (Bool-cases (p r)) [
    | inl e ↦ rw e (hit r e, update_where-All Q p f rows hit miss)
    | inr e ↦ rw e (miss r e, update_where-All Q p f rows hit miss)
  ]
