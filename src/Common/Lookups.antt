-- ===== src/Common/Lookups.antt =====
-- Look-ups in a table after statements on other rows or on the same one.
use mathlib.Core.Path.{◌≡◌, refl, sym, subst}
use mathlib.Core.Bool.{Bool, true, false}
use mathlib.Core.Logic.{inl, inr}
use mathlib.Core.Option.{none, some}
use mathlib.Core.List.{List, [], ◌∷◌, ◌++◌}
use native.Mathlib.Omega.{arith}
use nextjs_saas_boilerplate.Common.Tests.{Bool-cases, is_some}
use nextjs_saas_boilerplate.Common.Lists.{any}
use nextjs_saas_boilerplate.Common.Tables.{update_where, select_where, find_where}

module _ {ℓ} {A : Type ℓ} where
  -- A look-up past rows that a DELETE or an UPDATE of other rows touched.
  pub find_where-select_where :
      (p q : A → Bool) (rows : List A) {b : A}
      → find_where p rows ≡ some b
      → q b ≡ true
      → find_where p (select_where q rows) ≡ some b
  unfolding find_where select_where
  find_where-select_where p q [] e h = cc
  find_where-select_where p q (r ∷ rows) {b} e h = elim (Bool-cases (p r)) [
    | inl hit ↦
        let same : r ≡ b = ground arith in rw (subst (λ x. q x ≡ true) (sym same) h, hit, same)
    | inr miss ↦ elim (Bool-cases (q r)) [
      | inl stays ↦ rw (stays, miss) (find_where-select_where p q rows (rw miss at e) h)
      | inr goes ↦ rw goes (find_where-select_where p q rows (rw miss at e) h)
    ]
  ]

  pub find_where-select_none :
      (p q : A → Bool) (rows : List A)
      → find_where p rows ≡ none
      → find_where p (select_where q rows) ≡ none
  unfolding find_where select_where
  find_where-select_none p q [] e = refl
  find_where-select_none p q (r ∷ rows) e = elim (Bool-cases (p r)) [
    | inl hit ↦ cc (rw hit at e)
    | inr miss ↦ elim (Bool-cases (q r)) [
      | inl stays ↦ rw (stays, miss) (find_where-select_none p q rows (rw miss at e))
      | inr goes ↦ rw goes (find_where-select_none p q rows (rw miss at e))
    ]
  ]

  pub find_where-update_apart :
      (p p' : A → Bool) (f : A → A) (rows : List A)
      → ((r : A) → p' r ≡ true → (p r ≡ false) × (p (f r) ≡ false))
      → find_where p (update_where p' f rows) ≡ find_where p rows
  unfolding find_where update_where
  find_where-update_apart p p' f [] apart = refl
  find_where-update_apart p p' f (r ∷ rows) apart = elim (Bool-cases (p' r)) [
    | inl hit ↦
        rw (hit, (apart r hit).1, (apart r hit).0) (find_where-update_apart p p' f rows apart)
    | inr miss ↦ rw (miss, find_where-update_apart p p' f rows apart)
  ]

  pub find_where-update_here :
      (p : A → Bool) (f : A → A) (rows : List A) {b : A}
      → ((r : A) → p r ≡ true → p (f r) ≡ true)
      → find_where p rows ≡ some b
      → find_where p (update_where p f rows) ≡ some (f b)
  unfolding find_where update_where
  find_where-update_here p f [] keeps e = cc
  find_where-update_here p f (r ∷ rows) {b} keeps e = elim (Bool-cases (p r)) [
    | inl hit ↦ let same : r ≡ b = ground arith in rw (hit, keeps r hit, same)
    | inr miss ↦ rw (miss, miss) (find_where-update_here p f rows keeps (rw miss at e))
  ]

  pub find_where-append_none :
      (p : A → Bool) (rows more : List A)
      → find_where p rows ≡ none
      → find_where p (rows ++ more) ≡ find_where p more
  unfolding find_where
  find_where-append_none p [] more e = refl
  find_where-append_none p (r ∷ rows) more e = elim (Bool-cases (p r)) [
    | inl hit ↦ cc (rw hit at e)
    | inr miss ↦ rw miss (find_where-append_none p rows more (rw miss at e))
  ]

  pub any-find_where : (p : A → Bool) (rows : List A) → any p rows ≡ is_some (find_where p rows)
  unfolding find_where
  any-find_where p [] = refl
  any-find_where p (r ∷ rows) = elim (Bool-cases (p r)) [
    | inl hit ↦ rw hit
    | inr miss ↦ rw miss (any-find_where p rows)
  ]
