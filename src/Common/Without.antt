-- ===== src/Common/Without.antt =====
-- The rows of a table that are left when those with one key are deleted.
use Prim.Native.String.{String}
use mathlib.Core.Path.{◌≡◌, refl}
use mathlib.Core.Bool.{false, not}
use mathlib.Core.Logic.{inl, inr}
use mathlib.Core.List.{List, [], ◌∷◌}
use native.Mathlib.Omega.{arith}
use text.Mathlib.Text.{◌==◌}
use text.Mathlib.TextEquality.{eq_iff}
use nextjs_saas_boilerplate.Common.Tests.{Bool-cases}
use nextjs_saas_boilerplate.Common.Lists.{any}
use nextjs_saas_boilerplate.Common.Tables.{select_where, find_where}
use nextjs_saas_boilerplate.Common.Keys.{has_key, Distinct}

-- `DELETE … WHERE key = id`
abbrev pub without : {A : Type 0} → (A → String) → String → List A → List A
without key id rows = select_where (λ r. not (key r == id)) rows

module _ {A : Type 0} (key : A → String) (id : String) where
  any-without :
      (j : String) (rows : List A)
      → any (has_key key j) rows ≡ false
      → any (has_key key j) (without key id rows) ≡ false
  unfolding select_where
  any-without j [] h = refl
  any-without j (r ∷ rows) h = ground (arith, any-without j rows)

  pub Distinct-without : (rows : List A) → Distinct key rows → Distinct key (without key id rows)
  unfolding select_where
  Distinct-without [] h = tt
  Distinct-without (r ∷ rows) (fresh, h) = elim (Bool-cases (key r == id)) [
    | inl gone ↦ rw gone (Distinct-without rows h)
    | inr stays ↦ rw stays (any-without (key r) rows fresh, Distinct-without rows h)
  ]

  pub without-missing :
      (rows : List A) → any (has_key key id) rows ≡ false → without key id rows ≡ rows
  unfolding select_where
  without-missing [] h = refl
  without-missing (r ∷ rows) h = ground (arith, without-missing rows)

  -- The other rows are found as before.
  pub find_where-without :
      (j : String) (rows : List A)
      → (j == id) ≡ false
      → find_where (has_key key j) (without key id rows) ≡ find_where (has_key key j) rows
  unfolding select_where find_where
  find_where-without j [] ne = refl
  find_where-without j (r ∷ rows) ne =
      ground (arith, eq_iff (key r) id, eq_iff (key r) j, eq_iff j id, find_where-without j rows ne)

  pub select_where-without :
      (j : String) (rows : List A)
      → (j == id) ≡ false
      → select_where (has_key key j) (without key id rows) ≡ select_where (has_key key j) rows
  unfolding select_where
  select_where-without j [] ne = refl
  select_where-without j (r ∷ rows) ne =
      ground
        (arith, eq_iff (key r) id, eq_iff (key r) j, eq_iff j id, select_where-without j rows ne)
