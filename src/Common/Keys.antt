-- ===== src/Common/Keys.antt =====
-- Tables with a text as primary key: no two rows share it.
use Prim.Native.String.{String}
use mathlib.Core.Path.{◌≡◌, refl}
use mathlib.Core.Bool.{Bool, false}
use mathlib.Core.Logic.{inl, inr, ◌≢◌}
use mathlib.Core.Option
use mathlib.Core.Option.{Option, none, some}
use mathlib.Core.List.{List, [], ◌∷◌, ◌++◌, map}
use native.Mathlib.Omega.{arith}
use text.Mathlib.Text.{◌==◌}
use text.Mathlib.TextEquality.{eq_iff}
use text.Mathlib.TextPositions.{eq_refl}
use nextjs_saas_boilerplate.Common.Tests.{if◌then◌else◌, Bool-cases}
use nextjs_saas_boilerplate.Common.Lists.{All, any}
use nextjs_saas_boilerplate.Common.Tables.{update_where, find_where}

module _ {ℓ} {A : Type ℓ} (key : A → String) where
  abbrev pub has_key : String → A → Bool
  has_key id row = key row == id

  abbrev pub Distinct : List A → Type 0
  Distinct [] = Unit
  Distinct (r ∷ rows) = (any (has_key (key r)) rows ≡ false) × Distinct rows

  pub update_where-missing :
      (id : String) (f : A → A) (rows : List A)
      → any (has_key id) rows ≡ false
      → update_where (has_key id) f rows ≡ rows
  unfolding update_where
  update_where-missing id f [] h = refl
  update_where-missing id f (r ∷ rows) h = ground (arith, update_where-missing id f rows)

  module _ (f : A → A) (keeps : (r : A) → key (f r) ≡ key r) where
    pub any-update_where :
        (id : String) (p : A → Bool) (rows : List A)
        → any (has_key id) (update_where p f rows) ≡ any (has_key id) rows
    unfolding update_where
    any-update_where id p [] = refl
    any-update_where id p (r ∷ rows) = elim (Bool-cases (p r)) [
      | inl hit ↦ rw (hit, any-update_where id p rows, keeps r)
      | inr miss ↦ rw (miss, any-update_where id p rows)
    ]

    pub Distinct-update_where :
        (p : A → Bool) (rows : List A) → Distinct rows → Distinct (update_where p f rows)
    unfolding update_where
    Distinct-update_where p [] h = tt
    Distinct-update_where p (r ∷ rows) (fresh, h) = elim (Bool-cases (p r)) [
      | inl hit ↦
          rw (hit, any-update_where (key (f r)) p rows, keeps r)
            (fresh, Distinct-update_where p rows h)
      | inr miss ↦
          rw (miss, any-update_where (key r) p rows) (fresh, Distinct-update_where p rows h)
    ]

    pub find_where-update_where :
        (id j : String) (rows : List A)
        → find_where (has_key j) (update_where (has_key id) f rows) ≡ (
            if id == j
            then Option.map f (find_where (has_key j) rows)
            else find_where (has_key j) rows)
    unfolding update_where find_where
    find_where-update_where id j [] = ground arith
    find_where-update_where id j (r ∷ rows) = ground (
      arith,
      keeps r,
      eq_iff id j,
      eq_iff (key r) id,
      eq_iff (key r) j,
      find_where-update_where id j rows,
    )

    pub find_where-update_self :
        (id : String) (rows : List A) {j : A}
        → find_where (has_key id) rows ≡ some j
        → find_where (has_key id) (update_where (has_key id) f rows) ≡ some (f j)
    find_where-update_self id rows e = rw (find_where-update_where id id rows, eq_refl id, e)

    pub find_where-update_other :
        (id j : String) (rows : List A)
        → j ≢ id
        → find_where (has_key j) (update_where (has_key id) f rows) ≡ find_where (has_key j) rows
    find_where-update_other id j rows ne =
        rw (find_where-update_where id j rows) (ground (arith, eq_iff id j))

    pub find_where-map :
        (j : String) (rows : List A)
        → find_where (has_key j) (map f rows) ≡ Option.map f (find_where (has_key j) rows)
    unfolding find_where
    find_where-map j [] = refl
    find_where-map j (r ∷ rows) = elim (Bool-cases (key r == j)) [
      | inl hit ↦ rw (keeps r, hit)
      | inr miss ↦ rw (keeps r, miss) (find_where-map j rows)
    ]

  any-append :
      (id : String) (rows : List A) (r : A)
      → any (has_key id) rows ≡ false
      → (key r == id) ≡ false
      → any (has_key id) (rows ++ r ∷ []) ≡ false
  any-append id [] r h k = ground arith
  any-append id (x ∷ rows) r h k = ground (arith, any-append id rows r)

  any-middle :
      (id : String) (rows : List A) (r : A) (more : List A)
      → any (has_key id) (rows ++ r ∷ more) ≡ false
      → (key r == id) ≡ false
  any-middle id [] r more h = ground arith
  any-middle id (x ∷ rows) r more h = any-middle id rows r more (ground arith)

  pub Distinct-append :
      (rows : List A) (r : A)
      → any (has_key (key r)) rows ≡ false
      → Distinct rows
      → Distinct (rows ++ r ∷ [])
  Distinct-append [] r fresh h = (refl, tt)
  Distinct-append (x ∷ rows) r fresh (new, h) = (
    any-append (key x) rows r new (ground (arith, eq_iff (key x) (key r), eq_iff (key r) (key x))),
    Distinct-append rows r (ground arith) h,
  )

  -- The keys before a row of such a list are not its key.
  pub Distinct-before :
      (rows : List A) (r : A) (more : List A)
      → Distinct (rows ++ r ∷ more)
      → any (has_key (key r)) rows ≡ false
  Distinct-before [] r more h = refl
  Distinct-before (x ∷ rows) r more (fresh, h) =
      let apart = any-middle (key x) rows r more fresh in
      rw (Distinct-before rows r more h)
        (ground (arith, eq_iff (key x) (key r), eq_iff (key r) (key x)))

  -- The key of a row that is not taken differs from the key of each row.
  pub any-All :
      (id : String) (rows : List A)
      → any (has_key id) rows ≡ false
      → All (λ z. (key z == id) ≡ false) rows
  any-All id [] h = tt
  any-All id (x ∷ rows) h = (ground arith, any-All id rows (ground arith))

  -- A look-up by a row's key finds that row.
  pub Distinct-found :
      (rows : List A) → Distinct rows → All (λ z. find_where (has_key (key z)) rows ≡ some z) rows
  unfolding find_where
  Distinct-found [] h = tt
  Distinct-found (r ∷ rows) (fresh, h) =
      (rw (eq_refl (key r)), later rows (any-All (key r) rows fresh) (Distinct-found rows h))
    where
      later :
          (zs : List A)
          → All (λ z. (key z == key r) ≡ false) zs
          → All (λ z. find_where (has_key (key z)) rows ≡ some z) zs
          → All (λ z. find_where (has_key (key z)) (r ∷ rows) ≡ some z) zs
      later [] p q = tt
      later (z ∷ zs) (p, ps) (q, qs) =
          (ground (arith, eq_iff (key r) (key z), eq_iff (key z) (key r)), later zs ps qs)

module _ {ℓ κ} {A : Type ℓ} (key : A → String) (P : A → Type κ) where
  -- An update of the one row with a key.
  pub All-update_found :
      (id : String) (f : A → A) (rows : List A) {j : A}
      → Distinct key rows
      → find_where (has_key key id) rows ≡ some j
      → P (f j)
      → All P rows
      → All P (update_where (has_key key id) f rows)
  unfolding update_where find_where
  All-update_found id f [] d e p h = tt
  All-update_found id f (r ∷ rows) {j} (fresh, d) e p (q, h) = elim (Bool-cases (key r == id)) [
    | inl hit ↦
        let same : j ≡ r = ground arith in
        let gone : any (has_key key id) rows ≡ false = rw (← (eq_iff _ _).0 hit) fresh in
        rw (hit, update_where-missing key id f rows gone) (rw same at p, h)
    | inr miss ↦ rw miss (q, All-update_found id f rows d (rw miss at e) p h)
  ]
