-- ===== src/Storage/Charges.antt =====
-- The bytes that an organization is charged for: those of its files that are pending or available,
-- and of their variants.
use nextjs_saas_boilerplate.Common.{
  ℕ, ◌+◌, ◌≡◌, refl, String, Bool, true, false, ◌&&◌, List, [], ◌∷◌, ◌++◌, some, none, any,
  if◌then◌else◌, ◌==◌, find_where, update_where, select_where, has_key, Distinct, arith, Bool-cases,
  inl, inr, eq_iff,
}
use nextjs_saas_boilerplate.Storage.Store.{
  StorageFile, StorageFileVariant, StorageFileStatus, available, deleted, abandoned, is_file,
  is_variant_of, file_key,
}
use nextjs_saas_boilerplate.Storage.Quota.{total_bytes}

abbrev pub is_charged : StorageFileStatus → Bool
is_charged StorageFileStatus.pending = true
is_charged available = true
is_charged deleted = false
is_charged abandoned = false

abbrev pub bytes_of : List StorageFileVariant → StorageFile → ℕ
bytes_of variants file =
    file.byte_size + total_bytes (select_where (is_variant_of file.id) variants)

abbrev pub charge : List StorageFileVariant → StorageFile → ℕ
charge variants file = if is_charged file.status then bytes_of variants file else 0

-- The share of an organization in the bytes of a tenant.
abbrev pub own : String → String → ℕ → ℕ
own org tenant_id n = if tenant_id == org then n else 0

unfoldable pub charged : String → List StorageFileVariant → List StorageFile → ℕ
charged org variants [] = 0
charged org variants (file ∷ files) =
    own org file.tenant_id (charge variants file) + charged org variants files

-- The variants of every file but one are the same in both lists.
abbrev pub SameBut : String → (variants more : List StorageFileVariant) → Type 0
SameBut id variants more =
    (j : String)
    → (j == id) ≡ false
    → select_where (is_variant_of j) more ≡ select_where (is_variant_of j) variants

module _ (org id : String) (variants more : List StorageFileVariant)
    (same : SameBut id variants more) where
  pub charge-same :
      (file : StorageFile) → (file.id == id) ≡ false → charge more file ≡ charge variants file
  charge-same file ne = rw (same file.id ne)

  pub charged-same :
      (files : List StorageFile)
      → any (has_key file_key id) files ≡ false
      → charged org more files ≡ charged org variants files
  unfolding charged
  charged-same [] h = refl
  charged-same (r ∷ files) h =
      let miss : (r.id == id) ≡ false = ground arith in
      let rest : any (has_key file_key id) files ≡ false = ground arith in
      rw (charge-same r miss, charged-same files rest)

module _ (id : String) (c : StorageFile → Bool) where
  -- A WHERE on the primary key, with another test.
  abbrev pub is_row : StorageFile → Bool
  is_row file = is_file id file && c file

  pub is_row-missing :
      (g : StorageFile → StorageFile) (files : List StorageFile)
      → any (has_key file_key id) files ≡ false
      → (find_where is_row files ≡ none) × (update_where is_row g files ≡ files)
  unfolding find_where update_where
  is_row-missing g [] h = (refl, refl)
  is_row-missing g (r ∷ files) h =
      let miss : (r.id == id) ≡ false = ground arith in
      let rest = is_row-missing g files (ground arith) in (rw (miss, rest.0), rw (miss, rest.1))

  pub any-is_row :
      (files : List StorageFile)
      → any (has_key file_key id) files ≡ false
      → any is_row files ≡ false
  any-is_row [] h = refl
  any-is_row (r ∷ files) h = ground (arith, any-is_row files)

  -- What an update of one file does to the bytes that an organization is charged for.
  pub charged-update_where :
      (org : String) (variants more : List StorageFileVariant)
      → SameBut id variants more
      → (g : StorageFile → StorageFile) → ((r : StorageFile) → (g r).tenant_id ≡ r.tenant_id)
      → (files : List StorageFile) {file : StorageFile} → Distinct file_key files
      → find_where is_row files ≡ some file
      → charged org more (update_where is_row g files)
          + own org file.tenant_id (charge variants file)
        ≡ charged org variants files + own org file.tenant_id (charge more (g file))
  unfolding charged find_where update_where
  charged-update_where org variants more same g keeps [] d e = cc
  charged-update_where org variants more same g keeps (r ∷ files) {file} (fresh, d) e =
      elim (Bool-cases (r.id == id)) [
        | inr miss ↦
            let rest = charged-update_where org variants more same g keeps files d (rw miss at e) in
            rw (miss, charge-same org id variants more same r miss) (omega (arith, rest))
        | inl hit ↦
            let gone : any (has_key file_key id) files ≡ false = rw (← (eq_iff _ _).0 hit) fresh in
            elim (Bool-cases (c r)) [
              | inr barred ↦
                  let nowhere = (is_row-missing g files gone).0 in
                  let found : find_where is_row files ≡ some file = rw (hit, barred) at e in cc
              | inl here ↦
                  let is_r : r ≡ file = ground arith in
                  rw
                    (
                      hit,
                      here,
                      (is_row-missing g files gone).1,
                      keeps r,
                      charged-same org id variants more same files gone,
                      ← is_r,
                    )
                    (omega arith)
            ]
      ]

pub charged-append :
    (org : String) (variants : List StorageFileVariant) (files : List StorageFile)
    (file : StorageFile)
    → charged org variants (files ++ file ∷ [])
      ≡ charged org variants files + own org file.tenant_id (charge variants file)
unfolding charged
charged-append org variants [] file = omega arith
charged-append org variants (r ∷ files) file = omega (arith, charged-append org variants files file)
