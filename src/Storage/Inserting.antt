-- ===== src/Storage/Inserting.antt =====
-- A new file: what is charged for it, and the rows that go with it.
use nextjs_saas_boilerplate.Common.{
  ℕ, ◌+◌, ◌≡◌, refl, String, true, false, List, [], ◌∷◌, ◌++◌, some, none, any, ◌==◌, find_where,
  find_where-append, select_where, select_where-eq_nil, All, All-mono, arith, Bool-cases,
  Option-cases, inl, inr, eq_iff, eq_refl, has_key, Distinct, Distinct-append,
}
use nextjs_saas_boilerplate.Common.Int.{pos}
use nextjs_saas_boilerplate.Storage.Store.{
  StorageFile, StorageFileVariant, IntentRow, QuotaRow, is_file, is_variant_of, file_key,
}
use nextjs_saas_boilerplate.Storage.Limits.{quota_key}
use nextjs_saas_boilerplate.Storage.Uploads.{clashes}
use nextjs_saas_boilerplate.Storage.Counting.{IsCounted, Shifts}
use nextjs_saas_boilerplate.Storage.Charges.{
  charge, own, charged, SameBut, charged-same, charged-append,
}
use nextjs_saas_boilerplate.Storage.Balance.{
  Balanced, IsReserved, IsPlaced, row_agrees, is_settled, bytes_in,
}
use nextjs_saas_boilerplate.Storage.Sweeps.{Kept}

pub not_clashing :
    (file : StorageFile) (files : List StorageFile)
    → any (clashes file) files ≡ false
    → any (has_key file_key file.id) files ≡ false
not_clashing file [] h = refl
not_clashing file (r ∷ files) h = ground (arith, not_clashing file files)

module _ (files : List StorageFile) (file : StorageFile)
    (fresh : any (has_key file_key file.id) files ≡ false) where
  pub Kept-append : Kept files (files ++ file ∷ [])
  Kept-append j tenant_id bytes h = elim (Option-cases (find_where (is_file j) files)) [
    | inl missing ↦ let impossible : row_agrees tenant_id bytes none ≡ true = rw missing at h in cc
    | inr (r, e) ↦ rw (find_where-append (is_file j) files (file ∷ []) e) (rw e at h)
  ]

  pub IsPlaced-append :
      (v : StorageFileVariant) → IsPlaced files v → IsPlaced (files ++ file ∷ []) v
  IsPlaced-append v h = elim (Option-cases (find_where (is_file v.file_id) files)) [
    | inl missing ↦ let impossible : is_settled none ≡ true = rw missing at h in cc
    | inr (r, e) ↦ rw (find_where-append (is_file v.file_id) files (file ∷ []) e) (rw e at h)
  ]

-- The new file is found.
pub find_where-fresh :
    (files : List StorageFile) (file : StorageFile)
    → any (has_key file_key file.id) files ≡ false
    → (find_where (is_file file.id) files ≡ none)
      × (find_where (is_file file.id) (files ++ file ∷ []) ≡ some file)
unfolding find_where
find_where-fresh [] file h = (refl, rw (eq_refl file.id))
find_where-fresh (r ∷ files) file h =
    let miss : (r.id == file.id) ≡ false = ground arith in
    let rest = find_where-fresh files file (ground arith) in (rw (miss, rest.0), rw (miss, rest.1))

-- No variants are there before their file.
pub no_variants_before :
    (files : List StorageFile) (file : StorageFile) (variants : List StorageFileVariant)
    → any (has_key file_key file.id) files ≡ false
    → All (IsPlaced files) variants
    → select_where (is_variant_of file.id) variants ≡ []
no_variants_before files file variants fresh h =
    select_where-eq_nil (is_variant_of file.id) variants
      (All-mono (IsPlaced files) (λ v. is_variant_of file.id v ≡ false) variants elsewhere h)
  where
    elsewhere : (v : StorageFileVariant) → IsPlaced files v → is_variant_of file.id v ≡ false
    elsewhere v h = elim (Bool-cases (v.file_id == file.id)) [
      | inr miss ↦ miss
      | inl hit ↦
          let settled : is_settled (find_where (is_file file.id) files) ≡ true =
            rw (← (eq_iff _ _).0 hit) h in
          let impossible : is_settled none ≡ true =
            rw (find_where-fresh files file fresh).0 at settled in
          cc
    ]

-- What is charged after an insertion.
pub charged-insert :
    (org : String) (files : List StorageFile) (file : StorageFile)
    (variants more : List StorageFileVariant)
    → any (has_key file_key file.id) files ≡ false
    → SameBut file.id variants more
    → charged org more (files ++ file ∷ [])
      ≡ charged org variants files + own org file.tenant_id (charge more file)
charged-insert org files file variants more fresh same =
    rw (charged-append org more files file, charged-same org file.id variants more same files fresh)

-- The count of an organization after a reservation of `n` bytes for a tenant.
abbrev pub raised : (String → ℕ) → String → ℕ → String → ℕ
raised before tenant_id n org = before org + own org tenant_id n

pub raised-Shifts :
    (before : String → ℕ) (tenant_id : String) (n : ℕ)
    → Shifts tenant_id (pos n) before (raised before tenant_id n)
raised-Shifts before tenant_id n org = ground arith

pub Balanced-insert :
    {files : List StorageFile} {variants : List StorageFileVariant} {intents : List IntentRow}
    {quotas : List QuotaRow} (file : StorageFile) {more : List StorageFileVariant}
    {intents' : List IntentRow} {quotas' : List QuotaRow}
    → Balanced files variants intents quotas
    → any (has_key file_key file.id) files ≡ false
    → SameBut file.id variants more
    → All (IsReserved (files ++ file ∷ [])) intents'
    → All (IsPlaced (files ++ file ∷ [])) more
    → Distinct quota_key quotas'
    → All (IsCounted (raised (bytes_in files variants) file.tenant_id (charge more file))) quotas'
    → Balanced (files ++ file ∷ []) more intents' quotas'
Balanced-insert {files} {variants} file {more} {quotas'} b fresh same reserved placed d counted =
    record {
      distinct_files = Distinct-append file_key files file fresh b.distinct_files;
      distinct_quotas = d;
      reserved = reserved;
      placed = placed;
      counted =
          All-mono (IsCounted (raised (bytes_in files variants) file.tenant_id (charge more file)))
            (IsCounted (bytes_in (files ++ file ∷ []) more)) quotas'
            (λ q e. rw (charged-insert q.organization_id files file variants more fresh same) e)
            counted;
    }
