-- ===== src/Storage/Balance.antt =====
-- The invariant of the storage tables: what each organization's quota says is used is what its files
-- are charged for.
use nextjs_saas_boilerplate.Common.{
  ℕ, ◌≡◌, refl, nat_eq, String, Bool, true, false, not, ◌&&◌, ◌||◌, List, [], ◌∷◌, Option, some,
  none, if◌then◌else◌, ◌==◌, find_where, update_where, Distinct, Distinct-update_where, All,
  All-mono, arith, Bool-cases, inl, inr,
}
use mathlib.Core.Option
use nextjs_saas_boilerplate.Storage.Store.{
  StorageFile, StorageFileVariant, IntentRow, QuotaRow, StorageStore, is_file, file_key, is_pending,
}
use nextjs_saas_boilerplate.Storage.Limits.{quota_key}
use nextjs_saas_boilerplate.Storage.Counting.{IsCounted}
use nextjs_saas_boilerplate.Storage.Charges.{charged, is_row}

-- A file that exists, of a tenant, and of a number of bytes while it is pending.
abbrev pub row_agrees : String → ℕ → Option StorageFile → Bool
row_agrees tenant_id bytes none = false
row_agrees tenant_id bytes (some file) =
    file.tenant_id == tenant_id && (not (is_pending file.status) || nat_eq file.byte_size bytes)

abbrev pub agrees : List StorageFile → String → String → ℕ → Bool
agrees files file_id tenant_id bytes =
    row_agrees tenant_id bytes (find_where (is_file file_id) files)

abbrev pub IsReserved : List StorageFile → IntentRow → Type 0
IsReserved files intent = agrees files intent.file_id intent.tenant_id intent.byte_size ≡ true

abbrev pub is_settled : Option StorageFile → Bool
is_settled none = false
is_settled (some file) = not (is_pending file.status)

abbrev pub IsPlaced : List StorageFile → StorageFileVariant → Type 0
IsPlaced files variant = is_settled (find_where (is_file variant.file_id) files) ≡ true

abbrev pub bytes_in : List StorageFile → List StorageFileVariant → String → ℕ
bytes_in files variants org = charged org variants files

-- The keys of the tables are keys, an intent has the tenant and the bytes of its pending file, only
-- files that are no longer pending have variants, and each quota row holds its organization's count.
pub record Balanced (files : List StorageFile) (variants : List StorageFileVariant)
    (intents : List IntentRow) (quotas : List QuotaRow) : Type 0 where
  pub distinct_files : Distinct file_key files
  pub distinct_quotas : Distinct quota_key quotas
  pub reserved : All (IsReserved files) intents
  pub placed : All (IsPlaced files) variants
  pub counted : All (IsCounted (bytes_in files variants)) quotas

abbrev pub IsBalanced : StorageStore → Type 0
IsBalanced s = Balanced s.files s.variants s.intents s.quotas

-- An update of a file that keeps its id and its tenant, and leaves it not pending.
pub record IsSettling (g : StorageFile → StorageFile) : Type 0 where
  pub keeps_id : (r : StorageFile) → (g r).id ≡ r.id
  pub keeps_tenant : (r : StorageFile) → (g r).tenant_id ≡ r.tenant_id
  pub settles : (r : StorageFile) → is_pending (g r).status ≡ false

module _ (p : StorageFile → Bool) (g : StorageFile → StorageFile) (settling : IsSettling g) where
  pub find_file-update_where :
      (j : String) (files : List StorageFile)
      → find_where (is_file j) (update_where p g files)
        ≡ Option.map (λ r. if p r then g r else r) (find_where (is_file j) files)
  unfolding find_where update_where
  find_file-update_where j [] = refl
  find_file-update_where j (r ∷ files) = elim (Bool-cases (p r)) [
    | inl hit ↦ elim (Bool-cases (r.id == j)) [
      | inl same ↦
          let moved : ((g r).id == j) ≡ true = rw (settling.keeps_id r) same in
          rw (hit, moved, same, hit)
      | inr other ↦
          let moved : ((g r).id == j) ≡ false = rw (settling.keeps_id r) other in
          rw (hit, moved, other) (find_file-update_where j files)
    ]
    | inr miss ↦ elim (Bool-cases (r.id == j)) [
      | inl same ↦ rw (miss, same, miss)
      | inr other ↦ rw (miss, other) (find_file-update_where j files)
    ]
  ]

  pub agrees-update_where :
      (files : List StorageFile) (file_id tenant_id : String) (bytes : ℕ)
      → agrees files file_id tenant_id bytes ≡ true
      → agrees (update_where p g files) file_id tenant_id bytes ≡ true
  agrees-update_where files file_id tenant_id bytes h =
      rw (find_file-update_where file_id files) (after (find_where (is_file file_id) files) h)
    where
      after :
          (o : Option StorageFile)
          → row_agrees tenant_id bytes o ≡ true
          → row_agrees tenant_id bytes (Option.map (λ r. if p r then g r else r) o) ≡ true
      after none h = h
      after (some r) h = ground (arith, settling.keeps_tenant r, settling.settles r)

  pub IsPlaced-update_where :
      (files : List StorageFile) (variant : StorageFileVariant)
      → IsPlaced files variant
      → IsPlaced (update_where p g files) variant
  IsPlaced-update_where files variant h =
      rw (find_file-update_where variant.file_id files)
        (after (find_where (is_file variant.file_id) files) h)
    where
      after :
          (o : Option StorageFile)
          → is_settled o ≡ true
          → is_settled (Option.map (λ r. if p r then g r else r) o) ≡ true
      after none h = h
      after (some r) h = ground (arith, settling.settles r)

-- The tables after one file was settled, with the variants and the quota rows that go with it.
pub Balanced-settle :
    {files : List StorageFile} {variants : List StorageFileVariant} {intents : List IntentRow}
    {quotas : List QuotaRow} (id : String) (c : StorageFile → Bool) {g : StorageFile → StorageFile}
    → IsSettling g
    → {more : List StorageFileVariant} {quotas' : List QuotaRow}
    → Balanced files variants intents quotas
    → All (IsPlaced (update_where (is_row id c) g files)) more
    → Distinct quota_key quotas'
    → All (IsCounted (bytes_in (update_where (is_row id c) g files) more)) quotas'
    → Balanced (update_where (is_row id c) g files) more intents quotas'
Balanced-settle {files} {intents} id c {g} settling b placed d counted = record {
  distinct_files =
      Distinct-update_where file_key g settling.keeps_id (is_row id c) files b.distinct_files;
  distinct_quotas = d;
  reserved =
      All-mono (IsReserved files) (IsReserved (update_where (is_row id c) g files)) intents
        (λ intent.
          agrees-update_where (is_row id c) g settling files intent.file_id intent.tenant_id
            intent.byte_size)
        b.reserved;
  placed = placed;
  counted = counted;
}
