-- ===== src/Storage/Quota.antt =====
-- `reserveQuota`, `deleteFile` and `getUsage` of packages/storage/src/service.ts.
use nextjs_saas_boilerplate.Common.{
  ℕ, zero, suc, ◌+◌, ◌-◌, leb, String, Bool, ◌&&◌, ◌||◌, List, [], ◌∷◌, ◌++◌, Option, none, some,
  if◌then◌else◌, ◌==◌, is_some, Result, ok, err, find_where, update_where, count_where,
}
use nextjs_saas_boilerplate.Common.Int.{ℤ, pos, negsuc, negate}
use nextjs_saas_boilerplate.Common.Actions.{◌>>=◌, ◌>>◌, pure, get, modify, require, require_some}
use nextjs_saas_boilerplate.Storage.Store.{
  deleted, write, StoragePrincipal, StorageFile, StorageFileVariant, QuotaRow, UsageRecord,
  StorageStore, StorageError, Call, file_not_found, forbidden, file_not_available,
  storage_quota_exceeded, is_file, load_file, load_variants, is_available, audit,
}
use nextjs_saas_boilerplate.Storage.Access.{can_write_file, has_active_grant, file_event}

abbrev pub is_quota : String → QuotaRow → Bool
is_quota tenant_id row = row.organization_id == tenant_id

-- The WHERE of the UPDATE that reserves.
abbrev pub fits : String → ℕ → QuotaRow → Bool
fits tenant_id bytes row =
    is_quota tenant_id row && leb (row.storage_bytes_used + bytes) row.storage_bytes_limit

abbrev pub add_bytes : ℕ → ℕ → QuotaRow → QuotaRow
add_bytes bytes now row = record row {
  storage_bytes_used = row.storage_bytes_used + bytes;
  updated_at = now;
}

-- `GREATEST(0, storage_bytes_used - $2)`, which is the subtraction of ℕ
abbrev pub release_bytes : ℕ → ℕ → QuotaRow → QuotaRow
release_bytes bytes now row = record row {
  storage_bytes_used = row.storage_bytes_used - bytes;
  updated_at = now;
}

unfoldable pub reserve_quota : ℤ → String → ℕ → Call (Unit {0})
reserve_quota (pos zero) tenant_id now s = (ok tt, s)
reserve_quota (pos (suc n)) tenant_id now s =
    if is_some (find_where (fits tenant_id (suc n)) s.quotas)
    then (
      ok tt,
      record s { quotas = update_where (fits tenant_id (suc n)) (add_bytes (suc n) now) s.quotas },
    )
    else (err storage_quota_exceeded, s)
reserve_quota (negsuc n) tenant_id now s = (
  ok tt,
  record s { quotas = update_where (is_quota tenant_id) (release_bytes (suc n) now) s.quotas },
)

-- `withTransaction`, for a client with transactions, as those of packages/db/src/client.ts: an error
-- undoes what the callback wrote.
abbrev pub roll_back :
    {A : Type 0}
    → StorageStore
    → Result StorageError A × StorageStore
    → Result StorageError A × StorageStore
roll_back s (ok a, t) = (ok a, t)
roll_back s (err e, t) = (err e, s)

abbrev pub with_transaction : {A : Type 0} → Call A → Call A
with_transaction callback s = roll_back s (callback s)

-- `variants.reduce((total, variant) => total + variant.byteSize, 0)`
unfoldable pub total_bytes : List StorageFileVariant → ℕ
total_bytes [] = 0
total_bytes (variant ∷ variants) = variant.byte_size + total_bytes variants

abbrev pub is_available_file : String → StorageFile → Bool
is_available_file file_id file = is_file file_id file && is_available file.status

abbrev pub set_deleted : ℕ → StorageFile → StorageFile
set_deleted now file = record file { status = deleted; deleted_at = some now; updated_at = now }

-- `UPDATE storage_files … RETURNING id`, and its first row.
unfoldable pub update_file :
    (StorageFile → Bool) → (StorageFile → StorageFile) → Call (Option StorageFile)
update_file p f s = (ok (find_where p s.files), record s { files = update_where p f s.files })

unfoldable pub insert_usage : UsageRecord → Call (Unit {0})
insert_usage row = modify (λ s. record s { usage_records = s.usage_records ++ row ∷ [] })

abbrev pub usage_row : String → String → ℤ → String → ℕ → UsageRecord
usage_row tenant_id file_id byte_delta reason now = record {
  tenant_id = tenant_id;
  file_id = some file_id;
  byte_delta = byte_delta;
  reason = reason;
  created_at = now;
}

-- `if (fileRows[0]) { … }`, after an UPDATE: what was reserved for the file goes back.
unfoldable pub give_back : String → String → ℕ → String → ℕ → Option StorageFile → Call (Unit {0})
unfolding reserve_quota insert_usage
give_back tenant_id file_id bytes reason now none = pure tt
give_back tenant_id file_id bytes reason now (some file) = do
  reserve_quota (negate bytes) tenant_id now
  insert_usage (usage_row tenant_id file_id (negate bytes) reason now)

-- The transaction of `deleteFile`.
unfoldable pub delete_rows : StorageFile → ℕ → StoragePrincipal → ℕ → Call (Unit {0})
unfolding update_file reserve_quota insert_usage audit
delete_rows file bytes principal now = do
  updated ← update_file (is_available_file file.id) (set_deleted now)
  require_some updated file_not_available
  reserve_quota (negate bytes) file.tenant_id now
  insert_usage (record {
    tenant_id = file.tenant_id;
    file_id = some file.id;
    byte_delta = negate bytes;
    reason = "delete";
    created_at = now;
  })
  audit (file_event file principal "storage.file.deleted" now)

-- Less the deletion of the objects, which the storage adapter does afterwards and whose outcome
-- the source ignores.
unfoldable pub delete_file : String → StoragePrincipal → ℕ → Call (Unit {0})
unfolding total_bytes delete_rows load_variants
delete_file file_id principal now = do
  s ← get
  file ← require_some (load_file file_id s) file_not_found
  require (can_write_file file principal || has_active_grant s file write principal now) forbidden
  require (is_available file.status) file_not_available
  with_transaction
      (delete_rows file (file.byte_size + total_bytes (load_variants file.id s)) principal now)

pub record Usage : Type 0 where
  pub file_count : ℕ
  pub storage_bytes_limit : ℕ
  pub storage_bytes_used : ℕ

-- `toNumber(quota?.…)` is 0 where the organization has no quota.
abbrev pub usage_of : ℕ → Option QuotaRow → Usage
usage_of file_count none = record {
  file_count = file_count;
  storage_bytes_limit = 0;
  storage_bytes_used = 0;
}
usage_of file_count (some row) = record {
  file_count = file_count;
  storage_bytes_limit = row.storage_bytes_limit;
  storage_bytes_used = row.storage_bytes_used;
}

unfoldable pub get_usage : String → StorageStore → Usage
get_usage tenant_id s =
    usage_of (count_where (λ file. file.tenant_id == tenant_id && is_available file.status) s.files)
      (find_where (is_quota tenant_id) s.quotas)
