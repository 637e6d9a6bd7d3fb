-- ===== src/Storage/History.antt =====
-- Sequences of calls of packages/storage/src/service.ts on the files of its tables.
use nextjs_saas_boilerplate.Common.{
  ℕ, ◌≡◌, String, Bool, List, [], ◌∷◌, some, find_where, find_where-All, eq_iff, subst, ◌||◌,
  Bool-cases, Option-cases, inl, inr,
}
use nextjs_saas_boilerplate.Storage.Store.{
  StoragePrincipal, StorageStore, QuotaRow, read, write, load_file, audit,
}
use nextjs_saas_boilerplate.Storage.Access.{
  GrantInput, can_read_file, can_write_file, has_active_grant, get_file, insert_grant,
  grant_file_access,
}
use nextjs_saas_boilerplate.Storage.Validation.{Blob}
use nextjs_saas_boilerplate.Storage.Quota.{is_quota, delete_file, get_usage}
use nextjs_saas_boilerplate.Storage.Uploads.{
  Service, UploadInput, create_upload_intent, upload_file,
}
use nextjs_saas_boilerplate.Storage.Verification.{CompleteInput, Stored}
use nextjs_saas_boilerplate.Storage.Completion.{complete_upload_intent}
use nextjs_saas_boilerplate.Storage.Cleanup.{
  cleanup_expired_upload_intents, cleanup_orphaned_files, cleanup_deleted_files,
}
use nextjs_saas_boilerplate.Storage.Charges.{charged}
use nextjs_saas_boilerplate.Storage.Counting.{IsCounted}
use nextjs_saas_boilerplate.Storage.Balance.{IsBalanced, bytes_in}
use nextjs_saas_boilerplate.Storage.Reserving.{
  create_upload_intent-IsBalanced, upload_file-IsBalanced,
}
use nextjs_saas_boilerplate.Storage.Finishing.{complete_upload_intent-IsBalanced}
use nextjs_saas_boilerplate.Storage.Sweeps.{
  cleanup_expired_upload_intents-IsBalanced, cleanup_orphaned_files-IsBalanced,
}
use nextjs_saas_boilerplate.Storage.Removal.{
  delete_file-IsBalanced, cleanup_deleted_files-IsBalanced,
}

-- A call, with what the caller, the clock and the adapter give it.
pub data StorageCall : Type 0 where
  create_intent : UploadInput → (file_id token : String) → (now : ℕ) → StorageCall
  upload : UploadInput → Blob → (file_id : String) → (now : ℕ) → StorageCall
  complete : CompleteInput → Stored → (now later : ℕ) → StorageCall
  delete : (file_id : String) → StoragePrincipal → (now : ℕ) → StorageCall
  expire_intents : (deletes : String → Bool) → (now : ℕ) → StorageCall
  release_orphans : (deletes : String → Bool) → (older_than now : ℕ) → StorageCall
  discard_files : (deletes : String → Bool) → (older_than : ℕ) → StorageCall
  open_file : (file_id : String) → StoragePrincipal → (now : ℕ) → StorageCall
  grant_access : GrantInput → StoragePrincipal → (now : ℕ) → StorageCall

get_file-IsBalanced :
    (file_id : String) (principal : StoragePrincipal) (now : ℕ) (s : StorageStore)
    → IsBalanced s
    → IsBalanced (get_file file_id principal now s).1
unfolding get_file audit
get_file-IsBalanced file_id principal now s b = elim (Option-cases (load_file file_id s)) [
  | inl missing ↦ rw missing b
  | inr (file, found) ↦
      elim (Bool-cases
        (can_read_file file principal || has_active_grant s file read principal now)) [
          | inl may ↦ rw (found, may) b
          | inr barred ↦ rw (found, barred) b
        ]
]

grant_file_access-IsBalanced :
    (input : GrantInput) (principal : StoragePrincipal) (now : ℕ) (s : StorageStore)
    → IsBalanced s
    → IsBalanced (grant_file_access input principal now s).1
unfolding grant_file_access insert_grant audit
grant_file_access-IsBalanced input principal now s b =
    elim (Option-cases (load_file input.file_id s)) [
      | inl missing ↦ rw missing b
      | inr (file, found) ↦
          elim (Bool-cases
            (can_write_file file principal || has_active_grant s file write principal now)) [
              | inl may ↦ rw (found, may) b
              | inr barred ↦ rw (found, barred) b
            ]
    ]

module _ (service : Service) where
  unfoldable pub exec : StorageCall → StorageStore → StorageStore
  exec (create_intent input file_id token now) s =
      (create_upload_intent service input file_id token now s).1
  exec (upload input blob file_id now) s = (upload_file service input blob file_id now s).1
  exec (complete input stored now later) s =
      (complete_upload_intent service input stored now later s).1
  exec (delete file_id principal now) s = (delete_file file_id principal now s).1
  exec (expire_intents deletes now) s =
      (cleanup_expired_upload_intents service.provider_id deletes now s).1
  exec (release_orphans deletes older_than now) s =
      (cleanup_orphaned_files service.provider_id deletes older_than now s).1
  exec (discard_files deletes older_than) s =
      (cleanup_deleted_files service.provider_id deletes older_than s).1
  exec (open_file file_id principal now) s = (get_file file_id principal now s).1
  exec (grant_access input principal now) s = (grant_file_access input principal now s).1

  unfoldable pub exec_all : List StorageCall → StorageStore → StorageStore
  unfolding exec
  exec_all [] s = s
  exec_all (call ∷ calls) s = exec_all calls (exec call s)

  pub exec-IsBalanced :
      (call : StorageCall) (s : StorageStore) → IsBalanced s → IsBalanced (exec call s)
  unfolding exec
  exec-IsBalanced (create_intent input file_id token now) s b =
      create_upload_intent-IsBalanced service input file_id token now s b
  exec-IsBalanced (upload input blob file_id now) s b =
      upload_file-IsBalanced service input blob file_id now s b
  exec-IsBalanced (complete input stored now later) s b =
      complete_upload_intent-IsBalanced service input stored now later s b
  exec-IsBalanced (delete file_id principal now) s b =
      delete_file-IsBalanced file_id principal now s b
  exec-IsBalanced (expire_intents deletes now) s b =
      cleanup_expired_upload_intents-IsBalanced service.provider_id deletes now s b
  exec-IsBalanced (release_orphans deletes older_than now) s b =
      cleanup_orphaned_files-IsBalanced service.provider_id deletes older_than now s b
  exec-IsBalanced (discard_files deletes older_than) s b =
      cleanup_deleted_files-IsBalanced service.provider_id deletes older_than s b
  exec-IsBalanced (open_file file_id principal now) s b =
      get_file-IsBalanced file_id principal now s b
  exec-IsBalanced (grant_access input principal now) s b =
      grant_file_access-IsBalanced input principal now s b

  -- Whatever calls are made, in whatever order and whichever of them throw, from tables in which each
  -- organization's quota says that exactly the bytes of its pending and available files and of their
  -- variants are used, this is so afterwards, with the keys of files and quotas still unique, each
  -- intent still of the tenant and bytes of its pending file, and no variants of a pending file.
  pub exec_all-IsBalanced :
      (calls : List StorageCall) (s : StorageStore) → IsBalanced s → IsBalanced (exec_all calls s)
  unfolding exec_all
  exec_all-IsBalanced [] s b = b
  exec_all-IsBalanced (call ∷ calls) s b =
      exec_all-IsBalanced calls (exec call s) (exec-IsBalanced call s b)

  -- The usage that is reported of an organization with a quota, after any sequence of calls from
  -- balanced tables, is the bytes of its pending and available files and of their variants.
  pub get_usage-exec_all :
      (calls : List StorageCall) (s : StorageStore) (tenant_id : String) (row : QuotaRow)
      → IsBalanced s
      → find_where (is_quota tenant_id) (exec_all calls s).quotas ≡ some row
      → (get_usage tenant_id (exec_all calls s)).storage_bytes_used
        ≡ charged tenant_id (exec_all calls s).variants (exec_all calls s).files
  unfolding get_usage
  get_usage-exec_all calls s tenant_id row b e =
      let t = exec_all calls s in
      let (counted, hit) =
        find_where-All (IsCounted (bytes_in t.files t.variants)) (is_quota tenant_id) t.quotas
          (exec_all-IsBalanced calls s b).counted e in
      rw e (
        subst (λ o. row.storage_bytes_used ≡ charged o t.variants t.files) ((eq_iff _ _).0 hit)
          counted)
