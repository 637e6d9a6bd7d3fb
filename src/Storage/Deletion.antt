-- ===== src/Storage/Deletion.antt =====
-- What `deleteFile` leaves behind.
use nextjs_saas_boilerplate.Common.{
  ℕ, zero, suc, ◌+◌, ◌≡◌, refl, sym, String, Bool, true, ◌||◌, List, [], ◌∷◌, some, ◌==◌, ok, err,
  find_where, update_where, find_where-hit, if◌then◌else◌, ◌++◌, arith, Bool-cases, inl, inr,
  eq_iff, subst,
}
use nextjs_saas_boilerplate.Common.Int.{negate}
use nextjs_saas_boilerplate.Storage.Store.{
  StorageFile, StoragePrincipal, StorageStore, forbidden, file_not_available, is_file, load_file,
  load_variants, is_available, audit, QuotaRow, write,
}
use nextjs_saas_boilerplate.Storage.Access.{can_write_file, has_active_grant, file_event}
use nextjs_saas_boilerplate.Storage.Quota.{
  is_available_file, set_deleted, reserve_quota, update_file, is_quota, release_bytes, total_bytes,
  insert_usage, delete_rows, delete_file,
}

-- The quotas after a release.
abbrev pub released : ℕ → String → ℕ → List QuotaRow → List QuotaRow
released zero tenant_id now quotas = quotas
released (suc n) tenant_id now quotas =
    update_where (is_quota tenant_id) (release_bytes (suc n) now) quotas

pub reserve_quota-negate :
    (n : ℕ) (tenant_id : String) (now : ℕ) (s : StorageStore)
    → reserve_quota (negate n) tenant_id now s
      ≡ (ok tt, record s { quotas = released n tenant_id now s.quotas })
unfolding reserve_quota
reserve_quota-negate zero tenant_id now s = refl
reserve_quota-negate (suc n) tenant_id now s = refl

-- The bytes that a file and its variants take.
abbrev pub file_bytes : StorageFile → StorageStore → ℕ
file_bytes file s = file.byte_size + total_bytes (load_variants file.id s)

-- The store after a deletion.
abbrev pub deleted_store : StorageFile → StoragePrincipal → ℕ → StorageStore → StorageStore
deleted_store file principal now s = record s {
  files = update_where (is_available_file file.id) (set_deleted now) s.files;
  quotas = released (file_bytes file s) file.tenant_id now s.quotas;
  usage_records =
      s.usage_records
      ++ record {
        tenant_id = file.tenant_id;
        file_id = some file.id;
        byte_delta = negate (file_bytes file s);
        reason = "delete";
        created_at = now;
      }
        ∷ [];
  audit_events = s.audit_events ++ file_event file principal "storage.file.deleted" now ∷ [];
}

pub found-available :
    (file_id : String) (files : List StorageFile) {file : StorageFile}
    → find_where (is_file file_id) files ≡ some file
    → is_available file.status ≡ true
    → find_where (is_available_file file_id) files ≡ some file
unfolding find_where
found-available file_id [] e h = cc
found-available file_id (r ∷ files) {file} e h = elim (Bool-cases (r.id == file_id)) [
  | inl hit ↦
      let same : r ≡ file = ground arith in
      rw (hit, subst (λ f. is_available f.status ≡ true) (sym same) h, same)
  | inr miss ↦ rw miss (found-available file_id files (rw miss at e) h)
]

pub deleted-found :
    (file_id : String) (now : ℕ) (files : List StorageFile) {file : StorageFile}
    → find_where (is_file file_id) files ≡ some file
    → is_available file.status ≡ true
    → find_where
        (is_file file_id)
        (update_where (is_available_file file_id) (set_deleted now) files)
      ≡ some (set_deleted now file)
unfolding find_where update_where
deleted-found file_id now [] e h = cc
deleted-found file_id now (r ∷ files) {file} e h = elim (Bool-cases (r.id == file_id)) [
  | inl hit ↦
      let same : r ≡ file = ground arith in
      rw (hit, subst (λ f. is_available f.status ≡ true) (sym same) h, hit, same)
  | inr miss ↦ rw (miss, miss) (deleted-found file_id now files (rw miss at e) h)
]

pub found-id :
    (file_id : String) (s : StorageStore) {file : StorageFile}
    → load_file file_id s ≡ some file
    → file.id ≡ file_id
unfolding load_file
found-id file_id s e = (eq_iff _ _).0 (find_where-hit (is_file file_id) s.files e)

pub load_file-found :
    (file_id : String) (s : StorageStore) {file : StorageFile}
    → load_file file_id s ≡ some file
    → find_where (is_file file_id) s.files ≡ some file
unfolding load_file
load_file-found file_id s e = e

delete_rows-some :
    (file : StorageFile) (bytes : ℕ) (principal : StoragePrincipal) (now : ℕ) (s : StorageStore)
    → find_where (is_available_file file.id) s.files ≡ some file
    → bytes ≡ file_bytes file s
    → delete_rows file bytes principal now s ≡ (ok tt, deleted_store file principal now s)
unfolding delete_rows update_file insert_usage audit
delete_rows-some file bytes principal now s e same = rw (
  same,
  e,
  reserve_quota-negate (file_bytes file s) file.tenant_id now
      (record s { files = update_where (is_available_file file.id) (set_deleted now) s.files }),
)

-- Whether `deleteFile` lets a principal delete.
abbrev pub may_delete : StorageFile → StoragePrincipal → ℕ → StorageStore → Bool
may_delete file principal now s =
    can_write_file file principal || has_active_grant s file write principal now

-- On each branch after the file is found: who may not write is refused, a file that is not
-- available is refused, and otherwise the file is marked deleted, the bytes of the file and its
-- variants go back to its organization, and one usage record and one audit event are added.
pub delete_file_lem :
    (file_id : String) (principal : StoragePrincipal) (now : ℕ) (s : StorageStore)
    (file : StorageFile)
    → load_file file_id s ≡ some file
    → delete_file file_id principal now s ≡ (
        if may_delete file principal now s
        then (if is_available file.status
            then (ok tt, deleted_store file principal now s)
            else (err file_not_available, s))
        else (err forbidden, s))
unfolding delete_file
delete_file_lem file_id principal now s file e =
    elim (Bool-cases (may_delete file principal now s)) [
      | inr barred ↦ rw (e, barred)
      | inl may ↦ elim (Bool-cases (is_available file.status)) [
        | inr gone ↦ rw (e, may, gone)
        | inl here ↦ rw (
          e,
          may,
          here,
          delete_rows-some file (file_bytes file s) principal now s
              (subst (λ i. find_where (is_available_file i) s.files ≡ some file)
                (sym (found-id file_id s e))
                (found-available file_id s.files (load_file-found file_id s e) here))
              refl,
        )
      ]
    ]
