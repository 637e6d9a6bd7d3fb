-- ===== src/Storage/Erasure.antt =====
-- What follows a deletion: a second one.
use nextjs_saas_boilerplate.Common.{
  ℕ, ◌≡◌, ◌⊎◌, refl, sym, ap, ◌∙◌, String, true, false, none, some, Result, ok, err, find_where,
  update_where, Bool-cases, Option-cases, inl, inr, subst,
}
use nextjs_saas_boilerplate.Storage.Store.{
  StorageFile, StoragePrincipal, StorageStore, StorageError, file_not_found, forbidden,
  file_not_available, is_file, load_file, is_available,
}
use nextjs_saas_boilerplate.Storage.Quota.{is_available_file, set_deleted, delete_file}
use nextjs_saas_boilerplate.Storage.Deletion.{
  deleted_store, deleted-found, found-id, may_delete, delete_file_lem,
}

-- The file that a deletion leaves is found, and is not available.
load_file-deleted :
    (file_id : String) (principal : StoragePrincipal) (now : ℕ) (s : StorageStore)
    (file : StorageFile)
    → load_file file_id s ≡ some file
    → is_available file.status ≡ true
    → load_file file_id (deleted_store file principal now s) ≡ some (set_deleted now file)
unfolding load_file
load_file-deleted file_id principal now s file e here =
    subst
      (λ i.
        find_where (is_file file_id) (update_where (is_available_file i) (set_deleted now) s.files)
        ≡ some (set_deleted now file))
      (sym (found-id file_id s e)) (deleted-found file_id now s.files e here)

-- A call that returned deleted an available file.
pub delete_file-missing :
    (file_id : String) (principal : StoragePrincipal) (now : ℕ) (s : StorageStore)
    → load_file file_id s ≡ none
    → delete_file file_id principal now s ≡ (err file_not_found, s)
unfolding delete_file
delete_file-missing file_id principal now s e = rw e

delete_file-ok :
    (file_id : String) (principal : StoragePrincipal) (now : ℕ) (s t : StorageStore)
    → delete_file file_id principal now s ≡ (ok tt, t)
    → (file : StorageFile) × (load_file file_id s ≡ some file)
      × (is_available file.status ≡ true)
      × (t ≡ deleted_store file principal now s)
delete_file-ok file_id principal now s t h = elim (Option-cases (load_file file_id s)) [
  | inl e ↦ cc (sym (delete_file-missing file_id principal now s e) ∙ h)
  | inr (file, e) ↦
      let k = sym (delete_file_lem file_id principal now s file e) ∙ h in
      elim (Bool-cases (may_delete file principal now s)) [
        | inr barred ↦ cc (rw barred at k)
        | inl may ↦ elim (Bool-cases (is_available file.status)) [
          | inr gone ↦ cc (rw (may, gone) at k)
          | inl here ↦ (
            file,
            e,
            here,
            sym (
                ap (λ (x : Result StorageError (Unit {0}) × StorageStore). x.1)
                  (rw (may, here) at k)),
          )
        ]
      ]
]

delete_file-gone :
    (file_id : String) (principal : StoragePrincipal) (now : ℕ) (s : StorageStore)
    (file : StorageFile)
    → load_file file_id s ≡ some file
    → is_available file.status ≡ false
    → (delete_file file_id principal now s ≡ (err forbidden, s))
      ⊎ (delete_file file_id principal now s ≡ (err file_not_available, s))
delete_file-gone file_id principal now s file e gone =
    elim (Bool-cases (may_delete file principal now s)) [
      | inl may ↦ inr (delete_file_lem file_id principal now s file e ∙ rw (may, gone))
      | inr barred ↦ inl (delete_file_lem file_id principal now s file e ∙ rw barred)
    ]

-- A file is deleted once: after a call that returned, whoever deletes it again and whenever, the
-- call throws and changes nothing, so that the bytes are given back once.
pub delete_file_once :
    (file_id : String) (principal other : StoragePrincipal) (now later : ℕ) (s t : StorageStore)
    → delete_file file_id principal now s ≡ (ok tt, t)
    → (delete_file file_id other later t ≡ (err forbidden, t))
      ⊎ (delete_file file_id other later t ≡ (err file_not_available, t))
delete_file_once file_id principal other now later s t h =
    let (file, e, here, same) = delete_file-ok file_id principal now s t h in
    rw same (
      delete_file-gone file_id other later (deleted_store file principal now s)
        (set_deleted now file) (load_file-deleted file_id principal now s file e here) refl)
