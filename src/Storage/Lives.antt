-- ===== src/Storage/Lives.antt =====
-- The calls of packages/storage/src/service.ts, as steps in the lives of the files.
use nextjs_saas_boilerplate.Common.{
  ℕ, ◌+◌, ◌≡◌, ◌∙◌, refl, ap, eq_iff, String, Bool, true, List, some, any, find_where, update_where,
  Bool-cases, Option-cases, inl, inr, and-eq_true, Result, ok, err,
}
use nextjs_saas_boilerplate.Common.Int.{pos}
use nextjs_saas_boilerplate.Common.Actions.{◌>>=◌, continue}
use nextjs_saas_boilerplate.Storage.Store.{
  StorageFile, StorageFileVariant, IntentRow, StorageStore, StorageError, StorageFileStatus,
  available, deleted, abandoned, StoragePrincipal, is_pending, is_available, load_file, audit,
}
use nextjs_saas_boilerplate.Storage.Quota.{
  is_available_file, set_deleted, update_file, give_back, insert_usage, with_transaction, roll_back,
  delete_file, total_bytes,
}
use nextjs_saas_boilerplate.Storage.Deletion.{found-id, may_delete, delete_file_lem}
use nextjs_saas_boilerplate.Storage.Erasure.{delete_file-missing}
use nextjs_saas_boilerplate.Storage.Variants.{persist_variants}
use nextjs_saas_boilerplate.Storage.Uploads.{
  clashes, insert_file, has_token, insert_intent, reserve_rows, upload_rows, Service,
}
use nextjs_saas_boilerplate.Storage.Verification.{Verified}
use nextjs_saas_boilerplate.Storage.Completion.{
  is_pending_file, is_taken, set_uploaded, set_abandoned, set_expired, is_permanent,
  completed_delta, complete_rows, release_rows, after_error, update_intents,
}
use nextjs_saas_boilerplate.Storage.Counting.{reserve_quota-cases}
use nextjs_saas_boilerplate.Storage.Sweeps.{give_back-files, set_abandoned-IsSettling}
use nextjs_saas_boilerplate.Storage.Removal.{set_deleted-IsSettling}
use nextjs_saas_boilerplate.Storage.Completing.{set_uploaded-IsSettling}
use nextjs_saas_boilerplate.Storage.Lifecycle.{
  Change, Places, Completes, Erases, Follows, Follows-refl, Follows-update_where, Follows-append,
}

pub pending-eq :
    (status : StorageFileStatus) → is_pending status ≡ true → status ≡ StorageFileStatus.pending
pending-eq StorageFileStatus.pending h = refl
pending-eq available h = cc
pending-eq deleted h = cc
pending-eq abandoned h = cc

available-eq : (status : StorageFileStatus) → is_available status ≡ true → status ≡ available
available-eq StorageFileStatus.pending h = cc
available-eq available h = refl
available-eq deleted h = cc
available-eq abandoned h = cc

-- The file of an update that waits for its bytes.
pending_file-eq :
    (file_id : String) (r : StorageFile)
    → is_pending_file file_id r ≡ true
    → (r.id ≡ file_id) × (some r.status ≡ some StorageFileStatus.pending)
pending_file-eq file_id r h = (
  (eq_iff _ _).0 (and-eq_true _ _ h).0,
  ap (λ (x : StorageFileStatus). some x) (pending-eq r.status (and-eq_true _ _ h).1),
)

-- Abandoning pending files.
pub Follows-abandon :
    (Step : Change) (p : StorageFile → Bool)
    → ((r : StorageFile) → p r ≡ true → Step r.id (some r.status) (some abandoned))
    → (tenant_id file_id : String) (bytes : ℕ) (reason : String) (now : ℕ) (s : StorageStore)
    → Follows Step s.files
        ((update_file p (set_abandoned now) >>= give_back tenant_id file_id bytes reason now)
          s).1.files
unfolding update_file
Follows-abandon Step p steps tenant_id file_id bytes reason now s =
    rw
      (give_back-files tenant_id file_id bytes reason now (find_where p s.files)
        (record s { files = update_where p (set_abandoned now) s.files }))
      (Follows-update_where Step p (set_abandoned now) (set_abandoned-IsSettling now) steps s.files)

pub Follows-roll_back :
    (Step : Change) {A : Type 0} (s : StorageStore) (r : Result StorageError A × StorageStore)
    → Follows Step s.files r.1.files
    → Follows Step s.files (roll_back s r).1.files
Follows-roll_back Step s (ok a, t) f = f
Follows-roll_back Step s (err e, t) f = Follows-refl Step s.files

pub Follows-complete_rows :
    (intent : IntentRow) (verified : Verified) (now : ℕ) (s : StorageStore)
    → Follows
        (Completes intent.file_id)
        s.files
        (with_transaction (complete_rows intent verified now) s).1.files
unfolding complete_rows update_file update_intents persist_variants insert_usage audit
Follows-complete_rows intent verified now s =
    let p = is_pending_file intent.file_id in
    let g = set_uploaded verified now in
    elim (Option-cases (find_where p s.files)) [
      | inl missing ↦ rw missing (Follows-refl (Completes intent.file_id) s.files)
      | inr (file, found) ↦
          elim (reserve_quota-cases (completed_delta verified intent) intent.tenant_id now
            (record s { files = update_where p g s.files })) [
              | inl full ↦ rw (found, full) (Follows-refl (Completes intent.file_id) s.files)
              | inr (quotas, room) ↦
                  rw (found, room)
                    (Follows-update_where (Completes intent.file_id) p g
                      (set_uploaded-IsSettling verified now)
                      (λ r hit.
                        let (same, waits) = pending_file-eq intent.file_id r hit in
                        (same, waits, inl refl))
                      s.files)
            ]
    ]

pub Follows-after_error :
    (intent : IntentRow) (now later : ℕ) (e : StorageError) (s : StorageStore)
    → Follows (Completes intent.file_id) s.files (after_error intent now later e s).1.files
unfolding after_error release_rows update_intents update_file
Follows-after_error intent now later e s = elim (Bool-cases (is_permanent e)) [
  | inr passing ↦ rw passing (Follows-refl (Completes intent.file_id) s.files)
  | inl permanent ↦ rw permanent (
      Follows-roll_back (Completes intent.file_id) s (release_rows intent now s) (
        after _ (
          Follows-abandon (Completes intent.file_id) (is_pending_file intent.file_id)
            (λ r hit.
              let (same, waits) = pending_file-eq intent.file_id r hit in (same, waits, inr refl))
            intent.tenant_id intent.file_id intent.byte_size "upload_intent_released" now s)))
]
  where
    after :
        (r : Result StorageError (Unit {0}) × StorageStore)
        → Follows (Completes intent.file_id) s.files r.1.files
        → Follows
            (Completes intent.file_id)
            s.files
            (continue
              (λ done. update_intents (is_taken intent.file_id) (set_expired now))
              r).1.files
    after (ok done, t) f = f
    after (err e, t) f = f

module _ (service : Service) where
  pub Follows-reserve_rows :
      (file : StorageFile) (intent : IntentRow) (now : ℕ) (s : StorageStore)
      → file.status ≡ StorageFileStatus.pending
      → Follows
          (Places StorageFileStatus.pending file.id)
          s.files
          (with_transaction (reserve_rows service file intent now) s).1.files
  unfolding reserve_rows insert_file insert_intent insert_usage audit
  Follows-reserve_rows file intent now s waits =
      elim (reserve_quota-cases (pos file.byte_size) file.tenant_id now s) [
        | inl full ↦ rw full (Follows-refl (Places StorageFileStatus.pending file.id) s.files)
        | inr (quotas, room) ↦ elim (Bool-cases (any (clashes file) s.files)) [
          | inl clash ↦
              rw (room, clash) (Follows-refl (Places StorageFileStatus.pending file.id) s.files)
          | inr free ↦ elim (Bool-cases (any (has_token intent) s.intents)) [
            | inl taken ↦
                rw (room, free, taken)
                  (Follows-refl (Places StorageFileStatus.pending file.id) s.files)
            | inr new ↦
                rw (room, free, new)
                  (Follows-append (Places StorageFileStatus.pending file.id) s.files file
                    (refl, refl, ap (λ (x : StorageFileStatus). some x) waits))
          ]
        ]
      ]

  pub Follows-upload_rows :
      (file : StorageFile) (variants : List StorageFileVariant) (now : ℕ) (s : StorageStore)
      → file.status ≡ available
      → Follows
          (Places available file.id)
          s.files
          (with_transaction (upload_rows service file variants now) s).1.files
  unfolding upload_rows insert_file persist_variants insert_usage audit
  Follows-upload_rows file variants now s here =
      elim (reserve_quota-cases (pos (file.byte_size + total_bytes variants)) file.tenant_id now
        s) [
          | inl full ↦ rw full (Follows-refl (Places available file.id) s.files)
          | inr (quotas, room) ↦ elim (Bool-cases (any (clashes file) s.files)) [
            | inl clash ↦ rw (room, clash) (Follows-refl (Places available file.id) s.files)
            | inr free ↦
                rw (room, free)
                  (Follows-append (Places available file.id) s.files file
                    (refl, refl, ap (λ (x : StorageFileStatus). some x) here))
          ]
        ]

pub Follows-delete_file :
    (file_id : String) (principal : StoragePrincipal) (now : ℕ) (s : StorageStore)
    → Follows (Erases file_id) s.files (delete_file file_id principal now s).1.files
Follows-delete_file file_id principal now s = elim (Option-cases (load_file file_id s)) [
  | inl missing ↦
      rw (delete_file-missing file_id principal now s missing)
        (Follows-refl (Erases file_id) s.files)
  | inr (file, found) ↦
      let k = delete_file_lem file_id principal now s file found in
      elim (Bool-cases (may_delete file principal now s)) [
        | inr barred ↦ rw (k, barred) (Follows-refl (Erases file_id) s.files)
        | inl may ↦ elim (Bool-cases (is_available file.status)) [
          | inr gone ↦ rw (k, may, gone) (Follows-refl (Erases file_id) s.files)
          | inl here ↦
              rw (k, may, here)
                (Follows-update_where (Erases file_id) (is_available_file file.id) (set_deleted now)
                  (set_deleted-IsSettling now)
                  (λ r hit. (
                    (eq_iff _ _).0 (and-eq_true _ _ hit).0 ∙ found-id file_id s found,
                    ap (λ (x : StorageFileStatus). some x)
                        (available-eq r.status (and-eq_true _ _ hit).1),
                    refl,
                  ))
                  s.files)
        ]
      ]
]
