-- ===== src/Storage/Transitions.antt =====
-- The calls that upload, as steps in the lives of the files.
use nextjs_saas_boilerplate.Common.{
  ℕ, ◌≡◌, subst, eq_iff, find_where-hit, refl, String, some, none, or_else, find_where,
  update_where, Bool-cases, Option-cases, inl, inr, Result, ok, err,
}
use nextjs_saas_boilerplate.Common.Actions.{◌>>=◌, recover, rethrow-store, continue-get}
use nextjs_saas_boilerplate.Storage.Store.{
  StorageFile, IntentRow, StorageStore, StorageError, StorageFileStatus, available, Call, load_file,
}
use nextjs_saas_boilerplate.Storage.Quota.{with_transaction}
use nextjs_saas_boilerplate.Storage.Validation.{Blob, validate_storage_object}
use nextjs_saas_boilerplate.Storage.Variants.{create_managed_variants}
use nextjs_saas_boilerplate.Storage.Uploads.{
  Service, lift, UploadInput, new_file, new_intent, original_of, reserve_rows, upload_rows,
  create_upload_intent, upload_file,
}
use nextjs_saas_boilerplate.Storage.Verification.{CompleteInput, Stored, verify}
use nextjs_saas_boilerplate.Storage.Completion.{
  is_claimable, set_processing, after_error, finish_upload, claim_intent, complete_upload_intent,
}
use nextjs_saas_boilerplate.Storage.Once.{is_claimable-id}
use nextjs_saas_boilerplate.Storage.Lifecycle.{
  Change, Places, Completes, Completes-IsSingle, Follows, Follows-refl, Follows-trans,
}
use nextjs_saas_boilerplate.Storage.Lives.{
  Follows-complete_rows, Follows-after_error, Follows-reserve_rows, Follows-upload_rows,
}

Follows-lift :
    (Step : Change) {A B : Type 0} (v : Result StorageError A) (f : A → Call B) (s : StorageStore)
    → ((a : A) → Follows Step s.files (f a s).1.files)
    → Follows Step s.files ((lift v >>= f) s).1.files
Follows-lift Step (ok a) f s h = h a
Follows-lift Step (err e) f s h = Follows-refl Step s.files

module _ (service : Service) where
  pub Follows-create_upload_intent :
      (input : UploadInput) (file_id token : String) (now : ℕ) (s : StorageStore)
      → Follows
          (Places StorageFileStatus.pending file_id)
          s.files
          (create_upload_intent service input file_id token now s).1.files
  unfolding create_upload_intent
  Follows-create_upload_intent input file_id token now s =
      Follows-lift (Places StorageFileStatus.pending file_id)
        (validate_storage_object service.lower service.extname service.rules (record {
          byte_size = input.byte_size;
          checksum_sha256 = input.checksum_sha256;
          content_type = input.content_type;
          uploaded = none;
          file_name = input.file_name;
        }))
        _ s
        (λ normalized.
          let file =
            new_file service input StorageFileStatus.pending normalized input.checksum_sha256
              file_id now in
          let intent = new_intent service input file token now in
          rw
            (continue-get (load_file file_id)
              (with_transaction (reserve_rows service file intent now) s))
            (Follows-reserve_rows service file intent now s refl))

  pub Follows-upload_file :
      (input : UploadInput) (blob : Blob) (file_id : String) (now : ℕ) (s : StorageStore)
      → Follows
          (Places available file_id)
          s.files
          (upload_file service input blob file_id now s).1.files
  unfolding upload_file
  Follows-upload_file input blob file_id now s =
      Follows-lift (Places available file_id)
        (validate_storage_object service.lower service.extname service.rules (record {
          byte_size = blob.byte_length;
          checksum_sha256 = some (or_else input.checksum_sha256 blob.sha256);
          content_type = input.content_type;
          uploaded = some blob;
          file_name = input.file_name;
        }))
        _ s
        (λ normalized.
          let draft =
            new_file service (record input { byte_size = blob.byte_length }) available normalized
              (some (or_else input.checksum_sha256 blob.sha256)) file_id now in
          let file : StorageFile = record draft { uploaded_at = some now } in
          elim (Bool-cases (service.is_clean blob)) [
            | inr infected ↦ rw infected (Follows-refl (Places available file_id) s.files)
            | inl clean ↦
                elim (Option-cases
                  (create_managed_variants service.media (original_of draft blob))) [
                    | inl thrown ↦
                        rw (clean, thrown) (Follows-refl (Places available file_id) s.files)
                    | inr (variants, made) ↦
                        elim (Bool-cases (service.media.stores draft.object_key)) [
                          | inr lost ↦
                              rw (clean, made, lost)
                                (Follows-refl (Places available file_id) s.files)
                          | inl kept ↦
                              rw
                                (
                                  clean,
                                  made,
                                  kept,
                                  continue-get (load_file file_id)
                                      (with_transaction (upload_rows service file variants now) s),
                                )
                                (Follows-upload_rows service file variants now s refl)
                        ]
                  ]
          ])

  Follows-finish_upload :
      (input : CompleteInput) (stored : Stored) (intent : IntentRow) (now : ℕ) (s : StorageStore)
      → Follows
          (Completes intent.file_id)
          s.files
          (finish_upload service input stored intent now s).1.files
  unfolding finish_upload
  Follows-finish_upload input stored intent now s =
      Follows-lift (Completes intent.file_id)
        (verify service input stored intent (load_file intent.file_id s)) _ s
        (λ verified. Follows-complete_rows intent verified now s)

  Follows-recover :
      (intent : IntentRow) (now later : ℕ) (s : StorageStore)
      (r : Result StorageError (Unit {0}) × StorageStore)
      → Follows (Completes intent.file_id) s.files r.1.files
      → Follows
          (Completes intent.file_id)
          s.files
          (recover (after_error intent now later) r).1.files
  Follows-recover intent now later s (ok done, t) f = f
  Follows-recover intent now later s (err e, t) f =
      rw (rethrow-store e (after_error intent now later e t)) (
        Follows-trans (Completes intent.file_id) (Completes-IsSingle intent.file_id) s.files t.files
          (after_error intent now later e t).1.files f (Follows-after_error intent now later e t))

  pub Follows-complete_upload_intent :
      (input : CompleteInput) (stored : Stored) (now later : ℕ) (s : StorageStore)
      → Follows
          (Completes input.intent_id)
          s.files
          (complete_upload_intent service input stored now later s).1.files
  unfolding complete_upload_intent claim_intent
  Follows-complete_upload_intent input stored now later s =
      let p = is_claimable input.intent_id (service.hash input.token) now s.files in
      let claimed : StorageStore = record s {
        intents = update_where p (set_processing now) s.intents;
      } in
      elim (Option-cases (find_where p s.intents)) [
        | inl missing ↦ rw missing (Follows-refl (Completes input.intent_id) s.files)
        | inr (intent, e) ↦
            let same : intent.file_id ≡ input.intent_id = (eq_iff _ _).0 (
              is_claimable-id input.intent_id _ now s.files intent
                (find_where-hit p s.intents e)) in
            rw
              (
                e,
                continue-get (load_file intent.file_id) (
                    recover (after_error intent now later)
                      (finish_upload service input stored intent now claimed)),
              )
              (subst
                (λ i.
                  Follows (Completes i) s.files
                    (recover (after_error intent now later)
                      (finish_upload service input stored intent now claimed)).1.files)
                same
                (Follows-recover intent now later claimed
                  (finish_upload service input stored intent now claimed)
                  (Follows-finish_upload input stored intent now claimed)))
      ]
