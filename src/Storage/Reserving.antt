-- ===== src/Storage/Reserving.antt =====
-- `createUploadIntent` and `uploadFile` keep the quotas balanced, whichever of their steps throws.
use nextjs_saas_boilerplate.Common.{
  ℕ, ◌≡◌, refl, String, true, some, none, or_else, Bool-cases, Option-cases, inl, inr, eq_refl,
  Result, ok, err, arith,
}
use nextjs_saas_boilerplate.Common.Actions.{◌>>=◌, continue-get}
use nextjs_saas_boilerplate.Storage.Store.{
  StorageFile, StorageStore, StorageError, Call, available, StorageFileStatus, load_file,
}
use nextjs_saas_boilerplate.Storage.Quota.{with_transaction}
use nextjs_saas_boilerplate.Storage.Variants.{create_managed_variants}
use nextjs_saas_boilerplate.Storage.Validation.{Blob, validate_storage_object}
use nextjs_saas_boilerplate.Storage.Uploads.{
  Service, lift, UploadInput, new_file, new_intent, original_of, reserve_rows, upload_rows,
  create_upload_intent, upload_file,
}
use nextjs_saas_boilerplate.Storage.Balance.{IsBalanced, row_agrees}
use nextjs_saas_boilerplate.Storage.Renditions.{create_managed_variants-AreVariants}
use nextjs_saas_boilerplate.Storage.Placing.{reserve_rows-IsBalanced, upload_rows-IsBalanced}

lift-IsBalanced :
    {A B : Type 0} (v : Result StorageError A) (f : A → Call B) (s : StorageStore)
    → IsBalanced s
    → ((a : A) → IsBalanced (f a s).1)
    → IsBalanced ((lift v >>= f) s).1
lift-IsBalanced (ok a) f s b h = h a
lift-IsBalanced (err e) f s b h = b

module _ (service : Service) where
  -- A reservation charges an organization for the bytes that were announced, or nothing where the
  -- call throws.
  pub create_upload_intent-IsBalanced :
      (input : UploadInput) (file_id token : String) (now : ℕ) (s : StorageStore)
      → IsBalanced s
      → IsBalanced (create_upload_intent service input file_id token now s).1
  unfolding create_upload_intent
  create_upload_intent-IsBalanced input file_id token now s b =
      lift-IsBalanced
        (validate_storage_object service.lower service.extname service.rules (record {
          byte_size = input.byte_size;
          checksum_sha256 = input.checksum_sha256;
          content_type = input.content_type;
          uploaded = none;
          file_name = input.file_name;
        }))
        _ s b
        (λ normalized.
          let file =
            new_file service input StorageFileStatus.pending normalized input.checksum_sha256
              file_id now in
          let intent = new_intent service input file token now in
          let agreed : row_agrees intent.tenant_id intent.byte_size (some file) ≡ true =
            ground (arith, eq_refl input.tenant_id) in
          rw
            (continue-get (load_file file_id)
              (with_transaction (reserve_rows service file intent now) s))
            (reserve_rows-IsBalanced service file intent now s refl refl agreed b))

  -- An upload charges an organization for the bytes of the file and of its variants, or nothing where
  -- the call throws.
  pub upload_file-IsBalanced :
      (input : UploadInput) (blob : Blob) (file_id : String) (now : ℕ) (s : StorageStore)
      → IsBalanced s
      → IsBalanced (upload_file service input blob file_id now s).1
  unfolding upload_file
  upload_file-IsBalanced input blob file_id now s b =
      lift-IsBalanced
        (validate_storage_object service.lower service.extname service.rules (record {
          byte_size = blob.byte_length;
          checksum_sha256 = some (or_else input.checksum_sha256 blob.sha256);
          content_type = input.content_type;
          uploaded = some blob;
          file_name = input.file_name;
        }))
        _ s b
        (λ normalized.
          let draft =
            new_file service (record input { byte_size = blob.byte_length }) available normalized
              (some (or_else input.checksum_sha256 blob.sha256)) file_id now in
          let file : StorageFile = record draft { uploaded_at = some now } in
          elim (Bool-cases (service.is_clean blob)) [
            | inr infected ↦ rw infected b
            | inl clean ↦
                elim (Option-cases
                  (create_managed_variants service.media (original_of draft blob))) [
                    | inl thrown ↦ rw (clean, thrown) b
                    | inr (variants, made) ↦
                        elim (Bool-cases (service.media.stores draft.object_key)) [
                          | inr lost ↦ rw (clean, made, lost) b
                          | inl kept ↦
                              rw
                                (
                                  clean,
                                  made,
                                  kept,
                                  continue-get (load_file file_id)
                                      (with_transaction (upload_rows service file variants now) s),
                                )
                                (upload_rows-IsBalanced service file variants now s refl
                                  (create_managed_variants-AreVariants service.media
                                    (original_of draft blob) made)
                                  b)
                        ]
                  ]
          ])
