-- ===== src/Storage/Verification.antt =====
-- The checks of `completeUploadIntent` of packages/storage/src/service.ts, between its claim of the
-- intent and its transaction.
use nextjs_saas_boilerplate.Common.{
  ℕ, nat_eq, String, Bool, true, List, Option, none, some, ◌==◌, Result, ok, err, guard, ◌>>=◌,
  ◌>>◌,
}
use nextjs_saas_boilerplate.Storage.Store.{
  StorageFile, StorageFileVariant, IntentRow, StorageError, file_not_found,
  upload_already_completed, content_type_mismatch, size_mismatch, checksum_mismatch,
  adapter_failure, malware_detected, is_pending,
}
use nextjs_saas_boilerplate.Storage.Validation.{Blob, validate_storage_object, present_or}
use nextjs_saas_boilerplate.Storage.Variants.{Original, create_managed_variants}
use nextjs_saas_boilerplate.Storage.Uploads.{Service}

pub record CompleteInput : Type 0 where
  pub byte_size : ℕ
  pub checksum_sha256 : Option String
  pub content_type : String
  pub uploaded : Option Blob
  pub intent_id : String
  pub token : String

-- What `headObject` answers.
pub record ObjectMetadata : Type 0 where
  pub byte_size : ℕ
  pub checksum_sha256 : Option String

-- What the adapter answers about the object of the intent; none where it throws.
pub record Stored : Type 0 where
  pub head : Option ObjectMetadata
  pub content : Option Blob

-- What the checks give.
pub record Verified : Type 0 where
  pub content_type : String
  pub blob : Blob
  pub variants : List StorageFileVariant

-- The normalized content type, the bytes, and the file's name.
pub record Checked : Type 0 where
  pub content_type : String
  pub blob : Blob
  pub file_name : String

abbrev pub original_of_intent : IntentRow → Checked → Original
original_of_intent intent checked = record {
  content_type = checked.content_type;
  blob = checked.blob;
  file_id = intent.file_id;
  file_name = checked.file_name;
  object_key = intent.object_key;
}

-- `a ?? b ?? undefined`
abbrev pub first_of : Option String → Option String → Option String
first_of none b = b
first_of (some a) b = some a

-- `const x = …` of a call that may throw
abbrev pub value_or : {A : Type 0} → Option A → StorageError → Result StorageError A
value_or none e = err e
value_or (some a) e = ok a

module _ (service : Service) where
  abbrev pub same_checksum : String → String → Bool
  same_checksum a b = service.lower a == service.lower b

  -- `if (a && b) assert(a.toLowerCase() === b.toLowerCase())`
  abbrev pub checksums_agree : Option String → Option String → Bool
  checksums_agree a b = present_or true (λ x. present_or true (same_checksum x) b) a

  abbrev pub check_head : ℕ → Option String → ObjectMetadata → Result StorageError (Unit {0})
  check_head byte_size expected object = do
    guard (nat_eq object.byte_size byte_size) size_mismatch
    guard (checksums_agree object.checksum_sha256 expected) checksum_mismatch

  -- The bytes: those of the call, or else those that the adapter has.
  abbrev pub object_bytes : ℕ → Option String → Option Blob → Stored → Result StorageError Blob
  object_bytes byte_size expected (some blob) stored = ok blob
  object_bytes byte_size expected none stored = do
    object ← value_or stored.head adapter_failure
    check_head byte_size expected object
    value_or stored.content adapter_failure

  -- `putObject`, where the call brings the bytes.
  abbrev pub is_put : Option Blob → String → Bool
  is_put none object_key = true
  is_put (some blob) object_key = service.media.stores object_key

  -- The checks of the intent, its file and the bytes.
  unfoldable pub check_object :
      CompleteInput → Stored → IntentRow → Option StorageFile → Result StorageError Checked
  unfolding validate_storage_object
  check_object input stored intent row = do
    file ← value_or row file_not_found
    guard (is_pending file.status) upload_already_completed
    guard (service.lower input.content_type == intent.content_type) content_type_mismatch
    guard (nat_eq input.byte_size intent.byte_size) size_mismatch
    let expected = first_of input.checksum_sha256 intent.checksum_sha256
    guard (checksums_agree input.checksum_sha256 intent.checksum_sha256) checksum_mismatch
    normalized ← validate_storage_object service.lower service.extname service.rules (record {
      byte_size = input.byte_size;
      checksum_sha256 = expected;
      content_type = input.content_type;
      uploaded = input.uploaded;
      file_name = file.file_name;
    })
    blob ← object_bytes input.byte_size expected input.uploaded stored
    guard (nat_eq blob.byte_length input.byte_size) size_mismatch
    guard (present_or true (same_checksum blob.sha256) expected) checksum_mismatch
    ok (record { content_type = normalized.content_type; blob = blob; file_name = file.file_name })

  -- The scan, the variants, and `putObject` where the call brings the bytes.
  unfoldable pub store_object : Option Blob → Original → Result StorageError Verified
  unfolding create_managed_variants
  store_object uploaded original = do
    guard (service.is_clean original.blob) malware_detected
    variants ← value_or (create_managed_variants service.media original) adapter_failure
    guard (is_put uploaded original.object_key) adapter_failure
    ok (record { content_type = original.content_type; blob = original.blob; variants = variants })

  -- The body of the `try`, up to its transaction.
  unfoldable pub verify :
      CompleteInput → Stored → IntentRow → Option StorageFile → Result StorageError Verified
  unfolding check_object store_object
  verify input stored intent row = do
    checked ← check_object input stored intent row
    store_object input.uploaded (original_of_intent intent checked)
