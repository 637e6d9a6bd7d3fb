-- ===== src/Storage/Uploads.antt =====
-- `createUploadIntent` and `uploadFile` of packages/storage/src/service.ts. The row of the storage
-- provider, which each of them writes first, is left out, and so are the signed URLs.
use nextjs_saas_boilerplate.Common.{
  ℕ, ◌+◌, ◌*◌, String, Bool, ◌&&◌, ◌||◌, List, [], ◌∷◌, ◌++◌, Option, none, some, if◌then◌else◌,
  or_else, ◌==◌, any, Result, ok, err,
}
use nextjs_saas_boilerplate.Common.Int.{pos}
use nextjs_saas_boilerplate.Common.Actions.{◌>>=◌, ◌>>◌, pure, get, modify, require_some}
use nextjs_saas_boilerplate.Common.Actions
use nextjs_saas_boilerplate.Storage.Store.{
  StorageVisibility, private_file, StorageFileStatus, available, StorageAccessPolicy, StorageFile,
  StorageFileVariant, IntentStatus, IntentRow, StorageError, StorageEvent, Call, adapter_failure,
  malware_detected, duplicate_key, is_file, load_file, audit,
}
use nextjs_saas_boilerplate.Storage.Access.{is_public}
use nextjs_saas_boilerplate.Storage.Path.{build_tenant_object_key}
use nextjs_saas_boilerplate.Storage.Validation.{
  StorageValidationRules, Blob, Normalized, validate_storage_object,
}
use nextjs_saas_boilerplate.Storage.Variants.{
  Media, Original, create_managed_variants, persist_variants,
}
use nextjs_saas_boilerplate.Storage.Quota.{
  reserve_quota, with_transaction, insert_usage, total_bytes,
}

-- What the service is made with, and the libraries that it calls.
pub record Service : Type 0 where
  -- JavaScript's `toLowerCase`, the `extname` of Node's path module, and `sha256Hex` of a text
  pub lower : String → String
  pub extname : String → String
  pub hash : String → String
  pub rules : StorageValidationRules
  pub provider_id : String
  pub upload_ttl_seconds : ℕ
  -- the scanner's verdict; always true where none is configured
  pub is_clean : Blob → Bool
  pub media : Media

-- A service's answer as a call.
abbrev pub lift : {A : Type 0} → Result StorageError A → Call A
lift (ok a) s = (ok a, s)
lift (err e) s = (err e, s)

pub record UploadInput : Type 0 where
  pub access_policy : Option StorageAccessPolicy
  pub byte_size : ℕ
  pub checksum_sha256 : Option String
  pub content_type : String
  pub expires_at : Option ℕ
  pub file_name : String
  pub owner_id : Option String
  pub tenant_id : String
  pub visibility : Option StorageVisibility

-- `input.accessPolicy ?? { publicRead: input.visibility === "public", … }`
abbrev pub policy_of : Option StorageAccessPolicy → Option StorageVisibility → StorageAccessPolicy
policy_of (some policy) visibility = policy
policy_of none visibility = record {
  allowed_user_ids = [];
  public_read = is_public (or_else visibility private_file);
}

abbrev pub clashes : StorageFile → StorageFile → Bool
clashes new row =
    is_file new.id row || (row.provider_id == new.provider_id && row.object_key == new.object_key)

-- The INSERT, which the primary key or the unique index on provider and object key may refuse.
unfoldable pub insert_file : StorageFile → Call (Unit {0})
insert_file file s =
    if any (clashes file) s.files
    then (err duplicate_key, s)
    else (ok tt, record s { files = s.files ++ file ∷ [] })

abbrev pub has_token : IntentRow → IntentRow → Bool
has_token new row = row.token_hash == new.token_hash

unfoldable pub insert_intent : IntentRow → Call (Unit {0})
insert_intent intent s =
    if any (has_token intent) s.intents
    then (err duplicate_key, s)
    else (ok tt, record s { intents = s.intents ++ intent ∷ [] })

abbrev pub upload_event : StorageFile → Option String → String → ℕ → StorageEvent
upload_event file actor_id event_type now = record {
  tenant_id = file.tenant_id;
  file_id = some file.id;
  actor_id = actor_id;
  event_type = event_type;
  created_at = now;
}

abbrev pub original_of : StorageFile → Blob → Original
original_of file blob = record {
  content_type = file.content_type;
  blob = blob;
  file_id = file.id;
  file_name = file.file_name;
  object_key = file.object_key;
}

module _ (service : Service) where
  -- The row that both calls insert; they differ in its status and in what is known of the bytes.
  abbrev pub new_file :
      UploadInput → StorageFileStatus → Normalized → Option String → String → ℕ → StorageFile
  new_file input status normalized checksum file_id now = record {
    id = file_id;
    tenant_id = input.tenant_id;
    owner_id = input.owner_id;
    provider_id = service.provider_id;
    object_key =
        build_tenant_object_key service.lower service.extname file_id input.file_name input.owner_id
          input.tenant_id;
    visibility = or_else input.visibility private_file;
    file_name = input.file_name;
    content_type = normalized.content_type;
    byte_size = input.byte_size;
    checksum_sha256 = checksum;
    status = status;
    access_policy = policy_of input.access_policy input.visibility;
    created_at = now;
    updated_at = now;
    uploaded_at = none;
    deleted_at = none;
    expires_at = input.expires_at;
  }

  abbrev pub new_intent : UploadInput → StorageFile → String → ℕ → IntentRow
  new_intent input file token now = record {
    file_id = file.id;
    tenant_id = input.tenant_id;
    owner_id = input.owner_id;
    object_key = file.object_key;
    token_hash = service.hash token;
    status = IntentStatus.pending;
    expires_at = or_else input.expires_at (now + service.upload_ttl_seconds * 1000);
    byte_size = input.byte_size;
    content_type = file.content_type;
    checksum_sha256 = input.checksum_sha256;
    created_at = now;
    updated_at = now;
    completed_at = none;
  }

  -- The transaction of `createUploadIntent`.
  unfoldable pub reserve_rows : StorageFile → IntentRow → ℕ → Call (Unit {0})
  unfolding reserve_quota insert_file insert_intent insert_usage audit
  reserve_rows file intent now = do
    reserve_quota (pos file.byte_size) file.tenant_id now
    insert_file file
    insert_intent intent
    insert_usage (record {
      tenant_id = file.tenant_id;
      file_id = some file.id;
      byte_delta = pos file.byte_size;
      reason = "upload_intent_reserved";
      created_at = now;
    })
    audit (upload_event file file.owner_id "storage.upload_intent.created" now)

  -- `file_id` and `token` are the caller's or drawn at random.
  unfoldable pub create_upload_intent :
      UploadInput → String → String → ℕ → Call (Option StorageFile)
  unfolding validate_storage_object reserve_rows load_file
  create_upload_intent input file_id token now = do
    normalized ← lift (
        validate_storage_object service.lower service.extname service.rules (record {
          byte_size = input.byte_size;
          checksum_sha256 = input.checksum_sha256;
          content_type = input.content_type;
          uploaded = none;
          file_name = input.file_name;
        }))
    let file = new_file input StorageFileStatus.pending normalized input.checksum_sha256 file_id now
    with_transaction (reserve_rows file (new_intent input file token now) now)
    t ← get
    pure (load_file file_id t)

  -- The transaction of `uploadFile`.
  unfoldable pub upload_rows : StorageFile → List StorageFileVariant → ℕ → Call (Unit {0})
  unfolding reserve_quota insert_file persist_variants insert_usage audit total_bytes
  upload_rows file variants now = do
    reserve_quota (pos (file.byte_size + total_bytes variants)) file.tenant_id now
    insert_file file
    persist_variants variants
    insert_usage (record {
      tenant_id = file.tenant_id;
      file_id = some file.id;
      byte_delta = pos (file.byte_size + total_bytes variants);
      reason = "upload";
      created_at = now;
    })
    audit (upload_event file file.owner_id "storage.file.uploaded" now)

  -- `input.byte_size` is `data.byteLength`. The objects that a failure leaves with the adapter are
  -- deleted there.
  unfoldable pub upload_file : UploadInput → Blob → String → ℕ → Call (Option StorageFile)
  unfolding validate_storage_object upload_rows load_file create_managed_variants
  upload_file input blob file_id now = do
    let checksum = or_else input.checksum_sha256 blob.sha256
    normalized ← lift (
        validate_storage_object service.lower service.extname service.rules (record {
          byte_size = blob.byte_length;
          checksum_sha256 = some checksum;
          content_type = input.content_type;
          uploaded = some blob;
          file_name = input.file_name;
        }))
    Actions.require (service.is_clean blob) malware_detected
    let draft =
        new_file (record input { byte_size = blob.byte_length }) available normalized
          (some checksum) file_id now
    variants ←
        require_some (create_managed_variants service.media (original_of draft blob))
          adapter_failure
    Actions.require (service.media.stores draft.object_key) adapter_failure
    with_transaction (upload_rows (record draft { uploaded_at = some now }) variants now)
    t ← get
    pure (load_file file_id t)
