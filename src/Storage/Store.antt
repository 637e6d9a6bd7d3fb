-- ===== src/Storage/Store.antt =====
-- The tables and types of packages/storage/src/types.ts and service.ts. The JSON columns for
-- metadata are left out; the access policy is the record that its JSON holds.
use nextjs_saas_boilerplate.Common.{
  ℕ, String, Bool, true, false, List, [], ◌∷◌, ◌++◌, Option, ◌==◌, find_where, select_where,
}
use nextjs_saas_boilerplate.Common.Int.{ℤ}
use nextjs_saas_boilerplate.Common.Actions.{Action, modify}

pub data StorageVisibility : Type 0 where
  private_file public_file : StorageVisibility

pub data StorageFileStatus : Type 0 where
  pending available deleted abandoned : StorageFileStatus

pub data StoragePermission : Type 0 where
  read write owner : StoragePermission

pub data IntentStatus : Type 0 where
  pending processing completed expired : IntentStatus

pub data GranteeType : Type 0 where
  user role : GranteeType

pub record StoragePrincipal : Type 0 where
  pub actor_id : Option String
  pub permissions : List StoragePermission
  pub roles : List String
  pub tenant_id : String

-- `requireTenantMember` is stored and never read. An absent list is an empty one.
pub record StorageAccessPolicy : Type 0 where
  pub allowed_user_ids : List String
  pub public_read : Bool

pub record StorageFile : Type 0 where
  pub id : String
  pub tenant_id : String
  pub owner_id : Option String
  pub provider_id : String
  pub object_key : String
  pub visibility : StorageVisibility
  pub file_name : String
  pub content_type : String
  pub byte_size : ℕ
  pub checksum_sha256 : Option String
  pub status : StorageFileStatus
  pub access_policy : StorageAccessPolicy
  pub created_at : ℕ
  pub updated_at : ℕ
  pub uploaded_at : Option ℕ
  pub deleted_at : Option ℕ
  pub expires_at : Option ℕ

pub record StorageFileVariant : Type 0 where
  pub file_id : String
  pub kind : String
  pub object_key : String
  pub content_type : String
  pub byte_size : ℕ

pub record GrantRow : Type 0 where
  pub file_id : String
  pub tenant_id : String
  pub grantee_type : GranteeType
  pub grantee_id : String
  pub permission : StoragePermission
  pub expires_at : Option ℕ
  pub created_at : ℕ
  pub created_by : Option String

-- The columns of `organization_quotas` that the storage service reads.
pub record QuotaRow : Type 0 where
  pub organization_id : String
  pub storage_bytes_used : ℕ
  pub storage_bytes_limit : ℕ
  pub updated_at : ℕ

-- A row of `storage_upload_intents`, less its id and the signed URL, which no call reads.
pub record IntentRow : Type 0 where
  pub file_id : String
  pub tenant_id : String
  pub owner_id : Option String
  pub object_key : String
  pub token_hash : String
  pub status : IntentStatus
  pub expires_at : ℕ
  pub byte_size : ℕ
  pub content_type : String
  pub checksum_sha256 : Option String
  pub created_at : ℕ
  pub updated_at : ℕ
  pub completed_at : Option ℕ

-- The file is null once its row is gone.
pub record UsageRecord : Type 0 where
  pub tenant_id : String
  pub file_id : Option String
  pub byte_delta : ℤ
  pub reason : String
  pub created_at : ℕ

pub record StorageEvent : Type 0 where
  pub tenant_id : String
  pub file_id : Option String
  pub actor_id : Option String
  pub event_type : String
  pub created_at : ℕ

pub record StorageStore : Type 0 where
  pub files : List StorageFile
  pub variants : List StorageFileVariant
  pub intents : List IntentRow
  pub grants : List GrantRow
  pub quotas : List QuotaRow
  pub usage_records : List UsageRecord
  pub audit_events : List StorageEvent

-- The codes of `StorageError` that these calls throw.
pub data StorageError : Type 0 where
  file_not_found forbidden file_not_available storage_quota_exceeded : StorageError
  file_size file_too_large extension_not_allowed mime_not_allowed : StorageError
  size_mismatch invalid_checksum checksum_mismatch content_type_mismatch : StorageError
  malware_detected upload_already_completed invalid_upload_intent unsafe_key : StorageError
  -- an error of the storage adapter or of the media library, and a key that the database refuses
  adapter_failure duplicate_key : StorageError

abbrev pub Call : Type 0 → Type 0
Call = Action StorageStore StorageError

abbrev pub file_key : StorageFile → String
file_key file = file.id

abbrev pub is_file : String → StorageFile → Bool
is_file file_id file = file.id == file_id

unfoldable pub load_file : String → StorageStore → Option StorageFile
load_file file_id s = find_where (is_file file_id) s.files

abbrev pub is_variant_of : String → StorageFileVariant → Bool
is_variant_of file_id variant = variant.file_id == file_id

-- Less the `ORDER BY kind`, which only `getFile` shows.
unfoldable pub load_variants : String → StorageStore → List StorageFileVariant
load_variants file_id s = select_where (is_variant_of file_id) s.variants

abbrev pub is_pending : StorageFileStatus → Bool
is_pending StorageFileStatus.pending = true
is_pending _ = false

abbrev pub is_available : StorageFileStatus → Bool
is_available available = true
is_available _ = false

unfoldable pub audit : StorageEvent → Call (Unit {0})
audit event = modify (λ s. record s { audit_events = s.audit_events ++ event ∷ [] })
