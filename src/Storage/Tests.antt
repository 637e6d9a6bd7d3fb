-- ===== src/Storage/Tests.antt =====
-- The theorems on packages/storage/src/service.ts at a concrete organization.
use nextjs_saas_boilerplate.Common.{
  ◌≡◌, ◌⊎◌, refl, true, false, List, [], ◌∷◌, none, some, find_where, select_where, update_where,
  All, ok, err, if◌then◌else◌, arith,
}
use nextjs_saas_boilerplate.Common.Int.{pos}
use nextjs_saas_boilerplate.Storage.Store.{
  StorageFile, StorageFileStatus, IntentRow, processing, StoragePrincipal, StorageStore, QuotaRow,
  GrantRow, private_file, available, read, role, load_file, forbidden, file_not_available,
  storage_quota_exceeded, is_available, invalid_upload_intent,
}
use nextjs_saas_boilerplate.Storage.Access.{get_file, list_files, has_active_grant, can_write_file}
use nextjs_saas_boilerplate.Storage.Quota.{reserve_quota, delete_file, get_usage, total_bytes}
use nextjs_saas_boilerplate.Storage.Limits.{IsWithin, reserve_quota-IsWithin, reserve_quota_lem}
use nextjs_saas_boilerplate.Storage.Listing.{Readable, list_files-Readable}
use nextjs_saas_boilerplate.Storage.Foreign.{of_tenant, get_file-of_tenant}
use nextjs_saas_boilerplate.Storage.Deletion.{may_delete, deleted_store, delete_file_lem}
use nextjs_saas_boilerplate.Storage.Erasure.{delete_file_once}
use nextjs_saas_boilerplate.Common.Strings.{has_prefix}
use nextjs_saas_boilerplate.Storage.Path.{build_tenant_object_key}
use nextjs_saas_boilerplate.Storage.Validation.{Blob}
use nextjs_saas_boilerplate.Storage.Uploads.{Service, UploadInput, create_upload_intent}
use nextjs_saas_boilerplate.Storage.Verification.{CompleteInput, Stored}
use nextjs_saas_boilerplate.Storage.Completion.{complete_upload_intent}
use nextjs_saas_boilerplate.Storage.Charges.{charged}
use nextjs_saas_boilerplate.Storage.Balance.{IsBalanced}
use nextjs_saas_boilerplate.Storage.History.{
  StorageCall, create_intent, complete, delete, expire_intents, release_orphans, discard_files,
  exec, exec_all, exec_all-IsBalanced, get_usage-exec_all,
}
use nextjs_saas_boilerplate.Storage.Lifecycle.{status_of}
use nextjs_saas_boilerplate.Storage.Refinement.{Life, exec_all-Life}
use nextjs_saas_boilerplate.Storage.Once.{complete_upload_intent_once}
use nextjs_saas_boilerplate.Storage.Interrupted.{IsProcessing}
use nextjs_saas_boilerplate.Storage.Stuck.{expiring, releasing, discarding, exec_all-IsProcessing}

abbrev report : StorageFile
report = record {
  id = "f1";
  tenant_id = "acme";
  owner_id = some "ann";
  provider_id = "local";
  object_key = "tenants/acme/users/ann/f1";
  visibility = private_file;
  file_name = "report.pdf";
  content_type = "application/pdf";
  byte_size = 40;
  checksum_sha256 = none;
  status = available;
  access_policy = record { allowed_user_ids = []; public_read = false };
  created_at = 1;
  updated_at = 1;
  uploaded_at = some 1;
  deleted_at = none;
  expires_at = none;
}

-- Members may read the report.
abbrev member_grant : GrantRow
member_grant = record {
  file_id = "f1";
  tenant_id = "acme";
  grantee_type = role;
  grantee_id = "member";
  permission = read;
  expires_at = none;
  created_at = 2;
  created_by = some "ann";
}

abbrev quota : QuotaRow
quota = record {
  organization_id = "acme";
  storage_bytes_used = 40;
  storage_bytes_limit = 100;
  updated_at = 1;
}

abbrev files_of_acme : StorageStore
files_of_acme = record {
  files = report ∷ [];
  variants = [];
  intents = [];
  grants = member_grant ∷ [];
  quotas = quota ∷ [];
  usage_records = [];
  audit_events = [];
}

abbrev ann : StoragePrincipal
ann = record { actor_id = some "ann"; permissions = []; roles = []; tenant_id = "acme" }

abbrev bob : StoragePrincipal
bob = record { actor_id = some "bob"; permissions = []; roles = "member" ∷ []; tenant_id = "acme" }

reserve_quota_lem_example :
    reserve_quota (pos 61) "acme" 5 files_of_acme ≡ (err storage_quota_exceeded, files_of_acme)
unfolding find_where
reserve_quota_lem_example = reserve_quota_lem 60 "acme" 5 files_of_acme quota (refl, tt) refl

reserve_quota-IsWithin_example : IsWithin (reserve_quota (pos 60) "acme" 5 files_of_acme).1
reserve_quota-IsWithin_example =
    reserve_quota-IsWithin (pos 60) "acme" 5 files_of_acme (omega arith, tt)

list_files-Readable_example :
    All (Readable bob 5 files_of_acme) (list_files none none bob none 5 files_of_acme)
list_files-Readable_example = list_files-Readable none none bob none 5 files_of_acme (refl, tt) refl

-- A member of another organization gets the report.
get_file-of_tenant_example :
    get_file "f1" (of_tenant "rival" bob) 5 files_of_acme ≡ get_file "f1" bob 5 files_of_acme
unfolding load_file find_where has_active_grant
get_file-of_tenant_example = get_file-of_tenant "f1" "rival" bob 5 files_of_acme report refl refl

delete_file_lem_example : delete_file "f1" ann 5 files_of_acme ≡ (
    if may_delete report ann 5 files_of_acme
    then (if is_available report.status
        then (ok tt, deleted_store report ann 5 files_of_acme)
        else (err file_not_available, files_of_acme))
    else (err forbidden, files_of_acme))
unfolding load_file find_where
delete_file_lem_example = delete_file_lem "f1" ann 5 files_of_acme report refl

delete_file_once_example :
    (delete_file "f1" ann 9 (deleted_store report ann 5 files_of_acme)
      ≡ (err forbidden, deleted_store report ann 5 files_of_acme))
    ⊎ (delete_file "f1" ann 9 (deleted_store report ann 5 files_of_acme)
        ≡ (err file_not_available, deleted_store report ann 5 files_of_acme))
unfolding delete_file can_write_file load_file find_where select_where
delete_file_once_example =
    delete_file_once "f1" ann ann 5 9 files_of_acme (deleted_store report ann 5 files_of_acme) refl

-- A quota row that holds what the report takes.
files_of_acme-IsBalanced : IsBalanced files_of_acme
unfolding charged find_where select_where total_bytes
files_of_acme-IsBalanced = record {
  distinct_files = (refl, tt);
  distinct_quotas = (refl, tt);
  reserved = tt;
  placed = tt;
  counted = (refl, tt);
}

-- A service that knows texts of at most 100 bytes, of which it makes a preview of 3 bytes.
abbrev service : Service
service = record {
  lower = λ s. s;
  extname = λ s. ".txt";
  hash = λ s. s;
  rules = record {
    allowed_extensions = "txt" ∷ [];
    allowed_mime_types = "text/plain" ∷ [];
    max_bytes = 100;
  };
  provider_id = "local";
  upload_ttl_seconds = 900;
  is_clean = λ blob. true;
  media = record {
    renditions = λ blob. none;
    preview_length = λ content_type file_name blob. 3;
    stores = λ key. true;
  };
}

abbrev note : Blob
note = record { byte_length = 20; sha256 = "digest" }

abbrev note_input : UploadInput
note_input = record {
  access_policy = none;
  byte_size = 20;
  checksum_sha256 = none;
  content_type = "text/plain";
  expires_at = none;
  file_name = "note.txt";
  owner_id = some "ann";
  tenant_id = "acme";
  visibility = none;
}

abbrev note_completion : CompleteInput
note_completion = record {
  byte_size = 20;
  checksum_sha256 = none;
  content_type = "text/plain";
  uploaded = some note;
  intent_id = "f2";
  token = "token";
}

abbrev nothing_stored : Stored
nothing_stored = record { head = none; content = none }

-- An intent that is completed, a file that is deleted, and the sweeps that follow.
abbrev history : List StorageCall
history =
    create_intent note_input "f2" "token" 5
    ∷ complete note_completion nothing_stored 6 6
    ∷ delete "f1" ann 7
    ∷ expire_intents (λ key. true) 8
    ∷ release_orphans (λ key. true) 8 8
    ∷ discard_files (λ key. true) 8
    ∷ []

exec_all-IsBalanced_example : IsBalanced (exec_all service history files_of_acme)
exec_all-IsBalanced_example =
    exec_all-IsBalanced service history files_of_acme files_of_acme-IsBalanced

exec_all-Life_example :
    Life history "f1"
      (status_of "f1" files_of_acme.files)
      (status_of "f1" (exec_all service history files_of_acme).files)
exec_all-Life_example = exec_all-Life service history files_of_acme "f1" files_of_acme-IsBalanced

-- The usage after the deletion.
get_usage-exec_all_example :
    (get_usage "acme" (exec_all service (delete "f1" ann 7 ∷ []) files_of_acme)).storage_bytes_used
    ≡ charged "acme"
        (exec_all service (delete "f1" ann 7 ∷ []) files_of_acme).variants
        (exec_all service (delete "f1" ann 7 ∷ []) files_of_acme).files
unfolding exec_all exec delete_file can_write_file load_file find_where select_where update_where
get_usage-exec_all_example =
    get_usage-exec_all service (delete "f1" ann 7 ∷ []) files_of_acme "acme"
      (record quota { storage_bytes_used = 0; updated_at = 7 }) files_of_acme-IsBalanced refl

-- The store with the intent of the note.
abbrev with_note : StorageStore
with_note = exec service (create_intent note_input "f2" "token" 5) files_of_acme

complete_upload_intent_once_example :
    complete_upload_intent service note_completion nothing_stored 9 9
      (complete_upload_intent service note_completion nothing_stored 6 6 with_note).1
    ≡ (
      err invalid_upload_intent,
      (complete_upload_intent service note_completion nothing_stored 6 6 with_note).1,
    )
unfolding exec complete_upload_intent create_upload_intent find_where update_where load_file
    build_tenant_object_key has_prefix total_bytes
complete_upload_intent_once_example =
    complete_upload_intent_once service note_completion note_completion nothing_stored
      nothing_stored 6 6 9 9 with_note
      (complete_upload_intent service note_completion nothing_stored 6 6 with_note).1
      (load_file "f2"
        (complete_upload_intent service note_completion nothing_stored 6 6 with_note).1)
      refl refl

-- An upload whose process died after its claim.
abbrev note_file : StorageFile
note_file = record report {
  id = "f2";
  object_key = "tenants/acme/users/ann/f2";
  file_name = "note.txt";
  content_type = "text/plain";
  byte_size = 20;
  status = StorageFileStatus.pending;
  created_at = 5;
  updated_at = 5;
  uploaded_at = none;
}

abbrev note_intent : IntentRow
note_intent = record {
  file_id = "f2";
  tenant_id = "acme";
  owner_id = some "ann";
  object_key = "tenants/acme/users/ann/f2";
  token_hash = "token";
  status = processing;
  expires_at = 900005;
  byte_size = 20;
  content_type = "text/plain";
  checksum_sha256 = none;
  created_at = 5;
  updated_at = 6;
  completed_at = none;
}

abbrev interrupted : StorageStore
interrupted = record files_of_acme { files = report ∷ note_file ∷ []; intents = note_intent ∷ [] }

-- Clean-ups after the intent's expiry.
abbrev later_cleanups : List StorageCall
later_cleanups =
    expire_intents (λ key. true) 1000000
    ∷ release_orphans (λ key. true) 1000000 1000000
    ∷ discard_files (λ key. true) 1000000
    ∷ []

interrupted-IsProcessing : IsProcessing "f2" note_file note_intent interrupted
unfolding find_where
interrupted-IsProcessing = record {
  loaded = refl;
  waiting = (refl, (refl, tt));
  taken = refl;
  closed = (refl, tt);
}

exec_all-IsProcessing_example :
    IsProcessing "f2" note_file note_intent (exec_all service later_cleanups interrupted)
exec_all-IsProcessing_example =
    exec_all-IsProcessing service "f2" note_file note_intent later_cleanups interrupted
      (expiring, (releasing, (discarding, tt))) interrupted-IsProcessing

abbrev digested : Blob
digested = record note {
  sha256 = "0000000000000000000000000000000000000000000000000000000000000000";
}
