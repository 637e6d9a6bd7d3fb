-- ===== src/Storage/Completion.antt =====
-- `completeUploadIntent` of packages/storage/src/service.ts: its claim, its transaction, and what it
-- does after an error.
use nextjs_saas_boilerplate.Common.{
  ℕ, ◌+◌, ltb, String, Bool, true, false, ◌&&◌, List, Option, some, if◌then◌else◌, ◌==◌, is_some,
  ok, find_where, update_where,
}
use nextjs_saas_boilerplate.Common.Int.{ℤ, subtract}
use nextjs_saas_boilerplate.Common.Actions.{◌>>=◌, ◌>>◌, pure, get, modify, require_some, attempt}
use nextjs_saas_boilerplate.Storage.Store.{
  available, abandoned, StorageFile, processing, completed, expired, IntentStatus, IntentRow,
  StorageError, Call, upload_already_completed, content_type_mismatch, size_mismatch,
  checksum_mismatch, file_too_large, mime_not_allowed, malware_detected, invalid_upload_intent,
  is_file, load_file, audit, is_pending,
}
use nextjs_saas_boilerplate.Storage.Variants.{persist_variants}
use nextjs_saas_boilerplate.Storage.Quota.{
  reserve_quota, with_transaction, insert_usage, usage_row, give_back, update_file, total_bytes,
}
use nextjs_saas_boilerplate.Storage.Uploads.{Service, lift}
use nextjs_saas_boilerplate.Storage.Verification.{CompleteInput, Stored, Verified, verify}

abbrev pub is_intent_of : String → IntentRow → Bool
is_intent_of file_id intent = intent.file_id == file_id

abbrev pub is_open : IntentStatus → Bool
is_open IntentStatus.pending = true
is_open _ = false

abbrev pub is_processing : IntentStatus → Bool
is_processing processing = true
is_processing _ = false

abbrev pub is_pending_file : String → StorageFile → Bool
is_pending_file file_id file = is_file file_id file && is_pending file.status

-- The WHERE of the UPDATE that claims an intent.
abbrev pub is_claimable : String → String → ℕ → List StorageFile → IntentRow → Bool
is_claimable file_id token_hash now files intent =
    is_intent_of file_id intent
    && intent.token_hash == token_hash
    && is_open intent.status
    && ltb now intent.expires_at
    && is_some (find_where (is_pending_file intent.file_id) files)

abbrev pub set_processing : ℕ → IntentRow → IntentRow
set_processing now intent = record intent { status = processing; updated_at = now }

unfoldable pub update_intents : (IntentRow → Bool) → (IntentRow → IntentRow) → Call (Unit {0})
update_intents p f = modify (λ s. record s { intents = update_where p f s.intents })

-- The claim, with the first of its RETURNING rows: the row as it was, but for its status and
-- `updated_at`, which no call reads.
unfoldable pub claim_intent : String → String → ℕ → Call (Option IntentRow)
claim_intent file_id token_hash now s = (
  ok (find_where (is_claimable file_id token_hash now s.files) s.intents),
  record s {
    intents =
        update_where (is_claimable file_id token_hash now s.files) (set_processing now) s.intents;
  },
)

abbrev pub is_taken : String → IntentRow → Bool
is_taken file_id intent = is_intent_of file_id intent && is_processing intent.status

abbrev pub set_uploaded : Verified → ℕ → StorageFile → StorageFile
set_uploaded verified now file = record file {
  status = available;
  byte_size = verified.blob.byte_length;
  checksum_sha256 = some verified.blob.sha256;
  content_type = verified.content_type;
  uploaded_at = some now;
  updated_at = now;
}

abbrev pub set_completed : ℕ → IntentRow → IntentRow
set_completed now intent = record intent {
  status = completed;
  completed_at = some now;
  updated_at = now;
}

-- `data.byteLength + variants' bytes - intent.byte_size`
abbrev pub completed_delta : Verified → IntentRow → ℤ
completed_delta verified intent =
    subtract (verified.blob.byte_length + total_bytes verified.variants) intent.byte_size

-- The transaction.
unfoldable pub complete_rows : IntentRow → Verified → ℕ → Call (Unit {0})
unfolding update_file reserve_quota update_intents persist_variants insert_usage audit
complete_rows intent verified now = do
  updated ← update_file (is_pending_file intent.file_id) (set_uploaded verified now)
  require_some updated upload_already_completed
  reserve_quota (completed_delta verified intent) intent.tenant_id now
  update_intents (is_taken intent.file_id) (set_completed now)
  persist_variants verified.variants
  insert_usage (
      usage_row intent.tenant_id intent.file_id (completed_delta verified intent)
        "upload_intent_completed" now)
  audit (record {
    tenant_id = intent.tenant_id;
    file_id = some intent.file_id;
    actor_id = intent.owner_id;
    event_type = "storage.upload_intent.completed";
    created_at = now;
  })

abbrev pub is_permanent : StorageError → Bool
is_permanent checksum_mismatch = true
is_permanent content_type_mismatch = true
is_permanent file_too_large = true
is_permanent malware_detected = true
is_permanent mime_not_allowed = true
is_permanent size_mismatch = true
is_permanent _ = false

abbrev pub set_abandoned : ℕ → StorageFile → StorageFile
set_abandoned now file = record file { status = abandoned; updated_at = now }

abbrev pub set_expired : ℕ → IntentRow → IntentRow
set_expired now intent = record intent { status = expired; updated_at = now }

-- The transaction after a permanent failure.
unfoldable pub release_rows : IntentRow → ℕ → Call (Unit {0})
unfolding update_file give_back update_intents
release_rows intent now = do
  updated ← update_file (is_pending_file intent.file_id) (set_abandoned now)
  give_back intent.tenant_id intent.file_id intent.byte_size "upload_intent_released" now updated
  update_intents (is_taken intent.file_id) (set_expired now)

abbrev pub is_reopened : String → ℕ → IntentRow → Bool
is_reopened file_id later intent = is_taken file_id intent && ltb later intent.expires_at

abbrev pub set_reopened : ℕ → IntentRow → IntentRow
set_reopened later intent = record intent { status = IntentStatus.pending; updated_at = later }

-- The `catch`; `later` is the second reading of the clock.
unfoldable pub after_error : IntentRow → ℕ → ℕ → StorageError → Call (Unit {0})
unfolding release_rows update_intents
after_error intent now later e =
    if is_permanent e
    then with_transaction (release_rows intent now)
    else update_intents (is_reopened intent.file_id later) (set_reopened later)

module _ (service : Service) where
  -- The `try`.
  unfoldable pub finish_upload : CompleteInput → Stored → IntentRow → ℕ → Call (Unit {0})
  unfolding verify load_file complete_rows
  finish_upload input stored intent now = do
    s ← get
    verified ← lift (verify service input stored intent (load_file intent.file_id s))
    with_transaction (complete_rows intent verified now)

  unfoldable pub complete_upload_intent : CompleteInput → Stored → ℕ → ℕ → Call (Option StorageFile)
  unfolding claim_intent finish_upload after_error load_file
  complete_upload_intent input stored now later = do
    claimed ← claim_intent input.intent_id (service.hash input.token) now
    intent ← require_some claimed invalid_upload_intent
    attempt (finish_upload input stored intent now) (after_error intent now later)
    t ← get
    pure (load_file intent.file_id t)
