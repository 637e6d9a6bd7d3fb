-- ===== src/Storage/Cleanup.antt =====
-- `cleanupExpiredUploadIntents`, `cleanupOrphanedFiles` and `cleanupDeletedFiles` of
-- packages/storage/src/service.ts. Each reads its rows once and then treats them one by one.
use nextjs_saas_boilerplate.Common.{
  ◌+◌, ℕ, leb, ltb, String, Bool, true, false, ◌&&◌, ◌||◌, not, List, [], ◌∷◌, map, Option, none,
  some, if◌then◌else◌, ◌==◌, any, all, is_some, ok, find_where, select_where,
}
use nextjs_saas_boilerplate.Common.Actions.{◌>>=◌, ◌>>◌, pure, get}
use nextjs_saas_boilerplate.Storage.Store.{
  deleted, StorageFileStatus, StorageFile, StorageFileVariant, IntentRow, UsageRecord, StorageEvent,
  StorageStore, Call, is_file, is_pending, is_variant_of, load_variants,
}
use nextjs_saas_boilerplate.Storage.Quota.{with_transaction, update_file, give_back}
use nextjs_saas_boilerplate.Storage.Completion.{
  is_intent_of, is_open, is_processing, update_intents, set_expired, set_abandoned,
}

-- One row after another; the number of those that were cleaned.
unfoldable pub clean_all : {A : Type 0} → (A → Call ℕ) → List A → Call ℕ
clean_all clean [] = pure 0
clean_all clean (row ∷ rows) = do m ← clean row; n ← clean_all clean rows; pure (m + n)

abbrev pub is_deleted : StorageFileStatus → Bool
is_deleted deleted = true
is_deleted _ = false

-- `ON DELETE SET NULL`
abbrev pub unlink : String → Option String → Option String
unlink file_id none = none
unlink file_id (some id) = if id == file_id then none else some id

abbrev pub unlink_usage : String → UsageRecord → UsageRecord
unlink_usage file_id row = record row { file_id = unlink file_id row.file_id }

abbrev pub unlink_event : String → StorageEvent → StorageEvent
unlink_event file_id event = record event { file_id = unlink file_id event.file_id }

-- The row of a file, and what the foreign keys do to the rows that refer to it.
unfoldable pub cascade : String → StorageStore → StorageStore
cascade file_id s = record s {
  files = select_where (λ file. not (is_file file_id file)) s.files;
  variants = select_where (λ variant. not (is_variant_of file_id variant)) s.variants;
  intents = select_where (λ intent. not (is_intent_of file_id intent)) s.intents;
  grants = select_where (λ grant. not (grant.file_id == file_id)) s.grants;
  usage_records = map (unlink_usage file_id) s.usage_records;
  audit_events = map (unlink_event file_id) s.audit_events;
}

-- The provider of the service, and whether its adapter deletes an object.
module _ (provider_id : String) (deletes : String → Bool) where
  abbrev pub is_provided : StorageFile → Bool
  is_provided file = file.provider_id == provider_id

  abbrev pub is_expired_intent : ℕ → List StorageFile → IntentRow → Bool
  is_expired_intent now files intent =
      is_open intent.status
      && leb intent.expires_at now
      && is_some (find_where (λ file. is_file intent.file_id file && is_provided file) files)

  abbrev pub is_pending_provided : String → StorageFile → Bool
  is_pending_provided file_id file =
      is_file file_id file && (is_pending file.status && is_provided file)

  -- `storage_upload_intents.status IN ('pending', 'processing')`
  abbrev pub is_live_intent : String → IntentRow → Bool
  is_live_intent file_id intent =
      is_intent_of file_id intent && (is_open intent.status || is_processing intent.status)

  abbrev pub is_orphaned : ℕ → List IntentRow → StorageFile → Bool
  is_orphaned older_than intents file =
      is_pending file.status
      && ltb file.created_at older_than
      && is_provided file
      && not (any (is_live_intent file.id) intents)

  -- `UPDATE … RETURNING id`, and what follows where it found the file.
  unfoldable pub abandon : String → String → ℕ → String → ℕ → Call (Unit {0})
  unfolding update_file give_back
  abandon file_id tenant_id bytes reason now = do
    updated ← update_file (is_pending_provided file_id) (set_abandoned now)
    give_back tenant_id file_id bytes reason now updated

  -- The transaction of `cleanupExpiredUploadIntents`.
  unfoldable pub expire_rows : ℕ → IntentRow → Call (Unit {0})
  unfolding update_intents abandon
  expire_rows now intent = do
    update_intents (λ row. is_intent_of intent.file_id row && is_open row.status) (set_expired now)
    abandon intent.file_id intent.tenant_id intent.byte_size "upload_intent_expired" now

  -- A row whose object the adapter does not delete is left for the next time.
  abbrev pub if_deleted : Bool → Call (Unit {0}) → Call ℕ
  if_deleted true call = do call; pure 1
  if_deleted false call = pure 0

  abbrev pub expire_intent : ℕ → IntentRow → Call ℕ
  expire_intent now intent =
      if_deleted (deletes intent.object_key) (with_transaction (expire_rows now intent))

  unfoldable pub cleanup_expired_upload_intents : ℕ → Call ℕ
  unfolding clean_all expire_rows
  cleanup_expired_upload_intents now = do
    s ← get
    clean_all (expire_intent now) (select_where (is_expired_intent now s.files) s.intents)

  abbrev pub release_orphan : ℕ → StorageFile → Call ℕ
  release_orphan now file = if_deleted (deletes file.object_key) (
      with_transaction (abandon file.id file.tenant_id file.byte_size "orphaned_file_released" now))

  unfoldable pub cleanup_orphaned_files : ℕ → ℕ → Call ℕ
  unfolding clean_all abandon
  cleanup_orphaned_files older_than now = do
    s ← get
    clean_all (release_orphan now) (select_where (is_orphaned older_than s.intents) s.files)

  abbrev pub is_removable : String → StorageFile → Bool
  is_removable file_id file = is_file file_id file && (is_deleted file.status && is_provided file)

  unfoldable pub delete_rows_of : String → Call (Unit {0})
  unfolding cascade
  delete_rows_of file_id s =
      if any (is_removable file_id) s.files then (ok tt, cascade file_id s) else (ok tt, s)

  -- `deleted_at < $1`, false on NULL
  abbrev pub is_before : Option ℕ → ℕ → Bool
  is_before none older_than = false
  is_before (some deleted_at) older_than = ltb deleted_at older_than

  abbrev pub is_discarded : ℕ → StorageFile → Bool
  is_discarded older_than file =
      is_deleted file.status && is_before file.deleted_at older_than && is_provided file

  abbrev pub all_deleted : StorageFile → List StorageFileVariant → Bool
  all_deleted file variants =
      deletes file.object_key && all (λ variant. deletes variant.object_key) variants

  unfoldable pub discard_file : StorageFile → Call ℕ
  unfolding load_variants delete_rows_of
  discard_file file = do
    s ← get
    if_deleted (all_deleted file (load_variants file.id s)) (delete_rows_of file.id)

  unfoldable pub cleanup_deleted_files : ℕ → Call ℕ
  unfolding clean_all discard_file
  cleanup_deleted_files older_than = do
    s ← get
    clean_all discard_file (select_where (is_discarded older_than) s.files)
