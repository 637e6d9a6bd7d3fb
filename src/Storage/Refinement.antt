-- ===== src/Storage/Refinement.antt =====
-- What each call of packages/storage/src/service.ts may do to the status of a file, and histories of
-- calls as lives of the files.
use nextjs_saas_boilerplate.Common.{
  ℕ, ◌≡◌, refl, ap, Option, sym, subst, String, Bool, true, false, ◌&&◌, ◌||◌, List, [], ◌∷◌, some,
  any, update_where, select_where, Bool-cases, Option-cases, inl, inr, and-eq_true,
}
use nextjs_saas_boilerplate.Common.Actions.{continue-pure}
use nextjs_saas_boilerplate.Storage.Store.{
  StorageFile, StorageStore, StorageFileStatus, available, deleted, abandoned, StoragePrincipal,
  Call, read, write, load_file, load_variants, audit,
}
use nextjs_saas_boilerplate.Storage.Access.{
  GrantInput, can_read_file, can_write_file, has_active_grant, get_file, insert_grant,
  grant_file_access,
}
use nextjs_saas_boilerplate.Storage.Quota.{with_transaction}
use nextjs_saas_boilerplate.Storage.Uploads.{Service}
use nextjs_saas_boilerplate.Storage.Completion.{is_intent_of, is_open, set_expired, update_intents}
use nextjs_saas_boilerplate.Storage.Cleanup.{
  abandon, expire_rows, if_deleted, is_deleted, is_provided, is_pending_provided, cascade,
  delete_rows_of, discard_file, all_deleted, is_expired_intent, is_orphaned, is_discarded,
  expire_intent, release_orphan, cleanup_expired_upload_intents, cleanup_orphaned_files,
  cleanup_deleted_files,
}
use nextjs_saas_boilerplate.Storage.Charges.{is_row}
use nextjs_saas_boilerplate.Storage.Balance.{IsBalanced}
use nextjs_saas_boilerplate.Storage.Sweeps.{clean_all-keeps}
use nextjs_saas_boilerplate.Storage.Removal.{discard_file-IsBalanced}
use nextjs_saas_boilerplate.Storage.Lifecycle.{
  Change, Places, Completes, Erases, GivesUp, Removes, Never, Moves, GivesUp-IsSingle,
  Removes-IsSingle, status_of, Follows, Follows-refl, Follows-trans, Follows-without,
}
use nextjs_saas_boilerplate.Storage.Lives.{
  pending-eq, Follows-abandon, Follows-roll_back, Follows-delete_file,
}
use nextjs_saas_boilerplate.Storage.History.{
  StorageCall, create_intent, upload, complete, delete, expire_intents, release_orphans,
  discard_files, open_file, grant_access, exec, exec_all, exec-IsBalanced,
}
use nextjs_saas_boilerplate.Storage.Transitions.{
  Follows-create_upload_intent, Follows-upload_file, Follows-complete_upload_intent,
}

Follows-if_deleted :
    (Step : Change) (provider_id : String) (deletes : String → Bool) (gone : Bool)
    (call : Call (Unit {0})) (s : StorageStore)
    → Follows Step s.files (call s).1.files
    → Follows Step s.files (if_deleted provider_id deletes gone call s).1.files
Follows-if_deleted Step provider_id deletes true call s f =
    subst (λ (t : StorageStore). Follows Step s.files t.files)
      (sym (continue-pure {B = ℕ} (λ done. 1) (call s))) f
Follows-if_deleted Step provider_id deletes false call s f = Follows-refl Step s.files

is_deleted-eq : (status : StorageFileStatus) → is_deleted status ≡ true → status ≡ deleted
is_deleted-eq StorageFileStatus.pending h = cc
is_deleted-eq available h = cc
is_deleted-eq deleted h = refl
is_deleted-eq abandoned h = cc

module _ (provider_id : String) (deletes : String → Bool) where
  abandon-step :
      (file_id : String) (r : StorageFile)
      → is_pending_provided provider_id deletes file_id r ≡ true
      → GivesUp r.id (some r.status) (some abandoned)
  abandon-step file_id r h = (
    ap (λ (x : StorageFileStatus). some x)
        (pending-eq r.status (and-eq_true _ _ (and-eq_true _ _ h).1).0),
    refl,
  )

  Follows-cleanup_expired :
      (now : ℕ) (s : StorageStore)
      → Follows GivesUp s.files (cleanup_expired_upload_intents provider_id deletes now s).1.files
  unfolding cleanup_expired_upload_intents expire_rows update_intents abandon
  Follows-cleanup_expired now s =
      clean_all-keeps (λ t. Follows GivesUp s.files t.files) (expire_intent provider_id deletes now)
        (λ i t f.
          let u : StorageStore = record t {
            intents =
                update_where (λ row. is_intent_of i.file_id row && is_open row.status)
                  (set_expired now) t.intents;
          } in
          let step =
            Follows-if_deleted GivesUp provider_id deletes (deletes i.object_key)
              (with_transaction (expire_rows provider_id deletes now i)) t
              (Follows-roll_back GivesUp t (expire_rows provider_id deletes now i t) (
                Follows-abandon GivesUp (is_pending_provided provider_id deletes i.file_id)
                  (abandon-step i.file_id) i.tenant_id i.file_id i.byte_size "upload_intent_expired"
                  now u)) in
          Follows-trans GivesUp GivesUp-IsSingle s.files t.files _ f step)
        (select_where (is_expired_intent provider_id deletes now s.files) s.intents) s
        (Follows-refl GivesUp s.files)

  Follows-cleanup_orphaned :
      (older_than now : ℕ) (s : StorageStore)
      → Follows GivesUp s.files
          (cleanup_orphaned_files provider_id deletes older_than now s).1.files
  unfolding cleanup_orphaned_files abandon
  Follows-cleanup_orphaned older_than now s =
      clean_all-keeps (λ t. Follows GivesUp s.files t.files)
        (release_orphan provider_id deletes now)
        (λ file t f.
          let call =
            abandon provider_id deletes file.id file.tenant_id file.byte_size
              "orphaned_file_released" now in
          let step =
            Follows-if_deleted GivesUp provider_id deletes (deletes file.object_key)
              (with_transaction call) t
              (Follows-roll_back GivesUp t (call t) (
                Follows-abandon GivesUp (is_pending_provided provider_id deletes file.id)
                  (abandon-step file.id) file.tenant_id file.id file.byte_size
                  "orphaned_file_released" now t)) in
          Follows-trans GivesUp GivesUp-IsSingle s.files t.files _ f step)
        (select_where (is_orphaned provider_id deletes older_than s.intents) s.files) s
        (Follows-refl GivesUp s.files)

  Follows-delete_rows_of :
      (file_id : String) (s : StorageStore)
      → IsBalanced s
      → Follows Removes s.files (delete_rows_of provider_id deletes file_id s).1.files
  unfolding delete_rows_of cascade
  Follows-delete_rows_of file_id s b =
      let c : StorageFile → Bool = λ r. is_deleted r.status && is_provided provider_id deletes r in
      elim (Bool-cases (any (is_row file_id c) s.files)) [
        | inl found ↦ rw found (
            Follows-without Removes file_id c s.files
              (λ r h. (
                ap (λ (x : StorageFileStatus). some x)
                    (is_deleted-eq r.status (and-eq_true _ _ h).0),
                refl,
              ))
              b.distinct_files found)
        | inr missing ↦ rw missing (Follows-refl Removes s.files)
      ]

  Follows-cleanup_deleted :
      (older_than : ℕ) (s : StorageStore)
      → IsBalanced s
      → Follows Removes s.files (cleanup_deleted_files provider_id deletes older_than s).1.files
  unfolding cleanup_deleted_files discard_file
  Follows-cleanup_deleted older_than s b =
      (clean_all-keeps (λ t. IsBalanced t × Follows Removes s.files t.files)
        (discard_file provider_id deletes)
        (λ file t (b', f). (
          discard_file-IsBalanced provider_id deletes file t b',
          Follows-trans Removes Removes-IsSingle s.files t.files _ f (
              Follows-if_deleted Removes provider_id deletes
                (all_deleted provider_id deletes file (load_variants file.id t))
                (delete_rows_of provider_id deletes file.id) t
                (Follows-delete_rows_of file.id t b')),
        ))
        (select_where (is_discarded provider_id deletes older_than) s.files) s
        (b, Follows-refl Removes s.files)).1

get_file-files :
    (file_id : String) (principal : StoragePrincipal) (now : ℕ) (s : StorageStore)
    → (get_file file_id principal now s).1.files ≡ s.files
unfolding get_file audit
get_file-files file_id principal now s = elim (Option-cases (load_file file_id s)) [
  | inl missing ↦ rw missing
  | inr (file, found) ↦
      elim (Bool-cases
        (can_read_file file principal || has_active_grant s file read principal now)) [
          | inl may ↦ rw (found, may)
          | inr barred ↦ rw (found, barred)
        ]
]

grant_file_access-files :
    (input : GrantInput) (principal : StoragePrincipal) (now : ℕ) (s : StorageStore)
    → (grant_file_access input principal now s).1.files ≡ s.files
unfolding grant_file_access insert_grant audit
grant_file_access-files input principal now s = elim (Option-cases (load_file input.file_id s)) [
  | inl missing ↦ rw missing
  | inr (file, found) ↦
      elim (Bool-cases
        (can_write_file file principal || has_active_grant s file write principal now)) [
          | inl may ↦ rw (found, may)
          | inr barred ↦ rw (found, barred)
        ]
]

-- What a call may do to the status of the file with an id.
unfoldable pub CallStep : StorageCall → Change
CallStep (create_intent input file_id token now) = Places StorageFileStatus.pending file_id
CallStep (upload input blob file_id now) = Places available file_id
CallStep (complete input stored now later) = Completes input.intent_id
CallStep (delete file_id principal now) = Erases file_id
CallStep (expire_intents deletes now) = GivesUp
CallStep (release_orphans deletes older_than now) = GivesUp
CallStep (discard_files deletes older_than) = Removes
CallStep (open_file file_id principal now) = Never
CallStep (grant_access input principal now) = Never

-- A life of a file along some calls: each of them leaves its status, or changes it as it may.
unfoldable pub Life : List StorageCall → Change
unfolding CallStep
Life [] file_id before after = before ≡ after
Life (call ∷ calls) file_id before after =
    (next : Option StorageFileStatus) × Moves (CallStep call) file_id before next
    × Life calls file_id next after

module _ (service : Service) where
  Follows-exec :
      (call : StorageCall) (s : StorageStore)
      → IsBalanced s
      → Follows (CallStep call) s.files (exec service call s).files
  unfolding exec CallStep
  Follows-exec (create_intent input file_id token now) s b =
      Follows-create_upload_intent service input file_id token now s
  Follows-exec (upload input blob file_id now) s b =
      Follows-upload_file service input blob file_id now s
  Follows-exec (complete input stored now later) s b =
      Follows-complete_upload_intent service input stored now later s
  Follows-exec (delete file_id principal now) s b = Follows-delete_file file_id principal now s
  Follows-exec (expire_intents deletes now) s b =
      Follows-cleanup_expired service.provider_id deletes now s
  Follows-exec (release_orphans deletes older_than now) s b =
      Follows-cleanup_orphaned service.provider_id deletes older_than now s
  Follows-exec (discard_files deletes older_than) s b =
      Follows-cleanup_deleted service.provider_id deletes older_than s b
  Follows-exec (open_file file_id principal now) s b =
      subst (Follows Never s.files) (sym (get_file-files file_id principal now s))
        (Follows-refl Never s.files)
  Follows-exec (grant_access input principal now) s b =
      subst (Follows Never s.files) (sym (grant_file_access-files input principal now s))
        (Follows-refl Never s.files)

  -- Whatever calls are made from balanced tables, in whatever order and whichever of them throw, each
  -- of them changes the status of a file at most once and only as it may: a new intent makes the file
  -- with its id pending where it had no row, an upload makes it available there, a completion turns
  -- the pending file of its intent available or abandoned, a deletion turns its available file
  -- deleted, the clean-ups of intents and of orphans turn pending files abandoned, that of deleted
  -- files removes rows of deleted files, and no call changes the status of another file.
  pub exec_all-Life :
      (calls : List StorageCall) (s : StorageStore) (file_id : String)
      → IsBalanced s
      → Life calls file_id
          (status_of file_id s.files)
          (status_of file_id (exec_all service calls s).files)
  unfolding exec_all Life
  exec_all-Life [] s file_id b = refl
  exec_all-Life (call ∷ calls) s file_id b = (
    status_of file_id (exec service call s).files,
    Follows-exec call s b file_id,
    exec_all-Life calls (exec service call s) file_id (exec-IsBalanced service call s b),
  )
