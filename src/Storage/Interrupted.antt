-- ===== src/Storage/Interrupted.antt =====
-- What the clean-up of one row leaves of another file, whose upload is being completed.
use nextjs_saas_boilerplate.Common.{
  ℕ, ◌≡◌, refl, sym, subst, String, Bool, true, false, not, ◌&&◌, List, Option, none, some, any,
  ◌==◌, find_where, update_where, find_where-update_apart, find_where-select_where, All,
  All-update_where, All-select_where, find_where-hit, Bool-cases, inl, inr, eq_iff, and-eq_true,
  Result, ok, err,
}
use nextjs_saas_boilerplate.Common.Actions.{continue, pure}
use nextjs_saas_boilerplate.Storage.Store.{
  StorageFile, IntentRow, StorageStore, StorageError, Call, is_file, is_pending, load_variants,
}
use nextjs_saas_boilerplate.Storage.Quota.{
  update_file, give_back, insert_usage, with_transaction, roll_back,
}
use nextjs_saas_boilerplate.Storage.Deletion.{reserve_quota-negate}
use nextjs_saas_boilerplate.Storage.Completion.{
  update_intents, set_expired, set_abandoned, is_intent_of, is_open, is_taken,
}
use nextjs_saas_boilerplate.Storage.Cleanup.{
  abandon, expire_rows, expire_intent, release_orphan, discard_file, delete_rows_of, cascade,
  if_deleted, all_deleted, is_pending_provided, is_removable,
}
use nextjs_saas_boilerplate.Storage.Sweeps.{give_back-files}

-- The file with an id is pending, and its intent is being processed.
pub record Processing (file_id : String) (file : StorageFile) (intent : IntentRow)
    (files : List StorageFile) (intents : List IntentRow) : Type 0 where
  pub loaded : find_where (is_file file_id) files ≡ some file
  pub waiting : All (λ f. (is_file file_id f && not (is_pending f.status)) ≡ false) files
  pub taken : find_where (is_taken file_id) intents ≡ some intent
  pub closed : All (λ i. (is_intent_of file_id i && is_open i.status) ≡ false) intents

abbrev pub IsProcessing : String → StorageFile → IntentRow → StorageStore → Type 0
IsProcessing file_id file intent s = Processing file_id file intent s.files s.intents

pub no_both : {b : Bool} → b ≡ false → b ≡ true → ⊥
no_both e f = cc

apart : (a b c : String) → (a == b) ≡ true → (b == c) ≡ false → (a == c) ≡ false
apart a b c e ne = subst (λ x. (x == c) ≡ false) (sym ((eq_iff a b).0 e)) ne

differs : (a b c : String) → (a == c) ≡ true → (b == c) ≡ false → (a == b) ≡ false
differs a b c e ne = elim (Bool-cases (a == b)) [
  | inl same ↦ absurd (no_both (apart a b c same ne) e)
  | inr other ↦ other
]

give_back-intents :
    (tenant_id file_id : String) (bytes : ℕ) (reason : String) (now : ℕ)
    (updated : Option StorageFile) (s : StorageStore)
    → (give_back tenant_id file_id bytes reason now updated s).1.intents ≡ s.intents
unfolding give_back insert_usage
give_back-intents tenant_id file_id bytes reason now none s = refl
give_back-intents tenant_id file_id bytes reason now (some file) s =
    rw (reserve_quota-negate bytes tenant_id now s)

module _ (file_id : String) (file : StorageFile) (intent : IntentRow) where
  -- Updates of the rows of other files.
  Processing-update_files :
      (p : StorageFile → Bool) (f : StorageFile → StorageFile)
      → ((r : StorageFile) → (f r).id ≡ r.id)
      → ((r : StorageFile) → p r ≡ true → is_file file_id r ≡ false)
      → (files : List StorageFile) (intents : List IntentRow)
      → Processing file_id file intent files intents
      → Processing file_id file intent (update_where p f files) intents
  Processing-update_files p f keeps other files intents h = record {
    loaded =
        rw
          (find_where-update_apart (is_file file_id) p f files
            (λ r hit. (other r hit, rw (keeps r) (other r hit))))
          h.loaded;
    waiting =
        All-update_where (λ g. (is_file file_id g && not (is_pending g.status)) ≡ false) p f files
          (λ r k hit. rw (keeps r, other r hit) refl) h.waiting;
    taken = h.taken;
    closed = h.closed;
  }

  Processing-update_intents :
      (p : IntentRow → Bool) (f : IntentRow → IntentRow)
      → ((r : IntentRow) → (f r).file_id ≡ r.file_id)
      → ((r : IntentRow) → p r ≡ true → is_intent_of file_id r ≡ false)
      → (files : List StorageFile) (intents : List IntentRow)
      → Processing file_id file intent files intents
      → Processing file_id file intent files (update_where p f intents)
  Processing-update_intents p f keeps other files intents h = record {
    loaded = h.loaded;
    waiting = h.waiting;
    taken =
        rw
          (find_where-update_apart (is_taken file_id) p f intents
            (λ r hit. (rw (other r hit) refl, rw (keeps r, other r hit) refl)))
          h.taken;
    closed =
        All-update_where (λ i. (is_intent_of file_id i && is_open i.status) ≡ false) p f intents
          (λ r k hit. rw (keeps r, other r hit) refl) h.closed;
  }

  module _ (provider_id : String) (deletes : String → Bool) where
    abandon-IsProcessing :
        (other_id tenant_id : String) (bytes : ℕ) (reason : String) (now : ℕ) (s : StorageStore)
        → (other_id == file_id) ≡ false
        → IsProcessing file_id file intent s
        → IsProcessing file_id file intent
            (abandon provider_id deletes other_id tenant_id bytes reason now s).1
    unfolding abandon update_file
    abandon-IsProcessing other_id tenant_id bytes reason now s ne h =
        let p = is_pending_provided provider_id deletes other_id in
        let g = set_abandoned now in
        let files = update_where p g s.files in
        let t : StorageStore = record s { files = files } in
        let updated = find_where p s.files in
        rw
          (
            give_back-files tenant_id other_id bytes reason now updated t,
            give_back-intents tenant_id other_id bytes reason now updated t,
          )
          (Processing-update_files p g (λ r. refl)
            (λ r hit. apart r.id other_id file_id (and-eq_true _ _ hit).0 ne) s.files s.intents h)

    roll_back-IsProcessing :
        (call : Call (Unit {0})) (s : StorageStore)
        → IsProcessing file_id file intent s
        → IsProcessing file_id file intent (call s).1
        → IsProcessing file_id file intent (with_transaction call s).1
    roll_back-IsProcessing call s h k = after (call s) k
      where
        after :
            (r : Result StorageError (Unit {0}) × StorageStore)
            → IsProcessing file_id file intent r.1
            → IsProcessing file_id file intent (roll_back s r).1
        after (ok a, t) k = k
        after (err e, t) k = h

    if_deleted-IsProcessing :
        (gone : Bool) (call : Call (Unit {0})) (s : StorageStore)
        → IsProcessing file_id file intent s
        → IsProcessing file_id file intent (call s).1
        → IsProcessing file_id file intent (if_deleted provider_id deletes gone call s).1
    if_deleted-IsProcessing false call s h k = h
    if_deleted-IsProcessing true call s h k = after (call s) k
      where
        after :
            (r : Result StorageError (Unit {0}) × StorageStore)
            → IsProcessing file_id file intent r.1
            → IsProcessing file_id file intent (continue {B = ℕ} (λ done. pure 1) r).1
        after (ok a, t) k = k
        after (err e, t) k = k

    pub expire_intent-IsProcessing :
        (now : ℕ) (row : IntentRow) (s : StorageStore)
        → is_intent_of file_id row ≡ false
        → IsProcessing file_id file intent s
        → IsProcessing file_id file intent (expire_intent provider_id deletes now row s).1
    unfolding expire_rows update_intents
    expire_intent-IsProcessing now row s ne h =
        let call = expire_rows provider_id deletes now row in
        if_deleted-IsProcessing (deletes row.object_key) (with_transaction call) s h (
          roll_back-IsProcessing call s h (
            abandon-IsProcessing row.file_id row.tenant_id row.byte_size "upload_intent_expired" now
              _ ne
              (Processing-update_intents (λ i. is_intent_of row.file_id i && is_open i.status)
                (set_expired now) (λ i. refl)
                (λ i hit. apart i.file_id row.file_id file_id (and-eq_true _ _ hit).0 ne) s.files
                s.intents h)))

    pub release_orphan-IsProcessing :
        (now : ℕ) (row : StorageFile) (s : StorageStore)
        → is_file file_id row ≡ false
        → IsProcessing file_id file intent s
        → IsProcessing file_id file intent (release_orphan provider_id deletes now row s).1
    release_orphan-IsProcessing now row s ne h =
        let call =
          abandon provider_id deletes row.id row.tenant_id row.byte_size "orphaned_file_released"
            now in
        if_deleted-IsProcessing (deletes row.object_key) (with_transaction call) s h (
          roll_back-IsProcessing call s h (
            abandon-IsProcessing row.id row.tenant_id row.byte_size "orphaned_file_released" now s
              ne h))

    cascade-IsProcessing :
        (other_id : String) (s : StorageStore)
        → (other_id == file_id) ≡ false
        → IsProcessing file_id file intent s
        → IsProcessing file_id file intent (cascade other_id s)
    unfolding cascade
    cascade-IsProcessing other_id s ne h = record {
      loaded =
          find_where-select_where (is_file file_id) (λ f. not (is_file other_id f)) s.files h.loaded
            (rw
              (differs file.id other_id file_id (find_where-hit (is_file file_id) s.files h.loaded)
                ne)
              refl);
      waiting =
          All-select_where (λ f. (is_file file_id f && not (is_pending f.status)) ≡ false)
            (λ f. not (is_file other_id f)) s.files h.waiting;
      taken =
          find_where-select_where (is_taken file_id) (λ i. not (is_intent_of other_id i)) s.intents
            h.taken
            (rw
              (differs intent.file_id other_id file_id
                (and-eq_true _ _ (find_where-hit (is_taken file_id) s.intents h.taken)).0 ne)
              refl);
      closed =
          All-select_where (λ i. (is_intent_of file_id i && is_open i.status) ≡ false)
            (λ i. not (is_intent_of other_id i)) s.intents h.closed;
    }

    pub discard_file-IsProcessing :
        (row : StorageFile) (s : StorageStore)
        → is_file file_id row ≡ false
        → IsProcessing file_id file intent s
        → IsProcessing file_id file intent (discard_file provider_id deletes row s).1
    unfolding discard_file delete_rows_of
    discard_file-IsProcessing row s ne h =
        if_deleted-IsProcessing (all_deleted provider_id deletes row (load_variants row.id s))
          (delete_rows_of provider_id deletes row.id) s h
          (elim (Bool-cases (any (is_removable provider_id deletes row.id) s.files)) [
            | inl hit ↦ rw hit (cascade-IsProcessing row.id s ne h)
            | inr miss ↦ rw miss h
          ])
