-- ===== src/Storage/Stuck.antt =====
-- What the clean-ups leave of a file whose upload is being completed.
use nextjs_saas_boilerplate.Common.{
  ℕ, ◌+◌, ◌≡◌, refl, sym, subst, String, Bool, true, false, not, ◌&&◌, List, [], ◌∷◌, some, any,
  ◌==◌, find_where, select_where, All, All-select_where_test, All-mono, arith, Bool-cases, inl, inr,
  eq_iff, and-eq_true, Result, ok, err,
}
use nextjs_saas_boilerplate.Common.Actions.{◌>>=◌, continue, pure, continue-pure}
use nextjs_saas_boilerplate.Storage.Store.{
  StorageFile, StorageFileStatus, IntentRow, StorageStore, StorageError, Call, available, deleted,
  abandoned, is_file, is_pending,
}
use nextjs_saas_boilerplate.Storage.Uploads.{Service}
use nextjs_saas_boilerplate.Storage.Completion.{is_intent_of, is_taken}
use nextjs_saas_boilerplate.Storage.Cleanup.{
  clean_all, expire_intent, release_orphan, discard_file, cleanup_expired_upload_intents,
  cleanup_orphaned_files, cleanup_deleted_files, is_expired_intent, is_orphaned, is_discarded,
  is_deleted, is_live_intent,
}
use nextjs_saas_boilerplate.Storage.History.{
  StorageCall, expire_intents, release_orphans, discard_files, exec, exec_all,
}
use nextjs_saas_boilerplate.Storage.Interrupted.{
  IsProcessing, no_both, expire_intent-IsProcessing, release_orphan-IsProcessing,
  discard_file-IsProcessing,
}

-- One row after another, with what was tested of each of them.
clean_all-keeps_tested :
    {A : Type 0} (P : StorageStore → Type 0) (Q : A → Type 0) (clean : A → Call ℕ)
    → ((a : A) (s : StorageStore) → Q a → P s → P (clean a s).1)
    → (rows : List A) (s : StorageStore) → All Q rows
    → P s
    → P (clean_all clean rows s).1
unfolding clean_all
clean_all-keeps_tested P Q clean step [] s q h = h
clean_all-keeps_tested P Q clean step (row ∷ rows) s (q, qs) h =
    after (λ t. clean_all-keeps_tested P Q clean step rows t qs) (clean row s) (step row s q h)
  where
    after :
        ((t : StorageStore) → P t → P (clean_all clean rows t).1)
        → (r : Result StorageError ℕ × StorageStore) → P r.1
        → P (continue (λ m. clean_all clean rows >>= λ n. pure (m + n)) r).1
    after rest (err e, t) h = h
    after rest (ok m, t) h =
        subst P (sym (continue-pure (λ n. m + n) (clean_all clean rows t))) (rest t h)

All-selected :
    {A : Type 0} {P Q : A → Type 0} (p : A → Bool) (rows : List A)
    → ((a : A) → P a → p a ≡ true → Q a)
    → All P rows
    → All Q (select_where p rows)
All-selected {A} {P} {Q} p rows step h =
    All-mono (λ r. P r × (p r ≡ true)) Q (select_where p rows) (λ r k. step r k.0 k.1)
      (All-select_where_test P p rows h)

shut : (a b : Bool) → (a && b) ≡ false → b ≡ true → a ≡ false
shut a b h e = ground arith

unpending : (status : StorageFileStatus) → is_deleted status ≡ true → not (is_pending status) ≡ true
unpending StorageFileStatus.pending h = cc
unpending available h = cc
unpending deleted h = refl
unpending abandoned h = cc

any-found :
    {A : Type 0} (p q : A → Bool) (rows : List A) {r : A}
    → ((a : A) → p a ≡ true → q a ≡ true)
    → find_where p rows ≡ some r
    → any q rows ≡ true
unfolding find_where
any-found p q [] implies e = cc
any-found p q (x ∷ rows) implies e = elim (Bool-cases (p x)) [
  | inl hit ↦ rw (implies x hit) refl
  | inr miss ↦
      let rest = any-found p q rows implies (rw miss at e) in
      elim (Bool-cases (q x)) [ inl hit ↦ rw hit refl | inr other ↦ rw other rest ]
]

module _ (file_id : String) (file : StorageFile) (intent : IntentRow) where
  -- A file that no live intent has is another one.
  unorphaned :
      (other_id : String) (intents : List IntentRow)
      → find_where (is_taken file_id) intents ≡ some intent
      → not (any (is_live_intent "" (λ key. true) other_id) intents) ≡ true
      → (other_id == file_id) ≡ false
  unorphaned other_id intents e k = elim (Bool-cases (other_id == file_id)) [
    | inr other ↦ other
    | inl same ↦
        let here : find_where (is_taken other_id) intents ≡ some intent =
          subst (λ i. find_where (is_taken i) intents ≡ some intent) (sym ((eq_iff _ _).0 same))
            e in
        let live =
          any-found (is_taken other_id) (is_live_intent "" (λ key. true) other_id) intents
            (λ a h. ground arith) here in
        absurd (no_both refl (rw live at k))
  ]

  module _ (provider_id : String) (deletes : String → Bool) where
    cleanup_expired_upload_intents-IsProcessing :
        (now : ℕ) (s : StorageStore)
        → IsProcessing file_id file intent s
        → IsProcessing file_id file intent
            (cleanup_expired_upload_intents provider_id deletes now s).1
    unfolding cleanup_expired_upload_intents
    cleanup_expired_upload_intents-IsProcessing now s h =
        clean_all-keeps_tested (IsProcessing file_id file intent)
          (λ row. is_intent_of file_id row ≡ false) (expire_intent provider_id deletes now)
          (expire_intent-IsProcessing file_id file intent provider_id deletes now)
          (select_where (is_expired_intent provider_id deletes now s.files) s.intents) s
          (All-selected (is_expired_intent provider_id deletes now s.files) s.intents
            (λ row k hit. shut _ _ k (and-eq_true _ _ (and-eq_true _ _ hit).0).0) h.closed)
          h

    cleanup_orphaned_files-IsProcessing :
        (older_than now : ℕ) (s : StorageStore)
        → IsProcessing file_id file intent s
        → IsProcessing file_id file intent
            (cleanup_orphaned_files provider_id deletes older_than now s).1
    unfolding cleanup_orphaned_files
    cleanup_orphaned_files-IsProcessing older_than now s h =
        clean_all-keeps_tested (IsProcessing file_id file intent)
          (λ row. is_file file_id row ≡ false) (release_orphan provider_id deletes now)
          (release_orphan-IsProcessing file_id file intent provider_id deletes now)
          (select_where (is_orphaned provider_id deletes older_than s.intents) s.files) s
          (All-selected (is_orphaned provider_id deletes older_than s.intents) s.files
            (λ row k hit. unorphaned row.id s.intents h.taken (and-eq_true _ _ hit).1) h.waiting)
          h

    cleanup_deleted_files-IsProcessing :
        (older_than : ℕ) (s : StorageStore)
        → IsProcessing file_id file intent s
        → IsProcessing file_id file intent
            (cleanup_deleted_files provider_id deletes older_than s).1
    unfolding cleanup_deleted_files
    cleanup_deleted_files-IsProcessing older_than s h =
        clean_all-keeps_tested (IsProcessing file_id file intent)
          (λ row. is_file file_id row ≡ false) (discard_file provider_id deletes)
          (discard_file-IsProcessing file_id file intent provider_id deletes)
          (select_where (is_discarded provider_id deletes older_than) s.files) s
          (All-selected (is_discarded provider_id deletes older_than) s.files
            (λ row k hit.
              shut _ _ k (unpending row.status (and-eq_true _ _ (and-eq_true _ _ hit).0).0))
            h.waiting)
          h

-- The three clean-ups.
pub data IsCleanup : StorageCall → Type 0 where
  expiring : {deletes : String → Bool} {now : ℕ} → IsCleanup (expire_intents deletes now)
  releasing :
      {deletes : String → Bool} {older_than now : ℕ}
      → IsCleanup (release_orphans deletes older_than now)
  discarding :
      {deletes : String → Bool} {older_than : ℕ} → IsCleanup (discard_files deletes older_than)

module _ (service : Service) (file_id : String) (file : StorageFile) (intent : IntentRow) where
  exec-IsProcessing :
      {call : StorageCall} (s : StorageStore)
      → IsCleanup call
      → IsProcessing file_id file intent s
      → IsProcessing file_id file intent (exec service call s)
  unfolding exec
  exec-IsProcessing s (expiring {deletes} {now}) h =
      cleanup_expired_upload_intents-IsProcessing file_id file intent service.provider_id deletes
        now s h
  exec-IsProcessing s (releasing {deletes} {older_than} {now}) h =
      cleanup_orphaned_files-IsProcessing file_id file intent service.provider_id deletes older_than
        now s h
  exec-IsProcessing s (discarding {deletes} {older_than}) h =
      cleanup_deleted_files-IsProcessing file_id file intent service.provider_id deletes older_than
        s h

  -- Where every file row with an id is pending, the first intent with the id that is being processed
  -- is given and no intent with the id is open, no sequence of clean-ups, whenever they run and
  -- whatever the adapter deletes, changes the file or that intent, also after the intent's expiry.
  pub exec_all-IsProcessing :
      (calls : List StorageCall) (s : StorageStore)
      → All IsCleanup calls
      → IsProcessing file_id file intent s
      → IsProcessing file_id file intent (exec_all service calls s)
  unfolding exec_all
  exec_all-IsProcessing [] s c h = h
  exec_all-IsProcessing (call ∷ calls) s (c, cs) h =
      exec_all-IsProcessing calls (exec service call s) cs (exec-IsProcessing s c h)
