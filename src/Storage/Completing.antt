-- ===== src/Storage/Completing.antt =====
-- The transaction of `completeUploadIntent` keeps the quotas balanced.
use nextjs_saas_boilerplate.Common.{
  ℕ, ◌+◌, ◌≡◌, refl, sym, ap, subst, String, Bool, true, List, [], ◌++◌, some, none, find_where,
  update_where, select_where, All, All-mono, All-append, Option-cases, inl, inr, eq_iff, err,
  and-eq_true, find_where-hit,
}
use nextjs_saas_boilerplate.Common.Actions.{Outcome}
use nextjs_saas_boilerplate.Storage.Store.{
  StorageFile, StorageFileVariant, IntentRow, StorageStore, is_file, is_variant_of, is_pending,
  audit, upload_already_completed,
}
use nextjs_saas_boilerplate.Storage.Quota.{total_bytes, update_file, insert_usage, with_transaction}
use nextjs_saas_boilerplate.Storage.Variants.{persist_rows, persist_variants}
use nextjs_saas_boilerplate.Storage.Verification.{Verified}
use nextjs_saas_boilerplate.Storage.Completion.{
  set_uploaded, set_completed, completed_delta, complete_rows, update_intents, is_taken,
  is_pending_file,
}
use nextjs_saas_boilerplate.Storage.Counting.{Shifts, Shifts-subtract, reserve_quota-counted}
use nextjs_saas_boilerplate.Storage.Charges.{charge, is_row, charged-update_where}
use nextjs_saas_boilerplate.Storage.Balance.{
  IsBalanced, IsSettling, IsPlaced, agrees, bytes_in, find_file-update_where, IsPlaced-update_where,
  Balanced-settle,
}
use nextjs_saas_boilerplate.Storage.Releases.{is_row-found, pending-bytes, pending-agrees}
use nextjs_saas_boilerplate.Storage.Sweeps.{Balanced-intents, update_where-IsReserved}
use nextjs_saas_boilerplate.Storage.Renditions.{AreVariants, IsVariantOf, persist_rows_lem}

pub set_uploaded-IsSettling :
    (verified : Verified) (now : ℕ) → IsSettling (set_uploaded verified now)
set_uploaded-IsSettling verified now = record {
  keeps_id = λ r. refl;
  keeps_tenant = λ r. refl;
  settles = λ r. refl;
}

-- The file that an update settled is found.
settled-found :
    (id : String) (c : StorageFile → Bool) {g : StorageFile → StorageFile}
    → IsSettling g
    → (files : List StorageFile) {file : StorageFile} → find_where (is_row id c) files ≡ some file
    → find_where (is_file id) files ≡ some file
    → find_where (is_file id) (update_where (is_row id c) g files) ≡ some (g file)
settled-found id c {g} settling files e found = rw (
  find_file-update_where (is_row id c) g settling id files,
  found,
  find_where-hit (is_row id c) files e,
)

-- The rows that a completion changes, of a pending file that was found.
module _ (s : StorageStore) (b : IsBalanced s) (intent : IntentRow) (verified : Verified) (now : ℕ)
    (file : StorageFile) (e : find_where (is_pending_file intent.file_id) s.files ≡ some file)
    (agreed : agrees s.files intent.file_id intent.tenant_id intent.byte_size ≡ true)
    (are : AreVariants intent.file_id verified.variants) where
  abbrev files_after : List StorageFile
  files_after = update_where (is_pending_file intent.file_id) (set_uploaded verified now) s.files

  abbrev variants_after : List StorageFileVariant
  variants_after = s.variants ++ verified.variants

  found : find_where (is_file intent.file_id) s.files ≡ some file
  found = is_row-found intent.file_id (λ r. is_pending r.status) s.files b.distinct_files e

  same_id : file.id ≡ intent.file_id
  same_id = (eq_iff _ _).0 (find_where-hit (is_file intent.file_id) s.files found)

  waits : is_pending file.status ≡ true
  waits = (and-eq_true _ _ (find_where-hit (is_pending_file intent.file_id) s.files e)).1

  no_variants : select_where (is_variant_of intent.file_id) s.variants ≡ []
  no_variants =
      subst (λ i. select_where (is_variant_of i) s.variants ≡ []) same_id
        (pending-bytes file s.files s.variants
          (subst (λ i. find_where (is_file i) s.files ≡ some file) (sym same_id) found) waits
          b.placed)

  persisted : persist_rows verified.variants s.variants ≡ variants_after
  persisted = (persist_rows_lem intent.file_id verified.variants s.variants are no_variants).0

  reserved_before :
      (file.tenant_id ≡ intent.tenant_id) × (charge s.variants file ≡ intent.byte_size)
  reserved_before =
      pending-agrees intent.file_id file s intent.tenant_id intent.byte_size found waits
        (rw found at agreed) b.placed

  charge-after :
      charge variants_after (set_uploaded verified now file)
      ≡ verified.blob.byte_length + total_bytes verified.variants
  charge-after =
      ap (λ vs. verified.blob.byte_length + total_bytes vs)
        (subst (λ i. select_where (is_variant_of i) variants_after ≡ verified.variants)
          (sym same_id)
          (persist_rows_lem intent.file_id verified.variants s.variants are no_variants).1)

  completion-Shifts :
      Shifts intent.tenant_id
        (completed_delta verified intent)
        (bytes_in s.files s.variants)
        (bytes_in files_after variants_after)
  completion-Shifts =
      Shifts-subtract intent.tenant_id (verified.blob.byte_length + total_bytes verified.variants)
        intent.byte_size (bytes_in s.files s.variants) (bytes_in files_after variants_after)
        (λ org.
          let moved =
            charged-update_where intent.file_id (λ r. is_pending r.status) org s.variants
              variants_after
              (persist_rows_lem intent.file_id verified.variants s.variants are no_variants).2
              (set_uploaded verified now) (λ r. refl) s.files b.distinct_files e in
          rw (reserved_before.0, reserved_before.1, charge-after) at moved)

  IsPlaced-after : All (IsPlaced files_after) variants_after
  IsPlaced-after =
      All-append (IsPlaced files_after) s.variants verified.variants
        (All-mono (IsPlaced s.files) (IsPlaced files_after) s.variants
          (IsPlaced-update_where (is_pending_file intent.file_id) (set_uploaded verified now)
            (set_uploaded-IsSettling verified now) s.files)
          b.placed)
        (All-mono (IsVariantOf intent.file_id) (IsPlaced files_after) verified.variants
          (λ v own_v.
            rw
              (
                own_v,
                settled-found intent.file_id (λ r. is_pending r.status)
                    (set_uploaded-IsSettling verified now) s.files e found,
              )
              refl)
          are.owned)

  complete_rows-some :
      Outcome (λ t. t ≡ s) IsBalanced (with_transaction (complete_rows intent verified now) s)
  unfolding complete_rows update_file update_intents persist_variants insert_usage audit
  complete_rows-some =
      elim (reserve_quota-counted (completed_delta verified intent) intent.tenant_id now
        (record s { files = files_after }) (bytes_in s.files s.variants)
        (bytes_in files_after variants_after) completion-Shifts b.distinct_quotas b.counted) [
          | inl (thrown, full) ↦ rw (e, full)
          | inr (quotas, room, d, counted) ↦
              rw (e, room, persisted)
                (let settled =
                    Balanced-settle intent.file_id (λ r. is_pending r.status)
                      (set_uploaded-IsSettling verified now) b IsPlaced-after d counted in
                  Balanced-intents settled (
                    update_where-IsReserved files_after (is_taken intent.file_id)
                      (set_completed now) (λ r k. k) s.intents settled.reserved))
        ]

complete_rows-none :
    (s : StorageStore) (intent : IntentRow) (verified : Verified) (now : ℕ)
    → find_where (is_pending_file intent.file_id) s.files ≡ none
    → with_transaction (complete_rows intent verified now) s ≡ (err upload_already_completed, s)
unfolding complete_rows update_file
complete_rows-none s intent verified now e = rw e

-- The transaction leaves balanced quotas, or changes nothing.
pub complete_rows-Outcome :
    (s : StorageStore) (intent : IntentRow) (verified : Verified) (now : ℕ)
    → IsBalanced s
    → agrees s.files intent.file_id intent.tenant_id intent.byte_size ≡ true
    → AreVariants intent.file_id verified.variants
    → Outcome (λ t. t ≡ s) IsBalanced (with_transaction (complete_rows intent verified now) s)
complete_rows-Outcome s intent verified now b agreed are =
    elim (Option-cases (find_where (is_pending_file intent.file_id) s.files)) [
      | inl missing ↦ rw (complete_rows-none s intent verified now missing)
      | inr (file, e) ↦ complete_rows-some s b intent verified now file e agreed are
    ]
