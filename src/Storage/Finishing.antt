-- ===== src/Storage/Finishing.antt =====
-- `completeUploadIntent` keeps the quotas balanced, whichever of its steps throws.
use nextjs_saas_boilerplate.Common.{
  ℕ, ◌≡◌, refl, Bool, List, Option, some, none, find_where, find_where-All, update_where,
  Bool-cases, Option-cases, inl, inr, Result, ok, err, Returns, Returns->>=, ok-injective,
}
use nextjs_saas_boilerplate.Common.Actions.{
  ◌>>=◌, Outcome, continue, recover, continue-get, rethrow-store,
}
use nextjs_saas_boilerplate.Storage.Store.{
  StorageFile, IntentRow, StorageStore, StorageError, is_pending, load_file,
}
use nextjs_saas_boilerplate.Storage.Quota.{update_file, give_back, with_transaction, roll_back}
use nextjs_saas_boilerplate.Storage.Uploads.{Service, lift}
use nextjs_saas_boilerplate.Storage.Variants.{Original, create_managed_variants}
use nextjs_saas_boilerplate.Storage.Validation.{Blob}
use nextjs_saas_boilerplate.Storage.Verification.{
  CompleteInput, Stored, Verified, check_object, store_object, is_put, verify, value_or,
  original_of_intent,
}
use nextjs_saas_boilerplate.Storage.Completion.{
  set_processing, set_expired, set_abandoned, set_reopened, is_claimable, is_taken, is_reopened,
  is_permanent, is_pending_file, claim_intent, complete_rows, release_rows, after_error,
  finish_upload, update_intents, complete_upload_intent,
}
use nextjs_saas_boilerplate.Storage.Balance.{IsBalanced, IsReserved}
use nextjs_saas_boilerplate.Storage.Releases.{give_back-IsBalanced}
use nextjs_saas_boilerplate.Storage.Sweeps.{
  Balanced-intents, update_where-IsReserved, set_abandoned-IsSettling,
}
use nextjs_saas_boilerplate.Storage.Renditions.{AreVariants, create_managed_variants-AreVariants}
use nextjs_saas_boilerplate.Storage.Completing.{complete_rows-Outcome}

-- An update of the intents, after a step that left balanced quotas.
update_intents-IsBalanced :
    (p : IntentRow → Bool) (f : IntentRow → IntentRow)
    → ((files : List StorageFile) (r : IntentRow) → IsReserved files r → IsReserved files (f r))
    → (s : StorageStore) → IsBalanced s
    → IsBalanced (update_intents p f s).1
unfolding update_intents
update_intents-IsBalanced p f keeps s b =
    Balanced-intents b (update_where-IsReserved s.files p f (keeps s.files) s.intents b.reserved)

release_rows-IsBalanced :
    (intent : IntentRow) (now : ℕ) (s : StorageStore)
    → IsBalanced s
    → IsReserved s.files intent
    → IsBalanced (release_rows intent now s).1
unfolding release_rows update_file
release_rows-IsBalanced intent now s b r =
    after
      ((update_file (is_pending_file intent.file_id) (set_abandoned now)
          >>= give_back intent.tenant_id intent.file_id intent.byte_size "upload_intent_released"
              now)
        s)
      (give_back-IsBalanced intent.file_id (λ f. is_pending f.status) (set_abandoned-IsSettling now)
        (λ f. refl) (λ f h. h) intent.tenant_id intent.byte_size "upload_intent_released" now s r b)
  where
    after :
        (r : Result StorageError (Unit {0}) × StorageStore)
        → IsBalanced r.1
        → IsBalanced
            (continue (λ done. update_intents (is_taken intent.file_id) (set_expired now)) r).1
    after (ok done, t) b' =
        update_intents-IsBalanced (is_taken intent.file_id) (set_expired now) (λ files i k. k) t b'
    after (err e, t) b' = b'

roll_back-IsBalanced :
    (s : StorageStore) (r : Result StorageError (Unit {0}) × StorageStore)
    → IsBalanced s
    → IsBalanced r.1
    → IsBalanced (roll_back s r).1
roll_back-IsBalanced s (ok a, t) b h = h
roll_back-IsBalanced s (err e, t) b h = b

after_error-IsBalanced :
    (intent : IntentRow) (now later : ℕ) (e : StorageError) (s : StorageStore)
    → IsBalanced s
    → IsReserved s.files intent
    → IsBalanced (after_error intent now later e s).1
unfolding after_error
after_error-IsBalanced intent now later e s b r = elim (Bool-cases (is_permanent e)) [
  | inl permanent ↦ rw permanent (
      roll_back-IsBalanced s (release_rows intent now s) b
        (release_rows-IsBalanced intent now s b r))
  | inr passing ↦ rw passing (
      update_intents-IsBalanced (is_reopened intent.file_id later) (set_reopened later)
        (λ files i k. k) s b)
]

value_or-ok :
    {A : Type 0} (o : Option A) (e : StorageError) {a : A} → value_or o e ≡ ok a → o ≡ some a
value_or-ok none e h = cc
value_or-ok (some a) e h = rw (ok-injective h)

module _ (service : Service) where
  -- The checks give variants of the intent's file.
  store_object-AreVariants :
      (uploaded : Option Blob) (original : Original)
      → Returns
          (λ v. AreVariants original.file_id v.variants)
          (store_object service uploaded original)
  unfolding store_object
  store_object-AreVariants uploaded original = elim (Bool-cases (service.is_clean original.blob)) [
    | inr infected ↦ rw infected tt
    | inl clean ↦ elim (Option-cases (create_managed_variants service.media original)) [
      | inl thrown ↦ rw (clean, thrown) tt
      | inr (variants, made) ↦ elim (Bool-cases (is_put service uploaded original.object_key)) [
        | inr lost ↦ rw (clean, made, lost) tt
        | inl kept ↦
            rw (clean, made, kept) (create_managed_variants-AreVariants service.media original made)
      ]
    ]
  ]

  verify-AreVariants :
      (input : CompleteInput) (stored : Stored) (intent : IntentRow) (row : Option StorageFile)
      → Returns
          (λ v. AreVariants intent.file_id v.variants)
          (verify service input stored intent row)
  unfolding verify
  verify-AreVariants input stored intent row =
      Returns->>= (λ v. AreVariants intent.file_id v.variants)
        (check_object service input stored intent row)
        (λ checked. store_object service input.uploaded (original_of_intent intent checked))
        (λ checked e. store_object-AreVariants input.uploaded (original_of_intent intent checked))

  -- The `try` leaves balanced quotas, or changes nothing.
  finish_upload-Outcome :
      (input : CompleteInput) (stored : Stored) (intent : IntentRow) (now : ℕ) (s : StorageStore)
      → IsBalanced s
      → IsReserved s.files intent
      → Outcome (λ t. t ≡ s) IsBalanced (finish_upload service input stored intent now s)
  unfolding finish_upload
  finish_upload-Outcome input stored intent now s b r =
      after (verify service input stored intent (load_file intent.file_id s))
        (verify-AreVariants input stored intent (load_file intent.file_id s))
    where
      after :
          (v : Result StorageError Verified)
          → Returns (λ v. AreVariants intent.file_id v.variants) v
          → Outcome
              (λ t. t ≡ s)
              IsBalanced
              ((lift v >>= λ verified. with_transaction (complete_rows intent verified now)) s)
      after (err e) h = refl
      after (ok verified) h = complete_rows-Outcome s intent verified now b r h

  attempt-IsBalanced :
      (intent : IntentRow) (now later : ℕ) (s : StorageStore)
      → IsBalanced s
      → IsReserved s.files intent
      → (r : Result StorageError (Unit {0}) × StorageStore) → Outcome (λ t. t ≡ s) IsBalanced r
      → IsBalanced (recover (after_error intent now later) r).1
  attempt-IsBalanced intent now later s b r (ok done, t) h = h
  attempt-IsBalanced intent now later s b r (err e, t) h =
      rw (h, rethrow-store e (after_error intent now later e s))
        (after_error-IsBalanced intent now later e s b r)

  -- The quotas stay balanced whatever the call answers: on success the file is charged for its bytes
  -- and those of its variants, after a permanent failure it is charged nothing, and after any other
  -- error it is charged as before.
  pub complete_upload_intent-IsBalanced :
      (input : CompleteInput) (stored : Stored) (now later : ℕ) (s : StorageStore)
      → IsBalanced s
      → IsBalanced (complete_upload_intent service input stored now later s).1
  unfolding complete_upload_intent claim_intent
  complete_upload_intent-IsBalanced input stored now later s b =
      let p = is_claimable input.intent_id (service.hash input.token) now s.files in
      let claimed : StorageStore = record s {
        intents = update_where p (set_processing now) s.intents;
      } in
      let b' : IsBalanced claimed =
        Balanced-intents b (
          update_where-IsReserved s.files p (set_processing now) (λ r k. k) s.intents b.reserved) in
      elim (Option-cases (find_where p s.intents)) [
        | inl missing ↦ rw missing b'
        | inr (intent, e) ↦
            let reserved = (find_where-All (IsReserved s.files) p s.intents b.reserved e).0 in
            rw
              (
                e,
                continue-get (load_file intent.file_id) (
                    recover (after_error intent now later)
                      (finish_upload service input stored intent now claimed)),
              )
              (attempt-IsBalanced intent now later claimed b' reserved
                (finish_upload service input stored intent now claimed)
                (finish_upload-Outcome input stored intent now claimed b' reserved))
      ]
