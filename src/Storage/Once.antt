-- ===== src/Storage/Once.antt =====
-- An upload intent is completed once.
use nextjs_saas_boilerplate.Common.{
  ap, ℕ, ◌≡◌, sym, subst, String, Bool, true, false, ◌&&◌, List, [], ◌∷◌, Option, none, find_where,
  find_where-hit, find_where-none, update_where, update_where-All, update_where-none, All, arith,
  Bool-cases, Option-cases, inl, inr, eq_iff, and-eq_true, Result, ok, err,
}
use nextjs_saas_boilerplate.Common.Actions.{◌>>=◌, continue, Outcome, recover, rethrow, get, pure}
use nextjs_saas_boilerplate.Storage.Store.{
  StorageFile, IntentRow, StorageStore, StorageError, Call, load_file, audit, invalid_upload_intent,
}
use nextjs_saas_boilerplate.Storage.Quota.{update_file, insert_usage, with_transaction}
use nextjs_saas_boilerplate.Storage.Counting.{reserve_quota-cases}
use nextjs_saas_boilerplate.Storage.Variants.{persist_variants}
use nextjs_saas_boilerplate.Storage.Uploads.{Service, lift}
use nextjs_saas_boilerplate.Storage.Verification.{CompleteInput, Stored, Verified, verify}
use nextjs_saas_boilerplate.Storage.Completion.{
  is_intent_of, is_claimable, is_pending_file, set_uploaded, completed_delta, set_processing,
  update_intents, claim_intent, complete_rows, after_error, finish_upload, complete_upload_intent,
}

-- No file with an id is pending.
abbrev HasNoPending : String → StorageStore → Type 0
HasNoPending id s = All (λ file. is_pending_file id file ≡ false) s.files

-- After an error nothing is claimed.
abbrev Any : StorageStore → Type 0
Any s = Unit

complete_rows-HasNoPending :
    (intent : IntentRow) (verified : Verified) (now : ℕ) (s : StorageStore)
    → Outcome Any
        (HasNoPending intent.file_id)
        (with_transaction (complete_rows intent verified now) s)
unfolding complete_rows update_file update_intents persist_variants insert_usage audit
complete_rows-HasNoPending intent verified now s =
    let p = is_pending_file intent.file_id in
    let g = set_uploaded verified now in
    elim (Option-cases (find_where p s.files)) [
      | inl missing ↦ rw missing tt
      | inr (file, found) ↦
          elim (reserve_quota-cases (completed_delta verified intent) intent.tenant_id now
            (record s { files = update_where p g s.files })) [
              | inl full ↦ rw (found, full) tt
              | inr (quotas, room) ↦
                  rw (found, room)
                    (update_where-All (λ f. p f ≡ false) p g s.files (λ r hit. ground arith)
                      (λ r miss. miss))
            ]
    ]

rethrow-throws :
    (e : StorageError) (f : Unit {0} → Call (Option StorageFile))
    (r : Result StorageError (Unit {0}) × StorageStore) {answer : Option StorageFile}
    {t : StorageStore}
    → continue f (rethrow e r) ≡ (ok answer, t)
    → ⊥
rethrow-throws e f (ok done, u) k = cc
rethrow-throws e f (err thrown, u) k = cc

pub is_claimable-id :
    (id token_hash : String) (now : ℕ) (files : List StorageFile) (intent : IntentRow)
    → is_claimable id token_hash now files intent ≡ true
    → is_intent_of id intent ≡ true
is_claimable-id id token_hash now files intent h =
    (and-eq_true _ _ (and-eq_true _ _ (and-eq_true _ _ (and-eq_true _ _ h).0).0).0).0

and-false : (a : Bool) → (a && false) ≡ false
and-false a = ground arith

All-every : (P : IntentRow → Type 0) (rows : List IntentRow) → ((r : IntentRow) → P r) → All P rows
All-every P [] h = tt
All-every P (r ∷ rows) h = (h r, All-every P rows h)

is_claimable-none :
    (id token_hash : String) (now : ℕ) (files : List StorageFile)
    → All (λ file. is_pending_file id file ≡ false) files
    → (intent : IntentRow) → is_claimable id token_hash now files intent ≡ false
is_claimable-none id token_hash now files h intent = elim (Bool-cases (is_intent_of id intent)) [
  | inr other ↦ rw other
  | inl hit ↦
      let nowhere : find_where (is_pending_file intent.file_id) files ≡ none =
        subst (λ i. find_where (is_pending_file i) files ≡ none) (sym ((eq_iff _ _).0 hit))
          (find_where-none (is_pending_file id) files h) in
      rw nowhere (and-false _)
]

module _ (service : Service) where
  finish_upload-HasNoPending :
      (input : CompleteInput) (stored : Stored) (intent : IntentRow) (now : ℕ) (s : StorageStore)
      → Outcome Any (HasNoPending intent.file_id) (finish_upload service input stored intent now s)
  unfolding finish_upload
  finish_upload-HasNoPending input stored intent now s =
      after (verify service input stored intent (load_file intent.file_id s))
    where
      after :
          (v : Result StorageError Verified)
          → Outcome Any
              (HasNoPending intent.file_id)
              ((lift v >>= λ verified. with_transaction (complete_rows intent verified now)) s)
      after (err e) = tt
      after (ok verified) = complete_rows-HasNoPending intent verified now s

  -- What stands of a call that returned.
  returned :
      (id : String) (intent : IntentRow) (handle : StorageError → Call (Unit {0}))
      (r : Result StorageError (Unit {0}) × StorageStore)
      → Outcome Any (HasNoPending id) r
      → {answer : Option StorageFile} {t : StorageStore}
      → continue (λ done. get >>= λ u. pure (load_file intent.file_id u)) (recover handle r)
        ≡ (ok answer, t)
      → HasNoPending id t
  returned id intent handle (ok done, u) h {answer} {t} e =
      subst (HasNoPending id)
        (ap (λ (x : Result StorageError (Option StorageFile) × StorageStore). x.1) e) h
  returned id intent handle (err e, u) h {answer} {t} k = absurd (rethrow-throws e _ (handle e u) k)

  complete_upload_intent-HasNoPending :
      (input : CompleteInput) (stored : Stored) (now later : ℕ) (s t : StorageStore)
      (answer : Option StorageFile)
      → complete_upload_intent service input stored now later s ≡ (ok answer, t)
      → HasNoPending input.intent_id t
  unfolding complete_upload_intent claim_intent
  complete_upload_intent-HasNoPending input stored now later s t answer e =
      let p = is_claimable input.intent_id (service.hash input.token) now s.files in
      let claimed : StorageStore = record s {
        intents = update_where p (set_processing now) s.intents;
      } in
      elim (Option-cases (find_where p s.intents)) [
        | inl missing ↦
            let thrown : ◌≡◌ {A = Result StorageError (Option StorageFile) × StorageStore}
                (err invalid_upload_intent, claimed) (ok answer, t) =
              rw missing at e in
            cc
        | inr (intent, found) ↦
            let same : intent.file_id ≡ input.intent_id = (eq_iff _ _).0 (
              is_claimable-id input.intent_id _ now s.files intent
                (find_where-hit p s.intents found)) in
            subst (λ i. HasNoPending i t) same
              (returned intent.file_id intent (after_error intent now later)
                (finish_upload service input stored intent now claimed)
                (finish_upload-HasNoPending input stored intent now claimed) (rw found at e))
      ]

  -- Where no file with the id is pending, nothing is claimed.
  complete_upload_intent-refused :
      (input : CompleteInput) (stored : Stored) (now later : ℕ) (s : StorageStore)
      → HasNoPending input.intent_id s
      → complete_upload_intent service input stored now later s ≡ (err invalid_upload_intent, s)
  unfolding complete_upload_intent claim_intent
  complete_upload_intent-refused input stored now later s h =
      let p = is_claimable input.intent_id (service.hash input.token) now s.files in
      let none_of : All (λ i. p i ≡ false) s.intents =
        All-every (λ i. p i ≡ false) s.intents
          (is_claimable-none input.intent_id _ now s.files h) in
      rw (
        find_where-none p s.intents none_of,
        update_where-none p (set_processing now) s.intents none_of,
      )

  -- After a completion that returned, whoever completes the same intent again, with whatever bytes and
  -- whenever, is told that the intent is invalid, and nothing changes.
  pub complete_upload_intent_once :
      (input other : CompleteInput) (stored stored' : Stored) (now later now' later' : ℕ)
      (s t : StorageStore) (answer : Option StorageFile)
      → complete_upload_intent service input stored now later s ≡ (ok answer, t)
      → other.intent_id ≡ input.intent_id
      → complete_upload_intent service other stored' now' later' t ≡ (err invalid_upload_intent, t)
  complete_upload_intent_once input other stored stored' now later now' later' s t answer e same =
      complete_upload_intent-refused other stored' now' later' t (
        subst (λ i. HasNoPending i t) (sym same)
          (complete_upload_intent-HasNoPending input stored now later s t answer e))
