-- ===== src/Storage/Sweeps.antt =====
-- The clean-ups of expired intents and of orphaned files keep the quotas balanced.
use nextjs_saas_boilerplate.Common.{
  ℕ, ◌+◌, ◌≡◌, refl, sym, subst, String, Bool, true, false, ◌&&◌, List, [], ◌∷◌, Option, some, none,
  find_where, update_where, select_where, has_key, Distinct-found, All, All-mono, All-update_where,
  All-select_where, arith, eq_refl, Result, ok, err, and-eq_true,
}
use nextjs_saas_boilerplate.Common.Actions.{◌>>=◌, continue, pure, continue-pure}
use nextjs_saas_boilerplate.Storage.Store.{
  StorageFile, StorageFileVariant, IntentRow, QuotaRow, StorageStore, StorageError, Call, file_key,
  is_pending,
}
use nextjs_saas_boilerplate.Storage.Quota.{
  update_file, give_back, insert_usage, with_transaction, roll_back,
}
use nextjs_saas_boilerplate.Storage.Deletion.{reserve_quota-negate}
use nextjs_saas_boilerplate.Storage.Completion.{
  update_intents, set_expired, set_abandoned, is_intent_of, is_open,
}
use nextjs_saas_boilerplate.Storage.Cleanup.{
  clean_all, abandon, expire_rows, expire_intent, release_orphan, if_deleted,
  cleanup_expired_upload_intents, cleanup_orphaned_files, is_provided, is_expired_intent,
  is_orphaned,
}
use nextjs_saas_boilerplate.Storage.Charges.{is_row}
use nextjs_saas_boilerplate.Storage.Balance.{
  Balanced, IsBalanced, IsSettling, IsReserved, agrees, agrees-update_where,
}
use nextjs_saas_boilerplate.Storage.Releases.{give_back-IsBalanced}

-- What was reserved for a pending file in one table is so in another.
abbrev pub Kept : (files more : List StorageFile) → Type 0
Kept files more =
    (file_id tenant_id : String) (bytes : ℕ)
    → agrees files file_id tenant_id bytes ≡ true
    → agrees more file_id tenant_id bytes ≡ true

abbrev pub IsKept : (s t : StorageStore) → Type 0
IsKept s t = IsBalanced t × Kept s.files t.files

pub roll_back-IsKept :
    {A : Type 0} (s : StorageStore) (r : Result StorageError A × StorageStore)
    → IsBalanced s
    → IsKept s r.1
    → IsKept s (roll_back s r).1
roll_back-IsKept s (ok a, t) b k = k
roll_back-IsKept s (err e, t) b k = (b, λ file_id tenant_id bytes h. h)

-- An update of the intents that keeps their file, tenant and bytes.
pub update_where-IsReserved :
    (files : List StorageFile) (p : IntentRow → Bool) (f : IntentRow → IntentRow)
    → ((r : IntentRow) → IsReserved files r → IsReserved files (f r))
    → (intents : List IntentRow) → All (IsReserved files) intents
    → All (IsReserved files) (update_where p f intents)
update_where-IsReserved files p f keeps intents h =
    All-update_where (IsReserved files) p f intents (λ r k hit. keeps r k) h

pub Balanced-intents :
    {files : List StorageFile} {variants : List StorageFileVariant}
    {intents intents' : List IntentRow} {quotas : List QuotaRow}
    → Balanced files variants intents quotas
    → All (IsReserved files) intents'
    → Balanced files variants intents' quotas
Balanced-intents b h = record {
  distinct_files = b.distinct_files;
  distinct_quotas = b.distinct_quotas;
  reserved = h;
  placed = b.placed;
  counted = b.counted;
}

pub set_abandoned-IsSettling : (now : ℕ) → IsSettling (set_abandoned now)
set_abandoned-IsSettling now = record {
  keeps_id = λ r. refl;
  keeps_tenant = λ r. refl;
  settles = λ r. refl;
}

pub give_back-files :
    (tenant_id file_id : String) (bytes : ℕ) (reason : String) (now : ℕ)
    (updated : Option StorageFile) (s : StorageStore)
    → (give_back tenant_id file_id bytes reason now updated s).1.files ≡ s.files
unfolding give_back insert_usage
give_back-files tenant_id file_id bytes reason now none s = refl
give_back-files tenant_id file_id bytes reason now (some file) s =
    rw (reserve_quota-negate bytes tenant_id now s)

-- What each clean-up of a row keeps, all of them keep.
pub clean_all-keeps :
    {A : Type 0} (P : StorageStore → Type 0) (clean : A → Call ℕ)
    → ((a : A) (s : StorageStore) → P s → P (clean a s).1)
    → (rows : List A) (s : StorageStore) → P s
    → P (clean_all clean rows s).1
unfolding clean_all
clean_all-keeps P clean step [] s h = h
clean_all-keeps P clean step (row ∷ rows) s h =
    after (clean_all-keeps P clean step rows) (clean row s) (step row s h)
  where
    after :
        ((t : StorageStore) → P t → P (clean_all clean rows t).1)
        → (r : Result StorageError ℕ × StorageStore) → P r.1
        → P (continue (λ m. clean_all clean rows >>= λ n. pure (m + n)) r).1
    after rest (err e, t) h = h
    after rest (ok m, t) h =
        subst P (sym (continue-pure (λ n. m + n) (clean_all clean rows t))) (rest t h)

-- Rows that are cleaned one after another, with what holds of each of them throughout.
pub clean_all-IsBalanced :
    {A : Type 0} (clean : A → Call ℕ) (R : (files more : List StorageFile) → Type 0)
    (Q : List StorageFile → A → Type 0)
    → ((files more : List StorageFile) (a : A) → R files more → Q files a → Q more a)
    → ((a : A) (s : StorageStore)
        → IsBalanced s
        → Q s.files a
        → IsBalanced (clean a s).1 × R s.files (clean a s).1.files)
    → (rows : List A) (s : StorageStore) → IsBalanced s
    → All (Q s.files) rows
    → IsBalanced (clean_all clean rows s).1
unfolding clean_all
clean_all-IsBalanced clean R Q moves step [] s b h = b
clean_all-IsBalanced clean R Q moves step (row ∷ rows) s b (q, h) =
    after (clean_all-IsBalanced clean R Q moves step rows) (clean row s) (step row s b q)
  where
    after :
        ((t : StorageStore)
          → IsBalanced t
          → All (Q t.files) rows
          → IsBalanced (clean_all clean rows t).1)
        → (r : Result StorageError ℕ × StorageStore) → IsBalanced r.1 × R s.files r.1.files
        → IsBalanced (continue (λ m. clean_all clean rows >>= λ n. pure (m + n)) r).1
    after rest (err e, t) (b', kept) = b'
    after rest (ok m, t) (b', kept) =
        rw (continue-pure (λ n. m + n) (clean_all clean rows t))
          (rest t b' (All-mono (Q s.files) (Q t.files) rows (λ a. moves s.files t.files a kept) h))

module _ (provider_id : String) (deletes : String → Bool) where
  abandon-IsKept :
      (file_id tenant_id : String) (bytes : ℕ) (reason : String) (now : ℕ) (s : StorageStore)
      → IsBalanced s
      → agrees s.files file_id tenant_id bytes ≡ true
      → IsKept s (abandon provider_id deletes file_id tenant_id bytes reason now s).1
  unfolding abandon update_file
  abandon-IsKept file_id tenant_id bytes reason now s b a =
      let c : StorageFile → Bool = λ r. is_pending r.status && is_provided provider_id deletes r in
      (
        give_back-IsBalanced file_id c (set_abandoned-IsSettling now) (λ r. refl)
            (λ r h. (and-eq_true _ _ h).0) tenant_id bytes reason now s a b,
        λ j t n h.
            rw
              (give_back-files tenant_id file_id bytes reason now
                (find_where (is_row file_id c) s.files)
                (record s { files = update_where (is_row file_id c) (set_abandoned now) s.files }))
              (agrees-update_where (is_row file_id c) (set_abandoned now)
                (set_abandoned-IsSettling now) s.files j t n h),
      )

  expire_rows-IsKept :
      (now : ℕ) (intent : IntentRow) (s : StorageStore)
      → IsBalanced s
      → IsReserved s.files intent
      → IsKept s (expire_rows provider_id deletes now intent s).1
  unfolding expire_rows update_intents
  expire_rows-IsKept now intent s b a =
      let p : IntentRow → Bool = λ row. is_intent_of intent.file_id row && is_open row.status in
      abandon-IsKept intent.file_id intent.tenant_id intent.byte_size "upload_intent_expired" now
        (record s { intents = update_where p (set_expired now) s.intents })
        (Balanced-intents b
          (update_where-IsReserved s.files p (set_expired now) (λ r k. k) s.intents b.reserved))
        a

  if_deleted-IsKept :
      (gone : Bool) (call : Call (Unit {0})) (s : StorageStore)
      → IsBalanced s
      → IsKept s (call s).1
      → IsKept s (if_deleted provider_id deletes gone (with_transaction call) s).1
  if_deleted-IsKept true call s b k =
      subst (IsKept s) (sym (continue-pure {B = ℕ} (λ done. 1) (roll_back s (call s))))
        (roll_back-IsKept s (call s) b k)
  if_deleted-IsKept false call s b k = (b, λ file_id tenant_id bytes h. h)

  -- A sweep over expired intents keeps the quotas balanced, whichever objects the adapter deletes.
  pub cleanup_expired_upload_intents-IsBalanced :
      (now : ℕ) (s : StorageStore)
      → IsBalanced s
      → IsBalanced (cleanup_expired_upload_intents provider_id deletes now s).1
  unfolding cleanup_expired_upload_intents
  cleanup_expired_upload_intents-IsBalanced now s b =
      clean_all-IsBalanced (expire_intent provider_id deletes now) Kept IsReserved
        (λ files more i kept h. kept i.file_id i.tenant_id i.byte_size h)
        (λ i t b' h.
          if_deleted-IsKept (deletes i.object_key) (expire_rows provider_id deletes now i) t b'
            (expire_rows-IsKept now i t b' h))
        (select_where (is_expired_intent provider_id deletes now s.files) s.intents) s b
        (All-select_where (IsReserved s.files) (is_expired_intent provider_id deletes now s.files)
          s.intents b.reserved)

  abbrev IsFound : List StorageFile → StorageFile → Type 0
  IsFound files file = agrees files file.id file.tenant_id file.byte_size ≡ true

  files-IsFound : (s : StorageStore) → IsBalanced s → All (IsFound s.files) s.files
  files-IsFound s b =
      All-mono (λ z. find_where (has_key file_key z.id) s.files ≡ some z) (IsFound s.files) s.files
        (λ z e. rw e (ground (arith, eq_refl z.tenant_id)))
        (Distinct-found file_key s.files b.distinct_files)

  -- A sweep over orphaned files keeps the quotas balanced, whichever objects the adapter deletes.
  pub cleanup_orphaned_files-IsBalanced :
      (older_than now : ℕ) (s : StorageStore)
      → IsBalanced s
      → IsBalanced (cleanup_orphaned_files provider_id deletes older_than now s).1
  unfolding cleanup_orphaned_files
  cleanup_orphaned_files-IsBalanced older_than now s b =
      clean_all-IsBalanced (release_orphan provider_id deletes now) Kept IsFound
        (λ files more f kept h. kept f.id f.tenant_id f.byte_size h)
        (λ f t b' h.
          if_deleted-IsKept (deletes f.object_key)
            (abandon provider_id deletes f.id f.tenant_id f.byte_size "orphaned_file_released" now)
            t b' (abandon-IsKept f.id f.tenant_id f.byte_size "orphaned_file_released" now t b' h))
        (select_where (is_orphaned provider_id deletes older_than s.intents) s.files) s b
        (All-select_where (IsFound s.files) (is_orphaned provider_id deletes older_than s.intents)
          s.files (files-IsFound s b))
