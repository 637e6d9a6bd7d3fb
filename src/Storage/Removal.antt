-- ===== src/Storage/Removal.antt =====
-- Deleting a file, and removing the rows of deleted files, keeps the quotas balanced.
use nextjs_saas_boilerplate.Common.{
  without, Distinct-without, without-missing, find_where-without, select_where-without, ℕ, ◌≡◌,
  refl, sym, subst, String, Bool, true, false, not, ◌&&◌, List, [], ◌∷◌, some, any, ◌==◌,
  find_where, update_where, select_where, has_key, Distinct, All, All-mono, All-select_where_test,
  arith, Bool-cases, Option-cases, inl, inr, eq_iff, and-eq_true,
}
use nextjs_saas_boilerplate.Common.Actions.{continue-pure}
use nextjs_saas_boilerplate.Storage.Store.{
  StorageFile, StorageFileVariant, StoragePrincipal, StorageStore, StorageFileStatus, available,
  deleted, abandoned, is_available, is_file, is_variant_of, load_file, load_variants, file_key,
}
use nextjs_saas_boilerplate.Storage.Quota.{set_deleted, is_available_file, delete_file}
use nextjs_saas_boilerplate.Storage.Deletion.{
  found-id, found-available, deleted_store, file_bytes, released, load_file-found, may_delete,
  delete_file_lem,
}
use nextjs_saas_boilerplate.Storage.Erasure.{delete_file-missing}
use nextjs_saas_boilerplate.Storage.Completion.{is_intent_of}
use nextjs_saas_boilerplate.Storage.Cleanup.{
  is_provided, cascade, is_deleted, delete_rows_of, discard_file, all_deleted, is_discarded,
  cleanup_deleted_files,
}
use nextjs_saas_boilerplate.Storage.Counting.{IsCounted}
use nextjs_saas_boilerplate.Storage.Charges.{
  is_charged, charge, charged, SameBut, charged-same, charge-same, is_row, any-is_row,
}
use nextjs_saas_boilerplate.Storage.Balance.{
  Balanced, IsBalanced, IsSettling, IsReserved, IsPlaced, bytes_in,
}
use nextjs_saas_boilerplate.Storage.Sweeps.{clean_all-IsBalanced}
use nextjs_saas_boilerplate.Storage.Releases.{settle-Balanced}

abbrev pub variant_key : StorageFileVariant → String
variant_key variant = variant.file_id

pub set_deleted-IsSettling : (now : ℕ) → IsSettling (set_deleted now)
set_deleted-IsSettling now = record {
  keeps_id = λ r. refl;
  keeps_tenant = λ r. refl;
  settles = λ r. refl;
}

is_available-is_charged :
    (status : StorageFileStatus) → is_available status ≡ true → is_charged status ≡ true
is_available-is_charged StorageFileStatus.pending h = refl
is_available-is_charged available h = refl
is_available-is_charged deleted h = cc
is_available-is_charged abandoned h = cc

-- What a deletion gives back is what the file was charged.
deleted-charge :
    (file : StorageFile) (s : StorageStore)
    → is_available file.status ≡ true
    → charge s.variants file ≡ file_bytes file s
unfolding load_variants
deleted-charge file s here = rw (is_available-is_charged file.status here)

deleted_store-IsBalanced :
    (file_id : String) (principal : StoragePrincipal) (now : ℕ) (s : StorageStore)
    (file : StorageFile)
    → load_file file_id s ≡ some file
    → is_available file.status ≡ true
    → IsBalanced s
    → IsBalanced (deleted_store file principal now s)
deleted_store-IsBalanced file_id principal now s file found here b =
    let here_too : find_where (is_file file.id) s.files ≡ some file =
      subst (λ i. find_where (is_file i) s.files ≡ some file) (sym (found-id file_id s found))
        (load_file-found file_id s found) in
    subst
      (λ n.
        Balanced (update_where (is_available_file file.id) (set_deleted now) s.files) s.variants
          s.intents (released n file.tenant_id now s.quotas))
      (deleted-charge file s here)
      (settle-Balanced s file.id (λ r. is_available r.status) (set_deleted-IsSettling now)
        (λ r. refl) now file (found-available file.id s.files here_too here) b)

-- A deletion, whatever becomes of it, keeps the quotas balanced.
pub delete_file-IsBalanced :
    (file_id : String) (principal : StoragePrincipal) (now : ℕ) (s : StorageStore)
    → IsBalanced s
    → IsBalanced (delete_file file_id principal now s).1
delete_file-IsBalanced file_id principal now s b = elim (Option-cases (load_file file_id s)) [
  | inl missing ↦ rw (delete_file-missing file_id principal now s missing) b
  | inr (file, found) ↦
      let k = delete_file_lem file_id principal now s file found in
      elim (Bool-cases (may_delete file principal now s)) [
        | inr barred ↦ rw (k, barred) b
        | inl may ↦ elim (Bool-cases (is_available file.status)) [
          | inr gone ↦ rw (k, may, gone) b
          | inl here ↦
              rw (k, may, here) (deleted_store-IsBalanced file_id principal now s file found here b)
        ]
      ]
]

All-trivial : (rows : List StorageFile) → All (λ a. Unit {0}) rows
All-trivial [] = tt
All-trivial (r ∷ rows) = (tt, All-trivial rows)

module _ (id : String) (variants : List StorageFileVariant) where
  -- What is left is charged as before, where the file that goes was charged nothing.
  charged-without :
      (org : String) (files : List StorageFile)
      → Distinct file_key files
      → (c : StorageFile → Bool) → ((r : StorageFile) → c r ≡ true → is_charged r.status ≡ false)
      → any (is_row id c) files ≡ true
      → charged org (without variant_key id variants) (without file_key id files)
        ≡ charged org variants files
  unfolding charged select_where
  charged-without org [] d c free h = cc
  charged-without org (r ∷ files) (fresh, d) c free h =
      let same : SameBut id variants (without variant_key id variants) =
        λ j ne. select_where-without variant_key id j variants ne in
      elim (Bool-cases (r.id == id)) [
        | inr miss ↦ rw (
          miss,
          charge-same org id variants (without variant_key id variants) same r miss,
          charged-without org files d c free (rw miss at h),
        )
        | inl hit ↦
            let gone : any (has_key file_key id) files ≡ false = rw (← (eq_iff _ _).0 hit) fresh in
            rw
              (
                hit,
                without-missing file_key id files gone,
                charged-same org id variants (without variant_key id variants) same files gone,
              )
              (let barred = any-is_row id c files gone in
                let here : c r ≡ true = ground arith in ground (arith, free r here))
      ]

  -- A row with another key, and what is known of its file.
  elsewhere :
      (j : String) (files : List StorageFile)
      → not (j == id) ≡ true
      → find_where (is_file j) (without file_key id files) ≡ find_where (is_file j) files
  elsewhere j files ne = find_where-without file_key id j files (ground arith)

-- The row of a deleted file goes, with the rows that refer to it.
cascade-IsBalanced :
    (id : String) (c : StorageFile → Bool) (s : StorageStore)
    → ((r : StorageFile) → c r ≡ true → is_charged r.status ≡ false)
    → any (is_row id c) s.files ≡ true
    → IsBalanced s
    → IsBalanced (cascade id s)
unfolding cascade
cascade-IsBalanced id c s free h b = record {
  distinct_files = Distinct-without file_key id s.files b.distinct_files;
  distinct_quotas = b.distinct_quotas;
  reserved =
      All-mono (λ i. IsReserved s.files i × (not (is_intent_of id i) ≡ true))
        (IsReserved (without file_key id s.files))
        (select_where (λ i. not (is_intent_of id i)) s.intents)
        (λ i (r, ne). rw (elsewhere id s.variants i.file_id s.files ne) r)
        (All-select_where_test (IsReserved s.files) (λ i. not (is_intent_of id i)) s.intents
          b.reserved);
  placed =
      All-mono (λ v. IsPlaced s.files v × (not (is_variant_of id v) ≡ true))
        (IsPlaced (without file_key id s.files))
        (select_where (λ v. not (is_variant_of id v)) s.variants)
        (λ v (r, ne). rw (elsewhere id s.variants v.file_id s.files ne) r)
        (All-select_where_test (IsPlaced s.files) (λ v. not (is_variant_of id v)) s.variants
          b.placed);
  counted =
      All-mono (IsCounted (bytes_in s.files s.variants))
        (IsCounted (bytes_in (without file_key id s.files) (without variant_key id s.variants)))
        s.quotas
        (λ q e.
          rw (charged-without id s.variants q.organization_id s.files b.distinct_files c free h) e)
        b.counted;
}

is_deleted-is_charged :
    (status : StorageFileStatus) → is_deleted status ≡ true → is_charged status ≡ false
is_deleted-is_charged StorageFileStatus.pending h = cc
is_deleted-is_charged available h = cc
is_deleted-is_charged deleted h = refl
is_deleted-is_charged abandoned h = refl

module _ (provider_id : String) (deletes : String → Bool) where
  delete_rows_of-IsBalanced :
      (file_id : String) (s : StorageStore)
      → IsBalanced s
      → IsBalanced (delete_rows_of provider_id deletes file_id s).1
  unfolding delete_rows_of
  delete_rows_of-IsBalanced file_id s b =
      let c : StorageFile → Bool = λ r. is_deleted r.status && is_provided provider_id deletes r in
      elim (Bool-cases (any (is_row file_id c) s.files)) [
        | inl found ↦ rw found (
            cascade-IsBalanced file_id c s
              (λ r h. is_deleted-is_charged r.status (and-eq_true _ _ h).0) found b)
        | inr missing ↦ rw missing b
      ]

  pub discard_file-IsBalanced :
      (file : StorageFile) (s : StorageStore)
      → IsBalanced s
      → IsBalanced (discard_file provider_id deletes file s).1
  unfolding discard_file load_variants
  discard_file-IsBalanced file s b =
      elim (Bool-cases (all_deleted provider_id deletes file (load_variants file.id s))) [
        | inl gone ↦ rw gone (
            subst IsBalanced
              (sym
                (continue-pure {B = ℕ} (λ done. 1) (delete_rows_of provider_id deletes file.id s)))
              (delete_rows_of-IsBalanced file.id s b))
        | inr stays ↦ rw stays b
      ]

  -- Removing the rows of files that were deleted long ago keeps the quotas balanced.
  pub cleanup_deleted_files-IsBalanced :
      (older_than : ℕ) (s : StorageStore)
      → IsBalanced s
      → IsBalanced (cleanup_deleted_files provider_id deletes older_than s).1
  unfolding cleanup_deleted_files
  cleanup_deleted_files-IsBalanced older_than s b =
      let rows = select_where (is_discarded provider_id deletes older_than) s.files in
      clean_all-IsBalanced (discard_file provider_id deletes) (λ files more. Unit) (λ files a. Unit)
        (λ files more a kept q. tt) (λ a t b' q. (discard_file-IsBalanced a t b', tt)) rows s b
        (All-trivial rows)
