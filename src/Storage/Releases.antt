-- ===== src/Storage/Releases.antt =====
-- A file that is settled gives its bytes back: the steps that abandon or delete a file.
use nextjs_saas_boilerplate.Common.{
  ℕ, ◌≡◌, refl, sym, ap, subst, ◌∙◌, String, Bool, true, false, List, [], ◌∷◌, some, any, ◌==◌,
  find_where, update_where, select_where, has_key, Distinct, All, All-mono, arith, Bool-cases,
  Option-cases, inl, inr, eq_iff, select_where-eq_nil, find_where-hit, and-eq_true,
  find_where-All-false, update_where-none, Result,
}
use nextjs_saas_boilerplate.Common.Actions.{◌>>=◌}
use nextjs_saas_boilerplate.Common.Int.{negate}
use nextjs_saas_boilerplate.Storage.Store.{
  StorageFile, StorageFileVariant, StorageFileStatus, available, deleted, abandoned, StorageStore,
  StorageError, is_file, is_variant_of, file_key, is_pending,
}
use nextjs_saas_boilerplate.Storage.Quota.{update_file, give_back, insert_usage, total_bytes}
use nextjs_saas_boilerplate.Storage.Limits.{quota_key}
use nextjs_saas_boilerplate.Storage.Deletion.{released, reserve_quota-negate}
use nextjs_saas_boilerplate.Storage.Counting.{
  IsCounted, Shifts, reserve_quota-counted, neg_part-negate,
}
use nextjs_saas_boilerplate.Storage.Charges.{
  is_charged, charge, is_row, is_row-missing, charged-update_where,
}
use nextjs_saas_boilerplate.Storage.Balance.{
  Balanced, IsBalanced, IsSettling, IsPlaced, IsPlaced-update_where, agrees, row_agrees, is_settled,
  bytes_in, Balanced-settle,
}

-- A release never fails.
released-counted :
    (bytes : ℕ) (tenant_id : String) (now : ℕ) (s : StorageStore) (before after : String → ℕ)
    → Shifts tenant_id (negate bytes) before after
    → Distinct quota_key s.quotas
    → All (IsCounted before) s.quotas
    → Distinct quota_key (released bytes tenant_id now s.quotas)
      × All (IsCounted after) (released bytes tenant_id now s.quotas)
released-counted bytes tenant_id now s before after moves d h =
    let returned = reserve_quota-negate bytes tenant_id now s in
    elim (reserve_quota-counted (negate bytes) tenant_id now s before after moves d h) [
      | inl (e, thrown) ↦ cc
      | inr (quotas, same, d', h') ↦
          let is_q : quotas ≡ released bytes tenant_id now s.quotas =
            ap (λ (x : Result StorageError (Unit {0}) × StorageStore). x.1.quotas)
              (sym same ∙ returned) in
          rw (← is_q) (d', h')
    ]

-- Of a found row, that it is the file with its id.
pub is_row-found :
    (id : String) (c : StorageFile → Bool) (files : List StorageFile) {file : StorageFile}
    → Distinct file_key files
    → find_where (is_row id c) files ≡ some file
    → find_where (is_file id) files ≡ some file
unfolding find_where
is_row-found id c [] d e = cc
is_row-found id c (r ∷ files) {file} (fresh, d) e = elim (Bool-cases (r.id == id)) [
  | inr miss ↦ rw miss (is_row-found id c files d (rw miss at e))
  | inl hit ↦
      let gone : any (has_key file_key id) files ≡ false = rw (← (eq_iff _ _).0 hit) fresh in
      let nowhere = (is_row-missing id c (λ f. f) files gone).0 in
      elim (Bool-cases (c r)) [
        | inr barred ↦
            let found : find_where (is_row id c) files ≡ some file = rw (hit, barred) at e in cc
        | inl here ↦ rw hit (rw (hit, here) at e)
      ]
]

-- A pending file has no variants.
pub pending-bytes :
    (file : StorageFile) (files : List StorageFile) (variants : List StorageFileVariant)
    → find_where (is_file file.id) files ≡ some file
    → is_pending file.status ≡ true
    → All (IsPlaced files) variants
    → select_where (is_variant_of file.id) variants ≡ []
pending-bytes file files variants e waits h =
    select_where-eq_nil (is_variant_of file.id) variants
      (All-mono (IsPlaced files) (λ v. is_variant_of file.id v ≡ false) variants (elsewhere) h)
  where
    elsewhere : (v : StorageFileVariant) → IsPlaced files v → is_variant_of file.id v ≡ false
    elsewhere v h = elim (Bool-cases (v.file_id == file.id)) [
      | inr miss ↦ miss
      | inl hit ↦
          let settled : is_settled (find_where (is_file file.id) files) ≡ true =
            rw (← (eq_iff _ _).0 hit) h in
          ground (arith, (rw e at settled))
    ]

-- Settling a file, and giving its bytes back.
pub settle-Balanced :
    (s : StorageStore) (id : String) (c : StorageFile → Bool) {g : StorageFile → StorageFile}
    → IsSettling g
    → ((r : StorageFile) → is_charged (g r).status ≡ false)
    → (now : ℕ) (file : StorageFile) → find_where (is_row id c) s.files ≡ some file
    → IsBalanced s
    → Balanced
        (update_where (is_row id c) g s.files)
        s.variants
        s.intents
        (released (charge s.variants file) file.tenant_id now s.quotas)
settle-Balanced s id c {g} settling frees now file e b =
    let moves : Shifts file.tenant_id (negate (charge s.variants file))
        (bytes_in s.files s.variants) (bytes_in (update_where (is_row id c) g s.files) s.variants) =
      λ org.
        let moved =
          charged-update_where id c org s.variants s.variants (λ j ne. refl) g settling.keeps_tenant
            s.files b.distinct_files e in
        rw
          (
            (neg_part-negate (charge s.variants file)).0,
            (neg_part-negate (charge s.variants file)).1,
          )
          (ground (arith, moved, frees file)) in
    let (d, counted) =
      released-counted (charge s.variants file) file.tenant_id now s (bytes_in s.files s.variants)
        (bytes_in (update_where (is_row id c) g s.files) s.variants) moves b.distinct_quotas
        b.counted in
    Balanced-settle id c settling b
      (All-mono (IsPlaced s.files) (IsPlaced (update_where (is_row id c) g s.files)) s.variants
        (IsPlaced-update_where (is_row id c) g settling s.files) b.placed)
      d counted

is_pending-is_charged :
    (status : StorageFileStatus) → is_pending status ≡ true → is_charged status ≡ true
is_pending-is_charged StorageFileStatus.pending h = refl
is_pending-is_charged available h = cc
is_pending-is_charged deleted h = cc
is_pending-is_charged abandoned h = cc

-- What a pending file is charged is what was reserved for it.
pub pending-agrees :
    (id : String) (file : StorageFile) (s : StorageStore) (tenant_id : String) (bytes : ℕ)
    → find_where (is_file id) s.files ≡ some file
    → is_pending file.status ≡ true
    → row_agrees tenant_id bytes (some file) ≡ true
    → All (IsPlaced s.files) s.variants
    → (file.tenant_id ≡ tenant_id) × (charge s.variants file ≡ bytes)
unfolding total_bytes
pending-agrees id file s tenant_id bytes e waits agreed placed =
    let same : file.id ≡ id = (eq_iff _ _).0 (find_where-hit (is_file id) s.files e) in
    let none_of =
      pending-bytes file s.files s.variants
        (subst (λ i. find_where (is_file i) s.files ≡ some file) (sym same) e) waits placed in
    let (tenant, rest) = and-eq_true _ _ agreed in
    (
      (eq_iff _ _).0 tenant,
      rw (is_pending-is_charged file.status waits, none_of) (ground (arith, waits, rest)),
    )

-- An UPDATE that abandons a pending file, and what follows it.
pub give_back-IsBalanced :
    (id : String) (c : StorageFile → Bool) {g : StorageFile → StorageFile}
    → IsSettling g
    → ((r : StorageFile) → is_charged (g r).status ≡ false)
    → ((r : StorageFile) → c r ≡ true → is_pending r.status ≡ true)
    → (tenant_id : String) (bytes : ℕ) (reason : String) (now : ℕ) (s : StorageStore)
    → agrees s.files id tenant_id bytes ≡ true
    → IsBalanced s
    → IsBalanced ((update_file (is_row id c) g >>= give_back tenant_id id bytes reason now) s).1
unfolding update_file give_back insert_usage
give_back-IsBalanced id c {g} settling frees waits tenant_id bytes reason now s a b =
    elim (Option-cases (find_where (is_row id c) s.files)) [
      | inl e ↦
          rw
            (
              e,
              update_where-none (is_row id c) g s.files
                  (find_where-All-false (is_row id c) s.files e),
            )
            b
      | inr (file, e) ↦
          let found = is_row-found id c s.files b.distinct_files e in
          let here : (is_file id file ≡ true) × (c file ≡ true) =
            and-eq_true _ _ (find_where-hit (is_row id c) s.files e) in
          let agreed : row_agrees tenant_id bytes (some file) ≡ true = rw found at a in
          let same : (file.tenant_id ≡ tenant_id) × (charge s.variants file ≡ bytes) =
            pending-agrees id file s tenant_id bytes found (waits file here.1) agreed b.placed in
          rw
            (
              e,
              reserve_quota-negate bytes tenant_id now
                  (record s { files = update_where (is_row id c) g s.files }),
              ← same.0,
              ← same.1,
            )
            (settle-Balanced s id c settling frees now file e b)
    ]
