-- ===== src/Storage/Placing.antt =====
-- `createUploadIntent` and `uploadFile` keep the quotas balanced.
use nextjs_saas_boilerplate.Common.{
  ℕ, ◌+◌, ◌≡◌, refl, sym, ap, subst, true, not, List, [], ◌∷◌, ◌++◌, some, any, select_where, All,
  All-mono, All-append, arith, Bool-cases, inl, inr,
}
use nextjs_saas_boilerplate.Common.Int.{pos}
use nextjs_saas_boilerplate.Storage.Store.{
  StorageFile, StorageFileVariant, IntentRow, StorageStore, available, StorageFileStatus,
  is_variant_of, is_pending, audit,
}
use nextjs_saas_boilerplate.Storage.Quota.{insert_usage, with_transaction, total_bytes}
use nextjs_saas_boilerplate.Storage.Variants.{persist_variants}
use nextjs_saas_boilerplate.Storage.Uploads.{
  Service, clashes, insert_file, has_token, insert_intent, reserve_rows, upload_rows,
}
use nextjs_saas_boilerplate.Storage.Counting.{IsCounted, reserve_quota-counted}
use nextjs_saas_boilerplate.Storage.Charges.{is_charged, charge}
use nextjs_saas_boilerplate.Storage.Balance.{
  is_settled, IsBalanced, IsReserved, IsPlaced, bytes_in, agrees, row_agrees,
}
use nextjs_saas_boilerplate.Storage.Renditions.{AreVariants, IsVariantOf, persist_rows_lem}
use nextjs_saas_boilerplate.Storage.Inserting.{
  not_clashing, Kept-append, IsPlaced-append, find_where-fresh, no_variants_before, raised,
  raised-Shifts, Balanced-insert,
}

-- What a new file is charged: its bytes, and those of its variants.
charge-pending :
    (variants : List StorageFileVariant) (file : StorageFile)
    → file.status ≡ StorageFileStatus.pending
    → select_where (is_variant_of file.id) variants ≡ []
    → charge variants file ≡ file.byte_size
unfolding total_bytes
charge-pending variants file waits e =
    let paid : is_charged file.status ≡ true = ap is_charged waits in rw (paid, e) (omega arith)

charge-available :
    (more variants : List StorageFileVariant) (file : StorageFile)
    → file.status ≡ available
    → select_where (is_variant_of file.id) more ≡ variants
    → charge more file ≡ file.byte_size + total_bytes variants
charge-available more variants file here e =
    let paid : is_charged file.status ≡ true = ap is_charged here in rw (paid, e)

module _ (service : Service) where
  -- The transaction of `createUploadIntent`, of a pending file and an intent that agrees with it.
  pub reserve_rows-IsBalanced :
      (file : StorageFile) (intent : IntentRow) (now : ℕ) (s : StorageStore)
      → file.status ≡ StorageFileStatus.pending
      → intent.file_id ≡ file.id
      → row_agrees intent.tenant_id intent.byte_size (some file) ≡ true
      → IsBalanced s
      → IsBalanced (with_transaction (reserve_rows service file intent now) s).1
  unfolding reserve_rows insert_file insert_intent insert_usage audit
  reserve_rows-IsBalanced file intent now s waits of_file agreed b =
      elim (reserve_quota-counted (pos file.byte_size) file.tenant_id now s
        (bytes_in s.files s.variants)
        (raised (bytes_in s.files s.variants) file.tenant_id file.byte_size)
        (raised-Shifts (bytes_in s.files s.variants) file.tenant_id file.byte_size)
        b.distinct_quotas b.counted) [
          | inl (thrown, full) ↦ rw full b
          | inr (quotas, room, d, counted) ↦ elim (Bool-cases (any (clashes file) s.files)) [
            | inl clash ↦ rw (room, clash) b
            | inr free ↦ elim (Bool-cases (any (has_token intent) s.intents)) [
              | inl taken ↦ rw (room, free, taken) b
              | inr new ↦
                  rw (room, free, new)
                    (let fresh = not_clashing file s.files free in
                      let bytes =
                        charge-pending s.variants file waits
                          (no_variants_before s.files file s.variants fresh b.placed) in
                      let found : IsReserved (s.files ++ file ∷ []) intent =
                        subst
                          (λ i.
                            agrees (s.files ++ file ∷ []) i intent.tenant_id intent.byte_size
                            ≡ true)
                          (sym of_file) (rw (find_where-fresh s.files file fresh).1 agreed) in
                      Balanced-insert file b fresh (λ j ne. refl)
                        (All-append (IsReserved (s.files ++ file ∷ [])) s.intents (intent ∷ [])
                          (All-mono (IsReserved s.files) (IsReserved (s.files ++ file ∷ []))
                            s.intents
                            (λ i h.
                              Kept-append s.files file fresh i.file_id i.tenant_id i.byte_size h)
                            b.reserved)
                          (found, tt))
                        (All-mono (IsPlaced s.files) (IsPlaced (s.files ++ file ∷ [])) s.variants
                          (IsPlaced-append s.files file fresh) b.placed)
                        d
                        (subst
                          (λ n.
                            All (IsCounted (raised (bytes_in s.files s.variants) file.tenant_id n))
                              quotas)
                          (sym bytes) counted))
            ]
          ]
        ]

  -- The transaction of `uploadFile`, of an available file and its variants.
  pub upload_rows-IsBalanced :
      (file : StorageFile) (variants : List StorageFileVariant) (now : ℕ) (s : StorageStore)
      → file.status ≡ available
      → AreVariants file.id variants
      → IsBalanced s
      → IsBalanced (with_transaction (upload_rows service file variants now) s).1
  unfolding upload_rows insert_file persist_variants insert_usage audit
  upload_rows-IsBalanced file variants now s here are b =
      let bytes = file.byte_size + total_bytes variants in
      elim (reserve_quota-counted (pos bytes) file.tenant_id now s (bytes_in s.files s.variants)
        (raised (bytes_in s.files s.variants) file.tenant_id bytes)
        (raised-Shifts (bytes_in s.files s.variants) file.tenant_id bytes) b.distinct_quotas
        b.counted) [
          | inl (thrown, full) ↦ rw full b
          | inr (quotas, room, d, counted) ↦ elim (Bool-cases (any (clashes file) s.files)) [
            | inl clash ↦ rw (room, clash) b
            | inr free ↦
                let fresh = not_clashing file s.files free in
                let rows =
                  persist_rows_lem file.id variants s.variants are
                    (no_variants_before s.files file s.variants fresh b.placed) in
                let settled : is_settled (some file) ≡ true =
                  ap (λ status. not (is_pending status)) here in
                rw (room, free, rows.0)
                  (Balanced-insert file b fresh rows.2
                    (All-mono (IsReserved s.files) (IsReserved (s.files ++ file ∷ [])) s.intents
                      (λ i h. Kept-append s.files file fresh i.file_id i.tenant_id i.byte_size h)
                      b.reserved)
                    (All-append (IsPlaced (s.files ++ file ∷ [])) s.variants variants
                      (All-mono (IsPlaced s.files) (IsPlaced (s.files ++ file ∷ [])) s.variants
                        (IsPlaced-append s.files file fresh) b.placed)
                      (All-mono (IsVariantOf file.id) (IsPlaced (s.files ++ file ∷ [])) variants
                        (λ v own_v. rw (own_v, (find_where-fresh s.files file fresh).1) settled)
                        are.owned))
                    d
                    (subst
                      (λ n.
                        All (IsCounted (raised (bytes_in s.files s.variants) file.tenant_id n))
                          quotas)
                      (sym (charge-available (s.variants ++ variants) variants file here rows.1))
                      counted))
          ]
        ]
