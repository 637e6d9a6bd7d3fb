-- ===== src/Storage/Counting.antt =====
-- What `reserveQuota` does to the rows of `organization_quotas` that hold a count of bytes.
use nextjs_saas_boilerplate.Common.{
  ℕ, zero, suc, ◌+◌, ◌-◌, leb, ◌≡◌, ◌⊎◌, refl, String, true, false, List, [], ◌∷◌, any, ◌==◌, ok,
  err, is_some, find_where, update_where, update_where-missing, has_key, Distinct,
  Distinct-update_where, All, All-mono, arith, Bool-cases, inl, inr, eq_iff,
}
use nextjs_saas_boilerplate.Common.Int.{ℤ, pos, negsuc, pos_part, neg_part, negate, subtract}
use nextjs_saas_boilerplate.Storage.Store.{
  QuotaRow, StorageStore, StorageError, storage_quota_exceeded,
}
use nextjs_saas_boilerplate.Storage.Quota.{is_quota, fits, add_bytes, release_bytes, reserve_quota}
use nextjs_saas_boilerplate.Storage.Limits.{quota_key, fits-missing}
use nextjs_saas_boilerplate.Storage.Charges.{own}

-- A quota row that holds the count of its organization.
abbrev pub IsCounted : (String → ℕ) → QuotaRow → Type 0
IsCounted count row = row.storage_bytes_used ≡ count row.organization_id

-- The counts of a tenant move by a number of bytes, and the others stay.
abbrev pub Shifts : String → ℤ → (before after : String → ℕ) → Type 0
Shifts tenant_id byte_delta before after =
    (org : String)
    → after org + own org tenant_id (neg_part byte_delta)
      ≡ before org + own org tenant_id (pos_part byte_delta)

pub neg_part-negate : (n : ℕ) → (neg_part (negate n) ≡ n) × (pos_part (negate n) ≡ 0)
neg_part-negate zero = (refl, refl)
neg_part-negate (suc n) = (refl, refl)

pub Shifts-subtract :
    (tenant_id : String) (a b : ℕ) (before after : String → ℕ)
    → ((org : String) → after org + own org tenant_id b ≡ before org + own org tenant_id a)
    → Shifts tenant_id (subtract a b) before after
Shifts-subtract tenant_id a b before after h org = elim (Bool-cases (leb b a)) [
  | inl le ↦ rw le (ground (arith, h org))
  | inr gt ↦
      rw (gt, (neg_part-negate (b - a)).0, (neg_part-negate (b - a)).1) (ground (arith, h org))
]

module _ (tenant_id : String) (before after : String → ℕ) where
  counted-other :
      (byte_delta : ℤ) (rows : List QuotaRow)
      → Shifts tenant_id byte_delta before after
      → any (has_key quota_key tenant_id) rows ≡ false
      → All (IsCounted before) rows
      → All (IsCounted after) rows
  counted-other byte_delta [] moves h k = tt
  counted-other byte_delta (r ∷ rows) moves h (p, k) =
      let miss : (r.organization_id == tenant_id) ≡ false = ground arith in
      (
        ground (
          arith,
          moves r.organization_id,
          eq_iff r.organization_id tenant_id,
          eq_iff tenant_id r.organization_id,
        ),
        counted-other byte_delta rows moves (ground arith) k,
      )

  counted-add :
      (n now : ℕ) (rows : List QuotaRow)
      → Shifts tenant_id (pos (suc n)) before after
      → Distinct quota_key rows
      → is_some (find_where (fits tenant_id (suc n)) rows) ≡ true
      → All (IsCounted before) rows
      → All (IsCounted after) (update_where (fits tenant_id (suc n)) (add_bytes (suc n) now) rows)
  unfolding find_where update_where
  counted-add n now [] moves d e h = tt
  counted-add n now (r ∷ rows) moves (fresh, d) e (p, h) =
      elim (Bool-cases (r.organization_id == tenant_id)) [
        | inr miss ↦ rw miss (
          ground (
            arith,
            moves r.organization_id,
            eq_iff r.organization_id tenant_id,
            eq_iff tenant_id r.organization_id,
          ),
          counted-add n now rows moves d (rw miss at e) h,
        )
        | inl hit ↦
            let gone : any (has_key quota_key tenant_id) rows ≡ false =
              rw (← (eq_iff _ _).0 hit) fresh in
            let rest = fits-missing tenant_id (suc n) rows gone in
            elim (Bool-cases (leb (r.storage_bytes_used + suc n) r.storage_bytes_limit)) [
              | inr full ↦ cc (rw rest.0 at (rw (hit, full) at e))
              | inl room ↦
                  rw
                    (
                      hit,
                      room,
                      rest.1 (add_bytes (suc n) now),
                      update_where-missing quota_key tenant_id (add_bytes (suc n) now) rows gone,
                    )
                    (
                      ground (
                        arith,
                        moves r.organization_id,
                        eq_iff r.organization_id tenant_id,
                        eq_iff tenant_id r.organization_id,
                      ),
                      counted-other (pos (suc n)) rows moves gone h,
                    )
            ]
      ]

  counted-release :
      (n now : ℕ) (rows : List QuotaRow)
      → Shifts tenant_id (negsuc n) before after
      → All (IsCounted before) rows
      → All (IsCounted after) (update_where (is_quota tenant_id) (release_bytes (suc n) now) rows)
  unfolding update_where
  counted-release n now [] moves h = tt
  counted-release n now (r ∷ rows) moves (p, h) = (
    ground (
      arith,
      moves r.organization_id,
      eq_iff r.organization_id tenant_id,
      eq_iff tenant_id r.organization_id,
    ),
    counted-release n now rows moves h,
  )

-- A reservation that throws changes nothing, and one that returns moves the counts.
abbrev pub Reserved : ℤ → String → ℕ → StorageStore → (after : String → ℕ) → Type 0
Reserved byte_delta tenant_id now s after =
    ((e : StorageError) × (reserve_quota byte_delta tenant_id now s ≡ (err e, s)))
    ⊎ ((quotas : List QuotaRow) × (reserve_quota byte_delta tenant_id now s
          ≡ (ok tt, record s { quotas = quotas }))
        × Distinct quota_key quotas
        × All (IsCounted after) quotas)

pub reserve_quota-counted :
    (byte_delta : ℤ) (tenant_id : String) (now : ℕ) (s : StorageStore) (before after : String → ℕ)
    → Shifts tenant_id byte_delta before after
    → Distinct quota_key s.quotas
    → All (IsCounted before) s.quotas
    → Reserved byte_delta tenant_id now s after
unfolding reserve_quota
reserve_quota-counted (pos zero) tenant_id now s before after moves d h = inr (
  s.quotas,
  refl,
  d,
  All-mono (IsCounted before) (IsCounted after) s.quotas
      (λ r p. ground (arith, moves r.organization_id)) h,
)
reserve_quota-counted (pos (suc n)) tenant_id now s before after moves d h =
    elim (Bool-cases (is_some (find_where (fits tenant_id (suc n)) s.quotas))) [
      | inl room ↦ inr (
        update_where (fits tenant_id (suc n)) (add_bytes (suc n) now) s.quotas,
        rw room,
        Distinct-update_where quota_key (add_bytes (suc n) now) (λ r. refl) (fits tenant_id (suc n))
            s.quotas d,
        counted-add tenant_id before after n now s.quotas moves d room h,
      )
      | inr full ↦ inl (storage_quota_exceeded, rw full)
    ]
reserve_quota-counted (negsuc n) tenant_id now s before after moves d h = inr (
  update_where (is_quota tenant_id) (release_bytes (suc n) now) s.quotas,
  refl,
  Distinct-update_where quota_key (release_bytes (suc n) now) (λ r. refl) (is_quota tenant_id)
      s.quotas d,
  counted-release tenant_id before after n now s.quotas moves h,
)

-- A reservation changes the quotas, or nothing.
pub reserve_quota-cases :
    (byte_delta : ℤ) (tenant_id : String) (now : ℕ) (s : StorageStore)
    → (reserve_quota byte_delta tenant_id now s ≡ (err storage_quota_exceeded, s))
      ⊎ ((quotas : List QuotaRow) × (reserve_quota byte_delta tenant_id now s
            ≡ (ok tt, record s { quotas = quotas })))
unfolding reserve_quota
reserve_quota-cases (pos zero) tenant_id now s = inr (s.quotas, refl)
reserve_quota-cases (pos (suc n)) tenant_id now s =
    elim (Bool-cases (is_some (find_where (fits tenant_id (suc n)) s.quotas))) [
      | inl room ↦
          inr (update_where (fits tenant_id (suc n)) (add_bytes (suc n) now) s.quotas, rw room)
      | inr full ↦ inl (rw full)
    ]
reserve_quota-cases (negsuc n) tenant_id now s =
    inr (update_where (is_quota tenant_id) (release_bytes (suc n) now) s.quotas, refl)
