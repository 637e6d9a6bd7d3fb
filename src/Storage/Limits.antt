-- ===== src/Storage/Limits.antt =====
-- The quota of an organization: what a reservation does, and what no call exceeds.
use nextjs_saas_boilerplate.Common.{
  ℕ, zero, suc, ◌+◌, ◌≤◌, ◌≡◌, refl, leb, String, true, false, List, [], ◌∷◌, none, some, any,
  if◌then◌else◌, ◌==◌, ok, err, is_some, find_where, update_where, has_key, Distinct, All,
  All-update_where, arith, Bool-cases, inl, inr, eq_iff,
}
use nextjs_saas_boilerplate.Common.Int.{ℤ, pos, negsuc}
use nextjs_saas_boilerplate.Storage.Store.{QuotaRow, StorageStore, storage_quota_exceeded}
use nextjs_saas_boilerplate.Storage.Quota.{is_quota, fits, add_bytes, release_bytes, reserve_quota}

abbrev pub quota_key : QuotaRow → String
quota_key row = row.organization_id

abbrev pub IsWithinLimit : QuotaRow → Type 0
IsWithinLimit row = row.storage_bytes_used ≤ row.storage_bytes_limit

abbrev pub IsWithin : StorageStore → Type 0
IsWithin s = All IsWithinLimit s.quotas

-- No reservation or release, of whatever size, takes an organization above its limit.
pub reserve_quota-IsWithin :
    (byte_delta : ℤ) (tenant_id : String) (now : ℕ) (s : StorageStore)
    → IsWithin s
    → IsWithin (reserve_quota byte_delta tenant_id now s).1
unfolding reserve_quota
reserve_quota-IsWithin (pos zero) tenant_id now s h = h
reserve_quota-IsWithin (pos (suc n)) tenant_id now s h =
    elim (Bool-cases (is_some (find_where (fits tenant_id (suc n)) s.quotas))) [
      | inl room ↦ rw room (
          All-update_where IsWithinLimit (fits tenant_id (suc n)) (add_bytes (suc n) now) s.quotas
            (λ r q fit. ground arith) h)
      | inr full ↦ rw full h
    ]
reserve_quota-IsWithin (negsuc n) tenant_id now s h =
    All-update_where IsWithinLimit (is_quota tenant_id) (release_bytes (suc n) now) s.quotas
      (λ r q hit. omega arith) h

pub fits-missing :
    (tenant_id : String) (bytes : ℕ) (rows : List QuotaRow)
    → any (has_key quota_key tenant_id) rows ≡ false
    → (find_where (fits tenant_id bytes) rows ≡ none)
      × ((f : QuotaRow → QuotaRow)
          → update_where (fits tenant_id bytes) f rows ≡ update_where (is_quota tenant_id) f rows)
unfolding find_where update_where
fits-missing tenant_id bytes [] h = (refl, λ f. refl)
fits-missing tenant_id bytes (r ∷ rows) h =
    let k : any (has_key quota_key tenant_id) rows ≡ false = ground arith in
    let miss : (r.organization_id == tenant_id) ≡ false = ground arith in
    let rest = fits-missing tenant_id bytes rows k in (rw (miss, rest.0), λ f. rw (miss, rest.1 f))

-- With one row per organization, a reservation looks only at the row of its own.
find_where-fits :
    (tenant_id : String) (bytes : ℕ) (rows : List QuotaRow) {row : QuotaRow}
    → Distinct quota_key rows
    → find_where (is_quota tenant_id) rows ≡ some row
    → is_some (find_where (fits tenant_id bytes) rows)
      ≡ leb (row.storage_bytes_used + bytes) row.storage_bytes_limit
unfolding find_where
find_where-fits tenant_id bytes [] d e = cc
find_where-fits tenant_id bytes (r ∷ rows) {row} (fresh, d) e =
    elim (Bool-cases (r.organization_id == tenant_id)) [
      | inl hit ↦
          let same : r ≡ row = ground arith in
          let gone : any (has_key quota_key tenant_id) rows ≡ false =
            rw (← (eq_iff _ _).0 hit) fresh in
          rw (← same, hit) (ground (arith, (fits-missing tenant_id bytes rows gone).0))
      | inr miss ↦ rw miss (find_where-fits tenant_id bytes rows d (rw miss at e))
    ]

update_where-fits :
    (tenant_id : String) (bytes : ℕ) (f : QuotaRow → QuotaRow) (rows : List QuotaRow)
    {row : QuotaRow}
    → Distinct quota_key rows
    → find_where (is_quota tenant_id) rows ≡ some row
    → leb (row.storage_bytes_used + bytes) row.storage_bytes_limit ≡ true
    → update_where (fits tenant_id bytes) f rows ≡ update_where (is_quota tenant_id) f rows
unfolding find_where update_where
update_where-fits tenant_id bytes f [] d e room = cc
update_where-fits tenant_id bytes f (r ∷ rows) {row} (fresh, d) e room =
    elim (Bool-cases (r.organization_id == tenant_id)) [
      | inl hit ↦
          let same : r ≡ row = ground arith in
          let gone : any (has_key quota_key tenant_id) rows ≡ false =
            rw (← (eq_iff _ _).0 hit) fresh in
          let room' : leb (r.storage_bytes_used + bytes) r.storage_bytes_limit ≡ true =
            rw same room in
          rw (hit, room', (fits-missing tenant_id bytes rows gone).1 f)
      | inr miss ↦ rw (miss, update_where-fits tenant_id bytes f rows d (rw miss at e) room)
    ]

-- A reservation of one byte or more succeeds exactly where it fits the limit of its organization:
-- then it adds the bytes to that organization's row, and otherwise it changes nothing.
pub reserve_quota_lem :
    (n : ℕ) (tenant_id : String) (now : ℕ) (s : StorageStore) (row : QuotaRow)
    → Distinct quota_key s.quotas
    → find_where (is_quota tenant_id) s.quotas ≡ some row
    → reserve_quota (pos (suc n)) tenant_id now s ≡ (
        if leb (row.storage_bytes_used + suc n) row.storage_bytes_limit
        then (
          ok tt,
          record s { quotas = update_where (is_quota tenant_id) (add_bytes (suc n) now) s.quotas },
        )
        else (err storage_quota_exceeded, s))
unfolding reserve_quota
reserve_quota_lem n tenant_id now s row d e =
    elim (Bool-cases (leb (row.storage_bytes_used + suc n) row.storage_bytes_limit)) [
      | inl room ↦ rw (
        find_where-fits tenant_id (suc n) s.quotas d e,
        room,
        update_where-fits tenant_id (suc n) (add_bytes (suc n) now) s.quotas d e room,
      )
      | inr full ↦ rw (find_where-fits tenant_id (suc n) s.quotas d e, full)
    ]
