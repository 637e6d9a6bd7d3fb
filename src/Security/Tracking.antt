-- ===== src/Security/Tracking.antt =====
-- What the counter of one bucket does under the statements of `consumeRateLimit`.
use nextjs_saas_boilerplate.Common.{
  ℕ, zero, suc, ◌+◌, ◌<◌, ◌≡◌, refl, sym, ◌∙◌, fun_ext, ap, subst, true, false, List, [], ◌∷◌, ◌++◌,
  Option, none, some, any, any-find_where, or_else, arith, Bool-cases, inl, inr, find_where,
  find_where-append, find_where-append_none, find_where-select_where, find_where-select_none,
  find_where-update_apart, find_where-update_here, eq_iff, eq_refl, is_some,
}
use nextjs_saas_boilerplate.Security.RateLimit.{
  Bucket, same_bucket, count_again, upsert_bucket, drop_expired,
}

-- A found bucket that has counted `n` requests.
abbrev pub Counts : Bucket → ℕ → Option Bucket → Type 0
Counts key zero o = o ≡ none
Counts key (suc n) o =
    (b : Bucket) × (o ≡ some b) × (b.count ≡ suc n) × (b.expires_at ≡ key.expires_at)

-- The bucket of one tenant, identifier and scope in one window, and what was counted there.
abbrev pub Tracked : Bucket → ℕ → List Bucket → Type 0
Tracked key n rows = Counts key n (find_where (same_bucket key) rows)

pub drop_expired-Tracked :
    (key : Bucket) (n now : ℕ) (rows : List Bucket)
    → now < key.expires_at
    → Tracked key n rows
    → Tracked key n (drop_expired now rows)
unfolding drop_expired
drop_expired-Tracked key zero now rows live h = find_where-select_none (same_bucket key) _ rows h
drop_expired-Tracked key (suc n) now rows live (b, found, count, expiry) =
    (b, find_where-select_where (same_bucket key) _ rows found (ground arith), count, expiry)

pub same_bucket_refl : (key : Bucket) → same_bucket key key ≡ true
same_bucket_refl key =
    ground (arith, eq_refl (or_else key.tenant_id ""), eq_refl key.identifier, eq_refl key.scope)

pub find_where-other :
    (key new : Bucket)
    → same_bucket key new ≡ false
    → find_where (same_bucket key) (new ∷ []) ≡ none
unfolding find_where
find_where-other key new apart = rw apart

pub find_where_self : (key : Bucket) → find_where (same_bucket key) (key ∷ []) ≡ some key
unfolding find_where
find_where_self key = rw (same_bucket_refl key)

-- A request of the bucket is counted.
pub upsert_bucket-Tracked :
    (key : Bucket) (n : ℕ) (rows : List Bucket)
    → key.count ≡ 1
    → Tracked key n rows
    → Tracked key (suc n) (upsert_bucket key rows)
unfolding upsert_bucket
upsert_bucket-Tracked key zero rows one h =
    let free : any (same_bucket key) rows ≡ false =
      any-find_where (same_bucket key) rows ∙ ap is_some h in
    (
      key,
      rw free (find_where-append_none (same_bucket key) rows (key ∷ []) h ∙ found_self),
      one,
      refl,
    )
  where
    found_self : find_where (same_bucket key) (key ∷ []) ≡ some key
    found_self = find_where_self key
upsert_bucket-Tracked key (suc n) rows one (b, found, count, expiry) =
    let taken : any (same_bucket key) rows ≡ true =
      any-find_where (same_bucket key) rows ∙ ap is_some found in
    (
      count_again key b,
      rw taken (find_where-update_here (same_bucket key) (count_again key) rows (λ r h. h) found),
      ap (λ k. k + 1) count ∙ omega arith,
      refl,
    )

-- Rows of one bucket are rows of the same other ones.
pub same_bucket-apart :
    (key new r : Bucket)
    → same_bucket key new ≡ false
    → same_bucket new r ≡ true
    → same_bucket key r ≡ false
same_bucket-apart key new r apart same =
    let t = eq_iff (or_else r.tenant_id "") (or_else new.tenant_id "") in
    let i = eq_iff r.identifier new.identifier in
    let c = eq_iff r.scope new.scope in ground (arith, t, i, c)

pub same_bucket-eq :
    (key new : Bucket) → same_bucket key new ≡ true → same_bucket new ≡ same_bucket key
same_bucket-eq key new same = fun_ext λ r. ground (
  arith,
  eq_iff (or_else new.tenant_id "") (or_else key.tenant_id ""),
  eq_iff new.identifier key.identifier,
  eq_iff new.scope key.scope,
)

pub append_apart :
    (key new : Bucket) (n : ℕ) (rows : List Bucket)
    → same_bucket key new ≡ false
    → Tracked key n rows
    → Tracked key n (rows ++ new ∷ [])
append_apart key new zero rows apart h =
    find_where-append_none (same_bucket key) rows (new ∷ []) h ∙ find_where-other key new apart
append_apart key new (suc n) rows apart (b, found, count, expiry) =
    (b, find_where-append (same_bucket key) rows (new ∷ []) found, count, expiry)

-- A request of another bucket is not.
pub upsert_bucket-apart :
    (key new : Bucket) (n : ℕ) (rows : List Bucket)
    → same_bucket key new ≡ false
    → Tracked key n rows
    → Tracked key n (upsert_bucket new rows)
unfolding upsert_bucket
upsert_bucket-apart key new n rows apart h = elim (Bool-cases (any (same_bucket new) rows)) [
  | inl taken ↦ rw taken (
      subst (Counts key n)
        (sym (
          find_where-update_apart (same_bucket key) (same_bucket new) (count_again new) rows
            (λ r e. (same_bucket-apart key new r apart e, same_bucket-apart key new r apart e))))
        h)
  | inr free ↦ rw free (append_apart key new n rows apart h)
]

pub Counts-moved :
    (key new : Bucket) (n : ℕ) (o : Option Bucket)
    → key.expires_at ≡ new.expires_at
    → Counts key n o
    → Counts new n o
Counts-moved key new zero o same h = h
Counts-moved key new (suc n) o same (b, found, count, expiry) = (b, found, count, expiry ∙ same)
