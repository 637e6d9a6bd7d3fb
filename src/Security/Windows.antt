-- ===== src/Security/Windows.antt =====
-- How many requests a window lets through.
use nextjs_saas_boilerplate.Common.{
  ℕ, suc, ◌+◌, ◌<◌, ◌≡◌, refl, sym, ◌∙◌, le→leb, ap, leb, String, Bool, true, false, ◌&&◌, List, [],
  ◌∷◌, none, if◌then◌else◌, Result, ok, err, arith, Bool-cases, inl, inr, find_where, All,
}
use native.Mathlib.Nat.{zero-add}
use nextjs_saas_boilerplate.Security.RateLimit.{
  Bucket, SecurityStore, SecurityError, LimitInput, RateLimitResult, same_bucket, upsert_bucket,
  drop_expired, count_of, new_bucket, count_request, counted, limit_result, consume_rate_limit,
  note_exceeded,
}
use nextjs_saas_boilerplate.Security.Tracking.{
  Tracked, drop_expired-Tracked, upsert_bucket-Tracked, same_bucket-eq, upsert_bucket-apart,
  Counts-moved,
}

pub record Request : Type 0 where
  pub input : LimitInput
  pub at : ℕ

-- `min limit n`: how many of `n` requests a limit lets through.
abbrev pub within : ℕ → ℕ → ℕ
within limit n = if leb n limit then n else limit

within_step :
    (limit limit' n c p k : ℕ)
    → limit' ≡ limit
    → c ≡ suc n
    → p + within limit (suc n) ≡ within limit (suc n + k)
    → (if leb c limit' then 1 else 0) + p + within limit n ≡ within limit (n + suc k)
within_step limit limit' n c p k same count rest = ground arith

module _ (hash : String → String) (key : Bucket) where
  -- The bucket that a request counts in.
  abbrev pub bucket_of : Request → Bucket
  bucket_of r = new_bucket hash r.input r.at

  abbrev pub hits : Request → Bool
  hits r = same_bucket key (bucket_of r)

  -- The request is well formed, comes before the window of `key` ends and, where it is one of the
  -- bucket of `key`, has its limit and its window.
  pub record InWindow (limit : ℕ) (r : Request) : Type 0 where
    pub limited : 0 < r.input.limit
    pub windowed : 0 < r.input.window_seconds
    pub early : r.at < key.expires_at
    pub agreed :
        hits r ≡ true → (r.input.limit ≡ limit) × ((bucket_of r).expires_at ≡ key.expires_at)

  -- 1 for a request of the bucket that is allowed.
  abbrev pub pass : Request → Result SecurityError (RateLimitResult × SecurityStore) → ℕ
  pass r (ok (result, t)) = if hits r && result.allowed then 1 else 0
  pass r (err e) = 0

  abbrev pub store_after :
      Result SecurityError (RateLimitResult × SecurityStore) → SecurityStore → SecurityStore
  store_after (ok (result, t)) s = t
  store_after (err e) s = s

  -- How many requests of the bucket are allowed, in a run of requests of all buckets.
  unfoldable pub passed : List Request → SecurityStore → ℕ
  passed [] s = 0
  passed (r ∷ rs) s =
      let result = consume_rate_limit hash r.input r.at s in
      pass r result + passed rs (store_after result s)

  -- How many there are.
  unfoldable pub asked : List Request → ℕ
  asked [] = 0
  asked (r ∷ rs) = if hits r then suc (asked rs) else asked rs

  abbrev next_store : Request → SecurityStore → SecurityStore
  next_store r s = record {
    buckets = count_request hash r.input r.at s;
    audit_events = note_exceeded r.input (counted hash r.input r.at s) s.audit_events;
  }

  consume-eq :
      (limit : ℕ) (r : Request) (s : SecurityStore)
      → InWindow limit r
      → consume_rate_limit hash r.input r.at s
        ≡ ok (limit_result hash r.input r.at (counted hash r.input r.at s), next_store r s)
  unfolding consume_rate_limit
  consume-eq limit r s w =
      rw (le→leb 1 r.input.limit w.limited, le→leb 1 r.input.window_seconds w.windowed)

  count_request-hit :
      (limit n : ℕ) (r : Request) (s : SecurityStore)
      → InWindow limit r
      → hits r ≡ true
      → Tracked key n s.buckets
      → Tracked key (suc n) (count_request hash r.input r.at s)
        × (counted hash r.input r.at s ≡ suc n)
  unfolding count_request
  count_request-hit limit n r s w hit h =
      let new = bucket_of r in
      let same = same_bucket-eq key new hit in
      let expiry = (w.agreed hit).1 in
      let before : Tracked key n (drop_expired r.at s.buckets) =
        drop_expired-Tracked key n r.at s.buckets w.early h in
      let mine : Tracked new n (drop_expired r.at s.buckets) =
        rw same (Counts-moved key new n _ (sym expiry) before) in
      let after : Tracked new (suc n) (upsert_bucket new (drop_expired r.at s.buckets)) =
        upsert_bucket-Tracked new n _ refl mine in
      (rw (← same) (Counts-moved new key (suc n) _ expiry after), ap count_of after.1 ∙ after.2)

  count_request-miss :
      (limit n : ℕ) (r : Request) (s : SecurityStore)
      → InWindow limit r
      → hits r ≡ false
      → Tracked key n s.buckets
      → Tracked key n (count_request hash r.input r.at s)
  unfolding count_request
  count_request-miss limit n r s w miss h =
      upsert_bucket-apart key (bucket_of r) n _ miss
        (drop_expired-Tracked key n r.at s.buckets w.early h)

  passed-within :
      (limit n : ℕ) (rs : List Request) (s : SecurityStore)
      → All (InWindow limit) rs
      → Tracked key n s.buckets
      → passed rs s + within limit n ≡ within limit (n + asked rs)
  unfolding passed asked
  passed-within limit n [] s w h = ground arith
  passed-within limit n (r ∷ rs) s (w, ws) h = elim (Bool-cases (hits r)) [
    | inl hit ↦
        let (tracked, count) = count_request-hit limit n r s w hit h in
        let rest = passed-within limit (suc n) rs (next_store r s) ws tracked in
        rw (consume-eq limit r s w, hit)
          (within_step limit r.input.limit n (counted hash r.input r.at s)
            (passed rs (next_store r s)) (asked rs) (w.agreed hit).0 count rest)
    | inr miss ↦
        rw (consume-eq limit r s w, miss, zero-add)
          (passed-within limit n rs (next_store r s) ws (count_request-miss limit n r s w miss h))
  ]

-- In one window, from a store without the bucket and for well-formed requests that agree on the
-- bucket's limit and come before the window ends, exactly the smaller of the limit and the number
-- of the bucket's requests are let through, whatever requests of other buckets come between them.
pub passed-eq-within :
    (hash : String → String) (key : Bucket) (limit : ℕ) (rs : List Request) (s : SecurityStore)
    → All (InWindow hash key limit) rs
    → find_where (same_bucket key) s.buckets ≡ none
    → passed hash key rs s ≡ within limit (asked hash key rs)
passed-eq-within hash key limit rs s w h = ground (arith, passed-within hash key limit 0 rs s w h)
