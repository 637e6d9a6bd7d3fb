-- ===== src/Security/RateLimit.antt =====
-- `consumeRateLimit` of packages/security/src/service.ts: fixed windows, counted in the table
-- `rate_limit_buckets`. A timestamp is its number of milliseconds since 1970.
use nextjs_saas_boilerplate.Common.{
  ℕ, ◌+◌, ◌-◌, ◌*◌, ◌/◌, leb, nat_eq, String, Bool, ◌&&◌, not, List, [], ◌∷◌, ◌++◌, Option, none,
  some, ◌==◌, any, if◌then◌else◌, or_else, Result, ok, guard, ◌>>◌, update_where, select_where,
  find_where,
}
use nextjs_saas_boilerplate.Common.Strings.{trim, is_present}

pub record Bucket : Type 0 where
  pub tenant_id : Option String
  pub identifier : String
  pub scope : String
  pub window_start : ℕ
  pub window_seconds : ℕ
  pub count : ℕ
  pub expires_at : ℕ

-- A row of `security_audit_events` for an exceeded limit.
pub record LimitExceeded : Type 0 where
  pub tenant_id : Option String
  pub scope : String

pub record SecurityStore : Type 0 where
  pub buckets : List Bucket
  pub audit_events : List LimitExceeded

-- What `positiveInteger` throws.
pub data SecurityError : Type 0 where
  not_positive : SecurityError

pub record LimitInput : Type 0 where
  pub identifier : String
  pub limit : ℕ
  pub scope : String
  pub tenant_id : Option String
  pub window_seconds : ℕ

pub record RateLimitResult : Type 0 where
  pub allowed : Bool
  pub limit : ℕ
  pub remaining : ℕ
  pub reset_at : ℕ
  pub retry_after_seconds : ℕ

unfoldable pub positive_integer : ℕ → Result SecurityError (Unit {0})
positive_integer value = guard (leb 1 value) not_positive

-- `Math.floor(current / windowMs) * windowMs`
abbrev pub window_start : ℕ → ℕ → ℕ
window_start window_seconds now = now / (window_seconds * 1000) * (window_seconds * 1000)

-- The unique index: `(COALESCE(tenant_id, '')), identifier, scope, window_start`.
abbrev pub same_bucket : Bucket → Bucket → Bool
same_bucket new row =
    or_else row.tenant_id "" == or_else new.tenant_id ""
    && row.identifier == new.identifier
    && row.scope == new.scope
    && nat_eq row.window_start new.window_start

-- The SET list after ON CONFLICT.
abbrev pub count_again : Bucket → Bucket → Bucket
count_again excluded row = record row {
  count = row.count + 1;
  window_seconds = excluded.window_seconds;
  expires_at = excluded.expires_at;
}

unfoldable pub upsert_bucket : Bucket → List Bucket → List Bucket
upsert_bucket new rows =
    if any (same_bucket new) rows
    then update_where (same_bucket new) (count_again new) rows
    else rows ++ new ∷ []

-- `DELETE … WHERE expires_at <= $1`
unfoldable pub drop_expired : ℕ → List Bucket → List Bucket
drop_expired now rows = select_where (λ row. not (leb row.expires_at now)) rows

-- `RETURNING count`
abbrev pub count_of : Option Bucket → ℕ
count_of none = 0
count_of (some row) = row.count

-- `Math.max(1, Math.ceil((expiresAt - current) / 1000))`
abbrev pub retry_after : ℕ → ℕ → ℕ
retry_after expires_at now =
    let seconds = (expires_at - now + 999) / 1000 in if leb 1 seconds then seconds else 1

-- `if (count === input.limit + 1) await audit(…)`
abbrev pub note_exceeded : LimitInput → ℕ → List LimitExceeded → List LimitExceeded
note_exceeded input count events =
    if nat_eq count (input.limit + 1)
    then events ++ record { tenant_id = input.tenant_id; scope = input.scope } ∷ []
    else events

-- `hash` is `hashSensitive`, an HMAC of Node's crypto.
module _ (hash : String → String) where
  -- `hashSensitive(input.identifier.trim() || "anonymous")`
  abbrev pub hashed_identifier : String → String
  hashed_identifier identifier =
      hash (if is_present (trim identifier) then trim identifier else "anonymous")

  abbrev pub new_bucket : LimitInput → ℕ → Bucket
  new_bucket input now = record {
    tenant_id = input.tenant_id;
    identifier = hashed_identifier input.identifier;
    scope = input.scope;
    window_start = window_start input.window_seconds now;
    window_seconds = input.window_seconds;
    count = 1;
    expires_at = window_start input.window_seconds now + input.window_seconds * 1000;
  }

  unfoldable pub count_request : LimitInput → ℕ → SecurityStore → List Bucket
  unfolding upsert_bucket drop_expired
  count_request input now s = upsert_bucket (new_bucket input now) (drop_expired now s.buckets)

  abbrev pub counted : LimitInput → ℕ → SecurityStore → ℕ
  counted input now s =
      count_of (find_where (same_bucket (new_bucket input now)) (count_request input now s))

  abbrev pub limit_result : LimitInput → ℕ → ℕ → RateLimitResult
  limit_result input now count = record {
    allowed = leb count input.limit;
    limit = input.limit;
    remaining = input.limit - count;
    reset_at = (new_bucket input now).expires_at;
    retry_after_seconds = retry_after (new_bucket input now).expires_at now;
  }

  unfoldable pub consume_rate_limit :
      LimitInput → ℕ → SecurityStore → Result SecurityError (RateLimitResult × SecurityStore)
  unfolding positive_integer
  consume_rate_limit input now s = do
    positive_integer input.limit
    positive_integer input.window_seconds
    let count = counted input now s
    ok (
      limit_result input now count,
      record {
        buckets = count_request input now s;
        audit_events = note_exceeded input count s.audit_events;
      },
    )
