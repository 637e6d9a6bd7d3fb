-- ===== src/Security/Tests.antt =====
-- The theorem on `consumeRateLimit` at a concrete limit.
use nextjs_saas_boilerplate.Common.{ℕ, ◌<◌, ◌≡◌, refl, List, [], ◌∷◌, none, find_where, arith}
use nextjs_saas_boilerplate.Security.RateLimit.{LimitInput, SecurityStore, Bucket, new_bucket}
use nextjs_saas_boilerplate.Security.Windows.{
  Request, InWindow, passed, asked, within, passed-eq-within,
}

abbrev login : LimitInput
login = record {
  identifier = " 10.0.0.1 ";
  limit = 2;
  scope = "login";
  tenant_id = none;
  window_seconds = 60;
}

abbrev request_at : ℕ → Request
request_at now = record { input = login; at = now }

abbrev requests : List Request
requests = request_at 61000 ∷ request_at 62000 ∷ request_at 63000 ∷ []

abbrev key : Bucket
key = new_bucket (λ s. s) login 61000

abbrev no_buckets : SecurityStore
no_buckets = record { buckets = []; audit_events = [] }

in_window :
    (now : ℕ)
    → now < key.expires_at
    → (new_bucket (λ s. s) login now).expires_at ≡ key.expires_at
    → InWindow (λ s. s) key 2 (request_at now)
in_window now early same = record {
  limited = omega arith;
  windowed = omega arith;
  early = early;
  agreed = λ hit. (refl, same);
}

passed-eq-within_example :
    passed (λ s. s) key requests no_buckets ≡ within 2 (asked (λ s. s) key requests)
unfolding find_where
passed-eq-within_example =
    passed-eq-within (λ s. s) key 2 requests no_buckets
      (
        in_window 61000 (omega arith) refl,
        (in_window 62000 (omega arith) refl, (in_window 63000 (omega arith) refl, tt)),
      )
      refl
