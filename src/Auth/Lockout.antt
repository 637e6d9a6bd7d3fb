-- ===== src/Auth/Lockout.antt =====
-- `recordLoginAttempt` and `assertNotLocked` of packages/auth/src/index.ts.
use nextjs_saas_boilerplate.Common.{
  ℕ, ◌+◌, ◌*◌, leb, String, Bool, not, ◌&&◌, List, [], ◌∷◌, ◌++◌, Option, ◌==◌, if◌then◌else◌,
  Result, ok, err, count_where,
}
use nextjs_saas_boilerplate.Common.Strings.{trim}

pub record LoginAttempt : Type 0 where
  pub identifier : String
  pub ip_address : Option String
  pub success : Bool
  pub reason : String
  pub created_at : ℕ

-- A row of `auth_audit_events` for a locked identifier.
pub record LockedEvent : Type 0 where
  pub identifier : String
  pub created_at : ℕ

pub record LoginStore : Type 0 where
  pub attempts : List LoginAttempt
  pub audit_events : List LockedEvent

pub data LoginError : Type 0 where
  login_locked : LoginError

-- `authSecurityPolicy`
abbrev pub login_attempt_window_seconds : ℕ
login_attempt_window_seconds = 15 * 60

abbrev pub max_failed_login_attempts : ℕ
max_failed_login_attempts = 5

pub record AttemptInput : Type 0 where
  pub identifier : String
  pub ip_address : Option String
  pub reason : String
  pub success : Bool

-- `lower` is JavaScript's `toLowerCase`.
module _ (lower : String → String) where
  abbrev pub normalize_identifier : String → String
  normalize_identifier email = lower (trim email)

  abbrev pub new_attempt : AttemptInput → ℕ → LoginAttempt
  new_attempt input now = record {
    identifier = normalize_identifier input.identifier;
    ip_address = input.ip_address;
    success = input.success;
    reason = input.reason;
    created_at = now;
  }

  unfoldable pub record_login_attempt : AttemptInput → ℕ → LoginStore → LoginStore
  record_login_attempt input now s = record s {
    attempts = s.attempts ++ new_attempt input now ∷ [];
  }

  -- The WHERE of the count: `created_at >= now - window`, written as a sum, since `-` stops at 0.
  abbrev pub is_recent_failure : String → ℕ → LoginAttempt → Bool
  is_recent_failure identifier now row =
      row.identifier == normalize_identifier identifier
      && not row.success
      && leb now (row.created_at + login_attempt_window_seconds * 1000)

  unfoldable pub assert_not_locked :
      String → ℕ → LoginStore → Result LoginError (Unit {0}) × LoginStore
  assert_not_locked identifier now s =
      if leb max_failed_login_attempts (count_where (is_recent_failure identifier now) s.attempts)
      then (
        err login_locked,
        record s {
          audit_events =
              s.audit_events
              ++ record { identifier = normalize_identifier identifier; created_at = now } ∷ [];
        },
      )
      else (ok tt, s)
