-- ===== src/Auth/Tests.antt =====
-- The theorems on packages/auth/src/index.ts at concrete tokens and sign-ins.
use nextjs_saas_boilerplate.Common.{
  true, ◌≡◌, refl, String, false, List, [], ◌∷◌, ◌==◌, none, some, ok, err, arith, find_where,
  update_where, if◌then◌else◌,
}
use nextjs_saas_boilerplate.Auth.Tokens.{
  magic_link, password_reset, AuthTokenRow, invalid_token, invalid_refresh_token, kind_eq,
  TokenInput, set_consumed, new_token, create_token, consume_token,
}
use nextjs_saas_boilerplate.Auth.Lockout.{LoginStore, login_locked, assert_not_locked}
use nextjs_saas_boilerplate.Auth.Consumption.{consume_token_once, create_token-consume_token}
use nextjs_saas_boilerplate.Auth.Locking.{
  SignIn, record_all, IsFailureOf, Failures, nothing, failed, passed, assert_not_locked_lem,
}
use nextjs_saas_boilerplate.Common.Strings.{trim}
use Prim.Native.String
use nextjs_saas_boilerplate.Auth.Sessions.{
  AuthSessionRow, AuthContext, SessionStore, Draw, SessionService, valid_coordinator, get_session,
  revoke_session,
}
use nextjs_saas_boilerplate.Auth.Rotation.{rotated, set_rotated, rotate_refresh_token}
use nextjs_saas_boilerplate.Auth.Revocation.{
  SessionRequest, look_up, rotate, exec_all, revoke_session-get_session,
}
use nextjs_saas_boilerplate.Auth.Refreshing.{rotate_refresh_token_once}

abbrev same : String → String
same s = s

abbrev link : TokenInput
link = record {
  email = some "ann@acme.test";
  kind = magic_link;
  target = none;
  ttl_seconds = 900;
  user_id = some "ann";
}

abbrev tokens : List AuthTokenRow
tokens = new_token same link "t1" "id1" 1000 ∷ []

consume_token_once_example :
    let left = (consume_token same magic_link "t1" 2000 tokens).1 in
    consume_token same magic_link "t1" 3000 left ≡ (err invalid_token, left)
consume_token_once_example = consume_token_once same magic_link "t1" 2000 3000 tokens (omega arith)

create_token-consume_token_example :
    (consume_token same password_reset "t2" 3000
      (create_token same link "t2" "id2" 2000 tokens).1).0
    ≡ (if kind_eq magic_link password_reset
        then ok (set_consumed 3000 (new_token same link "t2" "id2" 2000))
        else err invalid_token)
unfolding create_token
create_token-consume_token_example =
    create_token-consume_token same link password_reset "t2" "id2" 2000 3000 tokens refl
      (omega arith)

abbrev failure : SignIn
failure = record {
  input = record {
    identifier = "ann@acme.test";
    ip_address = none;
    reason = "invalid_password";
    success = false;
  };
  at = 1000;
}

abbrev nothing_recorded : LoginStore
nothing_recorded = record { attempts = []; audit_events = [] }

abbrev success : SignIn
success = record failure {
  input = record {
    identifier = "ann@acme.test";
    ip_address = none;
    reason = "password";
    success = true;
  };
}

abbrev sign_ins : List SignIn
sign_ins = failure ∷ success ∷ failure ∷ failure ∷ failure ∷ failure ∷ []

a_failure : IsFailureOf same "ann@acme.test" 2000 failure
a_failure = (refl, refl, omega arith)

five_failures : Failures same "ann@acme.test" 2000 sign_ins 5
five_failures = failed a_failure (
    passed (λ f. cc (f.1))
      (failed a_failure (failed a_failure (failed a_failure (failed a_failure nothing)))))

assert_not_locked_lem_example :
    assert_not_locked same "ann@acme.test" 2000 (record_all same sign_ins nothing_recorded) ≡ (
      err login_locked,
      record {
        attempts = (record_all same sign_ins nothing_recorded).attempts;
        audit_events = record { identifier = "ann@acme.test"; created_at = 2000 } ∷ [];
      },
    )
unfolding trim
assert_not_locked_lem_example =
    assert_not_locked_lem same "ann@acme.test" 2000 5 sign_ins nothing_recorded refl five_failures

-- Texts are their own hashes.
abbrev session_service : SessionService
session_service = record {
  hash = λ s. s;
  rotation_hash = λ s coordinator. s;
  session_ttl_seconds = 60;
  refresh_token_ttl_seconds = 600;
}

abbrev phone : AuthSessionRow
phone = record {
  id = "s1";
  user_id = "ann";
  token_hash = "token1";
  refresh_token_hash = "refresh1";
  device_name = "phone";
  ip_address = none;
  user_agent = none;
  expires_at = 60000;
  refresh_expires_at = 600000;
  mfa_verified_at = none;
  revoked_at = none;
  last_seen_at = 0;
  created_at = 0;
  updated_at = 0;
}

abbrev laptop : AuthSessionRow
laptop = record phone {
  id = "s2";
  token_hash = "token2";
  refresh_token_hash = "refresh2";
  device_name = "laptop";
}

abbrev two_sessions : SessionStore
two_sessions = record {
  sessions = phone ∷ laptop ∷ [];
  users = record { id = "ann"; disabled_at = none; deleted_at = none } ∷ [];
  rotations = [];
  audit_events = [];
}

abbrev no_context : AuthContext
no_context = record { device_name = none; ip_address = none; user_agent = none }

abbrev draw_of : String → Draw
draw_of n = record {
  uuid = String.◌++◌ "id" n;
  session_token = String.◌++◌ "token" n;
  refresh_token = String.◌++◌ "refresh" n;
}

-- The phone is revoked, and tries both of its tokens.
abbrev tries : List SessionRequest
tries = look_up "token1" 20 ∷ rotate "refresh1" no_context none (draw_of "3") 21 21 [] ∷ []

revoke_session-get_session_example : (laptop.id == "s1") ≡ false
unfolding revoke_session exec_all get_session rotate_refresh_token find_where update_where
    valid_coordinator
revoke_session-get_session_example =
    revoke_session-get_session session_service "s1" "token2" 10 30 tries two_sessions
      (get_session session_service "token2" 30
        (exec_all session_service tries (revoke_session "s1" 10 two_sessions).1)).1
      laptop refl refl

abbrev rotated_phone : SessionStore
rotated_phone =
    (rotate_refresh_token session_service "refresh1" no_context none (draw_of "3") 10 10 []
      two_sessions).1

rotate_refresh_token_once_example :
    rotate_refresh_token session_service "refresh1" no_context none
      (draw_of "4")
      20
      20
      []
      rotated_phone
    ≡ (err invalid_refresh_token, rotated_phone)
unfolding rotate_refresh_token find_where update_where valid_coordinator
rotate_refresh_token_once_example =
    rotate_refresh_token_once session_service "refresh1" no_context no_context (draw_of "3")
      (draw_of "4") 10 10 20 20 [] [] two_sessions rotated_phone
      (rotated (draw_of "3") (set_rotated session_service phone no_context (draw_of "3") 10 phone))
      (refl, (refl, tt)) refl refl
