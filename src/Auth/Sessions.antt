-- ===== src/Auth/Sessions.antt =====
-- `createSession`, `getSession`, `revokeSession` and `rotateRefreshToken` of
-- packages/auth/src/index.ts, with `findRefreshRotationResult` and `saveRefreshRotationResult`. The
-- encryption of a stored result is left out: the row holds the result itself. A session that is
-- answered is its row, from which `toSession` drops the two hashes.
use nextjs_saas_boilerplate.Common.{
  ℕ, ◌+◌, ◌*◌, ltb, leb, nat_eq, String, Bool, true, not, ◌&&◌, ◌||◌, List, [], ◌∷◌, ◌++◌, Option,
  none, some, ◌==◌, any, is_none, if◌then◌else◌, or_else, ok, err, update_where, find_where,
}
use Prim.Native.Char.{code}
use nextjs_saas_boilerplate.Common.Strings.{units}
use nextjs_saas_boilerplate.Common.Actions.{Action, ◌>>=◌, ◌>>◌, pure, get, modify}
use nextjs_saas_boilerplate.Auth.Tokens.{AuthError, duplicate_key}

pub record AuthSessionRow : Type 0 where
  pub id : String
  pub user_id : String
  pub token_hash : String
  pub refresh_token_hash : String
  pub device_name : String
  pub ip_address : Option String
  pub user_agent : Option String
  pub expires_at : ℕ
  pub refresh_expires_at : ℕ
  pub mfa_verified_at : Option ℕ
  pub revoked_at : Option ℕ
  pub last_seen_at : ℕ
  pub created_at : ℕ
  pub updated_at : ℕ

-- The columns of `auth_users` that `getSession` tests.
pub record AuthUserRow : Type 0 where
  pub id : String
  pub disabled_at : Option ℕ
  pub deleted_at : Option ℕ

pub record RefreshRotationResult : Type 0 where
  pub refresh_token : String
  pub session : AuthSessionRow
  pub session_token : String

-- A row of `auth_tokens` of the kind `refresh_rotation_result`.
pub record RotationRow : Type 0 where
  pub token_hash : String
  pub target : RefreshRotationResult
  pub expires_at : ℕ

pub record AuthContext : Type 0 where
  pub device_name : Option String
  pub ip_address : Option String
  pub user_agent : Option String

pub record SessionEvent : Type 0 where
  pub user_id : Option String
  pub event_type : String
  pub created_at : ℕ

pub record SessionStore : Type 0 where
  pub sessions : List AuthSessionRow
  pub users : List AuthUserRow
  pub rotations : List RotationRow
  pub audit_events : List SessionEvent

-- What `randomUUID` and `randomToken` draw.
pub record Draw : Type 0 where
  pub uuid : String
  pub session_token : String
  pub refresh_token : String

abbrev pub SessionCall : Type 0 → Type 0
SessionCall = Action SessionStore AuthError

unfoldable pub audit : Option String → String → ℕ → SessionCall (Unit {0})
audit user_id event_type now = modify (λ s. record s {
  audit_events =
      s.audit_events
      ++ record { user_id = user_id; event_type = event_type; created_at = now } ∷ [];
})

-- The primary key and the unique indexes on the two hashes, for a row that is new or changed.
abbrev pub same_hash : AuthSessionRow → AuthSessionRow → Bool
same_hash new row =
    row.token_hash == new.token_hash || row.refresh_token_hash == new.refresh_token_hash

abbrev pub taken_by : AuthSessionRow → AuthSessionRow → Bool
taken_by new row = row.id == new.id || same_hash new row

abbrev pub taken_by_other : AuthSessionRow → AuthSessionRow → Bool
taken_by_other new row = not (row.id == new.id) && same_hash new row

unfoldable pub insert_session : AuthSessionRow → SessionCall (Unit {0})
insert_session session s =
    if any (taken_by session) s.sessions
    then (err duplicate_key, s)
    else (ok tt, record s { sessions = s.sessions ++ session ∷ [] })

-- `WHERE id = $2`
abbrev pub is_session : String → AuthSessionRow → Bool
is_session id row = row.id == id

abbrev pub set_revoked : ℕ → AuthSessionRow → AuthSessionRow
set_revoked now row = record row { revoked_at = some now; updated_at = now }

abbrev pub user_of : Option AuthSessionRow → Option String
user_of none = none
user_of (some row) = some row.user_id

unfoldable pub revoke_session : String → ℕ → SessionCall (Unit {0})
unfolding audit
revoke_session session_id now = do
  s ← get
  modify (λ t. record t {
    sessions = update_where (is_session session_id) (set_revoked now) t.sessions;
  })
  audit (user_of (find_where (is_session session_id) s.sessions)) "auth.session.revoked" now

-- `u.deleted_at IS NULL AND u.disabled_at IS NULL`
abbrev pub is_live_user : String → AuthUserRow → Bool
is_live_user user_id user =
    user.id == user_id && is_none user.deleted_at && is_none user.disabled_at

abbrev pub set_seen : ℕ → AuthSessionRow → AuthSessionRow
set_seen now row = record row { last_seen_at = now; updated_at = now }

-- `[A-Za-z0-9_-]`
abbrev pub is_base64url : ℕ → Bool
is_base64url c =
    (leb 65 c && leb c 90)
    || (leb 97 c && leb c 122)
    || (leb 48 c && leb c 57)
    || nat_eq c 95
    || nat_eq c 45

unfoldable pub all_base64url : String → Bool
all_base64url String.[] = true
all_base64url (String.◌∷◌ c s) = is_base64url (code c) && all_base64url s

-- A coordinator of another form is none.
unfoldable pub valid_coordinator : Option String → Option String
unfolding all_base64url units
valid_coordinator none = none
valid_coordinator (some coordinator) =
    if nat_eq (units coordinator) 43 && all_base64url coordinator then some coordinator else none

-- What the service is made with: `hashToken`, `refreshRotationResultHash` and the lifetimes.
pub record SessionService : Type 0 where
  pub hash : String → String
  pub rotation_hash : String → String → String
  pub session_ttl_seconds : ℕ
  pub refresh_token_ttl_seconds : ℕ

module _ (service : SessionService) where
  abbrev pub new_session : String → AuthContext → Bool → Draw → ℕ → AuthSessionRow
  new_session user_id context mfa_verified draw now = record {
    id = draw.uuid;
    user_id = user_id;
    token_hash = service.hash draw.session_token;
    refresh_token_hash = service.hash draw.refresh_token;
    device_name = or_else context.device_name "Current device";
    ip_address = context.ip_address;
    user_agent = context.user_agent;
    expires_at = now + service.session_ttl_seconds * 1000;
    refresh_expires_at = now + service.refresh_token_ttl_seconds * 1000;
    mfa_verified_at = if mfa_verified then some now else none;
    revoked_at = none;
    last_seen_at = now;
    created_at = now;
    updated_at = now;
  }

  unfoldable pub create_session :
      String → AuthContext → Bool → Draw → ℕ → SessionCall RefreshRotationResult
  unfolding insert_session audit
  create_session user_id context mfa_verified draw now = do
    insert_session (new_session user_id context mfa_verified draw now)
    audit (some user_id) "auth.session.created" now
    pure (record {
      refresh_token = draw.refresh_token;
      session = new_session user_id context mfa_verified draw now;
      session_token = draw.session_token;
    })

  -- The WHERE of `getSession`, with its join.
  abbrev pub is_open_session : String → ℕ → List AuthUserRow → AuthSessionRow → Bool
  is_open_session session_token now users row =
      row.token_hash == service.hash session_token
      && is_none row.revoked_at
      && ltb now row.expires_at
      && any (is_live_user row.user_id) users

  abbrev pub seen : Option AuthSessionRow → ℕ → SessionCall (Option AuthSessionRow)
  seen none now = pure none
  seen (some session) now = do
    modify (λ t. record t {
      sessions = update_where (is_session session.id) (set_seen now) t.sessions;
    })
    pure (some session)

  -- The session that is answered; the columns of its user are left out.
  unfoldable pub get_session : String → ℕ → SessionCall (Option AuthSessionRow)
  get_session session_token now = do
    s ← get
    seen (find_where (is_open_session session_token now s.users) s.sessions) now
