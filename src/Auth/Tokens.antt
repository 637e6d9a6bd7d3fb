-- ===== src/Auth/Tokens.antt =====
-- `createToken` and `consumeToken` of packages/auth/src/index.ts. A
-- timestamp is its number of milliseconds since 1970; the metadata of a row is left out.
use nextjs_saas_boilerplate.Common.{
  ℕ, ◌+◌, ◌*◌, ltb, String, Bool, true, false, ◌&&◌, ◌||◌, List, [], ◌∷◌, ◌++◌, Option, none, some,
  ◌==◌, any, is_none, if◌then◌else◌, ok, err, update_where, find_where,
}
use mathlib.Core.Option
use nextjs_saas_boilerplate.Common.Actions.{Action, ◌>>=◌, require_some}

pub data TokenKind : Type 0 where
  email_change email_verification invitation magic_link password_reset : TokenKind

pub record AuthTokenRow : Type 0 where
  pub id : String
  pub user_id : Option String
  pub email : Option String
  pub kind : TokenKind
  pub token_hash : String
  pub target : Option String
  pub expires_at : ℕ
  pub consumed_at : Option ℕ
  pub created_at : ℕ

-- The codes of `AuthError`; `duplicate_key` is the refusal of an INSERT by the id or by the unique
-- index on the hash.
pub data AuthError : Type 0 where
  invalid_token duplicate_key invalid_refresh_token passkey_challenge_expired : AuthError

abbrev pub kind_eq : TokenKind → TokenKind → Bool
kind_eq email_change email_change = true
kind_eq email_verification email_verification = true
kind_eq invitation invitation = true
kind_eq magic_link magic_link = true
kind_eq password_reset password_reset = true
kind_eq _ _ = false

pub record TokenInput : Type 0 where
  pub email : Option String
  pub kind : TokenKind
  pub target : Option String
  pub ttl_seconds : ℕ
  pub user_id : Option String

abbrev pub Call : Type 0 → Type 0
Call = Action (List AuthTokenRow) AuthError

-- `UPDATE … SET consumed_at = $1 WHERE … RETURNING *`, and its first row.
abbrev pub set_consumed : ℕ → AuthTokenRow → AuthTokenRow
set_consumed now row = record row { consumed_at = some now }

unfoldable pub consume_row : (AuthTokenRow → Bool) → ℕ → Call (Option AuthTokenRow)
consume_row p now rows =
    (ok (Option.map (set_consumed now) (find_where p rows)), update_where p (set_consumed now) rows)

-- `hash` is `hashToken`, SHA-256 of Node's crypto.
module _ (hash : String → String) where
  -- `token` and `uuid` are what `randomToken` and `randomUUID` draw.
  abbrev pub new_token : TokenInput → String → String → ℕ → AuthTokenRow
  new_token input token uuid now = record {
    id = uuid;
    user_id = input.user_id;
    email = input.email;
    kind = input.kind;
    token_hash = hash token;
    target = input.target;
    expires_at = now + input.ttl_seconds * 1000;
    consumed_at = none;
    created_at = now;
  }

  abbrev pub clashes : AuthTokenRow → AuthTokenRow → Bool
  clashes new row = row.id == new.id || row.token_hash == new.token_hash

  unfoldable pub create_token : TokenInput → String → String → ℕ → Call String
  create_token input token uuid now rows =
      if any (clashes (new_token input token uuid now)) rows
      then (err duplicate_key, rows)
      else (ok token, rows ++ new_token input token uuid now ∷ [])

  -- The WHERE of `consumeToken`.
  abbrev pub is_consumable : TokenKind → String → ℕ → AuthTokenRow → Bool
  is_consumable kind token now row =
      kind_eq row.kind kind
      && row.token_hash == hash token
      && is_none row.consumed_at
      && ltb now row.expires_at

  unfoldable pub consume_token : TokenKind → String → ℕ → Call AuthTokenRow
  unfolding consume_row
  consume_token kind token now = do
    consumed ← consume_row (is_consumable kind token now) now
    require_some consumed invalid_token
