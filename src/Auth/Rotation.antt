-- ===== src/Auth/Rotation.antt =====
-- `rotateRefreshToken` of packages/auth/src/index.ts, over a client with transactions.
use nextjs_saas_boilerplate.Common.{
  ℕ, ◌+◌, ◌*◌, ltb, leb, String, Bool, not, ◌&&◌, List, [], ◌∷◌, ◌++◌, Option, none, some, ◌==◌,
  any, is_none, if◌then◌else◌, ok, err, update_where, select_where, find_where,
}
use mathlib.Core.Option
use nextjs_saas_boilerplate.Common.Actions.{◌>>=◌, ◌>>◌, pure, throw, get, modify, transaction}
use nextjs_saas_boilerplate.Auth.Tokens.{duplicate_key, invalid_refresh_token}
use nextjs_saas_boilerplate.Auth.Sessions.{
  AuthSessionRow, RefreshRotationResult, RotationRow, AuthContext, Draw, SessionCall,
  SessionService, audit, taken_by_other, valid_coordinator,
}

-- `context.x ?? session.x`
abbrev pub or_kept : Option String → Option String → Option String
or_kept none kept = kept
or_kept (some new) kept = some new

-- The UPDATE, which the unique indexes on the hashes may refuse, and its first row.
abbrev pub write_session :
    (AuthSessionRow → Bool)
    → (AuthSessionRow → AuthSessionRow)
    → Option AuthSessionRow
    → SessionCall (Option AuthSessionRow)
write_session p f none s = (ok none, s)
write_session p f (some row) s =
    if any (taken_by_other (f row)) s.sessions
    then (err duplicate_key, s)
    else (ok (some (f row)), record s { sessions = update_where p f s.sessions })

unfoldable pub update_session :
    (AuthSessionRow → Bool)
    → (AuthSessionRow → AuthSessionRow)
    → SessionCall (Option AuthSessionRow)
update_session p f s = write_session p f (find_where p s.sessions) s

abbrev pub rotated : Draw → AuthSessionRow → RefreshRotationResult
rotated draw session = record {
  refresh_token = draw.refresh_token;
  session = session;
  session_token = draw.session_token;
}

-- `if (completed) return completed`
abbrev pub rotate_unless :
    Option RefreshRotationResult
    → SessionCall (Option RefreshRotationResult)
    → SessionCall (Option RefreshRotationResult)
rotate_unless (some completed) call = pure (some completed)
rotate_unless none call = call

-- What a look at the table of results shows: its rows then, and the time.
abbrev pub Look : Type 0
Look = List RotationRow × ℕ

abbrev pub or_completed :
    Option RefreshRotationResult → Option RefreshRotationResult → Option RefreshRotationResult
or_completed (some completed) rest = some completed
or_completed none rest = rest

module _ (service : SessionService) where
  abbrev pub is_result : String → String → ℕ → RotationRow → Bool
  is_result refresh_token coordinator now row =
      row.token_hash == service.rotation_hash refresh_token coordinator && ltb now row.expires_at

  unfoldable pub find_refresh_rotation_result :
      Option String → String → ℕ → List RotationRow → Option RefreshRotationResult
  find_refresh_rotation_result none refresh_token now rows = none
  find_refresh_rotation_result (some coordinator) refresh_token now rows =
      Option.map (λ row. row.target) (find_where (is_result refresh_token coordinator now) rows)

  abbrev pub has_hash : RotationRow → RotationRow → Bool
  has_hash new row = row.token_hash == new.token_hash

  abbrev pub replace_result : RotationRow → RotationRow → RotationRow
  replace_result new row = record row { target = new.target; expires_at = new.expires_at }

  abbrev pub upsert_result : RotationRow → List RotationRow → List RotationRow
  upsert_result new rows =
      if any (has_hash new) rows
      then update_where (has_hash new) (replace_result new) rows
      else rows ++ new ∷ []

  -- `if (coordinator) { await saveRefreshRotationResult(…) }`
  unfoldable pub save_refresh_rotation_result :
      Option String → String → RefreshRotationResult → ℕ → SessionCall (Unit {0})
  save_refresh_rotation_result none refresh_token result now = pure tt
  save_refresh_rotation_result (some coordinator) refresh_token result now = modify (λ s. record s {
    rotations =
        upsert_result
          (record {
            token_hash = service.rotation_hash refresh_token coordinator;
            target = result;
            expires_at = now + 5 * 1000;
          })
          (select_where (λ row. not (leb row.expires_at now)) s.rotations);
  })

  abbrev pub is_refreshable : String → ℕ → AuthSessionRow → Bool
  is_refreshable refresh_token now row =
      row.refresh_token_hash == service.hash refresh_token
      && is_none row.revoked_at
      && ltb now row.refresh_expires_at

  abbrev pub is_rotatable : String → String → ℕ → AuthSessionRow → Bool
  is_rotatable session_id refresh_token now row =
      row.id == session_id && is_refreshable refresh_token now row

  abbrev pub set_rotated : AuthSessionRow → AuthContext → Draw → ℕ → AuthSessionRow → AuthSessionRow
  set_rotated session context draw now row = record row {
    token_hash = service.hash draw.session_token;
    refresh_token_hash = service.hash draw.refresh_token;
    expires_at = now + service.session_ttl_seconds * 1000;
    refresh_expires_at = now + service.refresh_token_ttl_seconds * 1000;
    last_seen_at = now;
    updated_at = now;
    device_name = elim context.device_name [ none ↦ session.device_name | some name ↦ name ];
    ip_address = or_kept context.ip_address session.ip_address;
    user_agent = or_kept context.user_agent session.user_agent;
  }

  unfoldable pub after_update :
      Option String
      → String
      → Draw
      → ℕ
      → Option AuthSessionRow
      → SessionCall (Option RefreshRotationResult)
  unfolding find_refresh_rotation_result save_refresh_rotation_result audit
  after_update coordinator refresh_token draw now none s =
      (ok (find_refresh_rotation_result coordinator refresh_token now s.rotations), s)
  after_update coordinator refresh_token draw now (some session) s =
      (do
        audit (some session.user_id) "auth.session.rotated" now
        save_refresh_rotation_result coordinator refresh_token (rotated draw session) now
        pure (some (rotated draw session)))
        s

  -- `later` is the second reading of the clock.
  unfoldable pub rotate_found :
      Option String
      → String
      → AuthContext
      → Draw
      → ℕ
      → Option AuthSessionRow
      → SessionCall (Option RefreshRotationResult)
  unfolding update_session after_update
  rotate_found coordinator refresh_token context draw later none = pure none
  rotate_found coordinator refresh_token context draw later (some session) = do
    updated ←
        update_session (is_rotatable session.id refresh_token later)
          (set_rotated session context draw later)
    after_update coordinator refresh_token draw later updated

  -- The callback of the transaction.
  unfoldable pub rotate_rows :
      Option String
      → String
      → AuthContext
      → Draw
      → (now later : ℕ) → SessionCall (Option RefreshRotationResult)
  unfolding rotate_found find_refresh_rotation_result
  rotate_rows coordinator refresh_token context draw now later = do
    s ← get
    rotate_unless (find_refresh_rotation_result coordinator refresh_token now s.rotations) (
        rotate_found coordinator refresh_token context draw later
          (find_where (is_refreshable refresh_token now) s.sessions))

  unfoldable pub first_completed : Option String → String → List Look → Option RefreshRotationResult
  unfolding find_refresh_rotation_result
  first_completed coordinator refresh_token [] = none
  first_completed coordinator refresh_token ((rows, now) ∷ looks) =
      or_completed (find_refresh_rotation_result coordinator refresh_token now rows)
        (first_completed coordinator refresh_token looks)

  abbrev pub answer : Option RefreshRotationResult → SessionCall RefreshRotationResult
  answer (some result) = pure result
  answer none = throw invalid_refresh_token

  -- `looks` are the four looks after the transaction, while other calls may go on.
  unfoldable pub rotate_refresh_token :
      String
      → AuthContext
      → Option String
      → Draw
      → (now later : ℕ) → (looks : List Look) → SessionCall RefreshRotationResult
  unfolding rotate_rows first_completed valid_coordinator
  rotate_refresh_token refresh_token context coordinator draw now later looks = do
    result ←
        transaction
          (rotate_rows (valid_coordinator coordinator) refresh_token context draw now later)
    answer
        (or_completed result (first_completed (valid_coordinator coordinator) refresh_token looks))
