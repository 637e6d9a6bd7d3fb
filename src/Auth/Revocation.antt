-- ===== src/Auth/Revocation.antt =====
-- A revoked session stays revoked, whatever is called.
use nextjs_saas_boilerplate.Common.{
  ℕ, ◌≡◌, refl, subst, ap, ok-injective, String, Bool, true, false, not, ◌&&◌, ◌||◌, List, [], ◌∷◌,
  ◌++◌, Option, none, some, ◌==◌, any, ltb, is_none, Result, ok, err, update_where, find_where,
  find_where-All, update_where-All, has_key, any-update_where, All, All-append, All-update_where,
  arith, Bool-cases, Option-cases, inl, inr, eq_iff,
}
use mathlib.Core.Option.{some-injective}
use nextjs_saas_boilerplate.Common.Actions.{◌>>=◌, pure, continue, undo}
use nextjs_saas_boilerplate.Auth.Tokens.{AuthError}
use nextjs_saas_boilerplate.Auth.Sessions.{
  AuthUserRow, is_live_user, AuthSessionRow, RefreshRotationResult, AuthContext, SessionStore, Draw,
  SessionService, audit, taken_by, taken_by_other, is_session, valid_coordinator, insert_session,
  set_revoked, set_seen, new_session, is_open_session, create_session, get_session, revoke_session,
}
use nextjs_saas_boilerplate.Auth.Rotation.{
  Look, or_completed, is_refreshable, is_rotatable, set_rotated, update_session, after_update,
  rotate_found, rotate_rows, answer, rotate_refresh_token, first_completed,
  find_refresh_rotation_result,
}

pub data SessionRequest : Type 0 where
  sign_in :
      (user_id : String) → AuthContext → (mfa_verified : Bool) → Draw → (now : ℕ) → SessionRequest
  look_up : (session_token : String) → (now : ℕ) → SessionRequest
  revoke : (session_id : String) → (now : ℕ) → SessionRequest
  rotate :
      (refresh_token : String)
      → AuthContext
      → (coordinator : Option String) → Draw
      → (now later : ℕ) → List Look
      → SessionRequest

abbrev pub session_key : AuthSessionRow → String
session_key row = row.id

abbrev IsShut : String → AuthSessionRow → Type 0
IsShut id row = (not (row.id == id) || not (is_none row.revoked_at)) ≡ true

-- There is a session with an id, and it is revoked.
abbrev IsGone : String → List AuthSessionRow → Type 0
IsGone id sessions = (any (has_key session_key id) sessions ≡ true) × All (IsShut id) sessions

IsGone-update_where :
    (id : String) (p : AuthSessionRow → Bool) (f : AuthSessionRow → AuthSessionRow)
    → ((r : AuthSessionRow) → (f r).id ≡ r.id)
    → ((r : AuthSessionRow) → IsShut id r → IsShut id (f r))
    → (sessions : List AuthSessionRow) → IsGone id sessions
    → IsGone id (update_where p f sessions)
IsGone-update_where id p f keeps shuts sessions (there, shut) = (
  rw (any-update_where session_key f keeps id p sessions) there,
  All-update_where (IsShut id) p f sessions (λ r h hit. shuts r h) shut,
)

any-append_left :
    (id : String) (sessions more : List AuthSessionRow)
    → any (has_key session_key id) sessions ≡ true
    → any (has_key session_key id) (sessions ++ more) ≡ true
any-append_left id [] more h = cc
any-append_left id (r ∷ sessions) more h = ground (arith, any-append_left id sessions more)

not_taken :
    (id : String) (new : AuthSessionRow) (sessions : List AuthSessionRow)
    → any (has_key session_key id) sessions ≡ true
    → any (taken_by new) sessions ≡ false
    → (new.id == id) ≡ false
not_taken id new [] h free = cc
not_taken id new (r ∷ sessions) h free =
    ground (arith, eq_iff r.id id, eq_iff new.id id, eq_iff r.id new.id, not_taken id new sessions)

insert_session-IsGone :
    (id : String) (new : AuthSessionRow) (s : SessionStore)
    → IsGone id s.sessions
    → IsGone id (insert_session new s).1.sessions
unfolding insert_session
insert_session-IsGone id new s (there, shut) = elim (Bool-cases (any (taken_by new) s.sessions)) [
  | inl taken ↦ rw taken (there, shut)
  | inr free ↦
      let other = not_taken id new s.sessions there free in
      let fresh : IsShut id new = rw other refl in
      rw free (
        any-append_left id s.sessions (new ∷ []) there,
        All-append (IsShut id) s.sessions (new ∷ []) shut (fresh, tt),
      )
]

all_four : (a b c d : Bool) → (a && b && c && d) ≡ true → b ≡ true
all_four a b c d h = ground arith

module _ (service : SessionService) where
  create_session-IsGone :
      (id user_id : String) (context : AuthContext) (mfa_verified : Bool) (draw : Draw) (now : ℕ)
      (s : SessionStore)
      → IsGone id s.sessions
      → IsGone id (create_session service user_id context mfa_verified draw now s).1.sessions
  unfolding create_session audit
  create_session-IsGone id user_id context mfa_verified draw now s h =
      let new = new_session service user_id context mfa_verified draw now in
      after (insert_session new s) (insert_session-IsGone id new s h)
    where
      after :
          (r : Result AuthError (Unit {0}) × SessionStore)
          → IsGone id r.1.sessions
          → IsGone id
              (continue {B = RefreshRotationResult}
                (λ done. audit (some user_id) "auth.session.created" now >>= λ done. pure (record {
                  refresh_token = draw.refresh_token;
                  session = new_session service user_id context mfa_verified draw now;
                  session_token = draw.session_token;
                }))
                r).1.sessions
      after (ok done, t) h = h
      after (err e, t) h = h

  get_session-IsGone :
      (id session_token : String) (now : ℕ) (s : SessionStore)
      → IsGone id s.sessions
      → IsGone id (get_session service session_token now s).1.sessions
  unfolding get_session
  get_session-IsGone id session_token now s h =
      elim (Option-cases
        (find_where (is_open_session service session_token now s.users) s.sessions)) [
          | inl missing ↦ rw missing h
          | inr (row, found) ↦ rw found (
              IsGone-update_where id (is_session row.id) (set_seen now) (λ r. refl) (λ r h. h)
                s.sessions h)
        ]

  after_update-sessions :
      (coordinator : Option String) (refresh_token : String) (draw : Draw) (now : ℕ)
      (updated : Option AuthSessionRow) (s : SessionStore)
      → (after_update service coordinator refresh_token draw now updated s).1.sessions ≡ s.sessions
  unfolding after_update
  after_update-sessions coordinator refresh_token draw now none s = refl
  after_update-sessions none refresh_token draw now (some session) s = refl
  after_update-sessions (some coordinator) refresh_token draw now (some session) s = refl

  rotate_found-IsGone :
      (id : String) (coordinator : Option String) (refresh_token : String) (context : AuthContext)
      (draw : Draw) (later : ℕ) (row : Option AuthSessionRow) (s : SessionStore)
      → IsGone id s.sessions
      → IsGone id
          (rotate_found service coordinator refresh_token context draw later row s).1.sessions
  unfolding rotate_found update_session
  rotate_found-IsGone id coordinator refresh_token context draw later none s h = h
  rotate_found-IsGone id coordinator refresh_token context draw later (some session) s h =
      let p = is_rotatable service session.id refresh_token later in
      let f = set_rotated service session context draw later in
      elim (Option-cases (find_where p s.sessions)) [
        | inl missing ↦
            rw (missing, after_update-sessions coordinator refresh_token draw later none s) h
        | inr (row, found) ↦ elim (Bool-cases (any (taken_by_other (f row)) s.sessions)) [
          | inl taken ↦ rw (found, taken) h
          | inr free ↦
              rw
                (
                  found,
                  free,
                  after_update-sessions coordinator refresh_token draw later (some (f row))
                      (record s { sessions = update_where p f s.sessions }),
                )
                (IsGone-update_where id p f (λ r. refl) (λ r h. h) s.sessions h)
        ]
      ]

  answer-IsGone :
      (id : String) (result : Option RefreshRotationResult) (t : SessionStore)
      → IsGone id t.sessions
      → IsGone id (answer service result t).1.sessions
  answer-IsGone id none t g = g
  answer-IsGone id (some result) t g = g

  rotate_refresh_token-IsGone :
      (id refresh_token : String) (context : AuthContext) (coordinator : Option String)
      (draw : Draw) (now later : ℕ) (looks : List Look) (s : SessionStore)
      → IsGone id s.sessions
      → IsGone id
          (rotate_refresh_token service refresh_token context coordinator draw now later looks
            s).1.sessions
  unfolding rotate_refresh_token rotate_rows
  rotate_refresh_token-IsGone id refresh_token context coordinator draw now later looks s h =
      let found =
        find_refresh_rotation_result service (valid_coordinator coordinator) refresh_token now
          s.rotations in
      let call =
        rotate_found service (valid_coordinator coordinator) refresh_token context draw later
          (find_where (is_refreshable service refresh_token now) s.sessions) in
      elim (Option-cases found) [
        | inr (completed, e) ↦ rw e (end (ok (some completed), s) h)
        | inl missing ↦ rw missing (
            end (call s) (
              rotate_found-IsGone id (valid_coordinator coordinator) refresh_token context draw
                later (find_where (is_refreshable service refresh_token now) s.sessions) s h))
      ]
    where
      end :
          (r : Result AuthError (Option RefreshRotationResult) × SessionStore)
          → IsGone id r.1.sessions
          → IsGone id
              (continue
                (λ result. answer service (
                  or_completed result
                    (first_completed service (valid_coordinator coordinator) refresh_token looks)))
                (undo s r)).1.sessions
      end (err e, t) g = h
      end (ok none, t) g =
          answer-IsGone id
            (first_completed service (valid_coordinator coordinator) refresh_token looks) t g
      end (ok (some result), t) g = g

  unfoldable pub exec : SessionRequest → SessionStore → SessionStore
  exec (sign_in user_id context mfa_verified draw now) s =
      (create_session service user_id context mfa_verified draw now s).1
  exec (look_up session_token now) s = (get_session service session_token now s).1
  exec (revoke session_id now) s = (revoke_session session_id now s).1
  exec (rotate refresh_token context coordinator draw now later looks) s =
      (rotate_refresh_token service refresh_token context coordinator draw now later looks s).1

  unfoldable pub exec_all : List SessionRequest → SessionStore → SessionStore
  unfolding exec
  exec_all [] s = s
  exec_all (request ∷ requests) s = exec_all requests (exec request s)

  exec-IsGone :
      (id : String) (request : SessionRequest) (s : SessionStore)
      → IsGone id s.sessions
      → IsGone id (exec request s).sessions
  unfolding exec revoke_session audit
  exec-IsGone id (sign_in user_id context mfa_verified draw now) s h =
      create_session-IsGone id user_id context mfa_verified draw now s h
  exec-IsGone id (look_up session_token now) s h = get_session-IsGone id session_token now s h
  exec-IsGone id (revoke session_id now) s h =
      IsGone-update_where id (is_session session_id) (set_revoked now) (λ r. refl)
        (λ r g. ground arith) s.sessions h
  exec-IsGone id (rotate refresh_token context coordinator draw now later looks) s h =
      rotate_refresh_token-IsGone id refresh_token context coordinator draw now later looks s h

  exec_all-IsGone :
      (id : String) (requests : List SessionRequest) (s : SessionStore)
      → IsGone id s.sessions
      → IsGone id (exec_all requests s).sessions
  unfolding exec_all
  exec_all-IsGone id [] s h = h
  exec_all-IsGone id (request ∷ requests) s h =
      exec_all-IsGone id requests (exec request s) (exec-IsGone id request s h)

  unrevoked-open :
      (session_token : String) (now : ℕ) (users : List AuthUserRow) (row : AuthSessionRow)
      → is_open_session service session_token now users row ≡ true
      → is_none row.revoked_at ≡ true
  unrevoked-open session_token now users row h =
      all_four (row.token_hash == service.hash session_token) (is_none row.revoked_at)
        (ltb now row.expires_at) (any (is_live_user row.user_id) users) h

  -- After a session that exists was revoked, whatever sign-ins, look-ups, revocations and rotations
  -- follow, a look-up by any token and at any time that answers a session answers another one.
  pub revoke_session-get_session :
      (session_id session_token : String) (now later : ℕ) (requests : List SessionRequest)
      (s u : SessionStore) (session : AuthSessionRow)
      → any (is_session session_id) s.sessions ≡ true
      → get_session service session_token later
          (exec_all requests (revoke_session session_id now s).1)
        ≡ (ok (some session), u)
      → (session.id == session_id) ≡ false
  unfolding revoke_session audit get_session
  revoke_session-get_session session_id session_token now later requests s u session there e =
      let t = exec_all requests (revoke_session session_id now s).1 in
      let revoked : IsGone session_id (revoke_session session_id now s).1.sessions = (
        rw
            (any-update_where session_key (set_revoked now) (λ r. refl) session_id
              (is_session session_id) s.sessions)
            there,
        update_where-All (IsShut session_id) (is_session session_id) (set_revoked now) s.sessions
            (λ r hit. ground arith) (λ r miss. ground arith),
      ) in
      let (gone, shut) =
        exec_all-IsGone session_id requests (revoke_session session_id now s).1 revoked in
      elim (Option-cases
        (find_where (is_open_session service session_token later t.users) t.sessions)) [
          | inl missing ↦ cc (rw missing at e)
          | inr (row, found) ↦
              let (closed, passes) =
                find_where-All (IsShut session_id)
                  (is_open_session service session_token later t.users) t.sessions shut found in
              let unrevoked : is_none row.revoked_at ≡ true =
                unrevoked-open session_token later t.users row passes in
              let other : (row.id == session_id) ≡ false = ground arith in
              let same : row ≡ session = some-injective _ _ (
                ok-injective (
                  ap (λ (x : Result AuthError (Option AuthSessionRow) × SessionStore). x.0)
                    (rw found at e))) in
              subst (λ (r : AuthSessionRow). (r.id == session_id) ≡ false) same other
        ]
