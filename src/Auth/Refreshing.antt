-- ===== src/Auth/Refreshing.antt =====
-- A refresh token is rotated once.
use nextjs_saas_boilerplate.Common.{
  ℕ, ◌≡◌, refl, subst, ap, String, Bool, true, false, ◌&&◌, List, [], ◌∷◌, none, some, ◌==◌, any,
  Result, ok, err, update_where, update_where-none, find_where, find_where-hit, find_where-none,
  find_where-All, is_none, ltb, has_key, Distinct, any-All, All, All-mono, arith, Bool-cases,
  Option-cases, inl, inr, eq_iff,
}
use nextjs_saas_boilerplate.Auth.Tokens.{AuthError, invalid_refresh_token}
use nextjs_saas_boilerplate.Auth.Sessions.{
  AuthSessionRow, RefreshRotationResult, AuthContext, SessionStore, Draw, SessionService,
  taken_by_other,
}
use nextjs_saas_boilerplate.Auth.Rotation.{
  Look, first_completed, is_refreshable, is_rotatable, set_rotated, update_session, rotate_found,
  rotate_rows, rotate_refresh_token, find_refresh_rotation_result, after_update,
}

abbrev pub refresh_key : AuthSessionRow → String
refresh_key row = row.refresh_token_hash

-- No session has a hash as that of its refresh token.
abbrev IsUnused : String → List AuthSessionRow → Type 0
IsUnused hash sessions = All (λ row. (row.refresh_token_hash == hash) ≡ false) sessions

-- An update of the one session with a hash, which gives it another.
update_where-IsUnused :
    (hash : String) (p : AuthSessionRow → Bool) (f : AuthSessionRow → AuthSessionRow)
    → ((r : AuthSessionRow) → p r ≡ true → (r.refresh_token_hash == hash) ≡ true)
    → ((r : AuthSessionRow) → ((f r).refresh_token_hash == hash) ≡ false)
    → (sessions : List AuthSessionRow) {row : AuthSessionRow} → Distinct refresh_key sessions
    → find_where p sessions ≡ some row
    → IsUnused hash (update_where p f sessions)
unfolding find_where update_where
update_where-IsUnused hash p f hits moves [] d e = tt
update_where-IsUnused hash p f hits moves (r ∷ sessions) {row} (fresh, d) e =
    elim (Bool-cases (p r)) [
      | inl hit ↦
          let gone : any (has_key refresh_key hash) sessions ≡ false =
            subst (λ h. any (has_key refresh_key h) sessions ≡ false) ((eq_iff _ _).0 (hits r hit))
              fresh in
          let unused = any-All refresh_key hash sessions gone in
          let misses : All (λ z. p z ≡ false) sessions =
            All-mono (λ z. (z.refresh_token_hash == hash) ≡ false) (λ z. p z ≡ false) sessions
              (λ z other. elim (Bool-cases (p z)) [
                | inl hit_z ↦ let same = hits z hit_z in cc
                | inr miss ↦ miss
              ])
              unused in
          rw (hit, update_where-none p f sessions misses) (moves r, unused)
      | inr miss ↦
          let rest = update_where-IsUnused hash p f hits moves sessions d (rw miss at e) in
          let taken = hits row (find_where-hit p sessions (rw miss at e)) in
          rw miss (
            (elim (Bool-cases (r.refresh_token_hash == hash)) [
              | inr other ↦ other
              | inl same ↦
                  let gone : any (has_key refresh_key hash) sessions ≡ false =
                    subst (λ h. any (has_key refresh_key h) sessions ≡ false) ((eq_iff _ _).0 same)
                      fresh in
                  let other : (row.refresh_token_hash == hash) ≡ false =
                    (find_where-All (λ z. (z.refresh_token_hash == hash) ≡ false) p sessions
                      (any-All refresh_key hash sessions gone) (rw miss at e)).0 in
                  cc
            ]),
            rest,
          )
    ]

rotatable_hash : (a b c d : Bool) → (a && (b && c && d)) ≡ true → b ≡ true
rotatable_hash a b c d h = ground arith

first_completed-none :
    (service : SessionService) (refresh_token : String) (looks : List Look)
    → first_completed service none refresh_token looks ≡ none
unfolding first_completed find_refresh_rotation_result
first_completed-none service refresh_token [] = refl
first_completed-none service refresh_token ((rows, now) ∷ looks) =
    first_completed-none service refresh_token looks

module _ (service : SessionService) (refresh_token : String) where
  -- A token that no session has is refused.
  rotate-refused :
      (context : AuthContext) (draw : Draw) (now later : ℕ) (looks : List Look) (s : SessionStore)
      → IsUnused (service.hash refresh_token) s.sessions
      → rotate_refresh_token service refresh_token context none draw now later looks s
        ≡ (err invalid_refresh_token, s)
  unfolding rotate_refresh_token rotate_rows rotate_found
  rotate-refused context draw now later looks s h =
      let nowhere = find_where-none (is_refreshable service refresh_token now) s.sessions (
        All-mono
          (λ (row : AuthSessionRow). (row.refresh_token_hash == service.hash refresh_token) ≡ false)
          (λ row. is_refreshable service refresh_token now row ≡ false) s.sessions
          (λ row miss. rw miss) h) in
      rw (nowhere, first_completed-none service refresh_token looks)

  rotate-IsUnused :
      (context : AuthContext) (draw : Draw) (now later : ℕ) (looks : List Look) (s t : SessionStore)
      (result : RefreshRotationResult)
      → Distinct refresh_key s.sessions
      → (service.hash draw.refresh_token == service.hash refresh_token) ≡ false
      → rotate_refresh_token service refresh_token context none draw now later looks s
        ≡ (ok result, t)
      → IsUnused (service.hash refresh_token) t.sessions
  unfolding rotate_refresh_token rotate_rows rotate_found update_session after_update
  rotate-IsUnused context draw now later looks s t result d new e =
      elim (Option-cases (find_where (is_refreshable service refresh_token now) s.sessions)) [
        | inl missing ↦ cc (rw (missing, first_completed-none service refresh_token looks) at e)
        | inr (session, found) ↦
            let p = is_rotatable service session.id refresh_token later in
            let f = set_rotated service session context draw later in
            let g = rw found at e in
            elim (Option-cases (find_where p s.sessions)) [
              | inl missing ↦
                  cc (rw (missing, first_completed-none service refresh_token looks) at g)
              | inr (row, hit) ↦ elim (Bool-cases (any (taken_by_other (f row)) s.sessions)) [
                | inl taken ↦ cc (rw (hit, taken) at g)
                | inr free ↦
                    subst (IsUnused (service.hash refresh_token))
                      (ap
                        (λ (x : Result AuthError RefreshRotationResult × SessionStore).
                          x.1.sessions)
                        (rw (hit, free) at g))
                      (update_where-IsUnused (service.hash refresh_token) p f
                        (λ r passes.
                          rotatable_hash (r.id == session.id)
                            (r.refresh_token_hash == service.hash refresh_token)
                            (is_none r.revoked_at) (ltb later r.refresh_expires_at) passes)
                        (λ r. new) s.sessions d hit)
              ]
            ]
      ]

  -- After a refresh token was rotated without a coordinator, the same token is refused, whoever sends it
  -- and whenever, without a coordinator, and nothing changes. No two sessions have one hash of a
  -- refresh token, and the hashes of the old and the new refresh token differ.
  pub rotate_refresh_token_once :
      (context other : AuthContext) (draw other_draw : Draw) (now later now' later' : ℕ)
      (looks other_looks : List Look) (s t : SessionStore) (result : RefreshRotationResult)
      → Distinct refresh_key s.sessions
      → (service.hash draw.refresh_token == service.hash refresh_token) ≡ false
      → rotate_refresh_token service refresh_token context none draw now later looks s
        ≡ (ok result, t)
      → rotate_refresh_token service refresh_token other none other_draw now' later' other_looks t
        ≡ (err invalid_refresh_token, t)
  rotate_refresh_token_once context other draw other_draw now later now' later' looks other_looks s
        t result d new e =
      rotate-refused other other_draw now' later' other_looks t
        (rotate-IsUnused context draw now later looks s t result d new e)
