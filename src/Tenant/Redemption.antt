-- ===== src/Tenant/Redemption.antt =====
-- The life of an invitation: pending, then accepted or rejected, once.
use nextjs_saas_boilerplate.Common.{
  ℕ, ◌≤◌, ◌<◌, ◌≡◌, ◌↔◌, refl, Bool, true, none, is_none, eq_iff, and-eq_true, All-mono, String,
  false, List, [], ◌∷◌, ◌++◌, Option, some, update_where, find_where, find_where-none,
  find_where-All-false, update_where-none, update_where-All, All, arith, inl, inr, err,
  Option-cases,
}
use nextjs_saas_boilerplate.Common.Strings.{trim}
use nextjs_saas_boilerplate.Tenant.Store.{
  InvitationRow, TenantStore, invalid_invitation, require_membership, audit,
}
use nextjs_saas_boilerplate.Tenant.Invitations.{
  event, new_membership, upsert_membership, update_invitation, set_accepted, set_rejected, join,
  is_redeemable, accept_invitation, reject_invitation,
}
use nextjs_saas_boilerplate.Tenant.Owners.{require_membership-reads}

-- The store when `acceptInvitation` comes to its last call.
abbrev pub accepted_store :
    (String → String)
    → (String → String)
    → String
    → String
    → String
    → ℕ
    → InvitationRow
    → TenantStore
    → TenantStore
accepted_store hash lower token user_email user_id now i s = record s {
  invitations =
      update_where (is_redeemable hash lower token user_email now) (set_accepted now user_id)
        s.invitations;
  memberships = upsert_membership (new_membership i user_id now) s.memberships;
  audit_events =
      s.audit_events
      ++ event i.organization_id user_id "membership" user_id "tenant.invitation.accepted" now ∷ [];
}

module _ (hash lower : String → String) (token user_email : String) where
  pub accept_invitation-some :
      (user_id : String) (now : ℕ) (s : TenantStore) {i : InvitationRow}
      → find_where (is_redeemable hash lower token user_email now) s.invitations ≡ some i
      → accept_invitation hash lower token user_email user_id now s
        ≡ require_membership i.organization_id
            (some "dashboard.read")
            user_id
            (accepted_store hash lower token user_email user_id now i s)
  unfolding accept_invitation update_invitation join audit
  accept_invitation-some user_id now s e = rw e

  accept_invitation-none :
      (user_id : String) (now : ℕ) (s : TenantStore)
      → All (λ r. is_redeemable hash lower token user_email now r ≡ false) s.invitations
      → accept_invitation hash lower token user_email user_id now s ≡ (err invalid_invitation, s)
  unfolding accept_invitation update_invitation
  accept_invitation-none user_id now s h = rw (
    find_where-none _ s.invitations h,
    update_where-none _ (set_accepted now user_id) s.invitations h,
  )

  reject_invitation-none :
      (user_id : String) (now : ℕ) (s : TenantStore)
      → All (λ r. is_redeemable hash lower token user_email now r ≡ false) s.invitations
      → reject_invitation hash lower token user_email user_id now s ≡ (err invalid_invitation, s)
  unfolding reject_invitation update_invitation
  reject_invitation-none user_id now s h = rw (
    find_where-none _ s.invitations h,
    update_where-none _ (set_rejected now user_id) s.invitations h,
  )

  -- The invitations afterwards, on every branch.
  pub accept_invitation-invitations :
      (user_id : String) (now : ℕ) (s : TenantStore)
      → (accept_invitation hash lower token user_email user_id now s).1.invitations
        ≡ update_where
            (is_redeemable hash lower token user_email now)
            (set_accepted now user_id)
            s.invitations
  accept_invitation-invitations user_id now s =
      elim (Option-cases
        (find_where (is_redeemable hash lower token user_email now) s.invitations)) [
          | inl e ↦
              let h = find_where-All-false _ s.invitations e in
              rw (
                accept_invitation-none user_id now s h,
                update_where-none _ (set_accepted now user_id) s.invitations h,
              )
          | inr (i, e) ↦ rw (
            accept_invitation-some user_id now s e,
            require_membership-reads i.organization_id (some "dashboard.read") user_id
                (accepted_store hash lower token user_email user_id now i s),
          )
        ]

  spent :
      (user_id : String) (now later : ℕ) (rows : List InvitationRow)
      → now ≤ later
      → All
          (λ r. is_redeemable hash lower token user_email later r ≡ false)
          (update_where
            (is_redeemable hash lower token user_email now)
            (set_accepted now user_id)
            rows)
  spent user_id now later rows le =
      update_where-All _ _ (set_accepted now user_id) rows (λ r h. ground arith)
        (λ r h. ground arith)

-- A token works once, where the second call is not earlier: whatever the first call to accept it did, a later call with the same token
-- and address, by whichever user, to accept or to reject, throws and changes nothing.
pub accept_invitation_once :
    (hash lower : String → String) (token user_email user_id other_id : String) (now later : ℕ)
    (s : TenantStore)
    → now ≤ later
    → let t = (accept_invitation hash lower token user_email user_id now s).1 in
      (accept_invitation hash lower token user_email other_id later t ≡ (err invalid_invitation, t))
      × (reject_invitation hash lower token user_email other_id later t
          ≡ (err invalid_invitation, t))
accept_invitation_once hash lower token user_email user_id other_id now later s le =
    let t = (accept_invitation hash lower token user_email user_id now s).1 in
    let gone : All (λ r. is_redeemable hash lower token user_email later r ≡ false) t.invitations =
      rw (accept_invitation-invitations hash lower token user_email user_id now s)
        (spent hash lower token user_email user_id now later s.invitations le) in
    (
      accept_invitation-none hash lower token user_email other_id later t gone,
      reject_invitation-none hash lower token user_email other_id later t gone,
    )

require_membership-ne_invalid :
    (organization_id : String) (permission : Option String) (user_id : String) (s : TenantStore)
    → ¬ ((require_membership organization_id permission user_id s).0 ≡ err invalid_invitation)
unfolding require_membership
require_membership-ne_invalid organization_id permission user_id s e = ground arith

no_both : {b : Bool} → b ≡ false → b ≡ true → ⊥
no_both e f = cc

unopened : (b : Bool) → ¬ (b ≡ true) → b ≡ false
unopened true h = absurd (h refl)
unopened false h = refl

-- An invitation that a token and an address open.
pub record Opens (hash lower : String → String) (token user_email : String) (now : ℕ)
    (row : InvitationRow) : Type 0 where
  pub digest : row.token_hash ≡ hash token
  pub address : row.normalized_email ≡ lower (trim user_email)
  pub not_accepted : row.accepted_at ≡ none
  pub not_rejected : row.rejected_at ≡ none
  pub in_time : now < row.expires_at

is_none-eq : {A : Type 0} (o : Option A) → is_none o ≡ true → o ≡ none
is_none-eq none h = refl
is_none-eq (some a) h = cc

is_redeemable_iff :
    (hash lower : String → String) (token user_email : String) (now : ℕ) (row : InvitationRow)
    → (is_redeemable hash lower token user_email now row ≡ true)
      ↔ Opens hash lower token user_email now row
is_redeemable_iff hash lower token user_email now row = (
  λ h.
      let (known, in_time) = and-eq_true _ _ h in
      let (same, waits) = and-eq_true _ _ known in
      let (digest, address) = and-eq_true _ _ same in
      let (not_accepted, not_rejected) = and-eq_true _ _ waits in
      record {
        digest = (eq_iff _ _).0 digest;
        address = (eq_iff _ _).0 address;
        not_accepted = is_none-eq row.accepted_at not_accepted;
        not_rejected = is_none-eq row.rejected_at not_rejected;
        in_time = ground (arith, in_time);
      },
  λ o.
      let digest = (eq_iff _ _).1 o.digest in
      let address = (eq_iff _ _).1 o.address in
      rw (digest, address, o.not_accepted, o.not_rejected) (ground (arith, o.in_time)),
)

-- `acceptInvitation` refuses exactly when no invitation has the token's digest and the caller's
-- address, trimmed and in lower case, is neither accepted nor rejected, and expires after `now`.
pub accept_invitation-refuses_iff :
    (hash lower : String → String) (token user_email user_id : String) (now : ℕ) (s : TenantStore)
    → ((accept_invitation hash lower token user_email user_id now s).0 ≡ err invalid_invitation)
      ↔ All (λ r. ¬ Opens hash lower token user_email now r) s.invitations
accept_invitation-refuses_iff hash lower token user_email user_id now s =
    let p = is_redeemable hash lower token user_email now in
    (
      λ refused. elim (Option-cases (find_where p s.invitations)) [
        | inl e ↦
            All-mono (λ r. p r ≡ false) (λ r. ¬ Opens hash lower token user_email now r)
              s.invitations
              (λ r shut o. no_both shut ((is_redeemable_iff hash lower token user_email now r).1 o))
              (find_where-All-false p s.invitations e)
        | inr (i, e) ↦ absurd (
            require_membership-ne_invalid i.organization_id (some "dashboard.read") user_id
              (accepted_store hash lower token user_email user_id now i s)
              (rw (accept_invitation-some hash lower token user_email user_id now s e) at refused))
      ],
      λ shut.
          rw
            (accept_invitation-none hash lower token user_email user_id now s (
              All-mono (λ r. ¬ Opens hash lower token user_email now r) (λ r. p r ≡ false)
                s.invitations
                (λ r barred.
                  unopened (p r)
                    (λ h. barred ((is_redeemable_iff hash lower token user_email now r).0 h)))
                shut))
            refl,
    )
