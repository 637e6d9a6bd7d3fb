-- ===== src/Tenant/Invitations.antt =====
-- `createInvitation`, `acceptInvitation`, `rejectInvitation` and `cancelInvitation` of
-- packages/tenant/src/index.ts. The calls send their statements outside a transaction.
use nextjs_saas_boilerplate.Common.{
  ℕ, ◌+◌, ◌*◌, ltb, String, Bool, ◌&&◌, List, [], ◌∷◌, ◌++◌, Option, none, some, ◌==◌, is_none, any,
  if◌then◌else◌, Result, ok, update_where, find_where,
}
use nextjs_saas_boilerplate.Common.Strings.{trim}
use nextjs_saas_boilerplate.Common.Actions.{◌>>=◌, ◌>>◌, pure, modify, require_some}
use mathlib.Core.Option
use nextjs_saas_boilerplate.Tenant.Permissions.{TenantRole, parse_role, normalize_permissions}
use nextjs_saas_boilerplate.Tenant.Store.{
  MembershipRow, MembershipStatus, InvitationRow, InvitationNotice, AuditEvent, invalid_role,
  invalid_invitation, invitation_not_found, duplicate_id, is_member_row, Call, require_membership,
  audit,
}

-- `tenantDefaults.invitationTtlSeconds`
abbrev pub invitation_ttl_seconds : ℕ
invitation_ttl_seconds = 7 * 24 * 60 * 60

abbrev pub is_pending : InvitationRow → Bool
is_pending row = is_none row.accepted_at && is_none row.rejected_at

abbrev pub event : String → String → String → String → String → ℕ → AuditEvent
event organization_id actor_id subject_type subject_id event_type now = record {
  organization_id = organization_id;
  actor_id = actor_id;
  subject_type = subject_type;
  subject_id = subject_id;
  event_type = event_type;
  created_at = now;
}

-- `UPDATE organization_invitations … RETURNING *`, and its first row.
unfoldable pub update_invitation :
    (InvitationRow → Bool) → (InvitationRow → InvitationRow) → Call (Option InvitationRow)
update_invitation p f s = (
  ok (Option.map f (find_where p s.invitations)),
  record s { invitations = update_where p f s.invitations },
)

abbrev pub set_accepted : ℕ → String → InvitationRow → InvitationRow
set_accepted now user_id row = record row {
  accepted_at = some now;
  accepted_by = some user_id;
  updated_at = now;
}

abbrev pub set_rejected : ℕ → String → InvitationRow → InvitationRow
set_rejected now user_id row = record row {
  rejected_at = some now;
  rejected_by = some user_id;
  updated_at = now;
}

-- The row of the INSERT of `acceptInvitation`.
abbrev pub new_membership : InvitationRow → String → ℕ → MembershipRow
new_membership invitation user_id now = record {
  organization_id = invitation.organization_id;
  user_id = user_id;
  role = invitation.role;
  custom_permissions = normalize_permissions invitation.custom_permissions;
  status = MembershipStatus.active;
  invited_by = invitation.created_by;
  joined_at = now;
  created_at = now;
  updated_at = now;
  updated_by = some user_id;
  removed_at = none;
  removed_by = none;
}

-- Its SET list after ON CONFLICT.
abbrev pub rejoin : MembershipRow → MembershipRow → MembershipRow
rejoin excluded row = record row {
  role = excluded.role;
  custom_permissions = excluded.custom_permissions;
  status = MembershipStatus.active;
  removed_at = none;
  removed_by = none;
  updated_at = excluded.updated_at;
  updated_by = excluded.updated_by;
}

unfoldable pub upsert_membership : MembershipRow → List MembershipRow → List MembershipRow
upsert_membership row rows =
    if any (is_member_row row.organization_id row.user_id) rows
    then update_where (is_member_row row.organization_id row.user_id) (rejoin row) rows
    else rows ++ row ∷ []

-- The INSERT. Its foreign keys refuse nothing: the organization and the inviter come from the row of
-- the invitation, and the user has a row, since `accepted_by` refers to it.
unfoldable pub join : InvitationRow → String → ℕ → Call (Unit {0})
unfolding upsert_membership
join invitation user_id now = modify (λ s. record s {
  memberships = upsert_membership (new_membership invitation user_id now) s.memberships;
})

-- The argument of `createInvitation`.
pub record InvitationInput : Type 0 where
  pub actor_id : String
  pub custom_permissions : List String
  pub email : String
  pub organization_id : String
  pub role : String

-- `hash` is `hashTenantToken`, SHA-256 of Node's crypto; `lower` is JavaScript's `toLowerCase`.
module _ (hash lower : String → String) where
  -- `normalizeTenantEmail`
  abbrev pub normalize_email : String → String
  normalize_email email = lower (trim email)

  -- The WHERE of the updates of `acceptInvitation` and `rejectInvitation`.
  abbrev pub is_redeemable : String → String → ℕ → InvitationRow → Bool
  is_redeemable token user_email now row =
      row.token_hash == hash token
      && row.normalized_email == normalize_email user_email
      && is_pending row
      && ltb now row.expires_at

  unfoldable pub accept_invitation : String → String → String → ℕ → Call MembershipRow
  unfolding update_invitation join audit require_membership
  accept_invitation token user_email user_id now = do
    accepted ← update_invitation (is_redeemable token user_email now) (set_accepted now user_id)
    invitation ← require_some accepted invalid_invitation
    join invitation user_id now
    audit (
        event invitation.organization_id user_id "membership" user_id "tenant.invitation.accepted"
          now)
    require_membership invitation.organization_id (some "dashboard.read") user_id

  unfoldable pub reject_invitation : String → String → String → ℕ → Call InvitationRow
  unfolding update_invitation audit
  reject_invitation token user_email user_id now = do
    rejected ← update_invitation (is_redeemable token user_email now) (set_rejected now user_id)
    invitation ← require_some rejected invalid_invitation
    audit (
        event invitation.organization_id user_id "invitation" invitation.id
          "tenant.invitation.rejected" now)
    pure invitation

  -- The row of the INSERT of `createInvitation`.
  abbrev pub new_invitation : InvitationInput → TenantRole → String → String → ℕ → InvitationRow
  new_invitation input role uuid token now = record {
    id = uuid;
    organization_id = input.organization_id;
    email = trim input.email;
    normalized_email = normalize_email input.email;
    role = role;
    custom_permissions = normalize_permissions input.custom_permissions;
    token_hash = hash token;
    expires_at = now + invitation_ttl_seconds * 1000;
    accepted_at = none;
    accepted_by = none;
    rejected_at = none;
    rejected_by = none;
    created_by = some input.actor_id;
    created_at = now;
    updated_at = now;
  }

  -- The INSERT, which the primary key may refuse.
  unfoldable pub insert_invitation : InvitationRow → Call (Unit {0})
  insert_invitation row s =
      if any (λ r. r.id == row.id) s.invitations
      then (Result.err duplicate_id, s)
      else (ok tt, record s { invitations = s.invitations ++ row ∷ [] })

  abbrev pub notice : InvitationRow → InvitationNotice
  notice row = record {
    tenant_id = row.organization_id;
    email = row.email;
    invitation_id = row.id;
    role = row.role;
    available_at = row.created_at;
  }

  unfoldable pub enqueue_notice : InvitationNotice → Call (Unit {0})
  enqueue_notice row = modify (λ s. record s { outbox = s.outbox ++ row ∷ [] })

  -- `token` and `uuid` are what `createTenantToken` and `randomUUID` draw.
  unfoldable pub create_invitation :
      InvitationInput → String → String → ℕ → Call (InvitationRow × String)
  unfolding require_membership insert_invitation enqueue_notice audit
  create_invitation input uuid token now = do
    role ← require_some (parse_role input.role) invalid_role
    require_membership input.organization_id (some "members.invite") input.actor_id
    let row = new_invitation input role uuid token now
    insert_invitation row
    enqueue_notice (notice row)
    audit (
        event input.organization_id input.actor_id "invitation" row.id "tenant.invitation.created"
          now)
    pure (row, token)

-- The WHERE of `cancelInvitation`.
abbrev pub is_cancellable : String → String → InvitationRow → Bool
is_cancellable invitation_id organization_id row =
    row.id == invitation_id && row.organization_id == organization_id && is_pending row

unfoldable pub cancel_invitation : String → String → String → ℕ → Call InvitationRow
unfolding require_membership update_invitation audit
cancel_invitation actor_id invitation_id organization_id now = do
  require_membership organization_id (some "invitations.reject") actor_id
  cancelled ←
      update_invitation (is_cancellable invitation_id organization_id) (set_rejected now actor_id)
  invitation ← require_some cancelled invitation_not_found
  audit (event organization_id actor_id "invitation" invitation_id "tenant.invitation.rejected" now)
  pure invitation
