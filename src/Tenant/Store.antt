-- ===== src/Tenant/Store.antt =====
-- The tables that packages/tenant/src/index.ts reads and writes for members and invitations, and
-- the checks that its calls begin with. The columns that are only shown (names, pictures, links)
-- are left out. A timestamp is its number of milliseconds since 1970.
use nextjs_saas_boilerplate.Common.{
  ℕ, leb, String, Bool, true, false, not, ◌&&◌, List, [], ◌∷◌, ◌++◌, Option, none, some, ◌==◌,
  is_none, find_where, count_where, any,
}
use nextjs_saas_boilerplate.Common.Actions.{
  Action, ◌>>=◌, ◌>>◌, pure, get, modify, require, require_some,
}
use nextjs_saas_boilerplate.Tenant.Permissions.{
  TenantRole, owner, normalize_permissions, has_tenant_permission,
}

pub data OrganizationStatus : Type 0 where
  active suspended : OrganizationStatus

pub data MembershipStatus : Type 0 where
  active removed : MembershipStatus

pub record OrganizationRow : Type 0 where
  pub id : String
  pub status : OrganizationStatus
  pub deleted_at : Option ℕ

pub record UserRow : Type 0 where
  pub id : String
  pub deleted_at : Option ℕ

-- `custom_permissions` is the parsed JSON list.
pub record MembershipRow : Type 0 where
  pub organization_id : String
  pub user_id : String
  pub role : TenantRole
  pub custom_permissions : List String
  pub status : MembershipStatus
  pub invited_by : Option String
  pub joined_at : ℕ
  pub created_at : ℕ
  pub updated_at : ℕ
  pub updated_by : Option String
  pub removed_at : Option ℕ
  pub removed_by : Option String

pub record InvitationRow : Type 0 where
  pub id : String
  pub organization_id : String
  pub email : String
  pub normalized_email : String
  pub role : TenantRole
  pub custom_permissions : List String
  pub token_hash : String
  pub expires_at : ℕ
  pub accepted_at : Option ℕ
  pub accepted_by : Option String
  pub rejected_at : Option ℕ
  pub rejected_by : Option String
  pub created_by : Option String
  pub created_at : ℕ
  pub updated_at : ℕ

-- A row of `tenant_audit_events`, less its id and its JSON payload.
pub record AuditEvent : Type 0 where
  pub organization_id : String
  pub actor_id : String
  pub subject_type : String
  pub subject_id : String
  pub event_type : String
  pub created_at : ℕ

-- A row of `outbox_events` for an invitation: the payload's parts.
pub record InvitationNotice : Type 0 where
  pub tenant_id : String
  pub email : String
  pub invitation_id : String
  pub role : TenantRole
  pub available_at : ℕ

pub record TenantStore : Type 0 where
  pub organizations : List OrganizationRow
  pub users : List UserRow
  pub memberships : List MembershipRow
  pub invitations : List InvitationRow
  pub audit_events : List AuditEvent
  pub outbox : List InvitationNotice

-- The codes of `TenantError`; `duplicate_id` is the database's refusal of a primary key.
pub data TenantError : Type 0 where
  invalid_role organization_not_found membership_required forbidden last_owner : TenantError
  member_not_found invalid_invitation invitation_not_found duplicate_id : TenantError

abbrev pub is_active_org : OrganizationStatus → Bool
is_active_org OrganizationStatus.active = true
is_active_org suspended = false

abbrev pub is_active : MembershipStatus → Bool
is_active MembershipStatus.active = true
is_active removed = false

abbrev pub is_owner : TenantRole → Bool
is_owner owner = true
is_owner _ = false

-- The WHERE of `getOrganizationRow`.
abbrev pub is_organization : String → OrganizationRow → Bool
is_organization organization_id row = row.id == organization_id && is_none row.deleted_at

-- `organization_id = $1 AND user_id = $2`, the primary key of `organization_memberships`
abbrev pub is_member_row : String → String → MembershipRow → Bool
is_member_row organization_id user_id row =
    row.organization_id == organization_id && row.user_id == user_id

-- `status = 'active' AND removed_at IS NULL`
abbrev pub is_current : MembershipRow → Bool
is_current row = is_active row.status && is_none row.removed_at

-- The join with `auth_users`: its row is there and not deleted.
abbrev pub is_live_user : String → UserRow → Bool
is_live_user user_id row = row.id == user_id && is_none row.deleted_at

-- `getMembershipRow`
unfoldable pub get_membership_row : TenantStore → String → String → Option MembershipRow
get_membership_row s organization_id user_id =
    find_where
      (λ m.
        is_member_row organization_id user_id m
        && is_current m
        && any (is_live_user m.user_id) s.users)
      s.memberships

-- `!organization || organization.status !== "active"`
abbrev pub is_open : Option OrganizationRow → Bool
is_open none = false
is_open (some row) = is_active_org row.status

abbrev pub Call : Type 0 → Type 0
Call = Action TenantStore TenantError

-- `if (input.permission) assertTenantPermission(membership, input.permission)`, on the membership
-- that `toMembership` makes of the row.
unfoldable pub assert_tenant_permission : MembershipRow → Option String → Call (Unit {0})
assert_tenant_permission row none = pure tt
assert_tenant_permission row (some permission) =
    require
      (has_tenant_permission row.role (normalize_permissions row.custom_permissions) permission)
      forbidden

-- The inner `requireMembership`.
unfoldable pub require_membership : String → Option String → String → Call MembershipRow
unfolding get_membership_row assert_tenant_permission
require_membership organization_id permission user_id = do
  s ← get
  require (is_open (find_where (is_organization organization_id) s.organizations))
      organization_not_found
  row ← require_some (get_membership_row s organization_id user_id) membership_required
  assert_tenant_permission row permission
  pure row

-- The WHERE of `assertOwnerWillRemain`; `$2` is null where no user is left out.
abbrev pub is_owner_row : String → MembershipRow → Bool
is_owner_row organization_id row =
    row.organization_id == organization_id && is_owner row.role && is_current row

abbrev pub is_other_owner : String → String → MembershipRow → Bool
is_other_owner organization_id user_id row =
    is_owner_row organization_id row && not (row.user_id == user_id)

unfoldable pub assert_owner_will_remain : String → String → Call (Unit {0})
assert_owner_will_remain organization_id excluded_user_id = do
  s ← get
  require (leb 1 (count_where (is_other_owner organization_id excluded_user_id) s.memberships))
      last_owner

unfoldable pub audit : AuditEvent → Call (Unit {0})
audit event = modify (λ s. record s { audit_events = s.audit_events ++ event ∷ [] })
