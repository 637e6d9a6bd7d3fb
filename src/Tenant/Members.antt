-- ===== src/Tenant/Members.antt =====
-- `updateMember` and `removeMember` of packages/tenant/src/index.ts.
use nextjs_saas_boilerplate.Common.{
  ℕ, String, ◌&&◌, List, Option, some, update_where, find_where, Bool, ok,
}
use mathlib.Core.Option
use nextjs_saas_boilerplate.Common.Actions.{◌>>=◌, ◌>>◌, pure, require_some}
use nextjs_saas_boilerplate.Tenant.Permissions.{
  TenantRole, owner, parse_role, normalize_permissions,
}
use nextjs_saas_boilerplate.Tenant.Store.{
  MembershipRow, MembershipStatus, AuditEvent, invalid_role, member_not_found, is_member_row,
  is_current, Call, require_membership, assert_owner_will_remain, audit,
}

-- The WHERE of both updates.
abbrev pub is_current_member : String → String → MembershipRow → Bool
is_current_member organization_id user_id row =
    is_member_row organization_id user_id row && is_current row

-- `UPDATE … RETURNING *` on the row of a member: the first updated row, if there is one.
unfoldable pub update_member_row :
    String → String → (MembershipRow → MembershipRow) → Call (Option MembershipRow)
update_member_row organization_id user_id f s = (
  ok (Option.map f (find_where (is_current_member organization_id user_id) s.memberships)),
  record s {
    memberships = update_where (is_current_member organization_id user_id) f s.memberships;
  },
)

abbrev pub set_role : TenantRole → List String → ℕ → String → MembershipRow → MembershipRow
set_role role custom_permissions now actor_id row = record row {
  role = role;
  custom_permissions = custom_permissions;
  updated_at = now;
  updated_by = some actor_id;
}

-- `if (input.role !== "owner") await assertOwnerWillRemain(…)`
unfoldable pub keep_owner : TenantRole → String → String → Call (Unit {0})
unfolding assert_owner_will_remain
keep_owner owner organization_id user_id = pure tt
keep_owner _ organization_id user_id = assert_owner_will_remain organization_id user_id

abbrev pub member_event : String → String → String → String → ℕ → AuditEvent
member_event organization_id actor_id user_id event_type now = record {
  organization_id = organization_id;
  actor_id = actor_id;
  subject_type = "membership";
  subject_id = user_id;
  event_type = event_type;
  created_at = now;
}

unfoldable pub update_member :
    String → List String → String → String → String → ℕ → Call MembershipRow
unfolding require_membership keep_owner update_member_row audit
update_member actor_id custom_permissions organization_id role user_id now = do
  new_role ← require_some (parse_role role) invalid_role
  require_membership organization_id (some "members.update") actor_id
  keep_owner new_role organization_id user_id
  updated ←
      update_member_row organization_id user_id
        (set_role new_role (normalize_permissions custom_permissions) now actor_id)
  row ← require_some updated member_not_found
  audit (member_event organization_id actor_id user_id "tenant.member.updated" now)
  pure row

abbrev pub set_removed : ℕ → String → MembershipRow → MembershipRow
set_removed now actor_id row = record row {
  status = MembershipStatus.removed;
  removed_at = some now;
  removed_by = some actor_id;
  updated_at = now;
  updated_by = some actor_id;
}

unfoldable pub remove_member : String → String → String → ℕ → Call MembershipRow
unfolding require_membership assert_owner_will_remain update_member_row audit
remove_member actor_id organization_id user_id now = do
  require_membership organization_id (some "members.remove") actor_id
  assert_owner_will_remain organization_id user_id
  updated ← update_member_row organization_id user_id (set_removed now actor_id)
  row ← require_some updated member_not_found
  audit (member_event organization_id actor_id user_id "tenant.member.removed" now)
  pure row
