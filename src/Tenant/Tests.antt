-- ===== src/Tenant/Tests.antt =====
-- The theorems on packages/tenant/src/index.ts at a concrete organization.
use nextjs_saas_boilerplate.Common.{
  ◌≡◌, ◌↔◌, refl, String, true, ◌&&◌, ◌||◌, [], ◌∷◌, none, some, map, find_where, count_where, All,
  err, arith,
}
use nextjs_saas_boilerplate.Common.Strings.{trim, includes, is_present}
use nextjs_saas_boilerplate.Tenant.Permissions.{
  owner, member, role_permissions, is_tenant_permission, has_tenant_permission,
}
use nextjs_saas_boilerplate.Tenant.Store.{
  OrganizationStatus, MembershipRow, MembershipStatus, InvitationRow, TenantStore,
  invalid_invitation,
}
use nextjs_saas_boilerplate.Tenant.Members.{update_member, remove_member}
use nextjs_saas_boilerplate.Tenant.Invitations.{accept_invitation, reject_invitation}
use nextjs_saas_boilerplate.Tenant.Owners.{
  owners, HasOwner, update_member-HasOwner, remove_member-HasOwner,
}
use nextjs_saas_boilerplate.Tenant.Redemption.{
  Opens, accept_invitation_once, accept_invitation-refuses_iff,
}
use nextjs_saas_boilerplate.Tenant.Demotion.{accept_invitation-owners}
use nextjs_saas_boilerplate.Tenant.Granting.{
  has_tenant_permission_lem, has_tenant_permission-IsCatalog,
}

abbrev ann : MembershipRow
ann = record {
  organization_id = "acme";
  user_id = "ann";
  role = owner;
  custom_permissions = [];
  status = MembershipStatus.active;
  invited_by = none;
  joined_at = 1;
  created_at = 1;
  updated_at = 1;
  updated_by = none;
  removed_at = none;
  removed_by = none;
}

-- An invitation of the owner as a member.
abbrev invitation : InvitationRow
invitation = record {
  id = "i1";
  organization_id = "acme";
  email = "ann@acme.test";
  normalized_email = "ann@acme.test";
  role = member;
  custom_permissions = [];
  token_hash = "secret";
  expires_at = 1000;
  accepted_at = none;
  accepted_by = none;
  rejected_at = none;
  rejected_by = none;
  created_by = some "ann";
  created_at = 1;
  updated_at = 1;
}

abbrev acme : TenantStore
acme = record {
  organizations =
      record { id = "acme"; status = OrganizationStatus.active; deleted_at = none } ∷ [];
  users = record { id = "ann"; deleted_at = none } ∷ [];
  memberships = ann ∷ [];
  invitations = invitation ∷ [];
  audit_events = [];
  outbox = [];
}

abbrev same : String → String
same s = s

acme-HasOwner : HasOwner "acme" acme
unfolding count_where
acme-HasOwner = omega arith

update_member-HasOwner_example :
    HasOwner "acme" (update_member "ann" [] "acme" "member" "ann" 5 acme).1
update_member-HasOwner_example =
    update_member-HasOwner "acme" "ann" [] "acme" "member" "ann" 5 acme acme-HasOwner

remove_member-HasOwner_example : HasOwner "acme" (remove_member "ann" "acme" "ann" 5 acme).1
remove_member-HasOwner_example =
    remove_member-HasOwner "acme" "ann" "acme" "ann" 5 acme acme-HasOwner

accept_invitation_once_example :
    let t = (accept_invitation same same "secret" "ann@acme.test" "ann" 5 acme).1 in
    (accept_invitation same same "secret" "ann@acme.test" "bob" 6 t ≡ (err invalid_invitation, t))
    × (reject_invitation same same "secret" "ann@acme.test" "bob" 6 t ≡ (err invalid_invitation, t))
accept_invitation_once_example =
    accept_invitation_once same same "secret" "ann@acme.test" "ann" "bob" 5 6 acme (omega arith)

accept_invitation-refuses_iff_example :
    ((accept_invitation same same "secret" "ann@acme.test" "ann" 5 acme).0 ≡ err invalid_invitation)
    ↔ All (λ r. ¬ Opens same same "secret" "ann@acme.test" 5 r) (invitation ∷ [])
accept_invitation-refuses_iff_example =
    accept_invitation-refuses_iff same same "secret" "ann@acme.test" "ann" 5 acme

-- The only owner accepts the invitation, and the organization has none.
accept_invitation-owners_example :
    owners "acme" (accept_invitation same same "secret" "ann@acme.test" "ann" 5 acme).1 ≡ 0
unfolding find_where count_where trim
accept_invitation-owners_example =
    accept_invitation-owners same same "secret" "ann@acme.test" "ann" 5 acme refl (omega arith)

has_tenant_permission_lem_example :
    has_tenant_permission member (" audit.read " ∷ []) "audit.read" ≡ (
      includes (role_permissions member) "audit.read"
      || (includes (map trim (" audit.read " ∷ [])) "audit.read"
          && (is_present "audit.read" && is_tenant_permission "audit.read")))
has_tenant_permission_lem_example =
    has_tenant_permission_lem member (" audit.read " ∷ []) "audit.read"

has_tenant_permission-IsCatalog_example : is_tenant_permission "audit.read" ≡ true
unfolding has_tenant_permission
has_tenant_permission-IsCatalog_example =
    has_tenant_permission-IsCatalog member (" audit.read " ∷ []) "audit.read" refl
