-- ===== src/Tenant/Permissions.antt =====
-- Roles and permissions of packages/tenant/src/index.ts.
use nextjs_saas_boilerplate.Common.{
  String, Bool, List, [], ◌∷◌, ◌++◌, Option, none, some, if◌then◌else◌, ◌&&◌, map, ◌==◌,
  select_where,
}
use nextjs_saas_boilerplate.Common.Strings.{trim, is_present, includes, unique}

pub data TenantRole : Type 0 where
  owner admin member : TenantRole

-- `tenantPermissionCatalog`
abbrev pub permission_catalog : List String
permission_catalog =
    "organization.read" ∷ "organization.update" ∷ "members.read" ∷ "members.invite"
    ∷ "members.update" ∷ "members.remove" ∷ "invitations.accept" ∷ "invitations.reject"
    ∷ "settings.manage" ∷ "feature_flags.manage" ∷ "limits.manage" ∷ "billing.read"
    ∷ "billing.manage" ∷ "billing.usage.manage" ∷ "billing.refund" ∷ "api_keys.manage"
    ∷ "impersonation.start" ∷ "audit.read" ∷ "dashboard.read" ∷ []

-- `tenantRolePermissions`
unfoldable pub role_permissions : TenantRole → List String
role_permissions owner = permission_catalog
role_permissions admin =
    "organization.read" ∷ "organization.update" ∷ "members.read" ∷ "members.invite"
    ∷ "members.update" ∷ "members.remove" ∷ "invitations.reject" ∷ "settings.manage"
    ∷ "feature_flags.manage" ∷ "limits.manage" ∷ "billing.read" ∷ "billing.manage"
    ∷ "billing.usage.manage" ∷ "billing.refund" ∷ "api_keys.manage" ∷ "impersonation.start"
    ∷ "audit.read" ∷ "dashboard.read" ∷ []
role_permissions member =
    "organization.read" ∷ "members.read" ∷ "billing.read" ∷ "dashboard.read" ∷ []

-- `assertTenantRole` on a text that a caller gives: the role, or none where it throws.
unfoldable pub parse_role : String → Option TenantRole
parse_role role =
    if role == "owner"
    then some owner
    else if role == "admin"
    then some admin
    else if role == "member"
    then some member
    else none

unfoldable pub is_tenant_permission : String → Bool
unfolding includes
is_tenant_permission permission = includes permission_catalog permission

-- The list is one of texts: `filter` by `typeof` is for other JSON.
unfoldable pub normalize_permissions : List String → List String
unfolding unique is_tenant_permission trim select_where
normalize_permissions permissions =
    select_where (λ p. is_present p && is_tenant_permission p) (unique (map trim permissions))

unfoldable pub permissions_for_role : TenantRole → List String → List String
unfolding role_permissions normalize_permissions
permissions_for_role role custom_permissions =
    unique (role_permissions role ++ normalize_permissions custom_permissions)

unfoldable pub has_tenant_permission : TenantRole → List String → String → Bool
unfolding permissions_for_role
has_tenant_permission role custom_permissions permission =
    includes (permissions_for_role role custom_permissions) permission
