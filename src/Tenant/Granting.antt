-- ===== src/Tenant/Granting.antt =====
-- Which permissions a member has.
use nextjs_saas_boilerplate.Common.{
  ◌≡◌, refl, sym, ◌∙◌, ap, String, Bool, true, ◌&&◌, ◌||◌, List, [], ◌∷◌, ◌++◌, map, arith,
  Bool-cases, inl, inr, eq_iff, ◌==◌, all, select_where,
}
use nextjs_saas_boilerplate.Common.Strings.{trim, is_present, includes, unique, unique_from}
use nextjs_saas_boilerplate.Tenant.Permissions.{
  TenantRole, owner, admin, member, role_permissions, is_tenant_permission, normalize_permissions,
  permissions_for_role, has_tenant_permission,
}

includes-append :
    (xs ys : List String) (p : String) → includes (xs ++ ys) p ≡ (includes xs p || includes ys p)
unfolding includes
includes-append [] ys p = refl
includes-append (x ∷ xs) ys p = ground (arith, includes-append xs ys p)

includes-unique_from :
    (seen xs : List String) (p : String)
    → (includes seen p || includes (unique_from seen xs) p) ≡ (includes seen p || includes xs p)
unfolding includes unique_from
includes-unique_from seen [] p = refl
includes-unique_from seen (x ∷ xs) p = elim (Bool-cases (includes seen x)) [
  | inl old ↦
      let held : x ≡ p → includes seen p ≡ true = λ e. ap (includes seen) (sym e) ∙ old in
      rw old (ground (arith, includes-unique_from seen xs p, held, eq_iff x p))
  | inr new ↦ rw new (ground (arith, includes-unique_from (x ∷ seen) xs p))
]

-- Removing duplicates changes no membership.
pub includes-unique : (xs : List String) (p : String) → includes (unique xs) p ≡ includes xs p
unfolding unique includes
includes-unique xs p = includes-unique_from [] xs p

includes-select_where :
    (q : String → Bool) (xs : List String) (p : String)
    → includes (select_where q xs) p ≡ (includes xs p && q p)
unfolding includes select_where
includes-select_where q [] p = refl
includes-select_where q (x ∷ xs) p =
    let same : x ≡ p → q x ≡ q p = λ e. ap q e in
    elim (Bool-cases (x == p)) [
      | inl hit ↦ let e = same ((eq_iff x p).0 hit) in ground (arith, includes-select_where q xs p)
      | inr miss ↦ ground (arith, includes-select_where q xs p)
    ]

-- A member has a permission exactly if the role has it, or if it is one of the catalog and stands,
-- up to surrounding white space, among the member's own.
pub has_tenant_permission_lem :
    (role : TenantRole) (custom_permissions : List String) (permission : String)
    → has_tenant_permission role custom_permissions permission ≡ (
        includes (role_permissions role) permission
        || (includes (map trim custom_permissions) permission
            && (is_present permission && is_tenant_permission permission)))
unfolding has_tenant_permission permissions_for_role normalize_permissions
has_tenant_permission_lem role custom permission =
    includes-unique _ permission
    ∙ includes-append (role_permissions role) _ permission
    ∙ ap (λ b. includes (role_permissions role) permission || b)
        (includes-select_where _ _ permission
          ∙ ap (λ b. b && (is_present permission && is_tenant_permission permission))
              (includes-unique (map trim custom) permission))

role_in_catalog : (role : TenantRole) → all is_tenant_permission (role_permissions role) ≡ true
unfolding role_permissions is_tenant_permission includes
role_in_catalog owner = refl
role_in_catalog admin = refl
role_in_catalog member = refl

includes-all :
    (q : String → Bool) (xs : List String) (p : String)
    → all q xs ≡ true
    → includes xs p ≡ true
    → q p ≡ true
unfolding includes
includes-all q [] p h e = cc
includes-all q (x ∷ xs) p h e = elim (Bool-cases (x == p)) [
  | inl hit ↦ let same = ap q ((eq_iff x p).0 hit) in ground arith
  | inr miss ↦ includes-all q xs p (ground arith) (ground arith)
]

-- Nothing outside the catalog is ever granted, whatever a row's custom permissions hold.
pub has_tenant_permission-IsCatalog :
    (role : TenantRole) (custom_permissions : List String) (permission : String)
    → has_tenant_permission role custom_permissions permission ≡ true
    → is_tenant_permission permission ≡ true
has_tenant_permission-IsCatalog role custom permission e =
    elim (Bool-cases (includes (role_permissions role) permission)) [
      | inl given ↦
          includes-all is_tenant_permission (role_permissions role) permission
            (role_in_catalog role) given
      | inr other ↦
          let h = sym (has_tenant_permission_lem role custom permission) ∙ e in ground arith
    ]
