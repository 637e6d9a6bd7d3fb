-- ===== src/Storage/Foreign.antt =====
-- What a grant gives to a principal of another organization.
use nextjs_saas_boilerplate.Common.{ℕ, ◌≡◌, refl, String, true, some, arith}
use nextjs_saas_boilerplate.Storage.Store.{
  StorageFile, StoragePrincipal, StorageStore, StoragePermission, read, load_file, audit,
}
use nextjs_saas_boilerplate.Storage.Access.{has_active_grant, get_file}

-- The principal with another tenant.
abbrev pub of_tenant : String → StoragePrincipal → StoragePrincipal
of_tenant tenant_id principal = record principal { tenant_id = tenant_id }

has_active_grant-of_tenant :
    (s : StorageStore) (file : StorageFile) (permission : StoragePermission) (tenant_id : String)
    (principal : StoragePrincipal) (now : ℕ)
    → has_active_grant s file permission (of_tenant tenant_id principal) now
      ≡ has_active_grant s file permission principal now
unfolding has_active_grant
has_active_grant-of_tenant s file permission tenant_id principal now = refl

-- A principal who holds a grant gets the file with the same result, whatever the tenant of the
-- principal is: `getFile` does not compare it with the file's.
pub get_file-of_tenant :
    (file_id tenant_id : String) (principal : StoragePrincipal) (now : ℕ) (s : StorageStore)
    (file : StorageFile)
    → load_file file_id s ≡ some file
    → has_active_grant s file read principal now ≡ true
    → get_file file_id (of_tenant tenant_id principal) now s ≡ get_file file_id principal now s
unfolding get_file audit
get_file-of_tenant file_id tenant_id principal now s file e h =
    ground (arith, has_active_grant-of_tenant s file read tenant_id principal now)
