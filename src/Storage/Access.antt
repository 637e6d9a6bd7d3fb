-- ===== src/Storage/Access.antt =====
-- The access rules of packages/storage/src/service.ts, and the calls that only they guard.
use nextjs_saas_boilerplate.Common.{
  ℕ, zero, suc, leb, ltb, String, Bool, true, false, not, ◌&&◌, ◌||◌, List, [], ◌∷◌, ◌++◌, Option,
  none, some, if◌then◌else◌, ◌==◌, any, or_else, select_where, sort_by,
}
use nextjs_saas_boilerplate.Common.Strings.{includes, is_present}
use nextjs_saas_boilerplate.Common.Actions.{◌>>=◌, ◌>>◌, pure, get, modify, require, require_some}
use nextjs_saas_boilerplate.Storage.Store.{
  StorageVisibility, private_file, public_file, StorageFileStatus, available, pending, deleted,
  abandoned, StoragePermission, read, write, owner, GranteeType, user, role, StoragePrincipal,
  StorageFile, StorageFileVariant, GrantRow, StorageEvent, StorageStore, Call, file_not_found,
  forbidden, load_file, load_variants, is_available, audit,
}

abbrev pub permission_eq : StoragePermission → StoragePermission → Bool
permission_eq read read = true
permission_eq write write = true
permission_eq owner owner = true
permission_eq _ _ = false

abbrev pub status_eq : StorageFileStatus → StorageFileStatus → Bool
status_eq pending pending = true
status_eq available available = true
status_eq deleted deleted = true
status_eq abandoned abandoned = true
status_eq _ _ = false

abbrev pub grantee_eq : GranteeType → GranteeType → Bool
grantee_eq user user = true
grantee_eq role role = true
grantee_eq _ _ = false

abbrev pub is_public : StorageVisibility → Bool
is_public public_file = true
is_public private_file = false

-- `principal.permissions?.includes("owner") || principal.permissions?.includes(permission)`
abbrev pub has_permission : StoragePrincipal → StoragePermission → Bool
has_permission principal permission =
    any (permission_eq owner) principal.permissions
    || any (permission_eq permission) principal.permissions

-- `file.ownerId && file.ownerId === principal.actorId`
abbrev pub is_owned_by : Option String → Option String → Bool
is_owned_by (some owner_id) (some actor_id) = is_present owner_id && owner_id == actor_id
is_owned_by _ _ = false

-- `principal.actorId && file.accessPolicy.allowedUserIds?.includes(principal.actorId)`
abbrev pub is_allowed : List String → Option String → Bool
is_allowed user_ids none = false
is_allowed user_ids (some actor_id) = is_present actor_id && includes user_ids actor_id

unfoldable pub can_read_file : StorageFile → StoragePrincipal → Bool
can_read_file file principal =
    if not (principal.tenant_id == file.tenant_id)
    then false
    else if not (is_available file.status)
    then false
    else if is_public file.visibility || file.access_policy.public_read
    then true
    else if is_owned_by file.owner_id principal.actor_id
    then true
    else if is_allowed file.access_policy.allowed_user_ids principal.actor_id
    then true
    else has_permission principal read

unfoldable pub can_write_file : StorageFile → StoragePrincipal → Bool
can_write_file file principal =
    if not (principal.tenant_id == file.tenant_id)
    then false
    else is_owned_by file.owner_id principal.actor_id || has_permission principal write

-- `expires_at IS NULL OR expires_at > $5`
abbrev pub is_unexpired : ℕ → Option ℕ → Bool
is_unexpired now none = true
is_unexpired now (some expires_at) = ltb now expires_at

-- The WHERE of the queries of `hasActiveGrant`.
abbrev pub is_grant : StorageFile → GranteeType → String → StoragePermission → ℕ → GrantRow → Bool
is_grant file grantee_type grantee_id permission now row =
    row.file_id == file.id
    && row.tenant_id == file.tenant_id
    && grantee_eq row.grantee_type grantee_type
    && row.grantee_id == grantee_id
    && (permission_eq row.permission permission || permission_eq row.permission owner)
    && is_unexpired now row.expires_at

abbrev pub user_grant : StorageFile → Option String → StoragePermission → ℕ → List GrantRow → Bool
user_grant file none permission now grants = false
user_grant file (some actor_id) permission now grants =
    is_present actor_id && any (is_grant file user actor_id permission now) grants

unfoldable pub has_active_grant :
    StorageStore → StorageFile → StoragePermission → StoragePrincipal → ℕ → Bool
has_active_grant s file permission principal now =
    user_grant file principal.actor_id permission now s.grants
    || any (λ r. any (is_grant file role r permission now) s.grants) principal.roles

abbrev pub file_event : StorageFile → StoragePrincipal → String → ℕ → StorageEvent
file_event file principal event_type now = record {
  tenant_id = file.tenant_id;
  file_id = some file.id;
  actor_id = principal.actor_id;
  event_type = event_type;
  created_at = now;
}

-- Less the signed URL, which the storage adapter makes.
unfoldable pub get_file :
    String → StoragePrincipal → ℕ → Call (StorageFile × List StorageFileVariant)
unfolding audit
get_file file_id principal now = do
  s ← get
  file ← require_some (load_file file_id s) file_not_found
  require (can_read_file file principal || has_active_grant s file read principal now) forbidden
  audit (file_event file principal "storage.file.read" now)
  pure (file, load_variants file.id s)

-- `$2::text IS NULL OR owner_id = $2`
abbrev pub owner_matches : Option String → Option String → Bool
owner_matches none owner_id = true
owner_matches (some wanted) none = false
owner_matches (some wanted) (some owner_id) = owner_id == wanted

-- `$5::text IS NOT NULL AND owner_id = $5`
abbrev pub is_owner_sql : Option String → Option String → Bool
is_owner_sql (some owner_id) (some actor_id) = owner_id == actor_id
is_owner_sql _ _ = false

-- `$5::text IS NOT NULL AND … ? $5`
abbrev pub is_allowed_sql : List String → Option String → Bool
is_allowed_sql user_ids none = false
is_allowed_sql user_ids (some actor_id) = includes user_ids actor_id

abbrev pub is_user_sql : Option String → GrantRow → Bool
is_user_sql none row = false
is_user_sql (some actor_id) row = grantee_eq row.grantee_type user && row.grantee_id == actor_id

-- The WHERE inside the EXISTS of `listFiles`.
abbrev pub is_grant_sql : StorageFile → StoragePrincipal → ℕ → GrantRow → Bool
is_grant_sql file principal now row =
    row.file_id == file.id
    && row.tenant_id == file.tenant_id
    && (permission_eq row.permission read || permission_eq row.permission owner)
    && is_unexpired now row.expires_at
    && (is_user_sql principal.actor_id row
        || (grantee_eq row.grantee_type role && includes principal.roles row.grantee_id))

-- The WHERE of `listFiles`.
unfoldable pub is_listed :
    StorageStore → StoragePrincipal → Option String → StorageFileStatus → ℕ → StorageFile → Bool
is_listed s principal owner_id status now file =
    file.tenant_id == principal.tenant_id
    && owner_matches owner_id file.owner_id
    && status_eq file.status status
    && is_available status
    && (has_permission principal read
        || is_public file.visibility
        || file.access_policy.public_read
        || is_owner_sql file.owner_id principal.actor_id
        || is_allowed_sql file.access_policy.allowed_user_ids principal.actor_id
        || any (is_grant_sql file principal now) s.grants)

-- `ORDER BY created_at DESC`; the order of rows of one time is the table's here.
abbrev pub is_newer : StorageFile → StorageFile → Bool
is_newer a b = leb b.created_at a.created_at

-- `LIMIT n`
unfoldable pub limit_rows : ℕ → List StorageFile → List StorageFile
limit_rows zero rows = []
limit_rows (suc n) [] = []
limit_rows (suc n) (file ∷ rows) = file ∷ limit_rows n rows

-- `Math.min(Math.max(limit, 1), 100)`
abbrev pub clamp_limit : ℕ → ℕ
clamp_limit limit = if leb 100 limit then 100 else if leb limit 1 then 1 else limit

unfoldable pub list_files :
    Option ℕ
    → Option String
    → StoragePrincipal
    → Option StorageFileStatus
    → ℕ
    → StorageStore
    → List StorageFile
unfolding limit_rows is_listed
list_files limit owner_id principal status now s = limit_rows (clamp_limit (or_else limit 50)) (
    sort_by is_newer
      (select_where (is_listed s principal owner_id (or_else status available) now) s.files))

-- The argument of `grantFileAccess`, less the principal.
pub record GrantInput : Type 0 where
  pub created_by : Option String
  pub expires_at : Option ℕ
  pub file_id : String
  pub grantee_id : String
  pub grantee_type : GranteeType
  pub permission : StoragePermission

-- `input.createdBy ?? input.principal.actorId ?? null`
abbrev pub granted_by : Option String → Option String → Option String
granted_by none actor_id = actor_id
granted_by (some created_by) actor_id = some created_by

abbrev pub new_grant : GrantInput → StorageFile → StoragePrincipal → ℕ → GrantRow
new_grant input file principal now = record {
  file_id = file.id;
  tenant_id = file.tenant_id;
  grantee_type = input.grantee_type;
  grantee_id = input.grantee_id;
  permission = input.permission;
  expires_at = input.expires_at;
  created_at = now;
  created_by = granted_by input.created_by principal.actor_id;
}

unfoldable pub insert_grant : GrantRow → Call (Unit {0})
insert_grant row = modify (λ s. record s { grants = s.grants ++ row ∷ [] })

unfoldable pub grant_file_access : GrantInput → StoragePrincipal → ℕ → Call (Unit {0})
unfolding insert_grant audit
grant_file_access input principal now = do
  s ← get
  file ← require_some (load_file input.file_id s) file_not_found
  require (can_write_file file principal || has_active_grant s file write principal now) forbidden
  insert_grant (new_grant input file principal now)
  audit (file_event file principal "storage.file.grant.created" now)
