-- ===== src/Storage/Listing.antt =====
-- What `listFiles` shows against what `getFile` lets through.
use nextjs_saas_boilerplate.Common.{
  ℕ, zero, suc, ◌≡◌, sym, String, Bool, true, false, ◌||◌, List, [], ◌∷◌, ◌++◌, Option, none, some,
  or_else, ◌==◌, ok, any, any-passes, Distinct, Distinct-found, All, All-select_where_test,
  All-sort_by, All-mono, arith, Bool-cases, inl, inr, eq_iff,
}
use nextjs_saas_boilerplate.Common.Strings.{includes, is_present}
use nextjs_saas_boilerplate.Storage.Store.{
  StorageFileStatus, available, StorageFile, StoragePrincipal, StorageStore, GrantRow, user, role,
  read, file_key, load_file, load_variants, audit,
}
use nextjs_saas_boilerplate.Storage.Access.{
  is_owned_by, is_allowed, can_read_file, is_grant, is_grant_sql, is_user_sql, user_grant,
  has_active_grant, file_event, get_file, is_owner_sql, is_allowed_sql, is_listed, is_newer,
  limit_rows, clamp_limit, list_files,
}

-- A principal's id is not the empty text.
abbrev pub is_named : Option String → Bool
is_named none = true
is_named (some actor_id) = is_present actor_id

is_owner_sql-owned :
    (owner_id actor_id : Option String)
    → is_named actor_id ≡ true
    → is_owner_sql owner_id actor_id ≡ true
    → is_owned_by owner_id actor_id ≡ true
is_owner_sql-owned none actor_id h e = cc
is_owner_sql-owned (some o) none h e = cc
is_owner_sql-owned (some o) (some a) h e = let same : o ≡ a = (eq_iff o a).0 e in ground arith

is_allowed_sql-allowed :
    (user_ids : List String) (actor_id : Option String)
    → is_named actor_id ≡ true
    → is_allowed_sql user_ids actor_id ≡ true
    → is_allowed user_ids actor_id ≡ true
is_allowed_sql-allowed user_ids none h e = e
is_allowed_sql-allowed user_ids (some a) h e = ground arith

-- A role of the list that has a grant.
role_grant :
    (file : StorageFile) (now : ℕ) (roles : List String) (row : GrantRow) (grants : List GrantRow)
    → includes roles row.grantee_id ≡ true
    → ((r : String) → row.grantee_id ≡ r → any (is_grant file role r read now) grants ≡ true)
    → any (λ r. any (is_grant file role r read now) grants) roles ≡ true
unfolding includes
role_grant file now [] row grants e h = cc
role_grant file now (r ∷ roles) row grants e h = elim (Bool-cases (r == row.grantee_id)) [
  | inl hit ↦ rw (h r (sym ((eq_iff _ _).0 hit)))
  | inr miss ↦ ground (arith, role_grant file now roles row grants (rw miss at e) h)
]

grant_sql-user :
    (file : StorageFile) (principal : StoragePrincipal) (now : ℕ) (grants : List GrantRow)
    (row : GrantRow)
    → is_named principal.actor_id ≡ true
    → is_grant_sql file principal now row ≡ true
    → is_user_sql principal.actor_id row ≡ true
    → ((q : GrantRow → Bool) → q row ≡ true → any q grants ≡ true)
    → user_grant file principal.actor_id read now grants ≡ true
grant_sql-user file principal now grants row named e by_id any_of =
    go principal.actor_id named by_id
  where
    go :
        (actor_id : Option String)
        → is_named actor_id ≡ true
        → is_user_sql actor_id row ≡ true
        → user_grant file actor_id read now grants ≡ true
    go none n b = cc
    go (some a) n b = ground (arith, any_of (is_grant file user a read now))

grant_sql-role :
    (file : StorageFile) (principal : StoragePrincipal) (now : ℕ) (row : GrantRow)
    → is_grant_sql file principal now row ≡ true
    → is_user_sql principal.actor_id row ≡ false
    → (includes principal.roles row.grantee_id ≡ true)
      × ((r : String) → row.grantee_id ≡ r → is_grant file role r read now row ≡ true)
grant_sql-role file principal now row e by_role =
    (ground arith, λ r same. ground (arith, eq_iff row.grantee_id r))

any-grant :
    (s : StorageStore) (file : StorageFile) (principal : StoragePrincipal) (now : ℕ)
    → is_named principal.actor_id ≡ true
    → any (is_grant_sql file principal now) s.grants ≡ true
    → has_active_grant s file read principal now ≡ true
unfolding has_active_grant
any-grant s file principal now h e =
    let (row, hit, any_of) = any-passes (is_grant_sql file principal now) s.grants e in
    elim (Bool-cases (is_user_sql principal.actor_id row)) [
      | inl by_id ↦ rw (grant_sql-user file principal now s.grants row h hit by_id any_of)
      | inr by_role ↦
          let by = grant_sql-role file principal now row hit by_role in
          ground (
            arith,
            role_grant file now principal.roles row s.grants by.0
                (λ r same. any_of (is_grant file role r read now) (by.1 r same)),
          )
    ]

-- The WHERE of `listFiles` lets through no file that the rules of `getFile` bar.
is_listed-readable :
    (s : StorageStore) (principal : StoragePrincipal) (owner_id : Option String)
    (status : StorageFileStatus) (now : ℕ) (file : StorageFile)
    → is_named principal.actor_id ≡ true
    → is_listed s principal owner_id status now file ≡ true
    → (can_read_file file principal || has_active_grant s file read principal now) ≡ true
unfolding is_listed can_read_file
is_listed-readable s principal owner_id status now file named e = ground (
  arith,
  is_owner_sql-owned file.owner_id principal.actor_id named,
  is_allowed_sql-allowed file.access_policy.allowed_user_ids principal.actor_id named,
  any-grant s file principal now named,
  eq_iff file.tenant_id principal.tenant_id,
  eq_iff principal.tenant_id file.tenant_id,
)

-- What `getFile` answers where it lets a principal through.
abbrev pub Readable : StoragePrincipal → ℕ → StorageStore → StorageFile → Type 0
Readable principal now s file = get_file file.id principal now s ≡ (
  ok (file, load_variants file.id s),
  record s {
    audit_events = s.audit_events ++ file_event file principal "storage.file.read" now ∷ [];
  },
)

get_file-Readable :
    (principal : StoragePrincipal) (now : ℕ) (s : StorageStore) (file : StorageFile)
    → load_file file.id s ≡ some file
    → (can_read_file file principal || has_active_grant s file read principal now) ≡ true
    → Readable principal now s file
unfolding get_file audit
get_file-Readable principal now s file e h = rw (e, h)

All-limit_rows :
    (P : StorageFile → Type 0) (n : ℕ) (rows : List StorageFile)
    → All P rows
    → All P (limit_rows n rows)
unfolding limit_rows
All-limit_rows P zero rows h = tt
All-limit_rows P (suc n) [] h = tt
All-limit_rows P (suc n) (file ∷ rows) (p, h) = (p, All-limit_rows P n rows h)

-- Each file that `listFiles` shows to a principal is one that `getFile` gives to the principal at
-- the same time, where file ids are distinct and the principal's id is not the empty text.
pub list_files-Readable :
    (limit : Option ℕ) (owner_id : Option String) (principal : StoragePrincipal)
    (status : Option StorageFileStatus) (now : ℕ) (s : StorageStore)
    → Distinct file_key s.files
    → is_named principal.actor_id ≡ true
    → All (Readable principal now s) (list_files limit owner_id principal status now s)
unfolding list_files load_file
list_files-Readable limit owner_id principal status now s distinct named =
    All-limit_rows (Readable principal now s) (clamp_limit (or_else limit 50)) _ (
      All-sort_by is_newer (Readable principal now s) _ (
        All-mono _ (Readable principal now s) _
          (λ file h.
            get_file-Readable principal now s file h.0 (
              is_listed-readable s principal owner_id (or_else status available) now file named
                h.1))
          (All-select_where_test _ (is_listed s principal owner_id (or_else status available) now)
            s.files (Distinct-found file_key s.files distinct))))
