-- ===== src/Tenant/Owners.antt =====
-- Whether an organization keeps an owner.
use nextjs_saas_boilerplate.Common.{
  ℕ, ◌≤◌, ◌≡◌, ◌⊎◌, sym, subst, String, true, List, Option, none, some, update_where, count_where,
  count_where-update_where, arith, Bool-cases, inl, inr, leb, eq_iff, ◌==◌,
}
use nextjs_saas_boilerplate.Common.Actions.{
  Triple, Triple-bind, Triple-reads, Triple-after, require_some, pure, ◌>>=◌, ◌>>◌,
}
use nextjs_saas_boilerplate.Tenant.Permissions.{
  TenantRole, owner, admin, member, parse_role, normalize_permissions,
}
use nextjs_saas_boilerplate.Tenant.Store.{
  MembershipRow, TenantStore, is_owner_row, is_other_owner, TenantError, AuditEvent,
  require_membership, assert_owner_will_remain, audit,
}
use nextjs_saas_boilerplate.Tenant.Members.{
  is_current_member, member_event, update_member_row, set_role, keep_owner, update_member,
  set_removed, remove_member,
}

-- How many owners an organization has.
abbrev pub owners : String → TenantStore → ℕ
owners organization_id s = count_where (is_owner_row organization_id) s.memberships

abbrev pub HasOwner : String → TenantStore → Type 0
HasOwner organization_id s = 1 ≤ owners organization_id s

pub require_membership-reads :
    (organization_id : String) (permission : Option String) (user_id : String) (s : TenantStore)
    → (require_membership organization_id permission user_id s).1 ≡ s
unfolding require_membership
require_membership-reads organization_id permission user_id s = ground arith

-- What an update of a member needs: an owner other than the member, or a change that leaves each
-- owner one.
abbrev Spared : String → String → (MembershipRow → MembershipRow) → TenantStore → Type 0
Spared org user f s =
    (1 ≤ count_where (is_other_owner org user) s.memberships)
    ⊎ ((r : MembershipRow) → is_owner_row org r ≡ true → is_owner_row org (f r) ≡ true)

update_row-HasOwner :
    (watched org user : String) (f : MembershipRow → MembershipRow) (s : TenantStore)
    → Spared org user f s
    → HasOwner watched s
    → 1
      ≤ count_where
          (is_owner_row watched)
          (update_where (is_current_member org user) f s.memberships)
update_row-HasOwner watched org user f s (inl others) h = elim (Bool-cases (org == watched)) [
  | inl here ↦ rw (← (eq_iff org watched).0 here) (
      omega (
        arith,
        count_where-update_where (is_other_owner org user) (is_owner_row org)
            (is_current_member org user) f s.memberships (λ r q p. ground arith)
            (λ r q p. ground arith),
      ))
  | inr there ↦ omega (
    arith,
    count_where-update_where (is_owner_row watched) (is_owner_row watched)
        (is_current_member org user) f s.memberships
        (λ r q p. absurd (
          ground (
            arith,
            eq_iff org watched,
            eq_iff r.organization_id org,
            eq_iff r.organization_id watched,
          )))
        (λ r q p. q),
  )
]
update_row-HasOwner watched org user f s (inr keeps) h = omega (
  arith,
  count_where-update_where (is_owner_row watched) (is_owner_row watched)
      (is_current_member org user) f s.memberships hit (λ r q p. q),
)
  where
    hit :
        (r : MembershipRow)
        → is_owner_row watched r ≡ true
        → is_current_member org user r ≡ true
        → is_owner_row watched (f r) ≡ true
    hit r q p =
        let same : org ≡ watched =
          ground (arith, eq_iff r.organization_id org, eq_iff r.organization_id watched) in
        subst (λ o. is_owner_row o (f r) ≡ true) same
          (keeps r (subst (λ o. is_owner_row o r ≡ true) (sym same) q))

assert_owner_will_remain-Triple :
    (watched org user : String) (f : MembershipRow → MembershipRow)
    → Triple
        (HasOwner watched)
        (HasOwner watched)
        (assert_owner_will_remain org user)
        (λ s. Spared org user f s × HasOwner watched s)
unfolding assert_owner_will_remain
assert_owner_will_remain-Triple watched org user f = record {
  run = λ s h. elim (Bool-cases (leb 1 (count_where (is_other_owner org user) s.memberships))) [
    | inl enough ↦ rw enough (inl (ground arith), h)
    | inr few ↦ rw few h
  ];
}

update_member_row-Triple :
    (watched org user : String) (f : MembershipRow → MembershipRow)
    → Triple
        (HasOwner watched)
        (λ s. Spared org user f s × HasOwner watched s)
        (update_member_row org user f)
        (HasOwner watched)
unfolding update_member_row
update_member_row-Triple watched org user f = record {
  run = λ s p. update_row-HasOwner watched org user f s p.0 p.1;
}

require_some-Triple :
    {A : Type 0} (watched : String) (o : Option A) (e : TenantError)
    → Triple (HasOwner watched) (HasOwner watched) (require_some o e) (HasOwner watched)
require_some-Triple watched none e = record { run = λ s h. h }
require_some-Triple watched (some a) e = record { run = λ s h. h }

-- The statements after the update: the check of its result, the audit row and the result.
finish-Triple :
    (watched : String) (o : Option MembershipRow) (event : AuditEvent)
    → Triple
        (HasOwner watched)
        (HasOwner watched)
        (require_some o TenantError.member_not_found >>= λ row. audit event >> pure row)
        (HasOwner watched)
unfolding audit
finish-Triple watched none event = record { run = λ s h. h }
finish-Triple watched (some row) event = record { run = λ s h. h }

keep_owner-Triple :
    (watched : String) (role : TenantRole) (org user : String) (permissions : List String) (now : ℕ)
    (actor : String)
    → Triple
        (HasOwner watched)
        (HasOwner watched)
        (keep_owner role org user)
        (λ s. Spared org user (set_role role permissions now actor) s × HasOwner watched s)
unfolding keep_owner
keep_owner-Triple watched owner org user permissions now actor = record {
  run = λ s h. (inr (λ r q. ground arith), h);
}
keep_owner-Triple watched admin org user permissions now actor =
    assert_owner_will_remain-Triple watched org user (set_role admin permissions now actor)
keep_owner-Triple watched member org user permissions now actor =
    assert_owner_will_remain-Triple watched org user (set_role member permissions now actor)

-- `updateMember` leaves an organization that has an owner with one, whether it returns or throws.
pub update_member-HasOwner :
    (watched actor_id : String) (custom_permissions : List String)
    (organization_id role user_id : String) (now : ℕ) (s : TenantStore)
    → HasOwner watched s
    → HasOwner watched
        (update_member actor_id custom_permissions organization_id role user_id now s).1
unfolding update_member
update_member-HasOwner watched actor custom org role user now s h =
    Triple-after
      (Triple-bind (require_some-Triple watched (parse_role role) TenantError.invalid_role)
        (λ new_role.
          Triple-bind
            (Triple-reads (require_membership org (some "members.update") actor)
              (require_membership-reads org (some "members.update") actor))
            (λ _.
              Triple-bind
                (keep_owner-Triple watched new_role org user (normalize_permissions custom) now
                  actor)
                (λ _.
                  Triple-bind
                    (update_member_row-Triple watched org user
                      (set_role new_role (normalize_permissions custom) now actor))
                    (λ updated.
                      finish-Triple watched updated
                        (member_event org actor user "tenant.member.updated" now))))))
      s h

-- `removeMember` leaves an organization that has an owner with one, whether it returns or throws.
pub remove_member-HasOwner :
    (watched actor_id organization_id user_id : String) (now : ℕ) (s : TenantStore)
    → HasOwner watched s
    → HasOwner watched (remove_member actor_id organization_id user_id now s).1
unfolding remove_member
remove_member-HasOwner watched actor org user now s h =
    Triple-after
      (Triple-bind
        (Triple-reads (require_membership org (some "members.remove") actor)
          (require_membership-reads org (some "members.remove") actor))
        (λ _.
          Triple-bind (assert_owner_will_remain-Triple watched org user (set_removed now actor))
            (λ _.
              Triple-bind (update_member_row-Triple watched org user (set_removed now actor))
                (λ updated.
                  finish-Triple watched updated
                    (member_event org actor user "tenant.member.removed" now)))))
      s h
