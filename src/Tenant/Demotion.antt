-- ===== src/Tenant/Demotion.antt =====
-- What accepting an invitation does to the owners of its organization. Unlike `updateMember` and
-- `removeMember`, `acceptInvitation` does not call `assertOwnerWillRemain`.
use nextjs_saas_boilerplate.Common.{
  ℕ, ◌≤◌, ◌+◌, ◌≡◌, refl, ◌∙◌, ap, String, Bool, true, false, List, [], ◌∷◌, ◌++◌, some,
  update_where, find_where, count_where, any, arith, Bool-cases, inl, inr, eq_refl, if◌then◌else◌,
}
use nextjs_saas_boilerplate.Tenant.Store.{
  MembershipRow, InvitationRow, TenantStore, is_owner, is_current, is_member_row, is_owner_row,
  is_other_owner,
}
use nextjs_saas_boilerplate.Tenant.Invitations.{
  is_redeemable, accept_invitation, new_membership, rejoin, upsert_membership,
}
use nextjs_saas_boilerplate.Tenant.Owners.{owners, require_membership-reads}
use nextjs_saas_boilerplate.Tenant.Redemption.{accepted_store, accept_invitation-some}

-- 1 for an owner.
abbrev pub owner_count : Bool → ℕ
owner_count true = 1
owner_count false = 0

-- With the rows of a member replaced, the owners are the other owners and, if the new role is
-- owner, the replaced rows.
count-rejoin :
    (new : MembershipRow) (rows : List MembershipRow)
    → count_where
        (is_owner_row new.organization_id)
        (update_where (is_member_row new.organization_id new.user_id) (rejoin new) rows)
      ≡ count_where (is_other_owner new.organization_id new.user_id) rows
        + (if is_owner new.role
            then count_where (is_member_row new.organization_id new.user_id) rows
            else 0)
unfolding count_where update_where
count-rejoin new [] = ground arith
count-rejoin new (r ∷ rows) = ground (arith, count-rejoin new rows)

count-append :
    (new : MembershipRow) (rows : List MembershipRow)
    → any (is_member_row new.organization_id new.user_id) rows ≡ false
    → count_where (is_owner_row new.organization_id) (rows ++ new ∷ [])
      ≡ count_where (is_other_owner new.organization_id new.user_id) rows
        + count_where (is_owner_row new.organization_id) (new ∷ [])
unfolding count_where
count-append new [] h = ground arith
count-append new (r ∷ rows) h = ground (arith, count-append new rows)

count-taken :
    (org user : String) (rows : List MembershipRow)
    → any (is_member_row org user) rows ≡ true
    → 1 ≤ count_where (is_member_row org user) rows
unfolding count_where
count-taken org user [] h = absurd (ground arith)
count-taken org user (r ∷ rows) h = ground (arith, count-taken org user rows)

one_row :
    (n : MembershipRow)
    → is_current n ≡ true
    → count_where (is_owner_row n.organization_id) (n ∷ []) ≡ owner_count (is_owner n.role)
unfolding count_where
one_row n c = ground (arith, eq_refl n.organization_id)

upsert-owners :
    (new : MembershipRow) (rows : List MembershipRow)
    → is_current new ≡ true
    → count_where (is_member_row new.organization_id new.user_id) rows ≤ 1
    → count_where (is_owner_row new.organization_id) (upsert_membership new rows)
      ≡ count_where (is_other_owner new.organization_id new.user_id) rows
        + owner_count (is_owner new.role)
unfolding upsert_membership
upsert-owners new rows current unique =
    elim (Bool-cases (any (is_member_row new.organization_id new.user_id) rows)) [
      | inl taken ↦
          rw taken (
            count-rejoin new rows
            ∙ ground (arith, count-taken new.organization_id new.user_id rows))
      | inr fresh ↦ rw fresh (count-append new rows fresh ∙ new_row new rows current)
    ]
  where
    new_row :
        (n : MembershipRow) (l : List MembershipRow)
        → is_current n ≡ true
        → count_where (is_other_owner n.organization_id n.user_id) l
            + count_where (is_owner_row n.organization_id) (n ∷ [])
          ≡ count_where (is_other_owner n.organization_id n.user_id) l
            + owner_count (is_owner n.role)
    new_row n l c =
        ap (λ k. count_where (is_other_owner n.organization_id n.user_id) l + k) (one_row n c)

-- Where a user has at most one membership row in the organization, after the user redeems an
-- invitation the owners are those other than the user, and the user if the invitation is for an
-- owner: an owner that redeems one for a lower role is one no longer, also if no other is left.
pub accept_invitation-owners :
    (hash lower : String → String) (token user_email user_id : String) (now : ℕ) (s : TenantStore)
    {i : InvitationRow}
    → find_where (is_redeemable hash lower token user_email now) s.invitations ≡ some i
    → count_where (is_member_row i.organization_id user_id) s.memberships ≤ 1
    → owners i.organization_id (accept_invitation hash lower token user_email user_id now s).1
      ≡ count_where (is_other_owner i.organization_id user_id) s.memberships
        + owner_count (is_owner i.role)
accept_invitation-owners hash lower token user_email user_id now s {i} e unique =
    rw
      (
        accept_invitation-some hash lower token user_email user_id now s e,
        require_membership-reads i.organization_id (some "dashboard.read") user_id
            (accepted_store hash lower token user_email user_id now i s),
      )
      (upsert-owners (new_membership i user_id now) s.memberships refl unique)
