-- ===== src/Api/Grants.antt =====
-- When a token's scopes are enough for a request.
use nextjs_saas_boilerplate.Common.{
  ◌≡◌, ◌↔◌, refl, String, Bool, true, false, not, List, [], ◌∷◌, ok, any, All, All-mono,
  select_where-nil, select_where-eq_nil, arith, Bool-cases, inl, inr,
}
use nextjs_saas_boilerplate.Api.Scopes.{
  scope_implies, missing_scopes, require_none_missing, assert_scopes,
}
use nextjs_saas_boilerplate.Api.Implications.{Implies, scope_implies_iff}

-- Some held scope grants a required one.
pub data IsGranted (required : String) : List String → Type 0 where
  here : {h : String} {held : List String} → Implies h required → IsGranted required (h ∷ held)
  there :
      {h : String} {held : List String} → IsGranted required held → IsGranted required (h ∷ held)

any-IsGranted :
    (required : String) (held : List String)
    → any (λ h. scope_implies h required) held ≡ true
    → IsGranted required held
any-IsGranted required [] k = cc
any-IsGranted required (h ∷ held) k = elim (Bool-cases (scope_implies h required)) [
  | inl hit ↦ here ((scope_implies_iff h required).0 hit)
  | inr miss ↦ there (any-IsGranted required held (rw miss at k))
]

IsGranted-any :
    (required : String) (held : List String)
    → IsGranted required held
    → any (λ h. scope_implies h required) held ≡ true
IsGranted-any required _ (here {h} i) = rw ((scope_implies_iff h required).1 i) refl
IsGranted-any required _ (there {h} {held} g) =
    let later = IsGranted-any required held g in ground (arith, later)

none_missing-nil : (missing : List String) → require_none_missing missing ≡ ok tt → missing ≡ []
none_missing-nil [] e = refl
none_missing-nil (m ∷ missing) e = cc

-- A request passes exactly when every scope that it requires is granted by a held one, which is `*`,
-- the same scope, `p:*` where the required one begins with `p:`, or one that stands for it in the
-- table of implied scopes.
pub assert_scopes-ok_iff :
    (held required : List String)
    → (assert_scopes held required ≡ ok tt) ↔ All (λ r. IsGranted r held) required
unfolding assert_scopes missing_scopes
assert_scopes-ok_iff held required =
    let covered : String → Bool = λ r. any (λ h. scope_implies h r) held in
    (
      λ passed.
          All-mono (λ r. not (covered r) ≡ false) (λ r. IsGranted r held) required
            (λ r h. any-IsGranted r held (ground arith))
            (select_where-nil (λ r. not (covered r)) required (none_missing-nil _ passed)),
      λ granted.
          rw
            (select_where-eq_nil (λ r. not (covered r)) required
              (All-mono (λ r. IsGranted r held) (λ r. not (covered r) ≡ false) required
                (λ r g. rw (IsGranted-any r held g) refl) granted))
            refl,
    )
