-- ===== src/Api/Implications.antt =====
-- The scopes that a scope stands for, stated without the code.
use Prim.Native.String.{◌++◌}
use nextjs_saas_boilerplate.Common.{
  ◌≡◌, ◌⊎◌, ◌↔◌, refl, sym, ap, ◌∙◌, subst, String, true, ◌||◌, List, [], ◌∷◌, arith, Bool-cases,
  inl, inr, eq_iff, ◌==◌,
}
use nextjs_saas_boilerplate.Common.Strings.{includes, has_suffix, drop_last}
use nextjs_saas_boilerplate.Common.Texts.{
  has_prefix-split, has_prefix-append, has_suffix-split, has_suffix-append, drop_last-append,
}
use nextjs_saas_boilerplate.Api.Scopes.{implied_scopes, scope_implies}

-- What a scope stands for beside itself.
pub data Listed : String → String → Type 0 where
  api_write : Listed "api:write" "api:read"
  api_keys_read : Listed "api_keys:read" "webhooks:read"
  api_keys_write : Listed "api_keys:write" "api_keys:read"
  api_keys_write_reads : Listed "api_keys:write" "webhooks:read"
  api_keys_write_writes : Listed "api_keys:write" "webhooks:write"
  audit_read : Listed "audit:read" "events:read"
  tenant_read : Listed "tenant:read" "api:read"
  tenant_write : Listed "tenant:write" "tenant:read"
  tenant_write_api : Listed "tenant:write" "api:write"
  tenant_write_events : Listed "tenant:write" "events:write"

-- A held scope grants a required one: it is the wildcard, the same scope, a family `p:*` of which
-- the required scope is a member, or stands for it.
pub data Implies (held required : String) : Type 0 where
  everything : held ≡ "*" → Implies held required
  itself : held ≡ required → Implies held required
  family :
      (p rest : String) → held ≡ p ++ ":*" → required ≡ (p ++ ":") ++ rest → Implies held required
  listed : Listed held required → Implies held required

includes-cases :
    (x : String) (xs : List String) (r : String)
    → includes (x ∷ xs) r ≡ true
    → (x ≡ r) ⊎ (includes xs r ≡ true)
unfolding includes
includes-cases x xs r h = elim (Bool-cases (x == r)) [
  | inl hit ↦ inl ((eq_iff x r).0 hit)
  | inr miss ↦ inr (rw miss at h)
]

includes-one : (x r : String) → includes (x ∷ []) r ≡ true → x ≡ r
unfolding includes
includes-one x r h = elim (includes-cases x [] r h) [ inl e ↦ e | inr k ↦ cc ]

Listed-at :
    {h r : String} (held required : String)
    → (h == held) ≡ true
    → required ≡ r
    → Listed held required
    → Listed h r
Listed-at {h} {r} held required e f l =
    subst (λ x. Listed x r) (sym ((eq_iff h held).0 e)) (subst (Listed held) f l)

implied_scopes-Listed : (h r : String) → includes (implied_scopes h) r ≡ true → Listed h r
unfolding implied_scopes includes
implied_scopes-Listed h r k = elim (Bool-cases (h == "api:write")) [
  | inl e ↦ Listed-at "api:write" "api:read" e (includes-one _ r (rw e at k)) api_write
  | inr e1 ↦ elim (Bool-cases (h == "api_keys:read")) [
    | inl e ↦
        Listed-at "api_keys:read" "webhooks:read" e (includes-one _ r (rw (e1, e) at k))
          api_keys_read
    | inr e2 ↦ elim (Bool-cases (h == "api_keys:write")) [
      | inl e ↦
          elim (includes-cases _ ("webhooks:read" ∷ "webhooks:write" ∷ []) r
            (rw (e1, e2, e) at k)) [
              | inl f ↦ Listed-at "api_keys:write" "api_keys:read" e f api_keys_write
              | inr l ↦ elim (includes-cases _ ("webhooks:write" ∷ []) r l) [
                | inl f ↦ Listed-at "api_keys:write" "webhooks:read" e f api_keys_write_reads
                | inr m ↦
                    Listed-at "api_keys:write" "webhooks:write" e (includes-one _ r m)
                      api_keys_write_writes
              ]
            ]
      | inr e3 ↦ elim (Bool-cases (h == "audit:read")) [
        | inl e ↦
            Listed-at "audit:read" "events:read" e (includes-one _ r (rw (e1, e2, e3, e) at k))
              audit_read
        | inr e4 ↦ elim (Bool-cases (h == "tenant:read")) [
          | inl e ↦
              Listed-at "tenant:read" "api:read" e (includes-one _ r (rw (e1, e2, e3, e4, e) at k))
                tenant_read
          | inr e5 ↦ elim (Bool-cases (h == "tenant:write")) [
            | inr e6 ↦ no_scope r (rw (e1, e2, e3, e4, e5, e6) at k)
            | inl e ↦
                elim (includes-cases _ ("api:write" ∷ "events:write" ∷ []) r
                  (rw (e1, e2, e3, e4, e5, e) at k)) [
                    | inl f ↦ Listed-at "tenant:write" "tenant:read" e f tenant_write
                    | inr l ↦ elim (includes-cases _ ("events:write" ∷ []) r l) [
                      | inl f ↦ Listed-at "tenant:write" "api:write" e f tenant_write_api
                      | inr m ↦
                          Listed-at "tenant:write" "events:write" e (includes-one _ r m)
                            tenant_write_events
                    ]
                  ]
          ]
        ]
      ]
    ]
  ]
]
  where
    no_scope : (r : String) → includes [] r ≡ true → Listed h r
    no_scope r l = cc

Listed-implies : {h r : String} → Listed h r → scope_implies h r ≡ true
unfolding scope_implies implied_scopes includes has_suffix
Listed-implies api_write = refl
Listed-implies api_keys_read = refl
Listed-implies api_keys_write = refl
Listed-implies api_keys_write_reads = refl
Listed-implies api_keys_write_writes = refl
Listed-implies audit_read = refl
Listed-implies tenant_read = refl
Listed-implies tenant_write = refl
Listed-implies tenant_write_api = refl
Listed-implies tenant_write_events = refl

family_implies : (p rest : String) → scope_implies (p ++ ":*") ((p ++ ":") ++ rest) ≡ true
unfolding scope_implies
family_implies p rest =
    let ends = has_suffix-append p ":*" in
    let cut : drop_last (p ++ ":*") ≡ p ++ ":" = drop_last-append p ":" "*" in
    let starts = has_prefix-append (p ++ ":") rest in
    elim (Bool-cases ((p ++ ":*") == "*" || (p ++ ":*") == ((p ++ ":") ++ rest))) [
      | inl same ↦ rw same refl
      | inr other ↦ rw (other, ends, cut) starts
    ]

scope_implies-Implies : (h r : String) → scope_implies h r ≡ true → Implies h r
unfolding scope_implies
scope_implies-Implies h r k = elim (Bool-cases (h == "*")) [
  | inl all_scopes ↦ everything ((eq_iff h "*").0 all_scopes)
  | inr not_all ↦ elim (Bool-cases (h == r)) [
    | inl same ↦ itself ((eq_iff h r).0 same)
    | inr other ↦ elim (Bool-cases (has_suffix ":*" h)) [
      | inr single ↦ listed (implied_scopes-Listed h r (rw (not_all, other, single) at k))
      | inl of_family ↦
          let (p, e) = has_suffix-split ":*" h of_family in
          let cut : drop_last h ≡ p ++ ":" = ap drop_last e ∙ drop_last-append p ":" "*" in
          let (rest, f) = has_prefix-split (drop_last h) r (rw (not_all, other, of_family) at k) in
          family p rest e (f ∙ ap (λ t. t ++ rest) cut)
    ]
  ]
]

Implies-scope_implies : (h r : String) → Implies h r → scope_implies h r ≡ true
unfolding scope_implies
Implies-scope_implies h r (everything e) = subst (λ x. scope_implies x r ≡ true) (sym e) refl
Implies-scope_implies h r (itself e) = let same = (eq_iff h r).1 e in ground (arith, same)
Implies-scope_implies h r (family p rest e f) =
    subst (λ x. scope_implies x r ≡ true) (sym e)
      (subst (λ y. scope_implies (p ++ ":*") y ≡ true) (sym f) (family_implies p rest))
Implies-scope_implies h r (listed l) = Listed-implies l

-- The code's test decides this relation.
pub scope_implies_iff : (h r : String) → (scope_implies h r ≡ true) ↔ Implies h r
scope_implies_iff h r = (scope_implies-Implies h r, Implies-scope_implies h r)
