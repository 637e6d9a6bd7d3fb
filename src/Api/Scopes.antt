-- ===== src/Api/Scopes.antt =====
-- Scopes of packages/api/src/service.ts: what a token holds against what a request needs.
use nextjs_saas_boilerplate.Common.{
  String, Bool, true, not, ◌||◌, List, [], ◌∷◌, if◌then◌else◌, ◌==◌, any, select_where, Result, ok,
  err,
}
use nextjs_saas_boilerplate.Common.Strings.{includes, has_prefix, has_suffix, drop_last}

-- The codes of `ApiError` that these calls throw.
pub data ApiError : Type 0 where
  -- 403, with the scopes that are missing
  forbidden : List String → ApiError
  -- 400
  invalid_idempotency_key : ApiError
  -- 409
  idempotency_conflict idempotency_in_progress : ApiError

-- `impliedScopes[heldScope] ?? []`
unfoldable pub implied_scopes : String → List String
implied_scopes held =
    if held == "api:write"
    then "api:read" ∷ []
    else if held == "api_keys:read"
    then "webhooks:read" ∷ []
    else if held == "api_keys:write"
    then "api_keys:read" ∷ "webhooks:read" ∷ "webhooks:write" ∷ []
    else if held == "audit:read"
    then "events:read" ∷ []
    else if held == "tenant:read"
    then "api:read" ∷ []
    else if held == "tenant:write"
    then "tenant:read" ∷ "api:write" ∷ "events:write" ∷ []
    else []

unfoldable pub scope_implies : String → String → Bool
unfolding implied_scopes includes has_prefix has_suffix drop_last
scope_implies held required =
    if held == "*" || held == required
    then true
    else if has_suffix ":*" held
    then has_prefix (drop_last held) required
    else includes (implied_scopes held) required

unfoldable pub missing_scopes : List String → List String → List String
unfolding scope_implies
missing_scopes held required = select_where (λ r. not (any (λ h. scope_implies h r) held)) required

-- `if (missingScopes.length) throw …`
abbrev pub require_none_missing : List String → Result ApiError (Unit {0})
require_none_missing [] = ok tt
require_none_missing (m ∷ missing) = err (forbidden (m ∷ missing))

unfoldable pub assert_scopes : List String → List String → Result ApiError (Unit {0})
unfolding missing_scopes
assert_scopes held required = require_none_missing (missing_scopes held required)

-- `permissionForScopes`
unfoldable pub permission_for_scopes : List String → String
unfolding has_prefix has_suffix
permission_for_scopes scopes =
    if any (has_suffix ":write") scopes
    then (if any (has_prefix "members:") scopes
        then "members.update"
        else if any (has_prefix "billing:") scopes
        then "billing.manage"
        else if any (has_prefix "webhooks:") scopes
        then "api_keys.manage"
        else "organization.update")
    else if any (has_prefix "members:") scopes
    then "members.read"
    else if any (has_prefix "billing:") scopes
    then "billing.read"
    else if any (λ s. has_prefix "events:" s || has_prefix "audit:" s) scopes
    then "audit.read"
    else if any (has_prefix "webhooks:") scopes
    then "api_keys.manage"
    else "organization.read"
