-- ===== src/Api/Tests.antt =====
-- The theorems on packages/api/src/service.ts at concrete requests.
use nextjs_saas_boilerplate.Common.{
  All, ◌≤◌, ◌≡◌, ◌↔◌, refl, List, [], ◌∷◌, some, is_some, ok, err, if◌then◌else◌, ◌==◌,
}
use nextjs_saas_boilerplate.Common.Strings.{units}
use nextjs_saas_boilerplate.Api.Scopes.{
  assert_scopes, idempotency_conflict, idempotency_in_progress,
}
use nextjs_saas_boilerplate.Api.Grants.{IsGranted, assert_scopes-ok_iff}
use nextjs_saas_boilerplate.Api.Idempotency.{IdempotencyInput, Response, replay, begin, finish}
use nextjs_saas_boilerplate.Api.Replay.{IsKey, with_hash, begin-finish-replay, begin-stuck}
use nextjs_saas_boilerplate.Api.Once.{Event, begins, finishes, runs, row_at, runs_at_most_once}

abbrev order : IdempotencyInput
order = record {
  key = "order-0001";
  scope = "orders";
  tenant_id = some "acme";
  request_hash = "h1";
}

abbrev created : Response
created = record { body = "{}"; status = 201 }

order-IsKey : IsKey order
unfolding units
order-IsKey = (refl, refl)

-- Two requests with one key at once, and a third one after the first has finished.
abbrev requests : List Event
requests = begins order 1 ∷ begins order 2 ∷ finishes order created 3 ∷ begins order 4 ∷ []

runs_at_most_once_example :
    runs 86400 "acme:orders:order-0001" requests []
    ≤ (if is_some (row_at "acme:orders:order-0001" []) then 0 else 1)
runs_at_most_once_example = runs_at_most_once 86400 "acme:orders:order-0001" requests []

begin-finish-replay_example :
    let after = finish order created 3 (begin 86400 order 1 []).1 in
    begin 86400 (with_hash order "h1") 9 after
    ≡ (if "h1" == "h1" then ok (replay created) else err idempotency_conflict, after)
unfolding begin units
begin-finish-replay_example = begin-finish-replay 86400 order "h1" created 1 3 9 [] order-IsKey refl

begin-stuck_example :
    begin 86400 order 999999999 (begin 86400 order 1 []).1
    ≡ (err idempotency_in_progress, (begin 86400 order 1 []).1)
unfolding begin units
begin-stuck_example = begin-stuck 86400 order 1 999999999 [] order-IsKey refl

assert_scopes-ok_iff_example :
    (assert_scopes ("billing:*" ∷ "tenant:write" ∷ []) ("billing:read" ∷ "tenant:read" ∷ [])
      ≡ ok tt)
    ↔ All
        (λ r. IsGranted r ("billing:*" ∷ "tenant:write" ∷ []))
        ("billing:read" ∷ "tenant:read" ∷ [])
assert_scopes-ok_iff_example =
    assert_scopes-ok_iff ("billing:*" ∷ "tenant:write" ∷ []) ("billing:read" ∷ "tenant:read" ∷ [])
