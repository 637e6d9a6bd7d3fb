-- ===== src/Api/Idempotency.antt =====
-- `withIdempotency` of packages/api/src/service.ts. Its statements are not one transaction: the
-- handler runs between an INSERT that claims the key and an UPDATE that stores the response, and
-- other requests come between. So the call is two steps, `begin` and `finish`.
use nextjs_saas_boilerplate.Common.{
  ℕ, ◌+◌, ◌*◌, ltb, String, ◌||◌, List, [], ◌∷◌, ◌++◌, Option, none, some, if◌then◌else◌, or_else,
  ◌==◌, any, update_where, find_where, has_key, Result, ok, err,
}
use Prim.Native.String
use nextjs_saas_boilerplate.Common.Strings.{units, is_present}
use nextjs_saas_boilerplate.Api.Scopes.{
  ApiError, invalid_idempotency_key, idempotency_conflict, idempotency_in_progress,
}

-- A row of `idempotency_keys`. The response body is its JSON text.
pub record KeyRow : Type 0 where
  pub key : String
  pub tenant_id : Option String
  pub scope : String
  pub request_hash : String
  pub response_status : Option ℕ
  pub response_body : Option String
  pub locked_until : Option ℕ
  pub expires_at : ℕ
  pub created_at : ℕ
  pub updated_at : ℕ

pub record Response : Type 0 where
  pub body : String
  pub status : ℕ

-- The argument of the call; `request_hash` is `requestHash(input.requestBody)`.
pub record IdempotencyInput : Type 0 where
  pub key : String
  pub scope : String
  pub tenant_id : Option String
  pub request_hash : String

-- What `begin` decides: to run the handler, or to return a stored response.
pub data Decision : Type 0 where
  run : Decision
  replay : Response → Decision

abbrev pub row_key : KeyRow → String
row_key row = row.key

unfoldable pub stored_key : IdempotencyInput → String
stored_key input =
    String.◌++◌ (or_else input.tenant_id "global")
      (String.◌++◌ ":" (String.◌++◌ input.scope (String.◌++◌ ":" input.key)))

-- `ttl_seconds` is the service's option `idempotencyTtlSeconds`.
abbrev pub claimed_row : ℕ → IdempotencyInput → ℕ → KeyRow
claimed_row ttl_seconds input now = record {
  key = stored_key input;
  tenant_id = input.tenant_id;
  scope = input.scope;
  request_hash = input.request_hash;
  response_status = none;
  response_body = none;
  locked_until = some (now + 60 * 1000);
  expires_at = now + ttl_seconds * 1000;
  created_at = now;
  updated_at = now;
}

-- `existing.response_body !== null && existing.response_status !== null`
abbrev pub stored_response : Option String → Option ℕ → Result ApiError Decision
stored_response (some body) (some status) = ok (replay (record { body = body; status = status }))
stored_response _ _ = err idempotency_in_progress

-- What a request finds where the INSERT did nothing.
unfoldable pub existing_key : Option KeyRow → String → Result ApiError Decision
existing_key none request_hash = err idempotency_conflict
existing_key (some row) request_hash =
    if row.request_hash == request_hash
    then stored_response row.response_body row.response_status
    else err idempotency_conflict

-- Up to the handler. An empty key is no key: the handler runs, and nothing is stored.
unfoldable pub begin :
    ℕ → IdempotencyInput → ℕ → List KeyRow → Result ApiError Decision × List KeyRow
unfolding existing_key stored_key units
begin ttl_seconds input now rows =
    if is_present input.key
    then (if ltb (units input.key) 8 || ltb 160 (units input.key)
        then (err invalid_idempotency_key, rows)
        else if any (has_key row_key (stored_key input)) rows
        then (
          existing_key (find_where (has_key row_key (stored_key input)) rows) input.request_hash,
          rows,
        )
        else (ok run, rows ++ claimed_row ttl_seconds input now ∷ []))
    else (ok run, rows)

abbrev pub set_response : Response → ℕ → KeyRow → KeyRow
set_response response now row = record row {
  response_status = some response.status;
  response_body = some response.body;
  locked_until = none;
  updated_at = now;
}

-- After a handler that returned. One that throws leaves the row as it is.
unfoldable pub finish : IdempotencyInput → Response → ℕ → List KeyRow → List KeyRow
unfolding stored_key
finish input response now rows =
    if is_present input.key
    then update_where (has_key row_key (stored_key input)) (set_response response now) rows
    else rows
