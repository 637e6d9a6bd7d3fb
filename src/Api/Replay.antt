-- ===== src/Api/Replay.antt =====
-- What a repeated request gets, and how often its handler runs.
use nextjs_saas_boilerplate.Common.{
  ℕ, ◌≡◌, refl, sym, ◌∙◌, ap, ltb, String, true, false, ◌||◌, List, [], ◌∷◌, ◌++◌, Option, none,
  some, if◌then◌else◌, ◌==◌, any-find_where, find_where, find_where-append_none,
  find_where-update_self, has_key, Result, ok, err, arith, eq_refl, Option-cases, inl, inr,
}
use nextjs_saas_boilerplate.Common.Strings.{units, is_present}
use nextjs_saas_boilerplate.Api.Scopes.{ApiError, idempotency_conflict, idempotency_in_progress}
use nextjs_saas_boilerplate.Api.Idempotency.{
  KeyRow, Response, IdempotencyInput, Decision, run, replay, row_key, stored_key, claimed_row,
  existing_key, begin, set_response, finish,
}

-- A key that the service accepts.
abbrev pub IsKey : IdempotencyInput → Type 0
IsKey input =
    (is_present input.key ≡ true) × ((ltb (units input.key) 8 || ltb 160 (units input.key)) ≡ false)

-- The row of a request's key.
abbrev pub row_of : IdempotencyInput → List KeyRow → Option KeyRow
row_of input rows = find_where (has_key row_key (stored_key input)) rows

module _ (ttl : ℕ) (input : IdempotencyInput) (valid : IsKey input) where
  begin-free :
      (now : ℕ) (rows : List KeyRow)
      → row_of input rows ≡ none
      → begin ttl input now rows ≡ (ok run, rows ++ claimed_row ttl input now ∷ [])
  unfolding begin
  begin-free now rows e =
      rw (valid.0, valid.1, any-find_where (has_key row_key (stored_key input)) rows, e)

  begin-taken :
      (now : ℕ) (rows : List KeyRow) {row : KeyRow}
      → row_of input rows ≡ some row
      → begin ttl input now rows ≡ (existing_key (some row) input.request_hash, rows)
  unfolding begin
  begin-taken now rows e =
      rw (valid.0, valid.1, any-find_where (has_key row_key (stored_key input)) rows, e)

  row-claimed :
      (now : ℕ) (rows : List KeyRow)
      → row_of input rows ≡ none
      → row_of input (rows ++ claimed_row ttl input now ∷ []) ≡ some (claimed_row ttl input now)
  unfolding find_where
  row-claimed now rows e =
      find_where-append_none (has_key row_key (stored_key input)) rows
        (claimed_row ttl input now ∷ []) e
      ∙ rw (eq_refl (stored_key input))

  row-finished :
      (response : Response) (now : ℕ) (rows : List KeyRow) {row : KeyRow}
      → row_of input rows ≡ some row
      → row_of input (finish input response now rows) ≡ some (set_response response now row)
  unfolding finish
  row-finished response now rows e = rw valid.0 (
      find_where-update_self row_key (set_response response now) (λ r. refl) (stored_key input) rows
        e)

existing_key-ne_run : (o : Option KeyRow) (hash : String) → ¬ (existing_key o hash ≡ ok run)
unfolding existing_key
existing_key-ne_run o hash e = ground arith

-- A request that runs its handler found no row.
begin-run :
    (ttl : ℕ) (input : IdempotencyInput) (now : ℕ) (rows : List KeyRow)
    → IsKey input
    → (begin ttl input now rows).0 ≡ ok run
    → row_of input rows ≡ none
begin-run ttl input now rows valid ran = elim (Option-cases (row_of input rows)) [
  | inl e ↦ e
  | inr (row, e) ↦ absurd (
      existing_key-ne_run (some row) input.request_hash (
        ap (λ (x : Result ApiError Decision × List KeyRow). x.0)
          (sym (begin-taken ttl input valid now rows e))
        ∙ ran))
]

-- The same request with a body that hashes to `hash`.
abbrev pub with_hash : IdempotencyInput → String → IdempotencyInput
with_hash input hash = record input { request_hash = hash }

replay-existing :
    (input : IdempotencyInput) (hash : String) (response : Response) (done : ℕ) (row : KeyRow)
    → row.request_hash ≡ input.request_hash
    → existing_key (some (set_response response done row)) hash
      ≡ (if input.request_hash == hash then ok (replay response) else err idempotency_conflict)
unfolding existing_key
replay-existing input hash response done row same = rw same

-- A request that ran its handler is replayed: the same key with the same body gets the stored
-- response at any later time, with no second run and no change; with another body it is refused.
pub begin-finish-replay :
    (ttl : ℕ) (input : IdempotencyInput) (hash : String) (response : Response) (now done later : ℕ)
    (rows : List KeyRow)
    → IsKey input
    → (begin ttl input now rows).0 ≡ ok run
    → let after = finish input response done (begin ttl input now rows).1 in
      begin ttl (with_hash input hash) later after ≡ (
        if input.request_hash == hash then ok (replay response) else err idempotency_conflict,
        after,
      )
unfolding stored_key
begin-finish-replay ttl input hash response now done later rows valid ran =
    let free = begin-run ttl input now rows valid ran in
    let row = claimed_row ttl input now in
    rw (begin-free ttl input valid now rows free) (
      begin-taken ttl (with_hash input hash) valid later
        (finish input response done (rows ++ row ∷ []))
        (row-finished ttl input valid response done (rows ++ row ∷ [])
          (row-claimed ttl input valid now rows free))
      ∙ ap (λ (x : Result ApiError Decision). (x, finish input response done (rows ++ row ∷ [])))
          (replay-existing input hash response done row refl))

stuck-existing :
    (ttl : ℕ) (input : IdempotencyInput) (now : ℕ)
    → existing_key (some (claimed_row ttl input now)) input.request_hash
      ≡ err idempotency_in_progress
unfolding existing_key
stuck-existing ttl input now = rw (eq_refl input.request_hash)

-- A handler that throws leaves its key taken: whatever time has passed, also beyond `locked_until`
-- and `expires_at`, a retry is told that the request is in progress.
pub begin-stuck :
    (ttl : ℕ) (input : IdempotencyInput) (now later : ℕ) (rows : List KeyRow)
    → IsKey input
    → (begin ttl input now rows).0 ≡ ok run
    → begin ttl input later (begin ttl input now rows).1
      ≡ (err idempotency_in_progress, (begin ttl input now rows).1)
begin-stuck ttl input now later rows valid ran =
    let free = begin-run ttl input now rows valid ran in
    let row = claimed_row ttl input now in
    rw (begin-free ttl input valid now rows free) (
      begin-taken ttl input valid later (rows ++ row ∷ [])
        (row-claimed ttl input valid now rows free)
      ∙ ap (λ (x : Result ApiError Decision). (x, rows ++ row ∷ [])) (stuck-existing ttl input now))
