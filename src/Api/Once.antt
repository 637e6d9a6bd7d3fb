-- ===== src/Api/Once.antt =====
-- Concurrent requests of `withIdempotency` as steps, and how often a key's handler runs.
use nextjs_saas_boilerplate.Common.{
  ℕ, ◌+◌, ◌≤◌, ◌≡◌, refl, String, Bool, true, false, ◌&&◌, List, [], ◌∷◌, ◌++◌, Option, none, some,
  if◌then◌else◌, ◌==◌, any, any-find_where, update_where, find_where, find_where-append_none,
  find_where-append, find_where-update_where, has_key, Result, ok, arith, is_some, eq_iff, eq_refl,
  Bool-cases, Option-cases, inl, inr, ◌⊎◌, subst, and-eq_true,
}
use nextjs_saas_boilerplate.Common.Strings.{is_present}
use nextjs_saas_boilerplate.Api.Scopes.{ApiError}
use nextjs_saas_boilerplate.Api.Idempotency.{
  KeyRow, Response, IdempotencyInput, Decision, run, row_key, stored_key, claimed_row, existing_key,
  begin, set_response, finish,
}

-- The steps of concurrent requests, in the order in which the database sees them.
pub data Event : Type 0 where
  begins : IdempotencyInput → (now : ℕ) → Event
  finishes : IdempotencyInput → Response → (now : ℕ) → Event

unfoldable pub rows_after : ℕ → Event → List KeyRow → List KeyRow
rows_after ttl (begins input now) rows = (begin ttl input now rows).1
rows_after ttl (finishes input response now) rows = finish input response now rows

-- 1 if the step lets a request of the given key run its handler.
abbrev pub is_run : Result ApiError Decision → Bool
is_run (ok run) = true
is_run _ = false

unfoldable pub runs_at : ℕ → String → Event → List KeyRow → ℕ
runs_at ttl key (begins input now) rows =
    if is_present input.key && stored_key input == key && is_run (begin ttl input now rows).0
    then 1
    else 0
runs_at ttl key (finishes input response now) rows = 0

-- How often a handler runs for a key along the steps.
unfoldable pub runs : ℕ → String → List Event → List KeyRow → ℕ
unfolding runs_at rows_after
runs ttl key [] rows = 0
runs ttl key (e ∷ es) rows = runs_at ttl key e rows + runs ttl key es (rows_after ttl e rows)

-- The row of a key.
abbrev pub row_at : String → List KeyRow → Option KeyRow
row_at key rows = find_where (has_key row_key key) rows

existing_key-is_run : (o : Option KeyRow) (hash : String) → is_run (existing_key o hash) ≡ false
unfolding existing_key
existing_key-is_run none hash = refl
existing_key-is_run (some row) hash = ground arith

is_some-append :
    (key : String) (rows more : List KeyRow)
    → is_some (row_at key rows) ≡ true
    → is_some (row_at key (rows ++ more)) ≡ true
is_some-append key rows more h = elim (Option-cases (row_at key rows)) [
  | inl e ↦ cc (rw e at h)
  | inr (row, e) ↦ rw (find_where-append _ rows more e)
]

is_some-update :
    (key id : String) (response : Response) (now : ℕ) (rows : List KeyRow)
    → is_some (row_at key rows) ≡ true
    → is_some (row_at key (update_where (has_key row_key id) (set_response response now) rows))
      ≡ true
is_some-update key id response now rows h = elim (Option-cases (row_at key rows)) [
  | inl e ↦ cc (rw e at h)
  | inr (row, e) ↦
      rw (find_where-update_where row_key (set_response response now) (λ r. refl) id key rows, e)
        (ground arith)
]

-- No step deletes the row of a key.
rows_after-is_some :
    (ttl : ℕ) (key : String) (e : Event) (rows : List KeyRow)
    → is_some (row_at key rows) ≡ true
    → is_some (row_at key (rows_after ttl e rows)) ≡ true
unfolding rows_after begin finish
rows_after-is_some ttl key (begins input now) rows h =
    ground (arith, is_some-append key rows (claimed_row ttl input now ∷ []))
rows_after-is_some ttl key (finishes input response now) rows h =
    ground (arith, is_some-update key (stored_key input) response now rows)

-- A key that has a row runs no handler.
runs_at-taken :
    (ttl : ℕ) (key : String) (e : Event) (rows : List KeyRow)
    → is_some (row_at key rows) ≡ true
    → runs_at ttl key e rows ≡ 0
unfolding runs_at begin
runs_at-taken ttl key (begins input now) rows h = ground (
  arith,
  eq_iff (stored_key input) key,
  any-find_where (has_key row_key (stored_key input)) rows,
  existing_key-is_run (row_at (stored_key input) rows) input.request_hash,
)
runs_at-taken ttl key (finishes input response now) rows h = refl

runs-taken :
    (ttl : ℕ) (key : String) (es : List Event) (rows : List KeyRow)
    → is_some (row_at key rows) ≡ true
    → runs ttl key es rows ≡ 0
unfolding runs
runs-taken ttl key [] rows h = refl
runs-taken ttl key (e ∷ es) rows h = rw (
  runs_at-taken ttl key e rows h,
  runs-taken ttl key es (rows_after ttl e rows) (rows_after-is_some ttl key e rows h),
)

claimed-is_some :
    (ttl : ℕ) (input : IdempotencyInput) (now : ℕ) (rows : List KeyRow)
    → any (has_key row_key (stored_key input)) rows ≡ false
    → is_some (row_at (stored_key input) (rows ++ claimed_row ttl input now ∷ [])) ≡ true
unfolding find_where
claimed-is_some ttl input now rows h = elim (Option-cases (row_at (stored_key input) rows)) [
  | inl e ↦ rw (
    find_where-append_none (has_key row_key (stored_key input)) rows
        (claimed_row ttl input now ∷ []) e,
    eq_refl (stored_key input),
  )
  | inr (row, e) ↦ cc (rw (any-find_where (has_key row_key (stored_key input)) rows, e) at h)
]

begin-is_run :
    (ttl : ℕ) (input : IdempotencyInput) (now : ℕ) (rows : List KeyRow)
    → is_present input.key ≡ true
    → is_run (begin ttl input now rows).0 ≡ true
    → is_some (row_at (stored_key input) (begin ttl input now rows).1) ≡ true
unfolding begin
begin-is_run ttl input now rows present ran = ground (
  arith,
  existing_key-is_run (row_at (stored_key input) rows) input.request_hash,
  claimed-is_some ttl input now rows,
)

-- A run leaves the row of its key.
runs_at-cases :
    (ttl : ℕ) (key : String) (e : Event) (rows : List KeyRow)
    → (runs_at ttl key e rows ≡ 0)
      ⊎ ((runs_at ttl key e rows ≡ 1) × (is_some (row_at key (rows_after ttl e rows)) ≡ true))
unfolding runs_at rows_after
runs_at-cases ttl key (begins input now) rows =
    elim (Bool-cases
      (is_present input.key && stored_key input == key && is_run (begin ttl input now rows).0)) [
        | inl h ↦
            let p = and-eq_true _ _ h in
            let q = and-eq_true _ _ p.0 in
            let same : stored_key input ≡ key = (eq_iff _ _).0 q.1 in
            inr (
              rw h,
              subst (λ k. is_some (row_at k (begin ttl input now rows).1) ≡ true) same
                  (begin-is_run ttl input now rows q.0 p.1),
            )
        | inr h ↦ inl (rw h)
      ]
runs_at-cases ttl key (finishes input response now) rows = inl refl

at_most_once :
    (ttl : ℕ) (key : String) (es : List Event) (rows : List KeyRow) → runs ttl key es rows ≤ 1
unfolding runs
at_most_once ttl key [] rows = omega arith
at_most_once ttl key (e ∷ es) rows = elim (runs_at-cases ttl key e rows) [
  | inl idle ↦ omega (arith, idle, at_most_once ttl key es (rows_after ttl e rows))
  | inr (one, h) ↦ rw (one, runs-taken ttl key es (rows_after ttl e rows) h) (omega arith)
]

-- However requests interleave, and whatever their handlers return or throw, the handler of a key
-- runs at most once, and not at all where the key has a row to begin with.
pub runs_at_most_once :
    (ttl : ℕ) (key : String) (es : List Event) (rows : List KeyRow)
    → runs ttl key es rows ≤ (if is_some (row_at key rows) then 0 else 1)
runs_at_most_once ttl key es rows = elim (Bool-cases (is_some (row_at key rows))) [
  | inl h ↦ rw (h, runs-taken ttl key es rows h) (omega arith)
  | inr h ↦ rw h (at_most_once ttl key es rows)
]
