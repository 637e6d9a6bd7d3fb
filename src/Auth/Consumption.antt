-- ===== src/Auth/Consumption.antt =====
-- How often a one-time token works.
use nextjs_saas_boilerplate.Common.{
  ℕ, ◌+◌, ◌*◌, ◌≤◌, ◌<◌, ◌≡◌, refl, ltb, is_none, ◌||◌, String, Bool, false, ◌&&◌, List, [], ◌∷◌,
  none, any, find_where, find_where-none, find_where-append_none, update_where, update_where-none,
  update_where-All, All, ok, err, arith, Bool-cases, inl, inr, if◌then◌else◌, eq_refl, ◌==◌, lt→ltb,
}
use nextjs_saas_boilerplate.Auth.Tokens.{
  TokenKind, AuthTokenRow, invalid_token, kind_eq, TokenInput, set_consumed, consume_row, new_token,
  clashes, create_token, is_consumable, consume_token,
}

and-middle_false : (a b c d : Bool) → b ≡ false → (a && b && c && d) ≡ false
and-middle_false a b c d h = ground arith

or-false : (a b : Bool) → (a || b) ≡ false → (a ≡ false) × (b ≡ false)
or-false a b h = ground arith

module _ (hash : String → String) where
  consume_token-none :
      (kind : TokenKind) (token : String) (now : ℕ) (rows : List AuthTokenRow)
      → All (λ r. is_consumable hash kind token now r ≡ false) rows
      → consume_token hash kind token now rows ≡ (err invalid_token, rows)
  unfolding consume_token consume_row
  consume_token-none kind token now rows h =
      rw (find_where-none _ rows h, update_where-none _ (set_consumed now) rows h)

  consume_token-rows :
      (kind : TokenKind) (token : String) (now : ℕ) (rows : List AuthTokenRow)
      → (consume_token hash kind token now rows).1
        ≡ update_where (is_consumable hash kind token now) (set_consumed now) rows
  unfolding consume_token consume_row
  consume_token-rows kind token now rows = ground arith

  spent :
      (kind : TokenKind) (token : String) (now later : ℕ) (rows : List AuthTokenRow)
      → now ≤ later
      → All
          (λ r. is_consumable hash kind token later r ≡ false)
          (update_where (is_consumable hash kind token now) (set_consumed now) rows)
  spent kind token now later rows le =
      update_where-All _ _ (set_consumed now) rows (λ r h. ground arith) (λ r h. ground arith)

  -- No row that clashes with a new one can be consumed with its token.
  unclashed :
      (new : AuthTokenRow) (kind : TokenKind) (token : String) (later : ℕ)
      (rows : List AuthTokenRow)
      → new.token_hash ≡ hash token
      → any (clashes hash new) rows ≡ false
      → find_where (is_consumable hash kind token later) rows ≡ none
  unfolding find_where
  unclashed new kind token later [] same h = refl
  unclashed new kind token later (r ∷ rows) same h =
      let parts = or-false (clashes hash new r) (any (clashes hash new) rows) h in
      let apart = (or-false (r.id == new.id) (r.token_hash == new.token_hash) parts.0).1 in
      rw
        (and-middle_false (kind_eq r.kind kind) (r.token_hash == hash token) (is_none r.consumed_at)
          (ltb later r.expires_at) (rw same at apart))
        (unclashed new kind token later rows same parts.1)

-- A token is consumed once: whatever the first call did, a call with the same token and kind that
-- is not earlier throws and changes nothing.
pub consume_token_once :
    (hash : String → String) (kind : TokenKind) (token : String) (now later : ℕ)
    (rows : List AuthTokenRow)
    → now ≤ later
    → let left = (consume_token hash kind token now rows).1 in
      consume_token hash kind token later left ≡ (err invalid_token, left)
consume_token_once hash kind token now later rows le =
    consume_token-none hash kind token later (consume_token hash kind token now rows).1
      (rw (consume_token-rows hash kind token now rows) (spent hash kind token now later rows le))

-- A token that was created is consumed, before it expires, by the kind that it was created for, with
-- the user and address that it was created with, and by no other kind.
pub create_token-consume_token :
    (hash : String → String) (input : TokenInput) (kind : TokenKind) (token uuid : String)
    (now later : ℕ) (rows : List AuthTokenRow)
    → (create_token hash input token uuid now rows).0 ≡ ok token
    → later < now + input.ttl_seconds * 1000
    → (consume_token hash kind token later (create_token hash input token uuid now rows).1).0 ≡ (
        if kind_eq input.kind kind
        then ok (set_consumed later (new_token hash input token uuid now))
        else err invalid_token)
unfolding create_token consume_token consume_row find_where
create_token-consume_token hash input kind token uuid now later rows created early =
    let new = new_token hash input token uuid now in
    elim (Bool-cases (any (clashes hash new) rows)) [
      | inl clash ↦ cc (rw clash at created)
      | inr fresh ↦
          rw
            (
              fresh,
              find_where-append_none (is_consumable hash kind token later) rows (new ∷ [])
                  (unclashed hash new kind token later rows refl fresh),
              eq_refl (hash token),
              lt→ltb later (now + input.ttl_seconds * 1000) early,
            )
            (ground arith)
    ]
