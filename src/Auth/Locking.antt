-- ===== src/Auth/Locking.antt =====
-- When failed sign-ins lock an identifier.
use nextjs_saas_boilerplate.Common.{
  ℕ, suc, ◌+◌, ◌≤◌, ◌≡◌, ◌↔◌, refl, leb, String, Bool, true, false, and-eq_true, eq_iff, Bool-cases,
  inl, inr, List, [], ◌∷◌, ◌++◌, ok, err, count_where, arith, if◌then◌else◌,
}
use nextjs_saas_boilerplate.Common.Strings.{trim}
use nextjs_saas_boilerplate.Auth.Lockout.{
  LoginAttempt, LoginStore, login_locked, AttemptInput, new_attempt, record_login_attempt,
  is_recent_failure, assert_not_locked,
}

-- A sign-in, with its outcome and time.
pub record SignIn : Type 0 where
  pub input : AttemptInput
  pub at : ℕ

count_where-snoc :
    (p : LoginAttempt → Bool) (rows : List LoginAttempt) (r : LoginAttempt)
    → count_where p (rows ++ r ∷ []) ≡ count_where p rows + (if p r then 1 else 0)
unfolding count_where
count_where-snoc p [] r = ground arith
count_where-snoc p (x ∷ rows) r = ground (arith, count_where-snoc p rows r)

module _ (lower : String → String) where
  unfoldable pub record_all : List SignIn → LoginStore → LoginStore
  record_all [] s = s
  record_all (x ∷ xs) s = record_all xs (record_login_attempt lower x.input x.at s)

  -- A sign-in that fails for an identifier, at most 900,000 milliseconds before `now`.
  abbrev pub IsFailureOf : String → ℕ → SignIn → Type 0
  IsFailureOf identifier now x =
      (lower (trim x.input.identifier) ≡ lower (trim identifier))
      × (x.input.success ≡ false)
      × (now ≤ x.at + 900000)

  -- How many of the sign-ins are so.
  pub data Failures (identifier : String) (now : ℕ) : List SignIn → ℕ → Type 0 where
    nothing : Failures identifier now [] 0
    failed :
        {x : SignIn} {xs : List SignIn} {n : ℕ}
        → IsFailureOf identifier now x
        → Failures identifier now xs n
        → Failures identifier now (x ∷ xs) (suc n)
    passed :
        {x : SignIn} {xs : List SignIn} {n : ℕ}
        → ¬ IsFailureOf identifier now x
        → Failures identifier now xs n
        → Failures identifier now (x ∷ xs) n

  recorded_iff :
      (identifier : String) (now : ℕ) (x : SignIn)
      → (is_recent_failure lower identifier now (new_attempt lower x.input x.at) ≡ true)
        ↔ IsFailureOf identifier now x
  recorded_iff identifier now x = (
    λ h.
        let (failure, recent) = and-eq_true _ _ h in
        let (same, unsuccessful) = and-eq_true _ _ failure in
        ((eq_iff _ _).0 same, ground (arith, unsuccessful), ground (arith, recent)),
    λ h. rw ((eq_iff _ _).1 h.0, h.1) (ground (arith, h.2)),
  )

  -- The rows that count, of those that the sign-ins record.
  count-record_all :
      (identifier : String) (now : ℕ) {xs : List SignIn} {n : ℕ} (s : LoginStore)
      → Failures identifier now xs n
      → count_where (is_recent_failure lower identifier now) (record_all xs s).attempts
        ≡ count_where (is_recent_failure lower identifier now) s.attempts + n
  unfolding record_all record_login_attempt
  count-record_all identifier now s nothing = omega arith
  count-record_all identifier now s (failed {x} {xs} {n} f rest) =
      let new = new_attempt lower x.input x.at in
      let hit = (recorded_iff identifier now x).1 f in
      let last = count_where-snoc (is_recent_failure lower identifier now) s.attempts new in
      let one = rw hit at last in
      omega (
        arith,
        one,
        count-record_all identifier now (record_login_attempt lower x.input x.at s) rest,
      )
  count-record_all identifier now s (passed {x} {xs} {n} f rest) =
      let new = new_attempt lower x.input x.at in
      let last = count_where-snoc (is_recent_failure lower identifier now) s.attempts new in
      elim (Bool-cases (is_recent_failure lower identifier now new)) [
        | inl hit ↦ absurd (f ((recorded_iff identifier now x).0 hit))
        | inr miss ↦
            let none_more = rw miss at last in
            omega (
              arith,
              none_more,
              count-record_all identifier now (record_login_attempt lower x.input x.at s) rest,
            )
      ]

  record_all-events :
      (xs : List SignIn) (s : LoginStore) → (record_all xs s).audit_events ≡ s.audit_events
  unfolding record_all record_login_attempt
  record_all-events [] s = refl
  record_all-events (x ∷ xs) s = record_all-events xs (record_login_attempt lower x.input x.at s)

-- After any sign-ins from an empty table, of which `n` failed for an identifier, trimmed and in lower
-- case, in the fifteen minutes before `now`, `assertNotLocked` throws where `n` is five or more, and
-- returns where it is less; sign-ins that succeed and those of other identifiers do not count. Where
-- it throws it adds one audit event, of the identifier, and where it returns it changes nothing.
pub assert_not_locked_lem :
    (lower : String → String) (identifier : String) (now n : ℕ) (xs : List SignIn) (s : LoginStore)
    → s.attempts ≡ []
    → Failures lower identifier now xs n
    → let t = record_all lower xs s in
      assert_not_locked lower identifier now t ≡ (
        if leb 5 n
        then (
          err login_locked,
          record t {
            audit_events =
                s.audit_events
                ++ record { identifier = lower (trim identifier); created_at = now } ∷ [];
          },
        )
        else (ok tt, t))
unfolding assert_not_locked count_where
assert_not_locked_lem lower identifier now n xs s empty f =
    let p = is_recent_failure lower identifier now in
    let none_before : count_where p s.attempts ≡ 0 = rw empty refl in
    let count : count_where p (record_all lower xs s).attempts ≡ n =
      omega (arith, none_before, count-record_all lower identifier now s f) in
    rw (count, record_all-events lower xs s) (ground arith)
