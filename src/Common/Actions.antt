-- ===== src/Common/Actions.antt =====
-- A call over a store that may throw. What was written before an error stays: the calls that use
-- this type send their statements one by one, outside a transaction.
use mathlib.Core.Path.{◌≡◌, refl, sym, subst}
use mathlib.Core.Bool.{Bool, true, false}
use mathlib.Core.Option.{Option, none, some}
use native.Mathlib.Omega.{arith}
use nextjs_saas_boilerplate.Common.Results.{Result, ok, err}

abbrev pub Action : Type 0 → Type 0 → Type 0 → Type 0
Action S E A = S → Result E A × S

module _ {S E : Type 0} where
  -- What follows a call: the rest, or nothing after an error.
  abbrev pub continue : {A B : Type 0} → (A → Action S E B) → Result E A × S → Result E B × S
  continue f (ok a, s) = f a s
  continue f (err e, s) = (err e, s)

  infixl 5 ◌>>=◌ ◌>>◌
  abbrev pub ◌>>=◌ : {A B : Type 0} → Action S E A → (A → Action S E B) → Action S E B
  ◌>>=◌ m f s = continue f (m s)

  abbrev pub ◌>>◌ : {A B : Type 0} → Action S E A → Action S E B → Action S E B
  m >> k = m >>= λ _. k

  abbrev pub pure : {A : Type 0} → A → Action S E A
  pure a s = (ok a, s)

  abbrev pub throw : {A : Type 0} → E → Action S E A
  throw e s = (err e, s)

  abbrev pub get : Action S E S
  get s = (ok s, s)

  abbrev pub modify : (S → S) → Action S E (Unit {0})
  modify f s = (ok tt, f s)

  -- `if (!test) throw e`
  abbrev pub require : Bool → E → Action S E (Unit {0})
  require true e s = (ok tt, s)
  require false e s = (err e, s)

  -- `if (!row) throw e`
  abbrev pub require_some : {A : Type 0} → Option A → E → Action S E A
  require_some none e s = (err e, s)
  require_some (some a) e s = (ok a, s)

  -- `try { … } catch (e) { handle(e); throw e; }`: an error of `handle` takes the place of `e`.
  abbrev pub rethrow : E → Result E (Unit {0}) × S → Result E (Unit {0}) × S
  rethrow e (ok done, s) = (err e, s)
  rethrow e (err f, s) = (err f, s)

  abbrev pub recover :
      (E → Action S E (Unit {0})) → Result E (Unit {0}) × S → Result E (Unit {0}) × S
  recover handle (ok a, s) = (ok a, s)
  recover handle (err e, s) = rethrow e (handle e s)

  abbrev pub attempt : Action S E (Unit {0}) → (E → Action S E (Unit {0})) → Action S E (Unit {0})
  attempt m handle s = recover handle (m s)

  pub rethrow-store : (e : E) (r : Result E (Unit {0}) × S) → (rethrow e r).1 ≡ r.1
  rethrow-store e (ok done, s) = refl
  rethrow-store e (err f, s) = refl

  -- A transaction: an error undoes what the callback wrote.
  abbrev pub undo : {A : Type 0} → S → Result E A × S → Result E A × S
  undo s (ok a, t) = (ok a, t)
  undo s (err e, t) = (err e, s)

  abbrev pub transaction : {A : Type 0} → Action S E A → Action S E A
  transaction callback s = undo s (callback s)

  -- A call that returned ran both of its parts.
  pub continue-ok :
      {A B : Type 0} (f : A → Action S E B) (r : Result E A × S) {b : B} {t : S}
      → continue f r ≡ (ok b, t)
      → (a : A) × (u : S) × (r ≡ (ok a, u)) × (f a u ≡ (ok b, t))
  continue-ok f (ok a, s) e = (a, s, refl, e)
  continue-ok f (err x, s) e = ground arith

  -- What a last `return` does to the store.
  pub continue-pure :
      {A B : Type 0} (f : A → B) (r : Result E A × S) → (continue (λ a. pure (f a)) r).1 ≡ r.1
  continue-pure f (ok a, s) = refl
  continue-pure f (err e, s) = refl

  -- What a last read does to the store.
  pub continue-get :
      {A B : Type 0} (f : S → B) (r : Result E A × S)
      → (continue (λ a. get >>= λ t. pure (f t)) r).1 ≡ r.1
  continue-get f (ok a, s) = refl
  continue-get f (err e, s) = refl

-- A postcondition: `Q` of the store after a call that returned, and `Safe` of it after an error.
module _ {S E : Type 0} where
  abbrev pub Outcome : {A : Type 0} → (Safe Q : S → Type 0) → Result E A × S → Type 0
  Outcome Safe Q (ok a, s) = Q s
  Outcome Safe Q (err e, s) = Safe s

  Outcome-continue :
      {A B : Type 0} (Safe Q R : S → Type 0) (f : A → Action S E B) (r : Result E A × S)
      → ((a : A) (s : S) → Q s → Outcome Safe R (f a s))
      → Outcome Safe Q r
      → Outcome Safe R (continue f r)
  Outcome-continue Safe Q R f (ok a, s) h q = h a s q
  Outcome-continue Safe Q R f (err e, s) h q = q

  Outcome-unchanged :
      {A : Type 0} (Safe : S → Type 0) (s : S) (r : Result E A × S)
      → r.1 ≡ s
      → Safe s
      → Outcome Safe Safe r
  Outcome-unchanged Safe s (ok a, t) same h = subst Safe (sym same) h
  Outcome-unchanged Safe s (err e, t) same h = subst Safe (sym same) h

  Outcome-after :
      {A : Type 0} (Safe : S → Type 0) (r : Result E A × S) → Outcome Safe Safe r → Safe r.1
  Outcome-after Safe (ok a, s) h = h
  Outcome-after Safe (err e, s) h = h

-- From `P`, the call ends in `Q`, or throws in `Safe`.
pub record Triple {S E : Type 0} {A : Type 0} (Safe P : S → Type 0) (m : Action S E A)
    (Q : S → Type 0) : Type 0 where
  pub run : (s : S) → P s → Outcome Safe Q (m s)

module _ {S E : Type 0} {Safe : S → Type 0} where
  pub Triple-bind :
      {A B : Type 0} {P Q R : S → Type 0} {m : Action S E A} {f : A → Action S E B}
      → Triple Safe P m Q
      → ((a : A) → Triple Safe Q (f a) R)
      → Triple Safe P (m >>= f) R
  Triple-bind {Q} {R} {m} {f} h k = record {
    run = λ s p. Outcome-continue Safe Q R f (m s) (λ a. (k a).run) (h.run s p);
  }

  -- A call that only reads.
  pub Triple-reads :
      {A : Type 0} (m : Action S E A) → ((s : S) → (m s).1 ≡ s) → Triple Safe Safe m Safe
  Triple-reads m reads = record { run = λ s h. Outcome-unchanged Safe s (m s) (reads s) h }

  -- Where the postcondition is `Safe`, it holds after an error too.
  pub Triple-after :
      {A : Type 0} {P : S → Type 0} {m : Action S E A}
      → Triple Safe P m Safe
      → (s : S) → P s
      → Safe (m s).1
  Triple-after {m} h s p = Outcome-after Safe (m s) (h.run s p)
