-- ===== src/Common/Texts.antt =====
-- Prefixes and suffixes of texts, as concatenations.
use Prim.Native.Char.{Char, code}
use Prim.Native.String.{String, [], ◌∷◌, ◌++◌}
use text.Mathlib.TextEquality.{Char-path}
use text.Mathlib.TextLemmas.{nil-append, cons-append, cons≢nil}
use nextjs_saas_boilerplate.Common.{
  ◌≡◌, refl, sym, ap, ◌∙◌, true, false, arith, Bool-cases, inl, inr, eq_iff, eq_refl, and-eq_true,
  ◌==◌, nat_eq,
}
use nextjs_saas_boilerplate.Common.Strings.{has_prefix, has_suffix, drop_last}

same_char : (c d : Char) → nat_eq (code c) (code d) ≡ true → c ≡ d
same_char c d h = Char-path c d (ground arith)

char_same : (c : Char) → nat_eq (code c) (code c) ≡ true
char_same c = ground arith

pub has_prefix-split : (p s : String) → has_prefix p s ≡ true → (rest : String) × (s ≡ p ++ rest)
unfolding has_prefix
has_prefix-split [] s h = (s, sym (nil-append s))
has_prefix-split (c ∷ p) [] h = cc
has_prefix-split (c ∷ p) (d ∷ s) h =
    let (here, later) = and-eq_true _ _ h in
    let (rest, e) = has_prefix-split p s later in
    (
      rest,
      ap (λ a. a ∷ s) (sym (same_char c d here)) ∙ ap (λ t. c ∷ t) e ∙ sym (cons-append c p rest),
    )

pub has_prefix-append : (p rest : String) → has_prefix p (p ++ rest) ≡ true
unfolding has_prefix
has_prefix-append [] rest = refl
has_prefix-append (c ∷ p) rest =
    rw (cons-append c p rest, char_same c, has_prefix-append p rest) refl

pub has_suffix-split :
    (suffix s : String) → has_suffix suffix s ≡ true → (p : String) × (s ≡ p ++ suffix)
unfolding has_suffix
has_suffix-split suffix [] h = ([], (eq_iff [] suffix).0 h ∙ sym (nil-append suffix))
has_suffix-split suffix (c ∷ s) h =
    let split : (((c ∷ s) == suffix) ≡ true) → (p : String) × ((c ∷ s) ≡ p ++ suffix) =
      λ whole. ([], (eq_iff (c ∷ s) suffix).0 whole ∙ sym (nil-append suffix)) in
    let later : (has_suffix suffix s ≡ true) → (p : String) × ((c ∷ s) ≡ p ++ suffix) = λ part.
      let (p, e) = has_suffix-split suffix s part in
      (c ∷ p, ap (λ t. c ∷ t) e ∙ sym (cons-append c p suffix)) in
    elim (Bool-cases ((c ∷ s) == suffix)) [
      | inl whole ↦ split whole
      | inr other ↦ later (rw other at h)
    ]

pub has_suffix-append : (p suffix : String) → has_suffix suffix (p ++ suffix) ≡ true
unfolding has_suffix
has_suffix-append [] [] = refl
has_suffix-append [] (c ∷ suffix) =
    let whole = eq_refl (c ∷ suffix) in rw (nil-append (c ∷ suffix)) (ground (arith, whole))
has_suffix-append (c ∷ p) suffix =
    rw (cons-append c p suffix) (ground (arith, has_suffix-append p suffix))

not_empty : (c : Char) (s : String) → ((c ∷ s) == []) ≡ false
not_empty c s = elim (Bool-cases ((c ∷ s) == [])) [
  | inl empty ↦ absurd (cons≢nil ((eq_iff (c ∷ s) []).0 empty))
  | inr other ↦ other
]

drop_last-cons : (a b : Char) (s : String) → drop_last (a ∷ b ∷ s) ≡ a ∷ drop_last (b ∷ s)
unfolding drop_last
drop_last-cons a b s = let e = not_empty b s in ground (arith, e)

drop_last-two : (c d : Char) → drop_last (c ∷ d ∷ []) ≡ c ∷ []
unfolding drop_last
drop_last-two c d = let e = not_empty d [] in ground (arith, e)

pub drop_last-append : (p : String) (c d : Char) → drop_last (p ++ (c ∷ d ∷ [])) ≡ p ++ (c ∷ [])
drop_last-append [] c d = rw (nil-append (c ∷ d ∷ []), nil-append (c ∷ [])) (drop_last-two c d)
drop_last-append (a ∷ []) c d =
    rw
      (
        cons-append a [] (c ∷ d ∷ []),
        cons-append a [] (c ∷ []),
        nil-append (c ∷ d ∷ []),
        nil-append (c ∷ []),
      )
      (drop_last-cons a c (d ∷ []) ∙ ap (λ t. a ∷ t) (drop_last-two c d))
drop_last-append (a ∷ b ∷ p) c d =
    let rest : drop_last (b ∷ (p ++ (c ∷ d ∷ []))) ≡ (b ∷ p) ++ (c ∷ []) =
      rw (← cons-append b p (c ∷ d ∷ [])) (drop_last-append (b ∷ p) c d) in
    rw
      (
        cons-append a (b ∷ p) (c ∷ d ∷ []),
        cons-append a (b ∷ p) (c ∷ []),
        cons-append b p (c ∷ d ∷ []),
      )
      (drop_last-cons a b (p ++ (c ∷ d ∷ [])) ∙ ap (λ t. a ∷ t) rest)
