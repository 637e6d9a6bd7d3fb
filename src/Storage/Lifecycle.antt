-- ===== src/Storage/Lifecycle.antt =====
-- The changes of a file's status, and what the changes of the table are among them.
use nextjs_saas_boilerplate.Common.{
  ◌≡◌, ◌⊎◌, refl, sym, subst, find_where-hit, String, Bool, true, false, List, [], ◌∷◌, ◌++◌,
  Option, some, none, any, if◌then◌else◌, ◌==◌, find_where, select_where, find_where-append,
  update_where, has_key, Distinct, arith, Bool-cases, Option-cases, inl, inr, eq_iff, without,
  find_where-without,
}
use mathlib.Core.Option
use nextjs_saas_boilerplate.Storage.Store.{
  StorageFile, StorageFileStatus, available, deleted, abandoned, is_file, file_key,
}
use nextjs_saas_boilerplate.Storage.Charges.{is_row, any-is_row}
use nextjs_saas_boilerplate.Storage.Balance.{IsSettling, find_file-update_where}

-- A change of a file's status, of the file with an id; there is no status before its row is inserted
-- and after its removal.
abbrev pub Change : Type 1
Change = String → Option StorageFileStatus → Option StorageFileStatus → Type 0

-- An insertion of the row of one file.
abbrev pub Places : StorageFileStatus → String → Change
Places status file_id id before after = (id ≡ file_id) × (before ≡ none) × (after ≡ some status)

-- The completion of the upload of one file, or its failure.
abbrev pub Completes : String → Change
Completes file_id id before after =
    (id ≡ file_id)
    × (before ≡ some StorageFileStatus.pending)
    × ((after ≡ some available) ⊎ (after ≡ some abandoned))

-- The deletion of one file.
abbrev pub Erases : String → Change
Erases file_id id before after = (id ≡ file_id) × (before ≡ some available) × (after ≡ some deleted)

abbrev pub GivesUp : Change
GivesUp id before after = (before ≡ some StorageFileStatus.pending) × (after ≡ some abandoned)

abbrev pub Removes : Change
Removes id before after = (before ≡ some deleted) × (after ≡ none)

abbrev pub Never : Change
Never id before after = ⊥

-- No change, or one.
abbrev pub Moves : Change → Change
Moves Step id before after = (before ≡ after) ⊎ Step id before after

-- Two changes that cannot follow each other.
abbrev pub IsSingle : Change → Type 0
IsSingle Step = (id : String) (o p q : Option StorageFileStatus) → Step id o p → Step id p q → ⊥

pub Completes-IsSingle : (file_id : String) → IsSingle (Completes file_id)
Completes-IsSingle file_id id o p q (e, before, inl after) (f, later, k) = cc
Completes-IsSingle file_id id o p q (e, before, inr after) (f, later, k) = cc

pub GivesUp-IsSingle : IsSingle GivesUp
GivesUp-IsSingle id o p q (before, after) (later, k) = cc

pub Removes-IsSingle : IsSingle Removes
Removes-IsSingle id o p q (before, after) (later, k) = cc

abbrev pub status_of : String → List StorageFile → Option StorageFileStatus
status_of id files =
    Option.map (λ (file : StorageFile). file.status) (find_where (is_file id) files)

-- From one table to another every file makes at most one change, of a given kind.
abbrev pub Follows : Change → (files more : List StorageFile) → Type 0
Follows Step files more = (id : String) → Moves Step id (status_of id files) (status_of id more)

pub Follows-refl : (Step : Change) (files : List StorageFile) → Follows Step files files
Follows-refl Step files id = inl refl

Moves-trans :
    (Step : Change)
    → IsSingle Step
    → (id : String) (o p q : Option StorageFileStatus) → Moves Step id o p
    → Moves Step id p q
    → Moves Step id o q
Moves-trans Step single id o p q (inl e) m = subst (λ x. Moves Step id x q) (sym e) m
Moves-trans Step single id o p q (inr step) (inl e) = inr (subst (Step id o) e step)
Moves-trans Step single id o p q (inr step) (inr next) = absurd (single id o p q step next)

pub Follows-trans :
    (Step : Change)
    → IsSingle Step
    → (files more rest : List StorageFile) → Follows Step files more
    → Follows Step more rest
    → Follows Step files rest
Follows-trans Step single files more rest f g id =
    Moves-trans Step single id (status_of id files) (status_of id more) (status_of id rest) (f id)
      (g id)

-- An update that settles files, each by one change.
pub Follows-update_where :
    (Step : Change) (p : StorageFile → Bool) (g : StorageFile → StorageFile)
    → IsSettling g
    → ((r : StorageFile) → p r ≡ true → Step r.id (some r.status) (some (g r).status))
    → (files : List StorageFile) → Follows Step files (update_where p g files)
Follows-update_where Step p g settling steps files id =
    rw (find_file-update_where p g settling id files)
      (elim (Option-cases (find_where (is_file id) files)) [
        | inl missing ↦ rw missing (inl refl)
        | inr (r, found) ↦ elim (Bool-cases (p r)) [
          | inl hit ↦
              let same : r.id ≡ id = (eq_iff _ _).0 (find_where-hit (is_file id) files found) in
              rw (found, hit)
                (inr (subst (λ i. Step i (some r.status) (some (g r).status)) same (steps r hit)))
          | inr miss ↦ rw (found, miss) (inl refl)
        ]
      ])

find_where-last :
    (p : StorageFile → Bool) (files : List StorageFile) (file : StorageFile)
    → find_where p files ≡ none
    → find_where p (files ++ file ∷ []) ≡ (if p file then some file else none)
unfolding find_where
find_where-last p [] file e = refl
find_where-last p (r ∷ files) file e = elim (Bool-cases (p r)) [
  | inl hit ↦ let found : some r ≡ none = rw hit at e in cc
  | inr miss ↦ rw miss (find_where-last p files file (rw miss at e))
]

-- An insertion.
pub Follows-append :
    (Step : Change) (files : List StorageFile) (file : StorageFile)
    → Step file.id none (some file.status)
    → Follows Step files (files ++ file ∷ [])
Follows-append Step files file step id = elim (Option-cases (find_where (is_file id) files)) [
  | inr (r, e) ↦ rw (find_where-append (is_file id) files (file ∷ []) e, e) (inl refl)
  | inl e ↦ elim (Bool-cases (file.id == id)) [
    | inl hit ↦
        rw (find_where-last (is_file id) files file e, e, hit)
          (inr (subst (λ i. Step i none (some file.status)) ((eq_iff _ _).0 hit) step))
    | inr miss ↦ rw (find_where-last (is_file id) files file e, e, miss) (inl refl)
  ]
]

find_where-gone :
    (id : String) (files : List StorageFile)
    → find_where (is_file id) (without file_key id files) ≡ none
unfolding find_where select_where
find_where-gone id [] = refl
find_where-gone id (r ∷ files) = ground (arith, find_where-gone id files)

-- The row with an id, where one passes a test.
row-found :
    (id : String) (c : StorageFile → Bool) (files : List StorageFile)
    → Distinct file_key files
    → any (is_row id c) files ≡ true
    → (file : StorageFile) × (find_where (is_file id) files ≡ some file) × (c file ≡ true)
unfolding find_where
row-found id c [] d h = cc
row-found id c (r ∷ files) (fresh, d) h = elim (Bool-cases (r.id == id)) [
  | inr miss ↦ rw miss (row-found id c files d (rw miss at h))
  | inl hit ↦ elim (Bool-cases (c r)) [
    | inl here ↦ (r, rw hit, here)
    | inr barred ↦
        let gone : any (has_key file_key id) files ≡ false = rw (← (eq_iff _ _).0 hit) fresh in
        let later : any (is_row id c) files ≡ true = rw (hit, barred) at h in
        let never = any-is_row id c files gone in cc
  ]
]

-- A removal.
pub Follows-without :
    (Step : Change) (id : String) (c : StorageFile → Bool) (files : List StorageFile)
    → ((r : StorageFile) → c r ≡ true → Step id (some r.status) none)
    → Distinct file_key files
    → any (is_row id c) files ≡ true
    → Follows Step files (without file_key id files)
Follows-without Step id c files steps d h j = elim (Bool-cases (j == id)) [
  | inr other ↦ rw (find_where-without file_key id j files other) (inl refl)
  | inl hit ↦
      let (file, e, here) = row-found id c files d h in
      rw ((eq_iff _ _).0 hit, find_where-gone id files, e) (inr (steps file here))
]
