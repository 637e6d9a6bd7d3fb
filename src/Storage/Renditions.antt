-- ===== src/Storage/Renditions.antt =====
-- The variants that the service makes of one object, and their rows.
use nextjs_saas_boilerplate.Common.{
  ◌≡◌, refl, sym, String, true, false, List, [], ◌∷◌, ◌++◌, Option, some, none, any, if◌then◌else◌,
  ◌==◌, has_key, select_where, select_where-eq_nil, select_where-nil, Distinct, All, All-mono,
  All-append, Distinct-append, arith, Bool-cases, Option-cases, inl, inr, eq_iff,
}
use mathlib.Core.Option.{some-injective}
use nextjs_saas_boilerplate.Storage.Store.{StorageFileVariant, is_variant_of}
use nextjs_saas_boilerplate.Storage.Variants.{
  Media, Original, stored, both, with_preview, create_image_variants, create_preview_variant,
  create_managed_variants, is_image, is_document, same_variant, persist_rows,
}

abbrev pub kind_of : StorageFileVariant → String
kind_of variant = variant.kind

abbrev pub IsVariantOf : String → StorageFileVariant → Type 0
IsVariantOf id variant = variant.file_id ≡ id

-- Variants of one file, of one kind each.
pub record AreVariants (id : String) (variants : List StorageFileVariant) : Type 0 where
  pub owned : All (IsVariantOf id) variants
  pub kinds : Distinct kind_of variants

-- No row is the one that a new row would replace.
abbrev IsNew : List StorageFileVariant → StorageFileVariant → Type 0
IsNew rows new = any (same_variant new) rows ≡ false

any-same_variant :
    (new other : StorageFileVariant) (rows : List StorageFileVariant)
    → any (same_variant new) rows ≡ false
    → (other.kind == new.kind) ≡ false
    → any (same_variant new) (rows ++ other ∷ []) ≡ false
any-same_variant new other [] h ne = ground arith
any-same_variant new other (r ∷ rows) h ne = ground (arith, any-same_variant new other rows)

append_assoc :
    (rows : List StorageFileVariant) (new : StorageFileVariant) (more : List StorageFileVariant)
    → (rows ++ new ∷ []) ++ more ≡ rows ++ new ∷ more
append_assoc [] new more = refl
append_assoc (r ∷ rows) new more = rw (append_assoc rows new more)

append-nil : (rows : List StorageFileVariant) → rows ++ [] ≡ rows
append-nil [] = refl
append-nil (r ∷ rows) = rw (append-nil rows)

IsNew-append :
    (rows : List StorageFileVariant) (n : StorageFileVariant) (new : List StorageFileVariant)
    → any (has_key kind_of n.kind) new ≡ false
    → All (IsNew rows) new
    → All (IsNew (rows ++ n ∷ [])) new
IsNew-append rows n [] fresh h = tt
IsNew-append rows n (m ∷ new) fresh (p, h) = (
  any-same_variant m n rows p (ground (arith, eq_iff n.kind m.kind, eq_iff m.kind n.kind)),
  IsNew-append rows n new (ground arith) h,
)

-- Rows of kinds that are not there are added.
persist_rows-new :
    (new rows : List StorageFileVariant)
    → Distinct kind_of new
    → All (IsNew rows) new
    → persist_rows new rows ≡ rows ++ new
unfolding persist_rows
persist_rows-new [] rows d h = rw (append-nil rows)
persist_rows-new (n ∷ new) rows (fresh, d) (p, h) = rw (
  p,
  persist_rows-new new (rows ++ n ∷ []) d (IsNew-append rows n new fresh h),
  append_assoc rows n new,
)

-- A file that has no variants has not the one that a new row would replace.
IsNew-missing :
    (id : String) (rows : List StorageFileVariant) (new : StorageFileVariant)
    → All (λ r. is_variant_of id r ≡ false) rows
    → IsVariantOf id new
    → IsNew rows new
IsNew-missing id [] new h e = refl
IsNew-missing id (r ∷ rows) new (miss, h) e =
    let apart : (r.file_id == new.file_id) ≡ false = rw e miss in
    rw (apart, IsNew-missing id rows new h e)

select_where-append :
    (j : String) (rows more : List StorageFileVariant)
    → select_where (is_variant_of j) (rows ++ more)
      ≡ select_where (is_variant_of j) rows ++ select_where (is_variant_of j) more
unfolding select_where
select_where-append j [] more = refl
select_where-append j (r ∷ rows) more = elim (Bool-cases (r.file_id == j)) [
  | inl hit ↦ rw (hit, select_where-append j rows more)
  | inr miss ↦ rw (miss, select_where-append j rows more)
]

select_where-owned :
    (id : String) (variants : List StorageFileVariant)
    → All (IsVariantOf id) variants
    → select_where (is_variant_of id) variants ≡ variants
unfolding select_where
select_where-owned id [] h = refl
select_where-owned id (v ∷ variants) (e, h) =
    let hit : (v.file_id == id) ≡ true = (eq_iff _ _).1 e in
    rw (hit, select_where-owned id variants h)

select_where-foreign :
    (id j : String) (variants : List StorageFileVariant)
    → All (IsVariantOf id) variants
    → (j == id) ≡ false
    → select_where (is_variant_of j) variants ≡ []
select_where-foreign id j variants h ne = select_where-eq_nil (is_variant_of j) variants (
    All-mono (IsVariantOf id) (λ v. is_variant_of j v ≡ false) variants
      (λ v e. ground (arith, eq_iff v.file_id j, eq_iff j id)) h)

-- The variants of a file that had none.
pub persist_rows_lem :
    (id : String) (new rows : List StorageFileVariant)
    → AreVariants id new
    → select_where (is_variant_of id) rows ≡ []
    → (persist_rows new rows ≡ rows ++ new)
      × (select_where (is_variant_of id) (rows ++ new) ≡ new)
      × ((j : String)
          → (j == id) ≡ false
          → select_where (is_variant_of j) (rows ++ new) ≡ select_where (is_variant_of j) rows)
persist_rows_lem id new rows v e =
    let missing = select_where-nil (is_variant_of id) rows e in
    (
      persist_rows-new new rows v.kinds (
          All-mono (IsVariantOf id) (IsNew rows) new (λ n. IsNew-missing id rows n missing)
            v.owned),
      rw (select_where-append id rows new, e, select_where-owned id new v.owned),
      λ j ne. rw (
        select_where-append j rows new,
        select_where-foreign id j new v.owned ne,
        append-nil (select_where (is_variant_of j) rows),
      ),
    )

stored-eq :
    (media : Media) (variant : StorageFileVariant) {v : StorageFileVariant}
    → stored media variant ≡ some v
    → v ≡ variant
stored-eq media variant {v} e = elim (Bool-cases (media.stores variant.object_key)) [
  | inl kept ↦
      let same : ◌≡◌ {A = Option StorageFileVariant} (some variant) (some v) = rw kept at e in cc
  | inr lost ↦ let same : none ≡ some v = rw lost at e in cc
]

both-eq :
    (media : Media) (a b : Option StorageFileVariant) {images : List StorageFileVariant}
    → both media a b ≡ some images
    → (v w : StorageFileVariant) × (a ≡ some v) × (b ≡ some w) × (images ≡ v ∷ w ∷ [])
both-eq media none b e = cc
both-eq media (some v) none e = cc
both-eq media (some v) (some w) e = (v, w, refl, refl, sym (some-injective _ _ e))

with_preview-eq :
    (media : Media) (a : Option (List StorageFileVariant)) (b : Option StorageFileVariant)
    {variants : List StorageFileVariant}
    → with_preview media a b ≡ some variants
    → (images : List StorageFileVariant) × (v : StorageFileVariant) × (a ≡ some images)
      × (b ≡ some v)
      × (variants ≡ images ++ v ∷ [])
with_preview-eq media none b e = cc
with_preview-eq media (some images) none e = cc
with_preview-eq media (some images) (some v) e = (images, v, refl, refl, sym (some-injective _ _ e))

-- The variants of an image, beside which a preview fits.
abbrev AreImages : String → List StorageFileVariant → Type 0
AreImages id images =
    AreVariants id images × (any (has_key kind_of "document-preview") images ≡ false)

create_image_variants-AreImages :
    (media : Media) (original : Original) {images : List StorageFileVariant}
    → create_image_variants media original ≡ some images
    → AreImages original.file_id images
unfolding create_image_variants
create_image_variants-AreImages media original {images} e =
    elim (Option-cases (media.renditions original.blob)) [
      | inl thrown ↦ let nothing : none ≡ some images = rw thrown at e in cc
      | inr ((optimized, thumbnail), made) ↦
          let (v, w, kept_v, kept_w, same) = both-eq media _ _ (rw made at e) in
          rw (same, stored-eq media _ kept_v, stored-eq media _ kept_w)
            (record { owned = (refl, (refl, tt)); kinds = (refl, (refl, tt)) }, refl)
    ]

some_nil-AreImages :
    (id : String) {images : List StorageFileVariant} → some [] ≡ some images → AreImages id images
some_nil-AreImages id e = rw (sym (some-injective _ _ e)) (record { owned = tt; kinds = tt }, refl)

preview-AreVariants :
    (media : Media) (original : Original) (images : Option (List StorageFileVariant))
    {variants : List StorageFileVariant}
    → ((some_images : List StorageFileVariant)
        → images ≡ some some_images
        → AreImages original.file_id some_images)
    → (if is_document original.content_type
        then with_preview media images (create_preview_variant media original)
        else images)
      ≡ some variants
    → AreVariants original.file_id variants
unfolding create_preview_variant
preview-AreVariants media original images {variants} h e =
    elim (Bool-cases (is_document original.content_type)) [
      | inr other ↦ (h _ (rw other at e)).0
      | inl document ↦
          let (some_images, v, made, kept, same) =
            with_preview-eq media images _ (rw document at e) in
          let (are, free) = h some_images made in
          rw (same, stored-eq media _ kept)
            (record {
              owned = All-append (IsVariantOf original.file_id) some_images _ are.owned (refl, tt);
              kinds = Distinct-append kind_of some_images _ free are.kinds;
            })
    ]

-- The variants that the service makes are those of the file, and of different kinds.
pub create_managed_variants-AreVariants :
    (media : Media) (original : Original) {variants : List StorageFileVariant}
    → create_managed_variants media original ≡ some variants
    → AreVariants original.file_id variants
unfolding create_managed_variants create_preview_variant
create_managed_variants-AreVariants media original {variants} e =
    elim (Bool-cases (is_image original.content_type)) [
      | inl image ↦
          preview-AreVariants media original (create_image_variants media original)
            (λ images. create_image_variants-AreImages media original) (rw image at e)
      | inr other ↦
          preview-AreVariants media original (some [])
            (λ images. some_nil-AreImages original.file_id) (rw other at e)
    ]
