-- ===== src/Storage/Variants.antt =====
-- The variants of an upload: `createImageVariants` of packages/storage/src/media.ts, and
-- `createPreviewVariant`, `createManagedVariants` and `persistVariants` of service.ts.
use nextjs_saas_boilerplate.Common.{
  ℕ, String, Bool, ◌&&◌, ◌||◌, List, [], ◌∷◌, ◌++◌, Option, none, some, if◌then◌else◌, ◌==◌, any,
  update_where,
}
use nextjs_saas_boilerplate.Common.Actions.{modify}
use nextjs_saas_boilerplate.Common.Strings.{has_prefix}
use nextjs_saas_boilerplate.Storage.Store.{StorageFileVariant, Call}
use nextjs_saas_boilerplate.Storage.Path.{variant_object_key}
use nextjs_saas_boilerplate.Storage.Validation.{Blob}

-- The libraries that make the variants, and the adapter that takes them.
pub record Media : Type 0 where
  -- the two buffers that sharp makes of an image; none where it throws
  pub renditions : Blob → Option (Blob × Blob)
  -- the length of the text of `createDocumentPreview`
  pub preview_length : String → String → Blob → ℕ
  -- whether `putObject` stores an object, by its key
  pub stores : String → Bool

abbrev pub is_image : String → Bool
is_image content_type = has_prefix "image/" content_type

abbrev pub is_document : String → Bool
is_document content_type =
    content_type == "application/pdf"
    || content_type == "application/json"
    || content_type == "text/plain"
    || content_type == "text/csv"

-- What is known of the object that the variants are made of.
pub record Original : Type 0 where
  pub content_type : String
  pub blob : Blob
  pub file_id : String
  pub file_name : String
  pub object_key : String

abbrev pub variant_of : Original → String → String → String → ℕ → StorageFileVariant
variant_of original extension kind content_type byte_size = record {
  file_id = original.file_id;
  kind = kind;
  object_key = variant_object_key extension original.file_id kind original.object_key;
  content_type = content_type;
  byte_size = byte_size;
}

module _ (media : Media) where
  -- The variant, once the adapter has it.
  abbrev pub stored : StorageFileVariant → Option StorageFileVariant
  stored variant = if media.stores variant.object_key then some variant else none

  abbrev pub both :
      Option StorageFileVariant → Option StorageFileVariant → Option (List StorageFileVariant)
  both (some a) (some b) = some (a ∷ b ∷ [])
  both _ _ = none

  abbrev pub image_variants_of : Original → Option (Blob × Blob) → Option (List StorageFileVariant)
  image_variants_of original none = none
  image_variants_of original (some (optimized, thumbnail)) =
      both (stored (variant_of original "webp" "optimized" "image/webp" optimized.byte_length))
        (stored (variant_of original "webp" "thumbnail" "image/webp" thumbnail.byte_length))

  unfoldable pub create_image_variants : Original → Option (List StorageFileVariant)
  create_image_variants original = image_variants_of original (media.renditions original.blob)

  unfoldable pub create_preview_variant : Original → Option StorageFileVariant
  create_preview_variant original = stored (
      variant_of original "txt" "document-preview" "text/plain"
        (media.preview_length original.content_type original.file_name original.blob))

  abbrev pub with_preview :
      Option (List StorageFileVariant)
      → Option StorageFileVariant
      → Option (List StorageFileVariant)
  with_preview (some variants) (some preview) = some (variants ++ preview ∷ [])
  with_preview _ _ = none

  -- No list where a step throws: what it stored before is deleted again.
  unfoldable pub create_managed_variants : Original → Option (List StorageFileVariant)
  unfolding create_image_variants create_preview_variant
  create_managed_variants original =
      let images =
        if is_image original.content_type then create_image_variants original else some [] in
      if is_document original.content_type
      then with_preview images (create_preview_variant original)
      else images

abbrev pub same_variant : StorageFileVariant → StorageFileVariant → Bool
same_variant new row = row.file_id == new.file_id && row.kind == new.kind

-- The SET list after `ON CONFLICT (file_id, kind) DO UPDATE`.
abbrev pub replace_variant : StorageFileVariant → StorageFileVariant → StorageFileVariant
replace_variant new row = record row {
  object_key = new.object_key;
  content_type = new.content_type;
  byte_size = new.byte_size;
}

abbrev pub upsert_variant : StorageFileVariant → List StorageFileVariant → List StorageFileVariant
upsert_variant new rows =
    if any (same_variant new) rows
    then update_where (same_variant new) (replace_variant new) rows
    else rows ++ new ∷ []

unfoldable pub persist_rows :
    List StorageFileVariant → List StorageFileVariant → List StorageFileVariant
persist_rows [] rows = rows
persist_rows (new ∷ more) rows = persist_rows more (upsert_variant new rows)

unfoldable pub persist_variants : List StorageFileVariant → Call (Unit {0})
unfolding persist_rows
persist_variants variants = modify (λ s. record s { variants = persist_rows variants s.variants })
