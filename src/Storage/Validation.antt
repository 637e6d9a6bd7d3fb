-- ===== src/Storage/Validation.antt =====
-- `validateStorageObject` of packages/storage/src/validation.ts.
use nextjs_saas_boilerplate.Common.{
  ℕ, leb, nat_eq, String, Bool, true, ◌&&◌, ◌||◌, List, Option, none, some, ◌==◌, if◌then◌else◌,
  Result, ok, guard, ◌>>◌,
}
use Prim.Native.Char.{code}
use nextjs_saas_boilerplate.Common.Strings.{includes, is_present, units}
use nextjs_saas_boilerplate.Storage.Store.{
  StorageError, file_size, file_too_large, extension_not_allowed, mime_not_allowed, size_mismatch,
  invalid_checksum, checksum_mismatch,
}
use nextjs_saas_boilerplate.Storage.Path.{normalize_extension}

pub record StorageValidationRules : Type 0 where
  pub allowed_extensions : List String
  pub allowed_mime_types : List String
  pub max_bytes : ℕ

-- Bytes: their number and `sha256Hex` of them.
pub record Blob : Type 0 where
  pub byte_length : ℕ
  pub sha256 : String

pub record ObjectInput : Type 0 where
  pub byte_size : ℕ
  pub checksum_sha256 : Option String
  pub content_type : String
  pub uploaded : Option Blob
  pub file_name : String

pub record Normalized : Type 0 where
  pub content_type : String
  pub extension : String

-- `[a-f0-9]` with the flag i
abbrev pub is_hex : ℕ → Bool
is_hex c = (leb 48 c && leb c 57) || (leb 97 c && leb c 102) || (leb 65 c && leb c 70)

unfoldable pub all_hex : String → Bool
all_hex String.[] = true
all_hex (String.◌∷◌ c s) = is_hex (code c) && all_hex s

unfoldable pub is_digest : String → Bool
unfolding all_hex units
is_digest s = nat_eq (units s) 64 && all_hex s

-- `if (a && b && test)`, over a text that may be absent or empty.
abbrev pub present_or : Bool → (String → Bool) → Option String → Bool
present_or otherwise test none = otherwise
present_or otherwise test (some s) = if is_present s then test s else otherwise

module _ (lower extname : String → String) (rules : StorageValidationRules) where
  abbrev pub size_agrees : Option Blob → ℕ → Bool
  size_agrees none byte_size = true
  size_agrees (some blob) byte_size = nat_eq blob.byte_length byte_size

  abbrev pub checksum_agrees : Option Blob → String → Bool
  checksum_agrees none checksum = true
  checksum_agrees (some blob) checksum = lower blob.sha256 == lower checksum

  unfoldable pub validate_storage_object : ObjectInput → Result StorageError Normalized
  unfolding includes is_digest normalize_extension
  validate_storage_object input = do
    let extension = normalize_extension lower extname input.file_name
    let content_type = lower input.content_type
    guard (leb 1 input.byte_size) file_size
    guard (leb input.byte_size rules.max_bytes) file_too_large
    guard (includes rules.allowed_extensions extension) extension_not_allowed
    guard (includes rules.allowed_mime_types content_type) mime_not_allowed
    guard (size_agrees input.uploaded input.byte_size) size_mismatch
    guard (present_or true is_digest input.checksum_sha256) invalid_checksum
    guard (present_or true (checksum_agrees input.uploaded) input.checksum_sha256) checksum_mismatch
    ok (record { content_type = content_type; extension = extension })
