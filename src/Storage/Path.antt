-- ===== src/Storage/Path.antt =====
-- Object keys: packages/storage/src/path.ts. A text is its code points; the results here are ASCII,
-- where these are JavaScript's units.
use nextjs_saas_boilerplate.Common.{
  ℕ, zero, suc, leb, nat_eq, String, Bool, true, false, not, ◌&&◌, ◌||◌, Option, none, some,
  if◌then◌else◌, ◌==◌, any, Result, guard,
}
use Prim.Native.Char.{Char, code}
use Prim.Native.String
use Prim.Native.String.{[], ◌∷◌}
use mathlib.Core.List.{List}
use nextjs_saas_boilerplate.Common.Strings.{trim, is_present, has_prefix, has_suffix}
use nextjs_saas_boilerplate.Storage.Store.{StorageError, unsafe_key}

-- `[a-zA-Z0-9._-]`
abbrev pub is_plain : ℕ → Bool
is_plain c =
    (leb 97 c && leb c 122)
    || (leb 65 c && leb c 90)
    || (leb 48 c && leb c 57)
    || nat_eq c 46
    || nat_eq c 95
    || nat_eq c 45

abbrev pub is_char : ℕ → Char → Bool
is_char n c = nat_eq (code c) n

-- `.replaceAll("\\", "/").split("/")`: the pieces between slashes of either kind.
abbrev pub push_char : Char → List String → List String
push_char c List.[] = List.◌∷◌ (c ∷ []) List.[]
push_char c (List.◌∷◌ piece pieces) = List.◌∷◌ (c ∷ piece) pieces

unfoldable pub split_on : (Char → Bool) → String → List String
split_on p [] = List.◌∷◌ [] List.[]
split_on p (c ∷ s) =
    let pieces = split_on p s in if p c then List.◌∷◌ [] pieces else push_char c pieces

abbrev pub is_slash : Char → Bool
is_slash c = is_char 47 c || is_char 92 c

-- `.filter(Boolean).join("-")`; `joined` says whether a piece stands before.
unfoldable pub join_present : Bool → List String → String
join_present joined List.[] = []
join_present joined (List.◌∷◌ piece pieces) =
    if is_present piece
    then String.◌++◌ (if joined then "-" else "") (String.◌++◌ piece (join_present true pieces))
    else join_present joined pieces

-- `.replace(/[^a-zA-Z0-9._-]/g, "-").replace(/-+/g, "-")`; `dashed` says whether a dash stands before.
unfoldable pub clean : Bool → String → String
clean dashed [] = []
clean dashed (c ∷ s) =
    let plain = is_plain (code c) && not (is_char 45 c) in
    let rest = clean (not plain) s in
    if plain then c ∷ rest else if dashed then rest else String.◌++◌ "-" rest

-- `[-.]`
abbrev pub is_trimmed : Char → Bool
is_trimmed c = is_char 45 c || is_char 46 c

unfoldable pub strip_start : String → String
strip_start [] = []
strip_start (c ∷ s) = if is_trimmed c then strip_start s else c ∷ s

unfoldable pub is_all_trimmed : String → Bool
is_all_trimmed [] = true
is_all_trimmed (c ∷ s) = is_trimmed c && is_all_trimmed s

unfoldable pub strip_end : String → String
unfolding is_all_trimmed
strip_end [] = []
strip_end (c ∷ s) = if is_all_trimmed (c ∷ s) then [] else c ∷ strip_end s

-- `.slice(0, n)`
unfoldable pub slice : ℕ → String → String
slice zero s = []
slice (suc n) [] = []
slice (suc n) (c ∷ s) = c ∷ slice n s

unfoldable pub sanitize_segment : String → String
unfolding split_on join_present clean strip_start strip_end slice trim
sanitize_segment segment =
    slice 120 (
      strip_end (strip_start (clean false (join_present false (split_on is_slash (trim segment))))))

-- `lower` is JavaScript's `toLowerCase`, and `extname` that of Node's path module.
module _ (lower extname : String → String) where
  abbrev pub drop_dot : String → String
  drop_dot [] = []
  drop_dot (c ∷ s) = if is_char 46 c then s else c ∷ s

  unfoldable pub normalize_extension : String → String
  normalize_extension file_name = drop_dot (lower (extname file_name))

  -- `owner` is `input.ownerId`; an empty one is none.
  abbrev pub owner_segment : Option String → String
  owner_segment none = "system"
  owner_segment (some owner_id) =
      if is_present owner_id then String.◌++◌ "users/" (sanitize_segment owner_id) else "system"

  abbrev pub file_segment : String → String → String
  file_segment file_id file_name =
      if is_present (sanitize_segment file_name) then sanitize_segment file_name else file_id

  abbrev pub suffix : String → String → String
  suffix segment extension =
      if is_present extension && not (has_suffix (String.◌++◌ "." extension) segment)
      then String.◌++◌ "." extension
      else ""

  unfoldable pub build_tenant_object_key : String → String → Option String → String → String
  unfolding normalize_extension sanitize_segment has_suffix
  build_tenant_object_key file_id file_name owner_id tenant_id = String.◌++◌ "tenants/" (
      String.◌++◌ (sanitize_segment tenant_id) (
        String.◌++◌ "/" (
          String.◌++◌ (owner_segment owner_id) (
            String.◌++◌ "/" (
              String.◌++◌ file_id (
                String.◌++◌ "/" (
                  String.◌++◌ (file_segment file_id file_name)
                    (suffix (file_segment file_id file_name) (normalize_extension file_name)))))))))

-- `key.includes("..")`
unfoldable pub has_dots : String → Bool
has_dots [] = false
has_dots (c ∷ s) = (is_char 46 c && has_prefix "." s) || has_dots s

unfoldable pub has_backslash : String → Bool
has_backslash [] = false
has_backslash (c ∷ s) = is_char 92 c || has_backslash s

unfoldable pub is_safe_key : String → Bool
unfolding has_dots has_backslash has_prefix split_on
is_safe_key key = not (
    has_prefix "/" key
    || has_dots key
    || has_backslash key
    || any (λ segment. not (is_present segment) || segment == ".") (split_on (is_char 47) key))

unfoldable pub assert_safe_object_key : String → Result StorageError (Unit {0})
assert_safe_object_key key = guard (is_safe_key key) unsafe_key

abbrev pub has_slash : String → Bool
has_slash [] = false
has_slash (c ∷ s) = is_char 47 c || has_slash s

-- `.split("/").slice(0, -1).join("/")`
unfoldable pub parent_key : String → String
parent_key [] = []
parent_key (c ∷ s) = if has_slash s then c ∷ parent_key s else []

unfoldable pub variant_object_key : String → String → String → String → String
unfolding parent_key sanitize_segment
variant_object_key extension file_id kind original_key = String.◌++◌ (parent_key original_key) (
    String.◌++◌ "/" (
      String.◌++◌ file_id (
        String.◌++◌ "-" (
          String.◌++◌
            (if is_present (sanitize_segment kind) then sanitize_segment kind else "variant")
            (String.◌++◌ "." extension)))))
