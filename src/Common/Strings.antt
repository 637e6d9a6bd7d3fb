-- ===== src/Common/Strings.antt =====
-- What the source uses of JavaScript's strings. A text is its code points; code points above
-- U+FFFF, which are two units of a JavaScript string, are no white space.
use Prim.Native.Nat.{ℕ, ◌+◌}
use Prim.Native.Char.{code}
use Prim.Native.String.{String, [], ◌∷◌}
use mathlib.Core.Bool.{Bool, true, false, ◌||◌, ◌&&◌}
use mathlib.Core.List.{List}
use text.Mathlib.Text.{◌==◌}
use nextjs_saas_boilerplate.Common.Tests.{leb, nat_eq, if◌then◌else◌}

-- ECMAScript's WhiteSpace and LineTerminator.
abbrev pub is_white : ℕ → Bool
is_white c =
    (leb 9 c && leb c 13)
    || nat_eq c 32
    || nat_eq c 160
    || nat_eq c 5760
    || (leb 8192 c && leb c 8202)
    || nat_eq c 8232
    || nat_eq c 8233
    || nat_eq c 8239
    || nat_eq c 8287
    || nat_eq c 12288
    || nat_eq c 65279

unfoldable pub trim_start : String → String
trim_start [] = []
trim_start (c ∷ s) = if is_white (code c) then trim_start s else c ∷ s

unfoldable pub is_blank : String → Bool
is_blank [] = true
is_blank (c ∷ s) = is_white (code c) && is_blank s

unfoldable pub trim_end : String → String
unfolding is_blank
trim_end [] = []
trim_end (c ∷ s) = if is_blank (c ∷ s) then [] else c ∷ trim_end s

-- `s.trim()`
unfoldable pub trim : String → String
unfolding trim_start trim_end
trim s = trim_end (trim_start s)

-- `if (s)`: a text is true unless it is empty.
abbrev pub is_present : String → Bool
is_present [] = false
is_present (c ∷ s) = true

-- `list.includes(s)`
unfoldable pub includes : List String → String → Bool
includes List.[] s = false
includes (List.◌∷◌ x xs) s = x == s || includes xs s

-- `[...new Set(list)]`: the first of equal texts stays.
unfoldable pub unique_from : List String → List String → List String
unfolding includes
unique_from seen List.[] = List.[]
unique_from seen (List.◌∷◌ x xs) =
    if includes seen x then unique_from seen xs else List.◌∷◌ x (unique_from (List.◌∷◌ x seen) xs)

unfoldable pub unique : List String → List String
unfolding unique_from
unique xs = unique_from List.[] xs

-- `s.length`: a code point above U+FFFF is two units.
unfoldable pub units : String → ℕ
units [] = 0
units (c ∷ s) = (if leb 65536 (code c) then 2 else 1) + units s

-- `s.startsWith(prefix)`
unfoldable pub has_prefix : String → String → Bool
has_prefix [] s = true
has_prefix (c ∷ p) [] = false
has_prefix (c ∷ p) (d ∷ s) = nat_eq (code c) (code d) && has_prefix p s

-- `s.endsWith(suffix)`
unfoldable pub has_suffix : String → String → Bool
has_suffix suffix [] = [] == suffix
has_suffix suffix (c ∷ s) = (c ∷ s) == suffix || has_suffix suffix s

-- `s.slice(0, -1)`
unfoldable pub drop_last : String → String
drop_last [] = []
drop_last (c ∷ s) = if s == [] then [] else c ∷ drop_last s
