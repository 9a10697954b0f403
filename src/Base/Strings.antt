-- ===== src/Base/Strings.antt =====
-- What the program uses of Go's `strings` and `unicode` packages, over the characters of a text.
use Prim.Native.Nat.{ℕ, zero, suc, ◌-◌}
use Prim.Native.Char.{Char, code}
use Prim.Native.String.{String, count}
use mathlib.Core.Bool.{Bool, true, false, ◌&&◌, ◌||◌}
use mathlib.Core.List.{List, [], ◌∷◌}
use goboxd.Base.Tests.{leb, ◌==◌, if◌then◌else◌}
use goboxd.Base.Texts.{◌<>◌, str_eq}

-- `strings.HasPrefix(s, p)`
unfoldable pub has_prefix : String → String → Bool
has_prefix s String.[] = true
has_prefix String.[] (String.◌∷◌ d p) = false
has_prefix (String.◌∷◌ c s) (String.◌∷◌ d p) = code c == code d && has_prefix s p

-- `strings.HasSuffix(s, p)`
unfoldable pub has_suffix : String → String → Bool
has_suffix String.[] p = str_eq p ""
has_suffix (String.◌∷◌ c s) p = str_eq (String.◌∷◌ c s) p || has_suffix s p

-- `strings.Contains(s, p)`
unfoldable pub contains : String → String → Bool
unfolding has_prefix
contains String.[] p = str_eq p ""
contains (String.◌∷◌ c s) p = has_prefix (String.◌∷◌ c s) p || contains s p

-- A character of a text, by its number.
unfoldable pub has_char : ℕ → String → Bool
has_char k String.[] = false
has_char k (String.◌∷◌ c s) = code c == k || has_char k s

-- The text without its first characters.
unfoldable pub skip : ℕ → String → String
skip zero s = s
skip (suc n) String.[] = String.[]
skip (suc n) (String.◌∷◌ c s) = skip n s

-- `strings.TrimPrefix(s, p)`
unfoldable pub trim_prefix : String → String → String
unfolding has_prefix skip
trim_prefix s p = if has_prefix s p then skip (count p) s else s

-- `strings.TrimSuffix(s, "*")` and the like, for a suffix of one character.
unfoldable pub trim_last : ℕ → String → String
trim_last k String.[] = String.[]
trim_last k (String.◌∷◌ c s) =
    let rest = String.◌∷◌ c (trim_last k s) in
    if code c == k && str_eq s "" then String.[] else rest

-- `unicode.IsSpace`
unfoldable pub is_space : ℕ → Bool
is_space c =
    (leb 9 c && leb c 13)
    || (c == 32
        || (c == 0x85
            || (c == 0xA0
                || (c == 0x1680
                    || ((leb 0x2000 c && leb c 0x200A)
                        || (c == 0x2028
                            || (c == 0x2029 || (c == 0x202F || (c == 0x205F || c == 0x3000)))))))))

unfoldable pub trim_left : String → String
unfolding is_space
trim_left String.[] = String.[]
trim_left (String.◌∷◌ c s) =
    let rest = trim_left s in if is_space (code c) then rest else String.◌∷◌ c s

unfoldable pub trim_right : String → String
unfolding is_space
trim_right String.[] = String.[]
trim_right (String.◌∷◌ c s) = keep (trim_right s)
  where
    keep : String → String
    keep String.[] = if is_space (code c) then String.[] else String.◌∷◌ c String.[]
    keep (String.◌∷◌ d t) = String.◌∷◌ c (String.◌∷◌ d t)

-- `strings.TrimSpace`
unfoldable pub trim_space : String → String
unfolding trim_left trim_right
trim_space s = trim_right (trim_left s)

-- `strings.ReplaceAll(s, old, new)` for a text `old` that is not empty; the number counts the
-- characters of a match that are still to be passed over.
replace_from : ℕ → String → String → String → String
unfolding has_prefix
replace_from n old new String.[] = String.[]
replace_from (suc n) old new (String.◌∷◌ c s) = replace_from n old new s
replace_from zero old new (String.◌∷◌ c s) =
    let replaced = new <> replace_from (count old - 1) old new s in
    let kept = String.◌∷◌ c (replace_from zero old new s) in
    if has_prefix (String.◌∷◌ c s) old then replaced else kept

unfoldable pub replace_all : String → String → String → String
unfolding replace_from
replace_all s old new = replace_from zero old new s

unfoldable pub prepend : Char → List String → List String
prepend c [] = String.◌∷◌ c "" ∷ []
prepend c (p ∷ ps) = String.◌∷◌ c p ∷ ps

-- `strings.Split(s, sep)` for a separator of one character.
unfoldable pub split : ℕ → String → List String
unfolding prepend
split sep String.[] = "" ∷ []
split sep (String.◌∷◌ c s) =
    let parts = split sep s in if code c == sep then "" ∷ parts else prepend c parts

-- `strings.FieldsFunc`: the longest runs of characters that are no separators.
unfoldable pub fields_from : (ℕ → Bool) → String → String → List String
fields_from sep cur String.[] = if str_eq cur "" then [] else cur ∷ []
fields_from sep cur (String.◌∷◌ c s) =
    let closed = cur ∷ fields_from sep "" s in
    let skipped = fields_from sep "" s in
    let longer = fields_from sep (cur <> String.◌∷◌ c "") s in
    if sep (code c) then (if str_eq cur "" then skipped else closed) else longer

unfoldable pub fields_func : (ℕ → Bool) → String → List String
unfolding fields_from
fields_func sep s = fields_from sep "" s
