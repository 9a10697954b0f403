-- ===== src/Api/Filename.antt =====
-- `isValidFilename` of internal/api/handlers.go, against path traversal.
use Prim.Native.String
use text.Mathlib.TextLemmas.{nil-append, cons-append}
use goboxd.Base.{
  ℕ, ◌≤◌, String, Bool, true, false, ◌||◌, ◌≡◌, ◌≢◌, str_eq, ltb, ◌==◌, if◌then◌else◌, arith,
  eq_iff, code, refl, List, [], ◌∷◌, ◌++◌, ◌<>◌, Char, ap, ◌∙◌, inl, inr, Bool-cases,
}
use goboxd.Base.Fields.{split-cons}
use goboxd.Base.Strings.{has_prefix, contains, has_char, split, prepend}

unfoldable pub is_valid_filename : String → Bool
unfolding has_prefix contains has_char
is_valid_filename name =
    if str_eq name ""
    then true
    else if ltb 64 (String.len name)
    then false
    else if has_char b'/' name || has_char b'\\' name || has_prefix name "." || contains name ".."
    then false
    else true

prepend-append :
    (c : Char) (p : String) (ps qs : List String)
    → prepend c (p ∷ ps ++ qs) ≡ prepend c (p ∷ ps) ++ qs
unfolding prepend
prepend-append c p ps qs = refl

-- A text without the separator is one part.
split-no_char : (k : ℕ) (s : String) → has_char k s ≡ false → split k s ≡ s ∷ []
unfolding split has_char prepend
split-no_char k String.[] h = refl
split-no_char k (String.◌∷◌ c s) h =
    let off : code c == k ≡ false = ground arith in
    let none_left : has_char k s ≡ false = ground arith in
    rw (off, split-no_char k s none_left) refl

slash-append : (n : String) → "/" <> n ≡ String.◌∷◌ "/" n
slash-append n = cons-append "/" "" n ∙ ap (String.◌∷◌ "/") (nil-append n)

-- Splitting at a slash that stands between two texts.
split-slash : (d n : String) → split b'/' (d <> "/" <> n) ≡ split b'/' d ++ split b'/' n
unfolding split prepend
split-slash String.[] n = rw (nil-append ("/" <> n), slash-append n) refl
split-slash (String.◌∷◌ c d) n =
    let (p, ps, e) = split-cons b'/' d in
    rw (cons-append c d ("/" <> n)) (elim (Bool-cases (code c == b'/')) [
      | inl at ↦ rw (at, split-slash d n) refl
      | inr off ↦ rw (off, split-slash d n, e) refl
    ])

-- A file name that is accepted and not empty adds exactly one component to a directory's path, has
-- at most 64 bytes, and is neither "." nor "..".
pub is_valid_filename_contained :
    (dir name : String)
    → is_valid_filename name ≡ true
    → name ≢ ""
    → (split b'/' (dir <> "/" <> name) ≡ split b'/' dir ++ name ∷ [])
      × (split b'\\' name ≡ name ∷ [])
      × (name ≢ ".")
      × (name ≢ "..")
      × (String.len name ≤ 64)
unfolding is_valid_filename
is_valid_filename_contained dir name h given =
    let absent : str_eq name "" ≡ false = ground (arith, eq_iff name "") in
    let no_slash : has_char b'/' name ≡ false = ground arith in
    let no_backslash : has_char b'\\' name ≡ false = ground arith in
    let not_dotted : has_prefix name "." ≡ false = ground arith in
    let no_parent : contains name ".." ≡ false = ground arith in
    (
      rw (split-slash dir name, split-no_char b'/' name no_slash) refl,
      split-no_char b'\\' name no_backslash,
      λ e. cc (ap (λ s. has_prefix s ".") e),
      λ e. cc (ap (λ s. contains s "..") e),
      ground arith,
    )
