-- ===== src/BuildInfo.antt =====
-- internal/buildinfo/buildinfo.go: `AtLeast`, the comparison of versions.
pub mod Order
use Prim.Native.String
use goboxd.Base.{
  ℕ, ◌==◌, ltb, ℤ, pos, negsuc, atoi, String, Bool, true, false, not, ◌||◌, Option, none, some,
  if◌then◌else◌, code,
}
use goboxd.Base.Strings.{trim_space}

-- The array of `parts`.
pub record Version : Type 0 where
  pub major : ℕ
  pub minor : ℕ
  pub patch : ℕ

-- `v[:strings.IndexAny(v, "-+")]`
without_suffix : String → String
without_suffix String.[] = ""
without_suffix (String.◌∷◌ c s) =
    let rest = String.◌∷◌ c (without_suffix s) in
    if code c == b'-' || code c == b'+' then "" else rest

-- The text before the first dot, and the text after it where there is one.
cut : String → String × Option String
cut String.[] = ("", none)
cut (String.◌∷◌ c s) =
    let rest = cut s in if code c == b'.' then ("", some s) else (String.◌∷◌ c (rest.0), rest.1)

-- `strconv.Atoi(strings.TrimSpace(s))`, 0 where it fails or is negative.
number : String → ℕ
number s = elim (atoi (trim_space s)) [ none ↦ 0 | some (pos n) ↦ n | some (negsuc n) ↦ 0 ]

-- The segments after the first, of `strings.SplitN(v, ".", 3)`.
after_minor : ℕ → ℕ → Option String → Version
unfolding number
after_minor a b none = record { major = a; minor = b; patch = 0 }
after_minor a b (some s) = record { major = a; minor = b; patch = number s }

after_major : ℕ → Option String → Version
unfolding after_minor cut number
after_major a none = record { major = a; minor = 0; patch = 0 }
after_major a (some s) = after_minor a (number ((cut s).0)) ((cut s).1)

-- `parts`
unfoldable pub parts : String → Version
unfolding without_suffix cut number after_major
parts v = after_major (number ((cut (without_suffix v)).0)) ((cut (without_suffix v)).1)

-- The loop of `AtLeast`.
pub not_below : Version → Version → Bool
not_below a b =
    if not (a.major == b.major)
    then ltb b.major a.major
    else if not (a.minor == b.minor)
    then ltb b.minor a.minor
    else if not (a.patch == b.patch)
    then ltb b.patch a.patch
    else true

-- `AtLeast`
unfoldable pub at_least : String → String → Bool
unfolding not_below
at_least current minimum = not_below (parts current) (parts minimum)
