-- ===== src/Seccomp.antt =====
-- internal/seccomp/seccomp.go: `ParseSyscallNames` and `CombinedWith`. The table of names that kafel
-- knows is a parameter, and the embedded policy is the record that `parseGlobalPolicy` makes of it.
pub mod Additive
pub mod Parse
use Prim.Native.String
use goboxd.Base.{
  ℕ, ◌==◌, leb, String, Bool, true, false, not, ◌&&◌, ◌||◌, List, [], ◌∷◌, ◌++◌, Option, none, some,
  str_eq, ◌<>◌, has, if◌then◌else◌, code,
}
use goboxd.Base.Strings.{trim_space, is_space, fields_func, has_prefix, trim_prefix}

-- The separators of `ParseSyscallNames`.
abbrev separates : ℕ → Bool
separates c = c == b',' || is_space c

-- `ParseSyscallNames`; nil is the empty list.
unfoldable pub parse_syscall_names : String → List String
parse_syscall_names s = if str_eq (trim_space s) "" then [] else fields_func separates s

-- `\d*\]$`
unfoldable pub digits_closed : String → Bool
digits_closed String.[] = false
digits_closed (String.◌∷◌ c s) =
    let rest = digits_closed s in
    if leb b'0' (code c) && leb (code c) b'9' then rest else code c == b']' && str_eq s ""

-- `\d+\]$`
unfoldable pub some_digits_closed : String → Bool
unfolding digits_closed
some_digits_closed String.[] = false
some_digits_closed (String.◌∷◌ c s) = leb b'0' (code c) && leb (code c) b'9' && digits_closed s

-- `syscallNumRe.MatchString`
unfoldable pub numeric_syscall : String → Bool
unfolding some_digits_closed
numeric_syscall s = has_prefix s "SYSCALL[" && some_digits_closed (trim_prefix s "SYSCALL[")

-- `validSyscall`, with the generated table.
unfoldable pub valid_syscall : (String → Bool) → String → Bool
unfolding numeric_syscall
valid_syscall known name = known name || numeric_syscall name

-- The first loop of `CombinedWith`: the first extra that is unknown, as it stands in the error.
unfoldable pub first_unknown : (String → Bool) → List String → Option String
unfolding valid_syscall
first_unknown known [] = none
first_unknown known (e ∷ es) =
    let rest = first_unknown known es in
    if str_eq (trim_space e) "" || valid_syscall known (trim_space e)
    then rest
    else some (trim_space e)

-- The second loop: the extras that are new are appended; `seen` holds the names so far.
unfoldable pub merge_names : List String → List String → List String
merge_names names [] = names
merge_names names (e ∷ es) =
    let skipped = merge_names names es in
    let taken = merge_names (names ++ trim_space e ∷ []) es in
    if str_eq (trim_space e) "" || has (trim_space e) names then skipped else taken

-- What `parseGlobalPolicy` finds in the embedded policy.
pub record Policy : Type 0 where
  pub names : List String
  pub header : String
  pub name : String
  pub default_action : String

-- The lines of the DENY block.
unfoldable pub deny_lines : List String → String
deny_lines [] = ""
deny_lines (n ∷ []) = "\t\t" <> n <> "\n"
deny_lines (n ∷ m ∷ ns) = "\t\t" <> n <> ",\n" <> deny_lines (m ∷ ns)

unfoldable pub render : Policy → String
unfolding deny_lines
render p =
    p.header
    <> "POLICY "
    <> p.name
    <> " {\n\tDENY {\n"
    <> deny_lines p.names
    <> "\t}\n}\n\n"
    <> "USE "
    <> p.name
    <> " DEFAULT "
    <> p.default_action
    <> "\n"

pub data Combined : Type 0 where
  combined : String → Combined
  unknown_syscall : String → Combined

-- `CombinedWith`
unfoldable pub combined_with : (String → Bool) → Policy → List String → Combined
unfolding first_unknown merge_names render
combined_with known p extras = elim (first_unknown known extras) [
  | some e ↦ unknown_syscall e
  | none ↦ combined (render (record p { names = merge_names p.names extras }))
]
