-- ===== src/Seccomp/Parse.antt =====
-- `parseGlobalPolicyBytes` of internal/seccomp/seccomp.go: what is read of a kafel policy's text.
pub mod Entries
pub mod Rendered
pub mod Merged
use Prim.Native.String.{count}
use goboxd.Base.{
  ℕ, ◌+◌, ◌==◌, String, Bool, ◌||◌, List, [], ◌∷◌, map, none, some, str_eq, ◌<>◌, if◌then◌else◌,
}
use goboxd.Base.Strings.{trim_space, split, skip}
use goboxd.Base.Index.{index, last_index, index_where, prefix_of}
use goboxd.Seccomp.{Policy}

-- The policy, or the error.
pub data Parsed : Type 0 where
  parsed : Policy → Parsed
  malformed : String → Parsed

-- A line up to its comment.
unfoldable pub without_comment : String → String
without_comment line = elim (index line "//") [ none ↦ line | some i ↦ prefix_of i line ]

-- `strings.Join(lines, "\n")`
unfoldable pub join_lines : List String → String
join_lines [] = ""
join_lines (l ∷ []) = l
join_lines (l ∷ m ∷ ls) = l <> "\n" <> join_lines (m ∷ ls)

-- The parts that are not blank, trimmed.
unfoldable pub keep_names : List String → List String
keep_names [] = []
keep_names (p ∷ ps) =
    let rest = keep_names ps in if str_eq (trim_space p) "" then rest else trim_space p ∷ rest

-- The names of the body of the DENY block.
unfoldable pub entries : String → List String
unfolding without_comment join_lines keep_names
entries body = keep_names (split b',' (join_lines (map without_comment (split b'\n' body))))

-- The bytes of the IndexAny that ends the policy's name.
abbrev pub ends_name : ℕ → Bool
ends_name c = c == b' ' || (c == b'\t' || c == b'{')

-- The text before the default action.
abbrev pub tail_of : String → String
tail_of name = "USE " <> name <> " DEFAULT "

-- The default action, empty where there is none.
unfoldable pub action_of : String → String → String
action_of s name = elim (last_index s (tail_of name)) [
  | none ↦ ""
  | some u ↦ trim_space (skip (u + count (tail_of name)) s)
]

-- What is left to do with the header, the name and the body.
unfoldable pub finish : String → String → String → String → Parsed
unfolding entries action_of
finish s header name body =
    if str_eq (action_of s name) ""
    then malformed ("global seccomp policy: missing USE " <> name <> " DEFAULT <action> tail")
    else parsed (record {
      names = entries body;
      header = header;
      name = name;
      default_action = action_of s name;
    })

-- The block, from the position of the declaration.
unfoldable pub parse_block : String → ℕ → String → Parsed
unfolding finish
parse_block s at name = elim (index (skip at s) "DENY {") [
  | none ↦ malformed "global seccomp policy: missing DENY block"
  | some k ↦ elim (index (skip (at + k + 6) s) "}") [
    | none ↦ malformed "global seccomp policy: DENY block not closed"
    | some m ↦ finish s (prefix_of at s) name (prefix_of m (skip (at + k + 6) s))
  ]
]

-- `parseGlobalPolicyBytes`
unfoldable pub parse_policy : String → Parsed
unfolding parse_block
parse_policy s = elim (index s "POLICY ") [
  | none ↦ malformed "global seccomp policy: missing POLICY declaration"
  | some at ↦ elim (index_where ends_name (skip (at + 7) s)) [
    | none ↦ malformed "global seccomp policy: malformed POLICY declaration"
    | some j ↦ parse_block s at (trim_space (prefix_of j (skip (at + 7) s)))
  ]
]
