-- ===== src/Seccomp/Parse/Rendered.antt =====
-- What `CombinedWith` writes is read back by `parseGlobalPolicyBytes` (internal/seccomp/seccomp.go).
use Prim.Native.String.{count}
use text.Mathlib.TextLemmas.{nil-append, cons-append, append-nil, append_assoc}
use goboxd.Base.{
  ℕ, ◌+◌, ◌==◌, String, Bool, true, false, ◌||◌, some, str_eq, ◌<>◌, ◌≡◌, ◌≢◌, refl, sym, ap, ◌∙◌,
  arith, All, eq_iff,
}
use goboxd.Base.Strings.{trim_space, is_space, skip}
use goboxd.Base.Prefix.{skip-append}
use goboxd.Base.Index.{
  index, last_index, index_where, prefix_of, index-append, index-one, last_index-append,
  index_where-first, prefix_of-append, skip_add,
}
use goboxd.Base.Fields.{free_of}
use goboxd.Base.Trim.{trim_space-word, blank}
use goboxd.Seccomp.{Policy, deny_lines, render}
use goboxd.Seccomp.Parse.{parsed, ends_name, tail_of, action_of, finish, parse_block, parse_policy}
use goboxd.Seccomp.Parse.Entries.{IsWord, body_of, body_of-free, entries-body_of, free_of-weaken}

-- What the name of a policy has none of.
abbrev pub name_breaks : ℕ → Bool
name_breaks c = is_space c || c == b'{'

-- The texts that the parser looks for stand where it expects them.
pub record IsPolicy (p : Policy) : Type 0 where
  pub header : index (p.header <> "POLICY ") "POLICY " ≡ some (count p.header)
  pub name_word : free_of name_breaks p.name ≡ true
  pub named : p.name ≢ ""
  pub deny :
      index ("POLICY " <> p.name <> " {\n\tDENY {") "DENY {"
      ≡ some (count ("POLICY " <> p.name <> " {\n\t"))
  pub tail : last_index (tail_of p.name <> p.default_action <> "\n") (tail_of p.name) ≡ some 0
  pub action_word : free_of is_space p.default_action ≡ true
  pub acts : p.default_action ≢ ""
  pub words : All IsWord p.names

-- The text from the block's end on, from its body on, and from the name on.
after_block : Policy → String
after_block p = "}\n}\n\n" <> tail_of p.name <> p.default_action <> "\n"

from_body : Policy → String
unfolding after_block
from_body p = body_of p.names <> after_block p

from_name : Policy → String
unfolding from_body
from_name p = p.name <> " {\n\tDENY {" <> from_body p

render-parts : (p : Policy) → render p ≡ p.header <> "POLICY " <> from_name p
unfolding render from_name after_block from_body
render-parts p =
    let action = "USE " <> p.name <> " DEFAULT " <> p.default_action <> "\n" in
    let open_line =
      append_assoc " {\n\tDENY {" "\n" (deny_lines p.names <> "\t}\n}\n\n" <> action) in
    let close_line = append_assoc "\t" "}\n}\n\n" action in
    simp append_assoc (
      ap (λ t. p.header <> "POLICY " <> p.name <> t)
        (open_line ∙ ap (λ t. " {\n\tDENY {" <> "\n" <> deny_lines p.names <> t) close_line))

-- Cutting off a first text and some characters more.
skip-more : (s t : String) (k : ℕ) → skip (count s + k) (s <> t) ≡ skip k t
skip-more s t k = skip_add (count s) k (s <> t) ∙ ap (skip k) (skip-append s t)

declared : (p : Policy) → IsPolicy p → index (render p) "POLICY " ≡ some (count p.header)
declared p h =
    rw (render-parts p, ← append_assoc p.header "POLICY " (from_name p))
      (index-append (p.header <> "POLICY ") (from_name p) "POLICY " (count p.header) h.header)

skip-declared : (p : Policy) → skip (count p.header) (render p) ≡ "POLICY " <> from_name p
skip-declared p = rw (render-parts p) (skip-append p.header ("POLICY " <> from_name p))

skip-name : (p : Policy) → skip (count p.header + 7) (render p) ≡ from_name p
skip-name p =
    skip_add (count p.header) 7 (render p)
    ∙ (ap (skip 7) (skip-declared p) ∙ skip-append "POLICY " (from_name p))

name_ends : (p : Policy) → IsPolicy p → index_where ends_name (from_name p) ≡ some (count p.name)
unfolding from_name is_space
name_ends p h =
    let word = free_of-weaken name_breaks ends_name p.name (λ c e. ground arith) h.name_word in
    ap (λ t. index_where ends_name (p.name <> t)) (cons-append " " "{\n\tDENY {" (from_body p))
    ∙ index_where-first ends_name p.name " " ("{\n\tDENY {" <> from_body p) word refl

name_read : (p : Policy) → IsPolicy p → trim_space (prefix_of (count p.name) (from_name p)) ≡ p.name
unfolding from_name blank
name_read p h =
    let word = free_of-weaken name_breaks is_space p.name (λ c e. ground arith) h.name_word in
    let padded = nil-append (p.name <> "") ∙ append-nil p.name in
    ap trim_space (prefix_of-append p.name (" {\n\tDENY {" <> from_body p) ∙ sym padded)
    ∙ trim_space-word "" p.name "" refl word refl h.named

-- The text before the block's mark, from the declaration on.
abbrev before_mark : Policy → String
before_mark p = "POLICY " <> p.name <> " {\n\t"

mark_parts : (p : Policy) → "POLICY " <> from_name p ≡ before_mark p <> "DENY {" <> from_body p
unfolding from_name
mark_parts p =
    let mark = append_assoc " {\n\t" "DENY {" (from_body p) in
    let rest = "DENY {" <> from_body p in
    let outer = append_assoc "POLICY " (p.name <> " {\n\t") rest in
    let inner = append_assoc p.name " {\n\t" rest in
    ap (λ t. "POLICY " <> p.name <> t) mark ∙ sym (outer ∙ ap (λ t. "POLICY " <> t) inner)

marked :
    (p : Policy)
    → IsPolicy p
    → index ("POLICY " <> from_name p) "DENY {" ≡ some (count (before_mark p))
unfolding from_name
marked p h =
    let opened = "POLICY " <> p.name <> " {\n\tDENY {" in
    let joined : opened <> from_body p ≡ "POLICY " <> from_name p = simp append_assoc in
    ap (λ t. index t "DENY {") (sym joined)
    ∙ index-append opened (from_body p) "DENY {" (count (before_mark p)) h.deny

skip-body :
    (p : Policy) → skip (count p.header + count (before_mark p) + 6) (render p) ≡ from_body p
skip-body p =
    skip_add (count p.header + count (before_mark p)) 6 (render p)
    ∙ (ap (skip 6) (
          skip_add (count p.header) (count (before_mark p)) (render p)
          ∙ (ap (skip (count (before_mark p))) (skip-declared p ∙ mark_parts p)
              ∙ skip-append (before_mark p) ("DENY {" <> from_body p)))
        ∙ skip-append "DENY {" (from_body p))

closed : (p : Policy) → IsPolicy p → index (from_body p) "}" ≡ some (count (body_of p.names))
unfolding from_body after_block
closed p h =
    let free = body_of-free (λ c. c == b'}') p.names (λ c e. ground arith) refl refl refl h.words in
    let tail = "\n}\n\n" <> tail_of p.name <> p.default_action <> "\n" in
    let brace = cons-append "}" "\n}\n\n" (tail_of p.name <> p.default_action <> "\n") in
    ap (λ t. index (body_of p.names <> t) "}") brace ∙ index-one (body_of p.names) "}" tail free

body_read : (p : Policy) → prefix_of (count (body_of p.names)) (from_body p) ≡ body_of p.names
unfolding from_body
body_read p = prefix_of-append (body_of p.names) (after_block p)

-- The text before the tail.
before_tail : Policy → String
before_tail p = p.header <> "POLICY " <> p.name <> " {\n\tDENY {" <> body_of p.names <> "}\n}\n\n"

tail_parts : (p : Policy) → render p ≡ before_tail p <> tail_of p.name <> p.default_action <> "\n"
unfolding before_tail from_name from_body after_block
tail_parts p = render-parts p ∙ simp append_assoc

action_read : (p : Policy) → IsPolicy p → action_of (render p) p.name ≡ p.default_action
unfolding action_of blank
action_read p h =
    let found =
      last_index-append (before_tail p) (tail_of p.name <> p.default_action <> "\n")
        (tail_of p.name) 0 h.tail in
    let here : last_index (render p) (tail_of p.name) ≡ some (count (before_tail p) + 0) =
      rw (tail_parts p) found in
    let rest : skip (count (before_tail p) + 0 + count (tail_of p.name)) (render p)
        ≡ p.default_action <> "\n" =
      let plain : count (before_tail p) + 0 + count (tail_of p.name)
          ≡ count (before_tail p) + count (tail_of p.name) =
        omega arith in
      ap (λ n. skip n (render p)) plain
      ∙ (ap (skip (count (before_tail p) + count (tail_of p.name))) (tail_parts p)
          ∙ (skip-more (before_tail p) (tail_of p.name <> p.default_action <> "\n")
                (count (tail_of p.name))
              ∙ skip-append (tail_of p.name) (p.default_action <> "\n"))) in
    let trimmed : trim_space (p.default_action <> "\n") ≡ p.default_action =
      ap trim_space (sym (nil-append (p.default_action <> "\n")))
      ∙ trim_space-word "" p.default_action "\n" refl h.action_word refl h.acts in
    rw (action_of, here, rest) trimmed

header_read : (p : Policy) → prefix_of (count p.header) (render p) ≡ p.header
header_read p = rw (render-parts p) (prefix_of-append p.header ("POLICY " <> from_name p))

block_reached :
    (p : Policy)
    → IsPolicy p
    → parse_policy (render p) ≡ parse_block (render p) (count p.header) p.name
unfolding parse_policy
block_reached p h =
    let name = ap (λ t. trim_space (prefix_of (count p.name) t)) (skip-name p) ∙ name_read p h in
    rw (parse_policy, declared p h, skip-name p, name_ends p h)
      (ap (parse_block (render p) (count p.header)) name)

body_reached :
    (p : Policy)
    → IsPolicy p
    → parse_block (render p) (count p.header) p.name
      ≡ finish (render p) p.header p.name (body_of p.names)
unfolding parse_block
body_reached p h =
    let body = ap (prefix_of (count (body_of p.names))) (skip-body p) ∙ body_read p in
    rw (parse_block, skip-declared p, marked p h, skip-body p, closed p h)
      (ap (λ b. finish (render p) (prefix_of (count p.header) (render p)) p.name b) body
        ∙ ap (λ t. finish (render p) t p.name (body_of p.names)) (header_read p))

-- A policy is read back from the text that it is written as, where the texts that the parser looks
-- for stand only where the writer puts them, and the names are words.
pub parse_policy-render : (p : Policy) → IsPolicy p → parse_policy (render p) ≡ parsed p
unfolding finish
parse_policy-render p h =
    let acts : str_eq p.default_action "" ≡ false =
      ground (arith, eq_iff p.default_action "", h.acts) in
    block_reached p h
    ∙ (body_reached p h ∙ rw (finish, action_read p h, acts, entries-body_of p.names h.words) refl)
