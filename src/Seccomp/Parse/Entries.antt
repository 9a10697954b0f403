-- ===== src/Seccomp/Parse/Entries.antt =====
-- The body that `CombinedWith` writes is read back by `parseGlobalPolicyBytes`
-- (internal/seccomp/seccomp.go): its lines have no comment, and its parts are the names.
use Prim.Native.Char.{Char}
use text.Mathlib.TextEquality.{Char-path}
use text.Mathlib.TextLemmas.{nil-append, cons-append, append-nil, append_assoc}
use goboxd.Base.{
  ℕ, ◌==◌, String, Bool, true, false, ◌||◌, List, [], ◌∷◌, map, none, str_eq, ◌<>◌, ◌≡◌, ◌≢◌, refl,
  sym, ap, ◌∙◌, inl, inr, arith, All, Bool-cases, code, eq_iff,
}
use goboxd.Base.Strings.{split, prepend, trim_space, is_space, has_prefix}
use goboxd.Base.Index.{index, next_place}
use goboxd.Base.Fields.{free_of, free_of-append, split-first, split-whole, split-cons}
use goboxd.Base.Trim.{blank, trim_space-word, trim_space-blank}
use goboxd.Seccomp.{deny_lines}
use goboxd.Seccomp.Parse.{without_comment, join_lines, keep_names, entries}

abbrev pub slash : ℕ → Bool
slash c = c == b'/'

-- What stands in no name.
abbrev pub breaks : ℕ → Bool
breaks c = is_space c || (c == b',' || (c == b'}' || slash c))

-- A name of a system call.
pub record IsWord (n : String) : Type 0 where
  pub whole : free_of breaks n ≡ true
  pub given : n ≢ ""

pub free_of-weaken :
    (p q : ℕ → Bool) (s : String)
    → ((c : ℕ) → q c ≡ true → p c ≡ true)
    → free_of p s ≡ true
    → free_of q s ≡ true
unfolding free_of
free_of-weaken p q String.[] h f = refl
free_of-weaken p q (String.◌∷◌ c s) h f = elim (Bool-cases (q (code c))) [
  | inl e ↦ let yes = h (code c) e in absurd (ground arith)
  | inr e ↦ rw e (free_of-weaken p q s h (ground arith))
]

index-no_slash : (s : String) → free_of slash s ≡ true → index s "//" ≡ none
unfolding index free_of has_prefix next_place
index-no_slash String.[] h = refl
index-no_slash (String.◌∷◌ c s) h =
    let off : (code c == b'/') ≡ false = ground arith in
    rw (off, index-no_slash s (ground arith)) refl

All-prepend :
    (c : Char) (ps : List String)
    → slash (code c) ≡ false
    → All (λ p. free_of slash p ≡ true) ps
    → All (λ p. free_of slash p ≡ true) (prepend c ps)
unfolding prepend free_of
All-prepend c [] off h = (rw off refl, tt)
All-prepend c (p ∷ ps) off (h, hs) = (rw off h, hs)

-- The parts of a text without slashes have none.
split-no_slash :
    (k : ℕ) (s : String) → free_of slash s ≡ true → All (λ p. free_of slash p ≡ true) (split k s)
unfolding split prepend free_of
split-no_slash k String.[] h = (refl, tt)
split-no_slash k (String.◌∷◌ c s) h =
    let ih = split-no_slash k s (ground arith) in
    let off : slash (code c) ≡ false = ground arith in
    elim (Bool-cases (code c == k)) [
      | inl e ↦ rw e (refl, ih)
      | inr e ↦ rw e (All-prepend c (split k s) off ih)
    ]

map-without_comment :
    (ps : List String) → All (λ p. free_of slash p ≡ true) ps → map without_comment ps ≡ ps
unfolding without_comment
map-without_comment [] h = refl
map-without_comment (p ∷ ps) (h, hs) =
    rw (without_comment, index-no_slash p h, map-without_comment ps hs) refl

join_lines-prepend :
    (c : Char) (p : String) (ps : List String)
    → join_lines (prepend c (p ∷ ps)) ≡ String.◌∷◌ c (join_lines (p ∷ ps))
unfolding join_lines prepend
join_lines-prepend c p [] = refl
join_lines-prepend c p (q ∷ qs) = cons-append c p ("\n" <> join_lines (q ∷ qs))

newline-append : (c : Char) (s : String) → code c ≡ b'\n' → "" <> "\n" <> s ≡ String.◌∷◌ c s
newline-append c s e =
    nil-append ("\n" <> s)
    ∙ (cons-append "\n" "" s ∙ rw (nil-append s, Char-path c "\n" (ground arith)) refl)

join_lines-split : (s : String) → join_lines (split b'\n' s) ≡ s
unfolding join_lines split prepend
join_lines-split String.[] = refl
join_lines-split (String.◌∷◌ c s) =
    let (p, ps, e) = split-cons b'\n' s in
    let ih = rw e at (join_lines-split s) in
    elim (Bool-cases (code c == b'\n')) [
      | inl at ↦ rw (at, e, join_lines) (rw ih (newline-append c s (ground arith)))
      | inr off ↦ rw (off, e) (join_lines-prepend c p ps ∙ ap (String.◌∷◌ c) ih)
    ]

-- A text without slashes has no comments.
entries-no_slash : (s : String) → free_of slash s ≡ true → entries s ≡ keep_names (split b',' s)
unfolding entries
entries-no_slash s h =
    rw (map-without_comment (split b'\n' s) (split-no_slash b'\n' s h), join_lines-split s) refl

-- A line of a name, with the newline before it.
line_start : (n rest : String) → "\n" <> "\t\t" <> n <> rest ≡ "\n\t\t" <> n <> rest
line_start n rest = sym (append_assoc "\n" "\t\t" (n <> rest))

more_lines :
    (n rest : String)
    → "\n" <> ("\t\t" <> n <> ",\n" <> rest) <> "\t"
      ≡ ("\n\t\t" <> n) <> String.◌∷◌ "," ("\n" <> rest <> "\t")
more_lines n rest =
    let comma : ",\n" <> rest <> "\t" ≡ String.◌∷◌ "," ("\n" <> rest <> "\t") =
      cons-append "," "\n" (rest <> "\t") in
    simp append_assoc (line_start n (",\n" <> rest <> "\t") ∙ ap (λ t. "\n\t\t" <> n <> t) comma)

last_line : (n : String) → "\n" <> ("\t\t" <> n <> "\n") <> "\t" ≡ "\n\t\t" <> n <> "\n\t"
last_line n = simp append_assoc (line_start n ("\n" <> "\t"))

comma_free : (n : String) → IsWord n → free_of (λ d. d == b',') ("\n\t\t" <> n) ≡ true
unfolding free_of
comma_free n w =
    let word = free_of-weaken breaks (λ d. d == b',') n (λ c e. ground arith) w.whole in
    free_of-append (λ d. d == b',') "\n\t\t" n ∙ rw word refl

line_free : (n : String) → IsWord n → free_of (λ d. d == b',') ("\n\t\t" <> n <> "\n\t") ≡ true
unfolding free_of
line_free n w =
    ap (free_of (λ d. d == b',')) (sym (append_assoc "\n\t\t" n "\n\t"))
    ∙ (free_of-append (λ d. d == b',') ("\n\t\t" <> n) "\n\t" ∙ rw (comma_free n w) refl)

blank_free : (n : String) → IsWord n → free_of is_space n ≡ true
blank_free n w = free_of-weaken breaks is_space n (λ c e. ground arith) w.whole

trim_line : (n b : String) → IsWord n → blank b ≡ true → trim_space ("\n\t\t" <> n <> b) ≡ n
unfolding blank
trim_line n b w h = trim_space-word "\n\t\t" n b refl (blank_free n w) h w.given

-- The names in the body are those that were written.
keep_names-deny_lines :
    (names : List String)
    → All IsWord names
    → keep_names (split b',' ("\n" <> deny_lines names <> "\t")) ≡ names
unfolding keep_names deny_lines blank split prepend
keep_names-deny_lines [] h = rw (trim_space-blank "\n\t" refl) refl
keep_names-deny_lines (n ∷ []) (h, hs) =
    let given : str_eq n "" ≡ false = ground (arith, eq_iff n "", h.given) in
    let free = line_free n h in
    rw
      (
        last_line n,
        split-whole b',' ("\n\t\t" <> n <> "\n\t") free,
        trim_line n "\n\t" h refl,
        given,
      )
      refl
keep_names-deny_lines (n ∷ m ∷ ns) (h, hs) =
    let given : str_eq n "" ≡ false = ground (arith, eq_iff n "", h.given) in
    let rest = "\n" <> deny_lines (m ∷ ns) <> "\t" in
    let trimmed =
      ap (λ t. trim_space ("\n\t\t" <> t)) (sym (append-nil n)) ∙ trim_line n "" h refl in
    rw
      (
        more_lines n (deny_lines (m ∷ ns)),
        split-first b',' "," ("\n\t\t" <> n) rest refl (comma_free n h),
        keep_names,
        trimmed,
        given,
      )
      (ap (◌∷◌ n) (keep_names-deny_lines (m ∷ ns) hs))

-- A character that names do not have, and that is no comma and no blank, is not in the lines.
deny_lines-free :
    (q : ℕ → Bool) (names : List String)
    → ((c : ℕ) → q c ≡ true → breaks c ≡ true)
    → q b'\t' ≡ false
    → q b'\n' ≡ false
    → q b',' ≡ false
    → All IsWord names
    → free_of q (deny_lines names) ≡ true
unfolding deny_lines free_of
deny_lines-free q [] apart t nl comma h = refl
deny_lines-free q (n ∷ []) apart t nl comma (h, hs) =
    let word = free_of-weaken breaks q n apart h.whole in
    rw (free_of-append q "\t\t" (n <> "\n"), free_of-append q n "\n", word, t, nl) refl
deny_lines-free q (n ∷ m ∷ ns) apart t nl comma (h, hs) =
    let word = free_of-weaken breaks q n apart h.whole in
    let ih = deny_lines-free q (m ∷ ns) apart t nl comma hs in
    rw
      (
        free_of-append q "\t\t" (n <> ",\n" <> deny_lines (m ∷ ns)),
        free_of-append q n (",\n" <> deny_lines (m ∷ ns)),
        free_of-append q ",\n" (deny_lines (m ∷ ns)),
        word,
        t,
        nl,
        comma,
      )
      ih

-- The text between the braces of the block.
abbrev pub body_of : List String → String
body_of names = "\n" <> deny_lines names <> "\t"

pub body_of-free :
    (q : ℕ → Bool) (names : List String)
    → ((c : ℕ) → q c ≡ true → breaks c ≡ true)
    → q b'\t' ≡ false
    → q b'\n' ≡ false
    → q b',' ≡ false
    → All IsWord names
    → free_of q (body_of names) ≡ true
unfolding free_of
body_of-free q names apart t nl comma h =
    let lines = deny_lines-free q names apart t nl comma h in
    rw
      (
        free_of-append q "\n" (deny_lines names <> "\t"),
        free_of-append q (deny_lines names) "\t",
        lines,
        t,
        nl,
      )
      refl

pub entries-body_of : (names : List String) → All IsWord names → entries (body_of names) ≡ names
entries-body_of names h =
    entries-no_slash (body_of names)
      (body_of-free slash names (λ c e. ground arith) refl refl refl h)
    ∙ keep_names-deny_lines names h
