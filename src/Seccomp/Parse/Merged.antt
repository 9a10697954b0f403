-- ===== src/Seccomp/Parse/Merged.antt =====
-- The combined policy of `CombinedWith` (internal/seccomp/seccomp.go), as the parser of the global one
-- reads it.
use goboxd.Base.{
  ◌==◌, leb, String, Bool, true, ◌&&◌, ◌||◌, List, [], ◌∷◌, ◌++◌, none, str_eq, has, ◌<>◌, ◌≡◌, ◌≢◌,
  ◌⊎◌, refl, sym, subst, ap, ◌∙◌, inl, inr, arith, All, All-append, Bool-cases, Option-cases, code,
  eq_iff,
}
use goboxd.Base.Strings.{trim_space, has_prefix, trim_prefix, is_space}
use goboxd.Base.Prefix.{prefix-trim_prefix}
use goboxd.Base.Fields.{free_of, free_of-append}
use goboxd.Seccomp.{
  Policy, valid_syscall, numeric_syscall, some_digits_closed, digits_closed, first_unknown,
  merge_names, render, combined, combined_with,
}
use goboxd.Seccomp.Additive.{first_unknown_iff}
use goboxd.Seccomp.Parse.{parsed, parse_policy}
use goboxd.Seccomp.Parse.Entries.{IsWord, breaks}
use goboxd.Seccomp.Parse.Rendered.{IsPolicy, parse_policy-render}

digits_closed-free : (s : String) → digits_closed s ≡ true → free_of breaks s ≡ true
unfolding digits_closed free_of is_space
digits_closed-free String.[] h = cc h
digits_closed-free (String.◌∷◌ c s) h = elim (Bool-cases (leb b'0' (code c) && leb (code c) b'9')) [
  | inl e ↦ let ih = digits_closed-free s (rw e at h) in ground arith
  | inr e ↦
      let last = rw e at h in
      let none_left : s ≡ "" = (eq_iff s "").0 (ground (arith, last)) in
      let bracket : (code c == b']') ≡ true = ground (arith, last) in
      rw none_left (ground (arith, bracket))
]

some_digits_closed-free : (s : String) → some_digits_closed s ≡ true → free_of breaks s ≡ true
unfolding some_digits_closed free_of is_space
some_digits_closed-free String.[] h = cc h
some_digits_closed-free (String.◌∷◌ c s) h = ground (arith, digits_closed-free s)

numeric_syscall-IsWord : (s : String) → numeric_syscall s ≡ true → IsWord s
unfolding numeric_syscall free_of is_space has_prefix
numeric_syscall-IsWord s h =
    let prefixed : has_prefix s "SYSCALL[" ≡ true = ground (arith, h) in
    let digits : some_digits_closed (trim_prefix s "SYSCALL[") ≡ true = ground (arith, h) in
    let parts = prefix-trim_prefix s "SYSCALL[" prefixed in
    let rest = some_digits_closed-free (trim_prefix s "SYSCALL[") digits in
    let whole : free_of breaks ("SYSCALL[" <> trim_prefix s "SYSCALL[") ≡ true =
      free_of-append breaks "SYSCALL[" (trim_prefix s "SYSCALL[") ∙ rw rest refl in
    record {
      whole = subst (λ t. free_of breaks t ≡ true) (sym parts) whole;
      given = λ e.
          let wrong : has_prefix "" "SYSCALL[" ≡ true =
            sym (ap (λ t. has_prefix t "SYSCALL[") e) ∙ prefixed in
          cc wrong;
    }

valid_syscall-IsWord :
    (known : String → Bool) (n : String)
    → ((m : String) → known m ≡ true → IsWord m)
    → valid_syscall known n ≡ true
    → IsWord n
unfolding valid_syscall
valid_syscall-IsWord known n words h = elim (Bool-cases (known n)) [
  | inl e ↦ words n e
  | inr e ↦ numeric_syscall-IsWord n (rw e at h)
]

merge_names-IsWord :
    (names extras : List String)
    → All (λ e. (trim_space e ≡ "") ⊎ IsWord (trim_space e)) extras
    → All IsWord names
    → All IsWord (merge_names names extras)
unfolding merge_names
merge_names-IsWord names [] h hn = hn
merge_names-IsWord names (e ∷ es) (h, hs) hn =
    elim (Bool-cases (str_eq (trim_space e) "" || has (trim_space e) names)) [
      | inl skip ↦ rw skip (merge_names-IsWord names es hs hn)
      | inr take ↦
          let word = by_given h (ground (arith, take, eq_iff (trim_space e) "")) in
          rw take (
            merge_names-IsWord (names ++ trim_space e ∷ []) es hs
              (All-append IsWord names (trim_space e ∷ []) hn (word, tt)))
    ]
  where
    by_given :
        (trim_space e ≡ "") ⊎ IsWord (trim_space e) → trim_space e ≢ "" → IsWord (trim_space e)
    by_given (inl empty) ne = absurd (ne empty)
    by_given (inr w) ne = w

All-IsWord :
    (known : String → Bool) (extras : List String)
    → ((m : String) → known m ≡ true → IsWord m)
    → All (λ e. (trim_space e ≡ "") ⊎ (valid_syscall known (trim_space e) ≡ true)) extras
    → All (λ e. (trim_space e ≡ "") ⊎ IsWord (trim_space e)) extras
All-IsWord known [] words h = tt
All-IsWord known (e ∷ es) words (inl empty, hs) = (inl empty, All-IsWord known es words hs)
All-IsWord known (e ∷ es) words (inr valid, hs) =
    (inr (valid_syscall-IsWord known (trim_space e) words valid), All-IsWord known es words hs)

with_names-IsPolicy :
    (p : Policy) (names : List String)
    → IsPolicy p
    → All IsWord names
    → IsPolicy (record p { names = names })
with_names-IsPolicy p names h w = record {
  header = h.header;
  name_word = h.name_word;
  named = h.named;
  deny = h.deny;
  tail = h.tail;
  action_word = h.action_word;
  acts = h.acts;
  words = w;
}

combined_with-inv :
    (known : String → Bool) (p : Policy) (extras : List String) (text : String)
    → combined_with known p extras ≡ combined text
    → (first_unknown known extras ≡ none)
      × (render (record p { names = merge_names p.names extras }) ≡ text)
unfolding combined_with
combined_with-inv known p extras text e = elim (Option-cases (first_unknown known extras)) [
  | inl ok ↦ (ok, text_of (rw (combined_with, ok) at e))
  | inr (name, bad) ↦ let wrong = rw (combined_with, bad) at e in cc wrong
]
  where
    text_of : {s t : String} → combined s ≡ combined t → s ≡ t
    text_of h = cc h

-- The combined policy is read back as the global one with the merged names: its header, its name and
-- its default action are the same. The global policy is one that is read back from its own text, and
-- the known names are words.
pub combined_with-parsed :
    (known : String → Bool) (p : Policy) (extras : List String) (text : String)
    → IsPolicy p
    → ((m : String) → known m ≡ true → IsWord m)
    → combined_with known p extras ≡ combined text
    → parse_policy text ≡ parsed (record p { names = merge_names p.names extras })
combined_with-parsed known p extras text h words e =
    let (ok, same) = combined_with-inv known p extras text e in
    let valid = All-IsWord known extras words ((first_unknown_iff known extras).0 ok) in
    let merged = merge_names-IsWord p.names extras valid h.words in
    let q : Policy = record p { names = merge_names p.names extras } in
    ap parse_policy (sym same) ∙ parse_policy-render q (with_names-IsPolicy p q.names h merged)
