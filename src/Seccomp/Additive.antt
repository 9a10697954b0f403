-- ===== src/Seccomp/Additive.antt =====
-- `CombinedWith` of internal/seccomp/seccomp.go: which system calls the combined policy denies.
use goboxd.Base.{
  String, Bool, true, false, not, ◌&&◌, ◌||◌, List, [], ◌∷◌, ◌++◌, none, str_eq, has, ◌≡◌, ◌↔◌, ◌⊎◌,
  arith, eq_iff, refl, All,
}
use goboxd.Base.Strings.{trim_space}
use goboxd.Seccomp.{valid_syscall, first_unknown, merge_names}

-- Whether a name is one of the extras, once blanks around them are dropped and empty ones left out.
pub asked_for : String → List String → Bool
asked_for n [] = false
asked_for n (e ∷ es) = (not (str_eq (trim_space e) "") && str_eq (trim_space e) n) || asked_for n es

has-append : (n : String) (xs ys : List String) → has n (xs ++ ys) ≡ (has n xs || has n ys)
has-append n [] ys = refl
has-append n (x ∷ xs) ys = ground (arith, has-append n xs ys)

-- The names of the combined DENY block are exactly those of the global one and those that the
-- language asks for: a language never takes a name off the global block.
pub has-merge_names :
    (n : String) (names extras : List String)
    → has n (merge_names names extras) ≡ (has n names || asked_for n extras)
unfolding merge_names asked_for
has-merge_names n names [] = ground arith
has-merge_names n names (e ∷ es) =
    let skipped = has-merge_names n names es in
    let taken = has-merge_names n (names ++ trim_space e ∷ []) es in
    let split = has-append n names (trim_space e ∷ []) in ground (arith, eq_iff (trim_space e) n)

-- No extra is rejected exactly if each one is blank, or known by name or in the numeric form.
pub first_unknown_iff :
    (known : String → Bool) (extras : List String)
    → (first_unknown known extras ≡ none)
      ↔ All (λ e. (trim_space e ≡ "") ⊎ (valid_syscall known (trim_space e) ≡ true)) extras
unfolding first_unknown
first_unknown_iff known [] = (λ e. tt, λ h. refl)
first_unknown_iff known (e ∷ es) =
    let ih = first_unknown_iff known es in ground (arith, eq_iff (trim_space e) "")
