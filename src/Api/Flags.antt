-- ===== src/Api/Flags.antt =====
-- `validateFlags` of internal/api/handlers.go: flags against the allowlist of a language.
use goboxd.Base.{
  String, Bool, true, false, ◌||◌, List, [], ◌∷◌, Option, none, some, ◌≡◌, refl, ◌↔◌, ◌⊎◌, inl, inr,
  str_eq, if◌then◌else◌, arith, eq_iff, All, Bool-cases,
}
use goboxd.Base.Strings.{has_prefix, has_suffix, trim_last}

-- One round of the inner loop: a pattern that ends in `*` allows every flag with its prefix.
unfoldable pub matches : String → String → Bool
matches pattern flag =
    if has_suffix pattern "*" then has_prefix flag (trim_last b'*' pattern) else str_eq flag pattern

unfoldable pub allowed : List String → String → Bool
allowed [] flag = false
allowed (p ∷ ps) flag = matches p flag || allowed ps flag

-- The outer loop; the result is the first flag that is not allowed.
unfoldable pub first_disallowed : List String → List String → Option String
first_disallowed allowlist [] = none
first_disallowed allowlist (f ∷ fs) =
    let rest = first_disallowed allowlist fs in if allowed allowlist f then rest else some f

-- `validateFlags`; an empty allowlist allows every flag.
unfoldable pub validate_flags : List String → List String → Option String
validate_flags flags [] = none
validate_flags flags (p ∷ ps) = first_disallowed (p ∷ ps) flags

-- A flag that some pattern of a list allows.
pub data Permitted (flag : String) : List String → Type 0 where
  exact :
      {p : String} {ps : List String}
      → has_suffix p "*" ≡ false
      → flag ≡ p
      → Permitted flag (p ∷ ps)
  by_prefix :
      {p : String} {ps : List String}
      → has_suffix p "*" ≡ true
      → has_prefix flag (trim_last b'*' p) ≡ true
      → Permitted flag (p ∷ ps)
  later : {p : String} {ps : List String} → Permitted flag ps → Permitted flag (p ∷ ps)

allowed_sound : (ps : List String) (f : String) → allowed ps f ≡ true → Permitted f ps
unfolding allowed matches
allowed_sound [] f h = cc
allowed_sound (p ∷ ps) f h = elim (Bool-cases (matches p f)) [
  | inr no_match ↦ later (allowed_sound ps f (ground arith))
  | inl match ↦ elim (Bool-cases (has_suffix p "*")) [
    | inl star ↦ by_prefix star (ground arith)
    | inr plain ↦ exact plain ((eq_iff f p).0 (ground arith))
  ]
]

allowed_complete : {f : String} {ps : List String} → Permitted f ps → allowed ps f ≡ true
unfolding allowed matches
allowed_complete {f} (exact {p} plain e) = ground (arith, eq_iff f p)
allowed_complete (by_prefix star pre) = ground arith
allowed_complete (later m) = let ih = allowed_complete m in ground arith

first_disallowed_iff :
    (allowlist flags : List String)
    → (first_disallowed allowlist flags ≡ none) ↔ All (λ f. Permitted f allowlist) flags
unfolding first_disallowed
first_disallowed_iff allowlist [] = (λ e. tt, λ a. refl)
first_disallowed_iff allowlist (f ∷ fs) =
    let ih = first_disallowed_iff allowlist fs in
    (
      λ e. (allowed_sound allowlist f (ground arith), ih.0 (ground arith)),
      λ h. rw (allowed_complete h.0) (ih.1 h.1),
    )

-- Flags pass exactly if the language has no allowlist or every flag equals a pattern or begins with
-- what stands before a pattern's final star.
pub validate_flags_iff :
    (flags allowlist : List String)
    → (validate_flags flags allowlist ≡ none)
      ↔ ((allowlist ≡ []) ⊎ All (λ f. Permitted f allowlist) flags)
unfolding validate_flags
validate_flags_iff flags [] = (λ e. inl refl, λ h. refl)
validate_flags_iff flags (p ∷ ps) = (
  λ e. inr ((first_disallowed_iff (p ∷ ps) flags).0 e),
  λ h. elim h [ inl e ↦ cc | inr a ↦ (first_disallowed_iff (p ∷ ps) flags).1 a ],
)
