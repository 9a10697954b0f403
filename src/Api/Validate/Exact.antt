-- ===== src/Api/Validate/Exact.antt =====
-- The checks of `HandleRun` (internal/api/handlers.go) on a request, against the API's contract.
use Prim.Native.String
use goboxd.Base.{
  ℕ, suc, ◌≤◌, ℤ, pos, negsuc, ltb_ℤ, ◌≤ℤ◌, String, Bool, true, false, not, ◌&&◌, ◌||◌, List, [],
  ◌∷◌, Option, none, some, ◌≡◌, ◌≢◌, ◌↔◌, ◌⊎◌, refl, str_eq, ◌<>◌, ltb, length, arith, eq_iff, All,
  Option-cases, inl, inr,
}
use goboxd.Models.{StageConfig, TestCase, RunRequest, ErrorDetail}
use goboxd.Config.{LanguageConfig, Registry, lookup}
use goboxd.Api.Check.{Check, pass, reject, detail, ◌>>=◌, ◌>>◌, reject_if}
use goboxd.Api.Filename.{is_valid_filename}
use goboxd.Api.Flags.{validate_flags, validate_flags_iff, Permitted}
use goboxd.Api.Limits.{validate_stage_limits_iff, StageWithin, >>-eq-pass}
use goboxd.Api.Validate.{
  max_tests, max_field_bytes, check_parallel, check_tests, find_language, flags_of, check_flags,
  output_ceiling, check_output, is_empty, validate_for, validate_shape, validate,
}

-- An optional number is at most a bound.
abbrev pub AtMost : Option ℤ → ℕ → Type 0
AtMost none n = Unit
AtMost (some v) n = v ≤ℤ pos n

abbrev pub FieldsFit : TestCase → Type 0
FieldsFit t =
    (String.len t.stdin ≤ max_field_bytes) × (String.len t.expected_stdout ≤ max_field_bytes)

abbrev pub FlagsAllowed : Option StageConfig → List String → Type 0
FlagsAllowed stage allowlist = (allowlist ≡ []) ⊎ All (λ f. Permitted f allowlist) (flags_of stage)

pub record IsShaped (req : RunRequest) : Type 0 where
  pub language : req.language ≢ ""
  pub source : req.source ≢ ""
  pub some_test : req.tests ≢ []
  pub few_tests : length req.tests ≤ max_tests
  pub parallel : AtMost req.max_parallel max_tests
  pub fields : All FieldsFit req.tests
  pub source_name : is_valid_filename req.source_filename ≡ true
  pub artifact_name : is_valid_filename req.artifact_filename ≡ true

pub record Suits (env : String) (req : RunRequest) (lc : LanguageConfig) : Type 0 where
  pub build_limits :
      StageWithin req.build lc.build_limits lc.build_ceiling (not (is_empty lc.build_cmd))
  pub run_limits : StageWithin req.run lc.run_limits lc.run_ceiling true
  pub build_flags : FlagsAllowed req.build lc.flag_allowlist
  pub run_flags : FlagsAllowed req.run lc.flag_allowlist
  pub output : AtMost req.max_output_bytes (output_ceiling env)

reject_if_iff : (b : Bool) (x : ErrorDetail) → (reject_if b x ≡ pass tt) ↔ (b ≡ false)
reject_if_iff true x = (λ e. cc, λ e. cc)
reject_if_iff false x = (λ e. refl, λ e. refl)

over_iff : (n : ℤ) (m : ℕ) → ((ltb_ℤ (pos 0) n && ltb_ℤ (pos m) n) ≡ false) ↔ (n ≤ℤ pos m)
over_iff (pos n) m = ground arith
over_iff (negsuc n) m = (λ e. tt, λ h. refl)

check_parallel_iff : (v : Option ℤ) → (check_parallel v ≡ pass tt) ↔ AtMost v max_tests
unfolding check_parallel
check_parallel_iff none = (λ e. tt, λ h. refl)
check_parallel_iff (some n) = (
  λ e. (over_iff n max_tests).0 ((reject_if_iff _ _).0 e),
  λ h. (reject_if_iff _ _).1 ((over_iff n max_tests).1 h),
)

check_output_iff :
    (env : String) (v : Option ℤ) → (check_output env v ≡ pass tt) ↔ AtMost v (output_ceiling env)
unfolding check_output
check_output_iff env none = (λ e. tt, λ h. refl)
check_output_iff env (some n) = (
  λ e. (over_iff n (output_ceiling env)).0 ((reject_if_iff _ _).0 e),
  λ h. (reject_if_iff _ _).1 ((over_iff n (output_ceiling env)).1 h),
)

check_tests_iff : (i : ℕ) (ts : List TestCase) → (check_tests i ts ≡ pass tt) ↔ All FieldsFit ts
unfolding check_tests
check_tests_iff i [] = (λ e. tt, λ h. refl)
check_tests_iff i (t ∷ ts) = let ih = check_tests_iff (suc i) ts in ground arith

check_flags_iff :
    (stage : String) (flags allowlist : List String)
    → (check_flags stage flags allowlist ≡ pass tt)
      ↔ ((allowlist ≡ []) ⊎ All (λ f. Permitted f allowlist) flags)
unfolding check_flags
check_flags_iff stage [] allowlist = (λ e. inr tt, λ h. refl)
check_flags_iff stage (f ∷ fs) allowlist =
    let iff = validate_flags_iff (f ∷ fs) allowlist in
    elim (Option-cases (validate_flags (f ∷ fs) allowlist)) [
      | inl ok ↦ (λ e. iff.0 ok, λ h. rw (ok, check_flags) refl)
      | inr (bad, no_ok) ↦ (λ e. cc (rw (no_ok, check_flags) at e), λ h. cc (iff.1 h))
    ]

-- Two checks in a row pass exactly if what each stands for holds.
and_then {ℓ κ μ} :
    {B : Type ℓ} {P : Type κ} {Q : Type μ} (m : Check (Unit {0})) (k : Check B) {b : B}
    → (m ≡ pass tt) ↔ P
    → (k ≡ pass b) ↔ Q
    → ((m >> k) ≡ pass b) ↔ (P × Q)
and_then m k p q = (
  λ e. let h = (>>-eq-pass m k).0 e in (p.0 h.0, q.0 h.1),
  λ h. (>>-eq-pass m k).1 (p.1 h.0, q.1 h.1),
)

nonempty_iff : (s : String) → (str_eq s "" ≡ false) ↔ (s ≢ "")
nonempty_iff s = ground (arith, eq_iff s "")

some_iff {ℓ} : {A : Type ℓ} (xs : List A) → (is_empty xs ≡ false) ↔ (xs ≢ [])
some_iff [] = (λ e. cc, λ h. absurd (h refl))
some_iff (x ∷ xs) = (λ e. λ h. cc, λ h. refl)

few_iff : (n : ℕ) → (ltb max_tests n ≡ false) ↔ (n ≤ max_tests)
few_iff n = ground arith

valid_iff : (a b : Bool) → ((not a || not b) ≡ false) ↔ ((a ≡ true) × (b ≡ true))
valid_iff a b = ground arith

-- A check by a test passes exactly if what the test's failure stands for holds.
test_iff {ℓ} :
    {P : Type ℓ} (b : Bool) (x : ErrorDetail) → (b ≡ false) ↔ P → (reject_if b x ≡ pass tt) ↔ P
test_iff b x p = (λ e. p.0 ((reject_if_iff b x).0 e), λ h. (reject_if_iff b x).1 (p.1 h))

reword {ℓ κ μ} : {A : Type ℓ} {P : Type κ} {R : Type μ} → A ↔ P → (P → R) → (R → P) → A ↔ R
reword iff to from = (λ a. to (iff.0 a), λ r. iff.1 (from r))

validate_shape_iff : (req : RunRequest) → (validate_shape req ≡ pass tt) ↔ IsShaped req
unfolding validate_shape
validate_shape_iff req =
    reword
      (and_then _ _ (test_iff _ _ (nonempty_iff req.language)) (
        and_then _ _ (test_iff _ _ (nonempty_iff req.source)) (
          and_then _ _ (test_iff _ _ (some_iff req.tests)) (
            and_then _ _ (test_iff _ _ (few_iff (length req.tests))) (
              and_then _ _ (check_parallel_iff req.max_parallel)
                (and_then _ _ (check_tests_iff 0 req.tests) (test_iff _ _ (valid_iff _ _))))))))
      (λ h. record {
        language = h.0;
        source = h.1.0;
        some_test = h.1.1.0;
        few_tests = h.1.1.1.0;
        parallel = h.1.1.1.1.0;
        fields = h.1.1.1.1.1.0;
        source_name = h.1.1.1.1.1.1.0;
        artifact_name = h.1.1.1.1.1.1.1;
      })
      (λ s. (
        s.language,
        (
          s.source,
          (s.some_test, (s.few_tests, (s.parallel, (s.fields, (s.source_name, s.artifact_name))))),
        ),
      ))

validate_for_iff :
    (env : String) (req : RunRequest) (lc : LanguageConfig)
    → (validate_for env req lc ≡ pass tt) ↔ Suits env req lc
unfolding validate_for
validate_for_iff env req lc =
    reword
      (and_then _ _ (validate_stage_limits_iff req.build _ _ _ _) (
        and_then _ _ (validate_stage_limits_iff req.run _ _ _ _) (
          and_then _ _ (check_flags_iff _ (flags_of req.build) _) (
            and_then _ _ (check_flags_iff _ (flags_of req.run) _)
              (check_output_iff env req.max_output_bytes)))))
      (λ h. record {
        build_limits = h.0;
        run_limits = h.1.0;
        build_flags = h.1.1.0;
        run_flags = h.1.1.1.0;
        output = h.1.1.1.1;
      })
      (λ s. (s.build_limits, (s.run_limits, (s.build_flags, (s.run_flags, s.output)))))

find_language_iff :
    (reg : Registry) (env : String) (req : RunRequest) (lc : LanguageConfig)
    → ((do found ← find_language reg req.language; validate_for env req found; pass found)
        ≡ pass lc)
      ↔ ((lookup req.language reg ≡ some lc) × (validate_for env req lc ≡ pass tt))
unfolding find_language
find_language_iff reg env req lc = by_found (lookup req.language reg)
  where
    same :
        (l : LanguageConfig)
        → validate_for env req l ≡ pass tt
        → pass l ≡ pass lc
        → ((some l ≡ some lc) × (validate_for env req lc ≡ pass tt))
    same l h e = (cc, cc)

    other :
        (l : LanguageConfig)
        → some l ≡ some lc
        → validate_for env req lc ≡ pass tt
        → (validate_for env req l >> pass l) ≡ pass lc
    other l e h = (>>-eq-pass (validate_for env req l) (pass l)).1 (cc, cc)

    by_found :
        (found : Option LanguageConfig)
        → ((elim found [
          | none ↦ reject (
              detail "unknown_language"
                ("language '" <> req.language <> "' is not in the registry"))
          | some l ↦ pass l
        ]
              >>= λ l. (validate_for env req l >> pass l))
            ≡ pass lc)
          ↔ ((found ≡ some lc) × (validate_for env req lc ≡ pass tt))
    by_found none = (λ e. cc, λ h. cc (h.0))
    by_found (some l) = (
      λ e. let h = (>>-eq-pass (validate_for env req l) _).0 e in same l h.0 h.1,
      λ h. other l (h.0) (h.1),
    )

-- A request passes validation, and runs under a language's configuration, exactly if it names a
-- language and a source, has 1 to 50 tests with texts of at most 65536 bytes, asks for at most 50
-- tests at once, has file names that are allowed, its language is registered with that
-- configuration, its limits and flags pass for each stage of that language, and its output cap is
-- at most the server's ceiling.
pub validate_iff :
    (reg : Registry) (env : String) (req : RunRequest) (lc : LanguageConfig)
    → (validate reg env req ≡ pass lc)
      ↔ (IsShaped req × (lookup req.language reg ≡ some lc) × Suits env req lc)
unfolding validate
validate_iff reg env req lc =
    reword (and_then _ _ (validate_shape_iff req) (find_language_iff reg env req lc))
      (λ h. (h.0, h.1.0, (validate_for_iff env req lc).0 h.1.1))
      (λ h. (h.0, (h.1, (validate_for_iff env req lc).1 h.2)))
