-- ===== src/Api/Validate.antt =====
-- `HandleRun` of internal/api/handlers.go up to the admission gate: the checks on a decoded request.
pub mod Exact
use Prim.Native.String
use goboxd.Base.{
  ℕ, zero, suc, ◌+◌, ◌*◌, ◌≤◌, ◌<◌, ℤ, pos, leb_ℤ, ltb_ℤ, ◌≤ℤ◌, decimal, decimal_ℤ, to_ℕ, atoi,
  String, Bool, true, false, not, ◌&&◌, ◌||◌, List, [], ◌∷◌, Option, none, some, ◌≡◌, ◌≢◌, ◌↔◌,
  refl, ◌<>◌, str_eq, ltb, length, if◌then◌else◌, arith,
}
use goboxd.Models.{StageConfig, TestCase, RunRequest, ErrorDetail}
use goboxd.Config.{LanguageConfig, Registry, lookup}
use goboxd.UidPool.{positive_env}
use goboxd.Api.Check.{Check, pass, reject, ◌>>=◌, ◌>>◌, detail, reject_if}
use goboxd.Api.Filename.{is_valid_filename}
use goboxd.Api.Flags.{validate_flags}
use goboxd.Api.Limits.{validate_stage_limits}

abbrev pub max_tests : ℕ
max_tests = 50

abbrev pub max_field_bytes : ℕ
max_field_bytes = 64 * 1024

-- The check on `max_parallel`.
unfoldable pub check_parallel : Option ℤ → Check (Unit {0})
check_parallel none = pass tt
check_parallel (some n) = reject_if (ltb_ℤ (pos 0) n && ltb_ℤ (pos max_tests) n) (
    detail "invalid_max_parallel"
      ("max_parallel of " <> decimal_ℤ n <> " exceeds maximum of " <> decimal max_tests))

too_large : ℕ → String → ErrorDetail
too_large i field =
    detail "test_too_large"
      ("tests[" <> decimal i <> "]." <> field <> " exceeds " <> decimal max_field_bytes <> " bytes")

-- The loop over the tests, from the test with a given index.
unfoldable pub check_tests : ℕ → List TestCase → Check (Unit {0})
unfolding too_large
check_tests i [] = pass tt
check_tests i (t ∷ ts) = do
  reject_if (ltb max_field_bytes (String.len t.stdin)) (too_large i "stdin")
  reject_if (ltb max_field_bytes (String.len t.expected_stdout)) (too_large i "expected_stdout")
  check_tests (suc i) ts

unfoldable pub find_language : Registry → String → Check LanguageConfig
find_language reg id = elim (lookup id reg) [
  | none ↦ reject (detail "unknown_language" ("language '" <> id <> "' is not in the registry"))
  | some lc ↦ pass lc
]

abbrev pub flags_of : Option StageConfig → List String
flags_of none = []
flags_of (some c) = c.flags

-- The flag check of one stage; without flags there is nothing to check.
unfoldable pub check_flags : String → List String → List String → Check (Unit {0})
check_flags stage [] allowlist = pass tt
check_flags stage (f ∷ fs) allowlist = elim (validate_flags (f ∷ fs) allowlist) [
  | none ↦ pass tt
  | some bad ↦ reject (detail "invalid_flags" ("disallowed " <> stage <> " flag: " <> bad))
]

-- The ceiling on `max_output_bytes`, from GOBOXD_MAX_OUTPUT_BYTES.
unfoldable pub output_ceiling : String → ℕ
output_ceiling env = positive_env env 1048576

unfoldable pub check_output : String → Option ℤ → Check (Unit {0})
unfolding output_ceiling
check_output env none = pass tt
check_output env (some n) = reject_if (ltb_ℤ (pos 0) n && ltb_ℤ (pos (output_ceiling env)) n) (
    detail "limit_exceeded" (
      "max_output_bytes of "
      <> decimal_ℤ n
      <> " exceeds ceiling of "
      <> decimal (output_ceiling env)))

abbrev pub is_empty {ℓ} : {A : Type ℓ} → List A → Bool
is_empty [] = true
is_empty (x ∷ xs) = false

-- The checks that need the language.
unfoldable pub validate_for : String → RunRequest → LanguageConfig → Check (Unit {0})
validate_for env req lc = do
  validate_stage_limits req.build lc.build_limits lc.build_ceiling (not (is_empty lc.build_cmd))
      "build"
  validate_stage_limits req.run lc.run_limits lc.run_ceiling true "run"
  check_flags "build" (flags_of req.build) lc.flag_allowlist
  check_flags "run" (flags_of req.run) lc.flag_allowlist
  check_output env req.max_output_bytes

-- The checks that need the request alone.
unfoldable pub validate_shape : RunRequest → Check (Unit {0})
validate_shape req = do
  reject_if (str_eq req.language "") (detail "missing_language" "language field is required")
  reject_if (str_eq req.source "") (detail "missing_source" "source field is required")
  reject_if (is_empty req.tests) (detail "missing_tests" "at least one test is required")
  reject_if (ltb max_tests (length req.tests))
      (detail "too_many_tests" ("test count exceeds maximum of " <> decimal max_tests))
  check_parallel req.max_parallel
  check_tests 0 req.tests
  reject_if
      (not (is_valid_filename req.source_filename) || not (is_valid_filename req.artifact_filename))
      (detail "invalid_filename"
        "filename must be a single path component without traversal characters")

unfoldable pub validate : Registry → String → RunRequest → Check LanguageConfig
unfolding validate_shape find_language validate_for
validate reg env req = do
  validate_shape req
  lc ← find_language reg req.language
  validate_for env req lc
  pass lc
