-- ===== src/Models.antt =====
-- internal/models/models.go: the data of the HTTP API. A pointer is an `Option`, `nil` is `none`.
-- A status is a text in the source, with a closed set of members: `unset` is the zero value "",
-- and `other` any text outside the set.
use goboxd.Base.{ℤ, String, Bool, true, false, List, Option, ◌≡◌, ◌↔◌, refl}

pub record Limits : Type 0 where
  pub wall_time_s : Option ℤ
  pub memory_kb : Option ℤ
  pub max_processes : Option ℤ
  pub cpu_time_s : Option ℤ

pub record StageConfig : Type 0 where
  pub limits : Option Limits
  pub flags : List String

pub record TestCase : Type 0 where
  pub stdin : String
  pub expected_stdout : String

pub record RunRequest : Type 0 where
  pub language : String
  pub source : String
  pub source_filename : String
  pub artifact_filename : String
  pub build : Option StageConfig
  pub run : Option StageConfig
  pub tests : List TestCase
  pub max_parallel : Option ℤ
  pub max_output_bytes : Option ℤ

pub data ResultStatus : Type 0 where
  accepted build_failed internal_error runtime_error time_exceeded memory_exceeded : ResultStatus
  wrong_output whitespace_mismatch not_executed cancelled cpu_time_exceeded unset : ResultStatus
  other : String → ResultStatus

pub data BuildStatus : Type 0 where
  ok failed internal_error unset : BuildStatus
  other : String → BuildStatus

-- `ResultStatus.Valid`
unfoldable pub result_valid : ResultStatus → Bool
result_valid ResultStatus.accepted = true
result_valid ResultStatus.build_failed = true
result_valid ResultStatus.internal_error = true
result_valid ResultStatus.runtime_error = true
result_valid ResultStatus.time_exceeded = true
result_valid ResultStatus.memory_exceeded = true
result_valid ResultStatus.wrong_output = true
result_valid ResultStatus.whitespace_mismatch = true
result_valid ResultStatus.not_executed = true
result_valid ResultStatus.cancelled = true
result_valid ResultStatus.cpu_time_exceeded = true
result_valid _ = false

-- `s == models.ResultAccepted`
abbrev pub is_accepted : ResultStatus → Bool
is_accepted ResultStatus.accepted = true
is_accepted _ = false

pub is_accepted_iff : (s : ResultStatus) → (is_accepted s ≡ true) ↔ (s ≡ ResultStatus.accepted)
is_accepted_iff ResultStatus.accepted = (λ e. refl, λ e. refl)
is_accepted_iff ResultStatus.build_failed = (λ e. cc, λ e. cc)
is_accepted_iff ResultStatus.internal_error = (λ e. cc, λ e. cc)
is_accepted_iff ResultStatus.runtime_error = (λ e. cc, λ e. cc)
is_accepted_iff ResultStatus.time_exceeded = (λ e. cc, λ e. cc)
is_accepted_iff ResultStatus.memory_exceeded = (λ e. cc, λ e. cc)
is_accepted_iff ResultStatus.wrong_output = (λ e. cc, λ e. cc)
is_accepted_iff ResultStatus.whitespace_mismatch = (λ e. cc, λ e. cc)
is_accepted_iff ResultStatus.not_executed = (λ e. cc, λ e. cc)
is_accepted_iff ResultStatus.cancelled = (λ e. cc, λ e. cc)
is_accepted_iff ResultStatus.cpu_time_exceeded = (λ e. cc, λ e. cc)
is_accepted_iff ResultStatus.unset = (λ e. cc, λ e. cc)
is_accepted_iff (ResultStatus.other s) = (λ e. cc, λ e. cc)

-- `BuildStatus.Valid`
unfoldable pub build_valid : BuildStatus → Bool
build_valid BuildStatus.ok = true
build_valid BuildStatus.failed = true
build_valid BuildStatus.internal_error = true
build_valid _ = false

-- The text of a status.
unfoldable pub result_text : ResultStatus → String
result_text ResultStatus.accepted = "accepted"
result_text ResultStatus.build_failed = "build_failed"
result_text ResultStatus.internal_error = "internal_error"
result_text ResultStatus.runtime_error = "runtime_error"
result_text ResultStatus.time_exceeded = "time_exceeded"
result_text ResultStatus.memory_exceeded = "memory_exceeded"
result_text ResultStatus.wrong_output = "wrong_output"
result_text ResultStatus.whitespace_mismatch = "output_whitespace_mismatch"
result_text ResultStatus.not_executed = "not_executed"
result_text ResultStatus.cancelled = "cancelled"
result_text ResultStatus.cpu_time_exceeded = "cpu_time_exceeded"
result_text ResultStatus.unset = ""
result_text (ResultStatus.other s) = s

unfoldable pub build_text : BuildStatus → String
build_text BuildStatus.ok = "ok"
build_text BuildStatus.failed = "failed"
build_text BuildStatus.internal_error = "internal_error"
build_text BuildStatus.unset = ""
build_text (BuildStatus.other s) = s

-- `ResultStatus.MarshalJSON`, before the text is quoted.
unfoldable pub marshal_result : ResultStatus → String
unfolding result_text
marshal_result ResultStatus.unset = "not_executed"
marshal_result s = result_text s

pub record BuildResult : Type 0 where
  pub status : BuildStatus
  pub stdout : String
  pub stderr : String
  pub duration_ms : ℤ
  pub cpu_time_ms : ℤ

pub record TestResult : Type 0 where
  pub status : ResultStatus
  pub stdout : String
  pub stderr : String
  pub duration_ms : ℤ
  pub cpu_time_ms : ℤ
  pub memory_peak_kb : ℤ
  pub exit_code : ℤ
  pub termination_signal : ℤ

pub record RunResponse : Type 0 where
  pub status : String
  pub build : BuildResult
  pub tests : Option (List TestResult)

pub record ErrorDetail : Type 0 where
  pub code : String
  pub message : String
