-- ===== src/Runner/Single.antt =====
-- `expandFlags`, `runSingleTest` and the data of one execution (internal/runner/runner.go and
-- exec.go). What nsjail, the kernel and the clock give is the `Execution` of a command.
pub mod Bounded
use goboxd.Base.{
  ℕ, zero, suc, ◌+◌, ℤ, pos, negsuc, String, Bool, true, false, List, [], ◌∷◌, ◌++◌, Option, none,
  some, ◌≡◌, refl, str_eq, ◌*◌, ◌/◌, if◌then◌else◌, wrap_int64,
}
use goboxd.Models
use goboxd.Models.{StageConfig, TestCase, TestResult, ResultStatus}
use goboxd.Config
use goboxd.Runner.Verdict.{WaitStatus, ContextError, CpuOutcome, compute_test_status}

-- `expandFlags`
unfoldable pub expand_flags : List String → List String → List String
expand_flags [] flags = []
expand_flags (arg ∷ args) flags =
    let rest = expand_flags args flags in
    if str_eq arg "{{flags}}" then flags ++ rest else arg ∷ rest

pub record ExecLimits : Type 0 where
  pub wall_time : ℤ
  pub cpu_limit : ℤ
  pub mem_kb : ℤ
  pub procs : ℤ

-- `ExecOutcome`; an error is its text.
pub record ExecOutcome : Type 0 where
  pub stdout : String
  pub stderr : String
  pub oom_killed : Bool
  pub cpu_killed : Bool
  pub cpu_time_us : ℤ
  pub exit_code : ℤ
  pub term_signal : ℤ
  pub infra : Bool
  pub err : Option String
  pub ps : Option WaitStatus

-- What `execJail` returns, with what the caller then reads: `ctx.Err()`, the time since its start
-- and the memory peak.
pub record Execution : Type 0 where
  pub outcome : ExecOutcome
  pub ctx : Option ContextError
  pub duration_ms : ℤ
  pub memory_peak_kb : ℤ

abbrev pub or_configured : Option ℤ → ℤ → ℤ
or_configured none configured = configured
or_configured (some v) configured = v

pub override : Option Models.Limits → Config.Limits → ExecLimits
override none l = record {
  wall_time = l.wall_time_s;
  cpu_limit = l.cpu_time_s;
  mem_kb = l.memory_kb;
  procs = l.max_processes;
}
override (some r) l = record {
  wall_time = or_configured r.wall_time_s l.wall_time_s;
  cpu_limit = or_configured r.cpu_time_s l.cpu_time_s;
  mem_kb = or_configured r.memory_kb l.memory_kb;
  procs = or_configured r.max_processes l.max_processes;
}

-- The limits of a stage: the configured ones, with the request's in their place where it has any.
unfoldable pub effective_limits : Option StageConfig → Config.Limits → ExecLimits
unfolding override
effective_limits none l = override none l
effective_limits (some c) l = override c.limits l

abbrev pub stage_flags : Option StageConfig → List String
stage_flags none = []
stage_flags (some c) = c.flags

abbrev pub no_text : String → Bool
no_text s = str_eq s ""

abbrev text_of : Option String → String → String
text_of none s = s
text_of (some m) s = if no_text s then m else s

-- The number with a minus before it.
abbrev negated : ℕ → ℤ
negated zero = pos 0
negated (suc n) = negsuc n

-- The quotient of Go, which rounds towards zero.
abbrev pub millis : ℤ → ℤ
millis (pos us) = pos (us / 1000)
millis (negsuc us) = negated ((us + 1) / 1000)

-- The microseconds of a limit in seconds.
abbrev pub micros : ℤ → ℤ
micros (pos s) = pos (s * 1000000)
micros (negsuc s) = negated ((s + 1) * 1000000)

-- The result of a test from its execution, under a CPU limit.
unfoldable pub judge_execution : TestCase → ℤ → Execution → TestResult
judge_execution tc cpu_limit x =
    let o = x.outcome in
    if o.infra
    then record {
      status = ResultStatus.internal_error;
      stdout = o.stdout;
      stderr = text_of o.err o.stderr;
      duration_ms = x.duration_ms;
      cpu_time_ms = pos 0;
      memory_peak_kb = pos 0;
      exit_code = pos 0;
      termination_signal = pos 0;
    }
    else record {
      status =
          compute_test_status x.ctx o.err o.stdout tc.expected_stdout o.ps o.oom_killed (record {
            limit_us = wrap_int64 (micros cpu_limit);
            time_us = o.cpu_time_us;
            killed = o.cpu_killed;
          });
      stdout = o.stdout;
      stderr = o.stderr;
      duration_ms = x.duration_ms;
      cpu_time_ms = millis o.cpu_time_us;
      memory_peak_kb = x.memory_peak_kb;
      exit_code = o.exit_code;
      termination_signal = o.term_signal;
    }

-- `failResult`
abbrev pub fail_result : ResultStatus → String → ℤ → TestResult
fail_result status stderr ms = record {
  status = status;
  stdout = "";
  stderr = stderr;
  duration_ms = ms;
  cpu_time_ms = pos 0;
  memory_peak_kb = pos 0;
  exit_code = pos 0;
  termination_signal = pos 0;
}

-- `runSingleTest`: whether the context is done at its head, the time that failing takes, and the
-- execution of a command under limits with an input and an output cap.
unfoldable pub run_single_test :
    Bool
    → ℤ
    → (ExecLimits → List String → String → ℤ → Execution)
    → TestCase
    → Config.LanguageConfig
    → Option StageConfig
    → ℤ
    → TestResult
unfolding judge_execution expand_flags effective_limits
run_single_test gone ms execute tc lc opts output_cap =
    if gone
    then fail_result ResultStatus.cancelled "" ms
    else judge_execution tc (effective_limits opts lc.run_limits).cpu_limit (
        execute (effective_limits opts lc.run_limits) (expand_flags lc.run_cmd (stage_flags opts))
          tc.stdin output_cap)
