-- ===== src/Runner/Execute.antt =====
-- `ExecuteRun` and `runBuild` of internal/runner/runner.go. What the sandbox does is a record: the
-- jails that cannot be made, the executions, the times, and when the context is done. The parallel
-- branch writes each result at its test's place, whatever the order in which the tests end.
pub mod Results
use goboxd.Base.{
  ℕ, zero, suc, ℤ, pos, ltb_ℤ, String, Bool, true, false, List, [], ◌∷◌, Option, none, some, ◌≡◌,
  refl, ◌<>◌, if◌then◌else◌, ◌*◌, ◌&&◌,
}
use goboxd.Models.{
  RunRequest, StageConfig, TestCase, BuildResult, BuildStatus, TestResult, ResultStatus,
}
use goboxd.Config.{LanguageConfig}
use goboxd.Runner.Verdict.{ContextError, deadline_exceeded, canceled}
use goboxd.Runner.Single.{
  ExecLimits, Execution, expand_flags, effective_limits, stage_flags, run_single_test, fail_result,
  millis,
}

-- The files of a jail's app directory, by their names.
abbrev pub AppFiles : Type 0
AppFiles = List (String × String)

pub record Sandbox : Type 0 where
  pub new_jail : Option String  -- the error of the template jail
  pub cpus : ℤ  -- `runtime.NumCPU()`
  pub build_ms : ℤ
  pub build : ExecLimits → List String → ℤ → Execution
  pub gone : ℕ → Bool  -- `ctx.Err() != nil` before a test
  pub gone_at_start : ℕ → Bool  -- the same at the head of `runSingleTest`
  pub own_jail : ℕ → Option String  -- the error of a parallel test's jail
  pub seed : ℕ → Option String  -- the error of filling it
  pub fail_ms : ℕ → ℤ
  pub template : AppFiles  -- the app directory of the template jail after the build
  pub seeded : ℕ → AppFiles → AppFiles  -- that of a parallel test's jail after filling it
  -- The execution for a test, from the files of its jail, and the files that it leaves there.
  pub execute : ℕ → AppFiles → ExecLimits → List String → String → ℤ → Execution × AppFiles

-- `outputCap`
unfoldable pub output_cap : Option ℤ → ℤ
output_cap none = pos (64 * 1024)
output_cap (some n) = if ltb_ℤ (pos 0) n then n else pos (64 * 1024)

-- `effectiveParallel`
unfoldable pub effective_parallel : Option ℤ → ℤ → ℤ
effective_parallel none cpus = pos 1
effective_parallel (some n) cpus =
    if ltb_ℤ (pos 1) n then (if ltb_ℤ (pos 0) cpus && ltb_ℤ cpus n then cpus else n) else pos 1

abbrev pub timed_out : Option ContextError → Bool
timed_out (some deadline_exceeded) = true
timed_out _ = false

abbrev built : Execution → BuildStatus → String → BuildResult
built x status mark = record {
  status = status;
  stdout = x.outcome.stdout;
  stderr = x.outcome.stderr <> mark;
  duration_ms = pos 0;
  cpu_time_ms = millis x.outcome.cpu_time_us;
}

abbrev build_timeout : String
build_timeout = "\n... [build timed out]"

-- The tests on the error, the deadline and the kind of failure.
pub classify_build : Execution → Option String → Bool → Bool → BuildResult × Option String
classify_build x none true infra = (built x BuildStatus.failed build_timeout, none)
classify_build x none false infra = (built x BuildStatus.ok "", none)
classify_build x (some m) true infra = (built x BuildStatus.failed build_timeout, none)
classify_build x (some m) false true = (built x BuildStatus.internal_error "", some m)
classify_build x (some m) false false = (built x BuildStatus.failed "", none)

-- The classification of `runBuild`: the result, and the error that it returns.
unfoldable pub judge_build : Execution → BuildResult × Option String
unfolding classify_build
judge_build x = classify_build x x.outcome.err (timed_out x.ctx) x.outcome.infra

-- `runBuild`
unfoldable pub run_build : Sandbox → RunRequest → LanguageConfig → BuildResult × Option String
unfolding judge_build output_cap
run_build w req lc = judge_build (
    w.build (effective_limits req.build lc.build_limits)
      (expand_flags lc.build_cmd (stage_flags req.build)) (output_cap req.max_output_bytes))

-- `runSingleTest` for the test with an index, in a jail with some files.
unfoldable pub test_in :
    Sandbox → RunRequest → LanguageConfig → ℕ → AppFiles → TestCase → TestResult
test_in w req lc i files tc =
    run_single_test (w.gone_at_start i) (w.fail_ms i)
      (λ lim cmd stdin cap. (w.execute i files lim cmd stdin cap).0) tc lc req.run
      (output_cap req.max_output_bytes)

-- The files that it leaves in the jail: it executes nothing where the context is done at its head.
unfoldable pub files_after :
    Sandbox → RunRequest → LanguageConfig → ℕ → AppFiles → TestCase → AppFiles
files_after w req lc i files tc =
    if w.gone_at_start i
    then files
    else (w.execute i files (effective_limits req.run lc.run_limits)
        (expand_flags lc.run_cmd (stage_flags req.run)) tc.stdin
        (output_cap req.max_output_bytes)).1

-- The sequential loop, from the test with a given index, in the one jail with its files.
unfoldable pub run_in_turn :
    Sandbox → RunRequest → LanguageConfig → AppFiles → ℕ → List TestCase → List TestResult
unfolding test_in files_after
run_in_turn w req lc files i [] = []
run_in_turn w req lc files i (tc ∷ tcs) =
    let rest = run_in_turn w req lc (files_after w req lc i files tc) (suc i) tcs in
    if w.gone i then [] else test_in w req lc i files tc ∷ rest

-- A test in a jail of its own, where neither making nor filling it fails.
pub if_jailed : Option String → Option String → TestResult → TestResult
if_jailed (some e) seed result = fail_result ResultStatus.internal_error e (pos 0)
if_jailed none (some e) result =
    fail_result ResultStatus.internal_error ("seeding jail: " <> e) (pos 0)
if_jailed none none result = result

-- One goroutine.
pub in_own_jail : Sandbox → RunRequest → LanguageConfig → ℕ → TestCase → TestResult
unfolding if_jailed test_in
in_own_jail w req lc i tc =
    if_jailed (w.own_jail i) (w.seed i) (test_in w req lc i (w.seeded i w.template) tc)

-- The zero results of the tests after a break.
pub unstarted : List TestCase → List TestResult
unstarted [] = []
unstarted (tc ∷ tcs) = fail_result ResultStatus.unset "" (pos 0) ∷ unstarted tcs

-- The parallel loop, from the test with a given index.
unfoldable pub run_apart :
    Sandbox → RunRequest → LanguageConfig → ℕ → List TestCase → List TestResult
unfolding in_own_jail unstarted
run_apart w req lc i [] = []
run_apart w req lc i (tc ∷ tcs) =
    let rest = run_apart w req lc (suc i) tcs in
    if w.gone i then unstarted (tc ∷ tcs) else in_own_jail w req lc i tc ∷ rest

abbrev pub or_nil : List TestResult → Option (List TestResult)
or_nil [] = none
or_nil (t ∷ ts) = some (t ∷ ts)

-- The tests; a slice that nothing was appended to is nil.
unfoldable pub run_tests : Sandbox → RunRequest → LanguageConfig → Option (List TestResult)
unfolding run_in_turn run_apart
run_tests w req lc =
    if ltb_ℤ (pos 1) (effective_parallel req.max_parallel w.cpus)
    then some (run_apart w req lc 0 req.tests)
    else or_nil (run_in_turn w req lc w.template 0 req.tests)

abbrev pub no_build : BuildStatus → String → BuildResult
no_build status stderr = record {
  status = status;
  stdout = "";
  stderr = stderr;
  duration_ms = pos 0;
  cpu_time_ms = pos 0;
}

abbrev pub RunResult : Type 0
RunResult = BuildResult × Option (List TestResult) × Option String

-- Without an error of the build: its failure, or the tests.
unfoldable pub unless_failed :
    Sandbox → RunRequest → LanguageConfig → BuildResult → BuildStatus → RunResult
unless_failed w req lc b BuildStatus.ok = (b, run_tests w req lc, none)
unless_failed w req lc b _ = (b, none, none)

-- After the build: its error, its failure, or the tests.
unfoldable pub after_build :
    Sandbox → RunRequest → LanguageConfig → BuildResult × Option String → RunResult
unfolding unless_failed
after_build w req lc (b, some e) = (record b { duration_ms = w.build_ms }, none, some e)
after_build w req lc (b, none) =
    unless_failed w req lc (record b { duration_ms = w.build_ms }) b.status

unfoldable pub build_and_test : Sandbox → RunRequest → LanguageConfig → List String → RunResult
unfolding after_build
build_and_test w req lc [] = (no_build BuildStatus.ok "", run_tests w req lc, none)
build_and_test w req lc (cmd ∷ args) = after_build w req lc (run_build w req lc)

-- `ExecuteRun`
unfoldable pub execute_run : Sandbox → RunRequest → LanguageConfig → RunResult
unfolding build_and_test
execute_run w req lc = elim w.new_jail [
  | some e ↦ (no_build BuildStatus.internal_error e, none, some ("materializing jail: " <> e))
  | none ↦ build_and_test w req lc lc.build_cmd
]
