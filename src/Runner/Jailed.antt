-- ===== src/Runner/Jailed.antt =====
-- `runSingleTest` of internal/runner/runner.go over `execJail`: the execution of a test's command in its
-- jail, with the memory peak that the caller then reads.
use goboxd.Base.{
  ℕ, ◌<◌, ℤ, pos, to_ℕ, ltb_ℤ, String, true, false, List, Option, none, some, ◌≡◌, ◌≢◌, refl, ap,
  ◌∙◌, lt→ltb, if◌then◌else◌, wrap_int64,
}
use goboxd.Models.{StageConfig, TestCase, ResultStatus}
use goboxd.Config
use goboxd.Cgroup.{Files, peak_kb}
use goboxd.Cgroup.Written.{all_kills}
use goboxd.Runner.Verdict.{
  ContextError, canceled, deadline_exceeded, compute_test_status, CpuOutcome, WaitStatus,
}
use goboxd.Runner.Single.{
  ExecLimits, Execution, ExecOutcome, run_single_test, judge_execution, effective_limits,
  expand_flags, stage_flags, micros,
}
use goboxd.Runner.Args.{Args, args, CgroupJail}
use goboxd.Runner.Exec.{Run, exec_jail, collect}
use goboxd.Runner.Exec.Killed.{Started, Shows, AllShow, exec_jail-oom_killed, exec_jail-collect}

-- The peak of the jail's cgroup, or that of the process's children, which `readMemoryPeakKB` reads.
unfoldable pub memory_peak : Option CgroupJail → Files → ℤ → ℤ
memory_peak none f maxrss = if ltb_ℤ (pos 0) maxrss then maxrss else pos 0
memory_peak (some cg) f maxrss = peak_kb f

-- What surrounds the executions of one test.
pub record Surroundings : Type 0 where
  pub text : List ℕ → String
  pub build : ExecLimits → Args
  pub cg : Option CgroupJail
  pub run : ExecLimits → List String → String → Run
  pub ctx : Option ContextError
  pub duration_ms : ℤ
  pub maxrss : ℤ

-- The call of `execJail`, and what is read after it.
unfoldable pub execute : Surroundings → ExecLimits → List String → String → ℤ → Execution
unfolding memory_peak
execute s lim cmd stdin cap = record {
  outcome = exec_jail s.text (s.build lim) s.cg lim (to_ℕ cap) (s.run lim cmd stdin);
  ctx = s.ctx;
  duration_ms = s.duration_ms;
  memory_peak_kb = memory_peak s.cg (s.run lim cmd stdin).after s.maxrss;
}

compute_test_status-oom :
    (ctx : Option ContextError) (err : Option String) (stdout expected : String)
    (ps : Option WaitStatus) (cpu : CpuOutcome)
    → ctx ≢ some canceled
    → compute_test_status ctx err stdout expected ps true cpu ≡ ResultStatus.memory_exceeded
unfolding compute_test_status
compute_test_status-oom none err stdout expected ps cpu h = refl
compute_test_status-oom (some deadline_exceeded) err stdout expected ps cpu h = refl
compute_test_status-oom (some canceled) err stdout expected ps cpu h = absurd (h refl)

judge_execution-oom :
    (tc : TestCase) (limit : ℤ) (x : Execution)
    → x.outcome.infra ≡ false
    → x.outcome.oom_killed ≡ true
    → x.ctx ≢ some canceled
    → (judge_execution tc limit x).status ≡ ResultStatus.memory_exceeded
unfolding judge_execution
judge_execution-oom tc limit x infra oom h =
    simp (judge_execution, infra, oom)
      (compute_test_status-oom x.ctx x.outcome.err x.outcome.stdout tc.expected_stdout x.outcome.ps
        (record {
          limit_us = wrap_int64 (micros limit);
          time_us = x.outcome.cpu_time_us;
          killed = x.outcome.cpu_killed;
        })
        h)

-- What happens in the jail of a test.
abbrev pub run_of : Surroundings → TestCase → Config.LanguageConfig → Option StageConfig → Run
run_of s tc lc opts =
    s.run (effective_limits opts lc.run_limits) (expand_flags lc.run_cmd (stage_flags opts))
      tc.stdin

-- A test whose jail has a cgroup, and during which the kernel's count of OOM kills in that cgroup goes
-- up, is reported as over its memory, unless its request was cancelled: whatever the signal, the
-- exit code and the clock say. The counters are those that the kernel writes, and do not go down.
pub run_single_test-oom :
    (s : Surroundings) (cg : CgroupJail) (line : List String) (ms : ℤ) (tc : TestCase)
    (lc : Config.LanguageConfig) (opts : Option StageConfig) (cap : ℤ)
    (first last : List (String × Option (List (String × ℕ))))
    → s.cg ≡ some cg
    → s.build (effective_limits opts lc.run_limits) ≡ args line
    → Started (run_of s tc lc opts)
    → Shows (run_of s tc lc opts).before first
    → AllShow (all_kills last) (run_of s tc lc opts).ticks
    → Shows (run_of s tc lc opts).after last
    → all_kills first < all_kills last
    → s.ctx ≢ some canceled
    → (run_single_test false ms (execute s) tc lc opts cap).status ≡ ResultStatus.memory_exceeded
unfolding run_single_test execute collect
run_single_test-oom s cg line ms tc lc opts cap first last is_cg built started before ticks after
      more h =
    let lim = effective_limits opts lc.run_limits in
    let w = run_of s tc lc opts in
    let jailed : (execute s lim (expand_flags lc.run_cmd (stage_flags opts)) tc.stdin cap).outcome
        ≡ exec_jail s.text (args line) (some cg) lim (to_ℕ cap) w =
      ap (λ b. exec_jail s.text b s.cg lim (to_ℕ cap) w) built
      ∙ ap (λ g. exec_jail s.text (args line) g lim (to_ℕ cap) w) is_cg in
    let infra =
      ap (λ (o : ExecOutcome). o.infra)
        (jailed ∙ exec_jail-collect s.text line (some cg) lim (to_ℕ cap) w started) in
    let oom =
      ap (λ (o : ExecOutcome). o.oom_killed) jailed
      ∙ (exec_jail-oom_killed s.text line cg lim (to_ℕ cap) w first last started before ticks after
          ∙ lt→ltb (all_kills first) (all_kills last) more) in
    judge_execution-oom tc lim.cpu_limit
      (execute s lim (expand_flags lc.run_cmd (stage_flags opts)) tc.stdin cap) infra oom h
