-- ===== src/Tests/Sandbox.antt =====
-- The runner and the answers, internal/runner/runner.go and internal/api/handlers.go, on small inputs.
use goboxd.Base.{
  suc, pos, String, true, false, [], ◌∷◌, Option, none, some, ◌≡◌, ◌↔◌, ◌⊎◌, refl, length, arith,
}
use goboxd.Models.{StageConfig, RunRequest, BuildResult, BuildStatus, ResultStatus}
use goboxd.Config
use goboxd.Config.{LanguageConfig, no_limits}
use goboxd.Admission.{new_gate}
use goboxd.Runner.Verdict.{
  WaitStatus, ContextError, exited, CpuOutcome, compute_test_status,
  compute_test_status-accepted_iff,
}
use goboxd.Runner.Single.{Execution, effective_limits}
use goboxd.Runner.Single.Bounded.{UnderCeiling, configured, effective_limits-UnderCeiling}
use goboxd.Runner.Execute.{Sandbox, run_tests, execute_run}
use goboxd.Runner.Execute.Results.{results_of}
use goboxd.Api.Check.{pass}
use goboxd.Api.Limits.{ceiling_at, check_field, check_cpu, validate_stage_limits}
use goboxd.Api.Metrics.{IsBalanced, sum}
use goboxd.Api.Handle.{Server, answer, admit, finish}
use goboxd.Api.Handle.Answer.{answer-every_test, finish-IsBalanced}

abbrev clean_cpu : CpuOutcome
clean_cpu = record { limit_us = pos 0; time_us = pos 1200; killed = false }

abbrev hello : String
hello = "hello"

abbrev clean_exit : Option WaitStatus
clean_exit = some (exited 0)

abbrev no_context : Option ContextError
no_context = none

abbrev no_error : Option String
no_error = none

compute_test_status_example :
    (compute_test_status no_context no_error hello hello clean_exit false clean_cpu
      ≡ ResultStatus.accepted)
    ↔ ((no_context ≡ none)
        × (no_error ≡ none)
        × (false ≡ false)
        × (false ≡ false)
        × ((hello ≡ "") ⊎ (hello ≡ hello)))
compute_test_status_example =
    compute_test_status-accepted_iff no_context no_error hello hello clean_exit false clean_cpu

abbrev ten_seconds : Config.Limits
ten_seconds = record {
  wall_time_s = pos 10;
  memory_kb = pos 262144;
  max_processes = pos 64;
  cpu_time_s = pos 5;
}

abbrev half_the_time : StageConfig
half_the_time = record {
  limits = some (record {
    wall_time_s = some (pos 5);
    memory_kb = none;
    max_processes = none;
    cpu_time_s = some (pos 3);
  });
  flags = [];
}

half_valid : validate_stage_limits (some half_the_time) ten_seconds no_limits true "run" ≡ pass tt
unfolding validate_stage_limits ceiling_at check_field check_cpu
half_valid = refl

own_limits : UnderCeiling (configured ten_seconds) ten_seconds no_limits
unfolding ceiling_at effective_limits
own_limits = record {
  wall_time = omega arith;
  memory = omega arith;
  processes = omega arith;
  cpu_time = omega arith;
}

effective_limits_example :
    UnderCeiling (effective_limits (some half_the_time) ten_seconds) ten_seconds no_limits
effective_limits_example =
    effective_limits-UnderCeiling (some half_the_time) ten_seconds no_limits true "run" own_limits
      half_valid

abbrev shell : LanguageConfig
shell = record {
  id = "bash";
  name = "Bash";
  source_filename = "main.sh";
  artifact_filename = "";
  build_cmd = [];
  run_cmd = "/bin/bash" ∷ "{{flags}}" ∷ "main.sh" ∷ [];
  default_limits = ten_seconds;
  build_limits = no_limits;
  run_limits = ten_seconds;
  build_ceiling = no_limits;
  run_ceiling = ten_seconds;
  default_ceiling = ten_seconds;
  flag_allowlist = [];
  smoke_cmd = [];
  source_filename_strategy = "";
  seccomp = "";
}

abbrev two_tests : RunRequest
two_tests = record {
  language = "bash";
  source = "echo hello";
  source_filename = "";
  artifact_filename = "";
  build = none;
  run = some half_the_time;
  tests =
      record { stdin = ""; expected_stdout = "hello" }
      ∷ record { stdin = ""; expected_stdout = "" }
      ∷ [];
  max_parallel = some (pos 2);
  max_output_bytes = none;
}

-- Every command prints the same and ends well.
abbrev prints_hello : Execution
prints_hello = record {
  outcome = record {
    stdout = "hello";
    stderr = "";
    oom_killed = false;
    cpu_killed = false;
    cpu_time_us = pos 1200;
    exit_code = pos 0;
    term_signal = pos 0;
    infra = false;
    err = none;
    ps = clean_exit;
  };
  ctx = none;
  duration_ms = pos 9;
  memory_peak_kb = pos 2048;
}

abbrev calm : Sandbox
calm = record {
  new_jail = none;
  cpus = pos 4;
  build_ms = pos 0;
  build = λ l cmd cap. prints_hello;
  gone = λ i. false;
  gone_at_start = λ i. false;
  own_jail = λ i. none;
  seed = λ i. none;
  fail_ms = λ i. pos 0;
  template = ("main.sh", "echo hello") ∷ [];
  seeded = λ i files. files;
  execute = λ i files l cmd input cap. (prints_hello, files);
}

abbrev no_uid : Sandbox
no_uid = record calm { new_jail = some "uid pool exhausted" }

abbrev no_jail_build : BuildResult
no_jail_build = record {
  status = BuildStatus.internal_error;
  stdout = "";
  stderr = "uid pool exhausted";
  duration_ms = pos 0;
  cpu_time_ms = pos 0;
}

no_uid_fails :
    execute_run no_uid two_tests shell
    ≡ (no_jail_build, none, some "materializing jail: uid pool exhausted")
unfolding execute_run
no_uid_fails = refl

abbrev no_build_step : BuildResult
no_build_step = record {
  status = BuildStatus.ok;
  stdout = "";
  stderr = "";
  duration_ms = pos 0;
  cpu_time_ms = pos 0;
}

calm_runs : execute_run calm two_tests shell ≡ (no_build_step, run_tests calm two_tests shell, none)
unfolding execute_run
calm_runs = refl

answer-every_test_example :
    length
      (results_of (answer two_tests.tests no_build_step (run_tests calm two_tests shell)).tests)
    ≡ length two_tests.tests
answer-every_test_example =
    answer-every_test calm two_tests shell no_build_step (run_tests calm two_tests shell)
      (λ i. refl) calm_runs

abbrev fresh_server : Server
fresh_server = record {
  gate = new_gate 4 4;
  metrics = record {
    in_flight = 2;
    total_runs = 3;
    errors = 1;
    statuses = ("accepted", 2) ∷ ("internal_error", 1) ∷ [];
    latency = ("<=50", 3) ∷ [];
  };
  last_internal_error = none;
}

fresh_server-IsBalanced : IsBalanced fresh_server.metrics
unfolding sum
fresh_server-IsBalanced = record { statuses = refl; latency = refl; errors = omega arith }

finish-IsBalanced_example :
    IsBalanced
      (finish two_tests.tests false
        (pos 77)
        (pos 9)
        (execute_run calm two_tests shell)
        (admit fresh_server)).0.metrics
    × ((finish two_tests.tests false
          (pos 77)
          (pos 9)
          (execute_run calm two_tests shell)
          (admit fresh_server)).0.metrics.total_runs
        ≡ suc fresh_server.metrics.total_runs)
    × ((finish two_tests.tests false
          (pos 77)
          (pos 9)
          (execute_run calm two_tests shell)
          (admit fresh_server)).0.metrics.in_flight
        ≡ fresh_server.metrics.in_flight)
finish-IsBalanced_example =
    finish-IsBalanced two_tests.tests false (pos 77) (pos 9) (execute_run calm two_tests shell)
      fresh_server fresh_server-IsBalanced
