-- ===== src/Tests/Service.antt =====
-- The registry and the checks of requests, internal/config and internal/api, on small inputs.
use goboxd.Base.{
  ◌≤◌, ◌⊎◌, pos, String, true, false, List, [], ◌∷◌, none, some, ◌≡◌, ◌≢◌, ◌↔◌, refl, if◌then◌else◌,
}
use goboxd.Base.Strings.{split, trim_space, has_prefix, has_char, contains, has_suffix, trim_last}
use goboxd.UidPool.{positive_env}
use goboxd.Models.{StageConfig, RunRequest}
use goboxd.Config
use goboxd.Config.{
  StageCmd, LanguageYaml, LanguageConfig, Registry, lookup, load_registry, parsed, parse_failed,
  unparsable, no_limits,
}
use goboxd.Config.Registry.{
  find_language, selected, fresh_ids, lookup-load_registry, load_registry_ok_iff,
}
use goboxd.Api.Metrics.{sum}
use goboxd.Api.Metrics.Snapshot.{
  Completion, Recording, count, tally, Later, now, after, counts, tallies, fresh, snapshot,
  snapshot_bounded,
}
use goboxd.Api.Check.{pass}
use goboxd.Api.Filename.{is_valid_filename}
use goboxd.Api.Flags.{validate_flags, first_disallowed, allowed, matches}
use goboxd.Api.Limits.{validate_stage_limits, ceiling_at, check_field, check_cpu}
use goboxd.Api.Validate
use goboxd.Api.Validate.{
  validate, validate_shape, validate_for, check_tests, check_parallel, check_output, check_flags,
  output_ceiling,
}
use goboxd.Runner.Source.{resolve_source_name, Below, resolve_source_name-Below}
use goboxd.Api.Validate.Exact.{IsShaped, Suits, validate_iff}
use goboxd.Api.Auth.{Environment, auth_config}

abbrev ten_seconds : Config.Limits
ten_seconds = record {
  wall_time_s = pos 10;
  memory_kb = pos 262144;
  max_processes = pos 64;
  cpu_time_s = pos 0;
}

abbrev python : LanguageYaml
python = record {
  id = "python";
  name = "Python";
  source_filename = "main.py";
  artifact = "";
  build = none;
  run = record {
    cmd = "/usr/bin/python3";
    args = "{{source}}" ∷ [];
    limits = ten_seconds;
    ceiling = no_limits;
    has_ceiling = false;
    flag_allowlist = [];
  };
  smoke_cmd = "";
  smoke_args = [];
  source_filename_strategy = "";
  seccomp = "";
}

abbrev python_config : LanguageConfig
python_config = record {
  id = "python";
  name = "Python";
  source_filename = "main.py";
  artifact_filename = "";
  build_cmd = [];
  run_cmd = "/usr/bin/python3" ∷ "main.py" ∷ [];
  default_limits = ten_seconds;
  build_limits = no_limits;
  run_limits = ten_seconds;
  build_ceiling = no_limits;
  run_ceiling = ten_seconds;
  default_ceiling = ten_seconds;
  flag_allowlist = "-O" ∷ "-W*" ∷ [];
  smoke_cmd = [];
  source_filename_strategy = "";
  seccomp = "";
}

abbrev half_the_time : StageConfig
half_the_time = record {
  limits = some (record {
    wall_time_s = some (pos 5);
    memory_kb = none;
    max_processes = none;
    cpu_time_s = none;
  });
  flags = "-Wall" ∷ [];
}

abbrev small_request : RunRequest
small_request = record {
  language = "python";
  source = "print('hello')";
  source_filename = "a.py";
  artifact_filename = "";
  build = none;
  run = some half_the_time;
  tests = record { stdin = ""; expected_stdout = "hello" } ∷ [];
  max_parallel = none;
  max_output_bytes = some (pos 1024);
}

validate_example :
    (validate (("python", python_config) ∷ []) "" small_request ≡ pass python_config) ↔ (
      IsShaped small_request
      × (lookup small_request.language (("python", python_config) ∷ []) ≡ some python_config)
      × Suits "" small_request python_config)
validate_example = validate_iff (("python", python_config) ∷ []) "" small_request python_config

small_passes : validate (("python", python_config) ∷ []) "" small_request ≡ pass python_config
unfolding validate validate_shape validate_for Validate.find_language lookup check_tests
    check_parallel check_output check_flags output_ceiling validate_flags first_disallowed allowed
    matches validate_stage_limits ceiling_at check_field check_cpu is_valid_filename has_prefix
    has_char contains has_suffix trim_last positive_env
small_passes = refl

resolve_source_name-Below_example :
    (resolve_source_name small_request python_config ≡ python_config.source_filename)
    ⊎ ((python_config.source_filename_strategy ≢ "fixed")
        × (resolve_source_name small_request python_config ≡ small_request.source_filename)
        × Below "/tmp/goboxd-jail-1/app" (resolve_source_name small_request python_config))
resolve_source_name-Below_example =
    resolve_source_name-Below (("python", python_config) ∷ []) "" small_request python_config
      "/tmp/goboxd-jail-1/app" small_passes

python_fresh : fresh_ids [] (python ∷ []) ≡ true
unfolding fresh_ids
python_fresh = refl

some_language : (python ∷ []) ≢ []
some_language = λ e. cc

python_loads : (load_registry "" "" (parsed (python ∷ [])) []).1 ≡ none
python_loads = (load_registry_ok_iff "" "" (python ∷ []) []).1 (some_language, python_fresh)

lookup-load_registry_example :
    lookup "python" (load_registry "" "" (parsed (python ∷ [])) []).0
    ≡ (if selected "" "" "python" then find_language "python" (python ∷ []) else none)
lookup-load_registry_example = lookup-load_registry "" "" "python" (python ∷ []) [] python_loads

unparsable_fails :
    (load_registry "" "" parse_failed (("python", python_config) ∷ [])).1 ≡ some unparsable
unfolding load_registry
unparsable_fails = refl

abbrev guarded : Environment
guarded = record { auth_token = "secret"; allowed_origins = "https://a.example, https://b.example" }

abbrev token : String
token = "secret"

abbrev two_origins : List String
two_origins = "https://a.example" ∷ "https://b.example" ∷ []

guarded_config : auth_config guarded ≡ (token, two_origins)
unfolding auth_config split trim_space
guarded_config = refl

abbrev slow_run : Completion
slow_run = record { status = "time_exceeded"; ms = pos 2100; is_error = false }

-- A run that is under its status and not yet in its bucket.
abbrev on_the_way : Recording
on_the_way = record {
  metrics = tally slow_run (count slow_run fresh.metrics);
  counted = [];
  tallied = slow_run ∷ [];
}

one_run : Later fresh on_the_way
one_run = after (after now (counts slow_run)) (tallies [] slow_run [])

snapshot_example :
    (sum (snapshot on_the_way on_the_way on_the_way).status_counts
      ≤ (snapshot on_the_way on_the_way on_the_way).total_runs)
    × (sum (snapshot on_the_way on_the_way on_the_way).latency_histogram_ms
        ≤ (snapshot on_the_way on_the_way on_the_way).total_runs)
snapshot_example = snapshot_bounded one_run now now
