-- ===== src/Api/Handle.antt =====
-- `HandleRun` of internal/api/handlers.go from the admission gate on. A request runs between
-- `admit` and `finish`, and other requests' steps may come between the two.
pub mod Answer
use goboxd.Base.{
  ℕ, zero, suc, ◌+◌, ◌-◌, ◌≤◌, ℤ, pos, String, Bool, true, false, not, List, [], ◌∷◌, Option, none,
  some, ◌≡◌, ◌↔◌, refl, if◌then◌else◌, arith, All, Bool-cases, inl, inr,
}
use goboxd.Models.{
  TestCase, BuildResult, BuildStatus, TestResult, ResultStatus, RunResponse, ErrorDetail,
  result_text,
}
use goboxd.Admission.{Gate, Refusal, queue_full, shutting_down, release}
use goboxd.Runner.Execute.{RunResult}
use goboxd.Runner.Execute.Results.{results_of}
use goboxd.Api.Check.{detail}
use goboxd.Api.Metrics.{Metrics, record_run, IsBalanced, record_run-IsBalanced}
use goboxd.Api.Status.{compute_top_level_status, compute_top_level_status-accepted_iff}

pub data Body : Type 0 where
  run : RunResponse → Body
  error : ErrorDetail → Body

-- The HTTP status, the header X-Run-Status and the body; the headers that are constant are left out.
pub record Response : Type 0 where
  pub http_status : ℕ
  pub run_status : Option String
  pub body : Body

pub record Server : Type 0 where
  pub gate : Gate
  pub metrics : Metrics
  pub last_internal_error : Option ℤ  -- the time of the last failure of the sandbox

-- `gate.acquire` gave an error: with the time that passed, and whether the client is gone.
unfoldable pub refuse : Refusal → Bool → ℤ → Server → Server × Option Response
refuse queue_full gone ms s = (
  record s { metrics = record_run "queue_full" ms true s.metrics },
  some (record {
    http_status = 503;
    run_status = some "queue_full";
    body = error (detail "queue_full" "server is at capacity: too many jobs queued, retry shortly");
  }),
)
refuse shutting_down true ms s =
    (record s { metrics = record_run "cancelled" ms false s.metrics }, none)
refuse shutting_down false ms s = (
  record s { metrics = record_run "shutting_down" ms true s.metrics },
  some (record {
    http_status = 503;
    run_status = some "shutting_down";
    body = error (detail "shutting_down" "server is shutting down: retry shortly");
  }),
)

-- The client left while its request was queued.
unfoldable pub leave : ℤ → Server → Server
leave ms s = record s { metrics = record_run "cancelled" ms false s.metrics }

-- `atomic.AddInt64(&metrics.InFlight, 1)`
unfoldable pub admit : Server → Server
admit s = record s { metrics = record s.metrics { in_flight = s.metrics.in_flight + 1 } }

-- The deferred function; `admit` counted the run before.
unfoldable pub done_running : Server → Server
done_running s = record s {
  gate = release s.gate;
  metrics = record s.metrics { in_flight = s.metrics.in_flight - 1 };
}

-- `testsRes[i].Status = models.ResultNotExecuted`
pub all_not_executed : List TestResult → List TestResult
all_not_executed [] = []
all_not_executed (t ∷ ts) = record t { status = ResultStatus.not_executed } ∷ all_not_executed ts

-- `make([]models.TestResult, len(req.Tests))`, with the status that every entry then gets.
pub fresh_results : List TestCase → List TestResult
fresh_results [] = []
fresh_results (tc ∷ tcs) =
    record {
      status = ResultStatus.not_executed;
      stdout = "";
      stderr = "";
      duration_ms = pos 0;
      cpu_time_ms = pos 0;
      memory_peak_kb = pos 0;
      exit_code = pos 0;
      termination_signal = pos 0;
    }
    ∷ fresh_results tcs

-- The entries of a run whose build failed or that met an internal error.
pub not_executed : List TestCase → Option (List TestResult) → Option (List TestResult)
not_executed [] none = none
not_executed (tc ∷ tcs) none = some (fresh_results (tc ∷ tcs))
not_executed tcs (some ts) = some (all_not_executed ts)

-- The tests of the answer, by the top-level status.
pub answer_tests :
    ResultStatus → List TestCase → Option (List TestResult) → Option (List TestResult)
answer_tests ResultStatus.build_failed tcs ts = not_executed tcs ts
answer_tests ResultStatus.internal_error tcs ts = not_executed tcs ts
answer_tests _ tcs ts = ts

abbrev is_internal : ResultStatus → Bool
is_internal ResultStatus.internal_error = true
is_internal _ = false

-- The answer to a run without an error.
unfoldable pub answer : List TestCase → BuildResult → Option (List TestResult) → RunResponse
unfolding answer_tests not_executed fresh_results all_not_executed
answer tcs build ts =
    let top = compute_top_level_status build (results_of ts) in
    record { status = result_text top; build = build; tests = answer_tests top tcs ts }

abbrev answered : String → RunResponse → Response
answered status r = record { http_status = 200; run_status = some status; body = run r }

-- `buildRes.Status == models.BuildInternalError`
abbrev pub inside : BuildStatus → Bool
inside BuildStatus.internal_error = true
inside _ = false

-- The branches after `ExecuteRun`, from whether the client is gone, the time, and the duration.
unfoldable pub conclude :
    List TestCase → Bool → ℤ → ℤ → RunResult → Server → Server × Option Response
unfolding answer
conclude tcs true now ms (b, ts, some e) s = (
  record s { metrics = record_run "cancelled" ms true s.metrics; last_internal_error = some now },
  none,
)
conclude tcs true now ms (b, ts, none) s =
    (record s { metrics = record_run "cancelled" ms false s.metrics }, none)
conclude tcs false now ms (b, ts, some e) s =
    if inside b.status
    then (
      record s { metrics = record_run "internal_error" ms true s.metrics },
      some (
          answered "internal_error"
            (record { status = "internal_error"; build = b; tests = none })),
    )
    else (
      record s {
        metrics = record_run "internal_error" ms true s.metrics;
        last_internal_error = some now;
      },
      some (record {
        http_status = 500;
        run_status = none;
        body = error (detail "internal_error" "sandbox execution failed");
      }),
    )
conclude tcs false now ms (b, ts, none) s =
    let top = compute_top_level_status b (results_of ts) in
    (
      record s { metrics = record_run (result_text top) ms (is_internal top) s.metrics },
      some (answered (result_text top) (answer tcs b ts)),
    )

-- The rest of `HandleRun` after `ExecuteRun`, its deferred function included.
unfoldable pub finish : List TestCase → Bool → ℤ → ℤ → RunResult → Server → Server × Option Response
unfolding conclude
finish tcs gone now ms result s =
    let end = conclude tcs gone now ms result s in (done_running (end.0), end.1)
