-- ===== src/Api/Handle/Answer.antt =====
-- The answers of `HandleRun` (internal/api/handlers.go), and what its branches leave in the counters.
use goboxd.Base.{
  ℕ, suc, ◌+◌, ◌-◌, ℤ, String, Bool, true, false, List, [], ◌∷◌, Option, none, some, ◌≡◌, ◌↔◌, refl,
  subst, ◌<>◌, ap, ◌∙◌, length, arith, All, Bool-cases, inl, inr,
}
use goboxd.Models.{
  RunRequest, TestCase, BuildResult, BuildStatus, TestResult, ResultStatus, result_text,
  result_valid,
}
use goboxd.Config.{LanguageConfig}
use goboxd.Runner.Execute.{
  Sandbox, RunResult, execute_run, build_and_test, after_build, unless_failed, run_tests, run_build,
  no_build,
}
use goboxd.Runner.Execute.Results.{
  results_of, length-run_tests, FailsInside, execute_run-FailsInside,
}
use goboxd.Api.Metrics.{Metrics, record_run, IsBalanced, record_run-IsBalanced}
use goboxd.Api.Status.{
  compute_top_level_status, compute_top_level_status-IsValid, compute_top_level_status-accepted_iff,
}
use goboxd.Api.Handle.{
  Server, Response, answer, admit, finish, conclude, done_running, all_not_executed, fresh_results,
  answer_tests, not_executed, inside,
}

-- The text of a status of the closed set is "accepted" only for the one.
text-accepted :
    (s : ResultStatus)
    → result_valid s ≡ true
    → result_text s ≡ "accepted"
    → s ≡ ResultStatus.accepted
unfolding result_valid result_text
text-accepted ResultStatus.accepted v e = refl
text-accepted ResultStatus.build_failed v e = cc
text-accepted ResultStatus.internal_error v e = cc
text-accepted ResultStatus.runtime_error v e = cc
text-accepted ResultStatus.time_exceeded v e = cc
text-accepted ResultStatus.memory_exceeded v e = cc
text-accepted ResultStatus.wrong_output v e = cc
text-accepted ResultStatus.whitespace_mismatch v e = cc
text-accepted ResultStatus.not_executed v e = cc
text-accepted ResultStatus.cancelled v e = cc
text-accepted ResultStatus.cpu_time_exceeded v e = cc
text-accepted ResultStatus.unset v e = cc
text-accepted (ResultStatus.other s) v e = cc

-- A run is answered as accepted exactly if its build is ok and every test that it ran is accepted.
pub answer-accepted_iff :
    (tcs : List TestCase) (build : BuildResult) (ts : Option (List TestResult))
    → ((answer tcs build ts).status ≡ "accepted") ↔ (
        (build.status ≡ BuildStatus.ok)
        × All (λ t. t.status ≡ ResultStatus.accepted) (results_of ts))
unfolding answer result_text
answer-accepted_iff tcs build ts =
    let valid = compute_top_level_status-IsValid build (results_of ts) in
    let iff = compute_top_level_status-accepted_iff build (results_of ts) in
    (λ e. iff.0 (text-accepted _ valid e), λ h. rw (iff.1 h) refl)

length-all_not_executed : (ts : List TestResult) → length (all_not_executed ts) ≡ length ts
unfolding all_not_executed
length-all_not_executed [] = refl
length-all_not_executed (t ∷ ts) = ap suc (length-all_not_executed ts)

length-fresh_results : (tcs : List TestCase) → length (fresh_results tcs) ≡ length tcs
unfolding fresh_results
length-fresh_results [] = refl
length-fresh_results (t ∷ ts) = ap suc (length-fresh_results ts)

length-answer_tests :
    (s : ResultStatus) (tcs : List TestCase) (ts : List TestResult)
    → length (results_of (answer_tests s tcs (some ts))) ≡ length ts
unfolding answer_tests not_executed
length-answer_tests ResultStatus.build_failed tcs ts = length-all_not_executed ts
length-answer_tests ResultStatus.internal_error tcs ts = length-all_not_executed ts
length-answer_tests ResultStatus.accepted tcs ts = refl
length-answer_tests ResultStatus.runtime_error tcs ts = refl
length-answer_tests ResultStatus.time_exceeded tcs ts = refl
length-answer_tests ResultStatus.memory_exceeded tcs ts = refl
length-answer_tests ResultStatus.wrong_output tcs ts = refl
length-answer_tests ResultStatus.whitespace_mismatch tcs ts = refl
length-answer_tests ResultStatus.not_executed tcs ts = refl
length-answer_tests ResultStatus.cancelled tcs ts = refl
length-answer_tests ResultStatus.cpu_time_exceeded tcs ts = refl
length-answer_tests ResultStatus.unset tcs ts = refl
length-answer_tests (ResultStatus.other s) tcs ts = refl

nothing_to_answer : (s : ResultStatus) → length (results_of (answer_tests s [] none)) ≡ 0
unfolding answer_tests not_executed
nothing_to_answer ResultStatus.accepted = refl
nothing_to_answer ResultStatus.build_failed = refl
nothing_to_answer ResultStatus.internal_error = refl
nothing_to_answer ResultStatus.runtime_error = refl
nothing_to_answer ResultStatus.time_exceeded = refl
nothing_to_answer ResultStatus.memory_exceeded = refl
nothing_to_answer ResultStatus.wrong_output = refl
nothing_to_answer ResultStatus.whitespace_mismatch = refl
nothing_to_answer ResultStatus.not_executed = refl
nothing_to_answer ResultStatus.cancelled = refl
nothing_to_answer ResultStatus.cpu_time_exceeded = refl
nothing_to_answer ResultStatus.unset = refl
nothing_to_answer (ResultStatus.other s) = refl

length-not_executed :
    (tcs : List TestCase) → length (results_of (not_executed tcs none)) ≡ length tcs
unfolding not_executed
length-not_executed [] = refl
length-not_executed (tc ∷ tcs) = length-fresh_results (tc ∷ tcs)

abbrev AnswersAll : List TestCase → RunResult → Type 0
AnswersAll tcs (b, ts, some e) = Unit
AnswersAll tcs (b, ts, none) = length (results_of (answer tcs b ts).tests) ≡ length tcs

answer-ran :
    (tcs : List TestCase) (b : BuildResult) (ts : Option (List TestResult))
    → length (results_of ts) ≡ length tcs
    → AnswersAll tcs (b, ts, none)
unfolding answer
answer-ran [] b none h = nothing_to_answer (compute_top_level_status b [])
answer-ran (tc ∷ tcs) b none h = ground arith
answer-ran tcs b (some ts) h = length-answer_tests _ tcs ts ∙ h

unless_failed-AnswersAll :
    (w : Sandbox) (req : RunRequest) (lc : LanguageConfig) (b : BuildResult)
    → ((i : ℕ) → w.gone i ≡ false)
    → (s : BuildStatus) → b.status ≡ s
    → AnswersAll req.tests (unless_failed w req lc b s)
unfolding unless_failed answer compute_top_level_status
unless_failed-AnswersAll w req lc b stays BuildStatus.ok e =
    answer-ran req.tests b (run_tests w req lc) (length-run_tests w req lc stays)
unless_failed-AnswersAll w req lc b stays BuildStatus.failed e =
    rw e (length-not_executed req.tests)
unless_failed-AnswersAll w req lc b stays BuildStatus.internal_error e =
    rw e (length-not_executed req.tests)
unless_failed-AnswersAll w req lc b stays BuildStatus.unset e = rw e (length-not_executed req.tests)
unless_failed-AnswersAll w req lc b stays (BuildStatus.other s) e =
    rw e (length-not_executed req.tests)

after_build-AnswersAll :
    (w : Sandbox) (req : RunRequest) (lc : LanguageConfig)
    → ((i : ℕ) → w.gone i ≡ false)
    → (r : BuildResult × Option String) → AnswersAll req.tests (after_build w req lc r)
unfolding after_build
after_build-AnswersAll w req lc stays (b, some e) = tt
after_build-AnswersAll w req lc stays (b, none) =
    unless_failed-AnswersAll w req lc (record b { duration_ms = w.build_ms }) stays b.status refl

build_and_test-AnswersAll :
    (w : Sandbox) (req : RunRequest) (lc : LanguageConfig)
    → ((i : ℕ) → w.gone i ≡ false)
    → (cmd : List String) → AnswersAll req.tests (build_and_test w req lc cmd)
unfolding build_and_test
build_and_test-AnswersAll w req lc stays [] =
    answer-ran req.tests (no_build BuildStatus.ok "") (run_tests w req lc)
      (length-run_tests w req lc stays)
build_and_test-AnswersAll w req lc stays (c ∷ cs) =
    after_build-AnswersAll w req lc stays (run_build w req lc)

execute_run-AnswersAll :
    (w : Sandbox) (req : RunRequest) (lc : LanguageConfig)
    → ((i : ℕ) → w.gone i ≡ false)
    → AnswersAll req.tests (execute_run w req lc)
unfolding execute_run
execute_run-AnswersAll w req lc stays =
    elim w.new_jail
      as (λ o. AnswersAll req.tests (elim o [
        | some e ↦ (no_build BuildStatus.internal_error e, none, some ("materializing jail: " <> e))
        | none ↦ build_and_test w req lc lc.build_cmd
      ])) [ some e ↦ tt | none ↦ build_and_test-AnswersAll w req lc stays lc.build_cmd ]

-- While the client stays, the answer to a run without an error has an entry for every test of the
-- request, whether or not the build failed.
pub answer-every_test :
    (w : Sandbox) (req : RunRequest) (lc : LanguageConfig) (b : BuildResult)
    (ts : Option (List TestResult))
    → ((i : ℕ) → w.gone i ≡ false)
    → execute_run w req lc ≡ (b, ts, none)
    → length (results_of (answer req.tests b ts).tests) ≡ length req.tests
answer-every_test w req lc b ts stays e =
    subst (AnswersAll req.tests) e (execute_run-AnswersAll w req lc stays)

-- A response, where there is one, is HTTP 200.
abbrev pub IsOk : Option Response → Type 0
IsOk none = Unit
IsOk (some r) = r.http_status ≡ 200

conclude-IsOk :
    (tcs : List TestCase) (gone : Bool) (now ms : ℤ) (result : RunResult) (s : Server)
    → FailsInside result
    → IsOk (conclude tcs gone now ms result s).1
unfolding conclude
conclude-IsOk tcs true now ms (b, ts, some e) s h = tt
conclude-IsOk tcs true now ms (b, ts, none) s h = tt
conclude-IsOk tcs false now ms (b, ts, none) s h = refl
conclude-IsOk tcs false now ms (b, ts, some e) s h = rw (h.0) refl

-- An admitted run is answered with HTTP 200 or, where the client left, not at all: the branch that
-- answers with 500 is never taken.
pub finish-IsOk :
    (w : Sandbox) (req : RunRequest) (lc : LanguageConfig) (gone : Bool) (now ms : ℤ) (s : Server)
    → IsOk (finish req.tests gone now ms (execute_run w req lc) s).1
unfolding finish
finish-IsOk w req lc gone now ms s =
    conclude-IsOk req.tests gone now ms (execute_run w req lc) s (execute_run-FailsInside w req lc)

-- One run more is counted, none is under way more, and the counters agree.
Recorded : Metrics → Metrics → Type 0
Recorded m n = IsBalanced n × (n.total_runs ≡ suc m.total_runs) × (n.in_flight ≡ m.in_flight)

record_run-Recorded :
    (status : String) (ms : ℤ) (is_error : Bool) (m : Metrics)
    → IsBalanced m
    → Recorded m (record_run status ms is_error m)
unfolding Recorded record_run
record_run-Recorded status ms is_error m h =
    (record_run-IsBalanced status ms is_error m h, refl, refl)

conclude-Recorded :
    (tcs : List TestCase) (gone : Bool) (now ms : ℤ) (result : RunResult) (s : Server)
    → IsBalanced s.metrics
    → Recorded s.metrics (conclude tcs gone now ms result s).0.metrics
unfolding conclude
conclude-Recorded tcs true now ms (b, ts, some e) s h = record_run-Recorded _ _ _ s.metrics h
conclude-Recorded tcs true now ms (b, ts, none) s h = record_run-Recorded _ _ _ s.metrics h
conclude-Recorded tcs false now ms (b, ts, none) s h = record_run-Recorded _ _ _ s.metrics h
conclude-Recorded tcs false now ms (b, ts, some e) s h = elim (Bool-cases (inside b.status)) [
  | inl i ↦ rw i (record_run-Recorded "internal_error" ms true s.metrics h)
  | inr i ↦ rw i (record_run-Recorded "internal_error" ms true s.metrics h)
]

admit-IsBalanced : (s : Server) → IsBalanced s.metrics → IsBalanced (admit s).metrics
unfolding admit
admit-IsBalanced s h = record { statuses = h.statuses; latency = h.latency; errors = h.errors }

in_flight_back : (m n : ℕ) → m ≡ n + 1 → m - 1 ≡ n
in_flight_back m n e = ground arith

-- However an admitted run ends, it is counted once in all, under one status and in one latency bucket,
-- errors never exceed runs, and the number of runs in flight is what it was before.
pub finish-IsBalanced :
    (tcs : List TestCase) (gone : Bool) (now ms : ℤ) (result : RunResult) (s : Server)
    → IsBalanced s.metrics
    → IsBalanced (finish tcs gone now ms result (admit s)).0.metrics
      × ((finish tcs gone now ms result (admit s)).0.metrics.total_runs ≡ suc s.metrics.total_runs)
      × ((finish tcs gone now ms result (admit s)).0.metrics.in_flight ≡ s.metrics.in_flight)
unfolding finish done_running Recorded admit
finish-IsBalanced tcs gone now ms result s h =
    let end = conclude-Recorded tcs gone now ms result (admit s) (admit-IsBalanced s h) in
    let balanced = end.0 in
    (
      record { statuses = balanced.statuses; latency = balanced.latency; errors = balanced.errors },
      end.1,
      in_flight_back _ _ end.2,
    )
