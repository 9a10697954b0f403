-- ===== src/Runner/Execute/Results.antt =====
-- `ExecuteRun` of internal/runner/runner.go: its results and its errors.
use goboxd.Base.{
  ℕ, ℤ, suc, pos, ltb_ℤ, String, Bool, true, false, List, [], ◌∷◌, Option, none, some, ◌≡◌, refl,
  ◌<>◌, length, Bool-cases, inl, inr, subst, ap,
}
use goboxd.Models.{RunRequest, TestCase, BuildResult, BuildStatus, TestResult}
use goboxd.Config.{LanguageConfig}
use goboxd.Runner.Single.{Execution, ExecLimits, effective_limits, expand_flags, stage_flags}
use goboxd.Runner.Execute.{
  AppFiles, Sandbox, files_after, run_in_turn, run_apart, run_tests, or_nil, effective_parallel,
  after_build, build_and_test, execute_run, run_build, RunResult, output_cap, judge_build,
  timed_out, classify_build, unless_failed, no_build,
}

-- The results of a slice that may be nil.
abbrev pub results_of : Option (List TestResult) → List TestResult
results_of none = []
results_of (some ts) = ts

-- Every parallel test's jail can be made and filled, and then has the template's files.
pub record IsSeeded (w : Sandbox) : Type 0 where
  pub made : (i : ℕ) → w.own_jail i ≡ none
  pub filled : (i : ℕ) → w.seed i ≡ none
  pub same : (i : ℕ) → w.seeded i w.template ≡ w.template

-- No execution in a jail with the template's files changes them.
abbrev pub LeavesNoTrace : Sandbox → Type 0
LeavesNoTrace w =
    (i : ℕ) (lim : ExecLimits) (cmd : List String) (stdin : String) (cap : ℤ)
    → (w.execute i w.template lim cmd stdin cap).1 ≡ w.template

length-run_in_turn :
    (w : Sandbox) (req : RunRequest) (lc : LanguageConfig)
    → ((i : ℕ) → w.gone i ≡ false)
    → (files : AppFiles) (i : ℕ) (tcs : List TestCase)
    → length (run_in_turn w req lc files i tcs) ≡ length tcs
unfolding run_in_turn
length-run_in_turn w req lc stays files i [] = refl
length-run_in_turn w req lc stays files i (tc ∷ tcs) =
    let ih = length-run_in_turn w req lc stays (files_after w req lc i files tc) (suc i) tcs in
    rw (stays i) (ap suc ih)

length-run_apart :
    (w : Sandbox) (req : RunRequest) (lc : LanguageConfig)
    → ((i : ℕ) → w.gone i ≡ false)
    → (i : ℕ) (tcs : List TestCase) → length (run_apart w req lc i tcs) ≡ length tcs
unfolding run_apart
length-run_apart w req lc stays i [] = refl
length-run_apart w req lc stays i (tc ∷ tcs) =
    let ih = length-run_apart w req lc stays (suc i) tcs in rw (stays i) (ap suc ih)

results_of-or_nil : (ts : List TestResult) → results_of (or_nil ts) ≡ ts
results_of-or_nil [] = refl
results_of-or_nil (t ∷ ts) = refl

-- While the client stays, every test of the request has a result, in turn or apart.
pub length-run_tests :
    (w : Sandbox) (req : RunRequest) (lc : LanguageConfig)
    → ((i : ℕ) → w.gone i ≡ false)
    → length (results_of (run_tests w req lc)) ≡ length req.tests
unfolding run_tests
length-run_tests w req lc stays =
    elim (Bool-cases (ltb_ℤ (pos 1) (effective_parallel req.max_parallel w.cpus))) [
      | inl e ↦ rw e (length-run_apart w req lc stays 0 req.tests)
      | inr e ↦
          rw (e, results_of-or_nil (run_in_turn w req lc w.template 0 req.tests))
            (length-run_in_turn w req lc stays w.template 0 req.tests)
    ]

abbrev pub FailsInside : RunResult → Type 0
FailsInside (b, ts, none) = Unit
FailsInside (b, ts, some e) = (b.status ≡ BuildStatus.internal_error) × (ts ≡ none)

abbrev BuildFailsInside : BuildResult × Option String → Type 0
BuildFailsInside (b, none) = Unit
BuildFailsInside (b, some e) = b.status ≡ BuildStatus.internal_error

classify_build-FailsInside :
    (x : Execution) (err : Option String) (late infra : Bool)
    → BuildFailsInside (classify_build x err late infra)
unfolding classify_build
classify_build-FailsInside x none true infra = tt
classify_build-FailsInside x none false infra = tt
classify_build-FailsInside x (some m) true infra = tt
classify_build-FailsInside x (some m) false true = refl
classify_build-FailsInside x (some m) false false = tt

unless_failed-FailsInside :
    (w : Sandbox) (req : RunRequest) (lc : LanguageConfig) (b : BuildResult) (s : BuildStatus)
    → FailsInside (unless_failed w req lc b s)
unfolding unless_failed
unless_failed-FailsInside w req lc b BuildStatus.ok = tt
unless_failed-FailsInside w req lc b BuildStatus.failed = tt
unless_failed-FailsInside w req lc b BuildStatus.internal_error = tt
unless_failed-FailsInside w req lc b BuildStatus.unset = tt
unless_failed-FailsInside w req lc b (BuildStatus.other s) = tt

judge_build-FailsInside : (x : Execution) → BuildFailsInside (judge_build x)
unfolding judge_build
judge_build-FailsInside x =
    classify_build-FailsInside x x.outcome.err (timed_out x.ctx) x.outcome.infra

run_build-FailsInside :
    (w : Sandbox) (req : RunRequest) (lc : LanguageConfig) → BuildFailsInside (run_build w req lc)
unfolding run_build
run_build-FailsInside w req lc = judge_build-FailsInside (
    w.build (effective_limits req.build lc.build_limits)
      (expand_flags lc.build_cmd (stage_flags req.build)) (output_cap req.max_output_bytes))

after_build-FailsInside :
    (w : Sandbox) (req : RunRequest) (lc : LanguageConfig) (r : BuildResult × Option String)
    → BuildFailsInside r
    → FailsInside (after_build w req lc r)
unfolding after_build
after_build-FailsInside w req lc (b, some e) h = (h, refl)
after_build-FailsInside w req lc (b, none) h =
    unless_failed-FailsInside w req lc (record b { duration_ms = w.build_ms }) b.status

pub execute_run-FailsInside :
    (w : Sandbox) (req : RunRequest) (lc : LanguageConfig) → FailsInside (execute_run w req lc)
unfolding execute_run
execute_run-FailsInside w req lc =
    elim w.new_jail
      as (λ o. FailsInside (elim o [
        | some e ↦ (no_build BuildStatus.internal_error e, none, some ("materializing jail: " <> e))
        | none ↦ build_and_test w req lc lc.build_cmd
      ])) [ some e ↦ (refl, refl) | none ↦ by_cmd lc.build_cmd ]
  where
    by_cmd : (cmd : List String) → FailsInside (build_and_test w req lc cmd)
    by_cmd [] = tt
    by_cmd (c ∷ cs) =
        after_build-FailsInside w req lc (run_build w req lc) (run_build-FailsInside w req lc)

-- Where a run returns an error, its build has the status `internal_error` and there are no results.
pub execute_run-error :
    (w : Sandbox) (req : RunRequest) (lc : LanguageConfig) (b : BuildResult)
    (ts : Option (List TestResult)) (e : String)
    → execute_run w req lc ≡ (b, ts, some e)
    → (b.status ≡ BuildStatus.internal_error) × (ts ≡ none)
execute_run-error w req lc b ts e h = subst FailsInside h (execute_run-FailsInside w req lc)
