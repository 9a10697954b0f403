-- ===== src/Playground/Answer.antt =====
-- What the server's answers, as internal/models/models.go encodes them, come to in `run` and
-- `runTestcase` of playground/src/App.tsx.
use goboxd.Base.{
  ℕ, suc, pos, String, true, false, ◌&&◌, List, [], ◌∷◌, Option, none, some, ◌≡◌, refl, str_eq,
  ◌<>◌, decimal_ℤ, ltb, ltb_ℤ, if◌then◌else◌, Bool-cases, inl, inr, arith,
}
use goboxd.Models.{BuildResult, TestResult, RunResponse, ErrorDetail, build_text, marshal_result}
use goboxd.Playground.Value.{
  done, Value, null, num, text, array, object, Items, items_length, nil, cons, end, field, Engine,
}
use goboxd.Playground.State.{App}
use goboxd.Playground.Run.{
  report, first_test, test_lines, memory_line, duration_line, build_line, artifact_hint, document,
  or_empty, compiled, run_finish,
}

-- The JSON tags of `BuildResult`.
abbrev pub build_json : BuildResult → Value
build_json b = object (
    field "status" (text (build_text b.status)) (
      field "stdout" (text b.stdout) (
        field "stderr" (text b.stderr)
          (field "duration_ms" (num b.duration_ms) (field "cpu_time_ms" (num b.cpu_time_ms) end)))))

-- The JSON tags of `TestResult`.
abbrev pub test_json : TestResult → Value
test_json t = object (
    field "status" (text (marshal_result t.status)) (
      field "stdout" (text t.stdout) (
        field "stderr" (text t.stderr) (
          field "duration_ms" (num t.duration_ms) (
            field "cpu_time_ms" (num t.cpu_time_ms) (
              field "memory_peak_kb" (num t.memory_peak_kb) (
                field "exit_code" (num t.exit_code)
                  (field "termination_signal" (num t.termination_signal) end))))))))

abbrev items_json : List TestResult → Items
items_json [] = nil
items_json (t ∷ ts) = cons (test_json t) (items_json ts)

-- A nil slice is encoded as `null`.
abbrev tests_json : Option (List TestResult) → Value
tests_json none = null
tests_json (some ts) = array (items_json ts)

-- The JSON tags of `RunResponse`.
abbrev pub response_json : RunResponse → Value
response_json r = object (
    field "status" (text r.status)
      (field "build" (build_json r.build) (field "tests" (tests_json r.tests) end)))

-- The JSON tags of `APIError` and `ErrorDetail`.
abbrev pub error_json : ErrorDetail → Value
error_json d =
    object (
      field "error" (object (field "code" (text d.code) (field "message" (text d.message) end)))
        end)

abbrev shown_stream : String → String
shown_stream s = if str_eq s "" then "(empty)" else s

-- The lines about one test result.
abbrev shown_test : TestResult → String
shown_test t =
    "test status: "
    <> marshal_result t.status
    <> "\n"
    <> ("---stdout---\n"
        <> shown_stream t.stdout
        <> "\n"
        <> "---stderr---\n"
        <> shown_stream t.stderr
        <> "\n")
    <> (if ltb_ℤ (pos 0) t.memory_peak_kb
        then "memory: " <> decimal_ℤ t.memory_peak_kb <> " KB\n"
        else "")
    <> ("duration: " <> decimal_ℤ t.duration_ms <> "ms\n")
    <> (if str_eq (marshal_result t.status) "runtime_error" && str_eq t.stderr ""
        then "note: crash signal may not appear in stderr (kernel kills silently)\n"
          <> "try running locally or check exit code\n"
        else "")

abbrev shown_tests : Option (List TestResult) → String
shown_tests none = ""
shown_tests (some []) = ""
shown_tests (some (t ∷ ts)) = shown_test t

-- The text that the output panel owes a result.
abbrev pub shown : String → RunResponse → String
shown lang r =
    "status: "
    <> r.status
    <> "\n"
    <> ("build: " <> build_text r.build.status <> " (" <> decimal_ℤ r.build.duration_ms <> "ms)\n")
    <> shown_tests r.tests
    <> (if str_eq (build_text r.build.status) "ok" && compiled lang
        then "\n(hint: compiled artifacts exist in the container but download is not yet implemented)\n"
        else "")

stream-shown : (s : String) → or_empty (text s) ≡ shown_stream s
stream-shown s = elim (Bool-cases (str_eq s "")) [ inl e ↦ rw e refl | inr e ↦ rw e refl ]

some-positive : (n : ℕ) → ltb 0 (suc n) ≡ true
some-positive n = ground arith

test_lines-shown : (e : Engine) (t : TestResult) → test_lines e (test_json t) ≡ done (shown_test t)
unfolding test_lines memory_line duration_line
test_lines-shown e t = elim (Bool-cases (str_eq t.stderr "")) [
  | inl h ↦ rw (stream-shown t.stdout, h) refl
  | inr h ↦ rw (stream-shown t.stdout, h) refl
]

first_test-shown :
    (e : Engine) (ts : Option (List TestResult))
    → first_test e (tests_json ts) ≡ done (shown_tests ts)
unfolding first_test
first_test-shown e none = refl
first_test-shown e (some []) = refl
first_test-shown e (some (t ∷ ts)) =
    rw (some-positive (items_length (items_json ts)), test_lines-shown e t) refl

report-shown :
    (e : Engine) (lang : String) (r : RunResponse)
    → report e lang (response_json r) ≡ done (shown lang r)
unfolding report build_line artifact_hint
report-shown e lang r = rw (first_test-shown e r.tests) refl

-- Whatever the server returns for a run, the output panel shows the run's status, the build's, and
-- the first test's result, never an error, and the button is ready again.
pub run_finish-response :
    (e : Engine) (lang : String) (r : RunResponse) (s : App)
    → run_finish e lang (document (response_json r)) s
      ≡ record s { raw_json = response_json r; output = shown lang r; loading = false }
unfolding run_finish
run_finish-response e lang r s = rw (report-shown e lang r) refl

-- An error of the API is shown with its message, and the button is ready again.
pub run_finish-error :
    (e : Engine) (lang : String) (d : ErrorDetail) (s : App)
    → run_finish e lang (document (error_json d)) s
      ≡ record s { raw_json = error_json d; output = "error: " <> d.message; loading = false }
unfolding run_finish report
run_finish-error e lang d s = refl
