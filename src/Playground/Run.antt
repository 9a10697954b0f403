-- ===== src/Playground/Run.antt =====
-- The parts of `run` and `runTestcase` (playground/src/App.tsx) that follow the server's answer.
use goboxd.Base.{String, Bool, false, not, ◌&&◌, ◌||◌, str_eq, ◌<>◌, if◌then◌else◌}
use goboxd.Playground.Value.{
  Value, text, Engine, Outcome, done, throws, ◌>>=◌, get, at, truthy, or_else, strict_eq, to_text,
  positive,
}
use goboxd.Playground.State.{App}

-- What `await fetch(…)` and `await res.json()` come to: a document, or an error.
pub data Reply : Type 0 where
  document : Value → Reply
  failed : String → Reply

-- `(v || '(empty)')`
abbrev pub or_empty : Value → String
or_empty v = to_text (or_else v (text "(empty)"))

-- `if (data.build) out += 'build: ' + … + 'ms)\n'`
unfoldable pub build_line : Engine → Value → Outcome String
build_line e build = if truthy build then shown else done ""
  where
    shown : Outcome String
    shown = do
      status ← get e build "status"
      ms ← get e build "duration_ms"
      done ("build: " <> to_text status <> " (" <> to_text ms <> "ms)\n")

unfoldable pub memory_line : Engine → Value → Outcome String
memory_line e t = do
  kb ← get e t "memory_peak_kb"
  done (if positive e kb then "memory: " <> to_text kb <> " KB\n" else "")

unfoldable pub streams : Engine → Value → Outcome String
streams e t = do
  stdout ← get e t "stdout"
  stderr ← get e t "stderr"
  done ("---stdout---\n" <> or_empty stdout <> "\n" <> "---stderr---\n" <> or_empty stderr <> "\n")

unfoldable pub duration_line : Engine → Value → Outcome String
duration_line e t = do ms ← get e t "duration_ms"; done ("duration: " <> to_text ms <> "ms\n")

-- `if (t.status === 'runtime_error' && !t.stderr)`
unfoldable pub crash_note : Engine → Value → Outcome String
crash_note e t = do
  status ← get e t "status"
  stderr ← get e t "stderr"
  done (
      if strict_eq status (text "runtime_error") && not (truthy stderr)
      then "note: crash signal may not appear in stderr (kernel kills silently)\n"
        <> "try running locally or check exit code\n"
      else "")

-- The lines about `data.tests[0]`.
unfoldable pub test_lines : Engine → Value → Outcome String
unfolding memory_line streams duration_line crash_note
test_lines e t = do
  status ← get e t "status"
  io ← streams e t
  memory ← memory_line e t
  duration ← duration_line e t
  note ← crash_note e t
  done ("test status: " <> to_text status <> "\n" <> io <> memory <> duration <> note)

-- `if (data.tests && data.tests.length > 0)`
unfoldable pub first_test : Engine → Value → Outcome String
unfolding test_lines
first_test e tests = if truthy tests then shown else done ""
  where
    some_lines : Outcome String
    some_lines = do t ← at e tests 0; test_lines e t

    shown : Outcome String
    shown = do n ← get e tests "length"; if positive e n then some_lines else done ""

abbrev pub compiled : String → Bool
compiled lang = str_eq lang "c" || (str_eq lang "cpp" || (str_eq lang "rust" || str_eq lang "go"))

-- The hint on compiled artifacts; `lang` is the language at the click.
unfoldable pub artifact_hint : Engine → String → Value → Outcome String
artifact_hint e lang build = if truthy build then shown else done ""
  where
    shown : Outcome String
    shown = do
      status ← get e build "status"
      done (
          if strict_eq status (text "ok") && compiled lang
          then "\n(hint: compiled artifacts exist in the container but download is not yet implemented)\n"
          else "")

-- The text that `run` shows for a document.
unfoldable pub report : Engine → String → Value → Outcome String
unfolding build_line first_test artifact_hint
report e lang doc = do error ← get e doc "error"; if truthy error then problem error else result
  where
    problem : Value → Outcome String
    problem error = do message ← get e error "message"; done ("error: " <> to_text message)

    result : Outcome String
    result = do
      status ← get e doc "status"
      build ← get e doc "build"
      built ← build_line e build
      tests ← get e doc "tests"
      tested ← first_test e tests
      hint ← artifact_hint e lang build
      done ("status: " <> to_text status <> "\n" <> built <> tested <> hint)

-- The `catch` of both functions.
abbrev pub caught : Outcome String → String
caught (done out) = out
caught (throws m) = "request failed: " <> m

-- The rest of `run`; the state is the one at the answer, `lang` the one at the click.
unfoldable pub run_finish : Engine → String → Reply → App → App
run_finish e lang (failed m) s = record s { output = "request failed: " <> m; loading = false }
run_finish e lang (document doc) s = record s {
  raw_json = doc;
  output = caught (report e lang doc);
  loading = false;
}
