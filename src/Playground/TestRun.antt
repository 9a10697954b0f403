-- ===== src/Playground/TestRun.antt =====
-- `runTestcase` of playground/src/App.tsx after the server's answer: the comparison of the answer
-- with what the test case wants.
use goboxd.Base.{ℕ, suc, String, Bool, false, not, ◌&&◌, ◌||◌, some, ◌<>◌, decimal, if◌then◌else◌}
use goboxd.Playground.Value.{
  Value, text, array, object, Items, nil, cons, end, Engine, Outcome, done, throws, ◌>>=◌, get, at,
  truthy, or_else, strict_eq, to_text,
}
use goboxd.Playground.State.{App, Testcase}
use goboxd.Playground.Run.{
  Reply, document, failed, build_line, memory_line, streams, duration_line, caught,
}

-- Whether an item is identical to a value.
includes_item : Value → Items → Bool
includes_item v nil = false
includes_item v (cons w ws) = strict_eq w v || includes_item v ws

-- `v.includes(w)`, a method of texts and arrays.
includes : Engine → Value → Value → Outcome Bool
unfolding includes_item
includes e (text s) w = done (e.contains s (to_text w))
includes e (array vs) w = done (includes_item w vs)
includes e v w = throws (e.type_error v "includes")

-- `'test[' + i + '].status: got="' + … + '" want="' + …`
unfoldable pub status_line : ℕ → Value → Value → String
status_line i got want =
    (if strict_eq got want then "  PASS" else "  FAIL")
    <> " test["
    <> decimal i
    <> "].status: got=\""
    <> to_text got
    <> "\" want=\""
    <> to_text want
    <> "\"\n"

unfoldable pub stdout_info : Engine → ℕ → Value → Value → Outcome String
stdout_info e i got want = if truthy want && not (strict_eq got want) then shown else done ""
  where
    shown : Outcome String
    shown = do
      n ← get e want "length"
      done ("  INFO test[" <> decimal i <> "].stdout diff (expected length " <> to_text n <> ")\n")

unfoldable pub stderr_info : Engine → ℕ → Value → Value → Outcome String
unfolding includes
stderr_info e i got want = if truthy want && truthy got then compared else done ""
  where
    compared : Outcome String
    compared = do
      found ← includes e got want
      done (if found then "" else "  INFO test[" <> decimal i <> "].stderr diff\n")

-- The callback of `data.tests.forEach`.
unfoldable pub compare_test : Engine → Value → ℕ → Value → Outcome String
unfolding stdout_info stderr_info
compare_test e want_tests i t = do
  wanted ← at e want_tests i
  let w = or_else wanted (object end)
  got_status ← get e t "status"
  want_status ← get e w "status"
  want_stdout ← get e w "stdout"
  got_stdout ← get e t "stdout"
  out ← stdout_info e i got_stdout want_stdout
  want_stderr ← get e w "stderr"
  got_stderr ← get e t "stderr"
  err ← stderr_info e i got_stderr want_stderr
  done (status_line i got_status want_status <> out <> err)

unfoldable pub compare_items : Engine → Value → ℕ → Items → Outcome String
unfolding compare_test
compare_items e want_tests i nil = done ""
compare_items e want_tests i (cons t ts) = compare_test e want_tests i t >>= λ here.
    compare_items e want_tests (suc i) ts >>= λ later. done (here <> later)

-- `data.tests.forEach(…)`, a method of arrays alone.
unfoldable pub for_each : Engine → Value → Value → Outcome String
for_each e want_tests (array ts) = compare_items e want_tests 0 ts
for_each e want_tests v = throws (e.type_error v "forEach")

-- `if (data.tests && data.tests[0])`
unfoldable pub first_test_lines : Engine → Value → Outcome String
first_test_lines e tests = if truthy tests then indexed else done ""
  where
    lines : Value → Outcome String
    lines t = do
      duration ← duration_line e t
      memory ← memory_line e t
      io ← streams e t
      done (duration <> memory <> io)

    indexed : Outcome String
    indexed = do t ← at e tests 0; if truthy t then lines t else done ""

-- The text that `runTestcase` shows for an answer and the wanted result.
unfoldable pub report_test : Engine → Value → Value → Outcome String
report_test e want doc = do
  got_status ← get e doc "status"
  want_status ← get e want "status"
  got_tests ← get e doc "tests"
  want_tests ← get e want "tests"
  compared ←
      if truthy got_tests && truthy want_tests then for_each e want_tests got_tests else done ""
  build ← get e doc "build"
  built ← build_line e build
  first ← first_test_lines e got_tests
  done (
      "=== RESULT ===\n"
      <> (if strict_eq got_status want_status then "PASS" else "FAIL")
      <> " status: got=\""
      <> to_text got_status
      <> "\" want=\""
      <> to_text want_status
      <> "\"\n"
      <> compared
      <> built
      <> first)

-- The rest of `runTestcase`.
unfoldable pub test_finish : Engine → Testcase → Reply → App → App
test_finish e tc (failed m) s = record s {
  test_output = "request failed: " <> m;
  test_loading = false;
}
test_finish e tc (document doc) s = record s {
  test_result = some (doc, tc.want);
  test_output = caught (report_test e tc.want doc);
  test_loading = false;
}
