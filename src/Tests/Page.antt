-- ===== src/Tests/Page.antt =====
-- playground/src/App.tsx on small inputs.
use goboxd.Base.{
  inl, inr, ◌≤◌, pos, String, true, false, List, [], ◌∷◌, map, none, some, ◌≡◌, ◌↔◌, refl, length,
  any, ◌<>◌, digits_from, decimal,
}
use goboxd.Models.{BuildStatus, TestResult, ResultStatus, RunResponse}
use goboxd.Playground.Value.{null, undefined, Engine}
use goboxd.Playground.Languages.{Language, languages, lookup}
use goboxd.Playground.Presets.{Preset, presets}
use goboxd.Playground.Shown.{view-Fires}
use goboxd.Playground.Element.{Node, Fires, here, inside, left, right, clicked}
use goboxd.Playground.PlayView.{play_view, render_play, output_pane, run_button}
use goboxd.Playground.View.{view, view_of, Used, opened, used, event}
use goboxd.Playground.Refinement.{Used-Reach}
use goboxd.Playground.Render.{Unshowable, view-Used}
use goboxd.Playground.ServerList.{body_json, page_list, testcases_of-handle_testcases_list}
use goboxd.Api.Testcases.{FileSystem, handle_testcases_list, discover_testcases}
use goboxd.Playground.State.{
  Testcase, select_testcase, App, usable, tests, testcases_of, play, run_start, initial,
  default_code,
}
use goboxd.Playground.Flatten.{Entry, flatten_presets, flatten_from, free_name, presets_of, names}
use goboxd.Playground.Flatten.Unique.{Distinct, flatten_presets-Distinct}
use goboxd.Playground.Run.{document, run_finish}
use goboxd.Playground.Answer.{response_json, shown, run_finish-response}
use goboxd.Playground.Listing.{listed, filtered, is_inherited, push, grouped_from, grouped}
use goboxd.Playground.Session.{Session, Reach, start, next, click_run, Reach-one_request}

-- An engine that knows no text.
abbrev plain : Engine
plain = record {
  positive_text = λ s. false;
  type_error = λ v k. "Cannot read properties of undefined (reading '" <> k <> "')";
  char_at = λ s i. undefined;
  text_length = λ s. 0;
  contains = λ s t. false;
  lower = λ s. s;
  sort = λ l. l;
  stringify = λ v. none;
  origin = "http://localhost:8080";
}

abbrev hello : TestResult
hello = record {
  status = ResultStatus.accepted;
  stdout = "hello";
  stderr = "";
  duration_ms = pos 12;
  cpu_time_ms = pos 3;
  memory_peak_kb = pos 2048;
  exit_code = pos 0;
  termination_signal = pos 0;
}

abbrev accepted_run : RunResponse
accepted_run = record {
  status = "accepted";
  build = record {
    status = BuildStatus.ok;
    stdout = "";
    stderr = "";
    duration_ms = pos 0;
    cpu_time_ms = pos 0;
  };
  tests = some (hello ∷ []);
}

abbrev waiting_page : App
waiting_page = record {
  lang = "python";
  code = "print('hello')";
  stdin = "";
  output = "";
  raw_json = null;
  show_raw = false;
  loading = true;
  page = play;
  testcases = usable [];
  selected_tc = none;
  test_result = none;
  test_output = "";
  test_loading = false;
  tc_filter = "";
}

run_finish-response_example :
    run_finish plain "python" (document (response_json accepted_run)) waiting_page
    ≡ record waiting_page {
      raw_json = response_json accepted_run;
      output = shown "python" accepted_run;
      loading = false;
    }
run_finish-response_example = run_finish-response plain "python" accepted_run waiting_page

-- The first page, with the code of bash.
abbrev first_page : App
first_page = record waiting_page {
  lang = "bash";
  code = "echo \"hello from bash\"";
  loading = false;
}

abbrev first_session : Session
first_session = record { app = first_page; runs = []; checks = [] }

first_page-initial : initial ≡ some first_page
unfolding initial default_code
first_page-initial = refl

abbrev clicked_session : Session
clicked_session = record { app = run_start first_page; runs = "bash" ∷ []; checks = [] }

clicked_session-Reach : Reach plain clicked_session
clicked_session-Reach = next (start first_page-initial) (click_run {s = first_session} refl refl)

Reach-one_request_example :
    (length clicked_session.runs ≤ 1)
    × (length clicked_session.checks ≤ 1)
    × ((clicked_session.app.loading ≡ true) ↔ (length clicked_session.runs ≡ 1))
    × ((clicked_session.app.test_loading ≡ true) ↔ (length clicked_session.checks ≡ 1))
Reach-one_request_example = Reach-one_request clicked_session-Reach

flatten_presets_example :
    (r : List Entry) × (flatten_presets presets "python" ≡ some r)
    × Distinct (names r)
    × (map (λ e. e.preset) r ≡ presets_of presets "python")
flatten_presets_example = flatten_presets-Distinct presets "python"

abbrev echo_preset : Preset
echo_preset = record { label = "echo"; source = "cat"; stdin = none; expected = none }

abbrev two_echoes : List (String × List Preset)
two_echoes = ("bash", echo_preset ∷ echo_preset ∷ []) ∷ []

abbrev echo_entries : List Entry
echo_entries =
    record { name = "echo"; preset = echo_preset }
    ∷ record { name = "echo (2)"; preset = echo_preset }
    ∷ []

two_echoes-flat : flatten_presets two_echoes "bash" ≡ some echo_entries
unfolding flatten_presets flatten_from free_name digits_from decimal
two_echoes-flat = refl

abbrev bash : Language
bash = record {
  label = "Bash";
  default_code = "echo \"hello from bash\"";
  has_stdin = false;
  monaco = "shell";
}

bash-known : lookup "bash" languages ≡ some bash
unfolding languages
bash-known = refl

abbrev bash_entries : List Entry
bash_entries = (flatten_presets-Distinct presets "bash").0

bash-flat : flatten_presets presets "bash" ≡ some bash_entries
bash-flat = (flatten_presets-Distinct presets "bash").1

first_view : view plain first_session ≡ some (play_view plain first_session bash bash_entries)
unfolding view view_of
first_view = rw (render_play, bash-known, bash-flat) refl

run_button-fires : Fires (play_view plain first_session bash bash_entries) clicked_session
unfolding play_view output_pane run_button
run_button-fires =
    inside (right (right (inside (right (inside (right (left (here refl clicked))))))))

clicked_session-Used : Used plain clicked_session
clicked_session-Used = used (opened first_page-initial) (event first_view run_button-fires)

Used-Reach_example : Reach plain clicked_session
Used-Reach_example = Used-Reach clicked_session-Used

view-Used_example :
    (view plain clicked_session ≡ none)
    ↔ ((clicked_session.app.page ≡ tests) × Unshowable plain clicked_session)
view-Used_example = view-Used clicked_session-Used

-- A server whose directory of test cases is empty.
abbrev no_testcases : FileSystem
no_testcases = record { read_dir = λ p. some []; stat = λ p. false; read_file = λ p. none }

abbrev tests_session : Session
tests_session = record first_session { app = record first_page { page = tests } }

testcases_of-handle_testcases_list_example :
    testcases_of (body_json (handle_testcases_list no_testcases))
    ≡ page_list (discover_testcases no_testcases)
testcases_of-handle_testcases_list_example = testcases_of-handle_testcases_list no_testcases

abbrev two_listed : List Testcase
two_listed = listed "c" "hello" ∷ listed "go" "hello" ∷ []

-- An engine that finds every text in every other.
abbrev finding : Engine
finding = record plain { contains = λ s t. true }

abbrev listed_session : Session
listed_session = record tests_session {
  app = record tests_session.app { testcases = usable two_listed };
}

two_own : any is_inherited (filtered finding listed_session.app.tc_filter two_listed) ≡ false
unfolding filtered
two_own = refl

-- A test case in a directory of this name makes the render throw.
constructor_throws : grouped (listed "constructor" "hello" ∷ []) ≡ none
unfolding grouped grouped_from push
constructor_throws = refl

view-Fires_example :
    (n : Node) × (view finding listed_session ≡ some n)
    × Fires n
        (record listed_session { app = select_testcase (listed "go" "hello") listed_session.app })
view-Fires_example =
    view-Fires finding listed_session two_listed (listed "go" "hello") (λ lang langs. refl) refl
      refl two_own (inr (inl refl)) refl
