-- ===== src/Playground/State.antt =====
-- The state hooks of `App` in playground/src/App.tsx, and the handlers that change them at once:
-- `switchLang`, `loadPreset`, the editors and the links. `fetch` is asynchronous: `run` is modelled
-- by its part before the answer (`run_start`) and its part after (`run_finish` of Run.antt).
use goboxd.Base.{
  String, Bool, true, false, not, List, [], ◌∷◌, Option, none, some, str_eq, if◌then◌else◌,
}
use goboxd.Playground.Value.{
  Value, null, text, object, array, Items, nil, cons, Fields, end, field, field_of,
}
use goboxd.Playground.Languages.{lookup, languages}
use goboxd.Playground.Presets.{Preset}

pub data Page : Type 0 where
  play bench tests : Page

-- A test case of the list; a property that the list does not give is `undefined`.
pub record Testcase : Type 0 where
  pub lang : String
  pub name : String
  pub input : Value
  pub want : Value

-- The list of the tests page. Whatever else the request brought (no array, or an entry whose
-- language or name is no text) makes the next render of that page throw.
pub data Testcases : Type 0 where
  usable : List Testcase → Testcases
  unusable : Testcases

-- The properties that the page reads of an entry.
abbrev pub entry : Value → Value → Fields → Option Testcase
entry (text lang) (text name) fs =
    some
      (record { lang = lang; name = name; input = field_of "input" fs; want = field_of "want" fs })
entry lang name fs = none

abbrev pub entry_of : Value → Option Testcase
entry_of (object fs) = entry (field_of "lang" fs) (field_of "name" fs) fs
entry_of v = none

abbrev pub entries_of : Items → Option (List Testcase)
entries_of nil = some []
entries_of (cons v vs) =
    let rest = entries_of vs in
    elim (entry_of v) [
      | none ↦ none
      | some tc ↦ elim rest [ none ↦ none | some tcs ↦ some (tc ∷ tcs) ]
    ]

abbrev pub as_list : Option (List Testcase) → Testcases
as_list none = unusable
as_list (some tcs) = usable tcs

-- `setTestcases(d)`
unfoldable pub testcases_of : Value → Testcases
testcases_of (array vs) = as_list (entries_of vs)
testcases_of v = unusable

pub record App : Type 0 where
  pub lang : String
  pub code : String
  pub stdin : String
  pub output : String
  pub raw_json : Value
  pub show_raw : Bool
  pub loading : Bool
  pub page : Page
  pub testcases : Testcases
  pub selected_tc : Option Testcase
  pub test_result : Option (Value × Value)
  pub test_output : String
  pub test_loading : Bool
  pub tc_filter : String

-- `LANGUAGES[lang].defaultCode`; `none` is the TypeError on an unknown language.
unfoldable pub default_code : String → Option String
default_code lang = elim (lookup lang languages) [ none ↦ none | some l ↦ some l.default_code ]

unfoldable pub initial : Option App
unfolding default_code languages
initial = elim (default_code "bash") [
  | none ↦ none
  | some code ↦ some (record {
    lang = "bash";
    code = code;
    stdin = "";
    output = "";
    raw_json = null;
    show_raw = false;
    loading = false;
    page = play;
    testcases = usable [];
    selected_tc = none;
    test_result = none;
    test_output = "";
    test_loading = false;
    tc_filter = "";
  })
]

-- `setLang(newLang)` is made before the property access that fails on an unknown language.
unfoldable pub switch_lang : String → App → App
switch_lang new s = elim (default_code new) [
  | none ↦ record s { lang = new }
  | some code ↦ record s { lang = new; code = code; stdin = ""; output = "" }
]

unfoldable pub load_preset : Preset → App → App
load_preset p s = elim p.stdin [
  | none ↦ record s { code = p.source; output = "" }
  | some stdin ↦ record s { code = p.source; stdin = stdin; output = "" }
]

-- The four setters at the head of `run`.
unfoldable pub run_start : App → App
run_start s = record s { loading = true; output = ""; raw_json = null; show_raw = false }

-- `stdin || ''`
unfoldable pub stdin_text : String → String
stdin_text s = if str_eq s "" then "" else s

-- `body`, from the values of the render in which `run` was clicked.
unfoldable pub run_body : App → Value
unfolding stdin_text
run_body s = object (
    field "language" (text s.lang) (
      field "source" (text s.code) (
        field "tests"
          (array (
            cons
              (object
                (field "stdin" (text (stdin_text s.stdin)) (field "expected_stdout" (text "") end)))
              nil))
          end)))

-- The three setters at the head of `runTestcase`.
unfoldable pub test_start : App → App
test_start s = record s { test_loading = true; test_output = ""; test_result = none }

-- A click on a test case.
unfoldable pub select_testcase : Testcase → App → App
select_testcase tc s = record s { selected_tc = some tc; test_result = none; test_output = "" }

-- `setShowRaw(!showRaw)`
unfoldable pub toggle_raw : App → App
toggle_raw s = record s { show_raw = not s.show_raw }
