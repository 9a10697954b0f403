-- ===== src/Playground/TestsView.antt =====
-- What `App` of playground/src/App.tsx renders on the tests page.
use goboxd.Base.{
  String, Bool, false, ◌&&◌, List, [], ◌∷◌, map, Option, none, some, ◌<>◌, str_eq, decimal, length,
  ◌==◌, if◌then◌else◌,
}
use goboxd.Base.Strings.{has_prefix}
use goboxd.Playground.Value.{Engine}
use goboxd.Playground.State.{App, Testcase, usable, unusable, play, select_testcase, test_start}
use goboxd.Playground.Session.{Session}
use goboxd.Playground.Listing.{filtered, grouped, group_of}
use goboxd.Playground.Element.{Node, nothing, label, element, ◌&◌, no_props, on_click, on_change}
use goboxd.Playground.PlayView.{to_page, shown_if, stringified}

-- `selectedTc && selectedTc.lang === tc.lang && selectedTc.name === tc.name`
unfoldable pub is_selected : Option Testcase → Testcase → Bool
is_selected none tc = false
is_selected (some sel) tc = str_eq sel.lang tc.lang && str_eq sel.name tc.name

unfoldable pub testcase_row : Session → Testcase → Node
unfolding is_selected
testcase_row s tc =
    element "div"
      (record no_props {
        key = some (tc.lang <> "/" <> tc.name);
        background = some (if is_selected s.app.selected_tc tc then "#e3f2fd" else "transparent");
        handler = on_click (record s { app = select_testcase tc s.app });
      })
      (label ((if has_prefix tc.name "penetration-" then "🛡\u{fe0f} " else "🧪 ") <> tc.name))

-- `grouped[lang].map(…)`
unfoldable pub testcase_rows : Session → List Testcase → Node
unfolding testcase_row
testcase_rows s [] = nothing
testcase_rows s (tc ∷ tcs) = testcase_row s tc & testcase_rows s tcs

unfoldable pub group_node : Session → String → List Testcase → Node
unfolding testcase_rows
group_node s lang tcs =
    element "div" (record no_props { key = some lang })
      (element "div" no_props (label (lang <> " (" <> decimal (length tcs) <> ")"))
        & testcase_rows s tcs)

-- `sortedLangs.map(…)`
unfoldable pub group_nodes : Session → List (String × List Testcase) → List String → Node
unfolding group_node
group_nodes s groups [] = nothing
group_nodes s groups (lang ∷ langs) =
    group_node s lang (group_of lang groups) & group_nodes s groups langs

-- `Object.keys(grouped)`
abbrev pub keys : List (String × List Testcase) → List String
keys = map (λ g. g.0)

unfoldable pub testcase_list : Engine → Session → List (String × List Testcase) → Node
unfolding group_nodes
testcase_list e s groups = group_nodes s groups (e.sort (keys groups))

unfoldable pub test_button : Session → Testcase → Node
test_button s tc =
    element "button"
      (record no_props {
        disabled = s.app.test_loading;
        background = some (if s.app.test_loading then "#ccc" else "#2196F3");
        handler = on_click (record s { app = test_start s.app; checks = tc ∷ s.checks });
      })
      (label (if s.app.test_loading then "running..." else "run test"))

-- A panel under its heading.
unfoldable pub panel : String → Node → Node
panel heading n = element "div" no_props (element "div" no_props (label heading) & n)

-- `testOutput || (testLoading ? … : …)`
unfoldable pub result_text : App → String
result_text a =
    if str_eq a.test_output ""
    then if a.test_loading then "running..." else "click \"run test\" to execute"
    else a.test_output

unfoldable pub detail : Engine → Session → Option Testcase → Node
unfolding test_button panel result_text stringified
detail e s none = element "div" no_props (label "select a testcase from the left panel")
detail e s (some tc) =
    element "div" no_props
      (element "h2" no_props (label (tc.lang <> " / " <> tc.name)) & test_button s tc)
    & element "div" no_props (
        panel "INPUT" (stringified e tc.input)
        & panel "EXPECTED" (stringified e tc.want)
        & panel "RESULT" (label (result_text s.app)))

-- The page from the list of test cases and its groups.
unfoldable pub tests_view : Engine → Session → List Testcase → List (String × List Testcase) → Node
unfolding to_page testcase_list shown_if detail
tests_view e s tcs groups = element "div" no_props (
    element "div" no_props (
      element "h1" no_props (label "test runner")
      & element "button" (record no_props { handler = on_click (to_page s play) })
          (label "back to playground")
      & element "span" no_props (label (decimal (length tcs) <> " testcases loaded")))
    & element "input"
        (record no_props {
          value = some s.app.tc_filter;
          handler = on_change (λ v. record s { app = record s.app { tc_filter = v } });
        })
        nothing
    & element "div" no_props (
        element "div" no_props (
          testcase_list e s groups
          & shown_if (length tcs == 0) (element "div" no_props (label "loading testcases...")))
        & element "div" no_props (detail e s s.app.selected_tc)))

-- The render from a usable list; `none` is the error that the grouping throws.
unfoldable pub render_list : Engine → Session → List Testcase → Option Node
unfolding tests_view
render_list e s tcs = elim (grouped (filtered e s.app.tc_filter tcs)) [
  | none ↦ none
  | some groups ↦ some (tests_view e s tcs groups)
]

-- `none` is also the error that an unusable list makes the render throw.
unfoldable pub render_tests : Engine → Session → Option Node
unfolding render_list
render_tests e s = elim s.app.testcases [ usable tcs ↦ render_list e s tcs | unusable ↦ none ]
