-- ===== src/Playground/PlayView.antt =====
-- What `App` of playground/src/App.tsx renders on its first page and on the page of benchmarks.
use goboxd.Base.{
  String, Bool, true, false, ◌&&◌, List, [], ◌∷◌, Option, none, some, ◌<>◌, str_eq, decimal_ℤ,
  if◌then◌else◌,
}
use goboxd.Playground.Value.{Value, num, truthy, Engine}
use goboxd.Playground.Languages.{Language, languages, lookup}
use goboxd.Playground.Presets.{presets}
use goboxd.Playground.Flatten.{Entry, find_entry, flatten_presets}
use goboxd.Playground.State.{
  App, Page, play, bench, tests, switch_lang, load_preset, run_start, toggle_raw, stdin_text,
}
use goboxd.Playground.Session.{Session}
use goboxd.Playground.Element.{Node, nothing, label, element, ◌&◌, no_props, on_click, on_change}

-- `setPage(page)`
unfoldable pub to_page : Session → Page → Session
to_page s page = record s { app = record s.app { page = page } }

-- `b && n`
unfoldable pub shown_if : Bool → Node → Node
shown_if false n = nothing
shown_if true n = n

-- `v && n`: React shows the number zero, and no other falsy value.
unfoldable pub falsy_node : Value → Node
falsy_node (num n) = label (decimal_ℤ n)
falsy_node v = nothing

unfoldable pub shown_if_value : Value → Node → Node
unfolding falsy_node
shown_if_value v n = if truthy v then n else falsy_node v

-- `JSON.stringify(v, null, 2)` as a child.
unfoldable pub stringified : Engine → Value → Node
stringified e v = elim (e.stringify v) [ none ↦ nothing | some t ↦ label t ]

unfoldable pub link : String → Node
link url = element "a" (record no_props { href = some url }) (label url)

-- A link that `preventDefault` makes a button to another page.
unfoldable pub page_link : Session → Page → String → Node
unfolding to_page
page_link s page text =
    element "a" (record no_props { href = some "#"; handler = on_click (to_page s page) })
      (label text)

unfoldable pub option : String → String → Node
option value text =
    element "option" (record no_props { key = some value; value = some value }) (label text)

-- `Object.entries(LANGUAGES).map(…)`
unfoldable pub language_options : List (String × Language) → Node
unfolding option
language_options [] = nothing
language_options ((id, l) ∷ ls) = option id l.label & language_options ls

-- `flatPresets.map(…)`
unfoldable pub preset_options : List Entry → Node
unfolding option
preset_options [] = nothing
preset_options (r ∷ rs) = option r.name r.name & preset_options rs

-- `const p = flatPresets.find(…); if (p) loadPreset(p.preset);`
unfoldable pub choose_entry : Session → List Entry → String → Session
choose_entry s flat name = elim (find_entry name flat) [
  | none ↦ s
  | some r ↦ record s { app = load_preset r.preset s.app }
]

unfoldable pub lang_menu : Session → Node
unfolding language_options
lang_menu s =
    element "select"
      (record no_props {
        value = some s.app.lang;
        handler = on_change (λ v. record s { app = switch_lang v s.app });
      })
      (language_options languages)

unfoldable pub preset_menu : Session → List Entry → Node
unfolding preset_options choose_entry
preset_menu s flat =
    element "select" (record no_props { handler = on_change (choose_entry s flat) })
      (element "option" (record no_props { value = some ""; disabled = true })
          (label "select preset...")
        & preset_options flat)

unfoldable pub editor : Session → Language → Node
editor s l =
    element "Editor"
      (record no_props {
        language = some l.monaco;
        value = some s.app.code;
        handler = on_change (λ v. record s { app = record s.app { code = stdin_text v } });
      })
      nothing

unfoldable pub stdin_box : Session → Node
stdin_box s = element "div" no_props (
    element "label" no_props (label "stdin:")
    & element "textarea"
        (record no_props {
          value = some s.app.stdin;
          handler = on_change (λ v. record s { app = record s.app { stdin = v } });
        })
        nothing)

unfoldable pub run_button : Session → Node
run_button s =
    element "button"
      (record no_props {
        disabled = s.app.loading;
        background = some (if s.app.loading then "#ccc" else "#4CAF50");
        handler = on_click (record s { app = run_start s.app; runs = s.app.lang ∷ s.runs });
      })
      (label (if s.app.loading then "running..." else "run"))

unfoldable pub raw_button : Session → Node
raw_button s =
    element "button" (record no_props { handler = on_click (record s { app = toggle_raw s.app }) })
      (label (if s.app.show_raw then "hide raw" else "view raw"))

-- `showRaw && rawJson ? … : (output || 'output will appear here')`
unfoldable pub output_text : Engine → App → Node
unfolding stringified
output_text e a =
    if a.show_raw && truthy a.raw_json
    then stringified e a.raw_json
    else if str_eq a.output ""
    then label "output will appear here"
    else label a.output

unfoldable pub header : Engine → Session → Node
unfolding page_link link
header e s = element "div" no_props (
    element "h1" no_props (label "goboxd")
    & page_link s bench "benchmarks"
    & page_link s tests "tests"
    & link (e.origin <> "/info")
    & link (e.origin <> "/readyz"))

unfoldable pub menus : Session → List Entry → Node
unfolding lang_menu preset_menu
menus s flat = element "div" no_props (
    element "label" no_props (label "language: ")
    & lang_menu s
    & element "label" no_props (label "preset: ")
    & preset_menu s flat)

unfoldable pub output_pane : Engine → Session → Language → Node
unfolding shown_if stdin_box run_button shown_if_value raw_button output_text
output_pane e s l = element "div" no_props (
    shown_if l.has_stdin (stdin_box s)
    & run_button s
    & (if str_eq s.app.output "" then nothing else shown_if_value s.app.raw_json (raw_button s))
    & element "div" no_props (output_text e s.app))

-- The first page, where the language is known and the presets have their names.
unfoldable pub play_view : Engine → Session → Language → List Entry → Node
unfolding header menus editor output_pane
play_view e s l flat = element "div" no_props (
    header e s
    & menus s flat
    & element "div" no_props (element "div" no_props (editor s l) & output_pane e s l))

-- `LI.monaco` throws where the language is unknown; `none` is such an error.
unfoldable pub render_play : Engine → Session → Option Node
unfolding play_view
render_play e s = elim (lookup s.app.lang languages) [
  | none ↦ none
  | some l ↦ elim (flatten_presets presets s.app.lang) [
    | none ↦ none
    | some flat ↦ some (play_view e s l flat)
  ]
]

unfoldable pub bench_view : Engine → Session → Node
unfolding to_page
bench_view e s = element "div" no_props (
    element "h1" no_props (label "benchmarks")
    & element "button" (record no_props { handler = on_click (to_page s play) })
        (label "back to playground")
    & element "iframe" (record no_props { href = some (e.origin <> "/playground/") }) nothing)
