-- ===== src/Playground/Render.antt =====
-- When the render of `App` in playground/src/App.tsx throws.
use goboxd.Base.{
  String, true, List, Option, none, some, ◌≡◌, ◌≢◌, ◌↔◌, ◌⊎◌, inl, inr, refl, sym, subst, ◌∙◌, has,
  any,
}
use goboxd.Playground.Value.{Engine}
use goboxd.Playground.Languages.{languages, ids, lookup-ids}
use goboxd.Playground.Presets.{Preset, presets}
use goboxd.Playground.Flatten.Unique.{flatten_presets-Distinct}
use goboxd.Playground.State.{
  App, Testcase, Page, play, bench, tests, Testcases, usable, unusable, initial, default_code,
  run_start, test_start, switch_lang, load_preset, toggle_raw, select_testcase,
}
use goboxd.Playground.Run.{document, failed, run_finish}
use goboxd.Playground.TestRun.{test_finish}
use goboxd.Playground.Session.{
  Session, Answer, run_answer, test_answer, testcases_loaded, Step, answer, click_run, click_test,
  choose_lang, choose_preset, edit_code, edit_stdin, view_raw, go, edit_filter, click_testcase,
  Reach, start, next,
}
use goboxd.Playground.PlayView.{render_play}
use goboxd.Playground.TestsView.{render_list, render_tests, tests_view}
use goboxd.Playground.Listing.{filtered, grouped, is_inherited, grouped-none}
use goboxd.Playground.View.{view, view_of, Used}
use goboxd.Playground.Refinement.{Used-Reach}

-- The page's language is one that it offers.
abbrev Known : Session → Type 0
Known s = has s.app.lang (ids languages) ≡ true

switch_lang-lang : (lang : String) (a : App) → (switch_lang lang a).lang ≡ lang
unfolding switch_lang
switch_lang-lang lang a = by_code (default_code lang)
  where
    by_code :
        (found : Option String)
        → (elim found as (λ f. App) [
          | none ↦ record a { lang = lang }
          | some code ↦ record a { lang = lang; code = code; stdin = ""; output = "" }
        ]).lang
          ≡ lang
    by_code none = refl
    by_code (some code) = refl

load_preset-lang : (p : Preset) (a : App) → (load_preset p a).lang ≡ a.lang
unfolding load_preset
load_preset-lang p a = by_stdin p.stdin
  where
    by_stdin :
        (stdin : Option String)
        → (elim stdin as (λ f. App) [
          | none ↦ record a { code = p.source; output = "" }
          | some stdin ↦ record a { code = p.source; stdin = stdin; output = "" }
        ]).lang
          ≡ a.lang
    by_stdin none = refl
    by_stdin (some stdin) = refl

Answer-lang : {e : Engine} {s t : Session} → Answer e s t → t.app.lang ≡ s.app.lang
unfolding run_finish test_finish
Answer-lang (run_answer xs lang ys (failed m)) = refl
Answer-lang (run_answer xs lang ys (document doc)) = refl
Answer-lang (test_answer xs tc ys (failed m)) = refl
Answer-lang (test_answer xs tc ys (document doc)) = refl
Answer-lang (testcases_loaded doc) = refl

Step-Known : {e : Engine} {s t : Session} → Step e s t → Known s → Known t
unfolding run_start test_start toggle_raw select_testcase
Step-Known (answer a) h = rw (Answer-lang a) h
Step-Known (click_run on_play idle) h = h
Step-Known (click_test on_tests sel idle) h = h
Step-Known (choose_lang {s} lang on_play known) h = rw (switch_lang-lang lang s.app) known
Step-Known (choose_preset {s} p on_play) h = rw (load_preset-lang p s.app) h
Step-Known (edit_code code on_play) h = h
Step-Known (edit_stdin stdin on_play) h = h
Step-Known (view_raw on_play) h = h
Step-Known (go page) h = h
Step-Known (edit_filter text on_tests) h = h
Step-Known (click_testcase tc on_tests) h = h

initial-lang : {a : App} → initial ≡ some a → a.lang ≡ "bash"
unfolding initial default_code
initial-lang e = cc

bash-Known : has "bash" (ids languages) ≡ true
unfolding languages
bash-Known = refl

Reach-Known : {e : Engine} {s : Session} → Reach e s → Known s
Reach-Known (start e) = rw (initial-lang e) bash-Known
Reach-Known (next r step) = Step-Known step (Reach-Known r)

render_play-Known : (e : Engine) (s : Session) → Known s → render_play e s ≢ none
unfolding render_play
render_play-Known e s h none_shown =
    let l = lookup-ids s.app.lang languages h in
    let flat = flatten_presets-Distinct presets s.app.lang in
    cc (rw (render_play, l.1, flat.1) at none_shown)

render_list-none :
    (e : Engine) (s : Session) (tcs : List Testcase)
    → (render_list e s tcs ≡ none) ↔ (any is_inherited (filtered e s.app.tc_filter tcs) ≡ true)
unfolding render_list
render_list-none e s tcs =
    let (to, from) = grouped-none (filtered e s.app.tc_filter tcs) in
    by_groups (grouped (filtered e s.app.tc_filter tcs)) to from
  where
    by_groups :
        (g : Option (List (String × List Testcase)))
        → (g ≡ none → any is_inherited (filtered e s.app.tc_filter tcs) ≡ true)
        → (any is_inherited (filtered e s.app.tc_filter tcs) ≡ true → g ≡ none)
        → ((elim g [ none ↦ none | some groups ↦ some (tests_view e s tcs groups) ]) ≡ none)
          ↔ (any is_inherited (filtered e s.app.tc_filter tcs) ≡ true)
    by_groups none to from = (λ h. to refl, λ h. refl)
    by_groups (some groups) to from = (λ h. cc h, λ h. let wrong = from h in cc wrong)

-- Why the tests page cannot be rendered: its list of test cases is unusable, or the filter lets one
-- through whose language is an inherited key.
abbrev pub Unshowable : Engine → Session → Type 0
Unshowable e s =
    (s.app.testcases ≡ unusable)
    ⊎ ((tcs : List Testcase) × (s.app.testcases ≡ usable tcs)
        × (any is_inherited (filtered e s.app.tc_filter tcs) ≡ true))

render_tests-none : (e : Engine) (s : Session) → (render_tests e s ≡ none) ↔ Unshowable e s
unfolding render_tests
render_tests-none e s = by_list s.app.testcases refl
  where
    by_list :
        (l : Testcases)
        → s.app.testcases ≡ l
        → ((elim l [ usable tcs ↦ render_list e s tcs | unusable ↦ none ]) ≡ none) ↔ Unshowable e s
    by_list (usable tcs) listed =
        let (to, from) = render_list-none e s tcs in
        (
          λ h. inr (tcs, listed, to h),
          λ u. elim u [
            | inl bad ↦ let wrong = sym listed ∙ bad in cc wrong
            | inr (us, listed', thrown) ↦
                let same : us ≡ tcs = cc (listed, listed') in
                from (
                  subst (λ ts. any is_inherited (filtered e s.app.tc_filter ts) ≡ true) same thrown)
          ],
        )
    by_list unusable listed = (λ h. inl listed, λ u. refl)

view_of-none :
    (page : Page) (e : Engine) (s : Session)
    → Known s
    → (view_of page e s ≡ none) ↔ ((page ≡ tests) × Unshowable e s)
unfolding view_of
view_of-none play e s h = (λ n. absurd (render_play-Known e s h n), λ h. cc)
view_of-none bench e s h = (λ n. cc, λ h. cc)
view_of-none tests e s h =
    let (to, from) = render_tests-none e s in (λ n. (refl, to n), λ h. from h.1)

-- However the page is used, its render throws exactly on the tests page, and when the list of test
-- cases that was loaded last is unusable, or its filter lets a test case through whose language is a
-- key that every object inherits.
pub view-Used :
    {e : Engine} {s : Session}
    → Used e s
    → (view e s ≡ none) ↔ ((s.app.page ≡ tests) × Unshowable e s)
unfolding view
view-Used {e} {s} u = view_of-none s.app.page e s (Reach-Known (Used-Reach u))
