-- ===== src/Playground/Refinement.antt =====
-- The page of playground/src/App.tsx as a user meets it, and the session that it implements.
use goboxd.Base.{
  String, List, [], ◌∷◌, Option, none, some, ◌≡◌, refl, ◌⊎◌, inl, inr, length, ◌==◌, subst, sym,
}
use goboxd.Playground.Value.{Engine}
use goboxd.Playground.State.{Page, play, bench, tests, Testcase, Testcases, usable, unusable}
use goboxd.Playground.Listing.{group_of, filtered, grouped}
use goboxd.Playground.Session.{
  Session, Step, answer, click_test, go, edit_filter, click_testcase, Reach, start, next,
}
use goboxd.Playground.Element.{Node, label, element, FiresOnly-Fires, no_props}
use goboxd.Playground.PlayView.{bench_view}
use goboxd.Playground.TestsView.{
  tests_view, testcase_rows, group_nodes, testcase_list, detail, render_list, render_tests, keys,
}
use goboxd.Playground.View.{view, view_of, Use, event, reply, Used, opened, used}
use goboxd.Playground.Interaction.{
  Allowed, Stepwise, quiet, ◌⊗◌, shown_if-Stepwise, stringified-Stepwise, render_play-Stepwise,
  bench_view-Stepwise,
}

module _ (e : Engine) (s : Session) where
  module _ (on_tests : s.app.page ≡ tests) where
    testcase_rows-Stepwise : (tcs : List Testcase) → Stepwise e s (testcase_rows s tcs)
    unfolding testcase_rows
    testcase_rows-Stepwise [] = tt
    testcase_rows-Stepwise (tc ∷ tcs) =
        ((λ on. inr (click_testcase tc on_tests), tt), testcase_rows-Stepwise tcs)

    group_nodes-Stepwise :
        (groups : List (String × List Testcase)) (langs : List String)
        → Stepwise e s (group_nodes s groups langs)
    unfolding group_nodes
    group_nodes-Stepwise groups [] = tt
    group_nodes-Stepwise groups (lang ∷ langs) =
        quiet (quiet tt ⊗ testcase_rows-Stepwise (group_of lang groups))
        ⊗ group_nodes-Stepwise groups langs

    detail-Stepwise :
        (sel : Option Testcase) → s.app.selected_tc ≡ sel → Stepwise e s (detail e s sel)
    unfolding detail
    detail-Stepwise none h = quiet tt
    detail-Stepwise (some tc) h =
        quiet (quiet tt ⊗ (λ idle. inr (click_test on_tests h idle), tt))
        ⊗ quiet (
            quiet (quiet tt ⊗ stringified-Stepwise e s tc.input)
            ⊗ quiet (quiet tt ⊗ stringified-Stepwise e s tc.want)
            ⊗ quiet (quiet tt ⊗ tt))

    tests_view-Stepwise :
        (tcs : List Testcase) (groups : List (String × List Testcase))
        → Stepwise e s (tests_view e s tcs groups)
    unfolding tests_view testcase_list
    tests_view-Stepwise tcs groups = quiet (
        quiet (quiet tt ⊗ (λ on. inr (go play), tt) ⊗ quiet tt)
        ⊗ (λ on v ok. inr (edit_filter v on_tests), tt)
        ⊗ quiet (
            quiet (
              group_nodes-Stepwise groups (e.sort (keys groups))
              ⊗ shown_if-Stepwise e s (length tcs == 0)
                  (element "div" no_props (label "loading testcases...")) (quiet tt))
            ⊗ quiet (detail-Stepwise s.app.selected_tc refl)))

    render_list-Stepwise :
        (tcs : List Testcase) {n : Node} → render_list e s tcs ≡ some n → Stepwise e s n
    unfolding render_list
    render_list-Stepwise tcs {n} h = by_groups (grouped (filtered e s.app.tc_filter tcs)) h
      where
        by_groups :
            (g : Option (List (String × List Testcase)))
            → (elim g [ none ↦ none | some groups ↦ some (tests_view e s tcs groups) ]) ≡ some n
            → Stepwise e s n
        by_groups none h = cc
        by_groups (some groups) h =
            let same : tests_view e s tcs groups ≡ n = cc in
            subst (Stepwise e s) same (tests_view-Stepwise tcs groups)

    render_tests-Stepwise : {n : Node} → render_tests e s ≡ some n → Stepwise e s n
    unfolding render_tests
    render_tests-Stepwise {n} h = by_list s.app.testcases h
      where
        by_list :
            (l : Testcases)
            → (elim l [ usable tcs ↦ render_list e s tcs | unusable ↦ none ]) ≡ some n
            → Stepwise e s n
        by_list (usable tcs) h = render_list-Stepwise tcs h
        by_list unusable h = cc

  view-Stepwise :
      (page : Page) {n : Node} → s.app.page ≡ page → view_of page e s ≡ some n → Stepwise e s n
  unfolding view_of
  view-Stepwise play on h = render_play-Stepwise e s on h
  view-Stepwise bench on h =
      subst (Stepwise e s) (let same : bench_view e s ≡ _ = cc in same) (bench_view-Stepwise e s)
  view-Stepwise tests on h = render_tests-Stepwise on h

-- An event on the page either changes nothing or is a step of the session, and so is an answer.
Use-Step : {e : Engine} {s t : Session} → Use e s t → (t ≡ s) ⊎ Step e s t
unfolding view
Use-Step {e} {s} (event {n} shown f) =
    FiresOnly-Fires (Allowed e s) (view-Stepwise e s s.app.page refl shown) f
Use-Step (reply a) = inr (answer a)

Use-Reach : {e : Engine} {s t : Session} → Reach e s → (t ≡ s) ⊎ Step e s t → Reach e t
Use-Reach {e} r (inl same) = subst (Reach e) (sym same) r
Use-Reach r (inr step) = next r step

-- Every session that a user's events on what the page renders and the answers of requests lead to
-- is one that the steps of the session reach.
pub Used-Reach : {e : Engine} {s : Session} → Used e s → Reach e s
Used-Reach (opened h) = start h
Used-Reach (used u step) = Use-Reach (Used-Reach u) (Use-Step step)
