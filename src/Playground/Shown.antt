-- ===== src/Playground/Shown.antt =====
-- That the tests page of playground/src/App.tsx shows every test case that its filter lets through.
use goboxd.Base.{
  String, Bool, true, ◌||◌, List, [], ◌∷◌, Option, none, some, ◌≡◌, refl, ap, sym, ◌∙◌, inl, inr,
  has, str_eq, eq_iff, arith, Bool-cases, Option-cases, any, false, subst, ◌⊎◌,
}
use goboxd.Playground.Value.{Engine}
use goboxd.Playground.State.{Testcase, Testcases, usable, unusable, tests, select_testcase}
use goboxd.Playground.Listing.{
  filtered, grouped, is_inherited, group_of, of_lang, grouped-none, group_of-grouped,
}
use goboxd.Playground.Session.{Session}
use goboxd.Playground.Element.{Node, Fires, here, inside, left, right, clicked}
use goboxd.Playground.TestsView.{
  testcase_row, testcase_rows, group_node, group_nodes, testcase_list, keys, tests_view,
  render_list, render_tests,
}
use goboxd.Playground.View.{view, view_of}

-- The test case stands in the list.
abbrev pub Among : Testcase → List Testcase → Type 0
Among tc [] = ⊥
Among tc (c ∷ cs) = (c ≡ tc) ⊎ Among tc cs

-- What the filter asks of a test case.
abbrev pub matches : Engine → String → Testcase → Bool
matches e text tc =
    e.contains (e.lower tc.lang) (e.lower text) || e.contains (e.lower tc.name) (e.lower text)

Among-filtered :
    (e : Engine) (text : String) (tc : Testcase) (tcs : List Testcase)
    → matches e text tc ≡ true
    → Among tc tcs
    → Among tc (filtered e text tcs)
unfolding filtered
Among-filtered e text tc [] m h = h
Among-filtered e text tc (c ∷ cs) m (inl same) =
    rw (subst (λ d. matches e text d ≡ true) (sym same) m) (inl same)
Among-filtered e text tc (c ∷ cs) m (inr later) = elim (Bool-cases (matches e text c)) [
  | inl kept ↦ rw kept (inr (Among-filtered e text tc cs m later))
  | inr dropped ↦ rw dropped (Among-filtered e text tc cs m later)
]

str_eq_self : (s : String) → str_eq s s ≡ true
str_eq_self s = ground (arith, eq_iff s s)

Among-of_lang :
    (tc : Testcase) (tcs : List Testcase) → Among tc tcs → Among tc (of_lang tc.lang tcs)
unfolding of_lang
Among-of_lang tc [] h = h
Among-of_lang tc (c ∷ cs) (inl same) =
    rw (subst (λ d. str_eq d.lang tc.lang ≡ true) (sym same) (str_eq_self tc.lang)) (inl same)
Among-of_lang tc (c ∷ cs) (inr later) = elim (Bool-cases (str_eq c.lang tc.lang)) [
  | inl kept ↦ rw kept (inr (Among-of_lang tc cs later))
  | inr dropped ↦ rw dropped (Among-of_lang tc cs later)
]

-- A language with a group is a key.
has-keys :
    (tc : Testcase) (lang : String) (gs : List (String × List Testcase))
    → Among tc (group_of lang gs)
    → has lang (keys gs) ≡ true
unfolding group_of
has-keys tc lang [] h = absurd h
has-keys tc lang ((l, group) ∷ gs) h = elim (Bool-cases (str_eq l lang)) [
  | inl found ↦ rw found refl
  | inr other ↦ rw other (has-keys tc lang gs (rw other at h))
]

module _ (s : Session) (tc : Testcase) where
  abbrev selected : Session
  selected = record s { app = select_testcase tc s.app }

  Fires-testcase_rows : (tcs : List Testcase) → Among tc tcs → Fires (testcase_rows s tcs) selected
  unfolding testcase_rows testcase_row
  Fires-testcase_rows [] h = absurd h
  Fires-testcase_rows (c ∷ cs) (inl same) = left (
      subst (λ d. Fires (testcase_row s c) (record s { app = select_testcase d s.app })) same
        (here refl clicked))
  Fires-testcase_rows (c ∷ cs) (inr later) = right (Fires-testcase_rows cs later)

  Fires-group_nodes :
      (groups : List (String × List Testcase)) (langs : List String) (lang : String)
      → has lang langs ≡ true
      → Among tc (group_of lang groups)
      → Fires (group_nodes s groups langs) selected
  unfolding group_nodes group_node
  Fires-group_nodes groups [] lang h among = cc
  Fires-group_nodes groups (l ∷ ls) lang h among = elim (Bool-cases (str_eq l lang)) [
    | inl found ↦
        let same : lang ≡ l = sym ((eq_iff l lang).0 found) in
        left (
          inside (
            right (
              Fires-testcase_rows (group_of l groups)
                (subst (λ k. Among tc (group_of k groups)) same among))))
    | inr other ↦ right (Fires-group_nodes groups ls lang (rw other at h) among)
  ]

render_tests-usable :
    (e : Engine) (s : Session) (tcs : List Testcase) (groups : List (String × List Testcase))
    → s.app.testcases ≡ usable tcs
    → grouped (filtered e s.app.tc_filter tcs) ≡ some groups
    → render_tests e s ≡ some (tests_view e s tcs groups)
unfolding render_tests render_list
render_tests-usable e s tcs groups listed g =
    ap
      (λ (l : Testcases). elim l as (λ l. Option Node) [
        | usable us ↦ render_list e s us
        | unusable ↦ none
      ])
      listed
    ∙ ap
        (λ (o : Option (List (String × List Testcase))). elim o as (λ o. Option Node) [
          | none ↦ none
          | some gs ↦ some (tests_view e s tcs gs)
        ])
        g

-- Where no test case that matches the filter has an inherited key for its language, the grouping
-- gives groups.
groups_of :
    (tcs : List Testcase)
    → any is_inherited tcs ≡ false
    → (groups : List (String × List Testcase)) × (grouped tcs ≡ some groups)
groups_of tcs h = elim (Option-cases (grouped tcs)) [
  | inl e ↦ let thrown = (grouped-none tcs).0 e in cc (thrown, h)
  | inr found ↦ found
]

-- On the tests page, a click can select any test case of the list that matches the filter, where the
-- engine's sort keeps the keys and no test case that matches has a language that is a key which every
-- object inherits.
pub view-Fires :
    (e : Engine) (s : Session) (tcs : List Testcase) (tc : Testcase)
    → ((lang : String) (langs : List String) → has lang (e.sort langs) ≡ has lang langs)
    → s.app.page ≡ tests
    → s.app.testcases ≡ usable tcs
    → any is_inherited (filtered e s.app.tc_filter tcs) ≡ false
    → Among tc tcs
    → matches e s.app.tc_filter tc ≡ true
    → (n : Node) × (view e s ≡ some n) × Fires n (record s { app = select_testcase tc s.app })
unfolding view view_of tests_view testcase_list
view-Fires e s tcs tc sorts on_tests listed own among m = (
  tests_view e s tcs groups,
  ap (λ page. view_of page e s) on_tests ∙ render_tests-usable e s tcs groups listed is_grouped,
  inside (
      right (
        right (
          inside (
            left (
              inside (
                left (
                  Fires-group_nodes s tc groups (e.sort (keys groups)) tc.lang
                    (sorts tc.lang (keys groups) ∙ has-keys tc tc.lang groups grouped_tc)
                    grouped_tc))))))),
)
  where
    groups : List (String × List Testcase)
    groups = (groups_of (filtered e s.app.tc_filter tcs) own).0

    is_grouped : grouped (filtered e s.app.tc_filter tcs) ≡ some groups
    is_grouped = (groups_of (filtered e s.app.tc_filter tcs) own).1

    grouped_tc : Among tc (group_of tc.lang groups)
    grouped_tc =
        subst (Among tc)
          (sym (group_of-grouped tc.lang (filtered e s.app.tc_filter tcs) groups is_grouped))
          (Among-of_lang tc (filtered e s.app.tc_filter tcs)
            (Among-filtered e s.app.tc_filter tc tcs m among))
