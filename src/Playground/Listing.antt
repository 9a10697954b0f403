-- ===== src/Playground/Listing.antt =====
-- The tests page of playground/src/App.tsx: what the server lists, the filter, the groups by
-- language, and how a listed test runs. A group is kept under its key in the order of first use.
use goboxd.Base.{
  append_assoc, String, Bool, true, false, Option, none, some, ◌↔◌, sym, has, any, ◌||◌, List, [],
  ◌∷◌, ◌++◌, ◌≡◌, ◌⊎◌, inl, inr, refl, ◌∙◌, str_eq, ◌<>◌, if◌then◌else◌, arith, eq_iff, Bool-cases,
}
use goboxd.Playground.Value.{undefined, null, bool, num, text, array, object, Engine}
use goboxd.Playground.State.{App, Testcase}
use goboxd.Playground.Run.{Reply, document, failed}
use goboxd.Playground.TestRun.{report_test, test_finish}

-- An entry of `GET /testcases`, as the page keeps it: the list gives its language and name alone.
abbrev pub listed : String → String → Testcase
listed lang name = record { lang = lang; name = name; input = undefined; want = undefined }

-- `testcases.filter(…)`
unfoldable pub filtered : Engine → String → List Testcase → List Testcase
filtered e filter [] = []
filtered e filter (tc ∷ tcs) =
    let rest = filtered e filter tcs in
    if e.contains (e.lower tc.lang) (e.lower filter)
      || e.contains (e.lower tc.name) (e.lower filter)
    then tc ∷ rest
    else rest

-- The keys that a plain object inherits. None of their values has a method `push`.
abbrev pub prototype_names : List String
prototype_names =
    "constructor" ∷ "__defineGetter__" ∷ "__defineSetter__" ∷ "hasOwnProperty" ∷ "__lookupGetter__"
    ∷ "__lookupSetter__" ∷ "isPrototypeOf" ∷ "propertyIsEnumerable" ∷ "toString" ∷ "valueOf"
    ∷ "__proto__" ∷ "toLocaleString" ∷ []

-- `grouped[tc.lang]` is inherited.
abbrev pub is_inherited : Testcase → Bool
is_inherited tc = has tc.lang prototype_names

-- A test case under its key, which is made where it is missing.
unfoldable pub added : Testcase → List (String × List Testcase) → List (String × List Testcase)
added tc [] = (tc.lang, tc ∷ []) ∷ []
added tc ((lang, group) ∷ gs) =
    let rest = added tc gs in
    if str_eq tc.lang lang then (lang, group ++ tc ∷ []) ∷ gs else (lang, group) ∷ rest

-- `if (!grouped[tc.lang]) grouped[tc.lang] = []; grouped[tc.lang].push(tc);`, which throws where the
-- value is inherited: it is there, but has no `push`.
unfoldable pub push :
    Testcase → List (String × List Testcase) → Option (List (String × List Testcase))
unfolding added
push tc gs = if is_inherited tc then none else some (added tc gs)

-- `filtered.forEach(…)`
unfoldable pub grouped_from :
    List (String × List Testcase) → List Testcase → Option (List (String × List Testcase))
unfolding push
grouped_from gs [] = some gs
grouped_from gs (tc ∷ tcs) = elim (push tc gs) [ none ↦ none | some hs ↦ grouped_from hs tcs ]

unfoldable pub grouped : List Testcase → Option (List (String × List Testcase))
unfolding grouped_from
grouped tcs = grouped_from [] tcs

-- The test cases of a language, in the order of a list.
unfoldable pub of_lang : String → List Testcase → List Testcase
of_lang lang [] = []
of_lang lang (tc ∷ tcs) =
    let rest = of_lang lang tcs in if str_eq tc.lang lang then tc ∷ rest else rest

-- The test cases under a key; none where the key is missing.
unfoldable pub group_of : String → List (String × List Testcase) → List Testcase
group_of lang [] = []
group_of lang ((l, group) ∷ gs) =
    let rest = group_of lang gs in if str_eq l lang then group else rest

group_of-added :
    (lang : String) (tc : Testcase) (gs : List (String × List Testcase))
    → group_of lang (added tc gs)
      ≡ (if str_eq tc.lang lang then group_of lang gs ++ tc ∷ [] else group_of lang gs)
unfolding group_of added
group_of-added lang tc [] = refl
group_of-added lang tc ((l, group) ∷ gs) =
    let ih = group_of-added lang tc gs in
    ground (arith, eq_iff tc.lang l, eq_iff l lang, eq_iff tc.lang lang)

append-nil {ℓ} : {A : Type ℓ} (xs : List A) → xs ++ [] ≡ xs
append-nil [] = refl
append-nil (x ∷ xs) = rw (append-nil xs) refl

grouped_from-step :
    (gs : List (String × List Testcase)) (tc : Testcase) (tcs : List Testcase)
    → is_inherited tc ≡ false
    → grouped_from gs (tc ∷ tcs) ≡ grouped_from (added tc gs) tcs
unfolding grouped_from push
grouped_from-step gs tc tcs e = rw (grouped_from, push, e) refl

grouped_from-throws :
    (gs : List (String × List Testcase)) (tc : Testcase) (tcs : List Testcase)
    → is_inherited tc ≡ true
    → grouped_from gs (tc ∷ tcs) ≡ none
unfolding grouped_from push
grouped_from-throws gs tc tcs e = rw (grouped_from, push, e) refl

-- Grouping throws exactly where a test case has a language that is an inherited key.
grouped_from-none :
    (tcs : List Testcase) (gs : List (String × List Testcase))
    → (grouped_from gs tcs ≡ none) ↔ (any is_inherited tcs ≡ true)
unfolding grouped_from
grouped_from-none [] gs = (λ e. cc e, λ e. cc e)
grouped_from-none (tc ∷ tcs) gs = elim (Bool-cases (is_inherited tc)) [
  | inl e ↦ (λ h. rw e refl, λ h. grouped_from-throws gs tc tcs e)
  | inr e ↦
      let later = grouped_from-none tcs (added tc gs) in
      let step = grouped_from-step gs tc tcs e in
      (λ h. rw e (later.0 (sym step ∙ h)), λ h. step ∙ later.1 (rw e at h))
]

pub grouped-none : (tcs : List Testcase) → (grouped tcs ≡ none) ↔ (any is_inherited tcs ≡ true)
unfolding grouped
grouped-none tcs = grouped_from-none tcs []

group_of-grouped_from :
    (lang : String) (tcs : List Testcase) (gs hs : List (String × List Testcase))
    → grouped_from gs tcs ≡ some hs
    → group_of lang hs ≡ group_of lang gs ++ of_lang lang tcs
unfolding grouped_from of_lang
group_of-grouped_from lang [] gs hs h =
    let same : hs ≡ gs = cc h in rw (same, append-nil (group_of lang gs)) refl
group_of-grouped_from lang (tc ∷ tcs) gs hs h = elim (Bool-cases (is_inherited tc)) [
  | inl e ↦ let wrong = sym (grouped_from-throws gs tc tcs e) ∙ h in cc wrong
  | inr e ↦
      group_of-grouped_from lang tcs (added tc gs) hs (sym (grouped_from-step gs tc tcs e) ∙ h)
      ∙ by_lang (Bool-cases (str_eq tc.lang lang))
]
  where
    by_lang :
        (str_eq tc.lang lang ≡ true) ⊎ (str_eq tc.lang lang ≡ false)
        → group_of lang (added tc gs) ++ of_lang lang tcs
          ≡ group_of lang gs ++ of_lang lang (tc ∷ tcs)
    by_lang (inl e) =
        rw (group_of-added lang tc gs, e)
          (append_assoc (group_of lang gs) (tc ∷ []) (of_lang lang tcs))
    by_lang (inr e) = rw (group_of-added lang tc gs, e) refl

-- The group under a language's key holds the test cases of that language, each of them, in the list's order.
pub group_of-grouped :
    (lang : String) (tcs : List Testcase) (groups : List (String × List Testcase))
    → grouped tcs ≡ some groups
    → group_of lang groups ≡ of_lang lang tcs
unfolding grouped group_of
group_of-grouped lang tcs groups h = group_of-grouped_from lang tcs [] groups h

-- A test case that the page took from the server's list never runs to a comparison: whatever the
-- server answers, the page shows a failed request.
pub test_finish-listed :
    (e : Engine) (lang name : String) (reply : Reply) (s : App)
    → (m : String) × ((test_finish e (listed lang name) reply s).test_output
        ≡ "request failed: " <> m)
unfolding test_finish report_test
test_finish-listed e lang name (failed m) s = (m, refl)
test_finish-listed e lang name (document undefined) s = (_, refl)
test_finish-listed e lang name (document null) s = (_, refl)
test_finish-listed e lang name (document (bool b)) s = (_, refl)
test_finish-listed e lang name (document (num n)) s = (_, refl)
test_finish-listed e lang name (document (text t)) s = (_, refl)
test_finish-listed e lang name (document (array vs)) s = (_, refl)
test_finish-listed e lang name (document (object fs)) s = (_, refl)
