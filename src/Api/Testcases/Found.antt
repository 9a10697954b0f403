-- ===== src/Api/Testcases/Found.antt =====
-- Which entries of the list of internal/api/testcases.go can be fetched.
use goboxd.Base.{
  String, Bool, true, false, not, ◌||◌, List, [], ◌∷◌, Option, none, some, ◌≡◌, refl, ◌⊎◌, inl, inr,
  str_eq, is_some, arith, All, All-append, Bool-cases, if◌then◌else◌, subst,
}
use goboxd.Models.{ErrorDetail}
use goboxd.Api.Check.{detail}
use goboxd.Api.Testcases.{
  FileSystem, DirEntry, TestcaseEntry, TestcaseDetail, Answer, found, error, tests_of, tests_in,
  tests_in_all, discover_testcases, is_path, read_testcase, handle_testcases_get,
}

-- The answer to a request for a test case that is there: the test case, or, for a name that the
-- handler takes for a path, a rejection.
abbrev pub IsFetched : TestcaseEntry → Answer TestcaseDetail → Type 0
IsFetched t (found d) = (d.lang ≡ t.lang) × (d.name ≡ t.name)
IsFetched t (error status why) =
    (status ≡ 400)
    × (why.code ≡ "invalid_request")
    × ((str_eq t.lang "" || (str_eq t.name "" || is_path t.lang t.name)) ≡ true)

module _ (fs : FileSystem)
    (readable : (p : List String) → fs.stat p ≡ true → is_some (fs.read_file p) ≡ true) where
  abbrev Listed : TestcaseEntry → Type 0
  Listed t =
      (is_some (fs.read_file (t.lang ∷ t.name ∷ "input.json" ∷ [])) ≡ true)
      × (is_some (fs.read_file (t.lang ∷ t.name ∷ "want.json" ∷ [])) ≡ true)

  tests_of-Listed : (lang : String) (tds : List DirEntry) → All Listed (tests_of fs lang tds)
  unfolding tests_of
  tests_of-Listed lang [] = tt
  tests_of-Listed lang (td ∷ tds) =
      by_tests (tests_of-Listed lang tds) td.is_dir
        (Bool-cases (fs.stat (lang ∷ td.name ∷ "input.json" ∷ [])))
        (Bool-cases (fs.stat (lang ∷ td.name ∷ "want.json" ∷ [])))
    where
      by_tests :
          All Listed (tests_of fs lang tds)
          → (dir : Bool)
          → (fs.stat (lang ∷ td.name ∷ "input.json" ∷ []) ≡ true)
            ⊎ (fs.stat (lang ∷ td.name ∷ "input.json" ∷ []) ≡ false)
          → (fs.stat (lang ∷ td.name ∷ "want.json" ∷ []) ≡ true)
            ⊎ (fs.stat (lang ∷ td.name ∷ "want.json" ∷ []) ≡ false)
          → All Listed (
              if not dir
              then tests_of fs lang tds
              else if not (fs.stat (lang ∷ td.name ∷ "input.json" ∷ []))
              then tests_of fs lang tds
              else if not (fs.stat (lang ∷ td.name ∷ "want.json" ∷ []))
              then tests_of fs lang tds
              else record { lang = lang; name = td.name } ∷ tests_of fs lang tds)
      by_tests ih false i w = ih
      by_tests ih true (inr i) w = rw i ih
      by_tests ih true (inl i) (inr w) = rw (i, w) ih
      by_tests ih true (inl i) (inl w) = rw (i, w) ((readable _ i, readable _ w), ih)

  tests_in-Listed : (dir : DirEntry) → All Listed (tests_in fs dir)
  unfolding tests_in
  tests_in-Listed dir = by_dir dir.is_dir (fs.read_dir (dir.name ∷ []))
    where
      by_dir :
          (is_dir : Bool) (o : Option (List DirEntry))
          → All Listed (
              if not is_dir then [] else elim o [ none ↦ [] | some tds ↦ tests_of fs dir.name tds ])
      by_dir false o = tt
      by_dir true none = tt
      by_dir true (some tds) = tests_of-Listed dir.name tds

  tests_in_all-Listed : (dirs : List DirEntry) → All Listed (tests_in_all fs dirs)
  unfolding tests_in_all
  tests_in_all-Listed [] = tt
  tests_in_all-Listed (dir ∷ dirs) =
      All-append Listed (tests_in fs dir) (tests_in_all fs dirs) (tests_in-Listed dir)
        (tests_in_all-Listed dirs)

  read_testcase-IsFetched :
      (t : TestcaseEntry) → Listed t → IsFetched t (read_testcase fs t.lang t.name)
  unfolding read_testcase
  read_testcase-IsFetched t h =
      by_files _ _ (fs.read_file (t.lang ∷ t.name ∷ "input.json" ∷ []))
        (fs.read_file (t.lang ∷ t.name ∷ "want.json" ∷ [])) h.0 h.1
    where
      by_files :
          (no_input no_want : ErrorDetail) (i w : Option String)
          → is_some i ≡ true
          → is_some w ≡ true
          → IsFetched t (elim i [
            | none ↦ error 400 no_input
            | some input ↦ elim w [
              | none ↦ error 400 no_want
              | some want ↦
                  found (record { lang = t.lang; name = t.name; input = input; want = want })
            ]
          ])
      by_files a b none w hi hw = cc
      by_files a b (some i) none hi hw = cc
      by_files a b (some i) (some w) hi hw = (refl, refl)

  handle_testcases_get-Listed :
      (t : TestcaseEntry) → Listed t → IsFetched t (handle_testcases_get fs t.lang t.name)
  unfolding handle_testcases_get
  handle_testcases_get-Listed t h =
      by_tests (str_eq t.lang "") (str_eq t.name "") (is_path t.lang t.name) refl refl refl
    where
      by_tests :
          (l n p : Bool)
          → str_eq t.lang "" ≡ l
          → str_eq t.name "" ≡ n
          → is_path t.lang t.name ≡ p
          → IsFetched t (
              if l || n
              then error 400 (detail "invalid_request" "lang and name are required")
              else if p
              then error 400 (detail "invalid_request" "invalid lang or name")
              else read_testcase fs t.lang t.name)
      by_tests true n p el en ep = (refl, refl, ground (arith, el))
      by_tests false true p el en ep = (refl, refl, ground (arith, el, en))
      by_tests false false true el en ep = (refl, refl, ground (arith, el, en, ep))
      by_tests false false false el en ep = read_testcase-IsFetched t h

-- If a file that os.Stat finds can be read, no entry of the list is answered by not_found: it is
-- fetched under its language and name, or, where one of these is empty or is taken for a path,
-- rejected as an invalid request.
pub handle_testcases_get-discover_testcases :
    (fs : FileSystem)
    → ((p : List String) → fs.stat p ≡ true → is_some (fs.read_file p) ≡ true)
    → (entries : List TestcaseEntry) → discover_testcases fs ≡ some entries
    → All (λ t. IsFetched t (handle_testcases_get fs t.lang t.name)) entries
unfolding discover_testcases
handle_testcases_get-discover_testcases fs readable entries h = by_root (fs.read_dir []) h
  where
    all_fetched :
        (ts : List TestcaseEntry)
        → All (Listed fs readable) ts
        → All (λ t. IsFetched t (handle_testcases_get fs t.lang t.name)) ts
    all_fetched [] h = tt
    all_fetched (t ∷ ts) h = (handle_testcases_get-Listed fs readable t h.0, all_fetched ts h.1)

    by_root :
        (o : Option (List DirEntry))
        → (elim o [ none ↦ none | some dirs ↦ some (tests_in_all fs dirs) ]) ≡ some entries
        → All (λ t. IsFetched t (handle_testcases_get fs t.lang t.name)) entries
    by_root none h = cc
    by_root (some dirs) h =
        let same : tests_in_all fs dirs ≡ entries = cc in
        subst (All (λ t. IsFetched t (handle_testcases_get fs t.lang t.name))) same
          (all_fetched _ (tests_in_all-Listed fs readable dirs))
