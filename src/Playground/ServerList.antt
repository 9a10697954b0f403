-- ===== src/Playground/ServerList.antt =====
-- What the answer of GET /testcases (internal/api/testcases.go) becomes on the tests page of
-- playground/src/App.tsx.
use goboxd.Base.{List, [], ◌∷◌, Option, none, some, ◌≡◌, refl}
use goboxd.Api.Testcases.{
  FileSystem, TestcaseEntry, Answer, found, error, handle_testcases_list, discover_testcases,
}
use goboxd.Playground.Value.{Value, null, text, array, object, Items, nil, cons, end, field, Engine}
use goboxd.Playground.State.{Testcase, Testcases, usable, unusable, tests, testcases_of, entries_of}
use goboxd.Playground.Answer.{error_json}
use goboxd.Playground.Listing.{listed}
use goboxd.Playground.Session.{Session}
use goboxd.Playground.TestsView.{render_tests}
use goboxd.Playground.View.{view, view_of}
use goboxd.Api.Check.{detail}

-- The JSON tags of `TestcaseEntry`.
abbrev pub entry_json : TestcaseEntry → Value
entry_json t = object (field "lang" (text t.lang) (field "name" (text t.name) end))

abbrev pub entries_json : List TestcaseEntry → Items
entries_json [] = nil
entries_json (t ∷ ts) = cons (entry_json t) (entries_json ts)

-- `json.NewEncoder(w).Encode(entries)`: with no entry the slice is nil, which is encoded as `null`.
abbrev pub list_json : List TestcaseEntry → Value
list_json [] = null
list_json (t ∷ ts) = array (entries_json (t ∷ ts))

-- The body of the answer.
abbrev pub body_json : Answer (List TestcaseEntry) → Value
body_json (found ts) = list_json ts
body_json (error status d) = error_json d

abbrev pub page_entries : List TestcaseEntry → List Testcase
page_entries [] = []
page_entries (t ∷ ts) = listed t.lang t.name ∷ page_entries ts

-- The page's list, where the server found some test cases; else a list that the page cannot use.
abbrev pub page_list : Option (List TestcaseEntry) → Testcases
page_list none = unusable
page_list (some []) = unusable
page_list (some (t ∷ ts)) = usable (page_entries (t ∷ ts))

entries_of-entries_json :
    (ts : List TestcaseEntry) → entries_of (entries_json ts) ≡ some (page_entries ts)
entries_of-entries_json [] = refl
entries_of-entries_json (t ∷ ts) = rw (entries_of-entries_json ts) refl

-- The page's list after the answer is the server's, each entry with its language and name alone,
-- where the server finds at least one test case. Where it finds none, and where it fails to read
-- the directory, the list is one that the page cannot use.
pub testcases_of-handle_testcases_list :
    (fs : FileSystem)
    → testcases_of (body_json (handle_testcases_list fs)) ≡ page_list (discover_testcases fs)
unfolding handle_testcases_list testcases_of
testcases_of-handle_testcases_list fs = by_entries (discover_testcases fs)
  where
    by_entries :
        (o : Option (List TestcaseEntry))
        → testcases_of (
            body_json (elim o [
              | none ↦ error 500 (detail "internal_error" "failed to list testcases")
              | some entries ↦ found entries
            ]))
          ≡ page_list o
    by_entries none = refl
    by_entries (some []) = refl
    by_entries (some (t ∷ ts)) = rw (entries_of-entries_json ts) refl

-- A server without a test case: its answer, on the tests page, makes the next render throw.
pub view-no_testcases :
    (e : Engine) (fs : FileSystem) (s : Session)
    → s.app.page ≡ tests
    → discover_testcases fs ≡ some []
    → view e (record s {
      app = record s.app { testcases = testcases_of (body_json (handle_testcases_list fs)) };
    })
      ≡ none
unfolding view view_of render_tests
view-no_testcases e fs s on_tests empty =
    rw (testcases_of-handle_testcases_list fs, empty, on_tests) refl
