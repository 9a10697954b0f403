-- ===== src/Api/Testcases.antt =====
-- internal/api/testcases.go: the endpoints that list the test cases under /app/testcases and give
-- one of them.
pub mod Found
use goboxd.Base.{
  ℕ, String, Bool, true, false, not, ◌&&◌, ◌||◌, List, [], ◌∷◌, ◌++◌, Option, none, some, str_eq,
  ◌<>◌, is_some, if◌then◌else◌,
}
use goboxd.Base.Strings.{contains}
use goboxd.Models.{ErrorDetail}
use goboxd.Api.Check.{detail}

pub record DirEntry : Type 0 where
  pub name : String
  pub is_dir : Bool

-- Package os on the files under /app/testcases; a path is the names that filepath.Join puts after
-- that directory. `none` is an error.
pub record FileSystem : Type 0 where
  pub read_dir : List String → Option (List DirEntry)
  pub stat : List String → Bool
  pub read_file : List String → Option String

pub record TestcaseEntry : Type 0 where
  pub lang : String
  pub name : String

pub record TestcaseDetail : Type 0 where
  pub lang : String
  pub name : String
  pub input : String
  pub want : String

-- The inner loop: the directories of a language that hold both files.
unfoldable pub tests_of : FileSystem → String → List DirEntry → List TestcaseEntry
tests_of fs lang [] = []
tests_of fs lang (td ∷ tds) =
    let rest = tests_of fs lang tds in
    if not td.is_dir
    then rest
    else if not (fs.stat (lang ∷ td.name ∷ "input.json" ∷ []))
    then rest
    else if not (fs.stat (lang ∷ td.name ∷ "want.json" ∷ []))
    then rest
    else record { lang = lang; name = td.name } ∷ rest

-- One round of the outer loop; a directory that cannot be read is passed over.
unfoldable pub tests_in : FileSystem → DirEntry → List TestcaseEntry
unfolding tests_of
tests_in fs dir =
    if not dir.is_dir
    then []
    else elim (fs.read_dir (dir.name ∷ [])) [ none ↦ [] | some tds ↦ tests_of fs dir.name tds ]

unfoldable pub tests_in_all : FileSystem → List DirEntry → List TestcaseEntry
unfolding tests_in
tests_in_all fs [] = []
tests_in_all fs (dir ∷ dirs) = tests_in fs dir ++ tests_in_all fs dirs

unfoldable pub discover_testcases : FileSystem → Option (List TestcaseEntry)
unfolding tests_in_all
discover_testcases fs = elim (fs.read_dir []) [
  | none ↦ none
  | some dirs ↦ some (tests_in_all fs dirs)
]

-- An answer by its HTTP status and its body.
pub data Answer {ℓ} (A : Type ℓ) : Type ℓ where
  found : A → Answer A
  error : ℕ → ErrorDetail → Answer A

unfoldable pub handle_testcases_list : FileSystem → Answer (List TestcaseEntry)
unfolding discover_testcases
handle_testcases_list fs = elim (discover_testcases fs) [
  | none ↦ error 500 (detail "internal_error" "failed to list testcases")
  | some entries ↦ found entries
]

-- The guard against a path that leaves the directory.
unfoldable pub is_path : String → String → Bool
is_path lang name =
    contains lang ".." || (contains name ".." || (contains lang "/" || contains name "/"))

unfoldable pub read_testcase : FileSystem → String → String → Answer TestcaseDetail
read_testcase fs lang name = elim (fs.read_file (lang ∷ name ∷ "input.json" ∷ [])) [
  | none ↦ error 400 (detail "not_found" ("testcase " <> lang <> "/" <> name <> " not found"))
  | some input ↦ elim (fs.read_file (lang ∷ name ∷ "want.json" ∷ [])) [
    | none ↦
        error 400
          (detail "not_found" ("testcase " <> lang <> "/" <> name <> " want.json not found"))
    | some want ↦ found (record { lang = lang; name = name; input = input; want = want })
  ]
]

unfoldable pub handle_testcases_get : FileSystem → String → String → Answer TestcaseDetail
unfolding is_path read_testcase
handle_testcases_get fs lang name =
    if str_eq lang "" || str_eq name ""
    then error 400 (detail "invalid_request" "lang and name are required")
    else if is_path lang name
    then error 400 (detail "invalid_request" "invalid lang or name")
    else read_testcase fs lang name
