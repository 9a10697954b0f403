-- ===== src/Runner/Cache.antt =====
-- `ensureCacheDirs` of internal/runner/runner.go, over the results of its calls.
use goboxd.Base.{ℕ, String, List, [], ◌∷◌, Option, none, some, ◌<>◌, ◌≡◌, refl, ◌∙◌, ap, decimal}

-- os.MkdirAll: it makes the directory, or fails with an error that is IsPermission or IsNotExist, or
-- with another.
pub data Made : Type 0 where
  made : Made
  denied broken : String → Made

pub record Calls : Type 0 where
  pub gocache : Made
  pub chown_gocache : Option String
  pub ccache : Made
  pub chown_ccache : Option String

-- The error, what is logged, and the directories that the uid owns now.
pub record Ensured : Type 0 where
  pub err : Option String
  pub log : List String
  pub owned : List String

-- One directory: its path, the word of its errors, the word of the log, and the result of what comes after it.
unfoldable pub ensure_dir : String → String → String → Made → Option String → Ensured → Ensured
ensure_dir path noun lacks m chown rest = elim m [
  | denied e ↦ record {
    err = none;
    log = ("[runner] /var/cache not writable, builds will run without " <> lacks <> ": " <> e) ∷ [];
    owned = [];
  }
  | broken e ↦ record { err = some ("creating " <> noun <> " dir: " <> e); log = []; owned = [] }
  | made ↦ elim chown [
    | some e ↦ record { err = some ("chown " <> noun <> " dir: " <> e); log = []; owned = [] }
    | none ↦ record rest { owned = path ∷ rest.owned }
  ]
]

abbrev uid_dir : ℕ → String
uid_dir uid = "/var/cache/goboxd/uid-" <> decimal uid

-- `ensureCacheDirs`
unfoldable pub ensure_cache_dirs : Calls → ℕ → Ensured
unfolding ensure_dir
ensure_cache_dirs c uid =
    ensure_dir (uid_dir uid <> "/go-build") "gocache" "cache" c.gocache c.chown_gocache (
      ensure_dir (uid_dir uid <> "/ccache") "ccache" "ccache" c.ccache c.chown_ccache
        (record { err = none; log = []; owned = [] }))

-- What one directory gives without an error and without a log: it is owned, and what comes after it
-- had neither.
ensure_dir-quiet :
    (path noun lacks : String) (m : Made) (chown : Option String) (rest : Ensured)
    → (ensure_dir path noun lacks m chown rest).err ≡ none
    → (ensure_dir path noun lacks m chown rest).log ≡ []
    → ((ensure_dir path noun lacks m chown rest).owned ≡ path ∷ rest.owned)
      × (rest.err ≡ none)
      × (rest.log ≡ [])
unfolding ensure_dir
ensure_dir-quiet path noun lacks (denied e) chown rest ok quiet = cc quiet
ensure_dir-quiet path noun lacks (broken e) chown rest ok quiet = cc ok
ensure_dir-quiet path noun lacks made (some e) rest ok quiet = cc ok
ensure_dir-quiet path noun lacks made none rest ok quiet = (refl, ok, quiet)

-- A cache directory is missing or not the uid's only if the call fails or logs it.
ensure_cache_dirs-owned :
    (c : Calls) (uid : ℕ)
    → (ensure_cache_dirs c uid).err ≡ none
    → (ensure_cache_dirs c uid).log ≡ []
    → (ensure_cache_dirs c uid).owned
      ≡ (uid_dir uid <> "/go-build") ∷ (uid_dir uid <> "/ccache") ∷ []
unfolding ensure_cache_dirs
ensure_cache_dirs-owned c uid ok quiet =
    let (first, ok', quiet') = ensure_dir-quiet _ _ _ c.gocache c.chown_gocache _ ok quiet in
    let (second, _, _) = ensure_dir-quiet _ _ _ c.ccache c.chown_ccache _ ok' quiet' in
    first ∙ ap (λ ds. (uid_dir uid <> "/go-build") ∷ ds) second
