-- ===== src/Config/Registry.antt =====
-- `LoadRegistry` of internal/config/config.go: what the registry holds afterwards.
use goboxd.Base.{
  String, Bool, true, false, not, ◌&&◌, ◌||◌, List, [], ◌∷◌, ◌++◌, Option, none, some, str_eq, has,
  if◌then◌else◌, ◌≡◌, ◌≢◌, ◌↔◌, refl, sym, ◌∙◌, arith, eq_iff, is_some,
}
use goboxd.Config.{
  LanguageYaml, LanguageConfig, language_config, Registry, lookup, remove, LoadError, Loaded,
  loaded, load_failed, build_registry, id_list, keep_only, exclude, apply_filters, Source, parsed,
  read_failed, parse_failed, load_registry, finish_load,
}

abbrev is_loaded : Loaded → Bool
is_loaded (loaded r) = true
is_loaded (load_failed e) = false

-- The language of a list that has an id, first to last.
pub find_language : String → List LanguageYaml → Option LanguageConfig
find_language id [] = none
find_language id (l ∷ ls) =
    let rest = find_language id ls in if str_eq l.id id then some (language_config l) else rest

lookup-append :
    (id : String) (r s : Registry)
    → lookup id (r ++ s) ≡ elim (lookup id r) [ none ↦ lookup id s | some c ↦ some c ]
unfolding lookup
lookup-append id [] s = refl
lookup-append id ((j, c) ∷ r) s = ground (arith, lookup-append id r s)

lookup-build_registry :
    (id : String) (acc : Registry) (ls : List LanguageYaml) (r : Registry)
    → build_registry acc ls ≡ loaded r
    → lookup id r ≡ elim (lookup id acc) [ none ↦ find_language id ls | some c ↦ some c ]
unfolding build_registry find_language lookup
lookup-build_registry id acc [] r e = ground arith
lookup-build_registry id acc (l ∷ ls) r e = ground (
  arith,
  eq_iff l.id id,
  lookup-append id acc ((l.id, language_config l) ∷ []),
  lookup-build_registry id (acc ++ (l.id, language_config l) ∷ []) ls r,
)

lookup-keep_only :
    (id : String) (ids : List String) (r : Registry)
    → lookup id (keep_only ids r) ≡ (if has id ids then lookup id r else none)
unfolding lookup keep_only
lookup-keep_only id ids [] = ground arith
lookup-keep_only id ids ((j, c) ∷ r) = ground (arith, eq_iff j id, lookup-keep_only id ids r)

lookup-remove :
    (id j : String) (r : Registry)
    → lookup id (remove j r) ≡ (if str_eq j id then none else lookup id r)
unfolding lookup remove
lookup-remove id j [] = ground arith
lookup-remove id j ((k, c) ∷ r) =
    ground (arith, eq_iff k j, eq_iff k id, eq_iff j id, lookup-remove id j r)

lookup-exclude :
    (id : String) (ids : List String) (r : Registry)
    → lookup id (exclude ids r) ≡ (if has id ids then none else lookup id r)
unfolding exclude
lookup-exclude id [] r = refl
lookup-exclude id (j ∷ ids) r =
    ground (arith, lookup-exclude id ids (remove j r), lookup-remove id j r)

-- Whether the two environment variables let a language through.
pub selected : String → String → String → Bool
selected langs excluded id =
    (str_eq langs "" || str_eq langs "all" || has id (id_list langs))
    && (str_eq excluded "" || not (has id (id_list excluded)))

lookup-apply_filters :
    (langs excluded id : String) (r : Registry)
    → lookup id (apply_filters langs excluded r)
      ≡ (if selected langs excluded id then lookup id r else none)
unfolding apply_filters selected
lookup-apply_filters langs excluded id r = ground (
  arith,
  lookup-exclude id (id_list excluded) r,
  lookup-exclude id (id_list excluded) (keep_only (id_list langs) r),
  lookup-keep_only id (id_list langs) r,
)

-- After a load that succeeds, a language is found under an id exactly if the file declares it and the
-- two filters let it through, and it is the resolved form of the declaration.
pub lookup-load_registry :
    (langs excluded id : String) (ls : List LanguageYaml) (old : Registry)
    → (load_registry langs excluded (parsed ls) old).1 ≡ none
    → lookup id (load_registry langs excluded (parsed ls) old).0
      ≡ (if selected langs excluded id then find_language id ls else none)
unfolding load_registry lookup
lookup-load_registry langs excluded id [] old e = cc
lookup-load_registry langs excluded id (l ∷ ls) old e = finished (build_registry [] (l ∷ ls)) refl e
  where
    finished :
        (x : Loaded)
        → build_registry [] (l ∷ ls) ≡ x
        → (finish_load langs excluded old x).1 ≡ none
        → lookup id (finish_load langs excluded old x).0
          ≡ (if selected langs excluded id then find_language id (l ∷ ls) else none)
    finished (load_failed x) b h = cc
    finished (loaded r) b h =
        lookup-apply_filters langs excluded id r
        ∙ rw (lookup-build_registry id [] (l ∷ ls) r b) refl

-- A load that fails leaves the registry as it was.
pub load_registry_error :
    (langs excluded : String) (src : Source) (old : Registry) {x : LoadError}
    → (load_registry langs excluded src old).1 ≡ some x
    → (load_registry langs excluded src old).0 ≡ old
unfolding load_registry
load_registry_error langs excluded read_failed old e = refl
load_registry_error langs excluded parse_failed old e = refl
load_registry_error langs excluded (parsed []) old e = refl
load_registry_error langs excluded (parsed (l ∷ ls)) old {x} e = kept (build_registry [] (l ∷ ls)) e
  where
    kept :
        (y : Loaded)
        → (finish_load langs excluded old y).1 ≡ some x
        → (finish_load langs excluded old y).0 ≡ old
    kept (loaded r) h = cc
    kept (load_failed y) h = refl

-- Whether the ids of a list are all non-empty, new to `seen`, and different from one another.
unfoldable pub fresh_ids : List String → List LanguageYaml → Bool
fresh_ids seen [] = true
fresh_ids seen (l ∷ ls) = not (str_eq l.id "") && not (has l.id seen) && fresh_ids (l.id ∷ seen) ls

Covers-snoc :
    (seen : List String) (acc : Registry) (l : LanguageYaml)
    → ((id : String) → has id seen ≡ is_some (lookup id acc))
    → (id : String)
    → has id (l.id ∷ seen) ≡ is_some (lookup id (acc ++ (l.id, language_config l) ∷ []))
unfolding lookup
Covers-snoc seen acc l c id =
    ground (arith, c id, lookup-append id acc ((l.id, language_config l) ∷ []))

build_registry-fresh_ids :
    (seen : List String) (acc : Registry) (ls : List LanguageYaml)
    → ((id : String) → has id seen ≡ is_some (lookup id acc))
    → is_loaded (build_registry acc ls) ≡ fresh_ids seen ls
unfolding build_registry fresh_ids
build_registry-fresh_ids seen acc [] c = refl
build_registry-fresh_ids seen acc (l ∷ ls) c = ground (
  arith,
  c l.id,
  build_registry-fresh_ids (l.id ∷ seen) (acc ++ (l.id, language_config l) ∷ []) ls
      (Covers-snoc seen acc l c),
)

-- A file that parses is loaded exactly if it declares a language, and its ids are non-empty and all
-- different.
pub load_registry_ok_iff :
    (langs excluded : String) (ls : List LanguageYaml) (old : Registry)
    → ((load_registry langs excluded (parsed ls) old).1 ≡ none)
      ↔ ((ls ≢ []) × (fresh_ids [] ls ≡ true))
unfolding load_registry lookup
load_registry_ok_iff langs excluded [] old = (λ e. cc, λ h. absurd (h.0 refl))
load_registry_ok_iff langs excluded (l ∷ ls) old = (
  λ e. (λ h. cc, sym exact ∙ (finished (build_registry [] (l ∷ ls))).0 e),
  λ h. (finished (build_registry [] (l ∷ ls))).1 (exact ∙ h.1),
)
  where
    exact : is_loaded (build_registry [] (l ∷ ls)) ≡ fresh_ids [] (l ∷ ls)
    exact = build_registry-fresh_ids [] [] (l ∷ ls) (λ id. refl)

    finished : (x : Loaded) → ((finish_load langs excluded old x).1 ≡ none) ↔ (is_loaded x ≡ true)
    finished (loaded r) = (λ e. refl, λ e. refl)
    finished (load_failed y) = (λ e. cc, λ e. cc)
