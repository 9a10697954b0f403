-- ===== src/Config.antt =====
-- internal/config/config.go: the language registry. The registry's map is an association list; a
-- map's iteration order does not matter to the model, since only look-ups are observed.
pub mod Registry
use goboxd.Base.{
  ℤ, pos, eqb_ℤ, String, Bool, true, false, not, ◌&&◌, List, [], ◌∷◌, ◌++◌, map, Option, none, some,
  str_eq, has, if◌then◌else◌,
}
use goboxd.Base.Strings.{trim_space, split, replace_all}

pub record Limits : Type 0 where
  pub wall_time_s : ℤ
  pub memory_kb : ℤ
  pub max_processes : ℤ
  pub cpu_time_s : ℤ

pub record StageCmd : Type 0 where
  pub cmd : String
  pub args : List String
  pub limits : Limits
  pub ceiling : Limits
  pub has_ceiling : Bool
  pub flag_allowlist : List String

pub record LanguageYaml : Type 0 where
  pub id : String
  pub name : String
  pub source_filename : String
  pub artifact : String
  pub build : Option StageCmd
  pub run : StageCmd
  pub smoke_cmd : String
  pub smoke_args : List String
  pub source_filename_strategy : String
  pub seccomp : String

pub record LanguageConfig : Type 0 where
  pub id : String
  pub name : String
  pub source_filename : String
  pub artifact_filename : String
  pub build_cmd : List String
  pub run_cmd : List String
  pub default_limits : Limits
  pub build_limits : Limits
  pub run_limits : Limits
  pub build_ceiling : Limits
  pub run_ceiling : Limits
  pub default_ceiling : Limits
  pub flag_allowlist : List String
  pub smoke_cmd : List String
  pub source_filename_strategy : String
  pub seccomp : String

-- The zero value of `Limits`.
abbrev pub no_limits : Limits
no_limits = record {
  wall_time_s = pos 0;
  memory_kb = pos 0;
  max_processes = pos 0;
  cpu_time_s = pos 0;
}

-- A field of a ceiling that the YAML left unset takes the stage's limit.
abbrev or_limit : ℤ → ℤ → ℤ
or_limit c l = if eqb_ℤ c (pos 0) then l else c

-- `resolveCeiling`
unfoldable pub resolve_ceiling : Limits → Limits → Bool → Limits
resolve_ceiling ceiling limits false = limits
resolve_ceiling ceiling limits true = record {
  wall_time_s = or_limit ceiling.wall_time_s limits.wall_time_s;
  memory_kb = or_limit ceiling.memory_kb limits.memory_kb;
  max_processes = or_limit ceiling.max_processes limits.max_processes;
  cpu_time_s = or_limit ceiling.cpu_time_s limits.cpu_time_s;
}

-- The two replacements of `expandCmd` in one text.
expand_arg : String → String → String → String
expand_arg src artifact s = replace_all (replace_all s "{{source}}" src) "{{artifact}}" artifact

-- `expandCmd`
unfoldable pub expand_cmd : String → List String → String → String → List String
unfolding expand_arg
expand_cmd cmd args src artifact = expand_arg src artifact cmd ∷ map (expand_arg src artifact) args

-- The part of `LoadRegistry`'s loop that builds one language.
unfoldable pub language_config : LanguageYaml → LanguageConfig
unfolding resolve_ceiling expand_cmd
language_config l = built l.build
  where
    run_ceiling : Limits
    run_ceiling = resolve_ceiling l.run.ceiling l.run.limits l.run.has_ceiling

    run_cmd : List String
    run_cmd = expand_cmd l.run.cmd l.run.args l.source_filename l.artifact

    smoke : List String
    smoke = if str_eq l.smoke_cmd "" then [] else l.smoke_cmd ∷ l.smoke_args

    built : Option StageCmd → LanguageConfig
    built none = record {
      id = l.id;
      name = l.name;
      source_filename = l.source_filename;
      artifact_filename = "";
      build_cmd = [];
      run_cmd = run_cmd;
      default_limits = l.run.limits;
      build_limits = no_limits;
      run_limits = l.run.limits;
      build_ceiling = no_limits;
      run_ceiling = run_ceiling;
      default_ceiling = run_ceiling;
      flag_allowlist = [];
      smoke_cmd = smoke;
      source_filename_strategy = l.source_filename_strategy;
      seccomp = l.seccomp;
    }
    built (some b) = record {
      id = l.id;
      name = l.name;
      source_filename = l.source_filename;
      artifact_filename = l.artifact;
      build_cmd = expand_cmd b.cmd b.args l.source_filename l.artifact;
      run_cmd = run_cmd;
      default_limits = b.limits;
      build_limits = b.limits;
      run_limits = l.run.limits;
      build_ceiling = resolve_ceiling b.ceiling b.limits b.has_ceiling;
      run_ceiling = run_ceiling;
      default_ceiling = resolve_ceiling b.ceiling b.limits b.has_ceiling;
      flag_allowlist = b.flag_allowlist;
      smoke_cmd = smoke;
      source_filename_strategy = l.source_filename_strategy;
      seccomp = l.seccomp;
    }

abbrev pub Registry : Type 0
Registry = List (String × LanguageConfig)

-- `Registry()[id]`
unfoldable pub lookup : String → Registry → Option LanguageConfig
lookup id [] = none
lookup id ((j, c) ∷ r) = let rest = lookup id r in if str_eq j id then some c else rest

-- `delete(newRegistry, id)`
unfoldable pub remove : String → Registry → Registry
remove id [] = []
remove id ((j, c) ∷ r) = let rest = remove id r in if str_eq j id then rest else (j, c) ∷ rest

-- Why `LoadRegistry` fails.
pub data LoadError : Type 0 where
  unreadable unparsable no_languages empty_id : LoadError
  duplicate_id : String → LoadError

pub data Loaded : Type 0 where
  loaded : Registry → Loaded
  load_failed : LoadError → Loaded

-- The loop over the languages; the map grows by one entry a round.
unfoldable pub build_registry : Registry → List LanguageYaml → Loaded
build_registry acc [] = loaded acc
build_registry acc (l ∷ ls) =
    let rest = build_registry (acc ++ (l.id, language_config l) ∷ []) ls in
    if str_eq l.id ""
    then load_failed empty_id
    else elim (lookup l.id acc) [ some c ↦ load_failed (duplicate_id l.id) | none ↦ rest ]

-- The ids of a comma-separated variable.
nonempty_ids : List String → List String
nonempty_ids [] = []
nonempty_ids (p ∷ ps) =
    let rest = nonempty_ids ps in if str_eq (trim_space p) "" then rest else trim_space p ∷ rest

unfoldable pub id_list : String → List String
unfolding nonempty_ids
id_list s = nonempty_ids (split b',' s)

-- The filter of GOBOXD_LANGS.
unfoldable pub keep_only : List String → Registry → Registry
keep_only ids [] = []
keep_only ids ((j, c) ∷ r) = let rest = keep_only ids r in if has j ids then (j, c) ∷ rest else rest

-- The filter of GOBOXD_EXCLUDE_LANGS.
unfoldable pub exclude : List String → Registry → Registry
exclude [] r = r
exclude (id ∷ ids) r = exclude ids (remove id r)

unfoldable pub apply_filters : String → String → Registry → Registry
apply_filters langs excluded r =
    let kept =
      if not (str_eq langs "") && not (str_eq langs "all")
      then keep_only (id_list langs) r
      else r in
    if str_eq excluded "" then kept else exclude (id_list excluded) kept

-- What reading and parsing the YAML file comes to.
pub data Source : Type 0 where
  read_failed parse_failed : Source
  parsed : List LanguageYaml → Source

unfoldable pub finish_load : String → String → Registry → Loaded → Registry × Option LoadError
finish_load langs excluded old (loaded r) = (apply_filters langs excluded r, none)
finish_load langs excluded old (load_failed e) = (old, some e)

-- `LoadRegistry`, from the registry in force to the one in force afterwards.
unfoldable pub load_registry : String → String → Source → Registry → Registry × Option LoadError
unfolding finish_load
load_registry langs excluded read_failed old = (old, some unreadable)
load_registry langs excluded parse_failed old = (old, some unparsable)
load_registry langs excluded (parsed []) old = (old, some no_languages)
load_registry langs excluded (parsed (l ∷ ls)) old =
    finish_load langs excluded old (build_registry [] (l ∷ ls))
