-- ===== src/Api/Probes.antt =====
-- internal/api/probes.go: the probes of nsjail and of each language, their cache, and the readiness
-- that `HandleReadyz` (internal/api/handlers.go) answers. What a command prints is a parameter, and
-- so are the times at which the cache looks at the clock.
pub mod Warm
use goboxd.Base.{
  ℕ, ◌+◌, ◌-◌, ◌*◌, pos, to_ℕ, ltb, ltb_ℤ, atoi, String, Bool, true, false, not, ◌&&◌, List, [],
  ◌∷◌, Option, none, some, str_eq, ◌<>◌, if◌then◌else◌,
}
use goboxd.Base.Strings.{trim_space}
use goboxd.Config.{LanguageConfig, Registry}

pub record ReadyProbe : Type 0 where
  pub ok : Bool
  pub version : String
  pub error : String

pub record CachedProbe : Type 0 where
  pub at : ℕ
  pub p : ReadyProbe

pub record ProbeCache : Type 0 where
  pub entries : List (String × CachedProbe)
  pub ttl : ℕ

-- The commands: the output of one that succeeds in time, and the path of a binary.
pub record Commands : Type 0 where
  pub output : String → List String → Option String
  pub look_path : String → Option String
  pub failure : String → String

-- `c.entries[key]`
unfoldable pub entry : String → List (String × CachedProbe) → Option CachedProbe
entry key [] = none
entry key ((k, e) ∷ es) = let rest = entry key es in if str_eq k key then some e else rest

-- `c.entries[key] = e`
unfoldable pub store :
    String → CachedProbe → List (String × CachedProbe) → List (String × CachedProbe)
store key e [] = (key, e) ∷ []
store key e ((k, f) ∷ es) =
    let rest = store key e es in if str_eq k key then (k, e) ∷ es else (k, f) ∷ rest

-- What a call of the cache comes to: the cache, the probe, and how many times `fn` was called.
pub record Hit : Type 0 where
  pub cache : ProbeCache
  pub probe : ReadyProbe
  pub calls : ℕ

unfoldable pub refresh : ProbeCache → String → ReadyProbe → ℕ → Hit
unfolding store
refresh c key p stored = record {
  cache = record c { entries = store key (record { at = stored; p = p }) c.entries };
  probe = p;
  calls = 1;
}

-- `run`; `p` is what `fn` gives, and the times are those of `time.Since` and of `time.Now`.
unfoldable pub run : ProbeCache → String → ReadyProbe → ℕ × ℕ → Hit
unfolding entry refresh
run c key p (now, stored) = elim (entry key c.entries) [
  | none ↦ refresh c key p stored
  | some e ↦
      if ltb (now - e.at) c.ttl
      then record { cache = c; probe = e.p; calls = 0 }
      else refresh c key p stored
]

-- `reset`
unfoldable pub reset : ProbeCache → ProbeCache
reset c = record c { entries = [] }

-- `readProbeTTL`, in nanoseconds.
unfoldable pub read_probe_ttl : String → ℕ
read_probe_ttl raw = if str_eq raw "" then 5000000000 else elim (atoi raw) [
  | none ↦ 5000000000
  | some secs ↦ if ltb_ℤ (pos 0) secs then to_ℕ secs * 1000000000 else 5000000000
]

-- `probeExecArgs`
unfoldable pub probe_exec_args : Commands → String → List String → ReadyProbe
probe_exec_args os binary args = elim (os.output binary args) [
  | some out ↦ record { ok = true; version = trim_space out; error = "" }
  | none ↦ elim (os.look_path binary) [
    | some path ↦ record { ok = true; version = path; error = "" }
    | none ↦ record {
      ok = false;
      version = "";
      error = binary <> " not found: " <> os.failure binary;
    }
  ]
]

-- `probeLangExec`; `none` is the panic on an empty run command.
unfoldable pub probe_lang_exec : Commands → LanguageConfig → Option ReadyProbe
unfolding probe_exec_args
probe_lang_exec os lc = by_commands lc.smoke_cmd lc.run_cmd lc.build_cmd
  where
    by_commands : List String → List String → List String → Option ReadyProbe
    by_commands (smoke ∷ args) runs builds = some (probe_exec_args os smoke args)
    by_commands [] [] builds = none
    by_commands [] (cmd ∷ args) [] = some (probe_exec_args os cmd ("--version" ∷ []))
    by_commands [] (cmd ∷ args) (build ∷ more) = some (probe_exec_args os build ("--version" ∷ []))

-- `nsjailVersionFromHelp`; `found` is the first group of the pattern.
unfoldable pub nsjail_version_from_help : Option String → String → String
nsjail_version_from_help (some v) env = v
nsjail_version_from_help none env = if str_eq env "" then "unknown" else trim_space env

-- `probeNsjail`: the output of `nsjail --help` or the text of its failure, and what the pattern finds in
-- an output.
unfoldable pub probe_nsjail :
    Option String → String → (String → Option String) → String → ReadyProbe
unfolding nsjail_version_from_help
probe_nsjail none failure pattern env = record {
  ok = false;
  version = "";
  error = "nsjail not found or failed: " <> failure;
}
probe_nsjail (some help) failure pattern env = record {
  ok = true;
  version = nsjail_version_from_help (pattern help) env;
  error = "";
}

pub record ReadyState : Type 0 where
  pub all_ok : Bool
  pub status : String
  pub nsjail : Option ReadyProbe
  pub languages : List (String × ReadyProbe)

-- The answers of the outside world for one readiness check: what the probes find, and the two times
-- of each key.
pub record World : Type 0 where
  pub nsjail : ReadyProbe
  pub lang_probe : LanguageConfig → ReadyProbe
  pub times : String → ℕ × ℕ

-- The loop over the registry: the cache, the state so far, and the number of probes that were made.
pub record Round : Type 0 where
  pub cache : ProbeCache
  pub all_ok : Bool
  pub languages : List (String × ReadyProbe)
  pub calls : ℕ

abbrev pub lang_key : LanguageConfig → String
lang_key lc = "lang:" <> lc.id

-- One round of the loop, before the rounds that follow.
unfoldable pub add_language : String → Hit → Round → Round
add_language lid h r = record {
  cache = r.cache;
  all_ok = h.probe.ok && r.all_ok;
  languages = (lid, h.probe) ∷ r.languages;
  calls = h.calls + r.calls;
}

unfoldable pub probe_languages : World → ProbeCache → Registry → Round
unfolding run add_language
probe_languages w c [] = record { cache = c; all_ok = true; languages = []; calls = 0 }
probe_languages w c ((lid, lc) ∷ reg) =
    let h = run c (lang_key lc) (w.lang_probe lc) (w.times (lang_key lc)) in
    add_language lid h (probe_languages w h.cache reg)

-- `probeReadiness`: the cache, the state, and the number of probes that were made.
unfoldable pub probe_readiness : Bool → World → Registry → ProbeCache → ProbeCache × ReadyState × ℕ
unfolding run probe_languages
probe_readiness true w reg c =
    (c, record { all_ok = false; status = "shutting_down"; nsjail = none; languages = [] }, 0)
probe_readiness false w reg c =
    let h = run c "nsjail" w.nsjail (w.times "nsjail") in
    let r = probe_languages w h.cache reg in
    let all_ok = h.probe.ok && r.all_ok in
    (
      r.cache,
      record {
        all_ok = all_ok;
        status = if all_ok then "ok" else "degraded";
        nsjail = some h.probe;
        languages = r.languages;
      },
      h.calls + r.calls,
    )

-- The HTTP status that `HandleReadyz` writes.
unfoldable pub ready_status : ReadyState → ℕ
ready_status s = if s.all_ok then 200 else 503
