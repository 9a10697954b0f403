-- ===== src/Tests/Chain.antt =====
-- The chain before the routes and the probes, internal/api/router.go and probes.go, and the copy of a
-- template, internal/runner/jail.go, on small inputs.
use goboxd.Base.{
  ℕ, ◌-◌, String, true, [], Option, none, some, ◌≡◌, refl, inl, inr, ◌<>◌, ◌⊎◌, ltb, ◌+◌, ◌*◌, ◌/◌,
  leb,
}
use goboxd.Base.Strings.{split, trim_space}
use goboxd.Api.Auth.{Environment, auth_config, Among}
use goboxd.Api.RateLimit.{Float, RateLimitCfg}
use goboxd.Api.Router.{Request, Outcome, answered, Service, serve}
use goboxd.Api.Router.Chain.{IsShut, serve-refused, IsLogged, serve-IsLogged}
use goboxd.Runner.Jail.Copy
use goboxd.Runner.Jail.Copy.{
  Entry, file, special, Entries, end, Files, seed_from, copy_tree, copy_entry, find, set, replace,
  removable,
}
use goboxd.Runner.Jail.Copy.Contents.{HasNames, seed_from-file}

-- Whole tokens in place of float64.
instance abbrev whole : Float ℕ
whole = record {
  of_ℕ = λ n. n;
  add = λ a b. a + b;
  mul = λ a b. a * b;
  sub = λ a b. a - b;
  lt = ltb;
  le = leb;
  trunc = λ n. n;
  parse = λ s. none;
  seconds = λ ns. ns / 1000000000;
}

abbrev one_a_second : RateLimitCfg ℕ
one_a_second = record { rps = 1; burst = 2 }

abbrev with_token : Environment
with_token = record { auth_token = "secret"; allowed_origins = "" }

abbrev no_token : Request
no_token = record {
  incoming = record { method = "POST"; path = "/run"; authorization = ""; origin = "" };
  cf_ip = "203.0.113.7";
  remote_addr = "127.0.0.1:4711";
  request_id = "trace-1";
  now = 0;
  random = none;
  clock = "20260101";
}

-- Handlers that count their requests.
abbrev counting : Request → ℕ → ℕ × Outcome
counting r n = (n + 1, answered 200 "accepted")

abbrev idle : Service ℕ ℕ
idle = record { buckets = []; access_log = []; inner = 0 }

abbrev no_port : String → Option String
no_port s = none

no_token-config : auth_config with_token ≡ ("secret", [])
unfolding auth_config split trim_space
no_token-config = refl

no_token-refused : ¬ (
    ((◌≡◌ {A = String} "secret" "") ⊎ (◌≡◌ {A = String} "" ("Bearer " <> "secret")))
    × ((◌≡◌ {A = String} "" "") ⊎ Among "" []))
no_token-refused h = elim h.0 [ inl e ↦ cc | inr e ↦ cc ]

serve-refused_example :
    IsShut no_token idle (serve one_a_second no_port with_token counting no_token idle)
serve-refused_example =
    serve-refused one_a_second no_port with_token counting no_token idle "secret" [] no_token-config
      refl refl no_token-refused

serve-IsLogged_example :
    IsLogged counting no_token idle (serve one_a_second no_port with_token counting no_token idle)
serve-IsLogged_example = serve-IsLogged one_a_second no_port with_token counting no_token idle

abbrev host : Files
host = record { works = λ p. true; masked = λ m. m }

abbrev built : Entries
built =
    Copy.entry "main.c" (file 10000 420 "int main() {}")
      (Copy.entry "a.out" (file 10000 493 "ELF") (Copy.entry "pipe" (special 10000) end))

abbrev seeded : Entries
seeded = Copy.entry "main.c" (file 10001 420 "int main() {}") end

abbrev copied : Entries
copied =
    Copy.entry "main.c" (file 10001 420 "int main() {}")
      (Copy.entry "a.out" (file 10001 493 "ELF") end)

seeds : seed_from host 10001 built seeded ≡ some copied
unfolding seed_from copy_tree copy_entry find set replace removable
seeds = refl

built-HasNames : HasNames built
unfolding find
built-HasNames = (refl, (refl, (refl, tt)))

built-artifact : find "a.out" built ≡ some (file 10000 493 "ELF")
unfolding find
built-artifact = refl

seed_from-file_example : find "a.out" copied ≡ some (file 10001 493 "ELF")
seed_from-file_example =
    seed_from-file host 10001 "a.out" 10000 493 "ELF" built seeded built-HasNames built-artifact
      seeds
