-- ===== src/Api/RateLimit.antt =====
-- internal/api/ratelimit.go: the throttle of POST /run, a token bucket for each client address. The
-- mutex makes `allow` one step on the buckets; the map of buckets is a list without double keys.
-- Times are nanoseconds; a time that lies before `last_ref` counts as no time passed, and neither
-- test on the difference tells the two apart.
pub mod Burst
use goboxd.Base.{
  ℕ, ◌*◌, pos, to_ℕ, ltb_ℤ, ltb, ◌-◌, atoi, String, Bool, true, false, ◌&&◌, List, [], ◌∷◌, Option,
  none, some, str_eq, if◌then◌else◌,
}
use goboxd.Base.Strings.{trim_space}
use goboxd.Models.{ErrorDetail}
use goboxd.Api.Check.{detail}

-- What the code does with a `float64`: conversion, arithmetic, order, strconv.ParseFloat and
-- Duration.Seconds.
pub record Float {ℓ} (F : Type ℓ) : Type ℓ where
  pub of_ℕ : ℕ → F
  pub add : F → F → F
  pub mul : F → F → F
  pub sub : F → F → F
  pub lt : F → F → Bool
  pub le : F → F → Bool
  pub trunc : F → ℕ
  pub parse : String → Option F
  pub seconds : ℕ → F

pub record RateLimitCfg {ℓ} (F : Type ℓ) : Type ℓ where
  pub rps : F
  pub burst : ℕ

pub record IpBucket {ℓ} (F : Type ℓ) : Type ℓ where
  pub tokens : F
  pub last_ref : ℕ

abbrev pub Buckets {ℓ} : Type ℓ → Type ℓ
Buckets F = List (String × IpBucket F)

-- 10 minutes in nanoseconds.
abbrev pub bucket_idle_ttl : ℕ
bucket_idle_ttl = 600000000000

-- A request, by what the throttle reads of it; `cf_ip` and `remote_addr` are the header
-- CF-Connecting-IP and RemoteAddr.
pub record Caller : Type 0 where
  pub is_post : Bool
  pub path : String
  pub cf_ip : String
  pub remote_addr : String

-- `clientIP`; `split` is net.SplitHostPort.
unfoldable pub client_ip : (String → Option String) → Caller → String
client_ip split r =
    let ip = trim_space r.cf_ip in
    if str_eq ip ""
    then elim (split r.remote_addr) [ none ↦ r.remote_addr | some host ↦ host ]
    else elim (split ip) [ none ↦ ip | some host ↦ host ]

-- GOBOXD_RATE_BURST, where it is a positive number.
unfoldable pub burst_env : String → ℕ → ℕ
burst_env env default = elim (atoi (trim_space env)) [
  | none ↦ default
  | some b ↦ if ltb_ℤ (pos 0) b then to_ℕ b else default
]

module _ {ℓ} {F : Type ℓ} ⦃f : Float F⦄ where
  -- The zero value: the throttle is off.
  abbrev pub disabled : RateLimitCfg F
  disabled = record { rps = f.of_ℕ 0; burst = 0 }

  -- `loadRateLimit`, from GOBOXD_RATE_LIMIT_RPS and GOBOXD_RATE_BURST.
  unfoldable pub load_rate_limit : String → String → RateLimitCfg F
  unfolding burst_env
  load_rate_limit rps_env burst =
      if str_eq (trim_space rps_env) "" then disabled else elim (f.parse (trim_space rps_env)) [
        | none ↦ disabled
        | some rps ↦
            if f.le rps (f.of_ℕ 0)
            then disabled
            else record { rps = rps; burst = burst_env burst (f.trunc rps * 2) }
      ]

  -- The loop that drops idle buckets.
  unfoldable pub prune : ℕ → Buckets F → Buckets F
  prune now [] = []
  prune now ((ip, b) ∷ bs) =
      let rest = prune now bs in
      if ltb bucket_idle_ttl (now - b.last_ref) then rest else (ip, b) ∷ rest

  -- `rl.buckets[ip]`, and a full bucket where there is none.
  unfoldable pub bucket_of : ℕ → String → ℕ → Buckets F → IpBucket F
  bucket_of burst ip now [] = record { tokens = f.of_ℕ burst; last_ref = now }
  bucket_of burst ip now ((k, b) ∷ bs) =
      let rest = bucket_of burst ip now bs in if str_eq k ip then b else rest

  -- The bucket with what it gained since it was last used, up to the burst.
  unfoldable pub refill : RateLimitCfg F → ℕ → IpBucket F → IpBucket F
  refill cfg now b =
      let elapsed = f.seconds (now - b.last_ref) in
      let gained = f.add b.tokens (f.mul cfg.rps elapsed) in
      if f.lt (f.of_ℕ 0) elapsed
      then record {
        tokens = if f.lt (f.of_ℕ cfg.burst) gained then f.of_ℕ cfg.burst else gained;
        last_ref = now;
      }
      else b

  -- `if b.tokens < 1 { return false }; b.tokens--; return true`
  unfoldable pub take_token : IpBucket F → IpBucket F × Bool
  take_token b =
      if f.lt b.tokens (f.of_ℕ 1)
      then (b, false)
      else (record b { tokens = f.sub b.tokens (f.of_ℕ 1) }, true)

  -- The map with the bucket of an address, which is a pointer into it.
  unfoldable pub put : String → IpBucket F → Buckets F → Buckets F
  put ip b [] = (ip, b) ∷ []
  put ip b ((k, c) ∷ bs) =
      let rest = put ip b bs in if str_eq k ip then (k, b) ∷ bs else (k, c) ∷ rest

  unfoldable pub allow : RateLimitCfg F → String → ℕ → Buckets F → Buckets F × Bool
  unfolding prune bucket_of refill take_token put
  allow cfg ip now buckets =
      let kept = prune now buckets in
      let (b, ok) = take_token (refill cfg now (bucket_of cfg.burst ip now kept)) in
      (put ip b kept, ok)

  -- The answer of the throttle, by what `allow` says; `none` passes the request on.
  unfoldable pub limited : Buckets F × Bool → Buckets F × Option (ℕ × ErrorDetail)
  limited (bs, true) = (bs, none)
  limited (bs, false) = (bs, some (429, detail "rate_limited" "too many requests"))

  -- The middleware.
  unfoldable pub throttle :
      RateLimitCfg F
      → (String → Option String)
      → Caller
      → ℕ
      → Buckets F
      → Buckets F × Option (ℕ × ErrorDetail)
  unfolding allow client_ip limited
  throttle cfg split r now buckets =
      if f.le cfg.rps (f.of_ℕ 0)
      then (buckets, none)
      else if r.is_post && str_eq r.path "/run"
      then limited (allow cfg (client_ip split r) now buckets)
      else (buckets, none)
