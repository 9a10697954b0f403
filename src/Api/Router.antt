-- ===== src/Api/Router.antt =====
-- The chain of middlewares that `NewRouter` (internal/api/router.go) puts before the routes, with those
-- of internal/api/logging.go. The mux of net/http with the handlers behind it is a parameter.
pub mod Chain
use goboxd.Base.{
  ℕ, String, Bool, true, false, ◌&&◌, List, [], ◌∷◌, ◌++◌, Option, none, some, str_eq,
  if◌then◌else◌,
}
use goboxd.Models.{ErrorDetail}
use goboxd.Api.Auth.{Environment, Incoming, Gatekeeping, passed, refused, auth_middleware}
use goboxd.Api.RateLimit.{Float, RateLimitCfg, Buckets, Caller, throttle}

-- A request, by what the middlewares read of it, with the time it arrives at the throttle and what
-- rand.Read and the clock give for a trace id; a missing header is "".
pub record Request : Type 0 where
  pub incoming : Incoming
  pub cf_ip : String
  pub remote_addr : String
  pub request_id : String
  pub now : ℕ
  pub random : Option String
  pub clock : String

-- What a handler does: it answers with a status and the header X-Run-Status, or panics, after it
-- wrote a status or before.
pub data Outcome : Type 0 where
  answered : ℕ → String → Outcome
  panicked : Option ℕ → Outcome

-- The fields of a line of the access log that are no times.
pub record LogEntry : Type 0 where
  pub method : String
  pub path : String
  pub status : ℕ
  pub run_status : String
  pub request_id : String

-- The service: the throttle's buckets, the access log, and the state behind the mux.
pub record Service {ℓ κ} (F : Type ℓ) (S : Type κ) : Type (ℓ ⊔ κ) where
  pub buckets : Buckets F
  pub access_log : List LogEntry
  pub inner : S

-- The id that `RequestIDMiddleware` gives a request.
unfoldable pub trace_id : Request → String
trace_id r =
    if str_eq r.request_id "" then elim r.random [ none ↦ r.clock | some id ↦ id ] else r.request_id

abbrev pub is_run : Incoming → Bool
is_run i = str_eq i.method "POST" && str_eq i.path "/run"

unfoldable pub caller : Request → Caller
caller r = record {
  is_post = str_eq r.incoming.method "POST";
  path = r.incoming.path;
  cf_ip = r.cf_ip;
  remote_addr = r.remote_addr;
}

-- The status that the client sees after `RecoveryMiddleware`.
unfoldable pub recovered : Outcome → ℕ
recovered (answered status run) = status
recovered (panicked none) = 500
recovered (panicked (some status)) = status

unfoldable pub log_entry : Request → ℕ → String → LogEntry
unfolding trace_id
log_entry r status run = record {
  method = r.incoming.method;
  path = r.incoming.path;
  status = status;
  run_status = if is_run r.incoming then run else "";
  request_id = trace_id r;
}

-- `AuthMiddleware` before a handler.
unfoldable pub authenticated {ℓ} :
    {S : Type ℓ} → Environment → (Request → S → S × Outcome) → Request → S → S × Outcome
authenticated env next r s = elim (auth_middleware env r.incoming) [
  | passed ↦ next r s
  | refused status why ↦ (s, answered status "")
]

module _ {ℓ κ} {F : Type ℓ} {S : Type κ} where
  -- The throttle passes a request on, or answers it.
  unfoldable pub pass_on :
      (Request → S → S × Outcome)
      → Request
      → Service F S
      → Buckets F × Option (ℕ × ErrorDetail)
      → Service F S × Outcome
  pass_on next r s (bs, none) =
      (record s { buckets = bs; inner = (next r s.inner).0 }, (next r s.inner).1)
  pass_on next r s (bs, some (status, why)) = (record s { buckets = bs }, answered status "")

  -- `newRateLimitMiddleware` before a handler.
  unfoldable pub throttled :
      ⦃f : Float F⦄
      → RateLimitCfg F
      → (String → Option String)
      → (Request → S → S × Outcome)
      → Request
      → Service F S
      → Service F S × Outcome
  unfolding caller pass_on
  throttled cfg split next r s = pass_on next r s (throttle cfg split (caller r) r.now s.buckets)

  -- The rest of `LoggingMiddleware` after the handler, which a panic passes by.
  unfoldable pub logged : Request → Service F S × Outcome → Service F S × Outcome
  unfolding log_entry
  logged r (s, answered status run) =
      (record s { access_log = s.access_log ++ log_entry r status run ∷ [] }, answered status run)
  logged r (s, panicked written) = (s, panicked written)

  -- `NewRouter`: the status of the answer and its header X-Request-Id.
  unfoldable pub serve :
      ⦃f : Float F⦄
      → RateLimitCfg F
      → (String → Option String)
      → Environment
      → (Request → S → S × Outcome)
      → Request
      → Service F S
      → Service F S × ℕ × String
  unfolding authenticated throttled logged recovered trace_id
  serve cfg split env mux r s =
      let (t, o) = logged r (throttled cfg split (authenticated env mux) r s) in
      (t, recovered o, trace_id r)
