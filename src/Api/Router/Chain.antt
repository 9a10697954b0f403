-- ===== src/Api/Router/Chain.antt =====
-- What the chain of internal/api/router.go does with every request, whatever the handlers do.
use goboxd.Base.{
  ℕ, String, Bool, true, false, ◌&&◌, List, [], ◌∷◌, ◌++◌, Option, none, some, ◌≡◌, ◌⊎◌, inl, inr,
  refl, str_eq, ◌<>◌, Bool-cases,
}
use goboxd.Models.{ErrorDetail}
use goboxd.Api.Auth.{Environment, auth_config, auth_middleware_iff, auth_middleware-cases, Among}
use goboxd.Api.RateLimit.{Float, RateLimitCfg, Buckets, Caller, throttle, limited, allow, client_ip}
use goboxd.Api.Router.{
  Request, Outcome, answered, panicked, Service, trace_id, caller, recovered, log_entry,
  authenticated, pass_on, throttled, logged, serve,
}

-- A status that refuses a run.
abbrev pub IsRefusal : ℕ → Type 0
IsRefusal n = (n ≡ 401) ⊎ ((n ≡ 403) ⊎ (n ≡ 429))

module _ {ℓ} {F : Type ℓ} where
  throttle-cases :
      ⦃f : Float F⦄ (cfg : RateLimitCfg F) (split : String → Option String) (c : Caller) (now : ℕ)
      (bs : Buckets F)
      → ((throttle cfg split c now bs).1 ≡ none)
        ⊎ ((why : ErrorDetail) × ((throttle cfg split c now bs).1 ≡ some (429, why)))
  unfolding throttle
  throttle-cases ⦃f⦄ cfg split c now bs = elim (Bool-cases (f.le cfg.rps (f.of_ℕ 0))) [
    | inl off ↦ inl (rw off refl)
    | inr on ↦ elim (Bool-cases (c.is_post && str_eq c.path "/run")) [
      | inr other ↦ inl (rw (on, other) refl)
      | inl run ↦ rw (on, run) (limited-cases (allow cfg (client_ip split c) now bs))
    ]
  ]
    where
      limited-cases :
          (v : Buckets F × Bool)
          → ((limited v).1 ≡ none) ⊎ ((why : ErrorDetail) × ((limited v).1 ≡ some (429, why)))
      limited-cases (bs, true) = inl refl
      limited-cases (bs, false) = inr (_, refl)

module _ {ℓ κ} {F : Type ℓ} {S : Type κ} where
  -- The service answers a refusal and logs it, and nothing behind the mux has changed.
  abbrev pub IsShut : Request → Service F S → Service F S × ℕ × String → Type κ
  IsShut r s (t, status, id) =
      (t.inner ≡ s.inner)
      × IsRefusal status
      × (t.access_log ≡ s.access_log ++ log_entry r status "" ∷ [])

  logged-IsShut :
      (next : Request → S → S × Outcome) (r : Request) (s : Service F S) (status : ℕ)
      (v : Buckets F × Option (ℕ × ErrorDetail))
      → (v.1 ≡ none) ⊎ ((why : ErrorDetail) × (v.1 ≡ some (429, why)))
      → next r s.inner ≡ (s.inner, answered status "")
      → (status ≡ 401) ⊎ (status ≡ 403)
      → IsShut r s (
        (logged r (pass_on next r s v)).0,
        recovered (logged r (pass_on next r s v)).1,
        trace_id r,
      )
  unfolding logged pass_on recovered
  logged-IsShut next r s status (bs, none) limits e known =
      rw e (refl, elim known [ inl a ↦ inl a | inr b ↦ inr (inl b) ], refl)
  logged-IsShut next r s status (bs, some (n, why)) (inl limits) e known = cc
  logged-IsShut next r s status (bs, some (n, why)) (inr (why', limits)) e known =
      (refl, inr (inr cc), refl)

-- A POST to /run that lacks the configured token, or comes from an origin that is not allowed, is
-- answered 401, 403 or 429 whatever the throttle does, is logged with that status and its trace id,
-- and reaches no handler: what lies behind the mux is unchanged.
pub serve-refused {ℓ κ} :
    {F : Type ℓ} {S : Type κ} ⦃f : Float F⦄ (cfg : RateLimitCfg F) (split : String → Option String)
    (env : Environment) (mux : Request → S → S × Outcome) (r : Request) (s : Service F S)
    (token : String) (origins : List String)
    → auth_config env ≡ (token, origins)
    → r.incoming.method ≡ "POST"
    → r.incoming.path ≡ "/run"
    → ¬ (
        ((token ≡ "") ⊎ (r.incoming.authorization ≡ "Bearer " <> token))
        × ((r.incoming.origin ≡ "") ⊎ Among r.incoming.origin origins))
    → IsShut r s (serve cfg split env mux r s)
unfolding serve throttled
serve-refused cfg split env mux r s token origins config post run bad =
    elim (auth_middleware-cases env r.incoming) [
      | inl pass ↦
          absurd (bad ((auth_middleware_iff env r.incoming token origins config post run).0 pass))
      | inr (status, why, e, known) ↦
          logged-IsShut (authenticated env mux) r s status
            (throttle cfg split (caller r) r.now s.buckets)
            (throttle-cases cfg split (caller r) r.now s.buckets) (rw (authenticated, e) refl) known
    ]

module _ {ℓ κ} {F : Type ℓ} {S : Type κ} where
  -- The log before and after: one line more, with the status and the id of the answer, or, where the
  -- handler panicked, none.
  abbrev pub IsLogged :
      (Request → S → S × Outcome) → Request → Service F S → Service F S × ℕ × String → Type 0
  IsLogged mux r s (t, status, id) =
      ((run : String) × (t.access_log ≡ s.access_log ++ log_entry r status run ∷ []))
      ⊎ (((written : Option ℕ) × ((mux r s.inner).1 ≡ panicked written))
          × (t.access_log ≡ s.access_log))

  logged-pass_on :
      (env : Environment) (mux : Request → S → S × Outcome) (r : Request) (s : Service F S)
      (v : Buckets F × Option (ℕ × ErrorDetail))
      → IsLogged mux r s (
        (logged r (pass_on (authenticated env mux) r s v)).0,
        recovered (logged r (pass_on (authenticated env mux) r s v)).1,
        trace_id r,
      )
  unfolding logged pass_on recovered authenticated
  logged-pass_on env mux r s (bs, some (n, why)) = inl ("", refl)
  logged-pass_on env mux r s (bs, none) = elim (auth_middleware-cases env r.incoming) [
    | inr (status, why, e, known) ↦
        let at : authenticated env mux r s.inner ≡ (s.inner, answered status "") =
          rw (authenticated, e) refl in
        rw at (inl ("", refl))
    | inl pass ↦
        let at : authenticated env mux r s.inner ≡ mux r s.inner = rw (authenticated, pass) refl in
        rw at (by_outcome (mux r s.inner).1 refl)
  ]
    where
      by_outcome :
          (o : Outcome)
          → (mux r s.inner).1 ≡ o
          → IsLogged mux r s (
            (logged r (record s { buckets = bs; inner = (mux r s.inner).0 }, o)).0,
            recovered (logged r (record s { buckets = bs; inner = (mux r s.inner).0 }, o)).1,
            trace_id r,
          )
      by_outcome (answered status run) e = inl (run, refl)
      by_outcome (panicked written) e = inr ((written, e), refl)

-- Every request is answered, and exactly one line is logged for it, with the status of the answer and
-- the request's trace id, unless the handler behind the mux panics: then the log keeps no trace of it.
pub serve-IsLogged {ℓ κ} :
    {F : Type ℓ} {S : Type κ} ⦃f : Float F⦄ (cfg : RateLimitCfg F) (split : String → Option String)
    (env : Environment) (mux : Request → S → S × Outcome) (r : Request) (s : Service F S)
    → IsLogged mux r s (serve cfg split env mux r s)
unfolding serve throttled
serve-IsLogged cfg split env mux r s =
    logged-pass_on env mux r s (throttle cfg split (caller r) r.now s.buckets)
