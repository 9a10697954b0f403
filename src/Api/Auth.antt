-- ===== src/Api/Auth.antt =====
-- internal/api/auth.go: the bearer token and the origin allowlist before POST /run.
-- `ConstantTimeCompare` is 1 exactly on equal texts; how long it takes is not modelled.
use goboxd.Base.{
  ℕ, String, Bool, true, false, not, ◌&&◌, List, [], ◌∷◌, ◌≡◌, refl, ◌↔◌, ◌⊎◌, inl, inr, ap, ◌∙◌,
  str_eq, ◌<>◌, if◌then◌else◌, arith, eq_iff, Bool-cases,
}
use goboxd.Base.Strings.{has_prefix, trim_prefix, trim_space, split}
use goboxd.Base.Prefix.{prefix-trim_prefix, trim_prefix-append, has_prefix-append}
use goboxd.Models.{ErrorDetail}
use goboxd.Api.Check.{detail}

-- The values of GOBOXD_AUTH_TOKEN and GOBOXD_ALLOWED_ORIGINS.
pub record Environment : Type 0 where
  pub auth_token : String
  pub allowed_origins : String

-- The parts of a request that the middleware reads; a missing header is "".
pub record Incoming : Type 0 where
  pub method : String
  pub path : String
  pub authorization : String
  pub origin : String

-- The loop of `authConfig`.
origins_of : List String → List String
origins_of [] = []
origins_of (part ∷ parts) =
    let rest = origins_of parts in
    if str_eq (trim_space part) "" then rest else trim_space part ∷ rest

-- `authConfig`
unfoldable pub auth_config : Environment → String × List String
unfolding origins_of
auth_config env = (trim_space env.auth_token, origins_of (split b',' env.allowed_origins))

-- `validBearer`
unfoldable pub valid_bearer : String → String → Bool
valid_bearer got want =
    if str_eq want ""
    then true
    else if not (has_prefix got "Bearer ")
    then false
    else str_eq (trim_prefix got "Bearer ") want

-- The loop of `originAllowed`.
pub listed_origin : String → List String → Bool
listed_origin origin [] = false
listed_origin origin (o ∷ os) =
    let rest = listed_origin origin os in if str_eq o origin then true else rest

-- `originAllowed`
unfoldable pub origin_allowed : String → List String → Bool
unfolding listed_origin
origin_allowed origin [] = if str_eq origin "" then true else false
origin_allowed origin (o ∷ os) = if str_eq origin "" then true else listed_origin origin (o ∷ os)

-- What `AuthMiddleware` does with a request.
pub data Gatekeeping : Type 0 where
  passed : Gatekeeping
  refused : ℕ → ErrorDetail → Gatekeeping

check_request : String × List String → Incoming → Gatekeeping
check_request (token, origins) r =
    if not (valid_bearer r.authorization token)
    then refused 401 (detail "unauthorized" "missing or invalid bearer token")
    else if not (origin_allowed r.origin origins)
    then refused 403 (detail "forbidden_origin" "origin not allowed")
    else passed

-- `AuthMiddleware`
unfoldable pub auth_middleware : Environment → Incoming → Gatekeeping
unfolding check_request
auth_middleware env r =
    if str_eq r.method "POST" && str_eq r.path "/run"
    then check_request (auth_config env) r
    else passed

-- `split "," ` and `trim_space` give the origins; an origin stands in the list.
abbrev pub Among : String → List String → Type 0
Among o [] = ⊥
Among o (p ∷ ps) = (p ≡ o) ⊎ Among o ps

listed_origin_iff : (o : String) (os : List String) → (listed_origin o os ≡ true) ↔ Among o os
unfolding listed_origin
listed_origin_iff o [] = (λ e. cc, λ h. absurd h)
listed_origin_iff o (p ∷ ps) = let ih = listed_origin_iff o ps in ground (arith, eq_iff p o)

origin_allowed_iff :
    (o : String) (os : List String) → (origin_allowed o os ≡ true) ↔ ((o ≡ "") ⊎ Among o os)
unfolding origin_allowed
origin_allowed_iff o [] = ground (arith, eq_iff o "")
origin_allowed_iff o (p ∷ ps) = ground (arith, eq_iff o "", listed_origin_iff o (p ∷ ps))

-- The token as a client sends it.
valid_bearer_iff :
    (got want : String) → (valid_bearer got want ≡ true) ↔ ((want ≡ "") ⊎ (got ≡ "Bearer " <> want))
unfolding valid_bearer
valid_bearer_iff got want = elim (Bool-cases (has_prefix got "Bearer ")) [
  | inl pre ↦
      let whole = prefix-trim_prefix got "Bearer " pre in
      let rest = trim_prefix-append "Bearer " want in
      (
        λ e. elim (Bool-cases (str_eq want "")) [
          | inl none ↦ inl ((eq_iff want "").0 none)
          | inr some_token ↦
              let sent = (eq_iff (trim_prefix got "Bearer ") want).0 (ground arith) in
              inr (whole ∙ ap (λ w. "Bearer " <> w) sent)
        ],
        λ h. elim h [
          | inl none ↦ ground (arith, eq_iff want "")
          | inr sent ↦
              let same =
                (eq_iff (trim_prefix got "Bearer ") want).1
                  (ap (λ g. trim_prefix g "Bearer ") sent ∙ rest) in
              ground arith
        ],
      )
  | inr no_pre ↦
      let always = has_prefix-append "Bearer " want in
      (
        λ e. inl (ground (arith, eq_iff want "")),
        λ h. elim h [
          | inl none ↦ ground (arith, eq_iff want "")
          | inr sent ↦ cc (sent, always, no_pre)
        ],
      )
]

by_request :
    (token : String) (origins : List String) (r : Incoming)
    → (check_request (token, origins) r ≡ passed) ↔ (
        ((token ≡ "") ⊎ (r.authorization ≡ "Bearer " <> token))
        × ((r.origin ≡ "") ⊎ Among r.origin origins))
unfolding check_request
by_request token origins r =
    ground (arith, valid_bearer_iff r.authorization token, origin_allowed_iff r.origin origins)

-- A POST to /run passes exactly if no token is configured or the request carries it as a bearer
-- token, and it has no Origin or one of the allowlist.
pub auth_middleware_iff :
    (env : Environment) (r : Incoming) (token : String) (origins : List String)
    → auth_config env ≡ (token, origins)
    → r.method ≡ "POST"
    → r.path ≡ "/run"
    → (auth_middleware env r ≡ passed) ↔ (
        ((token ≡ "") ⊎ (r.authorization ≡ "Bearer " <> token))
        × ((r.origin ≡ "") ⊎ Among r.origin origins))
unfolding auth_middleware
auth_middleware_iff env r token origins config post run =
    rw (config, post, run) (by_request token origins r)

-- A refusal has the status 401 or 403.
pub auth_middleware-cases :
    (env : Environment) (r : Incoming)
    → (auth_middleware env r ≡ passed)
      ⊎ ((status : ℕ) × (why : ErrorDetail) × (auth_middleware env r ≡ refused status why)
          × ((status ≡ 401) ⊎ (status ≡ 403)))
unfolding auth_middleware check_request
auth_middleware-cases env r = elim (Bool-cases (str_eq r.method "POST" && str_eq r.path "/run")) [
  | inr other ↦ inl (rw other refl)
  | inl run ↦ elim (Bool-cases (valid_bearer r.authorization (auth_config env).0)) [
    | inr bad ↦
        inr (
          401,
          detail "unauthorized" "missing or invalid bearer token",
          rw (run, bad) refl,
          inl refl,
        )
    | inl good ↦ elim (Bool-cases (origin_allowed r.origin (auth_config env).1)) [
      | inr bad ↦
          inr (
            403,
            detail "forbidden_origin" "origin not allowed",
            rw (run, good, bad) refl,
            inr refl,
          )
      | inl fine ↦ inl (rw (run, good, fine) refl)
    ]
  ]
]
