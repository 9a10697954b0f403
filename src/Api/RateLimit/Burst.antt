-- ===== src/Api/RateLimit/Burst.antt =====
-- How many requests the throttle of internal/api/ratelimit.go lets through.
use goboxd.Base.{
  ℕ, zero, suc, ◌+◌, ◌-◌, ◌<◌, ◌≤◌, ◌^◌, min, String, true, false, [], ◌∷◌, ◌≡◌, refl, inl, inr,
  str_eq, ltb, arith, eq_iff, has, map, All, Bool-cases, if◌then◌else◌,
}
use goboxd.Api.RateLimit.{
  Float, RateLimitCfg, IpBucket, Buckets, bucket_idle_ttl, prune, bucket_of, refill, take_token,
  put, allow,
}

-- What IEEE 754 says of the operations: an integer up to 2^53 is exact, and taking one away makes
-- no number greater.
pub record IsFloat {ℓ} (F : Type ℓ) ⦃f : Float F⦄ : Type ℓ where
  pub lt-of_ℕ : (m n : ℕ) → m ≤ 2 ^ 53 → n ≤ 2 ^ 53 → f.lt (f.of_ℕ m) (f.of_ℕ n) ≡ ltb m n
  pub sub-one : (n : ℕ) → n < 2 ^ 53 → f.sub (f.of_ℕ (suc n)) (f.of_ℕ 1) ≡ f.of_ℕ n
  pub lt-sub_one : (b x : F) → f.lt b x ≡ false → f.lt b (f.sub x (f.of_ℕ 1)) ≡ false
  pub lt-self : (x : F) → f.lt x x ≡ false
  pub no_seconds : f.lt (f.of_ℕ 0) (f.seconds 0) ≡ false

module _ {ℓ} {F : Type ℓ} ⦃f : Float F⦄ where
  -- No bucket holds more than the burst.
  abbrev pub IsCapped : ℕ → Buckets F → Type 0
  IsCapped burst = All (λ e. f.lt (f.of_ℕ burst) e.1.tokens ≡ false)

  -- The number of requests of one address that are let through at one time.
  pub admitted : RateLimitCfg F → String → ℕ → ℕ → Buckets F → ℕ
  admitted cfg ip now zero bs = 0
  admitted cfg ip now (suc k) bs =
      let rest = admitted cfg ip now k (allow cfg ip now bs).0 in
      if (allow cfg ip now bs).1 then rest + 1 else rest

module _ {ℓ} {F : Type ℓ} ⦃f : Float F⦄ (laws : IsFloat F) where
  module _ (burst : ℕ) where
    prune-IsCapped : (now : ℕ) (bs : Buckets F) → IsCapped burst bs → IsCapped burst (prune now bs)
    unfolding prune
    prune-IsCapped now [] h = tt
    prune-IsCapped now ((k, b) ∷ bs) h =
        elim (Bool-cases (ltb bucket_idle_ttl (now - b.last_ref))) [
          | inl e ↦ rw e (prune-IsCapped now bs h.1)
          | inr e ↦ rw e (h.0, prune-IsCapped now bs h.1)
        ]

    bucket_of-IsCapped :
        (ip : String) (now : ℕ) (bs : Buckets F)
        → IsCapped burst bs
        → f.lt (f.of_ℕ burst) (bucket_of burst ip now bs).tokens ≡ false
    unfolding bucket_of
    bucket_of-IsCapped ip now [] h = laws.lt-self (f.of_ℕ burst)
    bucket_of-IsCapped ip now ((k, b) ∷ bs) h = elim (Bool-cases (str_eq k ip)) [
      | inl e ↦ rw e (h.0)
      | inr e ↦ rw e (bucket_of-IsCapped ip now bs h.1)
    ]

    put-IsCapped :
        (ip : String) (b : IpBucket F) (bs : Buckets F)
        → f.lt (f.of_ℕ burst) b.tokens ≡ false
        → IsCapped burst bs
        → IsCapped burst (put ip b bs)
    unfolding put
    put-IsCapped ip b [] hb h = (hb, tt)
    put-IsCapped ip b ((k, c) ∷ bs) hb h = elim (Bool-cases (str_eq k ip)) [
      | inl e ↦ rw e (hb, h.1)
      | inr e ↦ rw e (h.0, put-IsCapped ip b bs hb h.1)
    ]

  refill-capped :
      (cfg : RateLimitCfg F) (now : ℕ) (b : IpBucket F)
      → f.lt (f.of_ℕ cfg.burst) b.tokens ≡ false
      → f.lt (f.of_ℕ cfg.burst) (refill cfg now b).tokens ≡ false
  unfolding refill
  refill-capped cfg now b h =
      let elapsed = f.seconds (now - b.last_ref) in
      let gained = f.add b.tokens (f.mul cfg.rps elapsed) in
      elim (Bool-cases (f.lt (f.of_ℕ 0) elapsed)) [
        | inr e ↦ rw e h
        | inl e ↦ rw e (elim (Bool-cases (f.lt (f.of_ℕ cfg.burst) gained)) [
          | inl over ↦ rw over (laws.lt-self (f.of_ℕ cfg.burst))
          | inr under ↦ rw under under
        ])
      ]

  take_token-capped :
      (burst : ℕ) (b : IpBucket F)
      → f.lt (f.of_ℕ burst) b.tokens ≡ false
      → f.lt (f.of_ℕ burst) (take_token b).0.tokens ≡ false
  unfolding take_token
  take_token-capped burst b h = elim (Bool-cases (f.lt b.tokens (f.of_ℕ 1))) [
    | inl e ↦ rw e h
    | inr e ↦ rw e (laws.lt-sub_one _ _ h)
  ]

-- No request leaves a bucket with more tokens than the burst, whatever time has passed and whichever
-- buckets are dropped.
pub allow-IsCapped {ℓ} :
    {F : Type ℓ} ⦃f : Float F⦄ (laws : IsFloat F) (cfg : RateLimitCfg F) (ip : String) (now : ℕ)
    (bs : Buckets F)
    → IsCapped cfg.burst bs
    → IsCapped cfg.burst (allow cfg ip now bs).0
unfolding allow
allow-IsCapped laws cfg ip now bs h =
    let kept = prune-IsCapped laws cfg.burst now bs h in
    put-IsCapped laws cfg.burst ip _ _
      (take_token-capped laws cfg.burst _
        (refill-capped laws cfg now _ (bucket_of-IsCapped laws cfg.burst ip now _ kept)))
      kept

module _ {ℓ} {F : Type ℓ} ⦃f : Float F⦄ where
  -- A bucket that was used just now is found again after the next pruning.
  bucket_of-prune-put :
      (burst : ℕ) (ip : String) (now : ℕ) (b : IpBucket F) (bs : Buckets F)
      → b.last_ref ≡ now
      → bucket_of burst ip now (prune now (put ip b bs)) ≡ b
  unfolding bucket_of prune put
  bucket_of-prune-put burst ip now b [] h =
      let kept : ltb bucket_idle_ttl (now - b.last_ref) ≡ false = ground arith in
      let same : str_eq ip ip ≡ true = ground (arith, eq_iff ip ip) in rw (kept, same) refl
  bucket_of-prune-put burst ip now b ((k, c) ∷ bs) h = elim (Bool-cases (str_eq k ip)) [
    | inl same ↦
        let kept : ltb bucket_idle_ttl (now - b.last_ref) ≡ false = ground arith in
        rw (same, kept, same) refl
    | inr other ↦
        let ih = bucket_of-prune-put burst ip now b bs h in
        rw other (elim (Bool-cases (ltb bucket_idle_ttl (now - c.last_ref))) [
          | inl idle ↦ rw idle ih
          | inr kept ↦ rw (kept, other) ih
        ])
  ]

  abbrev full : ℕ → ℕ → IpBucket F
  full n now = record { tokens = f.of_ℕ n; last_ref = now }

  take_token-zero : (laws : IsFloat F) (now : ℕ) → take_token (full 0 now) ≡ (full 0 now, false)
  unfolding take_token
  take_token-zero laws now = rw (laws.lt-of_ℕ 0 1 (omega arith) (omega arith)) refl

  take_token-suc :
      (laws : IsFloat F) (n now : ℕ)
      → suc n ≤ 2 ^ 53
      → take_token (full (suc n) now) ≡ (full n now, true)
  unfolding take_token
  take_token-suc laws n now h =
      let less : ltb (suc n) 1 ≡ false = ground arith in
      rw (laws.lt-of_ℕ (suc n) 1 h (omega arith), less, laws.sub-one n (omega arith)) refl

  -- No time has passed.
  refill-now :
      (laws : IsFloat F) (cfg : RateLimitCfg F) (n now : ℕ)
      → refill cfg now (full n now) ≡ full n now
  unfolding refill
  refill-now laws cfg n now =
      let none : now - now ≡ 0 = omega arith in rw (none, laws.no_seconds) refl

  admitted-min :
      (laws : IsFloat F) (cfg : RateLimitCfg F) (ip : String) (now k n : ℕ) (bs : Buckets F)
      → n ≤ 2 ^ 53
      → bucket_of cfg.burst ip now (prune now bs) ≡ full n now
      → admitted cfg ip now k bs ≡ min k n
  unfolding admitted allow
  admitted-min laws cfg ip now zero n bs small h = omega arith
  admitted-min laws cfg ip now (suc k) zero bs small h =
      let again =
        admitted-min laws cfg ip now k zero (put ip (full 0 now) (prune now bs)) small
          (bucket_of-prune-put cfg.burst ip now (full 0 now) (prune now bs) refl) in
      rw (h, refill-now laws cfg 0 now, take_token-zero laws now) (omega arith)
  admitted-min laws cfg ip now (suc k) (suc n) bs small h =
      let again =
        admitted-min laws cfg ip now k n (put ip (full n now) (prune now bs)) (omega arith)
          (bucket_of-prune-put cfg.burst ip now (full n now) (prune now bs) refl) in
      rw (h, refill-now laws cfg (suc n) now, take_token-suc laws n now small) (omega arith)

-- Of any number of requests that an address without a bucket sends at one time, as many are let
-- through as the burst allows: all of them up to the burst, and none with a burst of zero.
pub admitted-fresh {ℓ} :
    {F : Type ℓ} ⦃f : Float F⦄ (laws : IsFloat F) (cfg : RateLimitCfg F) (ip : String) (now k : ℕ)
    (bs : Buckets F)
    → cfg.burst ≤ 2 ^ 53
    → has ip (map (λ e. e.0) (prune now bs)) ≡ false
    → admitted cfg ip now k bs ≡ min k cfg.burst
unfolding bucket_of
admitted-fresh {F} ⦃f⦄ laws cfg ip now k bs small fresh =
    admitted-min laws cfg ip now k cfg.burst bs small (absent (prune now bs) fresh)
  where
    absent :
        (bs : Buckets F)
        → has ip (map (λ e. e.0) bs) ≡ false
        → bucket_of cfg.burst ip now bs ≡ record { tokens = f.of_ℕ cfg.burst; last_ref = now }
    absent [] h = refl
    absent ((k, b) ∷ bs) h = elim (Bool-cases (str_eq k ip)) [
      | inl e ↦ cc (rw e at h)
      | inr e ↦ rw e (absent bs (rw e at h))
    ]
