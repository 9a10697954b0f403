-- ===== src/Api/Metrics.antt =====
-- internal/api/metrics.go: the counters, which the handlers of runs change. Each counter is read and
-- written at once. `metrics.Queued` is kept in the gate. A counter never comes near 2 ^ 63, and its wrap-around is not modelled.
pub mod Snapshot
use goboxd.Base.{
  ℕ, suc, ◌+◌, ◌≤◌, ℤ, pos, leb_ℤ, String, Bool, true, false, List, [], ◌∷◌, ◌≡◌, refl, str_eq,
  ◌<>◌, decimal, if◌then◌else◌, arith, Bool-cases, inl, inr, ap, ◌∙◌,
}

pub record Metrics : Type 0 where
  pub in_flight : ℕ
  pub total_runs : ℕ
  pub errors : ℕ
  pub statuses : List (String × ℕ)
  pub latency : List (String × ℕ)

-- `m[k]++`
unfoldable pub increment : String → List (String × ℕ) → List (String × ℕ)
increment k [] = (k, 1) ∷ []
increment k ((j, n) ∷ m) =
    let rest = increment k m in if str_eq j k then (j, suc n) ∷ m else (j, n) ∷ rest

-- `latencyBucketsMs`
abbrev pub latency_buckets : List ℕ
latency_buckets = 50 ∷ 100 ∷ 250 ∷ 500 ∷ 1000 ∷ 2000 ∷ 5000 ∷ []

-- The loop over the buckets, for a duration in ms.
unfoldable pub find_bucket : ℤ → List ℕ → String
find_bucket ms [] = "5000+"
find_bucket ms (b ∷ bs) =
    let rest = find_bucket ms bs in if leb_ℤ ms (pos b) then "<=" <> decimal b else rest

-- `recordRun`
unfoldable pub record_run : String → ℤ → Bool → Metrics → Metrics
unfolding increment find_bucket
record_run status ms is_error m = record m {
  total_runs = suc m.total_runs;
  errors = if is_error then suc m.errors else m.errors;
  statuses = increment status m.statuses;
  latency = increment (find_bucket ms latency_buckets) m.latency;
}

unfoldable pub sum : List (String × ℕ) → ℕ
sum [] = 0
sum ((k, n) ∷ m) = n + sum m

-- The counters agree: each run is counted under one status and in one bucket, and once in all.
pub record IsBalanced (m : Metrics) : Type 0 where
  pub statuses : sum m.statuses ≡ m.total_runs
  pub latency : sum m.latency ≡ m.total_runs
  pub errors : m.errors ≤ m.total_runs

pub sum-increment : (k : String) (m : List (String × ℕ)) → sum (increment k m) ≡ suc (sum m)
unfolding sum increment
sum-increment k [] = refl
sum-increment k ((j, n) ∷ m) =
    let ih = sum-increment k m in
    elim (Bool-cases (str_eq j k)) [
      | inl e ↦ rw e (ground arith)
      | inr e ↦ rw (e, ih) (ground arith)
    ]

pub record_run-IsBalanced :
    (status : String) (ms : ℤ) (is_error : Bool) (m : Metrics)
    → IsBalanced m
    → IsBalanced (record_run status ms is_error m)
unfolding record_run
record_run-IsBalanced status ms is_error m h = record {
  statuses = sum-increment status m.statuses ∙ ap suc h.statuses;
  latency = sum-increment (find_bucket ms latency_buckets) m.latency ∙ ap suc h.latency;
  errors = by_error is_error;
}
  where
    by_error : (b : Bool) → (if b then suc m.errors else m.errors) ≤ suc m.total_runs
    by_error true = let le = h.errors in ground arith
    by_error false = let le = h.errors in ground arith
