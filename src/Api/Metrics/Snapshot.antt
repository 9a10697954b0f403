-- ===== src/Api/Metrics/Snapshot.antt =====
-- `recordRun` and `Snapshot` of internal/api/metrics.go beside one another: each counter and each map
-- is changed and read for itself, with other requests' changes in between.
use goboxd.Base.{
  ℕ, suc, ◌+◌, ◌≤◌, ℤ, String, Bool, List, [], ◌∷◌, ◌++◌, ◌≡◌, refl, length, length-append, arith,
  if◌then◌else◌,
}
use goboxd.Api.Metrics.{
  Metrics, increment, find_bucket, latency_buckets, record_run, sum, sum-increment,
}

-- A run whose `recordRun` is under way.
pub record Completion : Type 0 where
  pub status : String
  pub ms : ℤ
  pub is_error : Bool

-- The counters, the runs that are counted in all and not yet under their status, and those that are
-- not yet in their bucket.
pub record Recording : Type 0 where
  pub metrics : Metrics
  pub counted : List Completion
  pub tallied : List Completion

-- `atomic.AddInt64(&metrics.TotalRuns, 1)`; the count of errors, which is added next, is taken with it.
unfoldable pub count : Completion → Metrics → Metrics
count r m = record m {
  total_runs = suc m.total_runs;
  errors = if r.is_error then suc m.errors else m.errors;
}

-- `metrics.Statuses[status]++`
unfoldable pub tally : Completion → Metrics → Metrics
tally r m = record m { statuses = increment r.status m.statuses }

-- `metrics.Latency[bucket]++`
unfoldable pub time : Completion → Metrics → Metrics
unfolding find_bucket
time r m = record m { latency = increment (find_bucket r.ms latency_buckets) m.latency }

pub data Step : Recording → Recording → Type 0 where
  counts :
      {s : Recording} (r : Completion)
      → Step s (record s { metrics = count r s.metrics; counted = r ∷ s.counted })
  tallies :
      {m : Metrics} (xs : List Completion) (r : Completion) (ys : List Completion)
      {tallied : List Completion}
      → Step
          (record { metrics = m; counted = xs ++ r ∷ ys; tallied = tallied })
          (record { metrics = tally r m; counted = xs ++ ys; tallied = r ∷ tallied })
  times :
      {m : Metrics} {counted : List Completion} (xs : List Completion) (r : Completion)
      (ys : List Completion)
      → Step
          (record { metrics = m; counted = counted; tallied = xs ++ r ∷ ys })
          (record { metrics = time r m; counted = counted; tallied = xs ++ ys })

-- Any number of steps.
pub data Later : Recording → Recording → Type 0 where
  now : {s : Recording} → Later s s
  after : {s t u : Recording} → Later s t → Step t u → Later s u

abbrev pub fresh : Recording
fresh = record {
  metrics = record { in_flight = 0; total_runs = 0; errors = 0; statuses = []; latency = [] };
  counted = [];
  tallied = [];
}

-- Every run that is counted in all is under a status and in a bucket, or still on its way there.
record IsAccounted (s : Recording) : Type 0 where
  statuses : sum s.metrics.statuses + length s.counted ≡ s.metrics.total_runs
  latency : sum s.metrics.latency + (length s.counted + length s.tallied) ≡ s.metrics.total_runs

Step-IsAccounted : {s t : Recording} → Step s t → IsAccounted s → IsAccounted t
unfolding count tally time
Step-IsAccounted (counts r) h = record {
  statuses = omega (arith, h.statuses);
  latency = omega (arith, h.latency);
}
Step-IsAccounted (tallies {m} xs r ys) h =
    let before = length-append xs (r ∷ ys) in
    let after = length-append xs ys in
    let more = sum-increment r.status m.statuses in
    record { statuses = omega (arith, h.statuses); latency = omega (arith, h.latency) }
Step-IsAccounted (times {m} xs r ys) h =
    let before = length-append xs (r ∷ ys) in
    let after = length-append xs ys in
    let more = sum-increment (find_bucket r.ms latency_buckets) m.latency in
    record { statuses = h.statuses; latency = omega (arith, h.latency) }

Later-IsAccounted : {s t : Recording} → Later s t → IsAccounted s → IsAccounted t
Later-IsAccounted now h = h
Later-IsAccounted (after l step) h = Step-IsAccounted step (Later-IsAccounted l h)

Step-total_runs : {s t : Recording} → Step s t → s.metrics.total_runs ≤ t.metrics.total_runs
unfolding count tally time
Step-total_runs (counts r) = omega arith
Step-total_runs (tallies xs r ys) = omega arith
Step-total_runs (times xs r ys) = omega arith

Later-total_runs : {s t : Recording} → Later s t → s.metrics.total_runs ≤ t.metrics.total_runs
Later-total_runs now = omega arith
Later-total_runs (after l step) = omega (arith, Later-total_runs l, Step-total_runs step)

fresh-IsAccounted : IsAccounted fresh
unfolding sum
fresh-IsAccounted = record { statuses = omega arith; latency = omega arith }

-- What `Snapshot` returns, from the states at its reads: the statuses first, then the buckets, then
-- the number of runs. Its other fields are single counters and the uptime.
pub record Snapshot : Type 0 where
  pub status_counts : List (String × ℕ)
  pub latency_histogram_ms : List (String × ℕ)
  pub total_runs : ℕ

unfoldable pub snapshot : Recording → Recording → Recording → Snapshot
snapshot s t u = record {
  status_counts = s.metrics.statuses;
  latency_histogram_ms = t.metrics.latency;
  total_runs = u.metrics.total_runs;
}

-- Whatever runs end while `Snapshot` reads, it never shows more runs under the statuses, or in the
-- buckets, than runs in all.
pub snapshot_bounded :
    {s t u : Recording}
    → Later fresh s
    → Later s t
    → Later t u
    → (sum (snapshot s t u).status_counts ≤ (snapshot s t u).total_runs)
      × (sum (snapshot s t u).latency_histogram_ms ≤ (snapshot s t u).total_runs)
unfolding snapshot
snapshot_bounded a b c =
    let hs = Later-IsAccounted a fresh-IsAccounted in
    let ht = Later-IsAccounted b hs in
    let first = Later-total_runs b in
    let second = Later-total_runs c in (omega (arith, hs.statuses), omega (arith, ht.latency))

-- One run that is recorded without another's steps in between is what `record_run` makes of it.
record_run-steps :
    (r : Completion) (m : Metrics)
    → time r (tally r (count r m)) ≡ record_run r.status r.ms r.is_error m
unfolding count tally time record_run
record_run-steps r m = refl
