-- ===== src/Runner/Poller/Once.antt =====
-- What the poller leaves after its ticks (`startJailPoller` of internal/runner/runner.go).
use goboxd.Base.{ℕ, ℤ, ◌||◌, List, [], ◌∷◌, Option, any, ◌≡◌, refl, arith, if◌then◌else◌}
use goboxd.Cgroup.{Files}
use goboxd.Runner.Poller.{Poll, idle, poll, tick, since_start, at_limit}

-- The flags from any state of the poller, and the kills if they stand beside the flag.
poll-from :
    (oom_base : ℕ) (limit : ℤ) (baseline : Option ℤ) (p : Poll) (fs : List Files)
    → p.kills ≡ (if p.cpu_killed then 1 else 0)
    → let q = poll oom_base limit baseline p fs in
      (q.oom_killed ≡ (p.oom_killed || any (since_start oom_base) fs))
      × (q.cpu_killed ≡ (p.cpu_killed || any (at_limit limit baseline) fs))
      × (q.kills ≡ (if p.cpu_killed || any (at_limit limit baseline) fs then 1 else 0))
unfolding poll tick
poll-from oom_base limit baseline p [] h = ground arith
poll-from oom_base limit baseline p (f ∷ fs) h =
    ground (arith, poll-from oom_base limit baseline (tick oom_base limit baseline p f) fs)

-- After any ticks the OOM flag says whether one of them found more kills than the baseline, the cpu
-- flag whether one found the usage at the limit, and the process has been killed once if the cpu
-- flag is set, and never otherwise.
pub poll-once :
    (oom_base : ℕ) (limit : ℤ) (baseline : Option ℤ) (fs : List Files)
    → let q = poll oom_base limit baseline idle fs in
      (q.oom_killed ≡ any (since_start oom_base) fs)
      × (q.cpu_killed ≡ any (at_limit limit baseline) fs)
      × (q.kills ≡ (if any (at_limit limit baseline) fs then 1 else 0))
poll-once oom_base limit baseline fs = poll-from oom_base limit baseline idle fs refl
