-- ===== src/Runner/Poller.antt =====
-- The measurements around one execution, internal/runner/runner.go: `oomBaseline`, `cpuBaseline`,
-- `startJailPoller` and `cpuTimeUS`. What the jail's cgroup shows at each moment is given: before the
-- start, at each tick of the poller, and after the process has ended.
pub mod Once
use goboxd.Base.{
  ℕ, ◌+◌, ◌*◌, ℤ, pos, leb_ℤ, ltb_ℤ, Bool, true, false, not, ◌&&◌, List, [], ◌∷◌, Option, none,
  some, if◌then◌else◌, wrap_int64, add_ℤ, sub_ℤ,
}
use goboxd.Cgroup.{Files, oom_kills, oom_kills_since, cpu_usage_us}
use goboxd.Runner.Args.{CgroupJail, cgroup_cpu}

-- `syscall.Timeval`
pub record Timeval : Type 0 where
  pub sec : ℕ
  pub usec : ℕ

-- What `syscall.Rusage` holds of times.
pub record Rusage : Type 0 where
  pub utime : Timeval
  pub stime : Timeval

-- `timevalUS`
abbrev timeval_us : Timeval → ℤ
timeval_us tv = wrap_int64 (pos (tv.sec * 1000000 + tv.usec))

rusage_us : Rusage → ℤ
rusage_us r = wrap_int64 (add_ℤ (timeval_us r.utime) (timeval_us r.stime))

-- `oomBaseline`
unfoldable pub oom_baseline : Option CgroupJail → Files → ℕ
oom_baseline none f = 0
oom_baseline (some cg) f = elim (oom_kills f) [ none ↦ 0 | some n ↦ n ]

-- `cpuBaseline`; `none` is a baseline that is not OK.
unfoldable pub cpu_baseline : Option CgroupJail → Files → Option ℤ
cpu_baseline cg f = if cgroup_cpu cg then cpu_usage_us f else none

-- The part of `cpuTimeUS` that reads the children's times.
unfoldable pub rusage_time : Rusage → Rusage → ℤ
unfolding rusage_us
rusage_time before after =
    if leb_ℤ (rusage_us before) (rusage_us after)
    then wrap_int64 (sub_ℤ (rusage_us after) (rusage_us before))
    else pos 0

-- The cgroup's usage since the baseline, where it has not gone back.
unfoldable pub usage_since : ℤ → Option ℤ → Option ℤ
usage_since baseline none = none
usage_since baseline (some us) =
    if leb_ℤ baseline us then some (wrap_int64 (sub_ℤ us baseline)) else none

-- `cpuTimeUS`
unfoldable pub cpu_time_us : Option CgroupJail → Option ℤ → Files → Rusage → Rusage → ℤ
unfolding rusage_time usage_since
cpu_time_us cg none f before after = rusage_time before after
cpu_time_us cg (some baseline) f before after =
    if cgroup_cpu cg
    then elim (usage_since baseline (cpu_usage_us f)) [
      | none ↦ rusage_time before after
      | some us ↦ us
    ]
    else rusage_time before after

-- The flags that the poller shares with `execJail`, and the number of times that it has killed.
pub record Poll : Type 0 where
  pub oom_killed : Bool
  pub cpu_killed : Bool
  pub kills : ℕ

abbrev pub idle : Poll
idle = record { oom_killed = false; cpu_killed = false; kills = 0 }

-- `err == nil && since`
abbrev pub since_start : ℕ → Files → Bool
since_start baseline f = elim (oom_kills_since baseline f) [ none ↦ false | some b ↦ b ]

-- Whether a tick finds the cpu usage at the limit.
unfoldable pub at_limit : ℤ → Option ℤ → Files → Bool
at_limit limit none f = false
at_limit limit (some baseline) f = elim (cpu_usage_us f) [
  | none ↦ false
  | some us ↦ ltb_ℤ (pos 0) limit && not (ltb_ℤ (wrap_int64 (sub_ℤ us baseline)) limit)
]

-- One tick of the poller's loop.
unfoldable pub tick : ℕ → ℤ → Option ℤ → Poll → Files → Poll
unfolding at_limit
tick oom_base limit baseline p f =
    let p' = record p { oom_killed = if since_start oom_base f then true else p.oom_killed } in
    if at_limit limit baseline f
    then (if p.cpu_killed then p' else record p' { cpu_killed = true; kills = p.kills + 1 })
    else p'

-- The loop, over what the ticks find until it is stopped.
unfoldable pub poll : ℕ → ℤ → Option ℤ → Poll → List Files → Poll
unfolding tick
poll oom_base limit baseline p [] = p
poll oom_base limit baseline p (f ∷ fs) =
    poll oom_base limit baseline (tick oom_base limit baseline p f) fs
