-- ===== src/Runner/Exec/Timed.antt =====
-- The cpu limit of an execution (`execJail` of internal/runner/exec.go, `nsjailArgs` and
-- `startJailPoller` of internal/runner/runner.go): who enforces it, and what is measured.
use goboxd.Base.{
  ℕ, ◌+◌, ◌-◌, ◌*◌, ◌≤◌, ◌<◌, ℤ, pos, leb_ℤ, ltb_ℤ, String, Bool, true, false, not, ◌&&◌, List, [],
  ◌∷◌, Option, none, some, ltb, leb, max_int, any, All, ◌≡◌, refl, ap, sym, ◌∙◌, ◌⊎◌, inl, inr,
  arith, Bool-cases, wrap_int64-pos, wrap_int64-negsuc, wrap_int64, sub_ℤ, if◌then◌else◌, decimal_ℤ,
}
use goboxd.Cgroup.{Files, cpu_usage_us}
use goboxd.Runner.Single.{ExecLimits, micros}
use goboxd.Runner.Args.{CgroupJail, cgroup_cpu, rlimit_cpu, args}
use goboxd.Runner.Poller.{oom_baseline, cpu_baseline, cpu_time_us, at_limit, usage_since}
use goboxd.Runner.Poller.Once.{poll-once}
use goboxd.Runner.Exec.{Run, polled, collect, exec_jail}
use goboxd.Runner.Exec.Killed.{Started, exec_jail-collect}

-- A tick cannot read the usage, or reads one that no later moment takes back.
abbrev pub UsageUpTo : ℕ → Files → Type 0
UsageUpTo last f =
    (cpu_usage_us f ≡ none) ⊎ ((us : ℕ) × (cpu_usage_us f ≡ some (pos us)) × (us ≤ last))

sub_fits :
    (us first limit : ℕ)
    → us ≤ max_int
    → first ≤ max_int
    → 0 < limit
    → ltb_ℤ (wrap_int64 (sub_ℤ (pos us) (pos first))) (pos limit) ≡ false
    → limit + first ≤ us
sub_fits us first limit hu hf pos_limit h = elim (Bool-cases (leb first us)) [
  | inl e ↦
      let same = wrap_int64-pos (us - first) (omega arith) in
      let below : ltb (us - first) limit ≡ false = rw (e, same) at h in ground arith
  | inr e ↦
      let same = wrap_int64-negsuc (first - us - 1) (omega arith) in
      let wrong = rw (e, same) at h in cc wrong
]

at_limit-usage :
    (limit first last : ℕ) (f : Files)
    → 0 < limit
    → first ≤ max_int
    → last ≤ max_int
    → UsageUpTo last f
    → at_limit (pos limit) (some (pos first)) f ≡ true
    → limit + first ≤ last
unfolding at_limit
at_limit-usage limit first last f p hf hl (inl e) h = let wrong = rw (at_limit, e) at h in cc wrong
at_limit-usage limit first last f p hf hl (inr (us, e, le)) h =
    let reached = rw (at_limit, e) at h in
    let off : ltb_ℤ (wrap_int64 (sub_ℤ (pos us) (pos first))) (pos limit) ≡ false =
      by_both (ltb 0 limit) (ltb_ℤ (wrap_int64 (sub_ℤ (pos us) (pos first))) (pos limit)) reached in
    omega (arith, sub_fits us first limit (omega arith) hf p off)
  where
    by_both : (a b : Bool) → (a && not b) ≡ true → b ≡ false
    by_both a true h = ground (arith, h)
    by_both a false h = refl

any-usage :
    (limit first last : ℕ) (fs : List Files)
    → 0 < limit
    → first ≤ max_int
    → last ≤ max_int
    → All (UsageUpTo last) fs
    → any (at_limit (pos limit) (some (pos first))) fs ≡ true
    → limit + first ≤ last
any-usage limit first last [] p hf hl h e = cc e
any-usage limit first last (f ∷ fs) p hf hl (u, h) e =
    elim (Bool-cases (at_limit (pos limit) (some (pos first)) f)) [
      | inl at ↦ at_limit-usage limit first last f p hf hl u at
      | inr off ↦ any-usage limit first last fs p hf hl h (rw off at e)
    ]

any-no_baseline : (limit : ℤ) (fs : List Files) → any (at_limit limit none) fs ≡ false
unfolding at_limit
any-no_baseline limit [] = refl
any-no_baseline limit (f ∷ fs) = any-no_baseline limit fs

-- The flag and the kills of the poller of an execution.
abbrev reached : Option CgroupJail → ℤ → Run → Bool
reached cg limit w = any (at_limit (wrap_int64 (micros limit)) (cpu_baseline cg w.before)) w.ticks

polled-lem :
    (cg : Option CgroupJail) (limit : ℤ) (w : Run)
    → ((polled cg limit w).cpu_killed ≡ reached cg limit w)
      × ((polled cg limit w).kills ≡ (if reached cg limit w then 1 else 0))
unfolding polled cpu_baseline
polled-lem none limit w = rw (any-no_baseline (wrap_int64 (micros limit)) w.ticks) (refl, refl)
polled-lem (some cg) limit w =
    let flags =
      poll-once (oom_baseline (some cg) w.before) (wrap_int64 (micros limit))
        (cpu_baseline (some cg) w.before) w.ticks in
    (flags.1, flags.2)

-- Who enforces a limit on the cpu time: the kernel, in seconds; the poller, by the usage of the jail's
-- cgroup since the start; or nobody.
pub data Enforcer (limit : ℕ) (cg : Option CgroupJail) (w : Run) : Type 0 where
  by_kernel :
      cgroup_cpu cg ≡ false
      → rlimit_cpu (pos limit) cg ≡ decimal_ℤ (pos limit)
      → (polled cg (pos limit) w).kills ≡ 0
      → Enforcer limit cg w
  by_poller :
      (base : ℤ)
      → cgroup_cpu cg ≡ true
      → cpu_usage_us w.before ≡ some base
      → rlimit_cpu (pos limit) cg ≡ "inf"
      → (polled cg (pos limit) w).kills
        ≡ (if any (at_limit (wrap_int64 (micros (pos limit))) (some base)) w.ticks then 1 else 0)
      → Enforcer limit cg w
  by_nobody :
      cgroup_cpu cg ≡ true
      → cpu_usage_us w.before ≡ none
      → rlimit_cpu (pos limit) cg ≡ "inf"
      → (polled cg (pos limit) w).kills ≡ 0
      → Enforcer limit cg w

-- With a limit on the cpu time: without a cgroup that limits it the kernel does, in seconds, and the
-- poller never kills the process; with one the kernel's own limit is off, and where the usage can be
-- read before the start the poller kills once if a tick finds the usage at the limit since then;
-- where it cannot be read, the poller never kills either and nobody limits the time.
pub one_authority : (limit : ℕ) (cg : Option CgroupJail) (w : Run) → 0 < limit → Enforcer limit cg w
unfolding rlimit_cpu cpu_baseline
one_authority limit cg w p = elim (Bool-cases (cgroup_cpu cg)) [
  | inl on ↦ by_usage on (cpu_usage_us w.before) refl
  | inr off ↦ by_kernel off (rw (rlimit_cpu, off, given) refl) (
      kills
      ∙ idle (simp (cpu_baseline, off, any-no_baseline (wrap_int64 (micros (pos limit))) w.ticks)))
]
  where
    kills : (polled cg (pos limit) w).kills ≡ (if reached cg (pos limit) w then 1 else 0)
    kills = (polled-lem cg (pos limit) w).1

    given : ltb 0 limit ≡ true
    given = ground arith

    idle :
        reached cg (pos limit) w ≡ false → ◌≡◌ {A = ℕ} (if reached cg (pos limit) w then 1 else 0) 0
    idle e = ap (λ (b : Bool). if b then 1 else 0) e

    by_usage :
        cgroup_cpu cg ≡ true → (u : Option ℤ) → cpu_usage_us w.before ≡ u → Enforcer limit cg w
    by_usage on none u = by_nobody on u (rw (rlimit_cpu, on, given) refl) (
        kills
        ∙ idle
            (simp (cpu_baseline, on, u, any-no_baseline (wrap_int64 (micros (pos limit))) w.ticks)))
    by_usage on (some base) u =
        by_poller base on u (rw (rlimit_cpu, on, given) refl)
          (kills ∙ rw (cpu_baseline, on, u) refl)

-- The usage counter of the jail's cgroup over an execution: it is read before and after, fits in 64
-- bits and does not go back.
pub record Counts (w : Run) (first last : ℕ) : Type 0 where
  pub before : cpu_usage_us w.before ≡ some (pos first)
  pub ticks : All (UsageUpTo last) w.ticks
  pub after : cpu_usage_us w.after ≡ some (pos last)
  pub first_fits : first ≤ max_int
  pub last_fits : last ≤ max_int

killed-cpu_active :
    (cg : CgroupJail) (limit : ℤ) (w : Run)
    → (polled (some cg) limit w).cpu_killed ≡ true
    → cg.cpu_active ≡ true
unfolding cpu_baseline
killed-cpu_active cg limit w h = elim (Bool-cases cg.cpu_active) [
  | inl e ↦ e
  | inr e ↦
      let flag = (polled-lem (some cg) limit w).0 in
      let off : reached (some cg) limit w ≡ false =
        simp (cpu_baseline, e, any-no_baseline (wrap_int64 (micros limit)) w.ticks) in
      cc (flag, off, h)
]

-- An execution that the poller has killed for its cpu time reports at least the limit as its cpu
-- time, where the limit is positive and fits in 64 bits as microseconds, and the cgroup's counter is
-- read before and after and does not go back.
pub exec_jail-cpu_killed :
    (text : List ℕ → String) (line : List String) (cg : CgroupJail) (lim : ExecLimits) (cap : ℕ)
    (w : Run) (limit first last : ℕ)
    → Started w
    → Counts w first last
    → lim.cpu_limit ≡ pos limit
    → 0 < limit
    → limit * 1000000 ≤ max_int
    → (exec_jail text (args line) (some cg) lim cap w).cpu_killed ≡ true
    → leb_ℤ (pos (limit * 1000000)) (exec_jail text (args line) (some cg) lim cap w).cpu_time_us
      ≡ true
unfolding collect cpu_time_us usage_since
exec_jail-cpu_killed text line cg lim cap w limit first last s c is_limit p fits killed =
    let started = exec_jail-collect text line (some cg) lim cap w s in
    let flag = rw started at killed in
    let on = killed-cpu_active cg lim.cpu_limit w flag in
    let base : cpu_baseline (some cg) w.before ≡ some (pos first) =
      simp (cpu_baseline, on, c.before) in
    let micro = wrap_int64-pos (limit * 1000000) fits in
    let reached = sym (polled-lem (some cg) lim.cpu_limit w).0 ∙ flag in
    let over =
      any-usage (limit * 1000000) first last w.ticks (omega arith) c.first_fits c.last_fits c.ticks
        (rw (base, is_limit, micro) at reached) in
    let up : leb first last ≡ true = ground arith in
    let same = wrap_int64-pos (last - first) (omega (arith, c.last_fits)) in
    let time : cpu_time_us (some cg) (cpu_baseline (some cg) w.before) w.after w.rusage_before
          w.rusage_after
        ≡ pos (last - first) =
      rw (base, cpu_time_us, on, c.after, usage_since, up, same) refl in
    rw (started, time) (ground arith)
