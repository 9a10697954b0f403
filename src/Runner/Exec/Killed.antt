-- ===== src/Runner/Exec/Killed.antt =====
-- Which kill an execution reports (`execJail` of internal/runner/exec.go), from what the kernel writes in
-- the files of the jail's cgroup.
use goboxd.Base.{
  ℕ, ◌%◌, ◌≤◌, ◌<◌, String, false, ◌||◌, List, [], ◌∷◌, map, Option, none, some, ltb, any, All, ◌≡◌,
  refl, ap, ◌∙◌, inl, inr, arith, Bool-cases, wrap_int64,
}
use goboxd.Cgroup.{Files, uint_range, oom_kills, oom_kills_since}
use goboxd.Cgroup.Written.{written_entry, AreCounters, all_kills, oom_kills-written}
use goboxd.Runner.Single.{ExecLimits, micros}
use goboxd.Runner.Args.{CgroupJail, args}
use goboxd.Runner.Poller.{Poll, oom_baseline, cpu_baseline, since_start}
use goboxd.Runner.Poller.Once.{poll-once}
use goboxd.Runner.Exec.{Run, polled, final_oom, collect, start_process, exec_jail}

-- The process was started.
pub record Started (w : Run) : Type 0 where
  pub mkdir_app : w.mkdir_app ≡ none
  pub stdout_pipe : w.stdout_pipe ≡ none
  pub stderr_pipe : w.stderr_pipe ≡ none
  pub start : w.start ≡ none

pub exec_jail-collect :
    (text : List ℕ → String) (line : List String) (cg : Option CgroupJail) (lim : ExecLimits)
    (cap : ℕ) (w : Run)
    → Started w
    → exec_jail text (args line) cg lim cap w ≡ collect text cg lim cap w
unfolding exec_jail start_process
exec_jail-collect text line cg lim cap w s =
    simp (exec_jail, start_process, s.mkdir_app, s.stdout_pipe, s.stderr_pipe, s.start)

-- The kernel has written these entries in the cgroup, and their kills fit in 64 bits.
pub record Shows (f : Files) (es : List (String × Option (List (String × ℕ)))) : Type 0 where
  pub entries : f.entries ≡ some (map written_entry es)
  pub counters : All AreCounters es
  pub fits : all_kills es < uint_range

oom_kills-Shows :
    (f : Files) (es : List (String × Option (List (String × ℕ))))
    → Shows f es
    → oom_kills f ≡ some (all_kills es)
unfolding oom_kills
oom_kills-Shows f es s =
    let same : all_kills es % uint_range ≡ all_kills es = omega (arith, s.fits) in
    let w = oom_kills-written es none none s.counters in rw s.entries (w ∙ ap some same)

since_start-Shows :
    (base : ℕ) (f : Files) (es : List (String × Option (List (String × ℕ))))
    → Shows f es
    → since_start base f ≡ ltb base (all_kills es)
unfolding oom_kills_since
since_start-Shows base f es s = rw (since_start, oom_kills_since, oom_kills-Shows f es s) refl

-- The files at each tick, with kills that no later moment takes back.
pub data AllShow (last : ℕ) : List Files → Type 0 where
  no_ticks : AllShow last []
  tick :
      {f : Files} {fs : List Files} (es : List (String × Option (List (String × ℕ))))
      → Shows f es
      → all_kills es ≤ last
      → AllShow last fs
      → AllShow last (f ∷ fs)

any-AllShow :
    (base last : ℕ) {fs : List Files}
    → AllShow last fs
    → ltb base last ≡ false
    → any (since_start base) fs ≡ false
any-AllShow base last no_ticks h = refl
any-AllShow base last (tick {f} {fs} es s le rest) h =
    let no : ltb base (all_kills es) ≡ false = ground arith in
    rw (since_start-Shows base f es s, no) (any-AllShow base last rest h)

final_oom-lem :
    (cg : CgroupJail) (p : Poll) (w : Run)
    → final_oom (some cg) p w
      ≡ (p.oom_killed || since_start (oom_baseline (some cg) w.before) w.after)
unfolding final_oom
final_oom-lem cg p w = elim (Bool-cases p.oom_killed) [ inl e ↦ rw e refl | inr e ↦ rw e refl ]

-- An execution in a jail with a cgroup is reported as killed for its memory exactly if the kills that
-- the kernel shows after it are more than those before it: leaves that earlier executions left do
-- not count. The counters are those that the kernel writes, fit in 64 bits together, and do not go
-- down.
pub exec_jail-oom_killed :
    (text : List ℕ → String) (line : List String) (cg : CgroupJail) (lim : ExecLimits) (cap : ℕ)
    (w : Run) (first last : List (String × Option (List (String × ℕ))))
    → Started w
    → Shows w.before first
    → AllShow (all_kills last) w.ticks
    → Shows w.after last
    → (exec_jail text (args line) (some cg) lim cap w).oom_killed
      ≡ ltb (all_kills first) (all_kills last)
unfolding collect polled oom_baseline
exec_jail-oom_killed text line cg lim cap w first last s before ticks after =
    let base : oom_baseline (some cg) w.before ≡ all_kills first =
      rw (oom_baseline, oom_kills-Shows w.before first before) refl in
    let flags =
      poll-once (oom_baseline (some cg) w.before) (wrap_int64 (micros lim.cpu_limit))
        (cpu_baseline (some cg) w.before) w.ticks in
    let at_end = since_start-Shows (all_kills first) w.after last after in
    rw (exec_jail-collect text line (some cg) lim cap w s) (
      final_oom-lem cg (polled (some cg) lim.cpu_limit w) w
      ∙ rw (polled, flags.0, base, at_end)
          (elim (Bool-cases (ltb (all_kills first) (all_kills last))) [
            | inl e ↦ ground arith
            | inr e ↦ rw (any-AllShow (all_kills first) (all_kills last) ticks e) refl
          ]))
