-- ===== src/Runner/Exec.antt =====
-- `execJail` of internal/runner/exec.go and `readCapped` of internal/runner/runner.go. Bytes are
-- numbers, and `text` makes the string of them.
pub mod Capped
pub mod Killed
pub mod Timed
use goboxd.Base.{
  ℕ, zero, suc, ◌+◌, pos, to_ℕ, ℤ, String, Bool, true, false, not, ◌&&◌, List, [], ◌∷◌, ◌++◌,
  Option, none, some, codes, ltb, length, ◌<>◌, if◌then◌else◌, wrap_int64, is_some,
}
use goboxd.Cgroup.{Files}
use goboxd.Runner.Verdict.{WaitStatus, exit_facts}
use goboxd.Runner.Single.{ExecLimits, ExecOutcome, micros}
use goboxd.Runner.Args
use goboxd.Runner.Args.{CgroupJail}
use goboxd.Runner.Poller.{
  Rusage, Poll, idle, poll, oom_baseline, cpu_baseline, cpu_time_us, since_start,
}

-- A slice's first bytes.
unfoldable pub take : ℕ → List ℕ → List ℕ
take zero bs = []
take (suc n) [] = []
take (suc n) (b ∷ bs) = b ∷ take n bs

abbrev pub marker : List ℕ
marker = codes "\n... [output truncated]"

-- What `io.ReadAll` gets through the limit of one byte more.
abbrev pub limited : ℕ → List ℕ → List ℕ
limited limit bs = take (to_ℕ (wrap_int64 (pos (limit + 1)))) bs

-- `readCapped`
unfoldable pub read_capped : ℕ → List ℕ → List ℕ
unfolding take
read_capped limit bs =
    if ltb limit (length (limited limit bs))
    then take limit (limited limit bs) ++ marker
    else limited limit bs

-- What one execution finds: errors of the steps before the start, the streams, the error and the
-- state that `Wait` leaves, the cgroup's files, and the children's times.
pub record Run : Type 0 where
  pub mkdir_app : Option String
  pub stdout_pipe : Option String
  pub stderr_pipe : Option String
  pub start : Option String
  pub stdout : List ℕ
  pub stderr : List ℕ
  pub wait : Option String
  pub ps : Option WaitStatus
  pub before : Files
  pub ticks : List Files
  pub after : Files
  pub rusage_before : Rusage
  pub rusage_after : Rusage

-- An outcome that is only an error.
abbrev pub failed : Bool → String → ExecOutcome
failed infra message = record {
  stdout = "";
  stderr = "";
  oom_killed = false;
  cpu_killed = false;
  cpu_time_us = pos 0;
  exit_code = pos 0;
  term_signal = pos 0;
  infra = infra;
  err = some message;
  ps = none;
}

-- What the poller leaves; it runs only for a jail with a cgroup.
unfoldable pub polled : Option CgroupJail → ℤ → Run → Poll
unfolding poll oom_baseline cpu_baseline
polled none limit w = idle
polled (some cg) limit w =
    poll (oom_baseline (some cg) w.before) (wrap_int64 (micros limit))
      (cpu_baseline (some cg) w.before) idle w.ticks

-- The OOM flag with the check after `Wait`.
unfoldable pub final_oom : Option CgroupJail → Poll → Run → Bool
unfolding oom_baseline
final_oom cg p w =
    if not p.oom_killed && is_some cg
    then since_start (oom_baseline cg w.before) w.after
    else p.oom_killed

-- The outcome of a process that was started.
unfoldable pub collect : (List ℕ → String) → Option CgroupJail → ExecLimits → ℕ → Run → ExecOutcome
unfolding polled final_oom cpu_time_us cpu_baseline read_capped
collect text cg lim cap w = record {
  stdout = text (read_capped cap w.stdout);
  stderr = text (read_capped cap w.stderr);
  oom_killed = final_oom cg (polled cg lim.cpu_limit w) w;
  cpu_killed = (polled cg lim.cpu_limit w).cpu_killed;
  cpu_time_us = cpu_time_us cg (cpu_baseline cg w.before) w.after w.rusage_before w.rusage_after;
  exit_code = (exit_facts w.ps).0;
  term_signal = (exit_facts w.ps).1;
  infra = false;
  err = w.wait;
  ps = w.ps;
}

-- The outcome once the arguments are there.
unfoldable pub start_process :
    (List ℕ → String) → Option CgroupJail → ExecLimits → ℕ → Run → ExecOutcome
unfolding collect
start_process text cg lim cap w = elim w.stdout_pipe [
  | some e ↦ failed true ("stdout pipe: " <> e)
  | none ↦ elim w.stderr_pipe [
    | some e ↦ failed true ("stderr pipe: " <> e)
    | none ↦ elim w.start [
      | some e ↦ failed true ("start: " <> e)
      | none ↦ collect text cg lim cap w
    ]
  ]
]

-- `execJail`, over the result of `nsjailArgs`.
unfoldable pub exec_jail :
    (List ℕ → String) → Args.Args → Option CgroupJail → ExecLimits → ℕ → Run → ExecOutcome
unfolding start_process
exec_jail text built cg lim cap w = elim w.mkdir_app [
  | some e ↦ failed false ("app dir: " <> e)
  | none ↦ elim built [
    | Args.error e ↦ failed true ("start: " <> e)
    | Args.args line ↦ start_process text cg lim cap w
  ]
]
