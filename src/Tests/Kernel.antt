-- ===== src/Tests/Kernel.antt =====
-- Executions in a jail with a cgroup, internal/runner and internal/cgroupv2, on small inputs.
use goboxd.Base.{
  ℕ, ◌+◌, ◌%◌, ◌≤◌, ◌<◌, ℤ, pos, leb_ℤ, String, true, false, List, [], ◌∷◌, ◌++◌, map, Option, none,
  some, leb, length, max_int, ◌≡◌, inr, refl, arith, All, wrap_int64, decimal, atoi, read_number,
  digits_from, codes, if◌then◌else◌,
}
use goboxd.Base.Strings.{is_space, trim_space, has_prefix, split, fields_func, fields_from}
use goboxd.Base.Fields.{free_of}
use goboxd.Models.{TestCase, StageConfig, ResultStatus}
use goboxd.Config
use goboxd.Config.{LanguageConfig}
use goboxd.Cgroup.{Files, uint_range, cpu_usage_us, oom_kills, oom_kills_since}
use goboxd.Cgroup.Written.{
  written, written_entry, IsCounter, AreCounters, all_kills, oom_kills-written,
  cpu_usage_us-written,
}
use goboxd.Cgroup.Manager.{
  Probe, JailCalls, new_manager, new_jail, jail, probe, verified, enforced, charged, verify_cpu,
}
use goboxd.Cgroup.Manager.Trusted.{Enforces, new_jail-trusted}
use goboxd.Runner.Verdict.{exited}
use goboxd.Runner.Single.{ExecLimits, run_single_test}
use goboxd.Runner.Args.{CgroupJail, args}
use goboxd.Runner.Poller.{Rusage, at_limit}
use goboxd.Runner.Exec.{Run, exec_jail, polled, read_capped, take, marker}
use goboxd.Runner.Exec.Capped.{read_capped_bounded}
use goboxd.Runner.Exec.Killed.{Started, Shows, AllShow, no_ticks, tick}
use goboxd.Runner.Exec.Timed.{Counts, Enforcer, one_authority, exec_jail-cpu_killed}
use goboxd.Runner.Jailed.{Surroundings, execute, run_single_test-oom}

abbrev Counters : Type 0
Counters = List (String × Option (List (String × ℕ)))

-- A leaf of an earlier execution, in which the kernel killed once, and the leaf of this one.
abbrev earlier : Counters
earlier = ("cgroup.procs", none) ∷ ("NSJAIL.7", some (("oom", 1) ∷ ("oom_kill", 1) ∷ [])) ∷ []

abbrev later : Counters
later = ("NSJAIL.9", some (("oom", 2) ∷ ("oom_kill", 2) ∷ [])) ∷ earlier

oom-IsCounter : (n : ℕ) → n < 3 → IsCounter ("oom", n)
unfolding free_of is_space
oom-IsCounter n h = record { word = refl; named = λ e. cc e; fits = omega (arith, h) }

oom_kill-IsCounter : (n : ℕ) → n < 3 → IsCounter ("oom_kill", n)
unfolding free_of is_space
oom_kill-IsCounter n h = record { word = refl; named = λ e. cc e; fits = omega (arith, h) }

earlier-AreCounters : All AreCounters earlier
earlier-AreCounters =
    (tt, ((oom-IsCounter 1 (omega arith), (oom_kill-IsCounter 1 (omega arith), tt)), tt))

later-AreCounters : All AreCounters later
later-AreCounters =
    ((oom-IsCounter 2 (omega arith), (oom_kill-IsCounter 2 (omega arith), tt)), earlier-AreCounters)

-- The files at a moment: the entries, and the usage of the cpu.
abbrev at_moment : Counters → ℕ → Files
at_moment es us = record {
  entries = some (map written_entry es);
  cpu_stat = some (written (("usage_usec", us) ∷ ("user_usec", us) ∷ []));
  memory_peak = some "8388608\n";
}

oom_kills-written_example : oom_kills (at_moment later 0) ≡ some (all_kills later % uint_range)
oom_kills-written_example =
    oom_kills-written later (some (written (("usage_usec", 0) ∷ ("user_usec", 0) ∷ [])))
      (some "8388608\n") later-AreCounters

abbrev no_time : Rusage
no_time = record { utime = record { sec = 0; usec = 0 }; stime = record { sec = 0; usec = 0 } }

-- The process takes six seconds, and the kernel kills it for its memory in the end.
abbrev long_run : Run
long_run = record {
  mkdir_app = none;
  stdout_pipe = none;
  stderr_pipe = none;
  start = none;
  stdout = codes "hi";
  stderr = [];
  wait = some "exit status 137";
  ps = some (exited 137);
  before = at_moment earlier 1000000;
  ticks = at_moment earlier 3000000 ∷ at_moment earlier 6000000 ∷ [];
  after = at_moment later 7000000;
  rusage_before = no_time;
  rusage_after = no_time;
}

long_run-Started : Started long_run
long_run-Started = record { mkdir_app = refl; stdout_pipe = refl; stderr_pipe = refl; start = refl }

earlier-Shows : (us : ℕ) → Shows (at_moment earlier us) earlier
unfolding has_prefix
earlier-Shows us = record { entries = refl; counters = earlier-AreCounters; fits = omega arith }

later-Shows : (us : ℕ) → Shows (at_moment later us) later
unfolding has_prefix
later-Shows us = record { entries = refl; counters = later-AreCounters; fits = omega arith }

ticks-AllShow : AllShow (all_kills later) long_run.ticks
unfolding has_prefix
ticks-AllShow =
    tick earlier (earlier-Shows 3000000) (omega arith)
      (tick earlier (earlier-Shows 6000000) (omega arith) no_ticks)

usage_at : (es : Counters) (us : ℕ) → us ≤ max_int → cpu_usage_us (at_moment es us) ≡ some (pos us)
usage_at es us h = cpu_usage_us-written us (("user_usec", us) ∷ []) (at_moment es us) h refl

long_run-Counts : Counts long_run 1000000 7000000
long_run-Counts = record {
  before = usage_at earlier 1000000 (omega arith);
  ticks = (
    inr (3000000, usage_at earlier 3000000 (omega arith), omega arith),
    (inr (6000000, usage_at earlier 6000000 (omega arith), omega arith), tt),
  );
  after = usage_at later 7000000 (omega arith);
  first_fits = omega arith;
  last_fits = omega arith;
}

abbrev cg : CgroupJail
cg = record { path = "/sys/fs/cgroup/goboxd/jail"; cpu_active = true }

abbrev text : List ℕ → String
text bs = "bytes"

abbrev limits : ExecLimits
limits = record { wall_time = pos 10; cpu_limit = pos 5; mem_kb = pos 262144; procs = pos 64 }

abbrev start_line : List String
start_line = "-Q" ∷ "--" ∷ "./a.out" ∷ []

killed : (exec_jail text (args start_line) (some cg) limits 64 long_run).cpu_killed ≡ true
unfolding exec_jail polled at_limit cpu_usage_us oom_kills split fields_func fields_from is_space
    decimal digits_from atoi read_number has_prefix wrap_int64 oom_kills_since
killed = refl

exec_jail-cpu_killed_example :
    leb_ℤ (pos 5000000) (exec_jail text (args start_line) (some cg) limits 64 long_run).cpu_time_us
    ≡ true
exec_jail-cpu_killed_example =
    exec_jail-cpu_killed text start_line cg limits 64 long_run 5 1000000 7000000 long_run-Started
      long_run-Counts refl (omega arith) (omega arith) killed

one_authority_example : Enforcer 5 (some cg) long_run
one_authority_example = one_authority 5 (some cg) long_run (omega arith)

-- The same run, but `cpu.stat` cannot be read before the start.
abbrev unread_run : Run
unread_run = record long_run {
  before = record { entries = some []; cpu_stat = none; memory_peak = none };
}

read_capped_example :
    (read_capped 3 (1 ∷ 2 ∷ 3 ∷ 4 ∷ 5 ∷ [])
      ≡ (if leb 5 3 then 1 ∷ 2 ∷ 3 ∷ 4 ∷ 5 ∷ [] else take 3 (1 ∷ 2 ∷ 3 ∷ 4 ∷ 5 ∷ []) ++ marker))
    × (length (read_capped 3 (1 ∷ 2 ∷ 3 ∷ 4 ∷ 5 ∷ [])) ≤ 3 + length marker)
read_capped_example = read_capped_bounded 3 (1 ∷ 2 ∷ 3 ∷ 4 ∷ 5 ∷ []) (omega arith)

abbrev around : Surroundings
around = record {
  text = text;
  build = λ lim. args start_line;
  cg = some cg;
  run = λ lim cmd stdin. long_run;
  ctx = none;
  duration_ms = pos 6100;
  maxrss = pos 0;
}

abbrev no_flags : Option StageConfig
no_flags = none

abbrev one_test : TestCase
one_test = record { stdin = ""; expected_stdout = "hi" }

abbrev config_limits : Config.Limits
config_limits = record {
  wall_time_s = pos 10;
  memory_kb = pos 262144;
  max_processes = pos 64;
  cpu_time_s = pos 5;
}

abbrev compiled : LanguageConfig
compiled = record {
  id = "c";
  name = "C";
  source_filename = "main.c";
  artifact_filename = "a.out";
  build_cmd = [];
  run_cmd = "./a.out" ∷ [];
  default_limits = config_limits;
  build_limits = config_limits;
  run_limits = config_limits;
  build_ceiling = config_limits;
  run_ceiling = config_limits;
  default_ceiling = config_limits;
  flag_allowlist = [];
  smoke_cmd = [];
  source_filename_strategy = "";
  seccomp = "";
}

more_kills : all_kills earlier < all_kills later
unfolding has_prefix
more_kills = omega arith

run_single_test-oom_example :
    (run_single_test false (pos 0) (execute around) one_test compiled no_flags (pos 64)).status
    ≡ ResultStatus.memory_exceeded
run_single_test-oom_example =
    run_single_test-oom around cg start_line (pos 0) one_test compiled no_flags (pos 64) earlier
      later refl refl long_run-Started (earlier-Shows 1000000) ticks-AllShow (later-Shows 7000000)
      more_kills (λ e. cc e)

-- A probe whose leaf was charged 16 MB and two seconds.
abbrev good_probe : Probe
good_probe = record {
  off = false;
  statfs = true;
  is_cgroup2 = true;
  mkdir_base = true;
  enable_all = true;
  enable_two = false;
  mkdir_probe = true;
  enable_probe = true;
  mkdir_leaf = true;
  write_max = true;
  write_swap = true;
  stdin_pipe = true;
  start = true;
  move = true;
  wait = true;
  leaf = record {
    entries = none;
    cpu_stat = some "usage_usec 2000000\nuser_usec 1990000\n";
    memory_peak = some "17000000\n";
  };
}

abbrev jail_calls : JailCalls
jail_calls = record { mkdir = true; enable = true; enable_two = false }

good_jail : new_jail (new_manager good_probe) jail_calls ≡ jail true
unfolding new_jail new_manager probe verified enforced charged verify_cpu cpu_usage_us split
    fields_func fields_from is_space atoi read_number trim_space
good_jail = refl

new_jail-trusted_example :
    Enforces good_probe
    × (good_probe.enable_all ≡ true)
    × ((us : ℤ) × (cpu_usage_us good_probe.leaf ≡ some us) × (leb_ℤ (pos 1000000) us ≡ true))
new_jail-trusted_example = new_jail-trusted good_probe jail_calls good_jail
