-- ===== src/Tests/Jails.antt =====
-- Jails and the throttle, internal/runner/jail.go and internal/api/ratelimit.go, and the list of test
-- cases, internal/api/testcases.go, and the sweeps of internal/runner/runner.go, on small inputs.
use goboxd.Base.{
  ◌≤◌, max_int, ℕ, ℤ, pos, negsuc, ltb_ℤ, eqb_ℤ, ◌||◌, ◌↔◌, ◌-◌, ◌+◌, ◌*◌, ◌/◌, subst, map, has,
  String, true, false, [], ◌∷◌, none, some, ◌≡◌, refl, ltb, leb, min, arith,
}
use mathlib.Core.List.{Memᴰ}
use goboxd.Base.Strings.{has_prefix}
use goboxd.UidPool.{new, alloc, alloc_from, held}
use goboxd.UidPool.Alloc.{new-IsValid}
use goboxd.Runner.Jail.{
  Host, Jail, created, failed, Calls, Removals, new_jail, with_uid, enter_dir, new_cgroup,
  fill_jail,
}
use goboxd.Runner.Jail.Release.{Works, IsFresh}
use goboxd.Runner.Jail.Materialize.{Outcome, new_jail-Outcome}
use goboxd.Runner.Jail.System.{
  Sandboxes, Reach, start, next, open_jail, uids, Distinct, Reach-Distinct,
}
use goboxd.Runner.Sweep.{
  Entry, Dir, Stays, sweep_jails, sweep_caches, sweep_entries, is_stale, remove_stale,
  sweep_all_jails, sweep_orphans, sweep_jails-left_iff,
}
use goboxd.Api.RateLimit.{Float, RateLimitCfg, Buckets, prune}
use goboxd.Api.RateLimit.Burst.{IsFloat, admitted, admitted-fresh}
use goboxd.Api.Testcases.{
  FileSystem, TestcaseEntry, discover_testcases, tests_in_all, tests_in, tests_of,
}

abbrev working : Removals
working = record { remove_all = true; remove_cgroup = true }

abbrev two_uids : Host
two_uids = record { pool = new 10000 2; dirs = []; cgroups = [] }

abbrev jail_dir : String
jail_dir = "/tmp/goboxd-jail-1"

abbrev first_calls : Calls
first_calls = record {
  mkdir_temp = some jail_dir;
  chown_dir = true;
  cgroup = created;
  mkdir_app = true;
  chown_app = true;
  write_source = true;
  chown_source = true;
}

-- The source cannot be written, and the cgroup failed half-way.
abbrev bad_calls : Calls
bad_calls = record first_calls { cgroup = failed true; write_source = false }

abbrev same_name : String → String
same_name dir = dir

working-Works : Works working
working-Works = record { remove_all = refl; remove_cgroup = refl }

two_uids-IsFresh : (dir : String) → some jail_dir ≡ some dir → IsFresh same_name dir two_uids
two_uids-IsFresh dir e =
    let same : jail_dir ≡ dir = cc in
    subst (λ d. IsFresh same_name d two_uids) same
      (record { named = refl; no_dir = refl; no_cgroup = refl })

two_uids-fits : two_uids.pool.min + two_uids.pool.size ≤ max_int
unfolding new
two_uids-fits = omega arith

new_jail-Outcome_example : Outcome two_uids (new_jail working same_name bad_calls "" two_uids)
new_jail-Outcome_example =
    new_jail-Outcome working same_name bad_calls "" two_uids working-Works (new-IsValid 10000 2)
      two_uids-fits two_uids-IsFresh

abbrev first_jail : Jail
first_jail = record { dir = jail_dir; uid = 10000; cg = some jail_dir; seccomp = ""; torn = false }

abbrev one_used : Host
one_used = record {
  pool = record { min = 10000; size = 2; in_use = 10000 ∷ []; next = 1 };
  dirs = (jail_dir, 10000) ∷ [];
  cgroups = jail_dir ∷ [];
}

opens : new_jail working same_name first_calls "" two_uids ≡ (one_used, some first_jail)
unfolding new_jail with_uid enter_dir new_cgroup fill_jail new alloc alloc_from held
opens = refl

abbrev one_jail : Sandboxes
one_jail = record { host = one_used; live = first_jail ∷ []; closing = [] }

one_jail-Reach : Reach working same_name two_uids one_jail
one_jail-Reach = next start (open_jail first_calls "" first_jail two_uids-IsFresh opens)

Reach-Distinct_example :
    Distinct (uids one_jail.live) × (one_jail.host.pool.in_use ≡ uids one_jail.live)
unfolding new
Reach-Distinct_example =
    Reach-Distinct working-Works (new-IsValid 10000 2) two_uids-fits refl one_jail-Reach

-- Whole tokens in place of float64.
instance abbrev ℕ_float : Float ℕ
ℕ_float = record {
  of_ℕ = λ n. n;
  add = λ a b. a + b;
  mul = λ a b. a * b;
  sub = λ a b. a - b;
  lt = ltb;
  le = leb;
  trunc = λ n. n;
  parse = λ s. none;
  seconds = λ ns. ns / 1000000000;
}

ℕ-IsFloat : IsFloat ℕ
ℕ-IsFloat = record {
  lt-of_ℕ = λ m n hm hn. refl;
  sub-one = λ n h. omega arith;
  lt-sub_one = λ b x h. ground arith;
  lt-self = λ x. ground arith;
  no_seconds = refl;
}

abbrev cfg : RateLimitCfg ℕ
cfg = record { rps = 1; burst = 2 }

abbrev half_used : Buckets ℕ
half_used = ("10.0.0.1", record { tokens = 1; last_ref = 0 }) ∷ []

admitted-fresh_example : admitted cfg "10.0.0.2" 7 5 half_used ≡ min 5 2
unfolding prune
admitted-fresh_example = admitted-fresh ℕ-IsFloat cfg "10.0.0.2" 7 5 half_used (omega arith) fresh
  where
    fresh : has "10.0.0.2" (map (λ e. e.0) (prune 7 half_used)) ≡ false
    fresh = refl

-- One language with one test case, and a directory that holds none.
abbrev one_test : FileSystem
one_test = record {
  read_dir = λ p. elim p [
    | [] ↦ some (record { name = "py3"; is_dir = true } ∷ [])
    | lang ∷ rest ↦ some (
        record { name = "hello"; is_dir = true }
        ∷ record { name = "README.md"; is_dir = false }
        ∷ [])
  ];
  stat = λ p. true;
  read_file = λ p. some "{}";
}

abbrev hello_entry : TestcaseEntry
hello_entry = record { lang = "py3"; name = "hello" }

one_test-lists : discover_testcases one_test ≡ some (hello_entry ∷ [])
unfolding discover_testcases tests_in_all tests_in tests_of
one_test-lists = refl

abbrev aged : String → ℤ → Entry
aged name age = record { name = name; age = some age; removal = none }

-- A jail that has been left, one whose time is ahead of the clock, and a file of another program.
abbrev temp_dir : Dir
temp_dir = record {
  unread = none;
  entries =
      aged "goboxd-jail-1" (pos 5) ∷ aged "goboxd-jail-2" (negsuc 9) ∷ aged "notes" (pos 7) ∷ [];
}

ahead_stays :
    (sweep_all_jails "/tmp" temp_dir).left
    ≡ aged "goboxd-jail-2" (negsuc 9) ∷ aged "notes" (pos 7) ∷ []
unfolding sweep_jails sweep_entries is_stale remove_stale has_prefix
ahead_stays = refl

young_stay : (sweep_orphans "/tmp" temp_dir).left ≡ temp_dir.entries
unfolding sweep_jails sweep_entries is_stale remove_stale has_prefix
young_stay = refl

sweep_jails-left_example :
    (Memᴰ (aged "goboxd-jail-2" (negsuc 9)) (sweep_jails "/tmp" (pos 0) temp_dir).left
      ↔ Memᴰ (aged "goboxd-jail-2" (negsuc 9)) temp_dir.entries
        × Stays "goboxd-jail-" (ltb_ℤ (pos 0)) (aged "goboxd-jail-2" (negsuc 9)))
    × (Memᴰ (aged "goboxd-jail-2" (negsuc 9)) (sweep_caches (pos 0) temp_dir).left
        ↔ Memᴰ (aged "goboxd-jail-2" (negsuc 9)) temp_dir.entries
          × Stays "uid-"
              (λ a. eqb_ℤ (pos 0) (pos 0) || ltb_ℤ (pos 0) a)
              (aged "goboxd-jail-2" (negsuc 9)))
sweep_jails-left_example =
    sweep_jails-left_iff "/tmp" (pos 0) temp_dir (aged "goboxd-jail-2" (negsuc 9)) refl
