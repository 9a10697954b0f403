-- ===== src/Cgroup/Manager.antt =====
-- `NewManager`, `probe`, `verifyEnforcement`, `verifyCPU` and `NewJail` of
-- internal/cgroupv2/cgroupv2.go. The results of the system calls and what the probe's leaf shows are
-- given; the removal of the probe's directories is best effort, and its result is not used.
pub mod Trusted
use goboxd.Base.{
  ℕ, ℤ, pos, negsuc, leb_ℤ, ltb_ℤ, String, Bool, true, false, not, ◌&&◌, ◌||◌, Option, none, some,
  atoi, ◌≡◌, refl, ◌↔◌, ◌≢◌, arith, if◌then◌else◌, Bool-cases, inl, inr, Option-cases, ltb_ℤ-not,
  ◌≤ℤ◌, leb_ℤ_iff,
}
use goboxd.Base.Strings.{trim_space}
use goboxd.Cgroup.{Files, cpu_usage_us}

-- `Manager`, as its two flags.
pub record Manager : Type 0 where
  pub active : Bool
  pub cpu_active : Bool

-- What the probe finds: whether each call succeeds, in the order of the calls.
pub record Probe : Type 0 where
  pub off : Bool  -- GOBOXD_CGROUPV2=off
  pub statfs : Bool
  pub is_cgroup2 : Bool  -- the magic number
  pub mkdir_base : Bool
  pub enable_all : Bool  -- memory, pids and cpu
  pub enable_two : Bool  -- memory and pids
  pub mkdir_probe : Bool
  pub enable_probe : Bool
  pub mkdir_leaf : Bool
  pub write_max : Bool
  pub write_swap : Bool
  pub stdin_pipe : Bool
  pub start : Bool
  pub move : Bool
  pub wait : Bool
  pub leaf : Files

-- The hog's peak is at least 8 MB.
unfoldable pub charged : Files → Bool
charged f = elim f.memory_peak [
  | none ↦ false
  | some text ↦ elim (atoi (trim_space text)) [
    | none ↦ false
    | some peak ↦ not (ltb_ℤ peak (pos 8388608))
  ]
]

-- Whether `verifyEnforcement` returns no error.
unfoldable pub enforced : Probe → Bool
unfolding charged
enforced p =
    p.mkdir_probe
    && (p.enable_probe
        && (p.mkdir_leaf
            && (p.write_max
                && (p.write_swap
                    && (p.stdin_pipe && (p.start && (p.move && (p.wait && charged p.leaf))))))))

-- `verifyCPU`, on the flag.
unfoldable pub verify_cpu : Bool → Files → Bool
verify_cpu cpu_active f = if not cpu_active then cpu_active else elim (cpu_usage_us f) [
  | none ↦ false
  | some us ↦ if ltb_ℤ us (pos 1000000) then false else cpu_active
]

-- The part of `probe` after the controllers of the base are enabled.
unfoldable pub verified : Probe → Bool → Bool × Bool
unfolding enforced verify_cpu
verified p cpu_active =
    if enforced p then (true, verify_cpu cpu_active p.leaf) else (false, cpu_active)

-- `probe`: whether it returns no error, and the cpu flag that it leaves.
unfoldable pub probe : Probe → Bool × Bool
unfolding verified
probe p =
    if not p.statfs
    then (false, false)
    else if not p.is_cgroup2
    then (false, false)
    else if not p.mkdir_base
    then (false, false)
    else if p.enable_all
    then verified p true
    else if p.enable_two
    then verified p false
    else (false, false)

-- `NewManager`
unfoldable pub new_manager : Probe → Manager
unfolding probe
new_manager p =
    if p.off
    then record { active = false; cpu_active = false }
    else record { active = (probe p).0; cpu_active = (probe p).1 }

-- `Manager.CPUActive`
unfoldable pub manager_cpu : Manager → Bool
manager_cpu m = m.active && m.cpu_active

-- Whether the calls of `NewJail` succeed.
pub record JailCalls : Type 0 where
  pub mkdir : Bool
  pub enable : Bool  -- what the manager has
  pub enable_two : Bool  -- memory and pids

-- The cpu flag of the jail, or an error; the directory may then be there or not.
pub data NewJail : Type 0 where
  jail : Bool → NewJail
  no_jail : Bool → NewJail

-- `Manager.NewJail`
unfoldable pub new_jail : Manager → JailCalls → NewJail
unfolding manager_cpu
new_jail m c =
    if not c.mkdir
    then no_jail false
    else if c.enable
    then jail (manager_cpu m)
    else if manager_cpu m && c.enable_two
    then jail false
    else no_jail true
