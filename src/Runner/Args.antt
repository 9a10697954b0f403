-- ===== src/Runner/Args.antt =====
-- `nsjailArgs` and `jailEnv` of internal/runner/runner.go: the command line of one execution. What the
-- environment and the host give is a record; a file that is materialized once is its path or its
-- error.

pub mod Denied
pub mod Masked
use goboxd.Base.{
  ℕ, ◌/◌, ℤ, pos, negsuc, String, Bool, false, not, ◌&&◌, List, [], ◌∷◌, ◌++◌, Option, none, some,
  ltb, ltb_ℤ, str_eq, decimal, decimal_ℤ, ◌<>◌, if◌then◌else◌, wrap_int64, scale_ℤ,
}
use goboxd.Seccomp.{Policy, combined, unknown_syscall, parse_syscall_names, combined_with}
use goboxd.TempFile.{Materialized, at_path, failed}
use goboxd.Runner.Single.{ExecLimits}

-- A jail's cgroup: its directory, and whether the cpu controller is enabled for its children.
pub record CgroupJail : Type 0 where
  pub path : String
  pub cpu_active : Bool

pub record HostEnv : Type 0 where
  pub max_cpus : String  -- GOBOXD_MAX_CPUS
  pub path : String  -- PATH
  pub policy_path : Materialized  -- `seccomp.PolicyPath`
  pub hosts : Materialized
  pub resolv : Materialized
  pub nsswitch : Materialized
  pub gocache : Bool  -- the uid's go-build directory exists
  pub ccache : Bool  -- ccache is installed
  pub ccache_dir : Bool  -- the uid's ccache directory exists

pub data Args : Type 0 where
  args : List String → Args
  error : String → Args

-- `jailEnv`
unfoldable pub jail_env : String → List String
jail_env path =
    let path' = if str_eq path "" then "/usr/local/bin:/usr/bin:/bin" else path in
    "-E"
    ∷ ("PATH=" <> path')
    ∷ "-E"
    ∷ "HOME=/tmp"
    ∷ "-E"
    ∷ "LANG=C.UTF-8"
    ∷ "-E"
    ∷ "LC_ALL=C.UTF-8"
    ∷ "-E"
    ∷ "DOTNET_SYSTEM_GLOBALIZATION_INVARIANT=1"
    ∷ []

-- The megabytes of a memory limit, at least one.
unfoldable pub mem_mb : ℤ → ℕ
mem_mb (negsuc n) = 1
mem_mb (pos n) = if ltb (n / 1024) 1 then 1 else n / 1024

-- The first arguments; a uid maps to itself.
base_args : String → ExecLimits → ℕ → List String
unfolding mem_mb
base_args app_dir lim uid =
    let map = decimal uid <> ":" <> decimal uid <> ":1" in
    "-Q"
    ∷ "--log"
    ∷ "/dev/null"
    ∷ "-u"
    ∷ map
    ∷ "-u"
    ∷ "0:0:1"
    ∷ "-g"
    ∷ map
    ∷ "-g"
    ∷ "0:0:1"
    ∷ "-Mo"
    ∷ "-m"
    ∷ "none:/tmp:tmpfs:size=268435456"
    ∷ "--iface_no_lo"
    ∷ "--disable_proc"
    ∷ "-m"
    ∷ "none:/proc:proc:ro"
    ∷ "-m"
    ∷ "none:/proc/sys:tmpfs:size=4096"
    ∷ "--bindmount"
    ∷ (app_dir <> ":/app:rw")
    ∷ "--cwd"
    ∷ "/app"
    ∷ "--chroot"
    ∷ "/"
    ∷ "--time_limit"
    ∷ decimal_ℤ lim.wall_time
    ∷ "--rlimit_as"
    ∷ decimal (mem_mb lim.mem_kb)
    ∷ "--rlimit_nproc"
    ∷ decimal_ℤ lim.procs
    ∷ "--rlimit_fsize"
    ∷ "100"
    ∷ "--rlimit_nofile"
    ∷ "65536"
    ∷ []

-- Whether the cgroup of a jail, if it has one, limits the cpu time.
abbrev pub cgroup_cpu : Option CgroupJail → Bool
cgroup_cpu none = false
cgroup_cpu (some cg) = cg.cpu_active

-- The value of --rlimit_cpu.
unfoldable pub rlimit_cpu : ℤ → Option CgroupJail → String
rlimit_cpu limit cg = if ltb_ℤ (pos 0) limit && not (cgroup_cpu cg) then decimal_ℤ limit else "inf"

cgroup_args : ExecLimits → Option CgroupJail → List String
cgroup_args lim none = []
cgroup_args lim (some cg) =
    "--use_cgroupv2"
    ∷ "--cgroupv2_mount"
    ∷ cg.path
    ∷ "--cgroup_mem_max"
    ∷ decimal_ℤ (wrap_int64 (scale_ℤ lim.mem_kb 1024))
    ∷ "--cgroup_mem_swap_max"
    ∷ "0"
    ∷ "--cgroup_pids_max"
    ∷ decimal_ℤ lim.procs
    ∷ []

-- The cache directories of a uid that are bound into the jail.
cache_args : HostEnv → ℕ → List String
cache_args env uid =
    let dir = "/var/cache/goboxd/uid-" <> decimal uid in
    (if env.gocache then "--bindmount" ∷ (dir <> "/go-build:/app/.gocache:rw") ∷ [] else [])
    ++ "-E"
      ∷ "GOCACHE=/app/.gocache"
      ∷ (if env.ccache
          then (if env.ccache_dir
              then "--bindmount" ∷ (dir <> "/ccache:/app/.ccache:rw") ∷ []
              else [])
            ++ "-E" ∷ "CCACHE_DIR=/app/.ccache" ∷ []
          else [])

-- The masks of three files under /etc, in their order after the directory.
unfoldable pub mask_args : HostEnv → Args
mask_args env = elim env.hosts [
  | failed e ↦ error ("materializing masked /etc/hosts: " <> e)
  | at_path h ↦ elim env.resolv [
    | failed e ↦ error ("materializing masked /etc/resolv.conf: " <> e)
    | at_path r ↦ elim env.nsswitch [
      | failed e ↦ error ("materializing masked /etc/nsswitch.conf: " <> e)
      | at_path n ↦ args (
          "-B"
          ∷ "/etc"
          ∷ "-R"
          ∷ (h <> ":/etc/hosts")
          ∷ "-R"
          ∷ (r <> ":/etc/resolv.conf")
          ∷ "-R"
          ∷ (n <> ":/etc/nsswitch.conf")
          ∷ [])
    ]
  ]
]

-- The message of the error of `CombinedWith`.
abbrev unknown_message : String → String
unknown_message quoted =
    "seccomp: unknown syscall " <> quoted
    <> " (not in kafel amd64 table; numeric SYSCALL[n] form is accepted)"

-- The flag of the seccomp policy with its value; `quote` is the verb %q.
unfoldable pub seccomp_args :
    (String → String) → (String → Bool) → Policy → Materialized → List String → Args
unfolding combined_with
seccomp_args quote known global file [] = elim file [
  | at_path p ↦ args ("--seccomp_policy" ∷ p ∷ [])
  | failed e ↦ error e
]
seccomp_args quote known global file (x ∷ xs) = elim (combined_with known global (x ∷ xs)) [
  | combined text ↦ args ("--seccomp_string" ∷ text ∷ [])
  | unknown_syscall e ↦ error (unknown_message (quote e))
]

-- The arguments before the masks, in their order.
head_args : HostEnv → String → ExecLimits → ℕ → Option CgroupJail → List String
unfolding base_args rlimit_cpu cgroup_args
head_args env app_dir lim uid cg =
    base_args app_dir lim uid
    ++ "--rlimit_cpu" ∷ rlimit_cpu lim.cpu_limit cg ∷ cgroup_args lim cg
    ++ (if str_eq env.max_cpus "" then [] else "--max_cpus" ∷ env.max_cpus ∷ [])

-- Those between the masks and the policy.
late_args : HostEnv → ℕ → List String
unfolding cache_args jail_env
late_args env uid =
    jail_env env.path
    ++ cache_args env uid
    ++ "-B" ∷ "/usr" ∷ "-B" ∷ "/lib" ∷ "-B" ∷ "/lib64" ∷ "-B" ∷ "/bin" ∷ "-B" ∷ "/dev" ∷ "-B"
      ∷ "/var/lib" ∷ []

unfoldable pub before_policy :
    HostEnv → String → ExecLimits → ℕ → Option CgroupJail → List String → List String
unfolding head_args late_args
before_policy env app_dir lim uid cg masks =
    head_args env app_dir lim uid cg ++ masks ++ late_args env uid

-- `nsjailArgs`
unfoldable pub nsjail_args :
    (String → String)
    → (String → Bool)
    → Policy
    → HostEnv
    → String
    → ExecLimits
    → ℕ
    → Option CgroupJail
    → String
    → Args
unfolding seccomp_args mask_args before_policy
nsjail_args quote known global env app_dir lim uid cg lang_seccomp =
    elim (seccomp_args quote known global env.policy_path (parse_syscall_names lang_seccomp)) [
      | error e ↦ error e
      | args policy ↦ elim (mask_args env) [
        | error e ↦ error e
        | args masks ↦ args (before_policy env app_dir lim uid cg masks ++ policy ++ "--" ∷ [])
      ]
    ]
