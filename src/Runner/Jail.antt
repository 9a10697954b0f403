-- ===== src/Runner/Jail.antt =====
-- The lifecycle of a jail (internal/runner/jail.go): what `newJail` takes from the host and gives
-- back when a step fails, and `teardown`. The host is the pool of uids, the jail directories with
-- their owners, and the cgroups of jails; the results of the system calls are given.
pub mod Release
pub mod Materialize
pub mod System
pub mod Copy
use goboxd.Base.{
  ℕ, String, Bool, true, false, List, [], ◌∷◌, Option, none, some, str_eq, not, if◌then◌else◌,
}
use goboxd.UidPool.{Pool, alloc, release}

pub record Host : Type 0 where
  pub pool : Pool
  pub dirs : List (String × ℕ)
  pub cgroups : List String

-- `seccomp` is the language's own part of the policy. `torn` says that `once` has run.
pub record Jail : Type 0 where
  pub dir : String
  pub uid : ℕ
  pub cg : Option String
  pub seccomp : String
  pub torn : Bool

-- What cgroupv2.Default() does for a jail: it is not active, `NewJail` gives a jail, or it fails,
-- with the directory made or not.
pub data CgroupSetup : Type 0 where
  inactive created : CgroupSetup
  failed : Bool → CgroupSetup

-- The results of the calls of `newJail`: the directory that os.MkdirTemp makes, and whether the
-- others succeed.
pub record Calls : Type 0 where
  pub mkdir_temp : Option String
  pub chown_dir : Bool
  pub cgroup : CgroupSetup
  pub mkdir_app : Bool
  pub chown_app : Bool
  pub write_source : Bool
  pub chown_source : Bool

-- Whether os.RemoveAll and the removal of a cgroup succeed.
pub record Removals : Type 0 where
  pub remove_all : Bool
  pub remove_cgroup : Bool

unfoldable pub without_dir : String → List (String × ℕ) → List (String × ℕ)
without_dir dir [] = []
without_dir dir ((d, owner) ∷ ds) =
    let rest = without_dir dir ds in if str_eq d dir then rest else (d, owner) ∷ rest

unfoldable pub without_name : String → List String → List String
without_name n [] = []
without_name n (m ∷ ms) = let rest = without_name n ms in if str_eq m n then rest else m ∷ rest

-- `uidPool.Release`
unfoldable pub release_uid : ℕ → Host → Host
release_uid uid h = record h { pool = release uid h.pool }

-- `os.RemoveAll`
unfoldable pub remove_dir : Removals → String → Host → Host
unfolding without_dir
remove_dir r dir h = record h { dirs = if r.remove_all then without_dir dir h.dirs else h.dirs }

-- The removal of the cgroup of a name.
unfoldable pub remove_cgroup : Removals → String → Host → Host
unfolding without_name
remove_cgroup r name h = record h {
  cgroups = if r.remove_cgroup then without_name name h.cgroups else h.cgroups;
}

-- `j.cg.Teardown()`, where the jail has a cgroup.
unfoldable pub teardown_cgroup : Removals → Option String → Host → Host
unfolding remove_cgroup
teardown_cgroup r none h = h
teardown_cgroup r (some name) h = remove_cgroup r name h

-- The part of `teardown` after the release of the uid.
unfoldable pub teardown_files : Removals → Jail → Host → Host
unfolding teardown_cgroup remove_dir
teardown_files r j h =
    let h' = teardown_cgroup r j.cg h in if str_eq j.dir "" then h' else remove_dir r j.dir h'

-- `teardown` of a jail that is not nil.
unfoldable pub teardown : Removals → Jail → Host → Host × Jail
unfolding release_uid teardown_files
teardown r j h =
    if j.torn then (h, j) else (teardown_files r j (release_uid j.uid h), record j { torn = true })

-- The cgroup of the jail in `dir`, whose last name is the cgroup's; a failure leaves the jail without
-- one and removes what was made.
unfoldable pub new_cgroup :
    Removals → (String → String) → String → CgroupSetup → Host → Host × Option String
unfolding remove_cgroup
new_cgroup r base dir inactive h = (h, none)
new_cgroup r base dir created h = (record h { cgroups = base dir ∷ h.cgroups }, some (base dir))
new_cgroup r base dir (failed false) h = (remove_cgroup r (base dir) h, none)
new_cgroup r base dir (failed true) h =
    (remove_cgroup r (base dir) (record h { cgroups = base dir ∷ h.cgroups }), none)

-- The app directory and the source; `if err != nil { j.teardown(); return nil, … }` at each step.
unfoldable pub fill_jail : Removals → Calls → Jail → Host → Host × Option Jail
unfolding teardown
fill_jail r c j h =
    if not c.mkdir_app
    then ((teardown r j h).0, none)
    else if not c.chown_app
    then ((teardown r j h).0, none)
    else if not c.write_source
    then ((teardown r j h).0, none)
    else if not c.chown_source
    then ((teardown r j h).0, none)
    else (h, some j)

-- `newJail` after `Alloc` gave a uid and os.MkdirTemp a directory, which is then root's.
unfoldable pub enter_dir :
    Removals → (String → String) → Calls → String → ℕ → String → Host → Host × Option Jail
unfolding release_uid remove_dir new_cgroup fill_jail
enter_dir r base c seccomp uid dir h =
    if not c.chown_dir
    then (remove_dir r dir (release_uid uid (record h { dirs = (dir, 0) ∷ h.dirs })), none)
    else (let (h', cg) = new_cgroup r base dir c.cgroup (record h { dirs = (dir, uid) ∷ h.dirs }) in
        fill_jail r c (record { dir = dir; uid = uid; cg = cg; seccomp = seccomp; torn = false })
          h')

unfoldable pub with_uid :
    Removals → (String → String) → Calls → String → ℕ → Host → Host × Option Jail
unfolding enter_dir release_uid
with_uid r base c seccomp uid h = elim c.mkdir_temp [
  | none ↦ (release_uid uid h, none)
  | some dir ↦ enter_dir r base c seccomp uid dir h
]

-- `newJail`; `base` is filepath.Base.
unfoldable pub new_jail : Removals → (String → String) → Calls → String → Host → Host × Option Jail
unfolding with_uid
new_jail r base c seccomp h = elim (alloc h.pool) [
  | none ↦ (h, none)
  | some (uid, p) ↦ with_uid r base c seccomp uid (record h { pool = p })
]
