-- ===== src/UidPool.antt =====
-- internal/uidpool/uidpool.go: the pool of unprivileged uids that jails run under. The mutex makes
-- each method one step on the pool; the set `inUse` is the list of the uids held.
pub mod Alloc
pub mod Budget
use goboxd.Base.{
  ℕ, zero, suc, ◌+◌, ◌*◌, ◌/◌, ◌%◌, String, Bool, false, ◌||◌, List, [], ◌∷◌, Option, none, some,
  str_eq, ltb, ltb_ℤ, ◌==◌, ℤ, pos, to_ℕ, atoi, max_int, if◌then◌else◌, leb_ℤ, wrap_int64,
}

abbrev pub default_min_uid : ℕ
default_min_uid = 10000

-- A positive number in an environment variable, "" where it is not set.
unfoldable pub positive_env : String → ℕ → ℕ
positive_env e default =
    if str_eq e ""
    then default
    else elim (atoi e) [ none ↦ default | some v ↦ if ltb_ℤ (pos 0) v then to_ℕ v else default ]

-- `ConcurrentJobs`, from GOBOXD_MAX_JOBS and the number of CPUs.
unfoldable pub concurrent_jobs : String → ℕ → ℕ
unfolding positive_env
concurrent_jobs env cpus = positive_env env cpus

-- `UidBudget`
unfoldable pub uid_budget : String → ℕ → ℕ
uid_budget env num_cpu =
    let jobs = if ltb (concurrent_jobs env num_cpu) 1 then 1 else concurrent_jobs env num_cpu in
    let cpus = if ltb num_cpu 1 then 1 else num_cpu in
    let per = cpus + 1 in if ltb (max_int / per) jobs then max_int else jobs * per

-- `minUid`, from GOBOXD_UID_MIN.
unfoldable pub min_uid : String → ℕ
unfolding positive_env
min_uid env = positive_env env default_min_uid

pub record Pool : Type 0 where
  pub min : ℕ
  pub size : ℕ
  pub in_use : List ℕ
  pub next : ℕ

-- `New`; `min` is what `minUid` read.
unfoldable pub new : ℕ → ℕ → Pool
new min n = record { min = min; size = if ltb n 1 then 1 else n; in_use = []; next = 0 }

-- `p.inUse[uid]`
unfoldable pub held : ℕ → List ℕ → Bool
held uid [] = false
held uid (u ∷ us) = u == uid || held uid us

-- `delete(p.inUse, uid)`
unfoldable pub delete : ℕ → List ℕ → List ℕ
delete uid [] = []
delete uid (u ∷ us) = let rest = delete uid us in if u == uid then rest else u ∷ rest

-- The uid that round `i` of `Alloc` tries.
abbrev pub candidate : Pool → ℕ → ℕ
candidate p i = p.min + (p.next + i) % p.size

-- The loop of `Alloc` from round `i`, with the rounds that are left.
unfoldable pub alloc_from : ℕ → ℕ → Pool → Option (ℕ × Pool)
alloc_from zero i p = none
alloc_from (suc rounds) i p =
    let later = alloc_from rounds (suc i) p in
    if held (candidate p i) p.in_use
    then later
    else some (
      candidate p i,
      record p { in_use = candidate p i ∷ p.in_use; next = (p.next + i + 1) % p.size },
    )

-- `Alloc`; `none` is the error "uid pool exhausted".
unfoldable pub alloc : Pool → Option (ℕ × Pool)
alloc p = alloc_from p.size 0 p

-- `Release`; the sum is Go's, of 64 bits.
unfoldable pub release : ℕ → Pool → Pool
release uid p =
    if ltb uid p.min || leb_ℤ (wrap_int64 (pos (p.min + p.size))) (pos uid)
    then p
    else record p { in_use = delete uid p.in_use }
