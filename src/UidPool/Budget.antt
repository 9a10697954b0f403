-- ===== src/UidPool/Budget.antt =====
-- `UidBudget` of internal/uidpool/uidpool.go: the size of the pool.
use native.Mathlib.Nat.{div-lt_iff_lt-mul}
use native.Mathlib.Decide.{dec_lt}
use goboxd.Base.{
  ℕ, ◌+◌, ◌*◌, ◌/◌, ◌<◌, ◌≡◌, String, ltb, max_int, if◌then◌else◌, arith, min, lt→ltb, max, false,
}
use goboxd.UidPool.{concurrent_jobs, uid_budget}

saturated_product :
    (m jobs per : ℕ) → 0 < per → (if ltb (m / per) jobs then m else jobs * per) ≡ min (jobs * per) m
saturated_product m jobs per h = elim (dec_lt (m / per) jobs) [
  | yes lt ↦
      let above : m < jobs * per = (div-lt_iff_lt-mul h).0 lt in rw (lt→ltb _ _ lt) (omega arith)
  | no ge ↦
      let below : ¬ (m < jobs * per) = λ lt. ge ((div-lt_iff_lt-mul h).1 lt) in
      let failed : ltb (m / per) jobs ≡ false = ground arith in rw failed (omega arith)
]

at_least_one : (n : ℕ) → (if ltb n 1 then 1 else n) ≡ max n 1
at_least_one n = ground arith

-- The budget is the product of the job limit and the uids of one request (a template jail and a jail
-- for each CPU), each count taken as at least 1, where that product fits a 64-bit `int`, and the
-- largest `int` where it does not: it never wraps.
pub uid_budget_lem :
    (env : String) (cpus : ℕ)
    → uid_budget env cpus ≡ min (max (concurrent_jobs env cpus) 1 * (max cpus 1 + 1)) max_int
unfolding uid_budget
uid_budget_lem env cpus =
    rw (at_least_one cpus, at_least_one (concurrent_jobs env cpus))
      (saturated_product max_int (max (concurrent_jobs env cpus) 1) (max cpus 1 + 1) (omega arith))
