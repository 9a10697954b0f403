-- ===== src/Admission.antt =====
-- internal/api/admission.go: the gate that bounds the runs in flight and the requests that wait.
-- Each critical section under the mutex is one function. A broadcast channel is numbered by how
-- many were made before it: closing the current one and making another raises `broadcast`, so a
-- waiter that holds channel `b` can be woken exactly if `b < broadcast`.
pub mod System
pub mod Invariant
pub mod Shutdown
use goboxd.Base.{
  ℕ, suc, ◌+◌, ◌-◌, String, Bool, true, false, ◌||◌, Option, none, some, str_eq, ltb, leb, ltb_ℤ, ℤ,
  pos, to_ℕ, atoi, if◌then◌else◌,
}
use goboxd.UidPool.{positive_env}

pub record Gate : Type 0 where
  pub in_flight : ℕ
  pub queued : ℕ
  pub max_jobs : ℕ
  pub max_queued : ℕ
  pub stopped : Bool
  pub broadcast : ℕ
  pub metrics_queued : ℕ  -- `metrics.Queued`

-- The errors `errQueueFull` and `errShuttingDown`.
pub data Refusal : Type 0 where
  queue_full shutting_down : Refusal

-- Where a critical section of `acquire` leaves its caller: with a slot, refused, or waiting on a
-- channel.
pub data Turn : Type 0 where
  admitted : Turn
  refused : Refusal → Turn
  waits : ℕ → Turn

-- `newAdmissionGate`
unfoldable pub new_gate : ℕ → ℕ → Gate
new_gate n m = record {
  in_flight = 0;
  queued = 0;
  max_jobs = n;
  max_queued = m;
  stopped = false;
  broadcast = 0;
  metrics_queued = 0;
}

-- The first critical section of `acquire`.
unfoldable pub enter : Gate → Gate × Turn
enter g =
    if g.stopped
    then (g, refused shutting_down)
    else if ltb g.in_flight g.max_jobs
    then (record g { in_flight = g.in_flight + 1 }, admitted)
    else if leb g.max_queued 0 || leb g.max_queued g.queued
    then (g, refused queue_full)
    else (
      record g { queued = g.queued + 1; metrics_queued = g.metrics_queued + 1 },
      waits g.broadcast,
    )

-- A ticket is given back.
leave_queue : Gate → Gate
leave_queue g = record g { queued = g.queued - 1; metrics_queued = g.metrics_queued - 1 }

-- The branch `case <-b` of the waiting loop.
unfoldable pub wake : Gate → Gate × Turn
unfolding leave_queue
wake g =
    if g.stopped
    then (leave_queue g, refused shutting_down)
    else if ltb g.in_flight g.max_jobs
    then (record (leave_queue g) { in_flight = g.in_flight + 1 }, admitted)
    else (g, waits g.broadcast)

-- The branch `case <-ctx.Done()` of the waiting loop.
unfoldable pub give_up : Gate → Gate
unfolding leave_queue
give_up g = leave_queue g

-- `close(g.broadcast); g.broadcast = make(chan struct{})`, if anyone is queued.
notify : Gate → Gate
notify g = if ltb 0 g.queued then record g { broadcast = g.broadcast + 1 } else g

-- `release`
unfoldable pub release : Gate → Gate
unfolding notify
release g = notify (record g { in_flight = g.in_flight - 1 })

-- `Stop`
unfoldable pub stop : Gate → Gate
unfolding notify
stop g = notify (record g { stopped = true })

-- `readMaxJobs`, from GOBOXD_MAX_JOBS and the number of CPUs.
unfoldable pub read_max_jobs : String → ℕ → ℕ
read_max_jobs env cpus = positive_env env cpus

-- `readMaxQueued`, from GOBOXD_MAX_QUEUED; an explicit 0 disables the queue.
unfoldable pub read_max_queued : String → String → ℕ → ℕ
unfolding read_max_jobs
read_max_queued env jobs_env cpus =
    if str_eq env "" then read_max_jobs jobs_env cpus else elim (atoi env) [
      | none ↦ read_max_jobs jobs_env cpus
      | some v ↦ if ltb_ℤ v (pos 0) then read_max_jobs jobs_env cpus else to_ℕ v
    ]
