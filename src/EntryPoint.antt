-- ===== src/EntryPoint.antt =====
-- cmd/goboxd/main.go: the start, and the shutdown with its drain and its sweeps. What the process does
-- is the list of its calls; what the server, the signals and the clock give is a record.
pub mod Drain
use goboxd.Base.{
  ℕ, zero, suc, ◌+◌, ℤ, pos, negsuc, ltb_ℤ, String, Bool, true, false, List, [], ◌∷◌, ◌++◌, Option,
  none, some, str_eq, ltb, atoi, ◌<>◌, if◌then◌else◌, wrap_int64, scale_ℤ,
}

-- `readShutdownTimeout`, in nanoseconds, from the value of GOBOXD_SHUTDOWN_TIMEOUT.
unfoldable pub read_shutdown_timeout : String → ℤ
read_shutdown_timeout e =
    let given : ℤ = elim (atoi e) [
      | none ↦ pos 10
      | some v ↦ if ltb_ℤ (pos 0) v then v else pos 10
    ] in
    wrap_int64 (scale_ℤ (if str_eq e "" then pos 10 else given) 1000000000)

-- `waitForDrainUntil` from its i-th round on: the clock's reading and the number of runs in flight in
-- each round are given. `none` is that the fuel has run out.
unfoldable pub wait_for_drain_until : ℕ → ℕ → (ℕ → ℕ) → (ℕ → ℤ) → ℕ → Option Bool
wait_for_drain_until zero deadline now in_flight i = none
wait_for_drain_until (suc fuel) deadline now in_flight i =
    let rest = wait_for_drain_until fuel deadline now in_flight (suc i) in
    if ltb_ℤ (pos 0) (in_flight i)
    then (if ltb deadline (now i) then some false else rest)
    else some true

-- What `srv.Shutdown` returns.
pub data Shutdown : Type 0 where
  finished server_closed timed_out : Shutdown

-- How the server stops before a signal.
pub data Served : Type 0 where
  closed : Served
  broken : String → Served

pub record World : Type 0 where
  pub hog : Bool  -- GOBOXD_CGROUP_PROBE_HOG=1
  pub registry : Option String  -- the error of `config.LoadRegistry`
  pub port : String  -- PORT
  pub served : Option Served  -- `none`: a signal came first
  pub timeout : String  -- GOBOXD_SHUTDOWN_TIMEOUT
  pub shutdown : Shutdown
  pub called : ℕ  -- the time of the call of `waitForDrain`, in milliseconds
  pub now : ℕ → ℕ  -- its clock
  pub in_flight : ℕ → ℤ

-- The calls of `main`.
pub data Call : Type 0 where
  probe_hog load_registry sweep_orphans probe_cgroup start_shutdown stop_admission close_server
        sweep_jails :
      Call
  sweep_cgroups : Call
  fatal listen : String → Call
  shutdown_within : ℤ → Call

-- `waitForDrain`: 5 seconds in rounds of 100 milliseconds.
unfoldable pub wait_for_drain : World → Option Bool
unfolding wait_for_drain_until
wait_for_drain w = wait_for_drain_until 52 (w.called + 5000) w.now w.in_flight 0

-- The value of `drained`.
unfoldable pub drained : World → Option Bool
unfolding wait_for_drain
drained w = elim w.shutdown [
  | finished ↦ some true
  | server_closed ↦ wait_for_drain w
  | timed_out ↦ wait_for_drain w
]

-- The call of `srv.Close` after a drain that timed out.
unfoldable pub closing : Shutdown → List Call
closing finished = []
closing server_closed = []
closing timed_out = close_server ∷ []

-- The sweeps at the end.
unfoldable pub sweeps : Option Bool → List Call
sweeps (some true) = sweep_jails ∷ sweep_cgroups ∷ []
sweeps (some false) = []
sweeps none = []

-- From the signal on.
unfoldable pub shut_down : World → List Call
unfolding read_shutdown_timeout drained closing sweeps
shut_down w =
    start_shutdown
      ∷ stop_admission
      ∷ shutdown_within (read_shutdown_timeout w.timeout)
      ∷ closing w.shutdown
    ++ sweeps (drained w)

-- From the start of the server on.
unfoldable pub serve : World → List Call
unfolding shut_down
serve w = elim w.served [
  | some closed ↦ []
  | some (broken e) ↦ fatal ("Server failed: " <> e) ∷ []
  | none ↦ shut_down w
]

-- `main`
unfoldable pub main : World → List Call
unfolding serve
main w = if w.hog then probe_hog ∷ [] else elim w.registry [
  | some e ↦ load_registry ∷ fatal ("Loading language registry: " <> e) ∷ []
  | none ↦
      load_registry
      ∷ sweep_orphans
      ∷ probe_cgroup
      ∷ listen (":" <> (if str_eq w.port "" then "8080" else w.port))
      ∷ serve w
]
