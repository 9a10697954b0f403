-- ===== src/Lib.antt =====
-- goboxd: a service that runs untrusted programs in nsjail jails, with a playground page.
--
-- The service (Go) loads a registry of languages, checks each POST /run against it, admits a
-- bounded number of runs, executes each in jails under uids of its own, and answers with the result
-- of the build and of every test. The page (TypeScript) edits a program, posts it and shows the
-- answer. The modules follow the repository:
--   Models            internal/models/models.go: the data of the API.
--   UidPool           internal/uidpool/uidpool.go: `New`, `Alloc`, `Release`, `UidBudget`. The set of
--                     uids in use is a list. Alloc and Budget are its theorems.
--   Admission         internal/api/admission.go: each critical section of `acquire`, `release` and
--                     `Stop` is a function on the gate; System lets any number of callers take these
--                     sections in any order; Invariant and Shutdown are the theorems.
--   Config            internal/config/config.go: `LoadRegistry`, `resolveCeiling`, `expandCmd`.
--   Api               internal/api: Validate has the checks of `HandleRun` in the source's order, with
--                     Filename, Flags and Limits for `isValidFilename`, `validateFlags` and
--                     `validateStageLimits`; Auth is auth.go, Metrics is metrics.go, Status is
--                     `computeTopLevelStatus`, and Handle is `HandleRun` from the gate on. RateLimit is
--                     ratelimit.go, Testcases is testcases.go, Probes is probes.go with `HandleReadyz`,
--                     and Router is the chain of `NewRouter` with the middlewares of logging.go.
--   Runner            internal/runner/runner.go: Verdict has `exitFacts`, `signalReasonFromStatus` and
--                     `computeTestStatus`; Single has `runSingleTest` over any execution, and Jailed
--                     over `execJail`; Args has `nsjailArgs` and `jailEnv`, Poller the baselines, the
--                     poller and `cpuTimeUS`, Exec is exec.go; Execute has `runBuild` and `ExecuteRun`;
--                     Source has `resolveSourceName` and `writeSource`, Cache `ensureCacheDirs`, and
--                     Sweep the sweeps of old directories. Jail is jail.go: `newJail` and `teardown` on
--                     the host's uids, directories and cgroups, and System lets any number of requests
--                     make jails and tear them down in any order; Copy is `seedFrom` and `copyTree`.
--   Playground        playground/src/App.tsx: Languages and Presets are its tables, Flatten the menu of
--                     presets, State the hooks and the handlers that only set state, Run and TestRun
--                     what `run` and `runTestcase` do with an answer, Listing the groups of the tests
--                     page, Session the page over time; Answer and ServerList join the page to the
--                     service's JSON. Element has the trees of React elements, PlayView and TestsView
--                     what each page renders, View the page as it is used by the events on it;
--                     Interaction, Refinement, Render and Shown are its theorems.
--   Cgroup            internal/cgroupv2/cgroupv2.go: what is read of a jail's cgroup; Manager has
--                     `NewManager` with its probe and `NewJail`, Tree `removeJailDir` and `Teardown`.
--   Seccomp           internal/seccomp/seccomp.go: `ParseSyscallNames` and `CombinedWith` over a policy and
--                     kafel's table of names; Parse is `parseGlobalPolicyBytes`.
--   TempFile          internal/runner/hosts.go, and `PolicyPath`: the files written once for the process.
--   EntryPoint        cmd/goboxd/main.go: the calls of `main`, and the wait for the drain.
--   BuildInfo         internal/buildinfo/buildinfo.go: `AtLeast`.
--   Base, Tests       shared names, texts and numbers; the theorems on concrete inputs.
--
-- Go's `int` is ℤ where it can be negative and ℕ where the code keeps it from being so; `UidBudget`
-- keeps its saturation at 2 ^ 63 - 1, `Release` its 64-bit sum, and `Atoi` its range; the uids that
-- `Alloc` tries are ℕ, below 2 ^ 63 in any pool whose range is. A map is an association list, a pointer or
-- an error is an `Option`. JavaScript's `any` is the data type of JSON values with `undefined`, whose
-- operations may throw; how the engine words an error, indexes a text and lowers its case is a record
-- that the theorems quantify over. The sandbox (jails, nsjail, the clock, the client's leaving) is a
-- record in the same way.
--
-- The loops that are not over a list run on fuel: `Alloc` makes as many rounds as the pool has uids,
-- as in the source; the search for a free preset name makes two rounds more than there are names, and a
-- round is lost only to a name that is taken; a decimal numeral has no more digits than its number plus
-- one.
--
-- The files under the directory of test cases, the results of the system calls of `newJail`, the output
-- of the commands that probe a runtime, the mux of net/http with the handlers behind it, and the
-- arithmetic of `float64` are parameters as well; what the theorems need of the last is in
-- Api.RateLimit.Burst.IsFloat.
--
-- `waitForDrain` has 52 rounds of at least 100 milliseconds, more than its 5 seconds hold. Texts are
-- read and cut by characters, where Go counts bytes; the positions are only used to cut. Output is a list
-- of bytes until its string is made. What a jail's cgroup shows before, during and after an execution
-- is a record, with one value of its files for each tick of the poller.
--
-- Not modelled: decoding of YAML and of requests, the constant styles of the page, the sweep of old
-- cgroups, the load of the cgroup probe, the files that the service serves as they are embedded,
-- `HandleInfo` and `HandleHealthz`, the table of system calls, and the goroutines of a second signal
-- and of SIGHUP.
mod Base
pub mod Admission
pub mod Api
pub mod BuildInfo
pub mod Cgroup
pub mod Config
pub mod EntryPoint
pub mod Models
pub mod TempFile
pub mod UidPool
pub mod Playground
pub mod Runner
pub mod Seccomp
mod Tests
