-- ===== src/Runner.antt =====
-- internal/runner: a test, a build and a run, over what the sandbox does.
pub mod Verdict
pub mod Single
pub mod Args
pub mod Poller
pub mod Exec
pub mod Jailed
pub mod Execute
pub mod Jail
pub mod Sweep
pub mod Cache
pub mod Source
