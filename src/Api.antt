-- ===== src/Api.antt =====
-- internal/api: the checks of a request, the authentication, the counters and the answer to a run.
pub mod Filename
pub mod Flags
pub mod Check
pub mod Limits
pub mod Validate
pub mod Status
pub mod Metrics
pub mod Handle
pub mod Auth
pub mod Testcases
pub mod RateLimit
pub mod Router
pub mod Probes
