-- ===== src/Runner/Single/Bounded.antt =====
-- The limits that `runSingleTest` and `runBuild` (internal/runner/runner.go) run a stage under, beside
-- the checks of `validateStageLimits`.
use goboxd.Base.{ℤ, ◌≤ℤ◌, Bool, String, Option, none, some, ◌≡◌}
use goboxd.Models
use goboxd.Models.{StageConfig}
use goboxd.Config
use goboxd.Api.Check.{pass}
use goboxd.Api.Limits.{
  ceiling_at, validate_stage_limits, validate_stage_limits_iff, StageWithin, LimitsWithin, Within,
  CpuWithin,
}
use goboxd.Runner.Single.{effective_limits, override, or_configured, ExecLimits}

-- Limits are at most the effective ceiling.
pub record UnderCeiling (l : ExecLimits) (max ceiling : Config.Limits) : Type 0 where
  pub wall_time : l.wall_time ≤ℤ ceiling_at ceiling.wall_time_s max.wall_time_s
  pub memory : l.mem_kb ≤ℤ ceiling_at ceiling.memory_kb max.memory_kb
  pub processes : l.procs ≤ℤ ceiling_at ceiling.max_processes max.max_processes
  pub cpu_time : l.cpu_limit ≤ℤ ceiling_at ceiling.cpu_time_s max.cpu_time_s

-- The limits that a language configures for a stage.
abbrev pub configured : Config.Limits → ExecLimits
configured l = effective_limits none l

within_ceiling :
    (v : Option ℤ) (max ceiling : ℤ)
    → max ≤ℤ ceiling_at ceiling max
    → Within v max ceiling
    → or_configured v max ≤ℤ ceiling_at ceiling max
within_ceiling none max ceiling own h = own
within_ceiling (some v) max ceiling own h = h.1

cpu_within_ceiling :
    (v : Option ℤ) (max ceiling : ℤ)
    → max ≤ℤ ceiling_at ceiling max
    → CpuWithin v max ceiling
    → or_configured v max ≤ℤ ceiling_at ceiling max
cpu_within_ceiling none max ceiling own h = own
cpu_within_ceiling (some v) max ceiling own h = h.2

by_stage :
    (stage : Option StageConfig) (max ceiling : Config.Limits) (has_build : Bool)
    → UnderCeiling (configured max) max ceiling
    → StageWithin stage max ceiling has_build
    → UnderCeiling (effective_limits stage max) max ceiling
unfolding effective_limits
by_stage none max ceiling has_build own h = own
by_stage (some c) max ceiling has_build own h = by_limits c.limits h
  where
    by_limits :
        (l : Option Models.Limits)
        → LimitsWithin l max ceiling has_build
        → UnderCeiling (override l max) max ceiling
    by_limits none h = own
    by_limits (some l) h = record {
      wall_time = within_ceiling l.wall_time_s _ _ own.wall_time h.1;
      memory = within_ceiling l.memory_kb _ _ own.memory h.2;
      processes = within_ceiling l.max_processes _ _ own.processes h.3;
      cpu_time = cpu_within_ceiling l.cpu_time_s _ _ own.cpu_time h.4;
    }

-- Where the limits that a language configures for a stage are at most its effective ceiling, and the
-- request's limits for the stage pass `validateStageLimits`, the limits that the stage runs under
-- are at most that ceiling.
pub effective_limits-UnderCeiling :
    (stage : Option StageConfig) (max ceiling : Config.Limits) (has_build : Bool) (name : String)
    → UnderCeiling (configured max) max ceiling
    → validate_stage_limits stage max ceiling has_build name ≡ pass tt
    → UnderCeiling (effective_limits stage max) max ceiling
effective_limits-UnderCeiling stage max ceiling has_build name own valid =
    by_stage stage max ceiling has_build own
      ((validate_stage_limits_iff stage max ceiling has_build name).0 valid)
