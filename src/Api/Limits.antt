-- ===== src/Api/Limits.antt =====
-- `validateStageLimits` of internal/api/handlers.go: the limits that a client asks for against the
-- limits and the ceiling of a language.
use goboxd.Base.{
  ℤ, pos, leb_ℤ, ltb_ℤ, eqb_ℤ, ◌≤ℤ◌, IsPositive, leb_ℤ_iff, ltb_ℤ-not, IsPositive-iff, decimal_ℤ,
  String, Bool, true, false, not, Option, none, some, ◌≡◌, refl, ◌↔◌, ◌<>◌, if◌then◌else◌, arith,
}
use goboxd.Models
use goboxd.Models.{StageConfig}
use goboxd.Config
use goboxd.Api.Check.{Check, pass, reject, ◌>>◌, detail, reject_if}

-- `ceilingAt`: a zero ceiling field means that the stage's limit is the ceiling.
unfoldable pub ceiling_at : ℤ → ℤ → ℤ
ceiling_at ceiling max = if eqb_ℤ ceiling (pos 0) then max else ceiling

abbrev named : String → String → String
named stage field = stage <> ".limits." <> field

-- The closure `check` on one field, and its call.
unfoldable pub check_field : String → String → Option ℤ → ℤ → ℤ → Check (Unit {0})
unfolding ceiling_at
check_field stage field none max ceiling = pass tt
check_field stage field (some v) max ceiling = do
  reject_if (leb_ℤ v (pos 0)) (detail "invalid_limit" (named stage field <> " must be positive"))
  reject_if (ltb_ℤ (ceiling_at ceiling max) v) (
      detail "limit_exceeded" (
        named stage field
        <> " of "
        <> decimal_ℤ v
        <> " exceeds ceiling of "
        <> decimal_ℤ (ceiling_at ceiling max)))

-- The branch for the CPU time: without a configured limit a request may not ask for one.
unfoldable pub check_cpu : String → Option ℤ → ℤ → ℤ → Check (Unit {0})
unfolding ceiling_at
check_cpu stage none max ceiling = pass tt
check_cpu stage (some v) max ceiling = do
  reject_if (leb_ℤ v (pos 0))
      (detail "invalid_limit" (named stage "cpu_time_s" <> " must be positive"))
  reject_if (eqb_ℤ max (pos 0)) (
      detail "invalid_limit"
        (named stage "cpu_time_s" <> " is not allowed: this language has no cpu limit configured"))
  reject_if (ltb_ℤ (ceiling_at ceiling max) v) (
      detail "limit_exceeded" (
        named stage "cpu_time_s"
        <> " of "
        <> decimal_ℤ v
        <> " exceeds ceiling of "
        <> decimal_ℤ (ceiling_at ceiling max)))

-- The four fields, in the source's order.
check_limits : String → Models.Limits → Config.Limits → Config.Limits → Check (Unit {0})
check_limits stage l max ceiling = do
  check_field stage "wall_time_s" l.wall_time_s max.wall_time_s ceiling.wall_time_s
  check_field stage "memory_kb" l.memory_kb max.memory_kb ceiling.memory_kb
  check_field stage "max_processes" l.max_processes max.max_processes ceiling.max_processes
  check_cpu stage l.cpu_time_s max.cpu_time_s ceiling.cpu_time_s

limits_of_stage :
    String → Option Models.Limits → Config.Limits → Config.Limits → Bool → Check (Unit {0})
unfolding check_limits
limits_of_stage stage none max ceiling has_build = pass tt
limits_of_stage stage (some l) max ceiling has_build = do
  reject_if (not has_build) (
      detail "invalid_limit"
        (stage <> ".limits are not allowed: this language has no " <> stage <> " stage"))
  check_limits stage l max ceiling

-- `validateStageLimits`
unfoldable pub validate_stage_limits :
    Option StageConfig → Config.Limits → Config.Limits → Bool → String → Check (Unit {0})
unfolding limits_of_stage
validate_stage_limits none max ceiling has_build stage = pass tt
validate_stage_limits (some c) max ceiling has_build stage =
    limits_of_stage stage c.limits max ceiling has_build

-- A requested limit is positive and at most the effective ceiling.
abbrev pub Within : Option ℤ → ℤ → ℤ → Type 0
Within none max ceiling = Unit
Within (some v) max ceiling = IsPositive v × (v ≤ℤ ceiling_at ceiling max)

-- So is a requested CPU time, which also wants a configured one.
abbrev pub CpuWithin : Option ℤ → ℤ → ℤ → Type 0
CpuWithin none max ceiling = Unit
CpuWithin (some v) max ceiling =
    IsPositive v × (eqb_ℤ max (pos 0) ≡ false) × (v ≤ℤ ceiling_at ceiling max)

abbrev pub LimitsWithin : Option Models.Limits → Config.Limits → Config.Limits → Bool → Type 0
LimitsWithin none max ceiling has_build = Unit
LimitsWithin (some l) max ceiling has_build =
    (has_build ≡ true)
    × Within l.wall_time_s max.wall_time_s ceiling.wall_time_s
    × Within l.memory_kb max.memory_kb ceiling.memory_kb
    × Within l.max_processes max.max_processes ceiling.max_processes
    × CpuWithin l.cpu_time_s max.cpu_time_s ceiling.cpu_time_s

abbrev pub StageWithin : Option StageConfig → Config.Limits → Config.Limits → Bool → Type 0
StageWithin none max ceiling has_build = Unit
StageWithin (some c) max ceiling has_build = LimitsWithin c.limits max ceiling has_build

pub >>-eq-pass {ℓ} :
    {B : Type ℓ} (m : Check (Unit {0})) (k : Check B) {b : B}
    → ((m >> k) ≡ pass b) ↔ ((m ≡ pass tt) × (k ≡ pass b))
>>-eq-pass (pass u) k = (λ e. (refl, e), λ h. h.1)
>>-eq-pass (reject x) k = (λ e. cc, λ h. cc (h.0))

check_field_iff :
    (stage field : String) (v : Option ℤ) (max ceiling : ℤ)
    → (check_field stage field v max ceiling ≡ pass tt) ↔ Within v max ceiling
unfolding check_field
check_field_iff stage field none max ceiling = (λ e. tt, λ h. refl)
check_field_iff stage field (some v) max ceiling = ground (
  arith,
  IsPositive-iff v,
  leb_ℤ_iff v (ceiling_at ceiling max),
  ltb_ℤ-not (ceiling_at ceiling max) v,
)

check_cpu_iff :
    (stage : String) (v : Option ℤ) (max ceiling : ℤ)
    → (check_cpu stage v max ceiling ≡ pass tt) ↔ CpuWithin v max ceiling
unfolding check_cpu
check_cpu_iff stage none max ceiling = (λ e. tt, λ h. refl)
check_cpu_iff stage (some v) max ceiling = ground (
  arith,
  IsPositive-iff v,
  leb_ℤ_iff v (ceiling_at ceiling max),
  ltb_ℤ-not (ceiling_at ceiling max) v,
)

check_limits_iff :
    (stage : String) (l : Models.Limits) (max ceiling : Config.Limits)
    → (check_limits stage l max ceiling ≡ pass tt) ↔ (
        Within l.wall_time_s max.wall_time_s ceiling.wall_time_s
        × Within l.memory_kb max.memory_kb ceiling.memory_kb
        × Within l.max_processes max.max_processes ceiling.max_processes
        × CpuWithin l.cpu_time_s max.cpu_time_s ceiling.cpu_time_s)
unfolding check_limits
check_limits_iff stage l max ceiling = (to, from)
  where
    wall : Check (Unit {0})
    wall = check_field stage "wall_time_s" l.wall_time_s max.wall_time_s ceiling.wall_time_s

    memory : Check (Unit {0})
    memory = check_field stage "memory_kb" l.memory_kb max.memory_kb ceiling.memory_kb

    processes : Check (Unit {0})
    processes =
        check_field stage "max_processes" l.max_processes max.max_processes ceiling.max_processes

    to :
        check_limits stage l max ceiling ≡ pass tt
        → Within l.wall_time_s max.wall_time_s ceiling.wall_time_s
          × Within l.memory_kb max.memory_kb ceiling.memory_kb
          × Within l.max_processes max.max_processes ceiling.max_processes
          × CpuWithin l.cpu_time_s max.cpu_time_s ceiling.cpu_time_s
    to e =
        let a = (>>-eq-pass wall _).0 e in
        let b = (>>-eq-pass memory _).0 a.1 in
        let c = (>>-eq-pass processes _).0 b.1 in
        (
          (check_field_iff stage _ _ _ _).0 a.0,
          (check_field_iff stage _ _ _ _).0 b.0,
          (check_field_iff stage _ _ _ _).0 c.0,
          (check_cpu_iff stage _ _ _).0 c.1,
        )

    from :
        Within l.wall_time_s max.wall_time_s ceiling.wall_time_s
          × Within l.memory_kb max.memory_kb ceiling.memory_kb
          × Within l.max_processes max.max_processes ceiling.max_processes
          × CpuWithin l.cpu_time_s max.cpu_time_s ceiling.cpu_time_s
        → check_limits stage l max ceiling ≡ pass tt
    from h = (>>-eq-pass wall _).1 (
      (check_field_iff stage _ _ _ _).1 h.0,
      (>>-eq-pass memory _).1 (
        (check_field_iff stage _ _ _ _).1 h.1,
        (>>-eq-pass processes _).1
            ((check_field_iff stage _ _ _ _).1 h.2, (check_cpu_iff stage _ _ _).1 h.3),
      ),
    )

-- The limits of a stage pass exactly if the language has the stage, every limit that is given is
-- positive and at most its ceiling (the stage's own limit where the ceiling is 0), and a CPU time is
-- given only where the language has a CPU limit.
pub validate_stage_limits_iff :
    (stage : Option StageConfig) (max ceiling : Config.Limits) (has_build : Bool) (name : String)
    → (validate_stage_limits stage max ceiling has_build name ≡ pass tt)
      ↔ StageWithin stage max ceiling has_build
unfolding validate_stage_limits
validate_stage_limits_iff none max ceiling has_build name = (λ e. tt, λ h. refl)
validate_stage_limits_iff (some c) max ceiling has_build name = by_limits c.limits has_build
  where
    by_limits :
        (l : Option Models.Limits) (b : Bool)
        → (limits_of_stage name l max ceiling b ≡ pass tt) ↔ LimitsWithin l max ceiling b
    by_limits none b = (λ e. tt, λ h. refl)
    by_limits (some l) false = (λ e. cc, λ h. cc (h.0))
    by_limits (some l) true =
        let iff = check_limits_iff name l max ceiling in
        (
          λ e. (refl, (iff.0 e).0, (iff.0 e).1, (iff.0 e).2, (iff.0 e).3),
          λ h. iff.1 (h.1, h.2, h.3, h.4),
        )
