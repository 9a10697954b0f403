-- ===== src/Runner/Verdict.antt =====
-- `exitFacts`, `signalReasonFromStatus`, `signalKillReason` and `computeTestStatus` of
-- internal/runner/runner.go. A wait status is the kernel's: an exit, a death by a signal, or another
-- change of state, whose exit status Go gives as -1. The empty ResultStatus is `unset`.
use goboxd.Base.{
  ℕ, ◌+◌, ◌-◌, ℤ, pos, negsuc, String, Bool, true, false, not, ◌&&◌, ◌||◌, Option, none, some, ◌≡◌,
  ◌↔◌, ◌⊎◌, inl, inr, refl, str_eq, leb, ◌==◌, leb_ℤ, ltb_ℤ, if◌then◌else◌, arith, eq_iff,
  Bool-cases,
}
use goboxd.Base.Strings.{contains, trim_space}
use goboxd.Models.{ResultStatus, is_accepted, is_accepted_iff}

pub data WaitStatus : Type 0 where
  exited : ℕ → WaitStatus
  signaled : ℕ → WaitStatus
  other : WaitStatus

-- `exitFacts`; `none` is the nil state of a process that never started.
unfoldable pub exit_facts : Option WaitStatus → ℤ × ℤ
exit_facts none = (pos 0, pos 0)
exit_facts (some (signaled sig)) = (negsuc 0, pos sig)
exit_facts (some (exited code)) =
    if leb 129 code && leb code 192 then (pos code, pos (code - 128)) else (pos code, pos 0)
exit_facts (some other) = (negsuc 0, pos 0)

abbrev sigabrt : ℕ
sigabrt = 6

abbrev pub sigkill : ℕ
sigkill = 9

abbrev sigsegv : ℕ
sigsegv = 11

abbrev pub sigxcpu : ℕ
sigxcpu = 24

-- `signalReasonFromStatus`
unfoldable pub signal_reason : WaitStatus → ResultStatus
signal_reason (exited code) =
    if code == 128 + sigxcpu then ResultStatus.cpu_time_exceeded else ResultStatus.unset
signal_reason other = ResultStatus.unset
signal_reason (signaled sig) =
    if sig == sigkill
    then ResultStatus.time_exceeded
    else if sig == sigsegv || sig == sigabrt
    then ResultStatus.memory_exceeded
    else if sig == sigxcpu
    then ResultStatus.cpu_time_exceeded
    else ResultStatus.runtime_error

-- `signalKillReason`
unfoldable pub signal_kill_reason : Option WaitStatus → ResultStatus
unfolding signal_reason
signal_kill_reason none = ResultStatus.unset
signal_kill_reason (some status) = signal_reason status

-- `ctx.Err()`, where it is not nil.
pub data ContextError : Type 0 where
  canceled deadline_exceeded : ContextError

-- `cpuOutcome`
pub record CpuOutcome : Type 0 where
  pub limit_us : ℤ
  pub time_us : ℤ
  pub killed : Bool

abbrev is_cpu : ResultStatus → Bool
is_cpu ResultStatus.cpu_time_exceeded = true
is_cpu _ = false

abbrev is_unset : ResultStatus → Bool
is_unset ResultStatus.unset = true
is_unset _ = false

-- The comparison at the end, for a run that ended well.
unfoldable pub compare_output : String → String → ResultStatus
compare_output stdout expected =
    if str_eq expected ""
    then ResultStatus.accepted
    else if str_eq stdout expected
    then ResultStatus.accepted
    else if str_eq (trim_space stdout) (trim_space expected)
    then ResultStatus.whitespace_mismatch
    else ResultStatus.wrong_output

-- The branch `if err != nil`, from the error's text.
unfoldable pub of_error : String → ResultStatus → CpuOutcome → ResultStatus
of_error message reason cpu =
    if not (is_unset reason)
    then reason
    else if contains message "exit status 137"
    then (if ltb_ℤ (pos 0) cpu.limit_us && leb_ℤ cpu.limit_us cpu.time_us
        then ResultStatus.cpu_time_exceeded
        else ResultStatus.time_exceeded)
    else ResultStatus.runtime_error

-- The last part, after the checks that need no error.
unfoldable pub judge : Option String → String → String → ResultStatus → CpuOutcome → ResultStatus
unfolding compare_output of_error
judge none stdout expected reason cpu = compare_output stdout expected
judge (some message) stdout expected reason cpu = of_error message reason cpu

abbrev is_error : Option String → Bool
is_error none = false
is_error (some message) = true

abbrev is_canceled : Option ContextError → Bool
is_canceled (some canceled) = true
is_canceled _ = false

abbrev is_deadline : Option ContextError → Bool
is_deadline (some deadline_exceeded) = true
is_deadline _ = false

-- `computeTestStatus`; the error is its text.
unfoldable pub compute_test_status :
    Option ContextError
    → Option String
    → String
    → String
    → Option WaitStatus
    → Bool
    → CpuOutcome
    → ResultStatus
unfolding judge signal_kill_reason
compute_test_status ctx err stdout expected ps oom_killed cpu =
    if is_canceled ctx
    then ResultStatus.cancelled
    else if oom_killed
    then ResultStatus.memory_exceeded
    else if cpu.killed || (is_error err && is_cpu (signal_kill_reason ps))
    then ResultStatus.cpu_time_exceeded
    else if is_deadline ctx
    then ResultStatus.time_exceeded
    else judge err stdout expected (signal_kill_reason ps) cpu

signal_reason-not_accepted : (s : WaitStatus) → is_accepted (signal_reason s) ≡ false
unfolding signal_reason
signal_reason-not_accepted other = refl
signal_reason-not_accepted (exited code) = elim (Bool-cases (code == 152)) [
  | inl e ↦ rw e refl
  | inr e ↦ rw e refl
]
signal_reason-not_accepted (signaled sig) = elim (Bool-cases (sig == 9)) [
  | inl e ↦ rw e refl
  | inr kill ↦ elim (Bool-cases ((sig == 11) || (sig == 6))) [
    | inl e ↦ rw (kill, e) refl
    | inr fault ↦ elim (Bool-cases (sig == 24)) [
      | inl e ↦ rw (kill, fault, e) refl
      | inr e ↦ rw (kill, fault, e) refl
    ]
  ]
]

reason-not_accepted : (ps : Option WaitStatus) → is_accepted (signal_kill_reason ps) ≡ false
unfolding signal_kill_reason
reason-not_accepted none = refl
reason-not_accepted (some s) = signal_reason-not_accepted s

of_error-not_accepted :
    (m : String) (reason : ResultStatus) (cpu : CpuOutcome)
    → is_accepted reason ≡ false
    → is_accepted (of_error m reason cpu) ≡ false
unfolding of_error
of_error-not_accepted m reason cpu h = elim (Bool-cases (is_unset reason)) [
  | inr e ↦ rw e h
  | inl e ↦ elim (Bool-cases (contains m "exit status 137")) [
    | inr f ↦ rw (e, f) refl
    | inl f ↦ elim (Bool-cases (ltb_ℤ (pos 0) cpu.limit_us && leb_ℤ cpu.limit_us cpu.time_us)) [
      | inl g ↦ rw (e, f, g) refl
      | inr g ↦ rw (e, f, g) refl
    ]
  ]
]

differing-not_accepted :
    (b : Bool)
    → is_accepted (if b then ResultStatus.whitespace_mismatch else ResultStatus.wrong_output)
      ≡ false
differing-not_accepted true = refl
differing-not_accepted false = refl

compare_output-accepted_iff :
    (stdout expected : String)
    → (is_accepted (compare_output stdout expected) ≡ true)
      ↔ ((expected ≡ "") ⊎ (stdout ≡ expected))
unfolding compare_output
compare_output-accepted_iff stdout expected = elim (Bool-cases (str_eq expected "")) [
  | inl e ↦ rw e (λ h. inl ((eq_iff expected "").0 e), λ h. refl)
  | inr e ↦ elim (Bool-cases (str_eq stdout expected)) [
    | inl f ↦ rw (e, f) (λ h. inr ((eq_iff stdout expected).0 f), λ h. refl)
    | inr f ↦
        rw (e, f)
          (
            λ h. cc (differing-not_accepted (str_eq (trim_space stdout) (trim_space expected)), h),
            λ h. ground (arith, eq_iff expected "", eq_iff stdout expected),
          )
  ]
]

abbrev AcceptedWhen :
    Option ContextError → Option String → String → String → Bool → CpuOutcome → Type 0
AcceptedWhen ctx err stdout expected oom_killed cpu =
    (ctx ≡ none)
    × (err ≡ none)
    × (oom_killed ≡ false)
    × (cpu.killed ≡ false)
    × ((expected ≡ "") ⊎ (stdout ≡ expected))

is_accepted-compute_test_status :
    (ctx : Option ContextError) (err : Option String) (stdout expected : String)
    (ps : Option WaitStatus) (oom_killed : Bool) (cpu : CpuOutcome)
    → (is_accepted (compute_test_status ctx err stdout expected ps oom_killed cpu) ≡ true)
      ↔ AcceptedWhen ctx err stdout expected oom_killed cpu
unfolding compute_test_status
is_accepted-compute_test_status (some canceled) err so ex ps oom cpu = (λ e. cc, λ h. cc (h.0))
is_accepted-compute_test_status none err so ex ps true cpu = (λ e. cc, λ h. cc (h.2))
is_accepted-compute_test_status (some deadline_exceeded) err so ex ps true cpu =
    (λ e. cc, λ h. cc (h.0))
is_accepted-compute_test_status (some deadline_exceeded) err so ex ps false cpu =
    elim (Bool-cases (cpu.killed || (is_error err && is_cpu (signal_kill_reason ps)))) [
      | inl k ↦ rw k (λ e. cc, λ h. cc (h.0))
      | inr k ↦ rw k (λ e. cc, λ h. cc (h.0))
    ]
is_accepted-compute_test_status none none so ex ps false cpu =
    let iff = compare_output-accepted_iff so ex in
    elim (Bool-cases cpu.killed) [
      | inl k ↦ rw k (λ e. cc, λ h. cc (h.3))
      | inr k ↦ rw k (λ e. (refl, refl, refl, refl, iff.0 e), λ h. iff.1 h.4)
    ]
is_accepted-compute_test_status none (some m) so ex ps false cpu =
    let no = of_error-not_accepted m (signal_kill_reason ps) cpu (reason-not_accepted ps) in
    elim (Bool-cases (cpu.killed || is_cpu (signal_kill_reason ps))) [
      | inl k ↦ rw k (λ e. cc, λ h. cc (h.1))
      | inr k ↦ rw k (λ e. cc (no, e), λ h. cc (h.1))
    ]

-- A test is accepted exactly if its run was neither cut short nor failed, and it expects no output or
-- printed just what it expects.
pub compute_test_status-accepted_iff :
    (ctx : Option ContextError) (err : Option String) (stdout expected : String)
    (ps : Option WaitStatus) (oom_killed : Bool) (cpu : CpuOutcome)
    → (compute_test_status ctx err stdout expected ps oom_killed cpu ≡ ResultStatus.accepted) ↔ (
        (ctx ≡ none)
        × (err ≡ none)
        × (oom_killed ≡ false)
        × (cpu.killed ≡ false)
        × ((expected ≡ "") ⊎ (stdout ≡ expected)))
unfolding compute_test_status
compute_test_status-accepted_iff ctx err stdout expected ps oom_killed cpu =
    let status = is_accepted_iff (compute_test_status ctx err stdout expected ps oom_killed cpu) in
    let iff = is_accepted-compute_test_status ctx err stdout expected ps oom_killed cpu in
    (λ e. iff.0 (status.1 e), λ h. status.0 (iff.1 h))
