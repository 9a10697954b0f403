-- ===== src/Api/Status.antt =====
-- `computeTopLevelStatus` of internal/api/handlers.go: the status of a run from those of its parts.
-- The text outside the closed set that `other` holds is none of the set's members.
use goboxd.Base.{
  Bool, true, false, List, [], ◌∷◌, ◌≡◌, ◌↔◌, refl, if◌then◌else◌, All, ◌⊎◌, Bool-cases, inl, inr,
}
use goboxd.Models.{
  ResultStatus, BuildStatus, result_valid, is_accepted, is_accepted_iff, BuildResult, TestResult,
}

-- `s == models.ResultInternalError`
abbrev pub is_internal_error : ResultStatus → Bool
is_internal_error ResultStatus.internal_error = true
is_internal_error _ = false

-- The first loop over the tests.
pub any_internal : List TestResult → Bool
any_internal [] = false
any_internal (t ∷ ts) =
    let rest = any_internal ts in if is_internal_error t.status then true else rest

-- The second loop over the tests.
pub first_failure : List TestResult → ResultStatus
unfolding result_valid
first_failure [] = ResultStatus.accepted
first_failure (t ∷ ts) =
    let rest = first_failure ts in
    if is_accepted t.status
    then rest
    else if result_valid t.status
    then t.status
    else ResultStatus.not_executed

pub of_tests : List TestResult → ResultStatus
of_tests ts = if any_internal ts then ResultStatus.internal_error else first_failure ts

-- The tests on the build's status, before the tests' own.
pub status_of_build : BuildStatus → List TestResult → ResultStatus
status_of_build BuildStatus.internal_error tests = ResultStatus.internal_error
status_of_build BuildStatus.ok tests = of_tests tests
status_of_build _ tests = ResultStatus.build_failed

-- `computeTopLevelStatus`
unfoldable pub compute_top_level_status : BuildResult → List TestResult → ResultStatus
unfolding status_of_build of_tests
compute_top_level_status build tests = status_of_build build.status tests

-- The choice that a round of the second loop makes, on the test's status and the later result.
choice : ResultStatus → ResultStatus → ResultStatus
choice s r = if is_accepted s then r else if result_valid s then s else ResultStatus.not_executed

choice-IsValid : (s r : ResultStatus) → result_valid r ≡ true → result_valid (choice s r) ≡ true
unfolding choice result_valid
choice-IsValid s r h = elim (Bool-cases (is_accepted s)) [
  | inl a ↦ rw a h
  | inr a ↦ elim (Bool-cases (result_valid s)) [ inl v ↦ rw (a, v) v | inr v ↦ rw (a, v) refl ]
]

choice-accepted_iff :
    (s r : ResultStatus)
    → (choice s r ≡ ResultStatus.accepted)
      ↔ ((s ≡ ResultStatus.accepted) × (r ≡ ResultStatus.accepted))
unfolding choice
choice-accepted_iff s r = elim (Bool-cases (is_accepted s)) [
  | inl a ↦ rw a (λ e. ((is_accepted_iff s).0 a, e), λ h. h.1)
  | inr a ↦ elim (Bool-cases (result_valid s)) [
    | inl v ↦
        rw (a, v) (λ e. cc (a, (is_accepted_iff s).1 e), λ h. cc (a, (is_accepted_iff s).1 (h.0)))
    | inr v ↦ rw (a, v) (λ e. cc, λ h. cc (a, (is_accepted_iff s).1 (h.0)))
  ]
]

failure-IsValid : (ts : List TestResult) → result_valid (first_failure ts) ≡ true
unfolding first_failure choice
failure-IsValid [] = refl
failure-IsValid (t ∷ ts) = choice-IsValid t.status (first_failure ts) (failure-IsValid ts)

first_failure-accepted_iff :
    (ts : List TestResult)
    → (first_failure ts ≡ ResultStatus.accepted) ↔ All (λ t. t.status ≡ ResultStatus.accepted) ts
unfolding first_failure choice
first_failure-accepted_iff [] = (λ e. tt, λ h. refl)
first_failure-accepted_iff (t ∷ ts) =
    let head = choice-accepted_iff t.status (first_failure ts) in
    let ih = first_failure-accepted_iff ts in
    (λ e. ((head.0 e).0, ih.0 (head.0 e).1), λ h. head.1 (h.0, ih.1 h.1))

accepted-no_internal :
    (ts : List TestResult)
    → All (λ t. t.status ≡ ResultStatus.accepted) ts
    → any_internal ts ≡ false
unfolding any_internal
accepted-no_internal [] h = refl
accepted-no_internal (t ∷ ts) h = rw (h.0) (accepted-no_internal ts h.1)

of_tests-accepted_iff :
    (ts : List TestResult)
    → (of_tests ts ≡ ResultStatus.accepted) ↔ All (λ t. t.status ≡ ResultStatus.accepted) ts
unfolding of_tests
of_tests-accepted_iff ts = (
  to (Bool-cases (any_internal ts)),
  λ h. rw (accepted-no_internal ts h) ((first_failure-accepted_iff ts).1 h),
)
  where
    to :
        (any_internal ts ≡ true) ⊎ (any_internal ts ≡ false)
        → of_tests ts ≡ ResultStatus.accepted
        → All (λ t. t.status ≡ ResultStatus.accepted) ts
    to (inl i) e = cc (rw i at e)
    to (inr i) e = (first_failure-accepted_iff ts).0 (rw i at e)

-- The top-level status is always one of the closed set.
pub compute_top_level_status-IsValid :
    (build : BuildResult) (tests : List TestResult)
    → result_valid (compute_top_level_status build tests) ≡ true
unfolding compute_top_level_status result_valid
compute_top_level_status-IsValid build tests = by_build build.status
  where
    of_tests-IsValid : result_valid (of_tests tests) ≡ true
    of_tests-IsValid = elim (Bool-cases (any_internal tests)) [
      | inl i ↦ rw (i, of_tests) refl
      | inr i ↦ rw (i, of_tests) (failure-IsValid tests)
    ]

    by_build : (s : BuildStatus) → result_valid (status_of_build s tests) ≡ true
    by_build BuildStatus.ok = of_tests-IsValid
    by_build BuildStatus.failed = refl
    by_build BuildStatus.internal_error = refl
    by_build BuildStatus.unset = refl
    by_build (BuildStatus.other s) = refl

-- A run is accepted exactly if its build is ok and every test is accepted.
pub compute_top_level_status-accepted_iff :
    (build : BuildResult) (tests : List TestResult)
    → (compute_top_level_status build tests ≡ ResultStatus.accepted)
      ↔ ((build.status ≡ BuildStatus.ok) × All (λ t. t.status ≡ ResultStatus.accepted) tests)
unfolding compute_top_level_status
compute_top_level_status-accepted_iff build tests = by_build build.status
  where
    by_build :
        (s : BuildStatus)
        → (status_of_build s tests ≡ ResultStatus.accepted)
          ↔ ((s ≡ BuildStatus.ok) × All (λ t. t.status ≡ ResultStatus.accepted) tests)
    by_build BuildStatus.ok =
        (λ e. (refl, (of_tests-accepted_iff tests).0 e), λ h. (of_tests-accepted_iff tests).1 h.1)
    by_build BuildStatus.failed = (λ e. cc, λ h. cc (h.0))
    by_build BuildStatus.internal_error = (λ e. cc, λ h. cc (h.0))
    by_build BuildStatus.unset = (λ e. cc, λ h. cc (h.0))
    by_build (BuildStatus.other s) = (λ e. cc, λ h. cc (h.0))
