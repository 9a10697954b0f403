-- ===== src/Tests/Policy.antt =====
-- The seccomp policy and the versions, internal/seccomp/seccomp.go and internal/buildinfo/buildinfo.go,
-- on small inputs.
use goboxd.Base.{true, ◌≡◌, refl}
use goboxd.Base.{atoi}
use goboxd.Base.Strings.{trim_space}
use goboxd.BuildInfo.{parts, at_least}

tenth_minor : at_least "0.10.0" "0.2.0-beta.1" ≡ true
unfolding at_least parts trim_space atoi
tenth_minor = refl

second_minor : at_least "0.2.0-beta.1" "0.2" ≡ true
unfolding at_least parts trim_space atoi
second_minor = refl
