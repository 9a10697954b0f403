-- ===== src/Runner/Args/Denied.antt =====
-- The command line of `nsjailArgs` (internal/runner/runner.go) carries one system call policy, which
-- denies what the global one denies.
use goboxd.Base.{ℕ, String, Bool, true, ◌||◌, List, [], ◌∷◌, ◌++◌, Option, has, ◌≡◌, refl, ap, ◌∙◌}
use goboxd.Seccomp.{
  Policy, Combined, combined, unknown_syscall, parse_syscall_names, combined_with, merge_names,
}
use goboxd.Seccomp.Additive.{has-merge_names, asked_for}
use goboxd.Seccomp.Parse.{parsed, parse_policy}
use goboxd.Seccomp.Parse.Entries.{IsWord}
use goboxd.Seccomp.Parse.Rendered.{IsPolicy}
use goboxd.Seccomp.Parse.Merged.{combined_with-parsed}
use goboxd.TempFile.{Materialized, at_path, failed}
use goboxd.Runner.Single.{ExecLimits}
use goboxd.Runner.Args.{
  Args, args, error, HostEnv, CgroupJail, seccomp_args, mask_args, nsjail_args, before_policy,
}

-- The policy that goes with the arguments: where no names are asked for the file of the global one, and
-- else a text that is read as a policy with the global default action, which denies the global names
-- and those asked for.
pub data Denies (global : Policy) (env : HostEnv) (extras : List String) (line : List String)
    : Type 0 where
  by_file :
      (before : List String) (path : String)
      → extras ≡ []
      → env.policy_path ≡ at_path path
      → line ≡ before ++ ("--seccomp_policy" ∷ path ∷ []) ++ "--" ∷ []
      → Denies global env extras line
  by_text :
      (before : List String) (text : String) (q : Policy)
      → line ≡ before ++ ("--seccomp_string" ∷ text ∷ []) ++ "--" ∷ []
      → parse_policy text ≡ parsed q
      → q.default_action ≡ global.default_action
      → ((n : String) → has n q.names ≡ (has n global.names || asked_for n extras))
      → Denies global env extras line

-- The two forms of the policy's arguments.
data PolicyArgs (known : String → Bool) (global : Policy) (file : Materialized)
    (extras : List String) (policy : List String) : Type 0 where
  global_file :
      (path : String)
      → extras ≡ []
      → file ≡ at_path path
      → policy ≡ "--seccomp_policy" ∷ path ∷ []
      → PolicyArgs known global file extras policy
  inline :
      (text : String)
      → combined_with known global extras ≡ combined text
      → policy ≡ "--seccomp_string" ∷ text ∷ []
      → PolicyArgs known global file extras policy

args-inj : {xs ys : List String} → args xs ≡ args ys → ys ≡ xs
args-inj e = cc e

seccomp_args-inv :
    (quote : String → String) (known : String → Bool) (global : Policy) (file : Materialized)
    (extras policy : List String)
    → seccomp_args quote known global file extras ≡ args policy
    → PolicyArgs known global file extras policy
unfolding seccomp_args
seccomp_args-inv quote known global (at_path p) [] policy e = global_file p refl refl (args-inj e)
seccomp_args-inv quote known global (failed m) [] policy e = cc e
seccomp_args-inv quote known global file (x ∷ xs) policy e =
    by_result (combined_with known global (x ∷ xs)) refl
  where
    by_result :
        (r : Combined)
        → combined_with known global (x ∷ xs) ≡ r
        → PolicyArgs known global file (x ∷ xs) policy
    by_result (combined text) r = inline text r (args-inj (rw (seccomp_args, r) at e))
    by_result (unknown_syscall n) r = let wrong = rw (seccomp_args, r) at e in cc wrong

-- Every command line carries its policy just before its end: the file of the global one only where the
-- language asks for no names, and else a text that reads as a policy with the global default action
-- and denies exactly the global names and those that the language asks for. The global policy is one that is read back from its own text, and the known
-- names are words.
pub nsjail_args-Denies :
    (quote : String → String) (known : String → Bool) (global : Policy) (env : HostEnv)
    (app_dir : String) (lim : ExecLimits) (uid : ℕ) (cg : Option CgroupJail) (own : String)
    (line : List String)
    → IsPolicy global
    → ((m : String) → known m ≡ true → IsWord m)
    → nsjail_args quote known global env app_dir lim uid cg own ≡ args line
    → Denies global env (parse_syscall_names own) line
unfolding nsjail_args
nsjail_args-Denies quote known global env app_dir lim uid cg own line h words e =
    by_policy (seccomp_args quote known global env.policy_path (parse_syscall_names own)) refl
  where
    extras : List String
    extras = parse_syscall_names own

    denies :
        (before policy : List String)
        → line ≡ before ++ policy ++ "--" ∷ []
        → PolicyArgs known global env.policy_path extras policy
        → Denies global env extras line
    denies before policy l (global_file path bare file p) =
        by_file before path bare file (l ∙ ap (λ q. before ++ q ++ "--" ∷ []) p)
    denies before policy l (inline text merged p) =
        let q : Policy = record global { names = merge_names global.names extras } in
        by_text before text q (l ∙ ap (λ q. before ++ q ++ "--" ∷ []) p)
          (combined_with-parsed known global extras text h words merged) refl
          (λ n. has-merge_names n global.names extras)

    by_masks :
        (policy : List String)
        → seccomp_args quote known global env.policy_path extras ≡ args policy
        → (m : Args) → mask_args env ≡ m
        → Denies global env extras line
    by_masks policy s (error x) m = let wrong = rw (nsjail_args, s, m) at e in cc wrong
    by_masks policy s (args masks) m =
        denies (before_policy env app_dir lim uid cg masks) policy
          (args-inj (rw (nsjail_args, s, m) at e))
          (seccomp_args-inv quote known global env.policy_path extras policy s)

    by_policy :
        (r : Args)
        → seccomp_args quote known global env.policy_path extras ≡ r
        → Denies global env extras line
    by_policy (error x) s = let wrong = rw (nsjail_args, s) at e in cc wrong
    by_policy (args policy) s = by_masks policy s (mask_args env) refl
