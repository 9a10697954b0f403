-- ===== src/Runner/Args/Masked.antt =====
-- The files of /etc in a jail: `nsjailArgs` (internal/runner/runner.go) binds those of
-- internal/runner/hosts.go over the host's.
use goboxd.Base.{
  append_assoc, ℕ, String, Bool, List, [], ◌∷◌, ◌++◌, Option, some, ◌<>◌, ◌≡◌, refl, ap, ◌∙◌, sym,
}
use goboxd.Seccomp.{Policy, parse_syscall_names}
use goboxd.TempFile.{
  Disk, read, Calls, unset, masked_path, hosts, resolv, nsswitch, readable, Materialized, at_path,
  failed, materialized,
}
use goboxd.TempFile.Once.{masked_path-read}
use goboxd.Runner.Single.{ExecLimits}
use goboxd.Runner.Args.{
  HostEnv, CgroupJail, Args, args, error, seccomp_args, mask_args, before_policy, head_args,
  late_args, nsjail_args,
}

-- The arguments that bind /etc, and then three files over it, in this order.
abbrev pub masked_etc : String → String → String → List String
masked_etc h r n =
    "-B"
    ∷ "/etc"
    ∷ "-R"
    ∷ (h <> ":/etc/hosts")
    ∷ "-R"
    ∷ (r <> ":/etc/resolv.conf")
    ∷ "-R"
    ∷ (n <> ":/etc/nsswitch.conf")
    ∷ []

-- Where the binds stand in a line, and the paths of what is bound.
record Binds (env : HostEnv) (line : List String) : Type 0 where
  pub hosts_path : String
  pub resolv_path : String
  pub nsswitch_path : String
  pub before : List String
  pub after : List String
  pub hosts_at : env.hosts ≡ at_path hosts_path
  pub resolv_at : env.resolv ≡ at_path resolv_path
  pub nsswitch_at : env.nsswitch ≡ at_path nsswitch_path
  pub bound : line ≡ before ++ masked_etc hosts_path resolv_path nsswitch_path ++ after

args-inj : {xs ys : List String} → args xs ≡ args ys → ys ≡ xs
args-inj e = cc e

-- What the masks are, if there are any.
mask_args-Binds :
    (env : HostEnv) (masks : List String) → mask_args env ≡ args masks → Binds env masks
unfolding mask_args
mask_args-Binds env masks e = by_hosts env.hosts refl
  where
    by_all :
        (h r n : String)
        → env.hosts ≡ at_path h
        → env.resolv ≡ at_path r
        → env.nsswitch ≡ at_path n
        → Binds env masks
    by_all h r n eh er en =
        let same = args-inj (rw (mask_args, eh, er, en) at e) in
        record {
          hosts_path = h;
          resolv_path = r;
          nsswitch_path = n;
          hosts_at = eh;
          resolv_at = er;
          nsswitch_at = en;
          before = [];
          after = [];
          bound = same;
        }

    by_nsswitch :
        (h r : String)
        → env.hosts ≡ at_path h
        → env.resolv ≡ at_path r
        → (m : Materialized) → env.nsswitch ≡ m
        → Binds env masks
    by_nsswitch h r eh er (failed x) en = let wrong = rw (mask_args, eh, er, en) at e in cc wrong
    by_nsswitch h r eh er (at_path n) en = by_all h r n eh er en

    by_resolv :
        (h : String) → env.hosts ≡ at_path h → (m : Materialized) → env.resolv ≡ m → Binds env masks
    by_resolv h eh (failed x) er = let wrong = rw (mask_args, eh, er) at e in cc wrong
    by_resolv h eh (at_path r) er = by_nsswitch h r eh er env.nsswitch refl

    by_hosts : (m : Materialized) → env.hosts ≡ m → Binds env masks
    by_hosts (failed x) eh = let wrong = rw (mask_args, eh) at e in cc wrong
    by_hosts (at_path h) eh = by_resolv h eh env.resolv refl

nsjail_args-Binds :
    (quote : String → String) (known : String → Bool) (global : Policy) (env : HostEnv)
    (app_dir : String) (lim : ExecLimits) (uid : ℕ) (cg : Option CgroupJail) (own : String)
    (line : List String)
    → nsjail_args quote known global env app_dir lim uid cg own ≡ args line
    → Binds env line
unfolding nsjail_args
nsjail_args-Binds quote known global env app_dir lim uid cg own line e =
    by_policy (seccomp_args quote known global env.policy_path (parse_syscall_names own)) refl
  where
    bound :
        (policy masks : List String)
        → line ≡ before_policy env app_dir lim uid cg masks ++ policy ++ "--" ∷ []
        → Binds env masks
        → Binds env line
    bound policy masks l b = record {
      hosts_path = b.hosts_path;
      resolv_path = b.resolv_path;
      nsswitch_path = b.nsswitch_path;
      before = head_args env app_dir lim uid cg ++ b.before;
      after = b.after ++ (late_args env uid ++ (policy ++ "--" ∷ []));
      hosts_at = b.hosts_at;
      resolv_at = b.resolv_at;
      nsswitch_at = b.nsswitch_at;
      bound =
          l
          ∙ append_assoc (before_policy env app_dir lim uid cg masks) policy ("--" ∷ [])
          ∙ append_assoc (head_args env app_dir lim uid cg ++ masks) (late_args env uid)
              (policy ++ "--" ∷ [])
          ∙ placed (head_args env app_dir lim uid cg) b.before
              (masked_etc b.hosts_path b.resolv_path b.nsswitch_path) b.after
              (late_args env uid ++ (policy ++ "--" ∷ [])) b.bound;
    }
      where
        placed :
            (xs ys zs us vs : List String)
            → masks ≡ ys ++ zs ++ us
            → xs ++ masks ++ vs ≡ (xs ++ ys) ++ zs ++ (us ++ vs)
        placed xs ys zs us vs e =
            ap (λ m. xs ++ m ++ vs) e
            ∙ rw
                (
                  append_assoc ys zs us,
                  append_assoc xs (ys ++ (zs ++ us)) vs,
                  append_assoc ys (zs ++ us) vs,
                  append_assoc zs us vs,
                  append_assoc (xs ++ ys) zs (us ++ vs),
                  append_assoc xs ys (zs ++ (us ++ vs)),
                )
                refl

    by_masks :
        (policy : List String)
        → seccomp_args quote known global env.policy_path (parse_syscall_names own) ≡ args policy
        → (m : Args) → mask_args env ≡ m
        → Binds env line
    by_masks policy s (error x) m = let wrong = rw (nsjail_args, s, m) at e in cc wrong
    by_masks policy s (args masks) m =
        bound policy masks (args-inj (rw (nsjail_args, s, m) at e)) (mask_args-Binds env masks m)

    by_policy :
        (r : Args)
        → seccomp_args quote known global env.policy_path (parse_syscall_names own) ≡ r
        → Binds env line
    by_policy (error x) s = let wrong = rw (nsjail_args, s) at e in cc wrong
    by_policy (args policy) s = by_masks policy s (mask_args env) refl

-- What the calls give that write the three files, with the disks before them.
pub record Writes : Type 0 where
  pub hosts_calls : Calls
  pub resolv_calls : Calls
  pub nsswitch_calls : Calls
  pub hosts_disk : Disk
  pub resolv_disk : Disk
  pub nsswitch_disk : Disk

-- An environment whose masks are what the first calls of the three functions give.
pub record Uses (env : HostEnv) (w : Writes) : Type 0 where
  pub hosts : env.hosts ≡ materialized (masked_path hosts w.hosts_calls unset w.hosts_disk).1.0
  pub resolv : env.resolv ≡ materialized (masked_path resolv w.resolv_calls unset w.resolv_disk).1.0
  pub nsswitch :
      env.nsswitch ≡ materialized (masked_path nsswitch w.nsswitch_calls unset w.nsswitch_disk).1.0

-- A file has been written whole, and can be read by all.
abbrev pub IsWhole : String → String → Disk → Type 0
IsWhole path content d = read path d ≡ some (record { content = content; mode = readable })

-- A line binds /etc, and directly after it the three files over it, each of which is whole on its disk.
abbrev pub Covers : List String → Disk → Disk → Disk → Type 0
Covers line hosts_disk resolv_disk nsswitch_disk =
    (before : List String) × (after : List String) × (h : String) × (r : String) × (n : String)
    × (line ≡ before ++ masked_etc h r n ++ after)
    × IsWhole h "127.0.0.1 localhost\n::1 localhost\n" hosts_disk
    × IsWhole r "# goboxd jail: no DNS (nameservers removed to block exfiltration)\n" resolv_disk
    × IsWhole n
        "passwd: files\ngroup: files\nshadow: files\ngshadow: files\n\nhosts: files\nnetworks: files\nprotocols: files\nservices: files\nethers: files\nrpc: files\n"
        nsswitch_disk

-- No command line is made unless the three files have been written: each line binds the host's /etc,
-- and directly after it, in that order, these files over /etc/hosts, /etc/resolv.conf and
-- /etc/nsswitch.conf, each with its whole content, which names only localhost, no name server, and no
-- source of hosts but the files.
pub nsjail_args-Covers :
    (quote : String → String) (known : String → Bool) (global : Policy) (env : HostEnv)
    (app_dir : String) (lim : ExecLimits) (uid : ℕ) (cg : Option CgroupJail) (own : String)
    (line : List String) (w : Writes)
    → Uses env w
    → nsjail_args quote known global env app_dir lim uid cg own ≡ args line
    → Covers line
        (masked_path hosts w.hosts_calls unset w.hosts_disk).1.1
        (masked_path resolv w.resolv_calls unset w.resolv_disk).1.1
        (masked_path nsswitch w.nsswitch_calls unset w.nsswitch_disk).1.1
nsjail_args-Covers quote known global env app_dir lim uid cg own line w u e =
    let b = nsjail_args-Binds quote known global env app_dir lim uid cg own line e in
    (
      b.before,
      b.after,
      b.hosts_path,
      b.resolv_path,
      b.nsswitch_path,
      b.bound,
      (masked_path-read hosts w.hosts_calls w.hosts_calls w.hosts_disk _ b.hosts_path refl
          (sym u.hosts ∙ b.hosts_at)).0,
      (masked_path-read resolv w.resolv_calls w.resolv_calls w.resolv_disk _ b.resolv_path refl
          (sym u.resolv ∙ b.resolv_at)).0,
      (masked_path-read nsswitch w.nsswitch_calls w.nsswitch_calls w.nsswitch_disk _ b.nsswitch_path
          refl (sym u.nsswitch ∙ b.nsswitch_at)).0,
    )
