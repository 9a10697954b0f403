-- ===== src/Tests/Filter.antt =====
-- The system call policy, internal/seccomp/seccomp.go and nsjail's arguments of internal/runner/runner.go,
-- on the embedded policy of internal/seccomp/seccomp.policy.
use goboxd.Base.{
  none, pos, String, Bool, true, false, ◌||◌, List, [], ◌∷◌, Option, some, str_eq, ◌<>◌, ◌≡◌, refl,
  arith, All, Bool-cases, inl, inr, eq_iff, subst, sym, all, ◌&&◌, not,
}
use goboxd.Base.Strings.{
  trim_space, split, is_space, has_prefix, skip, fields_func, fields_from, trim_left, trim_right,
}
use goboxd.Base.Index.{index, last_index, index_where, prefix_of, next_place}
use goboxd.Base.Fields.{free_of}
use goboxd.TempFile.{
  at_path, Calls, at, unset, masked_path, materialized, write_once, make_readable, hosts, resolv,
  nsswitch,
}
use goboxd.Seccomp.{
  Policy, render, parse_syscall_names, combined_with, first_unknown, valid_syscall,
}
use goboxd.Seccomp.Parse.{
  parsed, parse_policy, entries, action_of, finish, parse_block, keep_names, join_lines,
  without_comment,
}
use goboxd.Seccomp.Parse.Entries.{IsWord, breaks}
use goboxd.Seccomp.Parse.Rendered.{IsPolicy, parse_policy-render}
use goboxd.Runner.Single.{ExecLimits}
use goboxd.Runner.Args.{
  HostEnv, CgroupJail, Args, nsjail_args, args, error, seccomp_args, mask_args,
}
use goboxd.Runner.Args.Denied.{Denies, nsjail_args-Denies}
use goboxd.Runner.Args.Masked.{Writes, Uses, Covers, nsjail_args-Covers}

abbrev header : String
header =
    "// goboxd seccomp policy\n// Blocks syscalls that could be used for sandbox escape or kernel tampering.\n// All other syscalls are allowed (DEFAULT ALLOW) so normal code execution works.\n//\n// NOTE: kafel (nsjail's bundled seccomp policy language) is frozen upstream\n// and its amd64 syscall table is missing umount2. SYSCALL[166] is umount2\n// (and umount) on x86_64, which is the only architecture goboxd targets.\n"

-- The file seccomp.policy.
abbrev embedded : String
embedded =
    "// goboxd seccomp policy\n// Blocks syscalls that could be used for sandbox escape or kernel tampering.\n// All other syscalls are allowed (DEFAULT ALLOW) so normal code execution works.\n//\n// NOTE: kafel (nsjail's bundled seccomp policy language) is frozen upstream\n// and its amd64 syscall table is missing umount2. SYSCALL[166] is umount2\n// (and umount) on x86_64, which is the only architecture goboxd targets.\nPOLICY goboxd {\n\tDENY {\n\t\t// Filesystem escape\n\t\tmount,\n\t\tumount,\n\t\tSYSCALL[166],\n\t\tpivot_root,\n\t\tchroot,\n\t\t// Process debugging / injection\n\t\tptrace,\n\t\t// Kernel module tampering\n\t\tcreate_module,\n\t\tinit_module,\n\t\tfinit_module,\n\t\tdelete_module,\n\t\t// Kernel execution tampering\n\t\tkexec_load,\n\t\tkexec_file_load,\n\t\treboot,\n\t\tacct,\n\t\t// System identity tampering\n\t\tsethostname,\n\t\tsetdomainname,\n\t\t// I/O port manipulation\n\t\tioperm,\n\t\tiopl,\n\t\t// Swapping\n\t\tswapon,\n\t\tswapoff,\n\t\t// BPF programming\n\t\tbpf\n\t}\n}\n\nUSE goboxd DEFAULT ALLOW\n"

abbrev global : Policy
global = record {
  names =
      "mount" ∷ "umount" ∷ "SYSCALL[166]" ∷ "pivot_root" ∷ "chroot" ∷ "ptrace" ∷ "create_module"
      ∷ "init_module" ∷ "finit_module" ∷ "delete_module" ∷ "kexec_load" ∷ "kexec_file_load"
      ∷ "reboot" ∷ "acct" ∷ "sethostname" ∷ "setdomainname" ∷ "ioperm" ∷ "iopl" ∷ "swapon"
      ∷ "swapoff" ∷ "bpf" ∷ [];
  header = header;
  name = "goboxd";
  default_action = "ALLOW";
}

embedded_parses : parse_policy embedded ≡ parsed global
unfolding parse_policy index next_place has_prefix index_where prefix_of skip trim_space trim_left
    trim_right is_space parse_block finish entries split keep_names join_lines without_comment
    action_of last_index
embedded_parses = refl

abbrev is_word : String → Bool
is_word n = free_of breaks n && not (str_eq n "")

is_word-IsWord : (n : String) → is_word n ≡ true → IsWord n
is_word-IsWord n h = record {
  whole = ground (arith, h);
  given = λ e. ground (arith, h, (eq_iff n "").1 e);
}

all-IsWord : (ns : List String) → all is_word ns ≡ true → All IsWord ns
all-IsWord [] h = tt
all-IsWord (n ∷ ns) h = (is_word-IsWord n (ground (arith, h)), all-IsWord ns (ground (arith, h)))

global-IsPolicy : IsPolicy global
unfolding index next_place has_prefix last_index free_of is_space
global-IsPolicy = record {
  header = refl;
  name_word = refl;
  named = λ e. cc e;
  deny = refl;
  tail = refl;
  action_word = refl;
  acts = λ e. cc e;
  words = all-IsWord global.names refl;
}

parse_policy-render_example : parse_policy (render global) ≡ parsed global
parse_policy-render_example = parse_policy-render global global-IsPolicy

abbrev knows : String → Bool
knows s = str_eq s "chmod" || str_eq s "mount"

knows-IsWord : (m : String) → knows m ≡ true → IsWord m
unfolding free_of is_space
knows-IsWord m h = elim (Bool-cases (str_eq m "chmod")) [
  | inl e ↦ subst IsWord (sym ((eq_iff m "chmod").0 e)) (is_word-IsWord "chmod" refl)
  | inr e ↦ subst IsWord (sym ((eq_iff m "mount").0 (rw e at h))) (is_word-IsWord "mount" refl)
]

abbrev quoted : String → String
quoted s = "\"" <> s <> "\""

abbrev env : HostEnv
env = record {
  max_cpus = "2";
  path = "";
  policy_path = at_path "/tmp/goboxd-seccomp-1.policy";
  hosts = at_path "/tmp/goboxd-hosts-1.masked";
  resolv = at_path "/tmp/goboxd-resolv-1.masked";
  nsswitch = at_path "/tmp/goboxd-nsswitch-1.masked";
  gocache = true;
  ccache = false;
  ccache_dir = false;
}

abbrev limits : ExecLimits
limits = record { wall_time = pos 10; cpu_limit = pos 5; mem_kb = pos 262144; procs = pos 64 }

abbrev in_cgroup : Option CgroupJail
in_cgroup = some (record { path = "/sys/fs/cgroup/goboxd/goboxd-jail-1"; cpu_active = true })

abbrev own_names : String
own_names = " chmod, mount"

abbrev line_of : Args → List String
line_of (args line) = line
line_of (error e) = []

abbrev line : List String
line =
    line_of (
      nsjail_args quoted knows global env "/tmp/goboxd-jail-1/app" limits 10001 in_cgroup own_names)

line-args :
    nsjail_args quoted knows global env "/tmp/goboxd-jail-1/app" limits 10001 in_cgroup own_names
    ≡ args line
unfolding nsjail_args seccomp_args mask_args parse_syscall_names trim_space trim_left trim_right
    is_space fields_func fields_from combined_with first_unknown valid_syscall
line-args = refl

nsjail_args-Denies_example : Denies global env (parse_syscall_names own_names) line
nsjail_args-Denies_example =
    nsjail_args-Denies quoted knows global env "/tmp/goboxd-jail-1/app" limits 10001 in_cgroup
      own_names line global-IsPolicy knows-IsWord line-args

abbrev good_calls : String → Calls
good_calls path = record { create = at path; write = none; part = ""; close = none; chmod = none }

abbrev writes : Writes
writes = record {
  hosts_calls = good_calls "/tmp/goboxd-hosts-1.masked";
  resolv_calls = good_calls "/tmp/goboxd-resolv-1.masked";
  nsswitch_calls = good_calls "/tmp/goboxd-nsswitch-1.masked";
  hosts_disk = [];
  resolv_disk = [];
  nsswitch_disk = [];
}

env-Uses : Uses env writes
unfolding masked_path materialized write_once make_readable
env-Uses = record { hosts = refl; resolv = refl; nsswitch = refl }

nsjail_args-Covers_example :
    Covers line
      (masked_path hosts writes.hosts_calls unset []).1.1
      (masked_path resolv writes.resolv_calls unset []).1.1
      (masked_path nsswitch writes.nsswitch_calls unset []).1.1
nsjail_args-Covers_example =
    nsjail_args-Covers quoted knows global env "/tmp/goboxd-jail-1/app" limits 10001 in_cgroup
      own_names line writes env-Uses line-args
