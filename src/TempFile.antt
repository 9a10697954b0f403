-- ===== src/TempFile.antt =====
-- Files that the service writes once for the process: `maskedHostsPath`, `maskedResolvPath` and
-- `maskedNsswitchPath` of internal/runner/hosts.go, and `PolicyPath` of internal/seccomp/seccomp.go. The
-- disk is the list of files by their paths; the results of the system calls are given.
pub mod Once
use goboxd.Base.{
  ℕ, String, Bool, true, false, not, List, [], ◌∷◌, Option, none, some, str_eq, ◌<>◌, if◌then◌else◌,
}

pub record File : Type 0 where
  pub content : String
  pub mode : ℕ

abbrev pub Disk : Type 0
Disk = List (String × File)

-- The file at a path.
unfoldable pub read : String → Disk → Option File
read path [] = none
read path ((p, f) ∷ d) = let rest = read path d in if str_eq p path then some f else rest

-- What is written, the words of the errors, and whether the file is made readable for all.
pub record Kind : Type 0 where
  pub content : String
  pub creating : String
  pub writing : String
  pub closing : String
  pub chmod : Option String

abbrev masked : String → String → Kind
masked noun content = record {
  content = content;
  creating = "creating masked " <> noun <> " temp file: ";
  writing = "writing masked " <> noun <> " temp file: ";
  closing = "closing masked " <> noun <> " temp file: ";
  chmod = some ("chmod masked " <> noun <> " temp file: ");
}

abbrev pub hosts : Kind
hosts = masked "hosts" "127.0.0.1 localhost\n::1 localhost\n"

abbrev pub resolv : Kind
resolv = masked "resolv" "# goboxd jail: no DNS (nameservers removed to block exfiltration)\n"

abbrev pub nsswitch : Kind
nsswitch =
    masked "nsswitch"
      "passwd: files\ngroup: files\nshadow: files\ngshadow: files\n\nhosts: files\nnetworks: files\nprotocols: files\nservices: files\nethers: files\nrpc: files\n"

-- The embedded policy.
abbrev pub policy_file : String → Kind
policy_file policy = record {
  content = policy;
  creating = "creating seccomp policy temp file: ";
  writing = "writing seccomp policy: ";
  closing = "closing seccomp policy: ";
  chmod = none;
}

-- The new path or the error of os.CreateTemp, and the errors of the other calls; a write that fails
-- leaves a part.
pub data Created : Type 0 where
  at : String → Created
  refused : String → Created

pub record Calls : Type 0 where
  pub create : Created
  pub write : Option String
  pub part : String
  pub close : Option String
  pub chmod : Option String

abbrev owner_only : ℕ
owner_only = 384  -- 0600

abbrev pub readable : ℕ
readable = 420  -- 0644

-- The path and the error that stay for the process, and the disk.
abbrev pub Written : Type 0
Written = (String × Option String) × Disk

-- `os.Chmod`, where the kind asks for it.
unfoldable pub make_readable : Option String → Option String → String → String → Disk → Written
make_readable none e path content d =
    ((path, none), (path, record { content = content; mode = owner_only }) ∷ d)
make_readable (some message) none path content d =
    ((path, none), (path, record { content = content; mode = readable }) ∷ d)
make_readable (some message) (some e) path content d =
    ((path, some (message <> e)), (path, record { content = content; mode = owner_only }) ∷ d)

-- The function that `once.Do` runs.
unfoldable pub write_once : Kind → Calls → Disk → Written
unfolding make_readable
write_once k c d = elim c.create [
  | refused e ↦ (("", some (k.creating <> e)), d)
  | at path ↦ elim c.write [
    | some e ↦
        ((path, some (k.writing <> e)), (path, record { content = c.part; mode = owner_only }) ∷ d)
    | none ↦ elim c.close [
      | some e ↦ (
        (path, some (k.closing <> e)),
        (path, record { content = k.content; mode = owner_only }) ∷ d,
      )
      | none ↦ make_readable k.chmod c.chmod path k.content d
    ]
  ]
]

-- The variables of one file: not set yet, or the path and the error.
pub data State : Type 0 where
  unset : State
  set : String × Option String → State

-- `maskedHostsPath` and the like: the state, what is returned, and the disk.
unfoldable pub masked_path : Kind → Calls → State → Disk → State × Written
unfolding write_once
masked_path k c (set r) d = (set r, (r, d))
masked_path k c unset d = (set (write_once k c d).0, write_once k c d)

-- What the caller makes of it, the error first.
pub data Materialized : Type 0 where
  at_path : String → Materialized
  failed : String → Materialized

unfoldable pub materialized : String × Option String → Materialized
materialized (path, none) = at_path path
materialized (path, some e) = failed e
