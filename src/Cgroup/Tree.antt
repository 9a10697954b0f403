-- ===== src/Cgroup/Tree.antt =====
-- `removeJailDir` and `Teardown` of internal/cgroupv2/cgroupv2.go on the cgroup file system, where the
-- kernel removes a directory with its own files, and refuses one that has processes or directories in
-- it (EBUSY).
pub mod Removed
use goboxd.Base.{
  ℕ, zero, suc, ◌<◌, String, Bool, true, false, not, ◌&&◌, ◌||◌, ◌≡◌, refl, ◌↔◌, ap, sym, ◌∙◌,
  arith, if◌then◌else◌, Bool-cases, inl, inr, ◌≤◌, ◌+◌,
}

-- A directory: whether processes are in it, and its directories.
mutual
  pub data Dir : Type 0 where
    dir : Bool → Dirs → Dir

  pub data Dirs : Type 0 where
    nil : Dirs
    cons : String → Dir → Dirs → Dirs

-- What a removal leaves: nothing, or the directory that the kernel refuses to remove.
pub data Removal : Type 0 where
  removed : Removal
  refused : Dir → Removal

-- `os.Remove` of a directory.
unfoldable pub remove : Bool → Dirs → Removal
remove false nil = removed
remove true nil = refused (dir true nil)
remove busy (cons n d ds) = refused (dir busy (cons n d ds))

unfoldable pub keep : String → Removal → Dirs → Dirs
keep n removed ds = ds
keep n (refused d) ds = cons n d ds

-- `removeJailDir`: its directories first, each on its own, then the directory.
unfoldable mutual
  unfolding remove keep

  pub remove_jail_dir : Dir → Removal
  remove_jail_dir (dir busy ds) = remove busy (remove_dirs ds)

  pub remove_dirs : Dirs → Dirs
  remove_dirs nil = nil
  remove_dirs (cons n d ds) = keep n (remove_jail_dir d) (remove_dirs ds)

-- Whether processes are anywhere in the tree.
unfoldable mutual
  pub has_processes : Dir → Bool
  has_processes (dir busy ds) = busy || any_processes ds

  pub any_processes : Dirs → Bool
  any_processes nil = false
  any_processes (cons n d ds) = has_processes d || any_processes ds

abbrev pub is_removed : Removal → Bool
is_removed removed = true
is_removed (refused d) = false

-- `Teardown`: the rounds left, and what happens to the directory during each wait.
unfoldable pub teardown : (Dir → Dir) → ℕ → Dir → Removal
unfolding remove_jail_dir
teardown wait zero d = refused d
teardown wait (suc n) d = elim (remove_jail_dir d) [
  | removed ↦ removed
  | refused d' ↦ teardown wait n (wait d')
]
