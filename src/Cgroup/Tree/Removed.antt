-- ===== src/Cgroup/Tree/Removed.antt =====
-- Which directories of jails are removed (internal/cgroupv2/cgroupv2.go).
use goboxd.Base.{ℕ, zero, suc, ◌<◌, String, Bool, true, false, ◌&&◌, ◌≡◌, refl, not, arith}
use goboxd.Cgroup.Tree.{
  Dir, dir, Dirs, nil, cons, Removal, removed, refused, is_removed, remove, keep, remove_jail_dir,
  remove_dirs, has_processes, any_processes, teardown,
}

abbrev is_nil : Dirs → Bool
is_nil nil = true
is_nil (cons n d ds) = false

is_removed-remove :
    (busy : Bool) (ds : Dirs) → is_removed (remove busy ds) ≡ (not busy && is_nil ds)
unfolding remove
is_removed-remove false nil = refl
is_removed-remove true nil = refl
is_removed-remove true (cons n d ds) = refl
is_removed-remove false (cons n d ds) = refl

is_nil-keep :
    (n : String) (r : Removal) (ds : Dirs) → is_nil (keep n r ds) ≡ (is_removed r && is_nil ds)
unfolding keep
is_nil-keep n removed ds = refl
is_nil-keep n (refused d) ds = refl

mutual
  unfolding remove_jail_dir has_processes

  tree-removed : (d : Dir) → is_removed (remove_jail_dir d) ≡ not (has_processes d)
  tree-removed (dir busy ds) =
      ground (arith, is_removed-remove busy (remove_dirs ds), dirs-removed ds)

  dirs-removed : (ds : Dirs) → is_nil (remove_dirs ds) ≡ not (any_processes ds)
  dirs-removed nil = refl
  dirs-removed (cons n d ds) =
      ground
        (arith, is_nil-keep n (remove_jail_dir d) (remove_dirs ds), tree-removed d, dirs-removed ds)

-- The directory of a jail is removed with everything under it, however deep, exactly if no process is
-- in it or in a directory under it.
pub remove_jail_dir_iff : (d : Dir) → is_removed (remove_jail_dir d) ≡ not (has_processes d)
remove_jail_dir_iff d = tree-removed d

-- `Teardown` leaves no directory, where its rounds are more than a measure that goes down whenever a
-- round is refused and its wait is over.
pub teardown-removed :
    (wait : Dir → Dir) (left : Dir → ℕ) (n : ℕ) (d : Dir)
    → ((t t' : Dir) → remove_jail_dir t ≡ refused t' → left (wait t') < left t)
    → left d < n
    → teardown wait n d ≡ removed
unfolding teardown
teardown-removed wait left zero d down h = absurd (omega arith)
teardown-removed wait left (suc n) d down h =
    by_round (remove_jail_dir d) refl (λ t. teardown-removed wait left n (wait t) down)
  where
    by_round :
        (r : Removal)
        → remove_jail_dir d ≡ r
        → ((t : Dir) → left (wait t) < n → teardown wait n (wait t) ≡ removed)
        → teardown wait (suc n) d ≡ removed
    by_round removed e later = rw (teardown, e) refl
    by_round (refused t) e later =
        let less = down d t e in rw (teardown, e) (later t (omega (arith, less, h)))
