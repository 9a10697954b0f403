-- ===== src/Runner/Jail/Materialize.antt =====
-- What `newJail` of internal/runner/jail.go comes to on each of its branches.
use goboxd.Base.{
  ℕ, String, Bool, true, false, not, ◌∷◌, map, Option, none, some, ◌≡◌, refl, ap, sym, subst, ◌∙◌,
  has, if◌then◌else◌, max_int, ◌+◌, ◌≤◌,
}
use goboxd.UidPool.{Pool, alloc, release}
use goboxd.UidPool.Alloc.{IsValid, alloc-Allocated}
use goboxd.Runner.Jail.{
  Host, Jail, CgroupSetup, inactive, created, failed, Calls, Removals, without_name, release_uid,
  remove_dir, remove_cgroup, teardown, new_cgroup, fill_jail, enter_dir, with_uid, new_jail,
}
use goboxd.Runner.Jail.Release.{
  Works, IsFresh, Restored, HasGroup, HoldsUid, Holds, without_name-fresh, release-HoldsUid,
  remove_dir-first, remove_cgroup-first, release-range, release-next_lt, teardown-Restored,
}

-- What `newJail` may come to: a failure leaves the host as it was, and a jail holds what was taken.
abbrev pub Outcome : Host → Host × Option Jail → Type 0
Outcome h0 (h, none) = Restored h h0
Outcome h0 (h, some j) = Holds j h h0

fill_jail-Outcome :
    (r : Removals) (c : Calls) (j : Jail) (h h0 : Host)
    → Works r
    → Holds j h h0
    → Outcome h0 (fill_jail r c j h)
unfolding fill_jail
fill_jail-Outcome r c j h h0 w p = by_calls c.mkdir_app c.chown_app c.write_source c.chown_source
  where
    back : Restored (teardown r j h).0 h0
    back = teardown-Restored r j h h0 w p

    by_calls :
        (mkdir_app chown_app write_source chown_source : Bool)
        → Outcome h0 (
            if not mkdir_app
            then ((teardown r j h).0, none)
            else if not chown_app
            then ((teardown r j h).0, none)
            else if not write_source
            then ((teardown r j h).0, none)
            else if not chown_source
            then ((teardown r j h).0, none)
            else (h, some j))
    by_calls false a b d = back
    by_calls true false b d = back
    by_calls true true false d = back
    by_calls true true true false = back
    by_calls true true true true = p

new_cgroup-HasGroup :
    (r : Removals) (base : String → String) (dir : String) (c : CgroupSetup) (h : Host)
    → Works r
    → has (base dir) h.cgroups ≡ false
    → HasGroup (new_cgroup r base dir c h).1 (new_cgroup r base dir c h).0.cgroups h.cgroups
      × ((new_cgroup r base dir c h).0.dirs ≡ h.dirs)
      × ((new_cgroup r base dir c h).0.pool ≡ h.pool)
unfolding new_cgroup remove_cgroup without_name
new_cgroup-HasGroup r base dir inactive h w fresh = (refl, refl, refl)
new_cgroup-HasGroup r base dir created h w fresh = ((refl, fresh), refl, refl)
new_cgroup-HasGroup r base dir (failed false) h w fresh =
    (simp (w.remove_cgroup) (without_name-fresh (base dir) h.cgroups fresh), refl, refl)
new_cgroup-HasGroup r base dir (failed true) h w fresh = (
  remove_cgroup-first r (base dir) (record h { cgroups = base dir ∷ h.cgroups }) h.cgroups w refl
      fresh,
  refl,
  refl,
)

enter_dir-Outcome :
    (r : Removals) (base : String → String) (c : Calls) (seccomp : String) (uid : ℕ) (dir : String)
    (h h0 : Host)
    → Works r
    → IsFresh base dir h0
    → HoldsUid uid h.pool h0.pool
    → h.dirs ≡ h0.dirs
    → h.cgroups ≡ h0.cgroups
    → Outcome h0 (enter_dir r base c seccomp uid dir h)
unfolding enter_dir release_uid
enter_dir-Outcome r base c seccomp uid dir h h0 w fresh u ds gs = by_chown c.chown_dir
  where
    no_dir : has dir (map (λ d. d.0) h.dirs) ≡ false
    no_dir = rw ds (fresh.no_dir)

    h1 : Host
    h1 = record h { dirs = (dir, uid) ∷ h.dirs }

    made : Host × Option String
    made = new_cgroup r base dir c.cgroup h1

    group :
        HasGroup made.1 made.0.cgroups h.cgroups × (made.0.dirs ≡ h1.dirs) × (made.0.pool ≡ h.pool)
    group = new_cgroup-HasGroup r base dir c.cgroup h1 w (rw gs (fresh.no_cgroup))

    jail : Jail
    jail = record { dir = dir; uid = uid; cg = made.1; seccomp = seccomp; torn = false }

    by_chown :
        (ok : Bool)
        → Outcome h0 (
            if not ok
            then (remove_dir r dir (release_uid uid (record h { dirs = (dir, 0) ∷ h.dirs })), none)
            else fill_jail r c jail made.0)
    by_chown false =
        let range = release-range uid h.pool in
        record {
          in_use = release-HoldsUid uid h.pool h0.pool u;
          min = range.0 ∙ u.min;
          size = range.1 ∙ u.size;
          next_lt = release-next_lt uid h.pool u.next_lt;
          dirs =
              remove_dir-first r dir 0 (release_uid uid (record h { dirs = (dir, 0) ∷ h.dirs }))
                h.dirs w refl no_dir
              ∙ ds;
          cgroups = gs;
        }
    by_chown true = fill_jail-Outcome r c jail made.0 h0 w record {
      live = refl;
      uid = subst (λ p. HoldsUid uid p h0.pool) (sym group.2) u;
      named = fresh.named;
      dirs = group.1 ∙ ap (λ t. (dir, uid) ∷ t) ds;
      no_dir = fresh.no_dir;
      group = subst (HasGroup made.1 made.0.cgroups) gs group.0;
    }

-- Where the removals work, the range of uids ends within 64 bits, and os.MkdirTemp makes directories that were not there, a failure of
-- `newJail` at any of its steps leaves the uids, the directories and the cgroups as they were, and a
-- success gives a jail that holds one free uid, one new directory with that owner, and its cgroup if
-- it has one, and nothing else has changed.
pub new_jail-Outcome :
    (r : Removals) (base : String → String) (c : Calls) (seccomp : String) (h : Host)
    → Works r
    → IsValid h.pool
    → h.pool.min + h.pool.size ≤ max_int
    → ((dir : String) → c.mkdir_temp ≡ some dir → IsFresh base dir h)
    → Outcome h (new_jail r base c seccomp h)
unfolding new_jail with_uid release_uid
new_jail-Outcome r base c seccomp h w v fits fresh = by_alloc (alloc h.pool) refl
  where
    with_dir :
        (uid : ℕ) (p : Pool) (found : Option String)
        → HoldsUid uid p h.pool
        → c.mkdir_temp ≡ found
        → Outcome h (elim found [
          | none ↦ (record h { pool = release uid p }, none)
          | some dir ↦ enter_dir r base c seccomp uid dir (record h { pool = p })
        ])
    with_dir uid p none u e =
        let range = release-range uid p in
        record {
          in_use = release-HoldsUid uid p h.pool u;
          min = range.0 ∙ u.min;
          size = range.1 ∙ u.size;
          next_lt = release-next_lt uid p u.next_lt;
          dirs = refl;
          cgroups = refl;
        }
    with_dir uid p (some dir) u e =
        enter_dir-Outcome r base c seccomp uid dir (record h { pool = p }) h w (fresh dir e) u refl
          refl

    held_uid : (uid : ℕ) (p : Pool) → alloc h.pool ≡ some (uid, p) → HoldsUid uid p h.pool
    held_uid uid p e =
        let a = (alloc-Allocated h.pool v e).0 in
        record {
          in_use = a.taken;
          free = a.was_free;
          low = rw (a.same_range.0) (a.from_pool.0);
          high = rw (a.same_range.0, a.same_range.1) (a.from_pool.1);
          min = a.same_range.0;
          size = a.same_range.1;
          fits = rw (a.same_range.0, a.same_range.1) fits;
          next_lt = a.next_lt;
        }

    by_alloc :
        (found : Option (ℕ × Pool))
        → alloc h.pool ≡ found
        → Outcome h (elim found [
          | none ↦ (h, none)
          | some (uid, p) ↦ with_uid r base c seccomp uid (record h { pool = p })
        ])
    by_alloc none e = record {
      in_use = refl;
      min = refl;
      size = refl;
      next_lt = v.next_lt;
      dirs = refl;
      cgroups = refl;
    }
    by_alloc (some (uid, p)) e = with_dir uid p c.mkdir_temp (held_uid uid p e) refl
