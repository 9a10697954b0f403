-- ===== src/Runner/Jail/Release.antt =====
-- What a jail of internal/runner/jail.go holds of the host, and that it is all given back.
use goboxd.Base.{
  ℕ, ◌+◌, ◌≤◌, ◌<◌, String, true, false, ◌||◌, List, [], ◌∷◌, map, Option, none, some, ◌≡◌, refl,
  ap, sym, subst, ◌∙◌, inl, inr, str_eq, has, ltb, ◌==◌, eq_iff, arith, Bool-cases, leb_ℤ, pos,
  wrap_int64, wrap_int64-pos, max_int,
}
use goboxd.UidPool.{Pool, release, delete, held}
use goboxd.Runner.Jail.{
  Host, Jail, Removals, without_dir, without_name, release_uid, remove_dir, remove_cgroup,
  teardown_cgroup, teardown_files, teardown,
}

pub record Works (r : Removals) : Type 0 where
  pub remove_all : r.remove_all ≡ true
  pub remove_cgroup : r.remove_cgroup ≡ true

-- os.MkdirTemp makes a directory that was not there, and its last name is no cgroup's.
pub record IsFresh (base : String → String) (dir : String) (h : Host) : Type 0 where
  pub named : str_eq dir "" ≡ false
  pub no_dir : has dir (map (λ d. d.0) h.dirs) ≡ false
  pub no_cgroup : has (base dir) h.cgroups ≡ false

-- The first host has what the second has, and the same range of uids.
pub record Restored (h h0 : Host) : Type 0 where
  pub in_use : h.pool.in_use ≡ h0.pool.in_use
  pub min : h.pool.min ≡ h0.pool.min
  pub size : h.pool.size ≡ h0.pool.size
  pub next_lt : h.pool.next < h.pool.size
  pub dirs : h.dirs ≡ h0.dirs
  pub cgroups : h.cgroups ≡ h0.cgroups

-- The first list of cgroups has that of the jail besides those of the second.
abbrev pub HasGroup : Option String → List String → List String → Type 0
HasGroup none gs gs0 = gs ≡ gs0
HasGroup (some g) gs gs0 = (gs ≡ g ∷ gs0) × (has g gs0 ≡ false)

-- The uid was free in the second pool, and is the one that is in use besides in the first.
pub record HoldsUid (uid : ℕ) (p p0 : Pool) : Type 0 where
  pub in_use : p.in_use ≡ uid ∷ p0.in_use
  pub free : held uid p0.in_use ≡ false
  pub low : p.min ≤ uid
  pub high : uid < p.min + p.size
  pub min : p.min ≡ p0.min
  pub size : p.size ≡ p0.size
  pub fits : p.min + p.size ≤ max_int
  pub next_lt : p.next < p.size

-- The first host is the second with what the jail holds: its uid, its directory and its cgroup.
pub record Holds (j : Jail) (h h0 : Host) : Type 0 where
  pub live : j.torn ≡ false
  pub uid : HoldsUid j.uid h.pool h0.pool
  pub named : str_eq j.dir "" ≡ false
  pub dirs : h.dirs ≡ (j.dir, j.uid) ∷ h0.dirs
  pub no_dir : has j.dir (map (λ d. d.0) h0.dirs) ≡ false
  pub group : HasGroup j.cg h.cgroups h0.cgroups

pub delete-fresh : (uid : ℕ) (us : List ℕ) → held uid us ≡ false → delete uid us ≡ us
unfolding delete held
delete-fresh uid [] h = refl
delete-fresh uid (u ∷ us) h = elim (Bool-cases (u == uid)) [
  | inl e ↦ cc (rw e at h)
  | inr e ↦ rw (e, delete-fresh uid us (rw e at h)) refl
]

without_dir-fresh :
    (dir : String) (ds : List (String × ℕ))
    → has dir (map (λ d. d.0) ds) ≡ false
    → without_dir dir ds ≡ ds
unfolding without_dir
without_dir-fresh dir [] h = refl
without_dir-fresh dir ((d, owner) ∷ ds) h = elim (Bool-cases (str_eq d dir)) [
  | inl e ↦ cc (rw e at h)
  | inr e ↦ rw (e, without_dir-fresh dir ds (rw e at h)) refl
]

pub without_name-fresh : (n : String) (ms : List String) → has n ms ≡ false → without_name n ms ≡ ms
unfolding without_name
without_name-fresh n [] h = refl
without_name-fresh n (m ∷ ms) h = elim (Bool-cases (str_eq m n)) [
  | inl e ↦ cc (rw e at h)
  | inr e ↦ rw (e, without_name-fresh n ms (rw e at h)) refl
]

str_eq_self : (s : String) → str_eq s s ≡ true
str_eq_self s = ground (arith, eq_iff s s)

-- The uid goes back to the pool.
pub release-HoldsUid :
    (uid : ℕ) (p p0 : Pool) → HoldsUid uid p p0 → (release uid p).in_use ≡ p0.in_use
unfolding release delete
release-HoldsUid uid p p0 u =
    let low : ltb uid p.min ≡ false = ground (arith, u.low) in
    let high : leb_ℤ (wrap_int64 (pos (p.min + p.size))) (pos uid) ≡ false =
      rw (wrap_int64-pos (p.min + p.size) u.fits) (ground (arith, u.high)) in
    let same : uid == uid ≡ true = ground arith in
    rw (low, high, u.in_use, same) (delete-fresh uid p0.in_use u.free)

pub remove_dir-first :
    (r : Removals) (dir : String) (owner : ℕ) (h : Host) (ds : List (String × ℕ))
    → Works r
    → h.dirs ≡ (dir, owner) ∷ ds
    → has dir (map (λ d. d.0) ds) ≡ false
    → (remove_dir r dir h).dirs ≡ ds
unfolding remove_dir without_dir
remove_dir-first r dir owner h ds w e fresh =
    simp (w.remove_all, e, str_eq_self dir) (without_dir-fresh dir ds fresh)

pub remove_cgroup-first :
    (r : Removals) (g : String) (h : Host) (gs : List String)
    → Works r
    → h.cgroups ≡ g ∷ gs
    → has g gs ≡ false
    → (remove_cgroup r g h).cgroups ≡ gs
unfolding remove_cgroup without_name
remove_cgroup-first r g h gs w e fresh =
    simp (w.remove_cgroup, e, str_eq_self g) (without_name-fresh g gs fresh)

teardown_cgroup-HasGroup :
    (r : Removals) (cg : Option String) (h : Host) (gs : List String)
    → Works r
    → HasGroup cg h.cgroups gs
    → (teardown_cgroup r cg h).cgroups ≡ gs
unfolding teardown_cgroup
teardown_cgroup-HasGroup r none h gs w g = g
teardown_cgroup-HasGroup r (some n) h gs w g = remove_cgroup-first r n h gs w g.0 g.1

-- The removal of a cgroup leaves the rest of the host.
pub teardown_cgroup-rest :
    (r : Removals) (cg : Option String) (h : Host)
    → ((teardown_cgroup r cg h).dirs ≡ h.dirs) × ((teardown_cgroup r cg h).pool ≡ h.pool)
unfolding teardown_cgroup remove_cgroup
teardown_cgroup-rest r none h = (refl, refl)
teardown_cgroup-rest r (some n) h = (refl, refl)

pub remove_dir-rest :
    (r : Removals) (dir : String) (h : Host)
    → ((remove_dir r dir h).cgroups ≡ h.cgroups) × ((remove_dir r dir h).pool ≡ h.pool)
unfolding remove_dir
remove_dir-rest r dir h = (refl, refl)

pub release-range :
    (uid : ℕ) (p : Pool) → ((release uid p).min ≡ p.min) × ((release uid p).size ≡ p.size)
unfolding release
release-range uid p =
    elim (Bool-cases (ltb uid p.min || leb_ℤ (wrap_int64 (pos (p.min + p.size))) (pos uid))) [
      | inl e ↦ rw e (refl, refl)
      | inr e ↦ rw e (refl, refl)
    ]

pub release-next_lt :
    (uid : ℕ) (p : Pool) → p.next < p.size → (release uid p).next < (release uid p).size
unfolding release
release-next_lt uid p h =
    elim (Bool-cases (ltb uid p.min || leb_ℤ (wrap_int64 (pos (p.min + p.size))) (pos uid))) [
      | inl e ↦ rw e h
      | inr e ↦ rw e h
    ]

-- A jail that is torn down gives back all that it holds.
pub teardown-Restored :
    (r : Removals) (j : Jail) (h h0 : Host)
    → Works r
    → Holds j h h0
    → Restored (teardown r j h).0 h0
unfolding teardown teardown_files release_uid
teardown-Restored r j h h0 w p =
    let h1 = release_uid j.uid h in
    let h2 = teardown_cgroup r j.cg h1 in
    let rest = teardown_cgroup-rest r j.cg h1 in
    let last = remove_dir-rest r j.dir h2 in
    let range = release-range j.uid h.pool in
    let groups = teardown_cgroup-HasGroup r j.cg h1 h0.cgroups w p.group in
    rw (p.live, p.named)
      record {
        in_use = ap (λ q. q.in_use) (last.1 ∙ rest.1) ∙ release-HoldsUid j.uid h.pool h0.pool p.uid;
        min = ap (λ q. q.min) (last.1 ∙ rest.1) ∙ range.0 ∙ p.uid.min;
        size = ap (λ q. q.size) (last.1 ∙ rest.1) ∙ range.1 ∙ p.uid.size;
        next_lt =
            subst (λ q. q.next < q.size) (sym (last.1 ∙ rest.1))
              (release-next_lt j.uid h.pool p.uid.next_lt);
        dirs = remove_dir-first r j.dir j.uid h2 h0.dirs w (rest.0 ∙ p.dirs) p.no_dir;
        cgroups = last.0 ∙ groups;
      }
