-- ===== src/Runner/Jail/System.antt =====
-- Many jails over time (internal/runner/jail.go): requests materialize jails and tear them down in
-- any order. `teardown` gives the uid back first and removes the files later, with other requests'
-- steps in between. `newJail` is one step: the pool locks `Alloc` and `Release`, and its other calls
-- touch only the directory and the cgroup of its own jail.
use goboxd.Base.{
  ℕ, ◌+◌, ◌≤◌, ◌<◌, String, true, false, ◌||◌, List, [], ◌∷◌, ◌++◌, map, none, some, ◌≡◌, refl, ap,
  sym, subst, ◌∙◌, inl, inr, str_eq, ltb, ◌==◌, arith, Bool-cases, leb_ℤ, pos, wrap_int64,
  wrap_int64-pos, max_int,
}
use goboxd.UidPool.{Pool, release, delete, held}
use goboxd.UidPool.Alloc.{IsValid, InRange, release-IsValid}
use goboxd.Runner.Jail.{
  Host, Jail, Calls, Removals, release_uid, teardown_files, teardown_cgroup, new_jail,
}
use goboxd.Runner.Jail.Release.{
  release-range, Works, IsFresh, Holds, Restored, delete-fresh, teardown_cgroup-rest,
  remove_dir-rest,
}
use goboxd.Runner.Jail.Materialize.{Outcome, new_jail-Outcome}

-- The host, the jails that are in use, and those whose uid is given back and whose files are not
-- yet removed.
pub record Sandboxes : Type 0 where
  pub host : Host
  pub live : List Jail
  pub closing : List Jail

pub data Step (r : Removals) (base : String → String) : Sandboxes → Sandboxes → Type 0 where
  open_jail :
      {s : Sandboxes} (c : Calls) (seccomp : String) {h : Host} (j : Jail)
      → ((dir : String) → c.mkdir_temp ≡ some dir → IsFresh base dir s.host)
      → new_jail r base c seccomp s.host ≡ (h, some j)
      → Step r base s (record s { host = h; live = j ∷ s.live })
  fail_jail :
      {s : Sandboxes} (c : Calls) (seccomp : String) {h : Host}
      → ((dir : String) → c.mkdir_temp ≡ some dir → IsFresh base dir s.host)
      → new_jail r base c seccomp s.host ≡ (h, none)
      → Step r base s (record s { host = h })
  close_jail :
      {h : Host} (xs : List Jail) (j : Jail) (ys : List Jail) {closing : List Jail}
      → Step r base
          (record { host = h; live = xs ++ j ∷ ys; closing = closing })
          (record {
            host = release_uid j.uid h;
            live = xs ++ ys;
            closing = record j { torn = true } ∷ closing;
          })
  remove_jail :
      {h : Host} {live : List Jail} (xs : List Jail) (j : Jail) (ys : List Jail)
      → Step r base
          (record { host = h; live = live; closing = xs ++ j ∷ ys })
          (record { host = teardown_files r j h; live = live; closing = xs ++ ys })

pub data Reach (r : Removals) (base : String → String) (h0 : Host) : Sandboxes → Type 0 where
  start : Reach r base h0 (record { host = h0; live = []; closing = [] })
  next : {s t : Sandboxes} → Reach r base h0 s → Step r base s t → Reach r base h0 t

abbrev pub uids : List Jail → List ℕ
uids = map (λ j. j.uid)

-- No uid occurs twice.
abbrev pub Distinct : List ℕ → Type 0
Distinct [] = Unit
Distinct (u ∷ us) = (held u us ≡ false) × Distinct us

-- The uids in use are those of the live jails, in order, and no two live jails have the same.
pub record IsSeparate (s : Sandboxes) : Type 0 where
  pub valid : IsValid s.host.pool
  pub fits : s.host.pool.min + s.host.pool.size ≤ max_int
  pub in_use : s.host.pool.in_use ≡ uids s.live
  pub distinct : Distinct (uids s.live)

InRange-same :
    (a b n m : ℕ) (us : List ℕ) → a ≡ b → n ≡ m → InRange b (b + m) us → InRange a (a + n) us
InRange-same a b n m us p q h = rw (p, q) h

Restored-IsValid : {h h0 : Host} → Restored h h0 → IsValid h0.pool → IsValid h.pool
unfolding InRange
Restored-IsValid {h} {h0} r v = record {
  nonempty = rw (r.size) (v.nonempty);
  next_lt = r.next_lt;
  in_range =
      rw (r.in_use)
        (InRange-same h.pool.min h0.pool.min h.pool.size h0.pool.size _ r.min r.size v.in_range);
}

Holds-IsValid : {j : Jail} {h h0 : Host} → Holds j h h0 → IsValid h0.pool → IsValid h.pool
unfolding InRange
Holds-IsValid {j} {h} {h0} p v = record {
  nonempty = rw (p.uid.size) (v.nonempty);
  next_lt = p.uid.next_lt;
  in_range = rw (p.uid.in_use) (
    (p.uid.low, p.uid.high),
    InRange-same h.pool.min h0.pool.min h.pool.size h0.pool.size h0.pool.in_use p.uid.min p.uid.size
        v.in_range,
  );
}

held-append : (u : ℕ) (us vs : List ℕ) → held u (us ++ vs) ≡ (held u us || held u vs)
unfolding held
held-append u [] vs = refl
held-append u (w ∷ us) vs = let ih = held-append u us vs in ground arith

-- A uid that occurs once is taken out of the list.
delete-middle :
    (us : List ℕ) (u : ℕ) (vs : List ℕ)
    → Distinct (us ++ u ∷ vs)
    → delete u (us ++ u ∷ vs) ≡ us ++ vs
unfolding delete held
delete-middle [] u vs h = let same : u == u ≡ true = ground arith in rw same (delete-fresh u vs h.0)
delete-middle (w ∷ us) u vs h =
    let ih = delete-middle us u vs h.1 in
    let apart = held-append w us (u ∷ vs) in
    let other : w == u ≡ false = ground arith in rw (other, ih) refl

InRange-middle :
    (lo hi : ℕ) (us : List ℕ) (u : ℕ) (vs : List ℕ)
    → InRange lo hi (us ++ u ∷ vs)
    → (lo ≤ u) × (u < hi)
unfolding InRange
InRange-middle lo hi [] u vs h = h.0
InRange-middle lo hi (w ∷ us) u vs h = InRange-middle lo hi us u vs h.1

Distinct-middle :
    (us : List ℕ) (u : ℕ) (vs : List ℕ) → Distinct (us ++ u ∷ vs) → Distinct (us ++ vs)
unfolding held
Distinct-middle [] u vs h = h.1
Distinct-middle (w ∷ us) u vs h =
    let all = held-append w us (u ∷ vs) in
    let some = held-append w us vs in (ground arith, Distinct-middle us u vs h.1)

map-append-uids : (xs ys : List Jail) → uids (xs ++ ys) ≡ uids xs ++ uids ys
map-append-uids [] ys = refl
map-append-uids (x ∷ xs) ys = rw (map-append-uids xs ys) refl

-- A uid in use goes back to the pool.
release-middle :
    (p : Pool) (us : List ℕ) (u : ℕ) (vs : List ℕ)
    → IsValid p
    → p.min + p.size ≤ max_int
    → p.in_use ≡ us ++ u ∷ vs
    → Distinct (us ++ u ∷ vs)
    → (release u p).in_use ≡ us ++ vs
unfolding release
release-middle p us u vs v fits e d =
    let in_range = subst (InRange p.min (p.min + p.size)) e v.in_range in
    let bounds = InRange-middle p.min (p.min + p.size) us u vs in_range in
    let low : ltb u p.min ≡ false = ground (arith, bounds.0) in
    let high : leb_ℤ (wrap_int64 (pos (p.min + p.size))) (pos u) ≡ false =
      rw (wrap_int64-pos (p.min + p.size) fits) (ground (arith, bounds.1)) in
    rw (low, high, e) (delete-middle us u vs d)

-- The pool that `teardown_files` leaves is the one it was given.
teardown_files-pool : (r : Removals) (j : Jail) (h : Host) → (teardown_files r j h).pool ≡ h.pool
unfolding teardown_files
teardown_files-pool r j h = elim (Bool-cases (str_eq j.dir "")) [
  | inl e ↦ rw e (teardown_cgroup-rest r j.cg h).1
  | inr e ↦
      rw e
        ((remove_dir-rest r j.dir (teardown_cgroup r j.cg h)).1 ∙ (teardown_cgroup-rest r j.cg h).1)
]

module _ {r : Removals} {base : String → String} (w : Works r) where
  Step-IsSeparate : {s t : Sandboxes} → Step r base s t → IsSeparate s → IsSeparate t
  unfolding release_uid
  Step-IsSeparate (open_jail {s} c seccomp {h} j fresh e) i =
      let o = new_jail-Outcome r base c seccomp s.host w i.valid i.fits fresh in
      let p : Holds j h s.host = subst (Outcome s.host) e o in
      let free : held j.uid (uids s.live) ≡ false =
        subst (λ us. held j.uid us ≡ false) i.in_use p.uid.free in
      record {
        valid = Holds-IsValid p i.valid;
        fits = p.uid.fits;
        in_use = p.uid.in_use ∙ ap (λ us. j.uid ∷ us) i.in_use;
        distinct = (free, i.distinct);
      }
  Step-IsSeparate (fail_jail {s} c seccomp {h} fresh e) i =
      let o = new_jail-Outcome r base c seccomp s.host w i.valid i.fits fresh in
      let p : Restored h s.host = subst (Outcome s.host) e o in
      record {
        valid = Restored-IsValid p i.valid;
        fits = omega (arith, i.fits, p.min, p.size);
        in_use = p.in_use ∙ i.in_use;
        distinct = i.distinct;
      }
  Step-IsSeparate (close_jail {h} xs j ys) i =
      let at : uids (xs ++ j ∷ ys) ≡ uids xs ++ j.uid ∷ uids ys = map-append-uids xs (j ∷ ys) in
      let d = subst Distinct at i.distinct in
      record {
        valid = release-IsValid h.pool j.uid i.valid;
        fits = (let r = release-range j.uid h.pool in omega (arith, i.fits, r.0, r.1));
        in_use =
            release-middle h.pool (uids xs) j.uid (uids ys) i.valid i.fits (i.in_use ∙ at) d
            ∙ sym (map-append-uids xs ys);
        distinct =
            subst Distinct (sym (map-append-uids xs ys))
              (Distinct-middle (uids xs) j.uid (uids ys) d);
      }
  Step-IsSeparate (remove_jail {h} xs j ys) i =
      let same = teardown_files-pool r j h in
      record {
        valid = subst IsValid (sym same) i.valid;
        fits = subst (λ p. p.min + p.size ≤ max_int) (sym same) i.fits;
        in_use = ap (λ p. p.in_use) same ∙ i.in_use;
        distinct = i.distinct;
      }

  Reach-invariant :
      {h0 : Host} {s : Sandboxes}
      → IsValid h0.pool
      → h0.pool.min + h0.pool.size ≤ max_int
      → h0.pool.in_use ≡ []
      → Reach r base h0 s
      → IsSeparate s
  Reach-invariant v f e start = record { valid = v; fits = f; in_use = e; distinct = tt }
  Reach-invariant v f e (next reached step) = Step-IsSeparate step (Reach-invariant v f e reached)

-- In any order of requests that make jails, fail at it, and tear jails down, where the removals work
-- and os.MkdirTemp makes new directories, from a pool without a uid in use whose range ends within 64
-- bits, no two live jails have the same uid, and the uids in use are exactly those of the live jails,
-- so that none is lost.
pub Reach-Distinct :
    {r : Removals} {base : String → String} {h0 : Host} {s : Sandboxes}
    → Works r
    → IsValid h0.pool
    → h0.pool.min + h0.pool.size ≤ max_int
    → h0.pool.in_use ≡ []
    → Reach r base h0 s
    → Distinct (uids s.live) × (s.host.pool.in_use ≡ uids s.live)
Reach-Distinct w v f e reached = let i = Reach-invariant w v f e reached in (i.distinct, i.in_use)
