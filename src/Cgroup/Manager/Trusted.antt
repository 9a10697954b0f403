-- ===== src/Cgroup/Manager/Trusted.antt =====
-- When the manager of internal/cgroupv2/cgroupv2.go trusts a controller.
use goboxd.Base.{
  ℤ, pos, leb_ℤ, Bool, true, false, ◌&&◌, ◌||◌, none, some, ◌≡◌, refl, ◌↔◌, arith, Bool-cases, inl,
  inr, ltb_ℤ-not, Option,
}
use goboxd.Cgroup.{Files, cpu_usage_us}
use goboxd.Cgroup.Manager.{
  Manager, Probe, enforced, verify_cpu, verified, probe, new_manager, manager_cpu, JailCalls, jail,
  new_jail,
}

-- The controllers of memory and pids charge what runs in the probe's leaf.
pub record Enforces (p : Probe) : Type 0 where
  pub on : p.off ≡ false
  pub mounted : (p.statfs && p.is_cgroup2) ≡ true
  pub base : (p.mkdir_base && (p.enable_all || p.enable_two)) ≡ true
  pub ran : enforced p ≡ true

-- The manager is active exactly if cgroup v2 is not switched off, its file system is mounted, the
-- controllers of memory and pids could be enabled, and the probe has run and seen memory charged.
pub new_manager-active_iff : (p : Probe) → ((new_manager p).active ≡ true) ↔ Enforces p
unfolding new_manager probe verified
new_manager-active_iff p = ground arith

verify_cpu-inv :
    (b : Bool) (f : Files)
    → verify_cpu b f ≡ true
    → (b ≡ true) × (us : ℤ) × (cpu_usage_us f ≡ some us) × (leb_ℤ (pos 1000000) us ≡ true)
unfolding verify_cpu
verify_cpu-inv false f h = cc h
verify_cpu-inv true f h = by_usage (cpu_usage_us f) refl
  where
    by_usage :
        (u : Option ℤ)
        → cpu_usage_us f ≡ u
        → (Path Bool true true)
          × (us : ℤ) × (cpu_usage_us f ≡ some us)
          × (leb_ℤ (pos 1000000) us ≡ true)
    by_usage none e = let wrong = rw (verify_cpu, e) at h in cc wrong
    by_usage (some us) e =
        let ok = rw (verify_cpu, e) at h in
        let over = ltb_ℤ-not us (pos 1000000) in (refl, us, e, ground (arith, ok, over))

probe-cpu :
    (p : Probe)
    → ((probe p).0 && (probe p).1) ≡ true
    → (p.enable_all ≡ true) × (verify_cpu p.enable_all p.leaf ≡ true)
unfolding probe verified
probe-cpu p h = ground arith

jail-inj : {a b : Bool} → jail a ≡ jail b → a ≡ b
jail-inj e = cc e

new_jail-inv : (m : Manager) (c : JailCalls) → new_jail m c ≡ jail true → manager_cpu m ≡ true
unfolding new_jail
new_jail-inv m c h = elim (Bool-cases c.mkdir) [
  | inr e ↦ let wrong = rw (new_jail, e) at h in cc wrong
  | inl e ↦ elim (Bool-cases c.enable) [
    | inl f ↦ jail-inj (rw (new_jail, e, f) at h)
    | inr f ↦ elim (Bool-cases (manager_cpu m && c.enable_two)) [
      | inl g ↦ let wrong = rw (new_jail, e, f, g) at h in cc wrong
      | inr g ↦ let wrong = rw (new_jail, e, f, g) at h in cc wrong
    ]
  ]
]

manager_cpu-probe :
    (p : Probe)
    → manager_cpu (new_manager p) ≡ true
    → ((new_manager p).active ≡ true) × (((probe p).0 && (probe p).1) ≡ true)
unfolding manager_cpu new_manager
manager_cpu-probe p h = ground arith

-- A jail has the cpu controller only if the manager is active and the controller was enabled with
-- memory and pids, and the probe's leaf has been charged at least a second of cpu time.
pub new_jail-trusted :
    (p : Probe) (c : JailCalls)
    → new_jail (new_manager p) c ≡ jail true
    → Enforces p
      × (p.enable_all ≡ true)
      × ((us : ℤ) × (cpu_usage_us p.leaf ≡ some us) × (leb_ℤ (pos 1000000) us ≡ true))
new_jail-trusted p c h =
    let (active, flags) = manager_cpu-probe p (new_jail-inv (new_manager p) c h) in
    let (all, verdict) = probe-cpu p flags in
    let (on, us, read, enough) = verify_cpu-inv p.enable_all p.leaf verdict in
    ((new_manager-active_iff p).0 active, all, (us, read, enough))
