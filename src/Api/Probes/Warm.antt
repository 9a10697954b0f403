-- ===== src/Api/Probes/Warm.antt =====
-- What a readiness check of internal/api/probes.go says, and what a warm cache spares it.
use goboxd.Base.{
  ℕ, ◌-◌, ◌<◌, lt→ltb, String, Bool, true, false, ◌&&◌, [], ◌∷◌, Option, none, some, ◌≡◌, ◌↔◌, refl,
  All, arith, if◌then◌else◌, map, ap,
}
use goboxd.Config.{Registry}
use goboxd.Api.Probes.{
  ReadyProbe, CachedProbe, ProbeCache, entry, run, World, lang_key, add_language, probe_languages,
  probe_readiness, ready_status,
}

-- The cache has a probe for the key that is younger than the time to live when it is looked at.
abbrev pub IsWarm : World → ProbeCache → String → Type 0
IsWarm w c key =
    (e : CachedProbe) × (entry key c.entries ≡ some e) × ((w.times key).0 - e.at < c.ttl)

run-IsWarm :
    (w : World) (c : ProbeCache) (key : String) (p : ReadyProbe)
    → IsWarm w c key
    → ((run c key p (w.times key)).cache ≡ c) × ((run c key p (w.times key)).calls ≡ 0)
unfolding run
run-IsWarm w c key p (e, found, young) = by_times (w.times key) young
  where
    by_times :
        (t : ℕ × ℕ) → t.0 - e.at < c.ttl → ((run c key p t).cache ≡ c) × ((run c key p t).calls ≡ 0)
    by_times (now, stored) young = rw (run, found, lt→ltb (now - e.at) c.ttl young) (refl, refl)

probe_languages-IsWarm :
    (w : World) (c : ProbeCache) (reg : Registry)
    → All (λ l. IsWarm w c (lang_key l.1)) reg
    → ((probe_languages w c reg).cache ≡ c) × ((probe_languages w c reg).calls ≡ 0)
unfolding probe_languages add_language
probe_languages-IsWarm w c [] h = (refl, refl)
probe_languages-IsWarm w c ((lid, lc) ∷ reg) h =
    let hit = run-IsWarm w c (lang_key lc) (w.lang_probe lc) h.0 in
    let ih = probe_languages-IsWarm w c reg h.1 in rw (hit.0, hit.1) (ih.0, omega (arith, ih.1))

-- While the cache holds a young probe of nsjail and of every language, a readiness check makes no probe
-- and leaves the cache as it is, whatever the probes would find now.
pub probe_readiness-IsWarm :
    (w : World) (reg : Registry) (c : ProbeCache)
    → IsWarm w c "nsjail"
    → All (λ l. IsWarm w c (lang_key l.1)) reg
    → ((probe_readiness false w reg c).0 ≡ c) × ((probe_readiness false w reg c).2 ≡ 0)
unfolding probe_readiness
probe_readiness-IsWarm w reg c nsjail langs =
    let hit = run-IsWarm w c "nsjail" w.nsjail nsjail in
    let rest = probe_languages-IsWarm w c reg langs in
    rw (hit.0, hit.1) (rest.0, omega (arith, rest.1))

abbrev pub IsOk : Option ReadyProbe → Type 0
IsOk none = ⊥
IsOk (some p) = p.ok ≡ true

&&_iff : (a b : Bool) → ((a && b) ≡ true) ↔ ((a ≡ true) × (b ≡ true))
&&_iff a b = ground arith

-- The loop reports every language, and finds them all well or not.
probe_languages_lem :
    (w : World) (c : ProbeCache) (reg : Registry)
    → (((probe_languages w c reg).all_ok ≡ true)
        ↔ All (λ l. l.1.ok ≡ true) (probe_languages w c reg).languages)
      × (map (λ l. l.0) (probe_languages w c reg).languages ≡ map (λ l. l.0) reg)
unfolding probe_languages add_language
probe_languages_lem w c [] = ((λ h. tt, λ h. refl), refl)
probe_languages_lem w c ((lid, lc) ∷ reg) =
    let h = run c (lang_key lc) (w.lang_probe lc) (w.times (lang_key lc)) in
    let ih = probe_languages_lem w h.cache reg in
    let both = &&_iff h.probe.ok (probe_languages w h.cache reg).all_ok in
    (
      (λ e. let parts = both.0 e in (parts.0, ih.0.0 parts.1), λ e. both.1 (e.0, ih.0.1 e.1)),
      ap (λ t. lid ∷ t) ih.1,
    )

-- A readiness check answers 200 exactly when the service is not shutting down and the probes of nsjail
-- and of every language that it reports are good, and it reports each language of the registry; while
-- the service is shutting down it reports none.
pub ready_status-probe_readiness :
    (down : Bool) (w : World) (reg : Registry) (c : ProbeCache)
    → ((ready_status (probe_readiness down w reg c).1 ≡ 200) ↔ (
        (down ≡ false)
        × IsOk (probe_readiness down w reg c).1.nsjail
        × All (λ l. l.1.ok ≡ true) (probe_readiness down w reg c).1.languages))
      × (map (λ l. l.0) (probe_readiness down w reg c).1.languages
          ≡ (if down then [] else map (λ l. l.0) reg))
unfolding probe_readiness ready_status
ready_status-probe_readiness true w reg c = ((λ e. absurd (omega (arith, e)), λ h. cc), refl)
ready_status-probe_readiness false w reg c =
    let h = run c "nsjail" w.nsjail (w.times "nsjail") in
    let langs = probe_languages_lem w h.cache reg in
    let both = &&_iff h.probe.ok (probe_languages w h.cache reg).all_ok in
    (
      (
        λ e.
            let parts = both.0 (well (h.probe.ok && (probe_languages w h.cache reg).all_ok) e) in
            (refl, parts.0, langs.0.0 parts.1),
        λ e. rw (both.1 (e.1, langs.0.1 e.2)) refl,
      ),
      langs.1,
    )
  where
    well : (b : Bool) → ◌≡◌ {A = ℕ} (if b then 200 else 503) 200 → b ≡ true
    well true e = refl
    well false e = absurd (omega (arith, e))
