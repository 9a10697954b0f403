-- ===== src/EntryPoint/Drain.antt =====
-- The drain at the end of `main` (cmd/goboxd/main.go).
use goboxd.Base.{
  ℕ, zero, suc, ◌+◌, ◌*◌, ◌≤◌, ◌<◌, ℤ, pos, ltb_ℤ, Bool, true, false, ◌++◌, Option, none, some, ltb,
  any, ◌≡◌, refl, ◌⊎◌, inl, inr, arith, Bool-cases, Option-cases,
}
use goboxd.EntryPoint.{
  wait_for_drain_until, wait_for_drain, World, Shutdown, finished, server_closed, timed_out, Served,
  closed, broken, drained, Call, sweep_jails, sweeps, closing, shut_down, serve, main,
}

-- The loop ends: a round reads no run in flight, or one reads some after the deadline.
abbrev Ends : ℕ → (ℕ → ℕ) → (ℕ → ℤ) → Option Bool → Type 0
Ends deadline now in_flight r =
    ((j : ℕ) × (r ≡ some true) × (ltb_ℤ (pos 0) (in_flight j) ≡ false))
    ⊎ ((j : ℕ) × (r ≡ some false) × (ltb_ℤ (pos 0) (in_flight j) ≡ true) × (deadline < now j))

wait-Ends :
    (rounds deadline : ℕ) (now : ℕ → ℕ) (in_flight : ℕ → ℤ) (i : ℕ)
    → ((j : ℕ) → now j + 100 ≤ now (suc j))
    → deadline < now i + rounds * 100
    → Ends deadline now in_flight (wait_for_drain_until (suc rounds) deadline now in_flight i)
unfolding wait_for_drain_until
wait-Ends zero deadline now in_flight i ticks h = elim (Bool-cases (ltb_ℤ (pos 0) (in_flight i))) [
  | inr e ↦ rw e (inl (i, refl, e))
  | inl e ↦
      let late : ltb deadline (now i) ≡ true = ground arith in
      rw (e, late) (inr (i, refl, e, omega arith))
]
wait-Ends (suc rounds) deadline now in_flight i ticks h =
    let tick = ticks i in
    let later = wait-Ends rounds deadline now in_flight (suc i) ticks (omega (arith, tick, h)) in
    elim (Bool-cases (ltb_ℤ (pos 0) (in_flight i))) [
      | inr e ↦ rw e (inl (i, refl, e))
      | inl e ↦ elim (Bool-cases (ltb deadline (now i))) [
        | inl late ↦ rw (e, late) (inr (i, refl, e, ground arith))
        | inr early ↦ rw (e, early) later
      ]
    ]

-- The wait for the drain ends within its rounds, where each round takes at least 100 milliseconds of a
-- clock that is not behind the call: either a round reads that no run is in flight, or one that
-- comes after the 5 seconds reads that some are.
pub wait_for_drain-Ends :
    (w : World)
    → w.called ≤ w.now 0
    → ((j : ℕ) → w.now j + 100 ≤ w.now (suc j))
    → ((j : ℕ) × (wait_for_drain w ≡ some true) × (ltb_ℤ (pos 0) (w.in_flight j) ≡ false))
      ⊎ ((j : ℕ) × (wait_for_drain w ≡ some false)
          × (ltb_ℤ (pos 0) (w.in_flight j) ≡ true)
          × (w.called + 5000 < w.now j))
unfolding wait_for_drain
wait_for_drain-Ends w start ticks =
    wait-Ends 51 (w.called + 5000) w.now w.in_flight 0 ticks (omega (arith, start))

wait-true :
    (fuel deadline : ℕ) (now : ℕ → ℕ) (in_flight : ℕ → ℤ) (i : ℕ)
    → wait_for_drain_until fuel deadline now in_flight i ≡ some true
    → (j : ℕ) × (ltb_ℤ (pos 0) (in_flight j) ≡ false)
unfolding wait_for_drain_until
wait-true zero deadline now in_flight i h = cc h
wait-true (suc fuel) deadline now in_flight i h = elim (Bool-cases (ltb_ℤ (pos 0) (in_flight i))) [
  | inr e ↦ (i, e)
  | inl e ↦ elim (Bool-cases (ltb deadline (now i))) [
    | inl late ↦ let wrong = rw (wait_for_drain_until, e, late) at h in cc wrong
    | inr early ↦
        wait-true fuel deadline now in_flight (suc i) (rw (wait_for_drain_until, e, early) at h)
  ]
]

abbrev pub is_sweep : Call → Bool
is_sweep sweep_jails = true
is_sweep _ = false

any-sweeps :
    (s : Shutdown) (d : Option Bool) → any is_sweep (closing s ++ sweeps d) ≡ true → d ≡ some true
unfolding closing sweeps
any-sweeps s (some true) h = refl
any-sweeps finished (some false) h = cc h
any-sweeps finished none h = cc h
any-sweeps server_closed (some false) h = cc h
any-sweeps server_closed none h = cc h
any-sweeps timed_out (some false) h = cc h
any-sweeps timed_out none h = cc h

any-serve :
    (w : World) → any is_sweep (serve w) ≡ true → (w.served ≡ none) × (drained w ≡ some true)
unfolding serve shut_down
any-serve w h = by_served w.served refl
  where
    by_served : (s : Option Served) → w.served ≡ s → (w.served ≡ none) × (drained w ≡ some true)
    by_served (some closed) e = let wrong = rw (serve, e) at h in cc wrong
    by_served (some (broken m)) e = let wrong = rw (serve, e) at h in cc wrong
    by_served none e =
        let calls : any is_sweep (shut_down w) ≡ true = rw (serve, e) at h in
        (e, any-sweeps w.shutdown (drained w) calls)

any-main : (w : World) → any is_sweep (main w) ≡ true → any is_sweep (serve w) ≡ true
unfolding main
any-main w h = elim (Bool-cases w.hog) [
  | inl e ↦ let wrong = rw (main, e) at h in cc wrong
  | inr e ↦ elim (Option-cases w.registry) [
    | inl ok ↦ rw (main, e, ok) at h
    | inr (m, bad) ↦ let wrong = rw (main, e, bad) at h in cc wrong
  ]
]

drained-true :
    (w : World)
    → drained w ≡ some true
    → (w.shutdown ≡ finished) ⊎ ((j : ℕ) × (ltb_ℤ (pos 0) (w.in_flight j) ≡ false))
unfolding drained wait_for_drain
drained-true w h = by_shutdown w.shutdown refl
  where
    by_shutdown :
        (s : Shutdown)
        → w.shutdown ≡ s
        → (w.shutdown ≡ finished) ⊎ ((j : ℕ) × (ltb_ℤ (pos 0) (w.in_flight j) ≡ false))
    by_shutdown finished e = inl e
    by_shutdown server_closed e =
        inr (wait-true 52 (w.called + 5000) w.now w.in_flight 0 (rw (drained, e) at h))
    by_shutdown timed_out e =
        inr (wait-true 52 (w.called + 5000) w.now w.in_flight 0 (rw (drained, e) at h))

-- The process sweeps all jails only after a signal, and only if the server's graceful shutdown has
-- succeeded or the wait for the drain has read that no run is in flight.
pub main-swept :
    (w : World)
    → any is_sweep (main w) ≡ true
    → (w.served ≡ none)
      × ((w.shutdown ≡ finished) ⊎ ((j : ℕ) × (ltb_ℤ (pos 0) (w.in_flight j) ≡ false)))
main-swept w h =
    let (signalled, done) = any-serve w (any-main w h) in (signalled, drained-true w done)
