-- ===== src/Tests/Process.antt =====
-- The end of the process, cmd/goboxd/main.go, on small inputs.
use goboxd.Base.{
  ℕ, ◌+◌, ◌*◌, ◌-◌, ◌<◌, pos, ltb_ℤ, true, false, none, some, ◌≡◌, ◌⊎◌, refl, arith, any,
}
use goboxd.EntryPoint.{
  World, timed_out, finished, wait_for_drain, main, drained, wait_for_drain_until,
}
use goboxd.EntryPoint.Drain.{is_sweep, wait_for_drain-Ends, main-swept}

-- Two runs are in flight after the graceful shutdown has timed out, and are over after two rounds.
abbrev two_runs : World
two_runs = record {
  hog = false;
  registry = none;
  port = "";
  served = none;
  timeout = "30";
  shutdown = timed_out;
  called = 1000;
  now = λ j. 1000 + j * 150;
  in_flight = λ j. pos (2 - j);
}

wait_for_drain_example :
    ((j : ℕ) × (wait_for_drain two_runs ≡ some true)
      × (ltb_ℤ (pos 0) (two_runs.in_flight j) ≡ false))
    ⊎ ((j : ℕ) × (wait_for_drain two_runs ≡ some false)
        × (ltb_ℤ (pos 0) (two_runs.in_flight j) ≡ true)
        × (two_runs.called + 5000 < two_runs.now j))
wait_for_drain_example = wait_for_drain-Ends two_runs (omega arith) (λ j. omega arith)

two_swept : any is_sweep (main two_runs) ≡ true
unfolding main drained wait_for_drain wait_for_drain_until
two_swept = refl

main-swept_example :
    (two_runs.served ≡ none)
    × ((two_runs.shutdown ≡ finished) ⊎ ((j : ℕ) × (ltb_ℤ (pos 0) (two_runs.in_flight j) ≡ false)))
main-swept_example = main-swept two_runs two_swept
